-- ===== src/Lib.antt =====
-- KGPU: a Linux driver (kgpu/src/kernelSpace/main.c) through which kernel modules have work done on a
-- GPU, and a helper process (kgpu/src/userSpace/helper.c) that takes the requests from the driver,
-- runs the services for them with the operations of kgpu/src/gpuSpace and writes the answers back.
--
-- A module allocates a buffer in the driver's pool (kgpu_vmalloc), fills in a request and submits it
-- (kgpu_call_async or kgpu_call_sync). The helper reads the request from the device file, moves it
-- through its lists by state, and writes a response, on which the driver calls the request's callback.
--
--   Base          shared names; lists, Boolean tests and machine words
--   Config        constants, ADDR_WITHIN and ADDR_REBASE, errno (kgpu/include/kgpu.h, kkgpu.h)
--   Kernel        the driver
--     Bitmap      the bitmap functions of Linux, a parameter with their documented laws
--     Table       a bitmap with a table of block sizes, which pool and mapped area share
--     Kutils      kgpu_v2page of kgpu/src/kgpu_kutils.c
--     Mempool     kgpu_vmalloc, kgpu_vfree, set_gpu_mempool; Between has the calls that come between the
--                 two parts of kgpu_vfree
--     Vm          kgpu_alloc_mmap_area, kgpu_free_mmap_area, kgpu_unmap_area, kgpu_map_pages,
--                 kgpu_map_pfns, kgpu_mmap
--     Requests    kgpu_call_async, kgpu_call_sync, kgpu_read, kgpu_write, the request ids; Read has
--                 the calls that come between the two locks of kgpu_read
--     Open        kgpu_open and kgpu_release, as steps that interleave
--     Control     kgpu_poll and kgpu_ioctl
--     Module      kgpu_init and kgpu_cleanup, with clear_gpu_mempool and clean_vm
--   Helper        the lists of helper.c, its handlers and the rounds of kh_main_loop; Input has
--                 kh_get_next_service_request
--   ListHead      the linked lists of kgpu/include/list.h
--   Service       the registry of services and their libraries, kgpu/src/userSpace/service.c
--   Gpu           of openCLOperations.c: Streams the command queues, Ranges the ranges to pin,
--                 Memory the device memory of a request, Runtime the start and the end
--   Cuda          the same operations in kgpu/src/gpuSpace/cudaOperations.cu
--   System        driver and helper together: Exchange and Progress the requests and responses over
--                 the device file, Boot kh_init and kh_finit
--   Log           kgpu_generic_log of kgpu/src/kgpu_log.c, printErrorMessage of kgpu/src/utils
--   Client        services/test/callgpu/callgpu.c and services/test/sysbm/sysbm.c, which call the driver
--   Examples      the theorems at concrete inputs
--
-- State is passed explicitly. A pointer is its number, with 0 for NULL; requests, items and sync call
-- data lie in stores under their addresses. An `unsigned long` has 64 bits and a `u32` has 32, with the
-- wrap-around written out. What runs under a lock is one step, kgpu_vfree
-- is one before its lock and one under it, and a call that waits is split at the wait, so that histories and rounds interleave such steps in any order. A fault (a call through NULL,
-- an access to memory that is freed) is `none`. Allocators, page tables, vm_insert_page, vmap, the
-- services and the GPU answer through parameters.
--
-- Helper keeps its lists as lists of addresses; ListHead has the pointers, where an entry is moved from
-- one list to another. Helper reads its requests as arrivals, one for each round, and Helper.Input has the
-- calls of poll, malloc and read that make them. System puts the driver behind these calls: what poll
-- and read return is what kgpu_poll and kgpu_read do, and each response is a call of kgpu_write. There a
-- state is matched if of each id the helper has as many live requests as stand on the queue of those that it
-- has read.
--
-- Loops run over lists or over numbers known beforehand (the pages of a buffer, the eight streams), so
-- that they need no fuel; kh_main_loop takes one entry for each round that it runs. The loops over
-- pointers, list_for_each and kh_unload_all_services, take fuel, for which one more than the number of
-- entries is enough.
--
-- Not modelled: the options that main of the helper reads; the texts that are printed; of both GPU files
-- gpu_free_pinned_mem, of the CUDA file also gpu_alloc_pinned_mem and gpu_unpin_mem, each a single call of
-- the library; kgpu_map_page, a single call of Linux, and the fault handler of the user-mapped area, which
-- only logs; srv_test.c, srv_test.cu, calg2.c and the measured calls of sysbm.c (services/test). In System
-- the clients use kgpu_call_async, and a request has a callback of its client.
pub mod Base
pub mod Client
pub mod Config
pub mod Cuda
pub mod Examples
pub mod Gpu
pub mod Helper
pub mod Kernel
pub mod ListHead
pub mod Log
pub mod Service
pub mod System
