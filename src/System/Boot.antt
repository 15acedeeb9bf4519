-- ===== src/System/Boot.antt =====
-- kh_init and kh_finit of kgpu/src/userSpace/helper.c on the driver (kgpu/src/kernelSpace/main.c) and the
-- OpenCL backend (kgpu/src/gpuSpace/openCLOperations.c). Output is left out.
pub mod Up
pub mod Restart
use kgpu_fga.Base.{ℕ, ◌+◌, Bool, true, false, not, if◌then◌else◌, List, [], ◌∷◌, Option, none, some}
use kgpu_fga.Config.{CInt, nat, neg, kgpu_buf_size}
use kgpu_fga.Kernel.Bitmap.{Bits, LinuxBitmap}
use kgpu_fga.Kernel.Open.{DeviceFile, kgpu_open}
use kgpu_fga.Kernel.Mempool.{KgpuMempool, KgpuGpuMemInfo, SetupEnv}
use kgpu_fga.Kernel.Vm.{KgpuVma, kgpu_mmap}
use kgpu_fga.Kernel.Requests.{KgpuDev}
use kgpu_fga.Kernel.Control.{IoctlCmd, kgpu_ioctl}
use kgpu_fga.Gpu.Memory.{Hosts}
use kgpu_fga.Gpu.Runtime.{
  Runtime, ClAnswers, gpu_init, gpu_finit, Pinned, undefined, handle, null, address,
  gpu_alloc_pinned_mem,
}

-- The driver and the backend.
pub record Machine : Type 0 where
  pub file : DeviceFile
  pub pool : KgpuMempool
  pub dev : KgpuDev
  pub vma : KgpuVma
  pub gpu : Runtime

-- What the kernel, OpenCL and the process's memory answer: whether KGPU_BUF_SIZE bytes at an address are
-- the process's, whether mlock succeeds, where mmap places the area, and the rest as in the parts.
pub record BootEnv : Type 0 where
  pub bitmap : LinuxBitmap
  pub pinning : ClAnswers
  pub starting : ClAnswers
  pub ending : ClAnswers
  pub owned : ℕ → Bool
  pub mlock : Bool
  pub vm_start : ℕ
  pub sz_kmalloc : Bool
  pub bits_kmalloc : Bool
  pub fresh_bitmap : Bits
  pub fresh_sz : ℕ → ℕ
  pub setup : SetupEnv
  pub access_ok : Bool → ℕ → ℕ → Bool
  pub hostbuf_address : ℕ

-- KGPU_IOC_SET_GPU_BUFS and KGPU_IOC_SET_STOP (kgpu/include/kgpu.h).
abbrev pub set_gpu_bufs : IoctlCmd
set_gpu_bufs = record {
  ioc_type = 103;
  ioc_nr = 1;
  ioc_size = 16;
  ioc_read = false;
  ioc_write = true;
}

abbrev pub set_stop : IoctlCmd
set_stop = record { ioc_type = 103; ioc_nr = 3; ioc_size = 0; ioc_read = false; ioc_write = false }

-- The helper aborts, there is a fault in it or in the kernel, or it goes on.
pub data Boot (A : Type 0) : Type 0 where
  aborts faults : Boot A
  goes : A → Boot A

abbrev pub failed : CInt → Bool
failed (nat r) = false
failed (neg e) = true

-- The address that hostbuf gets; none where gpu_alloc_pinned_mem returns without a value.
abbrev pub host_address : Pinned → Option ℕ
host_address undefined = none
host_address (handle h) = some h
host_address null = some 0
host_address (address p) = some p

module _ (env : BootEnv) where
  -- From the ioctl on, which reads hostbuf.
  unfoldable pub tell_kernel : Machine → Hosts → Boot (Machine × Hosts)
  tell_kernel m hosts =
      let info : KgpuGpuMemInfo = record { uva = hosts.hostbuf.uva; size = hosts.hostbuf.size } in
      let (pool, dev, r) =
        kgpu_ioctl env.bitmap env.setup env.access_ok (λ p. info) m.pool m.dev set_gpu_bufs
          env.hostbuf_address in
      if failed r then aborts else goes (record m { pool = pool; dev = dev }, hosts)

  -- From mmap on: MAP_FAILED, or the address at which the kernel has placed the area.
  unfoldable pub map_area : Machine → ℕ → Boot (Machine × Hosts)
  unfolding tell_kernel
  map_area m uva =
      elim (kgpu_mmap env.bitmap m.vma env.vm_start (env.vm_start + kgpu_buf_size) env.sz_kmalloc
        env.bits_kmalloc env.fresh_bitmap env.fresh_sz) [
          | none ↦ faults
          | some (vma, r) ↦
              if failed r
              then aborts
              else tell_kernel (record m { vma = vma })
                  (record {
                    hostbuf = record { uva = uva; size = kgpu_buf_size };
                    hostvma = record { uva = env.vm_start; size = kgpu_buf_size };
                  })
        ]

  -- From memset on.
  unfoldable pub fill_hostbuf : Machine → ℕ → Boot (Machine × Hosts)
  unfolding map_area
  fill_hostbuf m uva =
      if not (env.owned uva)
      then faults
      else if not env.mlock
      then aborts
      else elim (gpu_init env.starting m.gpu) [
        | none ↦ faults
        | some gpu ↦ map_area (record m { gpu = gpu }) uva
      ]

  unfoldable pub kh_init : Machine → Boot (Machine × Hosts)
  unfolding fill_hostbuf
  kh_init m =
      let (file, r) = kgpu_open m.file in
      if failed r then aborts else elim (gpu_alloc_pinned_mem env.pinning m.gpu) [
        | none ↦ faults
        | some (gpu, p) ↦ elim (host_address p) [
          | none ↦ faults
          | some uva ↦ fill_hostbuf (record m { file = file; gpu = gpu }) uva
        ]
      ]

  -- close(devfd) does not reach kgpu_release: hostvma stays mapped, and the mapping holds the file until
  -- the process ends. clReleaseMemObject is given the address of hostbuf; it changes nothing that is
  -- modelled.
  unfoldable pub kh_finit : Machine → Hosts → Boot Machine
  kh_finit m hosts =
      let (pool, dev, r) =
        kgpu_ioctl env.bitmap env.setup env.access_ok (λ p. record { uva = 0; size = 0 }) m.pool
          m.dev set_stop 0 in
      elim (gpu_finit env.ending m.gpu) [
        | none ↦ faults
        | some gpu ↦ goes (record m { pool = pool; dev = dev; gpu = gpu })
      ]
