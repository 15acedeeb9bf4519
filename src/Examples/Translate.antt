-- ===== src/Examples/Translate.antt =====
-- fill_ku_request of kgpu/src/kernelSpace/main.c for an input in a block of two units.
use kgpu_fga.Base.{◌+◌, ◌*◌, ◌<◌, ◌≡◌, refl, arith}
use kgpu_fga.Kernel.Bitmap.FirstFit.{first_fit, search_from, all_clear}
use kgpu_fga.Kernel.Mempool.{req_nunits, kgpu_vmalloc}
use kgpu_fga.Kernel.Requests.{KgpuRequest, fill_ku_request}
use kgpu_fga.Kernel.Requests.Translate.{fill-vmalloc}
use kgpu_fga.Examples.Pool.{pool, pool-IsPool, two_units, vmalloc_pool}
use kgpu_fga.Examples.Queues.{request}

-- The pool with 3 of its 8 units taken.
abbrev input : KgpuRequest
input = record (request 10) { in_addr = (kgpu_vmalloc first_fit pool 2000000).1 + 100 }

pool_sizes : (pool.nunits ≡ 8) × (pool.npages ≡ 2048) × (pool.kva ≡ 1048576) × (pool.uva ≡ 4096)
unfolding kgpu_vmalloc req_nunits search_from all_clear
pool_sizes = (refl, refl, refl, refl)

near : 100 < req_nunits 2000000 * 1048576
unfolding req_nunits
near = omega arith

fill-vmalloc_example :
    (fill_ku_request pool.uva pool.kva pool.npages input).in_addr + pool.kva
    ≡ pool.uva + input.in_addr
fill-vmalloc_example =
    fill-vmalloc first_fit pool-IsPool (omega (arith, pool_sizes)) (omega (arith, pool_sizes))
      (omega (arith, pool_sizes)) (omega (arith, pool_sizes)) 2000000 two_units vmalloc_pool 100
      near input refl
