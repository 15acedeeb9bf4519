-- ===== src/Examples/Pool.antt =====
-- kgpu_vmalloc and kgpu_vfree of kgpu/src/kernelSpace/main.c on a pool of eight units, of which the
-- first three are taken.
use kgpu_fga.Base.{ℕ, ◌+◌, ◌/◌, ◌≤◌, ◌<◌, ◌≡◌, ◌≢◌, ◌⊎◌, ◌↔◌, true, false, arith, sub64}
use kgpu_fga.Config.{kgpu_buf_unit_size}
use kgpu_fga.Kernel.Bitmap.{IsClear}
use kgpu_fga.Kernel.Bitmap.FirstFit.{first_fit, search_from, all_clear}
use kgpu_fga.Kernel.Table.{Live}
use kgpu_fga.Kernel.Mempool.{KgpuMempool, table, req_nunits, kgpu_vmalloc, kgpu_vfree, IsPool}
use kgpu_fga.Kernel.Mempool.Alloc.{unit_address}
use kgpu_fga.Kernel.Mempool.Free.{vmalloc-IsPool, vmalloc-Live, vfree-Live, vfree-vmalloc}

abbrev pub empty_pool : KgpuMempool
empty_pool = record {
  uva = 4096;
  kva = 1048576;
  pages = λ i. i;
  pages_null = false;
  npages = 2048;
  nunits = 8;
  bitmap = λ j. false;
  bitmap_null = false;
  alloc_sz = λ i. 0;
  alloc_sz_null = false;
}

empty_pool-IsPool : IsPool empty_pool
empty_pool-IsPool = record {
  sound = record {
    within = λ i h p. ground arith;
    marked = λ i j h l u. ground arith;
    apart = λ i j l h p q. ground arith;
    owned = λ j h e. ground arith;
  };
  mapped = omega arith;
  range = omega arith;
  word = omega arith;
}

-- 3000000 bytes take three units.
abbrev pub pool : KgpuMempool
pool = (kgpu_vmalloc first_fit empty_pool 3000000).0

three_units : 0 < req_nunits 3000000
unfolding req_nunits
three_units = omega arith

pub pool-IsPool : IsPool pool
pool-IsPool = vmalloc-IsPool first_fit empty_pool-IsPool 3000000 three_units

pub two_units : 0 < req_nunits 2000000
unfolding req_nunits
two_units = omega arith

pub vmalloc_pool : (kgpu_vmalloc first_fit pool 2000000).1 ≢ 0
unfolding kgpu_vmalloc req_nunits search_from all_clear
vmalloc_pool = λ e. ground arith

vmalloc-Live_example :
    (i : ℕ) × ((kgpu_vmalloc first_fit pool 2000000).1 ≡ unit_address pool i)
    × (i + req_nunits 2000000 ≤ pool.nunits)
    × IsClear pool.bitmap i (req_nunits 2000000)
    × IsPool (kgpu_vmalloc first_fit pool 2000000).0
    × ((j : ℕ)
        → ((kgpu_vmalloc first_fit pool 2000000).0.bitmap j ≡ true)
          ↔ ((pool.bitmap j ≡ true) ⊎ ((i ≤ j) × (j < i + req_nunits 2000000))))
    × ((k n : ℕ) → Live (table pool) k n → (k + n ≤ i) ⊎ (i + req_nunits 2000000 ≤ k))
    × ((k n : ℕ)
        → Live (table (kgpu_vmalloc first_fit pool 2000000).0) k n
          ↔ (Live (table pool) k n ⊎ ((k ≡ i) × (n ≡ req_nunits 2000000))))
vmalloc-Live_example = vmalloc-Live first_fit pool-IsPool 2000000 two_units vmalloc_pool

abbrev first_unit : ℕ
first_unit = sub64 1048576 pool.kva / kgpu_buf_unit_size

abbrev freed : KgpuMempool
freed = kgpu_vfree first_fit pool 1048576

vfree-Live_example :
    IsPool freed
    × ((k n : ℕ) → Live (table freed) k n ↔ (Live (table pool) k n × (k ≢ first_unit)))
    × (((n : ℕ) × Live (table pool) first_unit n
          × ((j : ℕ)
              → (freed.bitmap j ≡ true)
                ↔ ((pool.bitmap j ≡ true) × ((j < first_unit) ⊎ (first_unit + n ≤ j)))))
        ⊎ (((n : ℕ) → ¬ Live (table pool) first_unit n) × (freed ≡ pool)))
vfree-Live_example = vfree-Live first_fit pool-IsPool 1048576

vfree-vmalloc_example :
    kgpu_vfree first_fit
      (kgpu_vmalloc first_fit pool 2000000).0
      (kgpu_vmalloc first_fit pool 2000000).1
    ≡ pool
vfree-vmalloc_example = vfree-vmalloc first_fit pool-IsPool 2000000 two_units

empty_found : search_from (λ j. false) 8 0 0 9 < 8
unfolding search_from all_clear
empty_found = omega arith
