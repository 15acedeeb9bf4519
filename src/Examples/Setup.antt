-- ===== src/Examples/Setup.antt =====
-- set_gpu_mempool of kgpu/src/kernelSpace/main.c for a buffer of eight units: on the first call, and
-- on a second one, which finds the table of sizes of the first.
use kgpu_fga.Base.{◌+◌, ◌*◌, ◌≤◌, ◌≡◌, refl, true, false, arith}
use kgpu_fga.Config.{kgpu_buf_unit_size, nat}
use kgpu_fga.Kernel.Bitmap.FirstFit.{first_fit}
use kgpu_fga.Kernel.Kutils.{PageTables}
use kgpu_fga.Kernel.Mempool.{KgpuMempool, KgpuGpuMemInfo, SetupEnv, set_gpu_mempool, IsPool}
use kgpu_fga.Kernel.Mempool.Setup.{setup-IsPool}

abbrev pub tables : PageTables
tables = record {
  pgd_none = λ v. false;
  pud_none = λ v. false;
  pmd_none = λ v. false;
  pte_present = λ v. true;
  pte_page = λ v. v + 1;
}

abbrev pub env : SetupEnv
env = record {
  kmalloc_pages = true;
  kmalloc_bitmap = true;
  kmalloc_alloc_sz = true;
  fresh_pages = λ i. 7;
  fresh_bitmap = λ j. true;
  fresh_alloc_sz = λ i. 0;
  tables = tables;
  vmap = λ pages n. 1048576;
}

abbrev pub buffer : KgpuGpuMemInfo
buffer = record { uva = 4096; size = 8388608 }

-- Before the first call every pointer is NULL.
abbrev pub no_pool : KgpuMempool
no_pool = record {
  uva = 0;
  kva = 0;
  pages = λ i. 0;
  pages_null = true;
  npages = 0;
  nunits = 0;
  bitmap = λ j. false;
  bitmap_null = true;
  alloc_sz = λ i. 0;
  alloc_sz_null = true;
}

-- A pool whose table of sizes has an entry at unit 4.
abbrev used_pool : KgpuMempool
used_pool = record no_pool { alloc_sz = λ i. i; alloc_sz_null = false }

first_ok : (set_gpu_mempool first_fit env no_pool buffer).1 ≡ nat 0
unfolding set_gpu_mempool
first_ok = ground arith

second_ok : (set_gpu_mempool first_fit env used_pool buffer).1 ≡ nat 0
unfolding set_gpu_mempool
second_ok = ground arith

second_nunits : (set_gpu_mempool first_fit env used_pool buffer).0.nunits ≡ 8
unfolding set_gpu_mempool
second_nunits = ground arith

first_range :
    (set_gpu_mempool first_fit env no_pool buffer).0.kva
      + (set_gpu_mempool first_fit env no_pool buffer).0.nunits * kgpu_buf_unit_size
    ≤ 18446744073709551616
unfolding set_gpu_mempool
first_range = ground arith

setup-IsPool_example : IsPool (set_gpu_mempool first_fit env no_pool buffer).0
setup-IsPool_example = setup-IsPool first_fit env no_pool buffer first_ok (λ i h. refl) first_range
