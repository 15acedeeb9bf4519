-- ===== src/Kernel/Module/Release.antt =====
-- What kgpu_init of kgpu/src/kernelSpace/main.c acquires and kgpu_cleanup releases.
use kgpu_fga.Base.{
  ℕ, ◌+◌, ◌≡◌, inl, inr, refl, ap, ◌∙◌, arith, ◌==◌, Bool, true, false, not, ◌&&◌, if◌then◌else◌,
  List, [], ◌∷◌, ◌++◌,
}
use kgpu_fga.Config.{nat}
use kgpu_fga.Kernel.Module.{
  Resource, request_cache, item_cache, sync_call_data_cache, class, region, cdev, device,
  pool_pages, pool_bitmap, pool_alloc_sz, pool_mapping, vm_alloc_sz, vm_bitmap, Module, InitEnv,
  is_zero, kgpu_init, freed, clear_gpu_mempool, clean_vm, kgpu_cleanup,
}
use kgpu_fga.Kernel.Module.Init.{caches, init_cases}

abbrev code : Resource → ℕ
code request_cache = 0
code item_cache = 1
code sync_call_data_cache = 2
code class = 3
code region = 4
code cdev = 5
code device = 6
code pool_pages = 7
code pool_bitmap = 8
code pool_alloc_sz = 9
code pool_mapping = 10
code vm_alloc_sz = 11
code vm_bitmap = 12

-- How often a resource is on the list.
abbrev pub times : Resource → List Resource → ℕ
times r [] = 0
times r (x ∷ l) = (if code r == code x then 1 else 0) + times r l

times-append : (r : Resource) (l k : List Resource) → times r (l ++ k) ≡ times r l + times r k
times-append r [] k = omega arith
times-append r (x ∷ l) k = omega (arith, times-append r l k)

-- The memory that the pointers of the pool and of the area refer to.
abbrev pub owns : Module → Resource → Bool
owns m pool_pages = not m.gmpool.pages_null
owns m pool_bitmap = not m.gmpool.bitmap_null
owns m pool_alloc_sz = not m.gmpool.alloc_sz_null
owns m pool_mapping = not (m.gmpool.kva == 0)
owns m vm_alloc_sz = not m.vm.alloc_sz_null
owns m vm_bitmap = not m.vm.bitmap_null
owns m _ = false

times-freed :
    (r x : Resource) (null : Bool)
    → times r (freed null x) ≡ (if not null && code r == code x then 1 else 0)
times-freed r x true = refl
times-freed r x false = omega arith

abbrev pool_memory : Module → List Resource
pool_memory m = clear_gpu_mempool m.gmpool

times-four :
    (r : Resource) (a b c d : List Resource)
    → times r (a ++ b ++ c ++ d) ≡ times r a + times r b + times r c + times r d
times-four r a b c d =
    omega (arith, times-append r (a ++ b ++ c) d, times-append r (a ++ b) c, times-append r a b)

times-pool :
    (m : Module) (r : Resource)
    → times r (pool_memory m)
      ≡ (if not m.gmpool.pages_null && code r == 7 then 1 else 0)
        + (if not m.gmpool.bitmap_null && code r == 8 then 1 else 0)
        + (if not m.gmpool.alloc_sz_null && code r == 9 then 1 else 0)
        + (if not (m.gmpool.kva == 0) && code r == 10 then 1 else 0)
unfolding clear_gpu_mempool
times-pool m r =
    let g = m.gmpool in
    times-four r (freed g.pages_null pool_pages) (freed g.bitmap_null pool_bitmap)
      (freed g.alloc_sz_null pool_alloc_sz) (freed (g.kva == 0) pool_mapping)
    ∙ rw
        (
          times-freed r pool_pages g.pages_null,
          times-freed r pool_bitmap g.bitmap_null,
          times-freed r pool_alloc_sz g.alloc_sz_null,
          times-freed r pool_mapping (g.kva == 0),
        )
        refl

times-vm :
    (m : Module) (r : Resource)
    → times r (clean_vm m.vm)
      ≡ (if not m.vm.alloc_sz_null && code r == 11 then 1 else 0)
        + (if not m.vm.bitmap_null && code r == 12 then 1 else 0)
unfolding clean_vm
times-vm m r =
    times-append r (freed m.vm.alloc_sz_null vm_alloc_sz) (freed m.vm.bitmap_null vm_bitmap)
    ∙ rw (times-freed r vm_alloc_sz m.vm.alloc_sz_null, times-freed r vm_bitmap m.vm.bitmap_null)
        refl

memory_times :
    (m : Module) (r : Resource)
    → times r (pool_memory m ++ clean_vm m.vm) ≡ (if owns m r then 1 else 0)
memory_times m request_cache = ground (
  arith,
  times-append request_cache (pool_memory m) (clean_vm m.vm),
  times-pool m request_cache,
  times-vm m request_cache,
)
memory_times m item_cache = ground (
  arith,
  times-append item_cache (pool_memory m) (clean_vm m.vm),
  times-pool m item_cache,
  times-vm m item_cache,
)
memory_times m sync_call_data_cache = ground (
  arith,
  times-append sync_call_data_cache (pool_memory m) (clean_vm m.vm),
  times-pool m sync_call_data_cache,
  times-vm m sync_call_data_cache,
)
memory_times m class = ground (
  arith,
  times-append class (pool_memory m) (clean_vm m.vm),
  times-pool m class,
  times-vm m class,
)
memory_times m region = ground (
  arith,
  times-append region (pool_memory m) (clean_vm m.vm),
  times-pool m region,
  times-vm m region,
)
memory_times m cdev =
    ground
      (arith, times-append cdev (pool_memory m) (clean_vm m.vm), times-pool m cdev, times-vm m cdev)
memory_times m device = ground (
  arith,
  times-append device (pool_memory m) (clean_vm m.vm),
  times-pool m device,
  times-vm m device,
)
memory_times m pool_pages = ground (
  arith,
  times-append pool_pages (pool_memory m) (clean_vm m.vm),
  times-pool m pool_pages,
  times-vm m pool_pages,
)
memory_times m pool_bitmap = ground (
  arith,
  times-append pool_bitmap (pool_memory m) (clean_vm m.vm),
  times-pool m pool_bitmap,
  times-vm m pool_bitmap,
)
memory_times m pool_alloc_sz = ground (
  arith,
  times-append pool_alloc_sz (pool_memory m) (clean_vm m.vm),
  times-pool m pool_alloc_sz,
  times-vm m pool_alloc_sz,
)
memory_times m pool_mapping = ground (
  arith,
  times-append pool_mapping (pool_memory m) (clean_vm m.vm),
  times-pool m pool_mapping,
  times-vm m pool_mapping,
)
memory_times m vm_alloc_sz = ground (
  arith,
  times-append vm_alloc_sz (pool_memory m) (clean_vm m.vm),
  times-pool m vm_alloc_sz,
  times-vm m vm_alloc_sz,
)
memory_times m vm_bitmap = ground (
  arith,
  times-append vm_bitmap (pool_memory m) (clean_vm m.vm),
  times-pool m vm_bitmap,
  times-vm m vm_bitmap,
)

all_held :
    (env : InitEnv) (m : Module)
    → (kgpu_init env m).result ≡ nat 0
    → (kgpu_init env m).held ≡ caches ++ class ∷ region ∷ cdev ∷ device ∷ []
all_held env m ok = elim (init_cases env m) [
  | inl (e, _, _) ↦ absurd (ground (arith, ap is_zero ok, ap is_zero e))
  | inr (t, _, _) ↦ elim t [ inl (_, h) ↦ h | inr (z, _) ↦ absurd (ground (arith, ap is_zero ok)) ]
]

-- After a kgpu_init that returned 0, kgpu_cleanup in any later state releases each resource as
-- often as the initialisation acquired it, and besides exactly the memory of the pool and of the
-- user-mapped area whose pointers are not NULL.
pub cleanup_releases :
    (env : InitEnv) (m m' : Module)
    → (kgpu_init env m).result ≡ nat 0
    → (r : Resource)
    → times r (kgpu_cleanup m').1 ≡ times r (kgpu_init env m).held + (if owns m' r then 1 else 0)
unfolding kgpu_cleanup clear_gpu_mempool clean_vm
cleanup_releases env m m' ok r = rw (all_held env m ok) (
    omega (
      arith,
      memory_times m' r,
      times-append r (caches ++ class ∷ region ∷ cdev ∷ device ∷ [])
          (pool_memory m' ++ clean_vm m'.vm),
    ))
