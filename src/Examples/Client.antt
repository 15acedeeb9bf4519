-- ===== src/Examples/Client.antt =====
-- callgpu.c on a pool of eight units of which three are taken, and sysbm.c on a pool of two units,
-- which is what the helper's buffer holds.
use kgpu_fga.Base.{ℕ, ◌+◌, ◌*◌, ◌≡◌, ◌⊎◌, refl, true, arith, [], ◌∷◌, Option, none, some}
use kgpu_fga.Client.{Driver, Released}
use kgpu_fga.Client.Callgpu.{minit, Submitted, Leaked, minit_cases}
use kgpu_fga.Client.Sysbm
use kgpu_fga.Kernel.Bitmap.FirstFit.{first_fit}
use kgpu_fga.Kernel.Mempool.{KgpuMempool, IsPool}
use kgpu_fga.Kernel.Requests.Slab.{RequestCache}
use kgpu_fga.Examples.Pool.{empty_pool, pool, pool-IsPool}
use kgpu_fga.Examples.Queues.{request, dev}

abbrev cache : RequestCache
cache = record { free = 20 ∷ 30 ∷ []; used = 10 ∷ []; request = request; rid_sequence = 3 }

abbrev driver : Driver
driver = record { mempool = pool; cache = cache; dev = dev (10 ∷ []) [] }

minit_cases_example :
    (((minit first_fit driver (some 20) true).dev ≡ driver.dev)
      × Released driver (minit first_fit driver (some 20) true))
    ⊎ (Submitted first_fit driver pool-IsPool 20 true ⊎ Leaked first_fit driver pool-IsPool 20 true)
minit_cases_example =
    minit_cases first_fit driver pool-IsPool 20 true (λ e. absurd (omega (arith, e)))

abbrev small_pool : KgpuMempool
small_pool = record empty_pool { npages = 512; nunits = 2 }

small_pool-IsPool : IsPool small_pool
small_pool-IsPool = record {
  sound = record {
    within = λ i h p. ground arith;
    marked = λ i j h l u. ground arith;
    apart = λ i j l h p q. ground arith;
    owned = λ j h e. ground arith;
  };
  mapped = omega arith;
  range = omega arith;
  word = omega arith;
}

abbrev small_driver : Driver
small_driver = record driver { mempool = small_pool }

abbrev objects : ℕ → Option ℕ
objects i = some (20 + 10 * i)

minit_fails_example :
    ((Sysbm.minit first_fit objects (λ i. 64 * i) small_driver).1 ≡ none)
    × Released small_driver (Sysbm.minit first_fit objects (λ i. 64 * i) small_driver).0
minit_fails_example =
    Sysbm.minit_fails first_fit objects (λ i. 64 * i) small_driver small_pool-IsPool refl
      (λ e. absurd (ground (arith, e)))
