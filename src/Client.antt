-- ===== src/Client.antt =====
-- The modules that call the driver in services/test/callgpu/callgpu.c and
-- services/test/sysbm/sysbm.c: what both use of the driver, and strcpy. Log calls and clocks are
-- left out.
pub mod Callgpu
pub mod Sysbm
use kgpu_fga.Base.{ℕ, ◌≡◌, update, List, [], ◌∷◌}
use kgpu_fga.Kernel.Mempool.{KgpuMempool}
use kgpu_fga.Kernel.Requests.{KgpuRequest, KgpuDev}
use kgpu_fga.Kernel.Requests.Slab.{RequestCache}

-- The driver's pool, its requests and its queues. The requests are those of the cache, and the
-- queues see them from where one is submitted.
pub record Driver : Type 0 where
  pub mempool : KgpuMempool
  pub cache : RequestCache
  pub dev : KgpuDev

-- Assignments to fields of the request at `p`.
abbrev pub write_request : Driver → ℕ → KgpuRequest → Driver
write_request s p r = record s { cache = record s.cache { request = update s.cache.request p r } }

-- strcpy of the characters before the NUL into an array.
unfoldable pub strcpy : List ℕ → List ℕ → List ℕ
strcpy [] [] = 0 ∷ []
strcpy [] (x ∷ dest) = 0 ∷ dest
strcpy (a ∷ src) [] = a ∷ strcpy src []
strcpy (a ∷ src) (x ∷ dest) = a ∷ strcpy src dest

-- The pool and the requests in use are those of before.
abbrev pub Released : Driver → Driver → Type 0
Released s s' = (s'.mempool ≡ s.mempool) × (s'.cache.used ≡ s.cache.used)
