-- ===== src/Examples/Cache.antt =====
-- The cache of requests of kgpu/src/kernelSpace/main.c: two objects are added, one is handed out, freed and
-- handed out again.
use kgpu_fga.Base.{refl, arith, List, [], ◌∷◌, some}
use kgpu_fga.Helper.{erase}
use kgpu_fga.Helper.Lists.{count}
use kgpu_fga.Kernel.Requests.Ids.{kgpu_request_constructor}
use kgpu_fga.Kernel.Requests.Slab.{
  RequestCache, CacheEvent, grows, allocs, frees, construct, kgpu_alloc_request, kgpu_free_request,
  cache_step, cache_run, IsCache, IsOrderly, cache_run-IsCache,
}
use kgpu_fga.Examples.Queues.{request}

abbrev no_objects : RequestCache
no_objects = record { free = []; used = []; request = request; rid_sequence = 0 }

no_objects-IsCache : IsCache no_objects
unfolding count
no_objects-IsCache = record {
  single = λ p. omega arith;
  apart = λ p q k l d. absurd (omega (arith, k));
  bound = λ p k. absurd (omega (arith, k));
}

abbrev use_again : List CacheEvent
use_again = grows 20 ∷ grows 30 ∷ allocs (some 20) ∷ frees 20 ∷ allocs (some 20) ∷ []

use_again-IsOrderly : IsOrderly no_objects use_again
unfolding count erase cache_step construct kgpu_alloc_request kgpu_free_request
    kgpu_request_constructor
use_again-IsOrderly = (refl, (refl, (omega arith, (omega arith, (omega arith, tt)))))

cache_run-IsCache_example : IsCache (cache_run no_objects use_again)
cache_run-IsCache_example =
    cache_run-IsCache no_objects use_again no_objects-IsCache use_again-IsOrderly (omega arith)
