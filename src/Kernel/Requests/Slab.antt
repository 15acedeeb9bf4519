-- ===== src/Kernel/Requests/Slab.antt =====
-- kgpu_alloc_request and kgpu_free_request of kgpu/src/kernelSpace/main.c. The objects of
-- kgpu_request_cache are made by kgpu_request_constructor when Linux adds memory to the cache; which free
-- object kmem_cache_alloc hands out is a parameter, and a free leaves an object as it is. Log calls are
-- left out.
use kgpu_fga.Base.{
  ℕ, ◌+◌, ◌≤◌, ◌<◌, ◌≡◌, ◌≢◌, refl, sym, ◌∙◌, ◌^◌, arith, update, List, [], ◌∷◌, Option, none, some,
  ==_refl,
}
use kgpu_fga.Helper.{erase}
use kgpu_fga.Helper.Lists.{count, count-erase}
use kgpu_fga.Kernel.Requests.{KgpuRequest}
use kgpu_fga.Kernel.Requests.Ids.{kgpu_next_request_id, kgpu_request_constructor}

-- The constructed objects that are free and those that are in use, with the id counter.
pub record RequestCache : Type 0 where
  pub free : List ℕ
  pub used : List ℕ
  pub request : ℕ → KgpuRequest
  pub rid_sequence : ℕ

-- Linux adds an object at `p` to the cache.
unfoldable pub construct : RequestCache → ℕ → RequestCache
construct c p =
    let (r, rid) = kgpu_request_constructor c.rid_sequence in
    record c { free = p ∷ c.free; request = update c.request p r; rid_sequence = rid }

-- kgpu_alloc_request, where kmem_cache_alloc gives the object at `p`, or NULL.
unfoldable pub kgpu_alloc_request : RequestCache → Option ℕ → RequestCache × ℕ
kgpu_alloc_request c none = (c, 0)
kgpu_alloc_request c (some p) = (record c { free = erase p c.free; used = p ∷ c.used }, p)

unfoldable pub kgpu_free_request : RequestCache → ℕ → RequestCache
kgpu_free_request c p = record c { free = p ∷ c.free; used = erase p c.used }

-- What happens to the cache: besides, a client or the driver writes the fields of a request but its id,
-- or a client gives a request the next id, as sysbm.c does before it submits a request again.
pub data CacheEvent : Type 0 where
  grows : ℕ → CacheEvent
  allocs : Option ℕ → CacheEvent
  frees : ℕ → CacheEvent
  writes : ℕ → KgpuRequest → CacheEvent
  renews : ℕ → CacheEvent

unfoldable pub cache_step : RequestCache → CacheEvent → RequestCache
unfolding construct kgpu_alloc_request kgpu_free_request
cache_step c (grows p) = construct c p
cache_step c (allocs o) = (kgpu_alloc_request c o).0
cache_step c (frees p) = kgpu_free_request c p
cache_step c (writes p r) = record c {
  request = update c.request p (record r { id = (c.request p).id });
}
cache_step c (renews p) =
    let rid = kgpu_next_request_id c.rid_sequence in
    record c {
      request = update c.request p (record (c.request p) { id = rid });
      rid_sequence = rid;
    }

unfoldable pub cache_run : RequestCache → List CacheEvent → RequestCache
cache_run c [] = c
cache_run c (e ∷ es) = cache_run (cache_step c e) es

-- How often an object stands among the constructed ones.
abbrev pub copies : RequestCache → ℕ → ℕ
copies c p = count p c.free + count p c.used

-- Linux hands out a free object and adds a new one, and the driver's clients free what they use.
abbrev pub IsOrderly : RequestCache → List CacheEvent → Type 0
IsOrderly c [] = Unit
IsOrderly c (grows p ∷ es) = (copies c p ≡ 0) × IsOrderly (cache_step c (grows p)) es
IsOrderly c (allocs none ∷ es) = IsOrderly (cache_step c (allocs none)) es
IsOrderly c (allocs (some p) ∷ es) =
    (0 < count p c.free) × IsOrderly (cache_step c (allocs (some p))) es
IsOrderly c (frees p ∷ es) = (0 < count p c.used) × IsOrderly (cache_step c (frees p)) es
IsOrderly c (writes p r ∷ es) = IsOrderly (cache_step c (writes p r)) es
IsOrderly c (renews p ∷ es) = IsOrderly (cache_step c (renews p)) es

-- How many ids are given out.
abbrev pub ids_given : List CacheEvent → ℕ
ids_given [] = 0
ids_given (grows p ∷ es) = 1 + ids_given es
ids_given (allocs o ∷ es) = ids_given es
ids_given (frees p ∷ es) = ids_given es
ids_given (writes p r ∷ es) = ids_given es
ids_given (renews p ∷ es) = 1 + ids_given es

-- Each object is free or in use once, and different ones have different ids, at most that of the
-- counter.
pub record IsCache (c : RequestCache) : Type 0 where
  pub single : (p : ℕ) → copies c p ≤ 1
  pub apart :
      (p q : ℕ) → 0 < copies c p → 0 < copies c q → p ≢ q → (c.request p).id ≢ (c.request q).id
  pub bound : (p : ℕ) → 0 < copies c p → (c.request p).id ≤ c.rid_sequence

module _ (c : RequestCache) (v : IsCache c) where
  -- The same requests and objects.
  same-IsCache :
      (c' : RequestCache)
      → ((p : ℕ) → copies c' p ≡ copies c p)
      → ((p : ℕ) → (c'.request p).id ≡ (c.request p).id)
      → c'.rid_sequence ≡ c.rid_sequence
      → IsCache c'
  same-IsCache c' old ids rid = record {
    single = λ p. omega (arith, v.single p, old p);
    apart = λ p q k l d e.
        v.apart p q (omega (arith, old p, k)) (omega (arith, old q, l)) d (sym (ids p) ∙ e ∙ ids q);
    bound = λ p k. omega (arith, v.bound p (omega (arith, old p, k)), ids p, rid);
  }

  grows-IsCache :
      (p : ℕ)
      → copies c p ≡ 0
      → c.rid_sequence + 1 < 2147483648
      → IsCache (construct c p) × ((construct c p).rid_sequence ≡ c.rid_sequence + 1)
  unfolding construct kgpu_request_constructor kgpu_next_request_id count
  grows-IsCache p new small = (
    record {
      single = λ q. ground (arith, v.single q, new);
      apart = λ q r k l d. ground (arith, v.apart q r, v.bound q, v.bound r, new);
      bound = λ q k. ground (arith, v.bound q, new);
    },
    ground (arith, small),
  )

  allocs-IsCache : (p : ℕ) → 0 < count p c.free → IsCache (kgpu_alloc_request c (some p)).0
  unfolding kgpu_alloc_request count
  allocs-IsCache p here =
      same-IsCache _ (λ q. ground (arith, count-erase q p c.free, here)) (λ q. refl) refl

  frees-IsCache : (p : ℕ) → 0 < count p c.used → IsCache (kgpu_free_request c p)
  unfolding kgpu_free_request count
  frees-IsCache p here =
      same-IsCache _ (λ q. ground (arith, count-erase q p c.used, here)) (λ q. refl) refl

  writes-IsCache : (p : ℕ) (r : KgpuRequest) → IsCache (cache_step c (writes p r))
  unfolding cache_step
  writes-IsCache p r = same-IsCache _ (λ q. refl) (λ q. ground (arith, ==_refl p)) refl

  renews-IsCache :
      (p : ℕ)
      → c.rid_sequence + 1 < 2147483648
      → IsCache (cache_step c (renews p))
        × ((cache_step c (renews p)).rid_sequence ≡ c.rid_sequence + 1)
  unfolding cache_step kgpu_next_request_id
  renews-IsCache p small = (
    record {
      single = λ q. v.single q;
      apart = λ q r k l d. ground (arith, v.apart q r, v.bound q, v.bound r, small);
      bound = λ q k. ground (arith, v.bound q, small);
    },
    ground (arith, small),
  )

-- From a cache of requests in which each object is free or in use once and different ones have
-- different ids, at most that of the counter, any sequence of additions to the cache, calls of
-- kgpu_alloc_request and kgpu_free_request, writes to requests that keep their ids, and writes of
-- the next id to a request, leads to such a cache, if Linux adds new objects and hands out free
-- ones, fewer ids are given out than 2^31 less the counter, and only requests in use are freed.
pub cache_run-IsCache :
    (c : RequestCache) (es : List CacheEvent)
    → IsCache c
    → IsOrderly c es
    → c.rid_sequence + ids_given es < 2 ^ 31
    → IsCache (cache_run c es)
unfolding cache_run cache_step kgpu_alloc_request kgpu_free_request
cache_run-IsCache c [] v ok few = v
cache_run-IsCache c (grows p ∷ es) v ok few =
    let (w, rid) = grows-IsCache c v p ok.0 (omega (arith, few)) in
    cache_run-IsCache (construct c p) es w ok.1 (omega (arith, rid, few))
cache_run-IsCache c (allocs none ∷ es) v ok few = cache_run-IsCache c es v ok few
cache_run-IsCache c (allocs (some p) ∷ es) v ok few =
    cache_run-IsCache _ es (allocs-IsCache c v p ok.0) ok.1 few
cache_run-IsCache c (frees p ∷ es) v ok few =
    cache_run-IsCache _ es (frees-IsCache c v p ok.0) ok.1 few
cache_run-IsCache c (writes p r ∷ es) v ok few =
    cache_run-IsCache _ es (writes-IsCache c v p r) ok few
cache_run-IsCache c (renews p ∷ es) v ok few =
    let (w, rid) = renews-IsCache c v p (omega (arith, few)) in
    cache_run-IsCache (cache_step c (renews p)) es w ok (omega (arith, rid, few))

-- A request that is freed and handed out again has the fields that it had.
pub alloc-free_request :
    (c : RequestCache) (p : ℕ)
    → (kgpu_alloc_request (kgpu_free_request c p) (some p)).0.request ≡ c.request
unfolding kgpu_alloc_request kgpu_free_request
alloc-free_request c p = refl
