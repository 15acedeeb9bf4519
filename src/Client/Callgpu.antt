-- ===== src/Client/Callgpu.antt =====
-- services/test/callgpu/callgpu.c: one request with a buffer of 2048 bytes, and its callback.
use kgpu_fga.Base.{
  ℕ, ◌*◌, ◌<◌, ◌≡◌, ◌≢◌, ◌⊎◌, inl, inr, refl, ap, ◌∙◌, arith, Bool, true, false, if◌then◌else◌,
  ◌==◌, Bool-cases, ==_refl, update, add64, List, [], ◌∷◌, ◌++◌, Option, some,
}
use kgpu_fga.Client.{Driver, Released, write_request, strcpy}
use kgpu_fga.Config.{kgpu_terminated, CInt}
use kgpu_fga.Helper.{erase}
use kgpu_fga.Kernel.Bitmap.{LinuxBitmap}
use kgpu_fga.Kernel.Mempool.{KgpuMempool, req_nunits, kgpu_vmalloc, kgpu_vfree, IsPool}
use kgpu_fga.Kernel.Mempool.Alloc.{vmalloc_cases}
use kgpu_fga.Kernel.Mempool.Free.{vfree-vmalloc}
use kgpu_fga.Kernel.Requests.{KgpuRequest, KgpuDev, client, kgpu_call_async}
use kgpu_fga.Kernel.Requests.Slab.{kgpu_alloc_request, kgpu_free_request}

-- "nonexist service"
abbrev service : List ℕ
service =
    110 ∷ 111 ∷ 110 ∷ 101 ∷ 120 ∷ 105 ∷ 115 ∷ 116 ∷ 32 ∷ 115 ∷ 101 ∷ 114 ∷ 118 ∷ 105 ∷ 99 ∷ 101 ∷ []

-- The function of the client that is called back.
abbrev pub callback : ℕ
callback = 0

-- The fields that minit sets.
unfoldable pub prepared : KgpuRequest → ℕ → KgpuRequest
prepared r buf = record r {
  in_addr = buf;
  insize = 1024;
  out_addr = add64 buf 1024;
  outsize = 1024;
  service_name = strcpy service r.service_name;
  callback = client callback;
}

-- kgpu_call_async(request): minit does not read the result, which stands here beside the state.
unfoldable pub submit : Driver → ℕ → Bool → Driver × CInt
submit s req item_ok =
    let (d, r) = kgpu_call_async (record s.dev { request = s.cache.request }) req item_ok in
    (record s { dev = d }, r)

module _ (B : LinuxBitmap) where
  -- From kgpu_vmalloc on, for a request other than NULL.
  unfoldable pub fill : Driver → ℕ → Bool → Driver
  unfolding submit prepared
  fill s req item_ok =
      let (m, buf) = kgpu_vmalloc B s.mempool (1024 * 2) in
      let r = s.cache.request req in
      let s' = write_request (record s { mempool = m }) req (record r { in_addr = buf }) in
      if buf == 0
      then record s' { cache = kgpu_free_request s'.cache req }
      else (submit (write_request (record s { mempool = m }) req (prepared r buf)) req item_ok).0

  -- `object`: what kmem_cache_alloc gives for the request; `item_ok`: whether it gives an item.
  unfoldable pub minit : Driver → Option ℕ → Bool → Driver
  unfolding fill
  minit s object item_ok =
      let (c, req) = kgpu_alloc_request s.cache object in
      if req == 0 then record s { cache = c } else fill (record s { cache = c }) req item_ok

  unfoldable pub mycb : Driver → ℕ → Driver
  mycb s req = record s {
    mempool = kgpu_vfree B s.mempool (s.dev.request req).in_addr;
    cache = kgpu_free_request s.cache req;
  }

nz_test : (p : ℕ) → p ≢ 0 → (p == 0) ≡ false
nz_test p d = ground (arith, d)

module _ (d : KgpuDev) (p : ℕ) where
  async_request : (ok : Bool) → (kgpu_call_async d p ok).0.request ≡ d.request
  unfolding kgpu_call_async
  async_request ok = ground arith

  async_cases :
      (ok : Bool)
      → ((kgpu_call_async d p ok).0.reqs ≡ d.reqs ++ p ∷ [])
        ⊎ (((d.state ≡ kgpu_terminated) ⊎ (ok ≡ false))
            × ((kgpu_call_async d p ok).0.reqs ≡ d.reqs))
  unfolding kgpu_call_async
  async_cases ok = elim (Bool-cases (d.state == kgpu_terminated)) [
    | inl e ↦ inr (inl (ground (arith, e)), rw e refl)
    | inr e ↦ elim (Bool-cases ok) [
      | inl f ↦ inl (rw (e, f) refl)
      | inr f ↦ inr (inr f, rw (e, f) refl)
    ]
  ]

-- What becomes of a request at `p` that is not NULL.
module _ (B : LinuxBitmap) (s : Driver) (valid : IsPool s.mempool) (p : ℕ) (ok : Bool) where
  abbrev after : Driver
  after = minit B s (some p) ok

  -- The request is on the queue; once the driver calls mycb, whatever it and the others have made of
  -- the queues and of the request's other fields, the pool and the requests are those of before.
  abbrev pub Submitted : Type 0
  Submitted =
      (after.dev.reqs ≡ s.dev.reqs ++ p ∷ [])
      × ((d : KgpuDev)
          → (d.request p).in_addr ≡ (after.dev.request p).in_addr
          → Released s (mycb B (record after { dev = d }) p))

  -- The driver refuses the request, which stays in use with its buffer.
  abbrev pub Leaked : Type 0
  Leaked =
      ((s.dev.state ≡ kgpu_terminated) ⊎ (ok ≡ false))
      × (after.dev.reqs ≡ s.dev.reqs)
      × (after.cache.used ≡ p ∷ s.cache.used)
      × (after.mempool ≡ (kgpu_vmalloc B s.mempool 2048).0)
      × ((kgpu_vmalloc B s.mempool 2048).1 ≢ 0)

  one_unit : 0 < req_nunits 2048
  unfolding req_nunits
  one_unit = omega arith

  abbrev grant : KgpuMempool × ℕ
  grant = kgpu_vmalloc B s.mempool 2048

  unfolded :
      p ≢ 0
      → (grant.1 == 0) ≡ false
      → after
        ≡ (submit
            (write_request
              (record s { mempool = grant.0; cache = (kgpu_alloc_request s.cache (some p)).0 })
              p
              (prepared (s.cache.request p) grant.1))
            p
            ok).0
  unfolding minit fill kgpu_alloc_request
  unfolded nz e = rw (nz_test p nz, e) refl

  no_buffer :
      p ≢ 0
      → (grant.1 == 0) ≡ true
      → (after.dev ≡ s.dev) × (after.mempool ≡ grant.0) × (after.cache.used ≡ s.cache.used)
  unfolding minit fill kgpu_alloc_request kgpu_free_request erase
  no_buffer nz e = rw (nz_test p nz, e, ==_refl p) (refl, refl, refl)

  null_pool : (grant.1 == 0) ≡ true → grant.0 ≡ s.mempool
  null_pool e = elim (vmalloc_cases B valid 2048 one_unit) [
    | inl (f, _) ↦ rw f refl
    | inr (i, g) ↦ absurd (ground (arith, e, g.address, valid.mapped))
  ]

  -- The queues as kgpu_call_async finds them.
  abbrev queues : KgpuDev
  queues = record s.dev {
    request = update s.cache.request p (prepared (s.cache.request p) grant.1);
  }

  called :
      p ≢ 0
      → (grant.1 == 0) ≡ false
      → (after.mempool ≡ grant.0)
        × (after.cache.used ≡ p ∷ s.cache.used)
        × (after.dev ≡ (kgpu_call_async queues p ok).0)
  unfolding submit kgpu_alloc_request
  called nz e = rw (unfolded nz e) (refl, refl, refl)

  address : p ≢ 0 → (grant.1 == 0) ≡ false → (after.dev.request p).in_addr ≡ grant.1
  unfolding prepared
  address nz e =
      let (_, _, q) = called nz e in rw q (rw (async_request queues p ok, ==_refl p) refl)

  released :
      p ≢ 0
      → (grant.1 == 0) ≡ false
      → (d : KgpuDev) → (d.request p).in_addr ≡ (after.dev.request p).in_addr
      → Released s (mycb B (record after { dev = d }) p)
  unfolding mycb kgpu_free_request erase
  released nz e d same =
      let (m, u, _) = called nz e in
      (rw (m, same, address nz e) (vfree-vmalloc B valid 2048 one_unit), rw (u, ==_refl p) refl)

  -- On a sound pool that is set up, minit of callgpu.c with a request that is not NULL either
  -- leaves the queues, the pool and the requests in use as they were, or puts the request at the
  -- end of the first queue, and then its callback, whatever has become of the queues and of the
  -- request's fields but its buffer, restores the pool and the requests in use, or the driver has
  -- stopped or has no item, the queue is as it was, and the request and its buffer stay allocated.
  pub minit_cases : p ≢ 0 → ((after.dev ≡ s.dev) × Released s after) ⊎ (Submitted ⊎ Leaked)
  minit_cases nz = elim (Bool-cases (grant.1 == 0)) [
    | inl e ↦ let (same, m, u) = no_buffer nz e in inl (same, (m ∙ null_pool e, u))
    | inr e ↦
        let (m, u, q) = called nz e in
        elim (async_cases queues p ok) [
          | inl f ↦ inr (inl (ap (λ (d : KgpuDev). d.reqs) q ∙ f, released nz e))
          | inr (why, f) ↦
              inr (inr (why, ap (λ (d : KgpuDev). d.reqs) q ∙ f, u, m, λ z. ground (arith, e, z)))
        ]
  ]
