-- ===== src/Client/Sysbm.antt =====
-- services/test/sysbm/sysbm.c: the ten requests and buffers that minit makes before it measures, and
-- what it releases where one cannot be made. The calls that it measures are left out.
use kgpu_fga.Base.{
  ℕ, zero, suc, ◌*◌, ◌/◌, ◌<◌, ◌≡◌, ◌≢◌, inl, inr, refl, ap, ◌∙◌, arith, Bool, true, false,
  if◌then◌else◌, ◌==◌, ==_refl, update, List, [], ◌∷◌, Option, none, some,
}
use kgpu_fga.Client.{Driver, Released, write_request, strcpy}
use kgpu_fga.Config.{page_size, kgpu_buf_size, kgpu_buf_nr_frames_per_unit}
use kgpu_fga.Helper.{erase}
use kgpu_fga.Kernel.Bitmap.{LinuxBitmap}
use kgpu_fga.Kernel.Mempool.{req_nunits, kgpu_vmalloc, kgpu_vfree, IsPool}
use kgpu_fga.Kernel.Mempool.Alloc.{vmalloc_cases}
use kgpu_fga.Kernel.Requests.{KgpuRequest, client}
use kgpu_fga.Kernel.Requests.Slab.{kgpu_alloc_request, kgpu_free_request}

abbrev max_mem_sz : ℕ
max_mem_sz = 32 * 1024 * 1024

abbrev pub batch_nr : ℕ
batch_nr = 10

-- "empty_service"
abbrev service : List ℕ
service = 101 ∷ 109 ∷ 112 ∷ 116 ∷ 121 ∷ 95 ∷ 115 ∷ 101 ∷ 114 ∷ 118 ∷ 105 ∷ 99 ∷ 101 ∷ []

-- The function of the client that is called back.
abbrev callback : ℕ
callback = 0

-- The arrays on the stack of minit.
pub record Batch : Type 0 where
  pub rs : ℕ → ℕ
  pub bufs : ℕ → ℕ

abbrev cleared : Batch
cleared = record { rs = λ i. 0; bufs = λ i. 0 }

-- The fields that minit sets; `done` is the address of the completion.
unfoldable prepared : KgpuRequest → (buf done : ℕ) → KgpuRequest
prepared r buf done = record r {
  in_addr = buf;
  out_addr = buf;
  callback = client callback;
  kdata = done;
  kdatasize = 8;
  service_name = strcpy service r.service_name;
  insize = page_size;
  outsize = page_size;
  udata = 0;
  udatasize = 0;
}

module _ (B : LinuxBitmap) where
  -- The body of the first loop for `i`: the state, the arrays, and whether both are made. `object`:
  -- what kmem_cache_alloc gives.
  unfoldable make_one :
      Driver → Batch → (i : ℕ) → (object : Option ℕ) → (done : ℕ) → Driver × Batch × Bool
  unfolding prepared
  make_one s b i object done =
      let (c, req) = kgpu_alloc_request s.cache object in
      let b' = record b { rs = update b.rs i req } in
      if req == 0
      then (record s { cache = c }, b', false)
      else let (m, buf) = kgpu_vmalloc B s.mempool max_mem_sz in
        let b'' = record b' { bufs = update b.bufs i buf } in
        if buf == 0 then (record s { cache = c; mempool = m }, b'', false) else (
          write_request (record s { cache = c; mempool = m }) req
              (prepared (c.request req) buf done),
          b'',
          true,
        )

  -- The first loop from `i` on, with `k` to go.
  unfoldable make_batch : (ℕ → Option ℕ) → (ℕ → ℕ) → Driver → Batch → ℕ → ℕ → Driver × Batch × Bool
  unfolding make_one
  make_batch objects done s b i zero = (s, b, true)
  make_batch objects done s b i (suc k) =
      let (s', b', made) = make_one s b i (objects i) (done i) in
      let rest = make_batch objects done s' b' (suc i) k in if made then rest else (s', b', false)

  unfoldable release_one : Driver → Batch → ℕ → Driver
  release_one s b i =
      let s' = if b.rs i == 0 then s else record s { cache = kgpu_free_request s.cache (b.rs i) } in
      if b.bufs i == 0 then s' else record s' { mempool = kgpu_vfree B s'.mempool (b.bufs i) }

  -- The loop of the cleanup from `i` on, with `k` to go.
  unfoldable cleanup : Driver → Batch → ℕ → ℕ → Driver
  unfolding release_one
  cleanup s b i zero = s
  cleanup s b i (suc k) = cleanup (release_one s b i) b (suc i) k

  -- Up to the first measured call: the batch, or none where minit has gone to the cleanup and
  -- returned.
  unfoldable pub minit : (ℕ → Option ℕ) → (ℕ → ℕ) → Driver → Driver × Option Batch
  unfolding make_batch cleanup
  minit objects done s =
      let (s', b, made) = make_batch objects done s cleared 0 batch_nr in
      if made then (s', some b) else (cleanup s' b 0 batch_nr, none)

module _ (B : LinuxBitmap) (objects : ℕ → Option ℕ) (done : ℕ → ℕ) (s : Driver) where
  batch_fails :
      (b : Batch) (i k : ℕ) (r : Driver × Batch)
      → make_one B s b i (objects i) (done i) ≡ (r.0, r.1, false)
      → make_batch B objects done s b i (suc k) ≡ (r.0, r.1, false)
  unfolding make_batch
  batch_fails b i k r e = rw e refl

  cleanup_empty :
      (b : Batch) (i k : ℕ)
      → 0 < i
      → ((j : ℕ) → 0 < j → (b.rs j ≡ 0) × (b.bufs j ≡ 0))
      → cleanup B s b i k ≡ s
  unfolding cleanup release_one
  cleanup_empty b i zero l empty = refl
  cleanup_empty b i (suc k) l empty =
      rw ((empty i l).0, (empty i l).1) (cleanup_empty b (suc i) k (omega arith) empty)

  minit_of :
      (r : Driver × Batch)
      → make_batch B objects done s cleared 0 batch_nr ≡ (r.0, r.1, false)
      → minit B objects done s ≡ (cleanup B r.0 r.1 0 batch_nr, none)
  unfolding minit
  minit_of r e = rw e refl

module _ (B : LinuxBitmap) (objects : ℕ → Option ℕ) (done : ℕ → ℕ) (s : Driver)
    (valid : IsPool s.mempool)
    (size : s.mempool.nunits ≡ kgpu_buf_size / page_size / kgpu_buf_nr_frames_per_unit) where
  many_units : 2 < req_nunits max_mem_sz
  unfolding req_nunits
  many_units = omega arith

  no_room : kgpu_vmalloc B s.mempool max_mem_sz ≡ (s.mempool, 0)
  no_room = elim (vmalloc_cases B valid max_mem_sz (omega (arith, many_units))) [
    | inl (e, _) ↦ e
    | inr (i, g) ↦ absurd (omega (arith, g.fits, many_units, size))
  ]

  -- What the first loop leaves after a request at `p` and no buffer.
  abbrev stopped : ℕ → Driver × Batch
  stopped p = (
    record s { cache = (kgpu_alloc_request s.cache (some p)).0 },
    record { rs = update (λ i. 0) 0 p; bufs = update (λ i. 0) 0 0 },
  )

  first_fails :
      (p d : ℕ)
      → (p == 0) ≡ false
      → make_one B s cleared 0 (some p) d ≡ ((stopped p).0, (stopped p).1, false)
  unfolding make_one kgpu_alloc_request
  first_fails p d nz = rw (nz, no_room) refl

  first-Released :
      (p : ℕ) → (p == 0) ≡ false → Released s (release_one B (stopped p).0 (stopped p).1 0)
  unfolding release_one kgpu_alloc_request kgpu_free_request erase
  first-Released p nz = rw (nz, ==_refl p) (refl, refl)

  all-Released :
      (p : ℕ) → (p == 0) ≡ false → Released s (cleanup B (stopped p).0 (stopped p).1 0 batch_nr)
  unfolding cleanup
  all-Released p nz =
      rw
        (cleanup_empty B objects done (release_one B (stopped p).0 (stopped p).1 0) (stopped p).1 1
          9 (omega arith) (λ j l. (ground arith, ground arith)))
        (first-Released p nz)

  -- What it leaves where it makes no request.
  abbrev none_made : Driver × Batch
  none_made = (s, record { rs = update (λ i. 0) 0 0; bufs = λ i. 0 })

  null_fails : (d : ℕ) → make_one B s cleared 0 none d ≡ (none_made.0, none_made.1, false)
  unfolding make_one kgpu_alloc_request
  null_fails d = refl

  none_released : cleanup B s none_made.1 0 batch_nr ≡ s
  unfolding cleanup release_one
  none_released =
      cleanup_empty B objects done s none_made.1 1 9 (omega arith) (λ j l. (ground arith, refl))

  fails_at :
      (o : Option ℕ)
      → objects 0 ≡ o
      → o ≢ some 0
      → ((minit B objects done s).1 ≡ none) × Released s (minit B objects done s).0
  fails_at none e d =
      rw
        (
          minit_of B objects done s none_made (
              batch_fails B objects done s cleared 0 9 none_made
                (ap (λ o. make_one B s cleared 0 o (done 0)) e ∙ null_fails (done 0))),
          none_released,
        )
        (refl, (refl, refl))
  fails_at (some p) e d =
      let nz : (p == 0) ≡ false = ground (arith, λ (z : p ≡ 0). d (ap (λ (q : ℕ). some q) z)) in
      rw
        (minit_of B objects done s (stopped p) (
          batch_fails B objects done s cleared 0 9 (stopped p)
            (ap (λ o. make_one B s cleared 0 o (done 0)) e ∙ first_fails p (done 0) nz)))
        (refl, all-Released p nz)

  -- On a sound pool with the number of units that a buffer of KGPU_BUF_SIZE bytes has, minit of
  -- sysbm.c never comes to its first measured call, if no object has the address 0: it returns
  -- through its cleanup, and the pool and the requests in use are as they were.
  pub minit_fails :
      objects 0 ≢ some 0
      → ((minit B objects done s).1 ≡ none) × Released s (minit B objects done s).0
  minit_fails d = fails_at (objects 0) refl d
