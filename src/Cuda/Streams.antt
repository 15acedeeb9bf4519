-- ===== src/Cuda/Streams.antt =====
-- gpu_init and the streams of kgpu/src/gpuSpace/cudaOperations.cu.
use kgpu_fga.Base.{
  ℕ, zero, suc, ◌+◌, ◌≤◌, ◌<◌, ◌≡◌, ◌⊎◌, inl, inr, refl, ap, ◌∙◌, fun_ext, arith, true, false, ltb,
  ◌==◌, update, Bool-cases, Option, Option-cases, none, some,
}
use kgpu_fga.Cuda.{
  Device, Request, Query, create_streams, gpu_init, gpu_get_stream, check_stream_done,
  gpu_execution_finished, gpu_post_finished, take_stream, gpu_alloc_stream, gpu_free_stream,
}

create_streams_cases :
    (create : ℕ → Option ℕ) (d : Device) (i k : ℕ)
    → ((create_streams create d i k ≡ none) × (j : ℕ) × (i ≤ j) × (j < i + k) × (create j ≡ none))
      ⊎ ((d' : Device) × (create_streams create d i k ≡ some d')
          × (d'.devbuf ≡ d.devbuf)
          × (d'.devbuf4vma ≡ d.devbuf4vma)
          × ((j : ℕ)
              → i ≤ j
              → j < i + k
              → (create j ≡ some (d'.streams j)) × (d'.streamuses j ≡ false))
          × ((j : ℕ) → j < i → (d'.streams j ≡ d.streams j) × (d'.streamuses j ≡ d.streamuses j)))
unfolding create_streams
create_streams_cases create d i zero =
    inr (d, refl, refl, refl, λ j l u. absurd (omega arith), λ j l. (refl, refl))
create_streams_cases create d i (suc k) = elim (Option-cases (create i)) [
  | inl e ↦ inl (rw (create_streams, e) refl, i, omega arith, omega arith, e)
  | inr (s, e) ↦
      let next : Device = record d {
        streams = update d.streams i s;
        streamuses = update d.streamuses i false;
      } in
      elim (create_streams_cases create next (suc i) k) [
        | inl (f, j, l, u, g) ↦ inl (rw (create_streams, e) f, j, omega arith, omega arith, g)
        | inr (d', f, b, v, all, below) ↦ inr (
          d',
          rw (create_streams, e) f,
          b,
          v,
          λ j l u. from_next d' j s e (below i (omega arith)) (λ h. all j h (omega arith)) l,
          λ j l. (
            ground (arith, (below j (omega arith)).0),
            ground (arith, (below j (omega arith)).1),
          ),
        )
      ]
]
  where
    from_next :
        (d' : Device) (j s : ℕ)
        → create i ≡ some s
        → (d'.streams i ≡ update d.streams i s i)
          × (d'.streamuses i ≡ update d.streamuses i false i)
        → (suc i ≤ j → (create j ≡ some (d'.streams j)) × (d'.streamuses j ≡ false))
        → i ≤ j
        → (create j ≡ some (d'.streams j)) × (d'.streamuses j ≡ false)
    from_next d' j s e (f, g) next l = elim (Bool-cases (ltb i j)) [
      | inl h ↦ next (ground arith)
      | inr h ↦ let m : j ≡ i = ground arith in rw m (ground (arith, e, f), ground (arith, g))
    ]

-- With memory for both buffers, gpu_init aborts only if a stream cannot be created, and otherwise
-- stores every stream, none of them in use.
pub gpu_init_cases :
    (b v : ℕ) (create : ℕ → Option ℕ) (d : Device)
    → ((gpu_init (some b) (some v) create d ≡ none) × (j : ℕ) × (j < 8) × (create j ≡ none))
      ⊎ ((d' : Device) × (gpu_init (some b) (some v) create d ≡ some d')
          × (d'.devbuf ≡ b)
          × (d'.devbuf4vma ≡ v)
          × ((j : ℕ) → j < 8 → (create j ≡ some (d'.streams j)) × (d'.streamuses j ≡ false)))
unfolding gpu_init
gpu_init_cases b v create d =
    elim (create_streams_cases create (record d { devbuf = b; devbuf4vma = v }) 0 8) [
      | inl (e, j, l, u, f) ↦ inl (e, j, u, f)
      | inr (d', e, p, q, all, below) ↦ inr (d', e, p, q, λ j u. all j (omega arith) u)
    ]

-- The stream of index `i` has been granted.
pub record IsGranted (d : Device) (q : Request) (d' : Device) (q' : Request) (i : ℕ) : Type 0 where
  pub bounded : i < 8
  pub unused : d.streamuses i ≡ false
  pub device : d' ≡ record d { streamuses = update d.streamuses i true }
  pub request : q' ≡ record q { stream_id = some i; stream = d.streams i }

take_stream_cases :
    (d : Device) (q : Request) (i k : ℕ)
    → i + k ≤ 8
    → ((take_stream d q i k ≡ none) × ((j : ℕ) → i ≤ j → j < i + k → d.streamuses j ≡ true))
      ⊎ ((d' : Device) × (q' : Request) × (j : ℕ) × (take_stream d q i k ≡ some (d', q'))
          × IsGranted d q d' q' j)
unfolding take_stream
take_stream_cases d q i zero b = inl (refl, λ j l u. absurd (omega arith))
take_stream_cases d q i (suc k) b = elim (Bool-cases (d.streamuses i)) [
  | inr e ↦ inr (
    _,
    _,
    i,
    rw (take_stream, e) refl,
    record { bounded = omega arith; unused = e; device = refl; request = refl },
  )
  | inl e ↦ elim (take_stream_cases d q (suc i) k (omega arith)) [
    | inl (f, all) ↦ inl (
      rw (take_stream, e) f,
      λ j l u. elim (Bool-cases (ltb i j)) [
        | inl h ↦ all j (ground arith) (omega arith)
        | inr h ↦ let m : j ≡ i = ground arith in rw m e
      ],
    )
    | inr (d', q', j, f, g) ↦ inr (d', q', j, rw (take_stream, e) f, g)
  ]
]

module _ (d : Device) (q : Request) (d' : Device) (q' : Request) (i : ℕ)
    (g : IsGranted d q d' q' i) where
  granted_get : gpu_get_stream d' q'.stream_id ≡ q'.stream
  unfolding gpu_get_stream
  granted_get = rw (g.device, g.request) (ground (arith, g.bounded))

  granted_handle : gpu_get_stream d' q'.stream_id ≡ d.streams i
  granted_handle = granted_get ∙ ap (λ r. r.stream) g.request

  granted_free : gpu_free_stream d' q' ≡ d
  unfolding gpu_free_stream
  granted_free =
      let e : ltb i 8 ≡ true = ground (arith, g.bounded) in
      let same : update (update d.streamuses i true) i false ≡ d.streamuses =
        fun_ext (λ j. restored j) in
      let marked : Device = record d { streamuses = update d.streamuses i true } in
      let back : gpu_free_stream marked (record q { stream_id = some i; stream = d.streams i })
          ≡ d =
        rw (gpu_free_stream, e) (λ x. record d { streamuses = same x }) in
      ap (λ x. gpu_free_stream x q') g.device ∙ ap (gpu_free_stream marked) g.request ∙ back
    where
      restored : (j : ℕ) → update (update d.streamuses i true) i false j ≡ d.streamuses j
      restored j = elim (Bool-cases (i == j)) [
        | inl e ↦ let m : j ≡ i = ground arith in rw m (ground (arith, g.unused))
        | inr e ↦ rw e refl
      ]

-- gpu_alloc_stream fails exactly if all eight streams are in use. Otherwise it grants one that is
-- not, the tests for completion then query this stream, and gpu_free_stream gives back the device
-- as it was.
pub cuda_alloc_stream_cases :
    (d : Device) (q : Request) (query : ℕ → Query)
    → ((gpu_alloc_stream d q ≡ none) × ((j : ℕ) → j < 8 → d.streamuses j ≡ true))
      ⊎ ((d' : Device) × (q' : Request) × (i : ℕ) × (gpu_alloc_stream d q ≡ some (d', q'))
          × IsGranted d q d' q' i
          × (gpu_get_stream d' q'.stream_id ≡ q'.stream)
          × (gpu_execution_finished query d' q' ≡ check_stream_done query (d.streams i))
          × (gpu_post_finished query d' q' ≡ check_stream_done query (d.streams i))
          × (gpu_free_stream d' q' ≡ d))
unfolding gpu_alloc_stream gpu_execution_finished gpu_post_finished
cuda_alloc_stream_cases d q query = elim (take_stream_cases d q 0 8 (omega arith)) [
  | inl (e, all) ↦ inl (e, λ j u. all j (omega arith) u)
  | inr (d', q', i, e, g) ↦
      let h = granted_handle d q d' q' i g in
      inr (
        d',
        q',
        i,
        e,
        g,
        granted_get d q d' q' i g,
        ap (check_stream_done query) h,
        ap (check_stream_done query) h,
        granted_free d q d' q' i g,
      )
]
