-- ===== src/Gpu/Runtime/Up.antt =====
-- The state of kgpu/src/gpuSpace/openCLOperations.c after a first start, and the buffers and queues that
-- gpu_init makes.
use kgpu_fga.Base.{
  ℕ, zero, suc, ◌<◌, ◌&&◌, ◌≡◌, ◌≢◌, ◌⊎◌, inl, inr, refl, ◌∙◌, ap, arith, Bool, true, false, ◌==◌,
  if◌then◌else◌, has, Bool-cases, ==_refl, Option, some, none,
}
use kgpu_fga.Helper.{erase}
use kgpu_fga.Gpu.Runtime.{
  Runtime, ClAnswers, free, data_readable, create_data, initialize_opencl, start, create_queues,
  create_buffers,
}
use kgpu_fga.Gpu.Runtime.Start.{IsFirst, succeeds, Started, made, failed, create_cases}

-- OpenCL is initialized, and its data are one block that is in use, as are its devices.
pub record IsUp (r : Runtime) : Type 0 where
  pub on : r.initialized ≡ true
  pub real : (r.opencl_data == 0) ≡ false
  pub readable : data_readable r ≡ true
  pub single : has r.opencl_data (erase r.opencl_data r.blocks) ≡ false
  pub devices : has (r.devices r.opencl_data) r.blocks ≡ true

-- The data have been freed and openCLData still points to them.
pub record IsStale (r : Runtime) : Type 0 where
  pub real : (r.opencl_data == 0) ≡ false
  pub gone : data_readable r ≡ false

-- The loop over the queues keeps the other globals.
queues_frame :
    (a : ClAnswers) (r : Runtime) (k : ℕ)
    → let r' = create_queues a r k in
      (r'.opencl_data ≡ r.opencl_data)
      × (r'.initialized ≡ r.initialized)
      × (r'.blocks ≡ r.blocks)
      × (r'.devices ≡ r.devices)
unfolding create_queues
queues_frame a r zero = (refl, refl, refl, refl)
queues_frame a r (suc k) = ground (arith, queues_frame a r k)

queues_lem :
    (a : ClAnswers) (r : Runtime) (k i : ℕ)
    → i < k
    → ((create_queues a r k).streams i ≡ a.new_queue i)
      × ((create_queues a r k).streamuses i ≡ false)
unfolding create_queues
queues_lem a r zero i h = elim h [ ]
queues_lem a r (suc k) i h = ground (arith, queues_lem a r k i)

IsUp-frame :
    (r r' : Runtime)
    → (r'.opencl_data ≡ r.opencl_data)
      × (r'.initialized ≡ r.initialized)
      × (r'.blocks ≡ r.blocks)
      × (r'.devices ≡ r.devices)
    → IsUp r
    → IsUp r'
IsUp-frame r r' (e, f, g, h) v = record {
  on = f ∙ v.on;
  real = rw e v.real;
  readable = rw (e, g) v.readable;
  single = rw (e, g) v.single;
  devices = rw (e, g, h) v.devices;
}

-- Both buffers are created.
abbrev pub buffers_made : ClAnswers → Bool
buffers_made a = a.create_buffer == 0 && a.create_vma_buffer == 0

module _ (a : ClAnswers) (r : Runtime) (v : IsUp r) where
  pub buffers_lem :
      (r' : Runtime) × (create_buffers a r ≡ some r')
      × IsUp r'
      × (buffers_made a ≡ true
          → (i : ℕ) → i < 8
          → (r'.streams i ≡ a.new_queue i) × (r'.streamuses i ≡ false))
  unfolding create_buffers
  buffers_lem = elim (Bool-cases (a.create_buffer == 0)) [
    | inr e ↦ (
      record r { device_buffer = a.new_buffer },
      rw (v.readable, e) refl,
      IsUp-frame r _ (refl, refl, refl, refl) v,
      λ f i h. absurd (ground (arith, f)),
    )
    | inl e ↦ elim (Bool-cases (a.create_vma_buffer == 0)) [
      | inr f ↦ (
        record r { device_buffer = a.new_buffer; device_buffer_for_vma = a.new_vma_buffer },
        rw (v.readable, e, f) refl,
        IsUp-frame r _ (refl, refl, refl, refl) v,
        λ g i h. absurd (ground (arith, g)),
      )
      | inl f ↦
          let r₂ : Runtime = record r {
            device_buffer = a.new_buffer;
            device_buffer_for_vma = a.new_vma_buffer;
          } in
          (
            create_queues a r₂ 8,
            rw (v.readable, e, f, v.devices) refl,
            IsUp-frame r _ (queues_frame a r₂ 8) v,
            λ g i h. queues_lem a r₂ 8 i h,
          )
    ]
  ]

module _ (a : ClAnswers) (r : Runtime) (v : IsFirst a r) where
  Started-IsUp :
      (r' : Runtime) (status : ℕ)
      → Started a r r' status
      → status ≡ 0
      → succeeds a ≡ true × IsUp (record r' { initialized = true })
  unfolding erase
  Started-IsUp r' status (failed no_luck bad _ _) z = absurd (bad z)
  Started-IsUp r' status (made luck _ e f g) z = (
    luck,
    record {
      on = refl;
      real = rw e (ground (arith, luck));
      readable = rw (e, f) (ground (arith, ==_refl a.data_block));
      single =
          rw (e, f)
            (ground (arith, ==_refl a.data_block, v.data_new, v.platforms_new, v.devices_new));
      devices = rw (e, f, g) (ground (arith, ==_refl a.devices_block));
    },
  )

  Started-IsStale :
      (r' : Runtime) (status : ℕ)
      → Started a r r' status
      → status ≢ 0
      → (succeeds a ≡ false) × (a.data_block ≢ 0 → IsStale r')
  Started-IsStale r' status (made _ z _ _ _) bad = absurd (bad z)
  Started-IsStale r' status (failed lost _ e gone) bad =
      (lost, λ d. record { real = rw e (ground (arith, d)); gone = rw e gone })

  -- The first start of OpenCL succeeds, or it leaves openCLData stale unless its first malloc fails.
  abbrev pub First : Runtime → Bool → Type 0
  First r' ok =
      ((succeeds a ≡ true) × (ok ≡ true) × IsUp r')
      ⊎ ((succeeds a ≡ false)
          × (ok ≡ false)
          × (r'.initialized ≡ false)
          × (a.data_block ≢ 0 → IsStale r'))

  pub free_unset : free r r.opencl_data ≡ some r
  unfolding free
  free_unset =
      ap
        (λ p.
          if p == 0
          then some r
          else if has p r.blocks
          then some (record r { blocks = erase p r.blocks })
          else none)
        v.unset

  initialize_first : initialize_opencl a r ≡ create_data a r
  unfolding initialize_opencl
  initialize_first = ap (λ o. elim o [ none ↦ none | some r' ↦ create_data a r' ]) free_unset

  start_lem :
      (r' : Runtime) (status : ℕ) (o : Option (Runtime × ℕ))
      → o ≡ some (r', status)
      → initialize_opencl a r ≡ o
      → start a r ≡ some (if status == 0 then record r' { initialized = true } else r', status)
  unfolding start
  start_lem r' status o e f = rw (start, f, e) refl

  pub opening_run :
      (r' : Runtime) × (status : ℕ) × (start a r ≡ some (r', status)) × First r' (status == 0)
  opening_run =
      let (r', status, e, s, off) = create_cases a r v in
      let run = start_lem r' status (create_data a r) e initialize_first in
      elim (Bool-cases (status == 0)) [
        | inl z ↦
            let (luck, up) = Started-IsUp r' status s (ground arith) in
            (record r' { initialized = true }, status, run ∙ rw z refl, inl (luck, z, up))
        | inr z ↦
            let (lost, stale) = Started-IsStale r' status s (ground arith) in
            (r', status, run ∙ rw z refl, inr (lost, z, off, stale))
      ]
