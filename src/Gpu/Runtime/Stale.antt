-- ===== src/Gpu/Runtime/Stale.antt =====
-- gpu_init, gpu_alloc_pinned_mem and gpu_finit of kgpu/src/gpuSpace/openCLOperations.c one after the
-- other.
use kgpu_fga.Base.{
  ℕ, ◌<◌, ◌≡◌, ◌≢◌, ◌⊎◌, inl, inr, refl, ◌∙◌, ap, Bool, true, false, not, ◌==◌, if◌then◌else◌,
  Bool-cases, Option, some, none,
}
use kgpu_fga.Helper.{erase}
use kgpu_fga.Gpu.Runtime.{
  Runtime, ClAnswers, free, initialize_opencl, start, create_buffers, gpu_init, gpu_finit, Pinned,
  undefined, handle, null, address, pin_host, gpu_alloc_pinned_mem,
}
use kgpu_fga.Gpu.Runtime.Start.{IsFirst, succeeds}
use kgpu_fga.Gpu.Runtime.Up.{IsUp, IsStale, First, opening_run, buffers_made, buffers_lem}

module _ (a : ClAnswers) (r : Runtime) (v : IsStale r) where
  free_stale : free r r.opencl_data ≡ none
  unfolding free
  free_stale = rw (v.real, v.gone) refl

  start_stale : start a r ≡ none
  unfolding start initialize_opencl
  start_stale = rw (start, initialize_opencl, free_stale) refl

  init_stale : gpu_init a r ≡ none
  unfolding gpu_init create_buffers
  init_stale = elim (Bool-cases r.initialized) [
    | inl e ↦ rw (e, v.gone) refl
    | inr e ↦ rw (start_stale, e) refl
  ]

  -- With openCLData stale, gpu_init and gpu_alloc_pinned_mem fault, whatever malloc and OpenCL
  -- answer.
  pub stale_faults : (gpu_init a r ≡ none) × (gpu_alloc_pinned_mem a r ≡ none)
  unfolding gpu_alloc_pinned_mem pin_host
  stale_faults = (init_stale, rw (v.real, v.gone) refl)

-- gpu_init and gpu_alloc_pinned_mem after their call of initializeOpenCL.
abbrev init_after : ClAnswers → Option (Runtime × ℕ) → Option Runtime
init_after a none = none
init_after a (some (r', status)) = if status == 0 then create_buffers a r' else some r'

abbrev pin_after : ClAnswers → Option (Runtime × ℕ) → Option (Runtime × Pinned)
pin_after a none = none
pin_after a (some (r', status)) = if status == 0 then pin_host a r' else some (r', undefined)

-- Every later start of the backend faults.
abbrev pub Faults : Runtime → Type 0
Faults r = (b : ClAnswers) → (gpu_init b r ≡ none) × (gpu_alloc_pinned_mem b r ≡ none)

module _ (a : ClAnswers) (r : Runtime) (v : IsUp r) where
  pub pin_up : (p : Pinned) × (pin_host a r ≡ some (r, p))
  unfolding pin_host
  pin_up = elim (Bool-cases (a.create_host == 0)) [
    | inr e ↦ (handle a.new_host, rw (v.readable, e) refl)
    | inl e ↦ elim (Bool-cases (a.host_info == 0)) [
      | inr f ↦ (null, rw (v.readable, e, f) refl)
      | inl f ↦ (address a.host_pointer, rw (v.readable, e, f) refl)
    ]
  ]

  -- With OpenCL up, gpu_init makes new buffers and queues and leaves it up.
  pub init-IsUp : (r' : Runtime) × (gpu_init a r ≡ some r') × IsUp r'
  unfolding gpu_init
  init-IsUp =
      let (r', run, up, _) = buffers_lem a r v in
      (r', ap (λ b. if b then create_buffers a r else init_after a (start a r)) v.on ∙ run, up)

  -- With OpenCL up, gpu_alloc_pinned_mem changes nothing.
  pub pinned_up : (p : Pinned) × (gpu_alloc_pinned_mem a r ≡ some (r, p))
  unfolding gpu_alloc_pinned_mem
  pinned_up = let (p, run) = pin_up in (p, rw (gpu_alloc_pinned_mem, v.real) run)

module _ (a : ClAnswers) (r : Runtime) (v : IsFirst a r) where
  init_off : (o : Option (Runtime × ℕ)) → start a r ≡ o → gpu_init a r ≡ init_after a o
  unfolding gpu_init
  init_off o e =
      ap (λ b. if b then create_buffers a r else init_after a (start a r)) v.off
      ∙ ap (init_after a) e

  -- On the first call, with a malloc that gives blocks not in use, gpu_init of the OpenCL file does
  -- not fault. If every call on the way to a context succeeds, OpenCL is up, with the eight queues
  -- created and free if both buffers are. If one fails, OpenCL is not initialized, and unless the
  -- first malloc failed openCLData points to data that have been freed.
  pub first_init :
      (r' : Runtime) × (gpu_init a r ≡ some r')
      × (((succeeds a ≡ true)
            × IsUp r'
            × (buffers_made a ≡ true
                → (i : ℕ) → i < 8
                → (r'.streams i ≡ a.new_queue i) × (r'.streamuses i ≡ false)))
          ⊎ ((succeeds a ≡ false) × (r'.initialized ≡ false) × (a.data_block ≢ 0 → IsStale r')))
  first_init =
      let (r₁, status, e, first) = opening_run a r v in
      elim first [
        | inl (luck, z, up) ↦
            let (r', run, up', queues) = buffers_lem a r₁ up in
            (r', init_off _ e ∙ rw z run, inl (luck, up', queues))
        | inr (lost, z, off, stale) ↦ (r₁, init_off _ e ∙ rw z refl, inr (lost, off, stale))
      ]

  pinned_off : (o : Option (Runtime × ℕ)) → start a r ≡ o → gpu_alloc_pinned_mem a r ≡ pin_after a o
  unfolding gpu_alloc_pinned_mem
  pinned_off o e =
      let rest : Option (Runtime × Pinned) =
        if r.initialized then pin_host a r else pin_after a (start a r) in
      ap (λ p. if not (p == 0) then pin_host a r else rest) v.unset
      ∙ ap (λ b. if b then pin_host a r else pin_after a (start a r)) v.off
      ∙ ap (pin_after a) e

  -- The first gpu_alloc_pinned_mem brings OpenCL up and returns the address of its memory.
  pub pinned_address :
      succeeds a ≡ true
      → a.create_host ≡ 0
      → a.host_info ≡ 0
      → (r' : Runtime) × (gpu_alloc_pinned_mem a r ≡ some (r', address a.host_pointer)) × IsUp r'
  unfolding pin_host
  pinned_address luck e f =
      let (r₁, status, run, first) = opening_run a r v in
      elim first [
        | inl (_, z, up) ↦ (r₁, pinned_off _ run ∙ rw (z, up.readable, e, f) refl, up)
        | inr (lost, _, _, _) ↦ cc
      ]

  -- The same for gpu_alloc_pinned_mem, which returns without a value if a call fails.
  pub first_pinned :
      (r' : Runtime) × (p : Pinned) × (gpu_alloc_pinned_mem a r ≡ some (r', p))
      × (((succeeds a ≡ true) × IsUp r')
          ⊎ ((succeeds a ≡ false) × (p ≡ undefined) × (a.data_block ≢ 0 → IsStale r')))
  unfolding pin_host
  first_pinned =
      let (r₁, status, e, first) = opening_run a r v in
      elim first [
        | inl (luck, z, up) ↦
            let (p, run) = pin_up a r₁ up in (r₁, p, pinned_off _ e ∙ rw z run, inl (luck, up))
        | inr (lost, z, off, stale) ↦
            (r₁, undefined, pinned_off _ e ∙ rw z refl, inr (lost, refl, stale))
      ]

  module _ (given : a.data_block ≢ 0) (lost : succeeds a ≡ false) where
    failed-IsStale : (r' : Runtime) (ok : Bool) → First a r v r' ok → (ok ≡ false) × IsStale r'
    failed-IsStale r' ok (inl (luck, _, _)) = cc
    failed-IsStale r' ok (inr (_, z, _, stale)) = (z, stale given)

    -- If the first malloc of the first start succeeds, its blocks are not in use and a later call
    -- on the way to a context fails, gpu_alloc_pinned_mem of the OpenCL file returns without a
    -- value, gpu_init returns, and after either of them every gpu_init or gpu_alloc_pinned_mem
    -- faults.
    pub failed_start-Faults :
        ((r' : Runtime) × (gpu_alloc_pinned_mem a r ≡ some (r', undefined)) × Faults r')
        × ((r' : Runtime) × (gpu_init a r ≡ some r') × Faults r')
    failed_start-Faults =
        let (r₁, status, e, first) = opening_run a r v in
        let (z, stale) = failed-IsStale r₁ (status == 0) first in
        (
          (r₁, pinned_off _ e ∙ rw z refl, λ b. stale_faults b r₁ stale),
          (r₁, init_off _ e ∙ rw z refl, λ b. stale_faults b r₁ stale),
        )

module _ (a : ClAnswers) (r : Runtime) (v : IsUp r) where
  -- A gpu_finit whose two releases succeed frees the data and leaves openCLData and `initialized` as
  -- they are, so that every later gpu_init or gpu_alloc_pinned_mem faults.
  pub finit-Faults :
      a.release_buffer ≡ 0
      → a.release_vma_buffer ≡ 0
      → (r' : Runtime) × (gpu_finit a r ≡ some r') × Faults r'
  unfolding gpu_finit free
  finit-Faults e f = (
    record r { blocks = erase r.opencl_data r.blocks },
    rw (e, f, v.real, v.readable) refl,
    λ b. stale_faults b _ (record { real = v.real; gone = v.single }),
  )
