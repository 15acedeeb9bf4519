-- ===== src/Cuda/Finit.antt =====
-- gpu_init and gpu_finit of kgpu/src/gpuSpace/cudaOperations.cu.
use kgpu_fga.Base.{
  ℕ, zero, suc, ◌+◌, ◌≤◌, ◌<◌, ◌≡◌, refl, ap, ◌∙◌, arith, true, false, ◌==◌, update, List, [], ◌∷◌,
  map, some, Bool-cases, inl, inr,
}
use kgpu_fga.Cuda.{
  Device, create_streams, gpu_init, Release, free_memory, destroy_stream, release, then_release,
  free_dev_mem, destroy_streams, gpu_finit,
}

-- The numbers from `i` on, `k` of them.
abbrev pub range : ℕ → ℕ → List ℕ
range i zero = []
range i (suc k) = i ∷ range (suc i) k

-- The loop of gpu_init stores the streams that are created.
create_lem :
    (stream : ℕ → ℕ) (d : Device) (i k : ℕ)
    → (d' : Device) × (create_streams (λ j. some (stream j)) d i k ≡ some d')
      × (d'.devbuf ≡ d.devbuf)
      × (d'.devbuf4vma ≡ d.devbuf4vma)
      × ((j : ℕ) → j < i → d'.streams j ≡ d.streams j)
      × ((j : ℕ) → i ≤ j → j < i + k → d'.streams j ≡ stream j)
unfolding create_streams
create_lem stream d i zero =
    (d, refl, refl, refl, λ j h. refl, λ j l u. absurd (omega (arith, l, u)))
create_lem stream d i (suc k) =
    let e : Device = record d {
      streams = update d.streams i (stream i);
      streamuses = update d.streamuses i false;
    } in
    let (d', run, b, v, below, rest) = create_lem stream e (suc i) k in
    (
      d',
      run,
      b,
      v,
      λ j h. below j (omega arith) ∙ ground arith,
      λ j l u. elim (Bool-cases (i == j)) [
        | inl f ↦ below j (ground arith) ∙ ground arith
        | inr f ↦ rest j (ground arith) (ground arith)
      ],
    )

destroy_lem :
    (stream : ℕ → ℕ) (d : Device) (i k : ℕ)
    → ((j : ℕ) → i ≤ j → j < i + k → d.streams j ≡ stream j)
    → destroy_streams (λ r. true) d i k ≡ some (map (λ j. destroy_stream (stream j)) (range i k))
unfolding destroy_streams release
destroy_lem stream d i zero h = refl
destroy_lem stream d i (suc k) h =
    let tail : List Release = map (λ j. destroy_stream (stream j)) (range (suc i) k) in
    ap (then_release (some (destroy_stream (d.streams i) ∷ [])))
      (destroy_lem stream d (suc i) k (λ j l u. h j (omega arith) (omega arith)))
    ∙ ap (λ s. some (destroy_stream s ∷ tail)) (h i (omega arith) (omega arith))

-- If every call of CUDA succeeds, gpu_finit of the CUDA file after its gpu_init frees the two
-- buffers and destroys the eight streams that gpu_init has made, each once and in their order.
pub finit-init :
    (b v : ℕ) (stream : ℕ → ℕ) (d : Device)
    → (d' : Device) × (gpu_init (some b) (some v) (λ j. some (stream j)) d ≡ some d')
      × (gpu_finit (λ r. true) d'
          ≡ some (free_memory b ∷ free_memory v ∷ map (λ j. destroy_stream (stream j)) (range 0 8)))
unfolding gpu_init gpu_finit free_dev_mem release
finit-init b v stream d =
    let (d', run, e, f, _, all) = create_lem stream (record d { devbuf = b; devbuf4vma = v }) 0 8 in
    let streams : List Release = map (λ j. destroy_stream (stream j)) (range 0 8) in
    (
      d',
      run,
      ap (then_release (some (free_memory d'.devbuf ∷ free_memory d'.devbuf4vma ∷ [])))
            (destroy_lem stream d' 0 8 all)
          ∙ ap (λ p. some (free_memory p ∷ free_memory d'.devbuf4vma ∷ streams)) e
          ∙ ap (λ p. some (free_memory b ∷ free_memory p ∷ streams)) f,
    )
