-- ===== src/Gpu/Streams.antt =====
-- The command queues of kgpu/src/gpuSpace/openCLOperations.c (the CUDA file has the same code):
-- streamuses, gpu_alloc_stream, gpu_free_stream, gpu_get_stream and the two tests for completion.
-- The id -1 is `none`. A stream is its index, and the log calls are left out.
use kgpu_fga.Base.{
  ℕ, zero, suc, ◌+◌, ◌≤◌, ◌<◌, ◌≡◌, refl, ◌⊎◌, inl, inr, Bool, true, false, if◌then◌else◌, ltb,
  update, Bool-cases, Option, none, some, arith,
}

abbrev pub max_stream_nr : ℕ
max_stream_nr = 8

-- The loop over the streams from `i` on, with `k` to go: the first that is not in use.
unfoldable pub free_stream : (ℕ → Bool) → ℕ → ℕ → Option ℕ
free_stream uses i zero = none
free_stream uses i (suc k) =
    let rest = free_stream uses (suc i) k in if uses i then rest else some i

-- The new marks and the stream id, or none if the call returns 1.
unfoldable pub gpu_alloc_stream : (ℕ → Bool) → Option ((ℕ → Bool) × ℕ)
gpu_alloc_stream uses = elim (free_stream uses 0 max_stream_nr) [
  | none ↦ none
  | some i ↦ some (update uses i true, i)
]

unfoldable pub gpu_free_stream : (ℕ → Bool) → Option ℕ → ℕ → Bool
gpu_free_stream uses none = uses
gpu_free_stream uses (some i) = if ltb i max_stream_nr then update uses i false else uses

-- gpu_get_stream: 0 for an id out of range.
unfoldable pub gpu_get_stream : (ℕ → ℕ) → Option ℕ → ℕ
gpu_get_stream streams none = 0
gpu_get_stream streams (some i) = if ltb i max_stream_nr then streams i else 0

-- __check_stream_done, whose query of the stream is commented out.
unfoldable pub check_stream_done : ℕ → Bool
check_stream_done stream = false

unfoldable pub gpu_execution_finished : ℕ → Bool
unfolding check_stream_done
gpu_execution_finished stream = check_stream_done stream

unfoldable pub gpu_post_finished : ℕ → Bool
unfolding check_stream_done
gpu_post_finished stream = check_stream_done stream

free_stream_cases :
    (uses : ℕ → Bool) (i k : ℕ)
    → ((free_stream uses i k ≡ none) × ((j : ℕ) → i ≤ j → j < i + k → uses j ≡ true))
      ⊎ ((j : ℕ) × (free_stream uses i k ≡ some j)
          × (i ≤ j)
          × (j < i + k)
          × (uses j ≡ false)
          × ((l : ℕ) → i ≤ l → l < j → uses l ≡ true))
unfolding free_stream
free_stream_cases uses i zero = inl (refl, λ j l u. absurd (omega arith))
free_stream_cases uses i (suc k) = elim (Bool-cases (uses i)) [
  | inr free ↦ inr (i, rw free refl, omega arith, omega arith, free, λ l h u. absurd (omega arith))
  | inl used ↦ elim (free_stream_cases uses (suc i) k) [
    | inl (e, all) ↦ inl (rw used e, λ j l u. from_next j l (λ h. all j h (omega arith)) used)
    | inr (j, e, l, u, f, below) ↦ inr (
      j,
      rw used e,
      omega arith,
      omega arith,
      f,
      λ m h v. from_next m h (λ h'. below m h' v) used,
    )
  ]
]
  where
    from_next : (j : ℕ) → i ≤ j → (suc i ≤ j → uses j ≡ true) → uses i ≡ true → uses j ≡ true
    from_next j l next used = elim (Bool-cases (ltb i j)) [
      | inl h ↦ next (ground arith)
      | inr h ↦ let e : j ≡ i = ground arith in rw e used
    ]

-- gpu_alloc_stream fails exactly if all eight streams are in use, and otherwise marks the first
-- free one and returns it.
pub alloc_stream_cases :
    (uses : ℕ → Bool)
    → ((gpu_alloc_stream uses ≡ none) × ((j : ℕ) → j < 8 → uses j ≡ true))
      ⊎ ((i : ℕ) × (gpu_alloc_stream uses ≡ some (update uses i true, i))
          × (i < 8)
          × (uses i ≡ false)
          × ((l : ℕ) → l < i → uses l ≡ true))
unfolding gpu_alloc_stream
alloc_stream_cases uses = elim (free_stream_cases uses 0 8) [
  | inl (e, all) ↦ inl (rw (e, gpu_alloc_stream) refl, λ j h. all j (omega arith) (omega arith))
  | inr (i, e, _, h, f, below) ↦
      inr (i, rw (e, gpu_alloc_stream) refl, omega arith, f, λ l u. below l (omega arith) u)
]
