-- ===== src/Gpu/Runtime/Clean.antt =====
-- The labels of initializeOpenCL of kgpu/src/gpuSpace/openCLOperations.c that free what was allocated.
use kgpu_fga.Base.{ℕ, ◌≡◌, refl, false, ◌==◌, List, ◌∷◌, ==_refl, some}
use kgpu_fga.Helper.{erase}
use kgpu_fga.Gpu.Runtime.{
  Runtime, free, first_level_of_clean, second_level_of_clean, third_level_of_clean,
}

module _ (q : Runtime) (p : ℕ) (real : (p == 0) ≡ false) (l : List ℕ) where
  pub free_head : q.blocks ≡ p ∷ l → free q p ≡ some (record q { blocks = l })
  unfolding free erase
  free_head e = rw (real, e, ==_refl p) refl

  pub free_next :
      (x : ℕ)
      → (p == x) ≡ false
      → q.blocks ≡ x ∷ p ∷ l
      → free q p ≡ some (record q { blocks = x ∷ l })
  unfolding free erase
  free_next x d e = rw (real, e, d, ==_refl p) refl

-- The labels for clearing up, with the blocks in the order in which they were allocated.
module _ (q : Runtime) (s : ℕ) (real : (q.opencl_data == 0) ≡ false) (l : List ℕ) where
  pub clean_first :
      q.blocks ≡ q.opencl_data ∷ l → first_level_of_clean q s ≡ some (record q { blocks = l }, s)
  unfolding first_level_of_clean
  clean_first g = rw (first_level_of_clean, free_head q q.opencl_data real l g) refl

  pub clean_next :
      (x : ℕ)
      → (q.opencl_data == x) ≡ false
      → q.blocks ≡ x ∷ q.opencl_data ∷ l
      → first_level_of_clean q s ≡ some (record q { blocks = x ∷ l }, s)
  unfolding first_level_of_clean
  clean_next x d g = rw (first_level_of_clean, free_next q q.opencl_data real l x d g) refl

module _ (q : Runtime) (s : ℕ) (real : (q.opencl_data == 0) ≡ false) (l : List ℕ) (p : ℕ)
    (given : (p == 0) ≡ false) where
  pub clean_second :
      q.blocks ≡ p ∷ q.opencl_data ∷ l
      → second_level_of_clean q p s ≡ some (record q { blocks = l }, s)
  unfolding second_level_of_clean
  clean_second g =
      rw (second_level_of_clean, free_head q p given (q.opencl_data ∷ l) g)
        (clean_first (record q { blocks = q.opencl_data ∷ l }) s real l refl)

  pub clean_second_next :
      (x : ℕ)
      → (p == x) ≡ false
      → (q.opencl_data == x) ≡ false
      → q.blocks ≡ x ∷ p ∷ q.opencl_data ∷ l
      → second_level_of_clean q p s ≡ some (record q { blocks = x ∷ l }, s)
  unfolding second_level_of_clean
  clean_second_next x d f g =
      rw (second_level_of_clean, free_next q p given (q.opencl_data ∷ l) x d g)
        (clean_next (record q { blocks = x ∷ q.opencl_data ∷ l }) s real l x f refl)

module _ (q : Runtime) (s : ℕ) (real : (q.opencl_data == 0) ≡ false) (l : List ℕ) (p : ℕ)
    (given : (p == 0) ≡ false) where
  pub clean_third :
      (x : ℕ)
      → (x == 0) ≡ false
      → q.devices q.opencl_data ≡ x
      → q.blocks ≡ x ∷ p ∷ q.opencl_data ∷ l
      → third_level_of_clean q p s ≡ some (record q { blocks = l }, s)
  unfolding third_level_of_clean
  clean_third x k h g =
      rw (third_level_of_clean, h, free_head q x k (p ∷ q.opencl_data ∷ l) g)
        (clean_second (record q { blocks = p ∷ q.opencl_data ∷ l }) s real l p given refl)
