-- ===== src/Kernel/Vm/Pages.antt =====
-- map_page_units of kgpu/src/kernelSpace/main.c: which mappings it makes, and what a refusal leaves.
use kgpu_fga.Base.{
  ℕ, zero, suc, ◌+◌, ◌*◌, ◌^◌, ◌≤◌, ◌<◌, ◌≡◌, refl, ◌⊎◌, inl, inr, Bool, true, false, arith,
  Bool-cases, ◌==◌, add64, mul64, List, [], ◌∷◌,
}
use kgpu_fga.Config.{page_size}
use kgpu_fga.Kernel.Bitmap.{IsClear, LinuxBitmap}
use kgpu_fga.Kernel.Vm.{
  KgpuVma, req_npages, kgpu_alloc_mmap_area, insert_pages, map_page_units, IsArea,
}
use kgpu_fga.Kernel.Vm.Area.{page_address, taken, alloc_mmap_area_cases}

module _ (vm_insert_page : ℕ → ℕ → Bool) (page : ℕ → ℕ) (addr : ℕ) where
  abbrev slot : ℕ → ℕ
  slot i = add64 addr (mul64 i page_size)

  -- The mappings of `k` pages from page `i` on, at consecutive addresses.
  abbrev pub mappings : ℕ → ℕ → List (ℕ × ℕ)
  mappings i zero = []
  mappings i (suc k) = (slot i, page i) ∷ mappings (suc i) k

  pub insert_pages_all :
      (i k : ℕ)
      → ((j : ℕ) → i ≤ j → j < i + k → vm_insert_page (slot j) (page j) ≡ true)
      → insert_pages vm_insert_page page addr i k ≡ (mappings i k, true)
  unfolding insert_pages
  insert_pages_all i zero ok = refl
  insert_pages_all i (suc k) ok =
      rw
        (
          ok i (omega arith) (omega arith),
          insert_pages_all (suc i) k (λ j l u. ok j (omega arith) (omega arith)),
        )
        refl

  pub insert_pages_refused :
      (i k j : ℕ)
      → i ≤ j
      → j < i + k
      → vm_insert_page (slot j) (page j) ≡ false
      → (insert_pages vm_insert_page page addr i k).1 ≡ false
  unfolding insert_pages
  insert_pages_refused i zero j l u e = absurd (omega arith)
  insert_pages_refused i (suc k) j l u e = elim (Bool-cases (vm_insert_page (slot i) (page i))) [
    | inl f ↦ rw f (insert_pages_refused (suc i) k j (ground (arith, next j l f e)) (omega arith) e)
    | inr f ↦ rw f refl
  ]
    where
      next :
          (j : ℕ)
          → i ≤ j
          → vm_insert_page (slot i) (page i) ≡ true
          → vm_insert_page (slot j) (page j) ≡ false
          → suc i ≤ j
      next j l f e = ground arith

req_npages_lem : (n : ℕ) → n < 2 ^ 19 → req_npages (n * page_size) ≡ n
unfolding req_npages
req_npages_lem n h = omega arith

module _ (B : LinuxBitmap) {v : KgpuVma} (valid : IsArea v) (vm_insert_page : ℕ → ℕ → Bool)
    (page : ℕ → ℕ) (n : ℕ) (pos : 0 < n) (small : n < 2 ^ 19) where
  size : req_npages (n * page_size) ≡ n
  size = req_npages_lem n small

  address_pos : (i : ℕ) → (page_address v i == 0) ≡ false
  address_pos i = ground (arith, valid.mapped)

  -- On a sound area that is set up, if Linux accepts every mapping, map_page_units for between 1
  -- and 2^19 - 1 pages either returns NULL and changes nothing, or reserves a free run of pages and
  -- maps all pages into it at consecutive addresses.
  pub map_page_units_ok :
      ((a p : ℕ) → vm_insert_page a p ≡ true)
      → (map_page_units B vm_insert_page v page n ≡ (v, [], 0))
        ⊎ ((i : ℕ) × (i + n ≤ v.npages)
            × IsClear v.bitmap i n
            × (map_page_units B vm_insert_page v page n ≡ (
              taken B v n i,
              mappings vm_insert_page page (page_address v i) 0 n,
              page_address v i,
            )))
  unfolding map_page_units
  map_page_units_ok ok = elim (alloc_mmap_area_cases B valid (n * page_size) (rw size pos)) [
    | inl (e, _) ↦ inl (rw e refl)
    | inr (i, f, c, e) ↦ inr (
      i,
      rw (← size) f,
      rw (← size) c,
      rw
          (
            e,
            insert_pages_all vm_insert_page page (page_address v i) 0 n (λ j l u. ok _ _),
            size,
            address_pos i,
          )
          refl,
    )
  ]

  -- On a sound area that is set up, if the allocation takes a run of pages and Linux refuses one of
  -- the mappings, map_page_units for between 1 and 2^19 - 1 pages returns NULL and the run stays
  -- reserved.
  pub map_page_units_leak :
      (i j : ℕ)
      → kgpu_alloc_mmap_area B v (n * page_size) ≡ (taken B v n i, page_address v i)
      → j < n
      → vm_insert_page (add64 (page_address v i) (mul64 j page_size)) (page j) ≡ false
      → ((map_page_units B vm_insert_page v page n).2 ≡ 0)
        × ((map_page_units B vm_insert_page v page n).0 ≡ taken B v n i)
  unfolding map_page_units
  map_page_units_leak i j e l r =
      let refused =
        insert_pages_refused vm_insert_page page (page_address v i) 0 n j (omega arith)
          (omega arith) r in
      rw (e, refused, address_pos i) (refl, refl)
