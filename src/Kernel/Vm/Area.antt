-- ===== src/Kernel/Vm/Area.antt =====
-- kgpu_alloc_mmap_area, kgpu_free_mmap_area and kgpu_unmap_area of kgpu/src/kernelSpace/main.c.
use kgpu_fga.Base.{
  ℕ, ◌+◌, ◌-◌, ◌*◌, ◌/◌, ◌≤◌, ◌<◌, ◌≡◌, refl, ◌⊎◌, inl, inr, false, to_u32, ◌∷◌, arith, ltb, leb,
  Bool-cases, add64, sub64, mul64, update, fun_ext, ltb→lt,
}
use kgpu_fga.Config.{page_size}
use kgpu_fga.Kernel.Bitmap.{IsClear, LinuxBitmap}
use kgpu_fga.Kernel.Table.{
  IsSound, Live, reserve-IsSound, reserve-unused, vacate-IsSound, vacate-reserve,
}
use kgpu_fga.Kernel.Vm.{
  KgpuVma, table, req_npages, kgpu_alloc_mmap_area, kgpu_free_mmap_area, kgpu_unmap_area, IsArea,
}

-- The address of page `i`.
abbrev pub page_address : KgpuVma → ℕ → ℕ
page_address v i = v.start + page_size * i

-- The result of kgpu_alloc_mmap_area where it takes `n` pages at `i`.
abbrev pub taken : LinuxBitmap → KgpuVma → ℕ → ℕ → KgpuVma
taken B v n i = record v { bitmap = B.bitmap_set v.bitmap i n; alloc_sz = update v.alloc_sz i n }

module _ (B : LinuxBitmap) {v : KgpuVma} (valid : IsArea v) where
  open B use {bitmap_find_next_zero_area, find_fits, find_clear, find_first}

  page_address_lem : (i : ℕ) → i < v.npages → add64 v.start (mul64 page_size i) ≡ page_address v i
  page_address_lem i h = omega (arith, valid.range)

  -- The page that the driver computes from an address.
  abbrev pub page_of : ℕ → ℕ
  page_of a = sub64 a v.start / page_size

  pub page_of-address : (i : ℕ) → i < v.npages → page_of (page_address v i) ≡ i
  page_of-address i h = omega (arith, valid.range)

  -- On a sound area that is set up, kgpu_alloc_mmap_area for a size of at least one page returns 0
  -- and changes nothing if no free run of pages is long enough, and otherwise takes a free run and
  -- returns its address.
  pub alloc_mmap_area_cases :
      (size : ℕ)
      → 0 < req_npages size
      → ((kgpu_alloc_mmap_area B v size ≡ (v, 0))
          × ((i : ℕ) → i + req_npages size ≤ v.npages → ¬ IsClear v.bitmap i (req_npages size)))
        ⊎ ((i : ℕ) × (i + req_npages size ≤ v.npages)
            × IsClear v.bitmap i (req_npages size)
            × (kgpu_alloc_mmap_area B v size ≡ (taken B v (req_npages size) i, page_address v i)))
  unfolding kgpu_alloc_mmap_area
  alloc_mmap_area_cases size pos =
      let n = req_npages size in
      let idx = bitmap_find_next_zero_area v.bitmap v.npages 0 n 0 in
      elim (Bool-cases (ltb idx v.npages)) [
        | inl e ↦
            let h : idx < v.npages = ltb→lt idx v.npages e in
            inr (
              idx,
              find_fits _ _ _ _ _ h,
              find_clear _ _ _ _ _ h,
              rw (e, page_address_lem idx h) refl,
            )
        | inr e ↦ inl (
          rw e refl,
          λ i l c. ground (arith, find_first v.bitmap v.npages 0 n i pos (omega arith) l c),
        )
      ]

  -- kgpu_free_mmap_area releases the block that starts at the address's page, if one does.
  pub free_mmap_area_cases :
      (a : ℕ)
      → ((kgpu_free_mmap_area B v a ≡ v) × ((n : ℕ) → ¬ Live (table v) (page_of a) n))
        ⊎ ((n : ℕ) × Live (table v) (page_of a) n
            × (kgpu_free_mmap_area B v a ≡ record v {
              bitmap = B.bitmap_clear v.bitmap (page_of a) n;
              alloc_sz = update v.alloc_sz (page_of a) 0;
            }))
  unfolding kgpu_free_mmap_area
  free_mmap_area_cases a = elim (Bool-cases (leb v.npages (page_of a))) [
    | inl e ↦ inl (rw e refl, λ n l. ground (arith, l.start))
    | inr e ↦ elim (Bool-cases (ltb 0 (v.alloc_sz (page_of a)))) [
      | inl f ↦
          let g : ltb (v.npages - page_of a) (v.alloc_sz (page_of a)) ≡ false =
            ground (arith, valid.sound.within (page_of a)) in
          inr (
            v.alloc_sz (page_of a),
            record {
              start = ground arith;
              size = refl;
              pos = ground arith;
              taken = λ j l u. valid.sound.marked (page_of a) j (ground arith) l u;
            },
            rw (e, f, g) refl,
          )
      | inr f ↦
          let g : ltb (v.npages - page_of a) (v.alloc_sz (page_of a)) ≡ false = ground arith in
          inl (rw (e, f, g) refl, λ n l. ground (arith, l.size, l.pos))
    ]
  ]

  IsArea-keep :
      (v' : KgpuVma) → IsSound (table v') → v'.start ≡ v.start → v'.npages ≡ v.npages → IsArea v'
  IsArea-keep v' s k n = record {
    sound = s;
    mapped = rw k valid.mapped;
    range = rw (k, n) valid.range;
    word = rw n valid.word;
  }

  -- kgpu_alloc_mmap_area for a size of at least one page keeps an area that is set up sound.
  pub kgpu_alloc_mmap_area-IsArea :
      (size : ℕ) → 0 < req_npages size → IsArea (kgpu_alloc_mmap_area B v size).0
  kgpu_alloc_mmap_area-IsArea size pos = elim (alloc_mmap_area_cases size pos) [
    | inl (e, _) ↦ rw e valid
    | inr (i, f, c, e) ↦
        rw e (IsArea-keep _ (reserve-IsSound B valid.sound i (req_npages size) pos f c) refl refl)
  ]

  -- kgpu_free_mmap_area of any address keeps an area that is set up sound.
  pub kgpu_free_mmap_area-IsArea : (a : ℕ) → IsArea (kgpu_free_mmap_area B v a)
  kgpu_free_mmap_area-IsArea a = elim (free_mmap_area_cases a) [
    | inl (e, _) ↦ rw e valid
    | inr (n, l, e) ↦ rw e (IsArea-keep _ (vacate-IsSound B valid.sound (page_of a) n l) refl refl)
  ]

  free_zero : kgpu_free_mmap_area B v 0 ≡ v
  free_zero = elim (free_mmap_area_cases 0) [
    | inl (e, _) ↦ e
    | inr (n, l, _) ↦ absurd (omega (arith, l.start, valid.range, valid.mapped))
  ]

  free_taken :
      (i n : ℕ)
      → 0 < n
      → i + n ≤ v.npages
      → IsClear v.bitmap i n
      → kgpu_free_mmap_area B (taken B v n i) (page_address v i) ≡ v
  unfolding kgpu_free_mmap_area
  free_taken i n pos fits clear =
      let unused : v.alloc_sz i ≡ 0 = reserve-unused B valid.sound i n pos fits clear in
      let back = vacate-reserve B (table v) i n clear unused in
      let bits : B.bitmap_clear (B.bitmap_set v.bitmap i n) i n ≡ v.bitmap =
        fun_ext λ j. (back j).0 in
      let sizes : update (update v.alloc_sz i n) i 0 ≡ v.alloc_sz = fun_ext λ j. (back j).1 in
      rw (page_of-address i (omega arith)) (ground (arith, bits, sizes))

  -- On a sound area that is set up, kgpu_free_mmap_area of what kgpu_alloc_mmap_area has returned
  -- for a size of at least one page, 0 included, gives back the area as it was.
  pub free-alloc_mmap_area :
      (size : ℕ)
      → 0 < req_npages size
      → kgpu_free_mmap_area B (kgpu_alloc_mmap_area B v size).0 (kgpu_alloc_mmap_area B v size).1
        ≡ v
  free-alloc_mmap_area size pos = elim (alloc_mmap_area_cases size pos) [
    | inl (e, _) ↦ rw e free_zero
    | inr (i, f, c, e) ↦ rw e (free_taken i (req_npages size) pos f c)
  ]

  -- On a sound area that is set up, kgpu_unmap_area does what kgpu_free_mmap_area does, which is
  -- nothing if no block starts at the page of the address; where it releases a block, it also zaps
  -- the page table entries of the block's size at the address and leaves the flag VM_PFNMAP
  -- cleared.
  pub unmap_area_cases :
      (a : ℕ)
      → ((kgpu_unmap_area B v a ≡ kgpu_free_mmap_area B v a)
          × (kgpu_unmap_area B v a ≡ v)
          × ((n : ℕ) → ¬ Live (table v) (page_of a) n))
        ⊎ ((n : ℕ) × Live (table v) (page_of a) n
            × (kgpu_unmap_area B v a ≡ record (kgpu_free_mmap_area B v a) {
              zapped = (a, to_u32 (n * page_size)) ∷ v.zapped;
              pfnmap = false;
            }))
  unfolding kgpu_unmap_area kgpu_free_mmap_area
  unmap_area_cases a = elim (Bool-cases (leb v.npages (page_of a))) [
    | inl e ↦ inl (rw e refl, rw e refl, λ n l. ground (arith, l.start))
    | inr e ↦ elim (Bool-cases (ltb 0 (v.alloc_sz (page_of a)))) [
      | inl f ↦
          let g : ltb (v.npages - page_of a) (v.alloc_sz (page_of a)) ≡ false =
            ground (arith, valid.sound.within (page_of a)) in
          inr (
            v.alloc_sz (page_of a),
            record {
              start = ground arith;
              size = refl;
              pos = ground arith;
              taken = λ j l u. valid.sound.marked (page_of a) j (ground arith) l u;
            },
            rw (e, f, g) refl,
          )
      | inr f ↦
          let g : ltb (v.npages - page_of a) (v.alloc_sz (page_of a)) ≡ false = ground arith in
          inl (rw (e, f, g) refl, rw (e, f, g) refl, λ n l. ground (arith, l.size, l.pos))
    ]
  ]
