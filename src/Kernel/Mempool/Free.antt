-- ===== src/Kernel/Mempool/Free.antt =====
-- kgpu_vfree of kgpu/src/kernelSpace/main.c, and kgpu_vmalloc with it.
use kgpu_fga.Base.{
  ℕ, ◌+◌, ◌-◌, ◌*◌, ◌/◌, ◌^◌, ◌≤◌, ◌<◌, ◌≡◌, ◌≢◌, refl, ◌⊎◌, ◌↔◌, inl, inr, true, false, none, some,
  arith, ◌==◌, ltb, leb, Bool-cases, sub64, update, fun_ext, to_u32, lt→ltb, ap, ◌∙◌,
}
use kgpu_fga.Config.{div_round_up, kgpu_buf_unit_size}
use kgpu_fga.Kernel.Bitmap.{IsClear, LinuxBitmap}
use kgpu_fga.Kernel.Table.{
  Table, IsSound, Live, reserve-IsSound, reserve-Live, reserve-apart, reserve-unused, reserve-bits,
  vacate, vacate-bits, vacate-IsSound, vacate-Live, vacate-reserve,
}
use kgpu_fga.Kernel.Mempool.{
  KgpuMempool, table, req_nunits, kgpu_vmalloc, kgpu_vfree_begin, kgpu_vfree_end, kgpu_vfree,
  IsPool,
}
use kgpu_fga.Kernel.Mempool.Alloc.{unit_address, unit_index, table_eq, kva_eq, vmalloc_cases}

module _ (B : LinuxBitmap) {m : KgpuMempool} (valid : IsPool m) where
  -- The unit that kgpu_vfree computes from a pointer.
  abbrev pub unit_of : ℕ → ℕ
  unit_of p = sub64 p m.kva / kgpu_buf_unit_size

  -- kgpu_vfree finds the block that starts at the pointer's unit, and returns if none does.
  pub begin_cases :
      (p : ℕ)
      → ((kgpu_vfree_begin B m p ≡ none) × ((n : ℕ) → ¬ Live (table m) (unit_of p) n))
        ⊎ ((n : ℕ) × Live (table m) (unit_of p) n × (kgpu_vfree_begin B m p ≡ some (unit_of p, n)))
  unfolding kgpu_vfree_begin
  begin_cases p = elim (Bool-cases (leb m.nunits (unit_of p))) [
    | inl e ↦ inl (rw e refl, λ n l. ground (arith, l.start))
    | inr e ↦ elim (Bool-cases (m.alloc_sz (unit_of p) == 0)) [
      | inl f ↦ inl (rw (e, f) refl, λ n l. ground (arith, l.size, l.pos))
      | inr f ↦
          let w : unit_of p + m.alloc_sz (unit_of p) ≤ m.nunits =
            ground (arith, valid.sound.within (unit_of p)) in
          let g : ltb (m.nunits - unit_of p) (m.alloc_sz (unit_of p)) ≡ false = ground arith in
          inr (
            m.alloc_sz (unit_of p),
            record {
              start = ground arith;
              size = refl;
              pos = ground arith;
              taken = λ j l u. valid.sound.marked (unit_of p) j (ground arith) l u;
            },
            rw (e, f, g) refl,
          )
    ]
  ]

  -- kgpu_vfree releases the block that starts at the pointer's unit, and does nothing if none does.
  pub vfree_cases :
      (p : ℕ)
      → ((kgpu_vfree B m p ≡ m) × ((n : ℕ) → ¬ Live (table m) (unit_of p) n))
        ⊎ ((n : ℕ) × Live (table m) (unit_of p) n
            × (table (kgpu_vfree B m p) ≡ vacate B (table m) (unit_of p) n)
            × ((kgpu_vfree B m p).kva ≡ m.kva))
  unfolding kgpu_vfree kgpu_vfree_end
  vfree_cases p = elim (begin_cases p) [
    | inl (e, f) ↦ inl (rw (kgpu_vfree, e) refl, f)
    | inr (n, l, e) ↦ inr (n, l, rw (kgpu_vfree, e) refl, rw (kgpu_vfree, e) refl)
  ]

  IsPool-keep :
      (m' : KgpuMempool) → IsSound (table m') → m'.kva ≡ m.kva → m'.nunits ≡ m.nunits → IsPool m'
  IsPool-keep m' s k n = record {
    sound = s;
    mapped = rw k valid.mapped;
    range = rw (k, n) valid.range;
    word = rw n valid.word;
  }

  -- kgpu_vfree of any pointer keeps a pool that is set up sound.
  pub vfree-IsPool : (p : ℕ) → IsPool (kgpu_vfree B m p)
  vfree-IsPool p = elim (vfree_cases p) [
    | inl (e, _) ↦ rw e valid
    | inr (n, l, e, k) ↦
        IsPool-keep _ (rw e (vacate-IsSound B valid.sound (unit_of p) n l)) k
          (ap (λ (t : Table). t.count) e)
  ]

  -- kgpu_vmalloc for a size of at least one unit keeps a pool that is set up sound.
  pub vmalloc-IsPool : (nbytes : ℕ) → 0 < req_nunits nbytes → IsPool (kgpu_vmalloc B m nbytes).0
  vmalloc-IsPool nbytes pos = elim (vmalloc_cases B valid nbytes pos) [
    | inl (e, _) ↦ rw e valid
    | inr (i, g) ↦
        IsPool-keep _
          (rw (table_eq g) (reserve-IsSound B valid.sound i (req_nunits nbytes) pos g.fits g.clear))
          (kva_eq g) (ap (λ (t : Table). t.count) (table_eq g))
  ]

  -- On a sound pool that is set up, a pointer other than NULL that kgpu_vmalloc returns for a size
  -- of at least one unit is the address of a run of units within the pool, none of which was taken.
  -- Afterwards the pool is sound, its bitmap marks as taken the units that it marked before and
  -- those of the run, and the allocated blocks are those before, which do not meet the run, and the
  -- run.
  pub vmalloc-Live :
      (nbytes : ℕ)
      → 0 < req_nunits nbytes
      → (kgpu_vmalloc B m nbytes).1 ≢ 0
      → (i : ℕ) × ((kgpu_vmalloc B m nbytes).1 ≡ unit_address m i)
        × (i + req_nunits nbytes ≤ m.nunits)
        × IsClear m.bitmap i (req_nunits nbytes)
        × IsPool (kgpu_vmalloc B m nbytes).0
        × ((j : ℕ)
            → ((kgpu_vmalloc B m nbytes).0.bitmap j ≡ true)
              ↔ ((m.bitmap j ≡ true) ⊎ ((i ≤ j) × (j < i + req_nunits nbytes))))
        × ((k n : ℕ) → Live (table m) k n → (k + n ≤ i) ⊎ (i + req_nunits nbytes ≤ k))
        × ((k n : ℕ)
            → Live (table (kgpu_vmalloc B m nbytes).0) k n
              ↔ (Live (table m) k n ⊎ ((k ≡ i) × (n ≡ req_nunits nbytes))))
  vmalloc-Live nbytes pos d = elim (vmalloc_cases B valid nbytes pos) [
    | inl (e, _) ↦ absurd (d (rw e refl))
    | inr (i, g) ↦ (
      i,
      g.address,
      g.fits,
      g.clear,
      vmalloc-IsPool nbytes pos,
      rw g.state (reserve-bits B valid.sound i (req_nunits nbytes) pos g.fits g.clear),
      reserve-apart B valid.sound i (req_nunits nbytes) pos g.fits g.clear,
      rw (table_eq g) (reserve-Live B valid.sound i (req_nunits nbytes) pos g.fits g.clear),
    )
  ]

  -- On a sound pool that is set up, kgpu_vfree of any pointer leaves a sound pool. Its allocated
  -- blocks are those before, less the block that starts at the pointer's unit. If there is such a
  -- block, the bitmap marks the units that it marked before less those of the block; if not, the
  -- pool is as it was.
  pub vfree-Live :
      (p : ℕ)
      → IsPool (kgpu_vfree B m p)
        × ((k n : ℕ) → Live (table (kgpu_vfree B m p)) k n ↔ (Live (table m) k n × (k ≢ unit_of p)))
        × (((n : ℕ) × Live (table m) (unit_of p) n
              × ((j : ℕ)
                  → ((kgpu_vfree B m p).bitmap j ≡ true)
                    ↔ ((m.bitmap j ≡ true) × ((j < unit_of p) ⊎ (unit_of p + n ≤ j)))))
            ⊎ (((n : ℕ) → ¬ Live (table m) (unit_of p) n) × (kgpu_vfree B m p ≡ m)))
  vfree-Live p = elim (vfree_cases p) [
    | inl (e, f) ↦
        (vfree-IsPool p, rw e (λ k n. (λ l. (l, λ d. f n (rw (← d) l)), λ l. l.0)), inr (f, e))
    | inr (n, l, e, _) ↦ (
      vfree-IsPool p,
      rw e (vacate-Live B valid.sound (unit_of p) n l),
      inl (n, l, rw (ap (λ (t : Table). t.bits) e) (vacate-bits B valid.sound (unit_of p) n l)),
    )
  ]

  unit_of-address : (i : ℕ) → i < m.nunits → unit_of (unit_address m i) ≡ i
  unit_of-address i h =
      ap (λ (a : ℕ). sub64 a m.kva / kgpu_buf_unit_size) (omega arith)
      ∙ unit_index B valid i 0 h (omega arith)

  vfree_null : kgpu_vfree B m 0 ≡ m
  vfree_null = elim (vfree_cases 0) [
    | inl (e, _) ↦ e
    | inr (n, l, _, _) ↦ absurd (omega (arith, l.start, valid.range, valid.mapped))
  ]

  vfree_block :
      (i n : ℕ)
      → 0 < n
      → i + n ≤ m.nunits
      → IsClear m.bitmap i n
      → kgpu_vfree B
          (record m { bitmap = B.bitmap_set m.bitmap i n; alloc_sz = update m.alloc_sz i n })
          (unit_address m i)
        ≡ m
  unfolding kgpu_vfree kgpu_vfree_begin kgpu_vfree_end
  vfree_block i n pos fits clear =
      let unused : m.alloc_sz i ≡ 0 = reserve-unused B valid.sound i n pos fits clear in
      let back = vacate-reserve B (table m) i n clear unused in
      let bits : B.bitmap_clear (B.bitmap_set m.bitmap i n) i n ≡ m.bitmap =
        fun_ext λ j. (back j).0 in
      let sizes : update (update m.alloc_sz i n) i 0 ≡ m.alloc_sz = fun_ext λ j. (back j).1 in
      let begun : kgpu_vfree_begin B
            (record m { bitmap = B.bitmap_set m.bitmap i n; alloc_sz = update m.alloc_sz i n })
            (unit_address m i)
          ≡ some (i, n) =
        rw (unit_of-address i (omega arith)) (ground arith) in
      rw (kgpu_vfree, begun, bits, sizes) refl

  -- On a sound pool that is set up, kgpu_vfree of what kgpu_vmalloc has returned for a size of at
  -- least one unit, NULL included, gives back the pool as it was.
  pub vfree-vmalloc :
      (nbytes : ℕ)
      → 0 < req_nunits nbytes
      → kgpu_vfree B (kgpu_vmalloc B m nbytes).0 (kgpu_vmalloc B m nbytes).1 ≡ m
  vfree-vmalloc nbytes pos = elim (vmalloc_cases B valid nbytes pos) [
    | inl (e, _) ↦ rw e vfree_null
    | inr (i, g) ↦ rw (g.state, g.address) (vfree_block i (req_nunits nbytes) pos g.fits g.clear)
  ]

-- On a sound pool that is set up, where the search for zero units finds a unit, kgpu_vmalloc for k
-- times 2^52 bytes with k between 1 and 4095 returns a pointer other than NULL and marks no unit as
-- taken.
pub vmalloc_truncated :
    (B : LinuxBitmap) {m : KgpuMempool} (valid : IsPool m) (k : ℕ)
    → 0 < k
    → k < 4096
    → B.bitmap_find_next_zero_area m.bitmap m.nunits 0 0 0 < m.nunits
    → ((kgpu_vmalloc B m (k * 2 ^ 52)).1 ≢ 0)
      × ((j : ℕ) → (kgpu_vmalloc B m (k * 2 ^ 52)).0.bitmap j ≡ m.bitmap j)
unfolding kgpu_vmalloc req_nunits
vmalloc_truncated B {m} valid k pos small found =
    let cut : to_u32 (div_round_up (k * 2 ^ 52) kgpu_buf_unit_size) ≡ 0 = omega arith in
    rw (cut, lt→ltb _ _ found)
      (
        λ e. omega (arith, valid.range, valid.mapped),
        λ j.
            ground (
              arith,
              B.set_bit m.bitmap (B.bitmap_find_next_zero_area m.bitmap m.nunits 0 0 0) 0 j,
            ),
      )
