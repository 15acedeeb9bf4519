-- ===== src/Kernel/Mempool/Alloc.antt =====
-- kgpu_vmalloc of kgpu/src/kernelSpace/main.c: what it promises.
use kgpu_fga.Base.{
  ℕ, ◌+◌, ◌*◌, ◌/◌, ◌≤◌, ◌<◌, ◌≡◌, refl, ◌⊎◌, inl, inr, arith, ltb, ltb→lt, lt→ltb, Bool-cases,
  add64, update, sub64, mul64,
}
use kgpu_fga.Config.{kgpu_buf_unit_size}
use kgpu_fga.Kernel.Bitmap.{IsClear, LinuxBitmap}
use kgpu_fga.Kernel.Table.{reserve}
use kgpu_fga.Kernel.Mempool.{KgpuMempool, table, req_nunits, kgpu_vmalloc, IsPool}

-- The pointer to unit `i`.
abbrev pub unit_address : KgpuMempool → ℕ → ℕ
unit_address m i = m.kva + i * kgpu_buf_unit_size

-- No `n` neighbouring units are free.
abbrev pub IsFull : KgpuMempool → ℕ → Type 0
IsFull m n = (i : ℕ) → i + n ≤ m.nunits → ¬ IsClear m.bitmap i n

module _ (B : LinuxBitmap) where
  -- The result `r` of taking `n` units at `i`, the first place where that many are free.
  pub record Granted (m : KgpuMempool) (n : ℕ) (r : KgpuMempool × ℕ) (i : ℕ) : Type 0 where
    pub fits : i + n ≤ m.nunits
    pub clear : IsClear m.bitmap i n
    pub first : (j : ℕ) → j < i → ¬ IsClear m.bitmap j n
    pub state :
        r.0 ≡ record m { bitmap = B.bitmap_set m.bitmap i n; alloc_sz = update m.alloc_sz i n }
    pub address : r.1 ≡ unit_address m i

module _ {B : LinuxBitmap} {m : KgpuMempool} {n i : ℕ} {r : KgpuMempool × ℕ}
    (g : Granted B m n r i) where
  pub table_eq : table r.0 ≡ reserve B (table m) i n
  table_eq = rw g.state refl

  pub kva_eq : r.0.kva ≡ m.kva
  kva_eq = rw g.state refl

module _ (B : LinuxBitmap) {m : KgpuMempool} (valid : IsPool m) where
  open B use {bitmap_find_next_zero_area, find_fits, find_clear, find_first}

  unit_address_lem :
      (i : ℕ) → i < m.nunits → add64 m.kva (mul64 i kgpu_buf_unit_size) ≡ unit_address m i
  unit_address_lem i h = omega (arith, valid.range)

  -- Any address in a unit leads back to the unit.
  pub unit_index :
      (i d : ℕ)
      → i < m.nunits
      → d < kgpu_buf_unit_size
      → sub64 (unit_address m i + d) m.kva / kgpu_buf_unit_size ≡ i
  unit_index i d h l = omega (arith, valid.range)

  module _ (nbytes : ℕ) (pos : 0 < req_nunits nbytes) where
    abbrev idx : ℕ
    idx = bitmap_find_next_zero_area m.bitmap m.nunits 0 (req_nunits nbytes) 0

    not_before :
        (j : ℕ)
        → j < idx
        → j + req_nunits nbytes ≤ m.nunits
        → ¬ IsClear m.bitmap j (req_nunits nbytes)
    not_before j h l c =
        absurd (
          omega (arith, find_first m.bitmap m.nunits 0 (req_nunits nbytes) j pos (omega arith) l c))

    found : idx < m.nunits → Granted B m (req_nunits nbytes) (kgpu_vmalloc B m nbytes) idx
    unfolding kgpu_vmalloc
    found h =
        let fits = find_fits m.bitmap m.nunits 0 (req_nunits nbytes) 0 h in
        record {
          fits = fits;
          clear = find_clear m.bitmap m.nunits 0 (req_nunits nbytes) 0 h;
          first = λ j l. not_before j l (omega (arith, fits));
          state = rw (lt→ltb idx m.nunits h) refl;
          address = rw (lt→ltb idx m.nunits h) (unit_address_lem idx h);
        }

    -- On a sound pool that is set up, kgpu_vmalloc for a size of at least one unit returns NULL and
    -- changes nothing if no free run of units is long enough, and otherwise takes the first such
    -- run and returns its address.
    pub vmalloc_cases :
        ((kgpu_vmalloc B m nbytes ≡ (m, 0)) × IsFull m (req_nunits nbytes))
        ⊎ ((i : ℕ) × Granted B m (req_nunits nbytes) (kgpu_vmalloc B m nbytes) i)
    vmalloc_cases = elim (Bool-cases (ltb idx m.nunits)) [
      | inl e ↦ inr (idx, found (ltb→lt idx m.nunits e))
      | inr e ↦ inl (unfold kgpu_vmalloc in rw e refl, λ i l. not_before i (ground arith) l)
    ]
