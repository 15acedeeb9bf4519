-- ===== src/Kernel/Table.antt =====
-- What kgpu_vmalloc and kgpu_alloc_mmap_area have in common: a bitmap of units and, for the first
-- unit of each block, the size of the block. `reserve` is the pair of writes that both make.
use kgpu_fga.Base.{
  ℕ, ◌+◌, ◌≤◌, ◌<◌, ◌≡◌, ◌≢◌, ◌↔◌, ◌⊎◌, inl, inr, true, false, arith, ◌==◌, leb, update, Bool-cases,
}
use kgpu_fga.Kernel.Bitmap.{Bits, inside, IsClear, LinuxBitmap}

pub record Table : Type 0 where
  pub bits : Bits
  pub sizes : ℕ → ℕ
  pub count : ℕ

-- The block of `n` units at `i` is allocated: it has an entry for its size, and its bits are set.
pub record Live (t : Table) (i n : ℕ) : Type 0 where
  pub start : i < t.count
  pub size : t.sizes i ≡ n
  pub pos : 0 < n
  pub taken : (j : ℕ) → i ≤ j → j < i + n → t.bits j ≡ true

-- Blocks lie within the table and apart, their bits are set, and no other bit is.
pub record IsSound (t : Table) : Type 0 where
  pub within : (i : ℕ) → i < t.count → 0 < t.sizes i → i + t.sizes i ≤ t.count
  pub marked : (i j : ℕ) → i < t.count → i ≤ j → j < i + t.sizes i → t.bits j ≡ true
  pub apart : (i j : ℕ) → i < j → j < t.count → 0 < t.sizes i → 0 < t.sizes j → i + t.sizes i ≤ j
  pub owned : (j : ℕ) → j < t.count → t.bits j ≡ true → (i : ℕ) × (i ≤ j) × (j < i + t.sizes i)

module _ (B : LinuxBitmap) where
  open B use {bitmap_set, bitmap_clear, set_bit, clear_bit}

  abbrev pub reserve : Table → ℕ → ℕ → Table
  reserve t i n = record t { bits = bitmap_set t.bits i n; sizes = update t.sizes i n }

  abbrev pub vacate : Table → ℕ → ℕ → Table
  vacate t i n = record t { bits = bitmap_clear t.bits i n; sizes = update t.sizes i 0 }

  module _ {t : Table} (s : IsSound t) (i n : ℕ) (pos : 0 < n) (fits : i + n ≤ t.count)
      (free : IsClear t.bits i n) where
    -- An old block does not meet the free area.
    old_apart : (k : ℕ) → k < t.count → 0 < t.sizes k → (k + t.sizes k ≤ i) ⊎ (i + n ≤ k)
    old_apart k h p = elim (Bool-cases (leb (k + t.sizes k) i)) [
      | inl e ↦ inl (ground arith)
      | inr e ↦ elim (Bool-cases (leb (i + n) k)) [
        | inl f ↦ inr (ground arith)
        | inr f ↦ elim (Bool-cases (leb k i)) [
          | inl g ↦ ground (arith, s.marked k i h, free i)
          | inr g ↦ ground (arith, s.marked k k h, free k)
        ]
      ]
    ]

    reserve_owned :
        (j : ℕ)
        → j < t.count
        → bitmap_set t.bits i n j ≡ true
        → (k : ℕ) × (k ≤ j) × (j < k + update t.sizes i n k)
    reserve_owned j h e = elim (Bool-cases (inside i n j)) [
      | inl new ↦ (i, ground arith, ground arith)
      | inr old ↦
          let (k, l, u) = s.owned j h (ground (arith, set_bit t.bits i n j)) in
          (k, l, ground (arith, s.marked k k, free k))
    ]

    -- A free area becomes a block.
    pub reserve-IsSound : IsSound (reserve t i n)
    reserve-IsSound = record {
      within = λ k h p. ground (arith, s.within k h);
      marked = λ k j h l u. ground (arith, set_bit t.bits i n j, s.marked k j h l);
      apart = λ k j l h p q. ground (arith, s.apart k j l h, old_apart k, old_apart j h);
      owned = λ j h e. reserve_owned j h e;
    }

    -- It meets no block that was there before.
    pub reserve-apart : (k m : ℕ) → Live t k m → (k + m ≤ i) ⊎ (i + n ≤ k)
    reserve-apart k m live = ground (arith, old_apart k live.start)

    pub reserve-unused : t.sizes i ≡ 0
    reserve-unused = ground (arith, s.marked i i, free i)

    old_Live : (k m : ℕ) → (i == k) ≡ false → Live (reserve t i n) k m → Live t k m
    old_Live k m e live =
        let size : t.sizes k ≡ m = ground (arith, live.size) in
        record {
          start = live.start;
          size = size;
          pos = live.pos;
          taken = λ j l u. s.marked k j live.start l (omega (arith, size, u));
        }

    -- The bits afterwards are those before and those of the new block.
    pub reserve-bits :
        (j : ℕ) → (bitmap_set t.bits i n j ≡ true) ↔ ((t.bits j ≡ true) ⊎ ((i ≤ j) × (j < i + n)))
    reserve-bits j = elim (Bool-cases (inside i n j)) [
      | inl new ↦ (λ e. inr (ground arith, ground arith), λ d. ground (arith, set_bit t.bits i n j))
      | inr old ↦ (
        λ e. inl (ground (arith, set_bit t.bits i n j)),
        elim [
          | inl e ↦ ground (arith, set_bit t.bits i n j)
          | inr (l, u) ↦ ground (arith, set_bit t.bits i n j)
        ],
      )
    ]

    -- The blocks afterwards are those before and the new one.
    pub reserve-Live : (k m : ℕ) → Live (reserve t i n) k m ↔ (Live t k m ⊎ ((k ≡ i) × (m ≡ n)))
    reserve-Live k m = (
      λ live. elim (Bool-cases (i == k)) [
        | inl e ↦ inr (ground arith, ground (arith, live.size))
        | inr e ↦ inl (old_Live k m e live)
      ],
      elim [
        | inl live ↦ record {
          start = live.start;
          size = ground (arith, reserve-unused, live.size);
          pos = live.pos;
          taken = λ j l u. (reserve-bits j).1 (inl (live.taken j l u));
        }
        | inr (e, f) ↦ record {
          start = omega arith;
          size = ground arith;
          pos = omega arith;
          taken = λ j l u. (reserve-bits j).1 (inr (omega (arith, e, l), omega (arith, e, f, u)));
        }
      ],
    )

  module _ {t : Table} (s : IsSound t) (i n : ℕ) (live : Live t i n) where
    clear_apart : (k : ℕ) → k < t.count → k ≢ i → 0 < t.sizes k → (k + t.sizes k ≤ i) ⊎ (i + n ≤ k)
    clear_apart k h d p = ground (arith, live.size, live.start, live.pos, s.apart k i, s.apart i k)

    vacate_owned :
        (j : ℕ)
        → j < t.count
        → bitmap_clear t.bits i n j ≡ true
        → (k : ℕ) × (k ≤ j) × (j < k + update t.sizes i 0 k)
    vacate_owned j h e =
        let (k, l, u) = s.owned j h (ground (arith, clear_bit t.bits i n j)) in
        (k, l, ground (arith, clear_bit t.bits i n j, live.size))

    -- A block becomes a free area.
    pub vacate-IsSound : IsSound (vacate t i n)
    vacate-IsSound = record {
      within = λ k h p. ground (arith, s.within k h);
      marked =
          λ k j h l u. ground (arith, clear_bit t.bits i n j, s.marked k j h l, clear_apart k h);
      apart = λ k j l h p q. ground (arith, s.apart k j l h);
      owned = λ j h e. vacate_owned j h e;
    }

    pub vacate-IsClear : IsClear (bitmap_clear t.bits i n) i n
    vacate-IsClear j l u = ground (arith, clear_bit t.bits i n j)

    -- The bits afterwards are those before less those of the block.
    pub vacate-bits :
        (j : ℕ) → (bitmap_clear t.bits i n j ≡ true) ↔ ((t.bits j ≡ true) × ((j < i) ⊎ (i + n ≤ j)))
    vacate-bits j = elim (Bool-cases (inside i n j)) [
      | inl gone ↦ (
        λ e. absurd (ground (arith, clear_bit t.bits i n j)),
        λ (e, d). absurd (elim d [ inl l ↦ ground arith | inr l ↦ ground arith ]),
      )
      | inr kept ↦ (
        λ e. (
          ground (arith, clear_bit t.bits i n j),
          elim (Bool-cases (leb i j)) [ inl l ↦ inr (ground arith) | inr l ↦ inl (ground arith) ],
        ),
        λ (e, d). ground (arith, clear_bit t.bits i n j),
      )
    ]

    -- The blocks afterwards are the others.
    pub vacate-Live : (k m : ℕ) → Live (vacate t i n) k m ↔ (Live t k m × (k ≢ i))
    vacate-Live k m = (
      λ l. (
        record {
          start = l.start;
          size = ground (arith, l.size, l.pos);
          pos = l.pos;
          taken = λ j a b. ((vacate-bits j).0 (l.taken j a b)).0;
        },
        ground (arith, l.size, l.pos),
      ),
      λ (l, d). record {
        start = l.start;
        size = ground (arith, l.size);
        pos = l.pos;
        taken = λ j a b. (vacate-bits j).1 (
          l.taken j a b,
          elim (clear_apart k l.start d (omega (arith, l.size, l.pos))) [
            | inl e ↦ inl (omega (arith, e, l.size, b))
            | inr e ↦ inr (omega (arith, e, a))
          ],
        );
      },
    )

  -- Freeing a new block restores every bit and every size.
  pub vacate-reserve :
      (t : Table) (i n : ℕ)
      → IsClear t.bits i n
      → t.sizes i ≡ 0
      → (j : ℕ)
      → ((vacate (reserve t i n) i n).bits j ≡ t.bits j)
        × ((vacate (reserve t i n) i n).sizes j ≡ t.sizes j)
  vacate-reserve t i n free unused j = (
    ground (arith, clear_bit (bitmap_set t.bits i n) i n j, set_bit t.bits i n j, free j),
    ground arith,
  )
