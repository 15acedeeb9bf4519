-- ===== src/Kernel/Mempool/Setup.antt =====
-- set_gpu_mempool of kgpu/src/kernelSpace/main.c: what KGPU_IOC_SET_GPU_BUFS leaves behind.
use kgpu_fga.Base.{
  ℕ, zero, suc, ◌+◌, ◌*◌, ◌/◌, ◌≤◌, ◌<◌, ◌≡◌, ◌≢◌, ◌↔◌, refl, false, arith, ◌==◌, Bool-cases,
  to_u32, add64, mul64, ulong_mod, inl, inr, if◌then◌else◌,
}
use kgpu_fga.Config.{page_size, kgpu_buf_unit_size, nat}
use kgpu_fga.Kernel.Bitmap.{LinuxBitmap}
use kgpu_fga.Kernel.Kutils.{PageTables, kgpu_v2page}
use kgpu_fga.Kernel.Table.{IsSound}
use kgpu_fga.Kernel.Mempool.{
  KgpuMempool, KgpuGpuMemInfo, SetupEnv, table, memset_u32, set_gpu_mempool, fill_pages, IsPool,
}

-- The sizes that set_gpu_mempool finds: those of a new array, or of the one from before.
abbrev pub found_sizes : SetupEnv → KgpuMempool → ℕ → ℕ
found_sizes env m = if m.alloc_sz_null then env.fresh_alloc_sz else m.alloc_sz

fill_pages_lem :
    (t : PageTables) (uva : ℕ) (pages : ℕ → ℕ) (k i : ℕ)
    → i < k
    → fill_pages t uva pages k i ≡ kgpu_v2page t (add64 uva (mul64 i page_size))
unfolding fill_pages
fill_pages_lem t uva pages zero i h = elim h [ ]
fill_pages_lem t uva pages (suc k) i h = elim (Bool-cases (k == i)) [
  | inl e ↦ let s : k ≡ i = ground arith in rw (e, s) refl
  | inr e ↦ rw e (fill_pages_lem t uva pages k i (ground arith))
]

module _ (B : LinuxBitmap) (env : SetupEnv) (m : KgpuMempool) (gb : KgpuGpuMemInfo)
    (ok : (set_gpu_mempool B env m gb).1 ≡ nat 0) where
  abbrev after : KgpuMempool
  after = (set_gpu_mempool B env m gb).0

  pub setup_nunits : after.nunits ≡ to_u32 (gb.size / page_size) / 256
  unfolding set_gpu_mempool
  setup_nunits = ground (arith, ok)

  pub setup_uva : after.uva ≡ gb.uva
  unfolding set_gpu_mempool
  setup_uva = ground (arith, ok)

  pub setup_sizes : (i : ℕ) → after.alloc_sz i ≡ memset_u32 (found_sizes env m) after.nunits i
  unfolding set_gpu_mempool
  setup_sizes i = ground (arith, ok)

  setup_bitmap_eq :
      after.bitmap
      ≡ B.bitmap_zero (if m.bitmap_null then env.fresh_bitmap else m.bitmap) after.nunits
  unfolding set_gpu_mempool
  setup_bitmap_eq = ground (arith, ok)

  pub setup_bits : (j : ℕ) → j < after.nunits → after.bitmap j ≡ false
  setup_bits j h = rw setup_bitmap_eq (B.zero_bit _ after.nunits j h)

  pub setup_mapped : 0 < after.kva
  unfolding set_gpu_mempool
  setup_mapped = ground (arith, ok)

  setup_pages_eq :
      after.pages
      ≡ fill_pages env.tables gb.uva
          (if m.pages_null then env.fresh_pages else m.pages)
          (to_u32 (gb.size / page_size))
  unfolding set_gpu_mempool
  setup_pages_eq = ground (arith, ok)

  -- After a successful set_gpu_mempool the pool's page array holds, for each page of the user's
  -- buffer, the page that the walk of the page tables finds.
  pub setup_pages :
      (i : ℕ)
      → i < to_u32 (gb.size / page_size)
      → after.pages i ≡ kgpu_v2page env.tables (add64 gb.uva (mul64 i page_size))
  setup_pages i h = rw setup_pages_eq (fill_pages_lem env.tables gb.uva _ _ i h)

  -- After a successful set_gpu_mempool the pool's blocks are sound exactly if every entry of its
  -- size table is zero.
  pub setup-IsSound : IsSound (table after) ↔ ((i : ℕ) → i < after.nunits → after.alloc_sz i ≡ 0)
  setup-IsSound = (
    λ s i h. elim (Bool-cases (after.alloc_sz i == 0)) [
      | inl e ↦ ground arith
      | inr e ↦ ground (arith, s.marked i i h, setup_bits i h)
    ],
    λ z. record {
      within = λ i h p. ground (arith, z i h);
      marked = λ i j h l u. ground (arith, z i h);
      apart = λ i j l h p q. ground (arith, z j h);
      owned = λ j h e. ground (arith, setup_bits j h);
    },
  )

  -- A successful set_gpu_mempool leaves an entry of the size table as it was if the entry's bytes
  -- lie beyond the first nunits bytes of the table; if it was not zero, the pool's blocks are not
  -- sound.
  pub setup_stale :
      (i : ℕ)
      → i < after.nunits
      → after.nunits ≤ 4 * i
      → found_sizes env m i ≢ 0
      → (after.alloc_sz i ≡ found_sizes env m i) × (¬ IsSound (table after))
  unfolding memset_u32
  setup_stale i h u d =
      let kept : after.alloc_sz i ≡ found_sizes env m i = ground (arith, setup_sizes i) in
      (kept, λ s. ground (arith, setup-IsSound.0 s i h))

  -- A successful set_gpu_mempool leaves a sound pool that is set up, if the entries of the size
  -- table that it finds are zero and the mapping ends within the address space.
  pub setup-IsPool :
      ((i : ℕ) → i < after.nunits → found_sizes env m i ≡ 0)
      → after.kva + after.nunits * kgpu_buf_unit_size ≤ ulong_mod
      → IsPool after
  unfolding memset_u32
  setup-IsPool z r = record {
    sound = setup-IsSound.1 λ i h. ground (arith, setup_sizes i, z i h);
    mapped = setup_mapped;
    range = r;
    word = omega (arith, setup_nunits);
  }
