-- ===== src/Kernel/Mempool.antt =====
-- The pool of GPU buffers of kgpu/src/kernelSpace/main.c: struct _kgpu_mempool, kgpu_vmalloc,
-- kgpu_vfree and set_gpu_mempool. kgpu_vmalloc takes gmpool_lock for all that it reads and writes, so it
-- is one step; kgpu_vfree takes it only after it has read the size of the block, so it is two. Log calls
-- are left out. A pointer field of the source is its contents and a flag that says
-- whether it is NULL.
pub mod Alloc
pub mod Between
pub mod Free
pub mod Setup
use kgpu_fga.Base.{
  Option, none, some, ℕ, zero, suc, ◌+◌, ◌-◌, ◌*◌, ◌/◌, ◌^◌, ◌≤◌, ◌<◌, Bool, true, false, ◌&&◌, not,
  if◌then◌else◌, ltb, leb, ◌==◌, update, add64, sub64, mul64, to_u32, ulong_mod, u32_mod,
}
use kgpu_fga.Config.{
  page_size, kgpu_buf_unit_size, kgpu_buf_nr_frames_per_unit, div_round_up, CInt, nat, neg, enomem,
  efault,
}
use kgpu_fga.Kernel.Bitmap.{Bits, LinuxBitmap}
use kgpu_fga.Kernel.Kutils.{PageTables, kgpu_v2page}
use kgpu_fga.Kernel.Table.{Table, IsSound}

pub record KgpuMempool : Type 0 where
  pub uva : ℕ
  pub kva : ℕ
  pub pages : ℕ → ℕ
  pub pages_null : Bool
  pub npages : ℕ
  pub nunits : ℕ
  pub bitmap : Bits
  pub bitmap_null : Bool
  pub alloc_sz : ℕ → ℕ
  pub alloc_sz_null : Bool

abbrev pub table : KgpuMempool → Table
table m = record { bits = m.bitmap; sizes = m.alloc_sz; count = m.nunits }

-- The number of units for a size in bytes: an `unsigned int` that takes an `unsigned long`.
unfoldable pub req_nunits : ℕ → ℕ
req_nunits nbytes = to_u32 (div_round_up nbytes kgpu_buf_unit_size)

module _ (B : LinuxBitmap) where
  open B use {bitmap_set, bitmap_clear, bitmap_zero, bitmap_find_next_zero_area}

  -- The new pool and the pointer, which is 0 for NULL.
  unfoldable pub kgpu_vmalloc : KgpuMempool → ℕ → KgpuMempool × ℕ
  kgpu_vmalloc m nbytes =
      let n = req_nunits nbytes in
      let idx = bitmap_find_next_zero_area m.bitmap m.nunits 0 n 0 in
      if ltb idx m.nunits
      then (
        record m { bitmap = bitmap_set m.bitmap idx n; alloc_sz = update m.alloc_sz idx n },
        add64 m.kva (mul64 idx kgpu_buf_unit_size),
      )
      else (m, 0)

  -- kgpu_vfree before it takes the lock: the unit of the pointer and the size of its block, or none
  -- where it returns at once.
  unfoldable pub kgpu_vfree_begin : KgpuMempool → ℕ → Option (ℕ × ℕ)
  kgpu_vfree_begin m p =
      let idx = sub64 p m.kva / kgpu_buf_unit_size in
      let n = m.alloc_sz idx in
      if leb m.nunits idx
      then none
      else if n == 0
      then none
      else if ltb (m.nunits - idx) n
      then none
      else some (idx, n)

  -- The rest of kgpu_vfree, under the lock.
  unfoldable pub kgpu_vfree_end : KgpuMempool → (idx n : ℕ) → KgpuMempool
  kgpu_vfree_end m idx n = record m {
    bitmap = bitmap_clear m.bitmap idx n;
    alloc_sz = update m.alloc_sz idx 0;
  }

  -- Both parts, where no call for the same block comes between; Between has that the other calls
  -- leave it what it has found.
  unfoldable pub kgpu_vfree : KgpuMempool → ℕ → KgpuMempool
  unfolding kgpu_vfree_begin kgpu_vfree_end
  kgpu_vfree m p = elim (kgpu_vfree_begin m p) [ none ↦ m | some (idx, n) ↦ kgpu_vfree_end m idx n ]

-- memset(sz, 0, nbytes) on an array of little-endian `u32`: each entry loses its lowest bytes, as
-- many of the four as still lie in the range.
unfoldable pub memset_u32 : (ℕ → ℕ) → ℕ → ℕ → ℕ
memset_u32 sz nbytes i =
    if leb (4 * i + 4) nbytes
    then 0
    else if leb nbytes (4 * i)
    then sz i
    else let low = 2 ^ (8 * (nbytes - 4 * i)) in sz i / low * low

-- What the kernel answers to set_gpu_mempool: whether each kmalloc succeeds and what the new memory
-- holds, the page tables, and vmap, which returns 0 for NULL.
pub record SetupEnv : Type 0 where
  pub kmalloc_pages : Bool
  pub kmalloc_bitmap : Bool
  pub kmalloc_alloc_sz : Bool
  pub fresh_pages : ℕ → ℕ
  pub fresh_bitmap : Bits
  pub fresh_alloc_sz : ℕ → ℕ
  pub tables : PageTables
  pub vmap : (ℕ → ℕ) → ℕ → ℕ

-- struct kgpu_gpu_mem_info
pub record KgpuGpuMemInfo : Type 0 where
  pub uva : ℕ
  pub size : ℕ

-- for (i = 0; i < npages; i++) pages[i] = kgpu_v2page(uva + i * PAGE_SIZE)
unfoldable pub fill_pages : PageTables → ℕ → (ℕ → ℕ) → ℕ → ℕ → ℕ
fill_pages t uva pages zero = pages
fill_pages t uva pages (suc k) =
    update (fill_pages t uva pages k) k (kgpu_v2page t (add64 uva (mul64 k page_size)))

module _ (B : LinuxBitmap) (env : SetupEnv) where
  open B use {bitmap_zero}

  -- From the mapping of the pages on.
  setup_kva : KgpuMempool → KgpuMempool × CInt
  setup_kva m =
      let kva = env.vmap m.pages m.npages in
      (record m { kva = kva }, if kva == 0 then neg efault else nat 0)

  -- From `set up allocated memory sizes` on.
  setup_alloc_sz : KgpuMempool → KgpuMempool × CInt
  unfolding setup_kva
  setup_alloc_sz m =
      if m.alloc_sz_null && not env.kmalloc_alloc_sz
      then (m, neg enomem)
      else let sz = if m.alloc_sz_null then env.fresh_alloc_sz else m.alloc_sz in
        setup_kva (record m { alloc_sz = memset_u32 sz m.nunits; alloc_sz_null = false })

  -- From `set up bitmap` on.
  setup_bitmap : KgpuMempool → KgpuMempool × CInt
  unfolding setup_alloc_sz
  setup_bitmap m =
      let nunits = m.npages / kgpu_buf_nr_frames_per_unit in
      let m' = record m { nunits = nunits } in
      if m.bitmap_null && not env.kmalloc_bitmap
      then (m', neg enomem)
      else let bits = if m.bitmap_null then env.fresh_bitmap else m.bitmap in
        setup_alloc_sz (record m' { bitmap = bitmap_zero bits nunits; bitmap_null = false })

  -- The pool and the result; a failure leaves what was set up before it.
  unfoldable pub set_gpu_mempool : KgpuMempool → KgpuGpuMemInfo → KgpuMempool × CInt
  unfolding setup_bitmap fill_pages
  set_gpu_mempool m gb =
      let npages = to_u32 (gb.size / page_size) in
      let m' = record m { uva = gb.uva; npages = npages } in
      if m.pages_null && not env.kmalloc_pages
      then (m', neg enomem)
      else let pages = if m.pages_null then env.fresh_pages else m.pages in
        setup_bitmap
          (record m' { pages = fill_pages env.tables gb.uva pages npages; pages_null = false })

-- The pool is set up, its blocks are sound, and its addresses do not wrap.
pub record IsPool (m : KgpuMempool) : Type 0 where
  pub sound : IsSound (table m)
  pub mapped : 0 < m.kva
  pub range : m.kva + m.nunits * kgpu_buf_unit_size ≤ ulong_mod
  pub word : m.nunits < u32_mod
