-- ===== src/Kernel/Vm.antt =====
-- The area that user space maps, of kgpu/src/kernelSpace/main.c: struct _kgpu_vma,
-- kgpu_alloc_mmap_area, kgpu_free_mmap_area, kgpu_unmap_area, map_page_units with its two wrappers,
-- set_vm and kgpu_mmap. Each bitmap update runs under vm_lock. Log calls are left out.
pub mod Area
pub mod Pages
pub mod Mmap
use kgpu_fga.Base.{
  ℕ, zero, suc, ◌+◌, ◌-◌, ◌*◌, ◌/◌, ◌^◌, ◌≤◌, ◌<◌, Bool, true, false, ◌&&◌, not, if◌then◌else◌, ltb,
  leb, ◌==◌, update, add64, sub64, mul64, to_u32, ulong_mod, u32_mod, List, [], ◌∷◌, ◌++◌, Option,
  none, some,
}
use kgpu_fga.Config.{page_size, kgpu_mmap_size, div_round_up, CInt, nat, neg, einval}
use kgpu_fga.Kernel.Bitmap.{Bits, LinuxBitmap}
use kgpu_fga.Kernel.Table.{Table, IsSound}

-- `vma_ready` says that the vma has the operations kgpu_vm_ops and the flags VM_IO, VM_LOCKED,
-- VM_DONTEXPAND and VM_DONTDUMP, `pfnmap` is its flag VM_PFNMAP, and `zapped` the calls of zap_vma_ptes, newest first.
pub record KgpuVma : Type 0 where
  pub start : ℕ
  pub end : ℕ
  pub npages : ℕ
  pub alloc_sz : ℕ → ℕ
  pub alloc_sz_null : Bool
  pub bitmap : Bits
  pub bitmap_null : Bool
  pub vma_ready : Bool
  pub pfnmap : Bool
  pub zapped : List (ℕ × ℕ)

abbrev pub table : KgpuVma → Table
table v = record { bits = v.bitmap; sizes = v.alloc_sz; count = v.npages }

-- The number of pages for a size in bytes, an `unsigned int`.
unfoldable pub req_npages : ℕ → ℕ
req_npages size = to_u32 (div_round_up size page_size)

-- The loop of map_page_units from page `i`, with `k` pages to go: the mappings made, oldest first,
-- and whether all of them were. `vm_insert_page` tells whether Linux accepts a mapping.
unfoldable pub insert_pages : (ℕ → ℕ → Bool) → (ℕ → ℕ) → ℕ → ℕ → ℕ → List (ℕ × ℕ) × Bool
insert_pages vm_insert_page page addr i zero = ([], true)
insert_pages vm_insert_page page addr i (suc k) =
    let a = add64 addr (mul64 i page_size) in
    let (made, all) = insert_pages vm_insert_page page addr (suc i) k in
    if vm_insert_page a (page i) then ((a, page i) ∷ made, all) else ([], false)

module _ (B : LinuxBitmap) where
  open B use {bitmap_set, bitmap_clear, bitmap_zero, bitmap_find_next_zero_area}

  -- The new state and the address, 0 if there is no room.
  unfoldable pub kgpu_alloc_mmap_area : KgpuVma → ℕ → KgpuVma × ℕ
  kgpu_alloc_mmap_area v size =
      let n = req_npages size in
      let idx = bitmap_find_next_zero_area v.bitmap v.npages 0 n 0 in
      if ltb idx v.npages
      then (
        record v { bitmap = bitmap_set v.bitmap idx n; alloc_sz = update v.alloc_sz idx n },
        add64 v.start (mul64 page_size idx),
      )
      else (v, 0)

  unfoldable pub kgpu_free_mmap_area : KgpuVma → ℕ → KgpuVma
  kgpu_free_mmap_area v start =
      let idx = sub64 start v.start / page_size in
      let n = v.alloc_sz idx in
      if leb v.npages idx
      then v
      else if ltb (v.npages - idx) n
      then v
      else if ltb 0 n
      then record v { bitmap = bitmap_clear v.bitmap idx n; alloc_sz = update v.alloc_sz idx 0 }
      else v

  -- The flag is set for the call of zap_vma_ptes and cleared after it.
  unfoldable pub kgpu_unmap_area : KgpuVma → ℕ → KgpuVma
  kgpu_unmap_area v addr =
      let idx = sub64 addr v.start / page_size in
      let n = v.alloc_sz idx in
      if leb v.npages idx
      then v
      else if ltb (v.npages - idx) n
      then v
      else if ltb 0 n
      then record v {
        bitmap = bitmap_clear v.bitmap idx n;
        alloc_sz = update v.alloc_sz idx 0;
        zapped = (addr, to_u32 (n * page_size)) ∷ v.zapped;
        pfnmap = false;
      }
      else v

  -- `page` is units[i], or pfn_to_page(units[i]). The size is `n << PAGE_SHIFT`, an `int`, for an `n`
  -- at which that does not overflow. The results are the state, the mappings and the address.
  unfoldable pub map_page_units :
      (ℕ → ℕ → Bool) → KgpuVma → (ℕ → ℕ) → ℕ → KgpuVma × List (ℕ × ℕ) × ℕ
  map_page_units vm_insert_page v page n =
      let (v', addr) = kgpu_alloc_mmap_area v (n * page_size) in
      let (made, all) = insert_pages vm_insert_page page addr 0 n in
      if addr == 0 then (v', [], 0) else if all then (v', made, addr) else (v', made, 0)

  -- The units are addresses of pages.
  unfoldable pub kgpu_map_pages :
      (ℕ → ℕ → Bool) → KgpuVma → (ℕ → ℕ) → ℕ → KgpuVma × List (ℕ × ℕ) × ℕ
  unfolding map_page_units
  kgpu_map_pages vm_insert_page v pages n = map_page_units vm_insert_page v pages n

  -- The units are page frame numbers, which `pfn_to_page` takes to pages.
  unfoldable pub kgpu_map_pfns :
      (ℕ → ℕ) → (ℕ → ℕ → Bool) → KgpuVma → (ℕ → ℕ) → ℕ → KgpuVma × List (ℕ × ℕ) × ℕ
  unfolding map_page_units
  kgpu_map_pfns pfn_to_page vm_insert_page v pfns n =
      map_page_units vm_insert_page v (λ i. pfn_to_page (pfns i)) n

  -- Whether the two calls of kmalloc succeed, and what the memory holds. `none` is the fault of
  -- bitmap_zero and memset at NULL.
  unfoldable pub set_vm : KgpuVma → ℕ → ℕ → Bool → Bool → Bits → (ℕ → ℕ) → Option KgpuVma
  set_vm v vm_start vm_end sz_kmalloc bits_kmalloc fresh_bitmap fresh_sz =
      let npages = to_u32 (sub64 vm_end vm_start / page_size) in
      if sz_kmalloc && bits_kmalloc
      then some (record v {
        start = vm_start;
        end = vm_end;
        npages = npages;
        alloc_sz = λ i. if ltb i npages then 0 else fresh_sz i;
        alloc_sz_null = false;
        bitmap = bitmap_zero fresh_bitmap npages;
        bitmap_null = false;
      })
      else none

  unfoldable pub kgpu_mmap :
      KgpuVma → ℕ → ℕ → Bool → Bool → Bits → (ℕ → ℕ) → Option (KgpuVma × CInt)
  unfolding set_vm
  kgpu_mmap v vm_start vm_end sz_kmalloc bits_kmalloc fresh_bitmap fresh_sz =
      if sub64 vm_end vm_start == kgpu_mmap_size
      then elim (set_vm (record v { vma_ready = true }) vm_start vm_end sz_kmalloc bits_kmalloc
          fresh_bitmap fresh_sz) [ none ↦ none | some v' ↦ some (v', nat 0) ]
      else some (v, neg einval)

-- The area is set up, its blocks are sound, and its addresses do not wrap.
pub record IsArea (v : KgpuVma) : Type 0 where
  pub sound : IsSound (table v)
  pub mapped : 0 < v.start
  pub range : v.start + v.npages * page_size ≤ ulong_mod
  pub word : v.npages < u32_mod
