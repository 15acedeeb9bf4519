-- ===== src/Examples/Area.antt =====
-- The user-mapped area of kgpu/src/kernelSpace/main.c: an area of 512 pages, and the mapping of a few
-- pages into it.
use kgpu_fga.Base.{ℕ, ◌+◌, ◌*◌, ◌≤◌, ◌<◌, ◌≡◌, ◌⊎◌, refl, true, false, arith, sub64, []}
use kgpu_fga.Config.{page_size}
use kgpu_fga.Kernel.Bitmap.{IsClear}
use kgpu_fga.Kernel.Bitmap.FirstFit.{first_fit, search_from, all_clear}
use kgpu_fga.Kernel.Vm.{
  KgpuVma, req_npages, kgpu_alloc_mmap_area, kgpu_free_mmap_area, map_page_units, IsArea,
}
use kgpu_fga.Kernel.Vm.Area.{page_address, taken, kgpu_alloc_mmap_area-IsArea, free-alloc_mmap_area}
use kgpu_fga.Kernel.Vm.Pages.{mappings, map_page_units_ok}
use kgpu_fga.Kernel.Vm.Mmap.{mapped, mmap-IsArea}

abbrev pub no_area : KgpuVma
no_area = record {
  start = 0;
  end = 0;
  npages = 0;
  alloc_sz = λ i. 0;
  alloc_sz_null = true;
  bitmap = λ j. false;
  bitmap_null = true;
  vma_ready = false;
  pfnmap = true;
  zapped = [];
}

abbrev area : KgpuVma
area = mapped first_fit no_area 4096 2101248 (λ j. true) (λ i. 9)

right : sub64 2101248 4096 ≡ 2097152
right = omega arith

area-IsArea : IsArea area
area-IsArea =
    (mmap-IsArea first_fit no_area 4096 2101248 (λ j. true) (λ i. 9) right (omega arith)
      (omega arith) (omega arith)).1

three_pages : 0 < req_npages 10000
unfolding req_npages
three_pages = omega arith

-- The area with a block of three pages.
abbrev used_area : KgpuVma
used_area = (kgpu_alloc_mmap_area first_fit area 10000).0

used_area-IsArea : IsArea used_area
used_area-IsArea = kgpu_alloc_mmap_area-IsArea first_fit area-IsArea 10000 three_pages

free-alloc_mmap_area_example :
    kgpu_free_mmap_area first_fit
      (kgpu_alloc_mmap_area first_fit used_area 10000).0
      (kgpu_alloc_mmap_area first_fit used_area 10000).1
    ≡ used_area
free-alloc_mmap_area_example = free-alloc_mmap_area first_fit used_area-IsArea 10000 three_pages

map_page_units_ok_example :
    (map_page_units first_fit (λ a p. true) area (λ i. i) 2 ≡ (area, [], 0))
    ⊎ ((i : ℕ) × (i + 2 ≤ 512)
        × IsClear area.bitmap i 2
        × (map_page_units first_fit (λ a p. true) area (λ i. i) 2 ≡ (
          taken first_fit area 2 i,
          mappings (λ a p. true) (λ i. i) (page_address area i) 0 2,
          page_address area i,
        )))
map_page_units_ok_example =
    map_page_units_ok first_fit area-IsArea (λ a p. true) (λ i. i) 2 (omega arith) (omega arith)
      (λ a p. refl)

two_taken :
    kgpu_alloc_mmap_area first_fit area (2 * page_size)
    ≡ (taken first_fit area 2 0, page_address area 0)
unfolding kgpu_alloc_mmap_area req_npages search_from all_clear
two_taken = refl
