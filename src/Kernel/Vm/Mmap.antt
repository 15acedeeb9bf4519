-- ===== src/Kernel/Vm/Mmap.antt =====
-- kgpu_mmap and set_vm of kgpu/src/kernelSpace/main.c.
use kgpu_fga.Base.{
  ℕ, ◌≤◌, ◌<◌, ◌≡◌, ◌≢◌, refl, ◌↔◌, Bool, true, false, ◌&&◌, arith, some, none, sub64, ulong_mod,
  ltb, if◌then◌else◌,
}
use kgpu_fga.Config.{kgpu_mmap_size, nat, neg, einval}
use kgpu_fga.Kernel.Bitmap.{Bits, LinuxBitmap}
use kgpu_fga.Kernel.Table.{Live}
use kgpu_fga.Kernel.Vm.{KgpuVma, table, kgpu_mmap, IsArea}

module _ (B : LinuxBitmap) (v : KgpuVma) (start end : ℕ) (fresh_bitmap : Bits)
    (fresh_sz : ℕ → ℕ) where
  abbrev pub mapped : KgpuVma
  mapped = record v {
    start = start;
    end = end;
    npages = 512;
    alloc_sz = λ i. if ltb i 512 then 0 else fresh_sz i;
    alloc_sz_null = false;
    bitmap = B.bitmap_zero fresh_bitmap 512;
    bitmap_null = false;
    vma_ready = true;
  }

  -- kgpu_mmap refuses a vma of another size than KGPU_MMAP_SIZE, and changes nothing.
  pub mmap_size :
      (sz bits : Bool)
      → sub64 end start ≢ kgpu_mmap_size
      → kgpu_mmap B v start end sz bits fresh_bitmap fresh_sz ≡ some (v, neg einval)
  unfolding kgpu_mmap
  mmap_size sz bits d = ground arith

  module _ (right : sub64 end start ≡ kgpu_mmap_size) where
    -- For a vma of KGPU_MMAP_SIZE bytes, kgpu_mmap faults exactly if one of its two allocations
    -- fails.
    pub mmap_fault :
        (sz bits : Bool)
        → (kgpu_mmap B v start end sz bits fresh_bitmap fresh_sz ≡ none) ↔ ((sz && bits) ≡ false)
    unfolding kgpu_mmap
    mmap_fault sz bits = ground arith

    -- For a vma of KGPU_MMAP_SIZE bytes between positive addresses within the address space, and
    -- with both allocations granted, kgpu_mmap returns 0 and sets up a sound area of 512 pages with
    -- no block.
    pub mmap-IsArea :
        0 < start
        → start < end
        → end ≤ ulong_mod
        → (kgpu_mmap B v start end true true fresh_bitmap fresh_sz ≡ some (mapped, nat 0))
          × IsArea mapped
          × ((i n : ℕ) → ¬ Live (table mapped) i n)
    unfolding kgpu_mmap
    mmap-IsArea pos order top = (
      rw right refl,
      record {
        sound = record {
          within = λ i h p. ground arith;
          marked = λ i j h l u. ground arith;
          apart = λ i j l h p q. ground arith;
          owned = λ j h e. ground (arith, B.zero_bit fresh_bitmap 512 j h);
        };
        mapped = pos;
        range = omega arith;
        word = omega arith;
      },
      λ i n l. ground (arith, l.start, l.size, l.pos),
    )
