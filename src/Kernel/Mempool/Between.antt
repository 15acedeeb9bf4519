-- ===== src/Kernel/Mempool/Between.antt =====
-- kgpu_vfree of kgpu/src/kernelSpace/main.c between its two parts: what it has found before it takes
-- gmpool_lock, and the calls that can come before it holds the lock.
use kgpu_fga.Base.{ℕ, ◌≡◌, ◌≢◌, ◌<◌, ◌/◌, sub64, subst, ap, sym, ◌∙◌, inl, inr, refl, some}
use kgpu_fga.Config.{kgpu_buf_unit_size}
use kgpu_fga.Kernel.Bitmap.{LinuxBitmap}
use kgpu_fga.Kernel.Table.{Live, reserve-Live}
use kgpu_fga.Kernel.Mempool.{
  KgpuMempool, table, req_nunits, kgpu_vmalloc, kgpu_vfree_begin, kgpu_vfree, IsPool,
}
use kgpu_fga.Kernel.Mempool.Alloc.{vmalloc_cases, table_eq, kva_eq}
use kgpu_fga.Kernel.Mempool.Free.{
  unit_of, begin_cases, vfree_cases, vfree-Live, vfree-IsPool, vmalloc-IsPool,
}

module _ (B : LinuxBitmap) {m : KgpuMempool} (valid : IsPool m) where
  begin_found :
      (p n : ℕ)
      → Live (table m) (unit_of B valid p) n
      → kgpu_vfree_begin B m p ≡ some (unit_of B valid p, n)
  begin_found p n live = elim (begin_cases B valid p) [
    | inl (e, f) ↦ absurd (f n live)
    | inr (n', l, e) ↦ e ∙ ap (λ k. some (unit_of B valid p, k)) (sym l.size ∙ live.size)
  ]

-- A block that is still allocated in a later pool is what kgpu_vfree finds there.
begin_later :
    (B : LinuxBitmap) {m m' : KgpuMempool} (valid : IsPool m) (valid' : IsPool m')
    → m'.kva ≡ m.kva
    → (p n : ℕ) → Live (table m) (unit_of B valid p) n
    → Live (table m') (unit_of B valid p) n
    → kgpu_vfree_begin B m' p ≡ kgpu_vfree_begin B m p
begin_later B {m} {m'} valid valid' same p n live later =
    let unit : unit_of B valid' p ≡ unit_of B valid p =
      ap (λ (k : ℕ). sub64 p k / kgpu_buf_unit_size) same in
    begin_found B valid' p n (subst (λ u. Live (table m') u n) (sym unit) later)
    ∙ ap (λ u. some (u, n)) unit
    ∙ sym (begin_found B valid p n live)

module _ (B : LinuxBitmap) {m : KgpuMempool} (valid : IsPool m) where
  -- A kgpu_vmalloc between the parts of kgpu_vfree leaves it what it has found.
  pub vfree_begin-vmalloc :
      (nbytes p n : ℕ)
      → 0 < req_nunits nbytes
      → Live (table m) (unit_of B valid p) n
      → kgpu_vfree_begin B (kgpu_vmalloc B m nbytes).0 p ≡ kgpu_vfree_begin B m p
  vfree_begin-vmalloc nbytes p n pos live = elim (vmalloc_cases B valid nbytes pos) [
    | inl (e, _) ↦ rw e refl
    | inr (i, g) ↦ begin_later B valid (vmalloc-IsPool B valid nbytes pos) (kva_eq g) p n live (
        rw (table_eq g)
          ((reserve-Live B valid.sound i (req_nunits nbytes) pos g.fits g.clear _ n).1 (inl live)))
  ]

  -- So does a kgpu_vfree of another block.
  pub vfree_begin-vfree :
      (q p n : ℕ)
      → unit_of B valid p ≢ unit_of B valid q
      → Live (table m) (unit_of B valid p) n
      → kgpu_vfree_begin B (kgpu_vfree B m q) p ≡ kgpu_vfree_begin B m p
  vfree_begin-vfree q p n other live = elim (vfree_cases B valid q) [
    | inl (e, _) ↦ rw e refl
    | inr (_, _, _, k) ↦
        begin_later B valid (vfree-IsPool B valid q) k p n live
          (((vfree-Live B valid q).1 _ n).1 (live, other))
  ]
