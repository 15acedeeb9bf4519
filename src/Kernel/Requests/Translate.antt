-- ===== src/Kernel/Requests/Translate.antt =====
-- The addresses that fill_ku_request of kgpu/src/kernelSpace/main.c hands to the helper.
use kgpu_fga.Base.{ℕ, ◌+◌, ◌*◌, ◌≤◌, ◌<◌, ◌≡◌, ◌≢◌, arith, ulong_mod, u32_mod}
use kgpu_fga.Config.{
  page_size, kgpu_buf_unit_size, kgpu_buf_nr_frames_per_unit, addr_within, addr_rebase,
}
use kgpu_fga.Kernel.Bitmap.{LinuxBitmap}
use kgpu_fga.Kernel.Mempool.{KgpuMempool, kgpu_vmalloc, req_nunits, IsPool}
use kgpu_fga.Kernel.Mempool.Free.{vmalloc-Live}
use kgpu_fga.Kernel.Requests.{KgpuRequest, user_address, fill_ku_request}

-- An address in the pool keeps its offset.
user_address_lem :
    (uva kva npages off : ℕ)
    → npages * page_size < u32_mod
    → kva + npages * page_size < ulong_mod
    → uva + npages * page_size ≤ ulong_mod
    → off < npages * page_size
    → user_address uva kva npages (kva + off) ≡ uva + off
unfolding user_address addr_within addr_rebase
user_address_lem uva kva npages off small top user h = ground arith

-- On a sound pool that is set up, whose units lie within its pages, whose pages take fewer than
-- 2^32 bytes and whose kernel and user mappings end within the address space, let a request's input
-- lie in a block that kgpu_vmalloc has returned for a size of at least one unit. The input address
-- that fill_ku_request hands to the helper then has the same offset in the user's buffer as the
-- request's has in the pool.
pub fill-vmalloc :
    (B : LinuxBitmap) {m : KgpuMempool} (valid : IsPool m)
    → m.nunits * kgpu_buf_nr_frames_per_unit ≤ m.npages
    → m.npages * page_size < u32_mod
    → m.kva + m.npages * page_size < ulong_mod
    → m.uva + m.npages * page_size ≤ ulong_mod
    → (nbytes : ℕ) → 0 < req_nunits nbytes
    → (kgpu_vmalloc B m nbytes).1 ≢ 0
    → (d : ℕ) → d < req_nunits nbytes * kgpu_buf_unit_size
    → (req : KgpuRequest) → req.in_addr ≡ (kgpu_vmalloc B m nbytes).1 + d
    → (fill_ku_request m.uva m.kva m.npages req).in_addr + m.kva ≡ m.uva + req.in_addr
unfolding fill_ku_request
fill-vmalloc B {m} valid whole small top user nbytes pos given d h req e =
    let (i, a, f, _, _, _, _, _) = vmalloc-Live B valid nbytes pos given in
    let at : req.in_addr ≡ m.kva + (i * kgpu_buf_unit_size + d) = omega (arith, e, a) in
    rw at (
      omega (
        arith,
        user_address_lem m.uva m.kva m.npages (i * kgpu_buf_unit_size + d) small top user
            (omega (arith, f, h)),
      ))
