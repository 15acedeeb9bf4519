-- ===== src/Kernel/Control/Stop.antt =====
-- What KGPU_IOC_SET_STOP of kgpu/src/kernelSpace/main.c brings about.
use kgpu_fga.Base.{
  ℕ, ◌≡◌, refl, arith, Bool, true, inl, inr, subst, sym, ap, ◌∙◌, List, [], ◌∷◌, ◌++◌, append_assoc,
  some, some-injective, Option-cases,
}
use kgpu_fga.Config.{kgpu_terminated, nat}
use kgpu_fga.Kernel.Bitmap.{LinuxBitmap}
use kgpu_fga.Kernel.Mempool.{KgpuMempool, KgpuGpuMemInfo, SetupEnv}
use kgpu_fga.Kernel.Requests.{
  KgpuDev, kgpu_call_async, kgpu_call_sync_begin, kgpu_call_sync_end, kgpu_read, kgpu_write, invoke,
  terminate_all_requests,
}
use kgpu_fga.Kernel.Requests.History.{
  Call, asyncs, syncs, wakes, reads, writes, stops, after, step, run,
}
use kgpu_fga.Kernel.Control.{
  IoctlCmd, kgpu_ioc_magic, kgpu_ioctl, is_set_stop, is_set_gpu_bufs, is_get_gpu_bufs,
  access_refused,
}

-- `d'` is stopped, and its first queue is an end of that of `d`.
pub record IsStopped (d d' : KgpuDev) : Type 0 where
  pub stopped : d'.state ≡ kgpu_terminated
  pub taken : List ℕ
  pub rest : d.reqs ≡ taken ++ d'.reqs

module _ (d : KgpuDev) (off : d.state ≡ kgpu_terminated) where
  same_queue : (d' : KgpuDev) → d'.state ≡ d.state → d'.reqs ≡ d.reqs → IsStopped d d'
  same_queue d' e f = record { stopped = e ∙ off; taken = []; rest = sym f }

  async-IsStopped : (req : ℕ) (ok : Bool) → IsStopped d (kgpu_call_async d req ok).0
  unfolding kgpu_call_async
  async-IsStopped req ok = same_queue _ (ground arith) (ground arith)

  sync-IsStopped :
      (req p : ℕ) (data_ok item_ok : Bool)
      → IsStopped d (kgpu_call_sync_begin d req p data_ok item_ok).0
  unfolding kgpu_call_sync_begin
  sync-IsStopped req p data_ok item_ok = same_queue _ (ground arith) (ground arith)

  wake-IsStopped :
      (d' : KgpuDev) (req p : ℕ) → after (kgpu_call_sync_end d req p) ≡ some d' → IsStopped d d'
  unfolding kgpu_call_sync_end
  wake-IsStopped d' req p e = elim (Option-cases (d.sync_data p)) [
    | inl f ↦ let g = rw (after, f) at e in cc
    | inr (saved, f) ↦ let g = rw (after, f) at e in same_queue d' (ground arith) (ground arith)
  ]

  read-IsStopped :
      (uva kva npages : ℕ) (nonblock : Bool) (c : ℕ) (l : List ℕ)
      → d.reqs ≡ l
      → IsStopped d (kgpu_read uva kva npages d nonblock c).0
  unfolding kgpu_read
  read-IsStopped uva kva npages nonblock c [] e = same_queue _ (ground arith) (ground arith)
  read-IsStopped uva kva npages nonblock c (r ∷ l) e =
      rw e (record { stopped = off; taken = r ∷ []; rest = refl })

  write-IsStopped :
      (d' : KgpuDev) (count id errcode : ℕ)
      → after (kgpu_write d count id errcode) ≡ some d'
      → IsStopped d d'
  unfolding kgpu_write invoke
  write-IsStopped d' count id errcode e = same_queue d' (ground arith) (ground arith)

step-IsStopped :
    (uva kva npages : ℕ) (d d' : KgpuDev) (c : Call)
    → d.state ≡ kgpu_terminated
    → step uva kva npages d c ≡ some d'
    → IsStopped d d'
unfolding step terminate_all_requests
step-IsStopped uva kva npages d d' (asyncs req ok) off e =
    subst (IsStopped d) (some-injective _ _ e) (async-IsStopped d off req ok)
step-IsStopped uva kva npages d d' (syncs req p data_ok item_ok) off e =
    subst (IsStopped d) (some-injective _ _ e) (sync-IsStopped d off req p data_ok item_ok)
step-IsStopped uva kva npages d d' (wakes req p) off e = wake-IsStopped d off d' req p e
step-IsStopped uva kva npages d d' (reads nonblock c) off e =
    subst (IsStopped d) (some-injective _ _ e)
      (read-IsStopped d off uva kva npages nonblock c d.reqs refl)
step-IsStopped uva kva npages d d' (writes count id errcode) off e =
    write-IsStopped d off d' count id errcode e
step-IsStopped uva kva npages d d' stops off e =
    subst (IsStopped d) (some-injective _ _ e) (record { stopped = refl; taken = []; rest = refl })

run-IsStopped :
    (uva kva npages : ℕ) (cs : List Call) (d d' : KgpuDev)
    → d.state ≡ kgpu_terminated
    → run uva kva npages d cs ≡ some d'
    → IsStopped d d'
unfolding run
run-IsStopped uva kva npages [] d d' off e =
    subst (IsStopped d) (some-injective _ _ e) (record { stopped = off; taken = []; rest = refl })
run-IsStopped uva kva npages (c ∷ cs) d d' off e = elim (Option-cases (step uva kva npages d c)) [
  | inl f ↦ let g = rw (run, f) at e in cc
  | inr (d₁, f) ↦
      let s = step-IsStopped uva kva npages d d₁ c off f in
      let t = run-IsStopped uva kva npages cs d₁ d' s.stopped (rw (run, f) at e) in
      record {
        stopped = t.stopped;
        taken = s.taken ++ t.taken;
        rest =
            s.rest
            ∙ ap (λ (l : List ℕ). s.taken ++ l) t.rest
            ∙ sym (append_assoc s.taken t.taken d'.reqs);
      }
]

module _ (B : LinuxBitmap) (env : SetupEnv) (access_ok : Bool → ℕ → ℕ → Bool)
    (user_info : ℕ → KgpuGpuMemInfo) (m : KgpuMempool) (d : KgpuDev) (cmd : IoctlCmd) (arg : ℕ)
    (magic : cmd.ioc_type ≡ kgpu_ioc_magic) (stop : is_set_stop cmd ≡ true) where
  ioctl_lem :
      kgpu_ioctl B env access_ok user_info m d cmd arg
      ≡ (m, record d { state = kgpu_terminated }, nat 0)
  unfolding kgpu_ioctl is_set_stop is_set_gpu_bufs is_get_gpu_bufs access_refused
      terminate_all_requests
  ioctl_lem = ground arith

  -- The ioctl KGPU_IOC_SET_STOP returns 0, and after any history of calls that follows and does not
  -- fault the driver is stopped and its first queue is an end of what it was: requests are read,
  -- and none is added.
  pub ioctl_stop :
      (uva kva npages : ℕ) (cs : List Call) (d' : KgpuDev)
      → run uva kva npages (kgpu_ioctl B env access_ok user_info m d cmd arg).1 cs ≡ some d'
      → ((kgpu_ioctl B env access_ok user_info m d cmd arg).2 ≡ nat 0) × IsStopped d d'
  ioctl_stop uva kva npages cs d' e =
      let s =
        run-IsStopped uva kva npages cs (record d { state = kgpu_terminated }) d' refl
          (rw ioctl_lem at e) in
      (rw ioctl_lem refl, record { stopped = s.stopped; taken = s.taken; rest = s.rest })
