-- ===== src/Kernel/Control.antt =====
-- kgpu_poll and kgpu_ioctl of kgpu/src/kernelSpace/main.c with dump_gpu_bufs. Log calls are left out.
pub mod Stop
use kgpu_fga.Base.{
  ℕ, ◌+◌, ◌*◌, ◌<◌, ◌≤◌, ◌≡◌, ◌≢◌, ◌⊎◌, ◌↔◌, inl, inr, refl, arith, Bool, true, false, ◌&&◌, ◌||◌,
  not, if◌then◌else◌, ltb, ◌==◌, Bool-cases, List, [], ◌∷◌, Option, none, some,
}
use kgpu_fga.Config.{CInt, nat, neg, enotty, efault, eagain, kgpu_terminated}
use kgpu_fga.Kernel.Bitmap.{LinuxBitmap}
use kgpu_fga.Kernel.Mempool.{KgpuMempool, KgpuGpuMemInfo, SetupEnv, set_gpu_mempool}
use kgpu_fga.Kernel.Requests.{
  KgpuDev, KgpuKuRequest, kgpu_read, kgpu_call_async, terminate_all_requests,
}

-- POLLIN | POLLRDNORM and POLLOUT | POLLWRNORM of the mask.
pub record PollMask : Type 0 where
  pub readable : Bool
  pub writable : Bool

unfoldable pub kgpu_poll : KgpuDev → PollMask
kgpu_poll d = record { readable = elim d.reqs [ [] ↦ false | _ ∷ _ ↦ true ]; writable = true }

-- What _IOC_TYPE, _IOC_NR, _IOC_SIZE and _IOC_DIR read of a command: two commands with the same four
-- parts are the same.
pub record IoctlCmd : Type 0 where
  pub ioc_type : ℕ
  pub ioc_nr : ℕ
  pub ioc_size : ℕ
  pub ioc_read : Bool
  pub ioc_write : Bool

-- The character g.
abbrev pub kgpu_ioc_magic : ℕ
kgpu_ioc_magic = 103

abbrev pub kgpu_ioc_maxnr : ℕ
kgpu_ioc_maxnr = 4

-- One struct kgpu_gpu_mem_info (KGPU_BUF_NR is 1) has 16 bytes.
-- KGPU_IOC_SET_GPU_BUFS, KGPU_IOC_GET_GPU_BUFS and KGPU_IOC_SET_STOP; a command that passes the first
-- tests has the magic type.
unfoldable pub is_set_gpu_bufs : IoctlCmd → Bool
is_set_gpu_bufs cmd = cmd.ioc_nr == 1 && cmd.ioc_size == 16 && cmd.ioc_write && not cmd.ioc_read

unfoldable pub is_get_gpu_bufs : IoctlCmd → Bool
is_get_gpu_bufs cmd = cmd.ioc_nr == 2 && cmd.ioc_size == 16 && cmd.ioc_read && not cmd.ioc_write

unfoldable pub is_set_stop : IoctlCmd → Bool
is_set_stop cmd = cmd.ioc_nr == 3 && cmd.ioc_size == 0 && not cmd.ioc_read && not cmd.ioc_write

unfoldable pub dump_gpu_bufs : CInt
dump_gpu_bufs = nat 0

-- `access_ok` takes whether memory is to be written, the address and the size; `user_info` is what
-- copy_from_user reads at an address.
module _ (B : LinuxBitmap) (env : SetupEnv) (access_ok : Bool → ℕ → ℕ → Bool)
    (user_info : ℕ → KgpuGpuMemInfo) where
  -- Whether the user's memory is refused.
  unfoldable pub access_refused : IoctlCmd → ℕ → Bool
  access_refused cmd arg =
      if cmd.ioc_read
      then not (access_ok true arg cmd.ioc_size)
      else if cmd.ioc_write
      then not (access_ok false arg cmd.ioc_size)
      else false

  unfoldable pub kgpu_ioctl : KgpuMempool → KgpuDev → IoctlCmd → ℕ → KgpuMempool × KgpuDev × CInt
  kgpu_ioctl m d cmd arg =
      let (m', r) = set_gpu_mempool B env m (user_info arg) in
      let (d', s) = terminate_all_requests d in
      if not (cmd.ioc_type == kgpu_ioc_magic)
      then (m, d, neg enotty)
      else if ltb kgpu_ioc_maxnr cmd.ioc_nr
      then (m, d, neg enotty)
      else if access_refused cmd arg
      then (m, d, neg efault)
      else if is_set_gpu_bufs cmd
      then (m', d, r)
      else if is_get_gpu_bufs cmd
      then (m, d, dump_gpu_bufs)
      else if is_set_stop cmd
      then (m, d', s)
      else (m, d, neg enotty)

poll_list :
    (uva kva npages c : ℕ) (d : KgpuDev) (l : List ℕ)
    → d.reqs ≡ l
    → ((kgpu_poll d).readable ≡ true) ↔ ((kgpu_read uva kva npages d true c).2 ≢ neg eagain)
unfolding kgpu_poll kgpu_read
poll_list uva kva npages c d [] e = rw e (λ f. ground arith, λ f. absurd (f refl))
poll_list uva kva npages c d (x ∷ l) e = rw e (λ f g. ground arith, λ f. refl)

-- kgpu_poll reports the device as readable exactly if a read that may not block does not return
-- -EAGAIN.
pub poll_read :
    (uva kva npages c : ℕ) (d : KgpuDev)
    → ((kgpu_poll d).readable ≡ true) ↔ ((kgpu_read uva kva npages d true c).2 ≢ neg eagain)
poll_read uva kva npages c d = poll_list uva kva npages c d d.reqs refl
