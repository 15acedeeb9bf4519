-- ===== src/System/Boot/Restart.antt =====
-- kh_finit of kgpu/src/userSpace/helper.c, and the next helper.
use kgpu_fga.Base.{ℕ, ◌≡◌, ◌+◌, ◌*◌, ◌<◌, ◌≤◌, ulong_mod, refl, ap, arith, Bool}
use kgpu_fga.Config.{nat, kgpu_terminated, kgpu_buf_unit_size}
use kgpu_fga.Kernel.Open.{kgpu_release}
use kgpu_fga.Kernel.Requests.{
  KgpuDev, kgpu_call_async, kgpu_call_sync_begin, returned, terminate_all_requests,
}
use kgpu_fga.Kernel.Control.{
  kgpu_ioctl, is_set_stop, is_set_gpu_bufs, is_get_gpu_bufs, access_refused,
}
use kgpu_fga.Gpu.Memory.{Hosts}
use kgpu_fga.Gpu.Runtime.{Runtime}
use kgpu_fga.Gpu.Runtime.Up.{IsUp}
use kgpu_fga.Gpu.Runtime.Stale.{Faults, finit-Faults}
use kgpu_fga.Kernel.Mempool.Setup.{found_sizes}
use kgpu_fga.System.Boot.Up.{IsReady, new_pool, hosts, kh_init_lem}
use kgpu_fga.System.Boot.{Machine, BootEnv, goes, kh_init, kh_finit}

-- The driver refuses every call for a request, and the calls change nothing.
abbrev pub Refuses : KgpuDev → Type 0
Refuses d =
    (req p : ℕ) (data_ok item_ok : Bool)
    → (kgpu_call_async d req item_ok ≡ (d, nat kgpu_terminated))
      × (kgpu_call_sync_begin d req p data_ok item_ok ≡ (d, returned (nat kgpu_terminated)))

stopped-Refuses : (d : KgpuDev) → d.state ≡ kgpu_terminated → Refuses d
unfolding kgpu_call_async kgpu_call_sync_begin
stopped-Refuses d e req p data_ok item_ok = (ground arith, ground arith)

-- The driver after kh_finit.
abbrev pub stopped : KgpuDev → KgpuDev
stopped d = record d { state = kgpu_terminated }

-- The machine after kh_finit, with a backend.
abbrev pub ended : Machine → Runtime → Machine
ended m gpu = record m { dev = stopped m.dev; gpu = gpu }

-- The process ends, which drops its mapping and so the file, and a new one has a backend of its own.
abbrev pub new_process : Machine → Runtime → Machine
new_process m gpu = record m { file = kgpu_release m.file; gpu = gpu }

-- What the new process finds after a kh_finit.
abbrev pub next : Machine → Runtime → Machine
next m gpu = record m { dev = stopped m.dev; file = kgpu_release m.file; gpu = gpu }

-- With OpenCL up and releases that succeed, kh_finit stops the driver, which refuses requests from then
-- on, and leaves the device open and the backend such that every later start of it in the process
-- faults.
pub kh_finit_lem :
    (env : BootEnv) (m : Machine) (h : Hosts)
    → IsUp m.gpu
    → env.ending.release_buffer ≡ 0
    → env.ending.release_vma_buffer ≡ 0
    → (gpu : Runtime) × (kh_finit env m h ≡ goes (ended m gpu))
      × Refuses (stopped m.dev)
      × Faults gpu
unfolding kh_finit kgpu_ioctl is_set_stop is_set_gpu_bufs is_get_gpu_bufs access_refused
    terminate_all_requests
kh_finit_lem env m h up buffer vma_buffer =
    let (gpu, e, bad) = finit-Faults env.ending m.gpu up buffer vma_buffer in
    (gpu, rw (kh_finit, e) refl, stopped-Refuses (stopped m.dev) refl, bad)

-- If OpenCL is up and its two releases succeed, kh_finit goes on; if the process then ends and in a
-- new one every call of kh_init succeeds, on a device and areas as kh_init needs them, the size
-- table that set_gpu_mempool finds is zero in the units of the new pool and the new mapping of the
-- pool ends within the address space, kh_init goes on with OpenCL up, and the driver refuses every
-- kgpu_call_async and kgpu_call_sync with KGPU_TERMINATED and does not change.
pub restart-Refuses :
    (old env : BootEnv) (m : Machine) (h : Hosts) (gpu : Runtime)
    → IsUp m.gpu
    → old.ending.release_buffer ≡ 0
    → old.ending.release_vma_buffer ≡ 0
    → IsReady env (next m gpu)
    → ((i : ℕ) → i < (new_pool env m).nunits → found_sizes env.setup m.pool i ≡ 0)
    → (new_pool env m).kva + (new_pool env m).nunits * kgpu_buf_unit_size ≤ ulong_mod
    → (m₁ m₂ : Machine) × (h' : Hosts) × (kh_finit old m h ≡ goes m₁)
      × (kh_init env (new_process m₁ gpu) ≡ goes (m₂, h'))
      × IsUp m₂.gpu
      × Refuses m₂.dev
restart-Refuses old env m h gpu up buffer vma_buffer v zeros top =
    let (gpu', ends, _, _) = kh_finit_lem old m h up buffer vma_buffer in
    let (m₂, run, _, up₂, _, _, _, _, same) = kh_init_lem env (next m gpu) v zeros top in
    (
      ended m gpu',
      m₂,
      hosts env (next m gpu) v,
      ends,
      run,
      up₂,
      stopped-Refuses m₂.dev (ap (λ (d : KgpuDev). d.state) same),
    )
