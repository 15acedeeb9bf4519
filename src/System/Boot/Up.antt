-- ===== src/System/Boot/Up.antt =====
-- kh_init of kgpu/src/userSpace/helper.c where every call that it makes succeeds.
use kgpu_fga.Base.{
  ℕ, ◌+◌, ◌*◌, ◌≤◌, ◌<◌, ◌≡◌, refl, ap, ◌∙◌, arith, true, false, if◌then◌else◌, some, none,
  ulong_mod,
}
use kgpu_fga.Config.{nat, kgpu_buf_size, kgpu_buf_unit_size}
use kgpu_fga.Kernel.Table.{Live}
use kgpu_fga.Kernel.Open.{DeviceFile, kgpu_open, open_dec}
use kgpu_fga.Kernel.Mempool.{KgpuMempool, set_gpu_mempool, IsPool, KgpuGpuMemInfo}
use kgpu_fga.Kernel.Mempool.Setup.{found_sizes, setup_uva, setup-IsPool}
use kgpu_fga.Kernel.Vm.{KgpuVma, IsArea, kgpu_mmap}
use kgpu_fga.Kernel.Vm
use kgpu_fga.Kernel.Vm.Mmap.{mapped, mmap-IsArea}
use kgpu_fga.Kernel.Requests.{terminate_all_requests}
use kgpu_fga.Kernel.Control.{kgpu_ioctl, is_set_gpu_bufs, access_refused}
use kgpu_fga.Gpu.Memory.{Hosts}
use kgpu_fga.Gpu.Runtime.{Runtime, gpu_init, gpu_alloc_pinned_mem, address}
use kgpu_fga.Gpu.Runtime.Start.{IsFirst, succeeds}
use kgpu_fga.Gpu.Runtime.Up.{IsUp}
use kgpu_fga.Gpu.Runtime.Stale.{init-IsUp, pinned_address}
use kgpu_fga.System.Boot.{
  Machine, BootEnv, aborts, faults, goes, failed, host_address, tell_kernel, map_area, fill_hostbuf,
  kh_init,
}

-- The buffer that the helper hands to the kernel.
abbrev pub handed : BootEnv → KgpuGpuMemInfo
handed env = record { uva = env.pinning.host_pointer; size = kgpu_buf_size }

-- The pool that the kernel sets up for it.
abbrev pub new_pool : BootEnv → Machine → KgpuMempool
new_pool env m = (set_gpu_mempool env.bitmap env.setup m.pool (handed env)).0

-- The device is closed, OpenCL is not started, the calls of OpenCL, malloc, mlock and kmalloc succeed,
-- and the areas lie where they may.
pub record IsReady (env : BootEnv) (m : Machine) : Type 0 where
  pub closed : m.file.kgpudev_av ≡ 1
  pub first : IsFirst env.pinning m.gpu
  pub context : succeeds env.pinning ≡ true
  pub host : env.pinning.create_host ≡ 0
  pub info : env.pinning.host_info ≡ 0
  pub memory : env.owned env.pinning.host_pointer ≡ true
  pub locked : env.mlock ≡ true
  pub area_tables : (env.sz_kmalloc ≡ true) × (env.bits_kmalloc ≡ true)
  pub area_start : 0 < env.vm_start
  pub area_end : env.vm_start + kgpu_buf_size ≤ ulong_mod
  pub readable : env.access_ok false env.hostbuf_address 16 ≡ true
  pub accepted : (set_gpu_mempool env.bitmap env.setup m.pool (handed env)).1 ≡ nat 0

module _ (env : BootEnv) (m : Machine) (v : IsReady env m) where
  -- The mapped area.
  abbrev pub new_vma : KgpuVma
  new_vma =
      mapped env.bitmap m.vma env.vm_start (env.vm_start + kgpu_buf_size) env.fresh_bitmap
        env.fresh_sz

  abbrev pub hosts : Hosts
  hosts = record {
    hostbuf = record { uva = env.pinning.host_pointer; size = kgpu_buf_size };
    hostvma = record { uva = env.vm_start; size = kgpu_buf_size };
  }

  tell_lem :
      (q : Machine)
      → tell_kernel env (record q { pool = m.pool }) hosts
        ≡ goes (record q { pool = new_pool env m }, hosts)
  unfolding tell_kernel kgpu_ioctl is_set_gpu_bufs access_refused terminate_all_requests
  tell_lem q = rw (tell_kernel, v.readable, v.accepted) refl

  area :
      (kgpu_mmap env.bitmap m.vma env.vm_start
          (env.vm_start + kgpu_buf_size)
          true
          true
          env.fresh_bitmap
          env.fresh_sz
        ≡ some (new_vma, nat 0))
      × IsArea new_vma
      × ((i n : ℕ) → ¬ Live (Vm.table new_vma) i n)
  area =
      mmap-IsArea env.bitmap m.vma env.vm_start (env.vm_start + kgpu_buf_size) env.fresh_bitmap
        env.fresh_sz (omega (arith, v.area_end)) v.area_start (omega arith) v.area_end

  map_lem :
      (q : Machine)
      → map_area env (record q { pool = m.pool; vma = m.vma }) env.pinning.host_pointer
        ≡ goes (record q { vma = new_vma; pool = new_pool env m }, hosts)
  unfolding map_area
  map_lem q =
      rw (map_area, v.area_tables.0, v.area_tables.1, area.0)
        (tell_lem (record q { vma = new_vma }))

  fill_lem :
      (q : Machine) (gpu : Runtime)
      → gpu_init env.starting q.gpu ≡ some gpu
      → fill_hostbuf env (record q { pool = m.pool; vma = m.vma }) env.pinning.host_pointer
        ≡ goes (record q { gpu = gpu; vma = new_vma; pool = new_pool env m }, hosts)
  unfolding fill_hostbuf
  fill_lem q gpu e = rw (fill_hostbuf, v.memory, v.locked, e) (map_lem (record q { gpu = gpu }))

  open_lem : kgpu_open m.file ≡ (record m.file { kgpudev_av = 0; files = m.file.files + 1 }, nat 0)
  unfolding kgpu_open open_dec
  open_lem = ground (arith, v.closed)

  opened :
      (file : DeviceFile) (gpu : Runtime) (uva : ℕ)
      → kgpu_open m.file ≡ (file, nat 0)
      → gpu_alloc_pinned_mem env.pinning m.gpu ≡ some (gpu, address uva)
      → kh_init env m ≡ fill_hostbuf env (record m { file = file; gpu = gpu }) uva
  unfolding kh_init
  opened file gpu uva e f =
      ap
        (λ o. if failed o.1 then aborts else elim (gpu_alloc_pinned_mem env.pinning m.gpu) [
          | none ↦ faults
          | some (gpu, p) ↦ elim (host_address p) [
            | none ↦ faults
            | some uva ↦ fill_hostbuf env (record m { file = o.0; gpu = gpu }) uva
          ]
        ])
        e
      ∙ rw f refl

  -- On a device that is closed, with a backend that is not started, if the calls of OpenCL, malloc,
  -- mlock and kmalloc succeed, the areas lie where they may and set_gpu_mempool succeeds on a size
  -- table of zeros with a mapping within the address space, kh_init goes on with the device opened
  -- once, OpenCL up, a sound pool at the address of hostbuf and a sound user-mapped area at the
  -- address of hostvma, and leaves the queues of the driver as they are.
  pub kh_init_lem :
      ((i : ℕ) → i < (new_pool env m).nunits → found_sizes env.setup m.pool i ≡ 0)
      → (new_pool env m).kva + (new_pool env m).nunits * kgpu_buf_unit_size ≤ ulong_mod
      → (m' : Machine) × (kh_init env m ≡ goes (m', hosts))
        × (m'.file ≡ record m.file { kgpudev_av = 0; files = m.file.files + 1 })
        × IsUp m'.gpu
        × IsPool m'.pool
        × (m'.pool.uva ≡ hosts.hostbuf.uva)
        × IsArea m'.vma
        × (m'.vma.start ≡ hosts.hostvma.uva)
        × (m'.dev ≡ m.dev)
  kh_init_lem zeros top =
      let (r₁, e₁, up₁) = pinned_address env.pinning m.gpu v.first v.context v.host v.info in
      let (r₂, e₂, up₂) = init-IsUp env.starting r₁ up₁ in
      let file : DeviceFile = record m.file { kgpudev_av = 0; files = m.file.files + 1 } in
      (
        record m { file = file; gpu = r₂; vma = new_vma; pool = new_pool env m },
        opened file r₁ env.pinning.host_pointer open_lem e₁
            ∙ fill_lem (record m { file = file; gpu = r₁ }) r₂ e₂,
        refl,
        up₂,
        setup-IsPool env.bitmap env.setup m.pool (handed env) v.accepted zeros top,
        setup_uva env.bitmap env.setup m.pool (handed env) v.accepted,
        area.1,
        refl,
        refl,
      )
