-- ===== src/Examples/Boot.antt =====
-- kh_init of kgpu/src/userSpace/helper.c on a device that nobody has opened, and after a kh_finit.
use kgpu_fga.Base.{
  ℕ, ◌+◌, ◌*◌, ◌≤◌, ◌<◌, ◌≡◌, ◌≢◌, ◌⊎◌, refl, arith, true, false, [], ◌∷◌, some, ulong_mod,
}
use kgpu_fga.Config.{nat, kgpu_buf_unit_size}
use kgpu_fga.Kernel.Bitmap.FirstFit.{first_fit}
use kgpu_fga.Kernel.Mempool.{set_gpu_mempool, IsPool}
use kgpu_fga.Kernel.Vm.{KgpuVma, IsArea}
use kgpu_fga.Gpu.Memory.{Hosts}
use kgpu_fga.Kernel.Open.{kgpu_release}
use kgpu_fga.Helper.{erase}
use kgpu_fga.Gpu.Runtime.{Runtime, ClAnswers, gpu_init, gpu_alloc_pinned_mem, undefined}
use kgpu_fga.Gpu.Runtime.Start.{IsFirst, succeeds}
use kgpu_fga.Gpu.Runtime.Up.{IsUp, IsStale, buffers_made}
use kgpu_fga.Gpu.Runtime.Stale.{Faults, first_init, failed_start-Faults}
use kgpu_fga.System.Boot.{Machine, BootEnv, goes, kh_init, kh_finit}
use kgpu_fga.System.Boot.Up.{IsReady, new_pool, handed, hosts, kh_init_lem}
use kgpu_fga.System.Boot.Restart.{Refuses, next, new_process, restart-Refuses}
use kgpu_fga.Examples.Queues.{dev}
use kgpu_fga.Examples.Setup.{env, no_pool}

abbrev off : Runtime
off = record {
  opencl_data = 0;
  initialized = false;
  blocks = [];
  devices = λ p. 0;
  context = λ p. 0;
  device_buffer = 0;
  device_buffer_for_vma = 0;
  streams = λ i. 0;
  streamuses = λ i. true;
}

abbrev all_right : ClAnswers
all_right = record {
  data_block = 1;
  platforms_block = 2;
  devices_block = 3;
  count_platforms = 0;
  get_platforms = 0;
  count_devices = 0;
  get_devices = 0;
  create_context = 0;
  new_context = 70;
  create_buffer = 0;
  new_buffer = 71;
  create_vma_buffer = 0;
  new_vma_buffer = 72;
  new_queue = λ i. 80 + i;
  release_buffer = 0;
  release_vma_buffer = 0;
  create_host = 0;
  new_host = 73;
  host_info = 0;
  host_pointer = 4096;
}

-- No device is found.
abbrev no_device : ClAnswers
no_device = record all_right { count_devices = 1 }

off-IsFirst : IsFirst all_right off
off-IsFirst = record {
  unset = refl;
  off = refl;
  data_new = refl;
  platforms_new = refl;
  devices_new = refl;
}

first_init_example :
    (r : Runtime) × (gpu_init all_right off ≡ some r)
    × (((succeeds all_right ≡ true)
          × IsUp r
          × (buffers_made all_right ≡ true
              → (i : ℕ) → i < 8
              → (r.streams i ≡ 80 + i) × (r.streamuses i ≡ false)))
        ⊎ ((succeeds all_right ≡ false)
            × (r.initialized ≡ false)
            × (all_right.data_block ≢ 0 → IsStale r)))
first_init_example = first_init all_right off off-IsFirst

no_device-IsFirst : IsFirst no_device off
no_device-IsFirst = record {
  unset = refl;
  off = refl;
  data_new = refl;
  platforms_new = refl;
  devices_new = refl;
}

failed_start-Faults_example :
    ((r : Runtime) × (gpu_alloc_pinned_mem no_device off ≡ some (r, undefined)) × Faults r)
    × ((r : Runtime) × (gpu_init no_device off ≡ some r) × Faults r)
failed_start-Faults_example =
    failed_start-Faults no_device off no_device-IsFirst (λ e. omega (arith, e)) refl

abbrev boot_env : BootEnv
boot_env = record {
  bitmap = first_fit;
  pinning = all_right;
  starting = all_right;
  ending = all_right;
  owned = λ p. true;
  mlock = true;
  vm_start = 8388608;
  sz_kmalloc = true;
  bits_kmalloc = true;
  fresh_bitmap = λ j. true;
  fresh_sz = λ i. 9;
  setup = env;
  access_ok = λ w a n. true;
  hostbuf_address = 65536;
}

abbrev no_vma : KgpuVma
no_vma = record {
  start = 0;
  end = 0;
  npages = 0;
  alloc_sz = λ i. 0;
  alloc_sz_null = true;
  bitmap = λ j. false;
  bitmap_null = true;
  vma_ready = false;
  pfnmap = false;
  zapped = [];
}

-- Two requests are queued before the helper starts.
abbrev machine : Machine
machine = record {
  file = record { kgpudev_av = 1; files = 0; refused = 0 };
  pool = no_pool;
  dev = dev (10 ∷ 11 ∷ []) [];
  vma = no_vma;
  gpu = off;
}

boot_accepted : (set_gpu_mempool first_fit env no_pool (handed boot_env)).1 ≡ nat 0
unfolding set_gpu_mempool
boot_accepted = ground arith

machine-IsReady : IsReady boot_env machine
machine-IsReady = record {
  closed = refl;
  first = off-IsFirst;
  context = refl;
  host = refl;
  info = refl;
  memory = refl;
  locked = refl;
  area_tables = (refl, refl);
  area_start = omega arith;
  area_end = omega arith;
  readable = refl;
  accepted = boot_accepted;
}

boot_top :
    (new_pool boot_env machine).kva + (new_pool boot_env machine).nunits * kgpu_buf_unit_size
    ≤ ulong_mod
unfolding set_gpu_mempool
boot_top = ground arith

kh_init_lem_example :
    (m : Machine) × (kh_init boot_env machine ≡ goes (m, hosts boot_env machine machine-IsReady))
    × (m.file ≡ record { kgpudev_av = 0; files = 1; refused = 0 })
    × IsUp m.gpu
    × IsPool m.pool
    × (m.pool.uva ≡ 4096)
    × IsArea m.vma
    × (m.vma.start ≡ 8388608)
    × (m.dev ≡ dev (10 ∷ 11 ∷ []) [])
kh_init_lem_example = kh_init_lem boot_env machine machine-IsReady (λ i h. refl) boot_top

-- The machine while a helper runs.
abbrev up_gpu : Runtime
up_gpu = record off {
  opencl_data = 1;
  initialized = true;
  blocks = 3 ∷ 2 ∷ 1 ∷ [];
  devices = λ p. 3;
}

up_gpu-IsUp : IsUp up_gpu
unfolding erase
up_gpu-IsUp = record { on = refl; real = refl; readable = refl; single = refl; devices = refl }

abbrev served : Machine
served = record machine { file = record { kgpudev_av = 0; files = 1; refused = 0 }; gpu = up_gpu }

abbrev served_hosts : Hosts
served_hosts = record {
  hostbuf = record { uva = 4096; size = 2097152 };
  hostvma = record { uva = 8388608; size = 2097152 };
}

next-IsReady : IsReady boot_env (next served off)
unfolding kgpu_release
next-IsReady = record {
  closed = refl;
  first = off-IsFirst;
  context = refl;
  host = refl;
  info = refl;
  memory = refl;
  locked = refl;
  area_tables = (refl, refl);
  area_start = omega arith;
  area_end = omega arith;
  readable = refl;
  accepted = boot_accepted;
}

restart-Refuses_example :
    (m₁ m₂ : Machine) × (h' : Hosts) × (kh_finit boot_env served served_hosts ≡ goes m₁)
    × (kh_init boot_env (new_process m₁ off) ≡ goes (m₂, h'))
    × IsUp m₂.gpu
    × Refuses m₂.dev
restart-Refuses_example =
    restart-Refuses boot_env boot_env served served_hosts off up_gpu-IsUp refl refl next-IsReady
      (λ i h. refl) boot_top
