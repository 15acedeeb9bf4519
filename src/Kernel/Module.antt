-- ===== src/Kernel/Module.antt =====
-- The module of kgpu/src/kernelSpace/main.c: kgpu_init, kgpu_cleanup, clear_gpu_mempool and clean_vm.
-- What the kernel returns to each registration is a parameter; the resources that a call acquires or
-- releases are listed in its order. Locks, the wait queue and log calls are left out.
pub mod Init
pub mod Release
use kgpu_fga.Base.{ℕ, ◌+◌, ◌==◌, Bool, true, false, if◌then◌else◌, List, [], ◌∷◌, ◌++◌}
use kgpu_fga.Config.{kgpu_ok, kgpu_terminated, CInt, nat, neg, Errno, efault}
use kgpu_fga.Kernel.Requests.{KgpuDev, KgpuRequest}
use kgpu_fga.Kernel.Mempool.{KgpuMempool}
use kgpu_fga.Kernel.Vm.{KgpuVma}

-- The caches, the class, the device number, struct cdev, the device node, and the memory of the pool and
-- of the user-mapped area.
pub data Resource : Type 0 where
  request_cache item_cache sync_call_data_cache class region cdev device : Resource
  pool_pages pool_bitmap pool_alloc_sz pool_mapping vm_alloc_sz vm_bitmap : Resource

-- struct _kgpu_dev
pub record Module : Type 0 where
  pub dev : KgpuDev
  pub gmpool : KgpuMempool
  pub vm : KgpuVma
  pub rid_sequence : ℕ

-- What the kernel answers: whether each cache is created, and the results of class_create,
-- alloc_chrdev_region, cdev_add and device_create, 0 for success.
pub record InitEnv : Type 0 where
  pub request_cache_ok : Bool
  pub item_cache_ok : Bool
  pub sync_cache_ok : Bool
  pub class_create : CInt
  pub alloc_chrdev_region : CInt
  pub cdev_add : CInt
  pub device_create : CInt

abbrev pub is_error : CInt → Bool
is_error (nat n) = false
is_error (neg e) = true

abbrev pub is_zero : CInt → Bool
is_zero (nat n) = n == 0
is_zero (neg e) = false

-- memset to 0
abbrev pub zero_pool : KgpuMempool
zero_pool = record {
  uva = 0;
  kva = 0;
  pages = λ i. 0;
  pages_null = true;
  npages = 0;
  nunits = 0;
  bitmap = λ i. false;
  bitmap_null = true;
  alloc_sz = λ i. 0;
  alloc_sz_null = true;
}

-- memset to 0; the flags of the kernel's own structures keep their values.
abbrev pub zero_vm : KgpuVma → KgpuVma
zero_vm vm = record vm {
  start = 0;
  end = 0;
  npages = 0;
  alloc_sz = λ i. 0;
  alloc_sz_null = true;
  bitmap = λ i. false;
  bitmap_null = true;
}

-- What is set before the caches are created.
abbrev pub fresh : Module → Module
fresh m = record m {
  dev = record m.dev { state = kgpu_ok; reqs = []; rtdreqs = [] };
  vm = zero_vm m.vm;
  rid_sequence = 0;
}

-- How kgpu_init ends: the state, what it holds, and its result.
pub record Started : Type 0 where
  pub module_state : Module
  pub held : List Resource
  pub result : CInt

-- From cdev_init on.
unfoldable pub add_device : InitEnv → Module → List Resource → Started
add_device env m held =
    let with_cdev = if is_zero env.cdev_add then held ++ cdev ∷ [] else held in
    record {
      module_state = m;
      held = if is_error env.device_create then with_cdev else with_cdev ++ device ∷ [];
      result = if is_error env.device_create then env.device_create else env.cdev_add;
    }

-- From class_create on.
unfoldable pub create_class : InitEnv → Module → List Resource → Started
unfolding add_device
create_class env m held =
    if is_error env.class_create
    then record { module_state = m; held = held; result = env.class_create }
    else if is_error env.alloc_chrdev_region
    then record { module_state = m; held = held ++ class ∷ []; result = env.alloc_chrdev_region }
    else add_device env m (held ++ class ∷ region ∷ [])

-- A failed creation destroys the caches before it.
unfoldable pub kgpu_init : InitEnv → Module → Started
unfolding create_class
kgpu_init env m =
    if env.request_cache_ok
    then if env.item_cache_ok
      then if env.sync_cache_ok
        then create_class env (record (fresh m) { gmpool = zero_pool })
            (request_cache ∷ item_cache ∷ sync_call_data_cache ∷ [])
        else record { module_state = fresh m; held = []; result = neg efault }
      else record { module_state = fresh m; held = []; result = neg efault }
    else record { module_state = fresh m; held = []; result = neg efault }

-- kfree of a pointer that is not NULL
abbrev pub freed : Bool → Resource → List Resource
freed null r = if null then [] else r ∷ []

-- clear_gpu_mempool: vunmap does nothing at NULL.
unfoldable pub clear_gpu_mempool : KgpuMempool → List Resource
clear_gpu_mempool g =
    freed g.pages_null pool_pages
    ++ freed g.bitmap_null pool_bitmap
    ++ freed g.alloc_sz_null pool_alloc_sz
    ++ freed (g.kva == 0) pool_mapping

unfoldable pub clean_vm : KgpuVma → List Resource
clean_vm vm = freed vm.alloc_sz_null vm_alloc_sz ++ freed vm.bitmap_null vm_bitmap

-- After kgpu_init has returned 0: the caches are there.
unfoldable pub kgpu_cleanup : Module → Module × List Resource
unfolding clear_gpu_mempool clean_vm
kgpu_cleanup m = (
  record m { dev = record m.dev { state = kgpu_terminated } },
  (device ∷ cdev ∷ class ∷ region ∷ request_cache ∷ item_cache ∷ sync_call_data_cache ∷ [])
      ++ clear_gpu_mempool m.gmpool
      ++ clean_vm m.vm,
)
