-- ===== src/Examples/Module.antt =====
-- The module of kgpu/src/kernelSpace/main.c: an initialisation that succeeds, and one in which class_create
-- fails.
use kgpu_fga.Base.{◌+◌, ◌≡◌, ◌⊎◌, refl, if◌then◌else◌, [], true, false, ◌&&◌}
use kgpu_fga.Config.{nat, neg, enomem, efault}
use kgpu_fga.Kernel.Module.{
  Module, InitEnv, zero_pool, zero_vm, kgpu_init, create_class, add_device, kgpu_cleanup,
  pool_pages,
}
use kgpu_fga.Kernel.Module.Init.{Ended, initial, init_cases}
use kgpu_fga.Kernel.Module.Release.{times, owns, cleanup_releases}
use kgpu_fga.Examples.Queues.{dev}
use kgpu_fga.Examples.Area.{no_area}

abbrev loading : Module
loading = record { dev = dev [] []; gmpool = zero_pool; vm = zero_vm no_area; rid_sequence = 0 }

-- The pool has been set up.
abbrev in_use : Module
in_use = record loading {
  gmpool = record zero_pool {
    pages_null = false;
    bitmap_null = false;
    alloc_sz_null = false;
    kva = 4096;
  };
}

abbrev granted : InitEnv
granted = record {
  request_cache_ok = true;
  item_cache_ok = true;
  sync_cache_ok = true;
  class_create = nat 0;
  alloc_chrdev_region = nat 0;
  cdev_add = nat 0;
  device_create = nat 0;
}

granted_result : (kgpu_init granted loading).result ≡ nat 0
unfolding kgpu_init create_class add_device
granted_result = refl

cleanup_releases_example :
    times pool_pages (kgpu_cleanup in_use).1
    ≡ times pool_pages (kgpu_init granted loading).held + (if owns in_use pool_pages then 1 else 0)
cleanup_releases_example = cleanup_releases granted loading in_use granted_result pool_pages

abbrev no_class : InitEnv
no_class = record granted { class_create = neg enomem }

init_cases_example :
    (((kgpu_init no_class loading).result ≡ neg efault)
      × ((kgpu_init no_class loading).held ≡ [])
      × ((no_class.request_cache_ok && no_class.item_cache_ok && no_class.sync_cache_ok) ≡ false))
    ⊎ (Ended (kgpu_init no_class loading)
        × ((kgpu_init no_class loading).module_state ≡ initial loading)
        × ((no_class.request_cache_ok && no_class.item_cache_ok && no_class.sync_cache_ok) ≡ true))
init_cases_example = init_cases no_class loading
