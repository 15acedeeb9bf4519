-- ===== src/Examples/Control.antt =====
-- kgpu_poll and kgpu_ioctl of kgpu/src/kernelSpace/main.c with two requests queued.
use kgpu_fga.Base.{◌≡◌, refl, true, false, [], ◌∷◌, some, List}
use kgpu_fga.Config.{nat}
use kgpu_fga.Kernel.Bitmap.FirstFit.{first_fit}
use kgpu_fga.Kernel.Requests.{KgpuDev, kgpu_read, kgpu_call_async, terminate_all_requests}
use kgpu_fga.Kernel.Requests.History.{Call, asyncs, reads, step, run}
use kgpu_fga.Kernel.Control.{
  IoctlCmd, kgpu_ioctl, access_refused, is_set_stop, is_set_gpu_bufs, is_get_gpu_bufs,
}
use kgpu_fga.Kernel.Control.Stop.{IsStopped, ioctl_stop}
use kgpu_fga.Examples.Queues.{dev}
use kgpu_fga.Examples.Setup.{env, buffer, no_pool}

-- KGPU_IOC_SET_STOP
abbrev stop_cmd : IoctlCmd
stop_cmd = record { ioc_type = 103; ioc_nr = 3; ioc_size = 0; ioc_read = false; ioc_write = false }

stop_cmd_lem : is_set_stop stop_cmd ≡ true
unfolding is_set_stop
stop_cmd_lem = refl

-- A request is refused, and one of the two in the queue is read.
abbrev calls : List Call
calls = asyncs 12 true ∷ reads true 112 ∷ []

abbrev end_dev : KgpuDev
end_dev = record (dev (11 ∷ []) (10 ∷ [])) { state = 3; fpos = 112 }

calls-run :
    run 4096 0 0
      (kgpu_ioctl first_fit env
        (λ w a n. true)
        (λ a. buffer)
        no_pool
        (dev (10 ∷ 11 ∷ []) [])
        stop_cmd
        0).1
      calls
    ≡ some end_dev
unfolding kgpu_ioctl access_refused is_set_stop is_set_gpu_bufs is_get_gpu_bufs
    terminate_all_requests run step kgpu_call_async kgpu_read
calls-run = refl

ioctl_stop_example :
    ((kgpu_ioctl first_fit env
        (λ w a n. true)
        (λ a. buffer)
        no_pool
        (dev (10 ∷ 11 ∷ []) [])
        stop_cmd
        0).2
      ≡ nat 0)
    × IsStopped (dev (10 ∷ 11 ∷ []) []) end_dev
ioctl_stop_example =
    ioctl_stop first_fit env (λ w a n. true) (λ a. buffer) no_pool (dev (10 ∷ 11 ∷ []) []) stop_cmd
      0 refl stop_cmd_lem 4096 0 0 calls end_dev calls-run
