-- ===== src/Examples/Sync.antt =====
-- kgpu_call_sync of kgpu/src/kernelSpace/main.c for the request at 12, whose call has its data at 50,
-- with a request queued before it and one with the helper.
use kgpu_fga.Base.{◌≡◌, refl, true, arith, update, [], ◌∷◌, ◌++◌, some, none}
use kgpu_fga.Config.{nat}
use kgpu_fga.Kernel.Requests.{
  KgpuDev, waiting, kgpu_write, kgpu_call_sync_begin, kgpu_call_sync_end,
}
use kgpu_fga.Kernel.Requests.Queue.{Absent, completed, read_times}
use kgpu_fga.Kernel.Requests.Sync.{
  begun, saved, delivered, finished, signalled, call_sync_lem, call_sync_signal,
}
use kgpu_fga.Examples.Queues.{request, dev}

abbrev before_call : KgpuDev
before_call = dev (11 ∷ []) (10 ∷ [])

-- The device when the request has been read.
abbrev with_helper : KgpuDev
with_helper = delivered 4096 0 0 before_call 12 50

-- The device when it has been answered.
abbrev answered_call : KgpuDev
answered_call = completed with_helper ((10 ∷ 11 ∷ []) ++ []) 12 50 (saved before_call 12 50) 8 1

first : Absent request 2 (10 ∷ 11 ∷ [])
first = (λ e. omega (arith, e), (λ e. omega (arith, e), tt))

-- The device when the call returns.
abbrev at_return : KgpuDev
at_return = finished 4096 0 0 before_call 12 50 2 refl first 1

call_sync_lem_example :
    (kgpu_call_sync_begin before_call 12 50 true true ≡ (begun before_call 12 50, waiting))
    × (kgpu_write with_helper 8 2 1 ≡ some (answered_call, nat 8))
    × (kgpu_call_sync_end answered_call 12 50 ≡ some (at_return, nat 0))
    × (at_return.request ≡ update request 12 (record (request 12) { errcode = 1 }))
    × (at_return.sync_data ≡ (λ p. none))
    × (at_return.items ≡ 2)
    × (at_return.datas ≡ 0)
    × (at_return.reqs ≡ [])
    × (at_return.rtdreqs ≡ 10 ∷ 11 ∷ [])
call_sync_lem_example =
    call_sync_lem 4096 0 0 before_call 12 50 2 refl first 1 (λ e. omega (arith, e)) refl

call_sync_signal_example :
    (kgpu_call_sync_end (begun before_call 12 50) 12 50 ≡ some (signalled before_call 12 50, nat 0))
    × ((signalled before_call 12 50).reqs ≡ 11 ∷ 12 ∷ [])
    × (kgpu_write (read_times 4096 0 0 (signalled before_call 12 50) 112 2) 8 2 1 ≡ none)
call_sync_signal_example = call_sync_signal before_call 12 50 4096 0 0 2 1 refl first refl
