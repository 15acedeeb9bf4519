-- ===== src/Examples/Queues.antt =====
-- The request queues of kgpu/src/kernelSpace/main.c with a request of a client at 10, and others
-- without a callback.
use kgpu_fga.Base.{
  ℕ, ◌+◌, ◌-◌, ◌≡◌, refl, true, arith, if◌then◌else◌, ◌==◌, List, [], ◌∷◌, some, none, length,
}
use kgpu_fga.Kernel.Requests.{
  KgpuDev, KgpuRequest, client, null, find_request, kgpu_read, kgpu_write, invoke, kgpu_call_async,
}
use kgpu_fga.Kernel.Requests.Queue.{answered}
use kgpu_fga.Kernel.Requests.History.{
  Call, asyncs, reads, writes, step, run, Move, step-Move, IsBalanced, run-IsBalanced,
}

-- The id of the request at `r` is `r` less 10, and its callback depends on it.
abbrev pub request : ℕ → KgpuRequest
request r = record {
  id = r - 10;
  in_addr = 4096;
  out_addr = 8192;
  udata = 0;
  kdata = 3;
  insize = 100;
  outsize = 100;
  udatasize = 0;
  kdatasize = 0;
  service_name = 99 ∷ [];
  callback = if r == 10 then client 5 else null;
  errcode = 0;
}

-- Two requests are queued, and one is with the helper.
abbrev pub dev : List ℕ → List ℕ → KgpuDev
dev reqs rtdreqs = record {
  state = 0;
  reqs = reqs;
  rtdreqs = rtdreqs;
  request = request;
  sync_data = λ p. none;
  items = length reqs + length rtdreqs;
  datas = 0;
  called = [];
  fpos = 0;
}

-- A write that answers the request at 10.
abbrev answer_call : Call
answer_call = writes 8 0 1

answer_step :
    step 4096 0 0 (dev (11 ∷ []) (10 ∷ [])) answer_call
    ≡ some (answered (dev (11 ∷ []) (10 ∷ [])) [] 10 5 8 1)
unfolding step kgpu_write find_request invoke
answer_step = refl

step-Move_example : Move (dev (11 ∷ []) (10 ∷ [])) (answered (dev (11 ∷ []) (10 ∷ [])) [] 10 5 8 1)
step-Move_example =
    step-Move 4096 0 0 (dev (11 ∷ []) (10 ∷ [])) (answered (dev (11 ∷ []) (10 ∷ [])) [] 10 5 8 1)
      answer_call tt answer_step

-- A read, the answer to the request that was with the helper, and a new request.
abbrev calls : List Call
calls = reads true 112 ∷ answer_call ∷ asyncs 12 true ∷ []

abbrev end_dev : KgpuDev
end_dev = record (answered (dev (11 ∷ []) (10 ∷ [])) [] 10 5 8 1) {
  reqs = 12 ∷ [];
  rtdreqs = 11 ∷ [];
  items = 2;
  fpos = 120;
}

calls-run : run 4096 0 0 (dev (11 ∷ []) (10 ∷ [])) calls ≡ some end_dev
unfolding run step kgpu_read kgpu_write find_request invoke kgpu_call_async
calls-run = refl

run-IsBalanced_example : IsBalanced end_dev
run-IsBalanced_example =
    run-IsBalanced 4096 0 0 (dev (11 ∷ []) (10 ∷ [])) end_dev calls (omega arith, (tt, (tt, tt)))
      calls-run refl
