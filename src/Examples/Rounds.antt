-- ===== src/Examples/Rounds.antt =====
-- kgpu/src/userSpace/helper.c with two requests that arrive in the first rounds, and with one that
-- runs on the GPU.
use kgpu_fga.Base.{ℕ, ◌<◌, ◌≡◌, refl, arith, ◌==◌, if◌then◌else◌, List, [], ◌∷◌, false, none, some}
use kgpu_fga.Gpu.Streams.{gpu_execution_finished, check_stream_done}
use kgpu_fga.Helper.{
  Helper, Answers, Arrival, KuRequest, ReqState, ServiceRequest, init, mem_done, prepared, running,
  post_exec, finished, fresh, erase, list_del, kh_init_service_request, kh_request_alloc_mem,
  kh_post_exec, process_request, kh_round, kh_main_loop,
}
use kgpu_fga.Helper.Lists.{count}
use kgpu_fga.Helper.Invariant.{Inv, stage, same, state_of}
use kgpu_fga.Helper.Rounds.{AreFree, main_loop-Inv}
use kgpu_fga.Helper.Stuck.{AreOpenCl, running_stuck}

-- Services and GPU accept everything; nothing finishes.
abbrev pub accept : Answers
accept = record {
  alloc_device_mem = λ p. 0;
  prepare = λ p. 0;
  launch = λ p. 0;
  post = λ p. 0;
  execution_finished = λ p. false;
  post_finished = λ p. false;
}

-- The first service, and a name that no service has.
abbrev pub known : KuRequest
known = record {
  id = 0;
  in_addr = 4096;
  out_addr = 8192;
  data_addr = 0;
  insize = 100;
  outsize = 100;
  datasize = 0;
  service = some 0;
}

abbrev pub unknown : KuRequest
unknown = record known { id = 1; service = none }

abbrev pub blank : ServiceRequest
blank = record {
  id = 0;
  hin = 0;
  hout = 0;
  hdata = 0;
  insize = 0;
  outsize = 0;
  datasize = 0;
  errcode = 0;
  service = none;
  state = fresh;
  stream_id = none;
}

abbrev pub no_requests : Helper
no_requests = record {
  item = λ p. blank;
  all_reqs = [];
  init_reqs = [];
  memdone_reqs = [];
  prepared_reqs = [];
  running_reqs = [];
  post_exec_reqs = [];
  done_reqs = [];
  streamuses = λ k. false;
  responses = [];
}

pub no_requests-Inv : Inv no_requests
unfolding count
no_requests-Inv = record {
  core = record {
    single = λ p. ground arith;
    placed = λ p s. ground arith;
    held = λ p k l e. ground arith;
    alone = λ p q k l m e f. ground arith;
    owned = λ k e. ground arith;
  };
  idle = λ p l e. ground arith;
}

abbrev pub rounds : List (Answers × Arrival)
rounds = (accept, some (100, known)) ∷ (accept, some (101, unknown)) ∷ (accept, none) ∷ []

pub rounds-AreFree : AreFree no_requests rounds
unfolding kh_round process_request kh_init_service_request kh_request_alloc_mem erase list_del count
rounds-AreFree = (λ l. omega (arith, l), (λ l. omega (arith, l), (tt, tt)))

main_loop-Inv_example : Inv (kh_main_loop no_requests rounds)
main_loop-Inv_example = main_loop-Inv no_requests rounds rounds-AreFree no_requests-Inv

-- The request at 100 runs on the stream 0.
abbrev pub on_gpu : Helper
on_gpu = record no_requests {
  item = λ p. record blank { state = running; service = some 0; stream_id = some 0 };
  all_reqs = 100 ∷ [];
  running_reqs = 100 ∷ [];
  streamuses = λ k. k == 0;
}

on_gpu_placed :
    (p : ℕ) (s : ReqState)
    → count p (stage on_gpu s) ≡ (if same (state_of on_gpu p) s then count p on_gpu.all_reqs else 0)
unfolding count
on_gpu_placed p fresh = refl
on_gpu_placed p init = refl
on_gpu_placed p mem_done = refl
on_gpu_placed p prepared = refl
on_gpu_placed p running = refl
on_gpu_placed p post_exec = refl
on_gpu_placed p finished = refl

pub on_gpu-Inv : Inv on_gpu
unfolding count
on_gpu-Inv = record {
  core = record {
    single = λ p. ground arith;
    placed = on_gpu_placed;
    held = λ p k l e. ground arith;
    alone = λ p q k l m e f. ground arith;
    owned = λ k e. (100, omega arith, ground arith);
  };
  idle = λ p l e. ground arith;
}

abbrev later : List (Answers × Arrival)
later = (accept, some (101, known)) ∷ (accept, none) ∷ []

later-AreOpenCl : AreOpenCl later
unfolding gpu_execution_finished check_stream_done
later-AreOpenCl = (λ stream p. refl, (λ stream p. refl, tt))

later-AreFree : AreFree on_gpu later
unfolding kh_round process_request kh_post_exec count
later-AreFree = (λ l. omega (arith, l), (tt, tt))

on_gpu_running : 0 < count 100 on_gpu.running_reqs
unfolding count
on_gpu_running = omega arith

running_stuck_example : 0 < count 100 (kh_main_loop on_gpu later).running_reqs
running_stuck_example =
    running_stuck on_gpu later 100 later-AreOpenCl later-AreFree on_gpu-Inv on_gpu_running
