-- ===== src/Examples/System.antt =====
-- kgpu/src/kernelSpace/main.c and kgpu/src/userSpace/helper.c together, with one request queued.
use kgpu_fga.Base.{ℕ, ◌+◌, ◌≤◌, ◌<◌, ◌≡◌, refl, arith, List, [], ◌∷◌, true, false, some, inl}
use kgpu_fga.Kernel.Requests.{KgpuRequest, client}
use kgpu_fga.Helper.{Answers}
use kgpu_fga.Helper.Lists.{count}
use kgpu_fga.System.{Wiring, System, Action, submits, serves, listens, act_all}
use kgpu_fga.System.Delivery.{AllClient, calls}
use kgpu_fga.System.Matched.{IsMatched, MallocIsFresh, places}
use kgpu_fga.System.Exchange.{all_submitted, exchange}
use kgpu_fga.System.Measure.{IsIdle}
use kgpu_fga.System.Progress.{rounds, MallocNeverNull, queue_drains}
use kgpu_fga.Examples.Queues.{request, dev}
use kgpu_fga.Examples.Rounds.{no_requests, no_requests-Inv}
use kgpu_fga.Examples.Progress.{willing, willing-IsWilling}

abbrev called_back : ℕ → KgpuRequest
called_back r = record (request r) { callback = client r }

called_back-AllClient : AllClient called_back
called_back-AllClient r = (r, refl)

abbrev total : List ℕ → ℕ
total [] = 1
total (p ∷ l) = p + total l

abbrev wiring : Wiring
wiring = record {
  uva = 4096;
  kva = 0;
  npages = 0;
  malloc = λ h. total h.all_reqs;
  lookup = λ name. some 0;
}

total_positive : (l : List ℕ) → 0 < total l
total_positive [] = omega arith
total_positive (q ∷ l) = omega (arith, total_positive l)

total-above : (p : ℕ) (l : List ℕ) → total l ≤ p → count p l ≡ 0
unfolding count
total-above p [] e = refl
total-above p (q ∷ l) e = ground (arith, total-above p l, total_positive l, e)

wiring-MallocIsFresh : MallocIsFresh wiring
wiring-MallocIsFresh h n l =
    omega (arith, l, total-above (total h.all_reqs) h.all_reqs (omega arith))

wiring-MallocNeverNull : MallocNeverNull wiring
wiring-MallocNeverNull h e = omega (arith, e, total_positive h.all_reqs)

-- The request at 10 is queued.
abbrev start : System
start = record {
  dev = record (dev (10 ∷ []) []) { request = called_back };
  helper = no_requests;
  listening = false;
}

start-IsMatched : IsMatched called_back start
unfolding count
start-IsMatched = record {
  same = record { id = λ r. refl; callback = λ r. refl };
  inv = no_requests-Inv;
  matched = λ n. refl;
  running = λ e. omega (arith, e);
}

abbrev traffic : List Action
traffic = submits 12 true ∷ serves willing ∷ listens ∷ serves willing ∷ submits 11 false ∷ []

exchange_example :
    (s : System) × (act_all wiring start traffic ≡ some s)
    × IsMatched called_back s
    × ((n : ℕ)
        → places called_back n s.dev
          ≡ places called_back n start.dev + all_submitted called_back traffic n)
exchange_example =
    exchange called_back called_back-AllClient wiring wiring-MallocIsFresh traffic start
      start-IsMatched

abbrev seven : List Answers
seven = willing ∷ willing ∷ willing ∷ willing ∷ willing ∷ willing ∷ willing ∷ []

queue_drains_example :
    (s : System) × (act_all wiring start (rounds seven) ≡ some s)
    × IsIdle s
    × (s.dev.rtdreqs ≡ [])
    × ((n : ℕ) → calls called_back n s.dev ≡ places called_back n start.dev)
queue_drains_example =
    queue_drains called_back called_back-AllClient wiring wiring-MallocIsFresh
      wiring-MallocNeverNull seven start start-IsMatched (inl refl)
      (
        willing-IsWilling,
        (
          willing-IsWilling,
          (
            willing-IsWilling,
            (willing-IsWilling, (willing-IsWilling, (willing-IsWilling, (willing-IsWilling, tt)))),
          ),
        ),
      )
      (omega arith)
