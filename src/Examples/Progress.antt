-- ===== src/Examples/Progress.antt =====
-- kgpu/src/userSpace/helper.c until its requests are answered, and with the input of each round.
use kgpu_fga.Base.{
  ℕ, ◌+◌, ◌≤◌, ◌≡◌, ◌⊎◌, refl, arith, ◌==◌, if◌then◌else◌, List, [], ◌∷◌, true, false, none, some,
}
use kgpu_fga.Helper.{Answers, Arrival, kh_main_loop}
use kgpu_fga.Helper.Lists.{count}
use kgpu_fga.Helper.Invariant.{Inv}
use kgpu_fga.Helper.Rounds.{AreFree}
use kgpu_fga.Helper.Work.{work}
use kgpu_fga.Helper.Progress.{IsWilling}
use kgpu_fga.Helper.Tally.{tally, answered_ids}
use kgpu_fga.Helper.Answered.{arrived, quiet, main_loop-tally, served_in_time}
use kgpu_fga.Helper.Input.{InputEnv, ready, bytes, nothing, helper_loop}
use kgpu_fga.Helper.Loop.{IsAllocator, Follows, Breaks, helper_loop-main_loop}
use kgpu_fga.Examples.Rounds.{
  accept, known, no_requests, no_requests-Inv, on_gpu, on_gpu-Inv, rounds, rounds-AreFree,
}

main_loop-tally_example :
    tally 1 (kh_main_loop no_requests rounds) ≡ tally 1 no_requests + arrived 1 rounds
main_loop-tally_example = main_loop-tally no_requests rounds rounds-AreFree no_requests-Inv 1

-- The GPU finishes at once.
abbrev pub willing : Answers
willing = record accept { execution_finished = λ p. true; post_finished = λ p. true }

pub willing-IsWilling : IsWilling willing
willing-IsWilling = record { memory = λ p. refl; executed = λ p. refl; posted = λ p. refl }

abbrev three : List Answers
three = willing ∷ willing ∷ willing ∷ []

on_gpu-work : work on_gpu ≤ 3
on_gpu-work = omega arith

served_in_time_example :
    ((kh_main_loop on_gpu (quiet three)).all_reqs ≡ [])
    × ((n : ℕ) → count n (answered_ids (kh_main_loop on_gpu (quiet three))) ≡ tally n on_gpu)
served_in_time_example =
    served_in_time on_gpu three on_gpu-Inv
      (willing-IsWilling, (willing-IsWilling, (willing-IsWilling, tt))) on_gpu-work

-- A request arrives, for which malloc gives the address 200 if that is free; then nothing can be read.
abbrev first_input : InputEnv
first_input = record {
  poll = λ t. ready 1 true;
  malloc = λ h. if count 200 h.all_reqs == 0 then 200 else 0;
  read = bytes known;
}

abbrev no_input : InputEnv
no_input = record first_input { poll = λ t. ready 0 false; read = nothing }

first-IsAllocator : IsAllocator first_input
first-IsAllocator h d l = ground (arith, d, l)

abbrev inputs : List (Answers × InputEnv)
inputs = (willing, first_input) ∷ (accept, no_input) ∷ []

helper_loop-main_loop_example :
    ((helper_loop on_gpu inputs ≡ none) × Breaks on_gpu inputs)
    ⊎ ((taken : List (Answers × Arrival)) × Follows on_gpu inputs taken
        × AreFree on_gpu taken
        × (helper_loop on_gpu inputs ≡ some (kh_main_loop on_gpu taken))
        × Inv (kh_main_loop on_gpu taken))
helper_loop-main_loop_example =
    helper_loop-main_loop on_gpu inputs (first-IsAllocator, (first-IsAllocator, tt)) on_gpu-Inv
