-- ===== src/Helper/Answered.antt =====
-- The answers that rounds of kh_main_loop of kgpu/src/userSpace/helper.c send.
use kgpu_fga.Base.{
  ℕ, ◌+◌, ◌≤◌, ◌<◌, ◌≡◌, refl, ◌∙◌, arith, ◌==◌, if◌then◌else◌, List, [], ◌∷◌, inl, inr, none, some,
  length, ==_refl, All,
}
use kgpu_fga.Helper.{
  Helper, Answers, Arrival, ReqState, fresh, init, mem_done, prepared, running, post_exec, finished,
  kh_round, kh_main_loop,
}
use kgpu_fga.Helper.Lists.{count}
use kgpu_fga.Helper.Invariant.{Inv, Lives, state_of}
use kgpu_fga.Helper.Rounds.{AreFree, passes, passes-Inv, round-Inv}
use kgpu_fga.Helper.Work.{work, length_pos}
use kgpu_fga.Helper.Progress.{IsWilling, passes-work}
use kgpu_fga.Helper.Tally.{answered_ids, tally, passes-tally, new-tally}

-- How many of the arrivals have the id.
unfoldable pub arrived : ℕ → List (Answers × Arrival) → ℕ
arrived n [] = 0
arrived n ((a, none) ∷ rounds) = arrived n rounds
arrived n ((a, some (p, kureq)) ∷ rounds) = (if n == kureq.id then 1 else 0) + arrived n rounds

-- Over any number of rounds of kh_main_loop, whatever the services and the GPU answer, the
-- responses and live requests with an id are together those at the start and the arrivals with this
-- id, if the helper's invariant holds and each arrival gets an item at an address that no live item
-- has: no request is lost or answered twice.
pub main_loop-tally :
    (h : Helper) (rounds : List (Answers × Arrival))
    → AreFree h rounds
    → Inv h
    → (n : ℕ) → tally n (kh_main_loop h rounds) ≡ tally n h + arrived n rounds
unfolding kh_main_loop arrived kh_round
main_loop-tally h [] free v n = omega arith
main_loop-tally h ((a, none) ∷ rounds) free v n =
    omega
      (arith, main_loop-tally (passes a h) rounds free.1 (passes-Inv a h v) n, passes-tally a h v n)
main_loop-tally h ((a, some (p, kureq)) ∷ rounds) free v n = omega (
  arith,
  main_loop-tally (kh_round a h (some (p, kureq))) rounds free.1
      (round-Inv a h (some (p, kureq)) free.0 v) n,
  passes-tally a h v n,
  new-tally (passes a h) p kureq free.0 n,
)

-- Rounds with no arrival.
abbrev pub quiet : List Answers → List (Answers × Arrival)
quiet [] = []
quiet (a ∷ as') = (a, none) ∷ quiet as'

some_work : (h : Helper) (p : ℕ) (s : ReqState) → Inv h → Lives h p → state_of h p ≡ s → 0 < work h
unfolding count
some_work h p fresh v l e = ground (arith, v.placed p fresh)
some_work h p init v l e = ground (arith, v.placed p init, length_pos p h.init_reqs)
some_work h p mem_done v l e = ground (arith, v.placed p mem_done, length_pos p h.memdone_reqs)
some_work h p prepared v l e = ground (arith, v.placed p prepared, length_pos p h.prepared_reqs)
some_work h p running v l e = ground (arith, v.placed p running, length_pos p h.running_reqs)
some_work h p post_exec v l e = ground (arith, v.placed p post_exec, length_pos p h.post_exec_reqs)
some_work h p finished v l e = ground (arith, v.placed p finished, length_pos p h.done_reqs)

pub no_work : (h : Helper) → Inv h → work h ≡ 0 → (l : List ℕ) → h.all_reqs ≡ l → l ≡ []
unfolding count
no_work h v z [] e = refl
no_work h v z (p ∷ l) e =
    absurd
      (omega (arith, z, some_work h p (state_of h p) v (rw e (ground (arith, ==_refl p))) refl))

-- If the memory calls succeed and the GPU has always finished, rounds of kh_main_loop without
-- arrivals, as many as the work that remains in a state with the helper's invariant, answer every
-- live request: none is live afterwards, and the responses with an id are those before and one for
-- each live request with this id.
pub served_in_time :
    (h : Helper) (answers : List Answers)
    → Inv h
    → All IsWilling answers
    → work h ≤ length answers
    → ((kh_main_loop h (quiet answers)).all_reqs ≡ [])
      × ((n : ℕ) → count n (answered_ids (kh_main_loop h (quiet answers))) ≡ tally n h)
unfolding kh_main_loop count
served_in_time h [] v ok enough =
    let none_left = no_work h v (omega arith) h.all_reqs refl in
    (none_left, λ n. rw none_left (omega arith))
served_in_time h (a ∷ answers) v ok enough =
    let less : work (passes a h) ≤ length answers = elim (passes-work a ok.0 h v) [
      | inl l ↦ omega (arith, l)
      | inr z ↦ omega (arith, z)
    ] in
    let ih = served_in_time (passes a h) answers (passes-Inv a h v) ok.1 less in
    (ih.0, λ n. ih.1 n ∙ passes-tally a h v n)
