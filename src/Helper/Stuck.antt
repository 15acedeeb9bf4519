-- ===== src/Helper/Stuck.antt =====
-- kgpu/src/userSpace/helper.c over kgpu/src/gpuSpace/openCLOperations.c, where the query of a stream
-- is commented out.
use kgpu_fga.Base.{
  ℕ, ◌≤◌, ◌<◌, ◌≡◌, refl, arith, ◌==◌, List, [], ◌∷◌, Bool, ◌&&◌, true, false, ◌∙◌, Bool-cases, inl,
  inr, none, some, ==_refl,
}
use native.Mathlib.Nat.{le_refl}
use kgpu_fga.Gpu.Streams.{gpu_execution_finished}
use kgpu_fga.Helper.{
  Helper, Handler, Answers, Arrival, KuRequest, ReqState, fresh, init, mem_done, prepared, running,
  post_exec, finished, kh_request_alloc_mem, kh_prepare_exec, kh_launch_exec, kh_post_exec,
  kh_finish_post, kh_service_done, process_request, kh_round, kh_main_loop,
}
use kgpu_fga.Helper.Lists.{count}
use kgpu_fga.Helper.Invariant.{Inv, Lives, stage, same}
use kgpu_fga.Helper.Handlers.{alloc-Keeps, launch-Keeps, finish-Keeps}
use kgpu_fga.Helper.Process.{Serves, prepare-Keeps, done-Keeps, process-Inv, rest_le}
use kgpu_fga.Helper.Rounds.{IsFree, AreFree, passes, round-Inv, new, new-stage}

-- The loop over a list leaves the places of the items that are not on it.
process_frame :
    (op : Handler) (once : Bool) (s : ReqState)
    → Serves op s
    → (l : List ℕ) (h : Helper) → Inv h
    → ((q : ℕ) → count q l ≤ count q (stage h s))
    → (p : ℕ) (t : ReqState) → count p l ≡ 0
    → count p (stage (process_request op once l h) t) ≡ count p (stage h t)
unfolding process_request count
process_frame op once s serves [] h v sub p t e = refl
process_frame op once s serves (x ∷ n) h v sub p t e =
    let k = serves h x v (ground (arith, sub x, ==_refl x)) in
    let kept : count p (stage (op h x).0 t) ≡ count p (stage h t) = k.rest p t (ground arith) in
    let ih =
      process_frame op once s serves n (op h x).0 k.inv (rest_le h (op h x).0 x s n v k sub) p t
        (ground arith) in
    elim (Bool-cases (((op h x).1 == 0) && once)) [ inl f ↦ rw f kept | inr f ↦ rw f (ih ∙ kept) ]

-- The loop over the running requests does nothing.
post_idle :
    (a : Answers)
    → ((p : ℕ) → a.execution_finished p ≡ false)
    → (l : List ℕ) (h : Helper) → process_request (kh_post_exec a) true l h ≡ h
unfolding process_request kh_post_exec
post_idle a idle [] h = refl
post_idle a idle (x ∷ n) h = rw (idle x) (post_idle a idle n h)

-- An item on the list of the running is on no other.
elsewhere :
    (h : Helper) (p : ℕ) (s : ReqState)
    → Inv h
    → 0 < count p (stage h running)
    → same running s ≡ false
    → count p (stage h s) ≡ 0
elsewhere h p fresh v l d = ground (arith, v.placed p running, v.placed p fresh)
elsewhere h p init v l d = ground (arith, v.placed p running, v.placed p init)
elsewhere h p mem_done v l d = ground (arith, v.placed p running, v.placed p mem_done)
elsewhere h p prepared v l d = ground (arith, v.placed p running, v.placed p prepared)
elsewhere h p running v l d = cc
elsewhere h p post_exec v l d = ground (arith, v.placed p running, v.placed p post_exec)
elsewhere h p finished v l d = ground (arith, v.placed p running, v.placed p finished)

module _ (op : Handler) (once : Bool) (s : ReqState) (serves : Serves op s)
    (other : same running s ≡ false) (p : ℕ) where
  -- A pass over another list keeps the invariant and a running item.
  pass :
      (h : Helper)
      → Inv h × (0 < count p (stage h running))
      → Inv (process_request op once (stage h s) h)
        × (0 < count p (stage (process_request op once (stage h s) h) running))
  pass h (v, l) = (
    process-Inv op once s serves (stage h s) h v (λ q. le_refl _),
    rw
        (process_frame op once s serves (stage h s) h v (λ q. le_refl _) p running
          (elsewhere h p s v l other))
        l,
  )

module _ (a : Answers) (idle : (p : ℕ) → a.execution_finished p ≡ false) (p : ℕ) where
  passes_running :
      (h : Helper)
      → Inv h × (0 < count p (stage h running))
      → Inv (passes a h) × (0 < count p (stage (passes a h) running))
  unfolding kh_round
  passes_running h w =
      let w₁ = pass kh_service_done false finished done-Keeps refl p h w in
      let w₂ = pass (kh_finish_post a) false post_exec (finish-Keeps a) refl p _ w₁ in
      rw (post_idle a idle) (
        let w₄ = pass (kh_launch_exec a) true prepared (launch-Keeps a) refl p _ w₂ in
        let w₅ =
          pass (kh_prepare_exec a) true mem_done (λ h p w l. prepare-Keeps a w l) refl p _ w₄ in
        pass (kh_request_alloc_mem a) false init (alloc-Keeps a) refl p _ w₅)

  arrival_running :
      (h : Helper) (x : ℕ) (kureq : KuRequest)
      → Inv h
      → ¬ Lives h x
      → 0 < count p (stage h running)
      → 0 < count p (stage (new h x kureq) running)
  arrival_running h x kureq v free l = omega (arith, new-stage h x kureq v free running p)

  round_running :
      (h : Helper) (arrival : Arrival)
      → IsFree (passes a h) arrival
      → Inv h × (0 < count p (stage h running))
      → Inv (kh_round a h arrival) × (0 < count p (stage (kh_round a h arrival) running))
  unfolding kh_round
  round_running h none free w = passes_running h w
  round_running h (some (x, kureq)) free w =
      let (v, l) = passes_running h w in
      (round-Inv a h (some (x, kureq)) free w.0, arrival_running (passes a h) x kureq v free l)

-- Every round has the answers of the OpenCL operations, for the streams that the items hold.
abbrev pub AreOpenCl : List (Answers × Arrival) → Type 0
AreOpenCl [] = Unit
AreOpenCl ((a, arrival) ∷ rounds) =
    ((stream : ℕ → ℕ) (p : ℕ) → a.execution_finished p ≡ gpu_execution_finished (stream p))
    × AreOpenCl rounds

-- With the OpenCL tests for completion, a request on the list of the running requests stays there
-- through any number of rounds of kh_main_loop, if the helper's invariant holds and each arrival
-- gets an item at an address that no live item has.
pub running_stuck :
    (h : Helper) (rounds : List (Answers × Arrival)) (p : ℕ)
    → AreOpenCl rounds
    → AreFree h rounds
    → Inv h
    → 0 < count p h.running_reqs
    → 0 < count p (kh_main_loop h rounds).running_reqs
unfolding kh_main_loop gpu_execution_finished
running_stuck h [] p cl free v l = l
running_stuck h ((a, arrival) ∷ rounds) p cl free v l =
    let (v', l') = round_running a (cl.0 (λ x. 0)) p h arrival free.0 (v, l) in
    running_stuck (kh_round a h arrival) rounds p cl.1 free.1 v' l'
