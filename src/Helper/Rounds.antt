-- ===== src/Helper/Rounds.antt =====
-- Rounds of kh_main_loop of kgpu/src/userSpace/helper.c.
use kgpu_fga.Base.{
  ℕ, ◌+◌, ◌≡◌, ◌≢◌, ◌⊎◌, ap, arith, ◌==◌, if◌then◌else◌, List, [], ◌∷◌, ◌++◌, true, false,
  Bool-cases, inl, inr, none, some,
}
use native.Mathlib.Nat.{le_refl}
use kgpu_fga.Helper.{
  Helper, Answers, Arrival, KuRequest, ReqState, ServiceRequest, fresh, init, mem_done, prepared,
  running, post_exec, finished, erase, list_del, kh_init_service_request, kh_fail_request,
  kh_request_alloc_mem, kh_prepare_exec, kh_launch_exec, kh_post_exec, kh_finish_post,
  kh_service_done, kh_round, kh_main_loop,
}
use kgpu_fga.Helper.Lists.{count, count-erase, count-push}
use kgpu_fga.Helper.Invariant.{Inv, Lives, stage, same, state_of, stream_of}
use kgpu_fga.Helper.Handlers.{alloc-Keeps, launch-Keeps, post-Keeps, finish-Keeps}
use kgpu_fga.Helper.Process.{prepare-Keeps, done-Keeps, process-Inv}

module _ (h : Helper) (p : ℕ) (kureq : KuRequest) where
  abbrev pub new : Helper
  new = kh_init_service_request h p kureq

  -- The list on which the new item goes, and its state.
  abbrev pub first_state : ReqState
  first_state = elim kureq.service [ none ↦ finished | some _ ↦ init ]

  pub new_all : (q : ℕ) → count q new.all_reqs ≡ count q h.all_reqs + (if q == p then 1 else 0)
  unfolding kh_init_service_request kh_fail_request list_del
  new_all q = ground (arith, count-push q p h.all_reqs)

  pub new_others : (q : ℕ) → q ≢ p → new.item q ≡ h.item q
  unfolding kh_init_service_request kh_fail_request list_del
  new_others q d = ground arith

  new_state : state_of new p ≡ first_state
  unfolding kh_init_service_request kh_fail_request list_del
  new_state = ground arith

  new_stream : stream_of new p ≡ none
  unfolding kh_init_service_request kh_fail_request list_del
  new_stream = ground arith

  new_uses : new.streamuses ≡ h.streamuses
  unfolding kh_init_service_request kh_fail_request list_del
  new_uses = ground arith

module _ (h : Helper) (p : ℕ) (kureq : KuRequest) (v : Inv h) (free : ¬ Lives h p) where
  absent : (s : ReqState) → count p (stage h s) ≡ 0
  absent s = ground (arith, v.placed p s)

  -- A list of states after the arrival: an item that fails is taken off the lists first.
  failed_count :
      (q : ℕ) (l : List ℕ)
      → count p l ≡ 0
      → count q (erase p l ++ p ∷ []) ≡ count q l + (if q == p then 1 else 0)
  failed_count q l e = elim (Bool-cases (q == p)) [
    | inl f ↦
        let g : q ≡ p = ground arith in
        rw g (omega (arith, count-push p p (erase p l), count-erase p p l))
    | inr f ↦ ground (arith, count-push q p (erase p l), count-erase q p l)
  ]

  erased_count : (q : ℕ) (l : List ℕ) → count p l ≡ 0 → count q (erase p l) ≡ count q l
  erased_count q l e = elim (Bool-cases (q == p)) [
    | inl f ↦ let g : q ≡ p = ground arith in rw g (omega (arith, count-erase p p l))
    | inr f ↦ ground (arith, count-erase q p l)
  ]

  pub new-stage :
      (s : ReqState) (q : ℕ)
      → count q (stage (new h p kureq) s)
        ≡ count q (stage h s)
          + (if same (first_state h p kureq) s then (if q == p then 1 else 0) else 0)
  unfolding kh_init_service_request kh_fail_request list_del
  new-stage fresh q = ground (arith)
  new-stage init q =
      ground (arith, erased_count q h.init_reqs (absent init), count-push q p h.init_reqs)
  new-stage mem_done q = ground (arith, erased_count q h.memdone_reqs (absent mem_done))
  new-stage prepared q = ground (arith, erased_count q h.prepared_reqs (absent prepared))
  new-stage running q = ground (arith, erased_count q h.running_reqs (absent running))
  new-stage post_exec q = ground (arith, erased_count q h.post_exec_reqs (absent post_exec))
  new-stage finished q = ground (arith, failed_count q h.done_reqs (absent finished))

  new_item :
      (q : ℕ)
      → Lives (new h p kureq) q
      → ((q ≡ p) ⊎ ((q ≢ p) × Lives h q × ((new h p kureq).item q ≡ h.item q)))
  new_item q l = elim (Bool-cases (q == p)) [
    | inl e ↦ inl (ground arith)
    | inr e ↦
        inr
          (ground arith, ground (arith, new_all h p kureq q), new_others h p kureq q (ground arith))
  ]

  new-placed :
      (q : ℕ) (s : ReqState)
      → count q (stage (new h p kureq) s)
        ≡ (if same (state_of (new h p kureq) q) s then count q (new h p kureq).all_reqs else 0)
  new-placed q s = elim (Bool-cases (q == p)) [
    | inl e ↦
        let f : q ≡ p = ground arith in
        rw (new-stage s q, new_all h p kureq q, e, f, new_state h p kureq)
          (ground (arith, absent s))
    | inr e ↦
        let g : state_of (new h p kureq) q ≡ state_of h q =
          ap (λ (r : ServiceRequest). r.state) (new_others h p kureq q (ground arith)) in
        rw (new-stage s q, new_all h p kureq q, e, g) (ground (arith, v.placed q s))
  ]

  -- An arrival at a free address keeps the invariant.
  pub new-Inv : Inv (new h p kureq)
  new-Inv = record {
    core = record {
      single = λ q. ground (arith, new_all h p kureq q, v.single q);
      placed = new-placed;
      held = λ q k l e. elim (new_item q l) [
        | inl f ↦ ground (arith, new_stream h p kureq)
        | inr (d, m, f) ↦ rw (new_uses h p kureq) (v.held q k m (ground arith))
      ];
      alone = λ q r k l m e f. elim (new_item q l) [
        | inl g ↦ ground (arith, new_stream h p kureq)
        | inr (_, l', g) ↦ elim (new_item r m) [
          | inl i ↦ ground (arith, new_stream h p kureq)
          | inr (_, m', i) ↦ v.alone q r k l' m' (ground arith) (ground arith)
        ]
      ];
      owned = λ k e.
          let (q, l, f) = v.owned k (rw (new_uses h p kureq) at e) in
          (q, omega (arith, new_all h p kureq q, l), ground (arith, new_others h p kureq q));
    };
    idle = λ q l e. elim (new_item q l) [
      | inl f ↦ rw f (new_stream h p kureq)
      | inr (_, m, f) ↦ ground (arith, v.idle q m)
    ];
  }

-- An arrival is at an address that no live item has.
abbrev pub IsFree : Helper → Arrival → Type 0
IsFree h none = Unit
IsFree h (some (p, kureq)) = ¬ Lives h p

-- The six passes of a round over the lists.
abbrev pub passes : Answers → Helper → Helper
passes a h = kh_round a h none

pub passes-Inv : (a : Answers) (h : Helper) → Inv h → Inv (passes a h)
unfolding kh_round
passes-Inv a h v =
    let v₁ =
      process-Inv kh_service_done false finished done-Keeps h.done_reqs h v (λ q. le_refl _) in
    let v₂ =
      process-Inv (kh_finish_post a) false post_exec (finish-Keeps a) _ _ v₁ (λ q. le_refl _) in
    let v₃ = process-Inv (kh_post_exec a) true running (post-Keeps a) _ _ v₂ (λ q. le_refl _) in
    let v₄ =
      process-Inv (kh_launch_exec a) true prepared (launch-Keeps a) _ _ v₃ (λ q. le_refl _) in
    let v₅ =
      process-Inv (kh_prepare_exec a) true mem_done (λ h p w l. prepare-Keeps a w l) _ _ v₄
        (λ q. le_refl _) in
    process-Inv (kh_request_alloc_mem a) false init (alloc-Keeps a) _ _ v₅ (λ q. le_refl _)

-- A round of kh_main_loop, whatever the services and the GPU answer, keeps every live item on the one
-- list of its state, and the streams in use exactly those that one live item holds.
pub round-Inv :
    (a : Answers) (h : Helper) (arrival : Arrival)
    → IsFree (passes a h) arrival
    → Inv h
    → Inv (kh_round a h arrival)
unfolding kh_round
round-Inv a h none free v = passes-Inv a h v
round-Inv a h (some (p, kureq)) free v = new-Inv (passes a h) p kureq (passes-Inv a h v) free

-- Each arrival of a run of rounds is at a free address.
abbrev pub AreFree : Helper → List (Answers × Arrival) → Type 0
AreFree h [] = Unit
AreFree h ((a, arrival) ∷ rounds) =
    IsFree (passes a h) arrival × AreFree (kh_round a h arrival) rounds

-- Any number of rounds of kh_main_loop, whatever the services and the GPU answer, keeps the
-- helper's invariant if each arriving request gets an item at an address that no live item has:
-- every live item stands once on the list of its state and on no other, a stream is in use exactly
-- if a live item holds it and only one does, and items hold no stream before they are prepared.
pub main_loop-Inv :
    (h : Helper) (rounds : List (Answers × Arrival))
    → AreFree h rounds
    → Inv h
    → Inv (kh_main_loop h rounds)
unfolding kh_main_loop
main_loop-Inv h [] free v = v
main_loop-Inv h ((a, arrival) ∷ rounds) free v =
    main_loop-Inv (kh_round a h arrival) rounds free.1 (round-Inv a h arrival free.0 v)
