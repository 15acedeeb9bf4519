-- ===== src/Helper/Tally.antt =====
-- How often an id is answered or waits for its answer in kgpu/src/userSpace/helper.c: what a pass and an
-- arrival do to that.
use kgpu_fga.Base.{
  ℕ, ◌+◌, ◌≤◌, ◌<◌, ◌≡◌, ◌≢◌, refl, ap, ◌∙◌, fun_ext, arith, ◌==◌, if◌then◌else◌, List, [], ◌∷◌,
  ◌++◌, Bool, true, false, ◌&&◌, Bool-cases, inl, inr, ==_refl, map,
}
use native.Mathlib.Nat.{le_refl}
use kgpu_fga.Gpu.Streams.{alloc_stream_cases}
use kgpu_fga.Helper.{
  Helper, Handler, Answers, KuRequest, ReqState, init, mem_done, prepared, running, post_exec,
  finished, erase, list_del, kh_request_alloc_mem, kh_prepare_exec, kh_launch_exec, kh_post_exec,
  kh_finish_post, kh_service_done, process_request, kh_round, kh_init_service_request,
  kh_fail_request,
}
use kgpu_fga.Helper.Lists.{count}
use kgpu_fga.Helper.Invariant.{Inv, Lives, Moved, stage, same}
use kgpu_fga.Helper.Moves.{alloc_cases, prepare_cases, launch_cases, post_cases, finish_cases}
use kgpu_fga.Helper.Handlers.{
  taken, stage-Lives, alloc-Keeps, launch-Keeps, post-Keeps, finish-Keeps,
}
use kgpu_fga.Helper.Process.{Serves, prepare-Keeps, done-Keeps, process-Inv, rest_le}
use kgpu_fga.Helper.Rounds.{passes, new, new_others}

-- The ids that have been answered, and those of the live items.
abbrev pub answered_ids : Helper → List ℕ
answered_ids h = map (λ r. r.0) h.responses

abbrev pub live_ids : Helper → List ℕ
live_ids h = map (λ p. (h.item p).id) h.all_reqs

-- How often an id is answered or waits to be.
abbrev pub tally : ℕ → Helper → ℕ
tally n h = count n (answered_ids h) + count n (live_ids h)

map-erase :
    (f : ℕ → ℕ) (n p : ℕ) (l : List ℕ)
    → 0 < count p l
    → count n (map f (erase p l)) + (if n == f p then 1 else 0) ≡ count n (map f l)
unfolding erase count
map-erase f n p [] h = omega (arith, h)
map-erase f n p (x ∷ l) h = elim (Bool-cases (p == x)) [
  | inl e ↦ let s : p ≡ x = ground arith in rw (e, s) (ground arith)
  | inr e ↦ rw e (ground (arith, map-erase f n p l))
]

map_eq :
    (f g : ℕ → ℕ) (p : ℕ) (l : List ℕ)
    → count p l ≡ 0
    → ((q : ℕ) → q ≢ p → f q ≡ g q)
    → map f l ≡ map g l
unfolding count
map_eq f g p [] h same = refl
map_eq f g p (x ∷ l) h same = ground (arith, same x, map_eq f g p l)

pub map-push :
    (f : ℕ → ℕ) (n p : ℕ) (l : List ℕ)
    → count n (map f (l ++ p ∷ [])) ≡ count n (map f l) + (if n == f p then 1 else 0)
unfolding count
map-push f n p [] = omega arith
map-push f n p (x ∷ l) = omega (arith, map-push f n p l)

Moved-tally :
    (n : ℕ) {h h' : Helper} {p : ℕ} {t : ReqState} → Moved h p t h' → tally n h' ≡ tally n h
Moved-tally n {h} {h'} {p} m =
    let ids : (λ q. (h'.item q).id) ≡ (λ q. (h.item q).id) =
      fun_ext {f = λ q. (h'.item q).id} {g = λ q. (h.item q).id} (λ q. elim (Bool-cases (q == p)) [
        | inl e ↦ let s : q ≡ p = ground arith in rw s m.ident
        | inr e ↦ ap (λ r. r.id) (m.others q (ground arith))
      ]) in
    rw (m.sent, m.all, ids) refl

-- A handler keeps every tally.
abbrev KeepsTally : Handler → ReqState → Type 0
KeepsTally op s =
    (h : Helper) (p : ℕ)
    → Inv h
    → 0 < count p (stage h s)
    → (n : ℕ) → tally n (op h p).0 ≡ tally n h

module _ (a : Answers) where
  alloc-tally : KeepsTally (kh_request_alloc_mem a) init
  alloc-tally h p v l n = elim (alloc_cases a h p) [
    | inl (_, m) ↦ Moved-tally n m
    | inr (_, e) ↦ rw e refl
  ]

  launch-tally : KeepsTally (kh_launch_exec a) prepared
  launch-tally h p v l n = elim (launch_cases a h p) [
    | inl m ↦ Moved-tally n m
    | inr m ↦ Moved-tally n m
  ]

  post-tally : KeepsTally (kh_post_exec a) running
  post-tally h p v l n = elim (post_cases a h p) [
    | inl (_, inl m) ↦ Moved-tally n m
    | inl (_, inr m) ↦ Moved-tally n m
    | inr (_, e) ↦ rw e refl
  ]

  finish-tally : KeepsTally (kh_finish_post a) post_exec
  finish-tally h p v l n = elim (finish_cases a h p) [
    | inl (_, m) ↦ Moved-tally n m
    | inr (_, e) ↦ rw e refl
  ]

  taken-tally : (h : Helper) (p i n : ℕ) → tally n (taken h p i) ≡ tally n h
  taken-tally h p i n =
      let ids : (λ q. ((taken h p i).item q).id) ≡ (λ q. (h.item q).id) =
        fun_ext {f = λ q. ((taken h p i).item q).id} {g = λ q. (h.item q).id} (λ q. ground arith) in
      rw ids refl

  prepare-tally : KeepsTally (kh_prepare_exec a) mem_done
  unfolding kh_prepare_exec
  prepare-tally h p v l n = elim (alloc_stream_cases h.streamuses) [
    | inl (e, _) ↦ rw (e, kh_prepare_exec) refl
    | inr (i, e, _, _, _) ↦
        rw (e, kh_prepare_exec)
          (elim (prepare_cases a (taken h p i) p) [
            | inl m ↦ Moved-tally n m ∙ taken-tally h p i n
            | inr m ↦ Moved-tally n m ∙ taken-tally h p i n
          ])
  ]

done-tally : KeepsTally kh_service_done finished
unfolding kh_service_done list_del count
done-tally h p v l n =
    omega (arith, map-erase (λ q. (h.item q).id) n p h.all_reqs (stage-Lives h p finished v l))

process-tally :
    (op : Handler) (once : Bool) (s : ReqState)
    → Serves op s
    → KeepsTally op s
    → (l : List ℕ) (h : Helper) → Inv h
    → ((q : ℕ) → count q l ≤ count q (stage h s))
    → (n : ℕ) → tally n (process_request op once l h) ≡ tally n h
unfolding process_request count
process-tally op once s serves keeps [] h v sub n = refl
process-tally op once s serves keeps (p ∷ l) h v sub n =
    let here : 0 < count p (stage h s) = ground (arith, sub p, ==_refl p) in
    let k = serves h p v here in
    let ih =
      process-tally op once s serves keeps l (op h p).0 k.inv (rest_le h (op h p).0 p s l v k sub)
        n in
    elim (Bool-cases (((op h p).1 == 0) && once)) [
      | inl e ↦ rw e (keeps h p v here n)
      | inr e ↦ rw e (ih ∙ keeps h p v here n)
    ]

pub passes-tally : (a : Answers) (h : Helper) → Inv h → (n : ℕ) → tally n (passes a h) ≡ tally n h
unfolding kh_round
passes-tally a h v n =
    let v₁ =
      process-Inv kh_service_done false finished done-Keeps h.done_reqs h v (λ q. le_refl _) in
    let v₂ =
      process-Inv (kh_finish_post a) false post_exec (finish-Keeps a) _ _ v₁ (λ q. le_refl _) in
    let v₃ = process-Inv (kh_post_exec a) true running (post-Keeps a) _ _ v₂ (λ q. le_refl _) in
    let v₄ =
      process-Inv (kh_launch_exec a) true prepared (launch-Keeps a) _ _ v₃ (λ q. le_refl _) in
    let v₅ =
      process-Inv (kh_prepare_exec a) true mem_done (λ h p w l. prepare-Keeps a w l) _ _ v₄
        (λ q. le_refl _) in
    process-tally (kh_request_alloc_mem a) false init (alloc-Keeps a) (alloc-tally a) _ _ v₅
      (λ q. le_refl _) n
    ∙ process-tally (kh_prepare_exec a) true mem_done (λ h p w l. prepare-Keeps a w l)
        (prepare-tally a) _ _ v₄ (λ q. le_refl _) n
    ∙ process-tally (kh_launch_exec a) true prepared (launch-Keeps a) (launch-tally a) _ _ v₃
        (λ q. le_refl _) n
    ∙ process-tally (kh_post_exec a) true running (post-Keeps a) (post-tally a) _ _ v₂
        (λ q. le_refl _) n
    ∙ process-tally (kh_finish_post a) false post_exec (finish-Keeps a) (finish-tally a) _ _ v₁
        (λ q. le_refl _) n
    ∙ process-tally kh_service_done false finished done-Keeps done-tally _ _ v (λ q. le_refl _) n

pub new_responses :
    (h : Helper) (p : ℕ) (kureq : KuRequest) → (new h p kureq).responses ≡ h.responses
unfolding kh_init_service_request kh_fail_request list_del
new_responses h p kureq = ground arith

pub new_reqs :
    (h : Helper) (p : ℕ) (kureq : KuRequest) → (new h p kureq).all_reqs ≡ h.all_reqs ++ p ∷ []
unfolding kh_init_service_request kh_fail_request list_del
new_reqs h p kureq = ground arith

pub new_id : (h : Helper) (p : ℕ) (kureq : KuRequest) → ((new h p kureq).item p).id ≡ kureq.id
unfolding kh_init_service_request kh_fail_request list_del
new_id h p kureq = ground arith

pub new-tally :
    (h : Helper) (p : ℕ) (kureq : KuRequest)
    → ¬ Lives h p
    → (n : ℕ) → tally n (new h p kureq) ≡ tally n h + (if n == kureq.id then 1 else 0)
new-tally h p kureq free n =
    let f : ℕ → ℕ = λ q. ((new h p kureq).item q).id in
    let old : map f h.all_reqs ≡ live_ids h =
      map_eq f (λ q. (h.item q).id) p h.all_reqs (omega (arith, free))
        (λ q d. ap (λ r. r.id) (new_others h p kureq q d)) in
    rw (new_responses h p kureq, new_reqs h p kureq)
      (omega (
        arith,
        map-push f n p h.all_reqs,
        ap (count n) old,
        ap {B = ℕ} (λ (i : ℕ). if n == i then 1 else 0) (new_id h p kureq),
      ))
