-- ===== src/System/Progress.antt =====
-- Rounds of the helper (kgpu/src/userSpace/helper.c) on the queues of the driver
-- (kgpu/src/kernelSpace/main.c) in which the device grants memory, the GPU has finished what it is asked
-- about, and malloc does not fail.
use kgpu_fga.Base.{
  ℕ, ◌+◌, ◌*◌, ◌≤◌, ◌≡◌, ◌≢◌, refl, ap, ◌∙◌, arith, if◌then◌else◌, List, [], ◌∷◌, inl, inr, some,
  map, Bool-cases, true, false, ◌⊎◌, All, length,
}
use kgpu_fga.Kernel.Requests.{KgpuRequest, fill_ku_request}
use kgpu_fga.Helper.{Helper, Answers}
use kgpu_fga.Helper.Lists.{count}
use kgpu_fga.Helper.Work.{work}
use kgpu_fga.Helper.Progress.{IsWilling, passes-work}
use kgpu_fga.Helper.Answered.{no_work}
use kgpu_fga.System.{Wiring, ku_request, System, serve, Action, serves, listens, act, act_all}
use kgpu_fga.System.Listen.{Heard, blocked, passed, took}
use kgpu_fga.System.Delivery.{AllClient, id_count, calls}
use kgpu_fga.System.Matched.{
  IsMatched, MallocIsFresh, places, serve_all, listen_all, act_serves, act_listens, reset-Inv,
}
use kgpu_fga.System.Measure.{
  new-work, none_counted, map-none, measure, IsIdle, idle-work, length-none,
}

two_steps :
    (w : Wiring) (s s₁ s' : System) (x y : Action)
    → act w s x ≡ some s₁
    → act w s₁ y ≡ some s'
    → (xs : List Action) → act_all w s (x ∷ y ∷ xs) ≡ act_all w s' xs
unfolding act_all
two_steps w s s₁ s' x y e f xs = rw (act_all, e, act_all, f) refl

-- Rounds of the helper.
abbrev pub rounds : List Answers → List Action
rounds [] = []
rounds (a ∷ answers) = serves a ∷ listens ∷ rounds answers

-- malloc does not return NULL.
abbrev pub MallocNeverNull : Wiring → Type 0
MallocNeverNull w = (h : Helper) → w.malloc h ≢ 0

-- The helper is at the start of a round, or nothing is queued or live.
abbrev IsReady : System → Type 0
IsReady s = (s.listening ≡ false) ⊎ IsIdle s

module _ (request : ℕ → KgpuRequest) (clients : AllClient request) (w : Wiring)
    (fresh_items : MallocIsFresh w) (never_null : MallocNeverNull w) where
  -- The state after a round: nearer to the end, or at it.
  record Round (s s' : System) : Type 0 where
    matched : IsMatched request s'
    kept : (n : ℕ) → places request n s'.dev ≡ places request n s.dev
    ready : IsReady s'
    less : (measure s' + 1 ≤ measure s) ⊎ (measure s' ≡ 0)

  module _ (s s₁ s' : System) (queue : s₁.dev.reqs ≡ s.dev.reqs)
      (fewer : (work s₁.helper + 1 ≤ work s.helper) ⊎ (work s₁.helper ≡ 0)) where
    -- The measure does not change after the passes.
    same_less :
        s₁.dev.reqs ≡ [] → measure s' ≡ measure s₁ → (measure s' + 1 ≤ measure s) ⊎ (measure s' ≡ 0)
    same_less e f = elim fewer [
      | inl l ↦ inl (omega (arith, l, f, ap length e))
      | inr z ↦ inr (omega (arith, z, f, ap length e))
    ]

    took_less :
        (r : ℕ) (rest : List ℕ)
        → s₁.dev.reqs ≡ r ∷ rest
        → measure s' ≤ 7 * length rest + work s₁.helper + 6
        → (measure s' + 1 ≤ measure s) ⊎ (measure s' ≡ 0)
    took_less r rest e f = inl (elim fewer [
      | inl l ↦ omega (arith, l, f, ap length e, ap length queue)
      | inr z ↦ omega (arith, z, f, ap length e, ap length queue)
    ])

    next_progress : Heard w s₁ s' → IsReady s' × ((measure s' + 1 ≤ measure s) ⊎ (measure s' ≡ 0))
    next_progress (blocked e f g) =
        (rw g (inr (e, f)), same_less e (ap (λ (s : System). measure s) g))
    next_progress (passed (inl e) g) =
        (rw g (inl refl), same_less e (ap (λ (s : System). measure s) g))
    next_progress (passed (inr z) g) = absurd (never_null s₁.helper z)
    next_progress (took r rest e f g) = (
      rw g (inl refl),
      took_less r rest e (
          rw g (
            omega (
              arith,
              new-work s₁.helper (w.malloc s₁.helper)
                  (ku_request w (fill_ku_request w.uva w.kva w.npages (s₁.dev.request r))),
            ))),
    )

  module _ (s : System) (v : IsMatched request s) (a : Answers) (ok : IsWilling a) where
    -- A round of the helper.
    abbrev Rounded : Type 0
    Rounded =
        (s' : System) × ((xs : List Action)
          → act_all w s (serves a ∷ listens ∷ xs) ≡ act_all w s' xs)
        × Round s s'

    starting : s.listening ≡ false → Rounded
    starting start =
        let (s₁, e₁, v₁, p₁, h₁, q₁, l₁) = serve_all request clients w s v a in
        let (s', e', heard, v', p') = listen_all request clients w s₁ v₁ fresh_items in
        let fewer : (work s₁.helper + 1 ≤ work s.helper) ⊎ (work s₁.helper ≡ 0) =
          rw h₁
            (passes-work a ok (record s.helper { responses = [] }) (reset-Inv s.helper v.inv)) in
        let (ready, less) = next_progress s s₁ s' q₁ fewer heard in
        (
          s',
          two_steps w s s₁ s' (serves a) listens (act_serves request clients w s v a start ∙ e₁)
              (act_listens request clients w s₁ v₁ l₁ ∙ e'),
          record { matched = v'; kept = λ n. p' n ∙ p₁ n; ready = ready; less = less },
        )

    act_waiting : s.listening ≡ true → act w s (serves a) ≡ some s
    unfolding act
    act_waiting l = ap (λ b. if b then some s else serve a s) l

    -- The helper still waits in poll.
    waiting : s.listening ≡ true → IsIdle s → Rounded
    waiting l (none_queued, none_live) =
        let (s', e', heard, v', p') = listen_all request clients w s v fresh_items in
        (
          s',
          two_steps w s s s' (serves a) listens (act_waiting l)
              (act_listens request clients w s v l ∙ e'),
          record {
            matched = v';
            kept = p';
            ready = (next_progress s s s' refl (inr (idle-work s.helper v.inv none_live)) heard).0;
            less = (next_progress s s s' refl (inr (idle-work s.helper v.inv none_live)) heard).1;
          },
        )

    round : IsReady s → Rounded
    round ready = elim (Bool-cases s.listening) [
      | inr start ↦ starting start
      | inl l ↦ elim ready [ inl start ↦ cc | inr idle ↦ waiting l idle ]
    ]

  end-IsIdle : (s : System) → IsMatched request s → measure s ≡ 0 → IsIdle s × (s.dev.rtdreqs ≡ [])
  unfolding count
  end-IsIdle s v z =
      let none_live = no_work s.helper v.inv (omega (arith, z)) s.helper.all_reqs refl in
      let none_read : (n : ℕ) → id_count request n s.dev.rtdreqs ≡ 0 = λ n.
        omega
          (arith, v.matched n, ap (λ l. count n (map (λ p. (s.helper.item p).id) l)) none_live) in
      (
        (length-none s.dev.reqs (omega (arith, z)), none_live),
        map-none (λ r. (request r).id) s.dev.rtdreqs (none_counted _ none_read),
      )

  -- If malloc does not fail and gives addresses that no live item has, every request has a callback
  -- of its client, the memory calls succeed and the GPU has always finished, then from a matched
  -- state at the start of a round, or with nothing queued or live, rounds of the helper on the
  -- driver, as many as 7 for each queued request and the work that remains for the live ones,
  -- neither fault nor abort and answer everything: no request is queued, read or live afterwards,
  -- and the callbacks of requests with an id have been called once for each request with this id
  -- that was queued or read, besides the calls before.
  pub queue_drains :
      (answers : List Answers) (s : System)
      → IsMatched request s
      → (s.listening ≡ false) ⊎ IsIdle s
      → All IsWilling answers
      → measure s ≤ length answers
      → (s' : System) × (act_all w s (rounds answers) ≡ some s')
        × IsIdle s'
        × (s'.dev.rtdreqs ≡ [])
        × ((n : ℕ) → calls request n s'.dev ≡ places request n s.dev)
  unfolding act_all count
  queue_drains [] s v ready ok enough =
      let (idle, none_read) = end-IsIdle s v (omega (arith, enough)) in
      (
        s,
        refl,
        idle,
        none_read,
        λ n. omega (arith, ap (id_count request n) idle.0, ap (id_count request n) none_read),
      )
  queue_drains (a ∷ answers) s v ready ok enough =
      let (s₁, e, r) = round s v a ok.0 ready in
      let less : measure s₁ ≤ length answers = elim r.less [
        | inl l ↦ omega (arith, l, enough)
        | inr z ↦ omega (arith, z)
      ] in
      let (s', e', idle, none_read, called) = queue_drains answers s₁ r.matched r.ready ok.1 less in
      (s', e (rounds answers) ∙ e', idle, none_read, λ n. called n ∙ r.kept n)
