-- ===== src/System/Matched.antt =====
-- The requests that the driver (kgpu/src/kernelSpace/main.c) has handed to the helper
-- (kgpu/src/userSpace/helper.c) are the live ones of the helper: what a client's call, the passes and the
-- end of a round do to that.
use kgpu_fga.Base.{
  ℕ, ◌+◌, ◌≡◌, ◌≢◌, refl, ap, ◌∙◌, sym, arith, ◌==◌, if◌then◌else◌, [], ◌∷◌, ◌++◌, some, map, Bool,
  true, false,
}
use kgpu_fga.Config.{kgpu_terminated}
use kgpu_fga.Kernel.Requests.{KgpuRequest, KgpuDev, kgpu_call_async, fill_ku_request}
use kgpu_fga.Helper.{
  Helper, ReqState, fresh, init, mem_done, prepared, running, post_exec, finished, Answers,
  kh_init_service_request,
}
use kgpu_fga.Helper.Lists.{count}
use kgpu_fga.Helper.Invariant.{Inv, Lives, stage}
use kgpu_fga.Helper.Rounds.{passes, passes-Inv, new-Inv}
use kgpu_fga.Helper.Tally.{live_ids, tally, passes-tally, new-tally, new_responses}
use kgpu_fga.System.{
  Wiring, System, ku_request, serve, listen, Action, submits, serves, listens, act,
}
use kgpu_fga.System.Delivery.{
  AllClient, Same, id_count, id_count-append, id_count-one, calls, send_all,
}
use kgpu_fga.System.Listen.{Heard, blocked, passed, took, listen_cases}

-- malloc gives an address that no live item has.
abbrev pub MallocIsFresh : Wiring → Type 0
MallocIsFresh w = (h : Helper) → w.malloc h ≢ 0 → ¬ Lives h (w.malloc h)

-- The driver runs, the helper's invariant holds, and of each id the helper has as many live requests as
-- it has read and not answered.
pub record IsMatched (request : ℕ → KgpuRequest) (s : System) : Type 0 where
  pub same : Same request s.dev
  pub inv : Inv s.helper
  pub matched : (n : ℕ) → count n (live_ids s.helper) ≡ id_count request n s.dev.rtdreqs
  pub running : s.dev.state ≢ kgpu_terminated

-- How often requests with an id wait for the helper, are with it, or have been answered.
abbrev pub places : (ℕ → KgpuRequest) → ℕ → KgpuDev → ℕ
places request n d = id_count request n d.reqs + id_count request n d.rtdreqs + calls request n d

reset_stage : (h : Helper) (s : ReqState) → stage (record h { responses = [] }) s ≡ stage h s
reset_stage h fresh = refl
reset_stage h init = refl
reset_stage h mem_done = refl
reset_stage h prepared = refl
reset_stage h running = refl
reset_stage h post_exec = refl
reset_stage h finished = refl

pub reset-Inv : (h : Helper) → Inv h → Inv (record h { responses = [] })
reset-Inv h v = record {
  core = record {
    single = v.single;
    placed = λ p s. rw (reset_stage h s) (v.placed p s);
    held = v.held;
    alone = v.alone;
    owned = v.owned;
  };
  idle = v.idle;
}

-- How many requests with an id an action submits.
unfoldable pub submitted : (ℕ → KgpuRequest) → Action → ℕ → ℕ
submitted request (submits req true) n = if n == (request req).id then 1 else 0
submitted request (submits req false) n = 0
submitted request (serves a) n = 0
submitted request listens n = 0

-- An action that does not fault or abort, and adds `k n` requests with the id `n`.
abbrev pub Goes : (ℕ → KgpuRequest) → Wiring → System → Action → (ℕ → ℕ) → Type 0
Goes request w s x k =
    (s' : System) × (act w s x ≡ some s')
    × IsMatched request s'
    × ((n : ℕ) → places request n s'.dev ≡ places request n s.dev + k n)

module _ (request : ℕ → KgpuRequest) (clients : AllClient request) where
  module _ (w : Wiring) (s : System) (v : IsMatched request s) where
    pub submit-Goes :
        (req : ℕ) (ok : Bool)
        → Goes request w s (submits req ok) (submitted request (submits req ok))
    unfolding act kgpu_call_async count submitted
    submit-Goes req true =
        let go : (s.dev.state == kgpu_terminated) ≡ false = ground (arith, v.running) in
        (
          record s {
            dev = record s.dev { items = s.dev.items + 1; reqs = s.dev.reqs ++ req ∷ [] };
          },
          rw (act, go) refl,
          record {
            same = record { id = v.same.id; callback = v.same.callback };
            inv = v.inv;
            matched = v.matched;
            running = v.running;
          },
          λ n. omega (arith, id_count-append request n s.dev.reqs (req ∷ [])),
        )
    submit-Goes req false =
        let go : (s.dev.state == kgpu_terminated) ≡ false = ground (arith, v.running) in
        (s, rw (act, go) refl, v, λ n. omega arith)

    pub serve_all :
        (a : Answers)
        → (s' : System) × (serve a s ≡ some s')
          × IsMatched request s'
          × ((n : ℕ) → places request n s'.dev ≡ places request n s.dev)
          × (s'.helper ≡ passes a (record s.helper { responses = [] }))
          × (s'.dev.reqs ≡ s.dev.reqs)
          × (s'.listening ≡ true)
    unfolding serve count
    serve_all a =
        let h : Helper = record s.helper { responses = [] } in
        let vh = reset-Inv s.helper v.inv in
        let t : (n : ℕ) → tally n (passes a h) ≡ id_count request n s.dev.rtdreqs =
          λ n. omega (arith, passes-tally a h vh n, v.matched n) in
        let (d, e, sent) =
          send_all request clients s.dev (passes a h).responses v.same (λ n. omega (arith, t n)) in
        (
          record { dev = d; helper = passes a h; listening = true },
          rw (serve, e) refl,
          record {
            same = sent.same;
            inv = passes-Inv a h vh;
            matched = λ n. omega (arith, t n, sent.read n);
            running = λ e. v.running (sym sent.state ∙ e);
          },
          λ n. omega (arith, sent.read n, sent.called n, ap (id_count request n) sent.waiting),
          refl,
          sent.waiting,
          refl,
        )

    took_live :
        (r n : ℕ)
        → ¬ Lives s.helper (w.malloc s.helper)
        → count n (
            live_ids (
              kh_init_service_request s.helper
                (w.malloc s.helper)
                (ku_request w (fill_ku_request w.uva w.kva w.npages (s.dev.request r)))))
          ≡ count n (live_ids s.helper) + (if n == (request r).id then 1 else 0)
    unfolding ku_request fill_ku_request
    took_live r n free =
        let kureq = ku_request w (fill_ku_request w.uva w.kva w.npages (s.dev.request r)) in
        omega (
          arith,
          new-tally s.helper (w.malloc s.helper) kureq free n,
          ap (λ l. count n (map (λ r. r.0) l)) (new_responses s.helper (w.malloc s.helper) kureq),
          ap {B = ℕ} (λ (i : ℕ). if n == i then 1 else 0) (v.same.id r),
        )

    heard_lem :
        MallocIsFresh w
        → (s' : System) → Heard w s s'
        → IsMatched request s' × ((n : ℕ) → places request n s'.dev ≡ places request n s.dev)
    unfolding count
    heard_lem fresh_items s' (blocked _ _ e) = rw e (v, λ n. refl)
    heard_lem fresh_items s' (passed _ e) =
        rw e (
          record { same = v.same; inv = v.inv; matched = v.matched; running = v.running },
          λ n. refl,
        )
    heard_lem fresh_items s' (took r rest e f g) =
        let kureq = ku_request w (fill_ku_request w.uva w.kva w.npages (s.dev.request r)) in
        let free = fresh_items s.helper f in
        rw g (
          record {
            same = record { id = v.same.id; callback = v.same.callback };
            inv = new-Inv s.helper (w.malloc s.helper) kureq v.inv free;
            matched = λ n. omega (
              arith,
              took_live r n free,
              v.matched n,
              id_count-append request n s.dev.rtdreqs (r ∷ []),
              id_count-one request n r,
            );
            running = v.running;
          },
          λ n. omega (
            arith,
            ap (id_count request n) e,
            id_count-append request n s.dev.rtdreqs (r ∷ []),
            id_count-one request n r,
          ),
        )

    pub listen_all :
        MallocIsFresh w
        → (s' : System) × (listen w s ≡ some s')
          × Heard w s s'
          × IsMatched request s'
          × ((n : ℕ) → places request n s'.dev ≡ places request n s.dev)
    listen_all fresh_items =
        let (s', e, heard) = listen_cases w s in
        let (m, p) = heard_lem fresh_items s' heard in (s', e, heard, m, p)

    pub act_serves : (a : Answers) → s.listening ≡ false → act w s (serves a) ≡ serve a s
    unfolding act
    act_serves a e = ap (λ b. if b then some s else serve a s) e

    pub act_listens : s.listening ≡ true → act w s listens ≡ listen w s
    unfolding act
    act_listens e = ap (λ b. if b then listen w s else some s) e
