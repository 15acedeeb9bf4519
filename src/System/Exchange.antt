-- ===== src/System/Exchange.antt =====
-- The clients, the driver (kgpu/src/kernelSpace/main.c) and the helper (kgpu/src/userSpace/helper.c)
-- exchange requests and responses: where a request is.
use kgpu_fga.Base.{
  ℕ, ◌+◌, ◌≡◌, refl, ap, ◌∙◌, arith, if◌then◌else◌, List, [], ◌∷◌, inl, inr, some, Bool-cases,
}
use kgpu_fga.Kernel.Requests.{KgpuRequest}
use kgpu_fga.System.{Wiring, System, serve, listen, Action, submits, serves, listens, act, act_all}
use kgpu_fga.System.Delivery.{AllClient}
use kgpu_fga.System.Matched.{
  MallocIsFresh, IsMatched, places, submitted, Goes, submit-Goes, serve_all, listen_all, act_serves,
  act_listens,
}

-- How many requests with an id a list of actions submits.
unfoldable pub all_submitted : (ℕ → KgpuRequest) → List Action → ℕ → ℕ
all_submitted request [] n = 0
all_submitted request (x ∷ xs) n = submitted request x n + all_submitted request xs n

module _ (request : ℕ → KgpuRequest) (clients : AllClient request) where
  module _ (w : Wiring) (s : System) (v : IsMatched request s) where
    act-Goes : MallocIsFresh w → (x : Action) → Goes request w s x (submitted request x)
    unfolding submitted act
    act-Goes fresh_items (submits req ok) = submit-Goes request clients w s v req ok
    act-Goes fresh_items (serves a) = elim (Bool-cases s.listening) [
      | inl e ↦ (s, ap (λ b. if b then some s else serve a s) e, v, λ n. omega arith)
      | inr e ↦
          let (s', f, m, p, _, _, _) = serve_all request clients w s v a in
          (s', act_serves request clients w s v a e ∙ f, m, λ n. omega (arith, p n))
    ]
    act-Goes fresh_items listens = elim (Bool-cases s.listening) [
      | inl e ↦
          let (s', f, _, m, p) = listen_all request clients w s v fresh_items in
          (s', act_listens request clients w s v e ∙ f, m, λ n. omega (arith, p n))
      | inr e ↦ (s, ap (λ b. if b then listen w s else some s) e, v, λ n. omega arith)
    ]

  -- If every request has a callback of its client, and malloc gives addresses that no live item
  -- has, then from a matched state, in which the driver runs, the helper's invariant holds and of
  -- each id the helper has as many live requests as it has read and not answered, any list of calls
  -- of kgpu_call_async, passes over the helper's lists and polls with their reads, in any order and
  -- whatever the services and the GPU answer, neither faults nor aborts: no response is refused. It
  -- ends in a matched state, and the requests with an id that are queued, read or answered by a
  -- call of their callback are together those at the start and those submitted.
  pub exchange :
      (w : Wiring)
      → MallocIsFresh w
      → (xs : List Action) (s : System) → IsMatched request s
      → (s' : System) × (act_all w s xs ≡ some s')
        × IsMatched request s'
        × ((n : ℕ) → places request n s'.dev ≡ places request n s.dev + all_submitted request xs n)
  unfolding act_all all_submitted
  exchange w fresh_items [] s v = (s, refl, v, λ n. omega arith)
  exchange w fresh_items (x ∷ xs) s v =
      let (s', e, m, p) = act-Goes w s v fresh_items x in
      let (s'', e', m', p') = exchange w fresh_items xs s' m in
      (s'', rw (act_all, e) e', m', λ n. omega (arith, p n, p' n))
