-- ===== src/System/Delivery.antt =====
-- The responses of the helper (kgpu/src/userSpace/helper.c) as the driver's kgpu_write
-- (kgpu/src/kernelSpace/main.c) takes them.
use kgpu_fga.Base.{
  ℕ, ◌+◌, ◌≤◌, ◌<◌, ◌≡◌, refl, ap, ◌∙◌, sym, arith, ◌==◌, if◌then◌else◌, List, [], ◌∷◌, ◌++◌, inl,
  inr, some, map, ==_refl,
}
use kgpu_fga.Kernel.Requests.{KgpuRequest, KgpuDev, client}
use kgpu_fga.Kernel.Requests.Queue.{Absent, Found, find_request_cases, answered, write_client}
use kgpu_fga.Helper.Lists.{count}
use kgpu_fga.System.{safe_syscall, kh_send_response, send_responses}

-- Every request has a callback of its client.
abbrev pub AllClient : (ℕ → KgpuRequest) → Type 0
AllClient request = (r : ℕ) → (f : ℕ) × ((request r).callback ≡ client f)

-- The requests have the ids and the callbacks of `request`.
pub record Same (request : ℕ → KgpuRequest) (d : KgpuDev) : Type 0 where
  pub id : (r : ℕ) → (d.request r).id ≡ (request r).id
  pub callback : (r : ℕ) → (d.request r).callback ≡ (request r).callback

-- How often an id stands among requests.
abbrev pub id_count : (ℕ → KgpuRequest) → ℕ → List ℕ → ℕ
id_count request n l = count n (map (λ r. (request r).id) l)

-- How often the callback of a request with the id has been called.
abbrev pub calls : (ℕ → KgpuRequest) → ℕ → KgpuDev → ℕ
calls request n d = id_count request n (map (λ c. c.1) d.called)

map-append :
    (f : ℕ → ℕ) (n : ℕ) (xs ys : List ℕ)
    → count n (map f (xs ++ ys)) ≡ count n (map f xs) + count n (map f ys)
unfolding count
map-append f n [] ys = omega arith
map-append f n (x ∷ xs) ys = omega (arith, map-append f n xs ys)

module _ (request : ℕ → KgpuRequest) where
  pub id_count-append :
      (n : ℕ) (xs ys : List ℕ)
      → id_count request n (xs ++ ys) ≡ id_count request n xs + id_count request n ys
  id_count-append n xs ys = map-append (λ r. (request r).id) n xs ys

  pub id_count-one :
      (n r : ℕ) → id_count request n (r ∷ []) ≡ (if n == (request r).id then 1 else 0)
  unfolding count
  id_count-one n r = omega arith

  -- The driver after the responses with the ids of a list.
  pub record Sent (d d' : KgpuDev) (ids : List ℕ) : Type 0 where
    pub same : Same request d'
    pub waiting : d'.reqs ≡ d.reqs
    pub state : d'.state ≡ d.state
    pub read : (n : ℕ) → id_count request n d'.rtdreqs + count n ids ≡ id_count request n d.rtdreqs
    pub called : (n : ℕ) → calls request n d' ≡ calls request n d + count n ids

  Absent-none :
      (d : KgpuDev) (n : ℕ) (l : List ℕ)
      → Same request d
      → Absent d.request n l
      → id_count request n l ≡ 0
  unfolding count
  Absent-none d n [] v a = refl
  Absent-none d n (x ∷ l) v a = ground (arith, v.id x, a.0, Absent-none d n l v a.1)

  module _ (clients : AllClient request) (d : KgpuDev) (id errcode : ℕ) (v : Same request d) where
    delivers :
        (r : ℕ) (rest : List ℕ) (g : Found d.request id d.rtdreqs r rest) (f : ℕ)
        → Sent d (answered d (g.before ++ g.behind) r f 8 errcode) (id ∷ [])
    unfolding count
    delivers r rest g f =
        let hit : (request r).id ≡ id = sym (v.id r) ∙ g.hit in
        record {
          same = record {
            id = λ q. ground (arith, v.id q);
            callback = λ q. ground (arith, v.callback q);
          };
          waiting = refl;
          state = refl;
          read = λ n. omega (
            arith,
            ap (id_count request n) g.split,
            id_count-append n g.before g.behind,
            id_count-append n g.before (r ∷ g.behind),
            ap {B = ℕ} (λ (i : ℕ). if n == i then 1 else 0) hit,
          );
          called = λ n. omega (arith, ap {B = ℕ} (λ (i : ℕ). if n == i then 1 else 0) hit);
        }

    -- A response to a request that the helper has read is taken.
    pub send_one :
        0 < id_count request id d.rtdreqs
        → (d' : KgpuDev) × (kh_send_response d (id, errcode) ≡ some d') × Sent d d' (id ∷ [])
    unfolding kh_send_response safe_syscall
    send_one here = elim (find_request_cases d.request id d.rtdreqs) [
      | inl (_, a) ↦ absurd (omega (arith, here, Absent-none d id d.rtdreqs v a))
      | inr (r, rest, _, g) ↦
          let (f, cb) = clients r in
          (
            answered d (g.before ++ g.behind) r f 8 errcode,
            rw
                (
                  write_client d 8 id errcode g.before g.behind r f (omega arith) g.split g.first
                      g.hit (v.callback r ∙ cb),
                  kh_send_response,
                )
                refl,
            delivers r rest g f,
          )
    ]

  Sent-trans :
      (d e f : KgpuDev) (id : ℕ) (ids : List ℕ)
      → Sent d e ids
      → Sent e f (id ∷ [])
      → Sent d f (id ∷ ids)
  unfolding count
  Sent-trans d e f id ids s t = record {
    same = t.same;
    waiting = t.waiting ∙ s.waiting;
    state = t.state ∙ s.state;
    read = λ n. omega (arith, s.read n, t.read n);
    called = λ n. omega (arith, s.called n, t.called n);
  }

  -- Responses of which no id comes more often than among the requests that the helper has read are
  -- all taken.
  pub send_all :
      AllClient request
      → (d : KgpuDev) (resps : List (ℕ × ℕ)) → Same request d
      → ((n : ℕ) → count n (map (λ r. r.0) resps) ≤ id_count request n d.rtdreqs)
      → (d' : KgpuDev) × (send_responses d resps ≡ some d') × Sent d d' (map (λ r. r.0) resps)
  unfolding send_responses count
  send_all clients d [] v enough = (
    d,
    refl,
    record {
      same = v;
      waiting = refl;
      state = refl;
      read = λ n. omega arith;
      called = λ n. omega arith;
    },
  )
  send_all clients d ((id, errcode) ∷ earlier) v enough =
      let (e, eq, s) = send_all clients d earlier v (λ n. omega (arith, enough n)) in
      let here : 0 < id_count request id e.rtdreqs =
        ground (arith, s.read id, enough id, ==_refl id) in
      let (f, eq', t) = send_one clients e id errcode s.same here in
      (f, rw (send_responses, eq) eq', Sent-trans d e f id _ s t)
