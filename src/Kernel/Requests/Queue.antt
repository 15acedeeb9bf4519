-- ===== src/Kernel/Requests/Queue.antt =====
-- The queues of kgpu/src/kernelSpace/main.c: what kgpu_call_async, kgpu_read and kgpu_write do to
-- them, and find_request.
use kgpu_fga.Base.{
  ℕ, if◌then◌else◌, zero, suc, ◌+◌, ◌-◌, ◌≤◌, ◌<◌, ◌≡◌, ◌≢◌, refl, ◌⊎◌, inl, inr, true, arith, ◌==◌,
  ltb, Bool-cases, update, ge→ltb, ==_refl, List, [], ◌∷◌, ◌++◌, append_assoc, append-nil, none,
  some, length, All, ap, ◌∙◌, sym,
}
use kgpu_fga.Config.{nat, neg, efault, einval}
use kgpu_fga.Kernel.Requests.{
  KgpuRequest, KgpuDev, SyncCallData, null, client, sync_callback, find_request, kgpu_read,
  kgpu_write, invoke,
}

-- No request of the list has the id.
abbrev pub Absent : (ℕ → KgpuRequest) → ℕ → List ℕ → Type 0
Absent request id = All (λ r. (request r).id ≢ id)

-- `r` is the first request of `l` with the id, and `rest` the others.
pub record Found (request : ℕ → KgpuRequest) (id : ℕ) (l : List ℕ) (r : ℕ) (rest : List ℕ)
    : Type 0 where
  pub before : List ℕ
  pub behind : List ℕ
  pub split : l ≡ before ++ r ∷ behind
  pub others : rest ≡ before ++ behind
  pub first : Absent request id before
  pub hit : (request r).id ≡ id

module _ (request : ℕ → KgpuRequest) (id : ℕ) where
  Found-cons :
      (pos r : ℕ) (n rest : List ℕ)
      → (request pos).id ≢ id
      → Found request id n r rest
      → Found request id (pos ∷ n) r (pos ∷ rest)
  Found-cons pos r n rest miss f = record {
    before = pos ∷ f.before;
    behind = f.behind;
    split = ap (◌∷◌ pos) f.split;
    others = ap (◌∷◌ pos) f.others;
    first = (miss, f.first);
    hit = f.hit;
  }

  -- find_request returns none exactly if no request of the queue has the id, and otherwise the
  -- first one that has it and the queue without it.
  pub find_request_cases :
      (l : List ℕ)
      → ((find_request request id l ≡ none) × Absent request id l)
        ⊎ ((r : ℕ) × (rest : List ℕ) × (find_request request id l ≡ some (r, rest))
            × Found request id l r rest)
  unfolding find_request
  find_request_cases [] = inl (refl, tt)
  find_request_cases (pos ∷ n) = elim (Bool-cases ((request pos).id == id)) [
    | inl e ↦ inr (
      pos,
      n,
      rw e refl,
      record {
        before = [];
        behind = n;
        split = refl;
        others = refl;
        first = tt;
        hit = ground arith;
      },
    )
    | inr e ↦ elim (find_request_cases n) [
      | inl (f, a) ↦ inl (rw (e, f, find_request) refl, (ground arith, a))
      | inr (r, rest, f, g) ↦
          inr (r, pos ∷ rest, rw (e, f) refl, Found-cons pos r n rest (ground arith) g)
    ]
  ]

  pub find_request-hit :
      (xs ys : List ℕ) (r : ℕ)
      → Absent request id xs
      → (request r).id ≡ id
      → find_request request id (xs ++ r ∷ ys) ≡ some (r, xs ++ ys)
  unfolding find_request
  find_request-hit [] ys r a e = ground arith
  find_request-hit (x ∷ xs) ys r a e = ground (arith, find_request-hit xs ys r a.1 e)

  pub find_request-Absent : (l : List ℕ) → Absent request id l → find_request request id l ≡ none
  unfolding find_request
  find_request-Absent [] a = refl
  find_request-Absent (x ∷ l) a = ground (arith, find_request-Absent l a.1)

-- A write that has fewer than 8 bytes, or names no request that the helper has read, changes
-- nothing: it returns -EINVAL if it has fewer than 8 bytes and -EFAULT otherwise.
pub write_refused :
    (d : KgpuDev) (count id errcode : ℕ)
    → (count < 8) ⊎ Absent d.request id d.rtdreqs
    → kgpu_write d count id errcode ≡ some (d, if ltb count 8 then neg einval else neg efault)
unfolding kgpu_write
write_refused d count id errcode (inl h) = ground arith
write_refused d count id errcode (inr a) = elim (Bool-cases (ltb count 8)) [
  | inl e ↦ rw e refl
  | inr e ↦ rw (e, find_request-Absent d.request id d.rtdreqs a) refl
]

-- The device after the answer `errcode` to the request `r` of a client callback `f`.
abbrev pub answered : KgpuDev → List ℕ → ℕ → ℕ → ℕ → ℕ → KgpuDev
answered d rest r f count errcode = record d {
  rtdreqs = rest;
  request = update d.request r (record (d.request r) { errcode = errcode });
  called = (f, r) ∷ d.called;
  fpos = d.fpos + count;
  items = d.items - 1;
}

-- A write of at least 8 bytes that names the id of a request that the helper has read, with a
-- callback of its client, stores the error code in the first such request, takes it out of the
-- queue, frees its item and calls the callback once.
pub write_client :
    (d : KgpuDev) (count id errcode : ℕ) (xs ys : List ℕ) (r f : ℕ)
    → 8 ≤ count
    → d.rtdreqs ≡ xs ++ r ∷ ys
    → Absent d.request id xs
    → (d.request r).id ≡ id
    → (d.request r).callback ≡ client f
    → kgpu_write d count id errcode ≡ some (answered d (xs ++ ys) r f count errcode, nat count)
unfolding kgpu_write
write_client d count id errcode xs ys r f long queue first hit cb =
    rw
      (
        ge→ltb count 8 long,
        queue,
        find_request-hit d.request id xs ys r first hit,
        ==_refl r,
        cb,
        invoke,
      )
      (rw cb refl)

-- The device after the answer `errcode` to the request `r` whose caller waits with data at `p`.
abbrev pub completed : KgpuDev → List ℕ → ℕ → ℕ → SyncCallData → ℕ → ℕ → KgpuDev
completed d rest r p saved count errcode = record d {
  rtdreqs = rest;
  request = update d.request r (record (d.request r) { errcode = errcode });
  sync_data = update d.sync_data p (some (record saved { done = true }));
  fpos = d.fpos + count;
  items = d.items - 1;
}

module _ (d : KgpuDev) (count id errcode : ℕ) (xs ys : List ℕ) (r : ℕ) (long : 8 ≤ count)
    (queue : d.rtdreqs ≡ xs ++ r ∷ ys) (first : Absent d.request id xs)
    (hit : (d.request r).id ≡ id) where
  -- A response to a request of kgpu_call_sync does the same, and marks the caller's data as done.
  pub write_sync :
      (p : ℕ) (saved : SyncCallData)
      → (d.request r).callback ≡ sync_callback
      → (d.request r).kdata ≡ p
      → d.sync_data p ≡ some saved
      → kgpu_write d count id errcode
        ≡ some (completed d (xs ++ ys) r p saved count errcode, nat count)
  unfolding kgpu_write
  write_sync p saved cb at holds =
      rw
        (
          ge→ltb count 8 long,
          queue,
          find_request-hit d.request id xs ys r first hit,
          ==_refl r,
          cb,
          invoke,
        )
        (rw (==_refl r, at, holds) (ground arith))

  -- A write of at least 8 bytes that answers a request without a callback faults.
  pub write_null : (d.request r).callback ≡ null → kgpu_write d count id errcode ≡ none
  unfolding kgpu_write
  write_null cb =
      rw
        (
          ge→ltb count 8 long,
          queue,
          find_request-hit d.request id xs ys r first hit,
          ==_refl r,
          cb,
          invoke,
        )
        refl

-- The device after `k` reads of `c` bytes each.
unfoldable pub read_times : (uva kva npages : ℕ) → KgpuDev → ℕ → ℕ → KgpuDev
read_times uva kva npages d c zero = d
read_times uva kva npages d c (suc k) =
    read_times uva kva npages (kgpu_read uva kva npages d true c).0 c k

-- Reads of at least one byte take the requests off the first queue in the order in which they were
-- queued and append them to the second.
pub read_fifo :
    (uva kva npages c : ℕ)
    → 0 < c
    → (xs ys : List ℕ) (d : KgpuDev) → d.reqs ≡ xs ++ ys
    → ((read_times uva kva npages d c (length xs)).reqs ≡ ys)
      × ((read_times uva kva npages d c (length xs)).rtdreqs ≡ d.rtdreqs ++ xs)
unfolding read_times kgpu_read
read_fifo uva kva npages c pos [] ys d e = (e, sym (append-nil d.rtdreqs))
read_fifo uva kva npages c pos (x ∷ xs) ys d e =
    let d' = (kgpu_read uva kva npages d true c).0 in
    let ih = read_fifo uva kva npages c pos xs ys d' (rw (e, kgpu_read) refl) in
    let moved : d'.rtdreqs ≡ d.rtdreqs ++ x ∷ [] = rw (e, kgpu_read) (ground arith) in
    (ih.0, ih.1 ∙ ap (λ (l : List ℕ). l ++ xs) moved ∙ append_assoc d.rtdreqs (x ∷ []) xs)
