-- ===== src/Helper/Handlers.antt =====
-- The handlers of kgpu/src/userSpace/helper.c against the invariant of the lists and streams.
use kgpu_fga.Base.{
  ℕ, ◌<◌, ◌≡◌, ◌≢◌, refl, arith, ◌==◌, ◌||◌, true, false, update, Bool-cases, inl, inr, none, some,
}
use kgpu_fga.Helper.{
  Helper, Answers, ReqState, init, mem_done, prepared, running, post_exec, kh_request_alloc_mem,
  kh_launch_exec, kh_post_exec, kh_finish_post,
}
use kgpu_fga.Helper.Moves.{alloc_cases, launch_cases, post_cases, finish_cases}
use kgpu_fga.Helper.Lists.{count}
use kgpu_fga.Helper.Invariant.{
  Inv, Core, Lives, Moved, Moved-Inv, count_moved, stage, same, state_of, stream_of,
}

-- What a handler keeps when it treats the item at `p`: the invariant, and the places of the others.
pub record Keeps (h : Helper) (p : ℕ) (h' : Helper) : Type 0 where
  pub inv : Inv h'
  pub rest : (q : ℕ) (s : ReqState) → q ≢ p → count q (stage h' s) ≡ count q (stage h s)

-- An item on the list of a state is alive and in that state.
pub stage-Lives : (h : Helper) (p : ℕ) (s : ReqState) → Inv h → 0 < count p (stage h s) → Lives h p
stage-Lives h p s v l = ground (arith, v.placed p s)

pub stage-same :
    (h : Helper) (p : ℕ) (s : ReqState)
    → Inv h
    → 0 < count p (stage h s)
    → same (state_of h p) s ≡ true
stage-same h p s v l = ground (arith, v.placed p s)

pub Keeps-refl : (h : Helper) (p : ℕ) → Inv h → Keeps h p h
Keeps-refl h p v = record { inv = v; rest = λ q s d. refl }

pub Moved-Keeps :
    {h h' : Helper} {p : ℕ} {t : ReqState}
    → Inv h
    → Lives h p
    → Moved h p t h'
    → ((same t init || same t mem_done) ≡ true → stream_of h p ≡ none)
    → Keeps h p h'
Moved-Keeps {p = p} v l m free = record {
  inv = Moved-Inv v.core l m (λ q d. v.idle q) free;
  rest = λ q s d. ground (arith, count_moved v.core l m q s);
}

-- The state after a stream has been allocated to the item at `p`.
abbrev pub taken : Helper → ℕ → ℕ → Helper
taken h p i = record h {
  streamuses = update h.streamuses i true;
  item = update h.item p (record (h.item p) { stream_id = some i });
}

module _ {h : Helper} {p i : ℕ} (v : Inv h) (l : Lives h p) (none_yet : stream_of h p ≡ none)
    (small : i < 8) (unused : h.streamuses i ≡ false) where
  taken_owned :
      (k : ℕ)
      → update h.streamuses i true k ≡ true
      → (q : ℕ) × Lives (taken h p i) q × (stream_of (taken h p i) q ≡ some k)
  taken_owned k e = elim (Bool-cases (i == k)) [
    | inl f ↦ (p, l, ground arith)
    | inr f ↦ let (q, m, g) = v.owned k (ground arith) in (q, m, ground arith)
  ]

  pub taken-Core : Core (taken h p i)
  taken-Core = record {
    single = v.single;
    placed = λ q s. ground (arith, v.placed q s);
    held = λ q k m e. ground (arith, v.held q k m);
    alone = λ q r k m n e f. ground (arith, v.alone q r k m n, v.held q k m, v.held r k n);
    owned = taken_owned;
  }

-- A handler that leaves the state alone.
same-Keeps : (h : Helper) (p : ℕ) (r : Helper × ℕ) → Inv h → r ≡ (h, 1) → Keeps h p r.0
same-Keeps h p r v e = rw e (Keeps-refl h p v)

module _ (a : Answers) (h : Helper) (p : ℕ) (v : Inv h) where
  pub alloc-Keeps : 0 < count p (stage h init) → Keeps h p (kh_request_alloc_mem a h p).0
  alloc-Keeps l = elim (alloc_cases a h p) [
    | inr (_, e) ↦ same-Keeps h p _ v e
    | inl (_, m) ↦
        Moved-Keeps v (stage-Lives h p init v l) m
          (λ _. v.idle p (stage-Lives h p init v l) (ground (arith, stage-same h p init v l)))
  ]

  pub launch-Keeps : 0 < count p (stage h prepared) → Keeps h p (kh_launch_exec a h p).0
  launch-Keeps l = elim (launch_cases a h p) [
    | inl m ↦ Moved-Keeps v (stage-Lives h p prepared v l) m (λ c. cc)
    | inr m ↦ Moved-Keeps v (stage-Lives h p prepared v l) m (λ c. cc)
  ]

  pub finish-Keeps : 0 < count p (stage h post_exec) → Keeps h p (kh_finish_post a h p).0
  finish-Keeps l = elim (finish_cases a h p) [
    | inr (_, e) ↦ same-Keeps h p _ v e
    | inl (_, m) ↦ Moved-Keeps v (stage-Lives h p post_exec v l) m (λ c. cc)
  ]

  pub post-Keeps : 0 < count p (stage h running) → Keeps h p (kh_post_exec a h p).0
  post-Keeps l = elim (post_cases a h p) [
    | inr (_, e) ↦ same-Keeps h p _ v e
    | inl (_, inl m) ↦ Moved-Keeps v (stage-Lives h p running v l) m (λ c. cc)
    | inl (_, inr m) ↦ Moved-Keeps v (stage-Lives h p running v l) m (λ c. cc)
  ]
