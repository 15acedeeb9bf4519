-- ===== src/Helper/Invariant.antt =====
-- The invariant of the lists and streams of kgpu/src/userSpace/helper.c, and the moves that keep it.
use kgpu_fga.Base.{
  ℕ, ◌+◌, ◌-◌, ◌≤◌, ◌<◌, ◌≡◌, ◌≢◌, ap, arith, ◌==◌, if◌then◌else◌, List, [], ◌∷◌, ◌++◌, Bool, true,
  false, ◌||◌, Bool-cases, inl, inr, Option, none, some,
}
use kgpu_fga.Helper.{
  Helper, ReqState, fresh, init, mem_done, prepared, running, post_exec, finished, ServiceRequest,
  erase,
}
use kgpu_fga.Helper.Lists.{count, count-push, count-erase}

abbrev pub same : ReqState → ReqState → Bool
same fresh fresh = true
same init init = true
same mem_done mem_done = true
same prepared prepared = true
same running running = true
same post_exec post_exec = true
same finished finished = true
same _ _ = false

-- The list of the items in a state.
abbrev pub stage : Helper → ReqState → List ℕ
stage h fresh = []
stage h init = h.init_reqs
stage h mem_done = h.memdone_reqs
stage h prepared = h.prepared_reqs
stage h running = h.running_reqs
stage h post_exec = h.post_exec_reqs
stage h finished = h.done_reqs

abbrev pub state_of : Helper → ℕ → ReqState
state_of h p = (h.item p).state

abbrev pub stream_of : Helper → ℕ → Option ℕ
stream_of h p = (h.item p).stream_id

-- The item at `p` is alive.
abbrev pub Lives : Helper → ℕ → Type 0
Lives h p = 0 < count p h.all_reqs

-- Each live item stands once on the list of its state and on no other; a stream is in use exactly if
-- a live item holds it, and then one item does.
pub record Core (h : Helper) : Type 0 where
  pub single : (p : ℕ) → count p h.all_reqs ≤ 1
  pub placed :
      (p : ℕ) (s : ReqState)
      → count p (stage h s) ≡ (if same (state_of h p) s then count p h.all_reqs else 0)
  pub held : (p k : ℕ) → Lives h p → stream_of h p ≡ some k → (k < 8) × (h.streamuses k ≡ true)
  pub alone :
      (p q k : ℕ) → Lives h p → Lives h q → stream_of h p ≡ some k → stream_of h q ≡ some k → p ≡ q
  pub owned : (k : ℕ) → h.streamuses k ≡ true → (p : ℕ) × Lives h p × (stream_of h p ≡ some k)

-- The item at `p` has not come to its preparation.
abbrev pub early : Helper → ℕ → Bool
early h p = same (state_of h p) init || same (state_of h p) mem_done

-- Besides, items hold no stream before they are prepared.
pub record Inv (h : Helper) : Type 0 where
  pub core : Core h
  pub open core use *
  pub idle : (p : ℕ) → Lives h p → early h p ≡ true → stream_of h p ≡ none

-- `h'` is `h` with the item at `p` moved to the state `t`; `err` is its new error code.
pub record Moved (h : Helper) (p : ℕ) (t : ReqState) (h' : Helper) : Type 0 where
  pub lists :
      (s : ReqState)
      → stage h' s ≡ (if same t s then erase p (stage h s) ++ p ∷ [] else erase p (stage h s))
  pub state : state_of h' p ≡ t
  pub others : (q : ℕ) → q ≢ p → h'.item q ≡ h.item q
  pub stream : stream_of h' p ≡ stream_of h p
  pub ident : (h'.item p).id ≡ (h.item p).id
  pub all : h'.all_reqs ≡ h.all_reqs
  pub uses : h'.streamuses ≡ h.streamuses
  pub sent : h'.responses ≡ h.responses

module _ {h h' : Helper} {p : ℕ} {t : ReqState} (v : Core h) (lives : Lives h p)
    (m : Moved h p t h') where
  pub count_moved :
      (q : ℕ) (s : ReqState)
      → count q (stage h' s)
        ≡ count q (stage h s)
          - (if q == p then 1 else 0)
          + (if same t s then (if q == p then 1 else 0) else 0)
  count_moved q s = elim (Bool-cases (same t s)) [
    | inl e ↦
        rw (m.lists s, e)
          (omega (arith, count-push q p (erase p (stage h s)), count-erase q p (stage h s)))
    | inr e ↦ rw (m.lists s, e) (omega (arith, count-erase q p (stage h s)))
  ]

  Moved-placed :
      (q : ℕ) (s : ReqState)
      → count q (stage h' s) ≡ (if same (state_of h' q) s then count q h'.all_reqs else 0)
  Moved-placed q s = elim (Bool-cases (q == p)) [
    | inl e ↦
        let f : q ≡ p = ground arith in
        rw (count_moved q s, m.all, e, f, m.state) (ground (arith, v.placed p s, v.single p))
    | inr e ↦
        rw (count_moved q s, m.all, e, m.others q (ground arith)) (ground (arith, v.placed q s))
  ]

  stream_moved : (q : ℕ) → stream_of h' q ≡ stream_of h q
  stream_moved q = elim (Bool-cases (q == p)) [
    | inl e ↦ let f : q ≡ p = ground arith in rw f m.stream
    | inr e ↦ ap (λ (r : ServiceRequest). r.stream_id) (m.others q (ground arith))
  ]

  Moved-Core : Core h'
  Moved-Core = record {
    single = λ q. rw m.all (v.single q);
    placed = Moved-placed;
    held = λ q k l e. rw m.uses (v.held q k (rw m.all at l) (rw (stream_moved q) at e));
    alone = λ q r k l l' e e'.
        v.alone q r k (rw m.all at l) (rw m.all at l') (rw (stream_moved q) at e)
          (rw (stream_moved r) at e');
    owned =
        λ k e. let (q, l, f) = v.owned k (rw m.uses at e) in (q, rw m.all l, rw (stream_moved q) f);
  }

  -- A move that ends in a state before the preparation is for items with no stream.
  pub Moved-Inv :
      ((q : ℕ) → q ≢ p → Lives h q → early h q ≡ true → stream_of h q ≡ none)
      → ((same t init || same t mem_done) ≡ true → stream_of h p ≡ none)
      → Inv h'
  Moved-Inv idle free = record {
    core = Moved-Core;
    idle = λ q l e. elim (Bool-cases (q == p)) [
      | inl f ↦ ground (arith, stream_moved q, m.state, free)
      | inr f ↦ ground (arith, stream_moved q, m.others q, idle q, m.all)
    ];
  }
