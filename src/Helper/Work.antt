-- ===== src/Helper/Work.antt =====
-- How many steps the requests of kgpu/src/userSpace/helper.c still have to make.
use kgpu_fga.Base.{
  ℕ, ◌+◌, ◌*◌, ◌≤◌, ◌<◌, ◌≡◌, refl, arith, ◌==◌, if◌then◌else◌, List, [], ◌∷◌, Bool, true, false,
  Bool-cases, inl, inr, none, some, length, length-append, ==_refl,
}
use kgpu_fga.Gpu.Streams.{alloc_stream_cases, gpu_alloc_stream}
use kgpu_fga.Helper.{
  Helper, Answers, ReqState, fresh, init, mem_done, prepared, running, post_exec, finished, erase,
  list_del, kh_request_alloc_mem, prepare_exec, kh_prepare_exec, kh_launch_exec, kh_post_exec,
  kh_finish_post, kh_service_done,
}
use kgpu_fga.Helper.Lists.{count}
use kgpu_fga.Helper.Invariant.{Inv, Core, Lives, Moved, stage, same, state_of}
use kgpu_fga.Helper.Moves.{alloc_cases, prepare_cases, launch_cases, post_cases, finish_cases}
use kgpu_fga.Helper.Handlers.{stage-Lives, stage-same, taken, taken-Core}

pub length_pos : (p : ℕ) (l : List ℕ) → 0 < count p l → 0 < length l
unfolding count
length_pos p [] e = omega (arith, e)
length_pos p (x ∷ l) e = omega arith

pub length-erase :
    (p : ℕ) (l : List ℕ) → length (erase p l) + (if count p l == 0 then 0 else 1) ≡ length l
unfolding erase count
length-erase p [] = refl
length-erase p (x ∷ l) = ground (arith, length-erase p l, length_pos p l)

-- The states from an item's state to its answer.
abbrev pub weight : ReqState → ℕ
weight fresh = 0
weight init = 6
weight mem_done = 5
weight prepared = 4
weight running = 3
weight post_exec = 2
weight finished = 1

abbrev pub work : Helper → ℕ
work h =
    6 * length h.init_reqs
    + 5 * length h.memdone_reqs
    + 4 * length h.prepared_reqs
    + 3 * length h.running_reqs
    + 2 * length h.post_exec_reqs
    + length h.done_reqs

-- 1 for the state itself.
abbrev at : ReqState → ReqState → ℕ
at s u = if same s u then 1 else 0

weight_lem :
    (s : ReqState)
    → weight s
      ≡ 6 * at s init
        + 5 * at s mem_done
        + 4 * at s prepared
        + 3 * at s running
        + 2 * at s post_exec
        + at s finished
weight_lem fresh = refl
weight_lem init = refl
weight_lem mem_done = refl
weight_lem prepared = refl
weight_lem running = refl
weight_lem post_exec = refl
weight_lem finished = refl

module _ {h h' : Helper} {p : ℕ} {t : ReqState} (v : Core h) (lives : Lives h p)
    (m : Moved h p t h') where
  moved_length :
      (u : ReqState) → length (stage h' u) + at (state_of h p) u ≡ length (stage h u) + at t u
  moved_length u = elim (Bool-cases (same t u)) [
    | inl e ↦
        rw (m.lists u, e)
          (ground (
            arith,
            length-append (erase p (stage h u)) (p ∷ []),
            length-erase p (stage h u),
            v.placed p u,
          ))
    | inr e ↦ rw (m.lists u, e) (ground (arith, length-erase p (stage h u), v.placed p u))
  ]

  -- A move takes an item from the weight of its state to that of another.
  pub Moved-work : work h' + weight (state_of h p) ≡ work h + weight t
  Moved-work = omega (
    arith,
    moved_length init,
    moved_length mem_done,
    moved_length prepared,
    moved_length running,
    moved_length post_exec,
    moved_length finished,
    weight_lem (state_of h p),
    weight_lem t,
  )

same-weight : (s t : ReqState) → same s t ≡ true → weight s ≡ weight t
same-weight s t e = ground arith

-- `h'` has less work than `h`, by a step at least if `b` holds.
abbrev pub Drops : Helper → Helper → Bool → Type 0
Drops h h' b = work h' + (if b then 1 else 0) ≤ work h

module _ {h h' : Helper} {p : ℕ} {t : ReqState} (s : ReqState) (v : Inv h)
    (l : 0 < count p (stage h s)) where
  Moved-Drops : weight t < weight s → Moved h p t h' → (b : Bool) → Drops h h' b
  Moved-Drops less m b = ground (
    arith,
    Moved-work v.core (stage-Lives h p s v l) m,
    same-weight (state_of h p) s (stage-same h p s v l),
  )

same-Drops : (h : Helper) (r : Helper × ℕ) (b : Bool) → r ≡ (h, 1) → b ≡ false → Drops h r.0 b
same-Drops h r b e f = rw (e, f) (omega arith)

module _ (a : Answers) (h : Helper) (p : ℕ) (v : Inv h) where
  pub alloc-Drops :
      0 < count p (stage h init)
      → Drops h (kh_request_alloc_mem a h p).0 (a.alloc_device_mem p == 0)
  alloc-Drops l = elim (alloc_cases a h p) [
    | inl (_, m) ↦ Moved-Drops init v l (omega arith) m _
    | inr (f, e) ↦ same-Drops h _ _ e f
  ]

  pub launch-Drops : 0 < count p (stage h prepared) → Drops h (kh_launch_exec a h p).0 true
  launch-Drops l = elim (launch_cases a h p) [
    | inl m ↦ Moved-Drops prepared v l (omega arith) m true
    | inr m ↦ Moved-Drops prepared v l (omega arith) m true
  ]

  pub post-Drops :
      0 < count p (stage h running) → Drops h (kh_post_exec a h p).0 (a.execution_finished p)
  post-Drops l = elim (post_cases a h p) [
    | inl (_, inl m) ↦ Moved-Drops running v l (omega arith) m _
    | inl (_, inr m) ↦ Moved-Drops running v l (omega arith) m _
    | inr (f, e) ↦ same-Drops h _ _ e f
  ]

  pub finish-Drops :
      0 < count p (stage h post_exec) → Drops h (kh_finish_post a h p).0 (a.post_finished p)
  finish-Drops l = elim (finish_cases a h p) [
    | inl (_, m) ↦ Moved-Drops post_exec v l (omega arith) m _
    | inr (f, e) ↦ same-Drops h _ _ e f
  ]

  prepared-Drops :
      0 < count p (stage h mem_done)
      → (i : ℕ) → i < 8
      → h.streamuses i ≡ false
      → Drops h (prepare_exec a (taken h p i) p).0 true
  prepared-Drops l i small unused =
      let lives = stage-Lives h p mem_done v l in
      let none_yet = v.idle p lives (ground (arith, stage-same h p mem_done v l)) in
      let c = taken-Core v lives none_yet small unused in
      let e = same-weight (state_of h p) mem_done (stage-same h p mem_done v l) in
      let e' : weight (state_of (taken h p i) p) ≡ 5 = ground (arith, e, ==_refl p) in
      elim (prepare_cases a (taken h p i) p) [
        | inl m ↦ omega (arith, Moved-work c lives m, e')
        | inr m ↦ omega (arith, Moved-work c lives m, e')
      ]

-- A stream is free.
abbrev pub has_stream : (ℕ → Bool) → Bool
has_stream uses = elim (gpu_alloc_stream uses) [ none ↦ false | some _ ↦ true ]

module _ (a : Answers) (h : Helper) (p : ℕ) (v : Inv h) where
  pub prepare-Drops :
      0 < count p (stage h mem_done) → Drops h (kh_prepare_exec a h p).0 (has_stream h.streamuses)
  unfolding kh_prepare_exec
  prepare-Drops l = elim (alloc_stream_cases h.streamuses) [
    | inl (e, _) ↦ rw (has_stream, e, kh_prepare_exec) (omega arith)
    | inr (i, e, small, unused, _) ↦
        rw (has_stream, e, kh_prepare_exec) (prepared-Drops a h p v l i small unused)
  ]

module _ (h : Helper) (p : ℕ) (v : Inv h) where
  pub done-Drops : 0 < count p (stage h finished) → Drops h (kh_service_done h p).0 true
  unfolding kh_service_done list_del
  done-Drops l = ground (
    arith,
    length-erase p h.init_reqs,
    length-erase p h.memdone_reqs,
    length-erase p h.prepared_reqs,
    length-erase p h.running_reqs,
    length-erase p h.post_exec_reqs,
    length-erase p h.done_reqs,
    l,
  )
