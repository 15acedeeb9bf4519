-- ===== src/Helper/Process.antt =====
-- kh_prepare_exec, kh_service_done and __kh_process_request of kgpu/src/userSpace/helper.c against
-- the invariant of the lists and streams.
use kgpu_fga.Base.{
  ℕ, ◌-◌, ◌≤◌, ◌<◌, ◌≡◌, ◌≢◌, refl, ap, arith, ◌==◌, if◌then◌else◌, List, [], ◌∷◌, Bool, ◌&&◌, true,
  false, Bool-cases, inl, inr, Option, none, some, ==_refl,
}
use kgpu_fga.Gpu.Streams.{gpu_free_stream, alloc_stream_cases}
use kgpu_fga.Helper.{
  Helper, Handler, Answers, ReqState, ServiceRequest, fresh, init, mem_done, prepared, running,
  post_exec, finished, erase, list_del, kh_prepare_exec, prepare_exec, kh_service_done,
  process_request,
}
use kgpu_fga.Helper.Lists.{count, count-erase}
use kgpu_fga.Helper.Invariant.{Inv, Lives, Moved-Inv, count_moved, stage, state_of, stream_of}
use kgpu_fga.Helper.Handlers.{Keeps, Keeps-refl, stage-Lives, stage-same, taken, taken-Core}
use kgpu_fga.Helper.Moves.{prepare_cases}

module _ (a : Answers) {h : Helper} {p : ℕ} (v : Inv h) (l : 0 < count p (stage h mem_done)) where
  prepared-Keeps :
      (i : ℕ) → i < 8 → h.streamuses i ≡ false → Keeps h p (prepare_exec a (taken h p i) p).0
  prepared-Keeps i small unused =
      let lives = stage-Lives h p mem_done v l in
      let none_yet = v.idle p lives (ground (arith, stage-same h p mem_done v l)) in
      let c = taken-Core v lives none_yet small unused in
      elim (prepare_cases a (taken h p i) p) [
        | inl m ↦ record {
          inv = Moved-Inv c lives m (λ q d n e. ground (arith, v.idle q n)) (λ e. cc);
          rest = λ q s d. ground (arith, count_moved c lives m q s);
        }
        | inr m ↦ record {
          inv = Moved-Inv c lives m (λ q d n e. ground (arith, v.idle q n)) (λ e. cc);
          rest = λ q s d. ground (arith, count_moved c lives m q s);
        }
      ]

  pub prepare-Keeps : Keeps h p (kh_prepare_exec a h p).0
  unfolding kh_prepare_exec
  prepare-Keeps = elim (alloc_stream_cases h.streamuses) [
    | inl (e, _) ↦ rw (kh_prepare_exec, e) (Keeps-refl h p v)
    | inr (i, e, small, unused, _) ↦ rw (kh_prepare_exec, e) (prepared-Keeps i small unused)
  ]

module _ (h : Helper) (p : ℕ) where
  abbrev gone : Helper
  gone = (kh_service_done h p).0

  gone-stage :
      (q : ℕ) (s : ReqState)
      → count q (stage gone s) ≡ count q (stage h s) - (if q == p then 1 else 0)
  unfolding kh_service_done list_del erase count
  gone-stage q fresh = ground arith
  gone-stage q init = count-erase q p h.init_reqs
  gone-stage q mem_done = count-erase q p h.memdone_reqs
  gone-stage q prepared = count-erase q p h.prepared_reqs
  gone-stage q running = count-erase q p h.running_reqs
  gone-stage q post_exec = count-erase q p h.post_exec_reqs
  gone-stage q finished = count-erase q p h.done_reqs

  gone_all : (q : ℕ) → count q gone.all_reqs ≡ count q h.all_reqs - (if q == p then 1 else 0)
  unfolding kh_service_done list_del
  gone_all q = count-erase q p h.all_reqs

  gone_item : gone.item ≡ h.item
  unfolding kh_service_done list_del
  gone_item = refl

  gone_uses : gone.streamuses ≡ gpu_free_stream h.streamuses (stream_of h p)
  unfolding kh_service_done list_del
  gone_uses = refl

-- Which marks gpu_free_stream leaves.
freed :
    (uses : ℕ → Bool) (s : Option ℕ) (k : ℕ)
    → gpu_free_stream uses s k ≡ true
    → (uses k ≡ true) × (s ≡ some k → ¬ (k < 8))
unfolding gpu_free_stream
freed uses none k e = (e, λ f. cc)
freed uses (some i) k e = (ground arith, λ f h. ground arith)

kept :
    (uses : ℕ → Bool) (s : Option ℕ) (k : ℕ)
    → uses k ≡ true
    → s ≢ some k
    → gpu_free_stream uses s k ≡ true
unfolding gpu_free_stream
kept uses none k e d = e
kept uses (some i) k e d = elim (Bool-cases (i == k)) [
  | inl f ↦ absurd (d (ground arith))
  | inr f ↦ ground arith
]

module _ (h : Helper) (p : ℕ) (v : Inv h) (l : 0 < count p (stage h finished)) where
  lives : Lives h p
  lives = stage-Lives h p finished v l

  gone-Lives : (q : ℕ) → Lives (gone h p) q → Lives h q × (q ≢ p)
  gone-Lives q m = (omega (arith, gone_all h p q), λ e. ground (arith, gone_all h p q, v.single q))

  gone_stream : (q : ℕ) → stream_of (gone h p) q ≡ stream_of h q
  gone_stream q = ap (λ (f : ℕ → ServiceRequest). (f q).stream_id) (gone_item h p)

  gone_state : (q : ℕ) → state_of (gone h p) q ≡ state_of h q
  gone_state q = ap (λ (f : ℕ → ServiceRequest). (f q).state) (gone_item h p)

  gone_owned :
      (k : ℕ)
      → (gone h p).streamuses k ≡ true
      → (q : ℕ) × Lives (gone h p) q × (stream_of (gone h p) q ≡ some k)
  gone_owned k e =
      let (u, d) = freed h.streamuses (stream_of h p) k (rw (gone_uses h p) at e) in
      let (q, m, f) = v.owned k u in
      (
        q,
        elim (Bool-cases (q == p)) [
          | inl g ↦ let s : q ≡ p = ground arith in absurd (d (ground arith) (v.held q k m f).0)
          | inr g ↦ rw (gone_all h p q, g) (omega (arith, m))
        ],
        rw (gone_stream q) f,
      )

  gone_held :
      (q k : ℕ)
      → Lives h q × (q ≢ p)
      → stream_of h q ≡ some k
      → (k < 8) × ((gone h p).streamuses k ≡ true)
  gone_held q k (m, d) e =
      let (small, used) = v.held q k m e in
      (
        small,
        rw (gone_uses h p)
            (kept h.streamuses (stream_of h p) k used (λ f. d (v.alone q p k m lives e f))),
      )

  gone-Inv : Inv (gone h p)
  gone-Inv = record {
    core = record {
      single = λ q. omega (arith, gone_all h p q, v.single q);
      placed = λ q s.
          rw (gone-stage h p q s, gone_all h p q, gone_state q) (ground (arith, v.placed q s));
      held = λ q k m e. gone_held q k (gone-Lives q m) (rw (gone_stream q) at e);
      alone = λ q r k m n e f.
          v.alone q r k (gone-Lives q m).0 (gone-Lives r n).0 (rw (gone_stream q) at e)
            (rw (gone_stream r) at f);
      owned = gone_owned;
    };
    idle = λ q m e. rw (gone_stream q) (v.idle q (gone-Lives q m).0 (ground (arith, gone_state q)));
  }

  pub done-Keeps : Keeps h p (kh_service_done h p).0
  done-Keeps = record { inv = gone-Inv; rest = λ q s d. ground (arith, gone-stage h p q s) }

-- What the handler of a list promises for each item on the list.
abbrev pub Serves : Handler → ReqState → Type 0
Serves op s = (h : Helper) (p : ℕ) → Inv h → 0 < count p (stage h s) → Keeps h p (op h p).0

-- The items that are left to treat are on the list still.
pub rest_le :
    (h h' : Helper) (p : ℕ) (s : ReqState) (n : List ℕ)
    → Inv h
    → Keeps h p h'
    → ((q : ℕ) → count q (p ∷ n) ≤ count q (stage h s))
    → (q : ℕ) → count q n ≤ count q (stage h' s)
unfolding count
rest_le h h' p s n v k sub q = elim (Bool-cases (q == p)) [
  | inl e ↦ ground (arith, sub q, v.placed q s, v.single q)
  | inr e ↦ ground (arith, sub q, k.rest q s)
]

-- The loop over a list keeps the invariant if its handler does.
pub process-Inv :
    (op : Handler) (once : Bool) (s : ReqState)
    → Serves op s
    → (l : List ℕ) (h : Helper) → Inv h
    → ((q : ℕ) → count q l ≤ count q (stage h s))
    → Inv (process_request op once l h)
unfolding process_request count
process-Inv op once s serves [] h v sub = v
process-Inv op once s serves (p ∷ n) h v sub =
    let here : 0 < count p (stage h s) = ground (arith, sub p, ==_refl p) in
    let k = serves h p v here in
    let ih =
      process-Inv op once s serves n (op h p).0 k.inv (λ q. rest_le h (op h p).0 p s n v k sub q) in
    elim (Bool-cases (((op h p).1 == 0) && once)) [ inl e ↦ rw e k.inv | inr e ↦ rw e ih ]
