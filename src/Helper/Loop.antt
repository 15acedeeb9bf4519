-- ===== src/Helper/Loop.antt =====
-- The rounds of kgpu/src/userSpace/helper.c with their input, and the rounds with arrivals of Helper.
use kgpu_fga.Base.{
  ℕ, ◌<◌, ◌≡◌, ◌≢◌, ◌⊎◌, inl, inr, refl, sym, ap, subst, ◌∙◌, arith, Bool, true, false, ◌==◌,
  Bool-cases, List, [], ◌∷◌, none, some,
}
use kgpu_fga.Helper.{
  Helper, Answers, KuRequest, Arrival, kh_init_service_request, kh_round, kh_main_loop,
}
use kgpu_fga.Helper.Invariant.{Lives, Inv}
use kgpu_fga.Helper.Rounds.{IsFree, AreFree, passes, round-Inv}
use kgpu_fga.Helper.Input.{
  InputEnv, PollResult, poll_failed, ready, ReadResult, bytes, nothing, again, broken, Next,
  none_ready, taken, aborted, poll_timeout, read_request, kh_get_next_service_request, helper_loop,
}

-- malloc gives an address that no live item has.
abbrev pub IsAllocator : InputEnv → Type 0
IsAllocator env = (h : Helper) → env.malloc h ≢ 0 → ¬ Lives h (env.malloc h)

-- poll reports one event, POLLIN, malloc gives an item, and read gives the bytes of a request.
abbrev pub Brings : InputEnv → Helper → KuRequest → Type 0
Brings env h kureq =
    (env.poll (poll_timeout h) ≡ ready 1 true) × (env.malloc h ≢ 0) × (env.read ≡ bytes kureq)

-- poll fails or counts several events with POLLIN, or read fails for another reason than EAGAIN.
abbrev pub IsBroken : InputEnv → Helper → Type 0
IsBroken env h =
    (env.poll (poll_timeout h) ≡ poll_failed true)
    ⊎ (((n : ℕ) × (1 < n) × (env.poll (poll_timeout h) ≡ ready n true))
        ⊎ ((env.poll (poll_timeout h) ≡ ready 1 true) × (env.malloc h ≢ 0) × (env.read ≡ broken)))

-- What arrives: the request that the input brings, at the address of malloc, or nothing where it
-- brings none and is not broken.
abbrev pub Brought : InputEnv → Helper → Arrival → Type 0
Brought env h none = ((kureq : KuRequest) → ¬ Brings env h kureq) × (¬ IsBroken env h)
Brought env h (some (p, kureq)) = (p ≡ env.malloc h) × Brings env h kureq

abbrev pub accepted : Helper → Arrival → Next
accepted h none = none_ready h
accepted h (some (p, kureq)) = taken (kh_init_service_request h p kureq)

-- The helper aborts on a broken input, or what arrives is taken to a free address.
abbrev pub Outcome : InputEnv → Helper → Next → Type 0
Outcome env h n =
    ((n ≡ aborted) × IsBroken env h)
    ⊎ ((arrival : Arrival) × (n ≡ accepted h arrival) × Brought env h arrival × IsFree h arrival)

count_of : PollResult → ℕ
count_of (poll_failed b) = 0
count_of (ready n b) = n

ready-injective : {m n : ℕ} {b c : Bool} → ready m b ≡ ready n c → m ≡ n
unfolding count_of
ready-injective e = ap count_of e

-- A poll other than one event with POLLIN brings nothing.
quiet_poll :
    (env : InputEnv) (h : Helper) (r : PollResult)
    → env.poll (poll_timeout h) ≡ r
    → r ≢ poll_failed true
    → ((n : ℕ) → 0 < n → r ≢ ready n true)
    → Brought env h none
quiet_poll env h r f d e = (
  λ k (g, _, _). e 1 (omega arith) (sym f ∙ g),
  elim [
    | inl g ↦ d (sym f ∙ g)
    | inr (inl (n, l, g)) ↦ e n (omega (arith, l)) (sym f ∙ g)
    | inr (inr (g, _, _)) ↦ e 1 (omega arith) (sym f ∙ g)
  ],
)

-- No item or no bytes bring nothing.
quiet_read :
    (env : InputEnv) (h : Helper)
    → env.poll (poll_timeout h) ≡ ready 1 true
    → (env.malloc h ≢ 0 → env.read ≢ broken)
    → ((kureq : KuRequest) → env.malloc h ≢ 0 → env.read ≢ bytes kureq)
    → Brought env h none
quiet_read env h f d e = (
  λ k (_, m, g). e k m g,
  elim [
    | inl g ↦ cc
    | inr (inl (n, l, g)) ↦ let same : 1 ≡ n = ready-injective (sym f ∙ g) in omega (arith, l, same)
    | inr (inr (_, m, g)) ↦ d m g
  ],
)

read_cases :
    (env : InputEnv) (h : Helper)
    → IsAllocator env
    → env.poll (poll_timeout h) ≡ ready 1 true
    → Outcome env h (read_request env h)
unfolding read_request
read_cases env h law polled = elim (Bool-cases (env.malloc h == 0)) [
  | inl e ↦ inr (
    none,
    rw (read_request, e) refl,
    quiet_read env h polled (λ d. absurd (d (ground arith))) (λ k d. absurd (d (ground arith))),
    tt,
  )
  | inr e ↦ by_read env.read refl e
]
  where
    by_read :
        (r : ReadResult)
        → env.read ≡ r
        → (env.malloc h == 0) ≡ false
        → Outcome env h (read_request env h)
    by_read (bytes kureq) f e = inr (
      some (env.malloc h, kureq),
      rw (read_request, e, f) refl,
      (refl, (polled, ground arith, f)),
      law h (ground arith),
    )
    by_read nothing f e =
        inr (
          none,
          rw (read_request, e, f) refl,
          quiet_read env h polled (λ d g. cc) (λ k d g. cc),
          tt,
        )
    by_read again f e =
        inr (
          none,
          rw (read_request, e, f) refl,
          quiet_read env h polled (λ d g. cc) (λ k d g. cc),
          tt,
        )
    by_read broken f e = inl (rw (read_request, e, f) refl, inr (inr (polled, ground arith, f)))

-- kh_get_next_service_request aborts, or leaves the state as it is, or takes a request to an item
-- at a free address, if malloc gives addresses that no live item has.
pub get_next_cases :
    (env : InputEnv) (h : Helper)
    → IsAllocator env
    → Outcome env h (kh_get_next_service_request env h)
unfolding kh_get_next_service_request
get_next_cases env h law = by_poll (env.poll (poll_timeout h)) refl
  where
    by_poll :
        (r : PollResult)
        → env.poll (poll_timeout h) ≡ r
        → Outcome env h (kh_get_next_service_request env h)
    by_poll (poll_failed true) f = inl (rw (kh_get_next_service_request, f) refl, inl f)
    by_poll (poll_failed false) f = inr (
      none,
      rw (kh_get_next_service_request, f) refl,
      quiet_poll env h _ f (λ g. cc) (λ n l g. cc),
      tt,
    )
    by_poll (ready err false) f = inr (
      none,
      rw (kh_get_next_service_request, f) (ground arith),
      quiet_poll env h _ f (λ g. cc) (λ n l g. cc),
      tt,
    )
    by_poll (ready err true) f = elim (Bool-cases (err == 0)) [
      | inl e ↦ inr (
        none,
        rw (kh_get_next_service_request, f, e) refl,
        quiet_poll env h _ f (λ g. cc) (λ n l g. absurd (ground (arith, ready-injective g))),
        tt,
      )
      | inr e ↦ elim (Bool-cases (err == 1)) [
        | inl g ↦
            let polled = f ∙ ap (λ n. ready n true) (ground arith) in
            let reads : kh_get_next_service_request env h ≡ read_request env h =
              rw (kh_get_next_service_request, f, e, g) refl in
            subst (λ n. Outcome env h n) (sym reads) (read_cases env h law polled)
        | inr g ↦
            inl (rw (kh_get_next_service_request, f, e, g) refl, inr (inl (err, ground arith, f)))
      ]
    ]

-- The rounds have the answers of the inputs, and what arrives in each is what its input brings to the
-- helper after the passes of the round.
abbrev pub Follows : Helper → List (Answers × InputEnv) → List (Answers × Arrival) → Type 0
Follows h [] [] = Unit
Follows h [] ((b, arrival) ∷ rounds) = ⊥
Follows h ((a, env) ∷ inputs) [] = ⊥
Follows h ((a, env) ∷ inputs) ((b, arrival) ∷ rounds) =
    (a ≡ b) × Brought env (passes a h) arrival × Follows (kh_round a h arrival) inputs rounds

-- Some round, after rounds that follow their inputs, has a broken input.
abbrev pub Breaks : Helper → List (Answers × InputEnv) → Type 0
Breaks h [] = ⊥
Breaks h ((a, env) ∷ inputs) =
    IsBroken env (passes a h)
    ⊎ ((arrival : Arrival) × Brought env (passes a h) arrival
        × Breaks (kh_round a h arrival) inputs)

abbrev pub AllAllocate : List (Answers × InputEnv) → Type 0
AllAllocate [] = Unit
AllAllocate ((a, env) ∷ rounds) = IsAllocator env × AllAllocate rounds

arrived_round :
    (a : Answers) (h : Helper) (p : ℕ) (kureq : KuRequest)
    → kh_round a h (some (p, kureq)) ≡ kh_init_service_request (passes a h) p kureq
unfolding kh_round
arrived_round a h p kureq = refl

helper_loop_step :
    (a : Answers) (env : InputEnv) (h : Helper) (arrival : Arrival)
    (inputs : List (Answers × InputEnv))
    → kh_get_next_service_request env (passes a h) ≡ accepted (passes a h) arrival
    → helper_loop h ((a, env) ∷ inputs) ≡ helper_loop (kh_round a h arrival) inputs
unfolding helper_loop
helper_loop_step a env h none inputs e = rw (helper_loop, e) refl
helper_loop_step a env h (some (p, kureq)) inputs e =
    rw (helper_loop, e) (ap (λ x. helper_loop x inputs) (sym (arrived_round a h p kureq)))

-- A run of kh_main_loop with the polls and reads of each round, from a state with the helper's
-- invariant and with a malloc that gives addresses that no live item has, either aborts, and then
-- some round has a broken input: poll fails with POLLIN or counts several events with it, or read
-- fails for another reason than EAGAIN on an item that malloc has given. Or it ends as the rounds
-- of kh_main_loop with the same answers and with these arrivals do, and the invariant holds then:
-- in each round whose poll reports POLLIN alone, for which malloc gives an item and read the bytes
-- of a request, this request at the address of malloc, which is free, and in each other round,
-- whose input is not broken, none.
pub helper_loop-main_loop :
    (h : Helper) (inputs : List (Answers × InputEnv))
    → AllAllocate inputs
    → Inv h
    → ((helper_loop h inputs ≡ none) × Breaks h inputs)
      ⊎ ((rounds : List (Answers × Arrival)) × Follows h inputs rounds
          × AreFree h rounds
          × (helper_loop h inputs ≡ some (kh_main_loop h rounds))
          × Inv (kh_main_loop h rounds))
unfolding helper_loop kh_main_loop
helper_loop-main_loop h [] law v = inr ([], tt, tt, refl, v)
helper_loop-main_loop h ((a, env) ∷ inputs) law v = elim (get_next_cases env (passes a h) law.0) [
  | inl (e, bad) ↦ inl (rw (helper_loop, e) refl, inl bad)
  | inr (arrival, e, brought, free) ↦
      elim (helper_loop-main_loop (kh_round a h arrival) inputs law.1
        (round-Inv a h arrival free v)) [
          | inl (f, bad) ↦
              inl (helper_loop_step a env h arrival inputs e ∙ f, inr (arrival, brought, bad))
          | inr (rounds, follows, frees, f, w) ↦ inr (
            (a, arrival) ∷ rounds,
            (refl, brought, follows),
            (free, frees),
            helper_loop_step a env h arrival inputs e ∙ f,
            w,
          )
        ]
]
