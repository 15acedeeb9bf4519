-- ===== src/Helper/Moves.antt =====
-- The moves that the handlers of kgpu/src/userSpace/helper.c make between the lists.
use kgpu_fga.Base.{
  ℕ, ◌≡◌, ◌⊎◌, refl, arith, ◌==◌, if◌then◌else◌, [], ◌∷◌, ◌++◌, true, false, update, Bool-cases,
  inl, inr, ==_refl,
}
use kgpu_fga.Helper.{
  Helper, Answers, ReqState, fresh, init, mem_done, prepared, running, post_exec, finished, erase,
  list_del, kh_fail_request, kh_request_alloc_mem, prepare_exec, kh_launch_exec, kh_post_exec,
  kh_finish_post,
}
use kgpu_fga.Helper.Invariant.{Moved, stage, same}

-- A move that writes the state and the error code of the item, and moves it between the lists.
pub Moved-intro :
    (h : Helper) (p : ℕ) (t : ReqState) (e : ℕ) (h' : Helper)
    → ((s : ReqState)
        → stage h' s ≡ (if same t s then erase p (stage h s) ++ p ∷ [] else erase p (stage h s)))
    → h'.item ≡ update h.item p (record (h.item p) { state = t; errcode = e })
    → h'.all_reqs ≡ h.all_reqs
    → h'.streamuses ≡ h.streamuses
    → h'.responses ≡ h.responses
    → Moved h p t h'
Moved-intro h p t e h' l i a u r = record {
  lists = l;
  state = ground (arith, i);
  others = λ q d. rw i (ground arith);
  stream = ground (arith, i);
  ident = rw i (rw (==_refl p) refl);
  all = a;
  uses = u;
  sent = r;
}

pub fail-Moved : (h : Helper) (p serr : ℕ) → Moved h p finished (kh_fail_request h p serr)
unfolding kh_fail_request list_del erase
fail-Moved h p serr =
    Moved-intro h p finished serr _
      (elim [
        | fresh ↦ refl
        | init ↦ refl
        | mem_done ↦ refl
        | prepared ↦ refl
        | running ↦ refl
        | post_exec ↦ refl
        | finished ↦ refl
      ])
      refl refl refl refl

module _ (a : Answers) where
  pub alloc_cases :
      (h : Helper) (p : ℕ)
      → (((a.alloc_device_mem p == 0) ≡ true) × Moved h p mem_done (kh_request_alloc_mem a h p).0)
        ⊎ (((a.alloc_device_mem p == 0) ≡ false) × (kh_request_alloc_mem a h p ≡ (h, 1)))
  unfolding kh_request_alloc_mem list_del erase
  alloc_cases h p = elim (Bool-cases (a.alloc_device_mem p == 0)) [
    | inl e ↦ inl (
      e,
      rw e (
          Moved-intro h p mem_done (h.item p).errcode _
            (elim [
              | fresh ↦ refl
              | init ↦ refl
              | mem_done ↦ refl
              | prepared ↦ refl
              | running ↦ refl
              | post_exec ↦ refl
              | finished ↦ refl
            ])
            refl refl refl refl),
    )
    | inr e ↦ inr (e, rw e refl)
  ]

  pub prepare_cases :
      (h : Helper) (p : ℕ)
      → Moved h p prepared (prepare_exec a h p).0 ⊎ Moved h p finished (prepare_exec a h p).0
  unfolding prepare_exec list_del erase
  prepare_cases h p = elim (Bool-cases (a.prepare p == 0)) [
    | inl e ↦ inl (
        rw e (
          Moved-intro h p prepared (h.item p).errcode _
            (elim [
              | fresh ↦ refl
              | init ↦ refl
              | mem_done ↦ refl
              | prepared ↦ refl
              | running ↦ refl
              | post_exec ↦ refl
              | finished ↦ refl
            ])
            refl refl refl refl))
    | inr e ↦ inr (rw e (fail-Moved h p (a.prepare p)))
  ]

  pub launch_cases :
      (h : Helper) (p : ℕ)
      → Moved h p running (kh_launch_exec a h p).0 ⊎ Moved h p finished (kh_launch_exec a h p).0
  unfolding kh_launch_exec list_del erase
  launch_cases h p = elim (Bool-cases (a.launch p == 0)) [
    | inl e ↦ inl (
        rw e (
          Moved-intro h p running (h.item p).errcode _
            (elim [
              | fresh ↦ refl
              | init ↦ refl
              | mem_done ↦ refl
              | prepared ↦ refl
              | running ↦ refl
              | post_exec ↦ refl
              | finished ↦ refl
            ])
            refl refl refl refl))
    | inr e ↦ inr (rw e (fail-Moved h p (a.launch p)))
  ]

  pub post_cases :
      (h : Helper) (p : ℕ)
      → ((a.execution_finished p ≡ true)
          × (Moved h p post_exec (kh_post_exec a h p).0
              ⊎ Moved h p finished (kh_post_exec a h p).0))
        ⊎ ((a.execution_finished p ≡ false) × (kh_post_exec a h p ≡ (h, 1)))
  unfolding kh_post_exec list_del erase
  post_cases h p = elim (Bool-cases (a.execution_finished p)) [
    | inr e ↦ inr (e, rw e refl)
    | inl e ↦ elim (Bool-cases (a.post p == 0)) [
      | inl f ↦ inl (
        e,
        inl (
            rw (e, f)
              (Moved-intro h p post_exec (h.item p).errcode _
                (elim [
                  | fresh ↦ refl
                  | init ↦ refl
                  | mem_done ↦ refl
                  | prepared ↦ refl
                  | running ↦ refl
                  | post_exec ↦ refl
                  | finished ↦ refl
                ])
                refl refl refl refl)),
      )
      | inr f ↦ inl (e, inr (rw (e, f) (fail-Moved h p (a.post p))))
    ]
  ]

  pub finish_cases :
      (h : Helper) (p : ℕ)
      → ((a.post_finished p ≡ true) × Moved h p finished (kh_finish_post a h p).0)
        ⊎ ((a.post_finished p ≡ false) × (kh_finish_post a h p ≡ (h, 1)))
  unfolding kh_finish_post list_del erase
  finish_cases h p = elim (Bool-cases (a.post_finished p)) [
    | inl e ↦ inl (
      e,
      rw e (
          Moved-intro h p finished (h.item p).errcode _
            (elim [
              | fresh ↦ refl
              | init ↦ refl
              | mem_done ↦ refl
              | prepared ↦ refl
              | running ↦ refl
              | post_exec ↦ refl
              | finished ↦ refl
            ])
            refl refl refl refl),
    )
    | inr e ↦ inr (e, rw e refl)
  ]
