-- ===== src/Helper/Progress.antt =====
-- Rounds of kh_main_loop of kgpu/src/userSpace/helper.c in which the device grants memory and the GPU
-- has finished what it is asked about.
use kgpu_fga.Base.{
  ℕ, ◌+◌, ◌≤◌, ◌<◌, ◌≡◌, refl, sym, arith, ◌==◌, List, [], ◌∷◌, Bool, true, false, ◌⊎◌, ◌&&◌,
  Bool-cases, inl, inr, ==_refl,
}
use native.Mathlib.Nat.{le_refl}
use kgpu_fga.Gpu.Streams.{alloc_stream_cases}
use kgpu_fga.Helper.{
  Helper, Handler, Answers, ReqState, fresh, init, mem_done, prepared, running, post_exec, finished,
  kh_request_alloc_mem, kh_prepare_exec, kh_launch_exec, kh_post_exec, kh_finish_post,
  kh_service_done, process_request, kh_round,
}
use kgpu_fga.Helper.Lists.{count}
use kgpu_fga.Helper.Invariant.{Inv, Lives, stage, state_of, early}
use kgpu_fga.Helper.Handlers.{alloc-Keeps, launch-Keeps, post-Keeps, finish-Keeps}
use kgpu_fga.Helper.Process.{Serves, prepare-Keeps, done-Keeps, process-Inv, rest_le}
use kgpu_fga.Helper.Rounds.{passes}
use kgpu_fga.Helper.Work.{
  work, Drops, has_stream, alloc-Drops, launch-Drops, post-Drops, finish-Drops, prepare-Drops,
  done-Drops,
}

-- `b` says when a handler moves an item on.
module _ (op : Handler) (once : Bool) (s : ReqState) (serves : Serves op s) (b : Helper → ℕ → Bool)
    (drops : (h : Helper) (p : ℕ)
      → Inv h
      → 0 < count p (stage h s)
      → Drops h (op h p).0 (b h p)) where
  process_le :
      (l : List ℕ) (h : Helper)
      → Inv h
      → ((q : ℕ) → count q l ≤ count q (stage h s))
      → work (process_request op once l h) ≤ work h
  unfolding process_request count
  process_le [] h v sub = le_refl _
  process_le (p ∷ n) h v sub =
      let here : 0 < count p (stage h s) = ground (arith, sub p, ==_refl p) in
      let k = serves h p v here in
      let ih = process_le n (op h p).0 k.inv (rest_le h (op h p).0 p s n v k sub) in
      elim (Bool-cases (((op h p).1 == 0) && once)) [
        | inl e ↦ rw e (omega (arith, drops h p v here))
        | inr e ↦ rw e (omega (arith, drops h p v here, ih))
      ]

  process_less :
      (p : ℕ) (n : List ℕ) (h : Helper)
      → Inv h
      → ((q : ℕ) → count q (p ∷ n) ≤ count q (stage h s))
      → b h p ≡ true
      → work (process_request op once (p ∷ n) h) + 1 ≤ work h
  unfolding process_request count
  process_less p n h v sub go =
      let here : 0 < count p (stage h s) = ground (arith, sub p, ==_refl p) in
      let k = serves h p v here in
      let less : work (op h p).0 + 1 ≤ work h = ground (arith, drops h p v here) in
      let ih = process_le n (op h p).0 k.inv (rest_le h (op h p).0 p s n v k sub) in
      elim (Bool-cases (((op h p).1 == 0) && once)) [
        | inl e ↦ rw e less
        | inr e ↦ rw e (omega (arith, ih, less))
      ]

  -- A pass over the list makes a step, or finds the list empty.
  pass_work :
      (l : List ℕ) (h : Helper)
      → Inv h
      → l ≡ stage h s
      → ((p : ℕ) → 0 < count p (stage h s) → b h p ≡ true)
      → (work (process_request op once l h) + 1 ≤ work h)
        ⊎ ((process_request op once l h ≡ h) × (stage h s ≡ []))
  unfolding process_request count
  pass_work [] h v e go = inr (refl, sym e)
  pass_work (p ∷ n) h v e go = inl (
      process_less p n h v (λ q. rw (← e) (le_refl _))
        (go p (rw (← e) (ground (arith, ==_refl p)))))

  -- A pass after others that have made a step since `h₀`, or found the lists of `Idle` empty.
  pub next_pass :
      (Idle : Type 0) (h₀ h : Helper)
      → Inv h
      → (Idle → (p : ℕ) → 0 < count p (stage h₀ s) → b h₀ p ≡ true)
      → (work h + 1 ≤ work h₀) ⊎ ((h ≡ h₀) × Idle)
      → Inv (process_request op once (stage h s) h)
        × ((work (process_request op once (stage h s) h) + 1 ≤ work h₀)
            ⊎ ((process_request op once (stage h s) h ≡ h₀) × (Idle × (stage h₀ s ≡ []))))
  next_pass Idle h₀ h v go (inl less) = (
    process-Inv op once s serves (stage h s) h v (λ q. le_refl _),
    inl (omega (arith, process_le (stage h s) h v (λ q. le_refl _), less)),
  )
  next_pass Idle h₀ h v go (inr (e, idle)) = (
    process-Inv op once s serves (stage h s) h v (λ q. le_refl _),
    rw e (elim (pass_work (stage h₀ s) h₀ (rw (← e) v) refl (go idle)) [
      | inl less ↦ inl less
      | inr (f, none_left) ↦ inr (f, (idle, none_left))
    ]),
  )

-- The device grants memory, and the GPU has finished.
pub record IsWilling (a : Answers) : Type 0 where
  pub memory : (p : ℕ) → a.alloc_device_mem p ≡ 0
  pub executed : (p : ℕ) → a.execution_finished p ≡ true
  pub posted : (p : ℕ) → a.post_finished p ≡ true

module _ (h : Helper) (v : Inv h) (no_done : h.done_reqs ≡ []) (no_post : h.post_exec_reqs ≡ [])
    (no_running : h.running_reqs ≡ []) (no_prepared : h.prepared_reqs ≡ []) where
  all_early : (q : ℕ) → Lives h q → (s : ReqState) → state_of h q ≡ s → early h q ≡ true
  unfolding count
  all_early q l fresh e = ground (arith, v.placed q fresh)
  all_early q l init e = rw e refl
  all_early q l mem_done e = rw e refl
  all_early q l prepared e = ground (arith, v.placed q prepared)
  all_early q l running e = ground (arith, v.placed q running)
  all_early q l post_exec e = ground (arith, v.placed q post_exec)
  all_early q l finished e = ground (arith, v.placed q finished)

  -- If no item is past its preparation, a stream is free.
  stream_free : has_stream h.streamuses ≡ true
  stream_free = elim (alloc_stream_cases h.streamuses) [
    | inr (i, e, _, _, _) ↦ rw (has_stream, e) refl
    | inl (e, all) ↦
        let (q, l, f) = v.owned 0 (all 0 (omega arith)) in
        let g = v.idle q l (all_early q l (state_of h q) refl) in cc
  ]

module _ (a : Answers) (ok : IsWilling a) where
  -- Each round brings the requests a step nearer to their answers, until there are none.
  pub passes-work :
      (h : Helper) → Inv h → (work (passes a h) + 1 ≤ work h) ⊎ (work (passes a h) ≡ 0)
  unfolding kh_round
  passes-work h v =
      let p₁ =
        next_pass kh_service_done false finished done-Keeps (λ h p. true) done-Drops (Unit {0}) h h
          v (λ i p l. refl) (inr (refl, tt)) in
      let p₂ =
        next_pass (kh_finish_post a) false post_exec (finish-Keeps a) (λ h p. a.post_finished p)
          (finish-Drops a) _ h _ p₁.0 (λ i p l. ok.posted p) p₁.1 in
      let p₃ =
        next_pass (kh_post_exec a) true running (post-Keeps a) (λ h p. a.execution_finished p)
          (post-Drops a) _ h _ p₂.0 (λ i p l. ok.executed p) p₂.1 in
      let p₄ =
        next_pass (kh_launch_exec a) true prepared (launch-Keeps a) (λ h p. true) (launch-Drops a) _
          h _ p₃.0 (λ i p l. refl) p₃.1 in
      let p₅ =
        next_pass (kh_prepare_exec a) true mem_done (λ h p w l. prepare-Keeps a w l)
          (λ h p. has_stream h.streamuses) (prepare-Drops a) _ h _ p₄.0
          (λ ((((_, d), f), r), q) p l. stream_free h v d f r q) p₄.1 in
      let p₆ =
        next_pass (kh_request_alloc_mem a) false init (alloc-Keeps a)
          (λ h p. a.alloc_device_mem p == 0) (alloc-Drops a) _ h _ p₅.0
          (λ i p l. ground (arith, ok.memory p)) p₅.1 in
      elim p₆.1 [
        | inl less ↦ inl less
        | inr (e, ((((((_, d), f), r), q), m), i)) ↦ inr (rw e (rw (d, f, r, q, m, i) refl))
      ]
