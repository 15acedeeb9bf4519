-- ===== src/System/Measure.antt =====
-- What the requests of the driver (kgpu/src/kernelSpace/main.c) and of the helper
-- (kgpu/src/userSpace/helper.c) still have to make in steps.
use kgpu_fga.Base.{
  ℕ, ◌+◌, ◌*◌, ◌≤◌, ◌≡◌, refl, ap, arith, List, [], ◌∷◌, inl, inr, map, ==_refl, Option-cases,
  length, length-append,
}
use kgpu_fga.Helper.{
  Helper, KuRequest, erase, kh_init_service_request, kh_fail_request, list_del, ReqState, init,
  mem_done, prepared, running, post_exec, finished,
}
use kgpu_fga.Helper.Lists.{count}
use kgpu_fga.Helper.Invariant.{Inv, stage}
use kgpu_fga.Helper.Work.{work, length-erase}
use kgpu_fga.System.{System}

erase_le : (p : ℕ) (l : List ℕ) → length (erase p l) ≤ length l
erase_le p l = omega (arith, length-erase p l)

pub new-work :
    (h : Helper) (p : ℕ) (kureq : KuRequest) → work (kh_init_service_request h p kureq) ≤ work h + 6
unfolding kh_init_service_request kh_fail_request list_del
new-work h p kureq = elim (Option-cases kureq.service) [
  | inl e ↦ rw e (
      omega (
        arith,
        length-append (erase p h.done_reqs) (p ∷ []),
        erase_le p h.init_reqs,
        erase_le p h.memdone_reqs,
        erase_le p h.prepared_reqs,
        erase_le p h.running_reqs,
        erase_le p h.post_exec_reqs,
        erase_le p h.done_reqs,
      ))
  | inr (k, e) ↦ rw e (omega (arith, length-append h.init_reqs (p ∷ [])))
]

-- A list in which nothing is counted is empty.
pub none_counted : (l : List ℕ) → ((n : ℕ) → count n l ≡ 0) → l ≡ []
unfolding count
none_counted [] z = refl
none_counted (x ∷ l) z = absurd (ground (arith, z x, ==_refl x))

pub map-none : (f : ℕ → ℕ) (l : List ℕ) → map f l ≡ [] → l ≡ []
map-none f [] e = refl
map-none f (x ∷ l) e = cc

-- The steps that the requests of the two queues and of the helper still have to make.
abbrev pub measure : System → ℕ
measure s = 7 * length s.dev.reqs + work s.helper

-- No request is queued or live.
abbrev pub IsIdle : System → Type 0
IsIdle s = (s.dev.reqs ≡ []) × (s.helper.all_reqs ≡ [])

module _ (h : Helper) (v : Inv h) (z : h.all_reqs ≡ []) where
  unstaged : (s : ReqState) → stage h s ≡ []
  unfolding count
  unstaged s = none_counted (stage h s) (λ n. ground (arith, v.placed n s, ap (λ l. count n l) z))

  pub idle-work : work h ≡ 0
  idle-work =
      rw
        (
          unstaged init,
          unstaged mem_done,
          unstaged prepared,
          unstaged running,
          unstaged post_exec,
          unstaged finished,
        )
        refl

pub length-none : (l : List ℕ) → length l ≡ 0 → l ≡ []
length-none [] e = refl
length-none (x ∷ l) e = absurd (omega (arith, e))
