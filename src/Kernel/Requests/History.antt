-- ===== src/Kernel/Requests/History.antt =====
-- Histories of calls into kgpu/src/kernelSpace/main.c, against an abstract machine of two queues: a
-- request is submitted at the end of the first, delivered to the end of the second, and answered.
use kgpu_fga.Base.{
  ℕ, ◌+◌, ◌-◌, ◌<◌, ◌≡◌, refl, inl, inr, Bool, true, false, arith, ltb, ◌==◌, Bool-cases, update,
  List, [], ◌∷◌, ◌++◌, Option, none, some, length, length-append, All, ap, ◌∙◌, Option-cases, subst,
  some-injective,
}
use kgpu_fga.Config.{kgpu_terminated, nat}
use kgpu_fga.Kernel.Requests.{
  KgpuDev, kgpu_call_async, kgpu_call_sync_begin, kgpu_call_sync_end, kgpu_read, kgpu_write, invoke,
  terminate_all_requests,
}
use kgpu_fga.Kernel.Requests.Queue.{find_request_cases}

pub data Call : Type 0 where
  asyncs : ℕ → Bool → Call
  syncs : (req p : ℕ) → (data_ok item_ok : Bool) → Call
  wakes : (req p : ℕ) → Call
  reads : Bool → ℕ → Call
  writes : (count id errcode : ℕ) → Call
  stops : Call

-- The state of a call that has not faulted.
abbrev pub after {ℓ} : {A : Type ℓ} → Option (KgpuDev × A) → Option KgpuDev
after none = none
after (some (d, _)) = some d

unfoldable pub step : (uva kva npages : ℕ) → KgpuDev → Call → Option KgpuDev
step uva kva npages d (asyncs req ok) = some (kgpu_call_async d req ok).0
step uva kva npages d (syncs req p data_ok item_ok) =
    some (kgpu_call_sync_begin d req p data_ok item_ok).0
step uva kva npages d (wakes req p) = after (kgpu_call_sync_end d req p)
step uva kva npages d (reads nonblock c) = some (kgpu_read uva kva npages d nonblock c).0
step uva kva npages d (writes count id errcode) = after (kgpu_write d count id errcode)
step uva kva npages d stops = some (terminate_all_requests d).0

unfoldable pub run : (uva kva npages : ℕ) → KgpuDev → List Call → Option KgpuDev
run uva kva npages d [] = some d
run uva kva npages d (c ∷ cs) = elim (step uva kva npages d c) [
  | none ↦ none
  | some d' ↦ run uva kva npages d' cs
]

-- One step of the abstract machine; a queued request holds one item.
pub data Move (d d' : KgpuDev) : Type 0 where
  keep : d'.reqs ≡ d.reqs → d'.rtdreqs ≡ d.rtdreqs → d'.items ≡ d.items → Move d d'
  submit :
      (r : ℕ)
      → d'.reqs ≡ d.reqs ++ r ∷ []
      → d'.rtdreqs ≡ d.rtdreqs
      → d'.items ≡ d.items + 1
      → Move d d'
  deliver :
      (r : ℕ)
      → d.reqs ≡ r ∷ d'.reqs
      → d'.rtdreqs ≡ d.rtdreqs ++ r ∷ []
      → d'.items ≡ d.items
      → Move d d'
  answer :
      (r : ℕ) (xs ys : List ℕ)
      → d.rtdreqs ≡ xs ++ r ∷ ys
      → d'.rtdreqs ≡ xs ++ ys
      → d'.reqs ≡ d.reqs
      → d'.items ≡ d.items - 1
      → Move d d'

async-Move : (d : KgpuDev) (req : ℕ) (ok : Bool) → Move d (kgpu_call_async d req ok).0
unfolding kgpu_call_async
async-Move d req ok = elim (Bool-cases (d.state == kgpu_terminated)) [
  | inl e ↦ rw e (keep refl refl refl)
  | inr e ↦ elim (Bool-cases ok) [
    | inl f ↦ rw (e, f) (submit req refl refl refl)
    | inr f ↦ rw (e, f) (keep refl refl refl)
  ]
]

sync-Move :
    (d : KgpuDev) (req p : ℕ) (data_ok item_ok : Bool)
    → Move d (kgpu_call_sync_begin d req p data_ok item_ok).0
unfolding kgpu_call_sync_begin
sync-Move d req p true true = elim (Bool-cases (d.state == kgpu_terminated)) [
  | inl e ↦ rw e (keep refl refl refl)
  | inr e ↦ rw e (submit req refl refl refl)
]
sync-Move d req p true false = keep (ground arith) (ground arith) (ground arith)
sync-Move d req p false item_ok = keep (ground arith) (ground arith) (ground arith)

wake-Move : (d d' : KgpuDev) (req p : ℕ) → after (kgpu_call_sync_end d req p) ≡ some d' → Move d d'
unfolding kgpu_call_sync_end
wake-Move d d' req p e = elim (Option-cases (d.sync_data p)) [
  | inl f ↦ let g = rw (after, f) at e in cc
  | inr (saved, f) ↦ let g = rw (after, f) at e in keep (ground arith) (ground arith) (ground arith)
]

read-Move :
    (uva kva npages : ℕ) (d : KgpuDev) (nonblock : Bool) (c : ℕ) (l : List ℕ)
    → d.reqs ≡ l
    → 0 < c
    → Move d (kgpu_read uva kva npages d nonblock c).0
unfolding kgpu_read
read-Move uva kva npages d nonblock c [] e pos = keep (ground arith) (ground arith) (ground arith)
read-Move uva kva npages d nonblock c (r ∷ rest) e pos =
    deliver r (ground arith) (ground arith) (ground arith)

-- A callback leaves the queues and the items alone.
invoke_frame :
    (d d' : KgpuDev) (r : ℕ)
    → invoke d r ≡ some d'
    → (d'.reqs ≡ d.reqs) × (d'.rtdreqs ≡ d.rtdreqs) × (d'.items ≡ d.items)
unfolding invoke
invoke_frame d d' r e = ground arith

write_frame :
    (d d₁ d' : KgpuDev) (count r : ℕ) (rest : List ℕ)
    → (d₁.reqs ≡ d.reqs) × (d₁.rtdreqs ≡ rest) × (d₁.items ≡ d.items)
    → after (elim (invoke d₁ r) [
      | none ↦ none
      | some d₂ ↦ some (record d₂ { fpos = d₂.fpos + count; items = d₂.items - 1 }, nat count)
    ])
      ≡ some d'
    → (d'.reqs ≡ d.reqs) × (d'.rtdreqs ≡ rest) × (d'.items ≡ d.items - 1)
write_frame d d₁ d' count r rest h e = elim (Option-cases (invoke d₁ r)) [
  | inl f ↦ let g = rw f at e in cc
  | inr (d₂, f) ↦ let g = rw f at e in ground (arith, invoke_frame d₁ d₂ r f)
]

write-Move :
    (d d' : KgpuDev) (count id errcode : ℕ)
    → after (kgpu_write d count id errcode) ≡ some d'
    → Move d d'
unfolding kgpu_write
write-Move d d' count id errcode e = elim (Bool-cases (ltb count 8)) [
  | inl short ↦ let g = rw short at e in keep (ground arith) (ground arith) (ground arith)
  | inr long ↦ elim (find_request_cases d.request id d.rtdreqs) [
    | inl (f, _) ↦ let g = rw (long, f) at e in keep (ground arith) (ground arith) (ground arith)
    | inr (r, rest, f, g) ↦
        let d₁ : KgpuDev = record d {
          rtdreqs = rest;
          request = update d.request r (record (d.request r) { errcode = errcode });
        } in
        let (q, t, i) = write_frame d d₁ d' count r rest (refl, refl, refl) (rw (long, f) at e) in
        answer r g.before g.behind g.split (t ∙ g.others) q i
  ]
]

-- A read has a positive count.
abbrev pub IsPositive : Call → Type 0
IsPositive (reads nonblock c) = 0 < c
IsPositive (asyncs _ _) = Unit
IsPositive (syncs _ _ _ _) = Unit
IsPositive (wakes _ _) = Unit
IsPositive (writes _ _ _) = Unit
IsPositive stops = Unit

-- A call into the driver (kgpu_call_async, the start or the end of kgpu_call_sync, a read of at
-- least one byte, a write, the stop) that does not fault makes one move of the abstract machine of
-- two queues: it keeps queues and items, submits a request with a new item at the end of the first
-- queue, delivers the first request of the first queue to the end of the second, or answers one
-- request of the second and frees an item.
pub step-Move :
    (uva kva npages : ℕ) (d d' : KgpuDev) (c : Call)
    → IsPositive c
    → step uva kva npages d c ≡ some d'
    → Move d d'
unfolding step terminate_all_requests
step-Move uva kva npages d d' (asyncs req ok) pos e =
    subst (Move d) (some-injective _ _ e) (async-Move d req ok)
step-Move uva kva npages d d' (syncs req p data_ok item_ok) pos e =
    subst (Move d) (some-injective _ _ e) (sync-Move d req p data_ok item_ok)
step-Move uva kva npages d d' (wakes req p) pos e = wake-Move d d' req p e
step-Move uva kva npages d d' (reads nonblock c) pos e =
    subst (Move d) (some-injective _ _ e) (read-Move uva kva npages d nonblock c d.reqs refl pos)
step-Move uva kva npages d d' (writes count id errcode) pos e = write-Move d d' count id errcode e
step-Move uva kva npages d d' stops pos e =
    subst (Move d) (some-injective _ _ e) (keep refl refl refl)

-- Every live item stands in exactly one place of one queue.
abbrev pub IsBalanced : KgpuDev → Type 0
IsBalanced d = d.items ≡ length d.reqs + length d.rtdreqs

Move-IsBalanced : (d d' : KgpuDev) → Move d d' → IsBalanced d → IsBalanced d'
Move-IsBalanced d d' (keep q t i) b = rw (q, t, i) b
Move-IsBalanced d d' (submit r q t i) b =
    rw (q, t, i) (omega (arith, length-append d.reqs (r ∷ [])))
Move-IsBalanced d d' (deliver r q t i) b =
    omega (arith, ap length q, ap length t, length-append d.rtdreqs (r ∷ []))
Move-IsBalanced d d' (answer r xs ys t t' q i) b =
    omega (
      arith,
      ap length t,
      ap length t',
      ap length q,
      length-append xs (r ∷ ys),
      length-append xs ys,
    )

-- A history of calls that does not fault and in which each read asks for at least one byte keeps
-- the number of live items equal to the number of requests in the two queues.
pub run-IsBalanced :
    (uva kva npages : ℕ) (d d' : KgpuDev) (cs : List Call)
    → All IsPositive cs
    → run uva kva npages d cs ≡ some d'
    → IsBalanced d
    → IsBalanced d'
unfolding run
run-IsBalanced uva kva npages d d' [] pos e b = subst IsBalanced (some-injective _ _ e) b
run-IsBalanced uva kva npages d d' (c ∷ cs) pos e b =
    elim (Option-cases (step uva kva npages d c)) [
      | inl f ↦ let g = rw (run, f) at e in cc
      | inr (d₁, f) ↦
          run-IsBalanced uva kva npages d₁ d' cs pos.1 (rw (run, f) at e)
            (Move-IsBalanced d d₁ (step-Move uva kva npages d d₁ c pos.0 f) b)
    ]

-- A read of zero bytes from a queue that is not empty, with items that balance the queues, takes
-- the first request off the first queue and puts it on neither, so that the items balance no
-- longer.
pub read_zero_loses :
    (uva kva npages : ℕ) (d : KgpuDev) (nonblock : Bool) (r : ℕ) (rest : List ℕ)
    → d.reqs ≡ r ∷ rest
    → IsBalanced d
    → let d' = (kgpu_read uva kva npages d nonblock 0).0 in
      (d'.reqs ≡ rest) × (d'.rtdreqs ≡ d.rtdreqs) × (¬ IsBalanced d')
unfolding kgpu_read
read_zero_loses uva kva npages d nonblock r rest e b =
    rw e (refl, refl, λ b'. omega (arith, b, ap length e))
