-- ===== src/System.antt =====
-- The driver (kgpu/src/kernelSpace/main.c) and the helper process (kgpu/src/userSpace/helper.c) on the two
-- sides of the device file, with the clients of kgpu_call_async. The actions interleave in any order: a
-- client's call comes before or after the six passes of a round and before or after the poll and the
-- read. The responses of a round are written in the order in which its first pass sends them; a client's
-- call between two of them has the effect it has before the pass. The helper blocks in poll while it
-- has no request and none is queued.
pub mod Delivery
pub mod Listen
pub mod Matched
pub mod Exchange
pub mod Measure
pub mod Progress
pub mod Boot
use kgpu_fga.Base.{
  ℕ, Bool, true, false, not, ◌&&◌, if◌then◌else◌, List, [], ◌∷◌, Option, none, some,
}
use kgpu_fga.Config.{CInt, nat, neg}
use kgpu_fga.Kernel.Requests.{KgpuDev, KgpuKuRequest, kgpu_call_async, kgpu_read, kgpu_write}
use kgpu_fga.Kernel.Control.{kgpu_poll}
use kgpu_fga.Helper.{Helper, KuRequest, Answers, kh_round}
use kgpu_fga.Helper.Input.{
  InputEnv, Timeout, forever, at_once, poll_timeout, PollResult, ready, bytes, broken, none_ready,
  taken, aborted, kh_get_next_service_request,
}

-- The driver's mapping of the pool, the helper's malloc, and the service that kh_lookup_service finds
-- under a name.
pub record Wiring : Type 0 where
  pub uva : ℕ
  pub kva : ℕ
  pub npages : ℕ
  pub malloc : Helper → ℕ
  pub lookup : List ℕ → Option ℕ

-- `listening`: the helper has made the passes of its round and has not come back from poll and read.
-- The helper's `responses` are those of its last passes.
pub record System : Type 0 where
  pub dev : KgpuDev
  pub helper : Helper
  pub listening : Bool

-- _safe_syscall of the helper: none is abort.
unfoldable pub safe_syscall : CInt → Option ℕ
safe_syscall (nat r) = some r
safe_syscall (neg e) = none

-- kh_send_response: none is a fault of the driver or an abort of the helper.
unfoldable pub kh_send_response : KgpuDev → ℕ × ℕ → Option KgpuDev
unfolding safe_syscall
kh_send_response d resp = elim (kgpu_write d 8 (resp.0) (resp.1)) [
  | none ↦ none
  | some (d', r) ↦ elim (safe_syscall r) [ none ↦ none | some _ ↦ some d' ]
]

-- The responses, newest first, are written from the oldest on.
unfoldable pub send_responses : KgpuDev → List (ℕ × ℕ) → Option KgpuDev
unfolding kh_send_response
send_responses d [] = some d
send_responses d (resp ∷ earlier) = elim (send_responses d earlier) [
  | none ↦ none
  | some d' ↦ kh_send_response d' resp
]

-- The passes of a round, with the responses that they write.
unfoldable pub serve : Answers → System → Option System
serve a s =
    let h = kh_round a (record s.helper { responses = [] }) none in
    elim (send_responses s.dev h.responses) [
      | none ↦ none
      | some d ↦ some (record { dev = d; helper = h; listening = true })
    ]

module _ (w : Wiring) where
  unfoldable pub ku_request : KgpuKuRequest → KuRequest
  ku_request q = record {
    id = q.id;
    in_addr = q.in_addr;
    out_addr = q.out_addr;
    data_addr = q.udata;
    insize = q.insize;
    outsize = q.outsize;
    datasize = q.datasize;
    service = w.lookup q.service_name;
  }

  -- read of the helper: sizeof(struct kgpu_ku_request) is 112.
  abbrev pub helper_read : KgpuDev → KgpuDev × Option KgpuKuRequest × CInt
  helper_read d = kgpu_read w.uva w.kva w.npages d false 112

  -- What the helper's poll and read get from the driver.
  unfoldable pub driver_input : KgpuDev → InputEnv
  unfolding ku_request
  driver_input d = record {
    poll = λ t. if (kgpu_poll d).readable then ready 1 true else ready 0 false;
    malloc = w.malloc;
    read = elim ((helper_read d).1) [ none ↦ broken | some q ↦ bytes (ku_request q) ];
  }

  -- poll without an end of its wait.
  unfoldable pub poll_blocks : System → Bool
  poll_blocks s =
      not (kgpu_poll s.dev).readable
      && elim (poll_timeout s.helper) [ forever ↦ true | at_once ↦ false ]

  -- The end of a round. A driver that is read has the request off its first queue.
  unfoldable pub listen : System → Option System
  listen s =
      if poll_blocks s
      then some s
      else elim (kh_get_next_service_request (driver_input s.dev) s.helper) [
        | none_ready h ↦ some (record { dev = s.dev; helper = h; listening = false })
        | taken h ↦ some (record { dev = (helper_read s.dev).0; helper = h; listening = false })
        | aborted ↦ none
      ]

pub data Action : Type 0 where
  submits : (req : ℕ) → (item_ok : Bool) → Action
  serves : Answers → Action
  listens : Action

-- The helper's two actions alternate; one that is not next changes nothing.
unfoldable pub act : Wiring → System → Action → Option System
act w s (submits req ok) = some (record s { dev = (kgpu_call_async s.dev req ok).0 })
act w s (serves a) = if s.listening then some s else serve a s
act w s listens = if s.listening then listen w s else some s

unfoldable pub act_all : Wiring → System → List Action → Option System
act_all w s [] = some s
act_all w s (x ∷ xs) = elim (act w s x) [ none ↦ none | some s' ↦ act_all w s' xs ]
