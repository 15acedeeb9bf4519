-- ===== src/Helper.antt =====
-- The helper process, kgpu/src/userSpace/helper.c: the lists of requests by state, the handlers that
-- move a request from one list to the next, __kh_process_request and a round of kh_main_loop. Items
-- lie in a store under their addresses. The seven lists are lists of addresses; a list_del takes an
-- item off whichever list of states it is on. What services and the GPU answer for an item is a
-- parameter of each round. Output, the
-- device memory that kh_service_done frees, and the sizes that a service computes are left out.
pub mod Lists
pub mod Invariant
pub mod Moves
pub mod Handlers
pub mod Process
pub mod Rounds
pub mod Stuck
pub mod Work
pub mod Progress
pub mod Tally
pub mod Answered
pub mod Input
pub mod Loop
use kgpu_fga.Base.{
  ℕ, zero, suc, ◌+◌, ◌-◌, Bool, true, false, if◌then◌else◌, ◌==◌, not, ◌&&◌, update, List, [], ◌∷◌,
  ◌++◌, Option, none, some,
}
use kgpu_fga.Config.{kgpu_ok, kgpu_no_service}
use kgpu_fga.Gpu.Streams.{gpu_alloc_stream, gpu_free_stream}

-- KGPU_REQ_INIT to KGPU_REQ_DONE (kgpu/include/no_kernel.h), and 0 before the first.
pub data ReqState : Type 0 where
  fresh init mem_done prepared running post_exec finished : ReqState

-- struct kgpu_service_request, without the fields for the launch and the device addresses. A service
-- is its index; `stream_id` -1 is `none`.
pub record ServiceRequest : Type 0 where
  pub id : ℕ
  pub hin : ℕ
  pub hout : ℕ
  pub hdata : ℕ
  pub insize : ℕ
  pub outsize : ℕ
  pub datasize : ℕ
  pub errcode : ℕ
  pub service : Option ℕ
  pub state : ReqState
  pub stream_id : Option ℕ

-- struct kgpu_ku_request with the service that kh_lookup_service finds under its name.
pub record KuRequest : Type 0 where
  pub id : ℕ
  pub in_addr : ℕ
  pub out_addr : ℕ
  pub data_addr : ℕ
  pub insize : ℕ
  pub outsize : ℕ
  pub datasize : ℕ
  pub service : Option ℕ

-- `responses` has the pairs (id, errcode) that were written to the device, newest first.
pub record Helper : Type 0 where
  pub item : ℕ → ServiceRequest
  pub all_reqs : List ℕ
  pub init_reqs : List ℕ
  pub memdone_reqs : List ℕ
  pub prepared_reqs : List ℕ
  pub running_reqs : List ℕ
  pub post_exec_reqs : List ℕ
  pub done_reqs : List ℕ
  pub streamuses : ℕ → Bool
  pub responses : List (ℕ × ℕ)

-- What gpu_alloc_device_mem and a service's functions return for an item, and whether the GPU has
-- finished with it.
pub record Answers : Type 0 where
  pub alloc_device_mem : ℕ → ℕ
  pub prepare : ℕ → ℕ
  pub launch : ℕ → ℕ
  pub post : ℕ → ℕ
  pub execution_finished : ℕ → Bool
  pub post_finished : ℕ → Bool

-- The list without the first `p`.
unfoldable pub erase : ℕ → List ℕ → List ℕ
erase p [] = []
erase p (q ∷ l) = if p == q then l else q ∷ erase p l

-- list_del(&sreq->list)
unfoldable pub list_del : Helper → ℕ → Helper
list_del h p = record h {
  init_reqs = erase p h.init_reqs;
  memdone_reqs = erase p h.memdone_reqs;
  prepared_reqs = erase p h.prepared_reqs;
  running_reqs = erase p h.running_reqs;
  post_exec_reqs = erase p h.post_exec_reqs;
  done_reqs = erase p h.done_reqs;
}

-- A handler returns the new state and an `int`, of which only is read whether it is 0: -1 is 1 here.
abbrev pub Handler : Type 0
Handler = Helper → ℕ → Helper × ℕ

-- sreq->sr.state = state
abbrev pub set_state : Helper → ℕ → ReqState → ℕ → ServiceRequest
set_state h p state = update h.item p (record (h.item p) { state = state })

unfoldable pub kh_fail_request : Helper → ℕ → ℕ → Helper
kh_fail_request h p serr =
    let moved = list_del h p in
    record moved {
      item = update h.item p (record (h.item p) { state = finished; errcode = serr });
      done_reqs = moved.done_reqs ++ p ∷ [];
    }

-- The new item at the address `p`.
unfoldable pub kh_init_service_request : Helper → ℕ → KuRequest → Helper
kh_init_service_request h p kureq =
    let sr : ServiceRequest = record {
      id = kureq.id;
      hin = kureq.in_addr;
      hout = kureq.out_addr;
      hdata = kureq.data_addr;
      insize = kureq.insize;
      outsize = kureq.outsize;
      datasize = kureq.datasize;
      errcode = 0;
      service = kureq.service;
      state = fresh;
      stream_id = none;
    } in
    let h' = record h { all_reqs = h.all_reqs ++ p ∷ []; item = update h.item p sr } in
    elim kureq.service [
      | none ↦ kh_fail_request h' p kgpu_no_service
      | some s ↦ record h' { item = set_state h' p init; init_reqs = h'.init_reqs ++ p ∷ [] }
    ]

module _ (a : Answers) where
  unfoldable pub kh_request_alloc_mem : Handler
  kh_request_alloc_mem h p =
      let moved = list_del h p in
      if a.alloc_device_mem p == 0
      then (
        record moved { item = set_state h p mem_done; memdone_reqs = moved.memdone_reqs ++ p ∷ [] },
        0,
      )
      else (h, 1)

  -- From the call of the service's prepare on, with the stream allocated.
  unfoldable pub prepare_exec : Handler
  prepare_exec h p =
      let moved = list_del h p in
      if a.prepare p == 0
      then (
        record moved {
          item = set_state h p prepared;
          prepared_reqs = moved.prepared_reqs ++ p ∷ [];
        },
        0,
      )
      else (kh_fail_request h p (a.prepare p), a.prepare p)

  unfoldable pub kh_prepare_exec : Handler
  kh_prepare_exec h p = elim (gpu_alloc_stream h.streamuses) [
    | none ↦ (h, 1)
    | some (uses, i) ↦
        prepare_exec
          (record h {
            streamuses = uses;
            item = update h.item p (record (h.item p) { stream_id = some i });
          })
          p
  ]

  unfoldable pub kh_launch_exec : Handler
  kh_launch_exec h p =
      let moved = list_del h p in
      if a.launch p == 0
      then (
        record moved { item = set_state h p running; running_reqs = moved.running_reqs ++ p ∷ [] },
        0,
      )
      else (kh_fail_request h p (a.launch p), 0)

  unfoldable pub kh_post_exec : Handler
  kh_post_exec h p =
      let moved = list_del h p in
      if a.execution_finished p
      then if a.post p == 0
        then (
          record moved {
            item = set_state h p post_exec;
            post_exec_reqs = moved.post_exec_reqs ++ p ∷ [];
          },
          0,
        )
        else (kh_fail_request h p (a.post p), a.post p)
      else (h, 1)

  unfoldable pub kh_finish_post : Handler
  kh_finish_post h p =
      let moved = list_del h p in
      if a.post_finished p
      then (
        record moved { item = set_state h p finished; done_reqs = moved.done_reqs ++ p ∷ [] },
        0,
      )
      else (h, 1)

-- The response, and the release of the item with its stream.
unfoldable pub kh_service_done : Handler
kh_service_done h p =
    let moved = list_del h p in
    (
      record moved {
        responses = ((h.item p).id, (h.item p).errcode) ∷ h.responses;
        all_reqs = erase p h.all_reqs;
        streamuses = gpu_free_stream h.streamuses (h.item p).stream_id;
      },
      0,
    )

-- __kh_process_request: the loop over the items that the list has at its start.
unfoldable pub process_request : Handler → Bool → List ℕ → Helper → Helper
process_request op once [] h = h
process_request op once (p ∷ n) h =
    let (h', r) = op h p in
    let rest = process_request op once n h' in if (r == 0) && once then h' else rest

-- A request that kh_get_next_service_request reads in a round, with the address of its new item.
abbrev pub Arrival : Type 0
Arrival = Option (ℕ × KuRequest)

-- One round of kh_main_loop.
unfoldable pub kh_round : Answers → Helper → Arrival → Helper
kh_round a h arrival =
    let h₁ = process_request kh_service_done false h.done_reqs h in
    let h₂ = process_request (kh_finish_post a) false h₁.post_exec_reqs h₁ in
    let h₃ = process_request (kh_post_exec a) true h₂.running_reqs h₂ in
    let h₄ = process_request (kh_launch_exec a) true h₃.prepared_reqs h₃ in
    let h₅ = process_request (kh_prepare_exec a) true h₄.memdone_reqs h₄ in
    let h₆ = process_request (kh_request_alloc_mem a) false h₅.init_reqs h₅ in
    elim arrival [ none ↦ h₆ | some (p, kureq) ↦ kh_init_service_request h₆ p kureq ]

-- kh_main_loop until kh_loop_continue is cleared: one entry for each round.
unfoldable pub kh_main_loop : Helper → List (Answers × Arrival) → Helper
kh_main_loop h [] = h
kh_main_loop h ((a, arrival) ∷ rounds) = kh_main_loop (kh_round a h arrival) rounds
