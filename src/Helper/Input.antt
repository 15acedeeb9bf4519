-- ===== src/Helper/Input.antt =====
-- kh_get_next_service_request of kgpu/src/userSpace/helper.c with kh_alloc_service_request and
-- kh_free_service_request. The results of poll, malloc and read are parameters.
use kgpu_fga.Base.{ℕ, Bool, not, ◌||◌, ◌&&◌, if◌then◌else◌, ◌==◌, List, [], ◌∷◌, Option, none, some}
use kgpu_fga.Helper.{Helper, Answers, kh_round, KuRequest, kh_init_service_request}

-- The timeout of poll.
pub data Timeout : Type 0 where
  forever at_once : Timeout

abbrev pub poll_timeout : Helper → Timeout
poll_timeout h = elim h.all_reqs [ [] ↦ forever | p ∷ l ↦ at_once ]

-- What poll returns, -1 as `poll_failed`, and whether POLLIN is in revents.
pub data PollResult : Type 0 where
  poll_failed : Bool → PollResult
  ready : ℕ → Bool → PollResult

-- What read returns: the bytes of a request, 0, or -1 with an errno that is EAGAIN or another.
pub data ReadResult : Type 0 where
  bytes : KuRequest → ReadResult
  nothing again broken : ReadResult

-- What the kernel and malloc answer; malloc gives the address of a new item, 0 for NULL.
pub record InputEnv : Type 0 where
  pub poll : Timeout → PollResult
  pub malloc : Helper → ℕ
  pub read : ReadResult

-- The result -1, with the item that was allocated and freed in between; the result 0; or abort.
pub data Next : Type 0 where
  none_ready : Helper → Next
  taken : Helper → Next
  aborted : Next

-- From kh_alloc_service_request on.
unfoldable pub read_request : InputEnv → Helper → Next
read_request env h = if env.malloc h == 0 then none_ready h else elim env.read [
  | bytes kureq ↦ taken (kh_init_service_request h (env.malloc h) kureq)
  | nothing ↦ none_ready h
  | again ↦ none_ready h
  | broken ↦ aborted
]

unfoldable pub kh_get_next_service_request : InputEnv → Helper → Next
unfolding read_request
kh_get_next_service_request env h = elim (env.poll (poll_timeout h)) [
  | poll_failed pollin ↦ if not pollin then none_ready h else aborted
  | ready err pollin ↦
      if err == 0 || not pollin
      then none_ready h
      else if err == 1 && pollin
      then read_request env h
      else aborted
]

-- kh_main_loop with the input of each round; none if the helper aborts.
unfoldable pub helper_loop : Helper → List (Answers × InputEnv) → Option Helper
unfolding kh_get_next_service_request
helper_loop h [] = some h
helper_loop h ((a, env) ∷ rounds) = elim (kh_get_next_service_request env (kh_round a h none)) [
  | none_ready h' ↦ helper_loop h' rounds
  | taken h' ↦ helper_loop h' rounds
  | aborted ↦ none
]
