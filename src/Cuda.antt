-- ===== src/Cuda.antt =====
-- The CUDA operations of kgpu/src/gpuSpace/cudaOperations.cu with alloc_dev_mem and the macro csc of
-- kgpu/src/gpuSpace/gputils.c. A call of CUDA that fails aborts the helper, which is `none`; what the calls
-- return is a parameter. The merging of ranges is that of Gpu/Ranges, and the log calls are left out.
pub mod Streams
pub mod Memory
pub mod Ranges
pub mod Finit
use kgpu_fga.Base.{
  ℕ, zero, suc, ◌+◌, Bool, true, false, if◌then◌else◌, ltb, update, List, [], ◌∷◌, ◌++◌, Option,
  none, some,
}
use kgpu_fga.Gpu.Ranges.{Range, round_up}
use kgpu_fga.Gpu.Memory.{
  DeviceRequest, Hosts, alloc_pins, free_pins, place_request, merged, addresses,
}

abbrev pub max_stream_nr : ℕ
max_stream_nr = 8

-- devbuf.uva, devbuf4vma.uva, streams and streamuses.
pub record Device : Type 0 where
  pub devbuf : ℕ
  pub devbuf4vma : ℕ
  pub streams : ℕ → ℕ
  pub streamuses : ℕ → Bool

-- struct kgpu_service_request without the helper's own fields. The stream id -1 is `none`.
pub record Request : Type 0 where
  pub memory : DeviceRequest
  pub stream_id : Option ℕ
  pub stream : ℕ
  pub block_x : ℕ
  pub block_y : ℕ
  pub grid_x : ℕ
  pub grid_y : ℕ

-- What cudaStreamQuery returns.
pub data Query : Type 0 where
  finished not_ready failed : Query

-- A copy between host and device on a stream.
pub record Copy : Type 0 where
  pub to : ℕ
  pub from : ℕ
  pub size : ℕ
  pub on : ℕ

-- The loop of gpu_init from the stream `i` on, with `k` to go; `create i` is the handle that
-- cudaStreamCreate stores.
unfoldable pub create_streams : (ℕ → Option ℕ) → Device → ℕ → ℕ → Option Device
create_streams create d i zero = some d
create_streams create d i (suc k) = elim (create i) [
  | none ↦ none
  | some s ↦
      create_streams create
        (record d { streams = update d.streams i s; streamuses = update d.streamuses i false })
        (suc i) k
]

-- alloc_dev_mem for both buffers, then the streams.
unfoldable pub gpu_init : Option ℕ → Option ℕ → (ℕ → Option ℕ) → Device → Option Device
unfolding create_streams
gpu_init none buffer4vma create d = none
gpu_init (some b) none create d = none
gpu_init (some b) (some v) create d =
    create_streams create (record d { devbuf = b; devbuf4vma = v }) 0 max_stream_nr

unfoldable pub gpu_get_stream : Device → Option ℕ → ℕ
gpu_get_stream d none = 0
gpu_get_stream d (some i) = if ltb i max_stream_nr then d.streams i else 0

-- The calls of cudaHostRegister and cudaHostUnregister.
abbrev pub gpu_pin_mem : Range → Range
gpu_pin_mem r = record { ad = r.ad; sz = round_up r.sz }

-- __check_stream_done
unfoldable pub check_stream_done : (ℕ → Query) → ℕ → Option Bool
check_stream_done query s = elim (query s) [
  | finished ↦ some true
  | not_ready ↦ some false
  | failed ↦ none
]

unfoldable pub gpu_execution_finished : (ℕ → Query) → Device → Request → Option Bool
unfolding check_stream_done gpu_get_stream
gpu_execution_finished query d q = check_stream_done query (gpu_get_stream d q.stream_id)

unfoldable pub gpu_post_finished : (ℕ → Query) → Device → Request → Option Bool
unfolding check_stream_done gpu_get_stream
gpu_post_finished query d q = check_stream_done query (gpu_get_stream d q.stream_id)

abbrev pub pin_all : List Range → List Range
pin_all [] = []
pin_all (r ∷ l) = gpu_pin_mem r ∷ pin_all l

unfoldable pub gpu_alloc_device_mem : Device → Hosts → Request → Request × List Range
gpu_alloc_device_mem d hosts q = (
  record q { memory = place_request d.devbuf d.devbuf4vma hosts q.memory },
  pin_all (merged (alloc_pins hosts q.memory)),
)

unfoldable pub gpu_free_device_mem : Hosts → Request → Request × List ℕ
gpu_free_device_mem hosts q = (
  record q { memory = record q.memory { din = 0; dout = 0; ddata = 0 } },
  addresses (merged (free_pins hosts q.memory)),
)

-- The loop of gpu_alloc_stream from `i` on, with `k` to go.
unfoldable pub take_stream : Device → Request → ℕ → ℕ → Option (Device × Request)
take_stream d q i zero = none
take_stream d q i (suc k) =
    let later = take_stream d q (suc i) k in
    if d.streamuses i
    then later
    else some (
      record d { streamuses = update d.streamuses i true },
      record q { stream_id = some i; stream = d.streams i },
    )

-- `none` if the call returns 1.
unfoldable pub gpu_alloc_stream : Device → Request → Option (Device × Request)
unfolding take_stream
gpu_alloc_stream d q = take_stream d q 0 max_stream_nr

unfoldable pub gpu_free_stream : Device → Request → Device
gpu_free_stream d q = elim q.stream_id [
  | none ↦ d
  | some i ↦
      if ltb i max_stream_nr then record d { streamuses = update d.streamuses i false } else d
]

unfoldable pub default_compute_size : Request → Request
default_compute_size q = record q { block_x = 32; block_y = 1; grid_x = 512; grid_y = 1 }

-- The copy that is started; `accepts` tells whether the call succeeds.
unfoldable pub default_prepare : (Copy → Bool) → Device → Request → Option Copy
unfolding gpu_get_stream
default_prepare accepts d q =
    let c : Copy = record {
      to = q.memory.din;
      from = q.memory.hin;
      size = q.memory.insize;
      on = gpu_get_stream d q.stream_id;
    } in
    if accepts c then some c else none

unfoldable pub default_post : (Copy → Bool) → Device → Request → Option Copy
unfolding gpu_get_stream
default_post accepts d q =
    let c : Copy = record {
      to = q.memory.hout;
      from = q.memory.dout;
      size = q.memory.outsize;
      on = gpu_get_stream d q.stream_id;
    } in
    if accepts c then some c else none

-- The calls that give back what the device holds.
pub data Release : Type 0 where
  free_memory destroy_stream : ℕ → Release

-- csc on one of them.
unfoldable pub release : (Release → Bool) → Release → Option (List Release)
release succeeds r = if succeeds r then some (r ∷ []) else none

-- free_dev_mem
unfoldable pub free_dev_mem : (Release → Bool) → ℕ → Option (List Release)
unfolding release
free_dev_mem succeeds p = release succeeds (free_memory p)

abbrev pub then_release : Option (List Release) → Option (List Release) → Option (List Release)
then_release none later = none
then_release (some l) none = none
then_release (some l) (some l') = some (l ++ l')

-- The loop of gpu_finit over the streams from `i` on, with `k` to go.
unfoldable pub destroy_streams : (Release → Bool) → Device → ℕ → ℕ → Option (List Release)
unfolding release
destroy_streams succeeds d i zero = some []
destroy_streams succeeds d i (suc k) =
    then_release (release succeeds (destroy_stream (d.streams i)))
      (destroy_streams succeeds d (suc i) k)

-- The calls that gpu_finit makes, in their order, if none fails.
unfoldable pub gpu_finit : (Release → Bool) → Device → Option (List Release)
unfolding free_dev_mem destroy_streams
gpu_finit succeeds d =
    then_release
      (then_release (free_dev_mem succeeds d.devbuf) (free_dev_mem succeeds d.devbuf4vma))
      (destroy_streams succeeds d 0 max_stream_nr)
