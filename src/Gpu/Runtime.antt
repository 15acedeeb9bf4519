-- ===== src/Gpu/Runtime.antt =====
-- The start and the end of the OpenCL backend, kgpu/src/gpuSpace/openCLOperations.c: initializePlatform,
-- initializeDevice, initializeContext, initializeOpenCL, gpu_init, gpu_finit and gpu_alloc_pinned_mem.
-- The results of malloc and of the OpenCL calls are parameters; a status is a number, 0 for CL_SUCCESS.
-- Memory is the list of the blocks that malloc has given and free has not taken; a free of another
-- address than NULL, or a read through openCLData without its block, is a fault, `none`. Output is left
-- out.
pub mod Clean
pub mod Start
pub mod Up
pub mod Stale
use kgpu_fga.Base.{
  ℕ, zero, suc, ◌+◌, Bool, true, false, not, if◌then◌else◌, ◌==◌, update, List, [], ◌∷◌, has,
  Option, none, some,
}
use kgpu_fga.Gpu.Streams.{max_stream_nr}
use kgpu_fga.Helper.{erase}

-- NO_SPACE_ON_HOST, -999, without its sign.
abbrev pub no_space_on_host : ℕ
no_space_on_host = 999

-- The globals; `devices` and `context` are the fields of an openCLRuntimeData at an address.
pub record Runtime : Type 0 where
  pub opencl_data : ℕ
  pub initialized : Bool
  pub blocks : List ℕ
  pub devices : ℕ → ℕ
  pub context : ℕ → ℕ
  pub device_buffer : ℕ
  pub device_buffer_for_vma : ℕ
  pub streams : ℕ → ℕ
  pub streamuses : ℕ → Bool

-- The addresses that malloc gives, the statuses and the results of the OpenCL calls.
pub record ClAnswers : Type 0 where
  pub data_block : ℕ
  pub platforms_block : ℕ
  pub devices_block : ℕ
  pub count_platforms : ℕ
  pub get_platforms : ℕ
  pub count_devices : ℕ
  pub get_devices : ℕ
  pub create_context : ℕ
  pub new_context : ℕ
  pub create_buffer : ℕ
  pub new_buffer : ℕ
  pub create_vma_buffer : ℕ
  pub new_vma_buffer : ℕ
  pub new_queue : ℕ → ℕ
  pub release_buffer : ℕ
  pub release_vma_buffer : ℕ
  pub create_host : ℕ
  pub new_host : ℕ
  pub host_info : ℕ
  pub host_pointer : ℕ

unfoldable pub free : Runtime → ℕ → Option Runtime
free r p =
    if p == 0
    then some r
    else if has p r.blocks
    then some (record r { blocks = erase p r.blocks })
    else none

-- openCLData can be read.
abbrev pub data_readable : Runtime → Bool
data_readable r = has r.opencl_data r.blocks

module _ (a : ClAnswers) where
  -- The state, the platforms and the status.
  unfoldable pub initialize_platform : Runtime → Runtime × ℕ × ℕ
  initialize_platform r =
      if not (a.count_platforms == 0)
      then (r, 0, a.count_platforms)
      else if a.platforms_block == 0
      then (r, 0, no_space_on_host)
      else (record r { blocks = a.platforms_block ∷ r.blocks }, a.platforms_block, a.get_platforms)

  unfoldable pub initialize_device : Runtime → Runtime × ℕ
  initialize_device r =
      let r' = record r { devices = update r.devices r.opencl_data a.devices_block } in
      if not (a.count_devices == 0)
      then (r, a.count_devices)
      else if a.devices_block == 0
      then (r', no_space_on_host)
      else (record r' { blocks = a.devices_block ∷ r.blocks }, a.get_devices)

  unfoldable pub initialize_context : Runtime → Runtime × ℕ
  initialize_context r =
      (record r { context = update r.context r.opencl_data a.new_context }, a.create_context)

-- The labels firstLevelOfClean, secondLevelOfClean and thirdLevelOfClean.
unfoldable pub first_level_of_clean : Runtime → ℕ → Option (Runtime × ℕ)
first_level_of_clean r status = elim (free r r.opencl_data) [
  | none ↦ none
  | some r' ↦ some (r', status)
]

unfoldable pub second_level_of_clean : Runtime → ℕ → ℕ → Option (Runtime × ℕ)
unfolding first_level_of_clean
second_level_of_clean r platforms status = elim (free r platforms) [
  | none ↦ none
  | some r' ↦ first_level_of_clean r' status
]

unfoldable pub third_level_of_clean : Runtime → ℕ → ℕ → Option (Runtime × ℕ)
unfolding second_level_of_clean
third_level_of_clean r platforms status = elim (free r (r.devices r.opencl_data)) [
  | none ↦ none
  | some r' ↦ second_level_of_clean r' platforms status
]

module _ (a : ClAnswers) where
  -- initializeOpenCL from its malloc on.
  unfoldable pub create_data : Runtime → Option (Runtime × ℕ)
  unfolding third_level_of_clean
  create_data r =
      let r₁ = record r { opencl_data = a.data_block; blocks = a.data_block ∷ r.blocks } in
      let (r₂, platforms, s₂) = initialize_platform a r₁ in
      let (r₃, s₃) = initialize_device a r₂ in
      let (r₄, s₄) = initialize_context a r₃ in
      if a.data_block == 0
      then some (record r { opencl_data = 0 }, no_space_on_host)
      else if not (s₂ == 0)
      then first_level_of_clean r₂ s₂
      else if not (s₃ == 0)
      then second_level_of_clean r₃ platforms s₃
      else if not (s₄ == 0)
      then third_level_of_clean r₄ platforms s₄
      else some (r₄, s₄)

  unfoldable pub initialize_opencl : Runtime → Option (Runtime × ℕ)
  unfolding create_data free
  initialize_opencl r = elim (free r r.opencl_data) [ none ↦ none | some r' ↦ create_data r' ]

  -- The call of initializeOpenCL, and `initialized` if it succeeds.
  unfoldable pub start : Runtime → Option (Runtime × ℕ)
  unfolding initialize_opencl
  start r = elim (initialize_opencl r) [
    | none ↦ none
    | some (r', status) ↦
        some (if status == 0 then record r' { initialized = true } else r', status)
  ]

  -- The loop of gpu_init over the first `k` queues.
  unfoldable pub create_queues : Runtime → ℕ → Runtime
  create_queues r zero = r
  create_queues r (suc k) =
      let r' = create_queues r k in
      record r' {
        streams = update r'.streams k (a.new_queue k);
        streamuses = update r'.streamuses k false;
      }

  -- gpu_init with OpenCL initialized.
  unfoldable pub create_buffers : Runtime → Option Runtime
  unfolding create_queues
  create_buffers r =
      let r₁ = record r { device_buffer = a.new_buffer } in
      let r₂ = record r₁ { device_buffer_for_vma = a.new_vma_buffer } in
      if not (data_readable r)
      then none
      else if not (a.create_buffer == 0)
      then some r₁
      else if not (a.create_vma_buffer == 0)
      then some r₂
      else if has (r.devices r.opencl_data) r.blocks
      then some (create_queues r₂ max_stream_nr)
      else none

  unfoldable pub gpu_init : Runtime → Option Runtime
  unfolding create_buffers
  gpu_init r = if r.initialized then create_buffers r else elim (start r) [
    | none ↦ none
    | some (r', status) ↦ if status == 0 then create_buffers r' else some r'
  ]

  -- The queues are released with the buffers, whatever their statuses.
  unfoldable pub gpu_finit : Runtime → Option Runtime
  gpu_finit r =
      if not (a.release_buffer == 0)
      then some r
      else if not (a.release_vma_buffer == 0)
      then some r
      else free r r.opencl_data

-- What gpu_alloc_pinned_mem returns: nothing, where it has a return without a value; the cl_mem; NULL;
-- or an address.
pub data Pinned : Type 0 where
  undefined : Pinned
  handle : ℕ → Pinned
  null : Pinned
  address : ℕ → Pinned

module _ (a : ClAnswers) where
  -- With OpenCL initialized.
  unfoldable pub pin_host : Runtime → Option (Runtime × Pinned)
  pin_host r =
      if not (data_readable r)
      then none
      else if not (a.create_host == 0)
      then some (r, handle a.new_host)
      else if not (a.host_info == 0)
      then some (r, null)
      else some (r, address a.host_pointer)

  unfoldable pub gpu_alloc_pinned_mem : Runtime → Option (Runtime × Pinned)
  unfolding pin_host start
  gpu_alloc_pinned_mem r =
      if not (r.opencl_data == 0)
      then pin_host r
      else if r.initialized
      then pin_host r
      else elim (start a r) [
        | none ↦ none
        | some (r', status) ↦ if status == 0 then pin_host r' else some (r', undefined)
      ]
