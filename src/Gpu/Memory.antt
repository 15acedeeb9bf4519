-- ===== src/Gpu/Memory.antt =====
-- The device memory of a request, kgpu/src/gpuSpace/openCLOperations.c (the CUDA file has the same
-- code with other addresses): gpu_alloc_device_mem, gpu_free_device_mem, gpu_pin_mem and gpu_unpin_mem. The calls
-- of gpu_pin_mem and gpu_unpin_mem are listed in their order, and the log calls are left out.
pub mod Pins
pub mod Cover
pub mod Offsets
use kgpu_fga.Base.{ℕ, ◌+◌, Bool, if◌then◌else◌, ◌==◌, List, [], ◌∷◌}
use kgpu_fga.Config.{addr_within, addr_rebase}
use kgpu_fga.Gpu.Ranges.{Range, Three, merge_ranges, round_up}

-- struct kgpu_gpu_mem_info
pub record MemInfo : Type 0 where
  pub uva : ℕ
  pub size : ℕ

-- struct kgpu_service_request, the fields on memory
pub record DeviceRequest : Type 0 where
  pub hin : ℕ
  pub hout : ℕ
  pub hdata : ℕ
  pub din : ℕ
  pub dout : ℕ
  pub ddata : ℕ
  pub insize : ℕ
  pub outsize : ℕ
  pub datasize : ℕ

-- The globals hostbuf and hostvma.
pub record Hosts : Type 0 where
  pub hostbuf : MemInfo
  pub hostvma : MemInfo

abbrev pub within : MemInfo → ℕ → Bool
within m p = addr_within p m.uva m.size

-- pin_addr and pin_sz with npins of them set.
abbrev pub no_pins : Three × ℕ
no_pins = let r : Range = record { ad = 0; sz = 0 } in (record { r0 = r; r1 = r; r2 = r }, 0)

unfoldable pub push_pin : Three × ℕ → ℕ → ℕ → Three × ℕ
push_pin (t, n) ad sz =
    let r : Range = record { ad = ad; sz = sz } in
    (
      if n == 0
          then record t { r0 = r }
          else if n == 1
          then record t { r1 = r }
          else record t { r2 = r },
      n + 1,
    )

-- The ranges that gpu_alloc_device_mem collects.
unfoldable pub alloc_pins : Hosts → DeviceRequest → Three × ℕ
unfolding push_pin
alloc_pins hosts q =
    let p = if within hosts.hostbuf q.hin then no_pins else push_pin no_pins q.hin q.insize in
    let p' = if within hosts.hostbuf q.hout then p else push_pin p q.hout q.outsize in
    if within hosts.hostbuf q.hdata
    then p'
    else if within hosts.hostvma q.hdata
    then push_pin p' q.hdata q.datasize
    else p'

-- The ranges that gpu_free_device_mem collects.
unfoldable pub free_pins : Hosts → DeviceRequest → Three × ℕ
unfolding push_pin
free_pins hosts q =
    let p = if within hosts.hostvma q.hin then push_pin no_pins q.hin q.insize else no_pins in
    let p' = if within hosts.hostvma q.hout then push_pin p q.hout q.outsize else p in
    if within hosts.hostvma q.hdata then push_pin p' q.hdata q.datasize else p'

-- The device address of a host address: in the buffer at `dev` or in the one at `vma`.
abbrev pub place : ℕ → ℕ → Hosts → ℕ → ℕ
place dev vma hosts h =
    if within hosts.hostbuf h
    then addr_rebase dev hosts.hostbuf.uva h
    else addr_rebase vma hosts.hostvma.uva h

unfoldable pub place_request : ℕ → ℕ → Hosts → DeviceRequest → DeviceRequest
place_request dev vma hosts q = record q {
  din = place dev vma hosts q.hin;
  dout = place dev vma hosts q.hout;
  ddata =
      if within hosts.hostbuf q.hdata
      then addr_rebase dev hosts.hostbuf.uva q.hdata
      else if within hosts.hostvma q.hdata
      then addr_rebase vma hosts.hostvma.uva q.hdata
      else q.ddata;
}

-- The loop over the merged ranges.
unfoldable pub ranges_of : Three × ℕ → List Range
ranges_of (t, n) =
    if n == 0
    then []
    else if n == 1
    then t.r0 ∷ []
    else if n == 2
    then t.r0 ∷ t.r1 ∷ []
    else t.r0 ∷ t.r1 ∷ t.r2 ∷ []

abbrev pub merged : Three × ℕ → List Range
merged (t, n) = ranges_of (merge_ranges t n)

abbrev pub addresses : List Range → List ℕ
addresses [] = []
addresses (r ∷ l) = r.ad ∷ addresses l

-- clGetMemObjectInfo is given the null pointers deviceBufferTmp and deviceBufferForVMATmp to write to,
-- so it leaves them null.
unfoldable pub gpu_alloc_device_mem : Hosts → DeviceRequest → DeviceRequest × List Range
unfolding alloc_pins place_request
gpu_alloc_device_mem hosts q = (place_request 0 0 hosts q, merged (alloc_pins hosts q))

unfoldable pub gpu_free_device_mem : Hosts → DeviceRequest → DeviceRequest × List ℕ
unfolding free_pins
gpu_free_device_mem hosts q =
    (record q { din = 0; dout = 0; ddata = 0 }, addresses (merged (free_pins hosts q)))
