-- ===== src/Gpu/Memory/Pins.antt =====
-- What gpu_alloc_device_mem pins and gpu_free_device_mem unpins.
use kgpu_fga.Base.{◌≡◌, refl, ap, Bool, true, false, not, if◌then◌else◌}
use kgpu_fga.Gpu.Memory.{
  DeviceRequest, Hosts, within, no_pins, push_pin, alloc_pins, free_pins, place_request, merged,
  addresses, gpu_alloc_device_mem, gpu_free_device_mem,
}

-- Each buffer of the request is in hostbuf or in the user-mapped area, and not in both; the data may be in neither.
pub record IsHosted (hosts : Hosts) (q : DeviceRequest) : Type 0 where
  pub in_one : within hosts.hostvma q.hin ≡ not (within hosts.hostbuf q.hin)
  pub out_one : within hosts.hostvma q.hout ≡ not (within hosts.hostbuf q.hout)
  pub data_one : within hosts.hostbuf q.hdata ≡ true → within hosts.hostvma q.hdata ≡ false

pub if_not : {A : Type 0} (b : Bool) (x y : A) → (if not b then x else y) ≡ (if b then y else x)
if_not false x y = refl
if_not true x y = refl

if_one :
    {A : Type 0} (b c : Bool) (x y : A)
    → (b ≡ true → c ≡ false)
    → (if c then x else y) ≡ (if b then y else if c then x else y)
if_one false c x y h = refl
if_one true c x y h = rw (h refl) refl

pub free_pins-alloc_pins :
    (hosts : Hosts) (q : DeviceRequest) → IsHosted hosts q → free_pins hosts q ≡ alloc_pins hosts q
unfolding free_pins alloc_pins
free_pins-alloc_pins hosts q v =
    let p = if_not (within hosts.hostbuf q.hin) (push_pin no_pins q.hin q.insize) no_pins in
    let r = if within hosts.hostbuf q.hin then no_pins else push_pin no_pins q.hin q.insize in
    let p' = if_not (within hosts.hostbuf q.hout) (push_pin r q.hout q.outsize) r in
    rw (free_pins, alloc_pins, v.in_one, v.out_one, p, p')
      (if_one (within hosts.hostbuf q.hdata) (within hosts.hostvma q.hdata) _ _ v.data_one)

-- gpu_free_device_mem after gpu_alloc_device_mem unpins the addresses that were pinned, for a
-- request whose buffers are hosted.
pub free_unpins :
    (hosts : Hosts) (q : DeviceRequest)
    → IsHosted hosts q
    → ((gpu_free_device_mem hosts (gpu_alloc_device_mem hosts q).0).1
        ≡ addresses (gpu_alloc_device_mem hosts q).1)
      × ((gpu_free_device_mem hosts (gpu_alloc_device_mem hosts q).0).0
          ≡ record q { din = 0; dout = 0; ddata = 0 })
unfolding gpu_alloc_device_mem gpu_free_device_mem place_request free_pins
free_unpins hosts q v = (ap (λ p. addresses (merged p)) (free_pins-alloc_pins hosts q v), refl)
