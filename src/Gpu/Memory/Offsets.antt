-- ===== src/Gpu/Memory/Offsets.antt =====
-- The device addresses that gpu_alloc_device_mem gives.
use kgpu_fga.Base.{
  ℕ, ◌+◌, ◌-◌, ◌≤◌, ◌<◌, ◌≡◌, ◌≢◌, ◌⊎◌, inl, inr, arith, true, false, Bool-cases, ulong_mod,
}
use kgpu_fga.Config.{addr_within, addr_rebase}
use kgpu_fga.Gpu.Memory.{DeviceRequest, Hosts, within, place, place_request, gpu_alloc_device_mem}

-- The buffers end within the address space.
pub record IsLaid (hosts : Hosts) (dev vma : ℕ) : Type 0 where
  pub hostbuf_fits : hosts.hostbuf.uva + hosts.hostbuf.size < ulong_mod
  pub hostvma_fits : hosts.hostvma.uva + hosts.hostvma.size < ulong_mod
  pub dev_fits : dev + hosts.hostbuf.size < ulong_mod
  pub vma_fits : vma + hosts.hostvma.size < ulong_mod

-- The address `a` is as far into its device buffer as `h` is into its host buffer.
abbrev pub Mirrors : Hosts → ℕ → ℕ → ℕ → ℕ → Type 0
Mirrors hosts dev vma h a =
    ((o : ℕ) × (o < hosts.hostbuf.size) × (h ≡ hosts.hostbuf.uva + o) × (a ≡ dev + o))
    ⊎ ((o : ℕ) × (o < hosts.hostvma.size) × (h ≡ hosts.hostvma.uva + o) × (a ≡ vma + o))

abbrev pub Hosted : Hosts → ℕ → Type 0
Hosted hosts h = (within hosts.hostbuf h ≡ true) ⊎ (within hosts.hostvma h ≡ true)

pub place-Mirrors :
    (hosts : Hosts) (dev vma h : ℕ)
    → IsLaid hosts dev vma
    → Hosted hosts h
    → Mirrors hosts dev vma h (place dev vma hosts h)
unfolding addr_within addr_rebase
place-Mirrors hosts dev vma h v k = elim (Bool-cases (within hosts.hostbuf h)) [
  | inl e ↦ inl (
    h - hosts.hostbuf.uva,
    ground (arith, v.hostbuf_fits),
    ground (arith, v.hostbuf_fits),
    ground (arith, v.hostbuf_fits, v.dev_fits),
  )
  | inr e ↦
      let f : within hosts.hostvma h ≡ true = ground arith in
      inr (
        h - hosts.hostvma.uva,
        ground (arith, v.hostvma_fits),
        ground (arith, v.hostvma_fits),
        ground (arith, v.hostvma_fits, v.vma_fits),
      )
]

-- Device buffers apart, and host buffers too.
pub Mirrors-apart :
    (hosts : Hosts) (dev vma h h' a a' : ℕ)
    → (dev + hosts.hostbuf.size ≤ vma) ⊎ (vma + hosts.hostvma.size ≤ dev)
    → Mirrors hosts dev vma h a
    → Mirrors hosts dev vma h' a'
    → h ≢ h'
    → a ≢ a'
Mirrors-apart hosts dev vma h h' a a' apart m m' d e = elim m [
  | inl (o, b, p, r) ↦ elim m' [
    | inl (o', b', p', r') ↦ d (omega arith)
    | inr (o', b', p', r') ↦ ground arith
  ]
  | inr (o, b, p, r) ↦ elim m' [
    | inl (o', b', p', r') ↦ ground arith
    | inr (o', b', p', r') ↦ d (omega arith)
  ]
]

-- With gpu_alloc_device_mem of the OpenCL file, an input in the host buffer and an output in the
-- user-mapped area, and not in the host buffer, at the same offset get the same device address,
-- which is the offset, if the two host buffers end within the address space.
pub buffers_collide :
    (hosts : Hosts) (q : DeviceRequest) (o : ℕ)
    → IsLaid hosts 0 0
    → o < hosts.hostbuf.size
    → o < hosts.hostvma.size
    → q.hin ≡ hosts.hostbuf.uva + o
    → q.hout ≡ hosts.hostvma.uva + o
    → within hosts.hostbuf q.hout ≡ false
    → ((gpu_alloc_device_mem hosts q).0.din ≡ o) × ((gpu_alloc_device_mem hosts q).0.dout ≡ o)
unfolding gpu_alloc_device_mem place_request addr_within addr_rebase
buffers_collide hosts q o v b b' e e' f =
    (ground (arith, v.hostbuf_fits), ground (arith, v.hostvma_fits))
