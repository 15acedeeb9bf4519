-- ===== src/Cuda/Memory.antt =====
-- gpu_alloc_device_mem and gpu_free_device_mem of kgpu/src/gpuSpace/cudaOperations.cu.
use kgpu_fga.Base.{
  ℕ, ◌+◌, ◌≤◌, ◌≡◌, ◌≢◌, ◌⊎◌, inl, inr, refl, sym, ap, subst, arith, true, Bool-cases, List, [],
  ◌∷◌, ◌==◌,
}
use kgpu_fga.Gpu.Ranges.{Range, Three, merge_ranges}
use kgpu_fga.Gpu.Ranges.Merge.{Fits}
use kgpu_fga.Gpu.Ranges.Paged.{AllPaged, ThreePaged, merge_ranges-ThreePaged, round_up-IsPaged}
use kgpu_fga.Gpu.Memory.{
  DeviceRequest, Hosts, within, place, place_request, ranges_of, merged, addresses, alloc_pins,
  free_pins,
}
use kgpu_fga.Gpu.Memory.Pins.{IsHosted, free_pins-alloc_pins}
use kgpu_fga.Gpu.Memory.Cover.{
  ToPin, ListCovers, in_range, out_range, data_range, alloc_pins-ListCovers,
}
use kgpu_fga.Gpu.Memory.Offsets.{IsLaid, Mirrors, Hosted, place-Mirrors, Mirrors-apart}
use kgpu_fga.Cuda.{Device, Request, pin_all, gpu_alloc_device_mem, gpu_free_device_mem}

used : {A P : Type 0} → A ⊎ P → ¬ A → P
used (inl a) out = absurd (out a)
used (inr p) out = p

ranges_of-AllPaged : (p : Three × ℕ) → ThreePaged p → AllPaged (ranges_of p)
unfolding ranges_of
ranges_of-AllPaged (t, n) v = elim (Bool-cases (n == 0)) [
  | inl e ↦ rw (ranges_of, e) tt
  | inr e ↦
      let first = used v.0 (ground arith) in
      elim (Bool-cases (n == 1)) [
        | inl f ↦ rw (ranges_of, e, f) (first, tt)
        | inr f ↦
            let second = used v.1 (ground arith) in
            elim (Bool-cases (n == 2)) [
              | inl g ↦ rw (ranges_of, e, f, g) (first, (second, tt))
              | inr g ↦ rw (ranges_of, e, f, g) (first, (second, (used v.2 (ground arith), tt)))
            ]
      ]
]

pin_all-AllPaged : (l : List Range) → AllPaged l → pin_all l ≡ l
pin_all-AllPaged [] v = refl
pin_all-AllPaged (r ∷ l) (v, w) = rw (round_up-IsPaged r v, pin_all-AllPaged l w) refl

pin_all-merged : (p : Three × ℕ) → pin_all (merged p) ≡ merged p
pin_all-merged (t, n) =
    pin_all-AllPaged _ (ranges_of-AllPaged (merge_ranges t n) (merge_ranges-ThreePaged t n))

module _ (d : Device) (hosts : Hosts) (q : Request) where
  -- If the rounded ranges of the request's buffers end within the address space, the ranges that
  -- gpu_alloc_device_mem of the CUDA file registers neither meet nor touch and cover exactly the
  -- addresses of the rounded ranges of the input and the output, if these are not in the host
  -- buffer, and of the data, if it is in the user-mapped area and not in the host buffer.
  pub cuda_alloc_pins :
      Fits (in_range q.memory)
      → Fits (out_range q.memory)
      → Fits (data_range q.memory)
      → ListCovers (ToPin hosts q.memory) (gpu_alloc_device_mem d hosts q).1
  unfolding gpu_alloc_device_mem
  cuda_alloc_pins f g h =
      rw (pin_all-merged (alloc_pins hosts q.memory)) (alloc_pins-ListCovers hosts q.memory f g h)

  -- If the input and the output of a request each lie in the host buffer or the user-mapped area
  -- and no buffer in both, gpu_free_device_mem after gpu_alloc_device_mem of the CUDA file
  -- unregisters exactly the addresses that were registered, in the same order, and leaves the
  -- request with its device addresses reset.
  pub cuda_free_unpins :
      IsHosted hosts q.memory
      → ((gpu_free_device_mem hosts (gpu_alloc_device_mem d hosts q).0).1
          ≡ addresses (gpu_alloc_device_mem d hosts q).1)
        × ((gpu_free_device_mem hosts (gpu_alloc_device_mem d hosts q).0).0
            ≡ record q { memory = record q.memory { din = 0; dout = 0; ddata = 0 } })
  unfolding gpu_alloc_device_mem gpu_free_device_mem place_request free_pins
  cuda_free_unpins v = (
    rw (pin_all-merged (alloc_pins hosts q.memory))
        (ap (λ p. addresses (merged p)) (free_pins-alloc_pins hosts q.memory v)),
    refl,
  )

  abbrev pub placed : DeviceRequest
  placed = (gpu_alloc_device_mem d hosts q).0.memory

  -- If each buffer of the request lies in the host buffer or the user-mapped area, all buffers end
  -- within the address space and the two device buffers do not overlap, gpu_alloc_device_mem of the
  -- CUDA file gives each host address the device address with the same offset in the corresponding
  -- device buffer, and different host addresses different device addresses.
  pub cuda_alloc-Mirrors :
      IsLaid hosts d.devbuf d.devbuf4vma
      → (d.devbuf + hosts.hostbuf.size ≤ d.devbuf4vma)
        ⊎ (d.devbuf4vma + hosts.hostvma.size ≤ d.devbuf)
      → Hosted hosts q.memory.hin
      → Hosted hosts q.memory.hout
      → Hosted hosts q.memory.hdata
      → Mirrors hosts d.devbuf d.devbuf4vma placed.hin placed.din
        × Mirrors hosts d.devbuf d.devbuf4vma placed.hout placed.dout
        × Mirrors hosts d.devbuf d.devbuf4vma placed.hdata placed.ddata
        × (placed.hin ≢ placed.hout → placed.din ≢ placed.dout)
        × (placed.hin ≢ placed.hdata → placed.din ≢ placed.ddata)
        × (placed.hout ≢ placed.hdata → placed.dout ≢ placed.ddata)
  unfolding gpu_alloc_device_mem place_request
  cuda_alloc-Mirrors v apart i o t =
      let data_placed : placed.ddata ≡ place d.devbuf d.devbuf4vma hosts q.memory.hdata =
        elim (Bool-cases (within hosts.hostbuf q.memory.hdata)) [
          | inl e ↦ rw e refl
          | inr e ↦
              let f : within hosts.hostvma q.memory.hdata ≡ true = ground arith in rw (e, f) refl
        ] in
      let m = place-Mirrors hosts d.devbuf d.devbuf4vma q.memory.hin v i in
      let m' = place-Mirrors hosts d.devbuf d.devbuf4vma q.memory.hout v o in
      let m'' : Mirrors hosts d.devbuf d.devbuf4vma placed.hdata placed.ddata =
        subst (Mirrors hosts d.devbuf d.devbuf4vma q.memory.hdata) (sym data_placed)
          (place-Mirrors hosts d.devbuf d.devbuf4vma q.memory.hdata v t) in
      (
        m,
        m',
        m'',
        Mirrors-apart hosts _ _ _ _ _ _ apart m m',
        Mirrors-apart hosts _ _ _ _ _ _ apart m m'',
        Mirrors-apart hosts _ _ _ _ _ _ apart m' m'',
      )
