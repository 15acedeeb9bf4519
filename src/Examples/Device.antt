-- ===== src/Examples/Device.antt =====
-- The device memory of a request on kgpu/src/gpuSpace: its input lies in the host buffer, its output and its
-- data lie in the user-mapped area.
use kgpu_fga.Base.{◌≡◌, ◌≢◌, inl, inr, refl, arith, false, none}
use kgpu_fga.Config.{addr_within}
use kgpu_fga.Gpu.Ranges.{round_up, round_down}
use kgpu_fga.Gpu.Ranges.Merge.{Fits}
use kgpu_fga.Gpu.Memory.{MemInfo, Hosts, DeviceRequest, within, addresses, gpu_alloc_device_mem}
use kgpu_fga.Gpu.Memory.Pins.{IsHosted}
use kgpu_fga.Gpu.Memory.Cover.{in_range, out_range, data_range}
use kgpu_fga.Gpu.Memory.Offsets.{IsLaid, Mirrors, Hosted, buffers_collide}
use kgpu_fga.Cuda.{Device, Request}
use kgpu_fga.Cuda.Memory.{placed, cuda_alloc-Mirrors, cuda_free_unpins}

abbrev hosts : Hosts
hosts = record {
  hostbuf = record { uva = 2097152; size = 2097152 };
  hostvma = record { uva = 8388608; size = 2097152 };
}

abbrev memory : DeviceRequest
memory = record {
  hin = 2101248;
  hout = 8392704;
  hdata = 8400896;
  din = 0;
  dout = 0;
  ddata = 0;
  insize = 100;
  outsize = 5000;
  datasize = 10;
}

abbrev request : Request
request = record {
  memory = memory;
  stream_id = none;
  stream = 0;
  block_x = 0;
  block_y = 0;
  grid_x = 0;
  grid_y = 0;
}

abbrev card : Device
card = record {
  devbuf = 16777216;
  devbuf4vma = 33554432;
  streams = λ i. i;
  streamuses = λ i. false;
}

request-Fits : Fits (in_range memory) × Fits (out_range memory) × Fits (data_range memory)
unfolding round_down round_up
request-Fits = (omega arith, omega arith, omega arith)

memory-IsHosted : IsHosted hosts memory
unfolding addr_within
memory-IsHosted = record { in_one = refl; out_one = refl; data_one = λ e. ground (arith, e) }

cuda_free_unpins_example :
    ((kgpu_fga.Cuda.gpu_free_device_mem hosts
        (kgpu_fga.Cuda.gpu_alloc_device_mem card hosts request).0).1
      ≡ addresses (kgpu_fga.Cuda.gpu_alloc_device_mem card hosts request).1)
    × ((kgpu_fga.Cuda.gpu_free_device_mem hosts
          (kgpu_fga.Cuda.gpu_alloc_device_mem card hosts request).0).0
        ≡ record request { memory = record memory { din = 0; dout = 0; ddata = 0 } })
cuda_free_unpins_example = cuda_free_unpins card hosts request memory-IsHosted

card-IsLaid : IsLaid hosts card.devbuf card.devbuf4vma
card-IsLaid = record {
  hostbuf_fits = omega arith;
  hostvma_fits = omega arith;
  dev_fits = omega arith;
  vma_fits = omega arith;
}

hosted : Hosted hosts memory.hin × Hosted hosts memory.hout × Hosted hosts memory.hdata
unfolding addr_within
hosted = (inl refl, inr refl, inr refl)

cuda_alloc-Mirrors_example :
    Mirrors hosts card.devbuf card.devbuf4vma memory.hin (placed card hosts request).din
    × Mirrors hosts card.devbuf card.devbuf4vma memory.hout (placed card hosts request).dout
    × Mirrors hosts card.devbuf card.devbuf4vma memory.hdata (placed card hosts request).ddata
    × (memory.hin ≢ memory.hout
        → (placed card hosts request).din ≢ (placed card hosts request).dout)
    × (memory.hin ≢ memory.hdata
        → (placed card hosts request).din ≢ (placed card hosts request).ddata)
    × (memory.hout ≢ memory.hdata
        → (placed card hosts request).dout ≢ (placed card hosts request).ddata)
unfolding kgpu_fga.Cuda.gpu_alloc_device_mem kgpu_fga.Gpu.Memory.place_request
cuda_alloc-Mirrors_example =
    cuda_alloc-Mirrors card hosts request card-IsLaid (inl (omega arith)) hosted.0 hosted.1 hosted.2

null-IsLaid : IsLaid hosts 0 0
null-IsLaid = record {
  hostbuf_fits = omega arith;
  hostvma_fits = omega arith;
  dev_fits = omega arith;
  vma_fits = omega arith;
}

out_apart : within hosts.hostbuf memory.hout ≡ false
unfolding addr_within
out_apart = refl

buffers_collide_example :
    ((gpu_alloc_device_mem hosts memory).0.din ≡ 4096)
    × ((gpu_alloc_device_mem hosts memory).0.dout ≡ 4096)
buffers_collide_example =
    buffers_collide hosts memory 4096 null-IsLaid (omega arith) (omega arith) refl refl out_apart
