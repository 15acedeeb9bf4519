-- ===== src/Examples/Cuda.antt =====
-- kgpu/src/gpuSpace/cudaOperations.cu with three ranges, and from gpu_init to gpu_finit.
use kgpu_fga.Base.{◌+◌, ◌≡◌, arith, true, if◌then◌else◌, ◌==◌, ◌∷◌, map, some}
use kgpu_fga.Gpu.Ranges
use kgpu_fga.Cuda.{Device, gpu_init, gpu_finit, free_memory, destroy_stream}
use kgpu_fga.Cuda.Ranges.{Arrays, merge_ranges, three, threes, merge_ranges_lem}
use kgpu_fga.Cuda.Finit.{range, finit-init}

-- The first and the third range meet.
abbrev arrays : Arrays
arrays = record {
  ad = λ i. if i == 0 then 4100 else if i == 1 then 40960 else 8192;
  sz = λ i. if i == 0 then 8000 else if i == 1 then 100 else 5000;
}

merge_ranges_lem_example : threes (merge_ranges arrays 3) ≡ Ranges.merge_ranges (three arrays) 3
merge_ranges_lem_example = merge_ranges_lem arrays 3 (omega arith)

abbrev unset : Device
unset = record { devbuf = 0; devbuf4vma = 0; streams = λ i. 0; streamuses = λ i. true }

finit-init_example :
    (d : Device) × (gpu_init (some 4096) (some 8192) (λ j. some (100 + j)) unset ≡ some d)
    × (gpu_finit (λ r. true) d
        ≡ some
            (free_memory 4096 ∷ free_memory 8192 ∷ map (λ j. destroy_stream (100 + j)) (range 0 8)))
finit-init_example = finit-init 4096 8192 (λ j. 100 + j) unset
