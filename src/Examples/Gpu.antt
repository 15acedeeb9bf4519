-- ===== src/Examples/Gpu.antt =====
-- The streams and the ranges of kgpu/src/gpuSpace/openCLOperations.c.
use kgpu_fga.Base.{ℕ, ◌+◌, ◌%◌, ◌<◌, ◌↔◌, Bool, arith, ltb}
use kgpu_fga.Config.{page_size}
use kgpu_fga.Gpu.Ranges.{Range, Three, rounded, round_down, round_up}
use kgpu_fga.Gpu.Ranges.Merge.{In, Fits}
use kgpu_fga.Gpu.Ranges.Pinned.{rounded_covers}

-- The first two streams are in use.
abbrev uses : ℕ → Bool
uses k = ltb k 2

abbrev low : Range
low = record { ad = 4096; sz = 4096 }

abbrev next : Range
next = record { ad = 8192; sz = 100 }

abbrev far : Range
far = record { ad = 40960; sz = 5000 }

abbrev ranges : Three
ranges = record { r0 = low; r1 = far; r2 = next }

low-Fits : Fits (rounded low)
unfolding round_down round_up
low-Fits = omega arith

next-Fits : Fits (rounded next)
unfolding round_down round_up
next-Fits = omega arith

far-Fits : Fits (rounded far)
unfolding round_down round_up
far-Fits = omega arith

-- 4096 bytes that begin in the middle of a page.
abbrev unaligned : Range
unaligned = record { ad = 6000; sz = 4096 }

rounded_covers_example :
    ((x : ℕ) → In x unaligned → In x (rounded unaligned))
    ↔ (6000 % page_size + 4095 % page_size < page_size)
rounded_covers_example = rounded_covers unaligned (omega arith) (omega arith)
