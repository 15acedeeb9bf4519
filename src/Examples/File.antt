-- ===== src/Examples/File.antt =====
-- kgpu_open and kgpu_release of kgpu/src/kernelSpace/main.c from the state at start-up, where
-- kgpudev_av is 1.
use kgpu_fga.Base.{refl, arith, List, [], ◌∷◌}
use kgpu_fga.Kernel.Open.{
  DeviceFile, open_dec, open_inc, kgpu_release, FileEvent, opens, refuses, releases, file_step,
  file_run,
}
use kgpu_fga.Kernel.Open.Exclusive.{IsExclusive, IsQuiet, file_run-IsExclusive}

abbrev closed : DeviceFile
closed = record { kgpudev_av = 1; files = 0; refused = 0 }

-- A second open is refused, the first file is released, and the device is opened again.
abbrev events : List FileEvent
events = opens ∷ opens ∷ refuses ∷ releases ∷ opens ∷ []

events-IsQuiet : IsQuiet closed events
unfolding file_step open_dec open_inc kgpu_release
events-IsQuiet = (refl, tt)

file_run-IsExclusive_example : IsExclusive (file_run closed events)
file_run-IsExclusive_example =
    file_run-IsExclusive events closed (record { one = omega arith; balance = refl }) (omega arith)
      events-IsQuiet

-- One file is open, and a second call of kgpu_open has decremented the counter.
abbrev contended : DeviceFile
contended = record { kgpudev_av = 4294967295; files = 1; refused = 1 }
