-- ===== src/Kernel/Open.antt =====
-- The device file of kgpu/src/kernelSpace/main.c: kgpu_open, whose two atomic operations on
-- kgpudev_av are two steps, and kgpu_release. The counter is an `int` that wraps around, here by its
-- 32 bits. Log calls are left out.
pub mod Exclusive
use kgpu_fga.Base.{ℕ, ◌+◌, ◌-◌, ◌*◌, ◌%◌, ◌≡◌, if◌then◌else◌, ◌==◌, List, [], ◌∷◌, to_u32, u32_mod}
use kgpu_fga.Config.{CInt, nat, neg, ebusy}

-- `files` counts the open files of the device, `refused` the calls of kgpu_open between
-- atomic_dec_and_test and atomic_inc.
pub record DeviceFile : Type 0 where
  pub kgpudev_av : ℕ
  pub files : ℕ
  pub refused : ℕ

-- atomic_dec_and_test, and the return of 0 if the counter is 0 then.
unfoldable pub open_dec : DeviceFile → DeviceFile
open_dec d =
    let av = to_u32 (d.kgpudev_av + (u32_mod - 1)) in
    if av == 0
    then record d { kgpudev_av = av; files = d.files + 1 }
    else record d { kgpudev_av = av; refused = d.refused + 1 }

-- atomic_inc, and the return of -EBUSY.
unfoldable pub open_inc : DeviceFile → DeviceFile
open_inc d = record d { kgpudev_av = to_u32 (d.kgpudev_av + 1); refused = d.refused - 1 }

-- A whole call, with no other call between its steps.
unfoldable pub kgpu_open : DeviceFile → DeviceFile × CInt
kgpu_open d =
    if to_u32 (d.kgpudev_av + (u32_mod - 1)) == 0
    then (open_dec d, nat 0)
    else (open_inc (open_dec d), neg ebusy)

unfoldable pub kgpu_release : DeviceFile → DeviceFile
kgpu_release d = record d { kgpudev_av = 1; files = d.files - 1 }

pub data FileEvent : Type 0 where
  opens refuses releases : FileEvent

-- An event that cannot happen, where no call is refused or no file is open, changes nothing.
unfoldable pub file_step : DeviceFile → FileEvent → DeviceFile
file_step d opens = open_dec d
file_step d refuses = if d.refused == 0 then d else open_inc d
file_step d releases = if d.files == 0 then d else kgpu_release d

unfoldable pub file_run : DeviceFile → List FileEvent → DeviceFile
file_run d [] = d
file_run d (e ∷ es) = file_run (file_step d e) es
