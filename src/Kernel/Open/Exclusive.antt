-- ===== src/Kernel/Open/Exclusive.antt =====
-- Whether kgpu_open and kgpu_release of kgpu/src/kernelSpace/main.c let one process in at a time.
use kgpu_fga.Base.{
  ◌+◌, ◌-◌, ◌≤◌, ◌<◌, ◌≡◌, ◌≢◌, refl, ◌==◌, List, [], ◌∷◌, to_u32, u32_mod, arith, length,
  Bool-cases, inl, inr,
}
use kgpu_fga.Config.{neg, ebusy}
use kgpu_fga.Kernel.Open.{
  DeviceFile, open_dec, open_inc, kgpu_open, kgpu_release, FileEvent, opens, refuses, releases,
  file_step, file_run,
}

-- One file is open at most, and the counter is 1 less the open files and the calls under way.
pub record IsExclusive (d : DeviceFile) : Type 0 where
  pub one : d.files ≤ 1
  pub balance : d.kgpudev_av ≡ to_u32 (u32_mod + 1 - (d.files + d.refused))

-- Each release happens while no call of kgpu_open is being refused.
abbrev pub IsQuiet : DeviceFile → List FileEvent → Type 0
IsQuiet d [] = Unit
IsQuiet d (opens ∷ es) = IsQuiet (file_step d opens) es
IsQuiet d (refuses ∷ es) = IsQuiet (file_step d refuses) es
IsQuiet d (releases ∷ es) = (d.refused ≡ 0) × IsQuiet (file_step d releases) es

opens-IsExclusive :
    (d : DeviceFile)
    → IsExclusive d
    → d.refused + 2 < u32_mod
    → IsExclusive (file_step d opens) × ((file_step d opens).refused ≤ d.refused + 1)
unfolding file_step open_dec
opens-IsExclusive d v small = elim (Bool-cases (to_u32 (d.kgpudev_av + 4294967295) == 0)) [
  | inl e ↦
      let h : to_u32 (d.kgpudev_av + 4294967295) ≡ 0 = ground arith in
      rw e (
        record { one = omega (arith, v.one, v.balance); balance = omega (arith, v.one, v.balance) },
        omega arith,
      )
  | inr e ↦
      let h : to_u32 (d.kgpudev_av + 4294967295) ≢ 0 = ground arith in
      rw e (record { one = v.one; balance = omega (arith, v.balance, v.one) }, omega arith)
]

refuses-IsExclusive :
    (d : DeviceFile)
    → IsExclusive d
    → d.refused + 2 < u32_mod
    → IsExclusive (file_step d refuses) × ((file_step d refuses).refused ≤ d.refused)
unfolding file_step open_inc
refuses-IsExclusive d v small = elim (Bool-cases (d.refused == 0)) [
  | inl e ↦ rw e (v, omega arith)
  | inr e ↦
      let h : d.refused ≢ 0 = ground arith in
      rw e (record { one = v.one; balance = omega (arith, v.balance, v.one) }, omega arith)
]

releases-IsExclusive :
    (d : DeviceFile)
    → IsExclusive d
    → d.refused ≡ 0
    → IsExclusive (file_step d releases) × ((file_step d releases).refused ≤ d.refused)
unfolding file_step kgpu_release
releases-IsExclusive d v quiet = elim (Bool-cases (d.files == 0)) [
  | inl e ↦ rw e (v, omega arith)
  | inr e ↦
      let h : d.files ≡ 1 = ground (arith, v.one) in
      rw e (record { one = omega arith; balance = omega arith }, omega arith)
]

-- From a state with one open file at most and a counter that is 1 less the open files and the calls
-- of kgpu_open being refused, every sequence of the steps of kgpu_open and kgpu_release leaves such
-- a state, if each release happens while no call of kgpu_open is being refused and the calls are
-- fewer than 2^32 - 2.
pub file_run-IsExclusive :
    (es : List FileEvent) (d : DeviceFile)
    → IsExclusive d
    → d.refused + length es + 2 < u32_mod
    → IsQuiet d es
    → IsExclusive (file_run d es)
unfolding file_run
file_run-IsExclusive [] d v small quiet = v
file_run-IsExclusive (opens ∷ es) d v small quiet =
    let (w, l) = opens-IsExclusive d v (omega arith) in
    file_run-IsExclusive es (file_step d opens) w (omega arith) quiet
file_run-IsExclusive (refuses ∷ es) d v small quiet =
    let (w, l) = refuses-IsExclusive d v (omega arith) in
    file_run-IsExclusive es (file_step d refuses) w (omega arith) quiet
file_run-IsExclusive (releases ∷ es) d v small quiet =
    let (w, l) = releases-IsExclusive d v quiet.0 in
    file_run-IsExclusive es (file_step d releases) w (omega arith) quiet.1

-- If the one open file is released while a call of kgpu_open is being refused, two files can be
-- open: another call of kgpu_open succeeds before the counter is incremented, and one more after
-- it. If instead the refused call ends at once, no file is open and the next kgpu_open by itself
-- returns -EBUSY and changes nothing, so that the device stays closed.
pub release_race :
    (d : DeviceFile)
    → d.files ≡ 1
    → d.refused ≡ 1
    → ((file_run d (releases ∷ opens ∷ refuses ∷ opens ∷ [])).files ≡ 2)
      × ((file_run d (releases ∷ refuses ∷ [])).files ≡ 0)
      × (kgpu_open (file_run d (releases ∷ refuses ∷ []))
          ≡ (file_run d (releases ∷ refuses ∷ []), neg ebusy))
unfolding file_run file_step open_dec open_inc kgpu_open kgpu_release
release_race d f r = rw (f, r) (refl, refl, refl)
