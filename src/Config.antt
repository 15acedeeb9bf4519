-- ===== src/Config.antt =====
-- The constants and macros of kgpu/include/kgpu.h, kgpu/include/kkgpu.h and
-- kgpu/include/kgpuConfiguration.h, and the C integers that the driver's functions return.
-- Pages have 4096 bytes (PAGE_SHIFT 12), as on x86_64 and in kgpu/include/userSpace/helper.h.
use kgpu_fga.Base.{ℕ, ◌*◌, ◌/◌, Bool, ◌&&◌, leb, ltb, add64, sub64}

abbrev pub page_size : ℕ
page_size = 4096

abbrev pub kgpu_buf_unit_size : ℕ
kgpu_buf_unit_size = 1024 * 1024

abbrev pub kgpu_buf_nr_frames_per_unit : ℕ
kgpu_buf_nr_frames_per_unit = kgpu_buf_unit_size / page_size

abbrev pub kgpu_buf_size : ℕ
kgpu_buf_size = 128 * 128 * 128

abbrev pub kgpu_mmap_size : ℕ
kgpu_mmap_size = kgpu_buf_size

-- DIV_ROUND_UP of Linux on `unsigned long`.
abbrev pub div_round_up : ℕ → ℕ → ℕ
div_round_up x len = sub64 (add64 x len) 1 / len

-- ADDR_WITHIN and ADDR_REBASE.
unfoldable pub addr_within : ℕ → ℕ → ℕ → Bool
addr_within pointer base size = leb base pointer && ltb pointer (add64 base size)

unfoldable pub addr_rebase : ℕ → ℕ → ℕ → ℕ
addr_rebase dst_base src_base pointer = add64 dst_base (sub64 pointer src_base)

-- The error codes (KGPU_OK and so on) that a request carries.
abbrev pub kgpu_ok : ℕ
kgpu_ok = 0

abbrev pub kgpu_no_response : ℕ
kgpu_no_response = 1

abbrev pub kgpu_no_service : ℕ
kgpu_no_service = 2

abbrev pub kgpu_terminated : ℕ
kgpu_terminated = 3

pub data Errno : Type 0 where
  eagain enomem efault ebusy einval enotty erestartsys : Errno

-- An `int`, `long` or `ssize_t` that a function returns: a number, or an errno negated.
pub data CInt : Type 0 where
  nat : ℕ → CInt
  neg : Errno → CInt
