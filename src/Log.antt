-- ===== src/Log.antt =====
-- The log function of both sides, kgpu/src/kgpu_log.c with the levels of kgpu/include/kgpu_log.h, and
-- printErrorMessage of kgpu/src/utils/errorOpenCl.c. A level is a number from 0 on. What is printed is a list of
-- texts, each by its kind; the codes of OpenCL are a parameter.
use kgpu_fga.Base.{
  ℕ, ◌≤◌, ◌<◌, ◌≡◌, ◌↔◌, refl, ap, arith, All, if◌then◌else◌, ltb, ◌==◌, List, [], ◌∷◌, ◌++◌,
  length, Bool-cases, inl, inr,
}

-- The word after the function's name; `print` has none.
pub data Label : Type 0 where
  info debug alert error print : Label

-- A header with its label, or the text of the caller.
pub data Printed : Type 0 where
  header : Label → Printed
  message : Printed

-- The switch on the level: no header for another level.
unfoldable pub log_header : ℕ → List Printed
log_header level =
    if level == 1
    then header info ∷ []
    else if level == 2
    then header debug ∷ []
    else if level == 3
    then header alert ∷ []
    else if level == 4
    then header error ∷ []
    else if level == 5
    then header print ∷ []
    else []

unfoldable pub kgpu_generic_log : ℕ → ℕ → List Printed
unfolding log_header
kgpu_generic_log kgpu_log_level level =
    if ltb level kgpu_log_level then [] else log_header level ++ message ∷ []

-- A call of at least the log's level prints its text after one header if the level is one of the five,
-- and after none otherwise.
pub log-length :
    (kgpu_log_level level : ℕ)
    → kgpu_log_level ≤ level
    → length (kgpu_generic_log kgpu_log_level level)
      ≡ (if ltb 0 level then (if ltb level 6 then 2 else 1) else 1)
unfolding kgpu_generic_log log_header
log-length kgpu_log_level level h = ground (arith, h)

-- A call prints something exactly if its level is at least that of the log.
pub log_level_lem :
    (kgpu_log_level level : ℕ)
    → (kgpu_log_level ≤ level) ↔ (0 < length (kgpu_generic_log kgpu_log_level level))
unfolding kgpu_generic_log
log_level_lem kgpu_log_level level = (
  λ h. ground (arith, log-length kgpu_log_level level h),
  λ d. elim (Bool-cases (ltb level kgpu_log_level)) [
    | inl e ↦
        let z : kgpu_generic_log kgpu_log_level level ≡ [] = rw e refl in
        absurd (omega (arith, d, ap length z))
    | inr e ↦ ground arith
  ],
)

-- The codes in the table of messages, in its order.
pub data ErrorCode : Type 0 where
  no_space_on_host invalid_platform device_not_found invalid_device_type invalid_context
        invalid_value invalid_command_queue out_of_resources invalid_buffer_size invalid_host_ptr
        invalid_mem_object mem_object_allocation_failure out_of_host_memory :
      ErrorCode

abbrev pub error_messages : List ErrorCode
error_messages =
    no_space_on_host ∷ invalid_platform ∷ device_not_found ∷ invalid_device_type ∷ invalid_context
    ∷ invalid_value ∷ invalid_command_queue ∷ out_of_resources ∷ invalid_buffer_size
    ∷ invalid_host_ptr ∷ invalid_mem_object ∷ mem_object_allocation_failure ∷ out_of_host_memory
    ∷ []

-- The loop of printErrorMessage over the rest of the table: the messages that are printed.
unfoldable pub matching : (ErrorCode → ℕ) → ℕ → List ErrorCode → List ErrorCode
matching code p_code [] = []
matching code p_code (e ∷ l) =
    let rest = matching code p_code l in if code e == p_code then e ∷ rest else rest

unfoldable pub print_error_message : (ErrorCode → ℕ) → ℕ → List ErrorCode
unfolding matching
print_error_message code p_code = matching code p_code error_messages

-- Each message that is printed is one of the code.
pub matching-All :
    (code : ErrorCode → ℕ) (p_code : ℕ) (l : List ErrorCode)
    → All (λ e. code e ≡ p_code) (matching code p_code l)
unfolding matching
matching-All code p_code [] = tt
matching-All code p_code (e ∷ l) = elim (Bool-cases (code e == p_code)) [
  | inl f ↦ rw f (ground arith, matching-All code p_code l)
  | inr f ↦ rw f (matching-All code p_code l)
]
