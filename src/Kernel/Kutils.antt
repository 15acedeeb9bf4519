-- ===== src/Kernel/Kutils.antt =====
-- kgpu/src/kgpu_kutils.c: the walk of the page tables from a virtual address to its page. The
-- tables of the current process are Linux's; what the walk reads of them is a parameter.
use kgpu_fga.Base.{ℕ, Bool, if◌then◌else◌}

pub record PageTables : Type 0 where
  pub pgd_none : ℕ → Bool
  pub pud_none : ℕ → Bool
  pub pmd_none : ℕ → Bool
  pub pte_present : ℕ → Bool
  pub pte_page : ℕ → ℕ

-- 0 is NULL.
unfoldable pub kgpu_v2page : PageTables → ℕ → ℕ
kgpu_v2page t v =
    if t.pgd_none v
    then 0
    else if t.pud_none v
    then 0
    else if t.pmd_none v
    then 0
    else if t.pte_present v
    then t.pte_page v
    else 0
