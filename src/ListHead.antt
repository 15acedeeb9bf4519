-- ===== src/ListHead.antt =====
-- The doubly linked lists of kgpu/include/list.h, on a store of the two links of each `list_head`. A
-- pointer is its number, with 0 for NULL; the writes of each function stand in the source's order.
pub mod Ring
pub mod Ops
pub mod Move
pub mod Walk
use kgpu_fga.Base.{
  ℕ, zero, suc, ◌+◌, Bool, if◌then◌else◌, ◌==◌, update, List, [], ◌∷◌, Option, none, some,
}

pub record Links : Type 0 where
  pub prev : ℕ → ℕ
  pub next : ℕ → ℕ

-- p->prev = q and p->next = q.
unfoldable pub set_prev : Links → ℕ → ℕ → Links
set_prev h p q = record h { prev = update h.prev p q }

unfoldable pub set_next : Links → ℕ → ℕ → Links
set_next h p q = record h { next = update h.next p q }

unfoldable pub init_list_head : Links → ℕ → Links
init_list_head h list = set_prev (set_next h list list) list list

-- __list_add
unfoldable pub insert_between : Links → ℕ → ℕ → ℕ → Links
insert_between h new prev next =
    let h₁ = set_prev h next new in
    let h₂ = set_next h₁ new next in let h₃ = set_prev h₂ new prev in set_next h₃ prev new

unfoldable pub list_add : Links → ℕ → ℕ → Links
list_add h new head = insert_between h new head (h.next head)

unfoldable pub list_add_tail : Links → ℕ → ℕ → Links
list_add_tail h new head = insert_between h new (h.prev head) head

-- __list_del
unfoldable pub join_around : Links → ℕ → ℕ → Links
join_around h prev next = set_next (set_prev h next prev) prev next

unfoldable pub list_del : Links → ℕ → Links
list_del h entry =
    let h₁ = join_around h (h.prev entry) (h.next entry) in set_prev (set_next h₁ entry 0) entry 0

unfoldable pub list_empty : Links → ℕ → Bool
list_empty h head = h.next head == head

-- list_for_each from `pos` on, in at most `fuel` rounds: the entries it visits. `none` if it has not
-- come back to the head by then.
unfoldable pub list_for_each : Links → ℕ → ℕ → ℕ → Option (List ℕ)
list_for_each h head zero pos = none
list_for_each h head (suc fuel) pos =
    let rest = list_for_each h head fuel (h.next pos) in
    if pos == head then some [] else elim rest [ none ↦ none | some l ↦ some (pos ∷ l) ]

-- list_size: the rounds of list_for_each from the first entry, counted.
unfoldable pub size_loop : Links → ℕ → ℕ → ℕ → ℕ → Option ℕ
size_loop h head zero p s = none
size_loop h head (suc fuel) p s =
    let rest = size_loop h head fuel (h.next p) (s + 1) in if p == head then some s else rest

unfoldable pub list_size : Links → ℕ → ℕ → Option ℕ
unfolding size_loop
list_size h head fuel = size_loop h head fuel (h.next head) 0
