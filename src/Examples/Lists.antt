-- ===== src/Examples/Lists.antt =====
-- Three rings of kgpu/include/list.h: at 1 with the entries 10 and 11, at 2 without entries, and at 3 with
-- the entry 12.
use kgpu_fga.Base.{ℕ, refl, arith, ◌==◌, if◌then◌else◌, List, [], ◌∷◌}
use kgpu_fga.ListHead.{Links, list_add_tail, list_del}
use kgpu_fga.ListHead.Ring.{IsRing}
use kgpu_fga.ListHead.Move.{move-IsRing}

abbrev links : Links
links = record {
  next = λ p.
      if p == 1
      then 10
      else if p == 10
      then 11
      else if p == 11
      then 1
      else if p == 3
      then 12
      else if p == 12
      then 3
      else p;
  prev = λ p.
      if p == 1
      then 11
      else if p == 11
      then 10
      else if p == 10
      then 1
      else if p == 3
      then 12
      else if p == 12
      then 3
      else p;
}

abbrev two : List ℕ
two = 10 ∷ 11 ∷ []

links-first : IsRing links 1 (10 ∷ 11 ∷ [])
links-first = record {
  chain = (refl, refl, (refl, refl, (refl, refl)));
  distinct = (refl, (refl, (refl, tt)));
}

links-second : IsRing links 2 []
links-second = record { chain = (refl, refl); distinct = (refl, tt) }

links-third : IsRing links 3 (12 ∷ [])
links-third = record { chain = (refl, refl, (refl, refl)); distinct = (refl, (refl, tt)) }

move-IsRing_example :
    IsRing (list_add_tail (list_del links 10) 10 2) 1 (11 ∷ [])
    × IsRing (list_add_tail (list_del links 10) 10 2) 2 (10 ∷ [])
    × IsRing (list_add_tail (list_del links 10) 10 2) 3 (12 ∷ [])
move-IsRing_example =
    move-IsRing links 1 10 2 3 [] (11 ∷ []) [] (12 ∷ []) links-first links-second links-third
      (λ q i. ground arith) (λ q i. ground arith)
