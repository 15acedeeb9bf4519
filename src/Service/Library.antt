-- ===== src/Service/Library.antt =====
-- kh_load_service and kh_unload_service of kgpu/src/userSpace/service.c for libraries with one service.
use kgpu_fga.Base.{
  ℕ, zero, suc, ◌+◌, ◌≡◌, ◌≢◌, refl, ap, sym, ◌∙◌, fun_ext, arith, true, false, ◌||◌, ltb, ◌==◌,
  ==_refl, update, List, [], ◌∷◌, ◌++◌, Option, none, some, has, Bool-cases, inl, inr, ◌⊎◌,
  some-injective,
}
use kgpu_fga.Helper.{erase}
use kgpu_fga.Service.{
  ServiceList, ServiceEnv, kgpu_service_name_size, strncmp_eq, find_item, lookup_kgpu_sitem,
  kh_lookup_service, unregister_service, kh_unregister_service, run_init, run_finit, dlclose,
  kh_load_service, unload_library, unload_service, kh_unload_service,
}
use kgpu_fga.Service.Registry.{
  IsMalloc, IsLive, IsRegistry, names, find-cons, find_cases, lookup_some, find_frame, registered,
  register_lem, register_find, apart,
}

pub strncmp_refl : (n : ℕ) (a : List ℕ) → strncmp_eq n a a ≡ true
unfolding strncmp_eq
strncmp_refl zero a = refl
strncmp_refl (suc n) [] = refl
strncmp_refl (suc n) (x ∷ a) = rw (==_refl x) (strncmp_refl n a)

erase-push : (i : ℕ) (l : List ℕ) → has i l ≡ false → erase i (l ++ i ∷ []) ≡ l
unfolding erase
erase-push i [] h = rw (==_refl i) refl
erase-push i (x ∷ l) h = ground (arith, erase-push i l)

same_list :
    (a b : ServiceList) → a.services ≡ b.services → a.item ≡ b.item → a.loaded ≡ b.loaded → a ≡ b
same_list a b p q t = λ i. record { services = p i; item = q i; loaded = t i }

-- The registry once the library has been opened.
abbrev pub opened : ServiceList → ℕ → ServiceList
opened r lh = record r { loaded = update r.loaded lh (r.loaded lh + 1) }

opened-live : (r : ServiceList) (lh i : ℕ) → IsLive r i → IsLive (opened r lh) i
opened-live r lh i v = record {
  it = v.it;
  holds = v.holds;
  reads = ground (arith, v.reads);
  real = v.real;
  place = v.place;
}

opened-IsRegistry : (r : ServiceList) (lh : ℕ) → IsRegistry r → IsRegistry (opened r lh)
opened-IsRegistry r lh v = record { live = λ i h. opened-live r lh i (v.live i h); once = v.once }

-- A library has no finit_service, or one that unregisters the service `s` and returns 0.
abbrev pub IsSingle : ServiceEnv → ℕ → ℕ → Type 0
IsSingle env lh s =
    ((env.library lh).has_finit ≡ false)
    ⊎ (((env.library lh).has_finit ≡ true)
        × ((env.library lh).finit_calls ≡ env.service_name s ∷ [])
        × ((env.library lh).finit_result (0 ∷ []) ≡ 0))

module _ (env : ServiceEnv) (law : IsMalloc env.malloc) (r : ServiceList) (v : IsRegistry r)
    (lh s : ℕ) (handle : lh ≢ 0) (real : s ≢ 0) (granted : env.malloc (opened r lh) ≢ 0)
    (init : (env.library lh).has_init ≡ true) (one : (env.library lh).init_calls ≡ s ∷ []) where
  open_lib : (lh == 0 || ltb 0 ((opened r lh).loaded lh)) ≡ true
  open_lib = ground arith

  abbrev loaded_list : ServiceList
  loaded_list = registered env (opened r lh) s lh

  abbrev ov : IsRegistry (opened r lh)
  ov = opened-IsRegistry r lh v

  init_lem : run_init env (opened r lh) lh (env.library lh).init_calls ≡ (loaded_list, 0 ∷ [])
  unfolding run_init
  init_lem = rw one (rw (register_lem env law (opened r lh) ov s lh real granted open_lib) refl)

  load_ok : (env.library lh).init_result (0 ∷ []) ≡ 0 → kh_load_service env r lh ≡ (loaded_list, 0)
  unfolding kh_load_service
  load_ok ok = ground (arith, init_lem)

  load_fails :
      (env.library lh).init_result (0 ∷ []) ≢ 0
      → kh_load_service env r lh ≡ (dlclose loaded_list lh, 1)
  unfolding kh_load_service
  load_fails bad = ground (arith, init_lem)

  abbrev item : ℕ
  item = env.malloc (opened r lh)

  out : has item r.services ≡ false
  out = apart env law (opened r lh) ov s lh real granted open_lib

  closed_live :
      r.loaded lh ≡ 0 → (i : ℕ) → has i r.services ≡ true → IsLive (dlclose loaded_list lh) i
  closed_live first i h =
      let w = v.live i h in
      record {
        it = w.it;
        holds = ground (arith, out, w.holds);
        reads = ground (arith, w.reads);
        real = w.real;
        place = w.place;
      }

  closed_find :
      r.loaded lh ≡ 0
      → (name l : List ℕ) → ((i : ℕ) → has i l ≡ true → IsLive (dlclose loaded_list lh) i)
      → find_item env (dlclose loaded_list lh) name l ≡ some 0
      → find_item env (dlclose loaded_list lh) name (l ++ item ∷ []) ≡ none
  unfolding find_item
  closed_find first name [] live f = ground (arith, ==_refl item, ==_refl lh)
  closed_find first name (x ∷ l) live f =
      let w = live x (ground arith) in
      let step = find-cons env (dlclose loaded_list lh) name x l w in
      let step' = find-cons env (dlclose loaded_list lh) name x (l ++ item ∷ []) w in
      elim (Bool-cases (names env name w.it.service)) [
        | inl m ↦ absurd (ground (arith, w.place, m, step, f))
        | inr m ↦
            step'
            ∙ rw m (
                closed_find first name l (λ i h. live i (ground arith))
                  (ground (arith, step, m, f)))
      ]

  absent :
      (name : List ℕ)
      → kh_lookup_service env r name ≡ some 0
      → find_item env r name r.services ≡ some 0
  absent name f = elim (find_cases env r name r.services v.live) [
    | inl g ↦ g
    | inr (i, g, h) ↦
        let w = v.live i h in
        absurd (w.real (some-injective _ _ (sym (lookup_some env r name i w g) ∙ f)))
  ]

  -- If the init_service of a library that is not loaded registers one service and fails,
  -- kh_load_service returns 1 and leaves the item in the list with the library closed: on a
  -- registry of live items without repetition, and with a malloc that gives unused memory,
  -- kh_lookup_service of any name that had no service then faults.
  pub load_fail_dangles :
      (env.library lh).init_result (0 ∷ []) ≢ 0
      → r.loaded lh ≡ 0
      → (name : List ℕ) → kh_lookup_service env r name ≡ some 0
      → ((kh_load_service env r lh).1 ≡ 1)
        × (kh_lookup_service env (kh_load_service env r lh).0 name ≡ none)
  unfolding kh_lookup_service lookup_kgpu_sitem
  load_fail_dangles bad first name f =
      let live = closed_live first in
      let same =
        find_frame env r (dlclose loaded_list lh) name r.services v.live live
          (λ i h. ground (arith, out)) in
      let found = closed_find first name r.services live (same ∙ absent name f) in
      (rw (load_fails bad) refl, rw (load_fails bad) (rw (kh_lookup_service, found) refl))

  -- The registry without the item again.
  restored : dlclose (unregister_service env loaded_list item).0 lh ≡ r
  unfolding unregister_service
  restored =
      let e : unregister_service env loaded_list item ≡ (
        record loaded_list {
          services = erase item loaded_list.services;
          item = update loaded_list.item item none;
        },
        0,
      ) =
        ground (arith, granted) in
      rw e (
        same_list _ _ (erase-push item r.services out)
          (fun_ext (λ j. ground (arith, law.unused (opened r lh) granted)))
          (fun_ext (λ j. ground arith)))

  pushed : loaded_list.item item ≡ some (record { service = s; libhandle = lh })
  pushed = ground arith

  abbrev item_live : IsLive loaded_list item
  item_live = record {
    it = record { service = s; libhandle = lh };
    holds = pushed;
    reads = open_lib;
    real = real;
    place = granted;
  }

  found :
      kh_lookup_service env r (env.service_name s) ≡ some 0
      → find_item env loaded_list (env.service_name s) loaded_list.services ≡ some item
  found f =
      let none_before =
        find_frame env r (opened r lh) (env.service_name s) r.services v.live ov.live (λ i h. refl)
        ∙ absent _ f in
      register_find env law (opened r lh) ov s lh real granted open_lib (env.service_name s) 0
        none_before
      ∙ rw (strncmp_refl kgpu_service_name_size (env.service_name s)) refl

  removed : (unregister_service env loaded_list item).1 ≡ 0
  unfolding unregister_service
  removed = ground (arith, granted)

  unload_item :
      IsSingle env lh s
      → kh_lookup_service env r (env.service_name s) ≡ some 0
      → unload_library env loaded_list item lh ≡ some (r, 0)
  unfolding unload_library run_finit kh_unregister_service lookup_kgpu_sitem
  unload_item t f =
      let open_now : (loaded_list.loaded lh == 0) ≡ false = ground (arith, ==_refl lh) in
      let same = ap {B = Option (ServiceList × ℕ)} (λ x. some (x, 0)) restored in
      elim t [
        | inl missing ↦ rw (unload_library, open_now, missing) same
        | inr (present, calls, fine) ↦
            rw
              (
                unload_library,
                open_now,
                present,
                calls,
                run_finit,
                kh_unregister_service,
                found f,
                removed,
                fine,
              )
              same
      ]

  -- On a registry of live items without repetition that finds no service under the name,
  -- kh_load_service of a library whose init_service registers one service of the name and returns
  -- 0, if malloc gives unused memory, returns 0 and makes kh_lookup_service find the service;
  -- kh_unload_service by the name, if the library has no finit_service or one that unregisters the
  -- name and returns 0, returns 0 and gives back the registry as it was.
  pub load_unload :
      (env.library lh).init_result (0 ∷ []) ≡ 0
      → IsSingle env lh s
      → kh_lookup_service env r (env.service_name s) ≡ some 0
      → (kh_load_service env r lh ≡ (loaded_list, 0))
        × (kh_lookup_service env loaded_list (env.service_name s) ≡ some s)
        × (kh_unload_service env loaded_list (env.service_name s) ≡ some (r, 0))
  unfolding kh_unload_service lookup_kgpu_sitem unload_service
  load_unload ok t f = (
    load_ok ok,
    lookup_some env loaded_list _ item item_live (found f),
    rw (kh_unload_service, found f) (ground (arith, granted, handle, unload_item t f)),
  )
