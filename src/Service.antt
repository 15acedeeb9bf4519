-- ===== src/Service.antt =====
-- The services of the helper, kgpu/src/userSpace/service.c. Items lie in a store under their
-- addresses, and `services` lists them in order. The libraries, malloc, dlopen and glob are
-- parameters: a library is what its init_service and finit_service call and return. A read of an item
-- that has been freed, or of a service of a library that is not loaded, is a fault, `none`. Output is
-- left out.
pub mod Registry
pub mod Library
pub mod Unload
pub mod Empty
use kgpu_fga.Base.{
  ℕ, zero, suc, ◌+◌, ◌-◌, ◌≡◌, ◌≢◌, Bool, true, false, ◌&&◌, ◌||◌, if◌then◌else◌, ltb, ◌==◌, update,
  List, [], ◌∷◌, ◌++◌, Option, none, some,
}
use kgpu_fga.Helper.{erase}

abbrev pub kgpu_service_name_size : ℕ
kgpu_service_name_size = 32

-- struct _kgpu_sitem
pub record ServiceItem : Type 0 where
  pub service : ℕ
  pub libhandle : ℕ

-- `loaded` counts the calls of dlopen less those of dlclose for each handle; a library is mapped while
-- it is not 0.
pub record ServiceList : Type 0 where
  pub services : List ℕ
  pub item : ℕ → Option ServiceItem
  pub loaded : ℕ → ℕ

-- !strncmp(a, b, n) on strings, as lists of the characters before the NUL.
unfoldable pub strncmp_eq : ℕ → List ℕ → List ℕ → Bool
strncmp_eq zero a b = true
strncmp_eq (suc n) [] [] = true
strncmp_eq (suc n) [] (y ∷ b) = false
strncmp_eq (suc n) (x ∷ a) [] = false
strncmp_eq (suc n) (x ∷ a) (y ∷ b) = x == y && strncmp_eq n a b

-- A library: the services that init_service registers and its result from those of the calls, and the
-- names that finit_service unregisters and its result.
pub record ServiceLibrary : Type 0 where
  pub has_init : Bool
  pub init_calls : List ℕ
  pub init_result : List ℕ → ℕ
  pub has_finit : Bool
  pub finit_calls : List (List ℕ)
  pub finit_result : List ℕ → ℕ

-- `malloc` gives the address of a new item, or 0; `service_name` the name of a service.
pub record ServiceEnv : Type 0 where
  pub malloc : ServiceList → ℕ
  pub service_name : ℕ → List ℕ
  pub library : ℕ → ServiceLibrary

abbrev pub dlclose : ServiceList → ℕ → ServiceList
dlclose r lh = record r { loaded = update r.loaded lh (r.loaded lh - 1) }

-- The item's service can be read: a service without a library is the helper's own.
abbrev pub readable : ServiceList → ServiceItem → Bool
readable r i = i.libhandle == 0 || ltb 0 (r.loaded i.libhandle)

-- How a loop ends: with the sum of the results, by a fault, or out of fuel.
pub data Unloading : Type 0 where
  done : ServiceList → ℕ → Unloading
  fault : Unloading
  out_of_fuel : Unloading

abbrev pub count_failure : ℕ → Unloading → Unloading
count_failure e (done r es) = done r (e + es)
count_failure e fault = fault
count_failure e out_of_fuel = out_of_fuel

module _ (env : ServiceEnv) where
  -- The loop of lookup_kgpu_sitem: an item, or 0.
  unfoldable pub find_item : ServiceList → List ℕ → List ℕ → Option ℕ
  find_item r name [] = some 0
  find_item r name (e ∷ rest) =
      let later = find_item r name rest in
      elim (r.item e) [
        | none ↦ none
        | some i ↦
            if readable r i
            then if strncmp_eq kgpu_service_name_size name (env.service_name i.service)
              then some e
              else later
            else none
      ]

  -- The name is not NULL.
  unfoldable pub lookup_kgpu_sitem : ServiceList → List ℕ → Option ℕ
  lookup_kgpu_sitem r name = find_item r name r.services

  unfoldable pub kh_lookup_service : ServiceList → List ℕ → Option ℕ
  kh_lookup_service r name = elim (lookup_kgpu_sitem r name) [
    | none ↦ none
    | some i ↦
        if i == 0 then some 0 else elim (r.item i) [ none ↦ none | some it ↦ some it.service ]
  ]

  unfoldable pub kh_register_service : ServiceList → ℕ → ℕ → ServiceList × ℕ
  kh_register_service r s libhandle =
      let i = env.malloc r in
      if s == 0 then (r, 1) else if i == 0 then (r, 1) else (
        record r {
          services = r.services ++ i ∷ [];
          item = update r.item i (some (record { service = s; libhandle = libhandle }));
        },
        0,
      )

  -- __unregister_service
  unfoldable pub unregister_service : ServiceList → ℕ → ServiceList × ℕ
  unregister_service r i =
      if i == 0
      then (r, 1)
      else (record r { services = erase i r.services; item = update r.item i none }, 0)

  unfoldable pub kh_unregister_service : ServiceList → List ℕ → Option (ServiceList × ℕ)
  kh_unregister_service r name = elim (lookup_kgpu_sitem r name) [
    | none ↦ none
    | some i ↦ some (unregister_service r i)
  ]

  -- The calls of init_service, and their results.
  unfoldable pub run_init : ServiceList → ℕ → List ℕ → ServiceList × List ℕ
  run_init r lh [] = (r, [])
  run_init r lh (s ∷ calls) =
      let (r', e) = kh_register_service r s lh in
      let (r'', es) = run_init r' lh calls in (r'', e ∷ es)

  -- The calls of finit_service, and their results.
  unfoldable pub run_finit : ServiceList → List (List ℕ) → Option (ServiceList × List ℕ)
  run_finit r [] = some (r, [])
  run_finit r (name ∷ calls) = elim (kh_unregister_service r name) [
    | none ↦ none
    | some (r', e) ↦ elim (run_finit r' calls) [ none ↦ none | some (r'', es) ↦ some (r'', e ∷ es) ]
  ]

  -- `lh` is what dlopen returns for the path, 0 for NULL.
  unfoldable pub kh_load_service : ServiceList → ℕ → ServiceList × ℕ
  kh_load_service r lh =
      let lib = env.library lh in
      let opened = record r { loaded = update r.loaded lh (r.loaded lh + 1) } in
      let (r', es) = run_init opened lh lib.init_calls in
      if lh == 0
      then (r, 1)
      else if lib.has_init
      then if lib.init_result es == 0 then (r', 0) else (dlclose r' lh, 1)
      else (dlclose opened lh, 1)

  -- `handles` are those of the paths that glob finds.
  unfoldable pub kh_load_all_services : ServiceList → List ℕ → ServiceList × ℕ
  kh_load_all_services r [] = (r, 0)
  kh_load_all_services r (lh ∷ handles) =
      let (r', e) = kh_load_service r lh in
      let (r'', es) = kh_load_all_services r' handles in (r'', e + es)

  -- The name of the item's service is printed when finit_service has failed.
  abbrev print_name : ServiceList → ℕ → Option ℕ
  print_name r i = elim (r.item i) [
    | none ↦ none
    | some it ↦ if readable r it then some it.service else none
  ]

  -- __unload_service with a library: finit_service or the removal of the item, then dlclose. The
  -- handle of a library that is not loaded is not valid.
  unfoldable pub unload_library : ServiceList → ℕ → ℕ → Option (ServiceList × ℕ)
  unload_library r i lh =
      let lib = env.library lh in
      if r.loaded lh == 0
      then none
      else if lib.has_finit
      then elim (run_finit r lib.finit_calls) [
        | none ↦ none
        | some (r', es) ↦
            if lib.finit_result es == 0
            then some (dlclose r' lh, 0)
            else elim (print_name r' i) [ none ↦ none | some _ ↦ some (dlclose r' lh, 1) ]
      ]
      else some (dlclose (unregister_service r i).0 lh, 0)

  -- __unload_service
  unfoldable pub unload_service : ServiceList → ℕ → Option (ServiceList × ℕ)
  unload_service r i = if i == 0 then some (r, 1) else elim (r.item i) [
    | none ↦ none
    | some it ↦
        if it.libhandle == 0
        then some ((unregister_service r i).0, 0)
        else unload_library r i it.libhandle
  ]

  unfoldable pub kh_unload_service : ServiceList → List ℕ → Option (ServiceList × ℕ)
  kh_unload_service r name = elim (lookup_kgpu_sitem r name) [
    | none ↦ none
    | some i ↦ unload_service r i
  ]

  -- The entry after `p` on the list, or 0 for the head.
  unfoldable pub next_item : ℕ → List ℕ → ℕ
  next_item p [] = 0
  next_item p (q ∷ []) = 0
  next_item p (q ∷ n ∷ l) = let later = next_item p (n ∷ l) in if p == q then n else later

  -- The loop of kh_unload_all_services at `p`, in at most `fuel` rounds. The next entry is read before
  -- the item is unloaded, and its links are read after that, where a freed entry is a fault.
  unfoldable pub unload_from : ServiceList → ℕ → ℕ → Unloading
  unload_from r zero p = out_of_fuel
  unload_from r (suc fuel) p =
      let n = next_item p r.services in
      if p == 0 then done r 0 else elim (unload_service r p) [
        | none ↦ fault
        | some (r', e) ↦ if n == 0 then done r' e else elim (r'.item n) [
          | none ↦ fault
          | some _ ↦ count_failure e (unload_from r' fuel n)
        ]
      ]

  abbrev pub first_item : List ℕ → ℕ
  first_item [] = 0
  first_item (p ∷ l) = p

  unfoldable pub kh_unload_all_services : ServiceList → ℕ → Unloading
  unfolding unload_from
  kh_unload_all_services r fuel = unload_from r fuel (first_item r.services)
