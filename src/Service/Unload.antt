-- ===== src/Service/Unload.antt =====
-- kh_unload_all_services of kgpu/src/userSpace/service.c.
use kgpu_fga.Base.{
  ℕ, suc, ◌≡◌, ◌≢◌, refl, ap, ◌∙◌, arith, true, false, ◌==◌, ==_refl, update, List, [], ◌∷◌, none,
  some,
}
use kgpu_fga.Helper.{erase}
use kgpu_fga.Service.{
  ServiceList, ServiceEnv, kgpu_service_name_size, readable, find_item, lookup_kgpu_sitem,
  unregister_service, kh_unregister_service, run_finit, dlclose, unload_library, unload_service,
  next_item, first_item, unload_from, kh_unload_all_services, fault,
}
use kgpu_fga.Service.Library.{strncmp_refl}

-- finit_service unregisters the first two items of the list, of one library that has been loaded
-- once.
module _ (env : ServiceEnv) (r : ServiceList) (p q lh s t : ℕ) (others : List ℕ)
    (list : r.services ≡ p ∷ q ∷ others)
    (first : r.item p ≡ some (record { service = s; libhandle = lh }))
    (second : r.item q ≡ some (record { service = t; libhandle = lh })) (here : p ≢ 0)
    (there : q ≢ 0) (apart : p ≢ q) (handle : lh ≢ 0) (open_once : r.loaded lh ≡ 1)
    (present : (env.library lh).has_finit ≡ true)
    (calls : (env.library lh).finit_calls ≡ env.service_name s ∷ env.service_name t ∷ [])
    (fine : (env.library lh).finit_result (0 ∷ 0 ∷ []) ≡ 0) where
  abbrev without_first : ServiceList
  without_first = record r { services = q ∷ others; item = update r.item p none }

  abbrev without_both : ServiceList
  without_both = record r { services = others; item = update (update r.item p none) q none }

  remove_first : kh_unregister_service env r (env.service_name s) ≡ some (without_first, 0)
  unfolding kh_unregister_service lookup_kgpu_sitem unregister_service find_item erase
  remove_first =
      let open_now : readable r (record { service = s; libhandle = lh }) ≡ true =
        ground (arith, open_once) in
      let found = strncmp_refl kgpu_service_name_size (env.service_name s) in
      let e : (p == 0) ≡ false = ground (arith, here) in
      rw (kh_unregister_service, list, first, open_now, found, unregister_service, e)
        (rw (list, ==_refl p) refl)

  remove_second :
      kh_unregister_service env without_first (env.service_name t) ≡ some (without_both, 0)
  unfolding kh_unregister_service lookup_kgpu_sitem unregister_service find_item erase
  remove_second =
      let open_now : readable r (record { service = t; libhandle = lh }) ≡ true =
        ground (arith, open_once) in
      let found = strncmp_refl kgpu_service_name_size (env.service_name t) in
      let e : (q == 0) ≡ false = ground (arith, there) in
      let same : without_first.item q ≡ some (record { service = t; libhandle = lh }) =
        ground (arith, apart, second) in
      rw (kh_unregister_service, same, open_now, found, unregister_service, e, ==_refl q) refl

  finit_removes : run_finit env r (env.library lh).finit_calls ≡ some (without_both, 0 ∷ 0 ∷ [])
  unfolding run_finit
  finit_removes = rw (calls, run_finit, remove_first, run_finit, remove_second) refl

  unload_first : unload_service env r p ≡ some (dlclose without_both lh, 0)
  unfolding unload_service unload_library
  unload_first =
      let e : (p == 0) ≡ false = ground (arith, here) in
      let e' : (lh == 0) ≡ false = ground (arith, handle) in
      let open_now : (r.loaded lh == 0) ≡ false = rw open_once refl in
      rw (unload_service, e, first, e', unload_library, open_now, present, finit_removes, fine) refl

  next_second : next_item env p r.services ≡ q
  unfolding next_item
  next_second = rw (list, ==_refl p) refl

  unload_from_first : (fuel : ℕ) → unload_from env r (suc fuel) p ≡ fault
  unfolding unload_from
  unload_from_first fuel =
      let e : (p == 0) ≡ false = ground (arith, here) in
      let e' : (q == 0) ≡ false = ground (arith, there) in
      let gone : without_both.item q ≡ none = ground (arith, apart) in
      rw (unload_from, e, unload_first, next_second, e', gone) refl

  -- If the list of services begins with two items of one library that is loaded once, whose
  -- finit_service unregisters first the one, then the other and returns 0, kh_unload_all_services
  -- faults: it goes on at the second item, which has been freed.
  pub unload_all_faults : (fuel : ℕ) → kh_unload_all_services env r (suc fuel) ≡ fault
  unfolding kh_unload_all_services
  unload_all_faults fuel =
      let head : first_item env r.services ≡ p = rw list refl in
      ap (unload_from env r (suc fuel)) head ∙ unload_from_first fuel
