-- ===== src/Service/Empty.antt =====
-- kh_unload_all_services of kgpu/src/userSpace/service.c on libraries that registered one service each.
use kgpu_fga.Base.{
  ℕ, suc, ◌-◌, ◌≡◌, ◌≢◌, refl, ap, sym, subst, ◌∙◌, arith, true, false, if◌then◌else◌, ◌==◌,
  ==_refl, update, List, [], ◌∷◌, Option, none, some, length, has, Distinct, Bool-cases, inl, inr,
}
use kgpu_fga.Helper.{erase}
use kgpu_fga.Service.{
  ServiceItem, ServiceList, ServiceEnv, kgpu_service_name_size, find_item, lookup_kgpu_sitem,
  first_item, count_failure, unregister_service, kh_unregister_service, run_finit, dlclose,
  unload_library, unload_service, next_item, unload_from, kh_unload_all_services, done,
}
use kgpu_fga.Service.Registry.{IsLive}
use kgpu_fga.Service.Library.{strncmp_refl, IsSingle}

abbrev handle_in : Option ServiceItem → ℕ
handle_in none = 0
handle_in (some it) = it.libhandle

abbrev service_in : Option ServiceItem → ℕ
service_in none = 0
service_in (some it) = it.service

abbrev pub handle_of : ServiceList → ℕ → ℕ
handle_of r i = handle_in (r.item i)

abbrev pub service_of : ServiceList → ℕ → ℕ
service_of r i = service_in (r.item i)

-- The entries `l` are live, and no two of them come from one library.
pub record IsTidy (env : ServiceEnv) (r : ServiceList) (l : List ℕ) : Type 0 where
  pub live : (i : ℕ) → has i l ≡ true → IsLive r i
  pub single :
      (i : ℕ) → has i l ≡ true → handle_of r i ≢ 0 → IsSingle env (handle_of r i) (service_of r i)
  pub once : Distinct l
  pub alone :
      (i j : ℕ)
      → has i l ≡ true
      → has j l ≡ true
      → i ≢ j
      → handle_of r i ≡ handle_of r j
      → handle_of r i ≡ 0

-- Without the first entry.
abbrev pub without : ServiceList → ℕ → List ℕ → ServiceList
without r p l = record r {
  services = l;
  item = update r.item p none;
  loaded =
      if handle_of r p == 0
      then r.loaded
      else update r.loaded (handle_of r p) (r.loaded (handle_of r p) - 1);
}

module _ (env : ServiceEnv) where
  same_item : (r : ServiceList) (p i : ℕ) (l : List ℕ) → p ≢ i → (without r p l).item i ≡ r.item i
  same_item r p i l d = ground (arith, d)

  without-IsTidy :
      (r : ServiceList) (p : ℕ) (l : List ℕ) → IsTidy env r (p ∷ l) → IsTidy env (without r p l) l
  without-IsTidy r p l v =
      let apart : (i : ℕ) → has i l ≡ true → p ≢ i = λ i h. ground (arith, v.once) in
      let later : (i : ℕ) → has i l ≡ true → has i (p ∷ l) ≡ true = λ i h. ground arith in
      let same : (i : ℕ) → has i l ≡ true → (without r p l).item i ≡ r.item i =
        λ i h. same_item r p i l (apart i h) in
      record {
        live = λ i h.
            let w = v.live i (later i h) in
            let x = v.live p (ground (arith, ==_refl p)) in
            let other =
              v.alone i p (later i h) (ground (arith, ==_refl p)) (ground (arith, apart i h)) in
            let mine : handle_of r i ≡ w.it.libhandle = ap handle_in w.holds in
            record {
              it = w.it;
              holds = same i h ∙ w.holds;
              reads = ground (arith, w.reads, mine, other);
              real = w.real;
              place = w.place;
            };
        single = λ i h.
            subst (λ x. handle_in x ≢ 0 → IsSingle env (handle_in x) (service_in x))
              (sym (same i h)) (v.single i (later i h));
        once = v.once.1;
        alone = λ i j h k d e.
            let f = ap handle_in (same i h) in
            f ∙ v.alone i j (later i h) (later j k) d (sym f ∙ e ∙ ap handle_in (same j k));
      }

  unregister_first :
      (r : ServiceList) (p : ℕ) (l : List ℕ)
      → r.services ≡ p ∷ l
      → p ≢ 0
      → unregister_service env r p ≡ (record r { services = l; item = update r.item p none }, 0)
  unfolding unregister_service erase
  unregister_first r p l e d =
      let f : (p == 0) ≡ false = ground (arith, d) in rw (unregister_service, f, e, ==_refl p) refl

  unregister_named :
      (r : ServiceList) (p : ℕ) (l : List ℕ) (x : IsLive r p)
      → r.services ≡ p ∷ l
      → kh_unregister_service env r (env.service_name x.it.service)
        ≡ some (record r { services = l; item = update r.item p none }, 0)
  unfolding kh_unregister_service lookup_kgpu_sitem find_item
  unregister_named r p l x e =
      let found = strncmp_refl kgpu_service_name_size (env.service_name x.it.service) in
      rw (kh_unregister_service, e, x.holds, x.reads, found, unregister_first r p l e x.place) refl

  unload_single :
      (r : ServiceList) (p : ℕ) (l : List ℕ) (x : IsLive r p)
      → r.services ≡ p ∷ l
      → x.it.libhandle ≢ 0
      → IsSingle env x.it.libhandle x.it.service
      → unload_library env r p x.it.libhandle
        ≡ some (dlclose (record r { services = l; item = update r.item p none }) x.it.libhandle, 0)
  unfolding unload_library run_finit
  unload_single r p l x e z v =
      let open_now : (r.loaded x.it.libhandle == 0) ≡ false = ground (arith, x.reads) in
      elim v [
        | inl missing ↦
            rw (unload_library, open_now, missing, unregister_first r p l e x.place) refl
        | inr (present, calls, fine) ↦
            rw
              (
                unload_library,
                open_now,
                present,
                calls,
                run_finit,
                unregister_named r p l x e,
                fine,
              )
              refl
      ]

  unload_first :
      (r : ServiceList) (p : ℕ) (l : List ℕ)
      → IsTidy env r (p ∷ l)
      → r.services ≡ p ∷ l
      → unload_service env r p ≡ some (without r p l, 0)
  unfolding unload_service
  unload_first r p l v e =
      let x = v.live p (ground (arith, ==_refl p)) in
      let f : (p == 0) ≡ false = ground (arith, x.place) in
      let out = unregister_first r p l e x.place in
      let mine : handle_of r p ≡ x.it.libhandle = ap handle_in x.holds in
      elim (Bool-cases (x.it.libhandle == 0)) [
        | inl z ↦ rw (unload_service, f, x.holds, z, out) refl
        | inr z ↦
            rw (unload_service, f, x.holds, z)
              (unload_single r p l x e (ground (arith, z)) (
                subst (λ t. handle_in t ≢ 0 → IsSingle env (handle_in t) (service_in t)) x.holds
                  (v.single p (ground (arith, ==_refl p))) (ground (arith, z))))
      ]

  next_first : (p : ℕ) (l : List ℕ) → next_item env p (p ∷ l) ≡ first_item env l
  unfolding next_item
  next_first p [] = refl
  next_first p (q ∷ l) = rw (==_refl p) refl

  unload_from_next :
      (r r' : ServiceList) (p n : ℕ) (it : ServiceItem) (fuel : ℕ)
      → p ≢ 0
      → n ≢ 0
      → unload_service env r p ≡ some (r', 0)
      → next_item env p r.services ≡ n
      → r'.item n ≡ some it
      → unload_from env r (suc fuel) p ≡ count_failure 0 (unload_from env r' fuel n)
  unfolding unload_from
  unload_from_next r r' p n it fuel here there out next holds =
      let f : (p == 0) ≡ false = ground (arith, here) in
      let g : (n == 0) ≡ false = ground (arith, there) in
      rw (unload_from, f, out, next, g, holds)
        (ap (λ m. count_failure 0 (unload_from env r' fuel m)) next)

  unload_from_empties :
      (l : List ℕ) (r : ServiceList) (p : ℕ)
      → IsTidy env r (p ∷ l)
      → r.services ≡ p ∷ l
      → (r' : ServiceList) × (unload_from env r (suc (suc (length l))) p ≡ done r' 0)
        × (r'.services ≡ [])
        × ((i : ℕ) → r'.item i ≡ (if has i (p ∷ l) then none else r.item i))
  unfolding unload_from
  unload_from_empties [] r p v e =
      let f : (p == 0) ≡ false = ground (arith, (v.live p (ground (arith, ==_refl p))).place) in
      let n : next_item env p r.services ≡ 0 = ap (next_item env p) e ∙ next_first p [] in
      (
        without r p [],
        rw (unload_from, f, unload_first r p [] v e, n) refl,
        refl,
        λ i. ground arith,
      )
  unload_from_empties (q ∷ l) r p v e =
      let v' = without-IsTidy r p (q ∷ l) v in
      let y = v'.live q (ground (arith, ==_refl q)) in
      let x = v.live p (ground (arith, ==_refl p)) in
      let n : next_item env p r.services ≡ q = ap (next_item env p) e ∙ next_first p (q ∷ l) in
      let (r', h, k, m) = unload_from_empties l (without r p (q ∷ l)) q v' refl in
      (
        r',
        unload_from_next r _ p q y.it (suc (suc (length l))) x.place y.place
              (unload_first r p (q ∷ l) v e) n y.holds
            ∙ ap (count_failure 0) h,
        k,
        λ i. ground (arith, m i),
      )

  empties :
      (l : List ℕ) (r : ServiceList)
      → IsTidy env r l
      → r.services ≡ l
      → (r' : ServiceList) × (kh_unload_all_services env r (suc (length l)) ≡ done r' 0)
        × (r'.services ≡ [])
        × ((i : ℕ) → r'.item i ≡ (if has i l then none else r.item i))
  unfolding kh_unload_all_services unload_from
  empties [] r v e = (r, rw (kh_unload_all_services, e) refl, e, λ i. refl)
  empties (p ∷ l) r v e =
      let (r', h, k, m) = unload_from_empties l r p v e in
      (r', ap (λ x. unload_from env r (suc (suc (length l))) (first_item env x)) e ∙ h, k, m)

  -- On a registry of live items without repetition, whose items from libraries are from different
  -- ones, each without finit_service or with one that unregisters the item's service by its name
  -- and returns 0, kh_unload_all_services ends within one round more than there are items, returns
  -- 0, and leaves an empty list with these items freed and all others kept.
  pub unload_all_empties :
      (r : ServiceList)
      → IsTidy env r r.services
      → (r' : ServiceList) × (kh_unload_all_services env r (suc (length r.services)) ≡ done r' 0)
        × (r'.services ≡ [])
        × ((i : ℕ) → r'.item i ≡ (if has i r.services then none else r.item i))
  unload_all_empties r v = empties r.services r v refl
