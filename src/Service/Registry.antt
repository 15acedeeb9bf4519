-- ===== src/Service/Registry.antt =====
-- kh_register_service, kh_unregister_service and kh_lookup_service of kgpu/src/userSpace/service.c.
use kgpu_fga.Base.{
  ℕ, ◌≡◌, ◌≢◌, refl, sym, ◌∙◌, arith, Bool, true, false, ◌||◌, if◌then◌else◌, ltb, ◌==◌, update,
  List, [], ◌∷◌, ◌++◌, none, some, has, has-append, Distinct, Distinct-push, Bool-cases, inl, inr,
  ◌⊎◌, some-injective,
}
use kgpu_fga.Service.{
  ServiceItem, ServiceList, ServiceEnv, kgpu_service_name_size, strncmp_eq, readable, find_item,
  lookup_kgpu_sitem, kh_lookup_service, kh_register_service,
}

-- malloc gives memory that no item has.
pub record IsMalloc (malloc : ServiceList → ℕ) : Type 0 where
  pub unused : (r : ServiceList) → malloc r ≢ 0 → r.item (malloc r) ≡ none

-- The item at `i` is there, with a service that can be read.
pub record IsLive (r : ServiceList) (i : ℕ) : Type 0 where
  pub it : ServiceItem
  pub holds : r.item i ≡ some it
  pub reads : readable r it ≡ true
  pub real : it.service ≢ 0
  pub place : i ≢ 0

-- Every entry of the list is live, and stands there once.
pub record IsRegistry (r : ServiceList) : Type 0 where
  pub live : (i : ℕ) → has i r.services ≡ true → IsLive r i
  pub once : Distinct r.services

-- The list after kh_register_service has granted the service `s`.
abbrev pub registered : ServiceEnv → ServiceList → ℕ → ℕ → ServiceList
registered env r s lh = record r {
  services = r.services ++ env.malloc r ∷ [];
  item = update r.item (env.malloc r) (some (record { service = s; libhandle = lh }));
}

module _ (env : ServiceEnv) where
  -- The name is that of a service.
  abbrev pub names : List ℕ → ℕ → Bool
  names name s = strncmp_eq kgpu_service_name_size name (env.service_name s)

  pub find-cons :
      (r : ServiceList) (name : List ℕ) (e : ℕ) (l : List ℕ) (v : IsLive r e)
      → find_item env r name (e ∷ l)
        ≡ (if names name v.it.service then some e else find_item env r name l)
  unfolding find_item
  find-cons r name e l v = rw (find_item, v.holds, v.reads) refl

  -- A lookup finds nothing, or an item of the list.
  pub find_cases :
      (r : ServiceList) (name l : List ℕ)
      → ((i : ℕ) → has i l ≡ true → IsLive r i)
      → (find_item env r name l ≡ some 0)
        ⊎ ((i : ℕ) × (find_item env r name l ≡ some i) × (has i l ≡ true))
  unfolding find_item
  find_cases r name [] live = inl refl
  find_cases r name (e ∷ l) live =
      let v = live e (ground arith) in
      let step = find-cons r name e l v in
      elim (Bool-cases (names name v.it.service)) [
        | inl m ↦ inr (e, step ∙ rw m refl, ground arith)
        | inr m ↦ elim (find_cases r name l (λ i h. live i (ground arith))) [
          | inl f ↦ inl (step ∙ rw m f)
          | inr (i, f, h) ↦ inr (i, step ∙ rw m f, ground arith)
        ]
      ]

  -- The items of a list decide what is found in it.
  pub find_frame :
      (r r' : ServiceList) (name l : List ℕ)
      → ((i : ℕ) → has i l ≡ true → IsLive r i)
      → ((i : ℕ) → has i l ≡ true → IsLive r' i)
      → ((i : ℕ) → has i l ≡ true → r'.item i ≡ r.item i)
      → find_item env r' name l ≡ find_item env r name l
  unfolding find_item
  find_frame r r' name [] live live' same = refl
  find_frame r r' name (e ∷ l) live live' same =
      let ih =
        find_frame r r' name l (λ i h. live i (ground arith)) (λ i h. live' i (ground arith))
          (λ i h. same i (ground arith)) in
      let v = live e (ground arith) in
      let v' = live' e (ground arith) in
      let it_eq : v'.it ≡ v.it =
        some-injective _ _ (sym v'.holds ∙ same e (ground arith) ∙ v.holds) in
      find-cons r' name e l v' ∙ rw (it_eq, ih) (sym (find-cons r name e l v))

  -- With one more entry, which is looked at last.
  pub find-push :
      (r : ServiceList) (name l : List ℕ) (e : ℕ)
      → ((i : ℕ) → has i l ≡ true → IsLive r i)
      → (v : IsLive r e) → (k : ℕ) → find_item env r name l ≡ some k
      → find_item env r name (l ++ e ∷ [])
        ≡ some (if k == 0 then if names name v.it.service then e else 0 else k)
  unfolding find_item
  find-push r name [] e live v k f = find-cons r name e [] v ∙ ground (arith, f)
  find-push r name (x ∷ l) e live v k f =
      let w = live x (ground arith) in
      let step = find-cons r name x l w in
      let step' = find-cons r name x (l ++ e ∷ []) w in
      elim (Bool-cases (names name w.it.service)) [
        | inl m ↦ step' ∙ ground (arith, w.place, m, step, f)
        | inr m ↦
            step'
            ∙ rw m (
                find-push r name l e (λ i h. live i (ground arith)) v k
                  (ground (arith, step, m, f)))
      ]

  pub lookup_none :
      (r : ServiceList) (name : List ℕ)
      → find_item env r name r.services ≡ some 0
      → kh_lookup_service env r name ≡ some 0
  unfolding kh_lookup_service lookup_kgpu_sitem
  lookup_none r name f = rw (kh_lookup_service, f) refl

  pub lookup_some :
      (r : ServiceList) (name : List ℕ) (i : ℕ) (v : IsLive r i)
      → find_item env r name r.services ≡ some i
      → kh_lookup_service env r name ≡ some v.it.service
  unfolding kh_lookup_service lookup_kgpu_sitem
  lookup_some r name i v f =
      let e : (i == 0) ≡ false = ground (arith, v.place) in
      rw (kh_lookup_service, f, e, v.holds) refl

  module _ (law : IsMalloc env.malloc) (r : ServiceList) (v : IsRegistry r) (s lh : ℕ)
      (real : s ≢ 0) (granted : env.malloc r ≢ 0)
      (open_lib : (lh == 0 || ltb 0 (r.loaded lh)) ≡ true) where
    abbrev after : ServiceList
    after = registered env r s lh

    pub register_lem : kh_register_service env r s lh ≡ (after, 0)
    unfolding kh_register_service
    register_lem = ground arith

    pub apart : has (env.malloc r) r.services ≡ false
    apart = elim (Bool-cases (has (env.malloc r) r.services)) [
      | inl h ↦
          let w = v.live (env.malloc r) h in let u = law.unused r granted in ground (arith, w.holds)
      | inr h ↦ h
    ]

    pub new_live : IsLive after (env.malloc r)
    new_live = record {
      it = record { service = s; libhandle = lh };
      holds = ground arith;
      reads = open_lib;
      real = real;
      place = granted;
    }

    pub old_same : (i : ℕ) → has i r.services ≡ true → after.item i ≡ r.item i
    old_same i h = ground (arith, apart)

    pub old_live : (i : ℕ) → has i r.services ≡ true → IsLive after i
    old_live i h =
        let w = v.live i h in
        record {
          it = w.it;
          holds = old_same i h ∙ w.holds;
          reads = w.reads;
          real = w.real;
          place = w.place;
        }

    pub register-IsRegistry : IsRegistry after
    register-IsRegistry = record {
      live = λ i h. elim (Bool-cases (has i r.services)) [
        | inl m ↦ old_live i m
        | inr m ↦
            let e : i ≡ env.malloc r =
              ground (arith, has-append i r.services (env.malloc r ∷ []), h) in
            rw e new_live
      ];
      once = Distinct-push r.services (env.malloc r) v.once apart;
    }

    pub register_find :
        (name : List ℕ) (k : ℕ)
        → find_item env r name r.services ≡ some k
        → find_item env after name after.services
          ≡ some (if k == 0 then if names name s then env.malloc r else 0 else k)
    unfolding new_live old_live
    register_find name k f =
        find-push after name r.services (env.malloc r) old_live new_live k
          (find_frame r after name r.services v.live old_live old_same ∙ f)

    -- On a registry of live items without repetition, kh_register_service of a service with a
    -- library that is loaded or none, if malloc gives unused memory, returns 0 and leaves such a
    -- registry, in which kh_lookup_service finds under each name what it found before, or else the
    -- new service if the name is its own.
    pub register_lookup :
        (kh_register_service env r s lh ≡ (after, 0))
        × IsRegistry after
        × ((name : List ℕ)
            → (k : ℕ) × (kh_lookup_service env r name ≡ some k)
              × (kh_lookup_service env after name
                  ≡ some (if k == 0 then if names name s then s else 0 else k)))
    unfolding new_live old_live
    register_lookup = (
      register_lem,
      register-IsRegistry,
      λ name. elim (find_cases r name r.services v.live) [
        | inl f ↦ (
          0,
          lookup_none r name f,
          elim (Bool-cases (names name s)) [
            | inl m ↦
                lookup_some after name (env.malloc r) new_live (register_find name 0 f ∙ rw m refl)
                ∙ rw m refl
            | inr m ↦ lookup_none after name (register_find name 0 f ∙ rw m refl) ∙ rw m refl
          ],
        )
        | inr (i, f, h) ↦
            let w = v.live i h in
            (
              w.it.service,
              lookup_some r name i w f,
              lookup_some after name i (old_live i h)
                    (register_find name i f ∙ ground (arith, w.place))
                  ∙ ground (arith, w.real),
            )
      ],
    )
