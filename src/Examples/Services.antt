-- ===== src/Examples/Services.antt =====
-- A registry of kgpu/src/userSpace/service.c with the helper's own service 2, and three libraries: at the
-- handle 7 one with the service 1, at 8 one whose init_service fails, and at 9 one with two services.
use kgpu_fga.Base.{
  ℕ, ◌≡◌, ◌≢◌, refl, arith, ◌==◌, if◌then◌else◌, List, [], ◌∷◌, true, some, none, Option, inl, inr,
  ◌⊎◌, has, update,
}
use kgpu_fga.Service.{
  ServiceItem, ServiceList, ServiceEnv, ServiceLibrary, strncmp_eq, kh_lookup_service,
  lookup_kgpu_sitem, find_item, kh_register_service, kh_load_service, kh_unload_service,
  kh_unload_all_services, done, fault,
}
use kgpu_fga.Service.Registry.{IsMalloc, IsLive, IsRegistry, registered, names, register_lookup}
use kgpu_fga.Service.Library.{opened, load_unload}
use kgpu_fga.Service.Empty.{IsTidy, unload_all_empties}
use kgpu_fga.Service.Unload.{unload_all_faults}

-- The addresses 50 and 60, while they are free.
abbrev give : Option ServiceItem → Option ServiceItem → ℕ
give none o = 50
give (some i) none = 60
give (some i) (some j) = 0

abbrev quiet : ServiceLibrary
quiet = record {
  has_init = true;
  init_calls = 1 ∷ [];
  init_result = λ es. 0;
  has_finit = true;
  finit_calls = (97 ∷ []) ∷ [];
  finit_result = λ es. 0;
}

abbrev env : ServiceEnv
env = record {
  malloc = λ r. give (r.item 50) (r.item 60);
  service_name = λ s. if s == 1 then 97 ∷ [] else 98 ∷ [];
  library = λ lh.
      if lh == 7
      then quiet
      else if lh == 8
      then record quiet { init_result = λ es. 1 }
      else record quiet { finit_calls = (97 ∷ []) ∷ (98 ∷ []) ∷ [] };
}

give_free :
    (r : ServiceList) (a b : Option ServiceItem)
    → r.item 50 ≡ a
    → r.item 60 ≡ b
    → give a b ≢ 0
    → r.item (give a b) ≡ none
give_free r none b e f d = e
give_free r (some i) none e f d = f
give_free r (some i) (some j) e f d = absurd (d refl)

env-IsMalloc : IsMalloc env.malloc
env-IsMalloc = record { unused = λ r d. give_free r (r.item 50) (r.item 60) refl refl d }

abbrev own : ServiceList
own = record {
  services = 5 ∷ [];
  item = λ i. if i == 5 then some (record { service = 2; libhandle = 0 }) else none;
  loaded = λ lh. 0;
}

own-IsRegistry : IsRegistry own
own-IsRegistry = record {
  live = λ i h. record {
    it = record { service = 2; libhandle = 0 };
    holds = ground (arith, h);
    reads = refl;
    real = ground arith;
    place = ground (arith, h);
  };
  once = (refl, tt);
}

register_lookup_example :
    (kh_register_service env own 1 0 ≡ (registered env own 1 0, 0))
    × IsRegistry (registered env own 1 0)
    × ((name : List ℕ)
        → (k : ℕ) × (kh_lookup_service env own name ≡ some k)
          × (kh_lookup_service env (registered env own 1 0) name
              ≡ some (if k == 0 then if names env name 1 then 1 else 0 else k)))
register_lookup_example =
    register_lookup env env-IsMalloc own own-IsRegistry 1 0 (ground arith) (ground arith) refl

no_first : kh_lookup_service env own (97 ∷ []) ≡ some 0
unfolding kh_lookup_service lookup_kgpu_sitem find_item strncmp_eq
no_first = refl

load_unload_example :
    (kh_load_service env own 7 ≡ (registered env (opened own 7) 1 7, 0))
    × (kh_lookup_service env (registered env (opened own 7) 1 7) (97 ∷ []) ≡ some 1)
    × (kh_unload_service env (registered env (opened own 7) 1 7) (97 ∷ []) ≡ some (own, 0))
load_unload_example =
    load_unload env env-IsMalloc own own-IsRegistry 7 1 (ground arith) (ground arith) (ground arith)
      refl refl refl (inr (refl, refl, refl)) no_first

-- The library at 7 is loaded too.
abbrev both : ServiceList
both = record own {
  services = 5 ∷ 50 ∷ [];
  item = update own.item 50 (some (record { service = 1; libhandle = 7 }));
  loaded = λ lh. if lh == 7 then 1 else 0;
}

in_both : (i : ℕ) → has i both.services ≡ true → (i ≡ 5) ⊎ (i ≡ 50)
in_both i h = ground (arith, h)

first-IsLive : IsLive both 5
first-IsLive = record {
  it = record { service = 2; libhandle = 0 };
  holds = refl;
  reads = refl;
  real = ground arith;
  place = ground arith;
}

second-IsLive : IsLive both 50
second-IsLive = record {
  it = record { service = 1; libhandle = 7 };
  holds = refl;
  reads = refl;
  real = ground arith;
  place = ground arith;
}

both-IsTidy : IsTidy env both both.services
both-IsTidy = record {
  live = λ i h. elim (in_both i h) [ inl e ↦ rw e first-IsLive | inr e ↦ rw e second-IsLive ];
  single = λ i h. elim (in_both i h) [
    | inl e ↦ rw e (λ d. absurd (d refl))
    | inr e ↦ rw e (λ d. inr (refl, refl, refl))
  ];
  once = (refl, (refl, tt));
  alone = λ i j h k. elim (in_both i h) [
    | inl e ↦ rw e (λ d f. refl)
    | inr e ↦ elim (in_both j k) [
      | inl f ↦ rw (e, f) (λ d g. g)
      | inr f ↦ rw (e, f) (λ d g. absurd (d refl))
    ]
  ];
}

unload_all_empties_example :
    (r' : ServiceList) × (kh_unload_all_services env both 3 ≡ done r' 0)
    × (r'.services ≡ [])
    × ((i : ℕ) → r'.item i ≡ (if has i both.services then none else both.item i))
unload_all_empties_example = unload_all_empties env both both-IsTidy

-- Two services of the library at 9 before one of the library at 8.
abbrev pair : ServiceList
pair = record {
  services = 50 ∷ 60 ∷ 70 ∷ [];
  item = λ i.
      if i == 50
      then some (record { service = 1; libhandle = 9 })
      else if i == 60
      then some (record { service = 2; libhandle = 9 })
      else some (record { service = 3; libhandle = 8 });
  loaded = λ lh. 1;
}

unload_all_faults_example : kh_unload_all_services env pair 10 ≡ fault
unload_all_faults_example =
    unload_all_faults env pair 50 60 9 1 2 (70 ∷ []) refl refl refl (ground arith) (ground arith)
      (ground arith) (ground arith) refl refl refl refl 9
