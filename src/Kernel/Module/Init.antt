-- ===== src/Kernel/Module/Init.antt =====
-- The exits of kgpu_init of kgpu/src/kernelSpace/main.c.
use kgpu_fga.Base.{
  ◌≡◌, ◌⊎◌, inl, inr, refl, ap, arith, Bool, true, false, ◌&&◌, if◌then◌else◌, Bool-cases, List, [],
  ◌∷◌, ◌++◌,
}
use kgpu_fga.Config.{CInt, nat, neg, efault}
use kgpu_fga.Kernel.Module.{
  Resource, request_cache, item_cache, sync_call_data_cache, class, region, cdev, device, Module,
  InitEnv, Started, is_error, is_zero, zero_pool, fresh, add_device, create_class, kgpu_init,
}

abbrev pub caches : List Resource
caches = request_cache ∷ item_cache ∷ sync_call_data_cache ∷ []

-- The state that kgpu_init leaves when its caches are there.
abbrev pub initial : Module → Module
initial m = record (fresh m) { gmpool = zero_pool }

-- All is held and the result is 0, or at least the caches are and it is not.
abbrev pub Ended : Started → Type 0
Ended s =
    ((s.result ≡ nat 0) × (s.held ≡ caches ++ class ∷ region ∷ cdev ∷ device ∷ []))
    ⊎ ((is_zero s.result ≡ false) × ((rest : List Resource) × (s.held ≡ caches ++ rest)))

zero_result : (c : CInt) → is_zero c ≡ true → c ≡ nat 0
zero_result (nat n) e = ap nat (ground arith)
zero_result (neg x) e = ground arith

not_zero : (c : CInt) → is_error c ≡ true → is_zero c ≡ false
not_zero (nat n) e = ground arith
not_zero (neg x) e = refl

kept :
    (b : Bool)
    → (rest : List Resource) × ((if b
          then caches ++ class ∷ region ∷ cdev ∷ []
          else caches ++ class ∷ region ∷ [])
        ≡ caches ++ rest)
kept true = (class ∷ region ∷ cdev ∷ [], refl)
kept false = (class ∷ region ∷ [], refl)

device_Ended :
    (env : InitEnv) (m : Module) → Ended (add_device env m (caches ++ class ∷ region ∷ []))
unfolding add_device
device_Ended env m = elim (Bool-cases (is_error env.device_create)) [
  | inl e ↦ rw e (inr (not_zero env.device_create e, kept (is_zero env.cdev_add)))
  | inr e ↦ elim (Bool-cases (is_zero env.cdev_add)) [
    | inl f ↦ rw (e, f) (inl (zero_result env.cdev_add f, refl))
    | inr f ↦ rw (e, f) (inr (refl, (class ∷ region ∷ device ∷ [], refl)))
  ]
]

class_Ended : (env : InitEnv) (m : Module) → Ended (create_class env m caches)
unfolding create_class
class_Ended env m = elim (Bool-cases (is_error env.class_create)) [
  | inl e ↦ rw (create_class, e) (inr (not_zero env.class_create e, ([], refl)))
  | inr e ↦ elim (Bool-cases (is_error env.alloc_chrdev_region)) [
    | inl f ↦ rw (create_class, e, f) (inr (not_zero env.alloc_chrdev_region f, (class ∷ [], refl)))
    | inr f ↦ rw (create_class, e, f) (device_Ended env m)
  ]
]

create_class-state :
    (env : InitEnv) (m : Module) (held : List Resource) → (create_class env m held).module_state ≡ m
unfolding create_class add_device
create_class-state env m held = elim (Bool-cases (is_error env.class_create)) [
  | inl e ↦ rw (create_class, e) refl
  | inr e ↦ elim (Bool-cases (is_error env.alloc_chrdev_region)) [
    | inl f ↦ rw (create_class, e, f) refl
    | inr f ↦ rw (create_class, e, f) refl
  ]
]

-- If one of the three caches is not created, kgpu_init returns -EFAULT and holds nothing. Otherwise
-- it sets the driver's state to the initial one, and either returns 0 with every resource held or
-- another result with the caches, and perhaps more, still held.
pub init_cases :
    (env : InitEnv) (m : Module)
    → (((kgpu_init env m).result ≡ neg efault)
        × ((kgpu_init env m).held ≡ [])
        × ((env.request_cache_ok && env.item_cache_ok && env.sync_cache_ok) ≡ false))
      ⊎ (Ended (kgpu_init env m)
          × ((kgpu_init env m).module_state ≡ initial m)
          × ((env.request_cache_ok && env.item_cache_ok && env.sync_cache_ok) ≡ true))
unfolding kgpu_init
init_cases env m = elim (Bool-cases env.request_cache_ok) [
  | inr e ↦ inl (rw (kgpu_init, e) refl, rw (kgpu_init, e) refl, rw e refl)
  | inl e ↦ elim (Bool-cases env.item_cache_ok) [
    | inr f ↦ inl (rw (kgpu_init, e, f) refl, rw (kgpu_init, e, f) refl, rw (e, f) refl)
    | inl f ↦ elim (Bool-cases env.sync_cache_ok) [
      | inr g ↦ inl (rw (kgpu_init, e, f, g) refl, rw (kgpu_init, e, f, g) refl, rw (e, f, g) refl)
      | inl g ↦ inr (
        rw (kgpu_init, e, f, g) (class_Ended env (initial m)),
        rw (kgpu_init, e, f, g) (create_class-state env (initial m) caches),
        rw (e, f, g) refl,
      )
    ]
  ]
]
