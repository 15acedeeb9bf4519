-- ===== src/Gpu/Runtime/Start.antt =====
-- initializeOpenCL of kgpu/src/gpuSpace/openCLOperations.c on its first call.
use kgpu_fga.Base.{
  ℕ, ◌&&◌, ◌≡◌, ◌≢◌, inl, inr, refl, ◌∙◌, arith, Bool, true, false, not, ◌==◌, update, List, ◌∷◌,
  has, Bool-cases, ==_refl, some,
}
use kgpu_fga.Gpu.Runtime.{
  Runtime, ClAnswers, no_space_on_host, initialize_platform, initialize_device, initialize_context,
  create_data,
}
use kgpu_fga.Gpu.Runtime.Clean.{
  clean_first, clean_next, clean_second, clean_second_next, clean_third,
}

-- OpenCL has not been initialized, and malloc gives blocks that are not in use.
pub record IsFirst (a : ClAnswers) (r : Runtime) : Type 0 where
  pub unset : r.opencl_data ≡ 0
  pub off : r.initialized ≡ false
  pub data_new : has a.data_block r.blocks ≡ false
  pub platforms_new : has a.platforms_block (a.data_block ∷ r.blocks) ≡ false
  pub devices_new : has a.devices_block (a.platforms_block ∷ a.data_block ∷ r.blocks) ≡ false

-- The calls of OpenCL and of malloc on the way to a context succeed.
abbrev pub succeeds : ClAnswers → Bool
succeeds a =
    not (a.data_block == 0)
    && a.count_platforms == 0
    && not (a.platforms_block == 0)
    && a.get_platforms == 0
    && a.count_devices == 0
    && not (a.devices_block == 0)
    && a.get_devices == 0
    && a.create_context == 0

-- The state with the new data, or after a failure with a pointer to data that have been freed; without
-- the data, the pointer is NULL.
pub data Started (a : ClAnswers) (r r' : Runtime) (status : ℕ) : Type 0 where
  made :
      succeeds a ≡ true
      → status ≡ 0
      → r'.opencl_data ≡ a.data_block
      → r'.blocks ≡ a.devices_block ∷ a.platforms_block ∷ a.data_block ∷ r.blocks
      → r'.devices a.data_block ≡ a.devices_block
      → Started a r r' status
  failed :
      succeeds a ≡ false
      → status ≢ 0
      → r'.opencl_data ≡ a.data_block
      → has a.data_block r'.blocks ≡ false
      → Started a r r' status

module _ (a : ClAnswers) (r : Runtime) (v : IsFirst a r) where
  data_platforms : (a.data_block == a.platforms_block) ≡ false
  data_platforms = ground (arith, v.platforms_new)

  data_devices : (a.data_block == a.devices_block) ≡ false
  data_devices = ground (arith, v.devices_new)

  platforms_devices : (a.platforms_block == a.devices_block) ≡ false
  platforms_devices = ground (arith, v.devices_new)

  abbrev with_data : Runtime
  with_data = record r { opencl_data = a.data_block; blocks = a.data_block ∷ r.blocks }

  abbrev with_platforms : Runtime
  with_platforms = record with_data { blocks = a.platforms_block ∷ a.data_block ∷ r.blocks }

  abbrev null_devices : Runtime
  null_devices = record with_platforms { devices = update r.devices a.data_block a.devices_block }

  abbrev with_devices : Runtime
  with_devices = record null_devices {
    blocks = a.devices_block ∷ a.platforms_block ∷ a.data_block ∷ r.blocks;
  }

  abbrev with_context : Runtime
  with_context = record with_devices { context = update r.context a.data_block a.new_context }

  abbrev Starts : Type 0
  Starts =
      (r' : Runtime) × (status : ℕ) × (create_data a r ≡ some (r', status))
      × Started a r r' status
      × (r'.initialized ≡ false)

  -- A failure that leaves the blocks `l`.
  fails :
      (q : Runtime) (status : ℕ) (l : List ℕ)
      → succeeds a ≡ false
      → status ≢ 0
      → q.opencl_data ≡ a.data_block
      → q.initialized ≡ r.initialized
      → has a.data_block l ≡ false
      → create_data a r ≡ some (record q { blocks = l }, status)
      → Starts
  fails q status l lost bad e i gone run =
      (record q { blocks = l }, status, run, failed lost bad e gone, i ∙ v.off)

  module _ (e : (a.data_block == 0) ≡ false) where
    data_cases : (a.count_platforms == 0) ≡ false → Starts
    unfolding create_data initialize_platform
    data_cases f =
        fails with_data a.count_platforms r.blocks (ground arith) (ground arith) refl refl
          v.data_new (rw (e, f, f) (clean_first with_data a.count_platforms e r.blocks refl))

    null_cases : (a.count_platforms == 0) ≡ true → (a.platforms_block == 0) ≡ true → Starts
    unfolding create_data initialize_platform
    null_cases f g =
        fails with_data no_space_on_host r.blocks (ground arith) (ground arith) refl refl v.data_new
          (rw (e, f, g) (clean_first with_data no_space_on_host e r.blocks refl))

    module _ (f : (a.count_platforms == 0) ≡ true) (g : (a.platforms_block == 0) ≡ false) where
      platform_cases : (a.get_platforms == 0) ≡ false → Starts
      unfolding create_data initialize_platform
      platform_cases h =
          fails with_platforms a.get_platforms (a.platforms_block ∷ r.blocks) (ground arith)
            (ground arith) refl refl (ground (arith, data_platforms, v.data_new))
            (rw (e, f, g, h)
              (clean_next with_platforms a.get_platforms e r.blocks a.platforms_block data_platforms
                refl))

      module _ (h : (a.get_platforms == 0) ≡ true) where
        count_cases : (a.count_devices == 0) ≡ false → Starts
        unfolding create_data initialize_platform initialize_device
        count_cases k =
            fails with_platforms a.count_devices r.blocks (ground arith) (ground arith) refl refl
              v.data_new
              (rw (e, f, g, h, k, k)
                (clean_second with_platforms a.count_devices e r.blocks a.platforms_block g refl))

        module _ (k : (a.count_devices == 0) ≡ true) where
          devices_null_cases : (a.devices_block == 0) ≡ true → Starts
          unfolding create_data initialize_platform initialize_device
          devices_null_cases l =
              fails null_devices no_space_on_host r.blocks (ground arith) (ground arith) refl refl
                v.data_new
                (rw (e, f, g, h, k, l)
                  (clean_second null_devices no_space_on_host e r.blocks a.platforms_block g refl))

          module _ (l : (a.devices_block == 0) ≡ false) where
            devices_cases : (a.get_devices == 0) ≡ false → Starts
            unfolding create_data initialize_platform initialize_device
            devices_cases m =
                fails with_devices a.get_devices (a.devices_block ∷ r.blocks) (ground arith)
                  (ground arith) refl refl (ground (arith, data_devices, v.data_new))
                  (rw (e, f, g, h, k, l, m)
                    (clean_second_next with_devices a.get_devices e r.blocks a.platforms_block g
                      a.devices_block platforms_devices data_devices refl))

            module _ (m : (a.get_devices == 0) ≡ true) where
              context_cases : (a.create_context == 0) ≡ false → Starts
              unfolding create_data initialize_platform initialize_device initialize_context
              context_cases n =
                  fails with_context a.create_context r.blocks (ground arith) (ground arith) refl
                    refl v.data_new
                    (rw (e, f, g, h, k, l, m, n)
                      (clean_third with_context a.create_context e r.blocks a.platforms_block g
                        a.devices_block l (ground (arith, ==_refl a.data_block)) refl))

              made_cases : (a.create_context == 0) ≡ true → Starts
              unfolding create_data initialize_platform initialize_device initialize_context
              made_cases n = (
                with_context,
                a.create_context,
                rw (e, f, g, h, k, l, m, n) refl,
                made (ground arith) (ground arith) refl refl (ground (arith, ==_refl a.data_block)),
                v.off,
              )

  no_data_cases : (a.data_block == 0) ≡ true → Starts
  unfolding create_data
  no_data_cases e = (
    record r { opencl_data = 0 },
    no_space_on_host,
    rw e refl,
    failed (ground arith) (ground arith) (ground arith) v.data_new,
    v.off,
  )

  pub create_cases : Starts
  create_cases = elim (Bool-cases (a.data_block == 0)) [
    | inl e ↦ no_data_cases e
    | inr e ↦ elim (Bool-cases (a.count_platforms == 0)) [
      | inr f ↦ data_cases e f
      | inl f ↦ elim (Bool-cases (a.platforms_block == 0)) [
        | inl g ↦ null_cases e f g
        | inr g ↦ elim (Bool-cases (a.get_platforms == 0)) [
          | inr h ↦ platform_cases e f g h
          | inl h ↦ elim (Bool-cases (a.count_devices == 0)) [
            | inr k ↦ count_cases e f g h k
            | inl k ↦ elim (Bool-cases (a.devices_block == 0)) [
              | inl l ↦ devices_null_cases e f g h k l
              | inr l ↦ elim (Bool-cases (a.get_devices == 0)) [
                | inr m ↦ devices_cases e f g h k l m
                | inl m ↦ elim (Bool-cases (a.create_context == 0)) [
                  | inr n ↦ context_cases e f g h k l m n
                  | inl n ↦ made_cases e f g h k l m n
                ]
              ]
            ]
          ]
        ]
      ]
    ]
  ]
