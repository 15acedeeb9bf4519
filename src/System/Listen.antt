-- ===== src/System/Listen.antt =====
-- The end of a round of kh_main_loop (kgpu/src/userSpace/helper.c) on the device of
-- kgpu/src/kernelSpace/main.c: poll, malloc and read.
use kgpu_fga.Base.{
  ℕ, ◌+◌, ◌≡◌, ◌≢◌, refl, arith, ◌==◌, List, [], ◌∷◌, ◌++◌, inl, inr, some, Bool-cases, true, false,
  ◌⊎◌,
}
use kgpu_fga.Kernel.Requests.{KgpuDev, kgpu_read, fill_ku_request}
use kgpu_fga.Kernel.Control.{kgpu_poll}
use kgpu_fga.Helper.{Helper, kh_init_service_request}
use kgpu_fga.Helper.Input.{kh_get_next_service_request, read_request, none_ready, taken, bytes}
use kgpu_fga.System.{Wiring, System, ku_request, helper_read, driver_input, poll_blocks, listen}

-- What the end of a round does: nothing if poll blocks; it takes the first request; or it takes none,
-- since none is queued or malloc returns NULL.
pub data Heard (w : Wiring) (s s' : System) : Type 0 where
  blocked : s.dev.reqs ≡ [] → s.helper.all_reqs ≡ [] → s' ≡ s → Heard w s s'
  passed :
      (s.dev.reqs ≡ []) ⊎ (w.malloc s.helper ≡ 0)
      → s' ≡ record s { listening = false }
      → Heard w s s'
  took :
      (r : ℕ) (rest : List ℕ)
      → s.dev.reqs ≡ r ∷ rest
      → w.malloc s.helper ≢ 0
      → s' ≡ record {
        dev = record s.dev {
          reqs = rest;
          rtdreqs = s.dev.rtdreqs ++ r ∷ [];
          fpos = s.dev.fpos + 112;
        };
        helper =
            kh_init_service_request s.helper
              (w.malloc s.helper)
              (ku_request w (fill_ku_request w.uva w.kva w.npages (s.dev.request r)));
        listening = false;
      }
      → Heard w s s'

module _ (w : Wiring) (d : KgpuDev) (h : Helper) where
  hear_none : d.reqs ≡ [] → kh_get_next_service_request (driver_input w d) h ≡ none_ready h
  unfolding kh_get_next_service_request driver_input kgpu_poll
  hear_none e = rw e refl

  module _ (r : ℕ) (rest : List ℕ) (e : d.reqs ≡ r ∷ rest) where
    hear_null :
        (w.malloc h == 0) ≡ true → kh_get_next_service_request (driver_input w d) h ≡ none_ready h
    unfolding kh_get_next_service_request driver_input kgpu_poll read_request
    hear_null f = rw (e, f) refl

    read_first :
        (driver_input w d).read
        ≡ bytes (ku_request w (fill_ku_request w.uva w.kva w.npages (d.request r)))
    unfolding driver_input kgpu_read
    read_first = rw e refl

    hear_first :
        (w.malloc h == 0) ≡ false
        → kh_get_next_service_request (driver_input w d) h
          ≡ taken (
              kh_init_service_request h
                (w.malloc h)
                (ku_request w (fill_ku_request w.uva w.kva w.npages (d.request r))))
    unfolding kh_get_next_service_request driver_input kgpu_poll read_request
    hear_first f = rw (e, f) (rw (read_first) refl)

module _ (w : Wiring) (s : System) where
  blocks_live : (p : ℕ) (l : List ℕ) → s.helper.all_reqs ≡ p ∷ l → poll_blocks w s ≡ false
  unfolding poll_blocks
  blocks_live p l f = ground (arith, f)

  blocks_queued : (r : ℕ) (rest : List ℕ) → s.dev.reqs ≡ r ∷ rest → poll_blocks w s ≡ false
  unfolding poll_blocks kgpu_poll
  blocks_queued r rest e = rw e refl

  blocks_empty : s.dev.reqs ≡ [] → s.helper.all_reqs ≡ [] → poll_blocks w s ≡ true
  unfolding poll_blocks kgpu_poll
  blocks_empty e f = rw (e, f) refl

  read_state :
      (r : ℕ) (rest : List ℕ)
      → s.dev.reqs ≡ r ∷ rest
      → (helper_read w s.dev).0
        ≡ record s.dev { reqs = rest; rtdreqs = s.dev.rtdreqs ++ r ∷ []; fpos = s.dev.fpos + 112 }
  unfolding kgpu_read
  read_state r rest e = rw e refl

  listen_empty :
      (l : List ℕ)
      → s.dev.reqs ≡ []
      → s.helper.all_reqs ≡ l
      → (s' : System) × (listen w s ≡ some s') × Heard w s s'
  unfolding listen
  listen_empty [] e f = (s, rw (listen, blocks_empty e f) refl, blocked e f refl)
  listen_empty (p ∷ l) e f = (
    record s { listening = false },
    rw (listen, blocks_live p l f, hear_none w s.dev s.helper e) refl,
    passed (inl e) refl,
  )

  listen_queued :
      (r : ℕ) (rest : List ℕ)
      → s.dev.reqs ≡ r ∷ rest
      → (s' : System) × (listen w s ≡ some s') × Heard w s s'
  unfolding listen
  listen_queued r rest e = elim (Bool-cases (w.malloc s.helper == 0)) [
    | inl f ↦ (
      record s { listening = false },
      rw (listen, blocks_queued r rest e, hear_null w s.dev s.helper r rest e f) refl,
      passed (inr (ground arith)) refl,
    )
    | inr f ↦ (
      _,
      rw
          (
            listen,
            blocks_queued r rest e,
            hear_first w s.dev s.helper r rest e f,
            read_state r rest e,
          )
          refl,
      took r rest e (ground arith) refl,
    )
  ]

  -- The end of a round neither faults nor aborts.
  pub listen_cases : (s' : System) × (listen w s ≡ some s') × Heard w s s'
  listen_cases = by_queue s.dev.reqs refl
    where
      by_queue :
          (l : List ℕ) → s.dev.reqs ≡ l → (s' : System) × (listen w s ≡ some s') × Heard w s s'
      by_queue [] e = listen_empty s.helper.all_reqs e refl
      by_queue (r ∷ rest) e = listen_queued r rest e
