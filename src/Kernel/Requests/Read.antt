-- ===== src/Kernel/Requests/Read.antt =====
-- kgpu_read of kgpu/src/kernelSpace/main.c between its two locks: the calls that clients can make
-- there, before or after the second part.
use kgpu_fga.Base.{ℕ, ◌≡◌, refl, arith, Bool, Option, none, some}
use kgpu_fga.Kernel.Requests.{
  KgpuDev, SyncCallData, kgpu_call_async, kgpu_call_sync_begin, kgpu_call_sync_end, kgpu_read_end,
}

module _ (d : KgpuDev) (r c : ℕ) where
  abbrev ended : KgpuDev
  ended = kgpu_read_end d r c

  -- kgpu_call_async before the second part leaves the same state and result as after it.
  pub call_async-read_end :
      (req : ℕ) (item_ok : Bool)
      → ((kgpu_call_async ended req item_ok).0
          ≡ kgpu_read_end (kgpu_call_async d req item_ok).0 r c)
        × ((kgpu_call_async ended req item_ok).1 ≡ (kgpu_call_async d req item_ok).1)
  unfolding kgpu_call_async
  call_async-read_end req item_ok = (ground arith, ground arith)

  -- So does kgpu_call_sync up to its wait.
  pub call_sync_begin-read_end :
      (req p : ℕ) (data_ok item_ok : Bool)
      → ((kgpu_call_sync_begin ended req p data_ok item_ok).0
          ≡ kgpu_read_end (kgpu_call_sync_begin d req p data_ok item_ok).0 r c)
        × ((kgpu_call_sync_begin ended req p data_ok item_ok).1
            ≡ (kgpu_call_sync_begin d req p data_ok item_ok).1)
  unfolding kgpu_call_sync_begin
  call_sync_begin-read_end req p data_ok item_ok = (ground arith, ground arith)

  -- So does the rest of kgpu_call_sync, which faults in both orders or in neither.
  pub call_sync_end-read_end :
      (req p : ℕ)
      → kgpu_call_sync_end ended req p ≡ elim (kgpu_call_sync_end d req p) [
        | none ↦ none
        | some (d', x) ↦ some (kgpu_read_end d' r c, x)
      ]
  unfolding kgpu_call_sync_end
  call_sync_end-read_end req p = by_data (d.sync_data p) refl
    where
      by_data :
          (saved : Option SyncCallData)
          → d.sync_data p ≡ saved
          → kgpu_call_sync_end ended req p ≡ elim (kgpu_call_sync_end d req p) [
            | none ↦ none
            | some (d', x) ↦ some (kgpu_read_end d' r c, x)
          ]
      by_data none e = rw (kgpu_call_sync_end, e) refl
      by_data (some saved) e = rw (kgpu_call_sync_end, e) refl
