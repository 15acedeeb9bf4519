-- ===== src/Kernel/Requests/Sync.antt =====
-- kgpu_call_sync of kgpu/src/kernelSpace/main.c, through the reads and the write that answer it.
use kgpu_fga.Base.{
  ℕ, zero, suc, ◌+◌, ◌-◌, ◌≡◌, ◌≢◌, refl, true, false, arith, update, ==_refl, List, [], ◌∷◌, ◌++◌,
  append-nil, append_assoc, some, none, length, sym, ◌∙◌, fun_ext,
}
use kgpu_fga.Config.{kgpu_terminated, nat}
use kgpu_fga.Kernel.Requests.{
  KgpuRequest, KgpuDev, SyncCallData, null, sync_callback, waiting, kgpu_call_sync_begin,
  kgpu_call_sync_end, kgpu_read, kgpu_write,
}
use kgpu_fga.Kernel.Requests.Queue.{
  Absent, completed, write_sync, write_null, read_times, read_fifo,
}

-- Reads leave the requests, the sync call data and the counts of live objects alone.
pub read_times_frame :
    (uva kva npages c : ℕ) (k : ℕ) (d : KgpuDev)
    → let d' = read_times uva kva npages d c k in
      (d'.request ≡ d.request)
      × (d'.sync_data ≡ d.sync_data)
      × (d'.items ≡ d.items)
      × (d'.datas ≡ d.datas)
      × (d'.called ≡ d.called)
unfolding read_times kgpu_read
read_times_frame uva kva npages c zero d = (refl, refl, refl, refl, refl)
read_times_frame uva kva npages c (suc k) d =
    ground (arith, read_times_frame uva kva npages c k (kgpu_read uva kva npages d true c).0)

Absent-keep :
    (f g : ℕ → KgpuRequest) (id : ℕ)
    → ((r : ℕ) → (f r).id ≡ (g r).id)
    → (l : List ℕ) → Absent f id l
    → Absent g id l
Absent-keep f g id same [] a = tt
Absent-keep f g id same (x ∷ l) a = (ground (arith, same x, a.0), Absent-keep f g id same l a.1)

module _ (d : KgpuDev) (req p : ℕ) where
  abbrev old : KgpuRequest
  old = d.request req

  abbrev pub saved : SyncCallData
  saved = record { oldkdata = old.kdata; oldcallback = old.callback; done = false }

  -- The device while kgpu_call_sync waits.
  abbrev pub begun : KgpuDev
  begun = record d {
    items = d.items + 1;
    datas = d.datas + 1;
    sync_data = update d.sync_data p (some saved);
    request = update d.request req (record old { kdata = p; callback = sync_callback });
    reqs = d.reqs ++ req ∷ [];
  }

  begin_lem : d.state ≢ kgpu_terminated → kgpu_call_sync_begin d req p true true ≡ (begun, waiting)
  unfolding kgpu_call_sync_begin
  begin_lem running = ground arith

module _ (uva kva npages : ℕ) (d : KgpuDev) (req p : ℕ) where
  -- The device after the helper has then read every request.
  abbrev pub delivered : KgpuDev
  delivered = read_times uva kva npages (begun d req p) 112 (length (d.reqs ++ req ∷ []))

  delivered_reqs : delivered.reqs ≡ []
  delivered_reqs =
      (read_fifo uva kva npages 112 (omega arith) (d.reqs ++ req ∷ []) [] (begun d req p)
        (sym (append-nil _))).0

  delivered_queue : delivered.rtdreqs ≡ (d.rtdreqs ++ d.reqs) ++ req ∷ []
  delivered_queue =
      (read_fifo uva kva npages 112 (omega arith) (d.reqs ++ req ∷ []) [] (begun d req p)
        (sym (append-nil _))).1
      ∙ sym (append_assoc d.rtdreqs d.reqs (req ∷ []))

  -- What a read leaves alone.
  delivered_frame :
      (delivered.request ≡ (begun d req p).request)
      × (delivered.sync_data ≡ (begun d req p).sync_data)
      × (delivered.items ≡ (begun d req p).items)
      × (delivered.datas ≡ (begun d req p).datas)
      × (delivered.called ≡ (begun d req p).called)
  delivered_frame =
      read_times_frame uva kva npages 112 (length (d.reqs ++ req ∷ [])) (begun d req p)

  module _ (id : ℕ) (hit : (d.request req).id ≡ id)
      (first : Absent d.request id (d.rtdreqs ++ d.reqs)) where
    first_begun : Absent delivered.request id (d.rtdreqs ++ d.reqs)
    first_begun =
        rw delivered_frame.0
          (Absent-keep d.request (begun d req p).request id (λ r. ground arith) _ first)

    write_lem :
        (errcode : ℕ)
        → kgpu_write delivered 8 id errcode
          ≡ some (
            completed delivered ((d.rtdreqs ++ d.reqs) ++ []) req p (saved d req p) 8 errcode,
            nat 8,
          )
    write_lem errcode =
        write_sync delivered 8 id errcode (d.rtdreqs ++ d.reqs) [] req (omega arith) delivered_queue
          first_begun (rw delivered_frame.0 (ground arith)) p (saved d req p)
          (rw delivered_frame.0 (ground arith)) (rw delivered_frame.0 (ground arith))
          (rw delivered_frame.1 (ground arith))

    -- The device at the end of a kgpu_call_sync whose answer is `errcode`.
    abbrev pub finished : ℕ → KgpuDev
    finished errcode =
        let done =
          completed delivered ((d.rtdreqs ++ d.reqs) ++ []) req p (saved d req p) 8 errcode in
        record done {
          request = update done.request req (record (done.request req) {
            kdata = (d.request req).kdata;
            callback = (d.request req).callback;
          });
          sync_data = update done.sync_data p none;
          datas = done.datas - 1;
        }

    end_lem :
        (errcode : ℕ)
        → kgpu_call_sync_end
            (completed delivered ((d.rtdreqs ++ d.reqs) ++ []) req p (saved d req p) 8 errcode)
            req
            p
          ≡ some (finished errcode, nat 0)
    unfolding kgpu_call_sync_end
    end_lem errcode = rw (==_refl p, kgpu_call_sync_end) refl

    -- A kgpu_call_sync on a running driver, with its allocations granted, data at an address not in
    -- use and an id that no queued request has, waits; once the helper has read every queued
    -- request and answered this one with an error code, the call returns 0. The request then has
    -- that error code and else its old fields, its callback and kdata included; the live objects
    -- and the sync call data are as before, and the requests that were queued before are with the
    -- helper.
    pub call_sync_lem :
        (errcode : ℕ)
        → d.state ≢ kgpu_terminated
        → d.sync_data p ≡ none
        → (kgpu_call_sync_begin d req p true true ≡ ((begun d req p), waiting))
          × (kgpu_write delivered 8 id errcode
              ≡ some (
                completed delivered ((d.rtdreqs ++ d.reqs) ++ []) req p (saved d req p) 8 errcode,
                nat 8,
              ))
          × (kgpu_call_sync_end
                (completed delivered ((d.rtdreqs ++ d.reqs) ++ []) req p (saved d req p) 8 errcode)
                req
                p
              ≡ some (finished errcode, nat 0))
          × ((finished errcode).request
              ≡ update d.request req (record (d.request req) { errcode = errcode }))
          × ((finished errcode).sync_data ≡ d.sync_data)
          × ((finished errcode).items ≡ d.items)
          × ((finished errcode).datas ≡ d.datas)
          × ((finished errcode).reqs ≡ [])
          × ((finished errcode).rtdreqs ≡ d.rtdreqs ++ d.reqs)
    call_sync_lem errcode running fresh = (
      begin_lem d req p running,
      write_lem errcode,
      end_lem errcode,
      fun_ext λ r. rw delivered_frame.0 (ground arith),
      fun_ext λ a. rw delivered_frame.1 (ground arith),
      omega (arith, delivered_frame.2),
      omega (arith, delivered_frame.3),
      delivered_reqs,
      append-nil _,
    )

-- The device at which kgpu_call_sync has returned because of a signal, before the helper has read
-- the request, and then after the reads.
module _ (d : KgpuDev) (req p : ℕ) where
  abbrev pub signalled : KgpuDev
  signalled = record (begun d req p) {
    request = d.request;
    sync_data = update (begun d req p).sync_data p none;
    datas = d.datas;
  }

  -- If a signal ends the wait of a kgpu_call_sync before the helper reads the request, the call
  -- returns 0 with the request still queued; if no queued request has its id and it has no callback
  -- of its own, the write that answers it later faults.
  pub call_sync_signal :
      (uva kva npages id errcode : ℕ)
      → (d.request req).id ≡ id
      → Absent d.request id (d.rtdreqs ++ d.reqs)
      → (d.request req).callback ≡ null
      → (kgpu_call_sync_end (begun d req p) req p ≡ some (signalled, nat 0))
        × (signalled.reqs ≡ d.reqs ++ req ∷ [])
        × (kgpu_write
              (read_times uva kva npages signalled 112 (length (d.reqs ++ req ∷ [])))
              8
              id
              errcode
            ≡ none)
  unfolding kgpu_call_sync_end
  call_sync_signal uva kva npages id errcode hit first cb =
      let n = length (d.reqs ++ req ∷ []) in
      let queue =
        read_fifo uva kva npages 112 (omega arith) (d.reqs ++ req ∷ []) [] signalled
          (sym (append-nil _)) in
      let frame = read_times_frame uva kva npages 112 n signalled in
      (
        ground (
          arith,
          fun_ext {f = update (begun d req p).request req (d.request req)} {g = d.request}
              (λ r. ground arith),
          ==_refl p,
        ),
        refl,
        write_null _ 8 id errcode (d.rtdreqs ++ d.reqs) [] req (omega arith)
            (queue.1 ∙ sym (append_assoc d.rtdreqs d.reqs (req ∷ [])))
            (rw frame.0 (Absent-keep d.request signalled.request id (λ r. ground arith) _ first))
            (rw frame.0 (ground arith)) (rw frame.0 (ground arith)),
      )
