-- ===== src/Kernel/Requests.antt =====
-- The requests of kgpu/src/kernelSpace/main.c: struct kgpu_request (kgpu/include/kgpu_kernel.h), the
-- two queues of struct _kgpu_dev, kgpu_call_async, kgpu_call_sync, sync_callback, find_request,
-- fill_ku_request, kgpu_read, kgpu_write and terminate_all_requests. Requests and sync call data lie
-- in a store under their addresses, and a queue lists the request of each item. Each call that takes
-- a lock for its updates is one step; a blocking call is split where it waits. kgpu_read takes two
-- locks in turn and is one step still: while the one helper is in it, only calls of clients can come
-- between, and Read has how they commute with its second part.
pub mod Queue
pub mod Read
pub mod Ids
pub mod Slab
pub mod Sync
pub mod History
pub mod Translate
use kgpu_fga.Base.{
  ℕ, ◌+◌, ◌-◌, ◌*◌, ◌<◌, Bool, true, false, if◌then◌else◌, ltb, leb, ◌==◌, update, to_u32, add64,
  List, [], ◌∷◌, ◌++◌, Option, none, some, length,
}
use kgpu_fga.Config.{
  page_size, addr_within, addr_rebase, kgpu_terminated, CInt, nat, neg, eagain, enomem, efault,
  einval, erestartsys,
}

-- A function pointer of type kgpu_callback: `client f` is a function of the module that calls kgpu.
pub data Callback : Type 0 where
  null : Callback
  sync_callback : Callback
  client : ℕ → Callback

-- `service_name` is the array of 32 characters.
pub record KgpuRequest : Type 0 where
  pub id : ℕ
  pub in_addr : ℕ
  pub out_addr : ℕ
  pub udata : ℕ
  pub kdata : ℕ
  pub insize : ℕ
  pub outsize : ℕ
  pub udatasize : ℕ
  pub kdatasize : ℕ
  pub service_name : List ℕ
  pub callback : Callback
  pub errcode : ℕ

-- struct _kgpu_sync_call_data
pub record SyncCallData : Type 0 where
  pub oldkdata : ℕ
  pub oldcallback : Callback
  pub done : Bool

-- `items` counts the live objects of kgpu_request_item_cache, `datas` those of
-- kgpu_sync_call_data_cache; `called` has the calls of client callbacks with their requests, newest
-- first; `fpos` is the file position.
pub record KgpuDev : Type 0 where
  pub state : ℕ
  pub reqs : List ℕ
  pub rtdreqs : List ℕ
  pub request : ℕ → KgpuRequest
  pub sync_data : ℕ → Option SyncCallData
  pub items : ℕ
  pub datas : ℕ
  pub called : List (ℕ × ℕ)
  pub fpos : ℕ

-- `item_ok`: whether kmem_cache_alloc returns an item.
unfoldable pub kgpu_call_async : KgpuDev → ℕ → Bool → KgpuDev × CInt
kgpu_call_async d req item_ok =
    if d.state == kgpu_terminated
    then (d, nat kgpu_terminated)
    else if item_ok
    then (record d { items = d.items + 1; reqs = d.reqs ++ req ∷ [] }, nat 0)
    else (d, neg enomem)

-- kgpu_call_sync returns, or waits until its data are marked done.
pub data SyncCall : Type 0 where
  returned : CInt → SyncCall
  waiting : SyncCall

-- kgpu_call_sync up to wait_event_interruptible. `data_ok` and `item_ok`: whether the two calls of
-- kmem_cache_alloc succeed, the first with the address `p`.
unfoldable pub kgpu_call_sync_begin : KgpuDev → ℕ → ℕ → Bool → Bool → KgpuDev × SyncCall
kgpu_call_sync_begin d req p data_ok item_ok =
    let r = d.request req in
    let saved : SyncCallData = record {
      oldkdata = r.kdata;
      oldcallback = r.callback;
      done = false;
    } in
    if d.state == kgpu_terminated
    then (d, returned (nat kgpu_terminated))
    else if data_ok
    then if item_ok
      then (
        record d {
          items = d.items + 1;
          datas = d.datas + 1;
          sync_data = update d.sync_data p (some saved);
          request = update d.request req (record r { kdata = p; callback = sync_callback });
          reqs = d.reqs ++ req ∷ [];
        },
        waiting,
      )
      else (record d { datas = d.datas + 1 }, returned (neg enomem))
    else (d, returned (neg enomem))

-- kgpu_call_sync from the end of the wait, with its data at `p`, done or not: the result of
-- wait_event_interruptible is not read. `none` is a fault, where the data are gone.
unfoldable pub kgpu_call_sync_end : KgpuDev → ℕ → ℕ → Option (KgpuDev × CInt)
kgpu_call_sync_end d req p = elim (d.sync_data p) [
  | none ↦ none
  | some saved ↦ some (
    record d {
      request =
          update d.request req
            (record (d.request req) { kdata = saved.oldkdata; callback = saved.oldcallback });
      sync_data = update d.sync_data p none;
      datas = d.datas - 1;
    },
    nat 0,
  )
]

-- The first request of the list with this id, and the list without its item.
unfoldable pub find_request : (ℕ → KgpuRequest) → ℕ → List ℕ → Option (ℕ × List ℕ)
find_request request id [] = none
find_request request id (pos ∷ n) =
    let rest = find_request request id n in
    if (request pos).id == id
    then some (pos, n)
    else elim rest [ none ↦ none | some (r, others) ↦ some (r, pos ∷ others) ]

-- struct kgpu_ku_request (kgpu/include/kgpu.h)
pub record KgpuKuRequest : Type 0 where
  pub id : ℕ
  pub service_name : List ℕ
  pub in_addr : ℕ
  pub out_addr : ℕ
  pub udata : ℕ
  pub insize : ℕ
  pub outsize : ℕ
  pub datasize : ℕ

-- An address in the pool's kernel mapping is turned into the user's; another stays. The pool has
-- `npages << PAGE_SHIFT` bytes, as a `u32`.
unfoldable pub user_address : ℕ → ℕ → ℕ → ℕ → ℕ
user_address uva kva npages p =
    if addr_within p kva (to_u32 (npages * page_size)) then addr_rebase uva kva p else p

unfoldable pub fill_ku_request : ℕ → ℕ → ℕ → KgpuRequest → KgpuKuRequest
unfolding user_address
fill_ku_request uva kva npages req = record {
  id = req.id;
  service_name = req.service_name;
  in_addr = user_address uva kva npages req.in_addr;
  out_addr = user_address uva kva npages req.out_addr;
  udata = user_address uva kva npages req.udata;
  insize = req.insize;
  outsize = req.outsize;
  datasize = req.udatasize;
}

-- The part of kgpu_read after reqlock: the item that it has taken off goes to the second list, under
-- rtdreqlock, if the result is positive.
abbrev pub kgpu_read_end : KgpuDev → (r c : ℕ) → KgpuDev
kgpu_read_end d r c = record d {
  rtdreqs = if ltb 0 c then d.rtdreqs ++ r ∷ [] else d.rtdreqs;
  fpos = d.fpos + c;
}

-- What read copies to user space, if anything, and returns. With no request queued a blocking read
-- returns only if a signal ends its wait; `c` is the count, at most MAX_RW_COUNT.
unfoldable pub kgpu_read :
    (uva kva npages : ℕ)
    → KgpuDev
    → (nonblock : Bool) (c : ℕ) → KgpuDev × Option KgpuKuRequest × CInt
kgpu_read uva kva npages d nonblock c = elim d.reqs [
  | [] ↦ (d, none, if nonblock then neg eagain else neg erestartsys)
  | r ∷ rest ↦ (
    kgpu_read_end (record d { reqs = rest }) r c,
    some (fill_ku_request uva kva npages (d.request r)),
    nat c,
  )
]

-- req->callback(req). A call through NULL, or of sync_callback with data that are gone, is a fault.
unfoldable pub invoke : KgpuDev → ℕ → Option KgpuDev
invoke d r = elim ((d.request r).callback) [
  | null ↦ none
  | sync_callback ↦ elim (d.sync_data (d.request r).kdata) [
    | none ↦ none
    | some saved ↦ some (record d {
      sync_data = update d.sync_data (d.request r).kdata (some (record saved { done = true }));
    })
  ]
  | client f ↦ some (record d { called = (f, r) ∷ d.called })
]

-- struct kgpu_ku_response has 8 bytes; `id` and `errcode` are its fields. `none` is a fault.
unfoldable pub kgpu_write : KgpuDev → (count id errcode : ℕ) → Option (KgpuDev × CInt)
unfolding invoke
kgpu_write d count id errcode =
    if ltb count 8 then some (d, neg einval) else elim (find_request d.request id d.rtdreqs) [
      | none ↦ some (d, neg efault)
      | some (r, rest) ↦
          elim (invoke
            (record d {
              rtdreqs = rest;
              request = update d.request r (record (d.request r) { errcode = errcode });
            })
            r) [
              | none ↦ none
              | some d' ↦
                  some (record d' { fpos = d'.fpos + count; items = d'.items - 1 }, nat count)
            ]
    ]

unfoldable pub terminate_all_requests : KgpuDev → KgpuDev × CInt
terminate_all_requests d = (record d { state = kgpu_terminated }, nat 0)
