-- ===== src/Kernel/Requests/Ids.antt =====
-- Request ids of kgpu/src/kernelSpace/main.c: kgpu_next_request_id and the constructor of
-- kgpu_request_cache, which runs once for each object of the cache. `rid_sequence` is an `int`, here
-- by its 32 bits; the kernel is built so that `++` wraps around.
use kgpu_fga.Base.{
  ℕ, zero, suc, ◌+◌, ◌%◌, ◌^◌, ◌<◌, ◌≡◌, ◌≢◌, arith, to_u32, leb, if◌then◌else◌, [],
}
use kgpu_fga.Kernel.Requests.{KgpuRequest, null}

-- The new counter, which is also the id: back to 0 where the `int` would be negative.
unfoldable pub kgpu_next_request_id : ℕ → ℕ
kgpu_next_request_id rid_sequence =
    let next = to_u32 (rid_sequence + 1) in if leb (2 ^ 31) next then 0 else next

-- The object that the constructor leaves (all bytes zero but the id), and the counter.
unfoldable pub kgpu_request_constructor : ℕ → KgpuRequest × ℕ
kgpu_request_constructor rid_sequence =
    let id = kgpu_next_request_id rid_sequence in
    (
      record {
        id = id;
        in_addr = 0;
        out_addr = 0;
        udata = 0;
        kdata = 0;
        insize = 0;
        outsize = 0;
        udatasize = 0;
        kdatasize = 0;
        service_name = [];
        callback = null;
        errcode = 0;
      },
      id,
    )

-- The counter after `k` calls.
unfoldable pub ids_after : ℕ → ℕ → ℕ
ids_after rid zero = rid
ids_after rid (suc k) = kgpu_next_request_id (ids_after rid k)

-- The ids run through 0 to 2^31 - 1 in a circle.
pub ids_after_lem : (rid k : ℕ) → rid < 2 ^ 31 → ids_after rid k ≡ (rid + k) % 2 ^ 31
unfolding ids_after kgpu_next_request_id
ids_after_lem rid zero h = omega arith
ids_after_lem rid (suc k) h = ground (arith, ids_after_lem rid k h)

-- From a counter that is not negative, the ids of up to 2^31 requests that are constructed one
-- after another are distinct and not negative.
pub ids_distinct :
    (rid j k : ℕ)
    → rid < 2 ^ 31
    → j < k
    → k < j + 2 ^ 31
    → ((kgpu_request_constructor (ids_after rid j)).0.id
        ≢ (kgpu_request_constructor (ids_after rid k)).0.id)
      × ((kgpu_request_constructor (ids_after rid k)).0.id < 2 ^ 31)
unfolding kgpu_request_constructor ids_after
ids_distinct rid j k h l u = (
  λ e. omega (arith, e, ids_after_lem rid (suc j) h, ids_after_lem rid (suc k) h),
  omega (arith, ids_after_lem rid (suc k) h),
)
