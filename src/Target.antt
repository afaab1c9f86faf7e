-- ===== src/Target.antt =====
-- Memory of devices: src/kmp/target/api.cc and the end of src/device.cc. Addresses wrap at 2 ^ 64;
-- the memory itself is XKRT's, so that a copy is the call that is made to it.
pub mod Copies
use xkomp.Prelude.{
  ℕ, zero, suc, ◌+◌, ◌%◌, ◌^◌, Bool, true, false, Option, none, some, List, [], ◌∷◌, length,
  replicate, leb, ◌==◌, if◌then◌else◌, Outcome, ok, dies, fatal, assertion, undefined, check, ◌>>=◌,
  ◌>>◌,
}
use xkomp.Prelude.Int.{ℤ, pos}
use xkomp.Device.{omp_device_id_to_xkomp}
use xkomp.Task.Access.{Slot, Depend, deps_to_accesses}
use xkomp.Sync.{Caller, present}

-- `runtime.memory_copy`, or the command `copy_1D`.
pub record Copy : Type 0 where
  pub size : ℕ
  pub dst_device : ℤ
  pub dst_addr : ℕ
  pub src_device : ℤ
  pub src_addr : ℕ

-- The arguments that both forms share.
pub record Request : Type 0 where
  pub dst : ℕ
  pub src : ℕ
  pub length : ℕ
  pub dst_offset : ℕ
  pub src_offset : ℕ
  pub dst_device_num : ℤ
  pub src_device_num : ℤ

-- `((uintptr_t) ptr) + offset`
abbrev pub address : ℕ → ℕ → ℕ
address ptr offset = (ptr + offset) % 2 ^ 64

-- `xkomp_target_memcpy`
unfoldable pub target_memcpy : ℕ → Request → Outcome Copy
target_memcpy ndevices r = do
  dst_id ← omp_device_id_to_xkomp ndevices r.dst_device_num
  src_id ← omp_device_id_to_xkomp ndevices r.src_device_num
  ok (record {
    size = r.length;
    dst_device = dst_id;
    dst_addr = address r.dst r.dst_offset;
    src_device = src_id;
    src_addr = address r.src r.src_offset;
  })

-- `xkomp_target_memcpy_async` is not implemented.
unfoldable pub target_memcpy_async : Request → List Depend → Outcome ℤ
target_memcpy_async r deps = dies fatal

-- `xkomp_target_memcpy_args_t`
pub record MemcpyArgs : Type 0 where
  pub dst : ℕ
  pub src : ℕ
  pub size : ℕ
  pub src_device : ℤ
  pub dst_device : ℤ

-- The task that is committed: the device that runs it, its accesses and its arguments.
pub record MemcpyTask : Type 0 where
  pub device : ℤ
  pub slots : List Slot
  pub args : MemcpyArgs

-- The loop over `depobj_list`, one dependence at a time.
unfoldable pub memcpy_accesses : List Slot → ℕ → List Depend → Outcome (List Slot)
memcpy_accesses slots i [] = ok slots
memcpy_accesses slots i (d ∷ ds) = do
  slots' ← deps_to_accesses slots i (d ∷ [])
  memcpy_accesses slots' (i + 1) ds

-- `__kmp_omp_target_memcpy_async`; `max_accesses` is XKRT_TASK_MAX_ACCESSES.
unfoldable pub kmp_target_memcpy_async : ℕ → ℕ → Request → List Depend → Outcome MemcpyTask
unfolding memcpy_accesses
kmp_target_memcpy_async max_accesses ndevices r deps = do
  check (leb (length deps) max_accesses)
  src_id ← omp_device_id_to_xkomp ndevices r.src_device_num
  dst_id ← omp_device_id_to_xkomp ndevices r.dst_device_num
  slots ← memcpy_accesses (replicate (length deps) none) 0 deps
  ok (record {
    device = src_id;
    slots = slots;
    args = record {
      dst = address r.dst r.dst_offset;
      src = address r.src r.src_offset;
      size = r.length;
      src_device = src_id;
      dst_device = dst_id;
    };
  })

-- `body_omp_target_memcpy_async`: the command that the task emits. The kinds of queue and command
-- are XKRT's choice.
unfoldable pub body_memcpy_async : MemcpyTask → Copy
body_memcpy_async t = record {
  size = t.args.size;
  dst_device = t.args.dst_device;
  dst_addr = t.args.dst;
  src_device = t.args.src_device;
  src_addr = t.args.src;
}

-- `xkomp_target_alloc`: `allocate` is XKRT's, none where it returns a null pointer.
unfoldable pub target_alloc : (ℤ → ℕ → Option ℕ) → ℕ → ℕ → ℤ → Outcome ℕ
target_alloc allocate ndevices size device_num = do
  id ← omp_device_id_to_xkomp ndevices device_num
  elim (allocate id size) [ none ↦ dies undefined | some ptr ↦ ok ptr ]

-- `__kmpc_omp_has_task_team`
unfoldable pub has_task_team : Option Caller → ℕ → Outcome Bool
has_task_team tls gtid = do
  t ← present tls
  check (gtid == t.gtid)
  elim t.team [ none ↦ ok false | some n ↦ ok true ]
