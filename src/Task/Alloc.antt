-- ===== src/Task/Alloc.antt =====
-- `task_alloc` of src/kmp/task.cc and the four entry points that allocate a task. `place` is the
-- address of the arguments in the memory that XKRT's `task_new` returns; the memory holds nothing
-- that the program may read.
pub mod Shape
use xkomp.Prelude.{
  ℕ, suc, ◌+◌, Bool, true, false, not, Option, none, some, List, [], ◌∷◌, set, replicate, leb, ◌==◌,
  if◌then◌else◌, Outcome, ok, check, ◌>>=◌, ◌>>◌,
}
use xkomp.Prelude.Int.{ℤ, pos, negsuc, ◌==ℤ◌}
use xkomp.Device.{
  get_default_device, get_initial_device, omp_device_id_to_xkomp, host_device_unique_id,
}
use xkomp.Task.Access.{Slot, pad_accesses}
use xkomp.Task.Layout.{args_size, slot_count, ktask_from_args, shareds_address, kargs_address}
use xkomp.Task.Format.{Formats, Ident, JitDesc, Kmp, get_or_create}

-- The bits of `task_flag_bitfield_t` that the program uses.
pub record TaskFlags : Type 0 where
  pub accesses : Bool
  pub device : Bool
  pub detachable : Bool
  pub undeferable : Bool
  pub record_ : Bool  -- set by XKRT on tasks of a recorded graph

abbrev pub zero_flags : TaskFlags
zero_flags = record {
  accesses = false;
  device = false;
  detachable = false;
  undeferable = false;
  record_ = false;
}

-- The bits of `kmp_tasking_flags_t` that the program reads or writes.
pub record KmpFlags : Type 0 where
  pub tied : Bool
  pub undeferred : Bool

-- The code tells the state of a task that runs from the others, of which `allocated` is the first.
pub data State : Type 0 where
  allocated executing : State

-- An XKRT task that carries a `kmp_task_t`. `capacity` is `acs->ac`, where there are accesses;
-- `target` is the device of the task's device information.
pub record Task : Type 0 where
  pub format : ℕ
  pub flags : TaskFlags
  pub state : State
  pub capacity : Option ℕ
  pub spawning_thread : Option ℕ
  pub slots : List Slot
  pub target : Option ℤ
  pub args : ℕ
  pub args_size : ℕ
  pub kargs : ℕ
  pub n_kargs : ℕ
  pub karg_slots : List (Option ℕ)
  pub scatter : ℕ
  pub shareds : ℕ
  pub routine : ℕ
  pub part_id : ℕ

-- What the calling thread and the runtime contribute: the number of devices,
-- XKRT_TASK_MAX_ACCESSES and the calling thread; whether XKRT knows that thread, and whether
-- `task_new` returns a task.
pub record Context : Type 0 where
  pub ndevices : ℕ
  pub max_accesses : ℕ
  pub thread : ℕ
  pub known : Bool
  pub given : Bool

pub record Request : Type 0 where
  pub loc : Option Ident
  pub flags : KmpFlags
  pub sizeof_kmp_task : ℕ
  pub sizeof_shareds : ℕ
  pub task_entry : ℕ
  pub jit_desc : Option JitDesc
  pub n_args : ℕ
  pub scatter : ℕ

unfoldable pub xk_flags : ℕ → ℤ → KmpFlags → TaskFlags
xk_flags naccesses unique_id flags =
    let f1 = if naccesses == 0 then zero_flags else record zero_flags { accesses = true } in
    let f2 =
      if unique_id ==ℤ host_device_unique_id
      then f1
      else record f1 { device = true; detachable = true } in
    if flags.undeferred then record f2 { undeferable = true } else f2

-- The packed form stores the address of the `kmp_task_t` in the one slot; the unpacked form
-- leaves its slots to the scatter.
unfoldable pub karg_slots : ℕ → ℕ → ℕ → Outcome (List (Option ℕ))
karg_slots ktask n_args scatter =
    let fresh = replicate (slot_count n_args) none in
    if scatter == 0 then (do check (n_args == 1); ok (set fresh 0 (some ktask))) else ok fresh

unfoldable pub new_task : Context → ℕ → Request → ℕ → ℤ → ℕ → List (Option ℕ) → Task
unfolding xk_flags
new_task c place q naccesses unique_id format kargs =
    let ktask = ktask_from_args place in
    let host = unique_id ==ℤ host_device_unique_id in
    record {
      format = format;
      flags = xk_flags naccesses unique_id q.flags;
      state = allocated;
      capacity = if naccesses == 0 then none else some naccesses;
      spawning_thread = if naccesses == 0 then none else if host then some c.thread else none;
      slots = replicate naccesses none;
      target = if host then none else some unique_id;
      args = place;
      args_size = args_size q.sizeof_kmp_task q.sizeof_shareds q.n_args;
      kargs = kargs_address ktask q.sizeof_kmp_task q.sizeof_shareds;
      n_kargs = q.n_args;
      karg_slots = kargs;
      scatter = q.scatter;
      shareds = shareds_address ktask q.sizeof_kmp_task q.sizeof_shareds;
      routine = q.task_entry;
      part_id = 0;
    }

unfoldable pub chosen_device : ℤ → ℤ
unfolding get_default_device
chosen_device device_id = if device_id ==ℤ negsuc 0 then get_default_device else device_id

abbrev pub fixed_accesses : ℕ
fixed_accesses = 4

-- Target tasks are untied.
abbrev pub untied : Request → Request
untied q = record q { flags = record q.flags { tied = false } }

-- The interface of an unpatched compiler forwards no IR and no slots of its own, and reveals the
-- dependences after the allocation.
abbrev pub stock : Request → Request
stock q = record q { jit_desc = none; n_args = 1; scatter = 0 }

module _ (X : Formats) where
  unfoldable pub task_alloc : Context → Kmp X → ℕ → Request → ℕ → ℕ → ℤ → Outcome (Kmp X × Task)
  task_alloc c s place q ndeps nacs device_id = do
    unique_id ← omp_device_id_to_xkomp c.ndevices (chosen_device device_id)
    check (leb (ndeps + nacs) c.max_accesses)
    check c.known
    (s', format) ← get_or_create X s q.loc q.jit_desc q.scatter
    check c.given
    kargs ← karg_slots (ktask_from_args place) q.n_args q.scatter
    ok (s', new_task c place q (ndeps + nacs) unique_id format kargs)

  -- `__kmpc_omp_task_alloc_with_deps`
  unfoldable pub omp_task_alloc_with_deps :
      Context → Kmp X → ℕ → Request → ℕ → ℕ → Outcome (Kmp X × Task)
  omp_task_alloc_with_deps c s place q ndeps nacs =
      task_alloc c s place q ndeps nacs (get_initial_device c.ndevices)

  -- `__kmpc_omp_target_task_alloc_with_deps`
  unfoldable pub omp_target_task_alloc_with_deps :
      Context → Kmp X → ℕ → Request → ℕ → ℕ → ℤ → Outcome (Kmp X × Task)
  omp_target_task_alloc_with_deps c s place q ndeps nacs device_id =
      task_alloc c s place (untied q) ndeps nacs device_id

  abbrev pub padded : Kmp X × Task → Kmp X × Task
  padded (s, t) = (s, record t { slots = pad_accesses t.slots 0 fixed_accesses })

  -- `__kmpc_omp_target_task_alloc`
  unfoldable pub omp_target_task_alloc : Context → Kmp X → ℕ → Request → ℤ → Outcome (Kmp X × Task)
  omp_target_task_alloc c s place q device_id = do
    r ← task_alloc c s place (stock (untied q)) fixed_accesses 0 device_id
    ok (padded r)

  -- `__kmpc_omp_task_alloc`
  unfoldable pub omp_task_alloc : Context → Kmp X → ℕ → Request → Outcome (Kmp X × Task)
  omp_task_alloc c s place q = do
    r ← task_alloc c s place (stock q) fixed_accesses 0 (get_initial_device c.ndevices)
    ok (padded r)
