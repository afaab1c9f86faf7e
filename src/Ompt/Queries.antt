-- ===== src/Ompt/Queries.antt =====
-- What the tool can ask the bridge of src/ompt/ompt.cc for. A pointer that the tool passes is true
-- where it is not NULL; what is written through it is part of the answer.
pub mod Enumeration
use Prim.Native.String.{String}
use text.Mathlib.Text.{◌==◌ as ◌≟◌}
use xkomp.Prelude.{
  ℕ, zero, suc, ◌≡◌, refl, ap, Bool, true, false, ◌&&◌, Option, none, some, List, [], ◌∷◌, ◌++◌,
  map, ◌==◌, if◌then◌else◌, length, drop,
}
use xkomp.Prelude.Int.{ℤ, pos, negsuc}
use xkomp.Ompt.{Bridge, Thread, Team, Datum, thread_datum, team_datum, task_datum}
use xkomp.Ompt.Tasks.{task_explicit}
use xkomp.Ompt.Regions.{datum_of_team, team_of, task_implicit}

-- `xkomp_ompt_get_thread_data`, on the thread `me`.
unfoldable pub get_thread_data : ℕ → Datum
get_thread_data me = thread_datum me

-- Written where there is a pointer.
abbrev written {ℓ} : {A : Type ℓ} → Bool → A → Option A
written true a = some a
written false a = none

pub record ParallelInfo : Type 0 where
  pub result : ℕ
  pub parallel_data : Option Datum
  pub team_size : Option ℕ

abbrev no_parallel_info : ParallelInfo
no_parallel_info = record { result = 0; parallel_data = none; team_size = none }

abbrev info_of_team : Option Team → Bool → Bool → ParallelInfo
info_of_team none p q = no_parallel_info
info_of_team (some team) p q = record {
  result = 2;
  parallel_data = written p (team_datum team.id);
  team_size = written q team.nthreads;
}

-- `thread` is that of the caller, if it is a thread of XKRT.
unfoldable pub get_parallel_info : ℤ → Option Thread → Bool → Bool → ParallelInfo
get_parallel_info (pos zero) thread p q = info_of_team (team_of thread) p q
get_parallel_info _ thread p q = no_parallel_info

pub record TaskInfo : Type 0 where
  pub result : ℕ
  pub flags : Option ℕ
  pub task_data : Option Datum
  pub task_frame : Option ℕ
  pub parallel_data : Option (Option Datum)
  pub thread_num : Option ℕ

abbrev no_task_info : TaskInfo
no_task_info = record {
  result = 0;
  flags = none;
  task_data = none;
  task_frame = none;
  parallel_data = none;
  thread_num = none;
}

-- The pointers that the tool passes to `ompt_get_task_info`.
pub record TaskPointers : Type 0 where
  pub flags : Bool
  pub task_data : Bool
  pub task_frame : Bool
  pub parallel_data : Bool
  pub thread_num : Bool

abbrev info_of_task : Thread → Option ℕ → TaskPointers → TaskInfo
info_of_task thread none p = no_task_info
info_of_task thread (some task) p = record {
  result = 2;
  flags = written p.flags (if task == thread.implicit_task then task_implicit else task_explicit);
  task_data = written p.task_data (task_datum task);
  task_frame = written p.task_frame 0;
  parallel_data = written p.parallel_data (datum_of_team thread.team);
  thread_num = written p.thread_num thread.tid;
}

unfoldable pub get_task_info : ℤ → Option Thread → TaskPointers → TaskInfo
get_task_info (pos zero) (some thread) p = info_of_task thread thread.current_task p
get_task_info _ _ p = no_task_info

-- The result, the address and the size.
unfoldable pub get_task_memory : Bool → Bool → ℕ × Option ℕ × Option ℕ
get_task_memory addr size = (0, written addr 0, written size 0)

-- XKOMP_OMPT_STATES
unfoldable pub states : List (ℕ × String)
states =
    (258, "undefined")
    ∷ (0, "work_serial")
    ∷ (1, "work_parallel")
    ∷ (257, "overhead")
    ∷ (16, "wait_barrier")
    ∷ (32, "wait_taskwait")
    ∷ (33, "wait_taskgroup")
    ∷ (256, "idle")
    ∷ []

unfoldable pub mutex_impls : List (ℕ × String)
mutex_impls = (0, "none") ∷ (1, "spin") ∷ []

-- The loop over all entries but the last: the one behind the first with the given number.
unfoldable pub enumerate : List (ℕ × String) → ℕ → Option (ℕ × String)
enumerate [] current = none
enumerate (e ∷ []) current = none
enumerate (e ∷ e' ∷ es) current =
    let rest = enumerate (e' ∷ es) current in if e.0 == current then some e' else rest

unfoldable pub enumerate_states : ℕ → Option (ℕ × String)
unfolding enumerate states
enumerate_states current = enumerate states current

unfoldable pub enumerate_mutex_impls : ℕ → Option (ℕ × String)
unfolding enumerate mutex_impls
enumerate_mutex_impls current = enumerate mutex_impls current

-- The state, work_serial, and the identifier of what is waited for.
unfoldable pub get_state : Bool → ℕ × Option ℕ
get_state wait_id = (0, written wait_id 0)

-- `configured` is what `sysconf` returns.
unfoldable pub get_num_procs : ℤ → ℤ
get_num_procs (pos zero) = pos 1
get_num_procs (pos (suc n)) = pos (suc n)
get_num_procs (negsuc n) = pos 1

pub data EntryPoint : Type 0 where
  set_callback_fn get_callback_fn get_thread_data_fn get_unique_id_fn : EntryPoint
  get_parallel_info_fn get_task_info_fn get_task_memory_fn enumerate_states_fn : EntryPoint
  enumerate_mutex_impls_fn get_state_fn get_num_procs_fn get_num_places_fn : EntryPoint
  get_place_proc_ids_fn get_place_num_fn get_partition_place_nums_fn get_proc_id_fn : EntryPoint
  get_num_devices_fn get_target_info_fn finalize_tool_fn : EntryPoint

abbrev entry_points : List (String × EntryPoint)
entry_points =
    ("ompt_set_callback", set_callback_fn)
    ∷ ("ompt_get_callback", get_callback_fn)
    ∷ ("ompt_get_thread_data", get_thread_data_fn)
    ∷ ("ompt_get_unique_id", get_unique_id_fn)
    ∷ ("ompt_get_parallel_info", get_parallel_info_fn)
    ∷ ("ompt_get_task_info", get_task_info_fn)
    ∷ ("ompt_get_task_memory", get_task_memory_fn)
    ∷ ("ompt_enumerate_states", enumerate_states_fn)
    ∷ ("ompt_enumerate_mutex_impls", enumerate_mutex_impls_fn)
    ∷ ("ompt_get_state", get_state_fn)
    ∷ ("ompt_get_num_procs", get_num_procs_fn)
    ∷ ("ompt_get_num_places", get_num_places_fn)
    ∷ ("ompt_get_place_proc_ids", get_place_proc_ids_fn)
    ∷ ("ompt_get_place_num", get_place_num_fn)
    ∷ ("ompt_get_partition_place_nums", get_partition_place_nums_fn)
    ∷ ("ompt_get_proc_id", get_proc_id_fn)
    ∷ ("ompt_get_num_devices", get_num_devices_fn)
    ∷ ("ompt_get_target_info", get_target_info_fn)
    ∷ ("ompt_finalize_tool", finalize_tool_fn)
    ∷ []

abbrev first_named : List (String × EntryPoint) → String → Option EntryPoint
first_named [] name = none
first_named (e ∷ es) name = let rest = first_named es name in if name ≟ e.0 then some e.1 else rest

-- None is NULL, which is also what a name that is NULL gives.
unfoldable pub lookup : Option String → Option EntryPoint
lookup none = none
lookup (some name) = first_named entry_points name
