-- ===== src/Examples/Allocations.antt =====
-- The theorems on the allocation of tasks (src/kmp/task.cc), with a table of formats.
use xkomp.Prelude.{◌≤◌, ◌≡◌, refl, arith, true, false, none, some, [], ◌∷◌, length, replicate, ok}
use xkomp.Prelude.Int.{pos}
use xkomp.Task.Access.{inert_access, pad_accesses}
use xkomp.Task.Layout.{ktask_from_args, slot_count}
use xkomp.Task.Format.{
  Kmp, loc_format, get_or_create_key, get_or_create_at, create_from, create_format, find_format,
  location, get_or_create, format_key,
}
use xkomp.Task.Alloc.{
  task_alloc, chosen_device, karg_slots, new_task, untied, stock, Context, Request, Task,
  omp_task_alloc, omp_task_alloc_with_deps, omp_target_task_alloc_with_deps,
}
use xkomp.Task.Alloc.Shape.{omp_task_alloc_with_deps_lem, omp_target_task_alloc_with_deps_lem}
use xkomp.Device.{omp_device_id_to_xkomp, get_initial_device, get_num_devices}
use xkomp.Examples.FormatTable.{listed, template, start, loc}
use xkomp.Task.Submit.{accesses_resolve, commit_calls, omp_task_with_deps}
use xkomp.Task.Submit.Slots.{constructed}
use xkomp.Task.Submit.Stock.{stock_task_fits}
use xkomp.Examples.Tasks.{two_deps}

-- Allocations with the table of formats that starts with the template.
abbrev pub context : Context
context = record { ndevices = 3; max_accesses = 16; thread = 5; known = true; given = true }

abbrev pub request : Request
request = record {
  loc = some loc;
  flags = record { tied = true; undeferred = true };
  sizeof_kmp_task = 40;
  sizeof_shareds = 0;
  task_entry = 77;
  jit_desc = none;
  n_args = 1;
  scatter = 0;
}

-- The formats after the first task of the construct.
abbrev formats_after : Kmp listed
formats_after = record {
  table = loc_format template (some loc) none 0 ∷ template ∷ [];
  host = 0;
  per_loc = (100, 1) ∷ [];
}

abbrev host_task : Task
host_task = new_task context 4096 request 2 (pos 0) 1 (some 4128 ∷ [])

host_allocates :
    omp_task_alloc_with_deps listed context start 4096 request 1 1 ≡ ok (formats_after, host_task)
unfolding omp_task_alloc_with_deps task_alloc chosen_device omp_device_id_to_xkomp
    get_initial_device get_num_devices get_or_create get_or_create_key get_or_create_at create_from
    create_format find_format format_key location karg_slots slot_count ktask_from_args new_task
host_allocates = refl

omp_task_alloc_with_deps_lem_example :
    (2 ≤ 16)
    × (host_task.slots ≡ none ∷ none ∷ [])
    × (host_task.flags.device ≡ false)
    × (host_task.flags.undeferable ≡ true)
    × (host_task.target ≡ none)
    × (host_task.spawning_thread ≡ some 5)
omp_task_alloc_with_deps_lem_example =
    omp_task_alloc_with_deps_lem listed context start 4096 request 2 1 1 (formats_after, host_task)
      refl host_allocates

abbrev target_task : Task
target_task = new_task context 4096 (untied request) 1 (pos 2) 1 (some 4128 ∷ [])

target_allocates :
    omp_target_task_alloc_with_deps listed context start 4096 request 1 0 (pos 1)
    ≡ ok (formats_after, target_task)
unfolding omp_target_task_alloc_with_deps task_alloc chosen_device omp_device_id_to_xkomp
    get_initial_device get_num_devices get_or_create get_or_create_key get_or_create_at create_from
    create_format find_format format_key location karg_slots slot_count ktask_from_args new_task
target_allocates = refl

omp_target_task_alloc_with_deps_lem_example :
    (1 ≤ 16)
    × (target_task.slots ≡ none ∷ [])
    × (target_task.flags.device ≡ true)
    × (target_task.target ≡ some (pos 2))
    × (target_task.spawning_thread ≡ none)
omp_target_task_alloc_with_deps_lem_example =
    omp_target_task_alloc_with_deps_lem listed context start 4096 request 1 1 1 0
      (formats_after, target_task) refl (omega arith) target_allocates

abbrev stock_task : Task
stock_task = record (new_task context 4096 (stock request) 4 (pos 0) 1 (some 4128 ∷ [])) {
  slots = replicate 4 (some inert_access);
}

stock_allocates : omp_task_alloc listed context start 4096 request ≡ ok (formats_after, stock_task)
unfolding omp_task_alloc task_alloc chosen_device omp_device_id_to_xkomp get_initial_device
    get_num_devices get_or_create get_or_create_key get_or_create_at create_from create_format
    find_format format_key location karg_slots slot_count ktask_from_args new_task pad_accesses
stock_allocates = refl

stock_task_fits_example :
    (t : Task) × (omp_task_with_deps stock_task two_deps []
      ≡ ok (t, accesses_resolve t.slots 2 ∷ commit_calls stock_task, 1))
    × (length t.slots ≡ 4)
    × (constructed t.slots ≡ true)
stock_task_fits_example =
    stock_task_fits listed context start 4096 request 2 (formats_after, stock_task) refl
      stock_allocates two_deps (λ e. cc) (omega arith) refl
