-- ===== src/Examples/Tasks.antt =====
-- The theorems on tasks (src/kmp/task.cc) at small tasks and lists.
use xkomp.Prelude.{
  ℕ, ◌+◌, ◌*◌, ◌%◌, ◌^◌, ◌≤◌, ◌≡◌, refl, arith, true, false, none, some, List, [], ◌∷◌, ok, Returns,
  dies, fatal,
}
use xkomp.Task.Access.{Slot, DependFlags, Depend, Clause}
use xkomp.Task.Access.DependSlots.{filled}
use xkomp.Task.Layout.{
  ktask_from_args, args_from_ktask, kargs_address, args_size, slot_count, sizeof_task_args, layout,
}
use xkomp.Task.Alloc.{executing, Task, allocated, zero_flags}
use xkomp.Task.Submit.{
  omp_task, accesses_resolve, commit_calls, omp_task_with_deps, omp_task_with_deps_v2,
  omp_taskwait_deps_51_v2,
}
use xkomp.Task.Submit.Fill.{whole}
use xkomp.Prelude.Int.{pos}
use xkomp.Task.Submit.Execute.{summary, executed, omp_task_lem}
use xkomp.Task.Submit.Deps.{with_deps_fits}
use xkomp.Task.Submit.Slots.{constructed, with_deps_exact}
use xkomp.Task.Submit.Waits.{waited, with_deps_stops, taskwait_deps_lem}

abbrev pub no_depend : DependFlags
no_depend = record { input = false; output = false; mtx = false; inoutset = false; all = false }

abbrev pub inout : DependFlags
inout = record no_depend { input = true; output = true }

-- Two dependences, the first with a null address.
abbrev pub two_deps : List Depend
two_deps =
    record { base_addr = 0; flags = inout }
    ∷ record { base_addr = 64; flags = record no_depend { input = true } }
    ∷ []

abbrev all_memory : Depend
all_memory = record { base_addr = 64; flags = record no_depend { all = true } }

abbrev a_clause : Clause
a_clause = record {
  base_addr = 128;
  len = 8;
  flags = record {
    read = false;
    write = false;
    storage = true;
    nostorage = false;
    noncoherent = false;
    concurrentwrite = false;
  };
}

-- A task with room for three accesses, undeferred.
abbrev a_task : List Slot → ℕ → Task
a_task slots ac = record {
  format = 1;
  flags = record zero_flags { accesses = true; undeferable = true };
  state = allocated;
  capacity = some ac;
  spawning_thread = some 0;
  slots = slots;
  target = none;
  args = 4096;
  args_size = 64;
  kargs = 4152;
  n_kargs = 1;
  karg_slots = some 4128 ∷ [];
  scatter = 0;
  shareds = 0;
  routine = 77;
  part_id = 0;
}

abbrev three_slots : List Slot
three_slots = none ∷ none ∷ none ∷ []

with_deps_fits_example :
    omp_task_with_deps_v2 (a_task three_slots 3) two_deps [] (a_clause ∷ [])
    ≡ ok (
      a_task (whole (none ∷ []) (a_clause ∷ []) (none ∷ none ∷ []) two_deps [] [] []) 3,
      accesses_resolve (whole (none ∷ []) (a_clause ∷ []) (none ∷ none ∷ []) two_deps [] [] []) 3
          ∷ commit_calls (a_task three_slots 3),
      1,
    )
with_deps_fits_example =
    with_deps_fits (a_task three_slots 3) 3 (a_clause ∷ []) two_deps [] refl (none ∷ [])
      (none ∷ none ∷ []) [] [] refl refl refl refl refl (λ e. cc) (omega arith)

with_deps_exact_example :
    (omp_task_with_deps (a_task (none ∷ none ∷ []) 2) two_deps []
      ≡ ok (
        a_task (filled (none ∷ none ∷ []) two_deps) 2,
        accesses_resolve (filled (none ∷ none ∷ []) two_deps) 2
            ∷ commit_calls (a_task (none ∷ none ∷ []) 2),
        1,
      ))
    × (constructed (filled (none ∷ none ∷ []) two_deps) ≡ false)
with_deps_exact_example =
    with_deps_exact (a_task (none ∷ none ∷ []) 2) two_deps refl refl (λ e. cc) refl

with_deps_stops_example :
    omp_task_with_deps_v2 (a_task (none ∷ none ∷ []) 2) (all_memory ∷ []) [] (a_clause ∷ [])
    ≡ dies fatal
with_deps_stops_example =
    with_deps_stops (a_clause ∷ []) (all_memory ∷ []) [] (a_task (none ∷ none ∷ []) 2) 2 (none ∷ [])
      (none ∷ []) [] refl refl refl refl (omega arith) refl

-- A counter of 16 bits.
abbrev narrowed : ℕ → ℕ
narrowed n = n % 2 ^ 16

taskwait_deps_lem_example :
    omp_taskwait_deps_51_v2 narrowed two_deps [] true [] ≡ waited [] two_deps []
taskwait_deps_lem_example = taskwait_deps_lem [] two_deps [] narrowed true refl

layout_example :
    let kargs = kargs_address (ktask_from_args 4096) 40 3 in
    (ktask_from_args 4096 ≡ 4096 + sizeof_task_args)
    × (args_from_ktask (ktask_from_args 4096) ≡ 4096)
    × (ktask_from_args 4096 + 40 + 3 ≤ kargs)
    × (kargs % 8 ≡ 0)
    × (kargs + slot_count 2 * 8 ≡ 4096 + args_size 40 3 2)
unfolding slot_count
layout_example = layout 4096 40 3 2 (omega arith) (omega arith)

-- The task runs, in a graph that is recorded.
abbrev running : Task
running = record (a_task [] 1) {
  state = executing;
  flags = record zero_flags { accesses = true; record_ = true };
}

omp_task_lem_example :
    Returns (λ r. summary r ≡ executed (pos 2) running) (omp_task (some (pos 2)) true running)
omp_task_lem_example = omp_task_lem (pos 2) running refl
