-- ===== src/Program/Finish.antt =====
-- A program that keeps within what the code accepts comes to its end: none of its calls dies.
pub mod Tasks
pub mod Regions
use xkomp.Prelude.{
  ℕ, zero, ◌≤◌, ◌≡◌, ◌≢◌, ap, ◌∙◌, inl, inr, ◌⊎◌, Bool, true, false, not, ◌&&◌, ◌||◌, ◌==◌, leb,
  Bool-cases, Option-cases, Option, none, some, List, [], ◌∷◌, ◌++◌, length, map, if◌then◌else◌,
  Outcome, dies, ◌>>=◌, check, checked-Returns, Allows, Allows-of, length-map, ltb, leb→le,
}
use xkomp.Prelude.Int.{ℤ, pos, negsuc, ◌==ℤ◌, ==ℤ_eq, to_i32}
use mathlib.Core.List.{map-append}
use xkomp.Env.{Passes}
use xkomp.Env.Init.{EnvVars, region_env}
use xkomp.Team.Region.{Env, Desc, Entry, Event, find_team, top_region, parallel, requested_nthreads}
use xkomp.Team.Region.Cache.{
  Inv, counts, find_team-none, top_region-eq-ok, counts-set_args, new_entry,
}
use xkomp.Team.Region.Limit.{top_region-Returns}
use xkomp.Fork.{Wargs, Routine, fork_call_wrapper, microtask_max_args, va_args, push_num_threads}
use xkomp.Fork.Push.{va_args-length}
use xkomp.Device.Numbering.{num_devices-suc}
use xkomp.Task.Alloc.Shape.{initial_unique_id}
use xkomp.Device.{get_initial_device, get_num_devices, omp_device_id_to_xkomp}
use xkomp.Task.Format.{Formats, Kmp, get_or_create}
use xkomp.Task.Format.Register.{Construct}
use xkomp.Task.Format.Register.Bodies.{Registered, Given, get_or_create-Given}
use xkomp.Task.Layout.{ktask_from_args}
use xkomp.Task.Alloc.{
  Context, Request, Task, chosen_device, karg_slots, new_task, task_alloc, stock, untied, padded,
  fixed_accesses, omp_task_alloc_with_deps, omp_target_task_alloc_with_deps, omp_target_task_alloc,
  omp_task_alloc,
}
use xkomp.Program.{
  Entrance, host_with_deps, target_with_deps, host_stock, target_stock, Call, push, fork, alloc,
  graph_begin, graph_end, Effect, Process, write_pushed,
}
use xkomp.Program.Room.{among, AllAmong, AllAmong-append, length-lt-of_Absent}
use xkomp.Program.Sound.{Sound}
use xkomp.Program.Finish.Tasks.{acceptable_alloc}

-- Regions ask for numbers of threads among `ns` and have at most 1024 arguments, all given, and
-- memory for them; task graphs are of id 0 and have no clause.
abbrev pub acceptable : {V : Type 0} → Env → List ℤ → Call V → Bool
acceptable env ns (push me n) = among (to_i32 (requested_nthreads env (push_num_threads n))) ns
acceptable env ns (fork me given in_team argc va) =
    given && (leb argc microtask_max_args && argc == length va)
acceptable env ns (alloc e c place q) = acceptable_alloc e c q
acceptable env ns (graph_begin graph_id flags) =
    graph_id ==ℤ pos 0 && not (flags.reset || (flags.if_ || flags.nogroup))
acceptable env ns graph_end = true

abbrev pub all_acceptable : {V : Type 0} → Env → List ℤ → List (Call V) → Bool
all_acceptable env ns [] = true
all_acceptable env ns (c ∷ cs) = acceptable env ns c && all_acceptable env ns cs

module _ (X : Formats) (as_number : Passes → ℕ) {V : Type 0}
    (spawn : Desc (Wargs V) Routine → Bool × ℤ) (v : EnvVars) (ns : List ℤ) where
  abbrev pub asks : ℕ → Bool
  asks n = among (to_i32 (requested_nthreads (region_env v) n)) ns

  -- The numbers of threads in the cache, and those that threads have pushed, are among `ns`, and the
  -- instances of the graph are at most `m`.
  record Fits (m : ℕ) (p : Process X as_number spawn) : Type 0 where
    env_kept : p.xkomp.env ≡ v
    cache : AllAmong (counts p.xkomp.teams) ns
    pushes : (i : ℕ) → asks (p.pushed i) ≡ true
    graph_few : p.xkomp.graph.rc ≤ m

  abbrev Going : List (Effect V) → Process X as_number spawn × List (Effect V) → Type 0
  Going done r = Sound X as_number spawn r.0 (done ++ r.1)
