-- ===== src/Examples/Tools.antt =====
-- The theorems on the bridge to OMPT tools (src/ompt/ompt.cc) with a small tool.
use text.Mathlib.Text.{◌==◌ as ◌≟◌}
use xkomp.Prelude.{
  ℕ, ◌≡◌, refl, arith, true, false, none, some, List, [], ◌∷◌, ◌++◌, ◌==◌, if◌then◌else◌, ok,
  Returns, ◌>>=◌,
}
use xkomp.Ompt.{
  Bridge, Thread, ToolCode, Team, scope_begin, scope_end, fresh_bridge, set_callback, get_callback,
  callback_at, called, ompt_call, dependences_args, task_datum, task_schedule_args,
}
use xkomp.Ompt.Table.{get_callback-set_callback}
use xkomp.Ompt.Discovery.{Loader, discover, load_tools, paths, listed}
use xkomp.Ompt.Tasks.{on_task_accesses, task_switch, on_task_schedule}
use xkomp.Ompt.Tasks.Told.{told_of, told_lem}
use xkomp.Ompt.Regions.{parallel_begin, parallel_end, implicit_task_begin, implicit_task_end}
use xkomp.Ompt.Lifecycle.{
  bridge_initialize, initialize_tool, activate, registers, register_all, do_finalize,
}
use xkomp.Ompt.System.{Action, start, stop, at_barrier, finalize, run}
use xkomp.Ompt.System.View.{view, count, registered}
use xkomp.Ompt.System.Running.{see_all}
use xkomp.Ompt.System.Finish.{Ended, Active}
use xkomp.Ompt.System.Connect.{ToldOf, at_start, connect-run-Balanced, connect-run-Ended}
use xkomp.Ompt.System.Calls.{WellCalled, run-WellCalled, late_calls}
use xkomp.Task.Access.{deps_to_accesses, Depend}
use xkomp.Examples.Tasks.{inout}

-- It registers functions for the starts and ends of threads and the scheduling of tasks.
abbrev small_tool : ToolCode
small_tool = record {
  initialize = λ t. some ((1, 101) ∷ (2, 102) ∷ (6, 106) ∷ (18, 118) ∷ [], true);
  finalizes = λ t. true;
  react = λ f args values. values;
}

-- The first library of the list cannot be opened, the second one has the tool.
abbrev small_loader : Loader
small_loader = record {
  omp_tool = none;
  omp_tool_libraries = some "a:b";
  linked = none;
  copies = true;
  dlopen = λ path. if path ≟ "a" then none else some 7;
  start = λ h. some (some 70);
}

abbrev connected : Bridge
connected = (bridge_initialize small_tool small_loader fresh_bridge).1

connects : bridge_initialize small_tool small_loader fresh_bridge ≡ (true, connected)
unfolding bridge_initialize discover load_tools paths listed initialize_tool activate registers
    register_all set_callback
connects = refl

has_functions :
    (registered connected.callbacks 1 ≡ true)
    × (registered connected.callbacks 2 ≡ true)
    × ((callback_at connected.callbacks 6 == 0) ≡ false)
    × ((callback_at connected.callbacks 18 == 0) ≡ false)
unfolding bridge_initialize discover load_tools paths listed initialize_tool activate registers
    register_all set_callback callback_at
has_functions = (refl, refl, refl, refl)

connected-Active : Active 70 (view 0 connected)
unfolding bridge_initialize discover load_tools paths listed initialize_tool activate registers
    register_all set_callback count
connected-Active = (refl, refl, refl, refl, refl)

abbrev initial_thread : Thread
initial_thread = record { team = none; tid = 0; current_task = some 5; implicit_task = 5 }

abbrev worker : Thread
worker = record {
  team = some (record { id = 1; nthreads = 2 });
  tid = 1;
  current_task = none;
  implicit_task = 6;
}

abbrev some_actions : List Action
some_actions =
    start 0 initial_thread
    ∷ start 1 worker
    ∷ at_barrier none (some worker) scope_begin
    ∷ at_barrier none (some worker) scope_end
    ∷ stop 1 worker
    ∷ []

get_callback-set_callback_example :
    get_callback 6 true ((set_callback 6 106 fresh_bridge).1) ≡ (1, some 106)
get_callback-set_callback_example =
    get_callback-set_callback fresh_bridge 6 106 6 refl (omega arith) (omega arith)

connect-run-Balanced_example :
    Returns
      (λ r. ToldOf (see_all 1 some_actions at_start).up (view 1 r))
      (run small_tool some_actions connected)
connect-run-Balanced_example =
    connect-run-Balanced 1 small_tool small_loader some_actions connected connects has_functions.0
      has_functions.1

connect-run-Ended_example :
    (t : ℕ) × (connected.tool ≡ some t)
    × Returns
        (λ r. Ended small_tool t (view 1 r))
        (run small_tool (some_actions ++ (finalize 0 (some initial_thread) ∷ [])) connected)
connect-run-Ended_example =
    connect-run-Ended 1 small_tool small_loader some_actions [] 0 (some initial_thread) connected
      connects

run-WellCalled_example :
    Returns (λ r. WellCalled (view 0 r)) (run small_tool some_actions fresh_bridge)
unfolding count
run-WellCalled_example = run-WellCalled small_tool some_actions fresh_bridge refl

abbrev a_dep : Depend
a_dep = record { base_addr = 64; flags = inout }

told_lem_example :
    (deps_to_accesses (none ∷ none ∷ []) 0 (a_dep ∷ a_dep ∷ []) >>= λ slots.
    on_task_accesses small_tool true 4 slots connected)
    ≡ ok (
        ompt_call small_tool 18
          (dependences_args (task_datum 4) (told_of a_dep ∷ told_of a_dep ∷ []))
          connected)
told_lem_example = told_lem small_tool 4 a_dep (a_dep ∷ []) connected refl refl has_functions.3

late_calls_example :
    (let s' = do_finalize small_tool 0 none connected in
      let team : Team = record { id = 1; nthreads = 2 } in
      (parallel_begin small_tool team (some worker) 2 0 s' ≡ s')
      × (parallel_end small_tool team (some worker) 0 s' ≡ s')
      × (implicit_task_begin small_tool worker s' ≡ s')
      × (implicit_task_end small_tool worker s' ≡ s')
      × ((view 0 s').opens ≡ (view 0 s').closes)
      × ((on_task_schedule small_tool none (some 3) s').acts
          ≡ called 6
              (callback_at connected.callbacks 6)
              (task_schedule_args none task_switch (some (task_datum 3)))
            ∷ s'.acts))
late_calls_example =
    late_calls small_tool 0 70 none connected none (some 3) (record { id = 1; nthreads = 2 }) worker
      2 0 connected-Active has_functions.2
