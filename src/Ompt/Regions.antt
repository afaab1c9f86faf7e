-- ===== src/Ompt/Regions.antt =====
-- The regions of src/ompt/ompt.cc: barriers, taskwaits and taskgroups, which XKRT reports, and the
-- parallel regions and implicit tasks, which the program reports itself where a tool is active.
use xkomp.Prelude.{ℕ, Option, none, some, if◌then◌else◌}
use xkomp.Ompt.{
  Bridge, Arguments, Team, Thread, ToolCode, Datum, team_datum, task_datum, Endpoint, scope_begin,
  scope_end, sync_region_args, parallel_begin_args, parallel_end_args, implicit_task_args,
  ompt_call, renewed,
}
use xkomp.Ompt.Tasks.{datum_of_task}

-- `ompt_sync_region_t`, where the program uses it.
abbrev pub barrier_implicit_parallel : ℕ
barrier_implicit_parallel = 9

abbrev pub sync_taskwait : ℕ
sync_taskwait = 5

abbrev pub sync_taskgroup : ℕ
sync_taskgroup = 6

-- `ompt_task_implicit` and `ompt_parallel_team`.
abbrev pub task_implicit : ℕ
task_implicit = 2

abbrev pub parallel_team : ℕ
parallel_team = 2147483648

abbrev pub datum_of_team : Option Team → Option Datum
datum_of_team none = none
datum_of_team (some team) = some (team_datum team.id)

abbrev pub team_of : Option Thread → Option Team
team_of none = none
team_of (some thread) = thread.team

abbrev pub current_task_of : Option Thread → Option ℕ
current_task_of none = none
current_task_of (some thread) = thread.current_task

unfoldable pub emit_sync_region :
    ToolCode → ℕ → Endpoint → Option Datum → Option Datum → Bridge → Bridge
emit_sync_region T kind scope_begin parallel task s =
    let args = sync_region_args kind scope_begin parallel task in
    ompt_call T 16 args (ompt_call T 23 args s)
emit_sync_region T kind scope_end parallel task s =
    let args = sync_region_args kind scope_end parallel task in
    ompt_call T 23 args (ompt_call T 16 args s)

unfoldable pub on_barrier : ToolCode → Option Team → Option Thread → Endpoint → Bridge → Bridge
on_barrier T team thread scope s =
    emit_sync_region T barrier_implicit_parallel scope (datum_of_team team)
      (datum_of_task (current_task_of thread)) s

unfoldable pub on_taskwait : ToolCode → Option Thread → Option ℕ → Endpoint → Bridge → Bridge
on_taskwait T thread task scope s =
    emit_sync_region T sync_taskwait scope (datum_of_team (team_of thread)) (datum_of_task task) s

unfoldable pub on_taskgroup : ToolCode → Option Thread → Option ℕ → Endpoint → Bridge → Bridge
on_taskgroup T thread task scope s =
    emit_sync_region T sync_taskgroup scope (datum_of_team (team_of thread)) (datum_of_task task) s

unfoldable pub parallel_begin : ToolCode → Team → Option Thread → ℕ → ℕ → Bridge → Bridge
parallel_begin T team encountering nthreads codeptr s =
    if s.enabled
    then ompt_call T 3
        (parallel_begin_args (datum_of_task (current_task_of encountering)) (team_datum team.id)
          nthreads parallel_team codeptr)
        (renewed (team_datum team.id) s)
    else s

unfoldable pub parallel_end : ToolCode → Team → Option Thread → ℕ → Bridge → Bridge
parallel_end T team encountering codeptr s =
    if s.enabled
    then ompt_call T 4
        (parallel_end_args (team_datum team.id) (datum_of_task (current_task_of encountering))
          parallel_team codeptr)
        s
    else s

abbrev team_size : Option Team → ℕ
team_size none = 1
team_size (some team) = team.nthreads

abbrev pub implicit_begin_args : Thread → Arguments
implicit_begin_args thread =
    implicit_task_args scope_begin (datum_of_team thread.team)
      (some (task_datum thread.implicit_task)) (team_size thread.team) thread.tid task_implicit

abbrev pub implicit_end_args : Thread → Arguments
implicit_end_args thread =
    implicit_task_args scope_end none (some (task_datum thread.implicit_task)) 0 thread.tid
      task_implicit

unfoldable pub implicit_task_begin : ToolCode → Thread → Bridge → Bridge
implicit_task_begin T thread s =
    if s.enabled
    then ompt_call T 7 (implicit_begin_args thread) (renewed (task_datum thread.implicit_task) s)
    else s

unfoldable pub implicit_task_end : ToolCode → Thread → Bridge → Bridge
implicit_task_end T thread s = if s.enabled then ompt_call T 7 (implicit_end_args thread) s else s
