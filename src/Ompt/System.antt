-- ===== src/Ompt/System.antt =====
-- The bridge of src/ompt/ompt.cc at work: the calls of its functions, one after another, in any
-- order and by any threads.
pub mod View
pub mod Quiet
pub mod Preserve
pub mod Balance
pub mod Running
pub mod Finish
pub mod Connect
pub mod Calls
pub mod Teams
use xkomp.Prelude.{
  ℕ, Bool, true, false, Option, none, some, List, [], ◌∷◌, map, Outcome, ok, dies, ◌>>=◌,
}
use xkomp.Ompt.{Bridge, Thread, Team, ToolCode, Endpoint}
use xkomp.Ompt.Threads.{on_thread_start, on_thread_stop}
use xkomp.Ompt.Tasks.{
  TaskInfo, on_task_create, on_task_schedule, on_task_complete, on_task_accesses,
}
use xkomp.Ompt.Regions.{
  on_barrier, on_taskwait, on_taskgroup, parallel_begin, parallel_end, implicit_task_begin,
  implicit_task_end,
}
use xkomp.Ompt.Lifecycle.{do_finalize}
use xkomp.Task.Access.{Access}

-- A call with its arguments; the first number is the thread of the operating system.
pub data Action : Type 0 where
  start stop : ℕ → Thread → Action
  create : TaskInfo → Action
  schedule : Option ℕ → Option ℕ → Action
  complete : Action
  accesses : Bool → ℕ → List Access → Action
  at_barrier : Option Team → Option Thread → Endpoint → Action
  at_taskwait at_taskgroup : Option Thread → Option ℕ → Endpoint → Action
  region_begin : Team → Option Thread → ℕ → ℕ → Action
  region_end : Team → Option Thread → ℕ → Action
  implicit_begin implicit_end : Thread → Action
  finalize : ℕ → Option Thread → Action

unfoldable pub act : ToolCode → Action → Bridge → Outcome Bridge
act T (start me thread) s = ok (on_thread_start T me thread s)
act T (stop me thread) s = ok (on_thread_stop T me thread s)
act T (create task) s = ok (on_task_create T task s)
act T (schedule prev next) s = ok (on_task_schedule T prev next s)
act T complete s = ok (on_task_complete s)
act T (accesses allocated task told) s = on_task_accesses T allocated task (map some told) s
act T (at_barrier team thread scope) s = ok (on_barrier T team thread scope s)
act T (at_taskwait thread task scope) s = ok (on_taskwait T thread task scope s)
act T (at_taskgroup thread task scope) s = ok (on_taskgroup T thread task scope s)
act T (region_begin team thread n codeptr) s = ok (parallel_begin T team thread n codeptr s)
act T (region_end team thread codeptr) s = ok (parallel_end T team thread codeptr s)
act T (implicit_begin thread) s = ok (implicit_task_begin T thread s)
act T (implicit_end thread) s = ok (implicit_task_end T thread s)
act T (finalize me thread) s = ok (do_finalize T me thread s)

-- A list of calls, the first one first.
unfoldable pub run : ToolCode → List Action → Bridge → Outcome Bridge
unfolding act
run T [] s = ok s
run T (a ∷ rest) s = act T a s >>= run T rest
