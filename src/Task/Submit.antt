-- ===== src/Task/Submit.antt =====
-- The submission of tasks and the waits of src/kmp/task.cc. The calls made to XKRT and to the
-- compiler's code are recorded in order.
pub mod Fill
pub mod Deps
pub mod Slots
pub mod Waits
pub mod Execute
pub mod Stock
use xkomp.Prelude.{
  ℕ, ◌+◌, Bool, true, false, Option, none, some, List, [], ◌∷◌, ◌++◌, length, replicate, ltb, ◌==◌,
  not, if◌then◌else◌, Outcome, ok, dies, undefined, check, fatal_if, ◌>>=◌, ◌>>◌,
}
use xkomp.Prelude.Int.{ℤ, pos}
use xkomp.Task.Access.{Slot, Depend, Clause, acs_to_accesses, deps_to_accesses}
use xkomp.Task.Layout.{ktask_from_args}
use xkomp.Task.Alloc.{Task, State, executing}

-- A command of a recorded graph that spawns the task again and runs its routine.
pub record Command : Type 0 where
  pub state : State
  pub fn : ℕ
  pub task : ℕ
  pub args : ℕ
  pub n_args : ℕ
  pub args_owned : Bool

pub data Call : Type 0 where
  -- the compiler's routine, with the thread's number and the `kmp_task_t`
  routine : ℕ → ℤ → ℕ → Call
  -- the scatter, which fills the slots at an address
  scatter : ℕ → ℕ → ℕ → Call
  record_command : Command → Call
  -- `task_accesses_resolve` of the first accesses of an array
  accesses_resolve : List Slot → ℕ → Call
  -- `task_instanciate` of a task with an empty body and these accesses
  instanciate_empty : List Slot → Call
  task_commit task_wait taskwait taskgroup_begin taskgroup_end : Call

abbrev is_some {ℓ} : {A : Type ℓ} → Option A → Bool
is_some none = false
is_some (some a) = true

-- `body_omp_task_run`; the thread's number is none where the caller is no thread of XKRT.
unfoldable pub body_run : Option ℤ → Task → Outcome (List Call)
body_run thread t = do
  check (not (t.routine == 0))
  ok (elim thread [
    | none ↦ routine t.routine (pos 0) (ktask_from_args t.args) ∷ []
    | some gtid ↦ routine t.routine gtid (ktask_from_args t.args) ∷ []
  ])

unfoldable pub task_command : Task → Command
task_command t = record {
  state = t.state;
  fn = t.routine;
  task = ktask_from_args t.args;
  args = t.kargs;
  n_args = t.n_kargs;
  args_owned = false;
}

-- The part of `body_omp_task` behind the run of the body, where the task is recorded.
abbrev pub record_task : Task → Outcome (List Call)
record_task t = do
  check (not (t.routine == 0))
  ok (
      (if t.scatter == 0 then [] else scatter t.scatter (ktask_from_args t.args) t.kargs ∷ [])
      ++ record_command (task_command t) ∷ [])

-- `body_omp_task`; `in_team` is whether the calling thread has a team.
unfoldable pub body_omp_task : Option ℤ → Bool → Task → Outcome (List Call)
unfolding body_run task_command
body_omp_task thread in_team t = do
  check (is_some thread)
  check in_team
  ran ← body_run thread t
  more ← if t.flags.record_ then record_task t else ok []
  ok (ran ++ more)

abbrev pub commit_calls : Task → List Call
commit_calls t = task_commit ∷ (if t.flags.undeferable then task_wait ∷ [] else [])

abbrev is_executing : State → Bool
is_executing executing = true
is_executing _ = false

-- `__kmpc_omp_task`: the calls and the value returned.
unfoldable pub omp_task : Option ℤ → Bool → Task → Outcome (List Call × ℕ)
unfolding body_omp_task
omp_task thread in_team t =
    if is_executing t.state
    then (do calls ← body_omp_task thread in_team t; ok (calls, 1))
    else ok (commit_calls t, 0)

-- The three calls that translate the lists into the slots: access clauses, then the two lists of
-- dependences.
unfoldable pub fill_accesses :
    List Slot → List Clause → List Depend → List Depend → Outcome (List Slot × List Clause)
fill_accesses slots acs deps noalias = do
  (s1, acs') ← acs_to_accesses slots 0 acs
  s2 ← deps_to_accesses s1 (length acs) deps
  s3 ← deps_to_accesses s2 (length acs + length deps) noalias
  ok (s3, acs')

abbrev pub access_count : List Clause → List Depend → List Depend → ℕ
access_count acs deps noalias = length acs + length deps + length noalias

abbrev room_for : Option ℕ → ℕ → Outcome (Unit {0})
room_for none n = dies undefined
room_for (some ac) n = fatal_if (ltb ac n)

-- The part of `__kmpc_omp_task_with_deps_v2` under `if (naccesses)`.
unfoldable pub with_accesses :
    Task → List Clause → List Depend → List Depend → Outcome (Task × List Call)
with_accesses t acs deps noalias = do
  room_for t.capacity (access_count acs deps noalias)
  (slots, _) ← fill_accesses t.slots acs deps noalias
  ok (record t { slots = slots }, accesses_resolve slots (access_count acs deps noalias) ∷ [])

-- `__kmpc_omp_task_with_deps_v2`: the task, the calls and the value, TASK_CURRENT_QUEUED.
unfoldable pub omp_task_with_deps_v2 :
    Task → List Depend → List Depend → List Clause → Outcome (Task × List Call × ℕ)
omp_task_with_deps_v2 t deps noalias acs = do
  (t', resolved) ←
      if access_count acs deps noalias == 0 then ok (t, []) else with_accesses t acs deps noalias
  ok (t', resolved ++ commit_calls t', 1)

-- `__kmpc_omp_task_with_deps`
unfoldable pub omp_task_with_deps :
    Task → List Depend → List Depend → Outcome (Task × List Call × ℕ)
unfolding omp_task_with_deps_v2
omp_task_with_deps t deps noalias = omp_task_with_deps_v2 t deps noalias []

-- `xkomp_taskwait_deps`; `narrow` is the conversion to `task_access_counter_t`, a type of XKRT. The
-- empty task has as many slots as that number.
unfoldable pub taskwait_deps :
    (ℕ → ℕ) → List Depend → List Depend → List Clause → Outcome (List Call)
taskwait_deps narrow deps noalias acs =
    let n = access_count acs deps noalias in
    if n == 0 then ok [] else (do
      (slots, _) ← fill_accesses (replicate (narrow n) none) acs deps noalias
      ok (instanciate_empty slots ∷ task_commit ∷ task_wait ∷ []))

-- `__kmpc_omp_taskwait_deps_51` and its second version; the last argument is `has_no_wait`.
unfoldable pub omp_taskwait_deps_51 :
    (ℕ → ℕ) → List Depend → List Depend → Bool → Outcome (List Call)
unfolding taskwait_deps
omp_taskwait_deps_51 narrow deps noalias has_no_wait = taskwait_deps narrow deps noalias []

unfoldable pub omp_taskwait_deps_51_v2 :
    (ℕ → ℕ) → List Depend → List Depend → Bool → List Clause → Outcome (List Call)
unfolding taskwait_deps
omp_taskwait_deps_51_v2 narrow deps noalias has_no_wait acs = taskwait_deps narrow deps noalias acs

-- `__kmpc_omp_taskwait`, `__kmpc_taskgroup` and `__kmpc_end_taskgroup`
unfoldable pub omp_taskwait : List Call × ℕ
omp_taskwait = (taskwait ∷ [], 0)

unfoldable pub omp_taskgroup : List Call
omp_taskgroup = taskgroup_begin ∷ []

unfoldable pub omp_end_taskgroup : List Call
omp_end_taskgroup = taskgroup_end ∷ []
