-- ===== src/Task/Submit/Execute.antt =====
-- `__kmpc_omp_task`, which is called for a task that is submitted and again for one that runs.
use xkomp.Prelude.{
  ℕ, ◌+◌, ◌≡◌, refl, true, false, some, Bool-cases, inl, inr, List, [], ◌∷◌, ◌==◌, if◌then◌else◌,
  Returns,
}
use xkomp.Prelude.Int.{ℤ}
use xkomp.Task.Layout.{ktask_from_args}
use xkomp.Task.Alloc.{Task}
use xkomp.Task.Submit.{
  Call, Command, routine, scatter, record_command, task_commit, task_wait, is_executing, body_run,
  task_command, body_omp_task, omp_task,
}

-- How often some calls commit a task and wait for one; the calls of routines and of scatters; and
-- the commands that are recorded.
abbrev pub commits : List Call → ℕ
commits [] = 0
commits (task_commit ∷ cs) = 1 + commits cs
commits (_ ∷ cs) = commits cs

abbrev pub routines : List Call → List (ℕ × ℤ × ℕ)
routines [] = []
routines (routine r gtid k ∷ cs) = (r, gtid, k) ∷ routines cs
routines (_ ∷ cs) = routines cs

abbrev pub scatters : List Call → List (ℕ × ℕ × ℕ)
scatters [] = []
scatters (scatter f k kargs ∷ cs) = (f, k, kargs) ∷ scatters cs
scatters (_ ∷ cs) = scatters cs

abbrev pub waits : List Call → ℕ
waits [] = 0
waits (task_wait ∷ cs) = 1 + waits cs
waits (_ ∷ cs) = waits cs

abbrev pub commands : List Call → List Command
commands [] = []
commands (record_command c ∷ cs) = c ∷ commands cs
commands (_ ∷ cs) = commands cs

-- What the calls of one submission amount to, and the value that it returns.
pub record Summary : Type 0 where
  pub committed : ℕ
  pub run : List (ℕ × ℤ × ℕ)
  pub waited : ℕ
  pub scattered : List (ℕ × ℕ × ℕ)
  pub recorded : List Command
  pub value : ℕ

abbrev pub summary : List Call × ℕ → Summary
summary (cs, n) = record {
  committed = commits cs;
  run = routines cs;
  waited = waits cs;
  scattered = scatters cs;
  recorded = commands cs;
  value = n;
}

-- A task that is submitted, and one that runs on the thread `gtid`.
abbrev pub submitted : Task → Summary
submitted t = record {
  committed = 1;
  run = [];
  waited = if t.flags.undeferable then 1 else 0;
  scattered = [];
  recorded = [];
  value = 0;
}

abbrev pub executed : ℤ → Task → Summary
executed gtid t = record {
  committed = 0;
  run = (t.routine, gtid, ktask_from_args t.args) ∷ [];
  waited = 0;
  scattered =
      if t.flags.record_
      then (if t.scatter == 0 then [] else (t.scatter, ktask_from_args t.args, t.kargs) ∷ [])
      else [];
  recorded = if t.flags.record_ then task_command t ∷ [] else [];
  value = 1;
}

-- A task with a routine, on a thread of a team. Where it does not run it is committed exactly once,
-- and waited for once where it is undeferable; none of its code runs. Where it runs, its own routine
-- is called exactly once, with the number of the thread and its own `kmp_task_t`; it is not
-- committed again; and where its graph is recorded its slots are filled, if it has a scatter, and it
-- is recorded by its own command exactly once.
pub omp_task_lem :
    (gtid : ℤ) (t : Task)
    → (t.routine == 0) ≡ false
    → Returns
        (λ r. summary r ≡ (if is_executing t.state then executed gtid t else submitted t))
        (omp_task (some gtid) true t)
unfolding omp_task body_omp_task body_run
omp_task_lem gtid t h = elim (Bool-cases (is_executing t.state)) [
  | inr x ↦ elim (Bool-cases t.flags.undeferable) [
    | inl u ↦ rw (x, u) refl
    | inr u ↦ rw (x, u) refl
  ]
  | inl x ↦ elim (Bool-cases t.flags.record_) [
    | inr r ↦ rw (x, h, r) refl
    | inl r ↦ elim (Bool-cases (t.scatter == 0)) [
      | inl z ↦ rw (x, h, r, z) refl
      | inr z ↦ rw (x, h, r, z) refl
    ]
  ]
]
