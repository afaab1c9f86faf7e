-- ===== src/Stencil/Tasks.antt =====
-- The tasks of the stencil (extensions/interfaces/stencil-1d/main-access.cc) in any order that their
-- access clauses allow: a task runs once the tasks that were created before it and whose accesses
-- conflict with its own have ended, which is what the runtime keeps of these clauses. The tasks run
-- one after another here; those that run at once share no cell that one of them writes.
pub mod Ready
pub mod Step
pub mod Reached
pub mod Preserve
pub mod Order
pub mod Progress
use xkomp.Prelude.{
  ℕ, zero, suc, ◌+◌, ◌-◌, ◌*◌, ◌/◌, ◌%◌, ◌^◌, ◌==◌, ltb, leb, not, Bool, true, false, ◌&&◌, ◌||◌,
  List, [], ◌∷◌, if◌then◌else◌, Outcome, ok, dies, undefined, fatal_if, ◌>>=◌, ◌>>◌,
}
use xkomp.Stencil.{
  Floats, range_from, Memory, Layout, size_of, swapped, first_layout, cells, initial,
}

-- An access clause: a section of the memory, and whether it is written.
pub record Access : Type 0 where
  pub start : ℕ
  pub count : ℕ
  pub writes : Bool

abbrev pub conflict : Access → Access → Bool
conflict a b =
    (a.writes || b.writes) && (ltb a.start (b.start + b.count) && ltb b.start (a.start + a.count))

-- The two clauses of a task, from the pointers as its sweep has them.
abbrev pub reads_of : Layout → ℕ → ℕ → Access
reads_of l bs j = record {
  start = l.u + j * bs - l.ghost;
  count = bs + 2 * l.ghost;
  writes = false;
}

abbrev pub writes_of : Layout → ℕ → ℕ → Access
writes_of l bs j = record { start = l.v + j * bs; count = bs; writes = true }

-- A value that is computed as an int.
abbrev pub in_int : ℕ → Outcome (Unit {0})
in_int i = if ltb i (2 ^ 31) then ok tt else dies undefined

-- The pointers in the sweep `t`; the sweeps are counted from 1.
unfoldable pub layout_at : Layout → ℕ → Layout
layout_at l zero = l
layout_at l (suc t) = swapped (layout_at l t)

-- Whether the task of the device `j` in the sweep `t` waits for that of `j'` in `t'`.
unfoldable pub depends : Layout → ℕ → ℕ → ℕ → ℕ → ℕ → Bool
unfolding layout_at
depends l bs t j t' j' =
    let a = layout_at l t in
    let b = layout_at l t' in
    conflict (reads_of a bs j) (writes_of b bs j')
    || (conflict (writes_of a bs j) (reads_of b bs j')
        || conflict (writes_of a bs j) (writes_of b bs j'))

abbrev pub all_of : (ℕ → Bool) → List ℕ → Bool
all_of p [] = true
all_of p (k ∷ ks) = p k && all_of p ks

-- The number of tasks of each device that have ended; they end one after another.
abbrev pub Ended : Type 0
Ended = ℕ → ℕ

abbrev pub count_task : Ended → ℕ → Ended
count_task ended j i = if i == j then suc (ended i) else ended i

-- The task `t` of the device `j` need not wait for that of `j'` in `t'`.
abbrev pub may_pass : Layout → ℕ → Ended → ℕ → ℕ → ℕ → ℕ → Bool
may_pass l bs ended t j t' j' = not (depends l bs t j t' j') || leb t' (ended j')

-- Whether the next task of the device `j` can run: all the tasks of the sweeps before have let it
-- pass, and those of the devices before it in the same sweep.
unfoldable pub ready : Layout → ℕ → ℕ → Ended → ℕ → Bool
unfolding depends range_from
ready l nd bs ended j =
    let t = suc (ended j) in
    all_of (λ t'. all_of (may_pass l bs ended t j t') (range_from 0 nd)) (range_from 1 (ended j))
    && all_of (may_pass l bs ended t j t) (range_from 0 j)

-- Whether tasks, by their devices, can run in this order.
unfoldable pub allowed : Layout → ℕ → ℕ → List ℕ → Ended → Bool
unfolding ready
allowed l nd bs [] ended = true
allowed l nd bs (j ∷ js) ended =
    (ltb j nd && ready l nd bs ended j) && allowed l nd bs js (count_task ended j)

abbrev pub ended_after : List ℕ → Ended → Ended
ended_after [] ended = ended
ended_after (j ∷ js) ended = ended_after js (count_task ended j)

-- Each device has run the tasks of `t` sweeps.
abbrev pub all_ended : ℕ → ℕ → Ended → Bool
all_ended nd t ended = all_of (λ j. ended j == t) (range_from 0 nd)

module _ (A : Floats) where
  unfoldable pub run_tasks : Layout → ℕ → List ℕ → Ended → Memory A → Outcome (Memory A)
  unfolding layout_at range_from
  run_tasks l bs [] ended mem = ok mem
  run_tasks l bs (j ∷ js) ended mem =
      cells A (layout_at l (suc (ended j))) (range_from (j * bs) bs) mem
      >>= run_tasks l bs js (count_task ended j)

  -- `main`, with `sweeps` for N_ITER and with its tasks in the order `js`; `n`, GHOST and N_ITER are
  -- non-negative ints, as far as their sizes can be computed in an int. `given` is whether `malloc`
  -- returns memory; `exit(1)` ends the program.
  unfoldable pub main_access :
      ℕ → ℕ → ℕ → ℕ → List ℕ → Bool → Memory A → Outcome (Layout × Memory A)
  unfolding run_tasks
  main_access ndevices n ghost sweeps js given mem = do
    fatal_if (ndevices == 0)
    fatal_if (not (n % ndevices == 0))
    in_int (size_of n ghost)
    fatal_if (not given)
    mem' ← initial A n ghost mem
    mem'' ← run_tasks (first_layout n ghost) (n / ndevices) js (λ j. 0) mem'
    ok (layout_at (first_layout n ghost) sweeps, mem'')
