-- ===== src/Examples/Orders.antt =====
-- The theorem on the orders in which a tool sees the threads of a region (src/kmp/fork.cc,
-- src/ompt/ompt.cc), for two threads that take turns.
use xkomp.Prelude.{
  ℕ, ◌≡◌, refl, arith, true, none, some, List, [], ◌∷◌, ltb, if◌then◌else◌, ok, Returns,
}
use xkomp.Fork.{
  ThreadEvent, implicit_task_begin, microtask, team_barrier, implicit_task_end, reads, case_indices,
  case_table, invoke_generic, wrapper,
}
use xkomp.Ompt.{Bridge, Thread, ToolCode, scope_begin, scope_end, callback_at, fresh_bridge}
use xkomp.Ompt.System.{Action, implicit_begin, implicit_end, at_barrier, complete, run}
use xkomp.Ompt.System.View.{count}
use xkomp.Ompt.System.Teams.{Told}
use xkomp.Ompt.System.Teams.Orders.{Shuffle, through, turn}
use xkomp.Ompt.System.Teams.Regions.{all_actions, team-Told}

abbrev thread : ℕ → Thread
thread i = record {
  team = some (record { id = 1; nthreads = 2 });
  tid = i;
  current_task = some i;
  implicit_task = i;
}

abbrev quiet_tool : ToolCode
quiet_tool = record {
  initialize = λ t. none;
  finalizes = λ t. true;
  react = λ f args values. values;
}

-- A tool is active and has a function for implicit tasks.
abbrev watched : Bridge
watched = record fresh_bridge { enabled = true; callbacks = 0 ∷ 0 ∷ 0 ∷ 0 ∷ 0 ∷ 0 ∷ 0 ∷ 107 ∷ [] }

abbrev one_event : List (ThreadEvent ℕ)
one_event = implicit_task_begin ∷ microtask (some []) ∷ team_barrier ∷ implicit_task_end ∷ []

abbrev code : ℕ → List Action
code i = complete ∷ []

abbrev waits : ℕ → List Action
waits i =
    at_barrier (thread i).team (some (thread i)) scope_begin
    ∷ at_barrier (thread i).team (some (thread i)) scope_end
    ∷ []

abbrev in_turns : List Action
in_turns =
    implicit_begin (thread 1)
    ∷ implicit_begin (thread 0)
    ∷ complete
    ∷ complete
    ∷ at_barrier (thread 0).team (some (thread 0)) scope_begin
    ∷ at_barrier (thread 1).team (some (thread 1)) scope_begin
    ∷ at_barrier (thread 1).team (some (thread 1)) scope_end
    ∷ at_barrier (thread 0).team (some (thread 0)) scope_end
    ∷ implicit_end (thread 0)
    ∷ implicit_end (thread 1)
    ∷ []

an_order : Shuffle (λ i. if ltb i 2 then all_actions (thread i) (code i) one_event else []) in_turns
an_order = turn 1 _ refl (
    turn 0 _ refl (
      turn 0 _ refl (
        turn 1 _ refl (
          turn 0 _ refl (
            turn 1 _ refl (
              turn 1 _ refl
                (turn 0 _ refl (turn 0 _ refl (turn 1 _ refl (through (λ i. ground arith)))))))))))

calls : wrapper invoke_generic (record { argc = 0; args = [] }) ≡ ok one_event
unfolding wrapper invoke_generic reads case_indices case_table
calls = refl

watched-Told : Told 1 scope_begin 0 watched
unfolding count callback_at
watched-Told = (refl, refl, refl)

team-Told_example : Returns (Told 1 scope_begin 1) (run quiet_tool in_turns watched)
team-Told_example =
    team-Told quiet_tool thread code (λ i. refl) (λ i. refl) invoke_generic
      (record { argc = 0; args = [] }) one_event 1 2 0 scope_begin in_turns watched calls an_order
      watched-Told
