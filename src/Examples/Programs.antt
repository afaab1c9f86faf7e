-- ===== src/Examples/Programs.antt =====
-- The theorems on whole programs (include/xkomp/xkomp.h) and on the first calls of xkomp_get
-- (src/api.cc) at small ones.
use xkomp.Prelude.{
  ℕ, ◌≡◌, ◌==◌, refl, arith, Bool, true, false, none, List, [], ◌∷◌, ◌++◌, replicate, take, drop,
  if◌then◌else◌, ◌>>=◌, Returns, Allows,
}
use xkomp.Prelude.Int.{ℤ, pos, to_i32}
use xkomp.Env.Init.{region_env}
use xkomp.Team.Region.{Desc}
use xkomp.Fork.{Wargs, Routine, fork_call}
use xkomp.Fork.Push.{asks_for}
use xkomp.Taskgraph.{Flags}
use xkomp.Program.{
  Call, push, fork, alloc, graph_begin, graph_end, host_stock, target_with_deps, begin_program,
  new_process, run,
}
use xkomp.Program.Sound.{Whole, program_lem}
use xkomp.Program.Pushed.{own_pushed, fork_asks}
use xkomp.Api.First.{set_up_steps, interleave, all_calling}
use xkomp.Api.First.Early.{GivenAt, get_early}
use xkomp.Api.First.Late.{AtFirst, get_late}
use xkomp.Examples.FormatTable.{listed}
use xkomp.Examples.Allocations.{context, request}
use xkomp.Examples.Variables.{table, read}

abbrev as_asked : Desc (Wargs ℕ) Routine → Bool × ℤ
as_asked d = (true, if d.nthreads == 0 then pos 6 else to_i32 d.nthreads)

abbrev no_clause : Flags
no_clause = record { reset = false; if_ = false; nogroup = false }

-- Two threads with regions of their own, and tasks in a graph between these.
abbrev small_program : List (Call ℕ)
small_program =
    push 0 (pos 2)
    ∷ push 1 (pos 3)
    ∷ fork 0 true false 1 (7 ∷ [])
    ∷ graph_begin (pos 0) no_clause
    ∷ alloc host_stock context 4096 request
    ∷ alloc (target_with_deps 1 1 (pos 1)) context 8192 request
    ∷ graph_end
    ∷ fork 1 true false 2 (8 ∷ 9 ∷ [])
    ∷ fork 0 true true 0 []
    ∷ push 1 (pos 3)
    ∷ []

abbrev as_zero : (ℕ → Bool) → ℕ
as_zero passes = 0

program_lem_example : Allows (Whole listed as_zero as_asked) (
    begin_program listed as_zero as_asked table [] (λ _. none)
    >>= run listed as_zero as_asked small_program)
program_lem_example = program_lem listed as_zero as_asked table [] (λ _. none) small_program

abbrev three_numbers : List ℤ
three_numbers = pos 0 ∷ pos 2 ∷ pos 3 ∷ []

fork_asks_example :
    Allows
      (λ (p, done).
        fork_call as_asked (region_env p.xkomp.env) true false p.xkomp.teams (p.pushed 1) 1 (5 ∷ [])
        ≡ asks_for as_asked
            (region_env read)
            true
            p.xkomp.teams
            (own_pushed 1 small_program 0)
            (5 ∷ []))
      (run listed as_zero as_asked small_program (new_process listed as_zero as_asked [] read))
fork_asks_example =
    fork_asks listed as_zero as_asked read 1 [] small_program true (5 ∷ []) (omega arith)

get_early_example :
    Returns
      (GivenAt 0 1 (take 3 set_up_steps) (drop 3 set_up_steps))
      (interleave true ((0 ∷ 0 ∷ replicate 3 0) ++ 1 ∷ []) all_calling)
get_early_example = get_early 0 1 3 refl (omega arith)

get_late_example :
    Returns
      (λ w. (w.contexts.built ≡ set_up_steps ∷ []) × AtFirst (w.points 2))
      (interleave true ((0 ∷ 0 ∷ replicate 8 0) ++ 1 ∷ 0 ∷ 2 ∷ []) all_calling)
get_late_example = get_late 0 2 (1 ∷ 0 ∷ 2 ∷ [])
