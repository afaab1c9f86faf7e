-- ===== src/Taskgraph.antt =====
-- src/xkomp/taskgraph.cc, and the functions of include/xkomp/xkomp++.h over it: a region that is
-- recorded when it is met first and replayed from then on. The calls made to XKRT, and to the
-- caller's code, are recorded in order.
pub mod Replay
pub mod Loop
use xkomp.Prelude.{
  ℕ, zero, suc, ◌+◌, ◌*◌, ◌/◌, ◌%◌, ◌^◌, Bool, true, false, ◌||◌, Option, none, some, List, [], ◌∷◌,
  ◌++◌, replicate, ltb, ◌==◌, if◌then◌else◌, Outcome, ok, dies, undefined, fatal_if, ◌>>=◌, ◌>>◌,
}
use xkomp.Prelude.Int.{ℤ, pos, ◌==ℤ◌}

-- The bits of `xkomp_taskgraph_flags_t`.
pub record Flags : Type 0 where
  pub reset : Bool
  pub if_ : Bool
  pub nogroup : Bool

-- The field of `xkomp_taskgraph_t` that the functions read, an int that is never negative. What XKRT keeps in the two graphs
-- shows in the calls.
pub record Graph : Type 0 where
  pub rc : ℕ

pub data Call : Type 0 where
  -- task_dependency_graph_record_start and _stop
  record_start record_stop : Call
  -- command_graph_from_task_dependency_graph
  build : Call
  -- command_graph_t::optimize, with the passes of the environment
  optimize : ℕ → Call
  -- command_graph_replay
  replay : Call
  -- the caller's code: the body of one iteration, and the epilogue with its two arguments
  body : Call
  epilogue : ℕ → ℕ → Call

unfoldable pub coherence_checks : ℤ → Flags → Outcome (Unit {0})
coherence_checks graph_id flags = do
  fatal_if flags.reset
  fatal_if flags.if_
  fatal_if flags.nogroup
  fatal_if (if graph_id ==ℤ pos 0 then false else true)

abbrev pub int_mod : ℕ
int_mod = 2 ^ 31

-- An int that is counted up: behind the largest one the sum is undefined.
abbrev pub in_int : ℕ → Outcome (Unit {0})
in_int n = if ltb n int_mod then ok tt else dies undefined

-- The map holds one graph, the one of id 0: its state is carried along. `passes` is
-- OMP_TASKGRAPH_OPT.
unfoldable pub taskgraph_begin : ℕ → ℤ → Flags → Graph → Outcome (Graph × List Call)
unfolding coherence_checks
taskgraph_begin passes graph_id flags g = do
  coherence_checks graph_id flags
  let g' : Graph = record { rc = suc g.rc }
  in_int g'.rc
  if g'.rc == 1
      then ok (g', record_start ∷ [])
      else ok (g', (if g'.rc == 2 then build ∷ optimize passes ∷ [] else []) ++ replay ∷ [])

unfoldable pub taskgraph_end : Graph → List Call
taskgraph_end g = if g.rc == 1 then record_stop ∷ [] else []

-- `pragma_omp_taskgraph`; `f` is the list of calls of the function object.
unfoldable pub pragma_taskgraph : ℕ → ℤ → Flags → List Call → Graph → Outcome (Graph × List Call)
unfolding taskgraph_begin taskgraph_end
pragma_taskgraph passes graph_id flags f g = do
  (g', begun) ← taskgraph_begin passes graph_id flags g
  ok (g', begun ++ ((if g'.rc == 1 then f else []) ++ taskgraph_end g'))

abbrev pub size_mod : ℕ
size_mod = 2 ^ 64

-- The variables of the loop: the graph, the calls made so far, `done` and `inst`.
pub record LoopState : Type 0 where
  pub graph : Graph
  pub calls : List Call
  pub done : ℕ
  pub inst : ℕ

abbrev pub at_least_one : ℕ → ℕ
at_least_one unroll = if unroll == 0 then 1 else unroll

-- One turn of the loop of `pragma_omp_taskgraphloop`.
unfoldable pub loop_turn : ℕ → ℤ → Flags → ℕ → LoopState → Outcome LoopState
unfolding pragma_taskgraph
loop_turn passes graph_id flags unroll s = do
  (g', calls) ← pragma_taskgraph passes graph_id flags (replicate unroll body) s.graph
  let done : ℕ = (s.done + unroll) % size_mod
  ok (record {
    graph = g';
    calls = s.calls ++ (calls ++ epilogue s.inst done ∷ []);
    done = done;
    inst = (s.inst + 1) % size_mod;
  })

-- The loop on fuel: none where the fuel is used up. The condition may depend on all that has been
-- called before.
unfoldable pub loop_from :
    ℕ → ℕ → ℤ → Flags → ℕ → (List Call → ℕ → Bool) → LoopState → Outcome (Option LoopState)
unfolding loop_turn
loop_from zero passes graph_id flags unroll cond s = ok none
loop_from (suc fuel) passes graph_id flags unroll cond s =
    if cond s.calls s.done
    then loop_turn passes graph_id flags unroll s
      >>= loop_from fuel passes graph_id flags unroll cond
    else ok (some s)

-- `pragma_omp_taskgraphloop`
unfoldable pub pragma_taskgraphloop :
    ℕ → ℕ → ℤ → Flags → ℕ → (List Call → ℕ → Bool) → Graph → Outcome (Option LoopState)
unfolding loop_from
pragma_taskgraphloop fuel passes graph_id flags unroll cond g =
    loop_from fuel passes graph_id flags (at_least_one unroll) cond
      (record { graph = g; calls = []; done = 0; inst = 0 })

-- `for ( ; done < n ; ++done) body();`
unfoldable pub plain_loop : ℕ → ℕ → LoopState → LoopState
plain_loop zero n s = s
plain_loop (suc fuel) n s =
    let rest = plain_loop fuel n (record s { calls = s.calls ++ body ∷ []; done = s.done + 1 }) in
    if ltb s.done n then rest else s

unfoldable pub plain_rest : ℕ → Option LoopState → Option LoopState
unfolding plain_loop
plain_rest n none = none
plain_rest n (some s) = some (plain_loop n n s)

-- `pragma_omp_taskgraphloop_n`; the fuel of its first loop is enough for `n` turns.
unfoldable pub pragma_taskgraphloop_n : ℕ → ℤ → Flags → ℕ → ℕ → Graph → Outcome (Option LoopState)
unfolding pragma_taskgraphloop plain_rest
pragma_taskgraphloop_n passes graph_id flags unroll n g = do
  let whole : ℕ = n / at_least_one unroll * at_least_one unroll
  s ← pragma_taskgraphloop (suc n) passes graph_id flags unroll (λ _ d. ltb d whole) g
  ok (plain_rest n s)
