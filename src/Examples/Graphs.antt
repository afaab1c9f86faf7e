-- ===== src/Examples/Graphs.antt =====
-- The theorems on task graphs (src/xkomp/taskgraph.cc) at a few instances.
use xkomp.Prelude.{◌≡◌, refl, arith, false, some, [], ◌∷◌, ◌++◌, replicate, ok}
use xkomp.Prelude.Int.{pos}
use xkomp.Taskgraph.{
  Flags, body, record_start, record_stop, build, optimize, replay, LoopState,
  pragma_taskgraphloop_n,
}
use xkomp.Taskgraph.Replay.{instances, instances_lem}
use xkomp.Taskgraph.Loop.{issued, start, after, pragma_taskgraphloop_n_exact}

abbrev no_clause : Flags
no_clause = record { reset = false; if_ = false; nogroup = false }

instances_lem_example :
    instances 7 (pos 0) no_clause (body ∷ []) 3 (record { rc = 0 })
    ≡ ok (
      record { rc = 3 },
      record_start ∷ body ∷ record_stop ∷ build ∷ optimize 7 ∷ replay ∷ replay ∷ [],
    )
instances_lem_example = instances_lem 7 (pos 0) no_clause (body ∷ []) 1 refl (omega arith)

-- Eight iterations, three at a time: two instances and two plain calls.
pragma_taskgraphloop_n_exact_example :
    (s : LoopState) × (pragma_taskgraphloop_n 7 (pos 0) no_clause 3 8 (record { rc = 0 })
      ≡ ok (some s))
    × (s.done ≡ 8)
    × (issued 3 s.calls ≡ 8)
    × (s.graph.rc ≡ 2)
    × (s.calls ≡ (after 7 3 2 start).calls ++ replicate 2 body)
pragma_taskgraphloop_n_exact_example =
    pragma_taskgraphloop_n_exact 7 (pos 0) no_clause 3 8 refl (omega arith) (omega arith)
