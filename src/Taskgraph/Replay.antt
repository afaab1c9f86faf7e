-- ===== src/Taskgraph/Replay.antt =====
-- What a graph's instances do, one after another.
use xkomp.Prelude.{
  ℕ, zero, suc, ◌+◌, ◌<◌, ◌≡◌, lt→ltb, refl, arith, Bool, true, false, ◌&&◌, not, List, [], ◌∷◌,
  ◌++◌, replicate, Outcome, ok, dies, fatal, ◌>>=◌, ◌==◌, if◌then◌else◌,
}
use xkomp.Prelude.Int.{ℤ, pos, ◌==ℤ◌}
use xkomp.Taskgraph.{
  Flags, Graph, Call, int_mod, record_start, record_stop, build, optimize, replay, coherence_checks,
  taskgraph_begin, taskgraph_end, pragma_taskgraph,
}

abbrev pub supported : ℤ → Flags → Bool
supported graph_id flags =
    (graph_id ==ℤ pos 0) && (not flags.reset && (not flags.if_ && not flags.nogroup))

-- The one graph that is supported, with no clause.
pub coherence_checks_lem :
    (graph_id : ℤ) (flags : Flags)
    → coherence_checks graph_id flags ≡ (if supported graph_id flags then ok tt else dies fatal)
unfolding coherence_checks
coherence_checks_lem graph_id flags = ground arith

-- The calls of an instance of a graph that has been met `rc` times before.
abbrev pub instance_calls : ℕ → List Call → ℕ → List Call
instance_calls passes f zero = record_start ∷ f ++ record_stop ∷ []
instance_calls passes f (suc zero) = build ∷ optimize passes ∷ replay ∷ []
instance_calls passes f (suc (suc rc)) = replay ∷ []

later_instance : (rc k : ℕ) → rc ≡ suc (suc k) → ((suc rc == 1) ≡ false) × ((suc rc == 2) ≡ false)
later_instance rc k h = (ground arith, ground arith)

instance_at :
    (passes : ℕ) (graph_id : ℤ) (flags : Flags) (f : List Call) (rc : ℕ)
    → supported graph_id flags ≡ true
    → suc rc < int_mod
    → pragma_taskgraph passes graph_id flags f (record { rc = rc })
      ≡ ok (record { rc = suc rc }, instance_calls passes f rc)
unfolding pragma_taskgraph taskgraph_begin taskgraph_end
instance_at passes graph_id flags f zero h w = rw (coherence_checks_lem graph_id flags, h) refl
instance_at passes graph_id flags f (suc zero) h w =
    rw (coherence_checks_lem graph_id flags, h) refl
instance_at passes graph_id flags f (suc (suc k)) h w =
    let (not_first, not_second) = later_instance (suc (suc k)) k refl in
    rw (coherence_checks_lem graph_id flags, h, lt→ltb (suc (suc (suc k))) int_mod w)
      (rw (not_first, not_second) (rw (not_first, taskgraph_end) refl))

-- An instance of the graph of id 0 with no clause that is not the 2 ^ 31th returns, and counts: the first one makes the
-- caller's calls inside a recording; the second one builds the graph of commands, optimizes and
-- replays it; each later one replays it alone.
pub pragma_taskgraph_lem :
    (passes : ℕ) (graph_id : ℤ) (flags : Flags) (f : List Call) (g : Graph)
    → supported graph_id flags ≡ true
    → suc g.rc < int_mod
    → pragma_taskgraph passes graph_id flags f g
      ≡ ok (record { rc = suc g.rc }, instance_calls passes f g.rc)
pragma_taskgraph_lem passes graph_id flags f g h w = instance_at passes graph_id flags f g.rc h w

-- An instance of a graph with a clause, or with an id other than 0, ends the program before any
-- call.
pub pragma_taskgraph_unsupported :
    (passes : ℕ) (graph_id : ℤ) (flags : Flags) (f : List Call) (g : Graph)
    → supported graph_id flags ≡ false
    → pragma_taskgraph passes graph_id flags f g ≡ dies fatal
unfolding pragma_taskgraph taskgraph_begin
pragma_taskgraph_unsupported passes graph_id flags f g h =
    rw (coherence_checks_lem graph_id flags, h)

-- Instances one after another.
abbrev pub instances : ℕ → ℤ → Flags → List Call → ℕ → Graph → Outcome (Graph × List Call)
instances passes graph_id flags f zero g = ok (g, [])
instances passes graph_id flags f (suc n) g = do
  (g', now) ← pragma_taskgraph passes graph_id flags f g
  (g'', next) ← instances passes graph_id flags f n g'
  ok (g'', now ++ next)

replays :
    (passes : ℕ) (graph_id : ℤ) (flags : Flags) (f : List Call) (n rc : ℕ)
    → supported graph_id flags ≡ true
    → suc (suc (rc + n)) < int_mod
    → instances passes graph_id flags f n (record { rc = suc (suc rc) })
      ≡ ok (record { rc = suc (suc (rc + n)) }, replicate n replay)
replays passes graph_id flags f zero rc h w =
    let counted : rc + 0 ≡ rc = omega arith in rw counted refl
replays passes graph_id flags f (suc n) rc h w =
    let counted : suc rc + n ≡ rc + suc n = omega arith in
    rw
      (
        instance_at passes graph_id flags f (suc (suc rc)) h (omega arith),
        replays passes graph_id flags f n (suc rc) h (omega arith),
        counted,
      )
      refl

-- `n + 2` instances of a new graph, fewer than 2 ^ 31: whatever the caller's calls are, they are made once, while the
-- graph is recorded, the graph of commands is built and optimized once, before its first replay,
-- and it is replayed `n + 1` times.
pub instances_lem :
    (passes : ℕ) (graph_id : ℤ) (flags : Flags) (f : List Call) (n : ℕ)
    → supported graph_id flags ≡ true
    → suc (suc n) < int_mod
    → instances passes graph_id flags f (suc (suc n)) (record { rc = 0 })
      ≡ ok (
        record { rc = suc (suc n) },
        (record_start ∷ f ++ record_stop ∷ [])
            ++ build ∷ optimize passes ∷ replay ∷ replicate n replay,
      )
instances_lem passes graph_id flags f n h w =
    let counted : 0 + n ≡ n = omega arith in
    rw (instance_at passes graph_id flags f 0 h (omega arith)) (
      rw (instance_at passes graph_id flags f 1 h (omega arith))
        (rw (replays passes graph_id flags f n 0 h (omega arith), counted) refl))
