-- ===== src/Program.antt =====
-- The whole context of a program, `xkomp_t` of include/xkomp/xkomp.h, and the calls by which the
-- code that a compiler generates changes it, made one after another by any threads.
pub mod Sound
pub mod Room
pub mod Finish
pub mod Pushed
use Prim.Native.String.{String}
use xkomp.Prelude.{
  ℕ, ◌==◌, Bool, true, false, Option, List, [], ◌∷◌, ◌++◌, if◌then◌else◌, Outcome, ok, ◌>>=◌,
}
use xkomp.Prelude.Int.{ℤ}
use xkomp.Env.{Passes, PassTable}
use xkomp.Env.Init.{EnvVars, env_init, region_env}
use xkomp.Team.Region.{Desc, Entry, Event}
use xkomp.Fork.{Wargs, Routine, push_num_threads, fork_call}
use xkomp.Task.Format.{Formats, Kmp}
use xkomp.Task.Format.Register.{register_formats_kmp}
use xkomp.Task.Alloc.{
  Context, Request, Task, omp_task_alloc_with_deps, omp_target_task_alloc_with_deps,
  omp_target_task_alloc, omp_task_alloc,
}
use xkomp.Taskgraph.{Flags, Graph, taskgraph_begin, taskgraph_end}
use xkomp.Taskgraph as Taskgraph

-- The four entry points that allocate a task, with their numbers of dependences and clauses and
-- their devices.
pub data Entrance : Type 0 where
  host_with_deps : ℕ → ℕ → Entrance
  target_with_deps : ℕ → ℕ → ℤ → Entrance
  host_stock : Entrance
  target_stock : ℤ → Entrance

-- The calls that change the context; the first number is the calling thread. A fork tells whether
-- `malloc` gives it memory, and whether its thread is in a team.
pub data Call (V : Type 0) : Type 0 where
  push : ℕ → ℤ → Call V
  fork : ℕ → Bool → Bool → ℕ → List V → Call V
  alloc : Entrance → Context → ℕ → Request → Call V
  graph_begin : ℤ → Flags → Call V
  graph_end : Call V

-- What a call does besides.
pub data Effect (V : Type 0) : Type 0 where
  region : Bool → List (Event (Wargs V) Routine) → Effect V
  allocated : Task → Effect V
  graph_calls : List Taskgraph.Call → Effect V

module _ (X : Formats) where
  unfoldable pub enter_alloc : Entrance → Context → Kmp X → ℕ → Request → Outcome (Kmp X × Task)
  enter_alloc (host_with_deps ndeps nacs) c s place q =
      omp_task_alloc_with_deps X c s place q ndeps nacs
  enter_alloc (target_with_deps ndeps nacs device) c s place q =
      omp_target_task_alloc_with_deps X c s place q ndeps nacs device
  enter_alloc host_stock c s place q = omp_task_alloc X c s place q
  enter_alloc (target_stock device) c s place q = omp_target_task_alloc X c s place q device

-- `as_number` is how the graph library writes a set of passes.
module _ (X : Formats) (as_number : Passes → ℕ) {V : Type 0}
    (spawn : Desc (Wargs V) Routine → Bool × ℤ) where
  -- `xkomp_t`
  pub record Xkomp : Type 0 where
    pub formats : Kmp X
    pub target_memcpy_async : ℕ
    pub env : EnvVars
    pub graph : Graph
    pub teams : List (Entry (Wargs V) Routine)

  -- The context, and `pushed_num_threads` of each thread.
  pub record Process : Type 0 where
    pub xkomp : Xkomp
    pub pushed : ℕ → ℕ

  -- What `xkomp_get` leaves, over the table of formats that XKRT starts with.
  unfoldable pub new_process : X.Table → EnvVars → Process
  new_process t v =
      let (kmp, copy) = register_formats_kmp X t in
      record {
        xkomp = record {
          formats = kmp;
          target_memcpy_async = copy;
          env = v;
          graph = record { rc = 0 };
          teams = [];
        };
        pushed = λ i. 0;
      }

  unfoldable pub begin_program : PassTable → X.Table → (String → Option String) → Outcome Process
  unfolding new_process
  begin_program P t getenv = do v ← env_init P getenv; ok (new_process t v)

  abbrev pub write_pushed : ℕ → ℕ → (ℕ → ℕ) → ℕ → ℕ
  write_pushed me n pushed i = if i == me then n else pushed i

  unfoldable pub call : Call V → Process → Outcome (Process × List (Effect V))
  unfolding enter_alloc
  call (push me n) p = ok (record p { pushed = write_pushed me (push_num_threads n) p.pushed }, [])
  call (fork me given in_team argc va) p = do
    (teams', events, n) ←
        fork_call spawn (region_env p.xkomp.env) given in_team p.xkomp.teams (p.pushed me) argc va
    ok (
      record { xkomp = record p.xkomp { teams = teams' }; pushed = write_pushed me n p.pushed },
      region in_team events ∷ [],
    )
  call (alloc e c place q) p = do
    (formats', task) ← enter_alloc X e c p.xkomp.formats place q
    ok (record p { xkomp = record p.xkomp { formats = formats' } }, allocated task ∷ [])
  call (graph_begin graph_id flags) p = do
    (graph', calls) ←
        taskgraph_begin (as_number p.xkomp.env.taskgraph_opt) graph_id flags p.xkomp.graph
    ok (record p { xkomp = record p.xkomp { graph = graph' } }, graph_calls calls ∷ [])
  call graph_end p = ok (p, graph_calls (taskgraph_end p.xkomp.graph) ∷ [])

  unfoldable pub run : List (Call V) → Process → Outcome (Process × List (Effect V))
  run [] p = ok (p, [])
  run (c ∷ rest) p = do (p', now) ← call c p; (p'', later) ← run rest p'; ok (p'', now ++ later)
