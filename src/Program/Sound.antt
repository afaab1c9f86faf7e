-- ===== src/Program/Sound.antt =====
-- The invariant of the whole context (include/xkomp/xkomp.h): what the parts keep, they keep in
-- every run of a program, whatever the calls of the other parts between theirs.
pub mod Tasks
pub mod Regions
use mathlib.Core.List.{append_assoc, append-nil, map-append}
use xkomp.Prelude.{
  ℕ, ◌≡◌, ◌≤◌, refl, sym, ap, ◌∙◌, subst, arith, Bool, true, false, List, [], ◌∷◌, ◌++◌, map,
  Option, length, length-map, Outcome, ok, ◌>>=◌, Allows, Allows->>=, Allows-of, Allows-any,
  Allows-map, Returns-Allows, check, leb,
}
use xkomp.Prelude.Int.{ℤ, to_i32}
use xkomp.Env.{Passes, PassTable}
use xkomp.Env.Init.{EnvVars, env_init, region_env}
use Prim.Native.String.{String}
use xkomp.Team.Region.{Env, Desc, Entry, Event, parallel, requested_nthreads, max_cached_teams}
use xkomp.Team.Region.Cache.{Inv, counts, Distinct, top_region-Inv}
use xkomp.Team.Region.Runs.{created, created-top_region, requested_nthreads-lt}
use xkomp.Fork.{Wargs, Routine, fork_call_wrapper, microtask_max_args, va_args, fork_call}
use xkomp.Device.{omp_device_id_to_xkomp}
use xkomp.Task.Format.{Formats, Kmp, get_or_create}
use xkomp.Task.Format.Register.{Construct}
use xkomp.Task.Format.Register.Bodies.{
  register_formats_kmp-Registered, Names, AllName, Registered, Grows, Given, Names-Grows,
  get_or_create-Given,
}
use xkomp.Task.Layout.{ktask_from_args}
use xkomp.Task.Alloc.{
  Context, Request, Task, chosen_device, karg_slots, new_task, task_alloc, stock, untied, padded,
  fixed_accesses, omp_task_alloc_with_deps, omp_target_task_alloc_with_deps, omp_target_task_alloc,
  omp_task_alloc,
}
use xkomp.Taskgraph.{Flags, Graph, taskgraph_begin}
use xkomp.Taskgraph as Taskgraph
use xkomp.Program.{
  Entrance, host_with_deps, target_with_deps, host_stock, target_stock, Call, push, fork, alloc,
  graph_begin, graph_end, Effect, region, allocated, graph_calls, Process, new_process,
  begin_program, enter_alloc, call, run,
}
use xkomp.Program.Sound.Tasks.{
  Allocated, enter_alloc-Allocated, AllName-Grows, AllName-append, formats_in, formats_in-append,
}
use xkomp.Program.Sound.Regions.{teams_in, teams_in-append, Cached, fork_call-Cached}

module _ (X : Formats) (as_number : Passes → ℕ) {V : Type 0}
    (spawn : Desc (Wargs V) Routine → Bool × ℤ) where
  -- The context after `done`.
  pub record Sound (p : Process X as_number spawn) (done : List (Effect V)) : Type 0 where
    pub teams : Inv p.xkomp.teams
    pub cached : counts p.xkomp.teams ≡ map to_i32 (teams_in done)
    pub formats : Registered X p.xkomp.formats
    pub tasks : AllName X p.xkomp.formats.table (formats_in done)

  -- What follows a call, after `done`.
  abbrev Stays : List (Effect V) → Process X as_number spawn × List (Effect V) → Type 0
  Stays done r = Sound r.0 (done ++ r.1)

  graph-Sound :
      (p : Process X as_number spawn) (done : List (Effect V)) (g : Graph)
      (calls : List Taskgraph.Call)
      → Sound p done
      → Sound (record p { xkomp = record p.xkomp { graph = g } }) (done ++ graph_calls calls ∷ [])
  graph-Sound p done g calls v = record {
    teams = v.teams;
    cached =
        rw (teams_in-append done (graph_calls calls ∷ []), append-nil (teams_in done)) v.cached;
    formats = v.formats;
    tasks =
        rw (formats_in-append done (graph_calls calls ∷ []), append-nil (formats_in done)) v.tasks;
  }

  pub call-Sound :
      (c : Call V) (p : Process X as_number spawn) (done : List (Effect V))
      → Sound p done
      → Allows (Stays done) (call X as_number spawn c p)
  unfolding call
  call-Sound (push me n) p done v = record {
    teams = v.teams;
    cached = rw (append-nil done) v.cached;
    formats = v.formats;
    tasks = rw (append-nil done) v.tasks;
  }
  call-Sound (fork me given in_team argc va) p done v =
      Allows->>= (Stays done)
        (fork_call spawn (region_env p.xkomp.env) given in_team p.xkomp.teams (p.pushed me) argc va)
        _
        (fork_call-Cached spawn (region_env p.xkomp.env) given in_team p.xkomp.teams (p.pushed me)
          argc va v.teams)
        (λ r kept. record {
          teams = kept.0;
          cached =
              kept.1
              ∙ rw (v.cached, teams_in-append done (region in_team r.1 ∷ []))
                  (sym (map-append to_i32 (teams_in done) _));
          formats = v.formats;
          tasks =
              rw (formats_in-append done (region in_team r.1 ∷ []), append-nil (formats_in done))
                v.tasks;
        })
  call-Sound (alloc e c place q) p done v =
      Allows->>= (Stays done) (enter_alloc X e c p.xkomp.formats place q) _
        (enter_alloc-Allocated X e c p.xkomp.formats place q v.formats)
        (λ r given. record {
          teams = v.teams;
          cached =
              rw (teams_in-append done (allocated r.1 ∷ []), append-nil (teams_in done)) v.cached;
          formats = given.0;
          tasks = rw (formats_in-append done (allocated r.1 ∷ [])) (
              AllName-append X r.0.table (formats_in done) (r.1.format ∷ [])
                (AllName-Grows X _ r.0.table (formats_in done) given.2 v.tasks) (given.1, tt));
        })
  call-Sound (graph_begin graph_id flags) p done v =
      Allows->>= (Stays done)
        (taskgraph_begin (as_number p.xkomp.env.taskgraph_opt) graph_id flags p.xkomp.graph) _
        (Allows-any _) (λ r _. graph-Sound p done r.0 r.1 v)
  call-Sound graph_end p done v = graph-Sound p done p.xkomp.graph _ v

  run-Sound :
      (cs : List (Call V)) (p : Process X as_number spawn) (done : List (Effect V))
      → Sound p done
      → Allows (Stays done) (run X as_number spawn cs p)
  unfolding run
  run-Sound [] p done v = subst (Sound p) (sym (append-nil done)) v
  run-Sound (c ∷ rest) p done v =
      Allows->>= (Stays done) (call X as_number spawn c p) _ (call-Sound c p done v)
        (λ (p', now) v'.
          Allows->>= (Stays done) (run X as_number spawn rest p') _
            (run-Sound rest p' (done ++ now) v')
            (λ (p'', later) v''. subst (Sound p'') (append_assoc done now later) v''))

  pub new_process-Sound : (t : X.Table) (v : EnvVars) → Sound (new_process X as_number spawn t v) []
  unfolding new_process
  new_process-Sound t v = record {
    teams = record { bounded = omega arith; distinct = tt; entries = tt };
    cached = refl;
    formats = register_formats_kmp-Registered X t;
    tasks = tt;
  }

  abbrev pub Whole : Process X as_number spawn × List (Effect V) → Type 0
  Whole (p, done) =
      AllName X p.xkomp.formats.table (formats_in done)
      × (counts p.xkomp.teams ≡ map to_i32 (teams_in done))
      × Distinct (map to_i32 (teams_in done))
      × (length (teams_in done) ≤ max_cached_teams)

  pub Sound-Whole :
      (p : Process X as_number spawn) (done : List (Effect V)) → Sound p done → Whole (p, done)
  Sound-Whole p done v = (
    v.tasks,
    v.cached,
    subst Distinct v.cached v.teams.distinct,
    omega (
      arith,
      v.teams.bounded,
      ap length v.cached,
      length-map (λ (e : Entry (Wargs V) Routine). e.nthreads) p.xkomp.teams,
      length-map to_i32 (teams_in done),
    ),
  )

  -- The environment is read and the context set up, and then the program makes any calls, in any
  -- order and by any threads. Where none of them ends the program, each task that was allocated has
  -- a format that is in the table in the end and runs the bodies of tasks, whatever was allocated
  -- after it; and the cache holds one team for each one that was created outside of teams, in order,
  -- no two for one number of threads, at most eight.
  pub program_lem :
      (P : PassTable) (t : X.Table) (getenv : String → Option String) (cs : List (Call V))
      → Allows Whole (begin_program X as_number spawn P t getenv >>= run X as_number spawn cs)
  unfolding begin_program
  program_lem P t getenv cs =
      Allows->>= Whole (env_init P getenv >>= λ v. ok (new_process X as_number spawn t v)) _
        (Allows->>= (λ p. Sound p []) (env_init P getenv) _ (Allows-any _)
          (λ v _. new_process-Sound t v))
        (λ p v.
          Allows-map (λ r. Sound r.0 ([] ++ r.1)) Whole (λ r v'. Sound-Whole r.0 r.1 v') _
            (run-Sound cs p [] v))
