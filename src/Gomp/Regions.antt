-- ===== src/Gomp/Regions.antt =====
-- A region of the GNU compiler, src/gomp/parallel.cc over src/xkomp/parallel.cc.
use xkomp.Prelude.{ℕ, ◌≡◌, ◌≢◌, refl, Bool, false, some, List, [], ◌∷◌, ok}
use xkomp.Prelude.Int.{ℤ}
use xkomp.Team.Region.{Env, Desc, Entry, Event, requested_nthreads, parallel}
use xkomp.Team.Region.Cache.{Inv}
use xkomp.Team.Region.Runs.{top_region_runs, RunsOn, requested_nthreads-lt}
use xkomp.Sync.{Caller, team_barrier}
use xkomp.Gomp.{
  Wargs, Routine, implicit_task_begin, implicit_task_end, call, wait, wrapper, fork_call_wrapper,
  gomp_parallel,
}

module _ {F V : Type 0} (spawn : Desc (Wargs F V) Routine → Bool × ℤ) (env : Env) where
  -- Outside of any region and over a cache that satisfies the invariant, a call of GOMP_parallel
  -- that returns runs its routine once, on a team of as many threads as it asks for, where these are
  -- not 0; and each thread of a team with these arguments calls the function with its data, between
  -- the begin of its implicit task and the barrier before its end.
  pub gomp_parallel_runs :
      (es : List (Entry (Wargs F V) Routine)) (fn : F) (p : V) (asked : ℕ) (c : Caller)
      {es' : List (Entry (Wargs F V) Routine)} {evs : List (Event (Wargs F V) Routine)}
      → requested_nthreads env asked ≢ 0
      → Inv es
      → gomp_parallel spawn env false es fn p asked ≡ ok (es', evs)
      → (let args : Wargs F V = record { fn = fn; data_of = p } in
          RunsOn spawn env (requested_nthreads env asked) fork_call_wrapper args evs
          × (wrapper (some c) (some args)
              ≡ ok (
                  implicit_task_begin
                  ∷ call fn p
                  ∷ wait (team_barrier c.team)
                  ∷ implicit_task_end
                  ∷ [])))
  unfolding gomp_parallel wrapper parallel
  gomp_parallel_runs es fn p asked c z v h = (
    top_region_runs spawn env es (requested_nthreads env asked) fork_call_wrapper
        (record { fn = fn; data_of = p }) (requested_nthreads-lt env asked) z v h,
    refl,
  )
