-- ===== src/Team/Region.antt =====
-- `xkomp_parallel` of src/xkomp/parallel.cc over the cache of teams in include/xkomp/xkomp.h.
-- `A` stands for the pointers to a region's arguments and `R` for its routines. What XKRT does with
-- a team is a parameter; the calls made to it are recorded in order, as a list of events.
pub mod Cache
pub mod Search
pub mod Reuse
pub mod Runs
pub mod Limit
use Prim.Native.String.{String}
use xkomp.Prelude.{
  ℕ, zero, suc, ◌==◌, ltb, Bool, true, false, ◌||◌, Option, none, some, List, [], ◌∷◌, ◌++◌, length,
  set, get_elem?, if◌then◌else◌, Outcome, ok, check, ◌>>=◌, ◌>>◌,
}
use xkomp.Prelude.Int.{ℤ, pos, ◌==ℤ◌, to_u32, to_i32}
use xkomp.Team.Places.{Places, Mode, parse_places, parse_proc_bind}

-- The fields of `xkomp_env_t` that a region reads.
pub record Env : Type 0 where
  pub num_threads : ℤ
  pub thread_limit : ℤ
  pub places : Option String
  pub proc_bind : Option String

-- What the threads of a team do: wait for loops to share, or run a routine.
pub data Routine (R : Type 0) : Type 0 where
  parallel_for : Routine R
  routine : R → Routine R

-- `team->desc`, with its binding. `nplaces` is 0 and `places_list` is null in every team.
pub record Desc (A R : Type 0) : Type 0 where
  pub mode : Mode
  pub places : Places
  pub master_is_member : Bool
  pub nthreads : ℕ
  pub args : Option A
  pub routine : Routine R

-- The part of `team->priv` that is read: the threads that exist.
pub record Team (A R : Type 0) : Type 0 where
  pub desc : Desc A R
  pub has_threads : Bool
  pub nthreads : ℤ

pub record Entry (A R : Type 0) : Type 0 where
  pub nthreads : ℤ
  pub team : Team A R

pub data Event (A R : Type 0) : Type 0 where
  team_create : Desc A R → Event A R
  team_join : Event A R
  -- runs the routine on every thread of a team whose arguments are given
  team_parallel_for : Team A R → R → Event A R
  parallel_begin : ℕ → Event A R
  parallel_end : Event A R

abbrev pub max_cached_teams : ℕ
max_cached_teams = 8

-- The conversions are those of C++: the limit is compared as an unsigned number.
unfoldable pub requested_nthreads : Env → ℕ → ℕ
requested_nthreads env nthreads =
    let n =
      if nthreads == 0
      then (if env.num_threads ==ℤ pos 0 then 0 else to_u32 env.num_threads)
      else nthreads in
    if ltb (to_u32 env.thread_limit) n then to_u32 env.thread_limit else n

module _ {A R : Type 0} where
  -- `args` and `routine` are set by the callers.
  unfoldable pub team_desc_init : Env → ℕ → Option A → Routine R → Desc A R
  team_desc_init env nthreads args r = record {
    mode = parse_proc_bind env.proc_bind;
    places = parse_places env.places;
    master_is_member = true;
    nthreads = nthreads;
    args = args;
    routine = r;
  }

  unfoldable pub later : Option (ℕ × Team A R) → Option (ℕ × Team A R)
  later none = none
  later (some (i, t)) = some (suc i, t)

  -- The loop over the cache: the first entry with that many threads, its index and its team.
  unfoldable pub find_team : List (Entry A R) → ℕ → Option (ℕ × Team A R)
  unfolding later
  find_team [] n = none
  find_team (e ∷ es) n =
      if e.nthreads ==ℤ to_i32 n then some (0, e.team) else later (find_team es n)

  abbrev pub with_args : Team A R → A → Team A R
  with_args t args = record t { desc = record t.desc { args = some args } }

  -- `team->desc.args = args` for the team in entry `i`.
  unfoldable pub set_args : List (Entry A R) → ℕ → A → List (Entry A R)
  set_args [] i args = []
  set_args (e ∷ es) zero args = record e { team = with_args e.team args } ∷ es
  set_args (e ∷ es) (suc i) args = e ∷ set_args es i args

  -- The calls that run a region on a cached team.
  unfoldable pub region_events : Team A R → R → A → List (Event A R)
  region_events t r args =
      parallel_begin (to_u32 t.nthreads)
      ∷ team_parallel_for (with_args t args) r
      ∷ parallel_end
      ∷ []

  -- A nested region: a team of one thread for this region alone.
  unfoldable pub nested_events : Env → R → A → List (Event A R)
  unfolding team_desc_init
  nested_events env r args =
      parallel_begin 1
      ∷ team_create (team_desc_init env 1 (some args) (routine r))
      ∷ team_join
      ∷ parallel_end
      ∷ []

-- `spawn d` is what `team_create` leaves in `priv` of a team with the description `d`: whether
-- there is an array of threads, and how many threads there are.
module _ {A R : Type 0} (spawn : Desc A R → Bool × ℤ) where
  unfoldable pub new_team : Env → ℕ → Team A R
  unfolding team_desc_init
  new_team env n =
      let d = team_desc_init env n none parallel_for in
      record { desc = d; has_threads = (spawn d).0; nthreads = (spawn d).1 }

  -- The branch `team == NULL`: the new team takes the next entry of the vector.
  unfoldable pub add_team : Env → List (Entry A R) → ℕ → Outcome (List (Entry A R) × Team A R)
  add_team env teams n = do
    check (ltb (length teams) max_cached_teams)
    check (new_team env n).has_threads
    check (n == 0 || (new_team env n).nthreads ==ℤ to_i32 n)
    ok (teams ++ record { nthreads = to_i32 n; team = new_team env n } ∷ [], new_team env n)

  -- The first region with `n` threads: its team is created, and then used.
  unfoldable pub create_region :
      Env → List (Entry A R) → ℕ → R → A → Outcome (List (Entry A R) × List (Event A R))
  create_region env teams n r args = do
    (teams', t) ← add_team env teams n
    ok (set_args teams' (length teams) args, team_create t.desc ∷ region_events t r args)

  -- A top-level region of `n` threads.
  unfoldable pub top_region :
      Env → List (Entry A R) → ℕ → R → A → Outcome (List (Entry A R) × List (Event A R))
  top_region env teams n r args = elim (find_team teams n) [
    | some (i, t) ↦ ok (set_args teams i args, region_events t r args)
    | none ↦ create_region env teams n r args
  ]

  -- `in_team` is `tls->team != NULL`.
  unfoldable pub parallel :
      Env → Bool → List (Entry A R) → ℕ → R → A → Outcome (List (Entry A R) × List (Event A R))
  parallel env in_team teams nthreads r args =
      let n = requested_nthreads env nthreads in
      if in_team then ok (teams, nested_events env r args) else top_region env teams n r args

  -- Top-level regions one after another, each with its `num_threads`.
  unfoldable pub run :
      Env → List (Entry A R) → List (ℕ × R × A) → Outcome (List (Entry A R) × List (Event A R))
  run env teams [] = ok (teams, [])
  run env teams ((nthreads, r, args) ∷ rest) = do
    (teams', now) ← parallel env false teams nthreads r args
    (teams'', later_events) ← run env teams' rest
    ok (teams'', now ++ later_events)
