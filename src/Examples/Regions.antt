-- ===== src/Examples/Regions.antt =====
-- The theorems on parallel regions (src/xkomp/parallel.cc) at a few regions.
use Prim.Native.String.{String}
use xkomp.Prelude.{
  ℕ, ◌==◌, ◌≡◌, ◌≢◌, ◌↔◌, refl, arith, Bool, true, false, none, some, List, [], ◌∷◌, ◌++◌,
  if◌then◌else◌, ok,
}
use xkomp.Prelude.Int.{ℤ, pos, to_i32}
use xkomp.Team.Places.{
  Places, thread, core, l1, l2, l3, numa, device, socket, machine, spread, parse_proc_bind,
  places_name, parse_proc_bind_iff,
}
use xkomp.Team.Region.{
  Env, parallel_for, Desc, Team, Entry, Event, team_create, parallel_begin, team_parallel_for,
  parallel_end, find_team, with_args, set_args, region_events, create_region, add_team, new_team,
  team_desc_init, top_region, parallel, run, requested_nthreads,
}
use xkomp.Team.Region.Cache.{Inv, top_region-Inv}
use xkomp.Team.Region.Reuse.{top_region-top_region}
use xkomp.Team.Region.Runs.{RunsOn, top_region_runs}
use xkomp.Team.Region.Limit.{Spawns, default_region_unlimited}

-- A machine with six threads, and an environment that limits a region to four.
abbrev six_threads : Desc ℕ ℕ → Bool × ℤ
six_threads d = (true, if d.nthreads == 0 then pos 6 else to_i32 d.nthreads)

abbrev limited : Env
limited = record { num_threads = pos 0; thread_limit = pos 4; places = none; proc_bind = none }

empty_cache-Inv : Inv {A = ℕ} {R = ℕ} []
empty_cache-Inv = record { bounded = omega arith; distinct = tt; entries = tt }

abbrev entry_of : ℕ → Entry ℕ ℕ
entry_of n = record {
  nthreads = to_i32 n;
  team = record {
    desc = team_desc_init limited n none parallel_for;
    has_threads = true;
    nthreads = to_i32 n;
  };
}

-- The cache after a region on two threads with the arguments 7.
abbrev two_threads : List (Entry ℕ ℕ)
two_threads = set_args (entry_of 2 ∷ []) 0 7

abbrev first_events : List (Event ℕ ℕ)
first_events = team_create (entry_of 2).team.desc ∷ region_events (entry_of 2).team 9 7

first_region : top_region six_threads limited [] 2 9 7 ≡ ok (two_threads, first_events)
unfolding top_region create_region add_team new_team team_desc_init find_team set_args region_events
first_region = refl

top_region-Inv_example : Inv two_threads
top_region-Inv_example =
    top_region-Inv six_threads limited [] 2 9 7 (omega arith) empty_cache-Inv first_region

top_region_runs_example : RunsOn six_threads limited 2 9 7 first_events
top_region_runs_example =
    top_region_runs six_threads limited [] 2 9 7 (omega arith) (omega arith) empty_cache-Inv
      first_region

top_region-top_region_example :
    (i : ℕ) × (t : Team ℕ ℕ) × (find_team two_threads 2 ≡ some (i, with_args t 7))
    × (top_region six_threads limited two_threads 2 5 8
        ≡ ok (set_args two_threads i 8, region_events t 5 8))
top_region-top_region_example = top_region-top_region six_threads limited [] 2 9 5 7 8 first_region

-- Two regions on two threads and one on as many as XKRT chooses.
abbrev three_regions : List (ℕ × ℕ × ℕ)
three_regions = (2, 9, 7) ∷ (0, 9, 8) ∷ (2, 5, 6) ∷ []

abbrev chosen_entry : Entry ℕ ℕ
chosen_entry = record {
  nthreads = pos 0;
  team = record {
    desc = team_desc_init limited 0 none parallel_for;
    has_threads = true;
    nthreads = pos 6;
  };
}

abbrev regions_left : List (Entry ℕ ℕ)
regions_left = set_args (set_args (two_threads ++ chosen_entry ∷ []) 1 8) 0 6

abbrev regions_seen : List (Event ℕ ℕ)
regions_seen =
    first_events
    ++ ((team_create chosen_entry.team.desc ∷ region_events chosen_entry.team 9 8)
        ++ region_events (entry_of 2).team 5 6)

regions_run : run six_threads limited [] three_regions ≡ ok (regions_left, regions_seen)
unfolding run parallel requested_nthreads top_region create_region add_team new_team team_desc_init
    find_team set_args region_events
regions_run = refl

Spawns-six : Spawns six_threads
Spawns-six d = (refl, λ h. ground arith)

abbrev full_cache : List (Entry ℕ ℕ)
full_cache =
    entry_of 1
    ∷ entry_of 2
    ∷ entry_of 3
    ∷ entry_of 4
    ∷ entry_of 5
    ∷ entry_of 6
    ∷ entry_of 7
    ∷ entry_of 8
    ∷ []

full_cache_misses : find_team full_cache 9 ≡ none
unfolding find_team
full_cache_misses = refl

default_six : six_threads (team_desc_init limited 0 none parallel_for) ≡ (true, to_i32 6)
unfolding team_desc_init
default_six = refl

-- Six threads, where the limit is four.
default_region_unlimited_example :
    (es : List (Entry ℕ ℕ)) × (t : Team ℕ ℕ) × (parallel six_threads limited false [] 0 9 7
      ≡ ok (
        es,
        team_create (team_desc_init limited 0 none parallel_for)
            ∷ parallel_begin 6
            ∷ team_parallel_for t 9
            ∷ parallel_end
            ∷ [],
      ))
default_region_unlimited_example =
    default_region_unlimited six_threads limited 9 7 6 refl (omega arith) default_six

other_name : (p : Places) → places_name p ≢ "x"
other_name thread e = cc
other_name core e = cc
other_name l1 e = cc
other_name l2 e = cc
other_name l3 e = cc
other_name numa e = cc
other_name device e = cc
other_name socket e = cc
other_name machine e = cc

parse_proc_bind_iff_example :
    (parse_proc_bind (some "spread") ≡ spread) ↔ (◌≡◌ {A = String} "spread" "spread")
parse_proc_bind_iff_example = parse_proc_bind_iff "spread"
