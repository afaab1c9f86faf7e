-- ===== src/Examples/Calls.antt =====
-- The theorems on shared regions (src/kmp, src/gomp), copies (src/kmp/target/api.cc) and the numbers
-- of threads (src/api.cc) at small inputs.
use xkomp.Prelude.{
  ℕ, ◌≡◌, refl, arith, Bool, true, false, none, some, List, [], ◌∷◌, ◌==◌, if◌then◌else◌, ok, ◌>>=◌,
}
use xkomp.Prelude.Int.{ℤ, pos, to_i32}
use xkomp.Team.Region.{
  Env, Desc, Entry, Event, parallel_for, team_create, region_events, find_team, set_args,
  create_region, add_team, new_team, team_desc_init, top_region, parallel, requested_nthreads,
}
use xkomp.Team.Region.Cache.{Inv}
use xkomp.Sync.{Caller, kmpc_master, kmpc_masked, kmpc_single}
use xkomp.Sync.Members.{entered, entered_lem}
use xkomp.Gomp.{Wargs, Routine, fork_call_wrapper, gomp_parallel}
use xkomp.Target.{Request, kmp_target_memcpy_async, body_memcpy_async, target_memcpy}
use xkomp.Target.Copies.{async-sync}
use xkomp.Examples.Tasks.{two_deps}

abbrev member : ℕ → Caller
member i = record { tid = i; gtid = i; team = some 4 }

entered_lem_example :
    (entered (λ i. kmpc_masked (some (member i)) (pos 2)) 4 ≡ ok 1)
    × (entered (λ i. kmpc_master (some (member i))) 4
        ≡ entered (λ i. kmpc_masked (some (member i)) (pos 0)) 4)
    × (entered (λ i. kmpc_single (some (member i))) 4
        ≡ entered (λ i. kmpc_masked (some (member i)) (pos 0)) 4)
entered_lem_example = entered_lem member (λ i. refl) (pos 2) 4

-- From the second device to the host.
abbrev a_request : Request
a_request = record {
  dst = 4096;
  src = 8192;
  length = 64;
  dst_offset = 8;
  src_offset = 16;
  dst_device_num = pos 2;
  src_device_num = pos 1;
}

async-sync_example :
    (kmp_target_memcpy_async 8 3 a_request two_deps >>= λ t. ok (body_memcpy_async t))
    ≡ target_memcpy 3 a_request
async-sync_example = async-sync 8 3 a_request two_deps (omega arith) refl

abbrev four_threads : Env
four_threads = record { num_threads = pos 4; thread_limit = pos 8; places = none; proc_bind = none }

abbrev spawns : Desc (Wargs ℕ ℕ) Routine → Bool × ℤ
spawns d = (true, if d.nthreads == 0 then pos 6 else to_i32 d.nthreads)

abbrev new_entry : Entry (Wargs ℕ ℕ) Routine
new_entry = record {
  nthreads = to_i32 2;
  team = record {
    desc = team_desc_init four_threads 2 none parallel_for;
    has_threads = true;
    nthreads = to_i32 2;
  };
}

abbrev wargs : Wargs ℕ ℕ
wargs = record { fn = 11; data_of = 12 }

abbrev gomp_events : List (Event (Wargs ℕ ℕ) Routine)
gomp_events = team_create new_entry.team.desc ∷ region_events new_entry.team fork_call_wrapper wargs

first_call :
    gomp_parallel spawns four_threads false [] 11 12 2
    ≡ ok (set_args (new_entry ∷ []) 0 wargs, gomp_events)
unfolding gomp_parallel parallel requested_nthreads top_region create_region add_team new_team
    team_desc_init find_team set_args region_events
first_call = refl

no_entries-Inv : Inv {A = Wargs ℕ ℕ} {R = Routine} []
no_entries-Inv = record { bounded = omega arith; distinct = tt; entries = tt }
