-- ===== src/Api.antt =====
-- src/api.cc: the one context of the program, and the functions on threads of the OpenMP API.
pub mod Threads
pub mod First
use xkomp.Prelude.{
  ℕ, Bool, true, false, Option, none, some, List, [], ◌∷◌, get_elem?, if◌then◌else◌, Outcome, ok,
  dies, undefined, assertion, check, ◌>>=◌, ◌>>◌,
}
use xkomp.Prelude.Int.{ℤ, pos, ◌==ℤ◌, ltb_ℤ}
use xkomp.Task.Access.{Slot, Access, Region, inert, handle, segment}
use xkomp.Team.Region.{Env}
use xkomp.Sync.{Caller, present}

-- The steps of the first call, in order: the members that are built in place, the lock, the OMPT
-- bridge, the runtime, the environment and the formats of tasks.
pub data SetUp : Type 0 where
  new_formats lock_formats connect_ompt init_runtime init_env register_formats : SetUp
  new_taskgraphs new_teams : SetUp

-- `xkomp_get`: whether there is a context, and the steps. `allocated` is whether `malloc` gives one.
unfoldable pub xkomp_get : Bool → Bool → Outcome (Bool × List SetUp)
xkomp_get allocated true = ok (true, [])
xkomp_get allocated false = do
  check allocated
  ok (
    true,
    new_formats ∷ lock_formats ∷ connect_ompt ∷ init_runtime ∷ init_env ∷ register_formats
        ∷ new_taskgraphs ∷ new_teams ∷ [],
  )

unfoldable pub get_thread_num : Option Caller → Outcome ℕ
get_thread_num tls = do t ← present tls; ok t.tid

abbrev or_one : Option ℕ → ℕ
or_one none = 1
or_one (some n) = n

unfoldable pub get_num_threads : Option Caller → Outcome ℕ
get_num_threads tls = do t ← present tls; ok (or_one t.team)

-- MIN
abbrev pub min_ℤ : ℤ → ℤ → ℤ
min_ℤ a b = if ltb_ℤ a b then a else b

-- `cores` is what hwloc counts.
unfoldable pub get_max_threads : ℤ → Env → ℤ
get_max_threads cores env =
    min_ℤ (if env.num_threads ==ℤ pos 0 then cores else env.num_threads) env.thread_limit

abbrev is_segment : Region → Bool
is_segment (segment a n size) = true
is_segment _ = false

abbrev read_slot : Option Slot → Outcome Access
read_slot none = dies undefined
read_slot (some none) = dies undefined
read_slot (some (some a)) = ok a

-- `xkomp_access_pointer` of an access of a task, by an index that is not negative; `device_view` is
-- the address that XKRT has put there.
unfoldable pub access_pointer : (ℕ → ℕ) → Option (Bool × List Slot) → ℕ → Outcome ℕ
access_pointer device_view current_task idx = do
  (has_accesses, slots) ← present current_task
  check has_accesses
  a ← read_slot (get_elem? slots idx)
  check (is_segment a.region)
  ok (device_view idx)
