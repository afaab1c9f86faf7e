-- ===== src/Sync.antt =====
-- The constructs that only some of the threads of a team run, or that threads wait at:
-- src/kmp/master.cc, single.cc, barrier.cc, thread.cc, for.cc and allocator.cc, and their GNU forms
-- in src/gomp. The calling thread is what `thread_t::get_tls()` returns, none for a null pointer.
pub mod Members
pub mod Schedules
use xkomp.Prelude.{
  ℕ, ◌≤◌, Bool, true, false, Option, none, some, List, [], ◌∷◌, ◌==◌, if◌then◌else◌, Outcome, ok,
  dies, fatal, assertion, check, ◌>>=◌, ◌>>◌,
}
use xkomp.Prelude.Int.{ℤ, pos, ◌==ℤ◌}

-- A thread: its numbers in its team and in the program, and the threads of its team, if it has one.
pub record Caller : Type 0 where
  pub tid : ℕ
  pub gtid : ℕ
  pub team : Option ℕ

-- `assert(tls)`
abbrev pub present {ℓ} : {A : Type ℓ} → Option A → Outcome A
present none = dies assertion
present (some a) = ok a

abbrev as_int : Bool → ℕ
as_int b = if b then 1 else 0

-- 1 where the thread runs the region.
unfoldable pub kmpc_master : Option Caller → Outcome ℕ
kmpc_master tls = do t ← present tls; ok (as_int (t.tid == 0))

unfoldable pub kmpc_masked : Option Caller → ℤ → Outcome ℕ
kmpc_masked tls filter = do t ← present tls; ok (as_int (pos t.tid ==ℤ filter))

unfoldable pub kmpc_single : Option Caller → Outcome ℕ
kmpc_single tls = do t ← present tls; ok (as_int (t.tid == 0))

-- `GOMP_single_start`
unfoldable pub gomp_single_start : Option Caller → Outcome Bool
gomp_single_start tls = do t ← present tls; ok (t.tid == 0)

-- What the thread waits for.
pub data Wait : Type 0 where
  task_wait : Wait
  team_barrier : Option ℕ → Wait

unfoldable pub end_single : List Wait
end_single = task_wait ∷ []

unfoldable pub kmpc_barrier : Option Caller → Outcome (List Wait)
kmpc_barrier tls = do t ← present tls; ok (team_barrier t.team ∷ [])

unfoldable pub gomp_taskwait : List Wait
gomp_taskwait = task_wait ∷ []

unfoldable pub global_thread_num : Option Caller → Outcome ℕ
global_thread_num tls = do t ← present tls; ok t.gtid

-- `kmp_sch_static`
abbrev pub sch_static : ℕ
sch_static = 34

-- What a loop that is shared statically has: the flag of the last iteration and the bounds.
pub record Bounds : Type 0 where
  pub lastiter : Bool
  pub lower : ℤ
  pub upper : ℤ

-- `__kmpc_for_static_init_4`, `_4u`, `_8` and `_8u`: XKRT computes the bounds of the thread.
unfoldable pub for_static_init : (ℤ → Bounds → Bounds) → ℕ → ℤ → Bounds → Outcome Bounds
for_static_init thread_bounds schedtype incr b = do
  check (schedtype == sch_static)
  ok (thread_bounds incr b)

-- `__kmpc_alloc`: the allocator is not looked at.
unfoldable pub kmpc_alloc : (ℕ → ℕ) → ℕ → ℕ → ℕ
kmpc_alloc malloc sz al = malloc sz

-- `__kmpc_omp_taskyield`: the result, and whether it has warned.
unfoldable pub omp_taskyield : Bool → ℕ × Bool
omp_taskyield warned = (0, true)
