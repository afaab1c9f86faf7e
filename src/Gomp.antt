-- ===== src/Gomp.antt =====
-- src/gomp/parallel.cc and src/gomp/task.cc: the entry points of the GNU compiler. `F` stands for
-- the functions that are outlined and `V` for the pointers to their data.
pub mod Regions
use xkomp.Prelude.{
  ℕ, Bool, Option, none, some, List, [], ◌∷◌, Outcome, ok, dies, fatal, undefined, ◌>>=◌,
}
use xkomp.Prelude.Int.{ℤ}
use xkomp.Team.Region.{Env, Desc, Entry, Event, parallel}
use xkomp.Sync.{Caller, present, Wait, team_barrier}

-- `wargs_t`
pub record Wargs (F V : Type 0) : Type 0 where
  pub fn : F
  pub data_of : V

pub data Routine : Type 0 where
  fork_call_wrapper : Routine

-- What a thread of the team does.
pub data ThreadEvent (F V : Type 0) : Type 0 where
  implicit_task_begin implicit_task_end : ThreadEvent F V
  call : F → V → ThreadEvent F V
  wait : Wait → ThreadEvent F V

module _ {F V : Type 0} where
  -- `fork_call_wrapper`, with the arguments that `thread->team->desc` holds.
  unfoldable pub wrapper : Option Caller → Option (Wargs F V) → Outcome (List (ThreadEvent F V))
  wrapper thread none = present thread >>= λ t. dies undefined
  wrapper thread (some w) = do
    t ← present thread
    ok (
        implicit_task_begin
        ∷ call w.fn w.data_of
        ∷ wait (team_barrier t.team)
        ∷ implicit_task_end
        ∷ [])

  -- `GOMP_parallel`; the flags are not read.
  unfoldable pub gomp_parallel :
      (Desc (Wargs F V) Routine → Bool × ℤ)
      → Env
      → Bool
      → List (Entry (Wargs F V) Routine)
      → F
      → V
      → ℕ
      → Outcome (List (Entry (Wargs F V) Routine) × List (Event (Wargs F V) Routine))
  gomp_parallel spawn env in_team teams fn data_ptr num_threads =
      parallel spawn env in_team teams num_threads fork_call_wrapper
        (record { fn = fn; data_of = data_ptr })

-- `GOMP_task` is not implemented.
unfoldable pub gomp_task {ℓ} : {A : Type ℓ} → Outcome A
gomp_task = dies fatal
