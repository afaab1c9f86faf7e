-- ===== src/Api/First.antt =====
-- `xkomp_get` of src/api.cc called by several threads, one step of one thread after another: the
-- pointer is read and written with no lock.
pub mod Early
pub mod Late
use xkomp.Prelude.{
  ℕ, Bool, Option, none, some, List, [], ◌∷◌, ◌++◌, length, get_elem?, set, ◌==◌, if◌then◌else◌,
  Outcome, ok, dies, undefined, check, ◌>>=◌, ◌>>◌,
}
use xkomp.Api.{
  SetUp, new_formats, lock_formats, connect_ompt, init_runtime, init_env, register_formats,
  new_taskgraphs, new_teams,
}

-- Where a thread stands: before the test, after it found NULL, in the steps that are left, and at
-- the end, with the context that it is given.
pub data Progress : Type 0 where
  calling seen_null : Progress
  building : List SetUp → Progress
  given : ℕ → Progress

-- The static pointer `xkomp`, and the contexts that have been allocated, each with the steps of its
-- set-up that have been made.
pub record Contexts : Type 0 where
  pub pointer : Option ℕ
  pub built : List (List SetUp)

unfoldable pub set_up_steps : List SetUp
set_up_steps =
    new_formats ∷ lock_formats ∷ connect_ompt ∷ init_runtime ∷ init_env ∷ register_formats
    ∷ new_taskgraphs ∷ new_teams ∷ []

unfoldable pub test_pointer : Option ℕ → Progress
test_pointer none = seen_null
test_pointer (some c) = given c

-- `xkomp = malloc(...)` with its assertion: `memory` is whether there is memory for a context.
unfoldable pub allocate : Bool → Contexts → Outcome (Contexts × Progress)
unfolding set_up_steps
allocate memory s = do
  check memory
  ok (record { pointer = some (length s.built); built = s.built ++ [] ∷ [] }, building set_up_steps)

unfoldable pub add_step : SetUp → ℕ → List (List SetUp) → Outcome (List (List SetUp))
add_step a c built = elim (get_elem? built c) [
  | none ↦ dies undefined
  | some steps ↦ ok (set built c (steps ++ a ∷ []))
]

-- A step of the set-up goes through the pointer, and so does the return.
unfoldable pub build_step : List SetUp → Contexts → Option ℕ → Outcome (Contexts × Progress)
unfolding add_step
build_step left s none = dies undefined
build_step [] s (some c) = ok (s, given c)
build_step (a ∷ left) s (some c) = do
  built' ← add_step a c s.built
  ok (record { pointer = s.pointer; built = built' }, building left)

unfoldable pub get_step : Bool → Contexts → Progress → Outcome (Contexts × Progress)
get_step memory s calling = ok (s, test_pointer s.pointer)
get_step memory s seen_null = allocate memory s
get_step memory s (building left) = build_step left s s.pointer
get_step memory s (given c) = ok (s, given c)

pub record Threads : Type 0 where
  pub contexts : Contexts
  pub points : ℕ → Progress

abbrev pub stepped : Threads → ℕ → Contexts × Progress → Threads
stepped w i r = record { contexts = r.0; points = λ j. if j == i then r.1 else w.points j }

unfoldable pub interleave : Bool → List ℕ → Threads → Outcome Threads
interleave memory [] w = ok w
interleave memory (i ∷ rest) w =
    (get_step memory w.contexts (w.points i) >>= λ r. ok (stepped w i r)) >>= interleave memory rest

-- No thread has called yet.
abbrev pub all_calling : Threads
all_calling = record { contexts = record { pointer = none; built = [] }; points = λ i. calling }
