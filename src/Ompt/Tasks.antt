-- ===== src/Ompt/Tasks.antt =====
-- The events of tasks of src/ompt/ompt.cc, and the dependences that the tool is told of.
pub mod Told
use xkomp.Prelude.{
  ℕ, ◌+◌, Bool, true, false, ◌&&◌, ◌||◌, Option, none, some, List, [], ◌∷◌, ◌==◌, if◌then◌else◌,
  Outcome, ok, dies, undefined, ◌>>=◌,
}
use xkomp.Ompt.{
  Bridge, Thread, Data, ToolCode, Dependence, Datum, thread_datum, team_datum, task_datum,
  task_create_args, task_schedule_args, dependences_args, ompt_call, callback_at, renewed,
}
use xkomp.Task.Access.{
  Access, Mode, Region, inert, handle, segment, Concurrency, sequential, concurrent, commutative,
  Slot,
}

-- A task of XKRT as these events read it.
pub record TaskInfo : Type 0 where
  pub id : ℕ
  pub undeferable : Bool
  pub has_accesses : Bool
  pub parent : Option ℕ

-- `ompt_task_flag_t` and `ompt_task_status_t`.
abbrev pub task_explicit : ℕ
task_explicit = 4

abbrev pub task_undeferred : ℕ
task_undeferred = 134217728

abbrev pub task_switch : ℕ
task_switch = 7

abbrev pub datum_of_task : Option ℕ → Option Datum
datum_of_task none = none
datum_of_task (some t) = some (task_datum t)

-- The flags are two bits, so that `|=` adds.
unfoldable pub on_task_create : ToolCode → TaskInfo → Bridge → Bridge
on_task_create T task s =
    let flags = if task.undeferable then task_explicit + task_undeferred else task_explicit in
    let has_deps = if task.has_accesses then 1 else 0 in
    ompt_call T 5 (task_create_args (datum_of_task task.parent) (task_datum task.id) flags has_deps)
      (renewed (task_datum task.id) s)

unfoldable pub on_task_schedule : ToolCode → Option ℕ → Option ℕ → Bridge → Bridge
on_task_schedule T prev next s =
    ompt_call T 6 (task_schedule_args (datum_of_task prev) task_switch (datum_of_task next)) s

unfoldable pub on_task_complete : Bridge → Bridge
on_task_complete s = s

-- `ompt_dependence_type_t`: in, out, inout, mutexinoutset and inoutset.
abbrev pub type_in : ℕ
type_in = 1

abbrev pub type_out : ℕ
type_out = 2

abbrev pub type_inout : ℕ
type_inout = 3

abbrev pub type_mutexinoutset : ℕ
type_mutexinoutset = 4

abbrev pub type_inoutset : ℕ
type_inoutset = 7

abbrev written : Concurrency → ℕ
written sequential = type_out
written concurrent = type_inoutset
written commutative = type_mutexinoutset

-- `xkrt_access_to_ompt_dependence`
unfoldable pub access_to_dependence : Access → ℕ
access_to_dependence a =
    if a.mode.r && a.mode.w then type_inout else if a.mode.w then written a.concurrency else type_in

abbrev address_of : Region → ℕ
address_of inert = 0
address_of (handle h) = h
address_of (segment a n size) = a

-- `xkrt_access_address`; no access of the program is a matrix.
unfoldable pub access_address : Access → ℕ
access_address a = address_of a.region

abbrev pub dependence_of : Access → Dependence
dependence_of a = record { variable = access_address a; dependence_type = access_to_dependence a }

-- The loop over the accesses, where each is read: a slot with no access is not defined.
unfoldable pub dependences : List Slot → Outcome (List Dependence)
unfolding access_address access_to_dependence
dependences [] = ok []
dependences (none ∷ slots) = dies undefined
dependences (some a ∷ slots) = dependences slots >>= λ ds. ok (dependence_of a ∷ ds)

-- `allocated` is whether `malloc` has given the array.
unfoldable pub on_task_accesses : ToolCode → Bool → ℕ → List Slot → Bridge → Outcome Bridge
on_task_accesses T allocated task [] s = ok s
on_task_accesses T allocated task (a ∷ slots) s =
    if callback_at s.callbacks 18 == 0
    then ok s
    else if allocated
    then (dependences (a ∷ slots) >>= λ ds.
        ok (ompt_call T 18 (dependences_args (task_datum task) ds) s))
    else ok s
