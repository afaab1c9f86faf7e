-- ===== src/Ompt/Tasks/Told.antt =====
-- From the compiler's dependences (src/kmp/task.cc) to those that the tool is told of
-- (src/ompt/ompt.cc), by the accesses of XKRT.
use mathlib.Core.List.{append-nil}
use xkomp.Prelude.{
  ℕ, ◌≡◌, refl, ap, sym, ◌∙◌, arith, true, false, ◌||◌, none, List, [], ◌∷◌, map, length, replicate,
  length-replicate, ◌==◌, if◌then◌else◌, ok, ◌>>=◌,
}
use xkomp.Ompt.{Bridge, ToolCode, Dependence, callback_at, ompt_call, dependences_args, task_datum}
use xkomp.Ompt.Tasks.{
  on_task_accesses, dependences, dependence_of, access_address, access_to_dependence, type_in,
  type_out, type_inout, type_mutexinoutset, type_inoutset,
}
use xkomp.Task.Access.{Slot, Depend, DependFlags, depend_draft, deps_to_accesses}
use xkomp.Task.Submit.Slots.{no_null_dep}
use xkomp.Task.Access.DependSlots.{access_of, filled, any_all, deps_to_accesses_fills}

-- The kind of dependence that a tool expects, by the flags of the compiler: one that writes and is
-- not marked otherwise is out, or inout where it reads too.
abbrev pub kind_of : DependFlags → ℕ
kind_of f =
    if f.output || (f.mtx || f.inoutset)
    then (if f.input
        then type_inout
        else if f.inoutset
        then type_inoutset
        else if f.mtx
        then type_mutexinoutset
        else type_out)
    else type_in

abbrev pub told_of : Depend → Dependence
told_of d = record { variable = d.base_addr; dependence_type = kind_of d.flags }

access_to_dependence-access_of : (d : Depend) → access_to_dependence (access_of d) ≡ kind_of d.flags
unfolding access_to_dependence depend_draft
access_to_dependence-access_of d = ground arith

dependence_of-access_of : (d : Depend) → dependence_of (access_of d) ≡ told_of d
unfolding access_address
dependence_of-access_of d = rw (access_to_dependence-access_of d) refl

dependences-filled :
    (ds : List Depend)
    → no_null_dep ds ≡ true
    → dependences (filled (replicate (length ds) none) ds) ≡ ok (map told_of ds)
unfolding dependences
dependences-filled [] h = refl
dependences-filled (d ∷ ds) h =
    let here : (d.base_addr == 0) ≡ false = ground arith in
    rw (here, dependences-filled ds (ground arith), dependence_of-access_of d) refl

pub fills :
    (slots : List Slot) (ds : List Depend)
    → length slots ≡ length ds
    → any_all ds ≡ false
    → deps_to_accesses slots 0 ds ≡ ok (filled slots ds)
fills slots ds l h =
    ap (λ xs. deps_to_accesses xs 0 ds) (sym (append-nil slots))
    ∙ (deps_to_accesses_fills [] slots [] ds l h ∙ ap ok (append-nil (filled slots ds)))

-- Dependences, at least one, with a slot for each, all with an address and none on all memory, are
-- told to the tool in order, each with its address and its kind, where the tool has a function for
-- that and there is memory for the list.
pub told_lem :
    (T : ToolCode) (task : ℕ) (d : Depend) (ds : List Depend) (s : Bridge)
    → no_null_dep (d ∷ ds) ≡ true
    → any_all (d ∷ ds) ≡ false
    → (callback_at s.callbacks 18 == 0) ≡ false
    → (deps_to_accesses (replicate (length (d ∷ ds)) none) 0 (d ∷ ds) >>= λ slots.
        on_task_accesses T true task slots s)
      ≡ ok (ompt_call T 18 (dependences_args (task_datum task) (map told_of (d ∷ ds))) s)
unfolding on_task_accesses
told_lem T task d ds s nn na cb =
    let slots : List Slot = replicate (length (d ∷ ds)) none in
    ap (λ m. m >>= λ filled_slots. on_task_accesses T true task filled_slots s)
      (fills slots (d ∷ ds) (length-replicate (length (d ∷ ds)) none) na)
    ∙ rw (cb, dependences-filled (d ∷ ds) nn) refl
