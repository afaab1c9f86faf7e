-- ===== src/Task/Access/DependSlots.antt =====
-- What the loop over a `depend` list leaves in the slots.
use xkomp.Prelude.{
  ℕ, ◌+◌, ◌≡◌, refl, ap, arith, Bool, true, false, Bool-cases, inl, inr, ◌||◌, ◌&&◌, not, some,
  List, [], ◌∷◌, ◌++◌, length, length-append, set, ◌==◌, if◌then◌else◌, ok, dies, fatal, ◌∙◌,
}
use mathlib.Core.List.{append_assoc}
use xkomp.Task.Access.{
  Slot, Access, sequential, concurrent, commutative, handle, Depend, DependFlags, depend_draft,
  depend_access, deps_to_accesses,
}

-- The access that a list item stands for, and whether it stops the program: one with an address
-- that names all memory.
abbrev pub access_of : Depend → Access
access_of d = record {
  region = handle d.base_addr;
  mode = (depend_draft d.flags).mode;
  concurrency = (depend_draft d.flags).concurrency;
}

abbrev pub names_all : Depend → Bool
names_all d = not (d.base_addr == 0) && d.flags.all

abbrev pub any_all : List Depend → Bool
any_all [] = false
any_all (d ∷ ds) = names_all d || any_all ds

-- Each slot in turn: an item with no address leaves it as it is.
abbrev pub filled : List Slot → List Depend → List Slot
filled slots [] = slots
filled [] (d ∷ ds) = []
filled (s ∷ slots) (d ∷ ds) = (if d.base_addr == 0 then s else some (access_of d)) ∷ filled slots ds

pub set-append :
    (pre : List Slot) (s v : Slot) (post : List Slot)
    → set (pre ++ s ∷ post) (length pre) v ≡ pre ++ v ∷ post
set-append [] s v post = refl
set-append (x ∷ pre) s v post = ap (λ ss. x ∷ ss) (set-append pre s v post)

-- The bits of the access: R for `in`, W for the three others, V always; where several of the
-- flags that write are set, the concurrency is that of the last one tested.
pub depend_draft_lem :
    (f : DependFlags)
    → ((depend_draft f).mode.r ≡ f.input)
      × ((depend_draft f).mode.w ≡ (f.output || (f.mtx || f.inoutset)))
      × ((depend_draft f).mode.v ≡ true)
      × ((depend_draft f).concurrency
          ≡ (if f.inoutset then concurrent else if f.mtx then commutative else sequential))
unfolding depend_draft
depend_draft_lem f = (ground arith, ground arith, ground arith, ground arith)

step-ok :
    (pre post : List Slot) (s : Slot) (d : Depend) (ds : List Depend)
    → names_all d ≡ false
    → deps_to_accesses (pre ++ s ∷ post) (length pre) (d ∷ ds)
      ≡ deps_to_accesses
          (pre ++ (if d.base_addr == 0 then s else some (access_of d)) ∷ post)
          (length pre + 1)
          ds
unfolding deps_to_accesses depend_access
step-ok pre post s d ds h = elim (Bool-cases (d.base_addr == 0)) [
  | inl z ↦ rw z
  | inr z ↦
      let one : d.flags.all ≡ false = ground arith in
      rw (z, one)
        (ap (λ slots. deps_to_accesses slots (length pre + 1) ds)
          (set-append pre s (some (access_of d)) post))
]

length-snoc : (pre : List Slot) (s : Slot) → length (pre ++ s ∷ []) ≡ length pre + 1
length-snoc pre s = omega (arith, length-append {0} pre (s ∷ []))

-- With a slot for each item, and no item that names all memory, the loop fills those slots in
-- order and leaves the others as they are.
pub deps_to_accesses_fills :
    (pre slots post : List Slot) (ds : List Depend)
    → length slots ≡ length ds
    → any_all ds ≡ false
    → deps_to_accesses (pre ++ (slots ++ post)) (length pre) ds
      ≡ ok (pre ++ (filled slots ds ++ post))
unfolding deps_to_accesses
deps_to_accesses_fills pre [] post [] l h = refl
deps_to_accesses_fills pre [] post (d ∷ ds) l h = absurd (omega arith)
deps_to_accesses_fills pre (s ∷ slots) post [] l h = absurd (omega arith)
deps_to_accesses_fills pre (s ∷ slots) post (d ∷ ds) l h =
    step-ok pre (slots ++ post) s d ds (ground arith)
    ∙ rw (← append_assoc pre (new ∷ []) (slots ++ post), ← length-snoc pre new)
        (deps_to_accesses_fills (pre ++ new ∷ []) slots post ds (omega arith) (ground arith)
          ∙ ap ok (append_assoc pre (new ∷ []) (filled slots ds ++ post)))
  where
    new : Slot
    new = if d.base_addr == 0 then s else some (access_of d)

-- An item with an address that names all memory ends the program, wherever it stands.
pub deps_to_accesses_all :
    (slots : List Slot) (at : ℕ) (ds : List Depend)
    → any_all ds ≡ true
    → deps_to_accesses slots at ds ≡ dies fatal
unfolding deps_to_accesses depend_access
deps_to_accesses_all slots at [] h = cc
deps_to_accesses_all slots at (d ∷ ds) h = elim (Bool-cases (d.base_addr == 0)) [
  | inl z ↦ rw z (deps_to_accesses_all slots (at + 1) ds (ground arith))
  | inr z ↦ elim (Bool-cases d.flags.all) [
    | inl a ↦ rw (z, a)
    | inr a ↦ rw (z, a) (deps_to_accesses_all _ (at + 1) ds (ground arith))
  ]
]
