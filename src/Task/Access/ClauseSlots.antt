-- ===== src/Task/Access/ClauseSlots.antt =====
-- What the loop over an `access` list leaves in the slots and in the list.
use mathlib.Core.List.{append_assoc}
use xkomp.Prelude.{
  ℕ, ◌+◌, ◌≡◌, refl, ap, ◌∙◌, arith, Bool, true, false, ◌||◌, ◌&&◌, not, Bool-cases, inl, inr, some,
  List, [], ◌∷◌, ◌++◌, map, length, set, length-append, ◌==◌, if◌then◌else◌, Outcome, ok, dies,
  fatal, ◌>>=◌,
}
use xkomp.Task.Access.{
  Slot, Access, sequential, concurrent, segment, Clause, ClauseFlags, storage_flags, clause_draft,
  clause_access, acs_to_accesses,
}
use xkomp.Task.Access.DependSlots.{set-append}

-- The access that a list item stands for, the item as the loop leaves it, and whether it stops
-- the program: one with an address and the modifier that XKRT lacks.
abbrev pub clause_access_of : Clause → Access
clause_access_of c = record {
  region = segment c.base_addr c.len 1;
  mode = (clause_draft (storage_flags c.flags)).mode;
  concurrency = (clause_draft (storage_flags c.flags)).concurrency;
}

abbrev pub marked : Clause → Clause
marked c = if c.base_addr == 0 then c else record c { flags = storage_flags c.flags }

abbrev pub unsupported : Clause → Bool
unsupported c = not (c.base_addr == 0) && c.flags.nostorage

abbrev pub any_unsupported : List Clause → Bool
any_unsupported [] = false
any_unsupported (c ∷ cs) = unsupported c || any_unsupported cs

abbrev pub clause_slot : Slot → Clause → Slot
clause_slot s c = if c.base_addr == 0 then s else some (clause_access_of c)

abbrev pub clause_filled : List Slot → List Clause → List Slot
clause_filled slots [] = slots
clause_filled [] (c ∷ cs) = []
clause_filled (s ∷ slots) (c ∷ cs) = clause_slot s c ∷ clause_filled slots cs

-- The bits of the access: R for `read`; W for `write`, `concurrentwrite` and `storage`; V for
-- `noncoherent` and `storage`; only `concurrentwrite` lets accesses run at once.
pub clause_draft_lem :
    (f : ClauseFlags)
    → let d = clause_draft (storage_flags f) in
      (d.mode.r ≡ f.read)
      × (d.mode.w ≡ (f.write || (f.storage || f.concurrentwrite)))
      × (d.mode.v ≡ (f.noncoherent || f.storage))
      × (d.concurrency ≡ (if f.concurrentwrite then concurrent else sequential))
unfolding clause_draft storage_flags
clause_draft_lem f = (ground arith, ground arith, ground arith, ground arith)

storage_flags-nostorage : (f : ClauseFlags) → (storage_flags f).nostorage ≡ f.nostorage
unfolding storage_flags
storage_flags-nostorage f = ground arith

clause_access-ok :
    (c : Clause)
    → c.flags.nostorage ≡ false
    → clause_access c ≡ ok (clause_access_of c, record c { flags = storage_flags c.flags })
unfolding clause_access
clause_access-ok c h = rw (storage_flags-nostorage c.flags, h)

clause_access-dies : (c : Clause) → c.flags.nostorage ≡ true → clause_access c ≡ dies fatal
unfolding clause_access
clause_access-dies c h = rw (storage_flags-nostorage c.flags, h)

-- What is left to do after the first item.
rest : Clause → List Slot × List Clause → Outcome (List Slot × List Clause)
rest c (slots, cs) = ok (slots, c ∷ cs)

clause_step :
    (pre post : List Slot) (s : Slot) (c : Clause) (cs : List Clause)
    → unsupported c ≡ false
    → acs_to_accesses (pre ++ s ∷ post) (length pre) (c ∷ cs)
      ≡ (acs_to_accesses (pre ++ clause_slot s c ∷ post) (length pre + 1) cs >>= rest (marked c))
unfolding acs_to_accesses rest
clause_step pre post s c cs h = elim (Bool-cases (c.base_addr == 0)) [
  | inl z ↦ rw z
  | inr z ↦
      let one : c.flags.nostorage ≡ false = ground arith in
      rw (z, clause_access-ok c one, set-append pre s (some (clause_access_of c)) post)
]

length-snoc : (pre : List Slot) (s : Slot) → length (pre ++ s ∷ []) ≡ length pre + 1
length-snoc pre s = omega (arith, length-append {0} pre (s ∷ []))

-- With a slot for each item, and no item with an address and the modifier `nostorage`, the loop
-- fills those slots in order, leaves the others as they are, and marks the storage accesses.
pub acs_to_accesses_fills :
    (pre slots post : List Slot) (cs : List Clause)
    → length slots ≡ length cs
    → any_unsupported cs ≡ false
    → acs_to_accesses (pre ++ (slots ++ post)) (length pre) cs
      ≡ ok (pre ++ (clause_filled slots cs ++ post), map marked cs)
unfolding acs_to_accesses rest
acs_to_accesses_fills pre [] post [] l h = refl
acs_to_accesses_fills pre [] post (c ∷ cs) l h = absurd (omega arith)
acs_to_accesses_fills pre (s ∷ slots) post [] l h = absurd (omega arith)
acs_to_accesses_fills pre (s ∷ slots) post (c ∷ cs) l h =
    clause_step pre (slots ++ post) s c cs (ground arith)
    ∙ rw
        (
          ← append_assoc pre (clause_slot s c ∷ []) (slots ++ post),
          ← length-snoc pre (clause_slot s c),
        )
        (rw
          (acs_to_accesses_fills (pre ++ clause_slot s c ∷ []) slots post cs (omega arith)
            (ground arith))
          (ap (λ slots. ok (slots, marked c ∷ map marked cs))
            (append_assoc pre (clause_slot s c ∷ []) (clause_filled slots cs ++ post))))

-- An item with an address and that modifier ends the program, wherever it stands.
pub acs_to_accesses_unsupported :
    (slots : List Slot) (at : ℕ) (cs : List Clause)
    → any_unsupported cs ≡ true
    → acs_to_accesses slots at cs ≡ dies fatal
unfolding acs_to_accesses
acs_to_accesses_unsupported slots at [] h = cc
acs_to_accesses_unsupported slots at (c ∷ cs) h = elim (Bool-cases (c.base_addr == 0)) [
  | inl z ↦ rw z (rw (acs_to_accesses_unsupported slots (at + 1) cs (ground arith)))
  | inr z ↦ elim (Bool-cases c.flags.nostorage) [
    | inl a ↦ rw (z, clause_access-dies c a)
    | inr a ↦
        rw (z, clause_access-ok c a)
          (rw (
            acs_to_accesses_unsupported (set slots at (some (clause_access_of c))) (at + 1) cs
              (ground arith)))
  ]
]
