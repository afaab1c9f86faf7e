-- ===== src/Task/Submit/Fill.antt =====
-- The three translations together, over an array with a slot for each item.
use mathlib.Core.List.{append_assoc}
use xkomp.Prelude.{
  ℕ, ◌+◌, ◌≡◌, refl, ap, ◌∙◌, arith, Bool, true, false, Bool-cases, inl, inr, ◌||◌, List, [], ◌∷◌,
  ◌++◌, map, length, length-append, ok, dies, fatal,
}
use xkomp.Task.Access.{Slot, Depend, Clause, deps_to_accesses}
use xkomp.Task.Access.DependSlots.{filled, any_all, deps_to_accesses_fills, deps_to_accesses_all}
use xkomp.Task.Access.ClauseSlots.{
  clause_filled, any_unsupported, marked, acs_to_accesses_fills, acs_to_accesses_unsupported,
}
use xkomp.Task.Submit.{fill_accesses}

pub length-filled : (slots : List Slot) (ds : List Depend) → length (filled slots ds) ≡ length slots
length-filled [] [] = refl
length-filled [] (d ∷ ds) = refl
length-filled (s ∷ slots) [] = refl
length-filled (s ∷ slots) (d ∷ ds) = omega (arith, length-filled slots ds)

length-clause_filled :
    (slots : List Slot) (cs : List Clause) → length (clause_filled slots cs) ≡ length slots
length-clause_filled [] [] = refl
length-clause_filled [] (c ∷ cs) = refl
length-clause_filled (s ∷ slots) [] = refl
length-clause_filled (s ∷ slots) (c ∷ cs) = omega (arith, length-clause_filled slots cs)

-- The array that the three lists fill from the slots `sa`, `sd`, `sn` and the rest.
abbrev pub whole :
    List Slot
    → List Clause
    → List Slot
    → List Depend
    → List Slot
    → List Depend
    → List Slot
    → List Slot
whole sa acs sd deps sn noalias rest =
    clause_filled sa acs ++ (filled sd deps ++ (filled sn noalias ++ rest))

-- Some item stops the program.
abbrev pub stops : List Clause → List Depend → List Depend → Bool
stops acs deps noalias = any_unsupported acs || (any_all deps || any_all noalias)

-- The loop at an index that is the length of what stands before.
deps_at :
    (pre slots post : List Slot) (at : ℕ) (ds : List Depend)
    → at ≡ length pre
    → length slots ≡ length ds
    → any_all ds ≡ false
    → deps_to_accesses (pre ++ (slots ++ post)) at ds ≡ ok (pre ++ (filled slots ds ++ post))
deps_at pre slots post at ds e l h = rw e (deps_to_accesses_fills pre slots post ds l h)

module _ (acs : List Clause) (deps noalias : List Depend) (sa sd sn rest : List Slot)
    (la : length sa ≡ length acs) (ld : length sd ≡ length deps) (ln : length sn ≡ length noalias)
    (fine : stops acs deps noalias ≡ false) where
  second :
      deps_to_accesses (clause_filled sa acs ++ (sd ++ (sn ++ rest))) (length acs) deps
      ≡ ok (clause_filled sa acs ++ (filled sd deps ++ (sn ++ rest)))
  second =
      deps_at (clause_filled sa acs) sd (sn ++ rest) (length acs) deps
        (omega (arith, length-clause_filled sa acs)) ld (ground arith)

  third :
      deps_to_accesses
        (clause_filled sa acs ++ (filled sd deps ++ (sn ++ rest)))
        (length acs + length deps)
        noalias
      ≡ ok (whole sa acs sd deps sn noalias rest)
  third = rw (← append_assoc (clause_filled sa acs) (filled sd deps) (sn ++ rest)) (
      deps_at (clause_filled sa acs ++ filled sd deps) sn rest (length acs + length deps) noalias
        (omega (
          arith,
          length-append {0} (clause_filled sa acs) (filled sd deps),
          length-clause_filled sa acs,
          length-filled sd deps,
        ))
        ln (ground arith)
      ∙ ap ok (append_assoc (clause_filled sa acs) (filled sd deps) (filled sn noalias ++ rest)))

  -- The access clauses come first, then the two lists of dependences, each item in the slot of
  -- its place in that order; the slots behind them stay as they are.
  pub fill_accesses_fills :
      fill_accesses (sa ++ (sd ++ (sn ++ rest))) acs deps noalias
      ≡ ok (whole sa acs sd deps sn noalias rest, map marked acs)
  unfolding fill_accesses
  fill_accesses_fills =
      rw (acs_to_accesses_fills [] sa (sd ++ (sn ++ rest)) acs la (ground arith))
        (rw second (rw third))

-- Where some item stops the program, it does, whichever list the item stands in.
pub fill_accesses-stops :
    (acs : List Clause) (deps noalias : List Depend) (sa sd rest : List Slot)
    → length sa ≡ length acs
    → length sd ≡ length deps
    → stops acs deps noalias ≡ true
    → fill_accesses (sa ++ (sd ++ rest)) acs deps noalias ≡ dies fatal
unfolding fill_accesses
fill_accesses-stops acs deps noalias sa sd rest la ld h = elim (Bool-cases (any_unsupported acs)) [
  | inl u ↦ rw (acs_to_accesses_unsupported (sa ++ (sd ++ rest)) 0 acs u)
  | inr u ↦
      rw (acs_to_accesses_fills [] sa (sd ++ rest) acs la u) (elim (Bool-cases (any_all deps)) [
        | inl a ↦
            rw (deps_to_accesses_all (clause_filled sa acs ++ (sd ++ rest)) (length acs) deps a)
        | inr a ↦
            rw
              (deps_at (clause_filled sa acs) sd rest (length acs) deps
                (omega (arith, length-clause_filled sa acs)) ld a)
              (rw (
                deps_to_accesses_all (clause_filled sa acs ++ (filled sd deps ++ rest))
                  (length acs + length deps) noalias (ground arith)))
      ])
]
