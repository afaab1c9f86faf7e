-- ===== src/Ompt/Queries/Enumeration.antt =====
-- The enumerations of src/ompt/ompt.cc, as a tool makes them: from the first number on, each answer
-- is the next question.
use Prim.Native.String.{String}
use mathlib.Core.List.{append_assoc}
use xkomp.Prelude.{
  ℕ, zero, suc, ◌≡◌, refl, ap, subst, ◌∙◌, arith, Bool, true, false, not, ◌&&◌, none, some, List,
  [], ◌∷◌, ◌++◌, ◌==◌, ==_iff, if_false, ◌<◌, length,
}
use xkomp.Ompt.Queries.{enumerate}

-- The answers to the questions from a number on, at most so many.
unfoldable pub walk : List (ℕ × String) → ℕ → ℕ → List (ℕ × String)
walk table zero current = []
walk table (suc fuel) current = elim (enumerate table current) [
  | none ↦ []
  | some e ↦ e ∷ walk table fuel e.0
]

abbrev absent : ℕ → List (ℕ × String) → Bool
absent k [] = true
absent k (e ∷ es) = not (e.0 == k) && absent k es

-- No number of the second list stands before it, in that list or in the first.
abbrev pub new_behind : List (ℕ × String) → List (ℕ × String) → Bool
new_behind pre [] = true
new_behind pre (e ∷ es) = absent e.0 pre && new_behind (pre ++ e ∷ []) es

differs :
    (x e : ℕ × String) (xs : List (ℕ × String)) → absent e.0 (x ∷ xs) ≡ true → (x.0 == e.0) ≡ false
differs x e xs h = ground arith

enumerate-next :
    (pre es : List (ℕ × String)) (e next : ℕ × String)
    → absent e.0 pre ≡ true
    → enumerate (pre ++ e ∷ next ∷ es) e.0 ≡ some next
unfolding enumerate
enumerate-next [] es e next h = rw ((==_iff e.0 e.0).1 refl) refl
enumerate-next (x ∷ []) es e next h =
    rw ((==_iff e.0 e.0).1 refl) (if_false _ _ _ (differs x e [] h))
enumerate-next (x ∷ y ∷ pre) es e next h =
    let rest : enumerate (y ∷ pre ++ e ∷ next ∷ es) e.0 ≡ some next =
      enumerate-next (y ∷ pre) es e next (ground arith) in
    if_false _ _ _ (differs x e (y ∷ pre) h) ∙ rest

enumerate-last :
    (pre : List (ℕ × String)) (e : ℕ × String)
    → absent e.0 pre ≡ true
    → enumerate (pre ++ e ∷ []) e.0 ≡ none
unfolding enumerate
enumerate-last [] e h = refl
enumerate-last (x ∷ []) e h = if_false _ _ _ (differs x e [] h)
enumerate-last (x ∷ y ∷ pre) e h =
    let rest : enumerate (y ∷ pre ++ e ∷ []) e.0 ≡ none =
      enumerate-last (y ∷ pre) e (ground arith) in
    if_false _ _ _ (differs x e (y ∷ pre) h) ∙ rest

walk-behind :
    (pre es : List (ℕ × String)) (e : ℕ × String) (fuel : ℕ)
    → new_behind pre (e ∷ es) ≡ true
    → length es < fuel
    → walk (pre ++ e ∷ es) fuel e.0 ≡ es
unfolding walk
walk-behind pre es e zero h more = absurd (omega arith)
walk-behind pre [] e (suc fuel) h more = rw (walk, enumerate-last pre e (ground arith)) refl
walk-behind pre (next ∷ es) e (suc fuel) h more =
    rw (walk, enumerate-next pre es e next (ground arith))
      (ap (λ xs. next ∷ xs)
        (subst (λ table. walk table fuel next.0 ≡ es) (append_assoc pre (e ∷ []) (next ∷ es))
          (walk-behind (pre ++ e ∷ []) es next fuel (ground arith) (omega arith))))

-- Over a table in which no number stands twice a tool that starts with the first number and asks
-- more often than there are further entries is told of each of these once, in order, and then that
-- there is no more.
pub walk_lem :
    (table : List (ℕ × String)) (e : ℕ × String) (fuel : ℕ)
    → new_behind [] (e ∷ table) ≡ true
    → length table < fuel
    → walk (e ∷ table) fuel e.0 ≡ table
walk_lem = walk-behind []
