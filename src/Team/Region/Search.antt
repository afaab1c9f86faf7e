-- ===== src/Team/Region/Search.antt =====
-- The search of the cache: what it finds, and after which changes it finds it again.
use xkomp.Prelude.{
  ℕ, suc, ◌≡◌, subst, ap, ◌∙◌, inl, inr, true, false, Option, none, some, List, [], ◌∷◌, ◌++◌,
  length, arith, Bool-cases,
}
use xkomp.Prelude.Int.{to_i32, ◌==ℤ◌, ==ℤ_eq, ==ℤ_refl}
use xkomp.Team.Region.{Team, Entry, find_team, later, set_args, with_args}
use xkomp.Team.Region.Cache.{IsEntry, Entries, later-none}

module _ {A R : Type 0} where
  later-some :
      (o : Option (ℕ × Team A R)) (i : ℕ) (t : Team A R)
      → later o ≡ some (i, t)
      → (j : ℕ) × (i ≡ suc j) × (o ≡ some (j, t))
  unfolding later
  later-some none i t h = cc
  later-some (some (j, u)) i t h = (j, ground arith, ground arith)

  find_team-hit :
      (e : Entry A R) (es : List (Entry A R)) (n : ℕ)
      → (e.nthreads ==ℤ to_i32 n) ≡ true
      → find_team (e ∷ es) n ≡ some (0, e.team)
  unfolding find_team
  find_team-hit e es n h = rw h

  find_team-miss :
      (e : Entry A R) (es : List (Entry A R)) (n : ℕ)
      → (e.nthreads ==ℤ to_i32 n) ≡ false
      → find_team (e ∷ es) n ≡ later (find_team es n)
  unfolding find_team
  find_team-miss e es n h = rw h

  -- What the search finds is an entry for that number of threads.
  pub find_team-some :
      (es : List (Entry A R)) (n i : ℕ) (t : Team A R)
      → Entries es
      → find_team es n ≡ some (i, t)
      → IsEntry (record { nthreads = to_i32 n; team = t })
  unfolding find_team
  find_team-some [] n i t v h = cc
  find_team-some (e ∷ es) n i t v h = elim (Bool-cases (e.nthreads ==ℤ to_i32 n)) [
    | inl same ↦
        subst (λ u. IsEntry (record { nthreads = to_i32 n; team = u })) {x = e.team} {y = t}
          (ground arith) (rw (← ==ℤ_eq e.nthreads (to_i32 n) same) v.0)
    | inr other ↦
        let (j, _, found) = later-some (find_team es n) i t (ground arith) in
        find_team-some es n j t v.1 found
  ]

  -- After a write of arguments the same search finds the same team with the new arguments.
  pub find_team-set_args :
      (es : List (Entry A R)) (n i : ℕ) (t : Team A R) (a : A)
      → find_team es n ≡ some (i, t)
      → find_team (set_args es i a) n ≡ some (i, with_args t a)
  unfolding find_team set_args later
  find_team-set_args [] n i t a h = cc
  find_team-set_args (e ∷ es) n i t a h = elim (Bool-cases (e.nthreads ==ℤ to_i32 n)) [
    | inl same ↦
        let at : i ≡ 0 = ground arith in
        let is : e.team ≡ t = ground arith in
        rw (at, ← is) (find_team-hit (record e { team = with_args e.team a }) es n same)
    | inr other ↦
        let (j, up, found) = later-some (find_team es n) i t (ground arith) in
        rw up (
          find_team-miss e (set_args es j a) n other
          ∙ ap later (find_team-set_args es n j t a found))
  ]

  -- A new entry is found at the end of the cache.
  pub find_team-append :
      (es : List (Entry A R)) (n : ℕ) (e : Entry A R)
      → find_team es n ≡ none
      → e.nthreads ≡ to_i32 n
      → find_team (es ++ e ∷ []) n ≡ some (length es, e.team)
  unfolding find_team later
  find_team-append [] n e f k = find_team-hit e [] n (rw k (==ℤ_refl (to_i32 n)))
  find_team-append (x ∷ es) n e f k = elim (Bool-cases (x.nthreads ==ℤ to_i32 n)) [
    | inl same ↦ absurd (ground arith)
    | inr other ↦
        find_team-miss x (es ++ e ∷ []) n other
        ∙ ap later (find_team-append es n e (later-none (find_team es n) (ground arith)) k)
  ]
