-- ===== src/Team/Region/Cache.antt =====
-- The cache of teams: its invariant, which every region keeps.
use xkomp.Prelude.{
  ℕ, zero, suc, ◌≤◌, ◌<◌, ◌≡◌, ◌≢◌, refl, sym, ap, inl, inr, ◌⊎◌, ◌==◌, Bool, true, ◌||◌, Option,
  none, some, List, [], ◌∷◌, ◌++◌, length, length-append, map, arith, Bool-cases, Outcome, ok, dies,
}
use mathlib.Core.List.{map-append}
use xkomp.Prelude.Int.{ℤ, to_i32, ◌==ℤ◌, u32_mod, ==ℤ_ne, ==ℤ_eq}
use xkomp.Team.Region.{
  Env, parallel_for, Desc, Team, Entry, Event, team_create, max_cached_teams, find_team, set_args,
  new_team, add_team, create_region, top_region, region_events, later,
}

module _ {A R : Type 0} where
  abbrev pub counts : List (Entry A R) → List ℤ
  counts = map λ e. e.nthreads

abbrev pub Absent : ℤ → List ℤ → Type 0
Absent z [] = Unit {0}
Absent z (y ∷ ys) = (y ≢ z) × Absent z ys

-- No number of threads occurs twice.
abbrev pub Distinct : List ℤ → Type 0
Distinct [] = Unit {0}
Distinct (z ∷ zs) = Absent z zs × Distinct zs

Absent-append : (z y : ℤ) (zs : List ℤ) → y ≢ z → Absent z zs → Absent z (zs ++ y ∷ [])
Absent-append z y [] h a = (h, tt)
Absent-append z y (x ∷ zs) h a = (a.0, Absent-append z y zs h a.1)

Distinct-append : (z : ℤ) (zs : List ℤ) → Absent z zs → Distinct zs → Distinct (zs ++ z ∷ [])
Distinct-append z [] a d = (tt, tt)
Distinct-append z (y ∷ zs) a d =
    (Absent-append y z zs (λ e. a.0 (sym e)) d.0, Distinct-append z zs a.1 d.1)

module _ {A R : Type 0} where
  -- An entry's team was created for the number of threads that the entry is found by.
  pub record IsEntry (e : Entry A R) : Type 0 where
    pub keyed : e.nthreads ≡ to_i32 e.team.desc.nthreads
    pub word : e.team.desc.nthreads < u32_mod
    pub shared : e.team.desc.routine ≡ parallel_for
    -- A request of 0 threads leaves their number to XKRT.
    pub sized : e.team.desc.nthreads ≢ 0 → e.team.nthreads ≡ e.nthreads

  abbrev pub Entries : List (Entry A R) → Type 0
  Entries [] = Unit {0}
  Entries (e ∷ es) = IsEntry e × Entries es

  pub record Inv (es : List (Entry A R)) : Type 0 where
    pub bounded : length es ≤ max_cached_teams
    pub distinct : Distinct (counts es)
    pub entries : Entries es

  pub counts-set_args :
      (es : List (Entry A R)) (i : ℕ) (a : A) → counts (set_args es i a) ≡ counts es
  unfolding set_args
  counts-set_args [] i a = refl
  counts-set_args (e ∷ es) zero a = refl
  counts-set_args (e ∷ es) (suc i) a = ap (λ zs. e.nthreads ∷ zs) (counts-set_args es i a)

  pub length-set_args :
      (es : List (Entry A R)) (i : ℕ) (a : A) → length (set_args es i a) ≡ length es
  unfolding set_args
  length-set_args [] i a = refl
  length-set_args (e ∷ es) zero a = refl
  length-set_args (e ∷ es) (suc i) a = ap suc (length-set_args es i a)

  Entries-set_args :
      (es : List (Entry A R)) (i : ℕ) (a : A) → Entries es → Entries (set_args es i a)
  unfolding set_args
  Entries-set_args [] i a h = tt
  Entries-set_args (e ∷ es) zero a h =
      (record { keyed = h.0.keyed; word = h.0.word; shared = h.0.shared; sized = h.0.sized }, h.1)
  Entries-set_args (e ∷ es) (suc i) a h = (h.0, Entries-set_args es i a h.1)

  Entries-append :
      (es : List (Entry A R)) (e : Entry A R) → Entries es → IsEntry e → Entries (es ++ e ∷ [])
  Entries-append [] e h i = (i, tt)
  Entries-append (x ∷ es) e h i = (h.0, Entries-append es e h.1 i)

  pub Inv-set_args : (es : List (Entry A R)) (i : ℕ) (a : A) → Inv es → Inv (set_args es i a)
  Inv-set_args es i a v = record {
    bounded = omega (arith, length-set_args es i a, v.bounded);
    distinct = rw (counts-set_args es i a) v.distinct;
    entries = Entries-set_args es i a v.entries;
  }

  pub later-none : (o : Option (ℕ × Team A R)) → later o ≡ none → o ≡ none
  unfolding later
  later-none o h = ground arith

  -- Where the search fails, no entry has that number of threads.
  pub find_team-none :
      (es : List (Entry A R)) (n : ℕ) → find_team es n ≡ none → Absent (to_i32 n) (counts es)
  unfolding find_team
  find_team-none [] n h = tt
  find_team-none (e ∷ es) n h = elim (Bool-cases (e.nthreads ==ℤ to_i32 n)) [
    | inl t ↦ absurd (ground arith)
    | inr f ↦ (
      ==ℤ_ne e.nthreads (to_i32 n) f,
      find_team-none es n (later-none (find_team es n) (ground arith)),
    )
  ]

module _ {A R : Type 0} (spawn : Desc A R → Bool × ℤ) (env : Env) where
  abbrev pub new_entry : ℕ → Entry A R
  new_entry n = record { nthreads = to_i32 n; team = new_team spawn env n }

  pub add_team-eq-ok :
      (es : List (Entry A R)) (n : ℕ) {es' : List (Entry A R)} {t : Team A R}
      → add_team spawn env es n ≡ ok (es', t)
      → (length es < max_cached_teams)
        × (es' ≡ es ++ new_entry n ∷ [])
        × (t ≡ new_team spawn env n)
        × ((n == 0 || (new_team spawn env n).nthreads ==ℤ to_i32 n) ≡ true)
  unfolding add_team
  add_team-eq-ok es n h = ground arith

  -- The two ways in which a top-level region returns.
  abbrev pub Found : List (Entry A R) → ℕ → R → A → List (Entry A R) → List (Event A R) → Type 0
  Found es n r args es' evs =
      (i : ℕ) × (t : Team A R) × (find_team es n ≡ some (i, t))
      × (es' ≡ set_args es i args)
      × (evs ≡ region_events t r args)

  abbrev pub Created : List (Entry A R) → ℕ → R → A → List (Entry A R) → List (Event A R) → Type 0
  Created es n r args es' evs =
      (find_team es n ≡ none)
      × (length es < max_cached_teams)
      × (es' ≡ set_args (es ++ new_entry n ∷ []) (length es) args)
      × (evs
          ≡ team_create (new_team spawn env n).desc ∷ region_events (new_team spawn env n) r args)
      × ((n == 0 || (new_team spawn env n).nthreads ==ℤ to_i32 n) ≡ true)

  create_region-cases :
      (es : List (Entry A R)) (n : ℕ) (r : R) (args : A) {es' : List (Entry A R)}
      {evs : List (Event A R)} (o : Outcome (List (Entry A R) × Team A R))
      → add_team spawn env es n ≡ o
      → find_team es n ≡ none
      → create_region spawn env es n r args ≡ ok (es', evs)
      → Created es n r args es' evs
  unfolding create_region
  create_region-cases es n r args (dies f) e g h = ground arith
  create_region-cases es n r args (ok (es'', t)) e g h =
      let (full, grown, made, sized) = add_team-eq-ok es n e in
      (g, full, ground arith, ground arith, sized)

  top_region-cases :
      (es : List (Entry A R)) (n : ℕ) (r : R) (args : A) {es' : List (Entry A R)}
      {evs : List (Event A R)} (o : Option (ℕ × Team A R))
      → find_team es n ≡ o
      → top_region spawn env es n r args ≡ ok (es', evs)
      → Found es n r args es' evs ⊎ Created es n r args es' evs
  unfolding top_region
  top_region-cases es n r args (some (i, t)) e h = inl (i, t, e, ground arith, ground arith)
  top_region-cases es n r args none e h =
      inr (create_region-cases es n r args (add_team spawn env es n) refl e (ground arith))

  pub top_region-eq-ok :
      (es : List (Entry A R)) (n : ℕ) (r : R) (args : A) {es' : List (Entry A R)}
      {evs : List (Event A R)}
      → top_region spawn env es n r args ≡ ok (es', evs)
      → Found es n r args es' evs ⊎ Created es n r args es' evs
  top_region-eq-ok es n r args h = top_region-cases es n r args (find_team es n) refl h

  pub new_entry-IsEntry :
      (n : ℕ)
      → n < u32_mod
      → ((n == 0 || (new_team spawn env n).nthreads ==ℤ to_i32 n) ≡ true)
      → IsEntry (new_entry n)
  unfolding new_team
  new_entry-IsEntry n w s = record {
    keyed = refl;
    word = w;
    shared = refl;
    sized = λ h. ==ℤ_eq _ _ (ground arith);
  }

  Inv-grown :
      (es : List (Entry A R)) (n : ℕ)
      → n < u32_mod
      → find_team es n ≡ none
      → length es < max_cached_teams
      → ((n == 0 || (new_team spawn env n).nthreads ==ℤ to_i32 n) ≡ true)
      → Inv es
      → Inv (es ++ new_entry n ∷ [])
  unfolding new_team
  Inv-grown es n w f full s v = record {
    bounded = omega (arith, length-append {0} es (new_entry n ∷ []));
    distinct =
        rw (map-append (λ (e : Entry A R). e.nthreads) es (new_entry n ∷ []))
          (Distinct-append (to_i32 n) (counts es) (find_team-none es n f) v.distinct);
    entries = Entries-append es (new_entry n) v.entries (new_entry-IsEntry n w s);
  }

  -- A top-level region on `n` threads, a word, that returns keeps the invariant: the cache within
  -- its capacity, no two entries for one number of threads, and each entry's team created for the
  -- number that the entry is found by.
  pub top_region-Inv :
      (es : List (Entry A R)) (n : ℕ) (r : R) (args : A) {es' : List (Entry A R)}
      {evs : List (Event A R)}
      → n < u32_mod
      → Inv es
      → top_region spawn env es n r args ≡ ok (es', evs)
      → Inv es'
  top_region-Inv es n r args w v h = elim (top_region-eq-ok es n r args h) [
    | inl (i, t, f, e, _) ↦ rw e (Inv-set_args es i args v)
    | inr (f, full, e, _, s) ↦
        rw e (Inv-set_args (es ++ new_entry n ∷ []) (length es) args (Inv-grown es n w f full s v))
  ]
