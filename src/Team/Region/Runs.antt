-- ===== src/Team/Region/Runs.antt =====
-- On how many threads a region runs, and what a sequence of regions creates.
use mathlib.Core.List.{map-append, append_assoc, append-nil}
use xkomp.Prelude.{
  ℕ, ◌≤◌, ◌<◌, ◌≡◌, ◌≢◌, refl, subst, sym, ap, ◌∙◌, inl, inr, ◌⊎◌, Bool, some, List, [], ◌∷◌, ◌++◌,
  length, length-map, map, arith, ok, >>=-eq-ok,
}
use xkomp.Prelude.Int.{ℤ, to_i32, to_u32, u32_mod, to_u32-lt, to_u32-to_i32}
use xkomp.Team.Region.{
  Env, Desc, Team, Entry, Event, team_create, team_parallel_for, parallel_begin, parallel_end,
  max_cached_teams, run, with_args, new_team, top_region, parallel, requested_nthreads,
  region_events,
}
use xkomp.Team.Region.Cache.{
  counts, Distinct, Inv, top_region-eq-ok, top_region-Inv, counts-set_args, new_entry,
  new_entry-IsEntry,
}
use xkomp.Team.Region.Search.{find_team-some}

-- The thread limit bounds every request that is not 0, and the result is a word.
pub requested_nthreads-le : (env : Env) (n : ℕ) → requested_nthreads env n ≤ to_u32 env.thread_limit
unfolding requested_nthreads
requested_nthreads-le env n = ground arith

pub requested_nthreads-lt : (env : Env) (n : ℕ) → requested_nthreads env n < u32_mod
requested_nthreads-lt env n = omega (arith, requested_nthreads-le env n, to_u32-lt env.thread_limit)

module _ {A R : Type 0} where
  -- The number of threads of each team that a list of events creates.
  abbrev pub created : List (Event A R) → List ℕ
  created [] = []
  created (team_create d ∷ evs) = d.nthreads ∷ created evs
  created (_ ∷ evs) = created evs

  pub created-append : (xs ys : List (Event A R)) → created (xs ++ ys) ≡ created xs ++ created ys
  created-append [] ys = refl
  created-append (team_create d ∷ xs) ys = ap (λ ns. d.nthreads ∷ ns) (created-append xs ys)
  created-append (_ ∷ xs) ys = created-append xs ys

module _ {A R : Type 0} (spawn : Desc A R → Bool × ℤ) (env : Env) where
  new_team_nthreads : (n : ℕ) → (new_team spawn env n).desc.nthreads ≡ n
  unfolding new_team
  new_team_nthreads n = refl

  -- One run of a routine with its arguments on a team of `n` threads, between the two events, and
  -- before it at most the creation of a team for `n` threads.
  abbrev pub RunsOn : ℕ → R → A → List (Event A R) → Type 0
  RunsOn n r a evs =
      (t : Team A R) × (t.nthreads ≡ to_i32 n)
      × (t.desc.args ≡ some a)
      × ((evs ≡ parallel_begin n ∷ team_parallel_for t r ∷ parallel_end ∷ [])
          ⊎ ((d : Desc A R) × (d.nthreads ≡ n)
              × (evs
                  ≡ team_create d ∷ parallel_begin n ∷ team_parallel_for t r ∷ parallel_end ∷ [])))

  region_events-sized :
      (t : Team A R) (n : ℕ) (r : R) (a : A)
      → n < u32_mod
      → t.nthreads ≡ to_i32 n
      → region_events t r a
        ≡ parallel_begin n ∷ team_parallel_for (with_args t a) r ∷ parallel_end ∷ []
  unfolding region_events
  region_events-sized t n r a w e = rw (e, to_u32-to_i32 n w)

  -- A top-level region on `n` threads, `n` a word and not 0, over a cache that satisfies the
  -- invariant, runs its routine, where it returns, exactly once, with its arguments, on a team of
  -- `n` threads, between the events of its begin and end; all that can come before is the creation
  -- of a team for `n` threads.
  pub top_region_runs :
      (es : List (Entry A R)) (n : ℕ) (r : R) (a : A) {es' : List (Entry A R)}
      {evs : List (Event A R)}
      → n < u32_mod
      → n ≢ 0
      → Inv es
      → top_region spawn env es n r a ≡ ok (es', evs)
      → RunsOn n r a evs
  top_region_runs es n r a w z v h = elim (top_region-eq-ok spawn env es n r a h) [
    | inl (i, t, found, _, runs) ↦
        let entry = find_team-some es n i t v.entries found in
        let n_of_t : t.desc.nthreads ≡ n =
          sym (to_u32-to_i32 t.desc.nthreads entry.word)
          ∙ ap to_u32 (sym entry.keyed)
          ∙ to_u32-to_i32 n w in
        let threads : t.nthreads ≡ to_i32 n = entry.sized (λ e. z (sym n_of_t ∙ e)) in
        (with_args t a, threads, refl, inl (runs ∙ region_events-sized t n r a w threads))
    | inr (absent, full, _, runs, sized) ↦
        let t = new_team spawn env n in
        let entry = new_entry-IsEntry spawn env n w sized in
        let n_of_t : t.desc.nthreads ≡ n = new_team_nthreads n in
        let threads : t.nthreads ≡ to_i32 n = entry.sized (λ e. z (sym n_of_t ∙ e)) in
        (
          with_args t a,
          threads,
          refl,
          inr (
            t.desc,
            n_of_t,
            runs ∙ ap (λ evs. team_create t.desc ∷ evs) (region_events-sized t n r a w threads),
          ),
        )
  ]

  pub created-top_region :
      (es : List (Entry A R)) (n : ℕ) (r : R) (a : A) {es' : List (Entry A R)}
      {evs : List (Event A R)}
      → top_region spawn env es n r a ≡ ok (es', evs)
      → counts es' ≡ counts es ++ map to_i32 (created evs)
  unfolding region_events new_team
  created-top_region es n r a h = elim (top_region-eq-ok spawn env es n r a h) [
    | inl (i, t, _, cache, runs) ↦
        rw (cache, runs, counts-set_args es i a) (sym (append-nil (counts es)))
    | inr (_, _, cache, runs, _) ↦
        rw (cache, runs, counts-set_args (es ++ new_entry spawn env n ∷ []) (length es) a)
          (map-append (λ (e : Entry A R). e.nthreads) es (new_entry spawn env n ∷ []))
  ]

  -- A sequence that returns is a region that returns and a sequence that returns.
  pub run-cons-eq-ok :
      (es : List (Entry A R)) (n : ℕ) (r : R) (a : A) (rest : List (ℕ × R × A))
      (es'' : List (Entry A R)) (evs : List (Event A R))
      → run spawn env es ((n, r, a) ∷ rest) ≡ ok (es'', evs)
      → (es' : List (Entry A R)) × (now : List (Event A R)) × (next : List (Event A R))
        × (top_region spawn env es (requested_nthreads env n) r a ≡ ok (es', now))
        × (run spawn env es' rest ≡ ok (es'', next))
        × (evs ≡ now ++ next)
  unfolding run parallel
  run-cons-eq-ok es n r a rest es'' evs h =
      let (now, first, h') =
        >>=-eq-ok (top_region spawn env es (requested_nthreads env n) r a) _ h in
      let (next, others, h'') = >>=-eq-ok (run spawn env now.0 rest) _ h' in
      (now.0, now.1, next.1, first, ground (arith, others), ground arith)

  run-created :
      (es : List (Entry A R)) (rs : List (ℕ × R × A)) {es' : List (Entry A R)}
      {evs : List (Event A R)}
      → Inv es
      → run spawn env es rs ≡ ok (es', evs)
      → Inv es' × (counts es' ≡ counts es ++ map to_i32 (created evs))
  unfolding run
  run-created es [] {es' = es'} {evs = evs} v h =
      let kept : es ≡ es' = ground arith in
      let nothing : [] ≡ evs = ground arith in
      (subst Inv kept v, rw (← kept, ← nothing) (sym (append-nil (counts es))))
  run-created es ((n, r, a) ∷ rest) {es' = es''} {evs = evs} v h =
      let (es', now, next, first, others, whole) = run-cons-eq-ok es n r a rest es'' evs h in
      let kept =
        top_region-Inv spawn env es (requested_nthreads env n) r a (requested_nthreads-lt env n) v
          first in
      let (v', tail) = run-created es' rest kept others in
      (
        v',
        rw
            (
              whole,
              tail,
              created-top_region es (requested_nthreads env n) r a first,
              created-append now next,
            )
            (rw (map-append to_i32 (created now) (created next)) (append_assoc (counts es) _ _)),
      )

  -- A sequence of regions that starts with an empty cache, and returns, leaves in the cache the
  -- teams that it created, in that order: at most eight, no two for one number of threads.
  pub run_creates_once :
      (rs : List (ℕ × R × A)) {es : List (Entry A R)} {evs : List (Event A R)}
      → run spawn env [] rs ≡ ok (es, evs)
      → (counts es ≡ map to_i32 (created evs))
        × Distinct (map to_i32 (created evs))
        × (length (created evs) ≤ max_cached_teams)
  run_creates_once rs {es = es} {evs = evs} h =
      let (v, made) =
        run-created [] rs (record { bounded = omega arith; distinct = tt; entries = tt }) h in
      (
        made,
        subst Distinct made v.distinct,
        omega (
          arith,
          v.bounded,
          ap length made,
          length-map (λ (e : Entry A R). e.nthreads) es,
          length-map to_i32 (created evs),
        ),
      )
