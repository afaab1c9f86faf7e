-- ===== src/Team/Region/Limit.antt =====
-- When a region returns at all, and on which regions the thread limit has no effect.
use xkomp.Prelude.{
  ℕ, zero, suc, ◌≤◌, ◌<◌, ◌≡◌, ◌≢◌, refl, ap, ◌∙◌, inl, inr, ◌⊎◌, Bool, true, false, none, List, [],
  ◌∷◌, ◌++◌, length, arith, Option-cases, ltb_ge, ok, dies, assertion, Returns, ◌==◌, ◌||◌, lt→ltb,
}
use xkomp.Prelude.Int.{ℤ, pos, to_i32, ◌==ℤ◌, ==ℤ_refl, to_u32, u32_mod, to_u32-to_i32}
use xkomp.Team.Region.{
  Env, parallel_for, Desc, Team, Entry, team_create, team_parallel_for, parallel_begin,
  parallel_end, max_cached_teams, find_team, set_args, with_args, new_team, add_team, create_region,
  top_region, parallel, requested_nthreads, region_events, team_desc_init,
}
use xkomp.Team.Region.Cache.{new_entry}

-- What `team_create` is relied on for: it leaves threads, as many as the description asks for,
-- or as many as it chooses where that is 0.
abbrev pub Spawns : {A R : Type 0} → (Desc A R → Bool × ℤ) → Type 0
Spawns {A} {R} spawn =
    (d : Desc A R) → ((spawn d).0 ≡ true) × (d.nthreads ≢ 0 → (spawn d).1 ≡ to_i32 d.nthreads)

or_true : (b : Bool) {c : Bool} → c ≡ true → (b || c) ≡ true
or_true true h = refl
or_true false h = h

requested_nthreads-zero : (env : Env) → env.num_threads ≡ pos 0 → requested_nthreads env 0 ≡ 0
unfolding requested_nthreads
requested_nthreads-zero env z = rw z (ground arith)

module _ {A R : Type 0} (spawn : Desc A R → Bool × ℤ) (env : Env) where
  spawned_sized :
      (n : ℕ)
      → Spawns spawn
      → ((new_team spawn env n).has_threads ≡ true)
        × ((n == 0 || (new_team spawn env n).nthreads ==ℤ to_i32 n) ≡ true)
  unfolding new_team
  spawned_sized zero s = ((s (team_desc_init env 0 none parallel_for)).0, refl)
  spawned_sized (suc n) s =
      let spawned = s (team_desc_init env (suc n) none parallel_for) in
      (
        spawned.0,
        or_true (suc n == 0)
            (rw (spawned.1 (λ e. absurd (omega arith))) (==ℤ_refl (to_i32 (suc n)))),
      )

  create_region-room :
      (es : List (Entry A R)) (n : ℕ) (r : R) (a : A)
      → (new_team spawn env n).has_threads ≡ true
      → ((n == 0 || (new_team spawn env n).nthreads ==ℤ to_i32 n) ≡ true)
      → length es < max_cached_teams
      → create_region spawn env es n r a
        ≡ ok (
          set_args (es ++ new_entry spawn env n ∷ []) (length es) a,
          team_create (new_team spawn env n).desc ∷ region_events (new_team spawn env n) r a,
        )
  unfolding create_region add_team
  create_region-room es n r a threads sized full =
      rw (lt→ltb (length es) max_cached_teams full, threads, sized)

  -- Where `team_create` does its work, a top-level region returns if its team is cached or there
  -- is room for one more.
  pub top_region-Returns :
      (es : List (Entry A R)) (n : ℕ) (r : R) (a : A)
      → Spawns spawn
      → (find_team es n ≢ none) ⊎ (length es < max_cached_teams)
      → Returns (λ _. Unit {0}) (top_region spawn env es n r a)
  unfolding top_region
  top_region-Returns es n r a s fits = elim (Option-cases (find_team es n)) [
    | inr (c, e) ↦ rw (e, top_region) tt
    | inl e ↦
        let (threads, sized) = spawned_sized n s in
        rw (e, top_region) (rw (create_region-room es n r a threads sized (room e fits)) tt)
  ]
    where
      room :
          find_team es n ≡ none
          → (find_team es n ≢ none) ⊎ (length es < max_cached_teams)
          → length es < max_cached_teams
      room e (inl h) = absurd (h e)
      room e (inr h) = h

  -- With the cache full, a top-level region on a new number of threads fails the assertion on
  -- its capacity, whatever `team_create` would do.
  pub top_region_full :
      (es : List (Entry A R)) (n : ℕ) (r : R) (a : A)
      → find_team es n ≡ none
      → max_cached_teams ≤ length es
      → top_region spawn env es n r a ≡ dies assertion
  unfolding top_region create_region add_team
  top_region_full es n r a e full =
      rw (e, top_region) (rw (ltb_ge (length es) max_cached_teams full))

  -- With neither a `num_threads` clause nor OMP_NUM_THREADS the first region runs on all the
  -- threads that XKRT creates for it, `c` of them, a word, whatever OMP_THREAD_LIMIT is.
  pub default_region_unlimited :
      (r : R) (a : A) (c : ℕ)
      → env.num_threads ≡ pos 0
      → c < u32_mod
      → spawn (team_desc_init env 0 none parallel_for) ≡ (true, to_i32 c)
      → (es : List (Entry A R)) × (t : Team A R) × (parallel spawn env false [] 0 r a
          ≡ ok (
            es,
            team_create (team_desc_init env 0 none parallel_for)
                ∷ parallel_begin c
                ∷ team_parallel_for t r
                ∷ parallel_end
                ∷ [],
          ))
  unfolding parallel top_region new_team find_team region_events
  default_region_unlimited r a c z w made =
      let sent = create_region-room [] 0 r a (ap (λ p. p.0) made) refl (omega arith) in
      let count = ap to_u32 (ap (λ p. p.1) made) ∙ to_u32-to_i32 c w in
      (
        set_args (new_entry spawn env 0 ∷ []) 0 a,
        with_args (new_team spawn env 0) a,
        rw (requested_nthreads-zero env z) (
            sent
            ∙ ap
                (λ k. ok (
                  set_args (new_entry spawn env 0 ∷ []) 0 a,
                  team_create (new_team spawn env 0).desc
                      ∷ parallel_begin k
                      ∷ team_parallel_for (with_args (new_team spawn env 0) a) r
                      ∷ parallel_end
                      ∷ [],
                ))
                count),
      )
