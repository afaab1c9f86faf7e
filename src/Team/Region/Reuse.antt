-- ===== src/Team/Region/Reuse.antt =====
-- A team is reused by each later region on as many threads.
use xkomp.Prelude.{ℕ, ◌≡◌, refl, inl, inr, Bool, some, List, length, ok}
use xkomp.Prelude.Int.{ℤ}
use xkomp.Team.Region.{
  Env, Desc, Team, Entry, Event, find_team, set_args, with_args, new_team, top_region,
  region_events,
}
use xkomp.Team.Region.Cache.{top_region-eq-ok, new_entry}
use xkomp.Team.Region.Search.{find_team-set_args, find_team-append}

module _ {A R : Type 0} (spawn : Desc A R → Bool × ℤ) (env : Env) where
  top_region-found :
      (es : List (Entry A R)) (n i : ℕ) (t : Team A R) (r : R) (a : A)
      → find_team es n ≡ some (i, t)
      → top_region spawn env es n r a ≡ ok (set_args es i a, region_events t r a)
  unfolding top_region
  top_region-found es n i t r a h = rw (h, top_region)

  region_events-with_args :
      (t : Team A R) (a : A) (r : R) (b : A)
      → region_events (with_args t a) r b ≡ region_events t r b
  unfolding region_events
  region_events-with_args t a r b = refl

  -- Once a top-level region has returned, a second one on as many threads returns too, on the
  -- team that the cache now holds: no team is created, and the cache keeps its entries.
  pub top_region-top_region :
      (es : List (Entry A R)) (n : ℕ) (r s : R) (a b : A) {es' : List (Entry A R)}
      {evs : List (Event A R)}
      → top_region spawn env es n r a ≡ ok (es', evs)
      → (i : ℕ) × (t : Team A R) × (find_team es' n ≡ some (i, with_args t a))
        × (top_region spawn env es' n s b ≡ ok (set_args es' i b, region_events t s b))
  top_region-top_region es n r s a b {es' = es'} h = elim (top_region-eq-ok spawn env es n r a h) [
    | inl (i, t, found, cache, _) ↦ again i t (rw cache (find_team-set_args es n i t a found))
    | inr (absent, full, cache, _, _) ↦ again (length es) (new_team spawn env n) (
        rw cache (
          find_team-set_args _ n (length es) (new_team spawn env n) a
            (find_team-append es n (new_entry spawn env n) absent refl)))
  ]
    where
      again :
          (i : ℕ) (t : Team A R)
          → find_team es' n ≡ some (i, with_args t a)
          → (i : ℕ) × (t : Team A R) × (find_team es' n ≡ some (i, with_args t a))
            × (top_region spawn env es' n s b ≡ ok (set_args es' i b, region_events t s b))
      again i t f = (
        i,
        t,
        f,
        rw (top_region-found es' n i (with_args t a) s b f, region_events-with_args t a s b),
      )
