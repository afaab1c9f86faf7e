-- ===== src/Program/Finish/Regions.antt =====
-- A region that asks for one of a few numbers of threads does not die (src/xkomp/parallel.cc,
-- src/kmp/fork.cc).
use xkomp.Prelude.{
  ℕ, ◌≤◌, ◌<◌, ◌≡◌, ◌≢◌, refl, arith, inl, inr, ◌⊎◌, Bool, true, false, leb, Option-cases, none,
  List, [], ◌∷◌, ◌++◌, length, ok, Returns, Returns->>=, Returns-Allows-both, checked-Returns,
  Allows-of, length-map,
}
use xkomp.Prelude.Int.{ℤ, to_i32}
use mathlib.Core.List.{map-append}
use xkomp.Team.Region.{
  Env, Desc, Entry, Event, find_team, top_region, parallel, requested_nthreads, max_cached_teams,
}
use xkomp.Team.Region.Cache.{
  Inv, counts, find_team-none, top_region-eq-ok, counts-set_args, new_entry,
}
use xkomp.Team.Region.Limit.{Spawns, top_region-Returns}
use xkomp.Fork.{Wargs, Routine, fork_call_wrapper, microtask_max_args, fork_call}
use xkomp.Fork.Push.{va_args-length}
use xkomp.Program.Room.{among, AllAmong, AllAmong-append, length-lt-of_Absent}

module _ {V : Type 0} (spawn : Desc (Wargs V) Routine → Bool × ℤ) (env : Env) (ns : List ℤ) where
  abbrev Cache : Type 0
  Cache = List (Entry (Wargs V) Routine)

  -- A region whose number of threads is among `ns` finds its team or has room for it, and leaves
  -- only numbers among `ns`.
  top_region-Among :
      (es : Cache) (n : ℕ) (w : Wargs V) (es' : Cache) (evs : List (Event (Wargs V) Routine))
      → AllAmong (counts es) ns
      → among (to_i32 n) ns ≡ true
      → top_region spawn env es n fork_call_wrapper w ≡ ok (es', evs)
      → AllAmong (counts es') ns
  top_region-Among es n w es' evs h m e =
      elim (top_region-eq-ok spawn env es n fork_call_wrapper w e) [
        | inl (i, t, _, kept, _) ↦ rw (kept, counts-set_args es i w) h
        | inr (_, _, grown, _, _) ↦
            rw
              (
                grown,
                counts-set_args (es ++ new_entry spawn env n ∷ []) (length es) w,
                map-append (λ (e : Entry (Wargs V) Routine). e.nthreads) es
                    (new_entry spawn env n ∷ []),
              )
              (AllAmong-append (to_i32 n) (counts es) ns h m)
      ]

  fits_cache :
      (es : Cache) (n : ℕ)
      → length ns ≤ max_cached_teams
      → Inv es
      → AllAmong (counts es) ns
      → among (to_i32 n) ns ≡ true
      → (find_team es n ≢ none) ⊎ (length es < max_cached_teams)
  fits_cache es n small v h m = elim (Option-cases (find_team es n)) [
    | inr (t, there) ↦ inl (λ e. cc)
    | inl absent ↦ inr (
        omega (
          arith,
          length-lt-of_Absent (to_i32 n) (counts es) ns (find_team-none es n absent) v.distinct h m,
          length-map (λ (e : Entry (Wargs V) Routine). e.nthreads) es,
        ))
  ]

  parallel-Among :
      (in_team : Bool) (es : Cache) (n : ℕ) (w : Wargs V)
      → Spawns spawn
      → length ns ≤ max_cached_teams
      → Inv es
      → AllAmong (counts es) ns
      → among (to_i32 (requested_nthreads env n)) ns ≡ true
      → Returns
          (λ r. AllAmong (counts r.0) ns)
          (parallel spawn env in_team es n fork_call_wrapper w)
  unfolding parallel
  parallel-Among true es n w s small v h m = h
  parallel-Among false es n w s small v h m =
      let asked = requested_nthreads env n in
      let Kept = λ (r : Cache × List (Event (Wargs V) Routine)). AllAmong (counts r.0) ns in
      Returns-Allows-both (λ _. Unit {0}) Kept Kept
        (top_region spawn env es asked fork_call_wrapper w)
        (top_region-Returns spawn env es asked fork_call_wrapper w s
          (fits_cache es asked small v h m))
        (Allows-of Kept (top_region spawn env es asked fork_call_wrapper w)
          (λ r e. top_region-Among es asked w r.0 r.1 h m e))
        (λ r _ k. k)

  pub fork_call-Among :
      (given in_team : Bool) (es : Cache) (pushed argc : ℕ) (va : List V)
      → Spawns spawn
      → length ns ≤ max_cached_teams
      → Inv es
      → AllAmong (counts es) ns
      → among (to_i32 (requested_nthreads env pushed)) ns ≡ true
      → argc ≡ length va
      → leb argc microtask_max_args ≡ true
      → given ≡ true
      → Returns
          (λ r. AllAmong (counts r.0) ns × (r.2 ≡ 0))
          (fork_call spawn env given in_team es pushed argc va)
  unfolding fork_call
  fork_call-Among given in_team es pushed argc va s small v h m all few memory =
      let Q =
        λ (r : Cache × List (Event (Wargs V) Routine) × ℕ). AllAmong (counts r.0) ns × (r.2 ≡ 0) in
      checked-Returns Q (leb argc microtask_max_args) _ few (
        rw (all, memory, va_args-length va)
          (Returns->>= Q
            (parallel spawn env in_team es pushed fork_call_wrapper
              (record { argc = length va; args = va }))
            _
            (parallel-Among in_team es pushed (record { argc = length va; args = va }) s small v h
              m)
            (λ r k. (k, refl))))
