-- ===== src/Program/Sound/Regions.antt =====
-- The teams that the regions of a program create (src/xkomp/parallel.cc, src/kmp/fork.cc).
use mathlib.Core.List.{append_assoc, append-nil}
use xkomp.Prelude.{
  ℕ, ◌≡◌, refl, sym, ap, ◌∙◌, Bool, true, false, List, [], ◌∷◌, ◌++◌, map, Allows, Allows->>=,
  Allows-of, Allows-any, check, leb,
}
use xkomp.Prelude.Int.{ℤ, to_i32}
use xkomp.Team.Region.{Env, Desc, Entry, Event, parallel, requested_nthreads}
use xkomp.Team.Region.Cache.{Inv, counts, top_region-Inv}
use xkomp.Team.Region.Runs.{created, created-top_region, requested_nthreads-lt}
use xkomp.Fork.{Wargs, Routine, fork_call_wrapper, microtask_max_args, va_args, fork_call}
use xkomp.Program.{Effect, region, allocated, graph_calls}

module _ {V : Type 0} where
  -- The numbers of threads of the teams that regions outside of a team have created.
  abbrev pub teams_in : List (Effect V) → List ℕ
  teams_in [] = []
  teams_in (region false evs ∷ done) = created evs ++ teams_in done
  teams_in (_ ∷ done) = teams_in done

  pub teams_in-append : (xs ys : List (Effect V)) → teams_in (xs ++ ys) ≡ teams_in xs ++ teams_in ys
  teams_in-append [] ys = refl
  teams_in-append (region false evs ∷ xs) ys =
      ap (λ ns. created evs ++ ns) (teams_in-append xs ys) ∙ sym (append_assoc (created evs) _ _)
  teams_in-append (region true evs ∷ xs) ys = teams_in-append xs ys
  teams_in-append (allocated t ∷ xs) ys = teams_in-append xs ys
  teams_in-append (graph_calls cs ∷ xs) ys = teams_in-append xs ys

  -- What a region leaves in the cache.
  abbrev pub Cached :
      Bool
      → List (Entry (Wargs V) Routine)
      → List (Entry (Wargs V) Routine)
      → List (Event (Wargs V) Routine)
      → Type 0
  Cached in_team es es' evs =
      Inv es' × (counts es' ≡ counts es ++ map to_i32 (teams_in (region in_team evs ∷ [])))

module _ {V : Type 0} (spawn : Desc (Wargs V) Routine → Bool × ℤ) (env : Env) where
  parallel-Cached :
      (in_team : Bool) (es : List (Entry (Wargs V) Routine)) (n : ℕ) (w : Wargs V)
      → Inv es
      → Allows
          (λ r. Cached in_team es r.0 r.1)
          (parallel spawn env in_team es n fork_call_wrapper w)
  unfolding parallel
  parallel-Cached true es n w v = (v, sym (append-nil (counts es)))
  parallel-Cached false es n w v =
      Allows-of (λ r. Cached false es r.0 r.1) _
        (λ (es', evs) h. (
          top_region-Inv spawn env es (requested_nthreads env n) fork_call_wrapper w
              (requested_nthreads-lt env n) v h,
          created-top_region spawn env es (requested_nthreads env n) fork_call_wrapper w h
              ∙ ap (λ ns. counts es ++ map to_i32 ns) (sym (append-nil (created evs))),
        ))

  pub fork_call-Cached :
      (given in_team : Bool) (es : List (Entry (Wargs V) Routine)) (pushed argc : ℕ) (va : List V)
      → Inv es
      → Allows
          (λ r. Cached in_team es r.0 r.1)
          (fork_call spawn env given in_team es pushed argc va)
  unfolding fork_call
  fork_call-Cached given in_team es pushed argc va v =
      let Q = λ (r : List (Entry (Wargs V) Routine) × List (Event (Wargs V) Routine) × ℕ).
        Cached in_team es r.0 r.1 in
      Allows->>= Q (check (leb argc microtask_max_args)) _ (Allows-any _) (λ _ _.
        Allows->>= Q (check given) _ (Allows-any _) (λ _ _.
          Allows->>= Q (va_args argc va) _ (Allows-any _) (λ vs _.
            Allows->>= Q
              (parallel spawn env in_team es pushed fork_call_wrapper
                (record { argc = argc; args = vs }))
              _ (parallel-Cached in_team es pushed (record { argc = argc; args = vs }) v)
              (λ r kept. kept))))
