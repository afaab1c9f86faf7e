-- ===== src/Fork/Push.antt =====
-- The number of threads that is pushed is used by one region, and the arguments of a region reach
-- the microtask on every thread.
use xkomp.Prelude.{
  ℕ, ◌≤◌, ◌≡◌, refl, ap, ◌∙◌, arith, Bool, true, false, List, [], ◌∷◌, ◌++◌, length, leb, sym,
  Outcome, ok, dies, check, ◌>>=◌, ◌>>◌,
}
use mathlib.Core.List.{append-nil}
use xkomp.Prelude.Int.{ℤ}
use xkomp.Team.Region.{Env, Desc, Entry, Event, parallel, run}
use xkomp.Fork.{
  Wargs, Routine, fork_call_wrapper, microtask_max_args, va_args, push_num_threads, fork_call,
}

pub va_args-length : {V : Type 0} (va : List V) → va_args (length va) va ≡ ok va
unfolding va_args
va_args-length [] = refl
va_args-length (v ∷ va) = rw (va_args-length va) refl

leb_le : (a b : ℕ) → a ≤ b → leb a b ≡ true
leb_le a b h = ground arith

module _ {T E : Type 0} where
  abbrev after_first : List E → T × List E → Outcome (T × List E)
  after_first first r = ok (r.0, first ++ r.1)

  abbrev and_nothing : T × List E → Outcome (T × List E)
  and_nothing r = ok (r.0, r.1 ++ [])

  last_region :
      (first : List E) (o : Outcome (T × List E))
      → (o >>= after_first first) ≡ ((o >>= and_nothing) >>= after_first first)
  last_region first (dies f) = refl
  last_region first (ok (t, evs)) = ap (λ es. ok (t, first ++ es)) (sym (append-nil evs))

  abbrev and_no_push : T × List E → Outcome (T × List E × ℕ)
  and_no_push r = ok (r.0, r.1, 0)

  abbrev after_first' : List E → T × List E × ℕ → Outcome (T × List E)
  after_first' first r = ok (r.0, first ++ r.1)

  no_push :
      (first : List E) (o : Outcome (T × List E))
      → ((o >>= and_no_push) >>= after_first' first) ≡ (o >>= after_first first)
  no_push first (dies f) = refl
  no_push first (ok r) = refl

module _ {V : Type 0} (spawn : Desc (Wargs V) Routine → Bool × ℤ) (env : Env) where
  -- What the region of a call is given.
  abbrev pub region : ℕ → List V → ℕ × Routine × Wargs V
  region n va = (n, fork_call_wrapper, record { argc = length va; args = va })

  -- What a call outside of a team comes to: where there is memory, one region with the pushed number
  -- of threads and the arguments of the call, and no pushed number left.
  abbrev pub asks_for :
      Bool
      → List (Entry (Wargs V) Routine)
      → ℕ
      → List V
      → Outcome (List (Entry (Wargs V) Routine) × List (Event (Wargs V) Routine) × ℕ)
  asks_for given teams pushed va = do
    check given
    r ←
        parallel spawn env false teams pushed fork_call_wrapper
          (record { argc = length va; args = va })
    ok (r.0, r.1, 0)

  -- A call with at most 1024 arguments is such a region.
  pub fork_call-asks :
      (given : Bool) (teams : List (Entry (Wargs V) Routine)) (pushed : ℕ) (va : List V)
      → length va ≤ microtask_max_args
      → fork_call spawn env given false teams pushed (length va) va ≡ asks_for given teams pushed va
  unfolding fork_call
  fork_call-asks given teams pushed va h =
      rw (leb_le (length va) microtask_max_args h, va_args-length va) refl

  pub fork_call-parallel :
      (teams : List (Entry (Wargs V) Routine)) (pushed : ℕ) (va : List V)
      → length va ≤ microtask_max_args
      → fork_call spawn env true false teams pushed (length va) va ≡ (
          parallel spawn env false teams pushed fork_call_wrapper
            (record { argc = length va; args = va })
          >>= λ r. ok (r.0, r.1, 0))
  fork_call-parallel teams pushed va h = fork_call-asks true teams pushed va h

  -- Two calls of `__kmpc_fork_call` outside of any region, the first behind one of
  -- `__kmpc_push_num_threads`.
  abbrev pub push_fork_fork :
      List (Entry (Wargs V) Routine)
      → ℤ
      → List V
      → List V
      → Outcome (List (Entry (Wargs V) Routine) × List (Event (Wargs V) Routine))
  push_fork_fork teams n va vb = do
    (teams', first, pushed) ←
        fork_call spawn env true false teams (push_num_threads n) (length va) va
    (teams'', second, _) ← fork_call spawn env true false teams' pushed (length vb) vb
    ok (teams'', first ++ second)

  -- Outside of any region, the number that is pushed, or 0 for a negative one, is the first region's; the second region
  -- asks for none; and each region has the arguments of its own call, at most 1024.
  pub push_fork_fork-run :
      (teams : List (Entry (Wargs V) Routine)) (n : ℤ) (va vb : List V)
      → length va ≤ microtask_max_args
      → length vb ≤ microtask_max_args
      → push_fork_fork teams n va vb
        ≡ run spawn env teams (region (push_num_threads n) va ∷ region 0 vb ∷ [])
  unfolding run
  push_fork_fork-run teams n va vb ha hb =
      first_region (parallel spawn env false teams (push_num_threads n) fork_call_wrapper w) refl
    where
      w : Wargs V
      w = record { argc = length va; args = va }

      next :
          List (Entry (Wargs V) Routine)
          → Outcome (List (Entry (Wargs V) Routine) × List (Event (Wargs V) Routine))
      next t =
          parallel spawn env false t 0 fork_call_wrapper (record { argc = length vb; args = vb })

      first_region :
          (o : Outcome (List (Entry (Wargs V) Routine) × List (Event (Wargs V) Routine)))
          → parallel spawn env false teams (push_num_threads n) fork_call_wrapper w ≡ o
          → push_fork_fork teams n va vb
            ≡ run spawn env teams (region (push_num_threads n) va ∷ region 0 vb ∷ [])
      first_region (dies f) e = rw (fork_call-parallel teams (push_num_threads n) va ha, e) refl
      first_region (ok (t, evs)) e =
          rw (fork_call-parallel teams (push_num_threads n) va ha, e)
            (rw (fork_call-parallel t 0 vb hb) (no_push evs (next t) ∙ last_region evs (next t)))
