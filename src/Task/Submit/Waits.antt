-- ===== src/Task/Submit/Waits.antt =====
-- Tasks and waits whose items stop the program, and `xkomp_taskwait_deps`.
use mathlib.Core.List.{append-nil}
use xkomp.Prelude.{
  ℕ, ◌+◌, ◌≤◌, ◌≡◌, ◌≢◌, refl, ap, arith, Bool, true, false, none, some, List, [], ◌∷◌, ◌++◌,
  length, replicate, Bool-cases, inl, inr, ◌==◌, if◌then◌else◌, length-replicate, Outcome, ok, dies,
  fatal,
}
use xkomp.Task.Access.{Slot, Depend, Clause}
use xkomp.Task.Alloc.{Task}
use xkomp.Task.Submit.{
  Call, instanciate_empty, task_commit, task_wait, access_count, with_accesses,
  omp_task_with_deps_v2, taskwait_deps, omp_taskwait_deps_51_v2,
}
use xkomp.Task.Submit.Fill.{whole, stops, fill_accesses_fills, fill_accesses-stops}
use xkomp.Task.Submit.Deps.{count-test, fits_room, replicate-append}

no_items :
    (acs : List Clause) (deps noalias : List Depend)
    → length acs ≡ 0
    → length deps ≡ 0
    → length noalias ≡ 0
    → stops acs deps noalias ≡ false
no_items [] [] [] la ld ln = refl
no_items (c ∷ acs) deps noalias la ld ln = absurd (omega arith)
no_items [] (d ∷ deps) noalias la ld ln = absurd (omega arith)
no_items [] [] (d ∷ noalias) la ld ln = absurd (omega arith)

module _ (acs : List Clause) (deps noalias : List Depend) where
  -- Some item that stops the program is an item.
  stops_some : stops acs deps noalias ≡ true → access_count acs deps noalias ≢ 0
  stops_some h z =
      let none_ : stops acs deps noalias ≡ false =
        no_items acs deps noalias (omega (arith, z)) (omega (arith, z)) (omega (arith, z)) in
      ground arith

  -- Where the items fit in the task's room, its slots begin with one for each access clause and
  -- each dependence, and an item with an address names all memory or has the modifier `nostorage`,
  -- the program ends: the task is not committed.
  pub with_deps_stops :
      (t : Task) (ac : ℕ) (sa sd rest : List Slot)
      → t.capacity ≡ some ac
      → t.slots ≡ sa ++ (sd ++ rest)
      → length sa ≡ length acs
      → length sd ≡ length deps
      → access_count acs deps noalias ≤ ac
      → stops acs deps noalias ≡ true
      → omp_task_with_deps_v2 t deps noalias acs ≡ dies fatal
  unfolding omp_task_with_deps_v2 with_accesses
  with_deps_stops t ac sa sd rest sized e la ld room h =
      rw
        (
          count-test (access_count acs deps noalias) (stops_some h),
          sized,
          fits_room (access_count acs deps noalias) ac room,
          e,
          fill_accesses-stops acs deps noalias sa sd rest la ld h,
        )
        refl

  -- The slots of a wait: one for each item, filled in order.
  abbrev pub waited_slots : List Slot
  waited_slots =
      whole (replicate (length acs) none) acs (replicate (length deps) none) deps
        (replicate (length noalias) none) noalias []

  abbrev pub waited : Outcome (List Call)
  waited =
      if access_count acs deps noalias == 0
      then ok []
      else if stops acs deps noalias
      then dies fatal
      else ok (instanciate_empty waited_slots ∷ task_commit ∷ task_wait ∷ [])

  split :
      replicate {A = Slot} (access_count acs deps noalias) none
      ≡ replicate (length acs) none
        ++ (replicate (length deps) none ++ (replicate (length noalias) none ++ []))
  split =
      rw
        (
          append-nil (replicate {A = Slot} (length noalias) none),
          replicate-append (length deps) (length noalias) none,
          replicate-append (length acs) (length deps + length noalias) none,
        )
        (ap (λ n. replicate {A = Slot} n none) reassociated)
    where
      reassociated : access_count acs deps noalias ≡ length acs + (length deps + length noalias)
      reassociated = omega arith

  -- A wait on dependences makes no call where there are none; it ends the program where an item
  -- stops it; otherwise an empty task with the accesses of the items, in an array of just that
  -- many slots, is committed and waited for. A request not to wait makes no difference. The number
  -- of items is one that the counter of accesses of XKRT can hold.
  pub taskwait_deps_lem :
      (narrow : ℕ → ℕ) (has_no_wait : Bool)
      → narrow (access_count acs deps noalias) ≡ access_count acs deps noalias
      → omp_taskwait_deps_51_v2 narrow deps noalias has_no_wait acs ≡ waited
  unfolding omp_taskwait_deps_51_v2 taskwait_deps
  taskwait_deps_lem narrow has_no_wait held =
      elim (Bool-cases (access_count acs deps noalias == 0)) [
        | inl z ↦ rw z
        | inr z ↦ elim (Bool-cases (stops acs deps noalias)) [
          | inl h ↦
              rw (z, held, h, split)
                (rw (
                  fill_accesses-stops acs deps noalias (replicate (length acs) none)
                    (replicate (length deps) none) (replicate (length noalias) none ++ [])
                    (length-replicate (length acs) none) (length-replicate (length deps) none) h))
          | inr h ↦
              rw (z, held, h, split)
                (rw (
                  fill_accesses_fills acs deps noalias (replicate (length acs) none)
                    (replicate (length deps) none) (replicate (length noalias) none) []
                    (length-replicate (length acs) none) (length-replicate (length deps) none)
                    (length-replicate (length noalias) none) h))
        ]
      ]
