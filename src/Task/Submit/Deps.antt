-- ===== src/Task/Submit/Deps.antt =====
-- `__kmpc_omp_task_with_deps_v2` and the waits on dependences, on every branch.
use xkomp.Prelude.{
  ℕ, zero, suc, ◌+◌, ◌≤◌, ◌<◌, ◌≡◌, ◌≢◌, refl, ap, arith, false, ◌==◌, ltb, lt→ltb, ltb_ge, some,
  List, ◌∷◌, ◌++◌, length, replicate, ok, dies, fatal,
}
use xkomp.Task.Access.{Slot, Depend, Clause}
use xkomp.Task.Alloc.{Task}
use xkomp.Task.Submit.{
  accesses_resolve, commit_calls, access_count, with_accesses, omp_task_with_deps_v2,
}
use xkomp.Task.Submit.Fill.{whole, stops, fill_accesses_fills}

pub replicate-append : (m n : ℕ) (s : Slot) → replicate m s ++ replicate n s ≡ replicate (m + n) s
replicate-append zero n s = let e : zero + n ≡ n = omega arith in rw e refl
replicate-append (suc m) n s =
    let e : suc m + n ≡ suc (m + n) = omega arith in
    rw e (ap (λ xs. s ∷ xs) (replicate-append m n s))

pub count-test : (n : ℕ) → n ≢ 0 → (n == 0) ≡ false
count-test n h = ground arith

pub fits_room : (n ac : ℕ) → n ≤ ac → ltb ac n ≡ false
fits_room n ac h = ltb_ge ac n h

module _ (t : Task) (ac : ℕ) (acs : List Clause) (deps noalias : List Depend)
    (sized : t.capacity ≡ some ac) where
  -- On a task with room for `ac` accesses, more items than that end the program.
  pub with_deps_too_many :
      ac < access_count acs deps noalias → omp_task_with_deps_v2 t deps noalias acs ≡ dies fatal
  unfolding omp_task_with_deps_v2 with_accesses
  with_deps_too_many h =
      let some_ : access_count acs deps noalias ≢ 0 = omega (arith, h) in
      rw
        (
          count-test (access_count acs deps noalias) some_,
          sized,
          lt→ltb ac (access_count acs deps noalias) h,
        )
        refl

  -- Where there are items, they fit in the task's room, its slots begin with one for each, and
  -- none of them stops the program, the slots are filled in the order access clauses, dependences,
  -- dependences with no aliases; these accesses are resolved, the task is committed, and an
  -- undeferred task is waited for.
  pub with_deps_fits :
      (sa sd sn rest : List Slot)
      → t.slots ≡ sa ++ (sd ++ (sn ++ rest))
      → length sa ≡ length acs
      → length sd ≡ length deps
      → length sn ≡ length noalias
      → stops acs deps noalias ≡ false
      → access_count acs deps noalias ≢ 0
      → access_count acs deps noalias ≤ ac
      → omp_task_with_deps_v2 t deps noalias acs
        ≡ ok (
          record t { slots = whole sa acs sd deps sn noalias rest },
          accesses_resolve (whole sa acs sd deps sn noalias rest) (access_count acs deps noalias)
              ∷ commit_calls t,
          1,
        )
  unfolding omp_task_with_deps_v2 with_accesses
  with_deps_fits sa sd sn rest e la ld ln fine some_ room =
      rw
        (
          count-test (access_count acs deps noalias) some_,
          sized,
          fits_room (access_count acs deps noalias) ac room,
          e,
          fill_accesses_fills acs deps noalias sa sd sn rest la ld ln fine,
        )
        refl
