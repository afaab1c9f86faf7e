-- ===== src/Task/Submit/Slots.antt =====
-- Which slots hold an access when `__kmpc_omp_task_with_deps` has them resolved.
use mathlib.Core.List.{append-nil}
use xkomp.Prelude.{
  ℕ, zero, suc, ◌+◌, ◌≤◌, ◌≡◌, ◌≢◌, refl, sym, ap, ◌∙◌, arith, Bool, true, false, not, ◌&&◌, ◌==◌,
  none, some, List, [], ◌∷◌, ◌++◌, length, replicate, length-replicate, ok,
}
use xkomp.Task.Access.{Slot, Depend, inert_access}
use xkomp.Task.Access.DependSlots.{filled, any_all}
use xkomp.Task.Alloc.{Task}
use xkomp.Task.Submit.{accesses_resolve, commit_calls, access_count, omp_task_with_deps}
use xkomp.Task.Submit.Deps.{replicate-append, with_deps_fits}

-- Every slot holds an access.
abbrev pub constructed : List Slot → Bool
constructed [] = true
constructed (none ∷ slots) = false
constructed (some a ∷ slots) = constructed slots

-- No item has a null address.
abbrev pub no_null_dep : List Depend → Bool
no_null_dep [] = true
no_null_dep (d ∷ ds) = not (d.base_addr == 0) && no_null_dep ds

constructed-append :
    (xs ys : List Slot) → constructed (xs ++ ys) ≡ (constructed xs && constructed ys)
constructed-append [] ys = refl
constructed-append (none ∷ xs) ys = refl
constructed-append (some a ∷ xs) ys = constructed-append xs ys

constructed-filled :
    (ds : List Depend) → constructed (filled (replicate (length ds) none) ds) ≡ no_null_dep ds
constructed-filled [] = refl
constructed-filled (d ∷ ds) = ground (arith, constructed-filled ds)

filled-constructed :
    (slots : List Slot) (ds : List Depend)
    → constructed slots ≡ true
    → constructed (filled slots ds) ≡ true
filled-constructed [] [] h = refl
filled-constructed [] (d ∷ ds) h = refl
filled-constructed (s ∷ slots) [] h = h
filled-constructed (none ∷ slots) (d ∷ ds) h = cc
filled-constructed (some a ∷ slots) (d ∷ ds) h = ground (arith, filled-constructed slots ds h)

constructed-replicate : (n : ℕ) → constructed (replicate n (some inert_access)) ≡ true
constructed-replicate zero = refl
constructed-replicate (suc n) = constructed-replicate n

only_deps :
    (t : Task) (ac : ℕ) (deps : List Depend) (sd rest : List Slot)
    → t.capacity ≡ some ac
    → t.slots ≡ sd ++ rest
    → length sd ≡ length deps
    → any_all deps ≡ false
    → length deps ≢ 0
    → length deps ≤ ac
    → omp_task_with_deps t deps []
      ≡ ok (
        record t { slots = filled sd deps ++ rest },
        accesses_resolve (filled sd deps ++ rest) (length deps) ∷ commit_calls t,
        1,
      )
unfolding omp_task_with_deps
only_deps t ac deps sd rest sized e l fine some_ room =
    let counted : access_count [] deps [] ≡ length deps = omega arith in
    with_deps_fits t ac [] deps [] sized [] sd [] rest e refl l refl (ground arith)
      (omega (arith, some_)) (omega arith)
    ∙ ap
        (λ n. ok (
          record t { slots = filled sd deps ++ rest },
          accesses_resolve (filled sd deps ++ rest) n ∷ commit_calls t,
          1,
        ))
        counted

-- `__kmpc_omp_task_with_deps` of a task that was allocated with exactly one slot for each of its
-- dependences, of which there are some and none names all memory: the slots are resolved as the dependences fill
-- them, and each of them holds an access just where no dependence has a null address.
pub with_deps_exact :
    (t : Task) (deps : List Depend)
    → t.capacity ≡ some (length deps)
    → t.slots ≡ replicate (length deps) none
    → length deps ≢ 0
    → any_all deps ≡ false
    → (omp_task_with_deps t deps []
        ≡ ok (
          record t { slots = filled (replicate (length deps) none) deps },
          accesses_resolve (filled (replicate (length deps) none) deps) (length deps)
              ∷ commit_calls t,
          1,
        ))
      × (constructed (filled (replicate (length deps) none) deps) ≡ no_null_dep deps)
unfolding omp_task_with_deps
with_deps_exact t deps sized e some_ fine =
    let slots : List Slot = replicate (length deps) none in
    (
      rw (← append-nil (filled slots deps)) (
          only_deps t (length deps) deps slots [] sized (e ∙ sym (append-nil slots))
            (length-replicate (length deps) none) fine some_ (omega arith)),
      constructed-filled deps,
    )

-- `__kmpc_omp_task_with_deps` of a task whose slots were padded at its allocation: dependences that
-- fit and none of which names all memory are resolved over slots that all hold an access.
pub with_deps_padded :
    (t : Task) (deps : List Depend) (n : ℕ)
    → t.capacity ≡ some (length deps + n)
    → t.slots ≡ replicate (length deps + n) (some inert_access)
    → length deps ≢ 0
    → any_all deps ≡ false
    → (omp_task_with_deps t deps []
        ≡ ok (
          record t {
            slots =
                filled (replicate (length deps) (some inert_access)) deps
                ++ replicate n (some inert_access);
          },
          accesses_resolve
                (filled (replicate (length deps) (some inert_access)) deps
                  ++ replicate n (some inert_access))
                (length deps)
              ∷ commit_calls t,
          1,
        ))
      × (constructed (
            filled (replicate (length deps) (some inert_access)) deps
            ++ replicate n (some inert_access))
          ≡ true)
unfolding omp_task_with_deps
with_deps_padded t deps n sized e some_ fine =
    let inerts : ℕ → List Slot = λ m. replicate m (some inert_access) in
    (
      only_deps t (length deps + n) deps (inerts (length deps)) (inerts n) sized
          (e ∙ sym (replicate-append (length deps) n (some inert_access)))
          (length-replicate (length deps) (some inert_access)) fine some_ (omega arith),
      constructed-append (filled (inerts (length deps)) deps) (inerts n)
          ∙ rw
              (filled-constructed (inerts (length deps)) deps (constructed-replicate (length deps)))
              (constructed-replicate n),
    )
