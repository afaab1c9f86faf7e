-- ===== src/Fork/Microtask.antt =====
-- A microtask is called with the arguments that the compiler passed.
use xkomp.Prelude.{
  ℕ, zero, suc, ◌+◌, ◌≤◌, ◌<◌, ◌≡◌, refl, arith, Bool, none, some, List, [], ◌∷◌, ◌++◌, length,
  length-append, get_elem?, leb, if◌then◌else◌, ok, dies, fatal,
}
use mathlib.Core.List.{append_assoc}
use xkomp.Fork.{
  reads, case_indices, case_table, invoke_generic, indices_from, invoke_libffi, Wargs, ThreadEvent,
  implicit_task_begin, microtask, team_barrier, implicit_task_end, wrapper,
}

-- Every case of the switch names the indices from 0 on, as many as its number.
case_indices_small : (n : ℕ) → n ≤ 16 → case_indices n ≡ some (indices_from 0 n)
unfolding case_indices case_table indices_from
case_indices_small zero h = refl
case_indices_small (suc zero) h = refl
case_indices_small (suc (suc zero)) h = refl
case_indices_small (suc (suc (suc zero))) h = refl
case_indices_small (suc (suc (suc (suc zero)))) h = refl
case_indices_small (suc (suc (suc (suc (suc zero))))) h = refl
case_indices_small (suc (suc (suc (suc (suc (suc zero)))))) h = refl
case_indices_small (suc (suc (suc (suc (suc (suc (suc zero))))))) h = refl
case_indices_small (suc (suc (suc (suc (suc (suc (suc (suc zero)))))))) h = refl
case_indices_small (suc (suc (suc (suc (suc (suc (suc (suc (suc zero))))))))) h = refl
case_indices_small (suc (suc (suc (suc (suc (suc (suc (suc (suc (suc zero)))))))))) h = refl
case_indices_small (suc (suc (suc (suc (suc (suc (suc (suc (suc (suc (suc zero))))))))))) h = refl
case_indices_small (suc (suc (suc (suc (suc (suc (suc (suc (suc (suc (suc (suc zero)))))))))))) h =
    refl
case_indices_small
      (suc (suc (suc (suc (suc (suc (suc (suc (suc (suc (suc (suc (suc zero))))))))))))) h =
    refl
case_indices_small
      (suc (suc (suc (suc (suc (suc (suc (suc (suc (suc (suc (suc (suc (suc zero)))))))))))))) h =
    refl
case_indices_small
      (suc (suc (suc (suc (suc (suc (suc (suc (suc (suc (suc (suc (suc (suc (suc zero)))))))))))))))
      h =
    refl
case_indices_small
      (suc (
        suc
          (suc (suc (suc (suc (suc (suc (suc (suc (suc (suc (suc (suc (suc (suc zero))))))))))))))))
      h =
    refl
case_indices_small
      (suc (
        suc (
          suc
            (suc (suc (suc (suc (suc (suc (suc (suc (suc (suc (suc (suc (suc (suc n)))))))))))))))))
      h =
    absurd (omega arith)

get_elem?-none {ℓ} : {A : Type ℓ} (xs : List A) (i : ℕ) → length xs ≤ i → get_elem? xs i ≡ none
get_elem?-none [] i h = refl
get_elem?-none (x ∷ xs) zero h = absurd (omega arith)
get_elem?-none (x ∷ xs) (suc i) h = get_elem?-none xs i (omega (arith, h))

case_indices_large : (n : ℕ) → 16 < n → case_indices n ≡ none
unfolding case_indices case_table
case_indices_large n h = get_elem?-none case_table n (omega (arith, h))

module _ {V : Type 0} where
  get_at : (pre : List V) (v : V) (vs : List V) → get_elem? (pre ++ v ∷ vs) (length pre) ≡ some v
  get_at [] v vs = refl
  get_at (x ∷ pre) v vs = get_at pre v vs

  reads_from :
      (pre vs : List V) (i : ℕ)
      → i ≡ length pre
      → reads (pre ++ vs) (indices_from i (length vs)) ≡ ok vs
  unfolding reads indices_from
  reads_from pre [] i e = refl
  reads_from pre (v ∷ vs) i e =
      let found : get_elem? (pre ++ v ∷ vs) i ≡ some v = rw e (get_at pre v vs) in
      let others : reads (pre ++ v ∷ vs) (indices_from (i + 1) (length vs)) ≡ ok vs =
        rw (← append_assoc pre (v ∷ []) vs) (
          reads_from (pre ++ v ∷ []) vs (i + 1)
            (omega (arith, e, length-append {0} pre (v ∷ [])))) in
      rw (found, reads) (rw others refl)

  reads_all : (va : List V) → reads va (indices_from 0 (length va)) ≡ ok va
  reads_all va = reads_from [] va 0 refl

  invoke_small :
      (prepared : ℕ → Bool) (va : List V)
      → length va ≤ 16
      → (invoke_generic (length va) va ≡ ok (some va))
        × (invoke_libffi prepared (length va) va ≡ ok (some va))
  unfolding invoke_generic invoke_libffi
  invoke_small prepared va h = (
    rw (case_indices_small (length va) h, invoke_generic) (rw (reads_all va) refl),
    rw (case_indices_small (length va) h, invoke_libffi) (rw (reads_all va) refl),
  )

  -- With up to 16 arguments, and either way of calling a microtask, a thread of the team calls it
  -- with the arguments of the region, in order, then waits at the barrier, all inside its implicit
  -- task.
  pub wrapper_small :
      (prepared : ℕ → Bool) (va : List V)
      → length va ≤ 16
      → let w : Wargs V = record { argc = length va; args = va } in
        let events : List (ThreadEvent V) =
          implicit_task_begin ∷ microtask (some va) ∷ team_barrier ∷ implicit_task_end ∷ [] in
        (wrapper invoke_generic w ≡ ok events) × (wrapper (invoke_libffi prepared) w ≡ ok events)
  unfolding wrapper
  wrapper_small prepared va h =
      let (generic, libffi) = invoke_small prepared va h in (rw generic refl, rw libffi refl)

  -- With more than 16 arguments the generic way ends the program; libffi calls the microtask with
  -- the arguments, in order, where there are fewer than 1022 and the call can be prepared, and ends
  -- the program from 1022 arguments on.
  pub invoke_large :
      (prepared : ℕ → Bool) (va : List V)
      → 16 < length va
      → (invoke_generic (length va) va ≡ dies fatal)
        × (invoke_libffi prepared (length va) va ≡ (
            if leb 1022 (length va)
            then dies fatal
            else if prepared (length va + 2)
            then ok (some va)
            else ok none))
  unfolding invoke_generic invoke_libffi
  invoke_large prepared va h = (
    rw (case_indices_large (length va) h, invoke_generic) refl,
    rw (case_indices_large (length va) h, invoke_libffi) (rw (reads_all va) refl),
  )
