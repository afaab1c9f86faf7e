-- ===== src/Task/Submit/Stock.antt =====
-- A task of an unpatched compiler, from its allocation to its submission.
use xkomp.Prelude.{
  ℕ, suc, ◌+◌, ◌-◌, ◌≤◌, ◌<◌, ◌≡◌, ◌≢◌, arith, true, false, some, List, [], ◌∷◌, ◌++◌, length,
  replicate, length-append, length-replicate, ok, dies, fatal,
}
use xkomp.Task.Access.{Slot, Depend, inert_access}
use xkomp.Task.Access.DependSlots.{filled, any_all}
use xkomp.Task.Format.{Formats, Kmp}
use xkomp.Task.Alloc.{Context, Request, Task, omp_task_alloc}
use xkomp.Task.Alloc.Shape.{IsStock, omp_task_alloc-IsStock}
use xkomp.Task.Submit.{accesses_resolve, commit_calls, omp_task_with_deps}
use xkomp.Task.Submit.Fill.{length-filled}
use xkomp.Task.Submit.Deps.{with_deps_too_many}
use xkomp.Task.Submit.Slots.{constructed, with_deps_padded}

module _ (X : Formats) (c : Context) (s : Kmp X) (place : ℕ) (q : Request) (ndevices : ℕ)
    (r : Kmp X × Task) (some_device : c.ndevices ≡ suc ndevices)
    (allocated : omp_task_alloc X c s place q ≡ ok r) where
  stock_task : IsStock X c s place r.1
  stock_task = omp_task_alloc-IsStock X c s place q ndevices r some_device allocated

  -- A task that `__kmpc_omp_task_alloc` returned, where there is a device, and that is submitted
  -- with one to four dependences, none of which names all memory with an address: its four slots
  -- all hold an access when the first of them, as many as dependences, are resolved, even where
  -- addresses are null.
  pub stock_task_fits :
      (deps : List Depend)
      → length deps ≢ 0
      → length deps ≤ 4
      → any_all deps ≡ false
      → (t : Task) × (omp_task_with_deps r.1 deps []
          ≡ ok (t, accesses_resolve t.slots (length deps) ∷ commit_calls r.1, 1))
        × (length t.slots ≡ 4)
        × (constructed t.slots ≡ true)
  stock_task_fits deps some_ few fine =
      let room : length deps + (4 - length deps) ≡ 4 = omega arith in
      let inerts : ℕ → List Slot = λ n. replicate n (some inert_access) in
      let sized : length (filled (inerts (length deps)) deps ++ inerts (4 - length deps)) ≡ 4 =
        omega (
          arith,
          length-append {0} (filled (inerts (length deps)) deps) (inerts (4 - length deps)),
          length-filled (inerts (length deps)) deps,
          length-replicate {A = Slot} (length deps) (some inert_access),
          length-replicate {A = Slot} (4 - length deps) (some inert_access),
        ) in
      let (submitted, all_constructed) =
        with_deps_padded r.1 deps (4 - length deps) (rw room stock_task.0) (rw room stock_task.1)
          some_ fine in
      (_, submitted, sized, all_constructed)

  -- With more than four dependences the program ends.
  pub stock_task_too_many :
      (deps : List Depend) → 4 < length deps → omp_task_with_deps r.1 deps [] ≡ dies fatal
  unfolding omp_task_with_deps
  stock_task_too_many deps many =
      with_deps_too_many r.1 4 [] deps [] stock_task.0 (omega (arith, many))
