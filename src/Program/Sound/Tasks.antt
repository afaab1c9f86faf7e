-- ===== src/Program/Sound/Tasks.antt =====
-- The formats of the tasks that a program allocates (src/kmp/task.cc).
use xkomp.Prelude.{
  ℕ, ◌≡◌, refl, ap, List, [], ◌∷◌, ◌++◌, Allows, Allows->>=, Allows-any, Returns-Allows, check, leb,
}
use xkomp.Prelude.Int.{ℤ}
use xkomp.Device.{omp_device_id_to_xkomp}
use xkomp.Task.Format.{Formats, Kmp, get_or_create}
use xkomp.Task.Format.Register.Bodies.{
  AllName, Registered, Grows, Given, Names-Grows, get_or_create-Given,
}
use xkomp.Task.Layout.{ktask_from_args}
use xkomp.Task.Alloc.{
  Context, Request, Task, chosen_device, karg_slots, new_task, task_alloc, stock, untied,
  fixed_accesses, omp_task_alloc_with_deps, omp_target_task_alloc_with_deps, omp_target_task_alloc,
  omp_task_alloc,
}
use xkomp.Program.{
  Entrance, host_with_deps, target_with_deps, host_stock, target_stock, Effect, region, allocated,
  graph_calls, enter_alloc,
}

module _ (X : Formats) where
  -- What an allocation leaves: the task's format runs the bodies of tasks.
  abbrev pub Allocated : Kmp X → Kmp X × Task → Type 0
  Allocated s r = Given X s (r.0, r.1.format)

  task_alloc-Allocated :
      (c : Context) (s : Kmp X) (place : ℕ) (q : Request) (ndeps nacs : ℕ) (device : ℤ)
      → Registered X s
      → Allows (Allocated s) (task_alloc X c s place q ndeps nacs device)
  unfolding task_alloc new_task
  task_alloc-Allocated c s place q ndeps nacs device h =
      Allows->>= (Allocated s) (omp_device_id_to_xkomp c.ndevices (chosen_device device)) _
        (Allows-any _)
        (λ id _. Allows->>= (Allocated s) (check (leb _ c.max_accesses)) _ (Allows-any _) (λ _ _.
          Allows->>= (Allocated s) (check c.known) _ (Allows-any _) (λ _ _.
            Allows->>= (Allocated s) (get_or_create X s q.loc q.jit_desc q.scatter) _
              (Returns-Allows (Given X s) _ (
                get_or_create-Given X s
                  (record { loc = q.loc; jit_desc = q.jit_desc; scatter = q.scatter }) h))
              (λ r given. Allows->>= (Allocated s) (check c.given) _ (Allows-any _) (λ _ _.
                Allows->>= (Allocated s) (karg_slots (ktask_from_args place) q.n_args q.scatter) _
                  (Allows-any _) (λ kargs _. given))))))

  pub enter_alloc-Allocated :
      (e : Entrance) (c : Context) (s : Kmp X) (place : ℕ) (q : Request)
      → Registered X s
      → Allows (Allocated s) (enter_alloc X e c s place q)
  unfolding enter_alloc omp_task_alloc_with_deps omp_target_task_alloc_with_deps omp_task_alloc
      omp_target_task_alloc
  enter_alloc-Allocated (host_with_deps ndeps nacs) c s place q h =
      task_alloc-Allocated c s place q ndeps nacs _ h
  enter_alloc-Allocated (target_with_deps ndeps nacs device) c s place q h =
      task_alloc-Allocated c s place (untied q) ndeps nacs device h
  enter_alloc-Allocated host_stock c s place q h =
      Allows->>= (Allocated s) (task_alloc X c s place (stock q) fixed_accesses 0 _) _
        (task_alloc-Allocated c s place (stock q) fixed_accesses 0 _ h) (λ r given. given)
  enter_alloc-Allocated (target_stock device) c s place q h =
      Allows->>= (Allocated s) (task_alloc X c s place (stock (untied q)) fixed_accesses 0 device) _
        (task_alloc-Allocated c s place (stock (untied q)) fixed_accesses 0 device h)
        (λ r given. given)

  pub AllName-Grows :
      (t t' : X.Table) (ids : List ℕ) → Grows X t t' → AllName X t ids → AllName X t' ids
  AllName-Grows t t' [] g h = tt
  AllName-Grows t t' (id ∷ ids) g h = (Names-Grows X t t' id g h.0, AllName-Grows t t' ids g h.1)

  pub AllName-append :
      (t : X.Table) (xs ys : List ℕ) → AllName X t xs → AllName X t ys → AllName X t (xs ++ ys)
  AllName-append t [] ys h k = k
  AllName-append t (x ∷ xs) ys h k = (h.0, AllName-append t xs ys h.1 k)

module _ {V : Type 0} where
  -- The formats of the tasks that were allocated.
  abbrev pub formats_in : List (Effect V) → List ℕ
  formats_in [] = []
  formats_in (allocated t ∷ done) = t.format ∷ formats_in done
  formats_in (_ ∷ done) = formats_in done

  pub formats_in-append :
      (xs ys : List (Effect V)) → formats_in (xs ++ ys) ≡ formats_in xs ++ formats_in ys
  formats_in-append [] ys = refl
  formats_in-append (allocated t ∷ xs) ys = ap (λ ids. t.format ∷ ids) (formats_in-append xs ys)
  formats_in-append (region in_team evs ∷ xs) ys = formats_in-append xs ys
  formats_in-append (graph_calls cs ∷ xs) ys = formats_in-append xs ys
