-- ===== src/Program/Finish/Tasks.antt =====
-- An allocation of a task that its entry point accepts does not die (src/kmp/task.cc).
use xkomp.Prelude.{
  ℕ, zero, suc, ◌+◌, ◌≤◌, ◌≡◌, refl, arith, inl, inr, Bool, true, not, ◌&&◌, ◌||◌, ◌==◌, leb,
  Bool-cases, if_both, Returns, Returns->>=, checked-Returns,
}
use xkomp.Prelude.Int.{ℤ, pos, negsuc, ◌==ℤ◌}
use xkomp.Device.Numbering.{num_devices-suc}
use xkomp.Task.Alloc.Shape.{initial_unique_id}
use xkomp.Device.{get_initial_device, omp_device_id_to_xkomp}
use xkomp.Task.Format.{Formats, Kmp, get_or_create}
use xkomp.Task.Format.Register.Bodies.{Registered, get_or_create-Given}
use xkomp.Task.Layout.{ktask_from_args}
use xkomp.Task.Alloc.{
  Context, Request, chosen_device, karg_slots, task_alloc, stock, untied, fixed_accesses,
  omp_task_alloc_with_deps, omp_target_task_alloc_with_deps, omp_target_task_alloc, omp_task_alloc,
}
use xkomp.Program.{
  Entrance, host_with_deps, target_with_deps, host_stock, target_stock, enter_alloc,
}

-- What the entry points accept: a thread that XKRT knows, a new task from XKRT, as many items as a task may have, a device beside the host for a
-- target task, and one slot where the arguments are packed.
abbrev packed : Request → Bool
packed q = not (q.scatter == 0) || q.n_args == 1

abbrev pub acceptable_alloc : Entrance → Context → Request → Bool
acceptable_alloc (host_with_deps ndeps nacs) c q =
    (c.known && c.given) && (leb 1 c.ndevices && (leb (ndeps + nacs) c.max_accesses && packed q))
acceptable_alloc (target_with_deps ndeps nacs device) c q =
    (c.known && c.given) && (leb 2 c.ndevices && (leb (ndeps + nacs) c.max_accesses && packed q))
acceptable_alloc host_stock c q =
    (c.known && c.given) && (leb 1 c.ndevices && leb fixed_accesses c.max_accesses)
acceptable_alloc (target_stock device) c q =
    (c.known && c.given) && (leb 2 c.ndevices && leb fixed_accesses c.max_accesses)

device_exists : (n : ℕ) (d : ℤ) → 2 ≤ n → Returns (λ _. Unit {0}) (omp_device_id_to_xkomp n d)
unfolding omp_device_id_to_xkomp
device_exists zero d h = absurd (omega arith)
device_exists (suc zero) d h = absurd (omega arith)
device_exists (suc (suc n)) (pos a) h =
    rw (num_devices-suc (suc n))
      (if_both (Returns (λ _. Unit {0})) (pos a ==ℤ pos (suc n)) _ _ tt tt)
device_exists (suc (suc n)) (negsuc a) h =
    rw (num_devices-suc (suc n))
      (if_both (Returns (λ _. Unit {0})) (negsuc a ==ℤ pos (suc n)) _ _ tt tt)

host_exists :
    (n : ℕ)
    → 1 ≤ n
    → Returns (λ _. Unit {0}) (omp_device_id_to_xkomp n (chosen_device (get_initial_device n)))
host_exists zero h = absurd (omega arith)
host_exists (suc n) h = rw (initial_unique_id n) tt

karg_slots-Returns :
    (k n scatter : ℕ)
    → (not (scatter == 0) || n == 1) ≡ true
    → Returns (λ _. Unit {0}) (karg_slots k n scatter)
unfolding karg_slots
karg_slots-Returns k n scatter h = elim (Bool-cases (scatter == 0)) [
  | inl packed_form ↦ rw packed_form (checked-Returns (λ _. Unit {0}) (n == 1) _ (ground arith) tt)
  | inr unpacked ↦ rw unpacked tt
]

module _ (X : Formats) where
  task_alloc-Returns :
      (c : Context) (s : Kmp X) (place : ℕ) (q : Request) (ndeps nacs : ℕ) (device : ℤ)
      → Registered X s
      → Returns (λ _. Unit {0}) (omp_device_id_to_xkomp c.ndevices (chosen_device device))
      → leb (ndeps + nacs) c.max_accesses ≡ true
      → c.known ≡ true
      → c.given ≡ true
      → packed q ≡ true
      → Returns (λ _. Unit {0}) (task_alloc X c s place q ndeps nacs device)
  unfolding task_alloc
  task_alloc-Returns c s place q ndeps nacs device h id fits known given one =
      Returns->>= (λ _. Unit {0}) (omp_device_id_to_xkomp c.ndevices (chosen_device device)) _ id
        (λ u _.
          checked-Returns (λ _. Unit {0}) (leb (ndeps + nacs) c.max_accesses) _ fits
            (checked-Returns (λ _. Unit {0}) c.known _ known
              (Returns->>= (λ _. Unit {0}) (get_or_create X s q.loc q.jit_desc q.scatter) _
                (get_or_create-Given X s
                  (record { loc = q.loc; jit_desc = q.jit_desc; scatter = q.scatter }) h)
                (λ r _.
                  checked-Returns (λ _. Unit {0}) c.given _ given
                    (Returns->>= (λ _. Unit {0})
                      (karg_slots (ktask_from_args place) q.n_args q.scatter) _
                      (karg_slots-Returns (ktask_from_args place) q.n_args q.scatter one)
                      (λ kargs _. tt))))))

  pub enter_alloc-Returns :
      (e : Entrance) (c : Context) (s : Kmp X) (place : ℕ) (q : Request)
      → Registered X s
      → acceptable_alloc e c q ≡ true
      → Returns (λ _. Unit {0}) (enter_alloc X e c s place q)
  unfolding enter_alloc omp_task_alloc_with_deps omp_target_task_alloc_with_deps omp_task_alloc
      omp_target_task_alloc
  enter_alloc-Returns (host_with_deps ndeps nacs) c s place q h a =
      task_alloc-Returns c s place q ndeps nacs _ h (host_exists c.ndevices (ground arith))
        (ground arith) (ground arith) (ground arith) (ground arith)
  enter_alloc-Returns (target_with_deps ndeps nacs device) c s place q h a =
      task_alloc-Returns c s place (untied q) ndeps nacs device h
        (device_exists c.ndevices _ (ground arith)) (ground arith) (ground arith) (ground arith)
        (ground arith)
  enter_alloc-Returns host_stock c s place q h a =
      Returns->>= (λ _. Unit {0}) (task_alloc X c s place (stock q) fixed_accesses 0 _) _
        (task_alloc-Returns c s place (stock q) fixed_accesses 0 _ h
          (host_exists c.ndevices (ground arith)) (ground arith) (ground arith) (ground arith) refl)
        (λ r _. tt)
  enter_alloc-Returns (target_stock device) c s place q h a =
      Returns->>= (λ _. Unit {0})
        (task_alloc X c s place (stock (untied q)) fixed_accesses 0 device) _
        (task_alloc-Returns c s place (stock (untied q)) fixed_accesses 0 device h
          (device_exists c.ndevices _ (ground arith)) (ground arith) (ground arith) (ground arith)
          refl)
        (λ r _. tt)
