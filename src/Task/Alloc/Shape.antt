-- ===== src/Task/Alloc/Shape.antt =====
-- What an allocation that returns gives: the task's place, its slots and its device.
use xkomp.Prelude.{
  ℕ, suc, ◌+◌, ◌≤◌, ◌≡◌, refl, ap, ◌∙◌, sym, subst, arith, Bool, true, false, Option, none, some,
  List, [], ◌∷◌, ◌==◌, leb, leb→le, replicate, if◌then◌else◌, Outcome, ok, check, ◌>>◌, >>=-eq-ok,
  ok-injective, not,
}
use xkomp.Prelude.Int.{ℤ, pos, ◌==ℤ◌}
use xkomp.Device.{omp_device_id_to_xkomp, get_initial_device}
use xkomp.Device.Numbering.{to_xkomp-host, to_xkomp-below, num_devices-suc}
use xkomp.Task.Access.{inert_access, pad_accesses}
use xkomp.Task.Layout.{ktask_from_args, slot_count}
use xkomp.Task.Format.{Formats, Kmp, get_or_create}
use xkomp.Task.Alloc.{
  KmpFlags, Context, Request, Task, xk_flags, karg_slots, new_task, chosen_device, task_alloc,
  omp_task_alloc_with_deps, untied, omp_target_task_alloc_with_deps, stock, padded, omp_task_alloc,
  fixed_accesses,
}

check-eq-ok {ℓ} :
    {B : Type ℓ} (b : Bool) (m : Outcome B) {r : B}
    → (check b >> m) ≡ ok r
    → (b ≡ true) × (m ≡ ok r)
check-eq-ok true m h = (refl, h)
check-eq-ok false m h = cc

-- The device of a host task, and of a target task for one of the devices.
chosen_device-pos : (d : ℕ) → chosen_device (pos d) ≡ pos d
unfolding chosen_device
chosen_device-pos d = ground arith

pub initial_unique_id :
    (n : ℕ)
    → omp_device_id_to_xkomp (suc n) (chosen_device (get_initial_device (suc n))) ≡ ok (pos 0)
unfolding get_initial_device
initial_unique_id n = rw (num_devices-suc n, chosen_device-pos n) (to_xkomp-host n)

target_unique_id :
    (n d : ℕ)
    → d ≤ n
    → omp_device_id_to_xkomp (suc (suc n)) (chosen_device (pos d)) ≡ ok (pos (suc d))
target_unique_id n d h = rw (chosen_device-pos d) (to_xkomp-below n d h)

-- The flags of a task by what was asked for.
pub xk_flags_lem :
    (naccesses : ℕ) (unique_id : ℤ) (f : KmpFlags)
    → ((xk_flags naccesses unique_id f).accesses ≡ not (naccesses == 0))
      × ((xk_flags naccesses unique_id f).device ≡ not (unique_id ==ℤ pos 0))
      × ((xk_flags naccesses unique_id f).undeferable ≡ f.undeferred)
unfolding xk_flags
xk_flags_lem naccesses unique_id f = (ground arith, ground arith, ground arith)

device-shown : (d : ℕ) → (pos (suc d) ==ℤ pos 0) ≡ false
device-shown d = ground arith

module _ (X : Formats) (c : Context) (s : Kmp X) (place : ℕ) where
  -- The parts of an allocation that returns.
  abbrev pub Allocated : Request → ℕ → ℤ → Kmp X × Task → Type 0
  Allocated q naccesses u r =
      (format : ℕ) × (kargs : List (Option ℕ)) × (naccesses ≤ c.max_accesses)
      × (get_or_create X s q.loc q.jit_desc q.scatter ≡ ok (r.0, format))
      × (karg_slots (ktask_from_args place) q.n_args q.scatter ≡ ok kargs)
      × (r.1 ≡ new_task c place q naccesses u format kargs)

  task_alloc-eq-ok :
      (q : Request) (ndeps nacs : ℕ) (device_id u : ℤ) (r : Kmp X × Task)
      → omp_device_id_to_xkomp c.ndevices (chosen_device device_id) ≡ ok u
      → task_alloc X c s place q ndeps nacs device_id ≡ ok r
      → Allocated q (ndeps + nacs) u r
  unfolding task_alloc
  task_alloc-eq-ok q ndeps nacs device_id u r e h =
      let (u', e', h1) =
        >>=-eq-ok (omp_device_id_to_xkomp c.ndevices (chosen_device device_id)) _ h in
      let (room, h2) = check-eq-ok (leb (ndeps + nacs) c.max_accesses) _ h1 in
      let (_, h2') = check-eq-ok c.known _ h2 in
      let ((s', format), made, h3') =
        >>=-eq-ok (get_or_create X s q.loc q.jit_desc q.scatter) _ h2' in
      let (_, h3) = check-eq-ok c.given _ h3' in
      let (kargs, slots, h4) =
        >>=-eq-ok (karg_slots (ktask_from_args place) q.n_args q.scatter) _ h3 in
      let same : u' ≡ u = cc in
      let whole : (s', new_task c place q (ndeps + nacs) u' format kargs) ≡ r = ok-injective h4 in
      (
        format,
        kargs,
        leb→le (ndeps + nacs) c.max_accesses room,
        made ∙ ap (λ p. ok (p.0, format)) whole,
        slots,
        sym (ap (λ p. p.1) whole) ∙ ap (λ v. new_task c place q (ndeps + nacs) v format kargs) same,
      )

  -- A host task, where there is a device and the allocation returns, for a compiler that reveals
  -- the dependences at the allocation: there is room for all of its accesses and no
  -- more, it carries no device, and the calling thread is noted where there are accesses.
  pub omp_task_alloc_with_deps_lem :
      (q : Request) (n ndeps nacs : ℕ) (r : Kmp X × Task)
      → c.ndevices ≡ suc n
      → omp_task_alloc_with_deps X c s place q ndeps nacs ≡ ok r
      → (ndeps + nacs ≤ c.max_accesses)
        × (r.1.slots ≡ replicate (ndeps + nacs) none)
        × (r.1.flags.device ≡ false)
        × (r.1.flags.undeferable ≡ q.flags.undeferred)
        × (r.1.target ≡ none)
        × (r.1.spawning_thread ≡ (if ndeps + nacs == 0 then none else some c.thread))
  unfolding omp_task_alloc_with_deps new_task
  omp_task_alloc_with_deps_lem q n ndeps nacs r e h =
      let (format, kargs, room, made, slots, t) =
        task_alloc-eq-ok q ndeps nacs (get_initial_device c.ndevices) (pos 0) r
          (rw e (initial_unique_id n)) h in
      let (_, host, undeferred) = xk_flags_lem (ndeps + nacs) (pos 0) q.flags in
      rw t (room, refl, host, undeferred, refl, refl)

  -- A target task for one of the `n + 1` devices beside the host, where the allocation returns: it
  -- has a slot for each of its accesses, carries that device, by XKRT's number, and notes no thread.
  pub omp_target_task_alloc_with_deps_lem :
      (q : Request) (n d ndeps nacs : ℕ) (r : Kmp X × Task)
      → c.ndevices ≡ suc (suc n)
      → d ≤ n
      → omp_target_task_alloc_with_deps X c s place q ndeps nacs (pos d) ≡ ok r
      → (ndeps + nacs ≤ c.max_accesses)
        × (r.1.slots ≡ replicate (ndeps + nacs) none)
        × (r.1.flags.device ≡ true)
        × (r.1.target ≡ some (pos (suc d)))
        × (r.1.spawning_thread ≡ none)
  unfolding omp_target_task_alloc_with_deps new_task
  omp_target_task_alloc_with_deps_lem q n d ndeps nacs r e below h =
      let (format, kargs, room, made, slots, t) =
        task_alloc-eq-ok (untied q) ndeps nacs (pos d) (pos (suc d)) r
          (rw e (target_unique_id n d below)) h in
      let (_, device, _) = xk_flags_lem (ndeps + nacs) (pos (suc d)) (untied q).flags in
      rw t (
        room,
        refl,
        device ∙ rw (device-shown d) refl,
        rw (device-shown d) refl,
        ground (arith, device-shown d),
      )

  padded-slots :
      (q : Request) (u : ℤ) (format : ℕ) (kargs : List (Option ℕ))
      → pad_accesses (new_task c place q fixed_accesses u format kargs).slots 0 fixed_accesses
        ≡ replicate fixed_accesses (some inert_access)
  unfolding new_task pad_accesses
  padded-slots q u format kargs = refl

  -- What an allocation for an unpatched compiler gives: room for four accesses, all inert.
  abbrev pub IsStock : Task → Type 0
  IsStock t =
      (t.capacity ≡ some fixed_accesses)
      × (t.slots ≡ replicate fixed_accesses (some inert_access))
      × (t.karg_slots ≡ some (ktask_from_args place) ∷ [])

  padded-IsStock :
      (q : Request) (s' : Kmp X) (t : Task) (format : ℕ) (kargs : List (Option ℕ))
      → t ≡ new_task c place (stock q) fixed_accesses (pos 0) format kargs
      → kargs ≡ some (ktask_from_args place) ∷ []
      → IsStock (padded X (s', t)).1
  unfolding new_task
  padded-IsStock q s' t format kargs e k =
      rw e (refl, padded-slots (stock q) (pos 0) format kargs, k)

  pub omp_task_alloc-IsStock :
      (q : Request) (n : ℕ) (r : Kmp X × Task)
      → c.ndevices ≡ suc n
      → omp_task_alloc X c s place q ≡ ok r
      → IsStock r.1
  unfolding omp_task_alloc karg_slots slot_count
  omp_task_alloc-IsStock q n r e h =
      let (a, made, done) =
        >>=-eq-ok
          (task_alloc X c s place (stock q) fixed_accesses 0 (get_initial_device c.ndevices)) _ h in
      let (format, kargs, room, found, slots, t) =
        task_alloc-eq-ok (stock q) fixed_accesses 0 (get_initial_device c.ndevices) (pos 0) a
          (rw e (initial_unique_id n)) made in
      subst (λ v. IsStock v.1) (ok-injective done)
        (padded-IsStock q a.0 a.1 format kargs t (sym (ok-injective slots)))
