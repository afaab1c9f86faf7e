-- ===== src/Target/Copies.antt =====
-- The asynchronous copy of src/kmp/target/api.cc against the synchronous one of src/device.cc.
use xkomp.Prelude.{
  ℕ, ◌+◌, ◌≤◌, ◌≡◌, ◌⊎◌, inl, inr, Bool-cases, Option-cases, set, refl, ap, ◌∙◌, arith, true, false,
  none, some, List, [], ◌∷◌, length, length-replicate, replicate, leb, Outcome, ok, dies, undefined,
  ◌>>=◌, fun_ext, ◌==◌, if◌then◌else◌,
}
use xkomp.Prelude.Int.{ℤ, pos, rem, pos_part, ◌==ℤ◌, ◌+ℤ◌}
use xkomp.Device.{
  omp_device_id_to_xkomp, get_initial_device, get_num_devices, host_device_unique_id,
}
use xkomp.Task.Access.{Slot, Depend, depend_access, deps_to_accesses}
use xkomp.Task.Access.DependSlots.{any_all}
use xkomp.Ompt.Tasks.Told.{fills}
use xkomp.Target.{
  Request, target_memcpy, kmp_target_memcpy_async, memcpy_accesses, body_memcpy_async,
}

returned :
    {X Y : Type 0} (m : Outcome X) (k : X → Outcome Y) → (m >>= (λ x. ok x) >>= k) ≡ (m >>= k)
returned (ok x) k = refl
returned (dies e) k = refl

-- One dependence at a time is as good as all at once.
memcpy_accesses_lem :
    (slots : List Slot) (i : ℕ) (ds : List Depend)
    → memcpy_accesses slots i ds ≡ deps_to_accesses slots i ds
unfolding memcpy_accesses deps_to_accesses
memcpy_accesses_lem slots i [] = refl
memcpy_accesses_lem slots i (d ∷ ds) =
    let one =
      if d.base_addr == 0 then ok slots else (depend_access d >>= λ a. ok (set slots i (some a))) in
    returned one (λ s. memcpy_accesses s (i + 1) ds)
    ∙ ap (λ k. one >>= k) (fun_ext (λ s. memcpy_accesses_lem s (i + 1) ds))

-- A number of a device is translated, or the division by zero is not defined.
translated :
    (n : ℕ) (a : ℤ)
    → ((x : ℤ) × (omp_device_id_to_xkomp n a ≡ ok x))
      ⊎ (omp_device_id_to_xkomp n a ≡ dies undefined)
unfolding omp_device_id_to_xkomp
translated n a = elim (Bool-cases (a ==ℤ get_initial_device n)) [
  | inl e ↦ rw e (inl (host_device_unique_id, refl))
  | inr e ↦ elim (Option-cases (rem a (pos_part (get_num_devices n)))) [
    | inl r ↦ rw (e, r) (inr refl)
    | inr (x, r) ↦ rw (e, r) (inl (pos 1 +ℤ x, refl))
  ]
]

-- The command that the task of an asynchronous copy emits is the synchronous copy with the same
-- arguments, where the dependences are not too many and none is on all memory; one ends the program
-- where the other does.
pub async-sync :
    (max ndevices : ℕ) (r : Request) (deps : List Depend)
    → length deps ≤ max
    → any_all deps ≡ false
    → (kmp_target_memcpy_async max ndevices r deps >>= λ t. ok (body_memcpy_async t))
      ≡ target_memcpy ndevices r
unfolding kmp_target_memcpy_async body_memcpy_async target_memcpy
async-sync max ndevices r deps few fine =
    let room : leb (length deps) max ≡ true = ground arith in
    let none_yet : List Slot = replicate (length deps) none in
    let slots =
      memcpy_accesses_lem none_yet 0 deps
      ∙ fills none_yet deps (length-replicate (length deps) none) fine in
    elim (translated ndevices r.src_device_num) [
      | inl (s, es) ↦ elim (translated ndevices r.dst_device_num) [
        | inl (d, ed) ↦ rw (room, es, ed, slots) refl
        | inr ed ↦ rw (room, es, ed) refl
      ]
      | inr es ↦ elim (translated ndevices r.dst_device_num) [
        | inl (d, ed) ↦ rw (room, es, ed) refl
        | inr ed ↦ rw (room, es, ed) refl
      ]
    ]
