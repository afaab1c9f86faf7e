-- ===== src/Task/Format/Locked/Solo.antt =====
-- A thread that nobody disturbs between its steps.
use xkomp.Prelude.{
  ℕ, zero, suc, ◌≡◌, refl, sym, ap, ◌∙◌, fun_ext, some, Option-cases, inl, inr, List, [], ◌∷◌, ◌==◌,
  ==_iff, if◌then◌else◌, if_split, if_true, Outcome, ok, dies, ◌>>=◌, >>=-assoc,
}
use xkomp.Task.Format.{
  Formats, Kmp, find_format, format_key, create_format, create_from, get_or_create_at,
  get_or_create_key, get_or_create,
}
use xkomp.Task.Format.Register.{Construct}
use xkomp.Task.Format.Locked.{
  Point, waiting, returned, Spinlock, Shared, World, spin, enter, looked_up, build_format,
  insert_entry, advance, moved_to, turn, interleave,
}

module _ (X : Formats) (L : Spinlock) where
  open L use {State, try_lock, unlock, unlock-try_lock}
  open X use {get}

  abbrev steps : ℕ → Construct → Shared X L × Point → Outcome (Shared X L × Point)
  steps zero c r = ok r
  steps (suc n) c r = advance X L c r.0 r.1 >>= steps n c

  abbrev again : ℕ → ℕ → List ℕ
  again i zero = []
  again i (suc n) = i ∷ again i n

  moved_twice :
      (w : World X L) (i : ℕ) (a b : Shared X L × Point)
      → moved_to X L (moved_to X L w i a) i b ≡ moved_to X L w i b
  moved_twice w i a b =
      ap (λ p. record { shared = b.0; points = p })
        (fun_ext (λ j.
          if_split (λ q. (if j == i then b.1 else q) ≡ (if j == i then b.1 else w.points j))
            (j == i) a.1 (w.points j) (λ e. rw e refl) (λ e. refl)))

  module _ (calls : ℕ → Construct) (w : World X L) (i : ℕ) where
    after-moved :
        (n : ℕ)
        → ((q : Shared X L × Point)
            → interleave X L calls (again i n) (moved_to X L w i q)
              ≡ (steps n (calls i) q >>= λ r. ok (moved_to X L w i r)))
        → (r : Shared X L × Point) (m : Outcome (Shared X L × Point))
        → ((m >>= λ q. ok (moved_to X L (moved_to X L w i r) i q))
            >>= interleave X L calls (again i n))
          ≡ (m >>= steps n (calls i) >>= λ q. ok (moved_to X L w i q))
    after-moved n ih r (dies why) = refl
    after-moved n ih r (ok q) = ap (interleave X L calls (again i n)) (moved_twice w i r q) ∙ ih q

    interleave-again :
        (n : ℕ) (r : Shared X L × Point)
        → interleave X L calls (again i n) (moved_to X L w i r)
          ≡ (steps n (calls i) r >>= λ q. ok (moved_to X L w i q))
    unfolding interleave turn
    interleave-again zero r = refl
    interleave-again (suc n) r =
        ap
          (λ p.
            (advance X L (calls i) r.0 p >>= λ q. ok (moved_to X L (moved_to X L w i r) i q))
            >>= interleave X L calls (again i n))
          (if_true (i == i) r.1 (w.points i) ((==_iff i i).1 refl))
        ∙ after-moved n (interleave-again n) r (advance X L (calls i) r.0 r.1)

  steps-get_or_create :
      (c : Construct) (s : Kmp X) (l l' : State)
      → try_lock l ≡ some l'
      → steps 5 c (record { kmp = s; per_loc_lock = l }, waiting) ≡ (
          get_or_create X s c.loc c.jit_desc c.scatter >>= λ r.
          ok (record { kmp = r.0; per_loc_lock = l }, returned r.1))
  unfolding advance spin enter looked_up build_format insert_entry get_or_create get_or_create_key
      get_or_create_at create_from create_format
  steps-get_or_create c s l l' free = elim (Option-cases (format_key c.loc c.jit_desc)) [
    | inl keyless ↦ rw keyless refl
    | inr (key, e) ↦ elim (Option-cases (find_format s.per_loc key)) [
      | inr (id, there) ↦ rw (e, free, there, unlock-try_lock l l' free) refl
      | inl new ↦ elim (Option-cases (get s.table s.host)) [
        | inl unknown ↦ rw (e, free, new, unknown) refl
        | inr (f, known) ↦ rw (e, free, new, known, unlock-try_lock l l' free) refl
      ]
    ]
  ]

  -- A thread that waits at a lock that it can take, wherever the others stand, is through in five
  -- steps if none of theirs comes between: it leaves the map and returns the id as `get_or_create`
  -- has them, with the lock as it was and the others where they were, and it dies where
  -- `get_or_create` dies.
  pub interleave-get_or_create :
      (calls : ℕ → Construct) (w : World X L) (i : ℕ) (s : Kmp X) (l l' : State)
      → try_lock l ≡ some l'
      → interleave X L calls
          (i ∷ i ∷ i ∷ i ∷ i ∷ [])
          (moved_to X L w i (record { kmp = s; per_loc_lock = l }, waiting))
        ≡ (get_or_create X s (calls i).loc (calls i).jit_desc (calls i).scatter >>= λ r.
            ok (moved_to X L w i (record { kmp = r.0; per_loc_lock = l }, returned r.1)))
  interleave-get_or_create calls w i s l l' free =
      interleave-again calls w i 5 (record { kmp = s; per_loc_lock = l }, waiting)
      ∙ ap (λ m. m >>= λ q. ok (moved_to X L w i q)) (steps-get_or_create (calls i) s l l' free)
      ∙ sym (>>=-assoc (get_or_create X s (calls i).loc (calls i).jit_desc (calls i).scatter) _ _)
