-- ===== src/Task/Format/Locked/Steps.antt =====
-- What one step of a thread leaves, for itself and for the others (src/kmp/task.cc).
use xkomp.Prelude.{
  ℕ, ◌≡◌, refl, sym, subst, Bool, true, false, Bool-cases, inl, inr, Option, none, some,
  Option-cases, List, ◌∷◌, ◌==◌, ==_iff, Returns,
}
use xkomp.Task.Format.{Formats, Format, Kmp, find_format, format_key, loc_format}
use xkomp.Task.Format.Register.{Construct}
use xkomp.Task.Format.Locked.{
  Point, waiting, holding, absent, built, found, returned, Spinlock, Shared, spin, enter, looked_up,
  build_format, insert_entry, advance,
}

-- The thread holds the lock.
abbrev pub in_section : Point → Bool
in_section waiting = false
in_section (returned id) = false
in_section (holding key) = true
in_section (absent key) = true
in_section (built key id) = true
in_section (found id) = true

find_format-insert :
    (m : List (ℕ × ℕ)) (key id k a : ℕ)
    → find_format m key ≡ none
    → find_format m k ≡ some a
    → find_format ((key, id) ∷ m) k ≡ some a
unfolding find_format
find_format-insert m key id k a new e = elim (Bool-cases (key == k)) [
  | inl same ↦
      let clash : find_format m k ≡ none =
        subst (λ j. find_format m j ≡ none) ((==_iff key k).0 same) new in
      cc
  | inr other ↦ rw other e
]

find_format-here : (m : List (ℕ × ℕ)) (key id : ℕ) → find_format ((key, id) ∷ m) key ≡ some id
unfolding find_format
find_format-here m key id = rw ((==_iff key key).1 refl)

module _ (X : Formats) (L : Spinlock) where
  open L use {State, held, try_lock, try_lock-held, held-try_lock}
  open X use {Table, create, get, get-create, get-create_old}

  -- What the map answers for a key; without one, the template is given.
  abbrev pub answer : Kmp X → Option ℕ → Option ℕ
  answer s none = some s.host
  answer s (some key) = find_format s.per_loc key

  abbrev pub Grows : Kmp X → Kmp X → Type 0
  Grows s s' = (k : Option ℕ) (a : ℕ) → answer s k ≡ some a → answer s' k ≡ some a

  abbrev pub HasTemplate : Kmp X → Type 0
  HasTemplate s = (f : Format) × (get s.table s.host ≡ some f)

  -- What a thread knows of the map where it stands, for a call with the key `k`.
  abbrev pub Knows : Option ℕ → Kmp X → Point → Type 0
  Knows k s waiting = Unit {0}
  Knows k s (holding key) = k ≡ some key
  Knows k s (absent key) = (k ≡ some key) × (find_format s.per_loc key ≡ none)
  Knows k s (built key id) = (k ≡ some key) × (find_format s.per_loc key ≡ none)
  Knows k s (found id) = answer s k ≡ some id
  Knows k s (returned id) = answer s k ≡ some id

  abbrev pub key_of : Construct → Option ℕ
  key_of c = format_key c.loc c.jit_desc

  -- What a step of a thread leaves, for itself and for the others.
  pub record Stepped (k : Option ℕ) (s : Shared X L) (p : Point) (r : Shared X L × Point)
      : Type 0 where
    pub knows : Knows k r.0.kmp r.1
    pub grows : Grows s.kmp r.0.kmp
    pub template : HasTemplate r.0.kmp
    pub locks : in_section r.1 ≡ true → held r.0.per_loc_lock ≡ true
    pub same : in_section p ≡ false → r.0.kmp ≡ s.kmp
    pub keeps : in_section p ≡ false → held s.per_loc_lock ≡ true → held r.0.per_loc_lock ≡ true
    pub takes : in_section p ≡ false → in_section r.1 ≡ true → held s.per_loc_lock ≡ false

  unmoved :
      (k : Option ℕ) (s : Shared X L) (p q : Point)
      → HasTemplate s.kmp
      → Knows k s.kmp q
      → (in_section q ≡ true → held s.per_loc_lock ≡ true)
      → (in_section p ≡ false → in_section q ≡ false)
      → Stepped k s p (s, q)
  unmoved k s p q t n l out = record {
    knows = n;
    grows = λ j a e. e;
    template = t;
    locks = l;
    same = λ e. refl;
    keeps = λ e h. h;
    takes = λ e h. let new = out e in cc;
  }

  not_held : (l l' : State) → try_lock l ≡ some l' → held l ≡ false
  not_held l l' free = elim (Bool-cases (held l)) [
    | inl taken ↦ let stuck = try_lock-held l taken in cc
    | inr free_lock ↦ free_lock
  ]

  enter-Stepped :
      (k : Option ℕ) (s : Shared X L) → HasTemplate s.kmp → Stepped k s waiting (enter X L s k)
  unfolding enter spin
  enter-Stepped none s t = unmoved none s waiting (returned s.kmp.host) t refl (λ e. cc) (λ e. refl)
  enter-Stepped (some key) s t = elim (Option-cases (try_lock s.per_loc_lock)) [
    | inl taken ↦ rw taken (unmoved (some key) s waiting waiting t tt (λ h. cc) (λ h. refl))
    | inr (l, free) ↦ rw free (record {
      knows = refl;
      grows = λ j a h. h;
      template = t;
      locks = λ h. held-try_lock s.per_loc_lock l free;
      same = λ h. refl;
      keeps = λ h h'. held-try_lock s.per_loc_lock l free;
      takes = λ h h'. not_held s.per_loc_lock l free;
    })
  ]

  looked_up-Stepped :
      (k : Option ℕ) (s : Shared X L) (key : ℕ)
      → HasTemplate s.kmp
      → k ≡ some key
      → held s.per_loc_lock ≡ true
      → Stepped k s (holding key) (s, looked_up X L key (find_format s.kmp.per_loc key))
  unfolding looked_up
  looked_up-Stepped k s key t e l = elim (Option-cases (find_format s.kmp.per_loc key)) [
    | inl new ↦ rw new (unmoved k s (holding key) (absent key) t (e, new) (λ h. l) (λ h. cc))
    | inr (id, there) ↦ rw there (
        unmoved k s (holding key) (found id) t (subst (λ j. answer s.kmp j ≡ some id) (sym e) there)
          (λ h. l) (λ h. cc))
  ]

  build_format-Stepped :
      (k : Option ℕ) (s : Shared X L) (key : ℕ) (format : Format → Format)
      → HasTemplate s.kmp
      → Knows k s.kmp (absent key)
      → held s.per_loc_lock ≡ true
      → Returns
          (Stepped k s (absent key))
          (build_format X L s key format (get s.kmp.table s.kmp.host))
  unfolding build_format
  build_format-Stepped k s key format (f, there) n l = rw there (record {
    knows = n;
    grows = elim [ none ↦ λ a h. h | some j ↦ λ a h. h ];
    template = (f, get-create_old s.kmp.table (format f) f s.kmp.host there);
    locks = λ h. l;
    same = λ h. cc;
    keeps = λ h h'. cc;
    takes = λ h h'. cc;
  })

  Grows-insert_entry :
      (s : Shared X L) (key id : ℕ)
      → find_format s.kmp.per_loc key ≡ none
      → Grows s.kmp (insert_entry X L s key id).kmp
  unfolding insert_entry
  Grows-insert_entry s key id new none a h = h
  Grows-insert_entry s key id new (some k) a h = find_format-insert s.kmp.per_loc key id k a new h

  built-Stepped :
      (k : Option ℕ) (s : Shared X L) (key id : ℕ)
      → HasTemplate s.kmp
      → Knows k s.kmp (built key id)
      → held s.per_loc_lock ≡ true
      → Stepped k s (built key id) (insert_entry X L s key id, found id)
  unfolding insert_entry
  built-Stepped k s key id t n l = record {
    knows =
        subst (λ j. answer (insert_entry X L s key id).kmp j ≡ some id) (sym n.0)
          (find_format-here s.kmp.per_loc key id);
    grows = Grows-insert_entry s key id n.1;
    template = t;
    locks = λ h. l;
    same = λ h. cc;
    keeps = λ h h'. cc;
    takes = λ h h'. cc;
  }

  pub advance-Stepped :
      (c : Construct) (s : Shared X L) (p : Point)
      → HasTemplate s.kmp
      → Knows (key_of c) s.kmp p
      → (in_section p ≡ true → held s.per_loc_lock ≡ true)
      → Returns (Stepped (key_of c) s p) (advance X L c s p)
  unfolding advance
  advance-Stepped c s waiting t n l = enter-Stepped (key_of c) s t
  advance-Stepped c s (holding key) t n l = looked_up-Stepped (key_of c) s key t n (l refl)
  advance-Stepped c s (absent key) t n l =
      build_format-Stepped (key_of c) s key (λ f. loc_format f c.loc c.jit_desc c.scatter) t n
        (l refl)
  advance-Stepped c s (built key id) t n l = built-Stepped (key_of c) s key id t n (l refl)
  advance-Stepped c s (found id) t n l = record {
    knows = n;
    grows = λ j a h. h;
    template = t;
    locks = λ h. cc;
    same = λ h. refl;
    keeps = λ h h'. cc;
    takes = λ h h'. cc;
  }
  advance-Stepped c s (returned id) t n l =
      unmoved (key_of c) s (returned id) (returned id) t n (λ h. cc) (λ h. refl)
