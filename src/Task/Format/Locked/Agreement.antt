-- ===== src/Task/Format/Locked/Agreement.antt =====
-- Threads that ask for the format of the same construct at the same time.
use xkomp.Prelude.{
  ℕ, ◌≡◌, sym, subst, arith, true, false, ◌&&◌, Bool-cases, inl, inr, Option, List, [], ◌∷◌, ◌==◌,
  ==_iff, if◌then◌else◌, if_split, Returns, Returns->>=, Returns-map,
}
use xkomp.Task.Format.{Formats, Kmp, format_key}
use xkomp.Task.Format.Register.{Construct}
use xkomp.Task.Format.Locked.{
  Point, waiting, holding, absent, built, found, returned, Spinlock, Shared, World, advance,
  moved_to, turn, interleave, all_waiting,
}
use xkomp.Task.Format.Locked.Steps.{
  in_section, Grows, HasTemplate, Knows, key_of, Stepped, advance-Stepped,
}

module _ (X : Formats) (L : Spinlock) where
  open L use {State, held}

  -- The invariant of the threads: each knows what it does, one at most is between the lock and the
  -- unlock, and while it is there the lock is taken.
  record Safe (calls : ℕ → Construct) (w : World X L) : Type 0 where
    template : HasTemplate X L w.shared.kmp
    knows : (i : ℕ) → Knows X L (key_of X L (calls i)) w.shared.kmp (w.points i)
    locks : (i : ℕ) → in_section (w.points i) ≡ true → held w.shared.per_loc_lock ≡ true
    alone : (i j : ℕ) → in_section (w.points i) ≡ true → in_section (w.points j) ≡ true → i ≡ j

  -- What a thread outside the lock knows stays true as the map grows.
  Knows-outside :
      (k : Option ℕ) (s s' : Kmp X) (p : Point)
      → Grows X L s s'
      → in_section p ≡ false
      → Knows X L k s p
      → Knows X L k s' p
  Knows-outside k s s' waiting g out n = tt
  Knows-outside k s s' (returned id) g out n = g k id n
  Knows-outside k s s' (holding key) g out n = cc
  Knows-outside k s s' (absent key) g out n = cc
  Knows-outside k s s' (built key id) g out n = cc
  Knows-outside k s s' (found id) g out n = cc

  module _ (calls : ℕ → Construct) (w : World X L) (v : Safe calls w) (i : ℕ)
      (r : Shared X L × Point)
      (st : Stepped X L (key_of X L (calls i)) w.shared (w.points i) r) where
    -- Where thread `i` is not outside, another one is; where it is, the map is as it was.
    others-Knows :
        (j : ℕ) → (j == i) ≡ false → Knows X L (key_of X L (calls j)) r.0.kmp (w.points j)
    others-Knows j other = elim (Bool-cases (in_section (w.points i))) [
      | inr out ↦
          subst (λ s. Knows X L (key_of X L (calls j)) s (w.points j)) (sym (st.same out))
            (v.knows j)
      | inl inside ↦ elim (Bool-cases (in_section (w.points j))) [
        | inl both ↦ let same = v.alone i j inside both in ground arith
        | inr out ↦
            Knows-outside (key_of X L (calls j)) w.shared.kmp r.0.kmp (w.points j) st.grows out
              (v.knows j)
      ]
    ]

    others-locks :
        (j : ℕ) → (j == i) ≡ false → in_section (w.points j) ≡ true → held r.0.per_loc_lock ≡ true
    others-locks j other h = elim (Bool-cases (in_section (w.points i))) [
      | inr out ↦ st.keeps out (v.locks j h)
      | inl inside ↦ let same = v.alone i j inside h in ground arith
    ]

    -- Where thread `i` comes to stand inside, every other thread is outside.
    others-outside :
        (j : ℕ) → (j == i) ≡ false → in_section r.1 ≡ true → in_section (w.points j) ≡ true → ⊥
    others-outside j other now h = elim (Bool-cases (in_section (w.points i))) [
      | inr out ↦ let free = st.takes out now in let taken = v.locks j h in cc
      | inl inside ↦ let same = v.alone i j inside h in ground arith
    ]

    moved-Safe : Safe calls (moved_to X L w i r)
    moved-Safe = record {
      template = st.template;
      knows = λ j.
          if_split (Knows X L (key_of X L (calls j)) r.0.kmp) (j == i) r.1 (w.points j)
            (λ same.
              subst (λ k. Knows X L (key_of X L (calls k)) r.0.kmp r.1) (sym ((==_iff j i).0 same))
                st.knows)
            (others-Knows j);
      locks = λ j.
          if_split (λ p. in_section p ≡ true → held r.0.per_loc_lock ≡ true) (j == i) r.1
            (w.points j) (λ same. st.locks) (others-locks j);
      alone = λ j k.
          if_split
            (λ p.
              in_section p ≡ true → in_section (if k == i then r.1 else w.points k) ≡ true → j ≡ k)
            (j == i) r.1 (w.points j)
            (λ same now.
              if_split (λ p. in_section p ≡ true → j ≡ k) (k == i) r.1 (w.points k)
                (λ same' h. ground arith) (λ other h. elim (others-outside k other now h) [ ]))
            (λ other h.
              if_split (λ p. in_section p ≡ true → j ≡ k) (k == i) r.1 (w.points k)
                (λ same now. elim (others-outside j other now h) [ ])
                (λ other' h'. v.alone j k h h'));
    }

  turn-Safe :
      (calls : ℕ → Construct) (i : ℕ) (w : World X L)
      → Safe calls w
      → Returns (Safe calls) (turn X L calls i w)
  unfolding turn
  turn-Safe calls i w v =
      Returns->>= (Safe calls) (advance X L (calls i) w.shared (w.points i)) _
        (advance-Stepped X L (calls i) w.shared (w.points i) v.template (v.knows i) (v.locks i))
        (moved-Safe calls w v i)

  interleave-Safe :
      (calls : ℕ → Construct) (schedule : List ℕ) (w : World X L)
      → Safe calls w
      → Returns (Safe calls) (interleave X L calls schedule w)
  unfolding interleave
  interleave-Safe calls [] w v = v
  interleave-Safe calls (i ∷ rest) w v =
      Returns->>= (Safe calls) (turn X L calls i w) (interleave X L calls rest)
        (turn-Safe calls i w v) (interleave-Safe calls rest)

  all_waiting-Safe :
      (calls : ℕ → Construct) (s : Kmp X) (l : State)
      → HasTemplate X L s
      → Safe calls (all_waiting X L s l)
  all_waiting-Safe calls s l t = record {
    template = t;
    knows = λ i. tt;
    locks = λ i h. cc;
    alone = λ i j h h'. cc;
  }

  -- Two threads that have both returned were given the same id.
  abbrev pub SameGiven : Point → Point → Type 0
  SameGiven (returned a) (returned b) = a ≡ b
  SameGiven _ _ = Unit {0}

  Knows-SameGiven :
      (k : Option ℕ) (s : Kmp X) (p q : Point) → Knows X L k s p → Knows X L k s q → SameGiven p q
  Knows-SameGiven k s (returned a) (returned b) n m = cc
  Knows-SameGiven k s (returned a) waiting n m = tt
  Knows-SameGiven k s (returned a) (holding key) n m = tt
  Knows-SameGiven k s (returned a) (absent key) n m = tt
  Knows-SameGiven k s (returned a) (built key id) n m = tt
  Knows-SameGiven k s (returned a) (found id) n m = tt
  Knows-SameGiven k s waiting q n m = tt
  Knows-SameGiven k s (holding key) q n m = tt
  Knows-SameGiven k s (absent key) q n m = tt
  Knows-SameGiven k s (built key id) q n m = tt
  Knows-SameGiven k s (found id) q n m = tt

  -- Any number of threads call the function at the same time, over any map with a template, and
  -- make their steps in any order: no step goes wrong, of two threads with the same key one at most
  -- is between the lock and the unlock, and if both have returned they were given the same id.
  pub interleave-SameGiven :
      (calls : ℕ → Construct) (schedule : List ℕ) (s : Kmp X) (l : State) (i j : ℕ)
      → HasTemplate X L s
      → (i == j) ≡ false
      → format_key (calls i).loc (calls i).jit_desc ≡ format_key (calls j).loc (calls j).jit_desc
      → Returns
          (λ w.
            ((in_section (w.points i) && in_section (w.points j)) ≡ false)
            × SameGiven (w.points i) (w.points j))
          (interleave X L calls schedule (all_waiting X L s l))
  interleave-SameGiven calls schedule s l i j t ne e =
      Returns-map (Safe calls) _
        (λ w v. (
          (let alone = v.alone i j in ground arith),
          Knows-SameGiven (key_of X L (calls j)) w.shared.kmp (w.points i) (w.points j)
              (subst (λ k. Knows X L k w.shared.kmp (w.points i)) e (v.knows i)) (v.knows j),
        ))
        (interleave X L calls schedule (all_waiting X L s l))
        (interleave-Safe calls schedule (all_waiting X L s l) (all_waiting-Safe calls s l t))
