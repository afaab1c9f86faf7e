-- ===== src/Stencil/Tasks/Preserve.antt =====
-- One task of the stencil keeps the invariant of Stencil/Tasks/Reached.
use xkomp.Prelude.{
  ℕ, suc, ◌+◌, ◌-◌, ◌*◌, ◌/◌, ◌≤◌, ◌<◌, ◌≡◌, ◌⊎◌, inl, inr, sym, ap, ◌∙◌, subst, arith, ◌==◌,
  ==_iff, ltb, true, false, Bool-cases, Returns, Returns-map,
}
use xkomp.Stencil.{Floats, range_from, Memory, Layout, cells}
use xkomp.Stencil.Memory.{Placed, average}
use xkomp.Stencil.Cells.{in_block, block_below}
use xkomp.Stencil.Line.Start.{is_inside, line, same_array, other_array, at_end}
use xkomp.Stencil.Tasks.{layout_at, Ended, count_task, ready}
use xkomp.Stencil.Tasks.Ready.{array, array_cases, layout_at-size}
use xkomp.Stencil.Tasks.Step.{Stepped, block-Stepped}
use xkomp.Stencil.Tasks.Reached.{layout_at-Placed, ghost_in, Reached, beside, new_value}

with_size : (u v n n' g g' : ℕ) → n' ≡ n → g' ≡ g → u + n' + g' ≤ v - g' → u + n + g ≤ v - g
with_size u v n n' g g' e f h = omega arith

beyond : (k j bs : ℕ) → 0 < bs → j * bs ≤ k → (k / bs == j) ≡ false → j * bs + bs ≤ k
beyond k j bs h lo ne = grind arith

module _ (A : Floats) (l : Layout) (p : Placed A l) (nd bs : ℕ) (some_cells : 0 < bs)
    (size : l.n ≡ nd * bs) where
  -- The array that a sweep reads and the one that it writes lie apart.
  arrays_apart :
      (t : ℕ)
      → (array l (suc t) + l.n + l.ghost ≤ array l t - l.ghost)
        ⊎ (array l t + l.n + l.ghost ≤ array l (suc t) - l.ghost)
  unfolding layout_at
  arrays_apart t =
      let e = layout_at-size l t in
      elim (layout_at-Placed A l p nd bs some_cells size t).apart [
        | inl a ↦ inl (with_size _ _ _ _ _ _ e.0 e.1 a)
        | inr a ↦ inr (with_size _ _ _ _ _ _ e.0 e.1 a)
      ]

  -- What the task of the device `j` in the sweep `suc c` leaves.
  abbrev pub Left : ℕ → ℕ → Memory A → Memory A → Type 0
  Left c j mem mem' =
      ((a : ℕ) → (a < array l (suc c)) ⊎ (array l (suc c) + l.n ≤ a) → mem' a ≡ mem a)
      × (((k : ℕ)
            → j * bs ≤ k
            → k < j * bs + bs
            → mem' (array l (suc c) + k) ≡ average A (layout_at l (suc c)) mem k)
          × ((k : ℕ)
              → (k < j * bs) ⊎ (j * bs + bs ≤ k)
              → mem' (array l (suc c) + k) ≡ mem (array l (suc c) + k)))

  pub task-Left :
      (c j : ℕ) (mem : Memory A)
      → j < nd
      → Returns (Left c j mem) (cells A (layout_at l (suc c)) (range_from (j * bs) bs) mem)
  task-Left c j mem h =
      let e = (layout_at-size l (suc c)).0 in
      Returns-map
        (Stepped A (layout_at l (suc c)) (layout_at-Placed A l p nd bs some_cells size (suc c))
          (j * bs) bs mem)
        (Left c j mem)
        (λ mem' s. (
          subst (λ n. (a : ℕ) → (a < array l (suc c)) ⊎ (array l (suc c) + n ≤ a) → mem' a ≡ mem a)
              e s.0,
          s.1,
        ))
        (cells A (layout_at l (suc c)) (range_from (j * bs) bs) mem)
        (block-Stepped A (layout_at l (suc c))
          (layout_at-Placed A l p nd bs some_cells size (suc c)) (j * bs) bs mem
          (rw (e, size) (block_below j nd bs h)))

  not_in_block : (k j : ℕ) → (k / bs == j) ≡ false → (k < j * bs) ⊎ (j * bs + bs ≤ k)
  not_in_block k j h = elim (Bool-cases (ltb k (j * bs))) [
    | inl below ↦ inl (ground arith)
    | inr above ↦ inr (beyond k j bs some_cells (ground arith) h)
  ]

  module _ (j : ℕ) (ended : Ended) (mem mem' : Memory A) (below : j < nd)
      (can : ready l nd bs ended j ≡ true) (r : Reached A l p nd bs some_cells size ended mem)
      (s : Left (ended j) j mem mem') where
    -- A cell of the array that is read is as it was.
    read_apart :
        (k : ℕ)
        → k < l.n
        → (array l (ended j) + k < array l (suc (ended j)))
          ⊎ (array l (suc (ended j)) + l.n ≤ array l (ended j) + k)
    read_apart k h =
        let g = ghost_in A l p nd bs some_cells size (ended j) in
        let g' = ghost_in A l p nd bs some_cells size (suc (ended j)) in
        elim (arrays_apart (ended j)) [ inl a ↦ inr (omega arith) | inr a ↦ inl (omega arith) ]

    -- A cell of another block is as it was, in either array.
    kept_cell :
        (k t : ℕ) → k < l.n → (k / bs == j) ≡ false → mem' (array l t + k) ≡ mem (array l t + k)
    unfolding layout_at
    kept_cell k t h other = elim (array_cases l t (suc (ended j))) [
      | inl v ↦ rw v (s.1.1 k (not_in_block k j other))
      | inr u ↦ rw u (s.0 (array l (ended j) + k) (read_apart k h))
    ]

    kept_end :
        (t i : ℕ)
        → i < l.n + 2 * l.ghost
        → is_inside l.n l.ghost i ≡ false
        → mem' (array l t - l.ghost + i) ≡ mem (array l t - l.ghost + i)
    unfolding layout_at
    kept_end t i h out = s.0 (array l t - l.ghost + i) (elim (array_cases l t (suc (ended j))) [
      | inl v ↦
          same_array l.n l.ghost (array l t) (array l (suc (ended j))) i v
            (ghost_in A l p nd bs some_cells size t) (at_end l.n l.ghost i h out)
      | inr u ↦
          other_array l.n l.ghost (array l t) (array l (suc (ended j))) i
            (ghost_in A l p nd bs some_cells size t)
            (ghost_in A l p nd bs some_cells size (suc (ended j))) h
            (rw u (elim (arrays_apart (ended j)) [ inl a ↦ inr a | inr b ↦ inl b ]))
    ])

    held_after :
        (k t : ℕ)
        → k < l.n
        → t ≤ count_task ended j (k / bs)
        → count_task ended j (k / bs) ≤ suc t
        → mem' (array l t + k) ≡ line A l.n l.ghost t (k + l.ghost)
    held_after k t h lo hi = elim (Bool-cases (k / bs == j)) [
      | inl same ↦
          let e : k / bs ≡ j = (==_iff (k / bs) j).0 same in
          let b = in_block k bs some_cells in
          elim (Bool-cases (t == suc (ended j))) [
            | inl new ↦
                subst (λ t. mem' (array l t + k) ≡ line A l.n l.ghost t (k + l.ghost))
                  (sym ((==_iff t (suc (ended j))).0 new))
                  (s.1.0 k (rw (← e) b.0) (rw (← e) b.1)
                    ∙ new_value A l p nd bs some_cells size j ended below can k mem r e h)
            | inr old ↦
                let t_is : t ≡ ended j = let same_count = ap ended e in ground arith in
                subst (λ t. mem' (array l t + k) ≡ line A l.n l.ghost t (k + l.ghost)) (sym t_is)
                  (s.0 (array l (ended j) + k) (read_apart k h)
                    ∙ r.held k (ended j) h (rw e (omega arith)) (rw e (omega arith)))
          ]
      | inr other ↦ kept_cell k t h other ∙ r.held k t h (ground arith) (ground arith)
    ]

    near_after :
        (k k' : ℕ)
        → k < l.n
        → k' < l.n
        → k ≤ k' + l.ghost
        → k' ≤ k + l.ghost
        → count_task ended j (k / bs) ≤ suc (count_task ended j (k' / bs))
    near_after k k' h h' left right = elim (Bool-cases (k / bs == j)) [
      | inl same ↦
          let e : k / bs ≡ j = (==_iff (k / bs) j).0 same in
          let b =
            beside A l p nd bs some_cells size j ended below can k k' mem r e h h' left right in
          let same_count = ap ended e in ground arith
      | inr other ↦ let n = r.near k k' h h' left right in ground arith
    ]

    pub task-Reached : Reached A l p nd bs some_cells size (count_task ended j) mem'
    task-Reached = record {
      held = held_after;
      near = near_after;
      ends = λ t i h out. kept_end t i h out ∙ r.ends t i h out;
    }
