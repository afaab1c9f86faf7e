-- ===== src/Stencil/Tasks/Reached.antt =====
-- How far the tasks of the stencil have got, and what the next one reads.
use xkomp.Prelude.{
  ℕ, zero, suc, ◌+◌, ◌-◌, ◌*◌, ◌/◌, ◌≤◌, ◌<◌, ◌≡◌, inl, inr, refl, sym, ap, ◌∙◌, subst, arith, true,
  false, Bool-cases,
}
use xkomp.Stencil.{Floats, Memory, Layout}
use xkomp.Stencil.Memory.{Placed, average, sum_at_same}
use xkomp.Stencil.Cells.{in_block}
use xkomp.Stencil.Line.{device_of, swapped-Placed, line-end}
use xkomp.Stencil.Line.Start.{is_inside, line}
use xkomp.Stencil.Tasks.{layout_at, Ended, ready}
use xkomp.Stencil.Tasks.Ready.{array, layout_at-size, ready_near}

module _ (A : Floats) (l : Layout) (p : Placed A l) (nd bs : ℕ) (some_cells : 0 < bs)
    (size : l.n ≡ nd * bs) where
  pub layout_at-Placed : (t : ℕ) → Placed A (layout_at l t)
  unfolding layout_at
  layout_at-Placed zero = p
  layout_at-Placed (suc t) = swapped-Placed A (layout_at l t) (layout_at-Placed t)

  pub ghost_in : (t : ℕ) → l.ghost ≤ array l t
  ghost_in t = subst (λ g. g ≤ array l t) (layout_at-size l t).1 (layout_at-Placed t).ghost_v

  -- Where the tasks have got to: each cell has its value after the last sweep of its block, in the
  -- array of that sweep, and the one before in the other array; cells next to each other are at
  -- most one sweep apart; both arrays have their boundary.
  pub record Reached (ended : Ended) (mem : Memory A) : Type 0 where
    pub held :
        (k t : ℕ)
        → k < l.n
        → t ≤ ended (k / bs)
        → ended (k / bs) ≤ suc t
        → mem (array l t + k) ≡ line A l.n l.ghost t (k + l.ghost)
    pub near :
        (k k' : ℕ)
        → k < l.n
        → k' < l.n
        → k ≤ k' + l.ghost
        → k' ≤ k + l.ghost
        → ended (k / bs) ≤ suc (ended (k' / bs))
    pub ends :
        (t i : ℕ)
        → i < l.n + 2 * l.ghost
        → is_inside l.n l.ghost i ≡ false
        → mem (array l t - l.ghost + i) ≡ line A l.n l.ghost 0 i

  pub line-ends :
      (t i : ℕ) → is_inside l.n l.ghost i ≡ false → line A l.n l.ghost t i ≡ line A l.n l.ghost 0 i
  line-ends zero i h = refl
  line-ends (suc t) i h = line-end A l.n l.ghost t i h ∙ line-ends t i h

  module _ (j : ℕ) (ended : Ended) (below : j < nd) (can : ready l nd bs ended j ≡ true) where
    -- The blocks next to that of the task have had as many sweeps as its own, or one more.
    pub beside :
        (k k' : ℕ) (mem : Memory A)
        → Reached ended mem
        → k / bs ≡ j
        → k < l.n
        → k' < l.n
        → k ≤ k' + l.ghost
        → k' ≤ k + l.ghost
        → (ended j ≤ ended (k' / bs)) × (ended (k' / bs) ≤ suc (ended j))
    beside k k' mem r e h h' left right =
        let b = in_block k bs some_cells in
        let b' = in_block k' bs some_cells in
        let d = device_of k' nd bs (rw (← size) h') in
        (
          ready_near l nd bs j (k' / bs) k k' ended (ghost_in (ended j)) can d (rw (← e) b.0)
              (rw (← e) b.1) b'.0 b'.1 left right,
          subst (λ d. ended (k' / bs) ≤ suc (ended d)) e (r.near k' k h' h right left),
        )

    -- So the task reads the line as it is behind the sweep before.
    reads_line :
        (k i : ℕ) (mem : Memory A)
        → Reached ended mem
        → k / bs ≡ j
        → k < l.n
        → k ≤ i
        → i ≤ k + 2 * l.ghost
        → mem (array l (ended j) - l.ghost + i) ≡ line A l.n l.ghost (ended j) i
    reads_line k i mem r e h lo hi = elim (Bool-cases (is_inside l.n l.ghost i)) [
      | inl in_line ↦
          let left : l.ghost ≤ i = ground arith in
          let right : i < l.n + l.ghost = ground arith in
          let g = ghost_in (ended j) in
          let b = beside k (i - l.ghost) mem r e h (omega arith) (omega arith) (omega arith) in
          ap mem (omega arith)
          ∙ r.held (i - l.ghost) (ended j) (omega arith) b.0 b.1
          ∙ ap (line A l.n l.ghost (ended j)) (omega arith)
      | inr out ↦ r.ends (ended j) i (omega arith) out ∙ sym (line-ends (ended j) i out)
    ]

    pub new_value :
        (k : ℕ) (mem : Memory A)
        → Reached ended mem
        → k / bs ≡ j
        → k < l.n
        → average A (layout_at l (suc (ended j))) mem k
          ≡ line A l.n l.ghost (suc (ended j)) (k + l.ghost)
    unfolding layout_at line
    new_value k mem r e h =
        let here : is_inside l.n l.ghost (k + l.ghost) ≡ true = ground arith in
        let g = ghost_in (ended j) in
        rw (here, (layout_at-size l (ended j)).1)
          (ap (A.scale l.ghost) (
            sum_at_same A mem (line A l.n l.ghost (ended j)) (array l (ended j) + k - l.ghost)
              (k + l.ghost - l.ghost) (2 * l.ghost + 1) A.nothing
              (λ x lt.
                ap mem (omega arith)
                ∙ reads_line k (k + x) mem r e h (omega arith) (omega arith)
                ∙ ap (line A l.n l.ghost (ended j)) (omega arith))))
