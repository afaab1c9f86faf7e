-- ===== src/Stencil/Cells.antt =====
-- The loop over the cells of a block, and the numbers of the blocks.
use xkomp.Prelude.{
  ℕ, zero, suc, ◌+◌, ◌*◌, ◌/◌, ◌≤◌, ◌<◌, ◌≡◌, subst, arith, ◌==◌, Bool, ◌||◌, List, [], ◌∷◌,
  Returns, Returns->>=,
}
use xkomp.Stencil.{Floats, range_from, Memory, Layout, cell, cells}
use xkomp.Stencil.Memory.{has, Placed, Computed, cell-Computed}

abbrev pub AllBelow : ℕ → List ℕ → Type 0
AllBelow n [] = Unit {0}
AllBelow n (k ∷ ks) = (k < n) × AllBelow n ks

pub AllBelow-range_from : (n i m : ℕ) → i + m ≤ n → AllBelow n (range_from i m)
unfolding range_from
AllBelow-range_from n i zero h = tt
AllBelow-range_from n i (suc m) h = (omega arith, AllBelow-range_from n (i + 1) m (omega arith))

or_moves : (a b c : Bool) → (a || (b || c)) ≡ ((b || a) || c)
or_moves a b c = ground arith

-- The block of a cell.
pub in_block : (k bs : ℕ) → 0 < bs → (k / bs * bs ≤ k) × (k < k / bs * bs + bs)
in_block k bs h = grind arith

pub block_below : (j nd bs : ℕ) → j < nd → j * bs + bs ≤ nd * bs
block_below j nd bs h = grind arith

module _ (A : Floats) (l : Layout) (p : Placed A l) (mem : Memory A) (k : ℕ) where
  pub cells-Computed :
      (ks : List ℕ) (mem' : Memory A) (seen : Bool)
      → AllBelow l.n ks
      → Computed A l mem k seen mem'
      → Returns (Computed A l mem k (has k ks || seen)) (cells A l ks mem')
  unfolding cells
  cells-Computed [] mem' seen h c = c
  cells-Computed (j ∷ ks) mem' seen h c =
      Returns->>= (Computed A l mem k ((k == j || has k ks) || seen)) (cell A l mem' j) _
        (cell-Computed A l mem mem' k j seen p h.0 c)
        (λ m c'.
          subst (λ b. Returns (Computed A l mem k b) (cells A l ks m))
            (or_moves (has k ks) (k == j) seen) (cells-Computed ks m ((k == j) || seen) h.1 c'))
