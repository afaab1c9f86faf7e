-- ===== src/Stencil/Tasks/Step.antt =====
-- One task of the stencil: what it changes, and what it keeps of the other blocks.
use xkomp.Prelude.{
  ℕ, zero, suc, ◌+◌, ◌≤◌, ◌<◌, ◌≡◌, ◌⊎◌, inl, inr, refl, ◌∙◌, arith, ◌==◌, false, ◌||◌, Bool-cases,
  List, [], ◌∷◌, if_false, Outcome, ok, dies, Returns, Returns-map,
}
use xkomp.Stencil.{Floats, range_from, Memory, Layout, write, cells}
use xkomp.Stencil.Memory.{has, has-range_from, Placed, Outside, Computed, IsNew, average, cell_lem}
use xkomp.Stencil.Cells.{AllBelow, AllBelow-range_from, cells-Computed}
use xkomp.Stencil.Line.{Returns-all}

Returns-both :
    {A : Type 0} (P Q : A → Type 0) (m : Outcome A)
    → Returns P m
    → Returns Q m
    → Returns (λ a. P a × Q a) m
Returns-both P Q (ok a) p q = (p, q)
Returns-both P Q (dies e) p q = p

has-range_from_lack : (k i m : ℕ) → (k < i) ⊎ (i + m ≤ k) → has k (range_from i m) ≡ false
unfolding range_from
has-range_from_lack k i zero h = refl
has-range_from_lack k i (suc m) (inl h) =
    let rest = has-range_from_lack k (i + 1) m (inl (omega arith)) in ground arith
has-range_from_lack k i (suc m) (inr h) =
    let rest = has-range_from_lack k (i + 1) m (inr (omega arith)) in ground arith

module _ (A : Floats) (l : Layout) (p : Placed A l) where
  -- The cell `k` is as it was.
  abbrev Kept : ℕ → Memory A → Memory A → Type 0
  Kept k mem mem' = mem' (l.v + k) ≡ mem (l.v + k)

  cells_keep :
      (ks : List ℕ) (k : ℕ) (mem : Memory A)
      → AllBelow l.n ks
      → has k ks ≡ false
      → Returns (Kept k mem) (cells A l ks mem)
  unfolding cells
  cells_keep [] k mem h e = refl
  cells_keep (j ∷ ks) k mem h e =
      let mem1 = write A mem (l.v + j) (average A l mem j) in
      rw (cell_lem A l mem j p h.0) (
        Returns-map (Kept k mem1) (Kept k mem)
          (λ mem' kept.
            kept ∙ if_false (l.v + k == l.v + j) (average A l mem j) (mem (l.v + k)) (ground arith))
          (cells A l ks mem1) (cells_keep ks k mem1 h.1 (ground arith)))

  -- The cell `k` is as it was, where it is not of the block.
  abbrev KeptOutside : ℕ → ℕ → Memory A → ℕ → Memory A → Type 0
  KeptOutside b bs mem k mem' = (k < b) ⊎ (b + bs ≤ k) → Kept k mem mem'

  keep_outside :
      (b bs k : ℕ) (mem : Memory A)
      → b + bs ≤ l.n
      → Returns (KeptOutside b bs mem k) (cells A l (range_from b bs) mem)
  keep_outside b bs k mem h =
      let below = AllBelow-range_from l.n b bs h in
      elim (Bool-cases (has k (range_from b bs))) [
        | inl within ↦
            Returns-map (Computed A l mem k (has k (range_from b bs) || false))
              (KeptOutside b bs mem k)
              (λ mem' c out. absurd (let lack = has-range_from_lack k b bs out in ground arith))
              (cells A l (range_from b bs) mem)
              (cells-Computed A l p mem k (range_from b bs) mem false below
                ((λ a out. refl), λ e. cc))
        | inr without ↦
            Returns-map (Kept k mem) (KeptOutside b bs mem k) (λ mem' kept out. kept)
              (cells A l (range_from b bs) mem) (cells_keep (range_from b bs) k mem below without)
      ]

  abbrev Within : ℕ → ℕ → Memory A → ℕ → Memory A → Type 0
  Within b bs mem k mem' = Computed A l mem k (has k (range_from b bs) || false) mem'

  -- The block of the cells from `b` on has its new values, and all else is as it was.
  abbrev pub Stepped : ℕ → ℕ → Memory A → Memory A → Type 0
  Stepped b bs mem mem' =
      Outside A l mem mem'
      × (((k : ℕ) → b ≤ k → k < b + bs → IsNew A l mem k mem')
          × ((k : ℕ) → KeptOutside b bs mem k mem'))

  pub block-Stepped :
      (b bs : ℕ) (mem : Memory A)
      → b + bs ≤ l.n
      → Returns (Stepped b bs mem) (cells A l (range_from b bs) mem)
  block-Stepped b bs mem h =
      let below = AllBelow-range_from l.n b bs h in
      let m = cells A l (range_from b bs) mem in
      Returns-map
        (λ mem'. ((k : ℕ) → Within b bs mem k mem') × ((k : ℕ) → KeptOutside b bs mem k mem'))
        (Stepped b bs mem)
        (λ mem' (c, kept). ((c 0).0, (λ k lo hi. (c k).1 (rw (has-range_from k b bs lo hi)), kept)))
        m
        (Returns-both (λ mem'. (k : ℕ) → Within b bs mem k mem')
          (λ mem'. (k : ℕ) → KeptOutside b bs mem k mem') m
          (Returns-all (Within b bs mem) m (λ k.
            cells-Computed A l p mem k (range_from b bs) mem false below
              ((λ a out. refl), λ e. cc)))
          (Returns-all (KeptOutside b bs mem) m (λ k. keep_outside b bs k mem h)))
