-- ===== src/Stencil/Memory.antt =====
-- What the loops of the stencil leave in the memory.
use xkomp.Prelude.{
  ℕ, zero, suc, ◌+◌, ◌-◌, ◌*◌, ◌≤◌, ◌<◌, ◌≡◌, ◌⊎◌, inl, inr, refl, sym, ap, ◌∙◌, arith, ◌==◌, Bool,
  true, false, ◌||◌, Bool-cases, List, [], ◌∷◌, if_true, if_false, ok, Returns, lt→ltb, ==_iff,
}
use xkomp.Stencil.{
  Floats, range_from, Memory, size_of, write, load, store, neighbours, Layout, cell,
}

abbrev pub has : ℕ → List ℕ → Bool
has k [] = false
has k (j ∷ js) = (k == j) || has k js

pub has-range_from : (k i m : ℕ) → i ≤ k → k < i + m → has k (range_from i m) ≡ true
unfolding range_from
has-range_from k i zero h h' = absurd (omega arith)
has-range_from k i (suc m) h h' = elim (Bool-cases (k == i)) [
  | inl here ↦ rw here
  | inr later ↦ rw later (has-range_from k (i + 1) m (ground arith) (omega arith))
]

module _ (A : Floats) where
  open A use {F, nothing, plus, scale}

  -- The sum of `m` cells from `a` on.
  abbrev pub sum_at : (ℕ → F) → ℕ → ℕ → F → F
  sum_at f a zero acc = acc
  sum_at f a (suc m) acc = sum_at f (a + 1) m (plus acc (f a))

  shifted :
      (f g : ℕ → F) (a a' b b' i : ℕ)
      → a' ≡ a + i
      → b' ≡ b + i
      → f (a + i) ≡ g (b + i)
      → f a' ≡ g b'
  shifted f g a a' b b' i p q h = ap f p ∙ h ∙ sym (ap g q)

  pub sum_at_same :
      (f g : ℕ → F) (a b m : ℕ) (acc : F)
      → ((i : ℕ) → i < m → f (a + i) ≡ g (b + i))
      → sum_at f a m acc ≡ sum_at g b m acc
  sum_at_same f g a b zero acc h = refl
  sum_at_same f g a b (suc m) acc h =
      ap (λ x. sum_at f (a + 1) m (plus acc x))
        (shifted f g a a b b 0 (omega arith) (omega arith) (h 0 (omega arith)))
      ∙ sum_at_same f g (a + 1) (b + 1) m (plus acc (g b)) (λ i lt.
        shifted f g a (a + 1 + i) b (b + 1 + i) (suc i) (omega arith) (omega arith)
          (h (suc i) (omega arith)))

  neighbours_sum :
      (size : ℕ) (mem : Memory A) (a m : ℕ) (acc : F)
      → a + m ≤ size
      → neighbours A size mem a m acc ≡ ok (sum_at mem a m acc)
  unfolding neighbours load
  neighbours_sum size mem a zero acc h = refl
  neighbours_sum size mem a (suc m) acc h =
      rw (lt→ltb a size (omega arith))
        (neighbours_sum size mem (a + 1) m (plus acc (mem a)) (omega arith))

  -- Where the two arrays lie: each within the allocation, and apart from each other.
  pub record Placed (l : Layout) : Type 0 where
    pub ghost_u : l.ghost ≤ l.u
    pub ghost_v : l.ghost ≤ l.v
    pub end_u : l.u + l.n + l.ghost ≤ size_of l.n l.ghost
    pub end_v : l.v + l.n + l.ghost ≤ size_of l.n l.ghost
    pub apart : (l.u + l.n + l.ghost ≤ l.v - l.ghost) ⊎ (l.v + l.n + l.ghost ≤ l.u - l.ghost)

  -- The new value of the cell `k`.
  abbrev pub average : Layout → Memory A → ℕ → F
  average l mem k = scale l.ghost (sum_at mem (l.u + k - l.ghost) (2 * l.ghost + 1) nothing)

  pub cell_lem :
      (l : Layout) (mem : Memory A) (k : ℕ)
      → Placed l
      → k < l.n
      → cell A l mem k ≡ ok (write A mem (l.v + k) (average l mem k))
  unfolding cell store
  cell_lem l mem k p h =
      rw
        (
          neighbours_sum (size_of l.n l.ghost) mem (l.u + k - l.ghost) (2 * l.ghost + 1) nothing
              (omega (arith, p.ghost_u, p.end_u)),
          lt→ltb (l.v + k) (size_of l.n l.ghost) (omega (arith, p.end_v)),
        )
        refl

  -- Outside of the cells of `v` the memory is as it was.
  abbrev pub Outside : Layout → Memory A → Memory A → Type 0
  Outside l mem mem' = (a : ℕ) → (a < l.v) ⊎ (l.v + l.n ≤ a) → mem' a ≡ mem a

  average-Outside :
      (l : Layout) (mem mem' : Memory A) (k : ℕ)
      → Placed l
      → k < l.n
      → Outside l mem mem'
      → average l mem' k ≡ average l mem k
  average-Outside l mem mem' k p h o = ap (scale l.ghost) (
      sum_at_same mem' mem (l.u + k - l.ghost) (l.u + k - l.ghost) (2 * l.ghost + 1) nothing
        (λ i lt. o (l.u + k - l.ghost + i) (elim p.apart [
          | inl below ↦ inl (omega (arith, p.ghost_u, p.ghost_v))
          | inr above ↦ inr (omega (arith, p.ghost_u, p.ghost_v))
        ])))

  -- The cell `k` of `v` has its new value.
  abbrev pub IsNew : Layout → Memory A → ℕ → Memory A → Type 0
  IsNew l mem k mem' = mem' (l.v + k) ≡ average l mem k

  -- What cells that have been computed leave, for the cell `k` that is looked at.
  abbrev pub Computed : Layout → Memory A → ℕ → Bool → Memory A → Type 0
  Computed l mem k seen mem' = Outside l mem mem' × (seen ≡ true → IsNew l mem k mem')

  pub cell-Computed :
      (l : Layout) (mem mem' : Memory A) (k j : ℕ) (seen : Bool)
      → Placed l
      → j < l.n
      → Computed l mem k seen mem'
      → Returns (Computed l mem k ((k == j) || seen)) (cell A l mem' j)
  cell-Computed l mem mem' k j seen p h c = rw (cell_lem l mem' j p h) (
    (λ a out. if_false (a == l.v + j) _ (mem' a) (ground arith) ∙ c.0 a out),
    (λ s. elim (Bool-cases (k == j)) [
      | inl same ↦
          if_true (l.v + k == l.v + j) _ (mem' (l.v + k)) (ground arith)
          ∙ average-Outside l mem mem' j p h c.0
          ∙ ap (average l mem) (sym ((==_iff k j).0 same))
      | inr other ↦
          if_false (l.v + k == l.v + j) _ (mem' (l.v + k)) (ground arith) ∙ c.1 (ground arith)
    ]),
  )
