-- ===== src/Stencil/Tasks/Ready.antt =====
-- What a task of the stencil that can run knows of the others.
use xkomp.Prelude.{
  ℕ, zero, suc, ◌+◌, ◌-◌, ◌*◌, ◌≤◌, ◌<◌, ◌≡◌, ◌⊎◌, inl, inr, refl, sym, ◌∙◌, arith, ◌==◌, leb,
  lt→ltb, Bool, true, Bool-cases, List, [], ◌∷◌,
}
use xkomp.Stencil.{range_from, Layout}
use xkomp.Stencil.Memory.{has, has-range_from}
use xkomp.Stencil.Tasks.{layout_at, depends, all_of, Ended, may_pass, ready}

pub all_of-has :
    (p : ℕ → Bool) (k : ℕ) (ks : List ℕ) → all_of p ks ≡ true → has k ks ≡ true → p k ≡ true
all_of-has p k [] h m = absurd (ground arith)
all_of-has p k (j ∷ ks) h m = elim (Bool-cases (k == j)) [
  | inl here ↦ let same : k ≡ j = ground arith in rw same (ground arith)
  | inr later ↦ all_of-has p k ks (ground arith) (ground arith)
]

-- The array that the sweep `t` writes.
abbrev pub array : Layout → ℕ → ℕ
array l t = (layout_at l t).v

-- The pointers of a sweep are those of the start, or those exchanged.
abbrev Exchanged : Layout → Layout → Type 0
Exchanged l m = ((m.v ≡ l.v) × (m.u ≡ l.u)) ⊎ ((m.v ≡ l.u) × (m.u ≡ l.v))

layout_at-Exchanged : (l : Layout) (t : ℕ) → Exchanged l (layout_at l t)
unfolding layout_at
layout_at-Exchanged l zero = inl (refl, refl)
layout_at-Exchanged l (suc t) = elim (layout_at-Exchanged l t) [
  | inl (v, u) ↦ inr (u, v)
  | inr (v, u) ↦ inl (u, v)
]

pub layout_at-size :
    (l : Layout) (t : ℕ) → ((layout_at l t).n ≡ l.n) × ((layout_at l t).ghost ≡ l.ghost)
unfolding layout_at
layout_at-size l zero = (refl, refl)
layout_at-size l (suc t) = layout_at-size l t

-- There are two arrays: each is written, or read, in a given sweep.
pub array_cases :
    (l : Layout) (s t : ℕ) → (array l s ≡ (layout_at l t).v) ⊎ (array l s ≡ (layout_at l t).u)
array_cases l s t =
    let first = layout_at-Exchanged l s in
    let second = layout_at-Exchanged l t in
    elim first [
      | inl a ↦ elim second [ inl b ↦ inl (a.0 ∙ sym b.0) | inr b ↦ inr (a.0 ∙ sym b.1) ]
      | inr a ↦ elim second [ inl b ↦ inr (a.0 ∙ sym b.1) | inr b ↦ inl (a.0 ∙ sym b.0) ]
    ]

-- A task depends on that of the sweep before that writes a cell next to its block.
depends_near :
    (l : Layout) (bs t j j' k k' : ℕ)
    → l.ghost ≤ (layout_at l t).v
    → j * bs ≤ k
    → k < j * bs + bs
    → j' * bs ≤ k'
    → k' < j' * bs + bs
    → k ≤ k' + l.ghost
    → k' ≤ k + l.ghost
    → depends l bs (suc t) j t j' ≡ true
unfolding depends layout_at
depends_near l bs t j j' k k' g a b a' b' left right =
    let e = (layout_at-size l t).1 in
    rw
      (
        lt→ltb ((layout_at l t).v + j * bs - (layout_at l t).ghost)
            ((layout_at l t).v + j' * bs + bs) (omega arith),
        lt→ltb ((layout_at l t).v + j' * bs)
            ((layout_at l t).v + j * bs - (layout_at l t).ghost + (bs + 2 * (layout_at l t).ghost))
            (omega arith),
      )
      refl

-- So the blocks next to that of a task that can run have had as many sweeps as its own.
pub ready_near :
    (l : Layout) (nd bs j j' k k' : ℕ) (ended : Ended)
    → l.ghost ≤ (layout_at l (ended j)).v
    → ready l nd bs ended j ≡ true
    → j' < nd
    → j * bs ≤ k
    → k < j * bs + bs
    → j' * bs ≤ k'
    → k' < j' * bs + bs
    → k ≤ k' + l.ghost
    → k' ≤ k + l.ghost
    → ended j ≤ ended j'
unfolding ready
ready_near l nd bs j j' k k' ended g h d a b a' b' left right =
    elim (Bool-cases (leb 1 (ended j))) [
      | inl some ↦
          let t = ended j in
          let on_row =
            all_of-has (λ t'. all_of (may_pass l bs ended (suc t) j t') (range_from 0 nd)) t
              (range_from 1 t) (ground arith) (has-range_from t 1 t (ground arith) (omega arith)) in
          let passes =
            all_of-has (may_pass l bs ended (suc t) j t) j' (range_from 0 nd) on_row
              (has-range_from j' 0 nd (omega arith) (omega arith)) in
          let waits = depends_near l bs t j j' k k' g a b a' b' left right in ground arith
      | inr none ↦ ground arith
    ]
