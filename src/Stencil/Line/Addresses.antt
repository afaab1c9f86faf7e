-- ===== src/Stencil/Line/Addresses.antt =====
-- Which addresses the two loops of the initial values of the stencil name.
use xkomp.Prelude.{
  ℕ, ◌+◌, ◌-◌, ◌≤◌, ◌<◌, ◌≡◌, ◌⊎◌, inl, inr, refl, arith, ◌==◌, true, false, Bool-cases, List, [],
  ◌∷◌,
}
use xkomp.Stencil.{Layout, boundary, inside}
use xkomp.Stencil.Cells.{AllBelow}
use xkomp.Stencil.Memory.{has}

pub inside-has :
    (l : Layout) (k : ℕ) (ks : List ℕ)
    → has k ks ≡ true
    → (has (l.u + k) (inside l ks) ≡ true) × (has (l.v + k) (inside l ks) ≡ true)
unfolding inside
inside-has l k [] h = cc
inside-has l k (j ∷ ks) h = elim (Bool-cases (k == j)) [
  | inl here ↦ (ground arith, ground arith)
  | inr later ↦ let rest = inside-has l k ks (ground arith) in (ground arith, ground arith)
]

pub inside-lacks :
    (l : Layout) (a : ℕ) (ks : List ℕ)
    → AllBelow l.n ks
    → (a < l.u) ⊎ (l.u + l.n ≤ a)
    → (a < l.v) ⊎ (l.v + l.n ≤ a)
    → has a (inside l ks) ≡ false
unfolding inside
inside-lacks l a [] h p q = refl
inside-lacks l a (j ∷ ks) h p q = let rest = inside-lacks l a ks h.1 p q in ground arith

pub boundary-has :
    (l : Layout) (g : ℕ) (gs : List ℕ)
    → has g gs ≡ true
    → (has (l.u - g - 1) (boundary l gs) ≡ true)
      × (has (l.v - g - 1) (boundary l gs) ≡ true)
      × (has (l.u + (l.n + g)) (boundary l gs) ≡ true)
      × (has (l.v + (l.n + g)) (boundary l gs) ≡ true)
unfolding boundary
boundary-has l g [] h = cc
boundary-has l g (j ∷ gs) h = elim (Bool-cases (g == j)) [
  | inl here ↦
      let same : g ≡ j = ground arith in (ground arith, ground arith, ground arith, ground arith)
  | inr later ↦
      let rest = boundary-has l g gs (ground arith) in
      (ground arith, ground arith, ground arith, ground arith)
]

pub inside-AllBelow :
    (l : Layout) (size : ℕ) (ks : List ℕ)
    → l.u + l.n ≤ size
    → l.v + l.n ≤ size
    → AllBelow l.n ks
    → AllBelow size (inside l ks)
unfolding inside
inside-AllBelow l size [] p q h = tt
inside-AllBelow l size (k ∷ ks) p q h =
    (omega arith, (omega arith, inside-AllBelow l size ks p q h.1))

pub boundary-AllBelow :
    (l : Layout) (size : ℕ) (gs : List ℕ)
    → l.u + l.n + l.ghost ≤ size
    → l.v + l.n + l.ghost ≤ size
    → AllBelow l.ghost gs
    → AllBelow size (boundary l gs)
unfolding boundary
boundary-AllBelow l size [] p q h = tt
boundary-AllBelow l size (g ∷ gs) p q h =
    (omega arith, (omega arith, (omega arith, (omega arith, boundary-AllBelow l size gs p q h.1))))
