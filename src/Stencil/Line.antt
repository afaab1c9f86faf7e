-- ===== src/Stencil/Line.antt =====
-- The line of cells over the sweeps, cut into blocks of equal size.
pub mod Addresses
pub mod Start
use xkomp.Prelude.{
  ℕ, zero, suc, ◌+◌, ◌-◌, ◌*◌, ◌/◌, ◌%◌, ◌≤◌, ◌<◌, ◌≡◌, ◌⊎◌, inl, inr, refl, sym, ap, ◌∙◌, subst,
  arith, ◌==◌, ltb, leb, Bool, true, false, ◌||◌, ◌&&◌, not, Bool-cases, List, [], ◌∷◌, length,
  if◌then◌else◌, if_true, if_false, Outcome, ok, dies, ◌>>=◌, Returns, Returns->>=, Returns-map,
  checked-Returns,
}
use xkomp.Stencil.{Floats, Memory, Layout, swapped}
use xkomp.Stencil.Memory.{has, Placed, Computed, Outside, average, sum_at, sum_at_same}
use xkomp.Stencil.Line.Start.{
  is_inside, line, Started, initial-Started, first_layout-Placed, same_array, other_array, at_end,
}

pub device_of : (k nd bs : ℕ) → k < nd * bs → k / bs < nd
device_of k nd bs h = grind arith

pub eq_false : (a b : ℕ) → b < a → (a == b) ≡ false
eq_false a b h = ground arith

pub blocks : (n nd : ℕ) → n % nd ≡ 0 → 0 < nd → 0 < n → (0 < n / nd) × (n ≡ nd * (n / nd))
blocks n nd h p q = grind arith

pub Returns-all :
    {A : Type 0} (P : ℕ → A → Type 0) (m : Outcome A)
    → ((k : ℕ) → Returns (P k) m)
    → Returns (λ a. (k : ℕ) → P k a) m
Returns-all P (ok a) h = h
Returns-all P (dies e) h = h 0

module _ (A : Floats) where
  pub swapped-Placed : (l : Layout) → Placed A l → Placed A (swapped l)
  swapped-Placed l p = record {
    ghost_u = p.ghost_v;
    ghost_v = p.ghost_u;
    end_u = p.end_v;
    end_v = p.end_u;
    apart = elim p.apart [ inl a ↦ inr a | inr b ↦ inl b ];
  }

  pub line-end :
      (n ghost t i : ℕ)
      → is_inside n ghost i ≡ false
      → line A n ghost (suc t) i ≡ line A n ghost t i
  unfolding line
  line-end n ghost t i h = rw h refl

  -- The array that `p` points to, its boundary included, holds the line after `t` sweeps.
  abbrev pub Holds : ℕ → ℕ → ℕ → ℕ → Memory A → Type 0
  Holds n ghost t p mem = (i : ℕ) → i < n + 2 * ghost → mem (p - ghost + i) ≡ line A n ghost t i
