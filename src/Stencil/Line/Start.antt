-- ===== src/Stencil/Line/Start.antt =====
-- The line of cells that the program of the stencil is to compute, and the memory before its sweeps.
use xkomp.Prelude.{
  ℕ, zero, suc, ◌+◌, ◌-◌, ◌*◌, ◌≤◌, ◌<◌, ◌≡◌, ◌⊎◌, inl, inr, refl, ap, ◌∙◌, arith, ◌==◌, ltb, leb,
  lt→ltb, Bool, true, false, ◌||◌, ◌&&◌, Bool-cases, List, [], ◌∷◌, if◌then◌else◌, Returns,
  Returns->>=, Returns-map,
}
use xkomp.Stencil.{
  Floats, range_from, Memory, Layout, size_of, first_layout, write, store, store_all, boundary,
  inside, initial,
}
use xkomp.Stencil.Cells.{AllBelow, AllBelow-range_from}
use xkomp.Stencil.Memory.{has, has-range_from, Placed, sum_at}
use xkomp.Stencil.Line.Addresses.{
  inside-has, inside-lacks, boundary-has, inside-AllBelow, boundary-AllBelow,
}

-- The cells of the line, its boundary of GHOST cells on each side included, by number.
abbrev pub is_inside : ℕ → ℕ → ℕ → Bool
is_inside n ghost i = leb ghost i && ltb i (n + ghost)

-- A boundary cell of an array is none of its inner cells, nor one of the other array.
pub same_array :
    (n ghost p q i : ℕ)
    → p ≡ q
    → ghost ≤ p
    → (i < ghost) ⊎ (n + ghost ≤ i)
    → (p - ghost + i < q) ⊎ (q + n ≤ p - ghost + i)
same_array n ghost p q i e g (inl left) = inl (omega arith)
same_array n ghost p q i e g (inr right) = inr (omega arith)

pub other_array :
    (n ghost p q i : ℕ)
    → ghost ≤ p
    → ghost ≤ q
    → i < n + 2 * ghost
    → (p + n + ghost ≤ q - ghost) ⊎ (q + n + ghost ≤ p - ghost)
    → (p - ghost + i < q) ⊎ (q + n ≤ p - ghost + i)
other_array n ghost p q i g g' h (inl below) = inl (omega arith)
other_array n ghost p q i g g' h (inr above) = inr (omega arith)

-- The number of a boundary cell on the left or on the right.
pub at_end :
    (n ghost i : ℕ)
    → i < n + 2 * ghost
    → is_inside n ghost i ≡ false
    → (i < ghost) ⊎ (n + ghost ≤ i)
at_end n ghost i h e = elim (Bool-cases (leb ghost i)) [
  | inl right ↦ inr (ground arith)
  | inr left ↦ inl (ground arith)
]

either :
    {F : Type 0} (p q : Bool) (x y : F)
    → (if q then x else if p then x else y) ≡ (if p || q then x else y)
either p q x y = ground arith

module _ (A : Floats) where
  open A use {F, nothing, half, one, plus, scale}

  -- The line after `t` sweeps: a cell inside is the average of its neighbours before, and the
  -- boundary keeps its value.
  unfoldable pub line : ℕ → ℕ → ℕ → ℕ → F
  line n ghost zero i = if is_inside n ghost i then half else one
  line n ghost (suc t) i =
      if is_inside n ghost i
      then scale ghost (sum_at A (line n ghost t) (i - ghost) (2 * ghost + 1) nothing)
      else line n ghost t i

  abbrev Stored : List ℕ → F → Memory A → Memory A → Type 0
  Stored addresses x mem mem' = (a : ℕ) → mem' a ≡ (if has a addresses then x else mem a)

  store_all-Stored :
      (size : ℕ) (addresses : List ℕ) (x : F) (mem : Memory A)
      → AllBelow size addresses
      → Returns (Stored addresses x mem) (store_all A size addresses x mem)
  unfolding store_all store
  store_all-Stored size [] x mem h = λ a. refl
  store_all-Stored size (b ∷ addresses) x mem h = rw (lt→ltb b size h.0) (
      Returns-map (Stored addresses x (write A mem b x)) (Stored (b ∷ addresses) x mem)
        (λ mem' s a. s a ∙ either (a == b) (has a addresses) x (mem a))
        (store_all A size addresses x (write A mem b x))
        (store_all-Stored size addresses x (write A mem b x) h.1))

  pub first_layout-Placed : (n ghost : ℕ) → Placed A (first_layout n ghost)
  first_layout-Placed n ghost = record {
    ghost_u = omega arith;
    ghost_v = omega arith;
    end_u = omega arith;
    end_v = omega arith;
    apart = inl (omega arith);
  }

  -- Both arrays hold the line before the first sweep.
  abbrev pub Started : Layout → Memory A → Type 0
  Started l mem =
      (i : ℕ)
      → i < l.n + 2 * l.ghost
      → (mem (l.u - l.ghost + i) ≡ line l.n l.ghost 0 i)
        × (mem (l.v - l.ghost + i) ≡ line l.n l.ghost 0 i)

  -- One of the two pointers.
  abbrev Pointer : Layout → ℕ → Type 0
  Pointer l p = (p ≡ l.u) ⊎ (p ≡ l.v)

  at_address :
      (addresses : List ℕ) (a b : ℕ) → a ≡ b → has a addresses ≡ true → has b addresses ≡ true
  at_address addresses a b e h = rw (← e) h

  inside_stored :
      (l : Layout) (p i : ℕ)
      → Placed A l
      → Pointer l p
      → is_inside l.n l.ghost i ≡ true
      → has (p - l.ghost + i) (inside l (range_from 0 l.n)) ≡ true
  inside_stored l p i pl c h =
      let lo : l.ghost ≤ i = ground arith in
      let hi : i < l.n + l.ghost = ground arith in
      let both =
        inside-has l (i - l.ghost) (range_from 0 l.n)
          (has-range_from (i - l.ghost) 0 l.n (omega arith) (omega arith)) in
      elim c [
        | inl e ↦
            at_address _ (l.u + (i - l.ghost)) (p - l.ghost + i) (omega (arith, pl.ghost_u)) both.0
        | inr e ↦
            at_address _ (l.v + (i - l.ghost)) (p - l.ghost + i) (omega (arith, pl.ghost_v)) both.1
      ]

  end_not_inside :
      (l : Layout) (p i : ℕ)
      → Placed A l
      → Pointer l p
      → i < l.n + 2 * l.ghost
      → (i < l.ghost) ⊎ (l.n + l.ghost ≤ i)
      → has (p - l.ghost + i) (inside l (range_from 0 l.n)) ≡ false
  end_not_inside l p i pl (inl at_u) h e =
      inside-lacks l (p - l.ghost + i) (range_from 0 l.n)
        (AllBelow-range_from l.n 0 l.n (omega arith))
        (same_array l.n l.ghost p l.u i at_u (omega (arith, pl.ghost_u)) e)
        (other_array l.n l.ghost p l.v i (omega (arith, pl.ghost_u)) pl.ghost_v h
          (rw at_u pl.apart))
  end_not_inside l p i pl (inr at_v) h e =
      inside-lacks l (p - l.ghost + i) (range_from 0 l.n)
        (AllBelow-range_from l.n 0 l.n (omega arith))
        (other_array l.n l.ghost p l.u i (omega (arith, pl.ghost_v)) pl.ghost_u h
          (rw at_v (elim pl.apart [ inl a ↦ inr a | inr b ↦ inl b ])))
        (same_array l.n l.ghost p l.v i at_v (omega (arith, pl.ghost_v)) e)

  boundary_stored :
      (l : Layout) (p i : ℕ)
      → Placed A l
      → Pointer l p
      → i < l.n + 2 * l.ghost
      → (i < l.ghost) ⊎ (l.n + l.ghost ≤ i)
      → has (p - l.ghost + i) (boundary l (range_from 0 l.ghost)) ≡ true
  boundary_stored l p i pl c h (inl left) =
      let all =
        boundary-has l (l.ghost - 1 - i) (range_from 0 l.ghost)
          (has-range_from (l.ghost - 1 - i) 0 l.ghost (omega arith) (omega arith)) in
      elim c [
        | inl e ↦
            at_address _ (l.u - (l.ghost - 1 - i) - 1) (p - l.ghost + i) (omega (arith, pl.ghost_u))
              all.0
        | inr e ↦
            at_address _ (l.v - (l.ghost - 1 - i) - 1) (p - l.ghost + i) (omega (arith, pl.ghost_v))
              all.1
      ]
  boundary_stored l p i pl c h (inr right) =
      let all =
        boundary-has l (i - l.n - l.ghost) (range_from 0 l.ghost)
          (has-range_from (i - l.n - l.ghost) 0 l.ghost (omega arith) (omega arith)) in
      elim c [
        | inl e ↦
            at_address _ (l.u + (l.n + (i - l.n - l.ghost))) (p - l.ghost + i)
              (omega (arith, pl.ghost_u)) all.2
        | inr e ↦
            at_address _ (l.v + (l.n + (i - l.n - l.ghost))) (p - l.ghost + i)
              (omega (arith, pl.ghost_v)) all.3
      ]

  -- What the two loops leave at a cell of one of the arrays.
  started_at :
      (l : Layout) (p i : ℕ) (mem : Memory A)
      → Placed A l
      → Pointer l p
      → i < l.n + 2 * l.ghost
      → (if has (p - l.ghost + i) (inside l (range_from 0 l.n))
          then half
          else if has (p - l.ghost + i) (boundary l (range_from 0 l.ghost))
          then one
          else mem (p - l.ghost + i))
        ≡ line l.n l.ghost 0 i
  unfolding line
  started_at l p i mem pl c h = elim (Bool-cases (is_inside l.n l.ghost i)) [
    | inl in_line ↦ rw (in_line, inside_stored l p i pl c in_line) refl
    | inr ends ↦
        let side = at_end l.n l.ghost i h ends in
        rw (ends, end_not_inside l p i pl c h side, boundary_stored l p i pl c h side) refl
  ]

  pub initial-Started :
      (n ghost : ℕ) (mem : Memory A)
      → Returns (Started (first_layout n ghost)) (initial A n ghost mem)
  unfolding initial
  initial-Started n ghost mem =
      let l = first_layout n ghost in
      let size = size_of n ghost in
      let pl = first_layout-Placed n ghost in
      Returns->>= (Started l) (store_all A size (boundary l (range_from 0 ghost)) one mem) _
        (store_all-Stored size (boundary l (range_from 0 ghost)) one mem (
          boundary-AllBelow l size (range_from 0 ghost) (omega arith) (omega arith)
            (AllBelow-range_from ghost 0 ghost (omega arith))))
        (λ mem' s.
          Returns-map (Stored (inside l (range_from 0 n)) half mem') (Started l)
            (λ mem'' s' i h. (
              s' (l.u - ghost + i)
                  ∙ ap (λ x. if has (l.u - ghost + i) (inside l (range_from 0 n)) then half else x)
                      (s (l.u - ghost + i))
                  ∙ started_at l l.u i mem pl (inl refl) h,
              s' (l.v - ghost + i)
                  ∙ ap (λ x. if has (l.v - ghost + i) (inside l (range_from 0 n)) then half else x)
                      (s (l.v - ghost + i))
                  ∙ started_at l l.v i mem pl (inr refl) h,
            ))
            (store_all A size (inside l (range_from 0 n)) half mem')
            (store_all-Stored size (inside l (range_from 0 n)) half mem' (
              inside-AllBelow l size (range_from 0 n) (omega arith) (omega arith)
                (AllBelow-range_from n 0 n (omega arith)))))
