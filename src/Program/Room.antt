-- ===== src/Program/Room.antt =====
-- How many numbers of threads a cache can hold: distinct ones among given ones are no more than
-- these are.
use xkomp.Prelude.{
  suc, ◌≤◌, ◌<◌, ◌≡◌, ◌≢◌, refl, sym, ap, ◌∙◌, arith, inl, inr, Bool, true, false, ◌||◌, Bool-cases,
  List, [], ◌∷◌, ◌++◌, length,
}
use xkomp.Prelude.Int.{ℤ, ◌==ℤ◌, ==ℤ_eq}
use xkomp.Team.Region.Cache.{Absent, Distinct}

abbrev pub among : ℤ → List ℤ → Bool
among z [] = false
among z (y ∷ ys) = (y ==ℤ z) || among z ys

abbrev pub AllAmong : List ℤ → List ℤ → Type 0
AllAmong [] ys = Unit {0}
AllAmong (z ∷ zs) ys = (among z ys ≡ true) × AllAmong zs ys

-- The first occurrence is taken out.
without : ℤ → List ℤ → List ℤ
without z [] = []
without z (y ∷ ys) = elim (y ==ℤ z) [ true ↦ ys | false ↦ y ∷ without z ys ]

length-without : (z : ℤ) (ys : List ℤ) → among z ys ≡ true → suc (length (without z ys)) ≡ length ys
unfolding without
length-without z [] h = cc
length-without z (y ∷ ys) h = elim (Bool-cases (y ==ℤ z)) [
  | inl same ↦ rw (same, without) refl
  | inr other ↦ rw (other, without) (ap suc (length-without z ys (ground arith)))
]

among-without : (z w : ℤ) (ys : List ℤ) → w ≢ z → among w ys ≡ true → among w (without z ys) ≡ true
unfolding without
among-without z w [] ne h = h
among-without z w (y ∷ ys) ne h = elim (Bool-cases (y ==ℤ z)) [
  | inl same ↦ elim (Bool-cases (y ==ℤ w)) [
    | inl clash ↦ absurd (ne (sym (==ℤ_eq y w clash) ∙ ==ℤ_eq y z same))
    | inr other ↦ rw (same, without) (ground arith)
  ]
  | inr other ↦ elim (Bool-cases (y ==ℤ w)) [
    | inl here ↦ rw (other, without) (rw here)
    | inr there ↦ rw (other, without) (rw there (among-without z w ys ne (ground arith)))
  ]
]

AllAmong-without :
    (z : ℤ) (zs ys : List ℤ) → Absent z zs → AllAmong zs ys → AllAmong zs (without z ys)
AllAmong-without z [] ys a h = tt
AllAmong-without z (w ∷ zs) ys a h =
    (among-without z w ys a.0 h.0, AllAmong-without z zs ys a.1 h.1)

length-le-of_AllAmong : (zs ys : List ℤ) → Distinct zs → AllAmong zs ys → length zs ≤ length ys
length-le-of_AllAmong [] ys d h = omega arith
length-le-of_AllAmong (z ∷ zs) ys d h = omega (
  arith,
  length-without z ys h.0,
  length-le-of_AllAmong zs (without z ys) d.1 (AllAmong-without z zs ys d.0 h.1),
)

-- Where one of the given ones is missing, there is room.
pub length-lt-of_Absent :
    (z : ℤ) (zs ys : List ℤ)
    → Absent z zs
    → Distinct zs
    → AllAmong zs ys
    → among z ys ≡ true
    → length zs < length ys
length-lt-of_Absent z zs ys a d h m = length-le-of_AllAmong (z ∷ zs) ys (a, d) (m, h)

pub AllAmong-append :
    (z : ℤ) (zs ys : List ℤ) → AllAmong zs ys → among z ys ≡ true → AllAmong (zs ++ z ∷ []) ys
AllAmong-append z [] ys h m = (m, tt)
AllAmong-append z (w ∷ zs) ys h m = (h.0, AllAmong-append z zs ys h.1 m)
