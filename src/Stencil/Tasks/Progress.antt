-- ===== src/Stencil/Tasks/Progress.antt =====
-- The tasks of the stencil never wait for each other in a circle.
use xkomp.Prelude.{
  ℕ, zero, suc, ◌+◌, ◌≤◌, ◌<◌, ◌≡◌, inl, inr, refl, arith, Bool, true, Bool-cases, ltb,
}
use xkomp.Stencil.{range_from, Layout}
use xkomp.Stencil.Tasks.{all_of, Ended, may_pass, ready}

all_of-range_from :
    (p : ℕ → Bool) (i m : ℕ)
    → ((k : ℕ) → i ≤ k → k < i + m → p k ≡ true)
    → all_of p (range_from i m) ≡ true
unfolding range_from
all_of-range_from p i zero h = refl
all_of-range_from p i (suc m) h =
    let first = h i (omega arith) (omega arith) in
    let rest = all_of-range_from p (i + 1) m (λ k lo hi. h k (omega arith) (omega arith)) in
    ground arith

-- The first of the numbers below `m` at which `f` is least.
record FirstLeast (f : ℕ → ℕ) (m : ℕ) : Type 0 where
  at : ℕ
  below : at < m
  least : (i : ℕ) → i < m → f at ≤ f i
  first : (i : ℕ) → i < at → f at < f i

first_least : (f : ℕ → ℕ) (m : ℕ) → FirstLeast f (suc m)
first_least f zero = record {
  at = 0;
  below = omega arith;
  least = λ i h. let e : i ≡ 0 = omega arith in rw e (omega arith);
  first = λ i h. absurd (omega arith);
}
first_least f (suc m) =
    let r = first_least f m in
    elim (Bool-cases (ltb (f (suc m)) (f r.at))) [
      | inl less ↦ record {
        at = suc m;
        below = omega arith;
        least = λ i h. elim (Bool-cases (ltb i (suc m))) [
          | inl before ↦ let c = r.least i (ground arith) in ground arith
          | inr last ↦ let e : i ≡ suc m = ground arith in rw e (omega arith)
        ];
        first = λ i h. let c = r.least i h in ground arith;
      }
      | inr not_less ↦ record {
        at = r.at;
        below = let b = r.below in omega arith;
        least = λ i h. elim (Bool-cases (ltb i (suc m))) [
          | inl before ↦ r.least i (ground arith)
          | inr last ↦ let e : i ≡ suc m = ground arith in rw e (ground arith)
        ];
        first = r.first;
      }
    ]

-- Whatever tasks have ended: while a device has sweeps left, there is a device with sweeps left whose
-- next task waits for no other.
pub some_ready :
    (l : Layout) (nd bs sweeps i : ℕ) (ended : Ended)
    → i < nd
    → ended i < sweeps
    → (j : ℕ) × (j < nd) × (ended j < sweeps) × (ready l nd bs ended j ≡ true)
unfolding ready
some_ready l zero bs sweeps i ended h left = absurd (omega arith)
some_ready l (suc m) bs sweeps i ended h left =
    let r = first_least ended m in
    (
      r.at,
      r.below,
      (let c = r.least i h in omega arith),
      let earlier =
            all_of-range_from
              (λ t'. all_of (may_pass l bs ended (suc (ended r.at)) r.at t') (range_from 0 (suc m)))
              1 (ended r.at)
              (λ t' lo hi.
                all_of-range_from (may_pass l bs ended (suc (ended r.at)) r.at t') 0 (suc m)
                  (λ j' lo' hi'. let c = r.least j' (omega arith) in ground arith)) in
          let same =
            all_of-range_from (may_pass l bs ended (suc (ended r.at)) r.at (suc (ended r.at))) 0
              r.at (λ j' lo hi. let c = r.first j' (omega arith) in ground arith) in
          ground arith,
    )
