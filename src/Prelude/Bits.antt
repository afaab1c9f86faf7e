-- ===== src/Prelude/Bits.antt =====
-- `&` with a mask of `j` ones above `k` zeros, at every width.
use Prim.Native.Nat.{
  ℕ, zero, suc, ◌+◌, ◌-◌, ◌*◌, ◌/◌, ◌%◌, ◌^◌, ◌≤◌, ◌<◌, min, bit_and, digits, bit_and-bitwise,
}
use mathlib.Core.Path.{◌≡◌, refl, sym, ◌∙◌}
use native.Mathlib.Nat.{pow-suc, one-le-pow, div-add-mod'}
use native.Mathlib.Omega.{arith}

abbrev and_digits : ℕ → ℕ → ℕ → ℕ
and_digits = digits (λ b. zero) min

and_digits-zero : (n a : ℕ) → and_digits n a 0 ≡ 0
and_digits-zero zero zero = refl
and_digits-zero zero (suc a) = refl
and_digits-zero (suc n) zero = refl
and_digits-zero (suc n) (suc a) = omega (arith, and_digits-zero n (suc a / 2))

-- The masked bits of `a`, between those above and those below.
bits_between :
    (n k j q m r : ℕ)
    → (q * 2 ^ j + m) * 2 ^ k + r ≤ n
    → m < 2 ^ j
    → r < 2 ^ k
    → (a : ℕ) → a ≡ (q * 2 ^ j + m) * 2 ^ k + r
    → and_digits n a ((2 ^ j - 1) * 2 ^ k) ≡ m * 2 ^ k
bits_between zero k j q m r le hm hr zero e = omega arith
bits_between (suc n) k j q m r le hm hr zero e = omega arith
bits_between zero k j q m r le hm hr (suc a) e = absurd (omega arith)
bits_between (suc n) (suc k) j q m r le hm hr (suc a) e =
    let p = pow-suc 2 k in
    let mask : (2 ^ j - 1) * 2 ^ suc k ≡ (2 ^ j - 1) * 2 ^ k * 2 = rw p (omega arith) in
    let top : (q * 2 ^ j + m) * 2 ^ suc k ≡ (q * 2 ^ j + m) * 2 ^ k * 2 = rw p (omega arith) in
    let half : suc a / 2 ≡ (q * 2 ^ j + m) * 2 ^ k + r / 2 = omega (arith, top) in
    let mask_half : (2 ^ j - 1) * 2 ^ suc k / 2 ≡ (2 ^ j - 1) * 2 ^ k = rw mask (omega arith) in
    let mask_even : (2 ^ j - 1) * 2 ^ suc k % 2 ≡ 0 = rw mask (omega arith) in
    let low : suc a % 2 ≡ r % 2 = omega (arith, top) in
    let rest : and_digits n (suc a / 2) ((2 ^ j - 1) * 2 ^ k) ≡ m * 2 ^ k =
      bits_between n k j q m (r / 2) (omega (arith, top)) hm (omega (arith, p)) (suc a / 2) half in
    rw (mask_half, mask_even, rest, p) (omega arith)
bits_between (suc n) zero (suc j) q m r le hm hr (suc a) e =
    let p = pow-suc 2 j in
    let pq : q * 2 ^ suc j ≡ q * 2 ^ j * 2 = rw p (omega arith) in
    let one = one-le-pow j 2 (omega arith) in
    let half : suc a / 2 ≡ (q * 2 ^ j + m / 2) * 2 ^ 0 + 0 = omega (arith, pq) in
    let mask_half : (2 ^ suc j - 1) * 1 / 2 ≡ (2 ^ j - 1) * 2 ^ 0 = omega (arith, p, one) in
    let mask_odd : (2 ^ suc j - 1) * 1 % 2 ≡ 1 = omega (arith, p, one) in
    let low : suc a % 2 ≡ m % 2 = omega (arith, pq) in
    let rest : and_digits n (suc a / 2) ((2 ^ j - 1) * 2 ^ 0) ≡ m / 2 * 2 ^ 0 =
      bits_between n 0 j q (m / 2) 0 (omega (arith, pq)) (omega (arith, p)) (omega arith)
        (suc a / 2) half in
    rw (mask_half, mask_odd, rest, low) (omega arith)
bits_between (suc n) zero zero q m r le hm hr (suc a) e =
    omega (arith, and_digits-zero n (suc a / 2))

-- `2 ^ j - 1`, shifted by `k`: the mask keeps those digits and clears the others.
pub bit_and_mask : (k j a : ℕ) → bit_and a ((2 ^ j - 1) * 2 ^ k) ≡ a / 2 ^ k % 2 ^ j * 2 ^ k
bit_and_mask k j a =
    let pk = one-le-pow k 2 (omega arith) in
    let pj = one-le-pow j 2 (omega arith) in
    bit_and-bitwise a ((2 ^ j - 1) * 2 ^ k)
    ∙ bits_between a k j (a / 2 ^ k / 2 ^ j) (a / 2 ^ k % 2 ^ j) (a % 2 ^ k) (omega (arith, whole))
        (omega (arith, pj)) (omega (arith, pk)) a whole
  where
    whole : a ≡ (a / 2 ^ k / 2 ^ j * 2 ^ j + a / 2 ^ k % 2 ^ j) * 2 ^ k + a % 2 ^ k
    whole = rw (div-add-mod' (a / 2 ^ k) (2 ^ j)) (sym (div-add-mod' a (2 ^ k)))
