-- ===== src/Addresses/Masks.antt =====
-- src/allowlist.ts: a mask of high bits compares prefixes.
use Prim.Native.Nat.{bit_and, digits, bit_and-bitwise}
use native.Mathlib.Nat.{pow-suc, zero-div, div-div-eq-div-mul, one-le-pow, mul-div_cancel}
use hackerpot.Common.{
  ℕ, zero, suc, ◌-◌, ◌*◌, ◌/◌, ◌%◌, ◌^◌, ◌≤◌, ◌<◌, ◌≡◌, sym, ap, ◌∙◌, arith, min, ◌↔◌,
}

abbrev and_from : ℕ → ℕ → ℕ → ℕ
and_from n a b = digits (λ b. zero) min n a b

-- The ones of a mask from one place to another keep what a number has there.
and_from-mask :
    (n w k a : ℕ) → a ≤ n → a < 2 ^ w → k ≤ w → and_from n a (2 ^ w - 2 ^ k) ≡ a / 2 ^ k * 2 ^ k
and_from-mask zero w k zero fuel small le = omega (arith, zero-div (2 ^ k))
and_from-mask zero w k (suc a) fuel small le = absurd (omega arith)
and_from-mask (suc n) w k zero fuel small le = omega (arith, zero-div (2 ^ k))
and_from-mask (suc n) zero k (suc a) fuel small le = absurd (omega arith)
and_from-mask (suc n) (suc w) zero (suc a) fuel small le =
    let double = pow-suc 2 w in
    let some_bits = one-le-pow w 2 (omega arith) in
    let half : (2 ^ suc w - 1) / 2 ≡ 2 ^ w - 1 = omega (arith, double, some_bits) in
    let odd : (2 ^ suc w - 1) % 2 ≡ 1 = omega (arith, double, some_bits) in
    let upper =
      and_from-mask n w 0 (suc a / 2) (omega arith) (omega (arith, double, small)) (omega arith) in
    rw (half, odd, upper) (omega arith)
and_from-mask (suc n) (suc w) (suc k) (suc a) fuel small le =
    let wide = pow-suc 2 w in
    let narrow = pow-suc 2 k in
    let half : (2 ^ suc w - 2 ^ suc k) / 2 ≡ 2 ^ w - 2 ^ k = omega (arith, wide, narrow) in
    let even : (2 ^ suc w - 2 ^ suc k) % 2 ≡ 0 = omega (arith, wide, narrow) in
    let upper =
      and_from-mask n w k (suc a / 2) (omega arith) (omega (arith, wide, small)) (omega arith) in
    let twice : suc a / 2 / 2 ^ k ≡ suc a / 2 ^ suc k =
      div-div-eq-div-mul (suc a) 2 (2 ^ k) ∙ ap (λ d. suc a / d) (omega (arith, narrow)) in
    let place : suc a / 2 ^ suc k * 2 ^ suc k ≡ suc a / 2 ^ suc k * (2 ^ k * 2) =
      ap (λ d. suc a / 2 ^ suc k * d) narrow in
    let low : suc a / 2 / 2 ^ k * 2 ^ k ≡ suc a / 2 ^ suc k * 2 ^ k = ap (λ d. d * 2 ^ k) twice in
    rw (half, even, upper) (omega (arith, place, low))

-- `a & mask` for a mask whose low `k` digits of `w` are zero.
pub bit_and-mask : (w k a : ℕ) → a < 2 ^ w → k ≤ w → bit_and a (2 ^ w - 2 ^ k) ≡ a / 2 ^ k * 2 ^ k
bit_and-mask w k a small le =
    bit_and-bitwise a (2 ^ w - 2 ^ k) ∙ and_from-mask a w k a (omega arith) small le

-- Two numbers agree under the mask just where their prefixes do.
pub mask-prefix :
    (w k a b : ℕ)
    → a < 2 ^ w
    → b < 2 ^ w
    → k ≤ w
    → (bit_and a (2 ^ w - 2 ^ k) ≡ bit_and b (2 ^ w - 2 ^ k)) ↔ (a / 2 ^ k ≡ b / 2 ^ k)
mask-prefix w k a b ha hb le =
    let left = bit_and-mask w k a ha le in
    let right = bit_and-mask w k b hb le in
    let positive : 0 < 2 ^ k = one-le-pow k 2 (omega arith) in
    (
      (λ same.
          sym (mul-div_cancel (a / 2 ^ k) positive)
          ∙ ap (λ n. n / 2 ^ k) (sym left ∙ same ∙ right)
          ∙ mul-div_cancel (b / 2 ^ k) positive),
      (λ same. left ∙ ap (λ n. n * 2 ^ k) same ∙ sym right),
    )
