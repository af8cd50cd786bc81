-- ===== src/Allowlist/Prefixes.antt =====
-- src/allowlist.ts: the masks of the ranges compare prefixes.
use hackerpot.Common.{
  ℕ, zero, suc, ◌-◌, ◌/◌, ◌^◌, ◌≤◌, ◌<◌, ◌≡◌, refl, sym, subst, Bool, true, arith, leb, ◌==◌, ◌&&◌,
  Bool-cases, inl, inr, leb→le, and_both,
}
use hackerpot.Addresses.Masks.{mask-prefix}
use hackerpot.Allowlist.{v4_mask, v6_mask, range_of, in_range}

-- A test of every number up to a bound.
all_up_to : ℕ → (ℕ → Bool) → Bool
all_up_to zero p = p 0
all_up_to (suc n) p = p (suc n) && all_up_to n p

all_up_to_sound : (n : ℕ) (p : ℕ → Bool) (x : ℕ) → all_up_to n p ≡ true → x ≤ n → p x ≡ true
unfolding all_up_to
all_up_to_sound zero p x h l =
    let none_else : 0 ≡ x = omega arith in subst (λ y. p y ≡ true) none_else h
all_up_to_sound (suc n) p x h l =
    let (top, below) = and_both (p (suc n)) (all_up_to n p) h in
    elim (Bool-cases (leb x n)) [
      | inl le ↦ all_up_to_sound n p x below (leb→le x n le)
      | inr gt ↦ let last : suc n ≡ x = ground arith in subst (λ y. p y ≡ true) last top
    ]

v4_masks : all_up_to 32 (λ p. v4_mask p == 2 ^ 32 - 2 ^ (32 - p)) ≡ true
unfolding all_up_to v4_mask
v4_masks = refl

v6_masks : all_up_to 128 (λ p. v6_mask p == 2 ^ 128 - 2 ^ (128 - p)) ≡ true
unfolding all_up_to v6_mask
v6_masks = refl

pub is_same : (a b : ℕ) → (a == b) ≡ true → a ≡ b
is_same a b h = ground arith

pub v4_mask-ones : (p : ℕ) → p ≤ 32 → v4_mask p ≡ 2 ^ 32 - 2 ^ (32 - p)
v4_mask-ones p l =
    is_same _ _ (all_up_to_sound 32 (λ p. v4_mask p == 2 ^ 32 - 2 ^ (32 - p)) p v4_masks l)

pub v6_mask-ones : (p : ℕ) → p ≤ 128 → v6_mask p ≡ 2 ^ 128 - 2 ^ (128 - p)
v6_mask-ones p l =
    is_same _ _ (all_up_to_sound 128 (λ p. v6_mask p == 2 ^ 128 - 2 ^ (128 - p)) p v6_masks l)

-- The first bits of two numbers of a width agree.
abbrev pub same_prefix : ℕ → ℕ → ℕ → ℕ → Bool
same_prefix width prefix a b = a / 2 ^ (width - prefix) == b / 2 ^ (width - prefix)

pub in_range-prefix :
    (w p mask a b : ℕ)
    → a < 2 ^ w
    → b < 2 ^ w
    → mask ≡ 2 ^ w - 2 ^ (w - p)
    → in_range a (range_of b mask) ≡ same_prefix w p a b
in_range-prefix w p mask a b ha hb ones =
    let both = mask-prefix w (w - p) a b ha hb (omega arith) in
    subst (λ m. in_range a (range_of b m) ≡ same_prefix w p a b) (sym ones) (ground (arith, both))
