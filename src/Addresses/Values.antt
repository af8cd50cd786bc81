-- ===== src/Addresses/Values.antt =====
-- src/internal/ip.ts: the numbers of addresses are in range.
use native.Mathlib.Nat.{pow-le-pow_right, pow-suc, mul-le-mul_right}
use hackerpot.Common.{
  ℕ, zero, suc, ◌+◌, ◌-◌, ◌*◌, ◌%◌, ◌^◌, ◌≤◌, ◌<◌, ◌≡◌, refl, sym, ap, ◌∙◌, Bool, true, false,
  Option, none, some, List, [], ◌∷◌, ◌++◌, arith, length, leb, ltb, ◌==◌, ◌&&◌, Option-cases, inl,
  inr, length-append, leb→le, if◌then◌else◌, and_both, if_some, or_else, subst,
}
use hackerpot.Addresses.{
  v4_to_int, sum_octets, octet, shift_in, split_on, point, v6_to_big_int, hexadecimal, hex_value,
  is_hex, is_group, all_of, sum_groups, expand, groups_of, zeros, split_gap, replace_quad,
  sum_expanded, of_replaced,
}

==→≡ : (a b : ℕ) → (a == b) ≡ true → a ≡ b
==→≡ a b h = ground arith

shift_in-lt : (n : ℕ) (o : Option ℕ) (m : ℕ) → shift_in n o ≡ some m → m < 2 ^ 32
shift_in-lt n none m h = absurd (cc)
shift_in-lt n (some v) m h =
    let same : (n * 256 + v) % 2 ^ 32 ≡ m = ground arith in omega (arith, same)

sum_octets-lt :
    (acc : Option ℕ) (parts : List (List ℕ)) (v : ℕ)
    → ((n : ℕ) → acc ≡ some n → n < 2 ^ 32)
    → sum_octets acc parts ≡ some v
    → v < 2 ^ 32
unfolding sum_octets
sum_octets-lt none parts v l h = absurd (cc)
sum_octets-lt (some n) [] v l h = l v h
sum_octets-lt (some n) (p ∷ parts) v l h =
    sum_octets-lt (shift_in n (octet p)) parts v (shift_in-lt n (octet p)) h

quad-lt :
    (b : Bool) (parts : List (List ℕ)) (v : ℕ)
    → (if b then sum_octets (some 0) parts else none) ≡ some v
    → v < 2 ^ 32
quad-lt true parts v h =
    sum_octets-lt (some 0) parts v (λ n e. let same : 0 ≡ n = ground arith in omega (arith, same)) h
quad-lt false parts v h = absurd (cc)

pub v4_to_int-lt : (ip : List ℕ) (v : ℕ) → v4_to_int ip ≡ some v → v < 2 ^ 32
unfolding v4_to_int
v4_to_int-lt ip v h = quad-lt (length (split_on point ip) == 4) (split_on point ip) v h

hex_value-lt : (c : ℕ) → is_hex c ≡ true → hex_value c < 16
hex_value-lt c h = ground arith

hexadecimal-lt :
    (n : ℕ) (g : List ℕ) → all_of is_hex g ≡ true → hexadecimal n g < (n + 1) * 16 ^ length g
unfolding hexadecimal
hexadecimal-lt n [] h = omega arith
hexadecimal-lt n (c ∷ cs) h =
    let (hex, others) = and_both (is_hex c) (all_of is_hex cs) h in
    let digit = hex_value-lt c hex in
    let rest = hexadecimal-lt (n * 16 + hex_value c) cs others in
    let grown : (n * 16 + hex_value c + 1) * 16 ^ length cs ≤ (n + 1) * 16 * 16 ^ length cs =
      mul-le-mul_right (16 ^ length cs) (omega (arith, digit)) in
    omega
      (arith, rest, grown, pow-suc 16 (length cs), ap (λ k. (n + 1) * k) (pow-suc 16 (length cs)))

group-lt : (g : List ℕ) → is_group g ≡ true → hexadecimal 0 g < 65536
group-lt g h =
    let (_, few) = and_both (ltb 0 (length g)) (leb (length g) 4 && all_of is_hex g) h in
    let (short, hex) = and_both (leb (length g) 4) (all_of is_hex g) few in
    let base : 0 < 16 = omega arith in
    let most : 16 ^ length g ≤ 16 ^ 4 = pow-le-pow_right base (leb→le (length g) 4 short) in
    omega (arith, hexadecimal-lt 0 g hex, most)

sum_groups-lt :
    (n : ℕ) (gs : List (List ℕ)) (v : ℕ)
    → sum_groups n gs ≡ some v
    → v < (n + 1) * 65536 ^ length gs
unfolding sum_groups
sum_groups-lt n [] v h = let same : n ≡ v = ground arith in omega (arith, same)
sum_groups-lt n (g ∷ gs) v h =
    let next = n * 2 ^ 16 + hexadecimal 0 g in
    let (group, rest) = if_some (is_group g) (sum_groups next gs) v h in
    let grown : (next + 1) * 65536 ^ length gs ≤ (n + 1) * 65536 * 65536 ^ length gs =
      mul-le-mul_right (65536 ^ length gs) (omega (arith, group-lt g group)) in
    omega (
      arith,
      sum_groups-lt next gs v rest,
      grown,
      ap (λ k. (n + 1) * k) (pow-suc 65536 (length gs)),
    )

length-zeros : (n : ℕ) → length (zeros n) ≡ n
length-zeros zero = refl
length-zeros (suc n) = ap suc (length-zeros n)

expand-length : (halves gs : List (List ℕ)) → expand halves ≡ some gs → length gs ≡ 8
unfolding expand
expand-length [] gs h = absurd (cc)
expand-length (head ∷ []) gs h =
    let (eight, same) = if_some (length (groups_of head) == 8) (some (groups_of head)) gs h in
    let here : groups_of head ≡ gs = ap (λ o. or_else o gs) same in
    subst (λ (g : List (List ℕ)). length g ≡ 8) here (==→≡ (length (groups_of head)) 8 eight)
expand-length (head ∷ tail ∷ []) gs h =
    let hs = groups_of head in
    let ts = groups_of tail in
    let missing = 8 - (length hs + length ts) in
    let whole = hs ++ zeros missing ++ ts in
    let (fits, same) = if_some (leb (length hs + length ts) 8) (some whole) gs h in
    let here : whole ≡ gs = ap (λ o. or_else o gs) same in
    let sum : length whole ≡ 8 = omega (
      arith,
      length-append (hs ++ zeros missing) ts,
      length-append hs (zeros missing),
      length-append hs (zeros missing ++ ts),
      length-append (zeros missing) ts,
      length-zeros missing,
      leb→le (length hs + length ts) 8 fits,
    ) in
    subst (λ (g : List (List ℕ)). length g ≡ 8) here sum
expand-length (head ∷ tail ∷ more ∷ rest) gs h = absurd (cc)

expanded-lt : (halves : List (List ℕ)) (v : ℕ) → sum_expanded (expand halves) ≡ some v → v < 2 ^ 128
expanded-lt halves v h = elim (Option-cases (expand halves)) [
  | inl bad ↦ absurd (ground (arith, bad, h))
  | inr (gs, good) ↦
      let summed : sum_groups 0 gs ≡ some v = sym (ap sum_expanded good) ∙ h in
      let eight = expand-length halves gs good in
      let wide : 65536 ^ length gs ≡ 65536 ^ 8 = ap (λ n. 65536 ^ n) eight in
      omega (arith, sum_groups-lt 0 gs v summed, wide)
]

replaced-lt : (o : Option (List ℕ)) (v : ℕ) → of_replaced o ≡ some v → v < 2 ^ 128
replaced-lt none v h = absurd (cc)
replaced-lt (some s) v h = expanded-lt (split_gap s) v h

pub v6_to_big_int-lt : (ip : List ℕ) (v : ℕ) → v6_to_big_int ip ≡ some v → v < 2 ^ 128
unfolding v6_to_big_int
v6_to_big_int-lt ip v h = replaced-lt (replace_quad ip) v h
