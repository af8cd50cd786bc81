-- ===== src/Allowlist/Spelling.antt =====
-- src/allowlist.ts: two spellings of an address are allowed alike.
use mathlib.Core.Path.{ap₂}
use hackerpot.Common.{
  ℕ, ◌≡◌, refl, sym, ap, ◌∙◌, subst, Bool, true, false, Option, none, some, List, [], ◌∷◌, arith,
  ◌&&◌, ◌||◌, Bool-cases, inl, inr, same_units, same_units_eq, and_both,
}
use hackerpot.Addresses.{v6_to_big_int, normalize_address, same_value, same_address}
use hackerpot.Allowlist.{Entry, create, allows, read_entry}
use hackerpot.Allowlist.Prefixes.{is_same}
use hackerpot.Allowlist.Entries.{IsRead, read_entry-IsRead}
use hackerpot.Allowlist.Covering.{covers, some_covers, allows-covers}

module _ (trim tidy : List ℕ → List ℕ) (is_ipv4 is_ipv6 : List ℕ → Bool) where
  not_text : (n t : List ℕ) → is_ipv4 n ≡ false → is_ipv4 t ≡ true → same_units n t ≡ false
  not_text n t six four = elim (Bool-cases (same_units n t)) [
    | inl same ↦ absurd (
        ground
          (arith, six, four, subst (λ u. is_ipv4 u ≡ true) (sym (same_units_eq n t same)) four))
    | inr other ↦ other
  ]

  -- Two spellings of an IPv6 address are covered by the same entries.
  covers-value :
      (n m : List ℕ) (e : Entry)
      → is_ipv4 n ≡ false
      → is_ipv4 m ≡ false
      → v6_to_big_int n ≡ v6_to_big_int m
      → IsRead is_ipv4 e
      → covers trim tidy is_ipv4 is_ipv6 n e ≡ covers trim tidy is_ipv4 is_ipv6 m e
  covers-value n m Entry.blank hn hm v r = refl
  covers-value n m Entry.invalid_entry hn hm v r = refl
  covers-value n m (Entry.exact_entry text) hn hm v r =
      not_text n text hn r ∙ sym (not_text m text hm r)
  covers-value n m (Entry.exact_v6_entry value) hn hm v r = rw (hn, hm, v) refl
  covers-value n m (Entry.v4_entry int prefix) hn hm v r = rw (hn, hm) refl
  covers-value n m (Entry.v6_entry value prefix) hn hm v r = rw (hn, hm, v) refl

  some_covers-value :
      (n m : List ℕ) (entries : List (List ℕ))
      → is_ipv4 n ≡ false
      → is_ipv4 m ≡ false
      → v6_to_big_int n ≡ v6_to_big_int m
      → some_covers trim tidy is_ipv4 is_ipv6 n entries
        ≡ some_covers trim tidy is_ipv4 is_ipv6 m entries
  some_covers-value n m [] hn hm v = refl
  some_covers-value n m (raw ∷ entries) hn hm v =
      ap₂ (λ a b. a || b)
        (covers-value n m (read_entry trim tidy is_ipv4 is_ipv6 raw) hn hm v
          (read_entry-IsRead trim tidy is_ipv4 is_ipv6 raw))
        (some_covers-value n m entries hn hm v)

same_value-eq :
    (tidy : List ℕ → List ℕ) (is_ipv4 is_ipv6 : List ℕ → Bool) (a b : Option ℕ)
    → same_value tidy is_ipv4 is_ipv6 a b ≡ true
    → a ≡ b
same_value-eq tidy is_ipv4 is_ipv6 none b h = absurd (cc)
same_value-eq tidy is_ipv4 is_ipv6 (some v) none h = absurd (cc)
same_value-eq tidy is_ipv4 is_ipv6 (some v) (some w) h = ap some (is_same v w h)

-- Where no text is an address of both families, two texts that `sameAddress` holds for the same address
-- are both allowed by a list or both not, however each is spelled.
pub allows-same_address :
    (trim tidy : List ℕ → List ℕ) (is_ipv4 is_ipv6 : List ℕ → Bool) (entries : List (List ℕ))
    (a b : List ℕ)
    → ((s : List ℕ) → is_ipv6 s ≡ true → is_ipv4 s ≡ false)
    → same_address tidy is_ipv4 is_ipv6 a b ≡ true
    → let l = create trim tidy is_ipv4 is_ipv6 entries in
      allows trim tidy is_ipv4 is_ipv6 a l ≡ allows trim tidy is_ipv4 is_ipv6 b l
unfolding same_address
allows-same_address trim tidy is_ipv4 is_ipv6 entries a b disjoint h =
    let left = normalize_address tidy is_ipv4 is_ipv6 a in
    let right = normalize_address tidy is_ipv4 is_ipv6 b in
    let values = same_value tidy is_ipv4 is_ipv6 (v6_to_big_int left) (v6_to_big_int right) in
    let same : some_covers trim tidy is_ipv4 is_ipv6 left entries
        ≡ some_covers trim tidy is_ipv4 is_ipv6 right entries =
      elim (Bool-cases (same_units left right)) [
        | inl text ↦
            ap (λ n. some_covers trim tidy is_ipv4 is_ipv6 n entries)
              (same_units_eq left right text)
        | inr other ↦
            let (six, rest) = and_both (is_ipv6 left) (is_ipv6 right && values) (rw other at h) in
            let (also_six, equal) = and_both (is_ipv6 right) values rest in
            some_covers-value trim tidy is_ipv4 is_ipv6 left right entries (disjoint left six)
              (disjoint right also_six) (same_value-eq tidy is_ipv4 is_ipv6 _ _ equal)
      ] in
    allows-covers trim tidy is_ipv4 is_ipv6 entries a
    ∙ same
    ∙ sym (allows-covers trim tidy is_ipv4 is_ipv6 entries b)
