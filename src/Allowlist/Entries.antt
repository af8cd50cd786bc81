-- ===== src/Allowlist/Entries.antt =====
-- src/allowlist.ts: what the entries of a list hold once they are read.
use hackerpot.Common.{
  ℕ, ◌+◌, ◌^◌, ◌≤◌, ◌<◌, ◌≡◌, refl, Bool, true, Option, none, some, List, [], ◌∷◌, arith, length,
  leb, ◌&&◌, Bool-cases, inl, inr, leb→le, or_else, and_both, drop,
}
use hackerpot.Addresses.{
  before_first, is_number, decimal, v4_to_int, v6_to_big_int, normalize_address,
}
use hackerpot.Addresses.Values.{v4_to_int-lt, v6_to_big_int-lt}
use hackerpot.Allowlist.{
  Entry, read_entry, read_exact, read_range, exact_v6_of, v6_of, read_split, read_trimmed,
}

-- What `read_entry` guarantees of an entry.
abbrev pub IsRead : (List ℕ → Bool) → Entry → Type 0
IsRead is_ipv4 Entry.blank = Unit
IsRead is_ipv4 Entry.invalid_entry = Unit
IsRead is_ipv4 (Entry.exact_entry text) = is_ipv4 text ≡ true
IsRead is_ipv4 (Entry.exact_v6_entry value) = Unit
IsRead is_ipv4 (Entry.v4_entry int prefix) = (int < 2 ^ 32) × (prefix ≤ 32)
IsRead is_ipv4 (Entry.v6_entry value prefix) = (value < 2 ^ 128) × (prefix ≤ 128)

module _ (trim tidy : List ℕ → List ℕ) (is_ipv4 is_ipv6 : List ℕ → Bool) where
  exact_v6_of-IsRead : (o : Option ℕ) → IsRead is_ipv4 (exact_v6_of o)
  exact_v6_of-IsRead none = tt
  exact_v6_of-IsRead (some v) = tt

  read_exact-IsRead : (entry : List ℕ) → IsRead is_ipv4 (read_exact trim tidy is_ipv4 is_ipv6 entry)
  unfolding read_exact
  read_exact-IsRead entry =
      let n = normalize_address tidy is_ipv4 is_ipv6 entry in
      elim (Bool-cases (is_ipv6 n)) [
        | inl six ↦ rw six (exact_v6_of-IsRead (v6_to_big_int n))
        | inr other ↦ elim (Bool-cases (is_ipv4 n)) [
          | inl four ↦ rw (other, four) four
          | inr bad ↦ rw (other, bad) tt
        ]
      ]

  v6_of-IsRead :
      (o : Option ℕ) (prefix : ℕ)
      → ((v : ℕ) → o ≡ some v → v < 2 ^ 128)
      → prefix ≤ 128
      → IsRead is_ipv4 (v6_of o prefix)
  v6_of-IsRead none prefix small l = tt
  v6_of-IsRead (some v) prefix small l = (small v refl, l)

  or_else-lt : (o : Option ℕ) → ((v : ℕ) → o ≡ some v → v < 2 ^ 32) → or_else o 0 < 2 ^ 32
  or_else-lt none small = omega arith
  or_else-lt (some v) small = small v refl

  read_range-IsRead :
      (address prefix_part : List ℕ)
      → IsRead is_ipv4 (read_range trim tidy is_ipv4 is_ipv6 address prefix_part)
  unfolding read_range
  read_range-IsRead address prefix_part =
      let base = normalize_address tidy is_ipv4 is_ipv6 address in
      let prefix = decimal 0 prefix_part in
      elim (Bool-cases (is_ipv4 base && (is_number prefix_part && leb prefix 32))) [
        | inl four ↦
            let (_, sized) =
              and_both (is_ipv4 base) (is_number prefix_part && leb prefix 32) four in
            let (_, fits) = and_both (is_number prefix_part) (leb prefix 32) sized in
            rw four (or_else-lt (v4_to_int base) (v4_to_int-lt base), leb→le prefix 32 fits)
        | inr other ↦
            elim (Bool-cases (is_ipv6 base && (is_number prefix_part && leb prefix 128))) [
              | inl six ↦
                  let (_, sized) =
                    and_both (is_ipv6 base) (is_number prefix_part && leb prefix 128) six in
                  let (_, fits) = and_both (is_number prefix_part) (leb prefix 128) sized in
                  rw (other, six)
                    (v6_of-IsRead (v6_to_big_int base) prefix (v6_to_big_int-lt base)
                      (leb→le prefix 128 fits))
              | inr bad ↦ rw (other, bad) tt
            ]
      ]

  read_split-IsRead :
      (entry : List ℕ) (o : Option (List ℕ))
      → IsRead is_ipv4 (read_split trim tidy is_ipv4 is_ipv6 entry o)
  read_split-IsRead entry none = read_exact-IsRead entry
  read_split-IsRead entry (some address) =
      read_range-IsRead address (drop (length address + 1) entry)

  read_trimmed-IsRead :
      (entry : List ℕ) → IsRead is_ipv4 (read_trimmed trim tidy is_ipv4 is_ipv6 entry)
  read_trimmed-IsRead [] = tt
  read_trimmed-IsRead (c ∷ cs) = read_split-IsRead (c ∷ cs) (before_first 47 (c ∷ cs))

  pub read_entry-IsRead : (raw : List ℕ) → IsRead is_ipv4 (read_entry trim tidy is_ipv4 is_ipv6 raw)
  unfolding read_entry
  read_entry-IsRead raw = read_trimmed-IsRead (trim raw)
