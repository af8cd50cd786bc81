-- ===== src/Allowlist/Covering.antt =====
-- src/allowlist.ts: an address is allowed exactly if one of the entries covers it.
use hackerpot.Common.{
  ℕ, ◌^◌, ◌≤◌, ◌<◌, ◌≡◌, refl, sym, ap, ◌∙◌, subst, Bool, true, false, Option, none, some, List, [],
  ◌∷◌, ◌++◌, arith, length, ◌==◌, ◌&&◌, ◌||◌, Bool-cases, inl, inr, if◌then◌else◌, any, mem_units,
  same_units, same_units_eq, not,
}
use hackerpot.Addresses.{v4_to_int, v6_to_big_int, normalize_address}
use hackerpot.Addresses.Values.{v4_to_int-lt, v6_to_big_int-lt}
use hackerpot.Allowlist.{
  IpAllowlist, Range, Entry, add_entry, add_all, create, empty_allowlist, v4_mask, v6_mask,
  range_of, in_range, mem_value, match_v4, match_v6, allows_normal, allows, size, read_entry,
}
use hackerpot.Allowlist.Entries.{IsRead, read_entry-IsRead}
use hackerpot.Allowlist.Prefixes.{is_same, v4_mask-ones, v6_mask-ones, same_prefix, in_range-prefix}

-- The number of an address, if it has one, passes a test.
abbrev pub given : Option ℕ → (ℕ → Bool) → Bool
given none p = false
given (some v) p = p v

any_end :
    {A : Type 0} (p : A → Bool) (xs : List A) (x : A) → any p (xs ++ x ∷ []) ≡ (any p xs || p x)
any_end p [] x = or-false (p x)
  where
    or-false : (b : Bool) → (b || false) ≡ b
    or-false true = refl
    or-false false = refl
any_end p (y ∷ ys) x = elim (Bool-cases (p y)) [ inl h ↦ rw h refl | inr h ↦ rw h (any_end p ys x) ]

or_last : (m s r : Bool) → (if m || s then true else r) ≡ ((if m then true else r) || s)
or_last true s r = refl
or_last false true true = refl
or_last false true false = refl
or_last false false true = refl
or_last false false false = refl

absorbed : (m s : Bool) → (s ≡ true → m ≡ true) → m ≡ (m || s)
absorbed true s h = refl
absorbed false true h = h refl
absorbed false false h = refl

mem_value-add :
    (v w : ℕ) (xs : List ℕ)
    → mem_value v (if mem_value w xs then xs else xs ++ w ∷ []) ≡ (mem_value v xs || v == w)
mem_value-add v w xs = elim (Bool-cases (mem_value w xs)) [
  | inl known ↦ rw known (
      absorbed (mem_value v xs) (v == w)
        (λ same. subst (λ u. mem_value u xs ≡ true) (sym (is_same v w same)) known))
  | inr new ↦ rw new (any_end (λ u. v == u) xs w)
]

mem_units-add :
    (n t : List ℕ) (xs : List (List ℕ))
    → mem_units n (if mem_units t xs then xs else xs ++ t ∷ []) ≡ (mem_units n xs || same_units n t)
mem_units-add n t xs = elim (Bool-cases (mem_units t xs)) [
  | inl known ↦ rw known (
      absorbed (mem_units n xs) (same_units n t)
        (λ same. subst (λ u. mem_units u xs ≡ true) (sym (same_units_eq n t same)) known))
  | inr new ↦ rw new (any_end (same_units n) xs t)
]

empty_size : size empty_allowlist ≡ 0
unfolding size
empty_size = refl

module _ (trim tidy : List ℕ → List ℕ) (is_ipv4 is_ipv6 : List ℕ → Bool) where
  -- An address in its normal form is covered by an entry: it is the address of the entry, or its first
  -- bits are those of the range. An exact IPv6 entry is compared by value.
  abbrev pub covers : List ℕ → Entry → Bool
  covers n Entry.blank = false
  covers n Entry.invalid_entry = false
  covers n (Entry.exact_entry text) = same_units n text
  covers n (Entry.exact_v6_entry value) =
      not (is_ipv4 n) && given (v6_to_big_int n) (λ v. v == value)
  covers n (Entry.v4_entry int prefix) =
      is_ipv4 n && given (v4_to_int n) (λ v. same_prefix 32 prefix v int)
  covers n (Entry.v6_entry value prefix) =
      not (is_ipv4 n) && given (v6_to_big_int n) (λ v. same_prefix 128 prefix v value)

  -- A new range at the end.
  match_v4-end :
      (ranges : List Range) (int prefix : ℕ) (o : Option ℕ)
      → ((v : ℕ) → o ≡ some v → v < 2 ^ 32)
      → int < 2 ^ 32
      → prefix ≤ 32
      → match_v4 trim tidy is_ipv4 is_ipv6 (ranges ++ range_of int (v4_mask prefix) ∷ []) o ≡ (
          match_v4 trim tidy is_ipv4 is_ipv6 ranges o || given o (λ v. same_prefix 32 prefix v int))
  match_v4-end ranges int prefix none small l p = refl
  match_v4-end ranges int prefix (some v) small l p =
      any_end (in_range v) ranges (range_of int (v4_mask prefix))
      ∙ ap (λ b. any (in_range v) ranges || b)
          (in_range-prefix 32 prefix (v4_mask prefix) v int (small v refl) l
            (v4_mask-ones prefix p))

  match_v6-end :
      (exact : List ℕ) (ranges : List Range) (value prefix : ℕ) (o : Option ℕ)
      → ((v : ℕ) → o ≡ some v → v < 2 ^ 128)
      → value < 2 ^ 128
      → prefix ≤ 128
      → match_v6 trim tidy is_ipv4 is_ipv6 exact (ranges ++ range_of value (v6_mask prefix) ∷ []) o
        ≡ (match_v6 trim tidy is_ipv4 is_ipv6 exact ranges o
            || given o (λ v. same_prefix 128 prefix v value))
  match_v6-end exact ranges value prefix none small l p = refl
  match_v6-end exact ranges value prefix (some v) small l p =
      elim (Bool-cases (mem_value v exact)) [
        | inl h ↦ rw h refl
        | inr h ↦ rw h (
            any_end (in_range v) ranges (range_of value (v6_mask prefix))
            ∙ ap (λ b. any (in_range v) ranges || b)
                (in_range-prefix 128 prefix (v6_mask prefix) v value (small v refl) l
                  (v6_mask-ones prefix p)))
      ]

  match_v6-exact :
      (exact : List ℕ) (ranges : List Range) (value : ℕ) (o : Option ℕ)
      → match_v6 trim tidy is_ipv4 is_ipv6
          (if mem_value value exact then exact else exact ++ value ∷ [])
          ranges
          o
        ≡ (match_v6 trim tidy is_ipv4 is_ipv6 exact ranges o || given o (λ v. v == value))
  match_v6-exact exact ranges value none = refl
  match_v6-exact exact ranges value (some v) =
      ap (λ b. if b then true else any (in_range v) ranges) (mem_value-add v value exact)
      ∙ or_last (mem_value v exact) (v == value) (any (in_range v) ranges)

  or_none : (b : Bool) → b ≡ (b || false)
  or_none true = refl
  or_none false = refl

  -- An entry that is added allows what it covers and no more.
  allows_normal-add_entry :
      (n raw : List ℕ) (e : Entry) (l : IpAllowlist)
      → IsRead is_ipv4 e
      → allows_normal trim tidy is_ipv4 is_ipv6 n (add_entry raw e l)
        ≡ (allows_normal trim tidy is_ipv4 is_ipv6 n l || covers n e)
  unfolding allows_normal add_entry
  allows_normal-add_entry n raw Entry.blank l r = or_none _
  allows_normal-add_entry n raw Entry.invalid_entry l r = or_none _
  allows_normal-add_entry n raw (Entry.exact_entry text) l r =
      let ranged =
        if is_ipv4 n
        then match_v4 trim tidy is_ipv4 is_ipv6 l.v4 (v4_to_int n)
        else match_v6 trim tidy is_ipv4 is_ipv6 l.exact_v6 l.v6 (v6_to_big_int n) in
      ap (λ b. if b then true else ranged) (mem_units-add n text l.exact)
      ∙ or_last (mem_units n l.exact) (same_units n text) ranged
  allows_normal-add_entry n raw (Entry.exact_v6_entry value) l r =
      elim (Bool-cases (mem_units n l.exact)) [
        | inl h ↦ rw h refl
        | inr h ↦ elim (Bool-cases (is_ipv4 n)) [
          | inl k ↦ rw (h, k) (or_none _)
          | inr k ↦ rw (h, k) (match_v6-exact l.exact_v6 l.v6 value (v6_to_big_int n))
        ]
      ]
  allows_normal-add_entry n raw (Entry.v4_entry int prefix) l r =
      elim (Bool-cases (mem_units n l.exact)) [
        | inl h ↦ rw h refl
        | inr h ↦ elim (Bool-cases (is_ipv4 n)) [
          | inl k ↦ rw (h, k) (match_v4-end l.v4 int prefix (v4_to_int n) (v4_to_int-lt n) r.0 r.1)
          | inr k ↦ rw (h, k) (or_none _)
        ]
      ]
  allows_normal-add_entry n raw (Entry.v6_entry value prefix) l r =
      elim (Bool-cases (mem_units n l.exact)) [
        | inl h ↦ rw h refl
        | inr h ↦ elim (Bool-cases (is_ipv4 n)) [
          | inl k ↦ rw (h, k) (or_none _)
          | inr k ↦
              rw (h, k)
                (match_v6-end l.exact_v6 l.v6 value prefix (v6_to_big_int n) (v6_to_big_int-lt n)
                  r.0 r.1)
        ]
      ]

  -- Some entry of a list covers the address.
  abbrev pub some_covers : List ℕ → List (List ℕ) → Bool
  some_covers n entries = any (λ raw. covers n (read_entry trim tidy is_ipv4 is_ipv6 raw)) entries

  or_assoc : (a b c : Bool) → ((a || b) || c) ≡ (a || (b || c))
  or_assoc true b c = refl
  or_assoc false b c = refl

  allows_normal-add_all :
      (n : List ℕ) (entries : List (List ℕ)) (l : IpAllowlist)
      → allows_normal trim tidy is_ipv4 is_ipv6 n (add_all trim tidy is_ipv4 is_ipv6 entries l)
        ≡ (allows_normal trim tidy is_ipv4 is_ipv6 n l || some_covers n entries)
  unfolding add_all
  allows_normal-add_all n [] l = or_none _
  allows_normal-add_all n (raw ∷ entries) l =
      let e = read_entry trim tidy is_ipv4 is_ipv6 raw in
      allows_normal-add_all n entries (add_entry raw e l)
      ∙ ap (λ b. b || some_covers n entries)
          (allows_normal-add_entry n raw e l (read_entry-IsRead trim tidy is_ipv4 is_ipv6 raw))
      ∙ or_assoc (allows_normal trim tidy is_ipv4 is_ipv6 n l) (covers n e) (some_covers n entries)

  -- A list without entries allows nothing.
  allows_normal-empty :
      (n : List ℕ) (l : IpAllowlist)
      → size l ≡ 0
      → allows_normal trim tidy is_ipv4 is_ipv6 n l ≡ false
  unfolding size allows_normal
  allows_normal-empty n l h =
      let no_exact = empty_of l.exact (omega (arith, h)) in
      let no_v6_exact = empty_of l.exact_v6 (omega (arith, h)) in
      let no_v4 = empty_of l.v4 (omega (arith, h)) in
      let no_v6 = empty_of l.v6 (omega (arith, h)) in
      rw (no_exact, no_v6_exact, no_v4, no_v6) (nothing (is_ipv4 n) (v4_to_int n) (v6_to_big_int n))
    where
      empty_of : {A : Type 0} (xs : List A) → length xs ≡ 0 → xs ≡ []
      empty_of [] e = refl
      empty_of (x ∷ xs) e = absurd (omega (arith, e))

      nothing :
          (b : Bool) (o p : Option ℕ)
          → (if b
              then match_v4 trim tidy is_ipv4 is_ipv6 [] o
              else match_v6 trim tidy is_ipv4 is_ipv6 [] [] p)
            ≡ false
      nothing true none p = refl
      nothing true (some v) p = refl
      nothing false o none = refl
      nothing false o (some v) = refl

  allows-normal :
      (ip : List ℕ) (l : IpAllowlist)
      → allows trim tidy is_ipv4 is_ipv6 ip l
        ≡ allows_normal trim tidy is_ipv4 is_ipv6 (normalize_address tidy is_ipv4 is_ipv6 ip) l
  unfolding allows
  allows-normal ip l = elim (Bool-cases (size l == 0)) [
    | inl none_there ↦ rw none_there (
        sym (
          allows_normal-empty (normalize_address tidy is_ipv4 is_ipv6 ip) l
            (is_same (size l) 0 none_there)))
    | inr filled ↦ rw filled refl
  ]

  create-covers :
      (n : List ℕ) (entries : List (List ℕ))
      → allows_normal trim tidy is_ipv4 is_ipv6 n (create trim tidy is_ipv4 is_ipv6 entries)
        ≡ some_covers n entries
  unfolding create
  create-covers n entries =
      allows_normal-add_all n entries empty_allowlist
      ∙ ap (λ b. b || some_covers n entries) (allows_normal-empty n empty_allowlist empty_size)

-- An allowlist allows an address exactly if some entry of its list covers the normal form of the
-- address: an exact entry by its text, or for IPv6 by its value, and a range if the first bits of the
-- address, as many as the prefix says, are those of the range. The order of the entries, repetitions
-- and entries that cannot be read do not matter, and the masks compare exactly the prefixes.
pub allows-covers :
    (trim tidy : List ℕ → List ℕ) (is_ipv4 is_ipv6 : List ℕ → Bool) (entries : List (List ℕ))
    (ip : List ℕ)
    → allows trim tidy is_ipv4 is_ipv6 ip (create trim tidy is_ipv4 is_ipv6 entries)
      ≡ some_covers trim tidy is_ipv4 is_ipv6 (normalize_address tidy is_ipv4 is_ipv6 ip) entries
allows-covers trim tidy is_ipv4 is_ipv6 entries ip =
    allows-normal trim tidy is_ipv4 is_ipv6 ip (create trim tidy is_ipv4 is_ipv6 entries)
    ∙ create-covers trim tidy is_ipv4 is_ipv6 (normalize_address tidy is_ipv4 is_ipv6 ip) entries
