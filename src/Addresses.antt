-- ===== src/Addresses.antt =====
-- src/internal/ip.ts: addresses as texts and as numbers. Texts are lists of UTF-16 code units. Node's
-- `net.isIPv4` and `net.isIPv6` are arguments, and so is `tidy`, the text `ip.trim().toLowerCase()`.
pub mod Masks
pub mod Values
use Prim.Native.Nat.{bit_and}
use hackerpot.Common.{
  ℕ, zero, suc, ◌+◌, ◌-◌, ◌*◌, ◌/◌, ◌%◌, ◌^◌, Bool, true, false, Option, none, some, List, [], ◌∷◌,
  ◌++◌, ltb, leb, ◌==◌, ◌&&◌, ◌||◌, not, if◌then◌else◌, length, drop, take, any, same_units,
}

abbrev pub colon : ℕ
colon = 58

abbrev pub point : ℕ
point = 46

abbrev pub onto : ℕ → List (List ℕ) → List (List ℕ)
onto c [] = (c ∷ []) ∷ []
onto c (s ∷ ss) = (c ∷ s) ∷ ss

-- `split` on one character.
unfoldable pub split_on : ℕ → List ℕ → List (List ℕ)
split_on sep [] = [] ∷ []
split_on sep (c ∷ cs) = let rest = split_on sep cs in if c == sep then [] ∷ rest else onto c rest

-- `split("::")`.
unfoldable pub split_gap : List ℕ → List (List ℕ)
split_gap [] = [] ∷ []
split_gap (c ∷ []) = (c ∷ []) ∷ []
split_gap (c ∷ d ∷ cs) =
    let after_gap = split_gap cs in
    let rest = split_gap (d ∷ cs) in
    if c == colon && d == colon then [] ∷ after_gap else onto c rest

-- The text before the first occurrence of a character; `none` where it does not occur.
unfoldable pub before_first : ℕ → List ℕ → Option (List ℕ)
before_first sep [] = none
before_first sep (c ∷ cs) =
    let rest = before_first sep cs in
    if c == sep then some [] else elim rest [ none ↦ none | some s ↦ some (c ∷ s) ]

abbrev pub is_digit : ℕ → Bool
is_digit c = leb 48 c && leb c 57

abbrev pub all_of : (ℕ → Bool) → List ℕ → Bool
all_of p [] = true
all_of p (c ∷ cs) = p c && all_of p cs

-- The number that decimal digits write.
unfoldable pub decimal : ℕ → List ℕ → ℕ
decimal n [] = n
decimal n (c ∷ cs) = decimal (n * 10 + (c - 48)) cs

abbrev pub is_number : List ℕ → Bool
is_number [] = false
is_number (c ∷ cs) = all_of is_digit (c ∷ cs)

-- One part of a dotted quad.
unfoldable pub octet : List ℕ → Option ℕ
octet cs =
    if is_number cs then if leb (decimal 0 cs) 255 then some (decimal 0 cs) else none else none

abbrev pub shift_in : ℕ → Option ℕ → Option ℕ
shift_in n none = none
shift_in n (some v) = some ((n * 256 + v) % 2 ^ 32)

-- The loop of `v4ToInt`.
unfoldable pub sum_octets : Option ℕ → List (List ℕ) → Option ℕ
sum_octets none parts = none
sum_octets (some n) [] = some n
sum_octets (some n) (p ∷ parts) = sum_octets (shift_in n (octet p)) parts

-- `v4ToInt`.
unfoldable pub v4_to_int : List ℕ → Option ℕ
v4_to_int ip =
    let parts = split_on point ip in if length parts == 4 then sum_octets (some 0) parts else none

abbrev pub hex_digit : ℕ → ℕ
hex_digit n = if ltb n 10 then 48 + n else 87 + n

-- `n.toString(16)` for a number of at most 16 bits.
unfoldable pub to_hex : ℕ → List ℕ
to_hex n =
    if ltb n 16
    then hex_digit n ∷ []
    else if ltb n 256
    then hex_digit (n / 16) ∷ hex_digit (n % 16) ∷ []
    else if ltb n 4096
    then hex_digit (n / 256) ∷ hex_digit (n / 16 % 16) ∷ hex_digit (n % 16) ∷ []
    else hex_digit (n / 4096)
      ∷ hex_digit (n / 256 % 16)
      ∷ hex_digit (n / 16 % 16)
      ∷ hex_digit (n % 16)
      ∷ []

abbrev is_short_number : List ℕ → Bool
is_short_number cs = is_number cs && leb (length cs) 3

abbrev are_short_numbers : List (List ℕ) → Bool
are_short_numbers [] = true
are_short_numbers (p ∷ ps) = is_short_number p && are_short_numbers ps

abbrev pub is_quad : List ℕ → Bool
is_quad cs = length (split_on point cs) == 4 && are_short_numbers (split_on point cs)

abbrev onto_split : ℕ → Option (List ℕ × List ℕ) → Option (List ℕ × List ℕ)
onto_split c none = none
onto_split c (some (before, quad)) = some (c ∷ before, quad)

-- The first place from which the text to its end is a dotted quad, as the pattern of `v6ToBigInt`
-- finds it, with what stands before.
unfoldable pub find_quad : List ℕ → Option (List ℕ × List ℕ)
find_quad [] = none
find_quad (c ∷ cs) =
    let rest = find_quad cs in if is_quad (c ∷ cs) then some ([], c ∷ cs) else onto_split c rest

abbrev as_groups : List ℕ → Option ℕ → Option (List ℕ)
as_groups before none = none
as_groups before (some int) =
    some (before ++ to_hex (int / 2 ^ 16) ++ colon ∷ to_hex (bit_and int 0xffff))

abbrev replace_found : List ℕ → Option (List ℕ × List ℕ) → Option (List ℕ)
replace_found s none = some s
replace_found s (some (before, quad)) = as_groups before (v4_to_int quad)

-- A quad at the end is written as two groups; `none` where its parts are no octets.
unfoldable pub replace_quad : List ℕ → Option (List ℕ)
replace_quad s = replace_found s (find_quad s)

abbrev pub is_hex : ℕ → Bool
is_hex c = is_digit c || (leb 97 c && leb c 102)

abbrev pub hex_value : ℕ → ℕ
hex_value c = if is_digit c then c - 48 else c - 87

unfoldable pub hexadecimal : ℕ → List ℕ → ℕ
hexadecimal n [] = n
hexadecimal n (c ∷ cs) = hexadecimal (n * 16 + hex_value c) cs

-- `/^[0-9a-f]{1,4}$/`.
abbrev pub is_group : List ℕ → Bool
is_group g = ltb 0 (length g) && (leb (length g) 4 && all_of is_hex g)

-- The loop over the groups.
unfoldable pub sum_groups : ℕ → List (List ℕ) → Option ℕ
sum_groups n [] = some n
sum_groups n (g ∷ gs) =
    let rest = sum_groups (n * 2 ^ 16 + hexadecimal 0 g) gs in if is_group g then rest else none

abbrev pub zeros : ℕ → List (List ℕ)
zeros zero = []
zeros (suc n) = (48 ∷ []) ∷ zeros n

-- The groups of one half, none for an empty one.
abbrev pub groups_of : List ℕ → List (List ℕ)
groups_of [] = []
groups_of (c ∷ cs) = split_on colon (c ∷ cs)

-- The groups written out; `none` where there are not eight.
unfoldable pub expand : List (List ℕ) → Option (List (List ℕ))
expand [] = none
expand (head ∷ []) = if length (groups_of head) == 8 then some (groups_of head) else none
expand (head ∷ tail ∷ []) =
    let h = groups_of head in
    let t = groups_of tail in
    if leb (length h + length t) 8 then some (h ++ zeros (8 - (length h + length t)) ++ t) else none
expand (head ∷ tail ∷ more ∷ rest) = none

abbrev pub sum_expanded : Option (List (List ℕ)) → Option ℕ
sum_expanded none = none
sum_expanded (some gs) = sum_groups 0 gs

abbrev pub of_replaced : Option (List ℕ) → Option ℕ
of_replaced none = none
of_replaced (some s) = sum_expanded (expand (split_gap s))

-- `v6ToBigInt`.
unfoldable pub v6_to_big_int : List ℕ → Option ℕ
v6_to_big_int ip = of_replaced (replace_quad ip)

abbrev pub mapped_prefix : List ℕ
mapped_prefix = 58 ∷ 58 ∷ 102 ∷ 102 ∷ 102 ∷ 102 ∷ 58 ∷ []

abbrev pub last_is : ℕ → List ℕ → Bool
last_is c [] = false
last_is c (d ∷ []) = c == d
last_is c (d ∷ e ∷ cs) = last_is c (e ∷ cs)

abbrev pub starts_with : List ℕ → List ℕ → Bool
starts_with [] s = true
starts_with (p ∷ ps) [] = false
starts_with (p ∷ ps) (c ∷ cs) = p == c && starts_with ps cs

-- The text without its last character.
abbrev pub drop_last : List ℕ → List ℕ
drop_last [] = []
drop_last (c ∷ []) = []
drop_last (c ∷ d ∷ cs) = c ∷ drop_last (d ∷ cs)

abbrev or_whole : List ℕ → Option (List ℕ) → List ℕ
or_whole s none = s
or_whole s (some before) = before

module _ (tidy : List ℕ → List ℕ) (is_ipv4 is_ipv6 : List ℕ → Bool) where
  abbrev unbracket : List ℕ → List ℕ
  unbracket s = if starts_with (91 ∷ []) s && last_is 93 s then drop_last (drop 1 s) else s

  abbrev unzone : List ℕ → List ℕ
  unzone s = or_whole s (before_first 37 s)

  abbrev unmap : List ℕ → List ℕ
  unmap s = if starts_with mapped_prefix s && is_ipv4 (drop 7 s) then drop 7 s else s

  -- `normalizeAddress`.
  unfoldable pub normalize_address : List ℕ → List ℕ
  normalize_address ip = unmap (unzone (unbracket (tidy ip)))

  abbrev pub same_value : Option ℕ → Option ℕ → Bool
  same_value none b = false
  same_value (some a) none = false
  same_value (some a) (some b) = a == b

  -- `sameAddress`.
  unfoldable pub same_address : List ℕ → List ℕ → Bool
  same_address a b =
      let left = normalize_address a in
      let right = normalize_address b in
      if same_units left right
      then true
      else is_ipv6 left && (is_ipv6 right && same_value (v6_to_big_int left) (v6_to_big_int right))

  abbrev strip_host : List ℕ → Option (List ℕ) → List ℕ
  strip_host input none = input
  strip_host input (some host) =
      if any (λ c. c == colon) (drop (length host + 1) input)
      then input
      else if is_ipv4 host
      then host
      else input

  abbrev strip_bracket : List ℕ → Option (List ℕ) → List ℕ
  strip_bracket input none = input
  strip_bracket input (some before) = drop 1 before

  -- `stripPort` of a text that is trimmed.
  unfoldable pub strip_port : List ℕ → List ℕ
  strip_port input =
      if starts_with (91 ∷ []) input
      then strip_bracket input (before_first 93 input)
      else strip_host input (before_first colon input)
