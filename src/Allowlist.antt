-- ===== src/Allowlist.antt =====
-- src/allowlist.ts: `IpAllowlist`, exact addresses and CIDR ranges of both families. Texts are lists of
-- UTF-16 code units. Node's `net.isIPv4` and `net.isIPv6` are arguments, and so are `trim` and `tidy`,
-- the texts `s.trim()` and `s.trim().toLowerCase()`.
pub mod Prefixes
pub mod Covering
pub mod Entries
pub mod Spelling
use Prim.Native.Nat.{bit_and, bit_xor}
use hackerpot.Common.{
  ℕ, zero, suc, ◌+◌, ◌-◌, ◌*◌, ◌/◌, ◌%◌, ◌^◌, Bool, true, false, Option, none, some, List, [], ◌∷◌,
  ◌++◌, ltb, leb, ◌==◌, ◌&&◌, ◌||◌, if◌then◌else◌, length, drop, any, or_else, mem_units,
}
use hackerpot.Addresses.{
  before_first, is_number, decimal, v4_to_int, v6_to_big_int, normalize_address,
}

pub record Range : Type 0 where
  pub base : ℕ
  pub mask : ℕ

-- The sets are lists without repetition.
pub record IpAllowlist : Type 0 where
  pub exact : List (List ℕ)
  pub exact_v6 : List ℕ
  pub v4 : List Range
  pub v6 : List Range
  pub invalid : List (List ℕ)

unfoldable pub size : IpAllowlist → ℕ
size l = length l.exact + (length l.exact_v6 + (length l.v4 + length l.v6))

-- What an entry of the constructor's list is read as.
pub data Entry : Type 0 where
  blank invalid_entry : Entry
  exact_entry : List ℕ → Entry
  exact_v6_entry : ℕ → Entry
  v4_entry v6_entry : ℕ → ℕ → Entry

abbrev pub mem_value : ℕ → List ℕ → Bool
mem_value v = any (λ w. v == w)

-- `(0xffffffff << (32 - prefix)) >>> 0`, and no bits for the prefix 0.
unfoldable pub v4_mask : ℕ → ℕ
v4_mask prefix = if prefix == 0 then 0 else 0xffffffff * 2 ^ (32 - prefix) % 2 ^ 32

abbrev pub full_v6 : ℕ
full_v6 = 2 ^ 128 - 1

unfoldable pub v6_mask : ℕ → ℕ
v6_mask prefix =
    if prefix == 0 then 0 else bit_and (bit_xor full_v6 (2 ^ (128 - prefix) - 1)) full_v6

abbrev pub range_of : ℕ → ℕ → Range
range_of int mask = record { base = bit_and int mask; mask = mask }

-- What the constructor does with an entry once it is read.
unfoldable pub add_entry : List ℕ → Entry → IpAllowlist → IpAllowlist
add_entry raw Entry.blank l = l
add_entry raw Entry.invalid_entry l = record l { invalid = l.invalid ++ raw ∷ [] }
add_entry raw (Entry.exact_entry text) l = record l {
  exact = (if mem_units text l.exact then l.exact else l.exact ++ text ∷ []);
}
add_entry raw (Entry.exact_v6_entry value) l = record l {
  exact_v6 = (if mem_value value l.exact_v6 then l.exact_v6 else l.exact_v6 ++ value ∷ []);
}
add_entry raw (Entry.v4_entry int prefix) l = record l {
  v4 = l.v4 ++ range_of int (v4_mask prefix) ∷ [];
}
add_entry raw (Entry.v6_entry value prefix) l = record l {
  v6 = l.v6 ++ range_of value (v6_mask prefix) ∷ [];
}

abbrev pub exact_v6_of : Option ℕ → Entry
exact_v6_of none = Entry.invalid_entry
exact_v6_of (some value) = Entry.exact_v6_entry value

abbrev pub v6_of : Option ℕ → ℕ → Entry
v6_of none prefix = Entry.invalid_entry
v6_of (some value) prefix = Entry.v6_entry value prefix

abbrev pub empty_allowlist : IpAllowlist
empty_allowlist = record { exact = []; exact_v6 = []; v4 = []; v6 = []; invalid = [] }

abbrev pub in_range : ℕ → Range → Bool
in_range value r = bit_and value r.mask == r.base

module _ (trim tidy : List ℕ → List ℕ) (is_ipv4 is_ipv6 : List ℕ → Bool) where
  -- An entry without a slash.
  unfoldable pub read_exact : List ℕ → Entry
  read_exact entry =
      let normalized = normalize_address tidy is_ipv4 is_ipv6 entry in
      if is_ipv6 normalized
      then exact_v6_of (v6_to_big_int normalized)
      else if is_ipv4 normalized
      then Entry.exact_entry normalized
      else Entry.invalid_entry

  -- An entry with a slash: what stands before it and after it.
  unfoldable pub read_range : List ℕ → List ℕ → Entry
  read_range address prefix_part =
      let base = normalize_address tidy is_ipv4 is_ipv6 address in
      let prefix = decimal 0 prefix_part in
      if is_ipv4 base && (is_number prefix_part && leb prefix 32)
      then Entry.v4_entry (or_else (v4_to_int base) 0) prefix
      else if is_ipv6 base && (is_number prefix_part && leb prefix 128)
      then v6_of (v6_to_big_int base) prefix
      else Entry.invalid_entry

  abbrev pub read_split : List ℕ → Option (List ℕ) → Entry
  read_split entry none = read_exact entry
  read_split entry (some address) = read_range address (drop (length address + 1) entry)

  abbrev pub read_trimmed : List ℕ → Entry
  read_trimmed [] = Entry.blank
  read_trimmed (c ∷ cs) = read_split (c ∷ cs) (before_first 47 (c ∷ cs))

  unfoldable pub read_entry : List ℕ → Entry
  read_entry raw = read_trimmed (trim raw)

  -- The loop of the constructor.
  unfoldable pub add_all : List (List ℕ) → IpAllowlist → IpAllowlist
  unfolding add_entry
  add_all [] l = l
  add_all (raw ∷ entries) l = add_all entries (add_entry raw (read_entry raw) l)

  unfoldable pub create : List (List ℕ) → IpAllowlist
  unfolding add_all
  create entries = add_all entries empty_allowlist

  abbrev pub match_v4 : List Range → Option ℕ → Bool
  match_v4 ranges none = false
  match_v4 ranges (some int) = any (in_range int) ranges

  abbrev pub match_v6 : List ℕ → List Range → Option ℕ → Bool
  match_v6 exact ranges none = false
  match_v6 exact ranges (some big) = if mem_value big exact then true else any (in_range big) ranges

  -- `allows` for an address that is normalised.
  unfoldable pub allows_normal : List ℕ → IpAllowlist → Bool
  allows_normal n l =
      if mem_units n l.exact
      then true
      else if is_ipv4 n
      then match_v4 l.v4 (v4_to_int n)
      else match_v6 l.exact_v6 l.v6 (v6_to_big_int n)

  unfoldable pub allows : List ℕ → IpAllowlist → Bool
  unfolding size allows_normal
  allows ip l =
      if size l == 0 then false else allows_normal (normalize_address tidy is_ipv4 is_ipv6 ip) l
