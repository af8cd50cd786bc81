-- ===== src/Lru.antt =====
-- src/internal/lru.ts: `TtlLru`, a map with a ceiling, a lifetime for each entry and eviction of the
-- least recently used one. The clock is read once for each call, and its value is the argument `now`.
-- The entries stand in the order of the source's `Map`, least recently used first.
pub mod Bounds
pub mod Reads
pub mod Recency
pub mod Values
use hackerpot.Common.{
  ℕ, zero, suc, ◌+◌, ◌<◌, String, Bool, true, false, Option, none, some, List, [], ◌∷◌, map, leb,
  ltb, if◌then◌else◌, length, keep, lookup, has, delete, insert, str_eq,
}

pub record Entry {ℓ} (V : Type ℓ) : Type ℓ where
  pub value : V
  pub expires_at : ℕ

pub record TtlLru {ℓ} (V : Type ℓ) : Type ℓ where
  pub capacity : ℕ
  pub ttl_ms : ℕ
  pub entries : List (String × Entry V)

module _ {ℓ} {V : Type ℓ} where
  abbrev pub with_entries : TtlLru V → List (String × Entry V) → TtlLru V
  with_entries c m = record c { entries = m }

  -- The constructor; `none` is the `RangeError` on a capacity below 1. A lifetime is a natural
  -- number here, so that it is never refused.
  unfoldable pub create : ℕ → ℕ → Option (TtlLru V)
  create capacity ttl =
      if ltb capacity 1
      then none
      else some (record { capacity = capacity; ttl_ms = ttl; entries = [] })

  unfoldable pub size : TtlLru V → ℕ
  size c = length c.entries

  abbrev pub live : ℕ → String × Entry V → Bool
  live now (k, e) = ltb now e.expires_at

  -- `get` once the entry is looked up.
  abbrev pub get_found : String → ℕ → TtlLru V → Option (Entry V) → Option V × TtlLru V
  get_found k now c none = (none, c)
  get_found k now c (some e) =
      if leb e.expires_at now
      then (none, with_entries c (delete k c.entries))
      else (some e.value, with_entries c (insert k e (delete k c.entries)))

  unfoldable pub get : String → ℕ → TtlLru V → Option V × TtlLru V
  get k now c = get_found k now c (lookup k c.entries)

  abbrev pub peek_found : ℕ → Option (Entry V) → Option V
  peek_found now none = none
  peek_found now (some e) = if ltb now e.expires_at then some e.value else none

  unfoldable pub peek : String → ℕ → TtlLru V → Option V
  peek k now c = peek_found now (lookup k c.entries)

  -- The bounded sweep of `evict`: of the first entries it deletes those past their lifetime.
  unfoldable pub sweep : ℕ → ℕ → List (String × Entry V) → List (String × Entry V)
  sweep zero now m = m
  sweep (suc scans) now [] = []
  sweep (suc scans) now ((k, e) ∷ m) =
      let rest = sweep scans now m in if leb e.expires_at now then rest else (k, e) ∷ rest

  -- The loop that deletes the oldest key while the map is over its capacity.
  unfoldable pub trim : ℕ → List (String × Entry V) → List (String × Entry V)
  trim capacity [] = []
  trim capacity (e ∷ m) = if ltb capacity (suc (length m)) then trim capacity m else e ∷ m

  unfoldable pub evict : ℕ → TtlLru V → TtlLru V
  evict now c = with_entries c (trim c.capacity (sweep 32 now c.entries))

  abbrev fresh_entry : V → ℕ → TtlLru V → Entry V
  fresh_entry v now c = record { value = v; expires_at = now + c.ttl_ms }

  unfoldable pub set : String → V → ℕ → TtlLru V → TtlLru V
  set k v now c =
      let m = insert k (fresh_entry v now c) (delete k c.entries) in
      if ltb c.capacity (length m) then evict now (with_entries c m) else with_entries c m

  -- `getOrCreate`; the factory's value is the argument `created`.
  abbrev or_create : String → V → ℕ → Option V × TtlLru V → V × TtlLru V
  or_create k created now (some v, c) = (v, c)
  or_create k created now (none, c) = (created, set k created now c)

  unfoldable pub get_or_create : String → V → ℕ → TtlLru V → V × TtlLru V
  get_or_create k created now c = or_create k created now (get k now c)

  abbrev touch_found : String → ℕ → TtlLru V → Option (Entry V) → Bool × TtlLru V
  touch_found k now c none = (false, c)
  touch_found k now c (some e) =
      if leb e.expires_at now
      then (false, c)
      else (true, with_entries c (insert k (fresh_entry e.value now c) (delete k c.entries)))

  unfoldable pub touch : String → ℕ → TtlLru V → Bool × TtlLru V
  touch k now c = touch_found k now c (lookup k c.entries)

  -- `delete` and `clear` of the class.
  unfoldable pub remove : String → TtlLru V → Bool × TtlLru V
  remove k c = (has k c.entries, with_entries c (delete k c.entries))

  unfoldable pub clear : TtlLru V → TtlLru V
  clear c = with_entries c []

  unfoldable pub entries_live : ℕ → TtlLru V → List (String × V)
  entries_live now c = map (λ e. (e.0, e.1.value)) (keep (live now) c.entries)

  unfoldable pub values : ℕ → TtlLru V → List V
  values now c = map (λ e. e.1.value) (keep (live now) c.entries)

  -- `prune`: what is left, and how many entries went.
  unfoldable pub prune_entries : ℕ → List (String × Entry V) → ℕ × List (String × Entry V)
  prune_entries now [] = (0, [])
  prune_entries now ((k, e) ∷ m) =
      let (removed, rest) = prune_entries now m in
      if leb e.expires_at now then (suc removed, rest) else (removed, (k, e) ∷ rest)

  unfoldable pub prune : ℕ → TtlLru V → ℕ × TtlLru V
  unfolding prune_entries
  prune now c = let (removed, rest) = prune_entries now c.entries in (removed, with_entries c rest)

  -- A value is an object that its readers share: the entries after a reader has changed the value of
  -- a key, whose place and lifetime stay.
  unfoldable pub modify_entries : String → V → List (String × Entry V) → List (String × Entry V)
  modify_entries k v [] = []
  modify_entries k v ((j, e) ∷ m) =
      if str_eq j k then (j, record e { value = v }) ∷ m else (j, e) ∷ modify_entries k v m

  unfoldable pub modify : String → V → TtlLru V → TtlLru V
  unfolding modify_entries
  modify k v c = with_entries c (modify_entries k v c.entries)
