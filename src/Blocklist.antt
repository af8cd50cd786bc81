-- ===== src/Blocklist.antt =====
-- src/blocklist.ts: `MemoryBlocklist`, until when each address is blocked, and `CompositeBlocklist`,
-- which reads several lists and writes to the first.
pub mod Memory
pub mod Shedding
pub mod Composite
use hackerpot.Common.{
  ℕ, suc, ◌+◌, ◌-◌, String, Bool, true, false, not, ◌&&◌, Option, none, some, List, [], ◌∷◌, leb,
  ltb, if◌then◌else◌, or_else, max, length, lookup, has, delete, insert, keep, count,
}

pub record MemoryBlocklist : Type 0 where
  pub until : List (String × ℕ)
  pub max_entries : ℕ

-- The constructor; `none` is an option that is left out.
unfoldable pub create : Option ℕ → MemoryBlocklist
create max_entries = record { until = []; max_entries = max 1 (or_else max_entries 100_000) }

abbrev pub active : ℕ → String × ℕ → Bool
active now (ip, until) = ltb now until

-- `[...entries].sort((a, b) => a[1] - b[1])`, which is stable.
unfoldable pub insert_sorted : String × ℕ → List (String × ℕ) → List (String × ℕ)
insert_sorted (ip, until) [] = (ip, until) ∷ []
insert_sorted (ip, until) ((j, u) ∷ m) =
    if leb until u then (ip, until) ∷ (j, u) ∷ m else (j, u) ∷ insert_sorted (ip, until) m

unfoldable pub soonest_first : List (String × ℕ) → List (String × ℕ)
soonest_first [] = []
soonest_first (e ∷ m) = insert_sorted e (soonest_first m)

-- The last loop of `evict`: the blocks that end soonest go until the target is reached.
unfoldable pub shed : ℕ → List (String × ℕ) → List (String × ℕ) → List (String × ℕ)
shed target [] m = m
shed target ((ip, until) ∷ soonest) m =
    let rest = shed target soonest (delete ip m) in if leb (length m) target then m else rest

unfoldable pub evict : ℕ → MemoryBlocklist → MemoryBlocklist
evict now b =
    let live = keep (active now) b.until in
    if ltb (length live) b.max_entries
    then record b { until = live }
    else record b { until = shed (b.max_entries - 1) (soonest_first live) live }

unfoldable pub block : String → ℕ → ℕ → MemoryBlocklist → MemoryBlocklist
block ip until now b =
    let b' =
      if not (has ip b.until) && leb b.max_entries (length b.until) then evict now b else b in
    record b' { until = insert ip (max (or_else (lookup ip b'.until) 0) until) b'.until }

-- `isBlocked` once the address is looked up: an expired block is forgotten.
abbrev pub blocked_found : String → ℕ → MemoryBlocklist → Option ℕ → Bool × MemoryBlocklist
blocked_found ip now b none = (false, b)
blocked_found ip now b (some until) =
    if leb until now then (false, record b { until = delete ip b.until }) else (true, b)

unfoldable pub is_blocked : String → ℕ → MemoryBlocklist → Bool × MemoryBlocklist
is_blocked ip now b = blocked_found ip now b (lookup ip b.until)

unfoldable pub size : ℕ → MemoryBlocklist → ℕ
size now b = count (active now) b.until
