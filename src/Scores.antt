-- ===== src/Scores.antt =====
-- src/stores/scores.ts: `ScoreLedger`, the running score of each address, bounded by dropping the
-- least recently updated. Points are natural numbers.
pub mod Laws
use hackerpot.Common.{
  ℕ, suc, ◌+◌, ◌-◌, String, Option, none, some, List, [], ◌∷◌, leb, if◌then◌else◌, or_else, max,
  length, lookup, delete, insert,
}

pub record ScoreLedger : Type 0 where
  pub scores : List (String × ℕ)
  pub max_entries : ℕ

unfoldable pub create : ℕ → ScoreLedger
create max_entries = record { scores = []; max_entries = max 1 max_entries }

-- The loop of `evict`: the oldest keys go until no more than `target` are left.
unfoldable pub evict_to : ℕ → List (String × ℕ) → List (String × ℕ)
evict_to target [] = []
evict_to target (e ∷ m) = if leb (suc (length m)) target then e ∷ m else evict_to target m

-- The running total, and the ledger that holds it.
unfoldable pub add : String → ℕ → ScoreLedger → ℕ × ScoreLedger
add ip points l =
    let total = or_else (lookup ip l.scores) 0 + points in
    let others = delete ip l.scores in
    let room =
      if leb l.max_entries (length others) then evict_to (l.max_entries - 1) others else others in
    (total, record l { scores = insert ip total room })

unfoldable pub get : String → ScoreLedger → ℕ
get ip l = or_else (lookup ip l.scores) 0

unfoldable pub size : ScoreLedger → ℕ
size l = length l.scores

-- `seed`: the persisted totals, where `none` is a value that is no finite number.
unfoldable pub seed : List (String × Option ℕ) → ScoreLedger → ScoreLedger
unfolding add
seed [] l = l
seed ((ip, none) ∷ totals) l = seed totals l
seed ((ip, some score) ∷ totals) l = seed totals (add ip score l).1
