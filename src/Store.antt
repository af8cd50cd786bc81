-- ===== src/Store.antt =====
-- src/types.ts, src/stores/query.ts and src/stores/memory.ts: the hits that are recorded, what a query of
-- them means, and the store that keeps the most recent ones in memory.
pub mod Queries
pub mod Retention
use hackerpot.Common.{
  ℕ, suc, ◌+◌, ◌-◌, String, Bool, true, false, ◌&&◌, ◌||◌, Option, none, some, List, [], ◌∷◌, ◌++◌,
  leb, ltb, str_eq, if◌then◌else◌, or_else, max, length, drop, any, keep, reverse,
}
use hackerpot.Evidence.{Detection, Ratio}
use hackerpot.Policy.{Reason}
use hackerpot.Scores.{ScoreLedger, create as create_ledger, add as add_points, get as points_of_ip}

-- `HoneypotHit`, without the request's headers and body, its enrichment and its label, which nothing
-- modelled reads.
pub record HoneypotHit : Type 0 where
  pub id : String
  pub timestamp : String
  pub ip : String
  pub method : List ℕ
  pub path : List ℕ
  pub fingerprint : Option String
  pub marker : Option String
  pub confidence : Option Ratio
  pub detections : List Detection
  pub shadow_detections : List Detection
  pub score : ℕ
  pub total_score : ℕ
  pub responded_with : String
  pub rule : Option String
  pub reason : Option Reason
  pub downgraded_from : Option String

pub data Limit : Type 0 where
  negative : Limit
  up_to : ℕ → Limit

pub record HitQuery : Type 0 where
  pub ip : Option String
  pub detector : Option String
  pub fingerprint : Option String
  pub since_ms : Option ℕ
  pub limit : Option Limit

-- A constraint that is absent holds.
abbrev pub asked {ℓ} : {A : Type ℓ} → Option A → (A → Bool) → Bool
asked none test = true
asked (some a) test = test a

abbrev pub is_some {ℓ} : {A : Type ℓ} → Option A → Bool
is_some none = false
is_some (some a) = true

abbrev pub same_text : Option String → String → Bool
same_text none t = false
same_text (some s) t = str_eq s t

-- The number of hits a query asks for, `none` for all of them.
abbrev pub effective_limit : Option Limit → Option ℕ
effective_limit none = none
effective_limit (some negative) = none
effective_limit (some (up_to n)) = some n

unfoldable pub take_latest {ℓ} : {A : Type ℓ} → List A → Option Limit → List A
take_latest hits none = hits
take_latest hits (some negative) = hits
take_latest hits (some (up_to n)) =
    if leb (length hits) n then hits else drop (length hits - n) hits

pub record MemoryStore : Type 0 where
  pub hits : List HoneypotHit
  pub scores : ScoreLedger
  pub max_hits : ℕ

unfoldable pub create : ℕ → ℕ → MemoryStore
create max_hits max_score_entries = record {
  hits = [];
  scores = create_ledger max_score_entries;
  max_hits = max 1 max_hits;
}

abbrev pub push_hit : ℕ → HoneypotHit → List HoneypotHit → List HoneypotHit
push_hit max_hits hit hits =
    let pushed = hits ++ hit ∷ [] in
    if ltb max_hits (length pushed) then drop (length pushed - max_hits) pushed else pushed

unfoldable pub record_hit : HoneypotHit → MemoryStore → MemoryStore
record_hit hit s = record s {
  hits = push_hit s.max_hits hit s.hits;
  scores = (add_points hit.ip hit.score s.scores).1;
}

unfoldable pub list : MemoryStore → List HoneypotHit
list s = s.hits

unfoldable pub score_for : String → MemoryStore → ℕ
score_for ip s = points_of_ip ip s.scores

-- Whether the walk has found as many as it was asked for.
abbrev pub is_enough : Option ℕ → ℕ → Bool
is_enough none n = false
is_enough (some limit) n = leb limit n

-- The walk of `MemoryStore.query`, newest hit first, over what it has found so far.
unfoldable pub walk {ℓ} : {A : Type ℓ} → (A → Bool) → Option ℕ → List A → List A → List A
walk test limit [] found = found
walk test limit (hit ∷ older) found =
    let rest = walk test limit older (if test hit then found ++ hit ∷ [] else found) in
    if is_enough limit (length found) then found else rest

-- `Date.parse` is `parse`, `none` where it gives NaN.
module _ (parse : String → Option ℕ) where
  abbrev pub is_since : ℕ → Option ℕ → Bool
  is_since since none = false
  is_since since (some at) = leb since at

  unfoldable pub matches_query : HoneypotHit → HitQuery → Bool
  matches_query hit q =
      asked q.ip (λ ip. str_eq hit.ip ip)
      && asked q.fingerprint (λ f. same_text hit.fingerprint f)
      && asked q.detector (λ name. any (λ (d : Detection). str_eq d.detector name) hit.detections)
      && asked q.since_ms (λ since. is_since since (parse hit.timestamp))

  abbrev pub is_constrained : HitQuery → Bool
  is_constrained q =
      is_some q.ip || is_some q.detector || is_some q.fingerprint || is_some q.since_ms

  unfoldable pub apply_query : List HoneypotHit → HitQuery → List HoneypotHit
  apply_query hits q =
      take_latest (if is_constrained q then keep (λ hit. matches_query hit q) hits else hits)
        q.limit

  unfoldable pub query : MemoryStore → HitQuery → List HoneypotHit
  query s q =
      reverse (walk (λ hit. matches_query hit q) (effective_limit q.limit) (reverse s.hits) [])

  -- A store's own query where it has one, or the whole list.
  unfoldable pub query_hits :
      Option (HitQuery → List HoneypotHit) → List HoneypotHit → HitQuery → List HoneypotHit
  query_hits none all q = apply_query all q
  query_hits (some native) all q = native q
