-- ===== src/Site.antt =====
-- src/site/index.ts: `SiteProfile`, what a site serves, learned from what its application answered.
-- The clock is an argument; `clip` cuts a path longer than `MAX_PATH_CHARS` to its first characters.
pub mod Learning
pub mod Counting
use hackerpot.Common.{
  ℕ, zero, suc, ◌+◌, String, Bool, true, false, Option, none, some, List, [], ◌∷◌, ltb, leb, ◌==◌,
  ◌||◌, ◌&&◌, not, if◌then◌else◌, length, count, or_else, any, str_eq, ◌++◌,
}
use hackerpot.Lru
use hackerpot.Lru.{TtlLru}

pub record RequestOutcome : Type 0 where
  pub ip : String
  pub path : String
  pub status : ℕ
  pub from_honeypot : Bool
  pub at : Option ℕ

pub record PathStat : Type 0 where
  pub served : ℕ
  pub missed : ℕ
  pub last_at : ℕ
  pub walkers : List String

pub record SiteProfile : Type 0 where
  pub paths : TtlLru PathStat
  pub max_walkers_per_path : ℕ
  pub observations : ℕ
  pub misses : ℕ
  pub served_paths : ℕ

-- The constructor with its options filled in; `none` is the error of a cache of no capacity.
abbrev pub with_paths : ℕ → Option (TtlLru PathStat) → Option SiteProfile
with_paths walkers none = none
with_paths walkers (some c) = some (record {
  paths = c;
  max_walkers_per_path = walkers;
  observations = 0;
  misses = 0;
  served_paths = 0;
})

unfoldable pub create : ℕ → ℕ → ℕ → Option SiteProfile
create max_paths ttl_ms max_walkers = with_paths max_walkers (Lru.create max_paths ttl_ms)

abbrev pub is_served_outcome : RequestOutcome → Bool
is_served_outcome o = not o.from_honeypot && ltb o.status 400

abbrev pub is_missed_outcome : RequestOutcome → Bool
is_missed_outcome o = o.status == 404 || (o.status == 410 || o.from_honeypot)

-- `Set.prototype.add`.
abbrev pub add_walker : String → List String → List String
add_walker ip ws = if any (str_eq ip) ws then ws else ws ++ ip ∷ []

-- What becomes of the statistics of a path: it is served, missed, or only asked for.
unfoldable pub note_outcome : ℕ → RequestOutcome → ℕ → PathStat → PathStat
note_outcome max_walkers o at s =
    if is_served_outcome o
    then record { served = s.served + 1; missed = s.missed; last_at = at; walkers = [] }
    else if is_missed_outcome o
    then record {
      served = s.served;
      missed = s.missed + 1;
      last_at = at;
      walkers =
          (if s.served == 0 && ltb (length s.walkers) max_walkers
            then add_walker o.ip s.walkers
            else s.walkers);
    }
    else record s { last_at = at }

abbrev one_if : Bool → ℕ
one_if true = 1
one_if false = 0

abbrev pub fresh_stat : ℕ → PathStat
fresh_stat at = record { served = 0; missed = 0; last_at = at; walkers = [] }

-- `record` once the statistics of the path are there. They are an object of the cache, which is
-- written in place.
unfoldable pub note_path :
    String → RequestOutcome → ℕ → SiteProfile → PathStat × TtlLru PathStat → SiteProfile
unfolding note_outcome
note_path path o at p (s, c) = record {
  paths = Lru.modify path (note_outcome p.max_walkers_per_path o at s) c;
  max_walkers_per_path = p.max_walkers_per_path;
  observations = p.observations + 1;
  misses = p.misses + one_if (is_missed_outcome o);
  served_paths = p.served_paths + one_if (is_served_outcome o && s.served == 0);
}

module _ (clip : String → String) where
  unfoldable pub record_outcome : ℕ → RequestOutcome → SiteProfile → SiteProfile
  unfolding note_path
  record_outcome now o p =
      let at = or_else o.at now in
      let path = clip o.path in
      note_path path o at p (Lru.get_or_create path (fresh_stat at) now p.paths)

  abbrev pub served_stat : Option PathStat → Bool
  served_stat none = false
  served_stat (some s) = ltb 0 s.served

  unfoldable pub is_served : String → ℕ → SiteProfile → Bool
  is_served path now p = served_stat (Lru.peek (clip path) now p.paths)

  abbrev pub walkers_of : Option PathStat → ℕ
  walkers_of none = 0
  walkers_of (some s) = if ltb 0 s.served then 0 else length s.walkers

  unfoldable pub walkers : String → ℕ → SiteProfile → ℕ
  walkers path now p = walkers_of (Lru.peek (clip path) now p.paths)

pub data Novelty : Type 0 where
  served missed unseen : Novelty

abbrev pub novelty_of_stat : Option PathStat → Novelty
novelty_of_stat none = Novelty.unseen
novelty_of_stat (some s) = if ltb 0 s.served then Novelty.served else Novelty.missed

unfoldable pub novelty_of : (String → String) → String → ℕ → SiteProfile → Novelty
novelty_of clip path now p = novelty_of_stat (Lru.peek (clip path) now p.paths)

unfoldable pub is_warm : ℕ → ℕ → SiteProfile → Bool
is_warm min_observations min_served p =
    leb min_observations p.observations && leb min_served p.served_paths

pub record SiteProfileSnapshot : Type 0 where
  pub paths : ℕ
  pub served_paths : ℕ
  pub observations : ℕ
  -- The share of the misses is this over the observations.
  pub misses : ℕ

unfoldable pub snapshot : SiteProfile → SiteProfileSnapshot
snapshot p = record {
  paths = Lru.size p.paths;
  served_paths = p.served_paths;
  observations = p.observations;
  misses = p.misses;
}

-- `prune`: drops what is expired and counts the served paths again.
unfoldable pub prune : ℕ → SiteProfile → SiteProfile
prune now p =
    let (_, c) = Lru.prune now p.paths in
    record p { paths = c; served_paths = count (λ s. ltb 0 s.served) (Lru.values now c) }
