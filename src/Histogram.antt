-- ===== src/Histogram.antt =====
-- src/internal/histogram.ts: a cumulative histogram. Bounds and values are natural numbers, a duration
-- in hundredths of a millisecond; `none` is a value that is no finite number.
pub mod Cumulative
use hackerpot.Common.{
  ℕ, zero, suc, ◌+◌, Option, none, some, List, [], ◌∷◌, leb, max, if◌then◌else◌, or_else,
}

pub record Histogram : Type 0 where
  pub bounds : List ℕ
  pub per_bucket : List ℕ
  pub count : ℕ
  pub total : ℕ
  pub greatest : ℕ

pub record HistogramSnapshot : Type 0 where
  pub count : ℕ
  pub total : ℕ
  pub greatest : ℕ
  pub buckets : List ℕ

-- One slot for each bound and one for what is past the last.
abbrev pub empty_slots : List ℕ → List ℕ
empty_slots [] = 0 ∷ []
empty_slots (b ∷ bs) = 0 ∷ empty_slots bs

unfoldable pub create : List ℕ → Histogram
create bounds = record {
  bounds = bounds;
  per_bucket = empty_slots bounds;
  count = 0;
  total = 0;
  greatest = 0;
}

-- The scan for the first bound that holds the value.
unfoldable pub bucket_of : List ℕ → ℕ → ℕ
bucket_of [] v = 0
bucket_of (b ∷ bs) v = let rest = bucket_of bs v in if leb v b then 0 else suc rest

unfoldable pub bump : ℕ → List ℕ → List ℕ
bump i [] = []
bump zero (n ∷ ns) = suc n ∷ ns
bump (suc i) (n ∷ ns) = n ∷ bump i ns

unfoldable pub observe : Option ℕ → Histogram → Histogram
unfolding bucket_of bump
observe value h =
    let v = or_else value 0 in
    record h {
      count = h.count + 1;
      total = h.total + v;
      greatest = max h.greatest v;
      per_bucket = bump (bucket_of h.bounds v) h.per_bucket;
    }

-- The running sums.
unfoldable pub cumulate : ℕ → List ℕ → List ℕ
cumulate running [] = []
cumulate running (n ∷ ns) = (running + n) ∷ cumulate (running + n) ns

unfoldable pub snapshot : Histogram → HistogramSnapshot
unfolding cumulate
snapshot h = record {
  count = h.count;
  total = h.total;
  greatest = h.greatest;
  buckets = cumulate 0 h.per_bucket;
}
