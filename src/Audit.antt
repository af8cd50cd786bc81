-- ===== src/Audit.antt =====
-- src/audit.ts: `TrafficAudit`, counters over a ring of time buckets, and the checks that compare the
-- recent window with the stretch before it. Times are natural numbers of milliseconds and the clock is
-- an argument. Ratios are exact fractions. The timer of `start` is left out.
pub mod Slots
pub mod Ring
pub mod Windows
pub mod Summary
pub mod Checks
pub mod Evaluating
pub mod Cooldown
pub mod Silence
pub mod Speaking
pub mod Memory
pub mod Steady
use hackerpot.Common.{
  ℕ, zero, suc, ◌+◌, ◌-◌, ◌*◌, ◌/◌, ◌%◌, max, String, Bool, true, false, Option, none, some, List,
  [], ◌∷◌, ltb, leb, ◌==◌, ◌||◌, ◌&&◌, not, if◌then◌else◌, length, has, insert,
}
use hackerpot.Lru
use hackerpot.Lru.{TtlLru}

pub record Bucket : Type 0 where
  -- Where the bucket begins; `none` is the `-1` of a bucket that was never used.
  pub at : Option ℕ
  pub requests : ℕ
  pub flagged : ℕ
  pub blocks : ℕ
  pub downgrades : ℕ
  pub failures : ℕ

pub record CampaignPath : Type 0 where
  pub first_seen : ℕ
  pub last_seen : ℕ
  pub ips : List (String × ℕ)

pub record AuditRecord : Type 0 where
  pub at : ℕ
  pub ip : String
  pub path : String
  pub flagged : Bool
  pub blocked : Bool
  pub downgraded : Bool
  pub failures : ℕ

-- The options, once the defaults are filled in.
pub record TrafficAuditOptions : Type 0 where
  pub window_ms : ℕ
  pub baseline_ms : ℕ
  pub min_samples : ℕ
  pub cooldown_ms : ℕ
  pub campaign_min_ips : ℕ

-- The fields of the class. The checks are an argument of `evaluate`.
pub record TrafficAudit : Type 0 where
  pub window_ms : ℕ
  pub baseline_ms : ℕ
  pub bucket_ms : ℕ
  pub buckets : List Bucket
  pub min_samples : ℕ
  pub cooldown_ms : ℕ
  pub campaign_min_ips : ℕ
  pub last_fired : List (String × ℕ)
  pub campaigns : TtlLru CampaignPath

abbrev pub max_buckets : ℕ
max_buckets = 512

abbrev pub max_campaign_paths : ℕ
max_campaign_paths = 2000

abbrev pub max_ips_per_path : ℕ
max_ips_per_path = 256

abbrev pub unused_bucket : Bucket
unused_bucket = record {
  at = none;
  requests = 0;
  flagged = 0;
  blocks = 0;
  downgrades = 0;
  failures = 0;
}

-- `Math.ceil(a / b)`.
abbrev pub ceil_div : ℕ → ℕ → ℕ
ceil_div a b = (a + (b - 1)) / b

-- `Math.round(a / 10)`.
abbrev pub round_tenth : ℕ → ℕ
round_tenth a = (a + 5) / 10

-- Ten buckets to a window, coarsened if that needs more than the ring holds.
unfoldable pub bucket_length : ℕ → ℕ → ℕ
bucket_length window baseline =
    let fine = max 1000 (round_tenth window) in
    if ltb max_buckets (ceil_div (window + baseline) fine + 1)
    then ceil_div (window + baseline) (max_buckets - 1)
    else fine

abbrev pub unused_buckets : ℕ → List Bucket
unused_buckets zero = []
unused_buckets (suc n) = unused_bucket ∷ unused_buckets n

-- The constructor once the length of a bucket is known.
unfoldable pub sized : ℕ → ℕ → ℕ → TrafficAuditOptions → TrafficAudit
sized bucket window baseline o = record {
  window_ms = ceil_div window bucket * bucket;
  baseline_ms = ceil_div baseline bucket * bucket;
  bucket_ms = bucket;
  buckets =
      unused_buckets
        ((ceil_div window bucket * bucket + ceil_div baseline bucket * bucket) / bucket + 1);
  min_samples = max 1 o.min_samples;
  cooldown_ms = o.cooldown_ms;
  campaign_min_ips = o.campaign_min_ips;
  last_fired = [];
  campaigns = record {
    capacity = max_campaign_paths;
    ttl_ms = ceil_div window bucket * bucket + ceil_div baseline bucket * bucket;
    entries = [];
  };
}

-- The constructor.
unfoldable pub create : TrafficAuditOptions → TrafficAudit
unfolding bucket_length sized
create o =
    let window = max 1000 o.window_ms in
    let baseline = max window o.baseline_ms in
    sized (bucket_length window baseline) window baseline o

-- Where the bucket of a time begins.
abbrev pub bucket_start : ℕ → ℕ → ℕ
bucket_start bucket at = at / bucket * bucket

abbrev pub is_at : ℕ → Option ℕ → Bool
is_at at none = false
is_at at (some b) = b == at

-- `bucketFor` on the slot that it finds: a slot of an older stretch is reset.
unfoldable pub claim : ℕ → Bucket → Bucket
claim at b = if is_at at b.at then b else record unused_bucket { at = some at }

abbrev pub one_if : Bool → ℕ
one_if true = 1
one_if false = 0

-- The increments of `record`.
unfoldable pub count_request : AuditRecord → Bucket → Bucket
count_request e b = record {
  at = b.at;
  requests = b.requests + 1;
  flagged = b.flagged + one_if e.flagged;
  blocks = b.blocks + one_if e.blocked;
  downgrades = b.downgrades + one_if e.downgraded;
  failures = b.failures + e.failures;
}

-- A write to one slot of the ring.
unfoldable pub update_slot : ℕ → (Bucket → Bucket) → List Bucket → List Bucket
update_slot i f [] = []
update_slot zero f (b ∷ bs) = f b ∷ bs
update_slot (suc i) f (b ∷ bs) = b ∷ update_slot i f bs

-- `record` on the ring: the slot that `bucketFor` finds, claimed and incremented.
unfoldable pub count_in_ring : ℕ → AuditRecord → List Bucket → List Bucket
unfolding claim count_request update_slot
count_in_ring bucket e bs =
    update_slot (e.at / bucket % length bs)
      (λ b. count_request e (claim (bucket_start bucket e.at) b)) bs

-- The addresses of a path after one more probe.
abbrev pub note_ip : String → ℕ → List (String × ℕ) → List (String × ℕ)
note_ip ip at ips =
    if has ip ips || ltb (length ips) max_ips_per_path then insert ip at ips else ips

abbrev pub first_probe : AuditRecord → CampaignPath
first_probe e = record { first_seen = e.at; last_seen = e.at; ips = [] }

abbrev pub probed : AuditRecord → CampaignPath → CampaignPath
probed e t = record t { last_seen = max t.last_seen e.at; ips = note_ip e.ip e.at t.ips }

-- `clip` cuts a path that is longer than `MAX_PATH_CHARS` to its first characters.
module _ (clip : String → String) where
  -- `recordProbe`.
  unfoldable pub record_probe : ℕ → AuditRecord → TtlLru CampaignPath → TtlLru CampaignPath
  record_probe now e c =
      let (tracked, c) = Lru.get_or_create (clip e.path) (first_probe e) now c in
      Lru.set (clip e.path) (probed e tracked) now c

  -- `record`. The clock of the campaign cache reads `now`.
  unfoldable pub record_request : ℕ → AuditRecord → TrafficAudit → TrafficAudit
  unfolding count_in_ring record_probe
  record_request now e a = record a {
    buckets = count_in_ring a.bucket_ms e a.buckets;
    campaigns =
        (if e.flagged && ltb 0 a.campaign_min_ips
          then record_probe now e a.campaigns
          else a.campaigns);
  }

-- Counters over one stretch of time. The rate and the share of the source are fractions of these.
pub record AuditWindow : Type 0 where
  pub span_ms : ℕ
  pub requests : ℕ
  pub flagged : ℕ
  pub blocks : ℕ
  pub downgrades : ℕ
  pub failures : ℕ

abbrev pub is_within : ℕ → ℕ → Option ℕ → Bool
is_within from to none = false
is_within from to (some at) = leb from at && ltb at to

abbrev pub add_bucket : Bucket → AuditWindow → AuditWindow
add_bucket b w = record w {
  requests = b.requests + w.requests;
  flagged = b.flagged + w.flagged;
  blocks = b.blocks + w.blocks;
  downgrades = b.downgrades + w.downgrades;
  failures = b.failures + w.failures;
}

-- `aggregate`. An unused bucket holds zeros, so that whether it is skipped does not matter.
unfoldable pub aggregate : ℕ → ℕ → ℕ → List Bucket → AuditWindow
aggregate from to span [] = record {
  span_ms = span;
  requests = 0;
  flagged = 0;
  blocks = 0;
  downgrades = 0;
  failures = 0;
}
aggregate from to span (b ∷ bs) =
    let rest = aggregate from to span bs in
    if is_within from to b.at then add_bucket b rest else rest

-- The far edge of the bucket that is still filling.
abbrev pub window_end : ℕ → TrafficAudit → ℕ
window_end now a = (now / a.bucket_ms + 1) * a.bucket_ms

-- `summary`: the window and the baseline.
unfoldable pub summary : ℕ → TrafficAudit → AuditWindow × AuditWindow
unfolding aggregate
summary now a =
    let end = window_end now a in
    let start = end - a.window_ms in
    (
      aggregate start end a.window_ms a.buckets,
      aggregate (start - a.baseline_ms) start a.baseline_ms a.buckets,
    )
