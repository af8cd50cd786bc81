-- ===== src/Audit/Summary.antt =====
-- src/audit.ts: what `summary` counts, against the list of all requests that were recorded.
use hackerpot.Common.{
  ℕ, ◌+◌, ◌-◌, ◌*◌, ◌/◌, ◌≤◌, ◌<◌, ◌≡◌, refl, ap, ◌∙◌, String, Bool-cases, inl, inr, List, [], ◌∷◌,
  map, ltb, max, All, arith, dec_le, subst,
}
use mathlib.Core.Path.{ap₂}
use native.Mathlib.Nat.{
  le-div_iff_mul-le, mul-le-mul_right, mul-div_cancel, lt-mul-div-succ, mul-div-le,
}
use hackerpot.Audit.{
  AuditRecord, AuditWindow, TrafficAudit, TrafficAuditOptions, bucket_start, aggregate, summary,
  window_end, create, sized, bucket_length, record_request, count_in_ring, ceil_div, unused_buckets,
  round_tenth, max_buckets,
}
use hackerpot.Audit.Slots.{ring_of, InSpan}
use hackerpot.Audit.Windows.{window_of, aggregate-window_of}

-- What the constructor fixes, and what the ring has recorded since.
record HasRecorded (a : TrafficAudit) (es : List AuditRecord) : Type 0 where
  pub positive : 0 < a.bucket_ms
  pub window_buckets : ℕ
  pub baseline_buckets : ℕ
  pub window : a.window_ms ≡ window_buckets * a.bucket_ms
  pub baseline : a.baseline_ms ≡ baseline_buckets * a.bucket_ms
  pub ring : a.buckets ≡ ring_of a.bucket_ms (window_buckets + baseline_buckets + 1) es

bucket_length-positive : (window baseline : ℕ) → 1000 ≤ window → 0 < bucket_length window baseline
unfolding bucket_length
bucket_length-positive window baseline h =
    let many : 1 ≤ (window + baseline + 510) / 511 =
      (le-div_iff_mul-le (omega arith)).1 (omega arith) in
    elim (Bool-cases
      (ltb max_buckets (ceil_div (window + baseline) (max 1000 (round_tenth window)) + 1))) [
        | inl c ↦ rw c many
        | inr c ↦ rw c (omega arith)
      ]

sized-HasRecorded :
    (bucket window baseline : ℕ) (o : TrafficAuditOptions)
    → 0 < bucket
    → HasRecorded (sized bucket window baseline o) []
unfolding sized
sized-HasRecorded bucket window baseline o pos =
    let w = ceil_div window bucket in
    let b = ceil_div baseline bucket in
    let whole : (w * bucket + b * bucket) / bucket ≡ w + b =
      ap (λ n. n / bucket) (omega arith) ∙ mul-div_cancel (w + b) pos in
    record {
      positive = pos;
      window_buckets = w;
      baseline_buckets = b;
      window = refl;
      baseline = refl;
      ring = ap (λ n. unused_buckets (n + 1)) whole;
    }

create-HasRecorded : (o : TrafficAuditOptions) → HasRecorded (create o) []
unfolding create
create-HasRecorded o =
    let window = max 1000 o.window_ms in
    sized-HasRecorded _ window (max window o.baseline_ms) o
      (bucket_length-positive window (max window o.baseline_ms) (omega arith))

module _ (clip : String → String) where
  record_request-HasRecorded :
      (now : ℕ) (e : AuditRecord) (a : TrafficAudit) (es : List AuditRecord)
      → HasRecorded a es
      → HasRecorded (record_request clip now e a) (e ∷ es)
  unfolding record_request
  record_request-HasRecorded now e a es h = record {
    positive = h.positive;
    window_buckets = h.window_buckets;
    baseline_buckets = h.baseline_buckets;
    window = h.window;
    baseline = h.baseline;
    ring = ap (count_in_ring a.bucket_ms e) h.ring;
  }

  -- A history of `record` calls, the newest first, each with the time at which it was made.
  abbrev pub record_all : List (ℕ × AuditRecord) → TrafficAudit → TrafficAudit
  record_all [] a = a
  record_all ((now, e) ∷ es) a = record_request clip now e (record_all es a)

  abbrev pub requests_of : List (ℕ × AuditRecord) → List AuditRecord
  requests_of = map (λ e. e.1)

  record_all-HasRecorded :
      (o : TrafficAuditOptions) (past : List (ℕ × AuditRecord))
      → HasRecorded (record_all past (create o)) (requests_of past)
  record_all-HasRecorded o [] = create-HasRecorded o
  record_all-HasRecorded o ((now, e) ∷ past) =
      record_request-HasRecorded now e _ _ (record_all-HasRecorded o past)

-- No request is recorded that is older, by the span or more, than one recorded before it.
abbrev pub InOrder : ℕ → List AuditRecord → Type 0
InOrder span [] = Unit
InOrder span (e ∷ es) = All (λ d. d.at < e.at + span) es × InOrder span es

start-after : (size at : ℕ) → 0 < size → at < bucket_start size at + size
start-after size at pos = omega (arith, lt-mul-div-succ at pos)

start-before : (size at : ℕ) → bucket_start size at ≤ at
start-before size at = omega (arith, mul-div-le at size)

All-InSpan :
    (size buckets at : ℕ) (es : List AuditRecord)
    → 0 < size
    → All (λ d. d.at < at + buckets * size) es
    → All (λ d. bucket_start size d.at < bucket_start size at + (buckets + 1) * size) es
All-InSpan size buckets at [] pos h = tt
All-InSpan size buckets at (d ∷ es) pos h = (
  omega (arith, start-after size at pos, start-before size d.at, h.0),
  All-InSpan size buckets at es pos h.1,
)

InOrder-InSpan :
    (size buckets : ℕ) (es : List AuditRecord)
    → 0 < size
    → InOrder (buckets * size) es
    → InSpan size (buckets + 1) es
InOrder-InSpan size buckets [] pos h = tt
InOrder-InSpan size buckets (e ∷ es) pos h =
    (All-InSpan size buckets e.at es pos h.0, InOrder-InSpan size buckets es pos h.1)

All-near :
    (size n m now : ℕ) (es : List AuditRecord)
    → now < m * size + n * size
    → All (λ e. e.at ≤ now) es
    → All (λ e. bucket_start size e.at < m * size + n * size) es
All-near size n m now [] l h = tt
All-near size n m now (e ∷ es) l h =
    (omega (arith, start-before size e.at, h.0), All-near size n m now es l h.1)

sub-mul : (a b c : ℕ) → a * c - b * c ≡ (a - b) * c
sub-mul a b c = elim (dec_le b a) [
  | yes l ↦
      let parts : a * c ≡ (a - b + b) * c = ap (λ n. n * c) (omega arith) in omega (arith, parts)
  | no g ↦
      let less : a * c ≤ b * c = mul-le-mul_right c (omega arith) in
      let none_left : (a - b) * c ≡ 0 * c = ap (λ n. n * c) (omega arith) in
      omega (arith, less, none_left)
]

module _ {a : TrafficAudit} {es : List AuditRecord} (h : HasRecorded a es) (now : ℕ)
    (ordered : InOrder (a.window_ms + a.baseline_ms) es) (past : All (λ e. e.at ≤ now) es) where
  -- The buckets from the window's end back to a stretch's start, at most all but one of the ring.
  stretch :
      (m k span : ℕ)
      → now / a.bucket_ms + 1 ≤ m + (h.window_buckets + h.baseline_buckets)
      → aggregate (m * a.bucket_ms) (k * a.bucket_ms) span a.buckets
        ≡ window_of span (m * a.bucket_ms) (k * a.bucket_ms) es
  stretch m k span far =
      let size = a.bucket_ms in
      let n = h.window_buckets + h.baseline_buckets + 1 in
      let whole : a.window_ms + a.baseline_ms ≡ (h.window_buckets + h.baseline_buckets) * size =
        omega (arith, h.window, h.baseline) in
      let reach : (now / size + 1) * size ≤ (m + (h.window_buckets + h.baseline_buckets)) * size =
        mul-le-mul_right size far in
      let soon : now < m * size + n * size =
        omega (arith, lt-mul-div-succ now h.positive, reach, h.positive) in
      ap (aggregate (m * size) (k * size) span) h.ring
      ∙ aggregate-window_of size n m k span es h.positive (omega arith)
          (InOrder-InSpan size _ es h.positive (subst (λ s. InOrder s es) whole ordered))
          (All-near size n m now es soon past)

  summary-window_of :
      let end = window_end now a in
      let start = end - a.window_ms in
      summary now a ≡ (
        window_of a.window_ms start end es,
        window_of a.baseline_ms (start - a.baseline_ms) start es,
      )
  unfolding summary
  summary-window_of =
      let size = a.bucket_ms in
      let k = now / size + 1 in
      let m = k - h.window_buckets in
      let start : k * size - a.window_ms ≡ m * size =
        ap (λ w. k * size - w) h.window ∙ sub-mul k h.window_buckets size in
      let before : m * size - a.baseline_ms ≡ (m - h.baseline_buckets) * size =
        ap (λ w. m * size - w) h.baseline ∙ sub-mul m h.baseline_buckets size in
      rw (start, before)
        (ap₂ (λ (v w : AuditWindow). (v, w)) (stretch m k a.window_ms (omega arith))
          (stretch (m - h.baseline_buckets) m a.baseline_ms (omega arith)))

-- After any history of requests, each no more than a window and a baseline older than one recorded
-- before it and none later than the clock, the summary is the exact count of the history: the window
-- counts the requests of its stretch, which ends with the bucket that is filling, and the baseline
-- those of the stretch before it. No bucket is half counted, and the ring loses none that counts.
pub summary-history :
    (clip : String → String) (o : TrafficAuditOptions) (past : List (ℕ × AuditRecord)) (now : ℕ)
    → let a = record_all clip past (create o) in
      let end = window_end now a in
      let start = end - a.window_ms in
      InOrder (a.window_ms + a.baseline_ms) (requests_of clip past)
      → All (λ e. e.at ≤ now) (requests_of clip past)
      → summary now a ≡ (
        window_of a.window_ms start end (requests_of clip past),
        window_of a.baseline_ms (start - a.baseline_ms) start (requests_of clip past),
      )
summary-history clip o past now ordered before =
    summary-window_of (record_all-HasRecorded clip o past) now ordered before
