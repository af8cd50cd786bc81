-- ===== src/Audit/Windows.antt =====
-- src/audit.ts: what `aggregate` counts, against the list of all requests that were recorded.
use hackerpot.Common.{
  ℕ, ◌+◌, ◌*◌, ◌/◌, ◌≤◌, ◌<◌, ◌≡◌, refl, sym, ◌∙◌, Bool-cases, inl, inr, Option, some, List, [],
  ◌∷◌, leb, ltb, ◌&&◌, if◌then◌else◌, All, arith, le→leb, dec_le, dec_lt,
}
use native.Mathlib.Nat.{le-div_iff_mul-le, mul-le-mul_right, mul-div-le}
use hackerpot.Audit.{
  Bucket, unused_bucket, AuditRecord, AuditWindow, bucket_start, count_request, is_within,
  aggregate, one_if,
}
use hackerpot.Audit.Slots.{ring_of, InSpan}
use hackerpot.Audit.Ring.{measured, weighed, measured-ring_of}

-- The edges of a stretch are edges of buckets, so that no bucket is half in it.
is_within-aligned :
    (size m k at : ℕ)
    → 0 < size
    → is_within (m * size) (k * size) (some (bucket_start size at))
      ≡ is_within (m * size) (k * size) (some at)
is_within-aligned size m k at pos =
    let from_edge : leb (m * size) (bucket_start size at) ≡ leb (m * size) at =
      elim (dec_le (m * size) at) [
        | yes l ↦
            let turns : m ≤ at / size = (le-div_iff_mul-le pos).1 l in
            le→leb _ _ (mul-le-mul_right size turns) ∙ sym (le→leb _ _ l)
        | no g ↦ ground (arith, mul-div-le at size)
      ] in
    let to_edge : ltb (bucket_start size at) (k * size) ≡ ltb at (k * size) =
      elim (dec_lt at (k * size)) [
        | yes l ↦ ground (arith, mul-div-le at size)
        | no g ↦
            let turns : k ≤ at / size = (le-div_iff_mul-le pos).1 (omega arith) in
            let over : k * size ≤ bucket_start size at = mul-le-mul_right size turns in ground arith
      ] in
    rw (from_edge, to_edge) refl

-- What the requests of a stretch weigh.
abbrev pub counted : (AuditRecord → ℕ) → ℕ → ℕ → List AuditRecord → ℕ
counted w from to [] = 0
counted w from to (e ∷ es) =
    (if leb from e.at && ltb e.at to then w e else 0) + counted w from to es

-- What a window must say about the requests, the newest first.
pub window_of : ℕ → ℕ → ℕ → List AuditRecord → AuditWindow
window_of span from to es = record {
  span_ms = span;
  requests = counted (λ e. 1) from to es;
  flagged = counted (λ e. one_if e.flagged) from to es;
  blocks = counted (λ e. one_if e.blocked) from to es;
  downgrades = counted (λ e. one_if e.downgraded) from to es;
  failures = counted (λ e. e.failures) from to es;
}

module _ (weight : AuditRecord → ℕ) where
  weighed-counted :
      (size m k : ℕ) (es : List AuditRecord)
      → 0 < size
      → weighed weight size (m * size) (k * size) es ≡ counted weight (m * size) (k * size) es
  weighed-counted size m k [] pos = refl
  weighed-counted size m k (e ∷ es) pos =
      rw (is_within-aligned size m k e.at pos, weighed-counted size m k es pos) refl

module _ (measure : Bucket → ℕ) (weight : AuditRecord → ℕ)
    (idle : (at : Option ℕ) → measure (record unused_bucket { at = at }) ≡ 0)
    (adds : (e : AuditRecord) (b : Bucket)
      → measure (count_request e b) ≡ measure b + weight e) where
  -- One measure of the ring is one count of the history.
  pub measured-counted :
      (size n m k : ℕ) (es : List AuditRecord)
      → 0 < size
      → 0 < n
      → InSpan size n es
      → All (λ e. bucket_start size e.at < m * size + n * size) es
      → measured measure (m * size) (k * size) (ring_of size n es)
        ≡ counted weight (m * size) (k * size) es
  measured-counted size n m k es pos room span near =
      measured-ring_of measure weight idle adds size n (m * size) (k * size) es room span near
      ∙ weighed-counted weight size m k es pos

-- The loop sums each counter of the buckets in the stretch.
aggregate-measured :
    (from to span : ℕ) (bs : List Bucket)
    → aggregate from to span bs ≡ record {
      span_ms = span;
      requests = measured (λ b. b.requests) from to bs;
      flagged = measured (λ b. b.flagged) from to bs;
      blocks = measured (λ b. b.blocks) from to bs;
      downgrades = measured (λ b. b.downgrades) from to bs;
      failures = measured (λ b. b.failures) from to bs;
    }
unfolding aggregate
aggregate-measured from to span [] = refl
aggregate-measured from to span (b ∷ bs) = elim (Bool-cases (is_within from to b.at)) [
  | inl h ↦ rw (h, aggregate-measured from to span bs) refl
  | inr h ↦ rw (h, aggregate-measured from to span bs) refl
]

-- Over whole buckets that the ring still holds, `aggregate` counts the history.
pub aggregate-window_of :
    (size n m k span : ℕ) (es : List AuditRecord)
    → 0 < size
    → 0 < n
    → InSpan size n es
    → All (λ e. bucket_start size e.at < m * size + n * size) es
    → aggregate (m * size) (k * size) span (ring_of size n es)
      ≡ window_of span (m * size) (k * size) es
unfolding count_request window_of
aggregate-window_of size n m k span es pos room span_ok near =
    rw
      (
        aggregate-measured (m * size) (k * size) span (ring_of size n es),
        measured-counted (λ b. b.requests) (λ e. 1) (λ at. refl) (λ e b. refl) size n m k es pos
            room span_ok near,
        measured-counted (λ b. b.flagged) (λ e. one_if e.flagged) (λ at. refl) (λ e b. refl) size n
            m k es pos room span_ok near,
        measured-counted (λ b. b.blocks) (λ e. one_if e.blocked) (λ at. refl) (λ e b. refl) size n m
            k es pos room span_ok near,
        measured-counted (λ b. b.downgrades) (λ e. one_if e.downgraded) (λ at. refl) (λ e b. refl)
            size n m k es pos room span_ok near,
        measured-counted (λ b. b.failures) (λ e. e.failures) (λ at. refl) (λ e b. refl) size n m k
            es pos room span_ok near,
      )
      refl
