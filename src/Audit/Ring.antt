-- ===== src/Audit/Ring.antt =====
-- src/audit.ts: the ring of buckets against the list of all requests that were recorded.
use hackerpot.Common.{
  ℕ, zero, suc, ◌+◌, ◌*◌, ◌/◌, ◌%◌, ◌<◌, ◌≡◌, refl, sym, ap, subst, ◌∙◌, false, Option, some, List,
  [], ◌∷◌, if◌then◌else◌, length, All, arith, Bool-cases, inl, inr, Option-cases, dec_lt, ◌≢◌,
}
use native.Mathlib.Nat.{mod-lt}
use hackerpot.Audit.{
  Bucket, AuditRecord, unused_bucket, bucket_start, claim, count_request, update_slot,
  count_in_ring, is_at, is_within, unused_buckets,
}
use hackerpot.Audit.Slots.{
  starts_apart, Holds, AllHold, claim_same, claim_other, claim-at, ring_of, length-ring_of,
  ring_of-AllHold, InSpan,
}

module _ (measure : Bucket → ℕ) where
  -- The measure of the buckets that begin in a stretch.
  abbrev pub measured : ℕ → ℕ → List Bucket → ℕ
  measured from to [] = 0
  measured from to (b ∷ bs) =
      let rest = measured from to bs in if is_within from to b.at then measure b + rest else rest

  abbrev share : ℕ → ℕ → Bucket → ℕ
  share from to b = if is_within from to b.at then measure b else 0

module _ (weight : AuditRecord → ℕ) where
  abbrev pub gain : ℕ → ℕ → Option ℕ → AuditRecord → ℕ
  gain from to at e = if is_within from to at then weight e else 0

  -- The weight of the requests whose bucket begins in it.
  abbrev pub weighed : ℕ → ℕ → ℕ → List AuditRecord → ℕ
  weighed size from to [] = 0
  weighed size from to (e ∷ es) =
      gain from to (some (bucket_start size e.at)) e + weighed size from to es

-- One measure of a bucket, and what a request adds to it.
module _ (measure : Bucket → ℕ) (weight : AuditRecord → ℕ)
    (idle : (at : Option ℕ) → measure (record unused_bucket { at = at }) ≡ 0)
    (adds : (e : AuditRecord) (b : Bucket)
      → measure (count_request e b) ≡ measure b + weight e) where
  share-count_request :
      (from to : ℕ) (e : AuditRecord) (b : Bucket)
      → share measure from to (count_request e b)
        ≡ share measure from to b + gain weight from to b.at e
  unfolding count_request
  share-count_request from to e b = elim (Bool-cases (is_within from to b.at)) [
    | inl h ↦ rw h (adds e b)
    | inr h ↦ rw h (omega arith)
  ]

  share_outside :
      (from to : ℕ) (b : Bucket) → is_within from to b.at ≡ false → share measure from to b ≡ 0
  share_outside from to b h = rw h refl

  share-unused :
      (from to : ℕ) (at : Option ℕ) → share measure from to (record unused_bucket { at = at }) ≡ 0
  share-unused from to at = elim (Bool-cases (is_within from to at)) [
    | inl h ↦ rw h (idle at)
    | inr h ↦ rw h refl
  ]

  -- A bucket that is about to be reset began before the stretch, if it was used at all.
  share-stale :
      (n size k slot from to : ℕ) (b : Bucket)
      → k % n ≡ slot
      → k * size < from + n * size
      → Holds n size (λ at. at < k * size + n * size) slot b
      → is_at (k * size) b.at ≡ false
      → share measure from to b ≡ 0
  share-stale n size k slot from to b here near held other = elim (Option-cases b.at) [
    | inl unused ↦ share_outside from to b (ap (is_within from to) unused)
    | inr (at, used) ↦
        let (j, start, its, before) = held at used in
        let apart : at ≢ k * size = ground (arith, other, used, ap (is_at (k * size)) used) in
        let old : at < from = elim (dec_lt j k) [
          | yes l ↦ omega (arith, starts_apart n size j k (its ∙ sym here) l)
          | no g ↦ elim (dec_lt k j) [
            | yes l ↦ absurd (omega (arith, starts_apart n size k j (here ∙ sym its) l))
            | no m ↦ absurd (apart (start ∙ ap (λ i. i * size) (omega arith)))
          ]
        ] in
        let outside : is_within from to (some at) ≡ false = ground arith in
        share_outside from to b (ap (is_within from to) used ∙ outside)
  ]

  -- What a request adds to a slot that it claims, when the slot holds no bucket a ring later and the
  -- stretch starts less than a ring before.
  share-claim :
      (n size k slot from to : ℕ) (e : AuditRecord) (b : Bucket)
      → k % n ≡ slot
      → k * size < from + n * size
      → Holds n size (λ at. at < k * size + n * size) slot b
      → share measure from to (count_request e (claim (k * size) b))
        ≡ share measure from to b + gain weight from to (some (k * size)) e
  share-claim n size k slot from to e b here near held =
      let added = share-count_request from to e (claim (k * size) b) in
      let begins = ap (λ (at : Option ℕ). gain weight from to at e) (claim-at (k * size) b) in
      elim (Bool-cases (is_at (k * size) b.at)) [
        | inl same ↦
            omega (arith, added, begins, ap (share measure from to) (claim_same (k * size) b same))
        | inr other ↦ omega (
          arith,
          added,
          begins,
          ap (share measure from to) (claim_other (k * size) b other),
          share-unused from to (some (k * size)),
          share-stale n size k slot from to b here near held other,
        )
      ]

  measured-share :
      (from to : ℕ) (b : Bucket) (bs : List Bucket)
      → measured measure from to (b ∷ bs) ≡ share measure from to b + measured measure from to bs
  measured-share from to b bs = elim (Bool-cases (is_within from to b.at)) [
    | inl h ↦ rw h refl
    | inr h ↦ rw h (omega arith)
  ]

  -- A change of one slot changes the sum by what it changes the share of that slot.
  measured-update :
      (n size from to w i slot : ℕ) (P : ℕ → Type 0) (f : Bucket → Bucket) (bs : List Bucket)
      → i < length bs
      → AllHold n size P slot bs
      → ((b : Bucket)
          → Holds n size P (slot + i) b
          → share measure from to (f b) ≡ share measure from to b + w)
      → measured measure from to (update_slot i f bs) ≡ measured measure from to bs + w
  unfolding update_slot
  measured-update n size from to w i slot P f [] less held step = absurd (omega (arith, less))
  measured-update n size from to w zero slot P f (b ∷ bs) less held step = omega (
    arith,
    measured-share from to b bs,
    measured-share from to (f b) bs,
    step b (subst (λ s. Holds n size P s b) (omega arith) held.0),
  )
  measured-update n size from to w (suc i) slot P f (b ∷ bs) less held step = omega (
    arith,
    measured-share from to b bs,
    measured-share from to b (update_slot i f bs),
    measured-update n size from to w i (suc slot) P f bs (omega arith) held.1
        (λ c h. step c (subst (λ s. Holds n size P s c) (omega arith) h)),
  )

  measured-unused_buckets : (from to n : ℕ) → measured measure from to (unused_buckets n) ≡ 0
  measured-unused_buckets from to zero = refl
  measured-unused_buckets from to (suc n) = measured-unused_buckets from to n

  -- Over a stretch that starts less than a ring before the newest request, the ring counts what the
  -- history does.
  pub measured-ring_of :
      (size n from to : ℕ) (es : List AuditRecord)
      → 0 < n
      → InSpan size n es
      → All (λ e. bucket_start size e.at < from + n * size) es
      → measured measure from to (ring_of size n es) ≡ weighed weight size from to es
  unfolding count_in_ring
  measured-ring_of size n from to [] room span near = measured-unused_buckets from to n
  measured-ring_of size n from to (e ∷ es) room span near =
      let full = length-ring_of size n es in
      let slot : e.at / size % length (ring_of size n es) ≡ e.at / size % n =
        ap (λ m. e.at / size % m) full in
      let held = ring_of-AllHold size n _ es span.0 in
      let inside : e.at / size % length (ring_of size n es) < length (ring_of size n es) =
        mod-lt (e.at / size) (omega (arith, full)) in
      let added : measured measure from to (count_in_ring size e (ring_of size n es))
          ≡ measured measure from to (ring_of size n es)
            + gain weight from to (some (bucket_start size e.at)) e =
        measured-update n size from to (gain weight from to (some (bucket_start size e.at)) e) _ 0 _
          _ (ring_of size n es) inside held
          (λ b h.
            share-claim n size (e.at / size) _ from to e b (sym slot ∙ omega arith) near.0 h) in
      omega (arith, added, measured-ring_of size n from to es room span.1 near.1)
