-- ===== src/Audit/Memory.antt =====
-- src/audit.ts: the memory of the audit, whatever the options and however many requests arrive.
use hackerpot.Common.{
  ℕ, ◌+◌, ◌-◌, ◌*◌, ◌/◌, ◌≤◌, ◌<◌, ◌≡◌, refl, ap, ◌∙◌, String, List, [], ◌∷◌, ltb, ◌&&◌, length,
  max, arith, Bool-cases, inl, inr, has-lookup, length-insert_present, insert_absent, length-append,
  ltb→lt, ltb_false→le, dec_lt,
}
use native.Mathlib.Nat.{
  le-div_iff_mul-le, div-lt_iff_lt-mul, lt-mul-div-succ, mul-div-le, mul-le-mul_right,
  mul-div_cancel,
}
use hackerpot.Lru.{TtlLru}
use hackerpot.Lru.Bounds
use hackerpot.Lru.Recency.{set-capacity}
use hackerpot.Lru.Values.{Stored, get_or_create-Stored, set-Stored}
use hackerpot.Audit.{
  TrafficAudit, TrafficAuditOptions, AuditRecord, CampaignPath, note_ip, first_probe, record_probe,
  record_request, create, sized, bucket_length, ceil_div, max_buckets, round_tenth, count_in_ring,
}
use hackerpot.Audit.Slots.{length-update_slot, length-unused_buckets}
use hackerpot.Audit.Summary.{record_all}

length-note_ip :
    (ip : String) (at : ℕ) (ips : List (String × ℕ))
    → length ips ≤ 256
    → length (note_ip ip at ips) ≤ 256
length-note_ip ip at ips h = elim (has-lookup ip ips) [
  | inl (there, (at', found)) ↦
      rw there (omega (arith, length-insert_present ip at ips at' found, h))
  | inr (absent, missing) ↦ elim (Bool-cases (ltb (length ips) 256)) [
    | inl room ↦
        rw (absent, room, insert_absent ip at ips missing)
          (omega (arith, length-append ips ((ip, at) ∷ []), ltb→lt (length ips) 256 room))
    | inr full ↦ rw (absent, full) h
  ]
]

abbrev pub IsSmall : String → CampaignPath → Type 0
IsSmall path t = length t.ips ≤ 256

-- The ring keeps its length, and the campaigns their ceilings.
pub record IsBounded (buckets : ℕ) (a : TrafficAudit) : Type 0 where
  pub ring : length a.buckets ≡ buckets
  pub paths : Bounds.IsValid a.campaigns
  pub capacity : a.campaigns.capacity ≡ 2000
  pub addresses : Stored IsSmall a.campaigns.entries

-- However the spans round, both fit in one bucket more than their sum.
ceil_div-add :
    (a b size : ℕ) → 0 < size → ceil_div a size + ceil_div b size ≤ ceil_div (a + b) size + 1
ceil_div-add a b size pos =
    let sum : (ceil_div a size + ceil_div b size) * size ≤ a + b + 2 * size - 2 =
      omega (arith, mul-div-le (a + (size - 1)) size, mul-div-le (b + (size - 1)) size, pos) in
    let enough = lt-mul-div-succ (a + b + (size - 1)) pos in
    elim (dec_lt (ceil_div (a + b) size + 1) (ceil_div a size + ceil_div b size)) [
      | yes over ↦
          let more : (ceil_div (a + b) size + 2) * size
              ≤ (ceil_div a size + ceil_div b size) * size =
            mul-le-mul_right size (omega arith) in
          absurd (omega (arith, sum, enough, more, pos))
      | no fits ↦ omega arith
    ]

-- The length of the ring that the constructor makes.
abbrev pub buckets_of : TrafficAuditOptions → ℕ
buckets_of o = length (create o).buckets

sized-buckets :
    (size window baseline : ℕ) (o : TrafficAuditOptions)
    → 0 < size
    → length (sized size window baseline o).buckets
      ≡ ceil_div window size + ceil_div baseline size + 1
unfolding sized
sized-buckets size window baseline o pos =
    let w = ceil_div window size in
    let b = ceil_div baseline size in
    let whole : (w * size + b * size) / size ≡ w + b =
      ap (λ n. n / size) (omega arith) ∙ mul-div_cancel (w + b) pos in
    length-unused_buckets _ ∙ ap (λ n. n + 1) whole

-- With the length chosen for a bucket the sum of the spans takes at most 511 of them.
bucket_length-enough :
    (window baseline : ℕ)
    → 1000 ≤ window
    → let size = bucket_length window baseline in
      (0 < size) × (ceil_div (window + baseline) size ≤ 511)
unfolding bucket_length
bucket_length-enough window baseline h =
    let coarse = ceil_div (window + baseline) 511 in
    let many : 1 ≤ coarse = (le-div_iff_mul-le (omega arith)).1 (omega arith) in
    let some_left : 0 < 511 = omega arith in
    let whole : window + baseline ≤ coarse * 511 =
      omega (arith, lt-mul-div-succ (window + baseline + 510) some_left) in
    let turns : window + baseline + (coarse - 1) < 512 * coarse = omega (arith, whole, many) in
    let fits : ceil_div (window + baseline) coarse < 512 = (div-lt_iff_lt-mul many).1 turns in
    let fine = max 1000 (round_tenth window) in
    elim (Bool-cases (ltb max_buckets (ceil_div (window + baseline) fine + 1))) [
      | inl c ↦ rw c (many, omega (arith, fits))
      | inr c ↦ rw c (omega arith, omega (arith, ltb_false→le _ _ c))
    ]

-- The ring has at most one bucket more than `MAX_BUCKETS`.
buckets_of-le : (o : TrafficAuditOptions) → buckets_of o ≤ max_buckets + 1
unfolding create
buckets_of-le o =
    let window = max 1000 o.window_ms in
    let baseline = max window o.baseline_ms in
    let (pos, enough) = bucket_length-enough window baseline (omega arith) in
    omega (
      arith,
      sized-buckets (bucket_length window baseline) window baseline o pos,
      ceil_div-add window baseline (bucket_length window baseline) pos,
      enough,
    )

create-IsBounded : (o : TrafficAuditOptions) → IsBounded (buckets_of o) (create o)
unfolding create sized
create-IsBounded o = record {
  ring = refl;
  paths = record { positive = omega arith; bounded = omega arith; distinct = tt };
  capacity = refl;
  addresses = tt;
}

module _ (clip : String → String) where
  module _ (now : ℕ) (e : AuditRecord) (c : TtlLru CampaignPath) where
    record_probe-IsValid : Bounds.IsValid c → Bounds.IsValid (record_probe clip now e c)
    unfolding record_probe
    record_probe-IsValid v =
        Bounds.set-IsValid _ _ now _
          (Bounds.get_or_create-IsValid (clip e.path) (first_probe e) now c v)

    record_probe-capacity : (record_probe clip now e c).capacity ≡ c.capacity
    unfolding record_probe
    record_probe-capacity =
        set-capacity _ _ now _ ∙ (Bounds.get_or_create-params (clip e.path) (first_probe e) now c).1

    record_probe-Stored :
        Stored IsSmall c.entries → Stored IsSmall (record_probe clip now e c).entries
    unfolding record_probe
    record_probe-Stored s =
        let (small, left) =
          get_or_create-Stored IsSmall (clip e.path) (first_probe e) now c s (omega arith) in
        set-Stored IsSmall (clip e.path) _ now _ left (length-note_ip e.ip e.at _ small)

  record_request-IsBounded :
      (n now : ℕ) (e : AuditRecord) (a : TrafficAudit)
      → IsBounded n a
      → IsBounded n (record_request clip now e a)
  unfolding record_request count_in_ring
  record_request-IsBounded n now e a b =
      let ring = length-update_slot _ _ a.buckets ∙ b.ring in
      elim (Bool-cases (e.flagged && ltb 0 a.campaign_min_ips)) [
        | inl probe ↦ rw probe (record {
          ring = ring;
          paths = record_probe-IsValid now e a.campaigns b.paths;
          capacity = record_probe-capacity now e a.campaigns ∙ b.capacity;
          addresses = record_probe-Stored now e a.campaigns b.addresses;
        })
        | inr plain ↦ rw plain (record {
          ring = ring;
          paths = b.paths;
          capacity = b.capacity;
          addresses = b.addresses;
        })
      ]

  record_all-IsBounded :
      (o : TrafficAuditOptions) (past : List (ℕ × AuditRecord))
      → IsBounded (buckets_of o) (record_all clip past (create o))
  record_all-IsBounded o [] = create-IsBounded o
  record_all-IsBounded o ((now, e) ∷ past) =
      record_request-IsBounded (buckets_of o) now e _ (record_all-IsBounded o past)

-- Whatever the options and however many requests are recorded, the audit holds at most 513 buckets, at
-- most 2,000 paths, and at most 256 addresses for each path.
pub record_all-small :
    (clip : String → String) (o : TrafficAuditOptions) (past : List (ℕ × AuditRecord))
    → let a = record_all clip past (create o) in
      (length a.buckets ≤ 513)
      × (length a.campaigns.entries ≤ 2000)
      × Stored IsSmall a.campaigns.entries
record_all-small clip o past =
    let b = record_all-IsBounded clip o past in
    (
      omega (arith, b.ring, buckets_of-le o),
      omega (arith, b.paths.bounded, b.capacity),
      b.addresses,
    )
