-- ===== src/Audit/Slots.antt =====
-- src/audit.ts: what the slots of the ring of buckets hold.
use hackerpot.Common.{
  ℕ, zero, suc, ◌+◌, ◌*◌, ◌/◌, ◌%◌, ◌≤◌, ◌<◌, ◌≡◌, refl, sym, ap, subst, ◌∙◌, true, false, Option,
  none, some, List, [], ◌∷◌, length, All, arith, Bool-cases, inl, inr, dec_lt, or_else,
}
use native.Mathlib.Nat.{mod-add-div, mul-le-mul_left, mul-le-mul_right}
use hackerpot.Audit.{
  Bucket, AuditRecord, unused_bucket, bucket_start, claim, count_request, update_slot,
  count_in_ring, is_at, unused_buckets,
}

-- Two indices of one slot are a whole ring apart.
indices_apart : (n i j : ℕ) → i % n ≡ j % n → i < j → i + n ≤ j
indices_apart n i j same less = elim (dec_lt (i / n) (j / n)) [
  | yes before ↦
      let turns : n * (i / n + 1) ≤ n * (j / n) = mul-le-mul_left n (omega arith) in
      omega (arith, mod-add-div i n, mod-add-div j n, same, turns)
  | no after ↦
      let turns : n * (j / n) ≤ n * (i / n) = mul-le-mul_left n (omega arith) in
      absurd (omega (arith, mod-add-div i n, mod-add-div j n, same, turns))
]

pub starts_apart : (n b i j : ℕ) → i % n ≡ j % n → i < j → i * b + n * b ≤ j * b
starts_apart n b i j same less =
    let apart : (i + n) * b ≤ j * b = mul-le-mul_right b (indices_apart n i j same less) in
    omega (arith, apart)

pub length-update_slot :
    (i : ℕ) (f : Bucket → Bucket) (bs : List Bucket) → length (update_slot i f bs) ≡ length bs
unfolding update_slot
length-update_slot i f [] = refl
length-update_slot zero f (b ∷ bs) = refl
length-update_slot (suc i) f (b ∷ bs) = ap suc (length-update_slot i f bs)

-- What a slot of the ring holds begins a bucket of that slot, with a property that the recorded
-- buckets have.
abbrev pub Holds : ℕ → ℕ → (ℕ → Type 0) → ℕ → Bucket → Type 0
Holds n size P slot b =
    (at : ℕ) → b.at ≡ some at → (j : ℕ) × (at ≡ j * size) × (j % n ≡ slot) × P at

abbrev pub AllHold : ℕ → ℕ → (ℕ → Type 0) → ℕ → List Bucket → Type 0
AllHold n size P slot [] = Unit
AllHold n size P slot (b ∷ bs) = Holds n size P slot b × AllHold n size P (suc slot) bs

pub claim_same : (at : ℕ) (b : Bucket) → is_at at b.at ≡ true → claim at b ≡ b
unfolding claim
claim_same at b h = rw h refl

pub claim_other :
    (at : ℕ) (b : Bucket)
    → is_at at b.at ≡ false
    → claim at b ≡ record unused_bucket { at = some at }
unfolding claim
claim_other at b h = rw h refl

is_at-eq : (at : ℕ) (o : Option ℕ) → is_at at o ≡ true → o ≡ some at
is_at-eq at none h = absurd (cc)
is_at-eq at (some b) h = ground arith

pub claim-at : (at : ℕ) (b : Bucket) → (claim at b).at ≡ some at
claim-at at b = elim (Bool-cases (is_at at b.at)) [
  | inl h ↦ ap (λ (c : Bucket). c.at) (claim_same at b h) ∙ is_at-eq at b.at h
  | inr h ↦ ap (λ (c : Bucket). c.at) (claim_other at b h)
]

some-injective : (a b : ℕ) → some a ≡ some b → a ≡ b
some-injective a b h = ap (λ o. or_else o 0) h

claim-Holds :
    (n size k slot : ℕ) (P : ℕ → Type 0) (e : AuditRecord) (b : Bucket)
    → k % n ≡ slot
    → P (k * size)
    → Holds n size P slot (count_request e (claim (k * size) b))
unfolding count_request
claim-Holds n size k slot P e b here p at used =
    let same : k * size ≡ at = some-injective _ _ (sym (claim-at (k * size) b) ∙ used) in
    (k, sym same, here, subst P same p)

update-AllHold :
    (n size i slot : ℕ) (P : ℕ → Type 0) (f : Bucket → Bucket) (bs : List Bucket)
    → AllHold n size P slot bs
    → ((b : Bucket) → Holds n size P (slot + i) (f b))
    → AllHold n size P slot (update_slot i f bs)
unfolding update_slot
update-AllHold n size i slot P f [] held step = tt
update-AllHold n size zero slot P f (b ∷ bs) held step =
    (subst (λ s. Holds n size P s (f b)) (omega arith) (step b), held.1)
update-AllHold n size (suc i) slot P f (b ∷ bs) held step = (
  held.0,
  update-AllHold n size i (suc slot) P f bs held.1
      (λ c. subst (λ s. Holds n size P s (f c)) (omega arith) (step c)),
)

unused-AllHold : (n size slot m : ℕ) (P : ℕ → Type 0) → AllHold n size P slot (unused_buckets m)
unused-AllHold n size slot zero P = tt
unused-AllHold n size slot (suc m) P =
    ((λ at used. absurd (cc)), unused-AllHold n size (suc slot) m P)

-- The ring after a history of requests, the newest first.
abbrev pub ring_of : ℕ → ℕ → List AuditRecord → List Bucket
ring_of size n [] = unused_buckets n
ring_of size n (e ∷ es) = count_in_ring size e (ring_of size n es)

pub length-unused_buckets : (n : ℕ) → length (unused_buckets n) ≡ n
length-unused_buckets zero = refl
length-unused_buckets (suc n) = ap suc (length-unused_buckets n)

pub length-ring_of : (size n : ℕ) (es : List AuditRecord) → length (ring_of size n es) ≡ n
unfolding count_in_ring
length-ring_of size n [] = length-unused_buckets n
length-ring_of size n (e ∷ es) =
    length-update_slot _ _ (ring_of size n es) ∙ length-ring_of size n es

-- The buckets in use are of the requests recorded.
pub ring_of-AllHold :
    (size n : ℕ) (P : ℕ → Type 0) (es : List AuditRecord)
    → All (λ e. P (bucket_start size e.at)) es
    → AllHold n size P 0 (ring_of size n es)
unfolding count_in_ring
ring_of-AllHold size n P [] h = unused-AllHold n size 0 n P
ring_of-AllHold size n P (e ∷ es) h =
    let full = length-ring_of size n es in
    update-AllHold n size _ 0 P _ (ring_of size n es) (ring_of-AllHold size n P es h.1) (λ b.
      claim-Holds n size (e.at / size) _ P e b (ap (λ m. e.at / size % m) (sym full) ∙ omega arith)
        h.0)

-- No request is a whole ring older than one before it.
abbrev pub InSpan : ℕ → ℕ → List AuditRecord → Type 0
InSpan size n [] = Unit
InSpan size n (e ∷ es) =
    All (λ d. bucket_start size d.at < bucket_start size e.at + n * size) es × InSpan size n es
