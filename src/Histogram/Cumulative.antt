-- ===== src/Histogram/Cumulative.antt =====
-- src/internal/histogram.ts: each bucket of a snapshot counts the values up to its bound.
use hackerpot.Common.{
  ℕ, zero, suc, ◌+◌, ◌≤◌, ◌≡◌, refl, ap, sym, ◌∙◌, Option, List, [], ◌∷◌, arith, leb, if◌then◌else◌,
  or_else, length, count as count_of, All, Bool-cases, inl, inr, leb→le, le→leb,
}
use hackerpot.Histogram.{
  Histogram, create, empty_slots, bucket_of, bump, observe, cumulate, snapshot,
}

-- The bounds ascend.
abbrev pub IsAscending : List ℕ → Type 0
IsAscending [] = Unit
IsAscending (b ∷ bs) = All (λ c. b ≤ c) bs × IsAscending bs

unfoldable pub observe_all : List (Option ℕ) → Histogram → Histogram
observe_all [] h = h
observe_all (v ∷ vs) h = observe_all vs (observe v h)

-- A count for each bound and one past the last, after one more value.
abbrev raise : List ℕ → ℕ → List ℕ → List ℕ
raise bs v [] = []
raise [] v (n ∷ ns) = suc n ∷ []
raise (b ∷ bs) v (n ∷ ns) = (if leb v b then suc n else n) ∷ raise bs v ns

-- The value that is counted.
abbrev pub observed : Option ℕ → ℕ
observed v = or_else v 0

-- How many of the values are at most the bound.
abbrev pub up_to_bound : ℕ → List (Option ℕ) → ℕ
up_to_bound b vs = count_of (λ v. leb (observed v) b) vs

-- For each bound how many values are at most it, and then how many there are.
abbrev pub counts : List ℕ → List (Option ℕ) → List ℕ
counts [] vs = length vs ∷ []
counts (b ∷ bs) vs = up_to_bound b vs ∷ counts bs vs

-- A list with one slot more than there are bounds.
abbrev Fits : List ℕ → List ℕ → Type 0
Fits bs ns = length ns ≡ suc (length bs)

-- A value at most the first bound is at most all of them: every running sum grows by one.
cumulate-suc :
    (v running : ℕ) (bs ns : List ℕ)
    → Fits bs ns
    → All (λ c. v ≤ c) bs
    → cumulate (suc running) ns ≡ raise bs v (cumulate running ns)
unfolding cumulate
cumulate-suc v running bs [] f h = absurd (omega (arith, f))
cumulate-suc v running [] (n ∷ []) f h = ap (λ (k : ℕ). k ∷ []) (omega arith)
cumulate-suc v running [] (n ∷ m ∷ ns) f h = absurd (omega (arith, f))
cumulate-suc v running (b ∷ bs) (n ∷ ns) f h =
    let head : suc running + n ≡ suc (running + n) = omega arith in
    let rest = cumulate-suc v (running + n) bs ns (omega (arith, f)) h.1 in
    rw (le→leb v b h.0, head, rest) refl

All-le : (v b : ℕ) (bs : List ℕ) → v ≤ b → All (λ c. b ≤ c) bs → All (λ c. v ≤ c) bs
All-le v b [] l h = tt
All-le v b (c ∷ bs) l h = (omega (arith, l, h.0), All-le v b bs l h.1)

-- One slot raised is every running sum from its bound on raised.
cumulate-bump :
    (v running : ℕ) (bs ns : List ℕ)
    → Fits bs ns
    → IsAscending bs
    → cumulate running (bump (bucket_of bs v) ns) ≡ raise bs v (cumulate running ns)
unfolding cumulate bump bucket_of
cumulate-bump v running bs [] f h = absurd (omega (arith, f))
cumulate-bump v running [] (n ∷ []) f h = ap (λ (k : ℕ). k ∷ []) (omega arith)
cumulate-bump v running [] (n ∷ m ∷ ns) f h = absurd (omega (arith, f))
cumulate-bump v running (b ∷ bs) (n ∷ ns) f h = elim (Bool-cases (leb v b)) [
  | inl in_first ↦
      let head : running + suc n ≡ suc (running + n) = omega arith in
      let rest =
        cumulate-suc v (running + n) bs ns (omega (arith, f))
          (All-le v b bs (leb→le v b in_first) h.0) in
      rw (in_first, head, rest) refl
  | inr past ↦ rw (past, cumulate-bump v (running + n) bs ns (omega (arith, f)) h.1) refl
]

length-bump : (i : ℕ) (ns : List ℕ) → length (bump i ns) ≡ length ns
unfolding bump
length-bump zero [] = refl
length-bump (suc i) [] = refl
length-bump zero (n ∷ ns) = refl
length-bump (suc i) (n ∷ ns) = ap suc (length-bump i ns)

-- Slot by slot.
abbrev add_slots : List ℕ → List ℕ → List ℕ
add_slots [] ms = []
add_slots (n ∷ ns) [] = n ∷ ns
add_slots (n ∷ ns) (m ∷ ms) = (n + m) ∷ add_slots ns ms

add_slots-raise :
    (bs ns : List ℕ) (v : Option ℕ) (vs : List (Option ℕ))
    → Fits bs ns
    → add_slots (raise bs (observed v) ns) (counts bs vs) ≡ add_slots ns (counts bs (v ∷ vs))
add_slots-raise bs [] v vs f = refl
add_slots-raise [] (n ∷ []) v vs f = ap (λ (k : ℕ). k ∷ []) (omega arith)
add_slots-raise [] (n ∷ m ∷ ns) v vs f = absurd (omega (arith, f))
add_slots-raise (b ∷ bs) (n ∷ ns) v vs f =
    let rest = add_slots-raise bs ns v vs (omega (arith, f)) in
    elim (Bool-cases (leb (observed v) b)) [
      | inl h ↦
          let head : suc n + up_to_bound b vs ≡ n + suc (up_to_bound b vs) = omega arith in
          rw (h, rest, head) refl
      | inr h ↦ rw (h, rest) refl
    ]

add_slots-counts_nil : (bs ns : List ℕ) → Fits bs ns → add_slots ns (counts bs []) ≡ ns
add_slots-counts_nil bs [] f = refl
add_slots-counts_nil [] (n ∷ []) f = ap (λ (k : ℕ). k ∷ []) (omega arith)
add_slots-counts_nil [] (n ∷ m ∷ ns) f = absurd (omega (arith, f))
add_slots-counts_nil (b ∷ bs) (n ∷ ns) f =
    let head : n + 0 ≡ n = omega arith in
    rw (head, add_slots-counts_nil bs ns (omega (arith, f))) refl

length-cumulate : (running : ℕ) (ns : List ℕ) → length (cumulate running ns) ≡ length ns
unfolding cumulate
length-cumulate running [] = refl
length-cumulate running (n ∷ ns) = ap suc (length-cumulate (running + n) ns)

observe_all-buckets :
    (vs : List (Option ℕ)) (h : Histogram)
    → Fits h.bounds h.per_bucket
    → IsAscending h.bounds
    → (cumulate 0 (observe_all vs h).per_bucket
        ≡ add_slots (cumulate 0 h.per_bucket) (counts h.bounds vs))
      × ((observe_all vs h).count ≡ h.count + length vs)
unfolding observe_all observe
observe_all-buckets [] h f a = (
  sym (
      add_slots-counts_nil h.bounds (cumulate 0 h.per_bucket)
        (omega (arith, length-cumulate 0 h.per_bucket, f))),
  omega arith,
)
observe_all-buckets (v ∷ vs) h f a =
    let size = length-bump (bucket_of h.bounds (observed v)) h.per_bucket in
    let rest = observe_all-buckets vs (observe v h) (omega (arith, size, f)) a in
    let raised = cumulate-bump (observed v) 0 h.bounds h.per_bucket f a in
    (
      rest.0
          ∙ ap (λ (ns : List ℕ). add_slots ns (counts h.bounds vs)) raised
          ∙ add_slots-raise h.bounds (cumulate 0 h.per_bucket) v vs
              (omega (arith, length-cumulate 0 h.per_bucket, f)),
      omega (arith, rest.1),
    )

empty_slots-Fits : (bs : List ℕ) → Fits bs (empty_slots bs)
empty_slots-Fits [] = refl
empty_slots-Fits (b ∷ bs) = ap suc (empty_slots-Fits bs)

cumulate-empty : (bs : List ℕ) → cumulate 0 (empty_slots bs) ≡ empty_slots bs
unfolding cumulate
cumulate-empty [] = refl
cumulate-empty (b ∷ bs) = ap (λ (ns : List ℕ). 0 ∷ ns) (cumulate-empty bs)

add_slots-empty :
    (bs : List ℕ) (vs : List (Option ℕ)) → add_slots (empty_slots bs) (counts bs vs) ≡ counts bs vs
add_slots-empty [] vs = ap (λ (k : ℕ). k ∷ []) (omega arith)
add_slots-empty (b ∷ bs) vs =
    let head : 0 + up_to_bound b vs ≡ up_to_bound b vs = omega arith in
    rw (head, add_slots-empty bs vs) refl

-- For ascending bounds a snapshot is the cumulative histogram of everything observed: each bucket
-- counts the values that are at most its bound, and the last one, like the count, all of them.
pub snapshot-counts :
    (bounds : List ℕ) (vs : List (Option ℕ))
    → IsAscending bounds
    → ((snapshot (observe_all vs (create bounds))).buckets ≡ counts bounds vs)
      × ((snapshot (observe_all vs (create bounds))).count ≡ length vs)
unfolding snapshot create
snapshot-counts bounds vs a =
    let both = observe_all-buckets vs (create bounds) (empty_slots-Fits bounds) a in
    (
      both.0
          ∙ ap (λ (ns : List ℕ). add_slots ns (counts bounds vs)) (cumulate-empty bounds)
          ∙ add_slots-empty bounds vs,
      both.1 ∙ omega arith,
    )
