-- ===== src/Store/Retention.antt =====
-- src/stores/memory.ts: the store lists the most recent hits, and scores outlive them.
use hackerpot.Common.{
  ℕ, zero, suc, ◌+◌, ◌-◌, ◌≤◌, ◌≡◌, refl, sym, ap, ◌∙◌, String, List, [], ◌∷◌, ◌++◌, arith, length,
  drop, append_assoc, length-append, length-drop, leb, ltb, Bool-cases, inl, inr, ltb→lt,
  ltb_false→le, max, map, append-nil, length-map, leb→le, some,
}
use hackerpot.Scores.Laws.{replay, points_of, get-replay}
use hackerpot.Store.{
  HoneypotHit, MemoryStore, create, record_hit, push_hit, list, score_for, up_to, take_latest,
}
use hackerpot.Scores.{get as points_held}

-- The hits recorded one after another, the first of the list first.
unfoldable pub record_all : List HoneypotHit → MemoryStore → MemoryStore
record_all [] s = s
record_all (hit ∷ hits) s = record_all hits (record_hit hit s)

module _ {ℓ} {A : Type ℓ} where
  drop-append : (n : ℕ) (xs ys : List A) → n ≤ length xs → drop n (xs ++ ys) ≡ drop n xs ++ ys
  drop-append zero xs ys h = refl
  drop-append (suc n) [] ys h = absurd (omega (arith, h))
  drop-append (suc n) (x ∷ xs) ys h = drop-append n xs ys (omega (arith, h))

  drop-nil : (n : ℕ) → drop {A = A} n [] ≡ []
  drop-nil zero = refl
  drop-nil (suc n) = refl

  drop-drop : (m n : ℕ) (xs : List A) → drop m (drop n xs) ≡ drop (n + m) xs
  drop-drop m zero xs = let same : m ≡ 0 + m = omega arith in ap (λ (k : ℕ). drop k xs) same
  drop-drop m (suc n) [] = drop-nil m ∙ sym (drop-nil (suc n + m))
  drop-drop m (suc n) (x ∷ xs) =
      let same : suc (n + m) ≡ suc n + m = omega arith in
      drop-drop m n xs ∙ ap (λ (k : ℕ). drop k (x ∷ xs)) same

-- The last `n` of a list.
abbrev last_of {ℓ} : {A : Type ℓ} → ℕ → List A → List A
last_of n xs = drop (length xs - n) xs

push_hit-last :
    (n : ℕ) (hit : HoneypotHit) (all : List HoneypotHit)
    → push_hit n hit (last_of n all) ≡ last_of n (all ++ hit ∷ [])
push_hit-last n hit all =
    let size = length-append all (hit ∷ []) in
    let kept = length-drop (length all - n) all in
    let pushed = length-append (last_of n all) (hit ∷ []) in
    let once = sym (drop-append (length all - n) all (hit ∷ []) (omega arith)) in
    let again = λ (k : ℕ). drop k (all ++ hit ∷ []) in
    elim (Bool-cases (ltb n (length (last_of n all ++ hit ∷ [])))) [
      | inl over ↦
          let k = length (last_of n all ++ hit ∷ []) - n in
          let lt = ltb→lt n _ over in
          let total : (length all - n) + k ≡ length (all ++ hit ∷ []) - n =
            omega (arith, lt, size, kept, pushed) in
          rw over (
            ap (λ (xs : List HoneypotHit). drop k xs) once
            ∙ drop-drop k (length all - n) (all ++ hit ∷ [])
            ∙ ap again total)
      | inr fits ↦
          let le = ltb_false→le n _ fits in
          let none_gone : length all - n ≡ length (all ++ hit ∷ []) - n =
            omega (arith, le, size, kept, pushed) in
          rw fits (once ∙ ap again none_gone)
    ]

record_all-last :
    (hits before : List HoneypotHit) (s : MemoryStore)
    → s.hits ≡ last_of s.max_hits before
    → (record_all hits s).hits ≡ last_of s.max_hits (before ++ hits)
unfolding record_all record_hit
record_all-last [] before s e = e ∙ ap (last_of s.max_hits) (sym (append-nil before))
record_all-last (hit ∷ hits) before s e =
    let pushed = ap (push_hit s.max_hits hit) e ∙ push_hit-last s.max_hits hit before in
    record_all-last hits (before ++ hit ∷ []) (record_hit hit s) pushed
    ∙ ap (last_of s.max_hits) (append_assoc before (hit ∷ []) hits)

abbrev pub points_in : List HoneypotHit → List (String × ℕ)
points_in hits = map (λ (hit : HoneypotHit). (hit.ip, hit.score)) hits

record_all-scores :
    (hits : List HoneypotHit) (s : MemoryStore)
    → (record_all hits s).scores ≡ replay (points_in hits) s.scores
unfolding record_all record_hit replay
record_all-scores [] s = refl
record_all-scores (hit ∷ hits) s = record_all-scores hits (record_hit hit s)

take_latest-last :
    (n : ℕ) (hits : List HoneypotHit) → last_of n hits ≡ take_latest hits (some (up_to n))
unfolding take_latest
take_latest-last n hits = elim (Bool-cases (leb (length hits) n)) [
  | inl few ↦
      let le = leb→le (length hits) n few in
      let zero_cut : length hits - n ≡ 0 = omega (arith, le) in
      rw few (ap (λ (k : ℕ). drop k hits) zero_cut)
  | inr many ↦ rw many refl
]

-- After any sequence of hits, whatever the room of the score ledger, the store lists exactly the most
-- recent of them, as many as its ceiling allows, oldest first.
pub record_all-latest :
    (max_hits max_score_entries : ℕ) (hits : List HoneypotHit)
    → list (record_all hits (create max_hits max_score_entries))
      ≡ take_latest hits (some (up_to (max 1 max_hits)))
unfolding list create
record_all-latest max_hits max_score_entries hits =
    record_all-last hits [] (create max_hits max_score_entries)
      (sym (drop-nil (0 - max 1 max_hits)))
    ∙ take_latest-last (max 1 max_hits) hits

-- Where the ledger has room for as many addresses as there were hits, the score of an address is the sum
-- over all its hits, those no longer listed included.
record_all-score :
    (max_hits max_score_entries : ℕ) (hits : List HoneypotHit) (ip : String)
    → length hits ≤ max 1 max_score_entries
    → score_for ip (record_all hits (create max_hits max_score_entries))
      ≡ points_of ip (points_in hits)
unfolding score_for create
record_all-score max_hits max_score_entries hits ip h =
    let few : length (points_in hits) ≤ max 1 max_score_entries =
      omega
        (arith, h, length-map {B = String × ℕ} hits (λ (hit : HoneypotHit). (hit.ip, hit.score))) in
    ap (points_held ip) (record_all-scores hits (create max_hits max_score_entries))
    ∙ get-replay max_score_entries (points_in hits) ip few
