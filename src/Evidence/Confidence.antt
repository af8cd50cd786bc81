-- ===== src/Evidence/Confidence.antt =====
-- src/evidence.ts: only proof reaches a confidence of one.
use hackerpot.Common.{
  ℕ, ◌-◌, ◌*◌, ◌≤◌, ◌<◌, ◌≡◌, ◌↔◌, refl, ap, ◌∙◌, String, Bool, true, false, ◌||◌, Option, none,
  some, List, [], ◌∷◌, ◌++◌, map, leb, or_else, max, lookup, insert, any, arith, Bool-cases, inl,
  inr, ◌⊎◌,
}
use hackerpot.Evidence.{
  certain, Detection, weight, note, gather, Ratio, combine, verdict, confidence_of,
  certainty_of_confidence,
}

-- A detection that is proof.
abbrev pub is_proof : Detection → Bool
is_proof d = leb 20 (weight d)

pub any-append {ℓ} :
    {A : Type ℓ} (p : A → Bool) (xs ys : List A) → any p (xs ++ ys) ≡ (any p xs || any p ys)
any-append p [] ys = refl
any-append p (x ∷ xs) ys = ground (arith, any-append p xs ys)

abbrev whole : ℕ → Bool
whole w = leb 20 w

abbrev weights : List (String × ℕ) → List ℕ
weights m = map (λ e. e.1) m

any-insert :
    (f : String) (w : ℕ) (m : List (String × ℕ))
    → any whole (weights (insert f (max (or_else (lookup f m) 0) w) m))
      ≡ (any whole (weights m) || whole w)
any-insert f w [] = ground arith
any-insert f w ((g, u) ∷ m) = ground (arith, any-insert f w m)

abbrev all_weights : List ℕ × List (String × ℕ) → List ℕ
all_weights found = found.0 ++ weights found.1

note-any :
    (family : Option String) (w : ℕ) (found : List ℕ × List (String × ℕ))
    → any whole (all_weights (note family w found)) ≡ (any whole (all_weights found) || whole w)
unfolding note
note-any none w (ind, m) =
    rw
      (
        any-append whole (ind ++ w ∷ []) (weights m),
        any-append whole ind (w ∷ []),
        any-append whole ind (weights m),
      )
      (ground arith)
note-any (some f) w (ind, m) =
    rw
      (
        any-append whole ind (weights m),
        any-append whole ind (weights (insert f (max (or_else (lookup f m) 0) w) m)),
        any-insert f w m,
      )
      (ground arith)

gather-any :
    (ds : List Detection) (found : List ℕ × List (String × ℕ))
    → any whole (all_weights (gather ds found)) ≡ (any whole (all_weights found) || any is_proof ds)
unfolding gather
gather-any [] found = ground arith
gather-any (d ∷ ds) found =
    gather-any ds (note d.family (weight d) found)
    ∙ rw (note-any d.family (weight d) found) (ground arith)

combine-proven :
    (ws : List ℕ) (doubt : Ratio) (proven : Bool)
    → (combine ws doubt proven).1 ≡ (any whole ws || proven)
unfolding combine
combine-proven [] doubt proven = refl
combine-proven (w ∷ ws) doubt proven =
    combine-proven ws (record { num = doubt.num * (20 - w); den = doubt.den * 20 })
      (whole w || proven)
    ∙ ground arith

combine-positive :
    (ws : List ℕ) (doubt : Ratio) (proven : Bool)
    → 0 < doubt.den
    → 0 < (combine ws doubt proven).0.den
unfolding combine
combine-positive [] doubt proven h = h
combine-positive (w ∷ ws) doubt proven h =
    combine-positive ws (record { num = doubt.num * (20 - w); den = doubt.den * 20 })
      (whole w || proven) (omega arith)

verdict_cases :
    (doubt : Ratio)
    → 0 < doubt.den
    → 20 * (verdict doubt false).num ≤ 19 * (verdict doubt false).den
unfolding verdict
verdict_cases doubt h = ground arith

verdict-den : (doubt : Ratio) (b : Bool) → 0 < doubt.den → 0 < (verdict doubt b).den
unfolding verdict
verdict-den doubt true h = omega arith
verdict-den doubt false h = ground arith

-- Confidence is one exactly when some detection is proof, and otherwise at most 19/20: no number of
-- suspicions adds up to proof.
pub confidence_of-proof :
    (ds : List Detection)
    → ((any is_proof ds ≡ true) × (confidence_of ds ≡ record { num = 1; den = 1 }))
      ⊎ ((any is_proof ds ≡ false)
          × (20 * (confidence_of ds).num ≤ 19 * (confidence_of ds).den)
          × (0 < (confidence_of ds).den))
unfolding confidence_of verdict
confidence_of-proof [] = inr (refl, omega arith, omega arith)
confidence_of-proof (d ∷ ds) =
    let one : Ratio = record { num = 1; den = 1 } in
    let ws = all_weights (gather (d ∷ ds) ([], [])) in
    let proven : (combine ws one false).1 ≡ any is_proof (d ∷ ds) =
      combine-proven ws one false ∙ rw (gather-any (d ∷ ds) ([], [])) (ground arith) in
    let positive = combine-positive ws one false (omega arith) in
    elim (Bool-cases (any is_proof (d ∷ ds))) [
      | inl proof ↦ inl (proof, ap (verdict (combine ws one false).0) (proven ∙ proof) ∙ refl)
      | inr unproven ↦
          let same = ap (verdict (combine ws one false).0) (proven ∙ unproven) in
          inr (
            unproven,
            rw same (verdict_cases (combine ws one false).0 positive),
            rw same (verdict-den (combine ws one false).0 false positive),
          )
    ]

-- In words: a confidence reads as certain exactly when some detection is proof.
pub certainty_of_confidence-proof :
    (ds : List Detection)
    → (certainty_of_confidence (confidence_of ds) ≡ certain) ↔ (any is_proof ds ≡ true)
unfolding certainty_of_confidence
certainty_of_confidence-proof ds = elim (confidence_of-proof ds) [
  | inl (proof, one) ↦ ((λ _. proof), (λ _. rw one refl))
  | inr (unproven, most, positive) ↦
      let c = confidence_of ds in
      let under : leb c.den c.num ≡ false = ground arith in
      ((λ h. absurd (ground arith)), (λ h. absurd (cc)))
]
