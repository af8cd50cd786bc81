-- ===== src/Engine/Scoring.antt =====
-- src/core.ts: `combinedScore`.
use hackerpot.Common.{
  ℕ, ◌+◌, ◌≤◌, ◌≡◌, refl, String, Option, none, some, List, [], ◌∷◌, or_else, max, lookup, insert,
  arith, if◌then◌else◌, ltb, All, ap, ◌∙◌, str_eq_self,
}
use hackerpot.Evidence.{Detection}

-- One round of the loop: a score of no family joins the total, and of each family the best is kept.
unfoldable pub note_score : Option String → ℕ → ℕ × List (String × ℕ) → ℕ × List (String × ℕ)
note_score none score (total, best) = (total + score, best)
note_score (some f) score (total, best) =
    (total, insert f (max (or_else (lookup f best) 0) score) best)

unfoldable pub gather_scores : List Detection → ℕ × List (String × ℕ) → ℕ × List (String × ℕ)
gather_scores [] found = found
gather_scores (d ∷ ds) found = gather_scores ds (note_score d.family d.score found)

unfoldable pub add_values : List (String × ℕ) → ℕ → ℕ
add_values [] total = total
add_values ((f, s) ∷ best) total = add_values best (total + s)

unfoldable pub combined_score : List Detection → ℕ
unfolding gather_scores add_values
combined_score ds = let (total, best) = gather_scores ds (0, []) in add_values best total

-- `detections.sort((a, b) => b.score - a.score)`, which keeps the order of equal scores.
unfoldable pub insert_by_score : Detection → List Detection → List Detection
insert_by_score d [] = d ∷ []
insert_by_score d (e ∷ es) =
    let rest = insert_by_score d es in if ltb d.score e.score then e ∷ rest else d ∷ e ∷ es

unfoldable pub sort_by_score : List Detection → List Detection
unfolding insert_by_score
sort_by_score [] = []
sort_by_score (d ∷ ds) = insert_by_score d (sort_by_score ds)

-- The sum of all scores, families or not.
abbrev pub sum_scores : List Detection → ℕ
sum_scores [] = 0
sum_scores (d ∷ ds) = d.score + sum_scores ds

abbrev values : List (String × ℕ) → ℕ
values [] = 0
values ((f, s) ∷ best) = s + values best

add_values-sum :
    (best : List (String × ℕ)) (total : ℕ) → add_values best total ≡ total + values best
unfolding add_values
add_values-sum [] total = omega arith
add_values-sum ((f, s) ∷ best) total = omega (arith, add_values-sum best (total + s))

-- Raising one family's best adds at most what it is raised to, and loses nothing.
values-insert-le :
    (f : String) (s : ℕ) (best : List (String × ℕ))
    → values (insert f (max (or_else (lookup f best) 0) s) best) ≤ values best + s
values-insert-le f s [] = omega arith
values-insert-le f s ((g, t) ∷ best) = ground (arith, values-insert-le f s best)

values-insert-ge :
    (f : String) (s : ℕ) (best : List (String × ℕ))
    → values best ≤ values (insert f (max (or_else (lookup f best) 0) s) best)
values-insert-ge f s [] = omega arith
values-insert-ge f s ((g, t) ∷ best) = ground (arith, values-insert-ge f s best)

values-insert-new :
    (f : String) (s : ℕ) (best : List (String × ℕ))
    → s ≤ values (insert f (max (or_else (lookup f best) 0) s) best)
values-insert-new f s [] = omega arith
values-insert-new f s ((g, t) ∷ best) = ground (arith, values-insert-new f s best)

abbrev standing : ℕ × List (String × ℕ) → ℕ
standing (total, best) = total + values best

note_score-standing :
    (f : Option String) (score : ℕ) (found : ℕ × List (String × ℕ))
    → (standing (note_score f score found) ≤ standing found + score)
      × (standing found ≤ standing (note_score f score found))
      × (score ≤ standing (note_score f score found))
unfolding note_score
note_score-standing none score (total, best) = (omega arith, omega arith, omega arith)
note_score-standing (some f) score (total, best) =
    let le = values-insert-le f score best in
    let ge = values-insert-ge f score best in
    let new = values-insert-new f score best in
    (omega (arith, le), omega (arith, ge), omega (arith, new))

gather_scores-standing :
    (ds : List Detection) (found : ℕ × List (String × ℕ))
    → (standing (gather_scores ds found) ≤ standing found + sum_scores ds)
      × (standing found ≤ standing (gather_scores ds found))
      × All (λ (d : Detection). d.score ≤ standing (gather_scores ds found)) ds
unfolding gather_scores
gather_scores-standing [] found = (omega arith, omega arith, tt)
gather_scores-standing (d ∷ ds) found =
    let one = note_score-standing d.family d.score found in
    let rest = gather_scores-standing ds (note_score d.family d.score found) in
    (
      omega (arith, one.0, rest.0),
      omega (arith, one.1, rest.1),
      (omega (arith, one.2, rest.1), rest.2),
    )

-- A request's score is never more than the sum of its findings' scores, and never less than any of
-- them: counting a family once neither invents suspicion nor loses the strongest finding.
pub combined_score-bounds :
    (ds : List Detection)
    → (combined_score ds ≤ sum_scores ds) × All (λ (d : Detection). d.score ≤ combined_score ds) ds
unfolding combined_score
combined_score-bounds ds =
    let found = gather_scores ds (0, []) in
    let all = gather_scores-standing ds (0, []) in
    let same = add_values-sum found.1 found.0 in rw same (omega (arith, all.0), all.2)

-- The greatest of the scores.
abbrev pub max_score : List Detection → ℕ
max_score [] = 0
max_score (d ∷ ds) = max d.score (max_score ds)

gather_scores-one :
    (f : String) (s : ℕ) (ds : List Detection)
    → All (λ (d : Detection). d.family ≡ some f) ds
    → gather_scores ds (0, (f, s) ∷ []) ≡ (0, (f, max s (max_score ds)) ∷ [])
unfolding gather_scores note_score
gather_scores-one f s [] h = ap (λ (n : ℕ). (0, (f, n) ∷ [])) (omega arith)
gather_scores-one f s (d ∷ ds) h =
    let more : max (max s d.score) (max_score ds) ≡ max s (max d.score (max_score ds)) =
      omega arith in
    rw (h.0, str_eq_self f)
      (gather_scores-one f (max s d.score) ds h.1 ∙ ap (λ (n : ℕ). (0, (f, n) ∷ [])) more)

gather_scores-loose :
    (ds : List Detection) (total : ℕ)
    → All (λ (d : Detection). d.family ≡ none) ds
    → gather_scores ds (total, []) ≡ (total + sum_scores ds, [])
unfolding gather_scores note_score
gather_scores-loose [] total h = ap (λ (n : ℕ). (n, [])) (omega arith)
gather_scores-loose (d ∷ ds) total h =
    let more : total + d.score + sum_scores ds ≡ total + (d.score + sum_scores ds) = omega arith in
    rw (h.0) (gather_scores-loose ds (total + d.score) h.1 ∙ ap (λ (n : ℕ). (n, [])) more)

gather_scores-family :
    (f : String) (d : Detection) (ds : List Detection)
    → All (λ (e : Detection). e.family ≡ some f) (d ∷ ds)
    → gather_scores (d ∷ ds) (0, []) ≡ (0, (f, max (max 0 d.score) (max_score ds)) ∷ [])
unfolding gather_scores
gather_scores-family f d ds h =
    let first : note_score d.family d.score (0, []) ≡ (0, (f, max 0 d.score) ∷ []) =
      ap (λ (o : Option String). note_score o d.score (0, [])) h.0 ∙ (unfold note_score in refl) in
    ap (gather_scores ds) first ∙ gather_scores-one f (max 0 d.score) ds h.1

-- Findings that all share one family count as the strongest of them, and findings of no family are
-- added up.
pub combined_score-families :
    (f : String) (same loose : List Detection)
    → All (λ (d : Detection). d.family ≡ some f) same
    → All (λ (d : Detection). d.family ≡ none) loose
    → (combined_score same ≡ max_score same) × (combined_score loose ≡ sum_scores loose)
unfolding combined_score add_values
combined_score-families f [] loose h k = (
  unfold gather_scores in refl,
  ap (λ (p : ℕ × List (String × ℕ)). add_values p.1 p.0) (gather_scores-loose loose 0 k)
      ∙ omega arith,
)
combined_score-families f (d ∷ ds) loose h k =
    let total = λ (p : ℕ × List (String × ℕ)). add_values p.1 p.0 in
    let strongest : 0 + max (max 0 d.score) (max_score ds) ≡ max d.score (max_score ds) =
      omega arith in
    (
      ap total (gather_scores-family f d ds h) ∙ strongest,
      ap total (gather_scores-loose loose 0 k) ∙ omega arith,
    )
