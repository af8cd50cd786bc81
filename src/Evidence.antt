-- ===== src/Evidence.antt =====
-- src/evidence.ts and the types of src/detectors/types.ts that it reads. A weight is written in
-- twentieths (0.25, 0.5, 0.8 and 1 are 5, 10, 16 and 20), and a doubt and a confidence as fractions of
-- natural numbers; the source's rounding to doubles is not modelled. Scores are natural numbers.
pub mod Confidence
use hackerpot.Common.{
  ℕ, zero, suc, ◌+◌, ◌-◌, ◌*◌, String, Bool, true, false, ◌||◌, Option, none, some, List, [], ◌∷◌,
  ◌++◌, map, leb, ltb, if◌then◌else◌, or_else, max, length, lookup, insert,
}

pub data Certainty : Type 0 where
  weak moderate strong certain : Certainty

-- `metadata` is carried and never read, so it is left out.
pub record Detection : Type 0 where
  pub detector : String
  pub summary : String
  pub score : ℕ
  pub respond_with : Option String
  pub is_certain : Bool
  pub family : Option String
  pub certainty : Option Certainty
  pub tier : Option Certainty

-- `CERTAINTY_WEIGHT`, in twentieths.
abbrev pub weight_of : Certainty → ℕ
weight_of weak = 5
weight_of moderate = 10
weight_of strong = 16
weight_of certain = 20

abbrev pub strong_score : ℕ
strong_score = 9

abbrev pub moderate_score : ℕ
moderate_score = 6

-- `detection.certainty ?? detection.tier`.
abbrev pub explicit : Option Certainty → Option Certainty → Option Certainty
explicit none tier = tier
explicit (some c) tier = some c

unfoldable pub certainty_of : Detection → Certainty
certainty_of d = elim (explicit d.certainty d.tier) [
  | some c ↦ c
  | none ↦
      if d.is_certain
      then certain
      else if leb strong_score d.score
      then strong
      else if leb moderate_score d.score
      then moderate
      else weak
]

unfoldable pub weight : Detection → ℕ
weight d = weight_of (certainty_of d)

-- One round of the first loop of `confidenceOf`: the weights without a family are listed in order, and
-- of each family the largest is kept.
unfoldable pub note : Option String → ℕ → List ℕ × List (String × ℕ) → List ℕ × List (String × ℕ)
note none w (independent, strongest) = (independent ++ w ∷ [], strongest)
note (some f) w (independent, strongest) =
    (independent, insert f (max (or_else (lookup f strongest) 0) w) strongest)

unfoldable pub gather : List Detection → List ℕ × List (String × ℕ) → List ℕ × List (String × ℕ)
gather [] found = found
gather (d ∷ ds) found = gather ds (note d.family (weight d) found)

-- A fraction.
pub record Ratio : Type 0 where
  pub num : ℕ
  pub den : ℕ

-- The second loop: the product of the doubts, and whether some weight is a whole.
unfoldable pub combine : List ℕ → Ratio → Bool → Ratio × Bool
combine [] doubt proven = (doubt, proven)
combine (w ∷ ws) doubt proven =
    combine ws (record { num = doubt.num * (20 - w); den = doubt.den * 20 }) (leb 20 w || proven)

-- `proven ? 1 : min(1 - doubt, SUSPICION_CEILING)`, where the ceiling is 19 / 20.
unfoldable pub verdict : Ratio → Bool → Ratio
verdict doubt true = record { num = 1; den = 1 }
verdict doubt false =
    if leb (20 * (doubt.den - doubt.num)) (19 * doubt.den)
    then record { num = doubt.den - doubt.num; den = doubt.den }
    else record { num = 19; den = 20 }

unfoldable pub confidence_of : List Detection → Ratio
confidence_of [] = record { num = 0; den = 1 }
confidence_of (d ∷ ds) =
    let (independent, strongest) = gather (d ∷ ds) ([], []) in
    let (doubt, proven) =
      combine (independent ++ map (λ e. e.1) strongest) (record { num = 1; den = 1 }) false in
    verdict doubt proven

-- `certaintyOfConfidence`.
unfoldable pub certainty_of_confidence : Ratio → Certainty
certainty_of_confidence c =
    if leb c.den c.num
    then certain
    else if leb (16 * c.den) (20 * c.num)
    then strong
    else if leb (10 * c.den) (20 * c.num)
    then moderate
    else weak
