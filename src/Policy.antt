-- ===== src/Policy.antt =====
-- src/policy/types.ts, rules.ts and presets.ts: the response policy as data. A reason is the template
-- that the source fills, with what it is filled with; a pattern that is a regular expression is the
-- predicate that it tests, `upper` is `toUpperCase`, and `allows` stands for the address matcher of
-- src/allowlist.ts.
pub mod Ladder
pub mod Rules
pub mod Presets
use Prim.Native.Char.{code}
use hackerpot.Common.{
  ℕ, ◌-◌, ◌*◌, String, Bool, true, false, not, ◌&&◌, ◌||◌, Option, none, some, List, [], ◌∷◌, map,
  leb, ltb, ◌==◌, str_eq, if◌then◌else◌, or_else, any, same_units, mem_units,
}
use hackerpot.Evidence.{Detection, Ratio}
use hackerpot.Activity.{IpTracker}

pub record PolicyContext : Type 0 where
  pub detection : Detection
  pub detections : List Detection
  pub ip : String
  pub path : List ℕ
  pub score : Option ℕ
  pub method : Option (List ℕ)
  pub confidence : Option Ratio
  pub total_score : ℕ
  pub tracker : IpTracker

pub data Reason : Type 0 where
  sentence : String → Reason
  matched_rule : String → Reason
  past_block_threshold : ℕ → ℕ → Reason
  detector_asked : String → Reason
  past_tarpit_threshold : ℕ → Reason
  -- The first is what the policy said; the second the response that was served instead.
  block_refused : Reason → String → Reason
  asked_to_block : String → String → Reason

pub record ResponseDecision : Type 0 where
  pub action_id : String
  pub rule : String
  pub reason : Reason

-- A policy answers with an action id alone or with a decision.
pub data Answer : Type 0 where
  bare : String → Answer
  decided : ResponseDecision → Answer

abbrev pub ResponsePolicy : Type 0
ResponsePolicy = PolicyContext → Answer

-- A prefix, or a regular expression as its test.
pub data Pattern : Type 0 where
  prefix : List ℕ → Pattern
  regexp : (List ℕ → Bool) → Pattern

pub record MatchSpec : Type 0 where
  pub detector : Option (List String)
  pub certain : Option Bool
  pub min_score : Option ℕ
  pub max_score : Option ℕ
  pub min_confidence : Option Ratio
  pub max_confidence : Option Ratio
  pub min_total_score : Option ℕ
  pub max_total_score : Option ℕ
  pub path : Option (List Pattern)
  pub method : Option (List (List ℕ))
  pub ip : Option (List String)

-- The spec with no field.
abbrev pub match_all : MatchSpec
match_all = record {
  detector = none;
  certain = none;
  min_score = none;
  max_score = none;
  min_confidence = none;
  max_confidence = none;
  min_total_score = none;
  max_total_score = none;
  path = none;
  method = none;
  ip = none;
}

-- A predicate that throws answers `none`.
pub data Match : Type 0 where
  spec : MatchSpec → Match
  predicate : (PolicyContext → Option Bool) → Match

pub record Rule : Type 0 where
  pub id : String
  pub match : Match
  pub respond_with : String
  pub fallback_action : Option String
  pub reason : Option Reason

-- `startsWith`.
unfoldable pub starts_with : List ℕ → List ℕ → Bool
starts_with [] text = true
starts_with (_ ∷ _) [] = false
starts_with (p ∷ ps) (c ∷ cs) = (p == c) && starts_with ps cs

abbrev pub pattern_matches : List ℕ → Pattern → Bool
pattern_matches path (prefix p) = starts_with p path
pattern_matches path (regexp test) = test path

abbrev pub ratio_lt : Ratio → Ratio → Bool
ratio_lt a b = ltb (a.num * b.den) (b.num * a.den)

-- `bound === undefined || !(value < bound)`, and so on for the others.
abbrev pub at_least : Option ℕ → ℕ → Bool
at_least none value = true
at_least (some bound) value = not (ltb value bound)

abbrev pub at_most : Option ℕ → ℕ → Bool
at_most none value = true
at_most (some bound) value = not (ltb bound value)

abbrev pub at_least_ratio : Option Ratio → Ratio → Bool
at_least_ratio none value = true
at_least_ratio (some bound) value = not (ratio_lt value bound)

abbrev pub at_most_ratio : Option Ratio → Ratio → Bool
at_most_ratio none value = true
at_most_ratio (some bound) value = not (ratio_lt bound value)

abbrev pub agrees : Option Bool → Bool → Bool
agrees none b = true
agrees (some true) b = b
agrees (some false) b = not b

abbrev pub given {ℓ} : {A : Type ℓ} → Option A → (A → Bool) → Bool
given none test = true
given (some a) test = test a

-- An empty list of addresses is no condition.
abbrev pub address_test : (List String → String → Bool) → String → List String → Bool
address_test allows ip [] = true
address_test allows ip (range ∷ ranges) = allows (range ∷ ranges) ip

abbrev pub mem_str : List String → String → Bool
mem_str names s = any (λ n. str_eq n s) names

abbrev pub zero_ratio : Ratio
zero_ratio = record { num = 0; den = 1 }

-- Some detection is marked as proof.
abbrev pub has_proof : List Detection → Bool
has_proof ds = any (λ d. d.is_certain) ds

abbrev pub no_method : List ℕ
no_method = b'G' ∷ b'E' ∷ b'T' ∷ []

abbrev pub fall_back : ResponsePolicy → Reason → PolicyContext → ResponseDecision
fall_back fallback why c = elim (fallback c) [
  | bare id ↦ record { action_id = id; rule = "fallback"; reason = why }
  | decided d ↦ d
]

module _ (upper : List ℕ → List ℕ) (allows : List String → String → Bool) where
  unfoldable pub compile_match : MatchSpec → PolicyContext → Bool
  compile_match s c =
      at_least s.min_total_score c.total_score
      && at_most s.max_total_score c.total_score
      && at_least s.min_score (or_else c.score c.total_score)
      && at_most s.max_score (or_else c.score c.total_score)
      && at_least_ratio s.min_confidence (or_else c.confidence zero_ratio)
      && at_most_ratio s.max_confidence (or_else c.confidence zero_ratio)
      && agrees s.certain (has_proof c.detections)
      && given s.method (λ ms. mem_units (upper (or_else c.method no_method)) (map upper ms))
      && given s.ip (address_test allows c.ip)
      && given s.detector (λ names. any (λ d. mem_str names d.detector) c.detections)
      && given s.path (λ ps. any (pattern_matches c.path) ps)

  -- A rule whose predicate throws does not match.
  unfoldable pub matches : Match → PolicyContext → Bool
  unfolding compile_match
  matches (spec s) c = compile_match s c
  matches (predicate p) c = or_else (p c) false

  abbrev pub detector_choice : Rule → PolicyContext → String
  detector_choice r c = or_else c.detection.respond_with (or_else r.fallback_action "not-found")

  unfoldable pub decide : Rule → PolicyContext → ResponseDecision
  decide r c = record {
    action_id = if str_eq r.respond_with "@detector" then detector_choice r c else r.respond_with;
    rule = r.id;
    reason = or_else r.reason (matched_rule r.id);
  }

  -- The policy that `rulePolicy` returns.
  unfoldable pub run_rules : List Rule → ResponsePolicy → Reason → PolicyContext → ResponseDecision
  run_rules [] fallback why c = fall_back fallback why c
  run_rules (r ∷ rs) fallback why c =
      let rest = run_rules rs fallback why c in if matches r.match c then decide r c else rest
