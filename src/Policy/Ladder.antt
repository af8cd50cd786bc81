-- ===== src/Policy/Ladder.antt =====
-- src/policy/rules.ts, `ladderPolicy`, and src/policy/index.ts, `defaultResponsePolicy`.
use hackerpot.Common.{
  ℕ, ◌≤◌, ◌≡◌, ◌≢◌, String, true, false, Option, none, some, leb, if◌then◌else◌, str_eq, Bool-cases,
  ap, str_eq_iff, arith, ◌↔◌, ◌⊎◌, inl, inr,
}
use hackerpot.Policy.{
  PolicyContext, ResponseDecision, sentence, past_block_threshold, detector_asked,
  past_tarpit_threshold, Answer, bare,
}

-- A value that is there and is not the empty text.
abbrev pub truthy : Option String → Option String
truthy none = none
truthy (some s) = if str_eq s "" then none else some s

-- The ladder below the block threshold, from the detector's name, the action that it asks for and the
-- running score.
unfoldable pub below_block : ℕ → String → Option String → ℕ → ResponseDecision
below_block tarpit_threshold detector (some action) total = record {
  action_id = action;
  rule = "default-detector";
  reason = detector_asked detector;
}
below_block tarpit_threshold detector none total =
    if leb tarpit_threshold total
    then record {
      action_id = "tarpit";
      rule = "default-tarpit";
      reason = past_tarpit_threshold tarpit_threshold;
    }
    else record {
      action_id = "not-found";
      rule = "default";
      reason = sentence "A first probe: answered as though nothing is here.";
    }

unfoldable pub ladder_policy : ℕ → ℕ → PolicyContext → ResponseDecision
ladder_policy block_threshold tarpit_threshold c =
    if leb block_threshold c.total_score
    then record {
      action_id = "block";
      rule = "default-block";
      reason = past_block_threshold c.total_score block_threshold;
    }
    else below_block tarpit_threshold c.detection.detector (truthy c.detection.respond_with)
        c.total_score

-- The bare form.
unfoldable pub default_response_policy : ℕ → ℕ → PolicyContext → Answer
default_response_policy block_threshold tarpit_threshold c =
    bare (ladder_policy block_threshold tarpit_threshold c).action_id

-- How much a response of the ladder costs the client.
abbrev pub severity : String → ℕ
severity action = if str_eq action "block" then 2 else if str_eq action "tarpit" then 1 else 0

tarpit_ne_block : ◌≢◌ {A = String} "tarpit" "block"
tarpit_ne_block h = cc

not_found_ne_block : ◌≢◌ {A = String} "not-found" "block"
not_found_ne_block h = cc

empty_ne_block : (s : String) → str_eq s "" ≡ true → ◌≢◌ {A = Option String} (some s) (some "block")
empty_ne_block s e h = cc ((str_eq_iff s "").0 e)

none_ne_some : (s : String) → ◌≢◌ {A = Option String} none (some s)
none_ne_some s h = cc

below_block-block :
    (tarpit_at : ℕ) (detector : String) (o : Option String) (total : ℕ)
    → ((below_block tarpit_at detector (truthy o) total).action_id ≡ "block") ↔ (o ≡ some "block")
unfolding below_block
below_block-block tarpit_at detector none total = elim (Bool-cases (leb tarpit_at total)) [
  | inl over ↦ rw over ((λ h. absurd (tarpit_ne_block h)), (λ h. absurd (none_ne_some _ h)))
  | inr under ↦ rw under ((λ h. absurd (not_found_ne_block h)), (λ h. absurd (none_ne_some _ h)))
]
below_block-block tarpit_at detector (some s) total = elim (Bool-cases (str_eq s "")) [
  | inl empty ↦ rw empty (elim (Bool-cases (leb tarpit_at total)) [
    | inl over ↦
        rw over ((λ h. absurd (tarpit_ne_block h)), (λ h. absurd (empty_ne_block s empty h)))
    | inr under ↦
        rw under ((λ h. absurd (not_found_ne_block h)), (λ h. absurd (empty_ne_block s empty h)))
  ])
  | inr full ↦ rw full ((λ h. ap some h), (λ h. cc))
]

-- The ladder blocks exactly when the running score has reached the threshold or the detector asked
-- for a block.
pub ladder_policy-block :
    (block_at tarpit_at : ℕ) (c : PolicyContext)
    → ((ladder_policy block_at tarpit_at c).action_id ≡ "block")
      ↔ ((block_at ≤ c.total_score) ⊎ (c.detection.respond_with ≡ some "block"))
unfolding ladder_policy
ladder_policy-block block_at tarpit_at c =
    ground (
      arith,
      below_block-block tarpit_at c.detection.detector c.detection.respond_with c.total_score,
    )

below_block-monotone :
    (tarpit_at total more : ℕ) (detector : String) (o : Option String)
    → total ≤ more
    → severity (below_block tarpit_at detector o total).action_id
      ≤ severity (below_block tarpit_at detector o more).action_id
unfolding below_block
below_block-monotone tarpit_at total more detector none l =
    elim (Bool-cases (leb tarpit_at total)) [
      | inl over ↦
          let over' : leb tarpit_at more ≡ true = ground arith in rw (over, over') (omega arith)
      | inr under ↦ rw under (omega arith)
    ]
below_block-monotone tarpit_at total more detector (some s) l = omega arith

severity-le : (s : String) → severity s ≤ 2
severity-le s = ground arith

-- For one and the same request a higher running score never gets a milder response.
pub ladder_policy-monotone :
    (block_at tarpit_at more : ℕ) (c : PolicyContext)
    → c.total_score ≤ more
    → severity (ladder_policy block_at tarpit_at c).action_id
      ≤ severity (ladder_policy block_at tarpit_at (record c { total_score = more })).action_id
unfolding ladder_policy
ladder_policy-monotone block_at tarpit_at more c l = elim (Bool-cases (leb block_at more)) [
  | inl over ↦ rw over (severity-le (ladder_policy block_at tarpit_at c).action_id)
  | inr under ↦
      let under' : leb block_at c.total_score ≡ false = ground arith in
      rw (under, under')
        (below_block-monotone tarpit_at c.total_score more c.detection.detector
          (truthy c.detection.respond_with) l)
]
