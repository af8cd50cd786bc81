-- ===== src/Audit/Checks.antt =====
-- src/audit.ts: `DEFAULT_AUDIT_CHECKS`. A share, a rate or a ratio is an exact fraction here, where the
-- source rounds to floating point; the sentence of an anomaly is left out.
use hackerpot.Common.{
  ℕ, ◌*◌, String, Bool, true, false, Option, none, some, List, [], ◌∷◌, ltb, leb, ◌||◌,
  if◌then◌else◌,
}
use hackerpot.Audit.{AuditWindow}

-- The denominators in use are not zero.
pub record Fraction : Type 0 where
  pub num : ℕ
  pub den : ℕ

pub data AuditSeverity : Type 0 where
  info warning critical : AuditSeverity

-- An anomaly without its timestamp; the path is that of a campaign.
pub record Anomaly : Type 0 where
  pub id : String
  pub severity : AuditSeverity
  pub metric : String
  pub value : Fraction
  pub baseline : Fraction
  pub ratio : Option Fraction
  pub path : Option String

pub record AuditContext : Type 0 where
  pub window : AuditWindow
  pub baseline : AuditWindow
  pub now : ℕ
  pub min_samples : ℕ

-- What a check answers, or that it throws.
pub data CheckResult : Type 0 where
  threw silent : CheckResult
  found : Anomaly → CheckResult

pub record AuditCheck : Type 0 where
  pub id : String
  pub evaluate : AuditContext → CheckResult

-- `a < n / d`.
abbrev pub below : Fraction → ℕ → ℕ → Bool
below a n d = ltb (a.num * d) (n * a.den)

abbrev pub at_least : Fraction → ℕ → ℕ → Bool
at_least a n d = leb (n * a.den) (a.num * d)

abbrev pub zero_fraction : Fraction
zero_fraction = record { num = 0; den = 1 }

-- A part of the requests, zero where there are none.
abbrev pub share_of : ℕ → AuditWindow → Fraction
share_of part w =
    if ltb 0 w.requests then record { num = part; den = w.requests } else zero_fraction

-- Requests for each minute.
abbrev pub rate_of : AuditWindow → Fraction
rate_of w = record { num = w.requests * 60000; den = w.span_ms }

-- `ratioOf`.
abbrev pub ratio_of : Fraction → Fraction → Option Fraction
ratio_of value baseline =
    if ltb 0 baseline.num
    then some (record { num = value.num * baseline.den; den = value.den * baseline.num })
    else none

abbrev pub is_some_below : Option Fraction → ℕ → Bool
is_some_below none n = false
is_some_below (some r) n = below r n 1

abbrev pub is_none : Option Fraction → Bool
is_none none = true
is_none (some r) = false

abbrev severity_if : Bool → AuditSeverity
severity_if true = AuditSeverity.critical
severity_if false = AuditSeverity.warning

abbrev anomaly :
    String → AuditSeverity → String → Fraction → Fraction → Option Fraction → CheckResult
anomaly id severity metric value baseline ratio = CheckResult.found (record {
  id = id;
  severity = severity;
  metric = metric;
  value = value;
  baseline = baseline;
  ratio = ratio;
  path = none;
})

unfoldable pub flagged_share_spike : AuditContext → CheckResult
flagged_share_spike c =
    let share = share_of c.window.flagged c.window in
    let base = share_of c.baseline.flagged c.baseline in
    let ratio = ratio_of share base in
    if below share 1 4 || is_some_below ratio 2
    then CheckResult.silent
    else anomaly "flagged-share-spike" (severity_if (at_least share 3 5)) "flagged share" share base
        ratio

abbrev is_large_ratio : Option Fraction → Bool
is_large_ratio none = false
is_large_ratio (some r) = at_least r 10 1

unfoldable pub traffic_spike : AuditContext → CheckResult
traffic_spike c =
    let rate = rate_of c.window in
    let base = rate_of c.baseline in
    let ratio = ratio_of rate base in
    if is_none ratio || is_some_below ratio 3 || below rate 10 1
    then CheckResult.silent
    else anomaly "traffic-spike" (severity_if (is_large_ratio ratio)) "requests per minute" rate
        base ratio

-- The two checks on a share of at least ten requests.
abbrev share_spike : String → String → (AuditWindow → ℕ) → AuditContext → CheckResult
share_spike id metric part c =
    let share = share_of (part c.window) c.window in
    let base = share_of (part c.baseline) c.baseline in
    let ratio = ratio_of share base in
    if ltb (part c.window) 10 || (below share 1 20 || is_some_below ratio 3)
    then CheckResult.silent
    else anomaly id AuditSeverity.warning metric share base ratio

unfoldable pub block_spike : AuditContext → CheckResult
block_spike = share_spike "block-spike" "block rate" (λ w. w.blocks)

unfoldable pub downgrade_spike : AuditContext → CheckResult
downgrade_spike = share_spike "downgrade-spike" "downgraded blocks" (λ w. w.downgrades)

unfoldable pub detector_failures : AuditContext → CheckResult
detector_failures c =
    let share = share_of c.window.failures c.window in
    if below share 1 100 || ltb c.window.failures 5
    then CheckResult.silent
    else anomaly "detector-failures" (severity_if (at_least share 1 10)) "detector failure rate"
        share zero_fraction none

abbrev pub default_audit_checks : List AuditCheck
default_audit_checks =
    record { id = "flagged-share-spike"; evaluate = flagged_share_spike }
    ∷ record { id = "traffic-spike"; evaluate = traffic_spike }
    ∷ record { id = "block-spike"; evaluate = block_spike }
    ∷ record { id = "downgrade-spike"; evaluate = downgrade_spike }
    ∷ record { id = "detector-failures"; evaluate = detector_failures }
    ∷ []
