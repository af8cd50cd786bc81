-- ===== src/Examples/Traffic.antt =====
-- src/audit.ts and src/site/index.ts on a few requests and outcomes.
use hackerpot.Common.{
  ℕ, String, List, ◌≡◌, ◌≤◌, refl, [], ◌∷◌, none, true, false, length, arith, All, keep, not,
}
use hackerpot.Lru.Values.{Stored}
use hackerpot.Audit.{TrafficAuditOptions, AuditRecord, create, summary, record_request}
use hackerpot.Audit.Windows.{window_of}
use hackerpot.Audit.Summary.{record_all, requests_of, summary-history}
use hackerpot.Audit.Memory.{IsSmall, record_all-small}
use hackerpot.Audit.Checks.{
  AuditCheck, AuditContext, CheckResult, Anomaly, AuditSeverity, detector_failures,
  default_audit_checks,
}
use hackerpot.Audit.Evaluating.{file_all, evaluate_keyed, evaluate, context_of}
use hackerpot.Audit.Silence.{Call, run, run-IsSilent, throws, evaluate-isolated}
use hackerpot.Audit.Cooldown.{IsSilent, Fires}
use hackerpot.Audit.Speaking.{evaluate_keyed-speaks}
use hackerpot.Audit.Steady.{default_audit_checks-steady}

abbrev options : TrafficAuditOptions
options = record {
  window_ms = 2000;
  baseline_ms = 4000;
  min_samples = 1;
  cooldown_ms = 5000;
  campaign_min_ips = 2;
}

-- A request from an address on which five detectors failed.
abbrev request : String → ℕ → AuditRecord
request ip at = record {
  at = at;
  ip = ip;
  path = "/new.php";
  flagged = true;
  blocked = false;
  downgraded = false;
  failures = 5;
}

abbrev whole : String → String
whole path = path

abbrev past : List (ℕ × AuditRecord)
past = (6200, request "192.0.2.2" 6200) ∷ (1500, request "192.0.2.1" 1500) ∷ []

summary-history_example : summary 6500 (record_all whole past (create options)) ≡ (
  window_of 2000 5000 7000 (requests_of whole past),
  window_of 4000 1000 5000 (requests_of whole past),
)
unfolding record_request create
summary-history_example =
    summary-history whole options past 6500 ((omega arith, tt), (tt, tt))
      (omega arith, (omega arith, tt))

record_all-small_example :
    (length (record_all whole past (create options)).buckets ≤ 513)
    × (length (record_all whole past (create options)).campaigns.entries ≤ 2000)
    × Stored IsSmall (record_all whole past (create options)).campaigns.entries
record_all-small_example = record_all-small whole options past

-- The default bound on the ring is passed by one.
widest_ring :
    length
      (create (record {
        window_ms = 1500;
        baseline_ms = 509500;
        min_samples = 1;
        cooldown_ms = 0;
        campaign_min_ips = 0;
      })).buckets
    ≡ 513
unfolding create
widest_ring = refl

abbrev failing : List AuditCheck
failing = record { id = "detector-failures"; evaluate = detector_failures } ∷ []

abbrev calls : List Call
calls = Call.record_at 6200 (request "192.0.2.2" 6200) ∷ []

abbrev calm : List Call
calm =
    Call.evaluate_at 7000 7000
    ∷ Call.record_at 8000 (request "192.0.2.3" 8000)
    ∷ Call.evaluate_at 11000 11000
    ∷ []

run-IsSilent_example :
    IsSilent "detector-failures"
      (run whole failing calm
        (evaluate_keyed failing 6500 6500 (run whole failing calls (create options)).1).1).0
unfolding create record_request summary evaluate_keyed file_all detector_failures
run-IsSilent_example =
    run-IsSilent whole failing options calls calm "detector-failures" 6500 6500 refl
      (omega arith, (omega arith, (omega arith, tt))) (omega arith)

-- A check that throws stands before one that finds.
abbrev throwing : AuditCheck
throwing = record { id = "broken"; evaluate = λ c. CheckResult.threw }

evaluate-isolated_example :
    evaluate (throwing ∷ failing) 6500 6500 (record_all whole past (create options))
    ≡ evaluate
        (keep
          (λ c.
            not (throws (c.evaluate (context_of 6500 (record_all whole past (create options))))))
          (throwing ∷ failing))
        6500
        6500
        (record_all whole past (create options))
evaluate-isolated_example =
    evaluate-isolated (throwing ∷ failing) 6500 6500 (record_all whole past (create options))

-- Ten requests in the window, one in five flagged, after as many in twice the time.
abbrev steady : AuditContext
steady = record {
  window = record {
    span_ms = 2000;
    requests = 10;
    flagged = 2;
    blocks = 1;
    downgrades = 0;
    failures = 4;
  };
  baseline = record {
    span_ms = 4000;
    requests = 20;
    flagged = 4;
    blocks = 2;
    downgrades = 1;
    failures = 0;
  };
  now = 6500;
  min_samples = 5;
}

default_audit_checks-steady_example :
    All (λ k. k.evaluate steady ≡ CheckResult.silent) default_audit_checks
default_audit_checks-steady_example = default_audit_checks-steady steady (record {
  requests = omega arith;
  before = omega arith;
  span = omega arith;
  rate = omega arith;
  flagged = omega arith;
  blocks = omega arith;
  downgrades = omega arith;
  failures = omega arith;
})

abbrev failures : Anomaly
failures = record {
  id = "detector-failures";
  severity = AuditSeverity.critical;
  metric = "detector failure rate";
  value = record { num = 5; den = 1 };
  baseline = record { num = 0; den = 1 };
  ratio = none;
  path = none;
}

-- The check is heard, and would be even after one that throws.
evaluate_keyed-speaks_example :
    Fires "detector-failures"
      (evaluate_keyed (throwing ∷ failing) 6500 6500 (record_all whole past (create options))).0
unfolding create record_request summary detector_failures
evaluate_keyed-speaks_example =
    evaluate_keyed-speaks (throwing ∷ []) []
      (record { id = "detector-failures"; evaluate = detector_failures }) failures 6500 6500
      (record_all whole past (create options)) (omega arith) refl refl
