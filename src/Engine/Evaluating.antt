-- ===== src/Engine/Evaluating.antt =====
-- src/core.ts: `evaluate`, `exempt` and what they share. `decode` is `decodeURIComponent`, `iso` prints a
-- time, `new_id` stands for `randomUUID` and `fingerprint_of` for src/fingerprint.ts.
use hackerpot.Common.{
  ℕ, zero, suc, ◌+◌, String, Bool, true, false, not, ◌&&◌, Option, none, some, List, [], ◌∷◌, ◌++◌,
  if◌then◌else◌, or_else, lookup, insert, str_eq, same_units, take,
}
use Prim.Native.String.{◌++◌ as concat}
use hackerpot.Evidence.{Detection, confidence_of}
use hackerpot.Policy.{
  PolicyContext, Reason, sentence, block_refused, asked_to_block, ResponseDecision, Answer, bare,
  decided, has_proof,
}
use hackerpot.Activity.{IpTracker, record_event}
use hackerpot.Activity.Registry.{tracker_for, write_back}
use hackerpot.Activity.Fingerprints.{record_ip}
use hackerpot.Store.{HoneypotHit, score_for, record_hit}
use hackerpot.Paths.{normalize_path, bounded_query}
use hackerpot.Engine.{
  Headers, RequestFacts, DetectionContext, EvaluateOptions, HoneypotEngine, EvaluationResult,
}
use hackerpot.Engine.Scoring.{combined_score, sort_by_score}
use hackerpot.Engine.Detecting.{Findings, inspect_all, count_failures}

unfoldable pub count_bypass : String → HoneypotEngine → HoneypotEngine
count_bypass reason e = record e {
  bypassed = insert reason (or_else (lookup reason e.bypassed) 0 + 1) e.bypassed;
}

-- Why a request is exempt.
abbrev pub bypass_reason : String → Headers → HoneypotEngine → Option String
bypass_reason ip headers e =
    if e.allows ip
    then some "allowlist"
    else elim (e.identify headers) [ none ↦ none | some token ↦ some "service-token" ]

-- `exempt`.
unfoldable pub exempt : String → Headers → HoneypotEngine → Option String × HoneypotEngine
unfolding count_bypass
exempt ip headers e = elim (bypass_reason ip headers e) [
  | none ↦ (none, e)
  | some reason ↦ (some reason, count_bypass reason e)
]

abbrev pub max_raw_path_chars : ℕ
max_raw_path_chars = 2048

abbrev pub without_score : EvaluationResult
without_score = record {
  detections = [];
  score = 0;
  total_score = 0;
  action_id = "";
  fingerprint = "";
  path = [];
  downgraded_from = none;
  rule = none;
  reason = none;
  marker = none;
  confidence = record { num = 0; den = 1 };
  shadow_detections = [];
  service_token = none;
}

-- A bare action id is a decision of the rule `default` without a reason.
abbrev pub decision_of : Answer → ResponseDecision
decision_of (bare id) = record { action_id = id; rule = "default"; reason = sentence "" }
decision_of (decided d) = d

abbrev pub is_blank_reason : Reason → Bool
is_blank_reason (sentence s) = str_eq s ""
is_blank_reason _ = false

-- What is served after the guard: the action, what it was downgraded from, and the reason.
pub record Served : Type 0 where
  pub action_id : String
  pub downgraded_from : Option String
  pub reason : Reason

abbrev pub refusal : ResponseDecision → String → Reason
refusal d instead =
    if is_blank_reason d.reason
    then asked_to_block d.rule instead
    else block_refused d.reason instead

-- The guard of `blockRequiresProof`.
unfoldable pub guard : EvaluateOptions → List Detection → ResponseDecision → Served
guard o detections d =
    if str_eq d.action_id "block" && o.block_requires_proof && not (has_proof detections)
    then record {
      action_id = or_else o.unproven_block_fallback "tarpit";
      downgraded_from = some d.action_id;
      reason = refusal d (or_else o.unproven_block_fallback "tarpit");
    }
    else record { action_id = d.action_id; downgraded_from = none; reason = d.reason }

abbrev pub said : Reason → Option Reason
said r = if is_blank_reason r then none else some r

-- What one pass has gathered before it decides.
pub record Pass : Type 0 where
  pub facts : RequestFacts
  pub tracker : IpTracker
  pub fingerprint : String
  pub marker : Option String
  pub now : ℕ
  pub findings : Findings

abbrev pub settle : List String → HoneypotEngine → HoneypotEngine
settle failed e = record e { detector_failures = count_failures failed e.detector_failures }

-- Nothing fired.
unfoldable pub clean_result : Pass → HoneypotEngine → EvaluationResult × HoneypotEngine
clean_result p e = (
  record without_score {
    total_score = score_for p.facts.ip e.store;
    fingerprint = p.fingerprint;
    path = p.facts.path;
    shadow_detections = p.findings.shadow_detections;
  },
  settle p.findings.failed e,
)

-- The fingerprint, and the marker under its own prefix, are remembered for the address.
unfoldable pub remember : Pass → ℕ → HoneypotEngine → HoneypotEngine
remember p clock e =
    let fingerprints = record_ip p.fingerprint p.facts.ip clock p.now e.fingerprints in
    record e {
      fingerprints = elim p.marker [
        | none ↦ fingerprints
        | some m ↦ record_ip (concat "marker:" m) p.facts.ip clock p.now fingerprints
      ];
    }

abbrev pub first_of : Detection → List Detection → Detection
first_of d [] = d
first_of d (e ∷ es) = e

abbrev pub context_of : Pass → Detection → List Detection → ℕ → PolicyContext
context_of p first sorted prior = record {
  detection = first_of first sorted;
  detections = sorted;
  ip = p.facts.ip;
  path = p.facts.path;
  method = some p.facts.method;
  score = some (combined_score sorted);
  total_score = prior + combined_score sorted;
  confidence = some (confidence_of sorted);
  tracker = p.tracker;
}

abbrev pub result_of : Pass → List Detection → ℕ → ResponseDecision → Served → EvaluationResult
result_of p sorted prior d s = record {
  detections = sorted;
  score = combined_score sorted;
  total_score = prior + combined_score sorted;
  action_id = s.action_id;
  fingerprint = p.fingerprint;
  path = p.facts.path;
  downgraded_from = s.downgraded_from;
  rule = some d.rule;
  reason = said s.reason;
  marker = p.marker;
  confidence = confidence_of sorted;
  shadow_detections = p.findings.shadow_detections;
  service_token = none;
}

abbrev pub hit_of : (ℕ → String) → String → Pass → EvaluationResult → HoneypotHit
hit_of iso new_id p r = record {
  id = new_id;
  timestamp = iso p.now;
  ip = p.facts.ip;
  method = p.facts.method;
  path = p.facts.path;
  fingerprint = some p.fingerprint;
  marker = p.marker;
  confidence = some r.confidence;
  detections = r.detections;
  shadow_detections = r.shadow_detections;
  score = r.score;
  total_score = r.total_score;
  responded_with = r.action_id;
  rule = r.rule;
  reason = r.reason;
  downgraded_from = r.downgraded_from;
}

module _ (decode : List ℕ → Option (List ℕ)) where
  -- The facts that the detectors see: the path normalised, the target as sent where that changed it,
  -- and the query bounded.
  unfoldable pub prepare : RequestFacts → RequestFacts
  prepare input =
      let path = normalize_path decode input.path in
      let (query, dropped) = bounded_query input.query in
      let changed = not (same_units path input.path) in
      record input {
        path = path;
        query = query;
        raw_path = elim input.raw_path [
          | some raw ↦ some raw
          | none ↦ if changed then some (take max_raw_path_chars input.path) else none
        ];
        query_params_dropped = elim dropped [
          | zero ↦ input.query_params_dropped
          | suc n ↦ some (suc n)
        ];
      }

module _ (decode : List ℕ → Option (List ℕ)) (iso : ℕ → String) (new_id : String)
    (fingerprint_of : RequestFacts → String) where
  -- The pass that commits: the failures are counted, and the hit is recorded and announced.
  unfoldable pub commit : Pass → EvaluationResult → HoneypotEngine → HoneypotEngine
  commit p result e =
      let hit = hit_of iso new_id p result in
      record (settle p.findings.failed e) {
        store = record_hit hit e.store;
        published = e.published ++ hit ∷ [];
      }

  -- Something fired, and the policy decides.
  unfoldable pub flagged_result :
      EvaluateOptions → Pass → ℕ → Detection → HoneypotEngine → EvaluationResult × HoneypotEngine
  flagged_result o p clock first e =
      let remembered = if o.record_hit then remember p clock e else e in
      let sorted = sort_by_score p.findings.detections in
      let prior = score_for p.facts.ip remembered.store in
      let decision = decision_of (e.policy (context_of p first sorted prior)) in
      let result = result_of p sorted prior decision (guard o sorted decision) in
      (result, if o.record_hit then commit p result remembered else remembered)

  abbrev pub report_shadow : EvaluateOptions → List Detection → HoneypotEngine → HoneypotEngine
  report_shadow o [] e = e
  report_shadow o (d ∷ ds) e =
      if o.record_hit
      then record e { shadowed_reports = e.shadowed_reports ++ (d ∷ ds) ∷ [] }
      else e

  abbrev pub conclude :
      EvaluateOptions
      → Pass
      → ℕ
      → List Detection
      → HoneypotEngine
      → EvaluationResult × HoneypotEngine
  conclude o p clock [] e = clean_result p e
  conclude o p clock (d ∷ ds) e = flagged_result o p clock d e

  -- The tracker after this request.
  abbrev pub tracked : EvaluateOptions → RequestFacts → ℕ → IpTracker → IpTracker
  tracked o facts clock tracker =
      if o.track_activity
      then record_event facts.method facts.path o.activity_status (or_else o.now clock) tracker
      else tracker

  -- What the detectors find, and the context as they leave it.
  abbrev pub inspected :
      EvaluateOptions → RequestFacts → ℕ → IpTracker → HoneypotEngine → Findings × DetectionContext
  inspected o facts clock tracker e =
      let ctx : DetectionContext = record {
        facts = facts;
        tracker = tracked o facts clock tracker;
        timestamp = or_else o.now clock;
        fingerprint = fingerprint_of facts;
        fingerprint_registry = e.fingerprints;
        verified_crawler = none;
        site = e.site;
        marker = e.read_marker facts.headers;
      } in
      inspect_all e.shadowed clock ctx e.detectors

  -- The tracker, the registry and the profile after the request and the detectors wrote to them.
  abbrev pub with_writes :
      EvaluateOptions → RequestFacts → ℕ → IpTracker → HoneypotEngine → HoneypotEngine
  with_writes o facts clock tracker e =
      let (findings, left) = inspected o facts clock tracker e in
      record e {
        registry = write_back facts.ip left.tracker e.registry;
        fingerprints = left.fingerprint_registry;
        site = left.site;
      }

  abbrev pub pass_of : EvaluateOptions → RequestFacts → ℕ → IpTracker → HoneypotEngine → Pass
  pass_of o facts clock tracker e =
      let (findings, left) = inspected o facts clock tracker e in
      record {
        facts = facts;
        tracker = left.tracker;
        fingerprint = fingerprint_of facts;
        marker = e.read_marker facts.headers;
        now = or_else o.now clock;
        findings = findings;
      }

  -- A request that nothing exempts.
  unfoldable pub inspect_request :
      EvaluateOptions
      → RequestFacts
      → ℕ
      → IpTracker
      → HoneypotEngine
      → EvaluationResult × HoneypotEngine
  inspect_request o facts clock tracker e =
      let p = pass_of o facts clock tracker e in
      conclude o p clock p.findings.detections
        (report_shadow o p.findings.shadow_detections (with_writes o facts clock tracker e))

  abbrev pub exempted :
      EvaluateOptions
      → RequestFacts
      → String
      → Option String
      → HoneypotEngine
      → EvaluationResult × HoneypotEngine
  exempted o facts reason token e = (
    record without_score {
      fingerprint = fingerprint_of facts;
      path = facts.path;
      service_token = token;
    },
    if o.audit then count_bypass reason e else e,
  )

  -- The exemptions come first.
  abbrev pub dispatch :
      Bool
      → Option String
      → EvaluateOptions
      → RequestFacts
      → ℕ
      → IpTracker
      → HoneypotEngine
      → EvaluationResult × HoneypotEngine
  dispatch true token o facts clock tracker e = exempted o facts "allowlist" none e
  dispatch false (some token) o facts clock tracker e =
      exempted o facts "service-token" (some token) e
  dispatch false none o facts clock tracker e = inspect_request o facts clock tracker e

  unfoldable pub evaluate :
      EvaluateOptions → RequestFacts → ℕ → HoneypotEngine → EvaluationResult × HoneypotEngine
  evaluate o input clock e =
      let facts = prepare decode input in
      let (tracker, registry) = tracker_for facts.ip clock e.registry in
      dispatch (e.allows facts.ip) (e.identify facts.headers) o facts clock tracker
        (record e { registry = registry })
