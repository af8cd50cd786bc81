-- ===== src/Examples/Requests.antt =====
-- The engine, the policy and the evidence on small requests.
use hackerpot.Common.{
  ℕ, ◌≡◌, ◌≢◌, ◌≤◌, ◌<◌, ◌+◌, ◌*◌, ◌⊎◌, ◌↔◌, refl, ap, String, Bool, List, [], ◌∷◌, ◌++◌, Option,
  none, some, arith, str_eq, str_eq_self, false, true, any, ltb, zero, suc, length, map, ◌-◌, ◌&&◌,
  if◌then◌else◌,
}
use hackerpot.Evidence.{Detection, confidence_of}
use hackerpot.Evidence.Confidence.{is_proof, confidence_of-proof}
use hackerpot.Activity.{IpTracker, seen}
use hackerpot.Activity.Registry as Registry
use hackerpot.Activity.Fingerprints as Fingerprints
use hackerpot.Policy.{
  PolicyContext, bare, decided, sentence, Rule, spec, match_all, matches, decide, run_rules,
  has_proof, ResponsePolicy, compile_match,
}
use hackerpot.Policy.Rules.{rule_policy, HasOwnIds, check_rules, is_blank, rule_policy_sound}
use hackerpot.Policy.Presets.{protect_app, protect_app-block}
use hackerpot.Store as Store
use hackerpot.Store.{score_for}
use hackerpot.Engine.{
  RequestFacts, DetectionContext, found, threw, Detector, EvaluateOptions, HoneypotEngine,
  EvaluationResult,
}
use hackerpot.Activity.Unlisted.{IsUnlisted}
use hackerpot.Lru as Lru
use hackerpot.Detectors.{VolumeOptions, rate_spike, repeat_actor}
use hackerpot.Detectors.Objects.{
  rate_spike_detector, repeat_actor_detector, repeat_actor_detector-Keeps,
}
use hackerpot.Engine.Scoring.{sort_by_score}
use hackerpot.Engine.Detecting.{inspect_all, hush, inspect_all-hush}
use hackerpot.Engine.Evaluating.{evaluate, prepare, inspect_request, flagged_result, guard}
use hackerpot.Engine.Guard.{evaluate-block}
use hackerpot.Engine.Effects.{evaluate-score, evaluate-unrecorded}
use hackerpot.Engine.Proxy.{
  ResolvedProxy, choose, resolve_ip, choose-last_untrusted, resolve_ip-truncated,
}

abbrev suspicion : Detection
suspicion = record {
  detector = "path-bruteforce";
  summary = "";
  score = 8;
  respond_with = none;
  is_certain = false;
  family = some "path-probing";
  certainty = none;
  tier = none;
}

abbrev proof : Detection
proof = record suspicion { detector = "honeytoken"; score = 20; is_certain = true; family = none }

confidence_of-proof_example :
    ((any is_proof (suspicion ∷ proof ∷ []) ≡ true)
      × (confidence_of (suspicion ∷ proof ∷ []) ≡ record { num = 1; den = 1 }))
    ⊎ ((any is_proof (suspicion ∷ proof ∷ []) ≡ false)
        × (20 * (confidence_of (suspicion ∷ proof ∷ [])).num
            ≤ 19 * (confidence_of (suspicion ∷ proof ∷ [])).den)
        × (0 < (confidence_of (suspicion ∷ proof ∷ [])).den))
confidence_of-proof_example = confidence_of-proof (suspicion ∷ proof ∷ [])

abbrev tracker : IpTracker
tracker = record { ip = "198.51.100.7"; events = []; window_ms = 60; max_events = 4096 }

abbrev context : List Detection → ℕ → PolicyContext
context ds total = record {
  detection = suspicion;
  detections = ds;
  ip = "198.51.100.7";
  path = 47 ∷ [];
  score = some 8;
  method = none;
  confidence = none;
  total_score = total;
  tracker = tracker;
}

abbrev ascii_upper : List ℕ → List ℕ
ascii_upper = map (λ c. if ltb 96 c && ltb c 123 then c - 32 else c)

abbrev no_addresses : List String → String → Bool
no_addresses entries ip = false

abbrev to_pass : ResponsePolicy
to_pass c = bare "pass"

ne-block : (s : String) → str_eq s "block" ≡ false → s ≢ "block"
ne-block s h e = cc (h, str_eq_self "block", ap (λ (x : String). str_eq x "block") e)

protect_app-block_example :
    ((run_rules ascii_upper no_addresses protect_app to_pass
        (sentence "")
        (context (proof ∷ []) 20)).action_id
      ≡ "block")
    ↔ (has_proof (proof ∷ []) ≡ true)
protect_app-block_example =
    protect_app-block ascii_upper no_addresses to_pass (sentence "") (context (proof ∷ []) 20)
      (ne-block "pass" refl) (λ e. cc e)

abbrev block_certain : Rule
block_certain = record {
  id = "certain";
  match = spec (record match_all { certain = some true });
  respond_with = "block";
  fallback_action = none;
  reason = none;
}

abbrev pass_rest : Rule
pass_rest = record block_certain { id = "rest"; match = spec match_all; respond_with = "pass" }

abbrev two_rules : List Rule
two_rules = block_certain ∷ pass_rest ∷ []

rule_policy_sound_example :
    HasOwnIds [] two_rules
    × (decided (
          run_rules ascii_upper no_addresses two_rules to_pass
            (sentence "")
            (context (suspicion ∷ []) 8))
        ≡ decided (decide ascii_upper no_addresses pass_rest (context (suspicion ∷ []) 8)))
    × ((decide ascii_upper no_addresses pass_rest (context (suspicion ∷ []) 8)).rule ≡ "rest")
rule_policy_sound_example =
    rule_policy_sound ascii_upper no_addresses two_rules to_pass (sentence "")
      (λ c. decided (run_rules ascii_upper no_addresses two_rules to_pass (sentence "") c))
      (block_certain ∷ []) pass_rest [] (context (suspicion ∷ []) 8)
      (unfold rule_policy check_rules is_blank in refl) refl
      (unfold matches compile_match in (refl, tt)) (unfold matches compile_match in refl)

abbrev volume : ℕ → VolumeOptions
volume threshold = record { window_ms = 60; threshold = threshold; score = 7; respond_with = none }

-- A detector that throws once it has verified a crawler.
abbrev broken : Detector
broken = record {
  id = "broken";
  inspect = λ clock ctx. (threw, record ctx { verified_crawler = some "crawler" });
}

abbrev constantly : String → Detection → Detector
constantly id d = record { id = id; inspect = λ clock ctx. (found d, ctx) }

-- A detector that throws, one that would flag any request, but for verified crawlers, one that reads and
-- prunes the registry, one that finds something, and one that is shadowed.
abbrev detectors : List Detector
detectors =
    broken
    ∷ rate_spike_detector (λ n. "fast") (volume 1)
    ∷ repeat_actor_detector (λ others n. "rotating") (volume 3)
    ∷ constantly "path-bruteforce" suspicion
    ∷ constantly "trial" proof
    ∷ []

abbrev engine : HoneypotEngine
engine = record {
  detectors = detectors;
  actions = "block" ∷ "tarpit" ∷ "pass" ∷ [];
  policy = λ c. bare "block";
  shadowed = "trial" ∷ [];
  allows = λ ip. str_eq ip "192.0.2.1";
  identify = λ h. none;
  read_marker = λ h. none;
  store = Store.create 10 10;
  registry = Registry.create 60 10 4096;
  fingerprints = Fingerprints.create 3600 10;
  site = none;
  detector_failures = [];
  bypassed = [];
  published = [];
  shadowed_reports = [];
}

abbrev proven_engine : HoneypotEngine
proven_engine = record engine { shadowed = [] }

abbrev facts_of : String → RequestFacts
facts_of ip = record {
  method = [];
  path = 47 ∷ [];
  query = [];
  headers = [];
  ip = ip;
  raw_path = none;
  query_params_dropped = none;
}

abbrev guarded : EvaluateOptions
guarded = record {
  track_activity = true;
  record_hit = true;
  activity_status = seen;
  block_requires_proof = true;
  unproven_block_fallback = none;
  now = none;
  audit = true;
}

abbrev run_on : EvaluateOptions → String → HoneypotEngine → EvaluationResult × HoneypotEngine
run_on o ip e = evaluate (λ p. some p) (λ t. "now") "id" (λ f. "fp") o (facts_of ip) 10 e

-- A suspicion alone is slowed down instead.
suspicion_is_slowed : (run_on guarded "198.51.100.7" engine).0.action_id ≡ "tarpit"
unfolding evaluate prepare inspect_request inspect_all flagged_result guard sort_by_score rate_spike
    repeat_actor Fingerprints.ips_within Lru.get Fingerprints.create
suspicion_is_slowed = refl

proof_is_blocked : (run_on guarded "198.51.100.7" proven_engine).0.action_id ≡ "block"
unfolding evaluate prepare inspect_request inspect_all flagged_result guard sort_by_score rate_spike
    repeat_actor Fingerprints.ips_within Lru.get Fingerprints.create
proof_is_blocked = refl

evaluate-block_example : has_proof (run_on guarded "198.51.100.7" proven_engine).0.detections ≡ true
evaluate-block_example =
    evaluate-block (λ p. some p) (λ t. "now") "id" (λ f. "fp") guarded (facts_of "198.51.100.7") 10
      proven_engine refl (λ e. cc e) proof_is_blocked

evaluate-score_example :
    ((run_on guarded "198.51.100.7" engine).0.total_score
      ≡ score_for "198.51.100.7" (run_on guarded "198.51.100.7" engine).1.store)
    × ((run_on guarded "198.51.100.7" engine).0.total_score
        ≡ score_for "198.51.100.7" engine.store + (run_on guarded "198.51.100.7" engine).0.score)
evaluate-score_example =
    evaluate-score (λ p. some p) (λ t. "now") "id" (λ f. "fp") guarded (facts_of "198.51.100.7") 10
      engine refl refl refl

abbrev deferred : EvaluateOptions
deferred = record guarded { record_hit = false }

-- Another address was recorded under the fingerprint before.
abbrev known_engine : HoneypotEngine
known_engine = record engine {
  fingerprints = Fingerprints.record_ip "fp" "203.0.113.9" 5 5 engine.fingerprints;
}

abbrev IsNew : Fingerprints.FingerprintRegistry → Type 0
IsNew = IsUnlisted "fp" "198.51.100.7"

known-IsUnlisted : IsNew known_engine.fingerprints
unfolding Fingerprints.create Fingerprints.record_ip Fingerprints.add_ip Lru.set Lru.get_or_create
    Lru.get
known-IsUnlisted = ((λ same. refl), tt)

evaluate-unrecorded_example :
    ((run_on deferred "198.51.100.7" known_engine).1.store ≡ known_engine.store)
    × ((run_on deferred "198.51.100.7" known_engine).1.published ≡ known_engine.published)
    × ((run_on deferred "198.51.100.7" known_engine).1.shadowed_reports
        ≡ known_engine.shadowed_reports)
    × IsNew (run_on deferred "198.51.100.7" known_engine).1.fingerprints
evaluate-unrecorded_example =
    evaluate-unrecorded (λ p. some p) (λ t. "now") "id" (λ f. "fp") IsNew deferred
      (facts_of "198.51.100.7") 10 known_engine refl
      (
        (λ clock ctx p. p),
        (
          (λ clock ctx p. p),
          (
            repeat_actor_detector-Keeps (λ others n. "rotating") (volume 3) "fp" "198.51.100.7",
            ((λ clock ctx p. p), ((λ clock ctx p. p), tt)),
          ),
        ),
      )
      known-IsUnlisted

abbrev seen_by : DetectionContext
seen_by = record {
  facts = facts_of "198.51.100.7";
  tracker = tracker;
  timestamp = 10;
  fingerprint = "fp";
  fingerprint_registry = engine.fingerprints;
  verified_crawler = none;
  site = none;
  marker = none;
}

inspect_all-hush_example :
    ((inspect_all ("trial" ∷ []) 10 seen_by detectors).0.detections
      ≡ (inspect_all ("trial" ∷ []) 10 seen_by (map hush detectors)).0.detections)
    × ((inspect_all ("trial" ∷ []) 10 seen_by detectors).0.shadow_detections
        ≡ (inspect_all ("trial" ∷ []) 10 seen_by (map hush detectors)).0.shadow_detections)
    × ((inspect_all ("trial" ∷ []) 10 seen_by detectors).1
        ≡ (inspect_all ("trial" ∷ []) 10 seen_by (map hush detectors)).1)
    × ((inspect_all ("trial" ∷ []) 10 seen_by (map hush detectors)).0.failed ≡ [])
inspect_all-hush_example = inspect_all-hush ("trial" ∷ []) 10 seen_by detectors

-- Addresses as numbers: below ten are the proxies.
abbrev own : ℕ → Bool
own n = ltb n 10

abbrev behind : ResolvedProxy ℕ
behind = record { trust_proxy = true; trusted = some own; hops = 1 }

choose-last_untrusted_example : choose behind (some 1) 1 ((77 ∷ []) ++ 42 ∷ 2 ∷ []) ≡ 42
choose-last_untrusted_example =
    choose-last_untrusted behind own (some 1) 1 42 (77 ∷ []) (2 ∷ []) refl refl refl (refl, tt)

-- A header that its sender filled with commas.
abbrev commas : ℕ → List ℕ
commas zero = []
commas (suc n) = 44 ∷ commas n

length-commas : (n : ℕ) → length (commas n) ≡ n
length-commas zero = refl
length-commas (suc n) = ap suc (length-commas n)

abbrev one_digit : List ℕ → Option ℕ
one_digit [] = none
one_digit (c ∷ cs) = some c

resolve_ip-truncated_example :
    resolve_ip one_digit behind (some 1) 1 (some (commas 2048 ++ 57 ∷ []))
    ≡ resolve_ip one_digit behind (some 1) 1 (some (commas 2048))
resolve_ip-truncated_example =
    resolve_ip-truncated one_digit behind (some 1) 1 (commas 2048) (57 ∷ [])
      (omega (arith, length-commas 2048))
