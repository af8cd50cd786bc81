-- ===== src/Engine.antt =====
-- src/core.ts: the engine's evaluation of a request. What it awaits is run to its end in the order of
-- the source, so that one reading of the clock stands for all of an evaluation; the enricher, the labels,
-- `onHit`, the audit and the timing histogram are left out.
pub mod Scoring
pub mod Detecting
pub mod Evaluating
pub mod Guard
pub mod Effects
pub mod Proxy
use hackerpot.Common.{String, Bool, Option, List, ℕ}
use hackerpot.Evidence.{Detection, Ratio}
use hackerpot.Policy.{Reason, ResponsePolicy}
use hackerpot.Activity.{IpTracker, Status}
use hackerpot.Activity.Registry.{ActivityRegistry}
use hackerpot.Activity.Fingerprints.{FingerprintRegistry}
use hackerpot.Site.{SiteProfile}
use hackerpot.Store.{HoneypotHit, MemoryStore}

abbrev pub Headers : Type 0
Headers = List (String × String)

pub record RequestFacts : Type 0 where
  pub method : List ℕ
  pub path : List ℕ
  pub query : List (String × String)
  pub headers : Headers
  pub ip : String
  pub raw_path : Option (List ℕ)
  pub query_params_dropped : Option ℕ

-- The object that the detectors of a request share. The tracker, the registry and the profile are those
-- of the engine, as they stand at the time.
pub record DetectionContext : Type 0 where
  pub facts : RequestFacts
  pub tracker : IpTracker
  pub timestamp : ℕ
  pub fingerprint : String
  pub fingerprint_registry : FingerprintRegistry
  pub verified_crawler : Option String
  pub site : Option SiteProfile
  pub marker : Option String

-- What `inspect` comes to: an exception or a deadline that passed, no finding, or a finding.
pub data Inspection : Type 0 where
  threw : Inspection
  quiet : Inspection
  found : Detection → Inspection

-- `inspect` reads the clock, and hands back the context as it leaves it, also when it throws: what it
-- wrote to the context, and to the tracker, the registry and the profile that the context holds.
pub record Detector : Type 0 where
  pub id : String
  pub inspect : ℕ → DetectionContext → Inspection × DetectionContext

pub record EvaluateOptions : Type 0 where
  pub track_activity : Bool
  pub record_hit : Bool
  pub activity_status : Status
  pub block_requires_proof : Bool
  pub unproven_block_fallback : Option String
  pub now : Option ℕ
  pub audit : Bool

-- `allows` is the allowlist, `identify` names the service token that headers present, `read_marker`
-- verifies a marker; `published` lists what the listeners heard, the oldest first, and `shadowed_reports`
-- the findings handed to `onShadow`.
pub record HoneypotEngine : Type 0 where
  pub detectors : List Detector
  pub actions : List String
  pub policy : ResponsePolicy
  pub shadowed : List String
  pub allows : String → Bool
  pub identify : Headers → Option String
  pub read_marker : Headers → Option String
  pub store : MemoryStore
  pub registry : ActivityRegistry
  pub fingerprints : FingerprintRegistry
  pub site : Option SiteProfile
  pub detector_failures : List (String × ℕ)
  pub bypassed : List (String × ℕ)
  pub published : List HoneypotHit
  pub shadowed_reports : List (List Detection)

pub record EvaluationResult : Type 0 where
  pub detections : List Detection
  pub score : ℕ
  pub total_score : ℕ
  pub action_id : String
  pub fingerprint : String
  pub path : List ℕ
  pub downgraded_from : Option String
  pub rule : Option String
  pub reason : Option Reason
  pub marker : Option String
  pub confidence : Ratio
  pub shadow_detections : List Detection
  pub service_token : Option String
