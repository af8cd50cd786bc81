-- ===== src/Detectors/Objects.antt =====
-- src/detectors: the detectors as the objects that the engine runs over the shared context. A volume
-- detector prunes the tracker that it reads, and the detectors of rotation prune the registry.
use hackerpot.Common.{ℕ, String, Bool, Option, none, some, List}
use hackerpot.Store.{is_some}
use hackerpot.Evidence.{Detection}
use hackerpot.Activity.Unlisted.{IsUnlisted, ips_within-IsUnlisted}
use hackerpot.Engine.{DetectionContext, Detector, Inspection, quiet, found}
use hackerpot.Engine.Detecting.{Keeps}
use hackerpot.Site.{SiteProfile}
use hackerpot.Detectors.{
  VolumeOptions, PathNoveltyOptions, rate_spike, path_bruteforce, credential_bruteforce,
  repeat_actor, marker_drift, path_novelty,
}

abbrev pub inspection : Option Detection → Inspection
inspection none = quiet
inspection (some d) = found d

abbrev is_verified : DetectionContext → Bool
is_verified ctx = is_some ctx.verified_crawler

abbrev pub rate_spike_detector : (ℕ → String) → VolumeOptions → Detector
rate_spike_detector say o = record {
  id = "rate-spike";
  inspect = λ clock ctx.
      let (answer, tracker) = rate_spike say o (is_verified ctx) ctx.timestamp ctx.tracker in
      (inspection answer, record ctx { tracker = tracker });
}

abbrev pub path_bruteforce_detector : (ℕ → String) → VolumeOptions → Detector
path_bruteforce_detector say o = record {
  id = "path-bruteforce";
  inspect = λ clock ctx.
      let (answer, tracker) = path_bruteforce say o (is_verified ctx) ctx.timestamp ctx.tracker in
      (inspection answer, record ctx { tracker = tracker });
}

abbrev pub credential_bruteforce_detector :
    (ℕ → String) → (List ℕ → List ℕ) → (List ℕ → Bool) → VolumeOptions → Detector
credential_bruteforce_detector say upper is_auth o = record {
  id = "credential-bruteforce";
  inspect = λ clock ctx.
      let (answer, tracker) =
        credential_bruteforce say upper is_auth o ctx.facts.method ctx.facts.path ctx.timestamp
          ctx.tracker in
      (inspection answer, record ctx { tracker = tracker });
}

abbrev pub repeat_actor_detector : (List String → ℕ → String) → VolumeOptions → Detector
repeat_actor_detector say o = record {
  id = "repeat-actor";
  inspect = λ clock ctx.
      let (answer, registry) =
        repeat_actor say o ctx.facts.ip ctx.fingerprint clock ctx.timestamp
          ctx.fingerprint_registry in
      (inspection answer, record ctx { fingerprint_registry = registry });
}

abbrev pub marker_drift_detector : (List String → ℕ → String) → VolumeOptions → Detector
marker_drift_detector say o = record {
  id = "marker-drift";
  inspect = λ clock ctx.
      let (answer, registry) =
        marker_drift say o ctx.facts.ip ctx.marker clock ctx.timestamp ctx.fingerprint_registry in
      (inspection answer, record ctx { fingerprint_registry = registry });
}

module _ (text : List ℕ → String) (clip : String → String) (say : ℕ → ℕ → String) where
  abbrev pub over_site :
      PathNoveltyOptions → ℕ → DetectionContext → Option SiteProfile → Inspection × DetectionContext
  over_site o clock ctx none = (quiet, ctx)
  over_site o clock ctx (some site) =
      let (answer, tracker) =
        path_novelty text clip say o site (is_verified ctx) ctx.facts.path clock ctx.timestamp
          ctx.tracker in
      (inspection answer, record ctx { tracker = tracker })

  abbrev pub path_novelty_detector : PathNoveltyOptions → Detector
  path_novelty_detector o = record {
    id = "path-novelty";
    inspect = λ clock ctx. over_site o clock ctx ctx.site;
  }

-- The detectors of rotation list no address that was not listed.
pub repeat_actor_detector-Keeps :
    (say : List String → ℕ → String) (o : VolumeOptions) (fp ip : String)
    → Keeps (IsUnlisted fp ip) (repeat_actor_detector say o)
unfolding repeat_actor
repeat_actor_detector-Keeps say o fp ip clock ctx p =
    ips_within-IsUnlisted fp ip ctx.fingerprint o.window_ms clock ctx.timestamp
      ctx.fingerprint_registry p
