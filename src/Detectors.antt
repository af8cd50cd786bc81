-- ===== src/Detectors.antt =====
-- src/detectors: the detectors that read the activity of an address (rate-spike.ts,
-- path-bruteforce.ts, credential-bruteforce.ts), the addresses of a fingerprint (repeat-actor.ts) or of
-- a marker (marker-drift.ts), and the site profile (path-novelty.ts). A query of a tracker prunes it, so
-- that it is handed back. The sentence of a finding is an argument: `say` of its numbers. `clock` is what
-- the registry or the profile reads as its time, and `now` is the time of the request.
pub mod Volume
pub mod Novelty
pub mod Rotating
pub mod Objects
use Prim.Native.String.{◌++◌ as text_append}
use hackerpot.Common.{
  ℕ, zero, suc, ◌+◌, ◌-◌, ◌*◌, ◌/◌, String, Bool, true, false, Option, none, some, List, [], ◌∷◌,
  ◌++◌, ltb, leb, ◌==◌, ◌&&◌, ◌||◌, not, if◌then◌else◌, length, any, keep, str_eq, same_units,
  mem_units,
}
use hackerpot.Activity.{
  IpTracker, RequestEvent, count_in, unique_paths_in, count_path_in, recent, within, add_path,
}
use hackerpot.Activity.Fingerprints.{FingerprintRegistry, ips_within}
use hackerpot.Evidence.{Detection}
use hackerpot.Site.{SiteProfile, is_warm, is_served, walkers}

-- What the options of a volume detector say, once the defaults are filled in.
pub record VolumeOptions : Type 0 where
  pub window_ms : ℕ
  pub threshold : ℕ
  pub score : ℕ
  pub respond_with : Option String

abbrev pub finding : String → Option String → String → VolumeOptions → ℕ → Detection
finding id family summary o score = record {
  detector = id;
  summary = summary;
  score = score;
  respond_with = o.respond_with;
  is_certain = false;
  family = family;
  certainty = none;
  tier = none;
}

abbrev pub judged : String → Option String → (ℕ → String) → VolumeOptions → ℕ → Option Detection
judged id family say o n =
    if ltb n o.threshold then none else some (finding id family (say n) o o.score)

-- `rateSpikeDetector`; a verified crawler is let through before the tracker is read.
unfoldable pub rate_spike :
    (ℕ → String) → VolumeOptions → Bool → ℕ → IpTracker → Option Detection × IpTracker
rate_spike say o true now t = (none, t)
rate_spike say o false now t =
    let (n, t') = count_in o.window_ms now t in (judged "rate-spike" none say o n, t')

-- `pathBruteforceDetector`.
unfoldable pub path_bruteforce :
    (ℕ → String) → VolumeOptions → Bool → ℕ → IpTracker → Option Detection × IpTracker
path_bruteforce say o true now t = (none, t)
path_bruteforce say o false now t =
    let (n, t') = unique_paths_in o.window_ms now t in
    (judged "path-bruteforce" (some "path-probing") say o n, t')

abbrev pub is_submission : List ℕ → Bool
is_submission method =
    same_units method (80 ∷ 79 ∷ 83 ∷ 84 ∷ [])
    || (same_units method (80 ∷ 85 ∷ 84 ∷ []) || same_units method (80 ∷ 65 ∷ 84 ∷ 67 ∷ 72 ∷ []))

-- `credentialBruteforceDetector` once the method and the path are tested.
unfoldable pub count_attempts :
    (ℕ → String) → VolumeOptions → Bool → List ℕ → ℕ → IpTracker → Option Detection × IpTracker
count_attempts say o false path now t = (none, t)
count_attempts say o true path now t =
    let (n, t') = count_path_in path o.window_ms now t in
    (judged "credential-bruteforce" none say o n, t')

-- `credentialBruteforceDetector`. `upper` is `toUpperCase`, and `is_auth` the test of the pattern of
-- authentication paths.
unfoldable pub credential_bruteforce :
    (ℕ → String)
    → (List ℕ → List ℕ)
    → (List ℕ → Bool)
    → VolumeOptions
    → List ℕ
    → List ℕ
    → ℕ
    → IpTracker
    → Option Detection × IpTracker
unfolding count_attempts
credential_bruteforce say upper is_auth o method path now t =
    count_attempts say o (is_submission (upper method) && is_auth path) path now t

-- `repeatActorDetector` on the addresses that the registry lists.
unfoldable pub judge_actor :
    (List String → ℕ → String) → VolumeOptions → String → List String → Option Detection
judge_actor say o ip seen =
    if any (str_eq ip) seen
    then judged "repeat-actor" (some "actor-rotation")
        (say (keep (λ other. not (str_eq other ip)) seen)) o (length seen)
    else none

-- `repeatActorDetector`.
unfoldable pub repeat_actor :
    (List String → ℕ → String)
    → VolumeOptions
    → String
    → String
    → ℕ
    → ℕ
    → FingerprintRegistry
    → Option Detection × FingerprintRegistry
unfolding judge_actor
repeat_actor say o ip fingerprint clock now r =
    let (seen, r') = ips_within fingerprint o.window_ms clock now r in
    (judge_actor say o ip seen, r')

-- The addresses that presented a marker, the one of this request included.
abbrev pub with_this : String → List String → List String
with_this ip earlier = if any (str_eq ip) earlier then earlier else earlier ++ ip ∷ []

-- `markerDriftDetector` on the addresses that the registry lists.
unfoldable pub judge_drift :
    (List String → ℕ → String) → VolumeOptions → String → List String → Option Detection
judge_drift say o ip earlier =
    let seen = with_this ip earlier in
    judged "marker-drift" (some "actor-rotation") (say (keep (λ other. not (str_eq other ip)) seen))
      o (length seen)

-- `markerDriftDetector`. Markers and fingerprints share the registry.
unfoldable pub marker_drift :
    (List String → ℕ → String)
    → VolumeOptions
    → String
    → Option String
    → ℕ
    → ℕ
    → FingerprintRegistry
    → Option Detection × FingerprintRegistry
unfolding judge_drift
marker_drift say o ip none clock now r = (none, r)
marker_drift say o ip (some marker) clock now r =
    let (earlier, r') = ips_within (text_append "marker:" marker) o.window_ms clock now r in
    (judge_drift say o ip earlier, r')

pub record PathNoveltyOptions : Type 0 where
  pub score : ℕ
  pub window_ms : ℕ
  pub unseen_path_threshold : ℕ
  pub walker_threshold : ℕ
  pub min_observations : ℕ
  pub min_served_paths : ℕ
  pub respond_with : Option String

-- `text` is the text of a path, and `clip` that of the site profile.
module _ (text : List ℕ → String) (clip : String → String) where
  -- The paths of recent events that the site does not serve.
  unfoldable pub unseen_paths :
      ℕ → ℕ → ℕ → SiteProfile → List RequestEvent → List (List ℕ) → List (List ℕ)
  unseen_paths clock now ms site [] seen = seen
  unseen_paths clock now ms site (e ∷ es) seen = unseen_paths clock now ms site es (
      if within now ms e && not (is_served clip (text e.path) clock site)
      then add_path e.path seen
      else seen)

  -- `Math.round(score * 1.5)` where both shapes are there.
  abbrev novelty_score : Bool → Bool → ℕ → ℕ
  novelty_score walking distributed score =
      if walking && distributed then (score * 3 + 1) / 2 else score

  unfoldable pub judge_novelty : (ℕ → ℕ → String) → PathNoveltyOptions → ℕ → ℕ → Option Detection
  judge_novelty say o unseen walking_addresses =
      let walking = leb o.unseen_path_threshold unseen in
      let distributed = leb o.walker_threshold walking_addresses in
      if walking || distributed
      then some (record {
        detector = "path-novelty";
        summary = say unseen walking_addresses;
        score = novelty_score walking distributed o.score;
        respond_with = o.respond_with;
        is_certain = false;
        family = some "path-probing";
        certainty = none;
        tier = none;
      })
      else none

  -- `pathNoveltyDetector` once the profile is warm and the path is not served.
  abbrev measure :
      (ℕ → ℕ → String)
      → PathNoveltyOptions
      → SiteProfile
      → List ℕ
      → ℕ
      → ℕ
      → IpTracker
      → Option Detection × IpTracker
  measure say o site path clock now t =
      let (events, t') = recent now t in
      (
        judge_novelty say o (length (unseen_paths clock now o.window_ms site events []))
            (walkers clip (text path) clock site),
        t',
      )

  -- `pathNoveltyDetector` with a profile.
  unfoldable pub path_novelty :
      (ℕ → ℕ → String)
      → PathNoveltyOptions
      → SiteProfile
      → Bool
      → List ℕ
      → ℕ
      → ℕ
      → IpTracker
      → Option Detection × IpTracker
  unfolding unseen_paths judge_novelty
  path_novelty say o site verified_crawler path clock now t =
      if not (is_warm o.min_observations o.min_served_paths site)
        || (verified_crawler || is_served clip (text path) clock site)
      then (none, t)
      else measure say o site path clock now t
