-- ===== src/Engine/Detecting.antt =====
-- src/core.ts: the loop of `evaluate` that runs every detector over a request.
use hackerpot.Common.{
  ℕ, ◌+◌, ◌≡◌, refl, ap, String, Bool, true, false, List, [], ◌∷◌, All, map, or_else, lookup,
  insert,
}
use hackerpot.Activity.Fingerprints.{FingerprintRegistry}
use hackerpot.Evidence.{Detection}
use hackerpot.Policy.{mem_str}
use hackerpot.Engine.{Detector, DetectionContext, Inspection, threw, quiet, found}

-- What the detectors found, each list in the order of the detectors.
pub record Findings : Type 0 where
  pub detections : List Detection
  pub shadow_detections : List Detection
  pub failed : List String

abbrev no_findings : Findings
no_findings = record { detections = []; shadow_detections = []; failed = [] }

-- One round: a detector that threw is noted and skipped, and a shadowed one is set apart.
unfoldable pub note_inspection : String → Bool → Inspection → Findings → Findings
note_inspection id is_shadowed threw f = record f { failed = id ∷ f.failed }
note_inspection id is_shadowed quiet f = f
note_inspection id true (found d) f = record f { shadow_detections = d ∷ f.shadow_detections }
note_inspection id false (found d) f = record f { detections = d ∷ f.detections }

-- The loop: each detector is given the context as those before it left it.
unfoldable pub inspect_all :
    List String → ℕ → DetectionContext → List Detector → Findings × DetectionContext
unfolding note_inspection
inspect_all shadowed clock ctx [] = (no_findings, ctx)
inspect_all shadowed clock ctx (d ∷ ds) =
    let (inspection, left) = d.inspect clock ctx in
    let (rest, last) = inspect_all shadowed clock left ds in
    (note_inspection d.id (mem_str shadowed d.id) inspection rest, last)

-- The counts of `detectorFailures`, raised once for each failure.
unfoldable pub count_failures : List String → List (String × ℕ) → List (String × ℕ)
count_failures [] counts = counts
count_failures (id ∷ ids) counts =
    count_failures ids (insert id (or_else (lookup id counts) 0 + 1) counts)

abbrev pub hushed : Inspection → Inspection
hushed threw = quiet
hushed quiet = quiet
hushed (found d) = found d

-- A detector that finds nothing where the other throws, and writes the same.
abbrev pub hush : Detector → Detector
hush d = record {
  id = d.id;
  inspect = λ clock ctx. (hushed (d.inspect clock ctx).0, (d.inspect clock ctx).1);
}

-- What a request can be told of the findings, apart from the failures.
abbrev SameFindings : Findings → Findings → Type 0
SameFindings f g = (f.detections ≡ g.detections) × (f.shadow_detections ≡ g.shadow_detections)

note_inspection-hushed :
    (id : String) (s : Bool) (i : Inspection) (f g : Findings)
    → SameFindings f g
    → SameFindings (note_inspection id s i f) (note_inspection id s (hushed i) g)
unfolding note_inspection
note_inspection-hushed id s threw f g h = h
note_inspection-hushed id s quiet f g h = h
note_inspection-hushed id true (found d) f g h = (h.0, ap (λ ds. d ∷ ds) h.1)
note_inspection-hushed id false (found d) f g h = (ap (λ ds. d ∷ ds) h.0, h.1)

note_inspection-failed :
    (id : String) (s : Bool) (i : Inspection) (f : Findings)
    → f.failed ≡ []
    → (note_inspection id s (hushed i) f).failed ≡ []
unfolding note_inspection
note_inspection-failed id s threw f h = h
note_inspection-failed id s quiet f h = h
note_inspection-failed id true (found d) f h = h
note_inspection-failed id false (found d) f h = h

-- A throw costs no more than what its detector would have found: the findings, shadowed or not, and what
-- the detectors leave of all they share are those of detectors that find nothing where these throw and
-- write the same, wherever the throws fall; and those fail nowhere.
pub inspect_all-hush :
    (shadowed : List String) (clock : ℕ) (ctx : DetectionContext) (ds : List Detector)
    → ((inspect_all shadowed clock ctx ds).0.detections
        ≡ (inspect_all shadowed clock ctx (map hush ds)).0.detections)
      × ((inspect_all shadowed clock ctx ds).0.shadow_detections
          ≡ (inspect_all shadowed clock ctx (map hush ds)).0.shadow_detections)
      × ((inspect_all shadowed clock ctx ds).1 ≡ (inspect_all shadowed clock ctx (map hush ds)).1)
      × ((inspect_all shadowed clock ctx (map hush ds)).0.failed ≡ [])
unfolding inspect_all
inspect_all-hush shadowed clock ctx [] = (refl, refl, refl, refl)
inspect_all-hush shadowed clock ctx (d ∷ ds) =
    let (inspection, left) = d.inspect clock ctx in
    let (found_alike, set_apart, same_end, unfailing) = inspect_all-hush shadowed clock left ds in
    let here = (inspect_all shadowed clock left ds).0 in
    let there = (inspect_all shadowed clock left (map hush ds)).0 in
    let s = mem_str shadowed d.id in
    let both = note_inspection-hushed d.id s inspection here there (found_alike, set_apart) in
    (both.0, both.1, same_end, note_inspection-failed d.id s inspection there unfailing)

-- Whatever the detector does, the registry of fingerprints still satisfies a predicate that it did.
abbrev pub Keeps : (FingerprintRegistry → Type 0) → Detector → Type 0
Keeps P d =
    (clock : ℕ) (ctx : DetectionContext)
    → P ctx.fingerprint_registry
    → P (d.inspect clock ctx).1.fingerprint_registry

pub inspect_all-Keeps :
    (P : FingerprintRegistry → Type 0) (shadowed : List String) (clock : ℕ) (ctx : DetectionContext)
    (ds : List Detector)
    → All (Keeps P) ds
    → P ctx.fingerprint_registry
    → P (inspect_all shadowed clock ctx ds).1.fingerprint_registry
unfolding inspect_all
inspect_all-Keeps P shadowed clock ctx [] keeps p = p
inspect_all-Keeps P shadowed clock ctx (d ∷ ds) keeps p =
    inspect_all-Keeps P shadowed clock (d.inspect clock ctx).1 ds keeps.1 (keeps.0 clock ctx p)
