-- ===== src/Detectors/Rotating.antt =====
-- src/detectors/repeat-actor.ts, src/detectors/marker-drift.ts: one actor at several addresses.
use hackerpot.Common.{
  ℕ, ◌+◌, ◌≡◌, sym, ap, ◌∙◌, String, true, false, some, List, [], ◌∷◌, ◌++◌, leb, length, any, keep,
  not, none, refl, All, str_eq, str_eq_self, length-append,
}
use hackerpot.Activity.Fingerprints.{create}
use hackerpot.Activity.Unlisted
use hackerpot.Detectors.{VolumeOptions, judge_actor, judge_drift, repeat_actor}
use hackerpot.Detectors.Volume.{is_found, judged-found}

abbrev others : String → List String → List String
others ip = keep (λ other. not (str_eq other ip))

-- An address that the registry lists is judged alike by both detectors.
judge_drift-listed :
    (say say' : List String → ℕ → String) (o : VolumeOptions) (ip : String) (seen : List String)
    → any (str_eq ip) seen ≡ true
    → is_found (judge_drift say o ip seen) ≡ is_found (judge_actor say' o ip seen)
unfolding judge_drift judge_actor
judge_drift-listed say say' o ip seen listed = rw listed (
    judged-found "marker-drift" (some "actor-rotation") (say (others ip seen)) o (length seen)
    ∙ sym (
        judged-found "repeat-actor" (some "actor-rotation") (say' (others ip seen)) o
          (length seen)))

-- An address that is not listed counts itself for the marker.
judge_drift-unlisted :
    (say : List String → ℕ → String) (o : VolumeOptions) (ip : String) (seen : List String)
    → any (str_eq ip) seen ≡ false
    → is_found (judge_drift say o ip seen) ≡ leb o.threshold (length seen + 1)
unfolding judge_drift
judge_drift-unlisted say o ip seen absent = rw absent (
    judged-found "marker-drift" (some "actor-rotation") (say (others ip (seen ++ ip ∷ []))) o
      (length (seen ++ ip ∷ []))
    ∙ ap (leb o.threshold) (length-append seen (ip ∷ [])))

judge_actor-unlisted :
    (say : List String → ℕ → String) (o : VolumeOptions) (ip : String) (seen : List String)
    → any (str_eq ip) seen ≡ false
    → judge_actor say o ip seen ≡ none
unfolding judge_actor
judge_actor-unlisted say o ip seen absent = rw absent refl

-- An address that was never recorded under its fingerprint is not flagged, whatever was recorded and
-- asked before: under other fingerprints, for other addresses, or both, and however many they are.
pub repeat_actor-unrecorded :
    (say : List String → ℕ → String) (o : VolumeOptions) (ip fp : String) (window tracked : ℕ)
    (calls : List Unlisted.Call) (clock now : ℕ)
    → All (λ c. Unlisted.is_unrelated fp ip c ≡ true) calls
    → (repeat_actor say o ip fp clock now (Unlisted.run calls (create window tracked))).0 ≡ none
unfolding repeat_actor create
repeat_actor-unrecorded say o ip fp window tracked calls clock now unrelated =
    let r = Unlisted.run calls (create window tracked) in
    let unlisted = Unlisted.run-IsUnlisted fp ip calls (create window tracked) unrelated tt in
    judge_actor-unlisted say o ip _
      (Unlisted.ips_within-absent fp ip o.window_ms clock now r (str_eq_self fp) unlisted)
