-- ===== src/Detectors/Volume.antt =====
-- src/detectors: the volume detectors against all that an address has requested.
use hackerpot.Common.{
  ℕ, ◌≤◌, ◌<◌, ◌≡◌, refl, sym, ap, ◌∙◌, String, Bool, true, false, Option, none, some, List, [],
  ◌∷◌, ltb, leb, ◌&&◌, min, max, length, count, arith, All, Bool-cases, inl, inr, lt→ltb,
  same_units, same_units_eq,
}
use hackerpot.Evidence.{Detection}
use hackerpot.Activity.{RequestEvent, IpTracker, create, within, count_path_in, prune}
use hackerpot.Activity.Window.{Sorted}
use hackerpot.Activity.Counts.{replay, count_in-replay}
use hackerpot.Activity.Bounds
use hackerpot.Activity.Bounds.{IsBounded, run-IsBounded, prune-IsBounded}
use hackerpot.Detectors.{
  VolumeOptions, judged, rate_spike, credential_bruteforce, count_attempts, is_submission,
}

abbrev pub is_found : Option Detection → Bool
is_found none = false
is_found (some d) = true

pub judged-found :
    (id : String) (family : Option String) (say : ℕ → String) (o : VolumeOptions) (n : ℕ)
    → is_found (judged id family say o n) ≡ leb o.threshold n
judged-found id family say o n = elim (Bool-cases (ltb n o.threshold)) [
  | inl few ↦ rw few (sym (ground (arith, few)))
  | inr many ↦ rw many (sym (ground (arith, many)))
]

-- For requests recorded in order of time, the rate detector fires for an address that is no verified
-- crawler exactly if the number of all its requests in the span of the detector, which is no longer
-- than the window of the tracker, cut off at the ceiling of the tracker, reaches the threshold: nothing
-- that the tracker dropped or pruned makes a difference.
pub rate_spike-history :
    (say : ℕ → String) (o : VolumeOptions) (ip : String) (window cap : ℕ)
    (history : List RequestEvent) (now : ℕ)
    → Sorted history
    → All (λ e. e.at ≤ now) history
    → o.window_ms ≤ window
    → is_found (rate_spike say o false now (replay history (create ip window cap))).0
      ≡ leb o.threshold (min (max 1 cap) (count (within now o.window_ms) history))
unfolding rate_spike
rate_spike-history say o ip window cap history now sorted past narrow =
    judged-found "rate-spike" none say o _
    ∙ ap (leb o.threshold)
        (count_in-replay ip window cap history o.window_ms now sorted past narrow)

-- A path that is longer than what is stored of any path is no stored path.
count-long_path :
    (path : List ℕ) (now ms : ℕ) (es : List RequestEvent)
    → 512 < length path
    → All (λ e. length e.path ≤ 512) es
    → count (λ e. within now ms e && same_units e.path path) es ≡ 0
count-long_path path now ms [] long short = refl
count-long_path path now ms (e ∷ es) long short =
    let other : same_units e.path path ≡ false = elim (Bool-cases (same_units e.path path)) [
      | inl same ↦ absurd (omega (arith, ap length (same_units_eq e.path path same), short.0, long))
      | inr h ↦ h
    ] in
    elim (Bool-cases (within now ms e)) [
      | inl h ↦ rw (h, other) (count-long_path path now ms es long short.1)
      | inr h ↦ rw h (count-long_path path now ms es long short.1)
    ]

count_path_in-long_path :
    (path : List ℕ) (ms now : ℕ) (t : IpTracker)
    → 512 < length path
    → IsBounded t
    → (count_path_in path ms now t).0 ≡ 0
unfolding count_path_in prune
count_path_in-long_path path ms now t long b =
    count-long_path path now ms _ long (prune-IsBounded now t b).clipped

count_attempts-long_path :
    (c : Bool) (say : ℕ → String) (o : VolumeOptions) (path : List ℕ) (now : ℕ) (t : IpTracker)
    → 512 < length path
    → 0 < o.threshold
    → IsBounded t
    → (count_attempts say o c path now t).0 ≡ none
unfolding count_attempts
count_attempts-long_path false say o path now t long some_needed b = refl
count_attempts-long_path true say o path now t long some_needed b =
    rw (count_path_in-long_path path o.window_ms now t long b, lt→ltb 0 o.threshold some_needed)
      refl

-- However often an address submits to an authentication path of more than 512 characters, the detector
-- of credential guessing never fires for it, where its threshold is not zero: it looks for the whole
-- path among stored paths that were cut.
pub credential_bruteforce-long_path :
    (say : ℕ → String) (upper : List ℕ → List ℕ) (is_auth : List ℕ → Bool) (o : VolumeOptions)
    (ip : String) (window cap : ℕ) (calls : List Bounds.Call) (method path : List ℕ) (now : ℕ)
    → 512 < length path
    → 0 < o.threshold
    → (credential_bruteforce say upper is_auth o method path now
        (Bounds.run calls (create ip window cap))).0
      ≡ none
unfolding credential_bruteforce
credential_bruteforce-long_path say upper is_auth o ip window cap calls method path now long
      some_needed =
    count_attempts-long_path (is_submission (upper method) && is_auth path) say o path now
      (Bounds.run calls (create ip window cap)) long some_needed (run-IsBounded ip window cap calls)
