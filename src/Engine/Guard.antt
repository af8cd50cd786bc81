-- ===== src/Engine/Guard.antt =====
-- src/core.ts: `blockRequiresProof`.
use hackerpot.Common.{
  ℕ, ◌≡◌, ◌≢◌, refl, ap, ◌∙◌, sym, String, Bool, true, false, Option, none, some, List, [], ◌∷◌,
  or_else, str_eq, Bool-cases, inl, inr,
}
use hackerpot.Evidence.{Detection}
use hackerpot.Policy.{has_proof, ResponseDecision}
use hackerpot.Engine.{RequestFacts, EvaluateOptions, EvaluationResult, HoneypotEngine}
use hackerpot.Activity.{IpTracker}
use hackerpot.Activity.Registry.{tracker_for}
use hackerpot.Engine.Evaluating.{
  guard, Pass, clean_result, flagged_result, conclude, inspect_request, evaluate, dispatch, prepare,
}

ne_of_test : {s : String} → str_eq s "block" ≡ false → s ≢ "block"
ne_of_test {s} h e = cc (h, ap (λ (x : String). str_eq x "block") e)

fallback-ne-block : (f : Option String) → f ≢ some "block" → or_else f "tarpit" ≢ "block"
fallback-ne-block none n e = ne_of_test refl e
fallback-ne-block (some s) n e = n (ap some e)

-- A response of the guard that blocks goes with proof.
guard-block :
    (o : EvaluateOptions) (ds : List Detection) (d : ResponseDecision)
    → o.block_requires_proof ≡ true
    → o.unproven_block_fallback ≢ some "block"
    → (guard o ds d).action_id ≡ "block"
    → has_proof ds ≡ true
unfolding guard
guard-block o ds d on other h = elim (Bool-cases (has_proof ds)) [
  | inl p ↦ p
  | inr p ↦ elim (Bool-cases (str_eq d.action_id "block")) [
    | inl b ↦ absurd (fallback-ne-block o.unproven_block_fallback other (rw (b, on, p) at h))
    | inr b ↦ absurd (ne_of_test b (rw b at h))
  ]
]

module _ (decode : List ℕ → Option (List ℕ)) (iso : ℕ → String) (new_id : String)
    (fingerprint_of : RequestFacts → String) where
  -- What the guard must ensure of a result.
  abbrev IsGuarded : EvaluationResult → Type 0
  IsGuarded r = r.action_id ≡ "block" → has_proof r.detections ≡ true

  none-IsGuarded : (r : EvaluationResult) → r.action_id ≡ "" → IsGuarded r
  none-IsGuarded r e h = absurd (ne_of_test refl (sym e ∙ h))

  conclude-IsGuarded :
      (o : EvaluateOptions) (p : Pass) (clock : ℕ) (ds : List Detection) (e : HoneypotEngine)
      → o.block_requires_proof ≡ true
      → o.unproven_block_fallback ≢ some "block"
      → IsGuarded (conclude decode iso new_id fingerprint_of o p clock ds e).0
  unfolding clean_result flagged_result
  conclude-IsGuarded o p clock [] e on other h = absurd (ne_of_test refl h)
  conclude-IsGuarded o p clock (d ∷ ds) e on other h = guard-block o _ _ on other h

  dispatch-IsGuarded :
      (allowed : Bool) (token : Option String) (o : EvaluateOptions) (facts : RequestFacts)
      (clock : ℕ) (tracker : IpTracker) (e : HoneypotEngine)
      → o.block_requires_proof ≡ true
      → o.unproven_block_fallback ≢ some "block"
      → IsGuarded
          (dispatch decode iso new_id fingerprint_of allowed token o facts clock tracker e).0
  unfolding inspect_request
  dispatch-IsGuarded true token o facts clock tracker e on other h = absurd (ne_of_test refl h)
  dispatch-IsGuarded false (some token) o facts clock tracker e on other h =
      absurd (ne_of_test refl h)
  dispatch-IsGuarded false none o facts clock tracker e on other h =
      conclude-IsGuarded o _ clock _ _ on other h

  -- Where proof is required and the fallback is not itself a block, a request is answered with a block
  -- only if one of its detections is proof, whatever the policy, the detectors and the state are.
  pub evaluate-block :
      (o : EvaluateOptions) (input : RequestFacts) (clock : ℕ) (e : HoneypotEngine)
      → o.block_requires_proof ≡ true
      → o.unproven_block_fallback ≢ some "block"
      → (evaluate decode iso new_id fingerprint_of o input clock e).0.action_id ≡ "block"
      → has_proof (evaluate decode iso new_id fingerprint_of o input clock e).0.detections ≡ true
  unfolding evaluate
  evaluate-block o input clock e on other h =
      let facts = prepare decode input in
      let handed = tracker_for facts.ip clock e.registry in
      dispatch-IsGuarded (e.allows facts.ip) (e.identify facts.headers) o facts clock handed.0
        (record e { registry = handed.1 }) on other h
