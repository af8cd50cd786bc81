-- ===== src/Engine/Effects.antt =====
-- src/core.ts: what an evaluation writes.
use hackerpot.Common.{
  ℕ, ◌+◌, ◌≡◌, refl, ap, ◌∙◌, sym, String, Bool, true, false, Option, none, some, List, [], ◌∷◌,
  arith, if◌then◌else◌, Bool-cases, inl, inr, All, subst,
}
use hackerpot.Evidence.{Detection}
use hackerpot.Activity.{IpTracker}
use hackerpot.Activity.Fingerprints.{FingerprintRegistry}
use hackerpot.Activity.Registry.{tracker_for}
use hackerpot.Scores.Laws.{add-get}
use hackerpot.Store.{HoneypotHit, MemoryStore, score_for, record_hit}
use hackerpot.Engine.{RequestFacts, EvaluateOptions, HoneypotEngine}
use hackerpot.Engine.Detecting.{Keeps, inspect_all-Keeps}
use hackerpot.Engine.Evaluating.{
  Pass, clean_result, commit, remember, count_bypass, flagged_result, report_shadow, conclude,
  inspect_request, exempted, evaluate, dispatch, pass_of, with_writes, prepare,
}

-- The record of hits, the fingerprints and what was announced are those of before.
record IsQuiet (before after : HoneypotEngine) : Type 0 where
  same_store : after.store ≡ before.store
  same_fingerprints : after.fingerprints ≡ before.fingerprints
  same_published : after.published ≡ before.published
  same_reports : after.shadowed_reports ≡ before.shadowed_reports

abbrev quietly : (e : HoneypotEngine) → IsQuiet e e
quietly e = record {
  same_store = refl;
  same_fingerprints = refl;
  same_published = refl;
  same_reports = refl;
}

-- The record of hits and what was announced are those of before, and the registry of fingerprints
-- satisfies a predicate.
record Unrecorded (P : FingerprintRegistry → Type 0) (before after : HoneypotEngine) : Type 0 where
  same_store : after.store ≡ before.store
  same_published : after.published ≡ before.published
  same_reports : after.shadowed_reports ≡ before.shadowed_reports
  kept : P after.fingerprints

quiet-Unrecorded :
    (P : FingerprintRegistry → Type 0) (before after : HoneypotEngine)
    → IsQuiet before after
    → P before.fingerprints
    → Unrecorded P before after
quiet-Unrecorded P before after q p = record {
  same_store = q.same_store;
  same_published = q.same_published;
  same_reports = q.same_reports;
  kept = subst P (sym q.same_fingerprints) p;
}

record_hit-score :
    (hit : HoneypotHit) (s : MemoryStore)
    → score_for hit.ip (record_hit hit s) ≡ score_for hit.ip s + hit.score
unfolding score_for record_hit
record_hit-score hit s = (add-get hit.ip hit.score s.scores).1

module _ (decode : List ℕ → Option (List ℕ)) (iso : ℕ → String) (new_id : String)
    (fingerprint_of : RequestFacts → String) where
  report_shadow-quiet :
      (o : EvaluateOptions) (ds : List Detection) (e : HoneypotEngine)
      → o.record_hit ≡ false
      → report_shadow decode iso new_id fingerprint_of o ds e ≡ e
  report_shadow-quiet o [] e off = refl
  report_shadow-quiet o (d ∷ ds) e off = rw off refl

  conclude-quiet :
      (o : EvaluateOptions) (p : Pass) (clock : ℕ) (ds : List Detection) (e : HoneypotEngine)
      → o.record_hit ≡ false
      → IsQuiet e (conclude decode iso new_id fingerprint_of o p clock ds e).1
  unfolding clean_result flagged_result
  conclude-quiet o p clock [] e off = record {
    same_store = refl;
    same_fingerprints = refl;
    same_published = refl;
    same_reports = refl;
  }
  conclude-quiet o p clock (d ∷ ds) e off = rw off (quietly e)

  exempted-quiet :
      (o : EvaluateOptions) (facts : RequestFacts) (reason : String) (token : Option String)
      (e : HoneypotEngine)
      → IsQuiet e (exempted decode iso new_id fingerprint_of o facts reason token e).1
  unfolding count_bypass
  exempted-quiet o facts reason token e =
      elim o.audit as (λ b. IsQuiet e (if b then count_bypass reason e else e)) [
        | true ↦ record {
          same_store = refl;
          same_fingerprints = refl;
          same_published = refl;
          same_reports = refl;
        }
        | false ↦ quietly e
      ]

  -- The registry of fingerprints is what the detectors leave of it, if they run.
  dispatch-Unrecorded :
      (P : FingerprintRegistry → Type 0) (allowed : Bool) (token : Option String)
      (o : EvaluateOptions) (facts : RequestFacts) (clock : ℕ) (tracker : IpTracker)
      (e : HoneypotEngine)
      → o.record_hit ≡ false
      → All (Keeps P) e.detectors
      → P e.fingerprints
      → Unrecorded P e
          (dispatch decode iso new_id fingerprint_of allowed token o facts clock tracker e).1
  unfolding inspect_request
  dispatch-Unrecorded P true token o facts clock tracker e off keeps p =
      quiet-Unrecorded P e _ (exempted-quiet o facts "allowlist" none e) p
  dispatch-Unrecorded P false (some token) o facts clock tracker e off keeps p =
      quiet-Unrecorded P e _ (exempted-quiet o facts "service-token" (some token) e) p
  dispatch-Unrecorded P false none o facts clock tracker e off keeps p =
      let pass = pass_of decode iso new_id fingerprint_of o facts clock tracker e in
      let written = with_writes decode iso new_id fingerprint_of o facts clock tracker e in
      let shadow = pass.findings.shadow_detections in
      let same = report_shadow-quiet o shadow written off in
      let reported = report_shadow decode iso new_id fingerprint_of o shadow written in
      let q = conclude-quiet o pass clock pass.findings.detections reported off in
      let after =
        (conclude decode iso new_id fingerprint_of o pass clock pass.findings.detections
          reported).1 in
      let left = inspect_all-Keeps P e.shadowed clock _ e.detectors keeps p in
      let u = quiet-Unrecorded P written after (subst (λ x. IsQuiet x after) same q) left in
      record {
        same_store = u.same_store;
        same_published = u.same_published;
        same_reports = u.same_reports;
        kept = u.kept;
      }

  score_of-conclude :
      (o : EvaluateOptions) (p : Pass) (clock : ℕ) (ds : List Detection) (e : HoneypotEngine)
      → o.record_hit ≡ true
      → ((conclude decode iso new_id fingerprint_of o p clock ds e).0.total_score
          ≡ score_for p.facts.ip (conclude decode iso new_id fingerprint_of o p clock ds e).1.store)
        × ((conclude decode iso new_id fingerprint_of o p clock ds e).0.total_score
            ≡ score_for p.facts.ip e.store
              + (conclude decode iso new_id fingerprint_of o p clock ds e).0.score)
  unfolding clean_result flagged_result commit remember
  score_of-conclude o p clock [] e on = (refl, omega arith)
  score_of-conclude o p clock (d ∷ ds) e on = rw on (sym (record_hit-score _ e.store), refl)

  report_shadow-store :
      (o : EvaluateOptions) (ds : List Detection) (e : HoneypotEngine)
      → (report_shadow decode iso new_id fingerprint_of o ds e).store ≡ e.store
  report_shadow-store o [] e = refl
  report_shadow-store o (d ∷ ds) e = elim (Bool-cases o.record_hit) [
    | inl on ↦ rw on refl
    | inr off ↦ rw off refl
  ]

  -- A pass that does not record leaves the store, what the listeners heard and what was reported as
  -- shadowed as they were, whatever it finds. It does not write to the registry of fingerprints either,
  -- apart from what the detectors do to it: a predicate of the registry that every detector keeps, such
  -- as that nothing is listed of an address, still holds.
  pub evaluate-unrecorded :
      (P : FingerprintRegistry → Type 0) (o : EvaluateOptions) (input : RequestFacts) (clock : ℕ)
      (e : HoneypotEngine)
      → o.record_hit ≡ false
      → All (Keeps P) e.detectors
      → P e.fingerprints
      → ((evaluate decode iso new_id fingerprint_of o input clock e).1.store ≡ e.store)
        × ((evaluate decode iso new_id fingerprint_of o input clock e).1.published ≡ e.published)
        × ((evaluate decode iso new_id fingerprint_of o input clock e).1.shadowed_reports
            ≡ e.shadowed_reports)
        × P (evaluate decode iso new_id fingerprint_of o input clock e).1.fingerprints
  unfolding evaluate
  evaluate-unrecorded P o input clock e off keeps p =
      let facts = prepare decode input in
      let handed = tracker_for facts.ip clock e.registry in
      let u =
        dispatch-Unrecorded P (e.allows facts.ip) (e.identify facts.headers) o facts clock handed.0
          (record e { registry = handed.1 }) off keeps p in
      (u.same_store, u.same_published, u.same_reports, u.kept)

  -- A recording pass over a request that nothing exempts adds its score to the address's own: the total
  -- that it answers is the score before plus the request's, and is the score that is read afterwards.
  pub evaluate-score :
      (o : EvaluateOptions) (input : RequestFacts) (clock : ℕ) (e : HoneypotEngine)
      → e.allows input.ip ≡ false
      → e.identify input.headers ≡ none
      → o.record_hit ≡ true
      → ((evaluate decode iso new_id fingerprint_of o input clock e).0.total_score
          ≡ score_for input.ip (evaluate decode iso new_id fingerprint_of o input clock e).1.store)
        × ((evaluate decode iso new_id fingerprint_of o input clock e).0.total_score
            ≡ score_for input.ip e.store
              + (evaluate decode iso new_id fingerprint_of o input clock e).0.score)
  unfolding evaluate prepare inspect_request
  evaluate-score o input clock e known token on =
      let facts = prepare decode input in
      let handed = tracker_for facts.ip clock e.registry in
      let seen = record e { registry = handed.1 } in
      let p = pass_of decode iso new_id fingerprint_of o facts clock handed.0 seen in
      let d = with_writes decode iso new_id fingerprint_of o facts clock handed.0 seen in
      let ready = report_shadow decode iso new_id fingerprint_of o p.findings.shadow_detections d in
      let both = score_of-conclude o p clock p.findings.detections ready on in
      let store = report_shadow-store o p.findings.shadow_detections d in
      rw (known, token)
        (
          both.0,
          both.1
              ∙ ap
                  (λ (s : MemoryStore).
                    score_for input.ip s
                    + (conclude decode iso new_id fingerprint_of o p clock p.findings.detections
                        ready).0.score)
                  store,
        )
