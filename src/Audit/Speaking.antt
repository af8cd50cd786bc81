-- ===== src/Audit/Speaking.antt =====
-- src/audit.ts: a check that is out of its cooldown and finds something is heard.
use hackerpot.Common.{
  ℕ, ◌≤◌, ◌≡◌, refl, sym, ap, ◌∙◌, subst, String, Bool, true, false, Option, none, some, List, [],
  ◌∷◌, ◌++◌, ◌||◌, arith, str_eq, str_eq_iff, str_eq_ne, lookup-insert, Bool-cases, Option-cases,
  inl, inr, le→leb, ◌≢◌,
}
use hackerpot.Audit.{TrafficAudit}
use hackerpot.Audit.Checks.{Anomaly, AuditCheck, AuditContext, CheckResult}
use hackerpot.Audit.Evaluating.{
  Fired, attempt, put, file_all, look_at_check, run_if, run_checks, context_of, campaign_anomalies,
  evaluate_keyed, cooling, found_of,
}
use hackerpot.Audit.Cooldown.{Fires, any-append, any-put}

-- The times of one key matter to it alone.
cooling-attempt :
    (cooldown now : ℕ) (k key : String) (found : Option Anomaly) (fired : Fired)
    → key ≢ k
    → cooling cooldown now k (attempt cooldown now key found fired).1 ≡ cooling cooldown now k fired
unfolding attempt
cooling-attempt cooldown now k key none fired other = refl
cooling-attempt cooldown now k key (some a) fired other =
    elim (Bool-cases (cooling cooldown now key fired)) [
      | inl c ↦ rw c refl
      | inr c ↦ rw (c, lookup-insert k key now fired, str_eq_ne key k other) refl
    ]

or_right : (a b : Bool) → b ≡ true → (a || b) ≡ true
or_right true b h = refl
or_right false b h = h

or_left : (a b : Bool) → a ≡ true → (a || b) ≡ true
or_left true b h = refl
or_left false b h = absurd (cc)

-- A finding under a key that is not cooling is filed.
attempt-free :
    (cooldown now : ℕ) (k key : String) (a : Anomaly) (fired : Fired)
    → key ≡ k
    → cooling cooldown now k fired ≡ false
    → Fires k (put (attempt cooldown now key (some a) fired).0 [])
unfolding attempt
attempt-free cooldown now k key a fired same free =
    let here : cooling cooldown now key fired ≡ false =
      subst (λ j. cooling cooldown now j fired ≡ false) (sym same) free in
    rw here (or_left (str_eq k key) false ((str_eq_iff k key).1 (sym same)))

module _ {X : Type 0} (cooldown now : ℕ) (look : X → String × Option Anomaly) where
  -- Under a key that is not cooling the first turn that finds something is filed.
  file_all-first :
      (k : String) (x : X) (a : Anomaly) (before after : List X) (fired : Fired)
      → look x ≡ (k, some a)
      → cooling cooldown now k fired ≡ false
      → Fires k (file_all cooldown now look (before ++ x ∷ after) fired).0
  unfolding file_all
  file_all-first k x a [] after fired h free =
      let heard = attempt-free cooldown now k (look x).0 a fired (ap (λ p. p.0) h) free in
      let found : (look x).1 ≡ some a = ap (λ p. p.1) h in
      any-put (λ e. str_eq k e.0) (attempt cooldown now (look x).0 (look x).1 fired).0 _
      ∙ or_left _ _ (
          subst (λ o. Fires k (put (attempt cooldown now (look x).0 o fired).0 [])) (sym found)
            heard)
  file_all-first k x a (y ∷ before) after fired h free =
      let (one, next) = attempt cooldown now (look y).0 (look y).1 fired in
      any-put (λ e. str_eq k e.0) one _ ∙ elim (Bool-cases (str_eq (look y).0 k)) [
        | inl same ↦ elim (Option-cases (look y).1) [
          | inl nothing ↦ or_right _ _ (
              file_all-first k x a before after next h (
                ap (λ o. cooling cooldown now k (attempt cooldown now (look y).0 o fired).1) nothing
                ∙ free))
          | inr (b, found) ↦ or_left _ _ (
              subst (λ o. Fires k (put (attempt cooldown now (look y).0 o fired).0 [])) (sym found)
                (attempt-free cooldown now k (look y).0 b fired ((str_eq_iff (look y).0 k).0 same)
                  free))
        ]
        | inr other ↦
            let differ : (look y).0 ≢ k =
              λ (e : (look y).0 ≡ k). ground (arith, other, (str_eq_iff (look y).0 k).1 e) in
            or_right _ _ (
              file_all-first k x a before after next h
                (cooling-attempt cooldown now k (look y).0 (look y).1 fired differ ∙ free))
      ]

run_if-first :
    (enough : Bool) (cooldown now : ℕ) (context : AuditContext) (c : AuditCheck) (a : Anomaly)
    (before after : List AuditCheck) (fired : Fired)
    → enough ≡ true
    → c.evaluate context ≡ CheckResult.found a
    → cooling cooldown now c.id fired ≡ false
    → Fires c.id (run_if enough (before ++ c ∷ after) cooldown now context fired).0
run_if-first false cooldown now context c a before after fired e found free = absurd (cc)
run_if-first true cooldown now context c a before after fired e found free =
    file_all-first cooldown now (look_at_check context) c.id c a before after fired
      (ap (λ r. (c.id, found_of r)) found) free

-- A check is heard again: where the window holds enough requests, and the id of the check never raised
-- an anomaly or did so a cooldown ago or longer, an anomaly is raised under that id whenever the check
-- finds one, wherever it stands among the checks and whatever the others do.
pub evaluate_keyed-speaks :
    (before after : List AuditCheck) (c : AuditCheck) (a : Anomaly) (clock now : ℕ)
    (audit : TrafficAudit)
    → audit.min_samples ≤ (context_of now audit).window.requests
    → c.evaluate (context_of now audit) ≡ CheckResult.found a
    → cooling audit.cooldown_ms now c.id audit.last_fired ≡ false
    → Fires c.id (evaluate_keyed (before ++ c ∷ after) clock now audit).0
unfolding evaluate_keyed run_checks
evaluate_keyed-speaks before after c a clock now audit enough found free =
    let (unusual, fired) = run_checks (before ++ c ∷ after) now audit audit.last_fired in
    any-append (λ e. str_eq c.id e.0) unusual (campaign_anomalies clock now audit fired).0
    ∙ or_left _ _ (
        run_if-first _ audit.cooldown_ms now (context_of now audit) c a before after
          audit.last_fired (le→leb audit.min_samples (context_of now audit).window.requests enough)
          found free)
