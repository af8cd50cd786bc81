-- ===== src/Audit/Silence.antt =====
-- src/audit.ts: an anomaly that was raised is silent for the cooldown, and a check that throws changes
-- nothing.
use hackerpot.Common.{
  not, ℕ, ◌+◌, ◌<◌, ◌≡◌, refl, sym, ◌∙◌, String, Bool, true, false, Option, none, some, List, [],
  ◌∷◌, ◌++◌, leb, ◌==◌, All, any, keep, lookup, arith, str_eq, Distinct, Bool-cases, inl, inr,
}
use hackerpot.Audit.{create, sized, TrafficAuditOptions, TrafficAudit, AuditRecord, record_request}
use hackerpot.Audit.Checks.{Anomaly, AuditCheck, AuditContext, CheckResult}
use hackerpot.Audit.Evaluating.{
  Fired, attempt, file_all, look_at_check, campaign_anomalies, found_of, evaluate, context_of,
  run_if, campaigns_if, run_checks, evaluate_keyed,
}
use hackerpot.Audit.Cooldown.{
  IsSilent, Fires, file_all-cooling, file_all-Fires, file_all-Distinct, any-append,
  prune_cooldowns-lookup, prune_cooldowns-Distinct,
}

-- What every stage of `evaluate` does with the times of the keys: it leaves those that are cooling
-- alone and silent, remembers what it files, and keeps the keys distinct.
record Respects (cooldown now : ℕ) (stage : Fired → List (String × Anomaly) × Fired) : Type 0 where
  pub quiet :
      (k : String) (at : ℕ) (fired : Fired)
      → lookup k fired ≡ some at
      → now < at + cooldown
      → (lookup k (stage fired).1 ≡ some at) × IsSilent k (stage fired).0
  pub remembers :
      (k : String) (fired : Fired)
      → 0 < cooldown
      → Fires k (stage fired).0
      → lookup k (stage fired).1 ≡ some now
  pub distinct : (fired : Fired) → Distinct fired → Distinct (stage fired).1

file_all-Respects :
    {X : Type 0} (cooldown now : ℕ) (look : X → String × Option Anomaly) (xs : List X)
    → Respects cooldown now (file_all cooldown now look xs)
file_all-Respects cooldown now look xs = record {
  quiet = λ k at fired h l. file_all-cooling cooldown now look k at xs fired h l;
  remembers = λ k fired pos f. file_all-Fires cooldown now look k xs fired pos f;
  distinct = file_all-Distinct cooldown now look xs;
}

nothing-Respects : (cooldown now : ℕ) → Respects cooldown now (λ fired. ([], fired))
nothing-Respects cooldown now = record {
  quiet = λ k at fired h l. (h, refl);
  remembers = λ k fired pos f. absurd (cc);
  distinct = λ fired d. d;
}

run_if-Respects :
    (enough : Bool) (checks : List AuditCheck) (cooldown now : ℕ) (context : AuditContext)
    → Respects cooldown now (run_if enough checks cooldown now context)
run_if-Respects true checks cooldown now context =
    file_all-Respects cooldown now (look_at_check context) checks
run_if-Respects false checks cooldown now context = nothing-Respects cooldown now

campaigns_if-Respects :
    (off : Bool) (clock now : ℕ) (a : TrafficAudit)
    → Respects a.cooldown_ms now (campaigns_if off clock now a)
campaigns_if-Respects true clock now a = nothing-Respects a.cooldown_ms now
campaigns_if-Respects false clock now a = file_all-Respects a.cooldown_ms now _ _

module _ (checks : List AuditCheck) (clock now : ℕ) (a : TrafficAudit) where
  run_checks-Respects : Respects a.cooldown_ms now (run_checks checks now a)
  unfolding run_checks
  run_checks-Respects =
      run_if-Respects (leb a.min_samples (context_of now a).window.requests) checks a.cooldown_ms
        now (context_of now a)

  campaign_anomalies-Respects : Respects a.cooldown_ms now (campaign_anomalies clock now a)
  unfolding campaign_anomalies
  campaign_anomalies-Respects = campaigns_if-Respects (a.campaign_min_ips == 0) clock now a

  -- `evaluate` leaves a key that is cooling alone and silent.
  pub evaluate_keyed-cooling :
      (k : String) (at : ℕ)
      → Distinct a.last_fired
      → lookup k a.last_fired ≡ some at
      → now < at + a.cooldown_ms
      → let (out, after) = evaluate_keyed checks clock now a in
        (lookup k after.last_fired ≡ some at) × IsSilent k out
  unfolding evaluate_keyed
  evaluate_keyed-cooling k at d h l =
      let (_, first) = run_checks checks now a a.last_fired in
      let (kept, silent) = run_checks-Respects.quiet k at a.last_fired h l in
      let (still, none_again) = campaign_anomalies-Respects.quiet k at first kept l in
      let d1 = run_checks-Respects.distinct a.last_fired d in
      (
        prune_cooldowns-lookup a.cooldown_ms now at k _
            (campaign_anomalies-Respects.distinct first d1) still l,
        any-append (λ e. str_eq k e.0) (run_checks checks now a a.last_fired).0
              (campaign_anomalies clock now a first).0
            ∙ rw (silent, none_again) refl,
      )

  evaluate_keyed-Distinct :
      Distinct a.last_fired → Distinct (evaluate_keyed checks clock now a).1.last_fired
  unfolding evaluate_keyed
  evaluate_keyed-Distinct d =
      prune_cooldowns-Distinct a.cooldown_ms now _
        (campaign_anomalies-Respects.distinct _ (run_checks-Respects.distinct a.last_fired d))

  -- `evaluate` remembers when it filed an anomaly.
  evaluate_keyed-Fires :
      (k : String)
      → 0 < a.cooldown_ms
      → Distinct a.last_fired
      → let (out, after) = evaluate_keyed checks clock now a in
        Fires k out → lookup k after.last_fired ≡ some now
  unfolding evaluate_keyed
  evaluate_keyed-Fires k pos d f =
      let (unusual, first) = run_checks checks now a a.last_fired in
      let (_, second) = campaign_anomalies clock now a first in
      let d1 = run_checks-Respects.distinct a.last_fired d in
      let d2 = campaign_anomalies-Respects.distinct first d1 in
      let soon : now < now + a.cooldown_ms = omega arith in
      let filed_at : lookup k second ≡ some now =
        elim (Bool-cases (any (λ e. str_eq k e.0) unusual)) [
          | inl here ↦
              (campaign_anomalies-Respects.quiet k now first
                (run_checks-Respects.remembers k a.last_fired pos here) soon).0
          | inr not_here ↦
              campaign_anomalies-Respects.remembers k first pos
                (sym (any-append _ unusual _ ∙ rw not_here refl) ∙ f)
        ] in
      prune_cooldowns-lookup a.cooldown_ms now now k second d2 filed_at soon

-- A call of the audit, with the clock and, where it is an argument, the time it is asked about.
pub data Call : Type 0 where
  record_at : ℕ → AuditRecord → Call
  evaluate_at : ℕ → ℕ → Call

abbrev pub time_of : Call → ℕ
time_of (Call.record_at now e) = now
time_of (Call.evaluate_at clock now) = now

module _ (clip : String → String) (checks : List AuditCheck) where
  abbrev pub step : Call → TrafficAudit → List (String × Anomaly) × TrafficAudit
  step (Call.record_at now e) a = ([], record_request clip now e a)
  step (Call.evaluate_at clock now) a = evaluate_keyed checks clock now a

  -- All that a sequence of calls raises, in order.
  abbrev pub run : List Call → TrafficAudit → List (String × Anomaly) × TrafficAudit
  run [] a = ([], a)
  run (c ∷ cs) a = let (out, a) = step c a in let (rest, a) = run cs a in (out ++ rest, a)

  step-Distinct :
      (c : Call) (a : TrafficAudit) → Distinct a.last_fired → Distinct (step c a).1.last_fired
  unfolding record_request
  step-Distinct (Call.record_at now e) a d = d
  step-Distinct (Call.evaluate_at clock now) a d = evaluate_keyed-Distinct checks clock now a d

  run-Distinct :
      (cs : List Call) (a : TrafficAudit) → Distinct a.last_fired → Distinct (run cs a).1.last_fired
  run-Distinct [] a d = d
  run-Distinct (c ∷ cs) a d = run-Distinct cs (step c a).1 (step-Distinct c a d)

  step-cooldown_ms : (c : Call) (a : TrafficAudit) → (step c a).1.cooldown_ms ≡ a.cooldown_ms
  unfolding record_request evaluate_keyed
  step-cooldown_ms (Call.record_at now e) a = refl
  step-cooldown_ms (Call.evaluate_at clock now) a = refl

  run-cooldown_ms : (cs : List Call) (a : TrafficAudit) → (run cs a).1.cooldown_ms ≡ a.cooldown_ms
  run-cooldown_ms [] a = refl
  run-cooldown_ms (c ∷ cs) a = run-cooldown_ms cs (step c a).1 ∙ step-cooldown_ms c a

  step-cooling :
      (k : String) (at : ℕ) (c : Call) (a : TrafficAudit)
      → Distinct a.last_fired
      → lookup k a.last_fired ≡ some at
      → time_of c < at + a.cooldown_ms
      → (lookup k (step c a).1.last_fired ≡ some at) × IsSilent k (step c a).0
  unfolding record_request
  step-cooling k at (Call.record_at now e) a d h l = (h, refl)
  step-cooling k at (Call.evaluate_at clock now) a d h l =
      evaluate_keyed-cooling checks clock now a k at d h l

  run-cooling :
      (k : String) (at cooldown : ℕ) (cs : List Call) (a : TrafficAudit)
      → a.cooldown_ms ≡ cooldown
      → Distinct a.last_fired
      → lookup k a.last_fired ≡ some at
      → All (λ c. time_of c < at + cooldown) cs
      → IsSilent k (run cs a).0
  run-cooling k at cooldown [] a same d h l = refl
  run-cooling k at cooldown (c ∷ cs) a same d h l =
      let (kept, silent) = step-cooling k at c a d h (omega (arith, same, l.0)) in
      let later =
        run-cooling k at cooldown cs (step c a).1 (step-cooldown_ms c a ∙ same)
          (step-Distinct c a d) kept l.1 in
      any-append (λ e. str_eq k e.0) (step c a).0 (run cs (step c a).1).0 ∙ rw (silent, later) refl

-- Whatever an audit has seen, once it raises an anomaly it raises none under the same key (the id of
-- the check, or the path of the campaign) in any calls made before the cooldown is over, whatever the
-- checks answer and whatever is recorded meanwhile.
pub run-IsSilent :
    (clip : String → String) (checks : List AuditCheck) (o : TrafficAuditOptions)
    (before after : List Call) (k : String) (clock now : ℕ)
    → let a = (run clip checks before (create o)).1 in
      Fires k (evaluate_keyed checks clock now a).0
      → All (λ c. time_of c < now + o.cooldown_ms) after
      → 0 < o.cooldown_ms
      → IsSilent k (run clip checks after (evaluate_keyed checks clock now a).1).0
unfolding create sized evaluate_keyed
run-IsSilent clip checks o before after k clock now fires soon pos =
    let a = (run clip checks before (create o)).1 in
    let same : a.cooldown_ms ≡ o.cooldown_ms = run-cooldown_ms clip checks before (create o) in
    let d = run-Distinct clip checks before (create o) tt in
    run-cooling clip checks k now o.cooldown_ms after (evaluate_keyed checks clock now a).1 same
      (evaluate_keyed-Distinct checks clock now a d)
      (evaluate_keyed-Fires checks clock now a k (omega (arith, same, pos)) d fires) soon

abbrev pub throws : CheckResult → Bool
throws CheckResult.threw = true
throws CheckResult.silent = false
throws (CheckResult.found a) = false

throws-found : (r : CheckResult) → throws r ≡ true → found_of r ≡ none
throws-found CheckResult.threw h = refl
throws-found CheckResult.silent h = refl
throws-found (CheckResult.found a) h = absurd (cc)

file_all-keep :
    (cooldown now : ℕ) (context : AuditContext) (checks : List AuditCheck) (fired : Fired)
    → file_all cooldown now (look_at_check context) checks fired
      ≡ file_all cooldown now
          (look_at_check context)
          (keep (λ c. not (throws (c.evaluate context))) checks)
          fired
unfolding file_all attempt
file_all-keep cooldown now context [] fired = refl
file_all-keep cooldown now context (c ∷ cs) fired =
    elim (Bool-cases (throws (c.evaluate context))) [
      | inl h ↦
          rw (h, throws-found (c.evaluate context) h) (file_all-keep cooldown now context cs fired)
      | inr h ↦ rw (h, file_all-keep cooldown now context cs _) refl
    ]

run_if-keep :
    (enough : Bool) (cooldown now : ℕ) (context : AuditContext) (checks : List AuditCheck)
    (fired : Fired)
    → run_if enough checks cooldown now context fired
      ≡ run_if enough
          (keep (λ c. not (throws (c.evaluate context))) checks)
          cooldown
          now
          context
          fired
run_if-keep true cooldown now context checks fired = file_all-keep cooldown now context checks fired
run_if-keep false cooldown now context checks fired = refl

-- Checks that throw change neither what the others raise nor the state of the audit.
pub evaluate-isolated :
    (checks : List AuditCheck) (clock now : ℕ) (a : TrafficAudit)
    → evaluate checks clock now a
      ≡ evaluate (keep (λ c. not (throws (c.evaluate (context_of now a)))) checks) clock now a
unfolding evaluate evaluate_keyed run_checks
evaluate-isolated checks clock now a =
    rw
      (run_if-keep (leb a.min_samples (context_of now a).window.requests) a.cooldown_ms now
        (context_of now a) checks a.last_fired)
      refl
