-- ===== src/Audit/Steady.antt =====
-- src/audit.ts: the checks that ship stay silent on traffic that has not changed for the worse.
use hackerpot.Common.{
  ℕ, ◌*◌, ◌≤◌, ◌<◌, ◌≡◌, refl, ap, Bool, true, false, ltb, ◌||◌, arith, lt→ltb, All, dec_lt,
}
use native.Mathlib.Nat.{mul-le-mul}
use hackerpot.Audit.{AuditWindow}
use hackerpot.Audit.Checks.{
  AuditContext, CheckResult, below, share_of, ratio_of, is_some_below, flagged_share_spike,
  traffic_spike, block_spike, downgrade_spike, detector_failures, default_audit_checks,
}

-- No share of the requests and no rate is above that of the baseline, and fewer than five detectors
-- failed. Products stand for fractions.
pub record IsSteady (c : AuditContext) : Type 0 where
  pub requests : 0 < c.window.requests
  pub before : 0 < c.baseline.requests
  pub span : 0 < c.window.span_ms
  pub rate : c.window.requests * c.baseline.span_ms ≤ c.baseline.requests * c.window.span_ms
  pub flagged : c.window.flagged * c.baseline.requests ≤ c.baseline.flagged * c.window.requests
  pub blocks : c.window.blocks * c.baseline.requests ≤ c.baseline.blocks * c.window.requests
  pub downgrades :
      c.window.downgrades * c.baseline.requests ≤ c.baseline.downgrades * c.window.requests
  pub failures : c.window.failures < 5

product-positive : (a b : ℕ) → 0 < a → 0 < b → 0 < a * b
product-positive a b h k = let ones : 1 * 1 ≤ a * b = mul-le-mul h k in omega (arith, ones)

or-true : (b : Bool) → (b || true) ≡ true
or-true true = refl
or-true false = refl

-- A share that has not grown is small, or its ratio is at most one.
share_steady :
    (n d k p q : ℕ) (w b : AuditWindow)
    → 0 < n
    → 2 ≤ k
    → 0 < w.requests
    → 0 < b.requests
    → p * b.requests ≤ q * w.requests
    → (below (share_of p w) n d || is_some_below (ratio_of (share_of p w) (share_of q b)) k) ≡ true
share_steady n d k p q w b some_share twice rw_pos rb_pos h = elim (dec_lt 0 p) [
  | no zero_part ↦
      let nothing : p * d ≡ 0 * d = ap (λ x. x * d) (omega arith) in
      let small : p * d < n * w.requests =
        omega (arith, nothing, product-positive n w.requests some_share rw_pos) in
      rw (lt→ltb 0 w.requests rw_pos, lt→ltb (p * d) (n * w.requests) small) refl
  | yes part ↦
      let old : 0 < q = elim (dec_lt 0 q) [
        | yes l ↦ l
        | no g ↦
            let nothing : q * w.requests ≡ 0 * w.requests =
              ap (λ x. x * w.requests) (omega arith) in
            absurd (omega (arith, nothing, h, product-positive p b.requests part rb_pos))
      ] in
      let more : 2 * (w.requests * q) ≤ k * (w.requests * q) = mul-le-mul twice (omega arith) in
      let small : p * b.requests * 1 < k * (w.requests * q) =
        omega (arith, h, more, product-positive w.requests q rw_pos old) in
      rw
        (
          lt→ltb 0 w.requests rw_pos,
          lt→ltb 0 b.requests rb_pos,
          lt→ltb 0 q old,
          lt→ltb (p * b.requests * 1) (k * (w.requests * q)) small,
        )
        (or-true (ltb (p * d) (n * w.requests)))
]

module _ (c : AuditContext) (s : IsSteady c) where
  flagged_share_spike-steady : flagged_share_spike c ≡ CheckResult.silent
  unfolding flagged_share_spike
  flagged_share_spike-steady =
      rw
        (share_steady 1 4 2 c.window.flagged c.baseline.flagged c.window c.baseline (omega arith)
          (omega arith) s.requests s.before s.flagged)
        refl

  block_spike-steady : block_spike c ≡ CheckResult.silent
  unfolding block_spike
  block_spike-steady =
      rw
        (
          share_steady 1 20 3 c.window.blocks c.baseline.blocks c.window c.baseline (omega arith)
              (omega arith) s.requests s.before s.blocks,
          or-true (ltb c.window.blocks 10),
        )
        refl

  downgrade_spike-steady : downgrade_spike c ≡ CheckResult.silent
  unfolding downgrade_spike
  downgrade_spike-steady =
      rw
        (
          share_steady 1 20 3 c.window.downgrades c.baseline.downgrades c.window c.baseline
              (omega arith) (omega arith) s.requests s.before s.downgrades,
          or-true (ltb c.window.downgrades 10),
        )
        refl

  traffic_spike-steady : traffic_spike c ≡ CheckResult.silent
  unfolding traffic_spike
  traffic_spike-steady =
      let positive = product-positive c.baseline.requests c.window.span_ms s.before s.span in
      let some_rate : 0 < c.baseline.requests * 60000 = omega (arith, s.before) in
      let small : c.window.requests * 60000 * c.baseline.span_ms * 1
          < 3 * (c.window.span_ms * (c.baseline.requests * 60000)) =
        omega (arith, positive, s.rate) in
      rw (lt→ltb 0 _ some_rate, lt→ltb _ _ small) refl

  detector_failures-steady : detector_failures c ≡ CheckResult.silent
  unfolding detector_failures
  detector_failures-steady = rw (lt→ltb c.window.failures 5 s.failures, or-true _) refl

-- On traffic whose rate and whose shares of flagged, blocked and downgraded requests are not above
-- those of a baseline that saw requests, and on which fewer than five detectors failed, none of the
-- checks that ship raises an anomaly.
pub default_audit_checks-steady :
    (c : AuditContext)
    → IsSteady c
    → All (λ k. k.evaluate c ≡ CheckResult.silent) default_audit_checks
default_audit_checks-steady c s = (
  flagged_share_spike-steady c s,
  (
    traffic_spike-steady c s,
    (block_spike-steady c s, (downgrade_spike-steady c s, (detector_failures-steady c s, tt))),
  ),
)
