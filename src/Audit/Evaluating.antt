-- ===== src/Audit/Evaluating.antt =====
-- src/audit.ts: `evaluate`, which runs the checks that are out of their cooldown, then looks for
-- campaigns, and prunes the cooldowns. An anomaly is kept with the key of its cooldown, which `evaluate`
-- drops. `now` is the argument of the call, and `clock` what the cache of campaigns reads as its time.
use hackerpot.Common.{
  ℕ, ◌+◌, ◌-◌, ◌*◌, String, Bool, true, false, Option, none, some, List, [], ◌∷◌, ◌++◌, map, ltb,
  leb, ◌==◌, ◌||◌, if◌then◌else◌, length, count, keep, lookup, insert,
}
use Prim.Native.String.{◌++◌ as text_append}
use hackerpot.Lru
use hackerpot.Audit.{TrafficAudit, CampaignPath, summary, max_campaign_paths}
use hackerpot.Audit.Checks.{
  Anomaly, AuditCheck, AuditContext, AuditSeverity, CheckResult, zero_fraction,
}

pub record TrafficAnomaly : Type 0 where
  pub anomaly : Anomaly
  pub timestamp : ℕ

abbrev pub Fired : Type 0
Fired = List (String × ℕ)

abbrev is_cooling : ℕ → ℕ → Option ℕ → Bool
is_cooling cooldown now none = false
is_cooling cooldown now (some last) = ltb now (last + cooldown)

-- `cooling`.
abbrev pub cooling : ℕ → ℕ → String → Fired → Bool
cooling cooldown now key fired = is_cooling cooldown now (lookup key fired)

abbrev pub filed : Bool → ℕ → String → Anomaly → Fired → Option (String × Anomaly) × Fired
filed true now key a fired = (none, fired)
filed false now key a fired = (some (key, a), insert key now fired)

-- A finding is filed under its key unless the key is cooling.
unfoldable pub attempt : ℕ → ℕ → String → Option Anomaly → Fired → Option (String × Anomaly) × Fired
attempt cooldown now key none fired = (none, fired)
attempt cooldown now key (some a) fired = filed (cooling cooldown now key fired) now key a fired

abbrev pub put {ℓ} : {A : Type ℓ} → Option A → List A → List A
put none xs = xs
put (some x) xs = x ∷ xs

-- A loop that files what each turn finds.
unfoldable pub file_all {ℓ} :
    {X : Type ℓ}
    → ℕ
    → ℕ
    → (X → String × Option Anomaly)
    → List X
    → Fired
    → List (String × Anomaly) × Fired
unfolding attempt
file_all cooldown now look [] fired = ([], fired)
file_all cooldown now look (x ∷ xs) fired =
    let (key, found) = look x in
    let (one, fired) = attempt cooldown now key found fired in
    let (rest, fired) = file_all cooldown now look xs fired in (put one rest, fired)

abbrev pub found_of : CheckResult → Option Anomaly
found_of CheckResult.threw = none
found_of CheckResult.silent = none
found_of (CheckResult.found a) = some a

-- A turn of the loop over the checks. What a check that is cooling would find is not used.
abbrev pub look_at_check : AuditContext → AuditCheck → String × Option Anomaly
look_at_check context c = (c.id, found_of (c.evaluate context))

-- How many addresses probed a path in the window.
abbrev pub recent_ips : ℕ → CampaignPath → ℕ
recent_ips start t = count (λ e. leb start e.1) t.ips

abbrev campaign_severity : Bool → AuditSeverity
campaign_severity true = AuditSeverity.critical
campaign_severity false = AuditSeverity.warning

abbrev campaign_anomaly : ℕ → ℕ → String → Anomaly
campaign_anomaly min_ips recent path = record {
  id = "probe-campaign";
  severity = campaign_severity (leb (min_ips * 3) recent);
  metric = "distinct sources probing a new path";
  value = record { num = recent; den = 1 };
  baseline = zero_fraction;
  ratio = none;
  path = some path;
}

-- A turn of the loop of `campaignAnomalies`.
unfoldable pub look_at_path : ℕ → ℕ → String × CampaignPath → String × Option Anomaly
look_at_path start min_ips (path, t) =
    let recent = recent_ips start t in
    (
      text_append "probe-campaign:" path,
      (if ltb t.first_seen start || ltb recent min_ips
          then none
          else some (campaign_anomaly min_ips recent path)),
    )

abbrev pub campaigns_if : Bool → ℕ → ℕ → TrafficAudit → Fired → List (String × Anomaly) × Fired
campaigns_if true clock now a fired = ([], fired)
campaigns_if false clock now a fired =
    file_all a.cooldown_ms now (look_at_path (now - a.window_ms) a.campaign_min_ips)
      (Lru.entries_live clock a.campaigns) fired

-- `campaignAnomalies`.
unfoldable pub campaign_anomalies : ℕ → ℕ → TrafficAudit → Fired → List (String × Anomaly) × Fired
campaign_anomalies clock now a fired = campaigns_if (a.campaign_min_ips == 0) clock now a fired

unfoldable pub prune_cooldowns : ℕ → ℕ → Fired → Fired
prune_cooldowns cooldown now fired =
    if leb (length fired) max_campaign_paths
    then fired
    else keep (λ e. ltb now (e.1 + cooldown)) fired

-- The loop over the checks, if the window holds enough requests.
abbrev pub run_if :
    Bool → List AuditCheck → ℕ → ℕ → AuditContext → Fired → List (String × Anomaly) × Fired
run_if false checks cooldown now context fired = ([], fired)
run_if true checks cooldown now context fired =
    file_all cooldown now (look_at_check context) checks fired

abbrev pub context_of : ℕ → TrafficAudit → AuditContext
context_of now a =
    let (window, baseline) = summary now a in
    record { window = window; baseline = baseline; now = now; min_samples = a.min_samples }

unfoldable pub run_checks :
    List AuditCheck → ℕ → TrafficAudit → Fired → List (String × Anomaly) × Fired
run_checks checks now a fired =
    let context = context_of now a in
    run_if (leb a.min_samples context.window.requests) checks a.cooldown_ms now context fired

-- `evaluate` with the keys of its anomalies.
unfoldable pub evaluate_keyed :
    List AuditCheck → ℕ → ℕ → TrafficAudit → List (String × Anomaly) × TrafficAudit
unfolding run_checks campaign_anomalies prune_cooldowns
evaluate_keyed checks clock now a =
    let (unusual, fired) = run_checks checks now a a.last_fired in
    let (campaigns, fired) = campaign_anomalies clock now a fired in
    (unusual ++ campaigns, record a { last_fired = prune_cooldowns a.cooldown_ms now fired })

abbrev pub stamp : ℕ → String × Anomaly → TrafficAnomaly
stamp now (key, a) = record { anomaly = a; timestamp = now }

unfoldable pub evaluate :
    List AuditCheck → ℕ → ℕ → TrafficAudit → List TrafficAnomaly × TrafficAudit
unfolding evaluate_keyed
evaluate checks clock now a =
    let (anomalies, a) = evaluate_keyed checks clock now a in (map (stamp now) anomalies, a)
