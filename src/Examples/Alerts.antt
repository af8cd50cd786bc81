-- ===== src/Examples/Alerts.antt =====
-- src/notify/hub.ts and src/internal/histogram.ts on a few events.
use hackerpot.Common.{
  ℕ, Option, List, ◌≡◌, ◌+◌, refl, [], ◌∷◌, none, some, false, length, arith, if◌then◌else◌,
}
use hackerpot.Histogram.{create, observe, snapshot}
use hackerpot.Histogram.Cumulative.{observe_all, counts, snapshot-counts}
use hackerpot.Notify.{NotificationHub, NotifyEvent, hit, error, is_wanted, emit, summary, event}
use hackerpot.Notify.Accounting.{accounted, emit-accounted}
use hackerpot.Notify.Ceiling.{emit_all, emit_all-silent}

-- A hub with one sink and a ceiling of two, where one event was delivered and three were suppressed.
abbrev hub : NotificationHub
hub = record {
  sinks = "syslog" ∷ [];
  types = hit ∷ error ∷ [];
  min_score = 0;
  certain_only = false;
  dedupe = record { capacity = 10; ttl_ms = 60; entries = [] };
  dedupe_window_ms = 60;
  max_per_window = 2;
  window_start = 0;
  window_count = 1;
  suppressed = 3;
  outbox = [];
}

abbrev failure : NotifyEvent
failure = record { type = error; incident = none }

abbrev probe : NotifyEvent
probe = record {
  type = hit;
  incident = some (record {
    ip = "198.51.100.7";
    responded_with = "tarpit";
    rule = none;
    total_score = 8;
    detections = [];
  });
}

-- The window is over: what it hid is reported before the event.
emit_reports : (emit failure 60 hub).outbox ≡ summary 3 ∷ event failure ∷ []
unfolding emit
emit_reports = refl

emit-accounted_example :
    accounted (emit probe 60 hub) ≡ accounted hub + (if is_wanted hub probe then 1 else 0)
emit-accounted_example = emit-accounted probe 60 hub (omega arith)

-- The same without deduplication, at its ceiling.
abbrev undeduplicated : NotificationHub
undeduplicated = record hub { dedupe_window_ms = 0; window_count = 2 }

emit_all-silent_example :
    (emit_all ((failure, 60) ∷ (probe, 100000) ∷ []) undeduplicated).outbox ≡ undeduplicated.outbox
emit_all-silent_example =
    emit_all-silent ((failure, 60) ∷ (probe, 100000) ∷ []) undeduplicated refl (omega arith)

abbrev scores : List (Option ℕ)
scores = some 4 ∷ some 12 ∷ none ∷ some 70 ∷ []

snapshot_of_scores :
    (snapshot (observe_all scores (create (5 ∷ 15 ∷ 40 ∷ [])))).buckets ≡ 2 ∷ 3 ∷ 3 ∷ 4 ∷ []
unfolding snapshot observe_all observe create
snapshot_of_scores = refl

snapshot-counts_example :
    ((snapshot (observe_all scores (create (5 ∷ 15 ∷ 40 ∷ [])))).buckets
      ≡ counts (5 ∷ 15 ∷ 40 ∷ []) scores)
    × ((snapshot (observe_all scores (create (5 ∷ 15 ∷ 40 ∷ [])))).count ≡ length scores)
snapshot-counts_example =
    snapshot-counts (5 ∷ 15 ∷ 40 ∷ []) scores
      ((omega arith, (omega arith, tt)), ((omega arith, tt), (tt, tt)))
