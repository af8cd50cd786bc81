-- ===== src/Examples/State.antt =====
-- The bounded caches, the activity windows, the score ledger, the blocklist and the store on small inputs.
use hackerpot.Common.{
  ℕ, ◌≡◌, ◌≢◌, ◌≤◌, ◌<◌, refl, String, [], ◌∷◌, none, some, arith, str_eq, str_eq_self, ap, false,
  min, max, count,
}
use hackerpot.Lru
use hackerpot.Lru.{TtlLru, Entry}
use hackerpot.Lru.Bounds.{run-IsValid}
use hackerpot.Lru.Bounds
use hackerpot.Lru.Recency.{set_all, get-survives}
use hackerpot.Activity
use hackerpot.Activity.{
  IpTracker, RequestEvent, flagged, seen, passed, within, count_in, clip, awaits, confirm_path,
  record_event,
}
use hackerpot.Activity.Counts.{replay, count_in-replay}
use hackerpot.Activity.Registry as Registry
use hackerpot.Activity.Registry.{ActivityRegistry, tracker_for-forgets}
use hackerpot.Scores as Scores
use hackerpot.Blocklist as Blocklist
use hackerpot.Blocklist.{MemoryBlocklist}
use hackerpot.Blocklist.Memory as Memory
use hackerpot.Blocklist.Memory.{is_blocked-block}
use hackerpot.Blocklist.Shedding.{block-sheds}
use hackerpot.Store.{
  MemoryStore, HoneypotHit, HitQuery, up_to, take_latest, query, query_hits, apply_query, list,
  score_for,
}
use hackerpot.Store as Store
use hackerpot.Store.Queries.{query-eq-apply_query}
use hackerpot.Store.Retention.{record_all, record_all-latest}

differs : (s t : String) → str_eq s t ≡ false → s ≢ t
differs s t h e = cc (h, ap (λ (x : String). str_eq x t) e, str_eq_self t)

-- A cache of two, with an entry each for "a" and "b".
abbrev cache : TtlLru ℕ
cache = record {
  capacity = 2;
  ttl_ms = 100;
  entries =
      ("a", record { value = 1; expires_at = 50 })
      ∷ ("b", record { value = 2; expires_at = 60 })
      ∷ [];
}

cache-IsValid : Bounds.IsValid cache
cache-IsValid = record {
  positive = omega arith;
  bounded = omega arith;
  distinct = (refl, (refl, tt));
}

-- A third key takes the place of the least recently used one.
set_evicts : Lru.peek "a" 11 (Lru.set "c" 3 10 cache) ≡ none
unfolding Lru.peek Lru.set Lru.evict Lru.sweep Lru.trim
set_evicts = refl

run-IsValid_example :
    Bounds.IsValid
      (Bounds.run (Bounds.sets "c" 3 10 ∷ Bounds.gets "b" 11 ∷ Bounds.prunes 12 ∷ []) cache)
run-IsValid_example =
    run-IsValid (Bounds.sets "c" 3 10 ∷ Bounds.gets "b" 11 ∷ Bounds.prunes 12 ∷ []) cache
      cache-IsValid

get-survives_example :
    Lru.peek "a" 11 (set_all (("c", 3, 10) ∷ []) (Lru.get "a" 10 cache).1) ≡ some 1
get-survives_example =
    get-survives "a" 10 11 cache 1 (("c", 3, 10) ∷ []) (unfold Lru.get in refl)
      ((differs "c" "a" refl, unfold Lru.peek in refl), tt) (omega arith) (unfold Lru.peek in refl)

abbrev event : ℕ → RequestEvent
event at = record { at = at; method = []; path = 47 ∷ []; status = seen }

count_in-replay_example :
    (count_in 5 20
      (replay (event 3 ∷ event 17 ∷ event 19 ∷ []) (Activity.create "198.51.100.7" 60 4096))).0
    ≡ min (max 1 4096) (count (within 20 5) (event 3 ∷ event 17 ∷ event 19 ∷ []))
count_in-replay_example =
    count_in-replay "198.51.100.7" 60 4096 (event 3 ∷ event 17 ∷ event 19 ∷ []) 5 20
      ((omega arith, (omega arith, tt)), ((omega arith, tt), (tt, tt)))
      (omega arith, (omega arith, (omega arith, tt))) (omega arith)

-- A tracker whose last event was let through.
abbrev let_through : IpTracker
let_through = record {
  ip = "198.51.100.7";
  events = event 3 ∷ record (event 5) { status = passed } ∷ event 7 ∷ [];
  window_ms = 60;
  max_events = 4096;
}

tracker_for-forgets_example :
    let r = Registry.create 100 10 4096 in
    let (t, r') =
      Registry.tracker_for "198.51.100.7" 60 (Registry.tracker_for "198.51.100.7" 0 r).1 in
    let t' = record_event [] (47 ∷ []) seen 60 t in
    ((Registry.tracker_for "198.51.100.7" 100 (Registry.write_back "198.51.100.7" t' r')).0.events
      ≡ [])
    × (0 < (count_in r.window_ms 100 t').0)
unfolding Registry.create
tracker_for-forgets_example =
    tracker_for-forgets "198.51.100.7" [] (47 ∷ []) seen 0 60 100 (Registry.create 100 10 4096)
      (Registry.create-IsSound 100 10 4096) (omega arith) (unfold Lru.peek in refl) (omega arith)
      (omega arith) (omega arith)

-- A full ledger of two.
abbrev ledger : Scores.ScoreLedger
ledger = record { scores = ("a", 4) ∷ ("b", 9) ∷ []; max_entries = 2 }

-- A full blocklist of two.
abbrev blocked : MemoryBlocklist
blocked = record { until = ("a", 50) ∷ ("b", 90) ∷ []; max_entries = 2 }

blocked-IsValid : Memory.IsValid blocked
blocked-IsValid = record {
  positive = omega arith;
  bounded = omega arith;
  distinct = (refl, (refl, tt));
}

block-sheds_example : 50 ≤ 90
block-sheds_example =
    block-sheds "c" 30 10 blocked "a" 50 blocked-IsValid (differs "c" "a" refl) refl (omega arith)
      (unfold Blocklist.block Blocklist.evict Blocklist.shed Blocklist.soonest_first
          Blocklist.insert_sorted in
        refl)
      "b" 90 refl (omega arith)

abbrev hit : String → ℕ → HoneypotHit
hit ip points = record {
  id = "1";
  timestamp = "2026-01-01T00:00:00.000Z";
  ip = ip;
  method = [];
  path = 47 ∷ [];
  fingerprint = none;
  marker = none;
  confidence = none;
  detections = [];
  shadow_detections = [];
  score = points;
  total_score = points;
  responded_with = "tarpit";
  rule = none;
  reason = none;
  downgraded_from = none;
}

abbrev stored_hits : MemoryStore
stored_hits = record {
  hits = hit "a" 4 ∷ hit "b" 9 ∷ hit "a" 3 ∷ [];
  scores = ledger;
  max_hits = 3;
}

abbrev latest_of_a : HitQuery
latest_of_a = record {
  ip = some "a";
  detector = none;
  fingerprint = none;
  since_ms = none;
  limit = some (up_to 1);
}

query-eq-apply_query_example :
    (query (λ t. none) stored_hits latest_of_a
      ≡ apply_query (λ t. none) (list stored_hits) latest_of_a)
    × (query_hits (λ t. none) (some (query (λ t. none) stored_hits)) (list stored_hits) latest_of_a
        ≡ query_hits (λ t. none) none (list stored_hits) latest_of_a)
query-eq-apply_query_example = query-eq-apply_query (λ t. none) stored_hits latest_of_a

record_all-latest_example :
    list (record_all (hit "a" 4 ∷ hit "b" 9 ∷ hit "a" 3 ∷ []) (Store.create 2 1))
    ≡ take_latest (hit "a" 4 ∷ hit "b" 9 ∷ hit "a" 3 ∷ []) (some (up_to (max 1 2)))
record_all-latest_example = record_all-latest 2 1 (hit "a" 4 ∷ hit "b" 9 ∷ hit "a" 3 ∷ [])
