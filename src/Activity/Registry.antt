-- ===== src/Activity/Registry.antt =====
-- src/state.ts: `ActivityRegistry`, the trackers of all addresses behind a bounded cache. A tracker
-- is an object that the registry shares with its callers: `write_back` is the registry once a caller
-- has changed the tracker that it was handed.
use hackerpot.Common.{ℕ, ◌+◌, ◌≤◌, ◌<◌, ◌≡◌, refl, ap, ◌∙◌, String, none, List, [], max, arith}
use hackerpot.Lru
use hackerpot.Lru.{TtlLru, Entry}
use hackerpot.Lru.Bounds
use hackerpot.Lru.Reads
use hackerpot.Lru.Values.{Stored, get_or_create-Stored, modify-Stored}
use hackerpot.Activity.{IpTracker, Status, record_event, count_in}
use hackerpot.Activity
use hackerpot.Activity.Newest.{record_event-EndsWith, count_in-newest}
use hackerpot.Activity.Bounds.{IsBounded, create-IsBounded}

pub record ActivityRegistry : Type 0 where
  pub trackers : TtlLru IpTracker
  pub window_ms : ℕ
  pub max_events_per_ip : ℕ

-- The constructor. The cache is built with a capacity and a lifetime of at least one.
unfoldable pub create : ℕ → ℕ → ℕ → ActivityRegistry
create window_ms max_tracked_ips max_events_per_ip = record {
  trackers = record { capacity = max 1 max_tracked_ips; ttl_ms = max 1 window_ms; entries = [] };
  window_ms = window_ms;
  max_events_per_ip = max_events_per_ip;
}

abbrev fresh_tracker : String → ActivityRegistry → IpTracker
fresh_tracker ip r = Activity.create ip r.window_ms r.max_events_per_ip

-- `for`.
unfoldable pub tracker_for : String → ℕ → ActivityRegistry → IpTracker × ActivityRegistry
tracker_for ip now r =
    let (t, trackers) = Lru.get_or_create ip (fresh_tracker ip r) now r.trackers in
    (t, record r { trackers = trackers })

unfoldable pub write_back : String → IpTracker → ActivityRegistry → ActivityRegistry
write_back ip t r = record r { trackers = Lru.modify ip t r.trackers }

-- A tracker stands under its own address and is within its bounds.
abbrev pub IsOwn : String → IpTracker → Type 0
IsOwn ip t = (t.ip ≡ ip) × IsBounded t

pub record IsSound (r : ActivityRegistry) : Type 0 where
  pub cache : Bounds.IsValid r.trackers
  pub lifetime : 0 < r.trackers.ttl_ms
  pub own : Stored IsOwn r.trackers.entries

pub create-IsSound : (window ips events : ℕ) → IsSound (create window ips events)
unfolding create
create-IsSound window ips events = record {
  cache = record { positive = omega arith; bounded = omega arith; distinct = tt };
  lifetime = omega arith;
  own = tt;
}

fresh-IsOwn : (ip : String) (r : ActivityRegistry) → IsOwn ip (fresh_tracker ip r)
unfolding Activity.create
fresh-IsOwn ip r = (refl, create-IsBounded ip r.window_ms r.max_events_per_ip)

-- The registry hands out the tracker of the address that is asked for, within its bounds, and stays
-- sound: within its capacity, and with every tracker under its own address.
pub tracker_for-IsOwn :
    (ip : String) (now : ℕ) (r : ActivityRegistry)
    → IsSound r
    → IsOwn ip (tracker_for ip now r).0 × IsSound (tracker_for ip now r).1
unfolding tracker_for
tracker_for-IsOwn ip now r s =
    let (handed, left) =
      get_or_create-Stored IsOwn ip (fresh_tracker ip r) now r.trackers s.own (fresh-IsOwn ip r) in
    (
      handed,
      record {
        cache = Bounds.get_or_create-IsValid ip (fresh_tracker ip r) now r.trackers s.cache;
        lifetime = omega (
          arith,
          (Bounds.get_or_create-params ip (fresh_tracker ip r) now r.trackers).0,
          s.lifetime,
        );
        own = left;
      },
    )

-- Writing back a tracker that is the address's own keeps the registry sound.
pub write_back-IsSound :
    (ip : String) (t : IpTracker) (r : ActivityRegistry)
    → IsSound r
    → IsOwn ip t
    → IsSound (write_back ip t r)
unfolding write_back Lru.modify
write_back-IsSound ip t r s o = record {
  cache = Bounds.modify-IsValid ip t r.trackers s.cache;
  lifetime = s.lifetime;
  own = modify-Stored IsOwn ip t r.trackers.entries s.own o;
}

fresh-empty : (ip : String) (r : ActivityRegistry) → (fresh_tracker ip r).events ≡ []
unfolding Activity.create
fresh-empty ip r = refl

still_counted :
    (ip : String) (method path : List ℕ) (status : Status) (used later : ℕ) (r : ActivityRegistry)
    → 0 < r.max_events_per_ip
    → later ≤ used + r.window_ms
    → 0 < (count_in r.window_ms later (record_event method path status used (fresh_tracker ip r))).0
unfolding record_event Activity.create
still_counted ip method path status used later r p w =
    count_in-newest r.window_ms later _ _
      (record_event-EndsWith method path status used (fresh_tracker ip r) (omega arith)) w
      (omega arith)

-- The registry does not restart a tracker's lifetime when the tracker is used: a window after the
-- first request of an address it hands out an empty tracker, also where the address has been active
-- since, at a time at which its own tracker would still count that later request.
pub tracker_for-forgets :
    (ip : String) (method path : List ℕ) (status : Status) (start used later : ℕ)
    (r : ActivityRegistry)
    → IsSound r
    → 0 < r.max_events_per_ip
    → Lru.peek ip start r.trackers ≡ none
    → used < start + r.trackers.ttl_ms
    → start + r.trackers.ttl_ms ≤ later
    → later ≤ used + r.window_ms
    → let (t, r') = tracker_for ip used (tracker_for ip start r).1 in
      let t' = record_event method path status used t in
      ((tracker_for ip later (write_back ip t' r')).0.events ≡ [])
      × (0 < (count_in r.window_ms later t').0)
unfolding tracker_for write_back Lru.modify
tracker_for-forgets ip method path status start used later r s p unseen u l w =
    let x = fresh_tracker ip r in
    let c = r.trackers in
    let c' = (Lru.get_or_create ip x start c).1 in
    let c'' = (Lru.get_or_create ip x used c').1 in
    let (_, made) = Reads.get_or_create_missed ip x start c s.cache s.lifetime unseen in
    let (same, kept) = Reads.get_or_create_found ip x used c' _ made u in
    let t' = record_event method path status used (Lru.get_or_create ip x used c').0 in
    let changed = Bounds.lookup-modify_self ip t' c''.entries _ kept in
    let renewed = Reads.get_or_create_expired ip x later (Lru.modify ip t' c'') _ changed l in
    (
      ap (λ (t : IpTracker). t.events) renewed ∙ fresh-empty ip r,
      rw same (still_counted ip method path status used later r p w),
    )
