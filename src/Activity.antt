-- ===== src/Activity.antt =====
-- src/state.ts: the activity window of one address (`IpTracker`). A path is a list of UTF-16 code
-- units, since the code cuts it by length. Times are natural numbers of milliseconds; a test
-- `at >= now - ms` is written `now <= at + ms`, which is the same over the integers.
pub mod Window
pub mod Counts
pub mod Bounds
pub mod Newest
pub mod Confirm
pub mod Registry
pub mod Fingerprints
pub mod Rotation
pub mod Unlisted
use hackerpot.Common.{
  ℕ, zero, suc, ◌+◌, ◌-◌, String, Bool, true, false, ◌&&◌, not, List, [], ◌∷◌, ◌++◌, reverse, leb,
  ltb, max, if◌then◌else◌, length, drop, take, keep, count, same_units, mem_units,
}

pub data Status : Type 0 where
  flagged seen passed : Status

abbrev pub is_passed : Status → Bool
is_passed passed = true
is_passed flagged = false
is_passed seen = false

pub record RequestEvent : Type 0 where
  pub at : ℕ
  pub method : List ℕ
  pub path : List ℕ
  pub status : Status

abbrev pub max_path_chars : ℕ
max_path_chars = 512

abbrev pub default_max_events : ℕ
default_max_events = 4096

pub record IpTracker : Type 0 where
  pub ip : String
  pub events : List RequestEvent
  pub window_ms : ℕ
  pub max_events : ℕ

-- The constructor.
unfoldable pub create : String → ℕ → ℕ → IpTracker
create ip window_ms max_events = record {
  ip = ip;
  events = [];
  window_ms = window_ms;
  max_events = max 1 max_events;
}

abbrev pub with_events : IpTracker → List RequestEvent → IpTracker
with_events t es = record t { events = es }

-- `event.at >= now - ms`.
abbrev pub within : ℕ → ℕ → RequestEvent → Bool
within now ms e = leb now (e.at + ms)

-- `path.length > MAX_PATH_CHARS ? path.slice(0, MAX_PATH_CHARS) : path`.
unfoldable pub cut : ℕ → List ℕ → List ℕ
cut n path = if ltb n (length path) then take n path else path

unfoldable pub clip : List ℕ → List ℕ
clip path = cut max_path_chars path

-- The early return of `prune`: the oldest event is still in the window.
abbrev pub first_within : ℕ → ℕ → List RequestEvent → Bool
first_within now ms [] = false
first_within now ms (e ∷ es) = within now ms e

unfoldable pub prune_events : ℕ → ℕ → List RequestEvent → List RequestEvent
prune_events now ms es = if first_within now ms es then es else keep (within now ms) es

unfoldable pub prune : ℕ → IpTracker → IpTracker
prune now t = with_events t (prune_events now t.window_ms t.events)

-- The newest `n` entries: what `splice(0, length - n)` leaves where there are more.
unfoldable pub latest {ℓ} : {A : Type ℓ} → ℕ → List A → List A
latest n xs = if ltb n (length xs) then drop (length xs - n) xs else xs

unfoldable pub record_event : List ℕ → List ℕ → Status → ℕ → IpTracker → IpTracker
record_event method path status now t =
    let e : RequestEvent = record {
      at = now;
      method = method;
      path = clip path;
      status = status;
    } in
    with_events t (latest t.max_events (prune_events now t.window_ms (t.events ++ e ∷ [])))

-- `recent` prunes, and hands out the events; so do the queries below, which read them.
unfoldable pub recent : ℕ → IpTracker → List RequestEvent × IpTracker
unfolding prune
recent now t = let t' = prune now t in (t'.events, t')

unfoldable pub count_in : ℕ → ℕ → IpTracker → ℕ × IpTracker
unfolding recent
count_in ms now t = let (events, t') = recent now t in (count (within now ms) events, t')

-- `Set.add`, over paths.
abbrev pub add_path : List ℕ → List (List ℕ) → List (List ℕ)
add_path p ps = if mem_units p ps then ps else ps ++ p ∷ []

unfoldable pub collect_paths :
    (RequestEvent → Bool) → List RequestEvent → List (List ℕ) → List (List ℕ)
collect_paths q [] ps = ps
collect_paths q (e ∷ es) ps = collect_paths q es (if q e then add_path e.path ps else ps)

abbrev pub counted : ℕ → ℕ → RequestEvent → Bool
counted now ms e = within now ms e && not (is_passed e.status)

unfoldable pub unique_paths_in : ℕ → ℕ → IpTracker → ℕ × IpTracker
unfolding recent
unique_paths_in ms now t =
    let (events, t') = recent now t in (length (collect_paths (counted now ms) events []), t')

abbrev pub awaits : List ℕ → RequestEvent → Bool
awaits key e = is_passed e.status && same_units e.path key

-- The loop of `confirmPath`, newest event first.
unfoldable pub promote : List ℕ → List RequestEvent → List RequestEvent
promote key [] = []
promote key (e ∷ es) = if awaits key e then record e { status = seen } ∷ es else e ∷ promote key es

unfoldable pub confirm_path : List ℕ → IpTracker → IpTracker
confirm_path path t = with_events t (reverse (promote (clip path) (reverse t.events)))

unfoldable pub count_path_in : List ℕ → ℕ → ℕ → IpTracker → ℕ × IpTracker
unfolding recent
count_path_in path ms now t =
    let (events, t') = recent now t in
    (count (λ e. within now ms e && same_units e.path path) events, t')
