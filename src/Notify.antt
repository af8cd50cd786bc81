-- ===== src/Notify.antt =====
-- src/notify/hub.ts: `NotificationHub`, which passes events on to its sinks, filtered, deduplicated and
-- under a ceiling. A sink's own failure is contained by the hub and not modelled: what is passed on is
-- listed in `outbox`, the oldest first. Listening to the broker is left out.
pub mod Accounting
pub mod Ceiling
use Prim.Native.String.{◌++◌ as concat}
use hackerpot.Common.{
  ℕ, suc, ◌+◌, String, Bool, true, false, ◌&&◌, not, Option, none, some, List, [], ◌∷◌, ◌++◌, any,
  max, leb, ltb, if◌then◌else◌, or_else, length,
}
use hackerpot.Lru
use hackerpot.Lru.{TtlLru}
use hackerpot.Evidence.{Detection}
use hackerpot.Policy.{has_proof}

pub data NotifyEventType : Type 0 where
  hit downgrade anomaly error : NotifyEventType

abbrev pub same_type : NotifyEventType → NotifyEventType → Bool
same_type hit hit = true
same_type downgrade downgrade = true
same_type anomaly anomaly = true
same_type error error = true
same_type _ _ = false

abbrev pub type_name : NotifyEventType → String
type_name hit = "hit"
type_name downgrade = "downgrade"
type_name anomaly = "anomaly"
type_name error = "error"

-- The part of an incident that the hub reads.
pub record Incident : Type 0 where
  pub ip : String
  pub responded_with : String
  pub rule : Option String
  pub total_score : ℕ
  pub detections : List Detection

pub record NotifyEvent : Type 0 where
  pub type : NotifyEventType
  pub incident : Option Incident

-- What the sinks are given: an event, or the summary of how many were suppressed.
pub data Sent : Type 0 where
  event : NotifyEvent → Sent
  summary : ℕ → Sent

pub record NotificationHub : Type 0 where
  pub sinks : List String
  pub types : List NotifyEventType
  pub min_score : ℕ
  pub certain_only : Bool
  pub dedupe : TtlLru Bool
  pub dedupe_window_ms : ℕ
  pub max_per_window : ℕ
  pub window_start : ℕ
  pub window_count : ℕ
  pub suppressed : ℕ
  pub outbox : List Sent

abbrev pub max_dedupe_keys : ℕ
max_dedupe_keys = 10000

-- The constructor, at the time `now` and without sinks.
unfoldable pub create : List NotifyEventType → ℕ → Bool → ℕ → ℕ → ℕ → NotificationHub
create types min_score certain_only dedupe_window_ms max_per_window now = record {
  sinks = [];
  types = types;
  min_score = min_score;
  certain_only = certain_only;
  dedupe = record { capacity = max_dedupe_keys; ttl_ms = max 1 dedupe_window_ms; entries = [] };
  dedupe_window_ms = dedupe_window_ms;
  max_per_window = max 1 max_per_window;
  window_start = now;
  window_count = 0;
  suppressed = 0;
  outbox = [];
}

unfoldable pub add_sink : String → NotificationHub → NotificationHub
add_sink id h = record h { sinks = h.sinks ++ id ∷ [] }

abbrev pub is_graded : NotifyEventType → Bool
is_graded hit = true
is_graded downgrade = true
is_graded anomaly = false
is_graded error = false

abbrev pub strong_enough : NotificationHub → Incident → Bool
strong_enough h i =
    let proven = has_proof i.detections in
    if h.certain_only && not proven
    then false
    else if not proven && ltb i.total_score h.min_score
    then false
    else true

abbrev pub passes : NotificationHub → Bool → Option Incident → Bool
passes h true (some i) = strong_enough h i
passes h true none = true
passes h false incident = true

-- The filter of `shouldDeliver`.
unfoldable pub is_wanted : NotificationHub → NotifyEvent → Bool
is_wanted h e = any (λ t. same_type e.type t) h.types && passes h (is_graded e.type) e.incident

abbrev pub with_summary : ℕ → List Sent → List Sent
with_summary dropped outbox = if ltb 0 dropped then outbox ++ summary dropped ∷ [] else outbox

-- A window that is over starts again, and says what it hid.
unfoldable pub roll : ℕ → NotificationHub → NotificationHub
roll now h =
    if ltb 0 h.dedupe_window_ms && leb (h.window_start + h.dedupe_window_ms) now
    then record h {
      window_start = now;
      window_count = 0;
      suppressed = 0;
      outbox = with_summary h.suppressed h.outbox;
    }
    else h

-- `${event.type}:${incident.ip}:${incident.respondedWith}:${incident.rule ?? ""}`.
abbrev pub key_of : NotifyEventType → Incident → String
key_of t i = concat (type_name t) (
    concat ":"
      (concat i.ip (concat ":" (concat i.responded_with (concat ":" (or_else i.rule ""))))))

abbrev pub suppress : NotificationHub → NotificationHub
suppress h = record h { suppressed = suc h.suppressed }

-- The ceiling of the window, and the delivery.
abbrev pub deliver : NotifyEvent → NotificationHub → NotificationHub
deliver e h =
    if leb h.max_per_window h.window_count
    then suppress h
    else record h { window_count = suc h.window_count; outbox = h.outbox ++ event e ∷ [] }

abbrev pub deduplicated :
    NotifyEvent → String → ℕ → NotificationHub → Option Bool × TtlLru Bool → NotificationHub
deduplicated e key now h (some seen, cache) = suppress (record h { dedupe = cache })
deduplicated e key now h (none, cache) =
    deliver e (record h { dedupe = Lru.set key true now cache })

abbrev pub bounded : NotifyEvent → ℕ → NotificationHub → Bool → Option Incident → NotificationHub
bounded e now h true (some i) =
    deduplicated e (key_of e.type i) now h (Lru.get (key_of e.type i) now h.dedupe)
bounded e now h true none = deliver e h
bounded e now h false incident = deliver e h

abbrev pub consider : NotifyEvent → ℕ → NotificationHub → NotificationHub
consider e now h = bounded e now h (ltb 0 h.dedupe_window_ms && is_graded e.type) e.incident

-- `emit`.
unfoldable pub emit : NotifyEvent → ℕ → NotificationHub → NotificationHub
unfolding roll is_wanted
emit e now h =
    if leb (length h.sinks) 0 then h else if is_wanted h e then consider e now (roll now h) else h
