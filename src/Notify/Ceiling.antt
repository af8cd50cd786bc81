-- ===== src/Notify/Ceiling.antt =====
-- src/notify/hub.ts: the ceiling of a window.
use hackerpot.Common.{
  ℕ, ◌+◌, ◌-◌, ◌≤◌, ◌<◌, ◌≡◌, refl, ap, ◌∙◌, Bool, true, false, ◌&&◌, List, [], ◌∷◌, Option, none,
  some, arith, leb, ltb, length, length-append, Bool-cases, inl, inr, String, All, leb_false→lt,
  le→leb,
}
use hackerpot.Lru
use hackerpot.Lru.{TtlLru}
use hackerpot.Notify.{
  NotifyEvent, event, NotificationHub, Incident, is_wanted, roll, suppress, deliver, deduplicated,
  bounded, emit, is_graded, key_of,
}

-- Events one after another, each with the time it is emitted at.
unfoldable pub emit_all : List (NotifyEvent × ℕ) → NotificationHub → NotificationHub
emit_all [] h = h
emit_all ((e, now) ∷ es) h = emit_all es (emit e now h)

-- What a step inside a window may do to the hub.
record IsWithin (before after : NotificationHub) : Type 0 where
  same_max : after.max_per_window ≡ before.max_per_window
  same_window : after.dedupe_window_ms ≡ before.dedupe_window_ms
  same_start : after.window_start ≡ before.window_start
  paid : length after.outbox + before.window_count ≡ length before.outbox + after.window_count
  grows : before.window_count ≤ after.window_count
  few : before.window_count ≤ before.max_per_window → after.window_count ≤ before.max_per_window

unmoved :
    (h g : NotificationHub)
    → g.max_per_window ≡ h.max_per_window
    → g.dedupe_window_ms ≡ h.dedupe_window_ms
    → g.window_start ≡ h.window_start
    → g.outbox ≡ h.outbox
    → g.window_count ≡ h.window_count
    → IsWithin h g
unmoved h g m w s o c = record {
  same_max = m;
  same_window = w;
  same_start = s;
  paid = omega (arith, ap length o, c);
  grows = omega (arith, c);
  few = λ le. omega (arith, c, le);
}

deliver-IsWithin : (e : NotifyEvent) (h : NotificationHub) → IsWithin h (deliver e h)
deliver-IsWithin e h = elim (Bool-cases (leb h.max_per_window h.window_count)) [
  | inl full ↦ rw full (unmoved h (suppress h) refl refl refl refl refl)
  | inr free ↦
      let lt = leb_false→lt h.max_per_window h.window_count free in
      rw free (record {
        same_max = refl;
        same_window = refl;
        same_start = refl;
        paid = omega (arith, length-append h.outbox (event e ∷ []));
        grows = omega arith;
        few = λ le. omega (arith, lt);
      })
]

deduplicated-IsWithin :
    (e : NotifyEvent) (key : String) (now : ℕ) (h : NotificationHub)
    (found : Option Bool × TtlLru Bool)
    → IsWithin h (deduplicated e key now h found)
deduplicated-IsWithin e key now h (some seen, cache) =
    unmoved h (suppress (record h { dedupe = cache })) refl refl refl refl refl
deduplicated-IsWithin e key now h (none, cache) =
    let d = deliver-IsWithin e (record h { dedupe = Lru.set key true now cache }) in
    record {
      same_max = d.same_max;
      same_window = d.same_window;
      same_start = d.same_start;
      paid = d.paid;
      grows = d.grows;
      few = d.few;
    }

bounded-IsWithin :
    (e : NotifyEvent) (now : ℕ) (h : NotificationHub) (b : Bool) (i : Option Incident)
    → IsWithin h (bounded e now h b i)
bounded-IsWithin e now h true (some i) =
    deduplicated-IsWithin e (key_of e.type i) now h (Lru.get (key_of e.type i) now h.dedupe)
bounded-IsWithin e now h true none = deliver-IsWithin e h
bounded-IsWithin e now h false i = deliver-IsWithin e h

-- A window that is not over, or that never ends.
abbrev pub IsOpen : ℕ → NotificationHub → Type 0
IsOpen now h = (ltb 0 h.dedupe_window_ms && leb (h.window_start + h.dedupe_window_ms) now) ≡ false

emit-IsWithin :
    (e : NotifyEvent) (now : ℕ) (h : NotificationHub) → IsOpen now h → IsWithin h (emit e now h)
unfolding emit roll
emit-IsWithin e now h o = elim (Bool-cases (leb (length h.sinks) 0)) [
  | inl idle ↦ rw idle (unmoved h h refl refl refl refl refl)
  | inr heard ↦ elim (Bool-cases (is_wanted h e)) [
    | inl wanted ↦
        rw (heard, wanted, o)
          (bounded-IsWithin e now h (ltb 0 h.dedupe_window_ms && is_graded e.type) e.incident)
    | inr unwanted ↦ rw (heard, unwanted) (unmoved h h refl refl refl refl refl)
  ]
]

stays-IsOpen : (now : ℕ) (h g : NotificationHub) → IsWithin h g → IsOpen now h → IsOpen now g
stays-IsOpen now h g w o = rw (w.same_window, w.same_start) o

All-stays-IsOpen :
    (es : List (NotifyEvent × ℕ)) (h g : NotificationHub)
    → IsWithin h g
    → All (λ (p : NotifyEvent × ℕ). IsOpen p.1 h) es
    → All (λ (p : NotifyEvent × ℕ). IsOpen p.1 g) es
All-stays-IsOpen [] h g w o = tt
All-stays-IsOpen (p ∷ es) h g w o = (stays-IsOpen p.1 h g w o.0, All-stays-IsOpen es h g w o.1)

emit_all-IsWithin :
    (es : List (NotifyEvent × ℕ)) (h : NotificationHub)
    → All (λ (p : NotifyEvent × ℕ). IsOpen p.1 h) es
    → h.window_count ≤ h.max_per_window
    → length (emit_all es h).outbox + h.window_count ≤ length h.outbox + h.max_per_window
unfolding emit_all
emit_all-IsWithin [] h o f = omega (arith, f)
emit_all-IsWithin ((e, now) ∷ es) h o f =
    let g = emit e now h in
    let w = emit-IsWithin e now h o.0 in
    let le = w.few f in
    let rest =
      emit_all-IsWithin es g (All-stays-IsOpen es h g w o.1) (omega (arith, le, w.same_max)) in
    omega (arith, rest, w.paid, w.same_max, le)

IsOpen-before :
    (now : ℕ) (h : NotificationHub) → now < h.window_start + h.dedupe_window_ms → IsOpen now h
IsOpen-before now h l = ground arith

All-IsOpen_before :
    (es : List (NotifyEvent × ℕ)) (h : NotificationHub)
    → All (λ (p : NotifyEvent × ℕ). p.1 < h.window_start + h.dedupe_window_ms) es
    → All (λ (p : NotifyEvent × ℕ). IsOpen p.1 h) es
All-IsOpen_before [] h l = tt
All-IsOpen_before (p ∷ es) h l = (IsOpen-before p.1 h l.0, All-IsOpen_before es h l.1)

-- Until a window is over the sinks are given no more than what is left under its ceiling, however many
-- events are emitted.
pub emit_all-ceiling :
    (es : List (NotifyEvent × ℕ)) (h : NotificationHub)
    → All (λ (p : NotifyEvent × ℕ). p.1 < h.window_start + h.dedupe_window_ms) es
    → h.window_count ≤ h.max_per_window
    → length (emit_all es h).outbox ≤ length h.outbox + (h.max_per_window - h.window_count)
emit_all-ceiling es h l f = omega (arith, emit_all-IsWithin es h (All-IsOpen_before es h l) f)

record IsMuted (before after : NotificationHub) : Type 0 where
  same_outbox : after.outbox ≡ before.outbox
  same_window : after.dedupe_window_ms ≡ before.dedupe_window_ms
  same_max : after.max_per_window ≡ before.max_per_window
  same_count : after.window_count ≡ before.window_count

deliver-IsMuted :
    (e : NotifyEvent) (h : NotificationHub)
    → h.max_per_window ≤ h.window_count
    → IsMuted h (deliver e h)
deliver-IsMuted e h f =
    let full = le→leb h.max_per_window h.window_count f in
    rw full (record { same_outbox = refl; same_window = refl; same_max = refl; same_count = refl })

bounded-IsMuted :
    (e : NotifyEvent) (now : ℕ) (h : NotificationHub) (b : Bool) (i : Option Incident)
    → b ≡ false
    → h.max_per_window ≤ h.window_count
    → IsMuted h (bounded e now h b i)
bounded-IsMuted e now h true i off f = absurd (cc off)
bounded-IsMuted e now h false i off f = deliver-IsMuted e h f

emit-IsMuted :
    (e : NotifyEvent) (now : ℕ) (h : NotificationHub)
    → ltb 0 h.dedupe_window_ms ≡ false
    → h.max_per_window ≤ h.window_count
    → IsMuted h (emit e now h)
unfolding emit roll
emit-IsMuted e now h z f = elim (Bool-cases (leb (length h.sinks) 0)) [
  | inl idle ↦
      rw idle
        (record { same_outbox = refl; same_window = refl; same_max = refl; same_count = refl })
  | inr heard ↦ elim (Bool-cases (is_wanted h e)) [
    | inl wanted ↦
        rw (heard, wanted, z)
          (bounded-IsMuted e now h (ltb 0 h.dedupe_window_ms && is_graded e.type) e.incident
            (ap (λ (b : Bool). b && is_graded e.type) z) f)
    | inr unwanted ↦
        rw (heard, unwanted)
          (record { same_outbox = refl; same_window = refl; same_max = refl; same_count = refl })
  ]
]

-- With a deduplication window of zero no window ever ends: once as many events as the ceiling allows
-- were delivered, nothing reaches the sinks again, neither an event nor a summary, at whatever time.
pub emit_all-silent :
    (es : List (NotifyEvent × ℕ)) (h : NotificationHub)
    → h.dedupe_window_ms ≡ 0
    → h.max_per_window ≤ h.window_count
    → (emit_all es h).outbox ≡ h.outbox
unfolding emit_all
emit_all-silent [] h z f = refl
emit_all-silent ((e, now) ∷ es) h z f =
    let m = emit-IsMuted e now h (rw z refl) f in
    emit_all-silent es (emit e now h) (m.same_window ∙ z)
      (omega (arith, f, m.same_max, m.same_count))
    ∙ m.same_outbox
