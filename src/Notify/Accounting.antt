-- ===== src/Notify/Accounting.antt =====
-- src/notify/hub.ts: what the hub hides it also reports.
use hackerpot.Common.{
  ℕ, suc, ◌+◌, ◌<◌, ◌≡◌, refl, Bool, true, false, ◌&&◌, List, [], ◌∷◌, ◌++◌, Option, none, some,
  arith, if◌then◌else◌, leb, ltb, length, Bool-cases, inl, inr, String,
}
use hackerpot.Lru
use hackerpot.Lru.{TtlLru}
use hackerpot.Notify.{
  NotifyEvent, Sent, event, summary, NotificationHub, Incident, is_wanted, with_summary, roll,
  deliver, deduplicated, bounded, emit, is_graded, key_of,
}

-- How many events an entry of the outbox stands for.
abbrev pub stands_for : Sent → ℕ
stands_for (event e) = 1
stands_for (summary n) = n

abbrev pub told : List Sent → ℕ
told [] = 0
told (s ∷ ss) = stands_for s + told ss

-- The events delivered, reported as suppressed, and suppressed since the last report.
abbrev pub accounted : NotificationHub → ℕ
accounted h = told h.outbox + h.suppressed

told-append : (xs ys : List Sent) → told (xs ++ ys) ≡ told xs + told ys
told-append [] ys = omega arith
told-append (x ∷ xs) ys = omega (arith, told-append xs ys)

told-with_summary : (n : ℕ) (xs : List Sent) → told (with_summary n xs) ≡ told xs + n
told-with_summary n xs = ground (arith, told-append xs (summary n ∷ []))

roll-accounted : (now : ℕ) (h : NotificationHub) → accounted (roll now h) ≡ accounted h
unfolding roll
roll-accounted now h =
    elim (Bool-cases (ltb 0 h.dedupe_window_ms && leb (h.window_start + h.dedupe_window_ms) now)) [
      | inl over ↦ rw over (omega (arith, told-with_summary h.suppressed h.outbox))
      | inr within ↦ rw within refl
    ]

deliver-accounted :
    (e : NotifyEvent) (h : NotificationHub) → accounted (deliver e h) ≡ suc (accounted h)
deliver-accounted e h = elim (Bool-cases (leb h.max_per_window h.window_count)) [
  | inl full ↦ rw full (omega arith)
  | inr free ↦ rw free (omega (arith, told-append h.outbox (event e ∷ [])))
]

deduplicated-accounted :
    (e : NotifyEvent) (key : String) (now : ℕ) (h : NotificationHub)
    (found : Option Bool × TtlLru Bool)
    → accounted (deduplicated e key now h found) ≡ suc (accounted h)
deduplicated-accounted e key now h (some seen, cache) = omega arith
deduplicated-accounted e key now h (none, cache) =
    deliver-accounted e (record h { dedupe = Lru.set key true now cache })

bounded-accounted :
    (e : NotifyEvent) (now : ℕ) (h : NotificationHub) (b : Bool) (i : Option Incident)
    → accounted (bounded e now h b i) ≡ suc (accounted h)
bounded-accounted e now h true (some i) =
    deduplicated-accounted e (key_of e.type i) now h (Lru.get (key_of e.type i) now h.dedupe)
bounded-accounted e now h true none = deliver-accounted e h
bounded-accounted e now h false i = deliver-accounted e h

-- Every event that the filter wants is delivered, counted in a summary that the sinks were given, or
-- still counted as suppressed, and nothing else is: one for each event, while there is a sink.
pub emit-accounted :
    (e : NotifyEvent) (now : ℕ) (h : NotificationHub)
    → 0 < length h.sinks
    → accounted (emit e now h) ≡ accounted h + (if is_wanted h e then 1 else 0)
unfolding emit
emit-accounted e now h s =
    let sinks : leb (length h.sinks) 0 ≡ false = ground arith in
    let rolled = roll now h in
    let one =
      bounded-accounted e now rolled (ltb 0 rolled.dedupe_window_ms && is_graded e.type)
        e.incident in
    let same = roll-accounted now h in
    elim (Bool-cases (is_wanted h e)) [
      | inl wanted ↦ rw (sinks, wanted) (omega (arith, one, same))
      | inr unwanted ↦ rw (sinks, unwanted) (omega arith)
    ]
