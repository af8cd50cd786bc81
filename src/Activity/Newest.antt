-- ===== src/Activity/Newest.antt =====
-- src/state.ts: the newest request is in the window whatever else the tracker drops.
use hackerpot.Common.{
  ℕ, zero, suc, ◌+◌, ◌-◌, ◌≤◌, ◌<◌, ◌≡◌, refl, ap, ◌∙◌, Bool, true, List, [], ◌∷◌, ◌++◌, ltb,
  length, drop, keep, count, arith, length-append, keep-append, Bool-cases, inl, inr, le→leb,
  length-keep,
}
use hackerpot.Activity.{
  RequestEvent, Status, IpTracker, within, latest, clip, prune_events, record_event, count_in,
}

-- The list ends with the event.
abbrev pub EndsWith : List RequestEvent → RequestEvent → Type 0
EndsWith es e = (xs : List RequestEvent) × (es ≡ xs ++ e ∷ [])

keep-EndsWith :
    (q : RequestEvent → Bool) (es : List RequestEvent) (e : RequestEvent)
    → EndsWith es e
    → q e ≡ true
    → EndsWith (keep q es) e
keep-EndsWith q es e (xs, split) h =
    (keep q xs, ap (keep q) split ∙ keep-append q xs (e ∷ []) ∙ rw h refl)

prune_events-EndsWith :
    (now ms : ℕ) (es : List RequestEvent) (e : RequestEvent)
    → EndsWith es e
    → within now ms e ≡ true
    → EndsWith (prune_events now ms es) e
unfolding prune_events
prune_events-EndsWith now ms [] e w h = keep-EndsWith (within now ms) [] e w h
prune_events-EndsWith now ms (f ∷ es) e w h = elim (Bool-cases (within now ms f)) [
  | inl new ↦ rw new w
  | inr old ↦ rw old (rw old at (keep-EndsWith (within now ms) (f ∷ es) e w h))
]

drop-append :
    (n : ℕ) (xs : List RequestEvent) (e : RequestEvent)
    → n ≤ length xs
    → drop n (xs ++ e ∷ []) ≡ drop n xs ++ e ∷ []
drop-append zero xs e h = refl
drop-append (suc n) [] e h = absurd (omega arith)
drop-append (suc n) (x ∷ xs) e h = drop-append n xs e (omega arith)

latest-EndsWith :
    (n : ℕ) (es : List RequestEvent) (e : RequestEvent)
    → 0 < n
    → EndsWith es e
    → EndsWith (latest n es) e
unfolding latest
latest-EndsWith n es e p (xs, split) = elim (Bool-cases (ltb n (length es))) [
  | inl over ↦
      let size : length es ≡ suc (length xs) =
        ap length split ∙ omega (arith, length-append xs (e ∷ [])) in
      rw over (
        drop (length es - n) xs,
        ap (drop (length es - n)) split ∙ drop-append (length es - n) xs e (omega arith),
      )
  | inr fits ↦ rw fits (xs, split)
]

-- The newest request is always kept, as the last event.
pub record_event-EndsWith :
    (method path : List ℕ) (status : Status) (now : ℕ) (t : IpTracker)
    → 0 < t.max_events
    → EndsWith
        (record_event method path status now t).events
        (record { at = now; method = method; path = clip path; status = status })
unfolding record_event
record_event-EndsWith method path status now t p =
    latest-EndsWith t.max_events _ _ p
      (prune_events-EndsWith now t.window_ms _ _ (t.events, refl) (le→leb _ _ (omega arith)))

-- A list that ends with an event in the span counts at least one there.
pub count-EndsWith :
    (q : RequestEvent → Bool) (es : List RequestEvent) (e : RequestEvent)
    → EndsWith es e
    → q e ≡ true
    → 0 < count q es
count-EndsWith q es e w h =
    let (xs, split) = keep-EndsWith q es e w h in
    omega (arith, length-keep q es, ap length split, length-append xs (e ∷ []))

-- A query made while the newest request is in its span counts that request.
pub count_in-newest :
    (ms now : ℕ) (t : IpTracker) (e : RequestEvent)
    → EndsWith t.events e
    → now ≤ e.at + ms
    → ms ≤ t.window_ms
    → 0 < (count_in ms now t).0
unfolding count_in
count_in-newest ms now t e w h narrow =
    count-EndsWith (within now ms) _ e
      (prune_events-EndsWith now t.window_ms t.events e w (le→leb _ _ (omega arith))) (le→leb _ _ h)
