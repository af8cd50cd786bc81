-- ===== src/Activity/Counts.antt =====
-- src/state.ts: `record` and `countIn` against the whole history of an address's requests.
use hackerpot.Common.{
  ℕ, ◌≤◌, ◌≡◌, refl, ap, ◌∙◌, String, true, List, [], ◌∷◌, ◌++◌, max, min, length, keep, count, All,
  All-append, All-keep, length-keep, arith, keep-append, map, append-nil, le→leb, append_assoc,
}
use hackerpot.Activity.{
  RequestEvent, IpTracker, create, within, latest, clip, prune_events, record_event, count_in,
}
use hackerpot.Activity.Window.{
  Sorted, Sorted-append, Tracks, prune_events-keep, prune_events-history, keep-latest, keep-keep,
  latest-append, kept-Sorted, length-latest, Sorted-keep, All-latest,
}

-- An event as it is stored: with its path cut.
abbrev pub stored : RequestEvent → RequestEvent
stored e = record e { path = clip e.path }

All-before :
    (es : List RequestEvent) {a b : ℕ} → a ≤ b → All (λ f. f.at ≤ a) es → All (λ f. f.at ≤ b) es
All-before [] h u = tt
All-before (e ∷ es) h u = (omega arith, All-before es h u.1)

module _ {t : IpTracker} {past : List RequestEvent} {last : ℕ} (h : Tracks t past last) where
  module _ (e : RequestEvent) (l : last ≤ e.at) where
    appended-Sorted : Sorted (t.events ++ stored e ∷ [])
    appended-Sorted = rw h.exact (
        Sorted-append _ (stored e) (kept-Sorted h) (
          All-latest (λ f. f.at ≤ e.at) t.max_events _
            (All-keep (λ f. f.at ≤ e.at) _ past (All-before past l h.upto))))

    keep_appended :
        keep (within e.at t.window_ms) (t.events ++ stored e ∷ [])
        ≡ latest t.max_events (keep (within e.at t.window_ms) past) ++ stored e ∷ []
    keep_appended =
        let now : within e.at t.window_ms (stored e) ≡ true = le→leb _ _ (omega arith) in
        let kept : keep (within e.at t.window_ms) t.events
            ≡ latest t.max_events (keep (within e.at t.window_ms) past) =
          ap (keep (within e.at t.window_ms)) h.exact
          ∙ keep-latest e.at t.window_ms t.max_events (keep (within last t.window_ms) past)
              (Sorted-keep (within last t.window_ms) past h.sorted)
          ∙ ap (latest t.max_events)
              (keep-keep last t.window_ms e.at t.window_ms past (omega arith)) in
        rw (keep-append (within e.at t.window_ms) t.events (stored e ∷ []), kept, now) refl

    record_event-events :
        (record_event e.method e.path e.status e.at t).events
        ≡ latest t.max_events (keep (within e.at t.window_ms) (past ++ stored e ∷ []))
    unfolding record_event
    record_event-events =
        let now : within e.at t.window_ms (stored e) ≡ true = le→leb _ _ (omega arith) in
        rw
          (
            prune_events-keep e.at t.window_ms (t.events ++ stored e ∷ []) appended-Sorted,
            keep_appended,
            latest-append t.max_events (keep (within e.at t.window_ms) past) (stored e),
            keep-append (within e.at t.window_ms) past (stored e ∷ []),
            now,
          )
          refl

    record_event-Tracks :
        Tracks (record_event e.method e.path e.status e.at t) (past ++ stored e ∷ []) e.at
    unfolding record_event
    record_event-Tracks = record {
      sorted = Sorted-append past (stored e) h.sorted (All-before past l h.upto);
      upto =
          All-append (λ f. f.at ≤ e.at) past (stored e ∷ []) (All-before past l h.upto)
            (omega arith, tt);
      exact = record_event-events;
    }

  -- A query counts the newest events of the history in its span, up to the ceiling.
  count_in-Tracks :
      (ms now : ℕ)
      → ms ≤ t.window_ms
      → last ≤ now
      → (count_in ms now t).0 ≡ min t.max_events (count (within now ms) past)
  unfolding count_in
  count_in-Tracks ms now narrow l =
      let kept : keep (within now ms) (prune_events now t.window_ms t.events)
          ≡ latest t.max_events (keep (within now ms) past) =
        ap (keep (within now ms)) (prune_events-history h now l)
        ∙ keep-latest now ms t.max_events (keep (within now t.window_ms) past)
            (Sorted-keep (within now t.window_ms) past h.sorted)
        ∙ ap (latest t.max_events) (keep-keep now t.window_ms now ms past (omega arith)) in
      omega (
        arith,
        length-keep (within now ms) (prune_events now t.window_ms t.events),
        ap length kept,
        length-latest t.max_events (keep (within now ms) past),
        length-keep (within now ms) past,
      )

-- A tracker after the given requests, in order.
unfoldable pub replay : List RequestEvent → IpTracker → IpTracker
replay [] t = t
replay (e ∷ es) t = replay es (record_event e.method e.path e.status e.at t)

replay-params :
    (es : List RequestEvent) (t : IpTracker)
    → ((replay es t).window_ms ≡ t.window_ms) × ((replay es t).max_events ≡ t.max_events)
unfolding replay record_event
replay-params [] t = (refl, refl)
replay-params (e ∷ es) t = replay-params es (record_event e.method e.path e.status e.at t)

-- The time of the newest request.
abbrev pub last_at : ℕ → List RequestEvent → ℕ
last_at t0 [] = t0
last_at t0 (e ∷ es) = last_at e.at es

replay-Tracks :
    (es : List RequestEvent) (t : IpTracker) (past : List RequestEvent) (last : ℕ)
    → Tracks t past last
    → Sorted es
    → All (λ f. last ≤ f.at) es
    → Tracks (replay es t) (past ++ map stored es) (last_at last es)
unfolding replay
replay-Tracks [] t past last h s a = rw (append-nil past) h
replay-Tracks (e ∷ es) t past last h s a =
    rw (← append_assoc past (stored e ∷ []) (map stored es)) (
      replay-Tracks es (record_event e.method e.path e.status e.at t) (past ++ stored e ∷ []) e.at
        (record_event-Tracks h e a.0) s.1 s.0)

create-Tracks : (ip : String) (window cap : ℕ) → Tracks (create ip window cap) [] 0
unfolding create latest
create-Tracks ip window cap = record { sorted = tt; upto = tt; exact = ground arith }

count-stored :
    (now ms : ℕ) (es : List RequestEvent)
    → count (within now ms) (map stored es) ≡ count (within now ms) es
count-stored now ms [] = refl
count-stored now ms (e ∷ es) = ground (arith, count-stored now ms es)

All-zero : (es : List RequestEvent) → All (λ f. 0 ≤ f.at) es
All-zero [] = tt
All-zero (e ∷ es) = (omega arith, All-zero es)

last_at-le :
    (es : List RequestEvent) (t0 now : ℕ)
    → t0 ≤ now
    → All (λ f. f.at ≤ now) es
    → last_at t0 es ≤ now
last_at-le [] t0 now h a = h
last_at-le (e ∷ es) t0 now h a = last_at-le es e.at now a.0 a.1

-- For requests recorded in order of time, `countIn` over a span no longer than the window answers
-- the number of all requests ever recorded that lie in the span, cut off at the ceiling on events
-- (which is at least one).
pub count_in-replay :
    (ip : String) (window cap : ℕ) (history : List RequestEvent) (ms now : ℕ)
    → Sorted history
    → All (λ e. e.at ≤ now) history
    → ms ≤ window
    → (count_in ms now (replay history (create ip window cap))).0
      ≡ min (max 1 cap) (count (within now ms) history)
unfolding create
count_in-replay ip window cap history ms now s a narrow =
    let t = replay history (create ip window cap) in
    let params = replay-params history (create ip window cap) in
    let h =
      replay-Tracks history (create ip window cap) [] 0 (create-Tracks ip window cap) s
        (All-zero history) in
    count_in-Tracks h ms now (rw params.0 narrow) (last_at-le history 0 now (omega arith) a)
    ∙ rw (params.1, count-stored now ms history) refl
