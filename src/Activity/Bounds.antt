-- ===== src/Activity/Bounds.antt =====
-- src/state.ts: the bounds of `IpTracker`, whatever the order of the calls and of their times.
use hackerpot.Common.{
  ℕ, ◌≤◌, ◌<◌, ◌≡◌, refl, String, List, [], ◌∷◌, ◌++◌, reverse, length, All, All-append, All-keep,
  arith, length-keep-le, length-take-le, Bool-cases, inl, inr, length-reverse,
}
use hackerpot.Activity.{
  RequestEvent, Status, IpTracker, create, within, cut, clip, prune_events, prune, record_event,
  confirm_path, promote, max_path_chars,
}
use hackerpot.Activity.Window.{length-latest, All-latest}
use hackerpot.Activity.Confirm.{All-reverse}

abbrev IsClipped : RequestEvent → Type 0
IsClipped e = length e.path ≤ max_path_chars

pub record IsBounded (t : IpTracker) : Type 0 where
  pub positive : 0 < t.max_events
  pub few : length t.events ≤ t.max_events
  pub clipped : All (λ e. length e.path ≤ max_path_chars) t.events

length-cut-le : (n : ℕ) (path : List ℕ) → length (cut n path) ≤ n
unfolding cut
length-cut-le n path = ground (arith, length-take-le n path)

length-clip-le : (path : List ℕ) → length (clip path) ≤ max_path_chars
unfolding clip
length-clip-le path = length-cut-le max_path_chars path

length-prune_events-le :
    (now ms : ℕ) (es : List RequestEvent) → length (prune_events now ms es) ≤ length es
unfolding prune_events
length-prune_events-le now ms es = ground (arith, length-keep-le (within now ms) es)

All-prune_events :
    (P : RequestEvent → Type 0) (now ms : ℕ) (es : List RequestEvent)
    → All P es
    → All P (prune_events now ms es)
unfolding prune_events
All-prune_events P now ms [] a = a
All-prune_events P now ms (e ∷ es) a = elim (Bool-cases (within now ms e)) [
  | inl new ↦ rw new a
  | inr old ↦ rw old (All-keep P (within now ms) es a.1)
]

pub create-IsBounded : (ip : String) (window cap : ℕ) → IsBounded (create ip window cap)
unfolding create
create-IsBounded ip window cap = record { positive = omega arith; few = omega arith; clipped = tt }

pub record_event-IsBounded :
    (method path : List ℕ) (status : Status) (now : ℕ) (t : IpTracker)
    → IsBounded t
    → IsBounded (record_event method path status now t)
unfolding record_event
record_event-IsBounded method path status now t b = record {
  positive = b.positive;
  few = omega (arith, length-latest t.max_events pruned);
  clipped =
      All-latest (λ e. length e.path ≤ max_path_chars) t.max_events pruned
        (All-prune_events IsClipped now t.window_ms (t.events ++ new ∷ [])
          (All-append IsClipped t.events (new ∷ []) b.clipped (length-clip-le path, tt)));
}
  where
    new : RequestEvent
    new = record { at = now; method = method; path = clip path; status = status }

    pruned : List RequestEvent
    pruned = prune_events now t.window_ms (t.events ++ new ∷ [])

length-promote : (key : List ℕ) (es : List RequestEvent) → length (promote key es) ≡ length es
unfolding promote
length-promote key [] = refl
length-promote key (e ∷ es) = ground (arith, length-promote key es)

promote-IsClipped :
    (key : List ℕ) (es : List RequestEvent) → All IsClipped es → All IsClipped (promote key es)
unfolding promote
promote-IsClipped key [] a = tt
promote-IsClipped key (e ∷ es) a = ground (arith, promote-IsClipped key es a.1)

confirm_path-IsBounded :
    (path : List ℕ) (t : IpTracker) → IsBounded t → IsBounded (confirm_path path t)
unfolding confirm_path
confirm_path-IsBounded path t b = record {
  positive = b.positive;
  few = omega (
    arith,
    length-reverse (promote (clip path) (reverse t.events)),
    length-promote (clip path) (reverse t.events),
    length-reverse t.events,
  );
  clipped =
      All-reverse IsClipped (promote (clip path) (reverse t.events)) (
        promote-IsClipped (clip path) (reverse t.events)
          (All-reverse IsClipped t.events b.clipped));
}

pub prune-IsBounded : (now : ℕ) (t : IpTracker) → IsBounded t → IsBounded (prune now t)
unfolding prune
prune-IsBounded now t b = record {
  positive = b.positive;
  few = omega (arith, length-prune_events-le now t.window_ms t.events);
  clipped = All-prune_events IsClipped now t.window_ms t.events b.clipped;
}

-- A call that changes the tracker; each query prunes at its time.
pub data Call : Type 0 where
  records : List ℕ → List ℕ → Status → ℕ → Call
  confirms : List ℕ → Call
  queries : ℕ → Call

unfoldable pub step : Call → IpTracker → IpTracker
step (records method path status now) t = record_event method path status now t
step (confirms path) t = confirm_path path t
step (queries now) t = prune now t

unfoldable pub run : List Call → IpTracker → IpTracker
unfolding step
run [] t = t
run (call ∷ calls) t = run calls (step call t)

run_keeps : (calls : List Call) (t : IpTracker) → IsBounded t → IsBounded (run calls t)
unfolding run
run_keeps [] t b = b
run_keeps (records method path status now ∷ calls) t b =
    run_keeps calls _ (record_event-IsBounded method path status now t b)
run_keeps (confirms path ∷ calls) t b = run_keeps calls _ (confirm_path-IsBounded path t b)
run_keeps (queries now ∷ calls) t b = run_keeps calls _ (prune-IsBounded now t b)

-- Whatever calls are made, at whatever times, a tracker never holds more events than its ceiling,
-- nor a path of more than 512 code units.
pub run-IsBounded :
    (ip : String) (window cap : ℕ) (calls : List Call)
    → IsBounded (run calls (create ip window cap))
run-IsBounded ip window cap calls =
    run_keeps calls (create ip window cap) (create-IsBounded ip window cap)
