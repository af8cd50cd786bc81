-- ===== src/Activity/Window.antt =====
-- src/state.ts: the window of `IpTracker` against the whole history of its requests.
use hackerpot.Common.{
  ℕ, zero, suc, ◌+◌, ◌-◌, ◌≤◌, ◌≡◌, refl, sym, ap, ◌∙◌, Bool, true, List, [], ◌∷◌, ◌++◌, ltb, min,
  length, drop, keep, All, length-append, length-keep-le, length-drop, arith, Bool-cases, inl, inr,
  All-keep, All-drop, dec_le, leb→le, All-append,
}
use hackerpot.Activity.{RequestEvent, IpTracker, within, latest, prune_events}

-- Oldest first.
abbrev pub Sorted : List RequestEvent → Type 0
Sorted [] = Unit
Sorted (e ∷ es) = All (λ f. e.at ≤ f.at) es × Sorted es

pub Sorted-append :
    (es : List RequestEvent) (e : RequestEvent)
    → Sorted es
    → All (λ f. f.at ≤ e.at) es
    → Sorted (es ++ e ∷ [])
Sorted-append [] e s h = (tt, tt)
Sorted-append (f ∷ es) e s h =
    (All-append (λ g. f.at ≤ g.at) es (e ∷ []) s.0 (h.0, tt), Sorted-append es e s.1 h.1)

-- On a sorted list a window keeps all that is not older than an event that it keeps.
keep-within-All :
    (now ms at : ℕ) (es : List RequestEvent)
    → now ≤ at + ms
    → All (λ f. at ≤ f.at) es
    → keep (within now ms) es ≡ es
keep-within-All now ms at [] h a = refl
keep-within-All now ms at (e ∷ es) h a = ground (arith, keep-within-All now ms at es h a.1)

-- The early return of `prune` is sound: it is the filter.
pub prune_events-keep :
    (now ms : ℕ) (es : List RequestEvent)
    → Sorted es
    → prune_events now ms es ≡ keep (within now ms) es
unfolding prune_events
prune_events-keep now ms [] s = refl
prune_events-keep now ms (e ∷ es) s = ground (arith, keep-within-All now ms e.at es)

latest-cons :
    (n : ℕ) (e : RequestEvent) (es : List RequestEvent)
    → n ≤ length es
    → latest n (e ∷ es) ≡ latest n es
unfolding latest
latest-cons n e es h =
    let shift : suc (length es) - n ≡ suc (length es - n) = omega arith in
    let more : ltb n (suc (length es)) ≡ true = ground arith in
    rw (more, shift)
      (elim (Bool-cases (ltb n (length es))) [
        | inl over ↦ rw over refl
        | inr exact ↦ let none_over : length es - n ≡ 0 = ground arith in rw (exact, none_over) refl
      ])

latest_all : (n : ℕ) (es : List RequestEvent) → length es ≤ n → latest n es ≡ es
unfolding latest
latest_all n es h = ground arith

pub length-latest : (n : ℕ) (es : List RequestEvent) → length (latest n es) ≡ min n (length es)
unfolding latest
length-latest n es = ground (arith, length-drop (length es - n) es)

-- Cutting to the newest and filtering by a window commute.
pub keep-latest :
    (now ms n : ℕ) (es : List RequestEvent)
    → Sorted es
    → keep (within now ms) (latest n es) ≡ latest n (keep (within now ms) es)
keep-latest now ms n [] s = rw (latest_all n [] (omega arith)) refl
keep-latest now ms n (e ∷ es) s = elim (dec_le n (length es)) [
  | yes over ↦ rw (latest-cons n e es over) (
      keep-latest now ms n es s.1 ∙ elim (Bool-cases (within now ms e)) [
        | inl new ↦
            let whole = keep-within-All now ms e.at es (leb→le _ _ new) s.0 in
            rw (new, whole) (sym (latest-cons n e es over))
        | inr old ↦ rw old refl
      ])
  | no under ↦
      let short = length-keep-le (within now ms) (e ∷ es) in
      rw (latest_all n (e ∷ es) (omega arith)) (sym (latest_all n _ (omega arith)))
]

-- A cut of a cut with one more entry behind it.
pub latest-append :
    (n : ℕ) (es : List RequestEvent) (e : RequestEvent)
    → latest n (latest n es ++ e ∷ []) ≡ latest n (es ++ e ∷ [])
latest-append n [] e = rw (latest_all n [] (omega arith)) refl
latest-append n (f ∷ es) e = elim (dec_le n (length es)) [
  | yes over ↦ rw (latest-cons n f es over) (
      latest-append n es e
      ∙ sym (latest-cons n f (es ++ e ∷ []) (omega (arith, length-append es (e ∷ [])))))
  | no under ↦ rw (latest_all n (f ∷ es) (omega arith)) refl
]

-- A filter by a narrower window ends makes a filter by a wider one before it idle.
pub keep-keep :
    (now wide later ms : ℕ) (es : List RequestEvent)
    → now + ms ≤ later + wide
    → keep (within later ms) (keep (within now wide) es) ≡ keep (within later ms) es
keep-keep now wide later ms [] h = refl
keep-keep now wide later ms (e ∷ es) h = ground (arith, keep-keep now wide later ms es h)

pub Sorted-keep :
    (q : RequestEvent → Bool) (es : List RequestEvent) → Sorted es → Sorted (keep q es)
Sorted-keep q [] s = tt
Sorted-keep q (e ∷ es) s =
    ground (arith, Sorted-keep q es s.1, All-keep (λ f. e.at ≤ f.at) q es s.0)

Sorted-drop : (n : ℕ) (es : List RequestEvent) → Sorted es → Sorted (drop n es)
Sorted-drop zero es s = s
Sorted-drop (suc n) [] s = tt
Sorted-drop (suc n) (e ∷ es) s = Sorted-drop n es s.1

pub Sorted-latest : (n : ℕ) (es : List RequestEvent) → Sorted es → Sorted (latest n es)
unfolding latest
Sorted-latest n es s = ground (arith, Sorted-drop (length es - n) es s)

pub All-latest :
    (P : RequestEvent → Type 0) (n : ℕ) (es : List RequestEvent) → All P es → All P (latest n es)
unfolding latest
All-latest P n es a = elim (Bool-cases (ltb n (length es))) [
  | inl over ↦ rw over (All-drop P (length es - n) es a)
  | inr fits ↦ rw fits a
]

-- The tracker holds of a history of events exactly the newest of those in the window.
pub record Tracks (t : IpTracker) (past : List RequestEvent) (last : ℕ) : Type 0 where
  pub sorted : Sorted past
  pub upto : All (λ f. f.at ≤ last) past
  pub exact : t.events ≡ latest t.max_events (keep (within last t.window_ms) past)

module _ {t : IpTracker} {past : List RequestEvent} {last : ℕ} (h : Tracks t past last) where
  pub kept-Sorted : Sorted (latest t.max_events (keep (within last t.window_ms) past))
  kept-Sorted = Sorted-latest t.max_events _ (Sorted-keep _ past h.sorted)

  -- Pruning at a later time is pruning the history.
  pub prune_events-history :
      (now : ℕ)
      → last ≤ now
      → prune_events now t.window_ms t.events
        ≡ latest t.max_events (keep (within now t.window_ms) past)
  prune_events-history now l =
      rw (h.exact, prune_events-keep now t.window_ms _ kept-Sorted)
        (keep-latest now t.window_ms t.max_events _ (Sorted-keep _ past h.sorted)
          ∙ ap (latest t.max_events)
              (keep-keep last t.window_ms now t.window_ms past (omega arith)))
