-- ===== src/Activity/Confirm.antt =====
-- src/state.ts: `confirmPath`.
use mathlib.Core.List.{reverse-append, reverse-cons, reverse-reverse}
use mathlib.Core.Path.{ap₂}
use hackerpot.Common.{
  ℕ, ◌≡◌, refl, ap, ◌∙◌, true, false, List, [], ◌∷◌, ◌++◌, reverse, All, All-append, arith,
  append_assoc,
}
use hackerpot.Activity.{
  RequestEvent, seen, IpTracker, clip, awaits, promote, confirm_path, with_events,
}

-- No event of the list waits for the path's confirmation.
abbrev pub NoneAwaits : List ℕ → List RequestEvent → Type 0
NoneAwaits key es = All (λ e. awaits key e ≡ false) es

promote_first :
    (key : List ℕ) (xs : List RequestEvent) (e : RequestEvent) (ys : List RequestEvent)
    → NoneAwaits key xs
    → awaits key e ≡ true
    → promote key (xs ++ e ∷ ys) ≡ xs ++ record e { status = seen } ∷ ys
unfolding promote
promote_first key [] e ys n h = ground arith
promote_first key (x ∷ xs) e ys n h = ground (arith, promote_first key xs e ys n.1)

promote_none : (key : List ℕ) (xs : List RequestEvent) → NoneAwaits key xs → promote key xs ≡ xs
unfolding promote
promote_none key [] n = refl
promote_none key (x ∷ xs) n = ground (arith, promote_none key xs n.1)

pub All-reverse :
    (P : RequestEvent → Type 0) (xs : List RequestEvent) → All P xs → All P (reverse xs)
All-reverse P [] a = tt
All-reverse P (x ∷ xs) a =
    rw (reverse-cons x xs) (All-append P (reverse xs) (x ∷ []) (All-reverse P xs a.1) (a.0, tt))

reverse_around :
    (xs : List RequestEvent) (e : RequestEvent) (ys : List RequestEvent)
    → reverse (xs ++ e ∷ ys) ≡ reverse ys ++ e ∷ reverse xs
reverse_around xs e ys =
    reverse-append xs (e ∷ ys)
    ∙ ap (λ (zs : List RequestEvent). zs ++ reverse xs) (reverse-cons e ys)
    ∙ append_assoc (reverse ys) (e ∷ []) (reverse xs)

-- `confirmPath` turns the newest passed request of the path into a counted one and leaves every
-- other event as it is.
pub confirm_path-newest :
    (t : IpTracker) (path : List ℕ) (xs : List RequestEvent) (e : RequestEvent)
    (ys : List RequestEvent)
    → t.events ≡ xs ++ e ∷ ys
    → awaits (clip path) e ≡ true
    → NoneAwaits (clip path) ys
    → (confirm_path path t).events ≡ xs ++ record e { status = seen } ∷ ys
unfolding confirm_path
confirm_path-newest t path xs e ys split h n =
    let before : reverse t.events ≡ reverse ys ++ e ∷ reverse xs =
      ap reverse split ∙ reverse_around xs e ys in
    let after = promote_first (clip path) (reverse ys) e (reverse xs) (All-reverse _ ys n) h in
    ap reverse (ap (promote (clip path)) before ∙ after)
    ∙ reverse_around (reverse ys) (record e { status = seen }) (reverse xs)
    ∙ ap₂ (λ (a b : List RequestEvent). a ++ record e { status = seen } ∷ b) (reverse-reverse xs)
        (reverse-reverse ys)

-- With no passed request of the path it changes nothing.
pub confirm_path-none :
    (t : IpTracker) (path : List ℕ) → NoneAwaits (clip path) t.events → confirm_path path t ≡ t
unfolding confirm_path
confirm_path-none t path n = ap (with_events t) (
    ap reverse (promote_none (clip path) (reverse t.events) (All-reverse _ t.events n))
    ∙ reverse-reverse t.events)
