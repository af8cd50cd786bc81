-- ===== src/Paths/Resolved.antt =====
-- src/internal/http.ts: no spelling of a path gets a dot segment past `normalizePath`.
use hackerpot.Common.{
  ℕ, ◌≡◌, ◌≢◌, refl, ap, sym, Bool, true, false, List, [], ◌∷◌, ◌++◌, Option, arith, ◌==◌,
  Bool-cases, inl, inr, All, All-append, map, or_else, tail, reverse, reverse-cons, subst, length,
  ◌<◌, ◌⊎◌,
}
use hackerpot.Paths.{
  slash, dot, forward, collapse, lead, starts_dot, has_dot_segment, onto_first, split, is_here,
  is_up, resolve, join_segments, resolve_path, drop_slash, strip, normalize_path, is_absolute_form,
}

-- A segment that no file system resolves.
abbrev pub IsPlain : List ℕ → Type 0
IsPlain s = (s ≢ dot ∷ []) × (s ≢ dot ∷ dot ∷ [])

abbrev NoSlash : List ℕ → Type 0
NoSlash s = All (λ c. (c == slash) ≡ false) s

abbrev IsSegment : List ℕ → Type 0
IsSegment s = NoSlash s × IsPlain s

undotted-IsPlain : (s : List ℕ) → starts_dot s ≡ false → IsPlain s
undotted-IsPlain s h =
    ((λ e. absurd (cc (h, ap starts_dot e))), (λ e. absurd (cc (h, ap starts_dot e))))

-- What the loop keeps is plain.
kept-IsPlain : (s : List ℕ) → is_here s ≡ false → is_up s ≡ false → IsPlain s
kept-IsPlain s h u = ((λ e. absurd (cc (h, ap is_here e))), (λ e. absurd (cc (u, ap is_up e))))

All-tail : (ss : List (List ℕ)) → All IsSegment ss → All IsSegment (tail ss)
All-tail [] h = tt
All-tail (s ∷ ss) h = h.1

onto_first-NoSlash :
    (c : ℕ) (ss : List (List ℕ))
    → (c == slash) ≡ false
    → All NoSlash ss
    → All NoSlash (onto_first c ss)
onto_first-NoSlash c [] n h = ((n, tt), tt)
onto_first-NoSlash c (s ∷ ss) n h = ((n, h.0), h.1)

split-NoSlash : (p : List ℕ) → All NoSlash (split p)
unfolding split
split-NoSlash [] = (tt, tt)
split-NoSlash (c ∷ cs) = elim (Bool-cases (c == slash)) [
  | inl h ↦ rw h (tt, split-NoSlash cs)
  | inr h ↦ rw h (onto_first-NoSlash c (split cs) h (split-NoSlash cs))
]

resolve-IsSegment :
    (ss resolved : List (List ℕ))
    → All NoSlash ss
    → All IsSegment resolved
    → All IsSegment (resolve ss resolved)
unfolding resolve
resolve-IsSegment [] resolved n h = h
resolve-IsSegment (s ∷ ss) resolved n h = elim (Bool-cases (is_here s)) [
  | inl e ↦ rw e (resolve-IsSegment ss resolved n.1 h)
  | inr e ↦ elim (Bool-cases (is_up s)) [
    | inl u ↦ rw (e, u) (resolve-IsSegment ss (tail resolved) n.1 (All-tail resolved h))
    | inr u ↦ rw (e, u) (resolve-IsSegment ss (s ∷ resolved) n.1 ((n.0, kept-IsPlain s e u), h))
  ]
]

All-reverse : (ss : List (List ℕ)) → All IsSegment ss → All IsSegment (reverse ss)
All-reverse [] h = tt
All-reverse (s ∷ ss) h =
    rw (reverse-cons s ss)
      (All-append IsSegment (reverse ss) (s ∷ []) (All-reverse ss h.1) (h.0, tt))

-- The segments before a slash and those after it.
split-append : (s rest : List ℕ) → NoSlash s → split (s ++ slash ∷ rest) ≡ s ∷ split rest
unfolding split
split-append [] rest n = refl
split-append (c ∷ cs) rest n = rw (n.0, split-append cs rest n.1) refl

split-segment : (s : List ℕ) → NoSlash s → split s ≡ s ∷ []
unfolding split
split-segment [] n = refl
split-segment (c ∷ cs) n = rw (n.0, split-segment cs n.1) refl

empty-IsPlain : IsPlain []
empty-IsPlain = undotted-IsPlain [] refl

join_segments-IsPlain :
    (ss : List (List ℕ)) → All IsSegment ss → All IsPlain (split (join_segments ss))
unfolding join_segments
join_segments-IsPlain [] h = unfold split in (empty-IsPlain, tt)
join_segments-IsPlain (s ∷ []) h = rw (split-segment s h.0.0) (h.0.1, tt)
join_segments-IsPlain (s ∷ t ∷ ss) h =
    rw (split-append s (join_segments (t ∷ ss)) h.0.0) (h.0.1, join_segments-IsPlain (t ∷ ss) h.1)

eq→≡ : (a b : ℕ) → (a == b) ≡ true → a ≡ b
eq→≡ a b h = ground arith

some_first : (c : ℕ) (ss : List (List ℕ)) → 0 < length (onto_first c ss)
some_first c [] = omega arith
some_first c (s ∷ ss) = omega arith

abbrev Undotted : List ℕ → Type 0
Undotted s = starts_dot s ≡ false

onto_first-tail :
    (c : ℕ) (ss : List (List ℕ)) → All Undotted (tail ss) → All Undotted (tail (onto_first c ss))
onto_first-tail c [] h = tt
onto_first-tail c (s ∷ ss) h = h

head-Undotted :
    (c : ℕ) (ss : List (List ℕ))
    → (c == dot) ≡ false
    → All Undotted (tail (onto_first c ss))
    → All Undotted (onto_first c ss)
head-Undotted c [] n h = (n, tt)
head-Undotted c (s ∷ ss) n h = (n, h)

split-head :
    (p : List ℕ) → All Undotted (tail (split p)) → starts_dot p ≡ false → All Undotted (split p)
unfolding split
split-head [] h d = (refl, tt)
split-head (c ∷ cs) h d = elim (Bool-cases (c == slash)) [
  | inl e ↦ rw e (refl, rw e at h)
  | inr e ↦ rw e (head-Undotted c (split cs) d (rw e at h))
]

split-tail : (p : List ℕ) → has_dot_segment p ≡ false → All Undotted (tail (split p))
unfolding split has_dot_segment
split-tail [] h = tt
split-tail (c ∷ cs) h =
    let rest : All Undotted (tail (split cs)) = split-tail cs (ground arith) in
    elim (Bool-cases (c == slash)) [
      | inl e ↦ rw e (split-head cs rest (ground arith))
      | inr e ↦ rw e (onto_first-tail c (split cs) rest)
    ]

Undotted-IsPlain : (ss : List (List ℕ)) → All Undotted ss → All IsPlain ss
Undotted-IsPlain [] h = tt
Undotted-IsPlain (s ∷ ss) h = (undotted-IsPlain s h.0, Undotted-IsPlain ss h.1)

resolve_path-IsPlain : (p : List ℕ) → starts_dot p ≡ false → All IsPlain (split (resolve_path p))
unfolding resolve_path
resolve_path-IsPlain p h = elim (Bool-cases (has_dot_segment p)) [
  | inl e ↦
      let segments = reverse (resolve (split p) []) in
      let plain = join_segments-IsPlain segments (
        All-reverse (resolve (split p) []) (resolve-IsSegment (split p) [] (split-NoSlash p) tt)) in
      let shape : resolve_path p ≡ slash ∷ join_segments segments = rw e refl in
      let whole =
        subst (λ (ss : List (List ℕ)). All IsPlain ss)
          (sym (split-append [] (join_segments segments) tt)) (empty-IsPlain, plain) in
      subst (λ (q : List ℕ). All IsPlain (split q)) (sym shape) whole
  | inr e ↦ rw e (Undotted-IsPlain (split p) (split-head p (split-tail p e) h))
]

onto_first-append :
    (c : ℕ) (ss ts : List (List ℕ))
    → 0 < length ss
    → onto_first c (ss ++ ts) ≡ onto_first c ss ++ ts
onto_first-append c [] ts h = absurd (omega (arith, h))
onto_first-append c (s ∷ ss) ts h = refl

split-nonempty : (p : List ℕ) → 0 < length (split p)
unfolding split
split-nonempty [] = omega arith
split-nonempty (c ∷ cs) = elim (Bool-cases (c == slash)) [
  | inl e ↦ rw e (omega arith)
  | inr e ↦ rw e (some_first c (split cs))
]

split-end : (p : List ℕ) → split (p ++ slash ∷ []) ≡ split p ++ [] ∷ []
unfolding split
split-end [] = refl
split-end (c ∷ cs) = elim (Bool-cases (c == slash)) [
  | inl e ↦ rw (e, split-end cs) refl
  | inr e ↦ rw (e, split-end cs) (onto_first-append c (split cs) ([] ∷ []) (split-nonempty cs))
]

-- Dropping the last slash drops at most that.
drop_slash-cases : (p : List ℕ) → (drop_slash p ≡ p) ⊎ (p ≡ drop_slash p ++ slash ∷ [])
unfolding drop_slash
drop_slash-cases [] = inl refl
drop_slash-cases (c ∷ []) = elim (Bool-cases (c == slash)) [
  | inl e ↦ inr (rw (e, eq→≡ c slash e) refl)
  | inr e ↦ inl (rw e refl)
]
drop_slash-cases (c ∷ d ∷ cs) = elim (drop_slash-cases (d ∷ cs)) [
  | inl same ↦ inl (ap (λ (q : List ℕ). c ∷ q) same)
  | inr cut ↦ inr (ap (λ (q : List ℕ). c ∷ q) cut)
]

All-front : (ss ts : List (List ℕ)) → All IsPlain (ss ++ ts) → All IsPlain ss
All-front [] ts h = tt
All-front (s ∷ ss) ts h = (h.0, All-front ss ts h.1)

strip-IsPlain : (p : List ℕ) → All IsPlain (split p) → All IsPlain (split (strip p))
strip-IsPlain [] h = h
strip-IsPlain (c ∷ cs) h = elim (drop_slash-cases cs) [
  | inl same ↦ subst (λ (q : List ℕ). All IsPlain (split (c ∷ q))) (sym same) h
  | inr cut ↦
      let kept = c ∷ drop_slash cs in
      let ends : All IsPlain (split (kept ++ slash ∷ [])) =
        subst (λ (q : List ℕ). All IsPlain (split (c ∷ q))) cut h in
      All-front (split kept) ([] ∷ [])
        (subst (λ (ss : List (List ℕ)). All IsPlain ss) (split-end kept) ends)
]

lead-undotted : (p : List ℕ) → starts_dot (lead p) ≡ false
lead-undotted [] = refl
lead-undotted (c ∷ cs) = ground arith

abbrev pub starts_slash : List ℕ → Bool
starts_slash [] = false
starts_slash (c ∷ cs) = c == slash

lead-slash : (p : List ℕ) → starts_slash (lead p) ≡ true
lead-slash [] = refl
lead-slash (c ∷ cs) = ground arith

resolve_path-slash : (p : List ℕ) → starts_slash p ≡ true → starts_slash (resolve_path p) ≡ true
unfolding resolve_path
resolve_path-slash p h = elim (Bool-cases (has_dot_segment p)) [
  | inl e ↦ rw e refl
  | inr e ↦ rw e h
]

strip-slash : (p : List ℕ) → starts_slash p ≡ true → starts_slash (strip p) ≡ true
strip-slash [] h = h
strip-slash (c ∷ cs) h = h

-- Whatever the decoder does, a request target that is not in absolute form is matched as a path that
-- starts with a slash and none of whose segments is `.` or `..`.
pub normalize_path-IsPlain :
    (decode : List ℕ → Option (List ℕ)) (raw : List ℕ)
    → is_absolute_form raw ≡ false
    → (starts_slash (normalize_path decode raw) ≡ true)
      × All IsPlain (split (normalize_path decode raw))
unfolding normalize_path
normalize_path-IsPlain decode raw h =
    let bare = collapse (map forward (or_else (decode raw) raw)) in
    let p = lead bare in
    rw h (
      strip-slash (resolve_path p) (resolve_path-slash p (lead-slash bare)),
      strip-IsPlain (resolve_path p) (resolve_path-IsPlain p (lead-undotted bare)),
    )
