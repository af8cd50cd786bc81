-- ===== src/Store/Queries.antt =====
-- src/stores/memory.ts and src/stores/query.ts: the store's own query means what the shared one means.
use hackerpot.Common.{
  ℕ, zero, suc, ◌-◌, ◌≤◌, ◌≡◌, refl, sym, ap, ◌∙◌, String, Bool, true, false, List, [], ◌∷◌, ◌++◌,
  Option, none, some, arith, length, drop, take, keep, keep-append, reverse, reverse-cons,
  reverse-reverse, append_assoc, append-nil, length-append, length-reverse, leb, Bool-cases, inl,
  inr, leb→le, leb_false→lt, leb_false→lt,
}
use hackerpot.Store.{
  HoneypotHit, HitQuery, Limit, negative, up_to, take_latest, effective_limit, MemoryStore,
  matches_query, is_constrained, apply_query, walk, query, query_hits, list,
}

zero-sub : (n : ℕ) → 0 - n ≡ 0
zero-sub n = omega arith

module _ {ℓ} {A : Type ℓ} where
  pub take-all : (n : ℕ) (xs : List A) → length xs ≤ n → take n xs ≡ xs
  take-all zero [] h = refl
  take-all zero (x ∷ xs) h = absurd (omega (arith, h))
  take-all (suc n) [] h = refl
  take-all (suc n) (x ∷ xs) h = ap (λ (ys : List A). x ∷ ys) (take-all n xs (omega (arith, h)))

  pub take-append : (n : ℕ) (xs ys : List A) → n ≤ length xs → take n (xs ++ ys) ≡ take n xs
  take-append zero xs ys h = refl
  take-append (suc n) [] ys h = absurd (omega (arith, h))
  take-append (suc n) (x ∷ xs) ys h =
      ap (λ (zs : List A). x ∷ zs) (take-append n xs ys (omega (arith, h)))

  take-nil : (n : ℕ) → take {A = A} n [] ≡ []
  take-nil zero = refl
  take-nil (suc n) = refl

  -- The first `n` from the end, put back in order.
  pub reverse-take-reverse :
      (n : ℕ) (xs : List A) → reverse (take n (reverse xs)) ≡ drop (length xs - n) xs
  reverse-take-reverse zero [] = refl
  reverse-take-reverse (suc n) [] = rw (zero-sub (suc n)) refl
  reverse-take-reverse n (x ∷ xs) = elim (Bool-cases (leb n (length xs))) [
    | inl short ↦
        let le = leb→le n (length xs) short in
        let size : length (reverse xs) ≡ length xs = length-reverse xs in
        let front : take n (reverse xs ++ x ∷ []) ≡ take n (reverse xs) =
          take-append n (reverse xs) (x ∷ []) (omega (arith, le, size)) in
        let more : suc (length xs) - n ≡ suc (length xs - n) = omega (arith, le) in
        rw (reverse-cons x xs, front, more) (reverse-take-reverse n xs)
    | inr long ↦
        let lt = leb_false→lt n (length xs) long in
        let whole : take n (reverse (x ∷ xs)) ≡ reverse (x ∷ xs) =
          take-all n (reverse (x ∷ xs)) (omega (arith, lt, length-reverse (x ∷ xs))) in
        let none_left : suc (length xs) - n ≡ 0 = omega (arith, lt) in
        rw (whole, none_left) (reverse-reverse (x ∷ xs))
  ]

  pub keep-reverse : (p : A → Bool) (xs : List A) → keep p (reverse xs) ≡ reverse (keep p xs)
  keep-reverse p [] = refl
  keep-reverse p (x ∷ xs) = elim (Bool-cases (p x)) [
    | inl h ↦
        rw
          (
            reverse-cons x xs,
            keep-append p (reverse xs) (x ∷ []),
            keep-reverse p xs,
            h,
            reverse-cons x (keep p xs),
          )
          refl
    | inr h ↦
        rw (reverse-cons x xs, keep-append p (reverse xs) (x ∷ []), keep-reverse p xs, h)
          (append-nil (reverse (keep p xs)))
  ]

  pub keep-all : (p : A → Bool) (xs : List A) → ((x : A) → p x ≡ true) → keep p xs ≡ xs
  keep-all p [] h = refl
  keep-all p (x ∷ xs) h = rw (h x, keep-all p xs h) refl

  walk-all : (p : A → Bool) (hits found : List A) → walk p none hits found ≡ found ++ keep p hits
  unfolding walk
  walk-all p [] found = sym (append-nil found)
  walk-all p (hit ∷ older) found = elim (Bool-cases (p hit)) [
    | inl h ↦
        rw h (walk-all p older (found ++ hit ∷ []) ∙ append_assoc found (hit ∷ []) (keep p older))
    | inr h ↦ rw h (walk-all p older found)
  ]

  walk-some :
      (p : A → Bool) (n : ℕ) (hits found : List A)
      → length found ≤ n
      → walk p (some n) hits found ≡ found ++ take (n - length found) (keep p hits)
  unfolding walk
  walk-some p n [] found h = rw (take-nil (n - length found)) (sym (append-nil found))
  walk-some p n (hit ∷ older) found h = elim (Bool-cases (leb n (length found))) [
    | inl full ↦
        let spent : n - length found ≡ 0 = omega (arith, leb→le n (length found) full) in
        rw (full, spent) (sym (append-nil found))
    | inr space ↦
        let lt = leb_false→lt n (length found) space in
        let more = length-append found (hit ∷ []) in
        elim (Bool-cases (p hit)) [
          | inl h ↦
              let left : n - length found ≡ suc (n - length (found ++ hit ∷ [])) =
                omega (arith, lt, more) in
              rw (space, h, left)
                (walk-some p n older (found ++ hit ∷ []) (omega (arith, lt, more))
                  ∙ append_assoc found (hit ∷ [])
                      (take (n - length (found ++ hit ∷ [])) (keep p older)))
          | inr h ↦ rw (space, h) (walk-some p n older found (omega (arith, lt)))
        ]
  ]

  -- Walking back from the end finds what keeping every match and trimming the head finds.
  reverse-walk :
      (p : A → Bool) (limit : Option Limit) (hits : List A)
      → reverse (walk p (effective_limit limit) (reverse hits) []) ≡ take_latest (keep p hits) limit
  unfolding take_latest
  reverse-walk p none hits =
      rw (walk-all p (reverse hits) [], keep-reverse p hits) (reverse-reverse (keep p hits))
  reverse-walk p (some negative) hits =
      rw (walk-all p (reverse hits) [], keep-reverse p hits) (reverse-reverse (keep p hits))
  reverse-walk p (some (up_to n)) hits =
      let all : n - 0 ≡ n = omega arith in
      let trimmed = reverse-take-reverse n (keep p hits) in
      rw (walk-some p n (reverse hits) [] (omega arith), all, keep-reverse p hits)
        (elim (Bool-cases (leb (length (keep p hits)) n)) [
          | inl few ↦
              let le = leb→le (length (keep p hits)) n few in
              let nothing_cut : length (keep p hits) - n ≡ 0 = omega (arith, le) in
              rw few (trimmed ∙ ap (λ k. drop k (keep p hits)) nothing_cut)
          | inr many ↦ rw many trimmed
        ])

module _ (parse : String → Option ℕ) where
  -- A query with no constraint is satisfied by every hit.
  unconstrained :
      (q : HitQuery) (hit : HoneypotHit)
      → is_constrained parse q ≡ false
      → matches_query parse hit q ≡ true
  unfolding matches_query
  unconstrained q hit h = ground arith

  -- The store's own query, which walks back from the newest hit and stops at the limit, answers what the
  -- reference meaning of a query answers on the list of its hits, and so does reading through either.
  pub query-eq-apply_query :
      (s : MemoryStore) (q : HitQuery)
      → (query parse s q ≡ apply_query parse (list s) q)
        × (query_hits parse (some (query parse s)) (list s) q ≡ query_hits parse none (list s) q)
  unfolding query apply_query list query_hits
  query-eq-apply_query s q =
      let walked = reverse-walk (λ hit. matches_query parse hit q) q.limit s.hits in
      let same : query parse s q ≡ apply_query parse s.hits q =
        elim (Bool-cases (is_constrained parse q)) [
          | inl h ↦ rw h walked
          | inr h ↦
              let every =
                keep-all (λ hit. matches_query parse hit q) s.hits (λ hit. unconstrained q hit h) in
              rw h (walked ∙ ap (λ hits. take_latest hits q.limit) every)
        ] in
      (same, same)
