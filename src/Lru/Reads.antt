-- ===== src/Lru/Reads.antt =====
-- src/internal/lru.ts: what `TtlLru` answers after a write, and what `prune` leaves.
use hackerpot.Common.{
  ℕ, zero, suc, true, false, length-map, lookup-keep, lookup-keep_absent, ◌+◌, ◌≤◌, ◌<◌, ◌≡◌, ◌≢◌,
  refl, String, none, some, List, [], ◌∷◌, ◌++◌, leb, ltb, arith, length, lookup, delete, Distinct,
  lookup-delete_self, lookup-delete_ne, delete-Distinct, lookup-append_none, lookup-append_some,
  str_eq_self, str_eq_ne, str_eq_iff, if◌then◌else◌, or_else, lt→ltb, append-Distinct, Option-cases,
  ◌⊎◌, inl, inr, ap, map, keep, ◌∙◌, sym,
}
use hackerpot.Lru.{
  Entry, TtlLru, get, peek, sweep, trim, set, get_or_create, values, prune_entries, prune, live,
  peek_found,
}
use hackerpot.Lru.Bounds.{IsValid, get-IsValid, rewritten, lookup-sweep_absent, sweep-Distinct}
use hackerpot.Lru.Recency.{
  get_hit, peek-some, younger, written, set-entries, written_keeps, younger-append_self,
}

module _ {ℓ} {V : Type ℓ} where
  lookup-trim_absent :
      (capacity : ℕ) (k : String) (m : List (String × Entry V))
      → lookup k m ≡ none
      → lookup k (trim capacity m) ≡ none
  unfolding trim
  lookup-trim_absent capacity k [] h = refl
  lookup-trim_absent capacity k ((j, f) ∷ m) h = ground (arith, lookup-trim_absent capacity k m)

  -- Eviction keeps an entry or drops it: it never changes one.
  lookup-sweep :
      (n now : ℕ) (k : String) (m : List (String × Entry V))
      → Distinct m
      → (lookup k (sweep n now m) ≡ none) ⊎ (lookup k (sweep n now m) ≡ lookup k m)
  unfolding sweep
  lookup-sweep zero now k m d = inr refl
  lookup-sweep (suc n) now k [] d = inr refl
  lookup-sweep (suc n) now k ((j, f) ∷ m) d =
      ground (arith, str_eq_iff j k, lookup-sweep_absent n now j m d.0, lookup-sweep n now k m d.1)

  lookup-trim :
      (capacity : ℕ) (k : String) (m : List (String × Entry V))
      → Distinct m
      → (lookup k (trim capacity m) ≡ none) ⊎ (lookup k (trim capacity m) ≡ lookup k m)
  unfolding trim
  lookup-trim capacity k [] d = inr refl
  lookup-trim capacity k ((j, f) ∷ m) d =
      ground
        (arith, str_eq_iff j k, lookup-trim_absent capacity j m d.0, lookup-trim capacity k m d.1)

  written-Distinct :
      (k : String) (x : V) (now : ℕ) (c : TtlLru V) → IsValid c → Distinct (written k x now c)
  written-Distinct k x now c v =
      append-Distinct k _ (delete k c.entries) (delete-Distinct k c.entries v.distinct)
        (lookup-delete_self k c.entries)

  lookup-written_ne :
      (k : String) (x : V) (now : ℕ) (c : TtlLru V) (j : String)
      → k ≢ j
      → lookup j (written k x now c) ≡ lookup j c.entries
  lookup-written_ne k x now c j n = elim (Option-cases (lookup j c.entries)) [
    | inl missing ↦
        let gone = lookup-delete_ne j k c.entries n ∙ missing in
        lookup-append_none j (delete k c.entries) _ gone ∙ rw (str_eq_ne k j n) (sym missing)
    | inr (e, found) ↦
        let there = lookup-delete_ne j k c.entries n ∙ found in
        lookup-append_some j (delete k c.entries) _ e there ∙ sym found
  ]

  lookup-set_ne :
      (k : String) (x : V) (now : ℕ) (c : TtlLru V) (j : String)
      → IsValid c
      → k ≢ j
      → (lookup j (set k x now c).entries ≡ none)
        ⊎ (lookup j (set k x now c).entries ≡ lookup j c.entries)
  lookup-set_ne k x now c j v n = elim (set-entries k x now c) [
    | inl plain ↦ rw plain (inr (lookup-written_ne k x now c j n))
    | inr evicted ↦
        let m = written k x now c in
        let d = written-Distinct k x now c v in
        let d' = sweep-Distinct 32 now m d in
        ground (
          arith,
          lookup-sweep 32 now j m d,
          lookup-trim c.capacity j (sweep 32 now m) d',
          lookup-written_ne k x now c j n,
        )
  ]

  -- A write of one key never changes what another key reads as: it reads as before, or as missing
  -- once it is evicted.
  pub peek-set_ne :
      (k : String) (x : V) (now : ℕ) (c : TtlLru V) (j : String) (later : ℕ)
      → IsValid c
      → k ≢ j
      → (peek j later (set k x now c) ≡ none) ⊎ (peek j later (set k x now c) ≡ peek j later c)
  unfolding peek
  peek-set_ne k x now c j later v n = elim (lookup-set_ne k x now c j v n) [
    | inl gone ↦ inl (rw gone refl)
    | inr same ↦ inr (rw same refl)
  ]

  lookup-written_self :
      (k : String) (x : V) (now : ℕ) (c : TtlLru V)
      → lookup k (written k x now c) ≡ some (record { value = x; expires_at = now + c.ttl_ms })
  lookup-written_self k x now c =
      lookup-append_none k (delete k c.entries) _ (lookup-delete_self k c.entries)
      ∙ rw (str_eq_self k) refl

  pub lookup-set_self :
      (k : String) (x : V) (now : ℕ) (c : TtlLru V)
      → IsValid c
      → 0 < c.ttl_ms
      → lookup k (set k x now c).entries ≡ some (record { value = x; expires_at = now + c.ttl_ms })
  lookup-set_self k x now c v t =
      let youngest : younger k (written k x now c) ≡ 0 =
        younger-append_self k _ (delete k c.entries) (lookup-delete_self k c.entries) in
      let p = v.positive in
      (written_keeps k x now c k _ (omega arith) (lookup-written_self k x now c) (omega arith)).0

  -- A written value is read back until its lifetime is over, and no longer.
  pub peek-set_self :
      (k : String) (x : V) (now later : ℕ) (c : TtlLru V)
      → IsValid c
      → 0 < c.ttl_ms
      → peek k later (set k x now c) ≡ (if ltb later (now + c.ttl_ms) then some x else none)
  unfolding peek
  peek-set_self k x now later c v t = rw (lookup-set_self k x now c v t)

  -- `get` answers what `peek` does.
  pub get-eq-peek : (k : String) (now : ℕ) (c : TtlLru V) → (get k now c).0 ≡ peek k now c
  unfolding get peek
  get-eq-peek k now c = elim (Option-cases (lookup k c.entries)) [
    | inl missing ↦ rw missing
    | inr (e, found) ↦ rw found (ground arith)
  ]

  get-ttl_ms : (k : String) (now : ℕ) (c : TtlLru V) → (get k now c).1.ttl_ms ≡ c.ttl_ms
  unfolding get
  get-ttl_ms k now c = ground arith

  -- What `getOrCreate` hands out is what a read finds afterwards: the stored value if there is a
  -- live one, and otherwise the created one, which it has stored.
  pub get_or_create-stored :
      (k : String) (x : V) (now : ℕ) (c : TtlLru V)
      → IsValid c
      → 0 < c.ttl_ms
      → (peek k now (get_or_create k x now c).1 ≡ some (get_or_create k x now c).0)
        × ((get_or_create k x now c).0 ≡ or_else (peek k now c) x)
  unfolding get_or_create
  get_or_create-stored k x now c v t = elim (Option-cases (get k now c).0) [
    | inl missed ↦
        let c' = (get k now c).1 in
        let v' = get-IsValid k now c v in
        let same = get-ttl_ms k now c in
        let stored = peek-set_self k x now now c' v' (omega arith) in
        let fresh : ltb now (now + c'.ttl_ms) ≡ true = lt→ltb _ _ (omega arith) in
        ground (arith, get-eq-peek k now c)
    | inr (y, hit) ↦
        let (e, val, alive, found, after) = get_hit k now c y hit in
        let there : lookup k (delete k c.entries ++ (k, e) ∷ []) ≡ some e =
          lookup-append_none k (delete k c.entries) ((k, e) ∷ []) (lookup-delete_self k c.entries)
          ∙ rw (str_eq_self k) refl in
        let read : peek k now (get k now c).1 ≡ some e.value =
          peek-some k now (get k now c).1 e (rw after there) alive in
        ground (arith, get-eq-peek k now c)
  ]

  prune_entries-keep :
      (now : ℕ) (m : List (String × Entry V)) → (prune_entries now m).1 ≡ keep (live now) m
  unfolding prune_entries
  prune_entries-keep now [] = refl
  prune_entries-keep now ((k, e) ∷ m) = ground (arith, prune_entries-keep now m)

  prune_entries-count :
      (now : ℕ) (m : List (String × Entry V))
      → (prune_entries now m).0 + length (keep (live now) m) ≡ length m
  unfolding prune_entries
  prune_entries-count now [] = refl
  prune_entries-count now ((k, e) ∷ m) = ground (arith, prune_entries-count now m)

  keep-keep :
      (now : ℕ) (m : List (String × Entry V))
      → keep (live now) (keep (live now) m) ≡ keep (live now) m
  keep-keep now [] = refl
  keep-keep now ((k, e) ∷ m) = ground (arith, keep-keep now m)

  peek-keep :
      (k : String) (now : ℕ) (m : List (String × Entry V))
      → Distinct m
      → peek_found now (lookup k (keep (live now) m)) ≡ peek_found now (lookup k m)
  peek-keep k now m d = elim (Option-cases (lookup k m)) [
    | inl missing ↦ rw (missing, lookup-keep_absent (live now) k m missing)
    | inr (e, found) ↦ ground (arith, lookup-keep (live now) k m e d found)
  ]

  -- `prune` removes the expired entries and no other: what reads as live reads the same afterwards,
  -- the values listed are the same, every entry left is live, and it reports how many it removed.
  pub prune_exact :
      (now : ℕ) (c : TtlLru V)
      → IsValid c
      → ((k : String) → peek k now (prune now c).1 ≡ peek k now c)
        × (values now (prune now c).1 ≡ values now c)
        × (length (prune now c).1.entries ≡ length (values now c))
        × ((prune now c).0 + length (prune now c).1.entries ≡ length c.entries)
  unfolding prune peek values
  prune_exact now c v = rw (prune_entries-keep now c.entries) (
    (λ k. peek-keep k now c.entries v.distinct),
    ap (map (λ e. e.1.value)) (keep-keep now c.entries),
    sym (length-map (keep (live now) c.entries) (λ e. e.1.value)),
    prune_entries-count now c.entries,
  )

  -- `getOrCreate` does not restart the lifetime of an entry that it finds.
  pub get_or_create_found :
      (k : String) (x : V) (now : ℕ) (c : TtlLru V) (e : Entry V)
      → lookup k c.entries ≡ some e
      → now < e.expires_at
      → ((get_or_create k x now c).0 ≡ e.value)
        × (lookup k (get_or_create k x now c).1.entries ≡ some e)
  unfolding get_or_create get
  get_or_create_found k x now c e found alive =
      let gone = lookup-delete_self k c.entries in
      let moved = rewritten k e c.entries in
      let there : lookup k (delete k c.entries ++ (k, e) ∷ []) ≡ some e =
        lookup-append_none k (delete k c.entries) _ gone ∙ rw (str_eq_self k) refl in
      let fresh : leb e.expires_at now ≡ false = ground arith in
      rw (found, fresh, moved) (refl, there)

  pub get_or_create_missed :
      (k : String) (x : V) (now : ℕ) (c : TtlLru V)
      → IsValid c
      → 0 < c.ttl_ms
      → peek k now c ≡ none
      → ((get_or_create k x now c).0 ≡ x)
        × (lookup k (get_or_create k x now c).1.entries
            ≡ some (record { value = x; expires_at = now + c.ttl_ms }))
  unfolding get_or_create
  get_or_create_missed k x now c v t missed =
      let e : (get k now c).0 ≡ none = get-eq-peek k now c ∙ missed in
      let same = get-ttl_ms k now c in
      let stored = lookup-set_self k x now (get k now c).1 (get-IsValid k now c v) (omega arith) in
      rw e (refl, rw same at stored)

  pub get_or_create_expired :
      (k : String) (x : V) (now : ℕ) (c : TtlLru V) (e : Entry V)
      → lookup k c.entries ≡ some e
      → e.expires_at ≤ now
      → (get_or_create k x now c).0 ≡ x
  unfolding get_or_create get
  get_or_create_expired k x now c e found dead =
      let over : leb e.expires_at now ≡ true = ground arith in rw (found, over) refl
