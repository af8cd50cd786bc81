-- ===== src/Lru/Recency.antt =====
-- src/internal/lru.ts: which entries of `TtlLru` an insertion can evict.
use hackerpot.Common.{
  ℕ, zero, suc, ◌+◌, ◌≤◌, ◌<◌, ◌≡◌, ◌≢◌, String, none, some, List, [], ◌∷◌, ◌++◌, arith, length,
  lookup, delete, lookup-delete_self, lookup-delete_ne, lookup-append_some, lookup-append_none,
  str_eq_self, str_eq_iff, if◌then◌else◌, str_eq, Option-cases, ◌⊎◌, inl, inr, ap, All, ◌∙◌,
  length-append, length-delete-le,
}
use hackerpot.Lru.{Entry, TtlLru, get, peek, sweep, trim, evict, set}
use hackerpot.Lru.Bounds.{length-sweep-le, rewritten}

module _ {ℓ} {V : Type ℓ} where
  -- How many entries were used after the key's.
  abbrev pub younger : String → List (String × V) → ℕ
  younger k [] = 0
  younger k ((j, e) ∷ m) = if str_eq j k then length m else younger k m

  younger-append :
      (j k : String) (e f : V) (m : List (String × V))
      → lookup j m ≡ some e
      → younger j (m ++ (k, f) ∷ []) ≡ suc (younger j m)
  younger-append j k e f [] h = absurd (cc)
  younger-append j k e f ((i, g) ∷ m) h =
      ground (arith, younger-append j k e f m, length-append m ((k, f) ∷ []))

  pub younger-append_self :
      (k : String) (e : V) (m : List (String × V))
      → lookup k m ≡ none
      → younger k (m ++ (k, e) ∷ []) ≡ 0
  younger-append_self k e [] h = ground (arith, str_eq_self k)
  younger-append_self k e ((i, g) ∷ m) h = ground (arith, younger-append_self k e m)

  younger-delete-le :
      (j k : String) (e : V) (m : List (String × V))
      → k ≢ j
      → lookup j m ≡ some e
      → younger j (delete k m) ≤ younger j m
  younger-delete-le j k e [] n h = omega arith
  younger-delete-le j k e ((i, g) ∷ m) n h =
      ground
        (arith, str_eq_iff i k, str_eq_iff i j, length-delete-le k m, younger-delete-le j k e m n)

module _ {ℓ} {V : Type ℓ} where
  -- The sweep keeps a live entry, and can only make it younger.
  sweep_keeps :
      (n now : ℕ) (k : String) (m : List (String × Entry V)) (e : Entry V)
      → now < e.expires_at
      → lookup k m ≡ some e
      → (lookup k (sweep n now m) ≡ some e) × (younger k (sweep n now m) ≤ younger k m)
  unfolding sweep
  sweep_keeps zero now k m e l h = (h, omega arith)
  sweep_keeps (suc n) now k [] e l h = (h, omega arith)
  sweep_keeps (suc n) now k ((j, f) ∷ m) e l h =
      ground (arith, length-sweep-le n now m, sweep_keeps n now k m e l)

  -- Trimming keeps an entry with fewer younger ones than the capacity.
  trim_keeps :
      (capacity : ℕ) (k : String) (m : List (String × Entry V)) (e : Entry V)
      → lookup k m ≡ some e
      → younger k m < capacity
      → (lookup k (trim capacity m) ≡ some e) × (younger k (trim capacity m) ≤ younger k m)
  unfolding trim
  trim_keeps capacity k [] e h y = (h, omega arith)
  trim_keeps capacity k ((j, f) ∷ m) e h y = ground (arith, trim_keeps capacity k m e)

  pub set-capacity :
      (k : String) (x : V) (now : ℕ) (c : TtlLru V) → (set k x now c).capacity ≡ c.capacity
  unfolding set evict
  set-capacity k x now c = ground arith

  pub set-ttl_ms : (k : String) (x : V) (now : ℕ) (c : TtlLru V) → (set k x now c).ttl_ms ≡ c.ttl_ms
  unfolding set evict
  set-ttl_ms k x now c = ground arith

  -- What `set` has written before it evicts.
  abbrev pub written : String → V → ℕ → TtlLru V → List (String × Entry V)
  written k x now c =
      delete k c.entries ++ (k, record { value = x; expires_at = now + c.ttl_ms }) ∷ []

  pub set-entries :
      (k : String) (x : V) (now : ℕ) (c : TtlLru V)
      → ((set k x now c).entries ≡ written k x now c)
        ⊎ ((set k x now c).entries ≡ trim c.capacity (sweep 32 now (written k x now c)))
  unfolding set evict
  set-entries k x now c =
      ground (arith, rewritten k (record { value = x; expires_at = now + c.ttl_ms }) c.entries)

  pub written_keeps :
      (k : String) (x : V) (now : ℕ) (c : TtlLru V) (j : String) (e : Entry V)
      → now < e.expires_at
      → lookup j (written k x now c) ≡ some e
      → younger j (written k x now c) < c.capacity
      → (lookup j (set k x now c).entries ≡ some e)
        × (younger j (set k x now c).entries ≤ younger j (written k x now c))
  written_keeps k x now c j e l h y = elim (set-entries k x now c) [
    | inl plain ↦ rw plain (h, omega arith)
    | inr evicted ↦
        let m = written k x now c in
        let (h', y') = sweep_keeps 32 now j m e l h in
        let (h'', y'') = trim_keeps c.capacity j (sweep 32 now m) e h' (omega arith) in
        rw evicted (h'', omega arith)
  ]

  -- An insertion keeps every live entry of another key that has room behind it, and ages it by one
  -- place at most.
  pub set_keeps :
      (k : String) (x : V) (now : ℕ) (c : TtlLru V) (j : String) (e : Entry V)
      → k ≢ j
      → now < e.expires_at
      → lookup j c.entries ≡ some e
      → suc (younger j c.entries) < c.capacity
      → (lookup j (set k x now c).entries ≡ some e)
        × (younger j (set k x now c).entries ≤ suc (younger j c.entries))
  set_keeps k x now c j e n l h y =
      let new : Entry V = record { value = x; expires_at = now + c.ttl_ms } in
      let h' : lookup j (delete k c.entries) ≡ some e = lookup-delete_ne j k c.entries n ∙ h in
      let y' = younger-append j k e new (delete k c.entries) h' in
      let y'' = younger-delete-le j k e c.entries n h in
      let (kept, young) =
        written_keeps k x now c j e l (lookup-append_some j _ _ e h') (omega arith) in
      (kept, omega arith)

  -- Insertions of other keys, one after the other: key, value and time.
  unfoldable pub set_all : List (String × V × ℕ) → TtlLru V → TtlLru V
  set_all [] c = c
  set_all ((k, x, now) ∷ ws) c = set_all ws (set k x now c)

  set_all_keeps :
      (ws : List (String × V × ℕ)) (c : TtlLru V) (j : String) (e : Entry V)
      → All (λ w. (w.0 ≢ j) × (w.2 < e.expires_at)) ws
      → lookup j c.entries ≡ some e
      → younger j c.entries + length ws < c.capacity
      → lookup j (set_all ws c).entries ≡ some e
  unfolding set_all
  set_all_keeps [] c j e a h y = h
  set_all_keeps ((k, x, now) ∷ ws) c j e (a, as') h y =
      let (h', y') = set_keeps k x now c j e a.0 a.1 h (omega arith) in
      let same = set-capacity k x now c in set_all_keeps ws (set k x now c) j e as' h' (omega arith)

  pub get_hit :
      (k : String) (now : ℕ) (c : TtlLru V) (x : V)
      → (get k now c).0 ≡ some x
      → (e : Entry V) × (e.value ≡ x)
        × (now < e.expires_at)
        × (lookup k c.entries ≡ some e)
        × ((get k now c).1 ≡ record c { entries = delete k c.entries ++ (k, e) ∷ [] })
  unfolding get
  get_hit k now c x h = elim (Option-cases (lookup k c.entries)) [
    | inl missing ↦ absurd (ground arith)
    | inr (e, found) ↦
        (e, ground arith, ground arith, found, ground (arith, rewritten k e c.entries))
  ]

  peek-live :
      (k : String) (now : ℕ) (c : TtlLru V) (e : Entry V) (x : V)
      → lookup k c.entries ≡ some e
      → peek k now c ≡ some x
      → now < e.expires_at
  unfolding peek
  peek-live k now c e x h p = ground arith

  pub peek-some :
      (k : String) (now : ℕ) (c : TtlLru V) (e : Entry V)
      → lookup k c.entries ≡ some e
      → now < e.expires_at
      → peek k now c ≡ some e.value
  unfolding peek
  peek-some k now c e h l = ground arith

  All-live :
      (ws : List (String × V × ℕ)) (k : String) (c : TtlLru V) (e : Entry V) (x : V)
      → lookup k c.entries ≡ some e
      → All (λ w. (w.0 ≢ k) × (peek k w.2 c ≡ some x)) ws
      → All (λ w. (w.0 ≢ k) × (w.2 < e.expires_at)) ws
  All-live [] k c e x h a = tt
  All-live (w ∷ ws) k c e x h (a, as') =
      ((a.0, peek-live k w.2 c e x h a.1), All-live ws k c e x h as')

  -- A value that was just read stays readable, at every time at which it is live, through fewer
  -- insertions of other keys than the capacity.
  pub get-survives :
      (k : String) (now later : ℕ) (c : TtlLru V) (x : V) (ws : List (String × V × ℕ))
      → (get k now c).0 ≡ some x
      → All (λ w. (w.0 ≢ k) × (peek k w.2 c ≡ some x)) ws
      → length ws < c.capacity
      → peek k later c ≡ some x
      → peek k later (set_all ws (get k now c).1) ≡ some x
  get-survives k now later c x ws h a room live =
      let (e, val, fresh, found, after) = get_hit k now c x h in
      let d : TtlLru V = record c { entries = delete k c.entries ++ (k, e) ∷ [] } in
      let gone = lookup-delete_self k c.entries in
      let youngest = younger-append_self k e (delete k c.entries) gone in
      let there : lookup k d.entries ≡ some e =
        lookup-append_none k (delete k c.entries) _ gone ∙ rw (str_eq_self k) in
      let kept = set_all_keeps ws d k e (All-live ws k c e x found a) there (omega arith) in
      let l = peek-live k later c e x found live in
      rw after (peek-some k later (set_all ws d) e kept l ∙ ap some val)
