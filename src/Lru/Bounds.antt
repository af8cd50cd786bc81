-- ===== src/Lru/Bounds.antt =====
-- src/internal/lru.ts: the ceiling of `TtlLru`, kept by every operation.
use hackerpot.Common.{
  ℕ, zero, suc, ◌+◌, ◌≤◌, ◌<◌, ◌≡◌, refl, String, none, some, List, [], ◌∷◌, ◌++◌, arith, length,
  lookup, delete, insert, Distinct, lookup-delete_self, delete-Distinct, insert-Distinct,
  insert_absent, length-append, length-delete-le, length-delete_present, Option-cases, inl, inr, ap,
}
use hackerpot.Lru.{
  Entry, TtlLru, create, get, sweep, trim, evict, set, get_or_create, touch, remove, clear,
  prune_entries, prune, modify_entries, modify,
}

-- What holds of a cache between calls: room for an entry, no more entries than the ceiling, and no
-- key twice.
pub record IsValid {ℓ} {V : Type ℓ} (c : TtlLru V) : Type ℓ where
  pub positive : 0 < c.capacity
  pub bounded : length c.entries ≤ c.capacity
  pub distinct : Distinct c.entries

module _ {ℓ} {V : Type ℓ} where
  pub lookup-sweep_absent :
      (n now : ℕ) (k : String) (m : List (String × Entry V))
      → lookup k m ≡ none
      → lookup k (sweep n now m) ≡ none
  unfolding sweep
  lookup-sweep_absent zero now k m h = h
  lookup-sweep_absent (suc n) now k [] h = refl
  lookup-sweep_absent (suc n) now k ((j, e) ∷ m) h = ground (arith, lookup-sweep_absent n now k m)

  pub sweep-Distinct :
      (n now : ℕ) (m : List (String × Entry V)) → Distinct m → Distinct (sweep n now m)
  unfolding sweep
  sweep-Distinct zero now m d = d
  sweep-Distinct (suc n) now [] d = tt
  sweep-Distinct (suc n) now ((j, e) ∷ m) d =
      ground (arith, lookup-sweep_absent n now j m d.0, sweep-Distinct n now m d.1)

  pub length-sweep-le :
      (n now : ℕ) (m : List (String × Entry V)) → length (sweep n now m) ≤ length m
  unfolding sweep
  length-sweep-le zero now m = omega arith
  length-sweep-le (suc n) now [] = omega arith
  length-sweep-le (suc n) now ((j, e) ∷ m) = ground (arith, length-sweep-le n now m)

  pub trim-Distinct :
      (capacity : ℕ) (m : List (String × Entry V)) → Distinct m → Distinct (trim capacity m)
  unfolding trim
  trim-Distinct capacity [] d = tt
  trim-Distinct capacity (e ∷ m) d = ground (arith, trim-Distinct capacity m d.1)

  pub length-trim-le :
      (capacity : ℕ) (m : List (String × Entry V)) → length (trim capacity m) ≤ capacity
  unfolding trim
  length-trim-le capacity [] = omega arith
  length-trim-le capacity (e ∷ m) = ground (arith, length-trim-le capacity m)

  -- The entries that `set` and `touch` write: the key is put at the end.
  pub rewritten-Distinct :
      (k : String) (e : Entry V) (m : List (String × Entry V))
      → Distinct m
      → Distinct (insert k e (delete k m))
  rewritten-Distinct k e m d = insert-Distinct k e (delete k m) (delete-Distinct k m d)

  pub rewritten :
      (k : String) (e : Entry V) (m : List (String × Entry V))
      → insert k e (delete k m) ≡ delete k m ++ (k, e) ∷ []
  rewritten k e m = insert_absent k e (delete k m) (lookup-delete_self k m)

  length-rewritten :
      (k : String) (e : Entry V) (m : List (String × Entry V))
      → length (insert k e (delete k m)) ≡ suc (length (delete k m))
  length-rewritten k e m =
      omega (arith, ap length (rewritten k e m), length-append (delete k m) ((k, e) ∷ []))

  length-rewritten_present :
      (k : String) (e f : Entry V) (m : List (String × Entry V))
      → Distinct m
      → lookup k m ≡ some f
      → length (insert k e (delete k m)) ≡ length m
  length-rewritten_present k e f m d h =
      omega (arith, length-rewritten k e m, length-delete_present k m f d h)

  pub create-IsValid : (capacity ttl : ℕ) (c : TtlLru V) → create capacity ttl ≡ some c → IsValid c
  unfolding create
  create-IsValid capacity ttl c h = ground arith

  pub get-IsValid : (k : String) (now : ℕ) (c : TtlLru V) → IsValid c → IsValid (get k now c).1
  unfolding get
  get-IsValid k now c v = elim (Option-cases (lookup k c.entries)) [
    | inl missing ↦ ground arith
    | inr (e, found) ↦ ground (
      arith,
      delete-Distinct k c.entries v.distinct,
      length-delete-le k c.entries,
      rewritten-Distinct k e c.entries v.distinct,
      length-rewritten_present k e e c.entries v.distinct found,
    )
  ]

  pub set-IsValid :
      (k : String) (x : V) (now : ℕ) (c : TtlLru V) → IsValid c → IsValid (set k x now c)
  unfolding set evict
  set-IsValid k x now c v = ground (
    arith,
    rewritten-Distinct k new c.entries v.distinct,
    sweep-Distinct 32 now (insert k new (delete k c.entries)),
    trim-Distinct c.capacity (sweep 32 now (insert k new (delete k c.entries))),
    length-trim-le c.capacity (sweep 32 now (insert k new (delete k c.entries))),
  )
    where
      new : Entry V
      new = record { value = x; expires_at = now + c.ttl_ms }

  pub get_or_create-IsValid :
      (k : String) (x : V) (now : ℕ) (c : TtlLru V)
      → IsValid c
      → IsValid (get_or_create k x now c).1
  unfolding get_or_create
  get_or_create-IsValid k x now c v = elim (Option-cases (get k now c).0) [
    | inl missed ↦ ground (arith, get-IsValid k now c v, set-IsValid k x now (get k now c).1)
    | inr (found, hit) ↦ ground (arith, get-IsValid k now c v)
  ]

  touch-IsValid : (k : String) (now : ℕ) (c : TtlLru V) → IsValid c → IsValid (touch k now c).1
  unfolding touch
  touch-IsValid k now c v = elim (Option-cases (lookup k c.entries)) [
    | inl missing ↦ ground arith
    | inr (e, found) ↦ ground (
      arith,
      rewritten-Distinct k (renewed e) c.entries v.distinct,
      length-rewritten_present k (renewed e) e c.entries v.distinct found,
    )
  ]
    where
      renewed : Entry V → Entry V
      renewed e = record { value = e.value; expires_at = now + c.ttl_ms }

  remove-IsValid : (k : String) (c : TtlLru V) → IsValid c → IsValid (remove k c).1
  unfolding remove
  remove-IsValid k c v =
      ground (arith, delete-Distinct k c.entries v.distinct, length-delete-le k c.entries)

  lookup-prune_absent :
      (now : ℕ) (k : String) (m : List (String × Entry V))
      → lookup k m ≡ none
      → lookup k (prune_entries now m).1 ≡ none
  unfolding prune_entries
  lookup-prune_absent now k [] h = refl
  lookup-prune_absent now k ((j, e) ∷ m) h = ground (arith, lookup-prune_absent now k m)

  prune-Distinct :
      (now : ℕ) (m : List (String × Entry V)) → Distinct m → Distinct (prune_entries now m).1
  unfolding prune_entries
  prune-Distinct now [] d = tt
  prune-Distinct now ((j, e) ∷ m) d =
      ground (arith, lookup-prune_absent now j m d.0, prune-Distinct now m d.1)

  length-prune :
      (now : ℕ) (m : List (String × Entry V))
      → (prune_entries now m).0 + length (prune_entries now m).1 ≡ length m
  unfolding prune_entries
  length-prune now [] = refl
  length-prune now ((j, e) ∷ m) = ground (arith, length-prune now m)

  prune-IsValid : (now : ℕ) (c : TtlLru V) → IsValid c → IsValid (prune now c).1
  unfolding prune
  prune-IsValid now c v =
      ground (arith, prune-Distinct now c.entries v.distinct, length-prune now c.entries)

module _ {ℓ} {V : Type ℓ} where
  pub get_or_create-params :
      (k : String) (x : V) (now : ℕ) (c : TtlLru V)
      → ((get_or_create k x now c).1.ttl_ms ≡ c.ttl_ms)
        × ((get_or_create k x now c).1.capacity ≡ c.capacity)
  unfolding get_or_create get set evict
  get_or_create-params k x now c = ground arith

  lookup-modify_absent :
      (k j : String) (x : V) (m : List (String × Entry V))
      → lookup j m ≡ none
      → lookup j (modify_entries k x m) ≡ none
  unfolding modify_entries
  lookup-modify_absent k j x [] h = refl
  lookup-modify_absent k j x ((i, e) ∷ m) h = ground (arith, lookup-modify_absent k j x m)

  modify-Distinct :
      (k : String) (x : V) (m : List (String × Entry V))
      → Distinct m
      → Distinct (modify_entries k x m)
  unfolding modify_entries
  modify-Distinct k x [] d = tt
  modify-Distinct k x ((j, e) ∷ m) d =
      ground (arith, lookup-modify_absent k j x m d.0, modify-Distinct k x m d.1)

  length-modify :
      (k : String) (x : V) (m : List (String × Entry V)) → length (modify_entries k x m) ≡ length m
  unfolding modify_entries
  length-modify k x [] = refl
  length-modify k x ((j, e) ∷ m) = ground (arith, length-modify k x m)

  pub modify-IsValid : (k : String) (x : V) (c : TtlLru V) → IsValid c → IsValid (modify k x c)
  unfolding modify
  modify-IsValid k x c v = record {
    positive = v.positive;
    bounded = omega (arith, length-modify k x c.entries, v.bounded);
    distinct = modify-Distinct k x c.entries v.distinct;
  }

  -- A changed object keeps its place and its lifetime.
  pub lookup-modify_self :
      (k : String) (x : V) (m : List (String × Entry V)) (e : Entry V)
      → lookup k m ≡ some e
      → lookup k (modify_entries k x m) ≡ some (record e { value = x })
  unfolding modify_entries
  lookup-modify_self k x [] e h = absurd (cc)
  lookup-modify_self k x ((j, f) ∷ m) e h = ground (arith, lookup-modify_self k x m e)

-- One call of the class that changes its state.
pub data Call {ℓ} (V : Type ℓ) : Type ℓ where
  gets : String → ℕ → Call V
  sets : String → V → ℕ → Call V
  gets_or_creates : String → V → ℕ → Call V
  touches : String → ℕ → Call V
  removes : String → Call V
  clears : Call V
  prunes : ℕ → Call V

module _ {ℓ} {V : Type ℓ} where
  unfoldable pub step : Call V → TtlLru V → TtlLru V
  step (gets k now) c = (get k now c).1
  step (sets k x now) c = set k x now c
  step (gets_or_creates k x now) c = (get_or_create k x now c).1
  step (touches k now) c = (touch k now c).1
  step (removes k) c = (remove k c).1
  step clears c = clear c
  step (prunes now) c = (prune now c).1

  unfoldable pub run : List (Call V) → TtlLru V → TtlLru V
  unfolding step
  run [] c = c
  run (call ∷ calls) c = run calls (step call c)

  step-IsValid : (call : Call V) (c : TtlLru V) → IsValid c → IsValid (step call c)
  unfolding step clear
  step-IsValid (gets k now) c v = get-IsValid k now c v
  step-IsValid (sets k x now) c v = set-IsValid k x now c v
  step-IsValid (gets_or_creates k x now) c v = get_or_create-IsValid k x now c v
  step-IsValid (touches k now) c v = touch-IsValid k now c v
  step-IsValid (removes k) c v = remove-IsValid k c v
  step-IsValid clears c v = record { positive = v.positive; bounded = omega arith; distinct = tt }
  step-IsValid (prunes now) c v = prune-IsValid now c v

  -- Every sequence of calls keeps a cache within its capacity, with a capacity of at least one and
  -- no key stored twice.
  pub run-IsValid : (calls : List (Call V)) (c : TtlLru V) → IsValid c → IsValid (run calls c)
  unfolding run
  run-IsValid [] c v = v
  run-IsValid (call ∷ calls) c v = run-IsValid calls (step call c) (step-IsValid call c v)
