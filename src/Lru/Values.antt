-- ===== src/Lru/Values.antt =====
-- src/internal/lru.ts: a property of every stored value, kept by the operations.
use hackerpot.Common.{
  ℕ, zero, suc, ◌+◌, ◌≡◌, String, some, List, [], ◌∷◌, arith, lookup, delete, insert, inl, inr,
  Option-cases, Bool-cases, str_eq, str_eq_iff, All, leb,
}
use hackerpot.Lru.{Entry, TtlLru, get, sweep, trim, evict, set, get_or_create, modify_entries}

module _ {ℓ κ} {V : Type ℓ} (P : String → V → Type κ) where
  abbrev pub Stored : List (String × Entry V) → Type κ
  Stored m = All (λ e. P e.0 e.1.value) m

  pub lookup-Stored :
      (k : String) (m : List (String × Entry V)) (e : Entry V)
      → Stored m
      → lookup k m ≡ some e
      → P k e.value
  lookup-Stored k [] e s h = absurd (cc)
  lookup-Stored k ((j, f) ∷ m) e s h = elim (Bool-cases (str_eq j k)) [
    | inl same ↦
        let here : e ≡ f = ground arith in let key = (str_eq_iff j k).0 same in rw (← key, here) s.0
    | inr other ↦ lookup-Stored k m e s.1 (rw other at h)
  ]

  pub delete-Stored : (k : String) (m : List (String × Entry V)) → Stored m → Stored (delete k m)
  delete-Stored k [] s = tt
  delete-Stored k ((j, f) ∷ m) s = ground (arith, delete-Stored k m s.1)

  insert-Stored :
      (k : String) (e : Entry V) (m : List (String × Entry V))
      → Stored m
      → P k e.value
      → Stored (insert k e m)
  insert-Stored k e [] s p = (p, tt)
  insert-Stored k e ((j, f) ∷ m) s p = elim (Bool-cases (str_eq j k)) [
    | inl same ↦ let key = (str_eq_iff j k).0 same in rw same (rw key p, s.1)
    | inr other ↦ rw other (s.0, insert-Stored k e m s.1 p)
  ]

  sweep-Stored : (n now : ℕ) (m : List (String × Entry V)) → Stored m → Stored (sweep n now m)
  unfolding sweep
  sweep-Stored zero now m s = s
  sweep-Stored (suc n) now [] s = tt
  sweep-Stored (suc n) now ((j, f) ∷ m) s = ground (arith, sweep-Stored n now m s.1)

  trim-Stored : (capacity : ℕ) (m : List (String × Entry V)) → Stored m → Stored (trim capacity m)
  unfolding trim
  trim-Stored capacity [] s = tt
  trim-Stored capacity (e ∷ m) s = ground (arith, trim-Stored capacity m s.1)

  pub modify-Stored :
      (k : String) (v : V) (m : List (String × Entry V))
      → Stored m
      → P k v
      → Stored (modify_entries k v m)
  unfolding modify_entries
  modify-Stored k v [] s p = tt
  modify-Stored k v ((j, f) ∷ m) s p = elim (Bool-cases (str_eq j k)) [
    | inl same ↦ let key = (str_eq_iff j k).0 same in rw same (rw key p, s.1)
    | inr other ↦ rw other (s.0, modify-Stored k v m s.1 p)
  ]

  pub set-Stored :
      (k : String) (x : V) (now : ℕ) (c : TtlLru V)
      → Stored c.entries
      → P k x
      → Stored (set k x now c).entries
  unfolding set evict
  set-Stored k x now c s p =
      ground
        (arith, written, sweep-Stored 32 now m written, trim-Stored c.capacity (sweep 32 now m))
    where
      m : List (String × Entry V)
      m = insert k (record { value = x; expires_at = now + c.ttl_ms }) (delete k c.entries)

      written : Stored m
      written = insert-Stored k _ (delete k c.entries) (delete-Stored k c.entries s) p

  -- What `get` finds satisfies the property, and so does all that it leaves.
  pub get-Stored :
      (k : String) (now : ℕ) (c : TtlLru V)
      → Stored c.entries
      → ((v : V) → (get k now c).0 ≡ some v → P k v) × Stored (get k now c).1.entries
  unfolding get
  get-Stored k now c s = elim (Option-cases (lookup k c.entries)) [
    | inl missing ↦ rw missing ((λ v h. absurd (cc)), s)
    | inr (e, found) ↦
        let p = lookup-Stored k c.entries e s found in
        let gone = delete-Stored k c.entries s in
        let moved = insert-Stored k e (delete k c.entries) gone p in
        rw found (elim (Bool-cases (leb e.expires_at now)) [
          | inl dead ↦ rw dead ((λ v h. absurd (cc)), gone)
          | inr fresh ↦
              rw fresh ((λ v h. let same : e.value ≡ v = ground arith in rw (← same) p), moved)
        ])
  ]

  pub get_or_create-Stored :
      (k : String) (x : V) (now : ℕ) (c : TtlLru V)
      → Stored c.entries
      → P k x
      → P k (get_or_create k x now c).0 × Stored (get_or_create k x now c).1.entries
  unfolding get_or_create
  get_or_create-Stored k x now c s p =
      let (found, left) = get-Stored k now c s in
      elim (Option-cases (get k now c).0) [
        | inl missed ↦ rw missed (p, set-Stored k x now (get k now c).1 left p)
        | inr (y, hit) ↦ rw hit (found y hit, left)
      ]
