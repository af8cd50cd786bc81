-- ===== src/Common/Maps.antt =====
-- The `Map` of the language, with text keys: entries in insertion order, no key twice. Writing a key
-- that is present keeps its place; a new key goes to the end.
use Prim.Native.Nat.{ℕ, zero, suc, ◌≤◌}
use Prim.Native.String.{String}
use mathlib.Core.Path.{◌≡◌, refl}
use mathlib.Core.Logic.{◌≢◌, ◌⊎◌, inr}
use mathlib.Core.Bool.{Bool, true, false}
use mathlib.Core.List.{List, [], ◌∷◌, ◌++◌}
use mathlib.Core.Option.{Option, none, some}
use native.Mathlib.Omega.{arith}
use hackerpot.Common.Tests.{if◌then◌else◌, str_eq, str_eq_iff, str_eq_self, str_eq_ne}
use hackerpot.Common.Lists.{length, keep, drop}

module _ {ℓ} {V : Type ℓ} where
  abbrev pub lookup : String → List (String × V) → Option V
  lookup k [] = none
  lookup k ((j, v) ∷ m) = if str_eq j k then some v else lookup k m

  abbrev pub has : String → List (String × V) → Bool
  has k [] = false
  has k ((j, v) ∷ m) = if str_eq j k then true else has k m

  abbrev pub delete : String → List (String × V) → List (String × V)
  delete k [] = []
  delete k ((j, v) ∷ m) = if str_eq j k then delete k m else (j, v) ∷ delete k m

  abbrev pub insert : String → V → List (String × V) → List (String × V)
  insert k v [] = (k, v) ∷ []
  insert k v ((j, w) ∷ m) = if str_eq j k then (j, v) ∷ m else (j, w) ∷ insert k v m

  -- No key stands twice.
  abbrev pub Distinct : List (String × V) → Type ℓ
  Distinct [] = Unit
  Distinct ((k, v) ∷ m) = (lookup k m ≡ none) × Distinct m

module _ {ℓ} {V : Type ℓ} where
  pub lookup-delete :
      (j k : String) (m : List (String × V))
      → lookup j (delete k m) ≡ (if str_eq k j then none else lookup j m)
  lookup-delete j k [] = ground arith
  lookup-delete j k ((i, v) ∷ m) =
      ground (arith, str_eq_iff i k, str_eq_iff i j, str_eq_iff k j, lookup-delete j k m)

  pub lookup-insert :
      (j k : String) (v : V) (m : List (String × V))
      → lookup j (insert k v m) ≡ (if str_eq k j then some v else lookup j m)
  lookup-insert j k v [] = refl
  lookup-insert j k v ((i, w) ∷ m) =
      ground (arith, str_eq_iff i k, str_eq_iff i j, str_eq_iff k j, lookup-insert j k v m)

  pub lookup-delete_self : (k : String) (m : List (String × V)) → lookup k (delete k m) ≡ none
  lookup-delete_self k m = rw (lookup-delete k k m, str_eq_self k)

  pub lookup-delete_ne :
      (j k : String) (m : List (String × V)) → k ≢ j → lookup j (delete k m) ≡ lookup j m
  lookup-delete_ne j k m h = rw (lookup-delete j k m, str_eq_ne k j h)

  pub has-lookup :
      (k : String) (m : List (String × V))
      → ((has k m ≡ true) × ((v : V) × (lookup k m ≡ some v)))
        ⊎ ((has k m ≡ false) × (lookup k m ≡ none))
  has-lookup k [] = inr (refl, refl)
  has-lookup k ((j, v) ∷ m) = ground (arith, has-lookup k m)

  pub insert_absent :
      (k : String) (v : V) (m : List (String × V))
      → lookup k m ≡ none
      → insert k v m ≡ m ++ (k, v) ∷ []
  insert_absent k v [] h = refl
  insert_absent k v ((j, w) ∷ m) h = ground (arith, insert_absent k v m)

  pub delete_absent : (k : String) (m : List (String × V)) → lookup k m ≡ none → delete k m ≡ m
  delete_absent k [] h = refl
  delete_absent k ((j, w) ∷ m) h = ground (arith, delete_absent k m)

  pub length-delete-le : (k : String) (m : List (String × V)) → length (delete k m) ≤ length m
  length-delete-le k [] = omega arith
  length-delete-le k ((j, w) ∷ m) = ground (arith, length-delete-le k m)

  pub length-delete_present :
      (k : String) (m : List (String × V)) (v : V)
      → Distinct m
      → lookup k m ≡ some v
      → suc (length (delete k m)) ≡ length m
  length-delete_present k [] v d h = absurd (cc)
  length-delete_present k ((j, w) ∷ m) v d h =
      ground (arith, str_eq_iff j k, delete_absent k m, length-delete_present k m v d.1)

  pub length-insert_present :
      (k : String) (v : V) (m : List (String × V)) (w : V)
      → lookup k m ≡ some w
      → length (insert k v m) ≡ length m
  length-insert_present k v [] w h = absurd (cc)
  length-insert_present k v ((j, u) ∷ m) w h = ground (arith, length-insert_present k v m w)

  pub lookup-append_some :
      (k : String) (m n : List (String × V)) (v : V)
      → lookup k m ≡ some v
      → lookup k (m ++ n) ≡ some v
  lookup-append_some k [] n v h = absurd (cc)
  lookup-append_some k ((j, w) ∷ m) n v h = ground (arith, lookup-append_some k m n v)

  pub lookup-append_none :
      (k : String) (m n : List (String × V)) → lookup k m ≡ none → lookup k (m ++ n) ≡ lookup k n
  lookup-append_none k [] n h = refl
  lookup-append_none k ((j, w) ∷ m) n h = ground (arith, lookup-append_none k m n)

  pub append-Distinct :
      (k : String) (v : V) (m : List (String × V))
      → Distinct m
      → lookup k m ≡ none
      → Distinct (m ++ (k, v) ∷ [])
  append-Distinct k v [] d h = (refl, tt)
  append-Distinct k v ((j, w) ∷ m) d h = ground (
    arith,
    str_eq_iff j k,
    str_eq_iff k j,
    lookup-append_none j m ((k, v) ∷ []) d.0,
    append-Distinct k v m d.1,
  )

  pub delete-Distinct : (k : String) (m : List (String × V)) → Distinct m → Distinct (delete k m)
  delete-Distinct k [] d = tt
  delete-Distinct k ((j, w) ∷ m) d =
      ground (arith, str_eq_iff k j, lookup-delete j k m, delete-Distinct k m d.1)

  pub insert-Distinct :
      (k : String) (v : V) (m : List (String × V)) → Distinct m → Distinct (insert k v m)
  insert-Distinct k v [] d = (refl, tt)
  insert-Distinct k v ((j, w) ∷ m) d =
      ground
        (arith, str_eq_iff k j, str_eq_iff j k, lookup-insert j k v m, insert-Distinct k v m d.1)

  pub lookup-keep_absent :
      (p : String × V → Bool) (k : String) (m : List (String × V))
      → lookup k m ≡ none
      → lookup k (keep p m) ≡ none
  lookup-keep_absent p k [] h = refl
  lookup-keep_absent p k ((j, w) ∷ m) h = ground (arith, lookup-keep_absent p k m)

  pub keep-Distinct :
      (p : String × V → Bool) (m : List (String × V)) → Distinct m → Distinct (keep p m)
  keep-Distinct p [] d = tt
  keep-Distinct p ((j, w) ∷ m) d =
      ground (arith, lookup-keep_absent p j m d.0, keep-Distinct p m d.1)

  -- An entry that passes the test stays, one that does not is gone.
  pub lookup-keep :
      (p : String × V → Bool) (k : String) (m : List (String × V)) (v : V)
      → Distinct m
      → lookup k m ≡ some v
      → lookup k (keep p m) ≡ (if p (k, v) then some v else none)
  lookup-keep p k [] v d h = absurd (cc)
  lookup-keep p k ((j, w) ∷ m) v d h =
      ground (arith, str_eq_iff j k, lookup-keep_absent p j m d.0, lookup-keep p k m v d.1)

  pub drop-Distinct : (n : ℕ) (m : List (String × V)) → Distinct m → Distinct (drop n m)
  drop-Distinct zero m d = d
  drop-Distinct (suc n) [] d = tt
  drop-Distinct (suc n) ((j, w) ∷ m) d = drop-Distinct n m d.1
