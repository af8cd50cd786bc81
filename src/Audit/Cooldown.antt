-- ===== src/Audit/Cooldown.antt =====
-- src/audit.ts: the loops that file anomalies, and the times of the keys that they keep.
use hackerpot.Common.{
  ℕ, ◌+◌, ◌<◌, ◌≡◌, refl, sym, subst, ◌∙◌, String, Bool, true, false, Option, none, some, List, [],
  ◌∷◌, ◌++◌, ltb, leb, ◌||◌, any, length, lookup, arith, str_eq, str_eq_iff, str_eq_ne,
  lookup-insert, lookup-keep, Distinct, insert-Distinct, keep-Distinct, Bool-cases, inl, inr, ◌≢◌,
  lt→ltb,
}
use hackerpot.Audit.{max_campaign_paths}
use hackerpot.Audit.Checks.{Anomaly}
use hackerpot.Audit.Evaluating.{Fired, attempt, put, file_all, prune_cooldowns, filed, cooling}

-- Nothing is filed under the key.
abbrev pub IsSilent : String → List (String × Anomaly) → Type 0
IsSilent key out = any (λ e. str_eq key e.0) out ≡ false

-- Something is.
abbrev pub Fires : String → List (String × Anomaly) → Type 0
Fires key out = any (λ e. str_eq key e.0) out ≡ true

cooling-lookup :
    (cooldown now at : ℕ) (k : String) (fired : Fired)
    → lookup k fired ≡ some at
    → now < at + cooldown
    → cooling cooldown now k fired ≡ true
cooling-lookup cooldown now at k fired h l = rw h (lt→ltb now (at + cooldown) l)

-- A key that is cooling stays as it is, and nothing is filed under it.
attempt-cooling :
    (cooldown now at : ℕ) (k key : String) (found : Option Anomaly) (fired : Fired)
    → lookup k fired ≡ some at
    → now < at + cooldown
    → let (one, after) = attempt cooldown now key found fired in
      (lookup k after ≡ some at) × IsSilent k (put one [])
unfolding attempt
attempt-cooling cooldown now at k key none fired h l = (h, refl)
attempt-cooling cooldown now at k key (some a) fired h l =
    elim (Bool-cases (cooling cooldown now key fired)) [
      | inl c ↦ rw c (h, refl)
      | inr c ↦
          let cools = cooling-lookup cooldown now at k fired h l in
          let apart : key ≢ k = λ (e : key ≡ k).
            ground (arith, cools, subst (λ j. cooling cooldown now j fired ≡ false) e c) in
          rw
            (
              c,
              lookup-insert k key now fired,
              str_eq_ne key k apart,
              str_eq_ne k key (λ e. apart (sym e)),
            )
            (h, refl)
    ]

filed-Fires :
    (c : Bool) (now : ℕ) (k key : String) (a : Anomaly) (fired : Fired)
    → let (one, after) = filed c now key a fired in Fires k (put one []) → lookup k after ≡ some now
filed-Fires true now k key a fired f = absurd (cc)
filed-Fires false now k key a fired f =
    ground (arith, str_eq_iff k key, str_eq_iff key k, lookup-insert k key now fired)

-- What is filed under a key is remembered.
attempt-Fires :
    (cooldown now : ℕ) (k key : String) (found : Option Anomaly) (fired : Fired)
    → let (one, after) = attempt cooldown now key found fired in
      Fires k (put one []) → lookup k after ≡ some now
unfolding attempt
attempt-Fires cooldown now k key none fired f = absurd (cc)
attempt-Fires cooldown now k key (some a) fired f =
    filed-Fires (cooling cooldown now key fired) now k key a fired f

attempt-Distinct :
    (cooldown now : ℕ) (key : String) (found : Option Anomaly) (fired : Fired)
    → Distinct fired
    → Distinct (attempt cooldown now key found fired).1
unfolding attempt
attempt-Distinct cooldown now key none fired d = d
attempt-Distinct cooldown now key (some a) fired d =
    elim (Bool-cases (cooling cooldown now key fired)) [
      | inl c ↦ rw c d
      | inr c ↦ rw c (insert-Distinct key now fired d)
    ]

pub any-put :
    (p : String × Anomaly → Bool) (one : Option (String × Anomaly)) (rest : List (String × Anomaly))
    → any p (put one rest) ≡ (any p (put one []) || any p rest)
any-put p none rest = refl
any-put p (some x) rest = elim (Bool-cases (p x)) [ inl h ↦ rw h refl | inr h ↦ rw h refl ]

module _ {X : Type 0} (cooldown now : ℕ) (look : X → String × Option Anomaly) where
  pub file_all-cooling :
      (k : String) (at : ℕ) (xs : List X) (fired : Fired)
      → lookup k fired ≡ some at
      → now < at + cooldown
      → let (out, after) = file_all cooldown now look xs fired in
        (lookup k after ≡ some at) × IsSilent k out
  unfolding file_all
  file_all-cooling k at [] fired h l = (h, refl)
  file_all-cooling k at (x ∷ xs) fired h l =
      let (one, after) = attempt cooldown now (look x).0 (look x).1 fired in
      let (kept, silent) = attempt-cooling cooldown now at k (look x).0 (look x).1 fired h l in
      let (still, rest) = file_all-cooling k at xs after kept l in
      (still, any-put _ one _ ∙ rw (silent, rest) refl)

  pub file_all-Fires :
      (k : String) (xs : List X) (fired : Fired)
      → 0 < cooldown
      → let (out, after) = file_all cooldown now look xs fired in
        Fires k out → lookup k after ≡ some now
  unfolding file_all
  file_all-Fires k [] fired pos f = absurd (cc)
  file_all-Fires k (x ∷ xs) fired pos f =
      let (one, after) = attempt cooldown now (look x).0 (look x).1 fired in
      elim (Bool-cases (any (λ e. str_eq k e.0) (put one []))) [
        | inl here ↦
            (file_all-cooling k now xs after
              (attempt-Fires cooldown now k (look x).0 (look x).1 fired here) (omega arith)).0
        | inr not_here ↦
            file_all-Fires k xs after pos (sym (any-put _ one _ ∙ rw not_here refl) ∙ f)
      ]

  pub file_all-Distinct :
      (xs : List X) (fired : Fired)
      → Distinct fired
      → Distinct (file_all cooldown now look xs fired).1
  unfolding file_all
  file_all-Distinct [] fired d = d
  file_all-Distinct (x ∷ xs) fired d =
      file_all-Distinct xs _ (attempt-Distinct cooldown now (look x).0 (look x).1 fired d)

pub any-append :
    (p : String × Anomaly → Bool) (xs ys : List (String × Anomaly))
    → any p (xs ++ ys) ≡ (any p xs || any p ys)
any-append p [] ys = refl
any-append p (x ∷ xs) ys = elim (Bool-cases (p x)) [
  | inl h ↦ rw h refl
  | inr h ↦ rw h (any-append p xs ys)
]

pub prune_cooldowns-lookup :
    (cooldown now at : ℕ) (k : String) (fired : Fired)
    → Distinct fired
    → lookup k fired ≡ some at
    → now < at + cooldown
    → lookup k (prune_cooldowns cooldown now fired) ≡ some at
unfolding prune_cooldowns
prune_cooldowns-lookup cooldown now at k fired d h l =
    elim (Bool-cases (leb (length fired) max_campaign_paths)) [
      | inl c ↦ rw c h
      | inr c ↦
          let kept = lookup-keep (λ e. ltb now (e.1 + cooldown)) k fired at d h in
          rw c (kept ∙ rw (lt→ltb now (at + cooldown) l) refl)
    ]

pub prune_cooldowns-Distinct :
    (cooldown now : ℕ) (fired : Fired)
    → Distinct fired
    → Distinct (prune_cooldowns cooldown now fired)
unfolding prune_cooldowns
prune_cooldowns-Distinct cooldown now fired d =
    elim (Bool-cases (leb (length fired) max_campaign_paths)) [
      | inl c ↦ rw c d
      | inr c ↦ rw c (keep-Distinct _ fired d)
    ]
