-- ===== src/Blocklist/Memory.antt =====
-- src/blocklist.ts: what `MemoryBlocklist` answers after a block, and its ceiling.
use hackerpot.Common.{
  ℕ, ◌-◌, ◌≤◌, ◌<◌, ◌≡◌, ◌≢◌, refl, sym, ap, ◌∙◌, String, true, not, ◌&&◌, Option, none, some, List,
  [], ◌∷◌, leb, ltb, if◌then◌else◌, or_else, max, length, lookup, has, has-lookup, delete, keep,
  Distinct, delete-Distinct, lookup-insert, lookup-delete, lookup-keep, lookup-keep_absent,
  str_eq_self, str_eq_ne, str_eq, arith, inl, inr, ◌⊎◌, Bool-cases, Option-cases,
}
use hackerpot.Blocklist.{
  MemoryBlocklist, create, active, soonest_first, shed, evict, block, is_blocked, blocked_found,
}

pub record IsValid (b : MemoryBlocklist) : Type 0 where
  pub positive : 0 < b.max_entries
  pub bounded : length b.until ≤ b.max_entries
  pub distinct : Distinct b.until

pub create-IsValid : (n : Option ℕ) → IsValid (create n)
unfolding create
create-IsValid n = record { positive = omega arith; bounded = omega arith; distinct = tt }

pub shed-Distinct :
    (target : ℕ) (soonest m : List (String × ℕ)) → Distinct m → Distinct (shed target soonest m)
unfolding shed
shed-Distinct target [] m d = d
shed-Distinct target ((ip, u) ∷ soonest) m d =
    ground (arith, shed-Distinct target soonest (delete ip m), delete-Distinct ip m d)

lookup-shed :
    (target : ℕ) (soonest m : List (String × ℕ)) (k : String)
    → (lookup k (shed target soonest m) ≡ none) ⊎ (lookup k (shed target soonest m) ≡ lookup k m)
unfolding shed
lookup-shed target [] m k = inr refl
lookup-shed target ((ip, u) ∷ soonest) m k =
    ground (arith, lookup-shed target soonest (delete ip m) k, lookup-delete k ip m)

evict-lookup :
    (now : ℕ) (b : MemoryBlocklist) (k : String) (u : ℕ)
    → Distinct b.until
    → lookup k (evict now b).until ≡ some u
    → lookup k b.until ≡ some u
unfolding evict
evict-lookup now b k u d h = elim (Option-cases (lookup k b.until)) [
  | inl missing ↦ ground (
    arith,
    lookup-keep_absent (active now) k b.until missing,
    lookup-shed (b.max_entries - 1) (soonest_first (keep (active now) b.until))
        (keep (active now) b.until) k,
  )
  | inr (w, found) ↦ ground (
    arith,
    lookup-keep (active now) k b.until w d found,
    lookup-shed (b.max_entries - 1) (soonest_first (keep (active now) b.until))
        (keep (active now) b.until) k,
  )
]

-- The list that `block` writes into.
abbrev pub prepared : String → ℕ → MemoryBlocklist → MemoryBlocklist
prepared ip now b =
    if not (has ip b.until) && leb b.max_entries (length b.until) then evict now b else b

-- Making room never touches the address that is to be blocked.
lookup-prepared :
    (ip : String) (now : ℕ) (b : MemoryBlocklist)
    → Distinct b.until
    → lookup ip (prepared ip now b).until ≡ lookup ip b.until
lookup-prepared ip now b d = elim (has-lookup ip b.until) [
  | inl (there, _) ↦ rw there refl
  | inr (absent, missing) ↦ rw absent (elim (Bool-cases (leb b.max_entries (length b.until))) [
    | inl full ↦ rw full (elim (Option-cases (lookup ip (evict now b).until)) [
      | inl gone ↦ gone ∙ sym missing
      | inr (u, found) ↦ found ∙ sym (evict-lookup now b ip u d found)
    ])
    | inr fits ↦ rw fits refl
  ])
]

pub lookup-block :
    (ip : String) (until now : ℕ) (b : MemoryBlocklist) (j : String)
    → lookup j (block ip until now b).until ≡ (
        if str_eq ip j
        then some (max (or_else (lookup ip (prepared ip now b).until) 0) until)
        else lookup j (prepared ip now b).until)
unfolding block
lookup-block ip until now b j = lookup-insert j ip _ (prepared ip now b).until

blocked_found-eq :
    (ip : String) (now until : ℕ) (b : MemoryBlocklist)
    → (blocked_found ip now b (some until)).0 ≡ ltb now until
blocked_found-eq ip now until b = ground arith

-- After a block an address is blocked exactly until the later of the new end and the end that it had
-- before: a block is extended and never shortened.
pub is_blocked-block :
    (ip : String) (until now later : ℕ) (b : MemoryBlocklist)
    → Distinct b.until
    → (is_blocked ip later (block ip until now b)).0
      ≡ ltb later (max (or_else (lookup ip b.until) 0) until)
unfolding is_blocked
is_blocked-block ip until now later b d =
    let b' = block ip until now b in
    let found : lookup ip b'.until ≡ some (max (or_else (lookup ip b.until) 0) until) =
      lookup-block ip until now b ip ∙ rw (str_eq_self ip, lookup-prepared ip now b d) refl in
    ap (λ o. (blocked_found ip later b' o).0) found ∙ blocked_found-eq ip later _ b'

prepared-kept :
    (ip : String) (now : ℕ) (b : MemoryBlocklist) (j : String) (u : ℕ)
    → Distinct b.until
    → lookup j (prepared ip now b).until ≡ some u
    → lookup j b.until ≡ some u
prepared-kept ip now b j u d h =
    elim (Bool-cases (not (has ip b.until) && leb b.max_entries (length b.until))) [
      | inl evicted ↦ evict-lookup now b j u d (rw evicted at h)
      | inr plain ↦ rw plain at h
    ]

-- Blocking one address never blocks another: one that is blocked afterwards was blocked before.
pub is_blocked-block_ne :
    (ip : String) (until now later : ℕ) (b : MemoryBlocklist) (j : String)
    → Distinct b.until
    → ip ≢ j
    → (is_blocked j later (block ip until now b)).0 ≡ true
    → (is_blocked j later b).0 ≡ true
unfolding is_blocked
is_blocked-block_ne ip until now later b j d n h =
    let b' = block ip until now b in
    let other : lookup j b'.until ≡ lookup j (prepared ip now b).until =
      lookup-block ip until now b j ∙ rw (str_eq_ne ip j n) refl in
    elim (Option-cases (lookup j b'.until)) [
      | inl missing ↦ absurd (cc)
      | inr (u, found) ↦
          let before = prepared-kept ip now b j u d (sym other ∙ found) in
          ap (λ o. (blocked_found j later b o).0) before
          ∙ blocked_found-eq j later u b
          ∙ sym (blocked_found-eq j later u b')
          ∙ sym (ap (λ o. (blocked_found j later b' o).0) found)
          ∙ h
    ]
