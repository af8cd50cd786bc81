-- ===== src/Blocklist/Shedding.antt =====
-- src/blocklist.ts: `evict`, which sweeps the expired blocks and then sheds those that end soonest.
use hackerpot.Common.{
  ℕ, suc, ◌-◌, ◌≤◌, ◌<◌, ◌≡◌, ◌≢◌, refl, sym, ap, ◌∙◌, String, false, not, ◌&&◌, none, some, List,
  [], ◌∷◌, leb, ltb, or_else, max, length, lookup, has, has-lookup, delete, keep, Distinct,
  insert-Distinct, delete-Distinct, keep-Distinct, lookup-delete, lookup-keep, insert_absent,
  length-append, length-keep-le, length-insert_present, length-delete_present, str_eq_self,
  str_eq_ne, str_eq_iff, str_eq, arith, inl, inr, ◌⊎◌, Bool-cases, Option-cases, leb→le,
  leb_false→lt, ltb→lt, ltb_false→le, le→leb, lt→ltb, All,
}
use hackerpot.Blocklist.{MemoryBlocklist, active, insert_sorted, soonest_first, shed, evict, block}
use hackerpot.Blocklist.Memory.{IsValid, prepared, lookup-block}

abbrev IsAscending : List (String × ℕ) → Type 0
IsAscending [] = Unit
IsAscending (e ∷ m) = All (λ f. e.1 ≤ f.1) m × IsAscending m

All-insert_sorted :
    (P : String × ℕ → Type 0) (e : String × ℕ) (m : List (String × ℕ))
    → P e
    → All P m
    → All P (insert_sorted e m)
unfolding insert_sorted
All-insert_sorted P e [] p a = (p, tt)
All-insert_sorted P (ip, u) ((j, w) ∷ m) p a = ground (arith, All-insert_sorted P (ip, u) m p a.1)

insert_sorted-All :
    (P : String × ℕ → Type 0) (e : String × ℕ) (m : List (String × ℕ))
    → All P (insert_sorted e m)
    → P e × All P m
unfolding insert_sorted
insert_sorted-All P e [] a = (a.0, tt)
insert_sorted-All P (ip, u) ((j, w) ∷ m) a = elim (Bool-cases (leb u w)) [
  | inl first ↦ rw first at a
  | inr later ↦
      let a' : P (j, w) × All P (insert_sorted (ip, u) m) = rw later at a in
      let (p, rest) = insert_sorted-All P (ip, u) m a'.1 in (p, (a'.0, rest))
]

All-soonest_first :
    (P : String × ℕ → Type 0) (m : List (String × ℕ)) → All P m → All P (soonest_first m)
unfolding soonest_first
All-soonest_first P [] a = tt
All-soonest_first P (e ∷ m) a =
    All-insert_sorted P e (soonest_first m) a.0 (All-soonest_first P m a.1)

soonest_first-All :
    (P : String × ℕ → Type 0) (m : List (String × ℕ)) → All P (soonest_first m) → All P m
unfolding soonest_first
soonest_first-All P [] a = tt
soonest_first-All P (e ∷ m) a =
    let (p, rest) = insert_sorted-All P e (soonest_first m) a in (p, soonest_first-All P m rest)

All-later : (m : List (String × ℕ)) (a b : ℕ) → a ≤ b → All (λ f. b ≤ f.1) m → All (λ f. a ≤ f.1) m
All-later [] a b h s = tt
All-later (e ∷ m) a b h s = (omega arith, All-later m a b h s.1)

insert_sorted-IsAscending :
    (e : String × ℕ) (m : List (String × ℕ)) → IsAscending m → IsAscending (insert_sorted e m)
unfolding insert_sorted
insert_sorted-IsAscending e [] s = (tt, tt)
insert_sorted-IsAscending (ip, u) ((j, w) ∷ m) s = elim (Bool-cases (leb u w)) [
  | inl first ↦ rw first ((leb→le _ _ first, All-later m u w (leb→le _ _ first) s.0), s)
  | inr later ↦
      let below = leb_false→lt u w later in
      rw later (
        All-insert_sorted (λ f. w ≤ f.1) (ip, u) m (omega arith) s.0,
        insert_sorted-IsAscending (ip, u) m s.1,
      )
]

soonest_first-IsAscending : (m : List (String × ℕ)) → IsAscending (soonest_first m)
unfolding soonest_first
soonest_first-IsAscending [] = tt
soonest_first-IsAscending (e ∷ m) =
    insert_sorted-IsAscending e (soonest_first m) (soonest_first-IsAscending m)

length-insert_sorted :
    (e : String × ℕ) (m : List (String × ℕ)) → length (insert_sorted e m) ≡ suc (length m)
unfolding insert_sorted
length-insert_sorted e [] = refl
length-insert_sorted (ip, u) ((j, w) ∷ m) = ground (arith, length-insert_sorted (ip, u) m)

length-soonest_first : (m : List (String × ℕ)) → length (soonest_first m) ≡ length m
unfolding soonest_first
length-soonest_first [] = refl
length-soonest_first (e ∷ m) =
    omega (arith, length-insert_sorted e (soonest_first m), length-soonest_first m)

shed_done :
    (target : ℕ) (soonest m : List (String × ℕ)) → length m ≤ target → shed target soonest m ≡ m
unfolding shed
shed_done target [] m h = refl
shed_done target ((ip, u) ∷ soonest) m h = rw (le→leb (length m) target h) refl

-- What stands first when the soonest to end is put first: a block of the list that none outlasts.
abbrev pub IsSoonest : String → ℕ → List (String × ℕ) → Type 0
IsSoonest ip u m = (lookup ip m ≡ some u) × All (λ f. u ≤ f.1) m

All-lookup :
    (P : String × ℕ → Type 0) (m : List (String × ℕ)) (j : String) (u : ℕ)
    → All P m
    → lookup j m ≡ some u
    → P (j, u)
All-lookup P [] j u a h = absurd (cc)
All-lookup P ((i, w) ∷ m) j u a h = elim (Bool-cases (str_eq i j)) [
  | inl same ↦
      let key = (str_eq_iff i j).0 same in let val : u ≡ w = ground arith in rw (← key, val) a.0
  | inr other ↦ All-lookup P m j u a.1 (rw other at h)
]

-- Every entry of a map with distinct keys is found under its key.
All-found : (m : List (String × ℕ)) → Distinct m → All (λ e. lookup e.0 m ≡ some e.1) m
All-found m d = go m m d (λ k u h. h)
  where
    go :
        (m n : List (String × ℕ))
        → Distinct m
        → ((k : String) (u : ℕ) → lookup k m ≡ some u → lookup k n ≡ some u)
        → All (λ e. lookup e.0 n ≡ some e.1) m
    go [] n d f = tt
    go ((k, u) ∷ m) n d f = (
      f k u (rw (str_eq_self k) refl),
      go m n d.1 λ j w h. f j w (ground (arith, str_eq_iff k j, d.0)),
    )

shed_one :
    (target : ℕ) (m : List (String × ℕ))
    → Distinct m
    → length m ≡ suc target
    → (ip : String) × (u : ℕ) × IsSoonest ip u m × (shed target (soonest_first m) m ≡ delete ip m)
unfolding shed
shed_one target m d h = go (soonest_first m) refl
  where
    go :
        (s : List (String × ℕ))
        → soonest_first m ≡ s
        → (ip : String) × (u : ℕ) × IsSoonest ip u m × (shed target s m ≡ delete ip m)
    go [] e = absurd (omega (arith, ap length e, length-soonest_first m))
    go ((ip, u) ∷ s) e =
        let here = rw e at (All-soonest_first (λ f. lookup f.0 m ≡ some f.1) m (All-found m d)) in
        let order = rw e at (soonest_first-IsAscending m) in
        let least = soonest_first-All (λ f. u ≤ f.1) m (rw e (omega arith, order.0)) in
        let over : leb (length m) target ≡ false = ground arith in
        let shorter = length-delete_present ip m u d here.0 in
        let done = shed_done target s (delete ip m) (omega arith) in
        (ip, u, (here.0, least), rw (over, done) refl)

-- What making room in a full list does: either the sweep of the expired blocks was enough, or every
-- entry was live and one that none outlasts went.
evict_cases :
    (now : ℕ) (b : MemoryBlocklist)
    → IsValid b
    → let live = keep (active now) b.until in
      ((length live < b.max_entries) × (evict now b ≡ record b { until = live }))
      ⊎ ((ip : String) × (u : ℕ) × IsSoonest ip u live
          × (evict now b ≡ record b { until = delete ip live })
          × (suc (length (delete ip live)) ≡ b.max_entries))
unfolding evict
evict_cases now b v =
    let live = keep (active now) b.until in
    let d = keep-Distinct (active now) b.until v.distinct in
    elim (Bool-cases (ltb (length live) b.max_entries)) [
      | inl room ↦ inl (ltb→lt _ _ room, rw room refl)
      | inr full ↦
          let size : length live ≡ suc (b.max_entries - 1) = omega (
            arith,
            v.bounded,
            v.positive,
            length-keep-le (active now) b.until,
            ltb_false→le (length live) b.max_entries full,
          ) in
          let (ip, u, soonest, gone) = shed_one (b.max_entries - 1) live d size in
          let shorter = length-delete_present ip live u d soonest.0 in
          inr (ip, u, soonest, rw (full, gone) refl, omega (arith, v.positive))
    ]

-- Room is made: in a list that lacks the address there is a place for it.
record IsRoomy (ip : String) (b b' : MemoryBlocklist) : Type 0 where
  valid : IsValid b'
  ceiling : b'.max_entries ≡ b.max_entries
  room : lookup ip b'.until ≡ none → length b'.until < b'.max_entries

evict-IsRoomy :
    (ip : String) (now : ℕ) (b : MemoryBlocklist) → IsValid b → IsRoomy ip b (evict now b)
evict-IsRoomy ip now b v =
    let live = keep (active now) b.until in
    let d = keep-Distinct (active now) b.until v.distinct in
    elim (evict_cases now b v) [
      | inl (room, e) ↦ rw e (record {
        valid = record { positive = v.positive; bounded = omega arith; distinct = d };
        ceiling = refl;
        room = λ _. room;
      })
      | inr (j, u, soonest, e, size) ↦ rw e (record {
        valid = record {
          positive = v.positive;
          bounded = omega (arith, size);
          distinct = delete-Distinct j live d;
        };
        ceiling = refl;
        room = λ _. omega (arith, size);
      })
    ]

prepared-IsRoomy :
    (ip : String) (now : ℕ) (b : MemoryBlocklist) → IsValid b → IsRoomy ip b (prepared ip now b)
prepared-IsRoomy ip now b v = elim (has-lookup ip b.until) [
  | inl (there, (u, found)) ↦
      rw there (record { valid = v; ceiling = refl; room = λ missing. absurd (cc) })
  | inr (absent, missing) ↦ rw absent (elim (Bool-cases (leb b.max_entries (length b.until))) [
    | inl full ↦ rw full (evict-IsRoomy ip now b v)
    | inr fits ↦
        let under = leb_false→lt _ _ fits in
        rw fits (record { valid = v; ceiling = refl; room = λ _. under })
  ])
]

-- Every block keeps the list within its ceiling, with each address once.
pub block-IsValid :
    (ip : String) (until now : ℕ) (b : MemoryBlocklist) → IsValid b → IsValid (block ip until now b)
unfolding block
block-IsValid ip until now b v =
    let b' = prepared ip now b in
    let p = prepared-IsRoomy ip now b v in
    let end = max (or_else (lookup ip b'.until) 0) until in
    record {
      positive = p.valid.positive;
      bounded = elim (Option-cases (lookup ip b'.until)) [
        | inl missing ↦ omega (
          arith,
          ap length (insert_absent ip end b'.until missing),
          length-append b'.until ((ip, end) ∷ []),
          p.room missing,
        )
        | inr (u, found) ↦
            omega (arith, length-insert_present ip end b'.until u found, p.valid.bounded)
      ];
      distinct = insert-Distinct ip end b'.until p.valid.distinct;
    }

lookup-live :
    (now : ℕ) (m : List (String × ℕ)) (j : String) (u : ℕ)
    → Distinct m
    → lookup j m ≡ some u
    → now < u
    → lookup j (keep (active now) m) ≡ some u
lookup-live now m j u d found alive =
    lookup-keep (active now) j m u d found ∙ rw (lt→ltb _ _ alive) refl

evict-sheds :
    (now : ℕ) (b : MemoryBlocklist) (j i : String) (u w : ℕ)
    → IsValid b
    → lookup j b.until ≡ some u
    → now < u
    → lookup j (evict now b).until ≡ none
    → lookup i b.until ≡ some w
    → now < w
    → u ≤ w
evict-sheds now b j i u w v found alive lost other alive' =
    let live = keep (active now) b.until in
    let mine = lookup-live now b.until j u v.distinct found alive in
    let its = lookup-live now b.until i w v.distinct other alive' in
    elim (evict_cases now b v) [
      | inl (room, e) ↦ absurd (cc (rw e at lost))
      | inr (h, s, soonest, e, size) ↦ elim (Bool-cases (str_eq h j)) [
        | inl same ↦
            let key = (str_eq_iff h j).0 same in
            let least = All-lookup (λ f. s ≤ f.1) live i w soonest.1 its in
            let equal : u ≡ s = ground (arith, ap (λ k. lookup k live) key) in omega arith
        | inr apart ↦ absurd (cc (rw e at lost, lookup-delete j h live))
      ]
    ]

-- A live block that is lost to make room for another ended no later than any live block of the list.
pub block-sheds :
    (ip : String) (until now : ℕ) (b : MemoryBlocklist) (j : String) (u : ℕ)
    → IsValid b
    → ip ≢ j
    → lookup j b.until ≡ some u
    → now < u
    → lookup j (block ip until now b).until ≡ none
    → (i : String) (w : ℕ) → lookup i b.until ≡ some w
    → now < w
    → u ≤ w
block-sheds ip until now b j u v n found alive lost i w other alive' =
    let gone : lookup j (prepared ip now b).until ≡ none =
      rw (str_eq_ne ip j n) at (sym (lookup-block ip until now b j) ∙ lost) in
    elim (Bool-cases (not (has ip b.until) && leb b.max_entries (length b.until))) [
      | inl evicted ↦ evict-sheds now b j i u w v found alive (rw evicted at gone) other alive'
      | inr plain ↦ absurd (cc (rw plain at gone))
    ]
