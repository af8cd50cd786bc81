-- ===== src/Site/Learning.antt =====
-- src/site/index.ts: what the profile may say of a path, against the outcomes that were reported.
use hackerpot.Common.{
  ℕ, suc, ◌+◌, ◌≤◌, ◌<◌, ◌≡◌, refl, sym, ap, subst, String, Bool, true, false, none, some, List, [],
  ◌∷◌, ◌&&◌, ◌||◌, ltb, ◌==◌, if◌then◌else◌, length, any, arith, or_else, lookup, Option-cases,
  Bool-cases, inl, inr, str_eq, str_eq_self, All, length-append, All-append,
}
use hackerpot.Lru
use hackerpot.Lru.{TtlLru, Entry}
use hackerpot.Lru.Values.{Stored, get_or_create-Stored, modify-Stored, lookup-Stored}
use hackerpot.Site.{
  RequestOutcome, PathStat, SiteProfile, create, is_served_outcome, is_missed_outcome, add_walker,
  note_outcome, fresh_stat, note_path, record_outcome, is_served, with_paths,
}

module _ (clip : String → String) where
  -- Some outcome says that the application served the path.
  abbrev pub was_served : String → List (ℕ × RequestOutcome) → Bool
  was_served path past = any (λ e. is_served_outcome e.1 && str_eq path (clip e.1.path)) past

  -- The addresses whose request of the path was answered as a miss.
  abbrev pub missed_by : String → String → List (ℕ × RequestOutcome) → Bool
  missed_by path ip past =
      any (λ e. is_missed_outcome e.1 && (str_eq path (clip e.1.path) && str_eq ip e.1.ip)) past

  -- The outcomes that were reported, the newest first, each with the time of the report.
  abbrev pub record_all : List (ℕ × RequestOutcome) → SiteProfile → SiteProfile
  record_all [] p = p
  record_all ((now, o) ∷ past) p = record_outcome clip now o (record_all past p)

  -- What the statistics under a path may hold after the outcomes.
  pub record IsLearned (max : ℕ) (past : List (ℕ × RequestOutcome)) (path : String) (s : PathStat)
      : Type 0 where
    pub served : 0 < s.served → was_served path past ≡ true
    pub walkers : All (λ ip. missed_by path ip past ≡ true) s.walkers
    pub few : length s.walkers ≤ max
    pub real : 0 < s.served → s.walkers ≡ []

  later-IsLearned :
      (max : ℕ) (x : ℕ × RequestOutcome) (past : List (ℕ × RequestOutcome)) (path : String)
      (s : PathStat)
      → IsLearned max past path s
      → IsLearned max (x ∷ past) path s
  later-IsLearned max x past path s l = record {
    served = λ h. or_right _ (l.served h);
    walkers = later-All s.walkers l.walkers;
    few = l.few;
    real = l.real;
  }
    where
      or_right : (a : Bool) {b : Bool} → b ≡ true → (a || b) ≡ true
      or_right true h = refl
      or_right false h = h

      later-All :
          (ws : List String)
          → All (λ ip. missed_by path ip past ≡ true) ws
          → All (λ ip. missed_by path ip (x ∷ past) ≡ true) ws
      later-All [] h = tt
      later-All (w ∷ ws) h = (or_right _ h.0, later-All ws h.1)

  fresh-IsLearned :
      (max at : ℕ) (past : List (ℕ × RequestOutcome)) (path : String)
      → IsLearned max past path (fresh_stat at)
  fresh-IsLearned max at past path = record {
    served = λ h. absurd (omega arith);
    walkers = tt;
    few = omega arith;
    real = λ h. absurd (omega arith);
  }

  add_walker-missed :
      (now : ℕ) (o : RequestOutcome) (past : List (ℕ × RequestOutcome)) (ws : List String)
      → is_missed_outcome o ≡ true
      → All (λ ip. missed_by (clip o.path) ip ((now, o) ∷ past) ≡ true) ws
      → All (λ ip. missed_by (clip o.path) ip ((now, o) ∷ past) ≡ true) (add_walker o.ip ws)
  add_walker-missed now o past ws m h = elim (Bool-cases (any (str_eq o.ip) ws)) [
    | inl known ↦ rw known h
    | inr new ↦ rw new (
        All-append (λ ip. missed_by (clip o.path) ip ((now, o) ∷ past) ≡ true) ws (o.ip ∷ []) h
          (rw (m, str_eq_self (clip o.path), str_eq_self o.ip) refl, tt))
  ]

  length-add_walker : (ip : String) (ws : List String) → length (add_walker ip ws) ≤ suc (length ws)
  length-add_walker ip ws = elim (Bool-cases (any (str_eq ip) ws)) [
    | inl known ↦ rw known (omega arith)
    | inr new ↦ rw new (omega (arith, length-append ws (ip ∷ [])))
  ]

  note_outcome-IsLearned :
      (max now at : ℕ) (o : RequestOutcome) (past : List (ℕ × RequestOutcome)) (s : PathStat)
      → IsLearned max past (clip o.path) s
      → IsLearned max ((now, o) ∷ past) (clip o.path) (note_outcome max o at s)
  unfolding note_outcome
  note_outcome-IsLearned max now at o past s learned =
      let l = later-IsLearned max (now, o) past (clip o.path) s learned in
      elim (Bool-cases (is_served_outcome o)) [
        | inl served ↦ rw served (record {
          served = λ h. rw (served, str_eq_self (clip o.path)) refl;
          walkers = tt;
          few = omega arith;
          real = λ h. refl;
        })
        | inr other ↦ elim (Bool-cases (is_missed_outcome o)) [
          | inl missed ↦ rw (other, missed) (missed_path l missed)
          | inr neither ↦
              rw (other, neither)
                (record { served = l.served; walkers = l.walkers; few = l.few; real = l.real })
        ]
      ]
    where
      missed_path :
          IsLearned max ((now, o) ∷ past) (clip o.path) s
          → is_missed_outcome o ≡ true
          → IsLearned max ((now, o) ∷ past) (clip o.path) (record {
            served = s.served;
            missed = s.missed + 1;
            last_at = at;
            walkers =
                (if s.served == 0 && ltb (length s.walkers) max
                  then add_walker o.ip s.walkers
                  else s.walkers);
          })
      missed_path l missed = elim (Bool-cases (s.served == 0 && ltb (length s.walkers) max)) [
        | inl room ↦ rw room (record {
          served = l.served;
          walkers = add_walker-missed now o past s.walkers missed l.walkers;
          few = ground (arith, room, length-add_walker o.ip s.walkers);
          real = λ h. absurd (ground (arith, room, h));
        })
        | inr full ↦
            rw full (record { served = l.served; walkers = l.walkers; few = l.few; real = l.real })
      ]

  later-Stored :
      (max : ℕ) (x : ℕ × RequestOutcome) (past : List (ℕ × RequestOutcome))
      (m : List (String × Entry PathStat))
      → Stored (IsLearned max past) m
      → Stored (IsLearned max (x ∷ past)) m
  later-Stored max x past [] h = tt
  later-Stored max x past ((k, e) ∷ m) h =
      (later-IsLearned max x past k e.value h.0, later-Stored max x past m h.1)

  record_outcome-Stored :
      (now : ℕ) (o : RequestOutcome) (past : List (ℕ × RequestOutcome)) (p : SiteProfile)
      → Stored (IsLearned p.max_walkers_per_path past) p.paths.entries
      → Stored
          (IsLearned p.max_walkers_per_path ((now, o) ∷ past))
          (record_outcome clip now o p).paths.entries
  unfolding record_outcome note_path Lru.modify
  record_outcome-Stored now o past p h =
      let max = p.max_walkers_per_path in
      let at = or_else o.at now in
      let (mine, all) =
        get_or_create-Stored (IsLearned max past) (clip o.path) (fresh_stat at) now p.paths h
          (fresh-IsLearned max at past (clip o.path)) in
      modify-Stored (IsLearned max ((now, o) ∷ past)) (clip o.path) _ _
        (later-Stored max (now, o) past _ all) (note_outcome-IsLearned max now at o past _ mine)

  record_all-walkers_cap :
      (past : List (ℕ × RequestOutcome)) (p : SiteProfile)
      → (record_all past p).max_walkers_per_path ≡ p.max_walkers_per_path
  unfolding record_outcome note_path
  record_all-walkers_cap [] p = refl
  record_all-walkers_cap ((now, o) ∷ past) p = record_all-walkers_cap past p

  record_all-Stored :
      (past : List (ℕ × RequestOutcome)) (p : SiteProfile)
      → p.paths.entries ≡ []
      → Stored (IsLearned p.max_walkers_per_path past) (record_all past p).paths.entries
  record_all-Stored [] p empty = subst (Stored (IsLearned p.max_walkers_per_path [])) (sym empty) tt
  record_all-Stored ((now, o) ∷ past) p empty =
      let cap = record_all-walkers_cap past p in
      subst
        (λ m. Stored (IsLearned m ((now, o) ∷ past)) (record_all ((now, o) ∷ past) p).paths.entries)
        cap
        (record_outcome-Stored now o past (record_all past p) (
          subst (λ m. Stored (IsLearned m past) (record_all past p).paths.entries) (sym cap)
            (record_all-Stored past p empty)))

  peek-lookup :
      (k : String) (now : ℕ) (c : TtlLru PathStat) (s : PathStat)
      → Lru.peek k now c ≡ some s
      → (e : Entry PathStat) × (lookup k c.entries ≡ some e) × (e.value ≡ s)
  unfolding Lru.peek
  peek-lookup k now c s h = elim (Option-cases (lookup k c.entries)) [
    | inl missing ↦ absurd (ground (arith, missing, h))
    | inr (e, found) ↦ (e, found, ground (arith, found, h))
  ]

  -- What a reader finds under a path was learned from the outcomes.
  pub peek-IsLearned :
      (past : List (ℕ × RequestOutcome)) (p : SiteProfile) (path : String) (now : ℕ) (s : PathStat)
      → p.paths.entries ≡ []
      → Lru.peek path now (record_all past p).paths ≡ some s
      → IsLearned p.max_walkers_per_path past path s
  peek-IsLearned past p path now s empty h =
      let (e, found, value) = peek-lookup path now (record_all past p).paths s h in
      subst (IsLearned p.max_walkers_per_path past path) value (
        lookup-Stored (IsLearned p.max_walkers_per_path past) path _ e
          (record_all-Stored past p empty) found)

made_empty :
    (c : Bool) (max_paths ttl max_walkers : ℕ) (p : SiteProfile)
    → with_paths max_walkers
        (if c then none else some (record { capacity = max_paths; ttl_ms = ttl; entries = [] }))
      ≡ some p
    → (p.paths.entries ≡ []) × (p.max_walkers_per_path ≡ max_walkers)
made_empty true max_paths ttl max_walkers p h = absurd (cc)
made_empty false max_paths ttl max_walkers p h = (
  sym (ap (λ o. (or_else o p).paths.entries) h),
  sym (ap (λ o. (or_else o p).max_walkers_per_path) h),
)

pub create-empty :
    (max_paths ttl max_walkers : ℕ) (p : SiteProfile)
    → create max_paths ttl max_walkers ≡ some p
    → (p.paths.entries ≡ []) × (p.max_walkers_per_path ≡ max_walkers)
unfolding create Lru.create
create-empty max_paths ttl max_walkers p h =
    made_empty (ltb max_paths 1) max_paths ttl max_walkers p h

-- A path counts as served only if the application served it: some outcome of it was answered by the
-- application, not by the honeypot, with a status below 400. No number of requests that are answered
-- otherwise makes it served.
pub is_served-learned :
    (clip : String → String) (max_paths ttl max_walkers : ℕ) (p : SiteProfile)
    (past : List (ℕ × RequestOutcome)) (path : String) (now : ℕ)
    → create max_paths ttl max_walkers ≡ some p
    → is_served clip path now (record_all clip past p) ≡ true
    → was_served clip (clip path) past ≡ true
unfolding is_served
is_served-learned clip max_paths ttl max_walkers p past path now made h =
    let a = record_all clip past p in
    elim (Option-cases (Lru.peek (clip path) now a.paths)) [
      | inl missing ↦ absurd (ground (arith, missing, h))
      | inr (s, found) ↦
          let learned =
            peek-IsLearned clip past p (clip path) now s (create-empty _ _ _ p made).0 found in
          let real : 0 < s.served = ground (arith, found, h) in learned.served real
    ]

-- What the profile holds of a path comes from the outcomes of that path: it is served only if an
-- outcome served it; each address that is remembered as walking it had a request of it answered as a
-- miss; these are at most the ceiling of the options, and none for a path that is served.
record_all-peek-IsLearned :
    (clip : String → String) (max_paths ttl max_walkers : ℕ) (p : SiteProfile)
    (past : List (ℕ × RequestOutcome)) (path : String) (now : ℕ) (s : PathStat)
    → create max_paths ttl max_walkers ≡ some p
    → Lru.peek path now (record_all clip past p).paths ≡ some s
    → IsLearned clip max_walkers past path s
record_all-peek-IsLearned clip max_paths ttl max_walkers p past path now s made found =
    let (empty, cap) = create-empty max_paths ttl max_walkers p made in
    subst (λ m. IsLearned clip m past path s) cap
      (peek-IsLearned clip past p path now s empty found)
