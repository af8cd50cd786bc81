-- ===== src/Site/Counting.antt =====
-- src/site/index.ts: the running count of served paths, and what `prune` makes of it.
use hackerpot.Common.{
  ℕ, zero, suc, ◌+◌, ◌*◌, ◌≤◌, ◌<◌, ◌≡◌, refl, sym, ap, subst, ◌⊎◌, inl, inr, ◌∙◌, String, Bool,
  true, false, none, some, List, [], ◌∷◌, ltb, if◌then◌else◌, length, count, arith, or_else,
  str_eq_self, ltb_false→le,
}
use hackerpot.Lru
use hackerpot.Lru.{TtlLru, Entry}
use hackerpot.Lru.Bounds.{IsValid, get_or_create-params}
use hackerpot.Lru.Reads.{prune_exact}
use hackerpot.Site.{
  RequestOutcome, PathStat, SiteProfile, create, is_served_outcome, note_outcome, fresh_stat,
  note_path, record_outcome, prune, with_paths, novelty_of, walkers, novelty_of_stat, walkers_of,
  snapshot,
}
use hackerpot.Site.Learning.{record_all, create-empty}

-- Pruning changes no answer about a path, and makes the running count of served paths that of the
-- paths still remembered.
pub prune-exact :
    (clip : String → String) (now : ℕ) (p : SiteProfile)
    → IsValid p.paths
    → ((path : String) → novelty_of clip path now (prune now p) ≡ novelty_of clip path now p)
      × ((path : String) → walkers clip path now (prune now p) ≡ walkers clip path now p)
      × ((prune now p).served_paths ≡ count (λ s. ltb 0 s.served) (Lru.values now p.paths))
unfolding prune novelty_of walkers
prune-exact clip now p v =
    let (reads, listed, _, _) = prune_exact now p.paths v in
    (
      (λ path. ap novelty_of_stat (reads (clip path))),
      (λ path. ap (walkers_of clip) (reads (clip path))),
      ap (count (λ s. ltb 0 s.served)) listed,
    )

-- A profile that remembers one path, whose lifetime ends at a time.
record RemembersOne (path : String) (ends : ℕ) (p : SiteProfile) : Type 0 where
  pub stat : PathStat
  pub one : p.paths.entries ≡ (path, record { value = stat; expires_at = ends }) ∷ []

module _ (clip : String → String) (o : RequestOutcome) where
  get_or_create-expired :
      (path : String) (s x : PathStat) (ends now : ℕ) (c : TtlLru PathStat)
      → 0 < c.capacity
      → ends ≤ now
      → c.entries ≡ (path, record { value = s; expires_at = ends }) ∷ []
      → ((Lru.get_or_create path x now c).0 ≡ x)
        × ((Lru.get_or_create path x now c).1.entries
            ≡ (path, record { value = x; expires_at = now + c.ttl_ms }) ∷ [])
  unfolding Lru.get_or_create Lru.get Lru.set
  get_or_create-expired path s x ends now c room dead one =
      ground (arith, str_eq_self path, one, dead, room)

  note_path-again :
      (path : String) (at ends : ℕ) (p : SiteProfile) (c : TtlLru PathStat)
      → is_served_outcome o ≡ true
      → c.entries ≡ (path, record { value = fresh_stat at; expires_at = ends }) ∷ []
      → ((note_path path o at p (fresh_stat at, c)).served_paths ≡ p.served_paths + 1)
        × RemembersOne path ends (note_path path o at p (fresh_stat at, c))
  unfolding note_path Lru.modify Lru.modify_entries
  note_path-again path at ends p c served one = (
    rw served refl,
    record {
      stat = note_outcome p.max_walkers_per_path o at (fresh_stat at);
      one = rw (one, str_eq_self path) refl;
    },
  )

  get_or_create-new :
      (path : String) (x : PathStat) (now : ℕ) (c : TtlLru PathStat)
      → 0 < c.capacity
      → c.entries ≡ []
      → ((Lru.get_or_create path x now c).0 ≡ x)
        × ((Lru.get_or_create path x now c).1.entries
            ≡ (path, record { value = x; expires_at = now + c.ttl_ms }) ∷ [])
  unfolding Lru.get_or_create Lru.get Lru.set
  get_or_create-new path x now c room empty = ground (arith, empty, room)

  -- Nothing live is remembered, but room for the path.
  abbrev IsOver : ℕ → SiteProfile → Type 0
  IsOver now p =
      (p.paths.entries ≡ []) ⊎ ((ends : ℕ) × (ends ≤ now) × RemembersOne (clip o.path) ends p)

  get_or_create-over :
      (x : PathStat) (now : ℕ) (p : SiteProfile)
      → 0 < p.paths.capacity
      → IsOver now p
      → ((Lru.get_or_create (clip o.path) x now p.paths).0 ≡ x)
        × ((Lru.get_or_create (clip o.path) x now p.paths).1.entries
            ≡ (clip o.path, record { value = x; expires_at = now + p.paths.ttl_ms }) ∷ [])
  get_or_create-over x now p room (inl empty) =
      get_or_create-new (clip o.path) x now p.paths room empty
  get_or_create-over x now p room (inr (ends, dead, r)) =
      get_or_create-expired (clip o.path) r.stat x ends now p.paths room dead r.one

  -- A path that comes back after its lifetime is counted as one more served path.
  record_outcome-again :
      (now : ℕ) (p : SiteProfile)
      → is_served_outcome o ≡ true
      → 0 < p.paths.capacity
      → IsOver now p
      → ((record_outcome clip now o p).served_paths ≡ p.served_paths + 1)
        × RemembersOne (clip o.path) (now + p.paths.ttl_ms) (record_outcome clip now o p)
  unfolding record_outcome
  record_outcome-again now p served room over =
      let path = clip o.path in
      let at = or_else o.at now in
      let (new, one) = get_or_create-over (fresh_stat at) now p room over in
      subst
        (λ (s : PathStat).
          let after =
            note_path path o at p (s, (Lru.get_or_create path (fresh_stat at) now p.paths).1) in
          (after.served_paths ≡ p.served_paths + 1)
          × RemembersOne path (now + p.paths.ttl_ms) after)
        (sym new) (note_path-again path at (now + p.paths.ttl_ms) p _ served one)

  record_outcome-params :
      (now : ℕ) (p : SiteProfile)
      → ((record_outcome clip now o p).paths.ttl_ms ≡ p.paths.ttl_ms)
        × ((record_outcome clip now o p).paths.capacity ≡ p.paths.capacity)
  unfolding record_outcome note_path Lru.modify
  record_outcome-params now p =
      get_or_create-params (clip o.path) (fresh_stat (or_else o.at now)) now p.paths

  -- The same outcome reported again and again, each time when the lifetime of the last is over.
  abbrev pub visits : ℕ → ℕ → ℕ → List (ℕ × RequestOutcome)
  visits start ttl zero = []
  visits start ttl (suc n) = (start + n * ttl, o) ∷ visits start ttl n

  visits-params :
      (start ttl n : ℕ) (p : SiteProfile)
      → ((record_all clip (visits start ttl n) p).paths.ttl_ms ≡ p.paths.ttl_ms)
        × ((record_all clip (visits start ttl n) p).paths.capacity ≡ p.paths.capacity)
  visits-params start ttl zero p = (refl, refl)
  visits-params start ttl (suc n) p =
      let (same_ttl, same_capacity) = visits-params start ttl n p in
      let (t, c) =
        record_outcome-params (start + n * ttl) (record_all clip (visits start ttl n) p) in
      (t ∙ same_ttl, c ∙ same_capacity)

  visits-counted :
      (start n : ℕ) (p : SiteProfile)
      → is_served_outcome o ≡ true
      → 0 < p.paths.capacity
      → p.paths.entries ≡ []
      → let after = record_all clip (visits start p.paths.ttl_ms n) p in
        (after.served_paths ≡ p.served_paths + n) × IsOver (start + n * p.paths.ttl_ms) after
  visits-counted start zero p served room empty = (omega arith, inl empty)
  visits-counted start (suc n) p served room empty =
      let ttl = p.paths.ttl_ms in
      let before = record_all clip (visits start ttl n) p in
      let (counted, over) = visits-counted start n p served room empty in
      let (same_ttl, same_capacity) = visits-params start ttl n p in
      let (again, one) =
        record_outcome-again (start + n * ttl) before served (omega (arith, same_capacity, room))
          over in
      (
        omega (arith, again, counted),
        inr (start + n * ttl + before.paths.ttl_ms, omega (arith, same_ttl), one),
      )

  size_over : (now : ℕ) (p : SiteProfile) → IsOver now p → length p.paths.entries ≤ 1
  size_over now p (inl empty) = rw empty (omega arith)
  size_over now p (inr (ends, dead, r)) = rw r.one (omega arith)

made_params :
    (c : Bool) (max_paths ttl max_walkers : ℕ) (p : SiteProfile)
    → ltb max_paths 1 ≡ c
    → with_paths max_walkers
        (if c then none else some (record { capacity = max_paths; ttl_ms = ttl; entries = [] }))
      ≡ some p
    → (0 < p.paths.capacity) × (p.paths.ttl_ms ≡ ttl) × (p.served_paths ≡ 0)
made_params true max_paths ttl max_walkers p small h = absurd (cc)
made_params false max_paths ttl max_walkers p small h =
    let capacity : max_paths ≡ p.paths.capacity = ap (λ o. (or_else o p).paths.capacity) h in
    (
      omega (arith, capacity, ltb_false→le max_paths 1 small),
      sym (ap (λ o. (or_else o p).paths.ttl_ms) h),
      sym (ap (λ o. (or_else o p).served_paths) h),
    )

create-params :
    (max_paths ttl max_walkers : ℕ) (p : SiteProfile)
    → create max_paths ttl max_walkers ≡ some p
    → (0 < p.paths.capacity) × (p.paths.ttl_ms ≡ ttl) × (p.served_paths ≡ 0)
unfolding create Lru.create
create-params max_paths ttl max_walkers p h = made_params _ max_paths ttl max_walkers p refl h

made_observations :
    (c : Bool) (max_paths ttl max_walkers : ℕ) (p : SiteProfile)
    → with_paths max_walkers
        (if c then none else some (record { capacity = max_paths; ttl_ms = ttl; entries = [] }))
      ≡ some p
    → p.observations ≡ 0
made_observations true max_paths ttl max_walkers p h = absurd (cc)
made_observations false max_paths ttl max_walkers p h = sym (ap (λ o. (or_else o p).observations) h)

pub create-observations :
    (max_paths ttl max_walkers : ℕ) (p : SiteProfile)
    → create max_paths ttl max_walkers ≡ some p
    → p.observations ≡ 0
unfolding create Lru.create
create-observations max_paths ttl max_walkers p h =
    made_observations _ max_paths ttl max_walkers p h

-- A path that the application serves again each time its entry has expired is counted as one more
-- served path each time, although the profile remembers at most one path: after any number of such outcomes
-- from the start it says that it has served that many distinct paths.
pub served_paths-overcounts :
    (clip : String → String) (max_paths ttl max_walkers start n : ℕ) (p : SiteProfile)
    (o : RequestOutcome)
    → create max_paths ttl max_walkers ≡ some p
    → is_served_outcome o ≡ true
    → let s = snapshot (record_all clip (visits clip o start ttl n) p) in
      (s.served_paths ≡ n) × (s.paths ≤ 1)
unfolding snapshot Lru.size
served_paths-overcounts clip max_paths ttl max_walkers start n p o made served =
    let (room, lifetime, nothing) = create-params max_paths ttl max_walkers p made in
    let (empty, _) = create-empty max_paths ttl max_walkers p made in
    let (counted, over) = visits-counted clip o start n p served room empty in
    subst
      (λ t.
        let after = record_all clip (visits clip o start t n) p in
        (after.served_paths ≡ n) × (length after.paths.entries ≤ 1))
      lifetime (omega (arith, counted, nothing), size_over clip o _ _ over)
