-- ===== src/Activity/Rotation.antt =====
-- src/state.ts: the bounds of `FingerprintRegistry`, and that a recorded address is reported.
use hackerpot.Common.{
  ℕ, suc, ◌+◌, ◌≤◌, ◌<◌, ◌≡◌, refl, ap, ◌∙◌, String, Bool, true, none, some, List, [], ◌∷◌, min,
  lookup, has-lookup, arith, length, keep, map, tail, leb, le→leb, Distinct, insert-Distinct,
  lookup-insert, length-insert_present, insert_absent, length-append, lookup-keep, str_eq_self, any,
  str_eq, inl, inr, Bool-cases, leb→le, ltb, lt→ltb,
}
use hackerpot.Lru
use hackerpot.Lru.{TtlLru, Entry}
use hackerpot.Lru.Bounds
use hackerpot.Lru.Reads
use hackerpot.Lru.Recency
use hackerpot.Lru.Values.{Stored, get_or_create-Stored, set-Stored}
use hackerpot.Activity.Fingerprints.{
  FingerprintRegistry, create, add_ip, record_ip, fresh, ips_within, max_ips_per_fingerprint,
}

tail-Distinct : (m : List (String × ℕ)) → Distinct m → Distinct (tail m)
tail-Distinct [] d = tt
tail-Distinct (e ∷ m) d = d.1

pub lookup-tail_absent :
    (k : String) (m : List (String × ℕ)) → lookup k m ≡ none → lookup k (tail m) ≡ none
lookup-tail_absent k [] h = refl
lookup-tail_absent k (e ∷ m) h = ground arith

length-tail : (m : List (String × ℕ)) → 0 < length m → suc (length (tail m)) ≡ length m
length-tail [] h = absurd (omega arith)
length-tail (e ∷ m) h = refl

-- The addresses of one fingerprint: each once, and no more than the ceiling.
abbrev pub IsFew : ℕ → List (String × ℕ) → Type 0
IsFew ceiling ips = Distinct ips × (length ips ≤ ceiling)

-- The ceiling is a variable here, since a proof that computes with 256 is slow.
add_ip-IsFew :
    (ceiling : ℕ) (ip : String) (now : ℕ) (ips : List (String × ℕ))
    → 0 < ceiling
    → IsFew ceiling ips
    → IsFew ceiling (add_ip ceiling ip now ips)
unfolding add_ip
add_ip-IsFew ceiling ip now ips p (d, few) = elim (has-lookup ip ips) [
  | inl (there, (at, found)) ↦
      rw there
        (insert-Distinct ip now ips d, omega (arith, length-insert_present ip now ips at found))
  | inr (absent, missing) ↦ rw absent (elim (Bool-cases (leb ceiling (length ips))) [
    | inl full ↦
        let missing' = lookup-tail_absent ip ips missing in
        let e = ap length (insert_absent ip now (tail ips) missing') in
        rw full (
          insert-Distinct ip now (tail ips) (tail-Distinct ips d),
          omega (
            arith,
            e,
            length-append (tail ips) ((ip, now) ∷ []),
            length-tail ips (omega (arith, leb→le _ _ full)),
          ),
        )
    | inr room ↦
        let e = ap length (insert_absent ip now ips missing) in
        let under : length ips < ceiling = ground arith in
        rw room (insert-Distinct ip now ips d, omega (arith, e, length-append ips ((ip, now) ∷ [])))
  ])
]

lookup-add_ip :
    (ceiling : ℕ) (ip : String) (now : ℕ) (ips : List (String × ℕ))
    → lookup ip (add_ip ceiling ip now ips) ≡ some now
unfolding add_ip
lookup-add_ip ceiling ip now ips = lookup-insert ip ip now _ ∙ rw (str_eq_self ip) refl

abbrev pub HasFew : String → List (String × ℕ) → Type 0
HasFew fp ips = IsFew max_ips_per_fingerprint ips

pub record IsSound (r : FingerprintRegistry) : Type 0 where
  pub cache : Bounds.IsValid r.seen
  pub lifetime : 0 < r.seen.ttl_ms
  pub few : Stored HasFew r.seen.entries

pub create-IsSound : (window tracked : ℕ) → IsSound (create window tracked)
unfolding create
create-IsSound window tracked = record {
  cache = record { positive = omega arith; bounded = omega arith; distinct = tt };
  lifetime = omega arith;
  few = tt;
}

-- Recording keeps at most 256 addresses to a fingerprint, each once, and the number of fingerprints
-- within the capacity.
pub record_ip-IsSound :
    (fp ip : String) (clock now : ℕ) (r : FingerprintRegistry)
    → IsSound r
    → IsSound (record_ip fp ip clock now r)
unfolding record_ip
record_ip-IsSound fp ip clock now r s =
    let (handed, left) = get_or_create-Stored HasFew fp [] clock r.seen s.few (tt, omega arith) in
    let (ips, seen) = Lru.get_or_create fp [] clock r.seen in
    record {
      cache =
          Bounds.set-IsValid fp _ clock seen
            (Bounds.get_or_create-IsValid fp [] clock r.seen s.cache);
      lifetime = omega (
        arith,
        Recency.set-ttl_ms fp (add_ip max_ips_per_fingerprint ip now ips) clock seen,
        (Bounds.get_or_create-params fp [] clock r.seen).0,
        s.lifetime,
      );
      few =
          set-Stored HasFew fp (add_ip max_ips_per_fingerprint ip now ips) clock seen left
            (add_ip-IsFew max_ips_per_fingerprint ip now ips (omega arith) handed);
    }

-- Membership in a list of addresses, as `includes` tests it.
abbrev pub includes : String → List String → Bool
includes ip = any (λ j. str_eq j ip)

includes_of_lookup :
    (ip : String) (m : List (String × ℕ)) (at : ℕ)
    → lookup ip m ≡ some at
    → includes ip (map (λ e. e.0) m) ≡ true
includes_of_lookup ip [] at h = absurd (cc)
includes_of_lookup ip ((j, w) ∷ m) at h = ground (arith, includes_of_lookup ip m at)

-- An address that is recorded under a fingerprint is among those that the fingerprint is reported
-- with, as long as the record is neither older than the span asked for nor older than the window,
-- and the cache's lifetime has not passed.
pub ips_within-record_ip :
    (fp ip : String) (clock now later ms asked : ℕ) (r : FingerprintRegistry)
    → IsSound r
    → later < clock + r.seen.ttl_ms
    → asked ≤ now + min ms r.window_ms
    → includes ip (ips_within fp ms later asked (record_ip fp ip clock now r)).0 ≡ true
unfolding ips_within record_ip
ips_within-record_ip fp ip clock now later ms asked r s l a =
    let (ips, seen) = Lru.get_or_create fp [] clock r.seen in
    let (handed, _) = get_or_create-Stored HasFew fp [] clock r.seen s.few (tt, omega arith) in
    let params = Bounds.get_or_create-params fp [] clock r.seen in
    let valid = Bounds.get_or_create-IsValid fp [] clock r.seen s.cache in
    let ips' = add_ip max_ips_per_fingerprint ip now ips in
    let few = add_ip-IsFew max_ips_per_fingerprint ip now ips (omega arith) handed in
    let alive : ltb later (clock + seen.ttl_ms) ≡ true = lt→ltb _ _ (omega (arith, params.0)) in
    let positive : 0 < seen.ttl_ms = omega (arith, params.0, s.lifetime) in
    let hit : (Lru.get fp later (Lru.set fp ips' clock seen)).0 ≡ some ips' =
      Reads.get-eq-peek fp later _
      ∙ Reads.peek-set_self fp ips' clock later seen valid positive
      ∙ rw alive refl in
    let recent : fresh asked (min ms r.window_ms) (ip, now) ≡ true = le→leb _ _ a in
    let kept : lookup ip (keep (fresh asked (min ms r.window_ms)) ips') ≡ some now =
      lookup-keep (fresh asked (min ms r.window_ms)) ip ips' now few.0
        (lookup-add_ip max_ips_per_fingerprint ip now ips)
      ∙ rw recent refl in
    rw hit (includes_of_lookup ip (keep (fresh asked (min ms r.window_ms)) ips') now kept)
