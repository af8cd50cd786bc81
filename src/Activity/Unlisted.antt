-- ===== src/Activity/Unlisted.antt =====
-- src/state.ts: `FingerprintRegistry` lists no address that was not recorded.
use hackerpot.Common.{
  ℕ, ◌≡◌, refl, String, Bool, true, false, ◌&&◌, Option, none, some, List, [], ◌∷◌, All, arith, any,
  map, keep, min, tail, has, not, length, leb, lookup, str_eq, str_eq_comm, lookup-insert,
  lookup-keep_absent, Bool-cases, Option-cases, inl, inr,
}
use hackerpot.Lru
use hackerpot.Lru.{TtlLru}
use hackerpot.Lru.Values.{
  Stored, get-Stored, modify-Stored, set-Stored, get_or_create-Stored, delete-Stored,
}
use hackerpot.Activity.Fingerprints.{
  FingerprintRegistry, add_ip, record_ip, fresh, ips_within, fresh_found, max_ips_per_fingerprint,
}
use hackerpot.Activity.Rotation.{lookup-tail_absent}

absent_if_listed :
    (ip : String) (ips : List (String × ℕ))
    → lookup ip ips ≡ none
    → any (str_eq ip) (map (λ e. e.0) ips) ≡ false
absent_if_listed ip [] h = refl
absent_if_listed ip ((j, at) ∷ ips) h = ground (arith, str_eq_comm ip j, absent_if_listed ip ips)

module _ (fp ip : String) where
  -- What the registry keeps of a fingerprint does not list the address under this fingerprint.
  abbrev pub Lists : String → List (String × ℕ) → Type 0
  Lists key ips = str_eq key fp ≡ true → lookup ip ips ≡ none

  abbrev pub IsUnlisted : FingerprintRegistry → Type 0
  IsUnlisted r = Stored Lists r.seen.entries

  -- A recording of another address, or under another fingerprint.
  abbrev pub is_other : String → String → Bool
  is_other key address = not (str_eq key fp && str_eq address ip)

  add_ip-absent :
      (ceiling : ℕ) (address : String) (now : ℕ) (ips : List (String × ℕ))
      → str_eq address ip ≡ false
      → lookup ip ips ≡ none
      → lookup ip (add_ip ceiling address now ips) ≡ none
  unfolding add_ip
  add_ip-absent ceiling address now ips other h =
      elim (Bool-cases (not (has address ips) && leb ceiling (length ips))) [
        | inl full ↦
            rw (full, lookup-insert ip address now (tail ips), other) (lookup-tail_absent ip ips h)
        | inr room ↦ rw (room, lookup-insert ip address now ips, other) h
      ]

  record_ip-IsUnlisted :
      (key address : String) (clock now : ℕ) (r : FingerprintRegistry)
      → is_other key address ≡ true
      → IsUnlisted r
      → IsUnlisted (record_ip key address clock now r)
  unfolding record_ip
  record_ip-IsUnlisted key address clock now r other s =
      let (handed, left) = get_or_create-Stored Lists key [] clock r.seen s (λ same. refl) in
      let (ips, seen) = Lru.get_or_create key [] clock r.seen in
      set-Stored Lists key (add_ip max_ips_per_fingerprint address now ips) clock seen left (λ same.
        add_ip-absent max_ips_per_fingerprint address now ips (ground (arith, same, other))
          (handed same))

  fresh_found-IsUnlisted :
      (key : String) (ms now : ℕ) (r : FingerprintRegistry) (found : Option (List (String × ℕ)))
      (seen : TtlLru (List (String × ℕ)))
      → ((ips : List (String × ℕ)) → found ≡ some ips → Lists key ips)
      → Stored Lists seen.entries
      → IsUnlisted (fresh_found key ms now r (found, seen)).1
  unfolding Lru.modify Lru.remove
  fresh_found-IsUnlisted key ms now r none seen p s = s
  fresh_found-IsUnlisted key ms now r (some ips) seen p s =
      let live = keep (fresh now (min ms r.window_ms)) ips in
      let changed =
        modify-Stored Lists key live seen.entries s
          (λ same. lookup-keep_absent (fresh now (min ms r.window_ms)) ip ips (p ips refl same)) in
      elim (Bool-cases (leb (length live) 0)) [
        | inl empty ↦ rw empty (delete-Stored Lists key _ changed)
        | inr some_left ↦ rw some_left changed
      ]

  -- A query of any fingerprint adds nobody.
  pub ips_within-IsUnlisted :
      (key : String) (ms clock now : ℕ) (r : FingerprintRegistry)
      → IsUnlisted r
      → IsUnlisted (ips_within key ms clock now r).1
  unfolding ips_within
  ips_within-IsUnlisted key ms clock now r s =
      let (found, left) = get-Stored Lists key clock r.seen s in
      fresh_found-IsUnlisted key ms now r (Lru.get key clock r.seen).0 (Lru.get key clock r.seen).1
        found left

  -- A query does not answer with an address that is not listed.
  pub ips_within-absent :
      (ms clock now : ℕ) (r : FingerprintRegistry)
      → str_eq fp fp ≡ true
      → IsUnlisted r
      → any (str_eq ip) (ips_within fp ms clock now r).0 ≡ false
  unfolding ips_within
  ips_within-absent ms clock now r self s =
      let (found, _) = get-Stored Lists fp clock r.seen s in
      elim (Option-cases (Lru.get fp clock r.seen).0) [
        | inl missed ↦ rw missed refl
        | inr (ips, hit) ↦ rw hit (
            absent_if_listed ip (keep (fresh now (min ms r.window_ms)) ips)
              (lookup-keep_absent (fresh now (min ms r.window_ms)) ip ips (found ips hit self)))
      ]

-- A call of the registry.
pub data Call : Type 0 where
  record_at : String → String → ℕ → ℕ → Call
  ask : String → ℕ → ℕ → ℕ → Call

abbrev pub step : Call → FingerprintRegistry → FingerprintRegistry
step (Call.record_at fp ip clock now) r = record_ip fp ip clock now r
step (Call.ask fp ms clock now) r = (ips_within fp ms clock now r).1

abbrev pub run : List Call → FingerprintRegistry → FingerprintRegistry
run [] r = r
run (c ∷ cs) r = run cs (step c r)

-- The call does not record the address under the fingerprint.
abbrev pub is_unrelated : String → String → Call → Bool
is_unrelated fp ip (Call.record_at key address clock now) = is_other fp ip key address
is_unrelated fp ip (Call.ask key ms clock now) = true

pub run-IsUnlisted :
    (fp ip : String) (cs : List Call) (r : FingerprintRegistry)
    → All (λ c. is_unrelated fp ip c ≡ true) cs
    → IsUnlisted fp ip r
    → IsUnlisted fp ip (run cs r)
run-IsUnlisted fp ip [] r n s = s
run-IsUnlisted fp ip (Call.record_at key address clock now ∷ cs) r n s =
    run-IsUnlisted fp ip cs _ n.1 (record_ip-IsUnlisted fp ip key address clock now r n.0 s)
run-IsUnlisted fp ip (Call.ask key ms clock now ∷ cs) r n s =
    run-IsUnlisted fp ip cs _ n.1 (ips_within-IsUnlisted fp ip key ms clock now r s)
