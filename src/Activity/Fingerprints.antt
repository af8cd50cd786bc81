-- ===== src/Activity/Fingerprints.antt =====
-- src/state.ts: `FingerprintRegistry`, the addresses that a client's fingerprint was seen from. The
-- argument `clock` is what the cache reads as its time, and `now` is the time of the request.
use hackerpot.Common.{
  ℕ, ◌+◌, String, Bool, ◌&&◌, not, Option, none, some, List, [], max, min, has, length, insert,
  keep, map, tail, if◌then◌else◌, leb,
}
use hackerpot.Lru
use hackerpot.Lru.{TtlLru, Entry}

abbrev pub max_ips_per_fingerprint : ℕ
max_ips_per_fingerprint = 256

pub record FingerprintRegistry : Type 0 where
  pub seen : TtlLru (List (String × ℕ))
  pub window_ms : ℕ

unfoldable pub create : ℕ → ℕ → FingerprintRegistry
create window_ms max_tracked = record {
  seen = record { capacity = max 1 max_tracked; ttl_ms = max 1 window_ms; entries = [] };
  window_ms = window_ms;
}

-- The addresses of one fingerprint after one more is seen: at the ceiling the first is dropped.
unfoldable pub add_ip : ℕ → String → ℕ → List (String × ℕ) → List (String × ℕ)
add_ip ceiling ip now ips =
    insert ip now (if not (has ip ips) && leb ceiling (length ips) then tail ips else ips)

unfoldable pub record_ip : String → String → ℕ → ℕ → FingerprintRegistry → FingerprintRegistry
record_ip fp ip clock now r =
    let (ips, seen) = Lru.get_or_create fp [] clock r.seen in
    record r { seen = Lru.set fp (add_ip max_ips_per_fingerprint ip now ips) clock seen }

-- `at >= now - min(ms, windowMs)`.
abbrev pub fresh : ℕ → ℕ → String × ℕ → Bool
fresh now span (ip, at) = leb now (at + span)

-- `freshIps` once the fingerprint is looked up: the stale addresses go, and with none left so does
-- the fingerprint.
abbrev pub fresh_found :
    String
    → ℕ
    → ℕ
    → FingerprintRegistry
    → Option (List (String × ℕ)) × TtlLru (List (String × ℕ))
    → List String × FingerprintRegistry
fresh_found fp ms now r (none, seen) = ([], record r { seen = seen })
fresh_found fp ms now r (some ips, seen) =
    let live = keep (fresh now (min ms r.window_ms)) ips in
    let seen' = Lru.modify fp live seen in
    (
      map (λ e. e.0) live,
      record r { seen = if leb (length live) 0 then (Lru.remove fp seen').1 else seen' },
    )

unfoldable pub ips_within :
    String → ℕ → ℕ → ℕ → FingerprintRegistry → List String × FingerprintRegistry
ips_within fp ms clock now r = fresh_found fp ms now r (Lru.get fp clock r.seen)

unfoldable pub distinct_ips_within :
    String → ℕ → ℕ → ℕ → FingerprintRegistry → ℕ × FingerprintRegistry
unfolding ips_within
distinct_ips_within fp ms clock now r =
    let (ips, r') = ips_within fp ms clock now r in (length ips, r')
