-- ===== src/Examples/Network.antt =====
-- src/allowlist.ts, src/internal/ip.ts and src/detectors on a few addresses and requests.
use hackerpot.Common.{
  ℕ, zero, suc, String, Option, List, Bool, ◌≡◌, refl, [], ◌∷◌, none, some, true, false, not, ◌&&◌,
  arith, count, min, max, leb, and_both, inl, ◌++◌,
}
use hackerpot.Lru
use hackerpot.Addresses.{
  v4_to_int, v6_to_big_int, normalize_address, same_address, before_first, split_on, replace_quad,
  find_quad, expand, split_gap, sum_groups, sum_octets, octet, decimal, hexadecimal,
}
use hackerpot.Allowlist.{IpAllowlist, create, allows, read_entry, read_exact, read_range, v4_mask}
use hackerpot.Allowlist.Covering.{some_covers, allows-covers}
use hackerpot.Allowlist.Spelling.{allows-same_address}
use hackerpot.Activity
use hackerpot.Activity.{RequestEvent, IpTracker, Status, within}
use hackerpot.Activity.Bounds.{Call, run}
use hackerpot.Activity.Counts.{replay}
use hackerpot.Detectors.{
  VolumeOptions, PathNoveltyOptions, rate_spike, credential_bruteforce, path_novelty, repeat_actor,
}
use hackerpot.Detectors.Volume.{is_found, rate_spike-history, credential_bruteforce-long_path}
use hackerpot.Activity.Unlisted as Unlisted
use hackerpot.Activity.Fingerprints as Fingerprints
use hackerpot.Detectors.Rotating.{repeat_actor-unrecorded}
use hackerpot.Detectors.Novelty.{path_novelty-silent}
use hackerpot.Site
use hackerpot.Site.{SiteProfile}
use hackerpot.Site.Learning.{record_all}

abbrev same : List ℕ → List ℕ
same s = s

abbrev is_number : Option ℕ → Bool
is_number none = false
is_number (some n) = true

abbrev is_v4 : List ℕ → Bool
is_v4 s = is_number (v4_to_int s)

abbrev is_v6 : List ℕ → Bool
is_v6 s = not (is_v4 s) && is_number (v6_to_big_int s)

-- "10.0.0.0/8" and "::1".
abbrev entries : List (List ℕ)
entries = (49 ∷ 48 ∷ 46 ∷ 48 ∷ 46 ∷ 48 ∷ 46 ∷ 48 ∷ 47 ∷ 56 ∷ []) ∷ (58 ∷ 58 ∷ 49 ∷ []) ∷ []

-- "10.1.2.3".
abbrev inside : List ℕ
inside = 49 ∷ 48 ∷ 46 ∷ 49 ∷ 46 ∷ 50 ∷ 46 ∷ 51 ∷ []

-- "::1" written out.
abbrev local : List ℕ
local = 48 ∷ 58 ∷ 48 ∷ 58 ∷ 48 ∷ 58 ∷ 48 ∷ 58 ∷ 48 ∷ 58 ∷ 48 ∷ 58 ∷ 48 ∷ 58 ∷ 49 ∷ []

abbrev listed : IpAllowlist
listed = create same same is_v4 is_v6 entries

allows_inside : allows same same is_v4 is_v6 inside listed ≡ true
unfolding allows create v4_to_int v6_to_big_int normalize_address read_entry before_first read_exact
    split_on replace_quad find_quad expand split_gap sum_groups read_range sum_octets octet decimal
    v4_mask
allows_inside = refl

allows-covers_example :
    allows same same is_v4 is_v6 inside listed
    ≡ some_covers same same is_v4 is_v6 (normalize_address same is_v4 is_v6 inside) entries
allows-covers_example = allows-covers same same is_v4 is_v6 entries inside

is_v6-exclusive : (s : List ℕ) → is_v6 s ≡ true → is_v4 s ≡ false
is_v6-exclusive s h = is_not (is_v4 s) (and_both (not (is_v4 s)) (is_number (v6_to_big_int s)) h).0
  where
    is_not : (b : Bool) → not b ≡ true → b ≡ false
    is_not true h = absurd (cc)
    is_not false h = refl

allows-same_address_example :
    allows same same is_v4 is_v6 local listed
    ≡ allows same same is_v4 is_v6 (58 ∷ 58 ∷ 49 ∷ []) listed
unfolding same_address normalize_address v4_to_int v6_to_big_int before_first split_on replace_quad
    find_quad expand split_gap sum_groups hexadecimal
allows-same_address_example =
    allows-same_address same same is_v4 is_v6 entries local (58 ∷ 58 ∷ 49 ∷ []) is_v6-exclusive refl

abbrev volume : VolumeOptions
volume = record { window_ms = 50; threshold = 2; score = 4; respond_with = none }

abbrev say : ℕ → String
say n = "many requests"

abbrev login : List ℕ
login = 47 ∷ 108 ∷ 111 ∷ 103 ∷ 105 ∷ 110 ∷ []

abbrev request : ℕ → RequestEvent
request at = record { at = at; method = 71 ∷ 69 ∷ 84 ∷ []; path = login; status = Status.seen }

abbrev history : List RequestEvent
history = request 10 ∷ request 40 ∷ request 60 ∷ []

rate_spike-history_example :
    is_found
      (rate_spike say volume false 80 (replay history (Activity.create "192.0.2.1" 100 10))).0
    ≡ leb 2 (min (max 1 10) (count (within 80 50) history))
rate_spike-history_example =
    rate_spike-history say volume "192.0.2.1" 100 10 history 80
      ((omega arith, (omega arith, tt)), ((omega arith, tt), (tt, tt)))
      (omega arith, (omega arith, (omega arith, tt))) (omega arith)

abbrev letters : ℕ → List ℕ
letters zero = []
letters (suc n) = 97 ∷ letters n

abbrev post : List ℕ
post = 80 ∷ 79 ∷ 83 ∷ 84 ∷ []

credential_bruteforce-long_path_example :
    (credential_bruteforce say same
      (λ p. true)
      volume
      post
      (login ++ letters 507)
      90
      (run
        (Call.records post (login ++ letters 507) Status.seen 80 ∷ [])
        (Activity.create "192.0.2.1" 100 10))).0
    ≡ none
credential_bruteforce-long_path_example =
    credential_bruteforce-long_path say same (λ p. true) volume "192.0.2.1" 100 10
      (Call.records post (login ++ letters 507) Status.seen 80 ∷ []) post (login ++ letters 507) 90
      (omega arith) (omega arith)

abbrev novelty : PathNoveltyOptions
novelty = record {
  score = 6;
  window_ms = 60;
  unseen_path_threshold = 1;
  walker_threshold = 4;
  min_observations = 5;
  min_served_paths = 0;
  respond_with = none;
}

abbrev profile : SiteProfile
profile = record {
  paths = record { capacity = 10; ttl_ms = 100; entries = [] };
  max_walkers_per_path = 2;
  observations = 0;
  misses = 0;
  served_paths = 0;
}

path_novelty-silent_example :
    path_novelty
      (λ p. "/login")
      (λ s. s)
      (λ a b. "walked")
      novelty
      (record_all (λ s. s) [] profile)
      false
      login
      80
      80
      (replay history (Activity.create "192.0.2.1" 100 10))
    ≡ (none, replay history (Activity.create "192.0.2.1" 100 10))
unfolding Site.create Lru.create
path_novelty-silent_example =
    path_novelty-silent (λ p. "/login") (λ s. s) (λ a b. "walked") novelty 10 100 2 profile [] false
      login 80 80 (replay history (Activity.create "192.0.2.1" 100 10)) refl (inl (omega arith))

-- Two attackers share a fingerprint; a visitor with the same one is not flagged.
abbrev shared_fingerprint : List Unlisted.Call
shared_fingerprint =
    Unlisted.Call.record_at "fp" "192.0.2.1" 5 5
    ∷ Unlisted.Call.record_at "fp" "192.0.2.2" 6 6
    ∷ Unlisted.Call.ask "fp" 60 7 7
    ∷ Unlisted.Call.record_at "other" "192.0.2.3" 8 8
    ∷ []

abbrev rotation : VolumeOptions
rotation = record { window_ms = 60; threshold = 1; score = 7; respond_with = none }

repeat_actor-unrecorded_example :
    (repeat_actor
      (λ others n. "rotating")
      rotation
      "192.0.2.3"
      "fp"
      9
      9
      (Unlisted.run shared_fingerprint (Fingerprints.create 3600 10))).0
    ≡ none
repeat_actor-unrecorded_example =
    repeat_actor-unrecorded (λ others n. "rotating") rotation "192.0.2.3" "fp" 3600 10
      shared_fingerprint 9 9 (refl, (refl, (refl, (refl, tt))))
