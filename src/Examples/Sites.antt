-- ===== src/Examples/Sites.antt =====
-- src/site/index.ts on a few outcomes.
use hackerpot.Common.{ℕ, String, List, ◌≡◌, ◌≤◌, refl, [], ◌∷◌, none, some, true, false}
use hackerpot.Lru
use hackerpot.Site.{
  RequestOutcome, PathStat, SiteProfile, Novelty, create, record_outcome, is_served, novelty_of,
  snapshot,
}
use hackerpot.Site.Learning.{record_all, was_served, is_served-learned}
use hackerpot.Site.Counting.{visits, served_paths-overcounts}

abbrev whole : String → String
whole path = path

abbrev outcome : String → ℕ → RequestOutcome
outcome path status = record {
  ip = "192.0.2.9";
  path = path;
  status = status;
  from_honeypot = false;
  at = none;
}

abbrev empty_profile : SiteProfile
empty_profile = record {
  paths = record { capacity = 10; ttl_ms = 100; entries = [] };
  max_walkers_per_path = 2;
  observations = 0;
  misses = 0;
  served_paths = 0;
}

abbrev past : List (ℕ × RequestOutcome)
past = (20, outcome "/shop" 200) ∷ (10, outcome "/.env" 404) ∷ []

empty_profile_made : create 10 100 2 ≡ some empty_profile
unfolding create Lru.create
empty_profile_made = refl

-- A redirect counts as serving a path.
redirect_serves :
    novelty_of whole "/old" 10 (record_outcome whole 10 (outcome "/old" 301) empty_profile)
    ≡ Novelty.served
unfolding novelty_of record_outcome Lru.peek Lru.get_or_create Lru.get Lru.set Lru.modify
redirect_serves = refl

is_served-learned_example : was_served whole "/shop" past ≡ true
unfolding create is_served record_outcome Lru.create Lru.peek Lru.get_or_create Lru.get Lru.set
    Lru.modify
is_served-learned_example = is_served-learned whole 10 100 2 empty_profile past "/shop" 30 refl refl

abbrev walked : PathStat
walked = record { served = 0; missed = 1; last_at = 10; walkers = "192.0.2.9" ∷ [] }

abbrev profile : SiteProfile
profile = record {
  paths = record {
    capacity = 10;
    ttl_ms = 100;
    entries =
        ("/.env", record { value = walked; expires_at = 110 })
        ∷ (
          "/shop",
          record {
            value = record { served = 1; missed = 0; last_at = 20; walkers = [] };
            expires_at = 120;
          },
        )
        ∷ [];
  };
  max_walkers_per_path = 2;
  observations = 2;
  misses = 1;
  served_paths = 1;
}

-- Twenty days of one page.
served_paths-overcounts_example :
    ((snapshot
        (record_all whole (visits whole (outcome "/" 200) 0 100 20) empty_profile)).served_paths
      ≡ 20)
    × ((snapshot (record_all whole (visits whole (outcome "/" 200) 0 100 20) empty_profile)).paths
        ≤ 1)
unfolding create Lru.create
served_paths-overcounts_example =
    served_paths-overcounts whole 10 100 2 0 20 empty_profile (outcome "/" 200) refl refl
