-- ===== src/Detectors/Novelty.antt =====
-- src/detectors/path-novelty.ts over src/site/index.ts: what the profile has not seen enough of flags
-- nobody.
use hackerpot.Common.{
  ℕ, ◌+◌, ◌<◌, ◌≡◌, refl, String, Bool, true, false, not, none, some, List, [], ◌∷◌, leb, ◌&&◌,
  ◌||◌, length, arith, inl, inr, lt→leb_not, ◌⊎◌,
}
use hackerpot.Activity.{IpTracker}
use hackerpot.Site.{
  SiteProfile, RequestOutcome, create, is_warm, is_served, record_outcome, note_path,
}
use hackerpot.Site.Learning.{record_all}
use hackerpot.Site.Counting.{create-observations}
use hackerpot.Detectors.{PathNoveltyOptions, path_novelty}

-- Every outcome is one observation.
record_all-observations :
    (clip : String → String) (past : List (ℕ × RequestOutcome)) (p : SiteProfile)
    → (record_all clip past p).observations ≡ p.observations + length past
unfolding record_outcome note_path
record_all-observations clip [] p = omega arith
record_all-observations clip ((now, o) ∷ past) p =
    omega (arith, record_all-observations clip past p)

-- Until as many outcomes are reported as the options ask for, and for a path that the profile knows to
-- be served, the detector is silent and does not touch the tracker.
pub path_novelty-silent :
    (text : List ℕ → String) (clip : String → String) (say : ℕ → ℕ → String)
    (o : PathNoveltyOptions) (max_paths ttl max_walkers : ℕ) (p : SiteProfile)
    (past : List (ℕ × RequestOutcome)) (verified : Bool) (path : List ℕ) (clock now : ℕ)
    (t : IpTracker)
    → create max_paths ttl max_walkers ≡ some p
    → (length past < o.min_observations)
      ⊎ (is_served clip (text path) clock (record_all clip past p) ≡ true)
    → path_novelty text clip say o (record_all clip past p) verified path clock now t ≡ (none, t)
unfolding path_novelty is_warm
path_novelty-silent text clip say o max_paths ttl max_walkers p past verified path clock now t made
      (inl few) =
    let seen = record_all-observations clip past p in
    let from_none = create-observations max_paths ttl max_walkers p made in
    let cold : leb o.min_observations (record_all clip past p).observations ≡ false =
      lt→leb_not _ _ (omega (arith, seen, from_none, few)) in
    rw cold refl
path_novelty-silent text clip say o max_paths ttl max_walkers p past verified path clock now t made
      (inr served) =
    rw (served, or_true verified, or_true (not (is_warm_now))) refl
  where
    or_true : (b : Bool) → (b || true) ≡ true
    or_true true = refl
    or_true false = refl

    is_warm_now : Bool
    is_warm_now =
        leb o.min_observations (record_all clip past p).observations
        && leb o.min_served_paths (record_all clip past p).served_paths
