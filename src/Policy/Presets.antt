-- ===== src/Policy/Presets.antt =====
-- src/policy/presets.ts: the rule sets to start from.
use hackerpot.Common.{
  ℕ, ◌≡◌, ◌≢◌, ◌↔◌, refl, String, Bool, true, false, Option, none, some, List, [], ◌∷◌, str_eq,
  if◌then◌else◌, arith, Bool-cases, inl, inr, map, ap, or_else, str_eq_self, All,
}
use hackerpot.Policy.{
  PolicyContext, ResponsePolicy, Reason, sentence, Rule, spec, MatchSpec, match_all, matches,
  decide, run_rules, fall_back, has_proof, compile_match,
}

abbrev rule_of : String → MatchSpec → String → Option String → String → Rule
rule_of id s respond_with fallback why = record {
  id = id;
  match = spec s;
  respond_with = respond_with;
  fallback_action = fallback;
  reason = some (sentence why);
}

unfoldable pub observe : List Rule
observe =
    rule_of "observe-everything" match_all "pass" none
      "Observation only: recorded and scored, then handed to the application untouched."
    ∷ []

abbrev proven : MatchSpec
proven = record match_all { certain = some true }

abbrev by_detectors : List String → MatchSpec
by_detectors names = record match_all { detector = some names }

abbrev from_total : ℕ → MatchSpec
from_total least = record match_all { min_total_score = some least }

abbrev proof_rule : Rule
proof_rule =
    rule_of "proof-block" proven "block" none
      "Proof, not suspicion: a replayed honeytoken, a hidden trap, a protocol violation no client stack emits, a self-declared attack tool, or a refuted crawler claim."

abbrev milder_rules : List Rule
milder_rules =
    rule_of "decoy-bait" (by_detectors ("decoy-path" ∷ "sensitive-file" ∷ "web-shell" ∷ []))
      "@detector" (some "decoy-content")
      "A probe for something that does not exist: served the bait the decoy defines, so the prober learns nothing from the difference."
    ∷ rule_of "exploit-tarpit"
        (by_detectors (
          "payload-injection" ∷ "ssrf-probe" ∷ "crlf-injection" ∷ "nosql-injection"
          ∷ "prototype-pollution" ∷ "insecure-deserialization" ∷ "jwt-weakness" ∷ "graphql-abuse"
          ∷ []))
        "tarpit" none
        "An exploitation attempt against the application: held, not refused, because the guess could be wrong and a slow page is recoverable."
    ∷ rule_of "persistent-tarpit" (from_total 25) "tarpit" none
        "This address has kept probing. Slowed down rather than refused."
    ∷ rule_of "everything-else" match_all "pass" none
        "Some signal, not enough to act on. Recorded, and answered by the application as normal."
    ∷ []

unfoldable pub protect_app : List Rule
protect_app = proof_rule ∷ milder_rules

-- The literal of `standalone`, and the pass that turns an empty fallback into an absent one.
abbrev clear_fallback : Rule → Rule
clear_fallback r = record r {
  fallback_action = elim r.fallback_action [
    | none ↦ none
    | some f ↦ if str_eq f "" then none else some f
  ];
}

unfoldable pub standalone : List Rule
standalone = map clear_fallback (
    rule_of "confirmed-block" (from_total 40) "block" none
      "A confirmed, persistent attacker. Refused outright."
    ∷ rule_of "proof-block" proven "block" none
        "Proof of automation or of a stolen credential being replayed."
    ∷ rule_of "detector-choice" match_all "@detector" (some "")
        "The detector's own response: bait for a decoy, a convincing failure for a web shell."
    ∷ [])

compile_match-proven :
    (upper : List ℕ → List ℕ) (allows : List String → String → Bool) (c : PolicyContext)
    → compile_match upper allows proven c ≡ has_proof c.detections
unfolding compile_match
compile_match-proven upper allows c = ground arith

ne_block : (s : String) → str_eq s "block" ≡ false → s ≢ "block"
ne_block s h e = cc (str_eq_self "block", ap (λ (x : String). str_eq x "block") e)

decoy-ne-block :
    (asked : Option String) → asked ≢ some "block" → or_else asked "decoy-content" ≢ "block"
decoy-ne-block none n e = ne_block "decoy-content" refl e
decoy-ne-block (some s) n e = n (ap some e)

module _ (upper : List ℕ → List ℕ) (allows : List String → String → Bool)
    (fallback : ResponsePolicy) (why : Reason) where
  -- Observation hands every request to the application, whatever it scored.
  pub observe-pass :
      (c : PolicyContext) → (run_rules upper allows observe fallback why c).action_id ≡ "pass"
  unfolding observe run_rules decide matches
  observe-pass c = refl

  -- A set none of whose rules blocks here does not block where its last rule matches everything.
  run_rules-ne_block :
      (rs : List Rule) (c : PolicyContext)
      → (fall_back fallback why c).action_id ≢ "block"
      → All (λ r. (decide upper allows r c).action_id ≢ "block") rs
      → (run_rules upper allows rs fallback why c).action_id ≢ "block"
  unfolding run_rules
  run_rules-ne_block [] c f n = f
  run_rules-ne_block (r ∷ rs) c f n = elim (Bool-cases (matches upper allows r.match c)) [
    | inl hit ↦ rw hit n.0
    | inr miss ↦ rw miss (run_rules-ne_block rs c f n.1)
  ]

  -- In front of an application, with a fallback that does not block, a request is refused exactly
  -- when it carries proof, unless the detector itself asked for a block.
  pub protect_app-block :
      (c : PolicyContext)
      → (fall_back fallback why c).action_id ≢ "block"
      → c.detection.respond_with ≢ some "block"
      → ((run_rules upper allows protect_app fallback why c).action_id ≡ "block")
        ↔ (has_proof c.detections ≡ true)
  unfolding protect_app run_rules decide matches
  protect_app-block c f n =
      let same = compile_match-proven upper allows c in
      let mild = run_rules-ne_block milder_rules c f (
        decoy-ne-block c.detection.respond_with n,
        (ne_block "tarpit" refl, (ne_block "tarpit" refl, (ne_block "pass" refl, tt))),
      ) in
      elim (Bool-cases (has_proof c.detections)) [
        | inl proof ↦ rw (same, proof) ((λ _. refl), (λ _. refl))
        | inr unproven ↦ rw (same, unproven) ((λ e. absurd (mild e)), (λ e. absurd (cc e)))
      ]
