-- ===== src/Policy/Rules.antt =====
-- src/policy/rules.ts, `rulePolicy`: the check of the rules, and which rule decides.
use Prim.Native.Char.{code}
use hackerpot.Common.{
  ℕ, ◌≡◌, refl, sym, ap, ◌∙◌, String, Bool, true, false, ◌&&◌, ◌||◌, Option, none, some, List, [],
  ◌∷◌, ◌++◌, leb, ◌==◌, if◌then◌else◌, All, arith, Option-cases, inl, inr,
}
use hackerpot.Policy.{
  PolicyContext, ResponsePolicy, Reason, Answer, bare, decided, Rule, matches, decide, fall_back,
  run_rules, mem_str,
}

-- The white space that `trim` removes.
abbrev is_space : ℕ → Bool
is_space c =
    (leb 9 c && leb c 13)
    || (c == 32)
    || (c == 160)
    || (c == 0x1680)
    || (leb 0x2000 c && leb c 0x200a)
    || (c == 0x2028)
    || (c == 0x2029)
    || (c == 0x202f)
    || (c == 0x205f)
    || (c == 0x3000)
    || (c == 0xfeff)

-- `id.trim() === ""`.
unfoldable pub is_blank : String → Bool
is_blank String.[] = true
is_blank (String.◌∷◌ c s) = is_space (code c) && is_blank s

pub data RuleError : Type 0 where
  missing_id : RuleError
  duplicate_id : String → RuleError

-- The check that `rulePolicy` makes of its rules, with the ids seen so far.
unfoldable pub check_rules : List String → List Rule → Option RuleError
check_rules seen [] = none
check_rules seen (r ∷ rs) =
    let rest = check_rules (r.id ∷ seen) rs in
    if is_blank r.id
    then some missing_id
    else if mem_str seen r.id
    then some (duplicate_id r.id)
    else rest

pub data Built : Type 0 where
  policy : ResponsePolicy → Built
  error : RuleError → Built

module _ (upper : List ℕ → List ℕ) (allows : List String → String → Bool) where
  unfoldable pub rule_policy : List Rule → ResponsePolicy → Reason → Built
  rule_policy rules fallback why = elim (check_rules [] rules) [
    | some e ↦ error e
    | none ↦ policy (λ c. decided (run_rules upper allows rules fallback why c))
  ]

  abbrev pub NoneMatches : List Rule → PolicyContext → Type 0
  NoneMatches rs c = All (λ r. matches upper allows r.match c ≡ false) rs

  -- The first rule that matches decides, whatever the rules after it and the fallback.
  pub run_rules-first :
      (before : List Rule) (r : Rule) (after : List Rule) (fallback : ResponsePolicy) (why : Reason)
      (c : PolicyContext)
      → NoneMatches before c
      → matches upper allows r.match c ≡ true
      → run_rules upper allows (before ++ r ∷ after) fallback why c ≡ decide upper allows r c
  unfolding run_rules
  run_rules-first [] r after fallback why c n h = rw h refl
  run_rules-first (b ∷ before) r after fallback why c n h =
      rw n.0 (run_rules-first before r after fallback why c n.1 h)

  -- With no match the fallback decides.
  pub run_rules-fallback :
      (rs : List Rule) (fallback : ResponsePolicy) (why : Reason) (c : PolicyContext)
      → NoneMatches rs c
      → run_rules upper allows rs fallback why c ≡ fall_back fallback why c
  unfolding run_rules
  run_rules-fallback [] fallback why c n = refl
  run_rules-fallback (r ∷ rs) fallback why c n = rw n.0 (run_rules-fallback rs fallback why c n.1)

-- No id of the list is blank, and none stands twice or among the ones given.
abbrev pub HasOwnIds : List String → List Rule → Type 0
HasOwnIds seen [] = Unit
HasOwnIds seen (r ∷ rs) =
    (is_blank r.id ≡ false) × (mem_str seen r.id ≡ false) × HasOwnIds (r.id ∷ seen) rs

pub check_rules-HasOwnIds :
    (seen : List String) (rs : List Rule) → check_rules seen rs ≡ none → HasOwnIds seen rs
unfolding check_rules
check_rules-HasOwnIds seen [] h = tt
check_rules-HasOwnIds seen (r ∷ rs) h = ground (arith, check_rules-HasOwnIds (r.id ∷ seen) rs)

abbrev run_built : Built → PolicyContext → Answer
run_built (policy p) c = p c
run_built (error e) c = bare ""

-- Rules are accepted only if every one has an id that is not blank and no two share one; and the
-- policy that is built then names, in each decision, the first rule that matched.
pub rule_policy_sound :
    (upper : List ℕ → List ℕ) (allows : List String → String → Bool) (rules : List Rule)
    (fallback : ResponsePolicy) (why : Reason) (p : ResponsePolicy) (before : List Rule) (r : Rule)
    (after : List Rule) (c : PolicyContext)
    → rule_policy upper allows rules fallback why ≡ policy p
    → rules ≡ before ++ r ∷ after
    → NoneMatches upper allows before c
    → matches upper allows r.match c ≡ true
    → HasOwnIds [] rules
      × (p c ≡ decided (decide upper allows r c))
      × ((decide upper allows r c).rule ≡ r.id)
unfolding rule_policy decide
rule_policy_sound upper allows rules fallback why p before r after c built split n h =
    elim (Option-cases (check_rules [] rules)) [
      | inl fine ↦
          let made : rule_policy upper allows rules fallback why
              ≡ policy (λ c. decided (run_rules upper allows rules fallback why c)) =
            rw (fine, rule_policy) refl in
          let same : run_built (rule_policy upper allows rules fallback why) c ≡ p c =
            ap (λ b. run_built b c) built in
          let ran = ap (λ b. run_built b c) made in
          let first = run_rules-first upper allows before r after fallback why c n h in
          (
            check_rules-HasOwnIds [] rules fine,
            sym same
                ∙ ran
                ∙ ap (λ rs. decided (run_rules upper allows rs fallback why c)) split
                ∙ ap decided first,
            refl,
          )
      | inr (e, bad) ↦ absurd (cc (rw (bad, rule_policy) at built))
    ]
