-- ===== src/Engine/Proxy.antt =====
-- src/core.ts: `resolveIp`, the client's address from behind a proxy. Texts are lists of UTF-16 code
-- units; `canonical` is `canonicalAddress`, which validates with Node's `net.isIP`, and a set of trusted
-- proxies is the test that its allowlist answers.
use hackerpot.Common.{
  ℕ, zero, suc, ◌-◌, ◌≤◌, ◌≡◌, refl, ap, ◌∙◌, Bool, true, false, Option, none, some, List, [], ◌∷◌,
  ◌++◌, arith, length, take, reverse, reverse-append, reverse-cons, All-append, append_assoc, ltb,
  ◌==◌, if◌then◌else◌, or_else, All,
}

-- `trusted` is absent where proxies are counted by `hops`.
pub record ResolvedProxy {ℓ} (A : Type ℓ) : Type ℓ where
  pub trust_proxy : Bool
  pub trusted : Option (A → Bool)
  pub hops : ℕ

-- `header.split(",")`.
abbrev onto_entry : ℕ → List (List ℕ) → List (List ℕ)
onto_entry c [] = (c ∷ []) ∷ []
onto_entry c (s ∷ ss) = (c ∷ s) ∷ ss

unfoldable pub split_commas : List ℕ → List (List ℕ)
split_commas [] = [] ∷ []
split_commas (c ∷ cs) =
    let rest = split_commas cs in if c == 44 then [] ∷ rest else onto_entry c rest

abbrev pub max_header_chars : ℕ
max_header_chars = 2048

module _ {ℓ} {A : Type ℓ} where
  -- The entry at an index.
  abbrev pub at_index : ℕ → List A → Option A
  at_index n [] = none
  at_index zero (x ∷ xs) = some x
  at_index (suc n) (x ∷ xs) = at_index n xs

  -- The first entry that is not trusted, over the chain from its right end.
  unfoldable pub first_untrusted : (A → Bool) → List A → Option A
  first_untrusted trusts [] = none
  first_untrusted trusts (a ∷ rest) =
      let next = first_untrusted trusts rest in if trusts a then next else some a

  -- The choice from a chain that is not empty; `peer` is absent for a socket without an address.
  unfoldable pub choose : ResolvedProxy A → Option A → A → List A → A
  unfolding first_untrusted
  choose proxy peer direct chain = elim proxy.trusted [
    | some trusts ↦ elim peer [
      | none ↦ or_else (first_untrusted trusts (reverse chain)) direct
      | some p ↦
          if trusts direct then or_else (first_untrusted trusts (reverse chain)) direct else direct
    ]
    | none ↦
        if ltb (length chain) proxy.hops
        then direct
        else or_else (at_index (length chain - proxy.hops) chain) direct
  ]

  abbrev pub from_chain : ResolvedProxy A → Option A → A → List A → A
  from_chain proxy peer direct [] = direct
  from_chain proxy peer direct (a ∷ rest) = choose proxy peer direct (a ∷ rest)

module _ {ℓ} {A : Type ℓ} (canonical : List ℕ → Option A) where
  -- The entries that are addresses.
  unfoldable pub addresses : List (List ℕ) → List A
  addresses [] = []
  addresses (e ∷ es) =
      let rest = addresses es in elim (canonical e) [ none ↦ rest | some a ↦ a ∷ rest ]

  unfoldable pub chain_of : List ℕ → List A
  unfolding addresses split_commas
  chain_of header = addresses (split_commas (take max_header_chars header))

  unfoldable pub resolve_ip : ResolvedProxy A → Option A → A → Option (List ℕ) → A
  unfolding chain_of
  resolve_ip proxy peer direct header =
      if proxy.trust_proxy
      then elim header [ none ↦ direct | some h ↦ from_chain proxy peer direct (chain_of h) ]
      else direct

module _ {ℓ} {A : Type ℓ} where
  take-append : (n : ℕ) (xs ys : List A) → n ≤ length xs → take n (xs ++ ys) ≡ take n xs
  take-append zero xs ys h = refl
  take-append (suc n) [] ys h = absurd (omega (arith, h))
  take-append (suc n) (x ∷ xs) ys h =
      ap (λ (zs : List A). x ∷ zs) (take-append n xs ys (omega (arith, h)))

  first_untrusted-found :
      (trusts : A → Bool) (xs : List A) (a : A) (ys : List A)
      → All (λ x. trusts x ≡ true) xs
      → trusts a ≡ false
      → first_untrusted trusts (xs ++ a ∷ ys) ≡ some a
  unfolding first_untrusted
  first_untrusted-found trusts [] a ys h n = rw n refl
  first_untrusted-found trusts (x ∷ xs) a ys h n =
      rw h.0 (first_untrusted-found trusts xs a ys h.1 n)

  All-reverse :
      (trusts : A → Bool) (xs : List A)
      → All (λ x. trusts x ≡ true) xs
      → All (λ x. trusts x ≡ true) (reverse xs)
  All-reverse trusts [] h = tt
  All-reverse trusts (x ∷ xs) h = rw (reverse-cons x xs) (
      All-append (λ y. trusts y ≡ true) (reverse xs) (x ∷ []) (All-reverse trusts xs h.1) (h.0, tt))

  -- From a trusted peer, the address chosen is the last one of the chain that no trusted proxy owns,
  -- whatever stands before it: entries that a client writes further left choose nothing.
  pub choose-last_untrusted :
      (proxy : ResolvedProxy A) (trusts : A → Bool) (peer : Option A) (direct a : A)
      (before after : List A)
      → proxy.trusted ≡ some trusts
      → trusts direct ≡ true
      → trusts a ≡ false
      → All (λ x. trusts x ≡ true) after
      → choose proxy peer direct (before ++ a ∷ after) ≡ a
  unfolding choose
  choose-last_untrusted proxy trusts peer direct a before after on known new own =
      let turned : reverse (before ++ a ∷ after) ≡ reverse after ++ a ∷ reverse before =
        reverse-append before (a ∷ after)
        ∙ ap (λ (xs : List A). xs ++ reverse before) (reverse-cons a after)
        ∙ append_assoc (reverse after) (a ∷ []) (reverse before) in
      let found =
        ap (first_untrusted trusts) turned
        ∙ first_untrusted-found trusts (reverse after) a (reverse before)
            (All-reverse trusts after own) new in
      elim peer as (λ p. choose proxy p direct (before ++ a ∷ after) ≡ a) [
        | none ↦ rw (on, found) refl
        | some p ↦ rw (on, known, found) refl
      ]

  -- From a peer that is not a trusted proxy the forwarded header is not believed.
  pub choose-untrusted_peer :
      (proxy : ResolvedProxy A) (trusts : A → Bool) (direct : A) (chain : List A)
      → proxy.trusted ≡ some trusts
      → trusts direct ≡ false
      → choose proxy (some direct) direct chain ≡ direct
  unfolding choose
  choose-untrusted_peer proxy trusts direct chain on unknown = rw (on, unknown) refl

-- Only the first 2048 characters of the header are read: with that many written by the client, what the
-- proxies append at the end does not change the address that is chosen.
pub resolve_ip-truncated {ℓ} :
    {A : Type ℓ} (canonical : List ℕ → Option A) (proxy : ResolvedProxy A) (peer : Option A)
    (direct : A) (written appended : List ℕ)
    → max_header_chars ≤ length written
    → resolve_ip canonical proxy peer direct (some (written ++ appended))
      ≡ resolve_ip canonical proxy peer direct (some written)
unfolding resolve_ip chain_of
resolve_ip-truncated canonical proxy peer direct written appended h =
    ap
      (λ (cs : List ℕ).
        if proxy.trust_proxy
        then from_chain proxy peer direct (addresses canonical (split_commas cs))
        else direct)
      (take-append max_header_chars written appended h)
