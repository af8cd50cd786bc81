-- ===== src/Blocklist/Composite.antt =====
-- src/blocklist.ts: the `Blocklist` interface and `CompositeBlocklist`. A child is a list of any kind
-- with its state; a child that rejects is not modelled.
use hackerpot.Common.{
  ℕ, ◌+◌, ◌≡◌, refl, ◌∙◌, String, Bool, true, false, ◌||◌, Option, none, some, List, [], ◌∷◌, ltb,
  if◌then◌else◌, or_else, max, lookup, Distinct, any, Bool-cases, inl, inr,
}
use hackerpot.Blocklist
use hackerpot.Blocklist.{MemoryBlocklist}
use hackerpot.Blocklist.Memory.{is_blocked-block}

-- Addresses, an end in milliseconds and the child's own time come as arguments.
pub record BlocklistKind : Type 1 where
  pub State : Type 0
  pub block : String → ℕ → ℕ → State → State
  pub is_blocked : String → ℕ → State → Bool × State
  pub size : ℕ → State → Option ℕ

pub record Child : Type 1 where
  pub kind : BlocklistKind
  pub state : kind.State

-- A memory list always knows its size.
abbrev pub memory : MemoryBlocklist → Child
memory b = record {
  kind = record {
    State = MemoryBlocklist;
    block = Blocklist.block;
    is_blocked = Blocklist.is_blocked;
    size = λ now b. some (Blocklist.size now b);
  };
  state = b;
}

abbrev with_state : (c : Child) → c.kind.State → Child
with_state c s = record { kind = c.kind; state = s }

unfoldable pub block : String → ℕ → ℕ → List Child → List Child
block ip until now [] = []
block ip until now (primary ∷ rest) =
    with_state primary (primary.kind.block ip until now primary.state) ∷ rest

-- The loop asks the children in turn and stops at the first that blocks.
unfoldable pub is_blocked : String → ℕ → List Child → Bool × List Child
is_blocked ip now [] = (false, [])
is_blocked ip now (c ∷ rest) =
    let (blocked, s) = c.kind.is_blocked ip now c.state in
    let (later, rest') = is_blocked ip now rest in
    if blocked then (true, with_state c s ∷ rest) else (later, with_state c s ∷ rest')

unfoldable pub size_from : ℕ → ℕ → Bool → List Child → Option ℕ
size_from now total known [] = if known then some total else none
size_from now total known (c ∷ rest) = elim (c.kind.size now c.state) [
  | none ↦ size_from now total known rest
  | some n ↦ size_from now (total + n) true rest
]

unfoldable pub size : ℕ → List Child → Option ℕ
unfolding size_from
size now cs = size_from now 0 false cs

abbrev pub blocks : String → ℕ → Child → Bool
blocks ip now c = (c.kind.is_blocked ip now c.state).0

is_blocked-any :
    (ip : String) (now : ℕ) (cs : List Child) → (is_blocked ip now cs).0 ≡ any (blocks ip now) cs
unfolding is_blocked
is_blocked-any ip now [] = refl
is_blocked-any ip now (c ∷ cs) = elim (Bool-cases (blocks ip now c)) [
  | inl first ↦ rw first refl
  | inr not_first ↦ rw not_first (is_blocked-any ip now cs)
]

-- A composite list blocks an address exactly when one of its children does; and after a block through
-- it the memory list that stands first holds the address until the later of the new end and its old
-- one, while the other children decide as they did.
pub is_blocked-composite :
    (ip : String) (until now later : ℕ) (b : MemoryBlocklist) (rest : List Child)
    → Distinct b.until
    → ((is_blocked ip later (memory b ∷ rest)).0
        ≡ ((Blocklist.is_blocked ip later b).0 || any (blocks ip later) rest))
      × ((is_blocked ip later (block ip until now (memory b ∷ rest))).0
          ≡ (ltb later (max (or_else (lookup ip b.until) 0) until) || any (blocks ip later) rest))
unfolding block
is_blocked-composite ip until now later b rest d = (
  is_blocked-any ip later (memory b ∷ rest),
  is_blocked-any ip later (block ip until now (memory b ∷ rest))
      ∙ rw (is_blocked-block ip until now later b d) refl,
)
