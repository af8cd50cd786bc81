-- ===== src/Scores/Laws.antt =====
-- src/stores/scores.ts: a score is the sum of its points, and the ledger is bounded.
use hackerpot.Common.{
  ℕ, suc, ◌+◌, ◌-◌, ◌≤◌, ◌<◌, ◌≡◌, ◌≢◌, refl, ap, ◌∙◌, String, Bool, true, false, none, List, [],
  ◌∷◌, ◌++◌, leb, if◌then◌else◌, or_else, max, length, lookup, delete, Distinct, delete-Distinct,
  insert-Distinct, lookup-insert, lookup-delete_self, lookup-delete_ne, insert_absent,
  length-append, length-delete-le, str_eq, str_eq_self, str_eq_ne, str_eq_iff, arith, inl, inr,
  Bool-cases, delete_absent, le→leb, leb_false→lt,
}
use hackerpot.Scores.{ScoreLedger, create, evict_to, add, get, size}

pub record IsValid (l : ScoreLedger) : Type 0 where
  pub positive : 0 < l.max_entries
  pub bounded : length l.scores ≤ l.max_entries
  pub distinct : Distinct l.scores

lookup-evict_to_absent :
    (target : ℕ) (k : String) (m : List (String × ℕ))
    → lookup k m ≡ none
    → lookup k (evict_to target m) ≡ none
unfolding evict_to
lookup-evict_to_absent target k [] h = refl
lookup-evict_to_absent target k (e ∷ m) h = ground (arith, lookup-evict_to_absent target k m)

evict_to-Distinct : (target : ℕ) (m : List (String × ℕ)) → Distinct m → Distinct (evict_to target m)
unfolding evict_to
evict_to-Distinct target [] d = tt
evict_to-Distinct target (e ∷ m) d = ground (arith, evict_to-Distinct target m d.1)

length-evict_to-le : (target : ℕ) (m : List (String × ℕ)) → length (evict_to target m) ≤ target
unfolding evict_to
length-evict_to-le target [] = omega arith
length-evict_to-le target (e ∷ m) = ground (arith, length-evict_to-le target m)

-- What `add` writes into: the other addresses, with room for one more.
abbrev room : String → ScoreLedger → List (String × ℕ)
room ip l =
    if leb l.max_entries (length (delete ip l.scores))
    then evict_to (l.max_entries - 1) (delete ip l.scores)
    else delete ip l.scores

lookup-room : (ip : String) (l : ScoreLedger) → lookup ip (room ip l) ≡ none
lookup-room ip l = elim (Bool-cases (leb l.max_entries (length (delete ip l.scores)))) [
  | inl full ↦
      rw full (lookup-evict_to_absent (l.max_entries - 1) ip _ (lookup-delete_self ip l.scores))
  | inr fits ↦ rw fits (lookup-delete_self ip l.scores)
]

-- Every update keeps the ledger within its ceiling.
pub add-IsValid :
    (ip : String) (points : ℕ) (l : ScoreLedger) → IsValid l → IsValid (add ip points l).1
unfolding add
add-IsValid ip points l v =
    let total = or_else (lookup ip l.scores) 0 + points in
    let d = delete-Distinct ip l.scores v.distinct in
    let e = ap length (insert_absent ip total (room ip l) (lookup-room ip l)) in
    let n = length-append (room ip l) ((ip, total) ∷ []) in
    elim (Bool-cases (leb l.max_entries (length (delete ip l.scores)))) [
      | inl full ↦ record {
        positive = v.positive;
        bounded = omega (
          arith,
          e,
          n,
          ap
              (λ (b : Bool). length (
                if b
                then evict_to (l.max_entries - 1) (delete ip l.scores)
                else delete ip l.scores))
              full,
          length-evict_to-le (l.max_entries - 1) (delete ip l.scores),
          v.positive,
        );
        distinct =
            insert-Distinct ip total (room ip l)
              (rw full (evict_to-Distinct (l.max_entries - 1) _ d));
      }
      | inr fits ↦ record {
        positive = v.positive;
        bounded = omega (
          arith,
          e,
          n,
          ap
              (λ (b : Bool). length (
                if b
                then evict_to (l.max_entries - 1) (delete ip l.scores)
                else delete ip l.scores))
              fits,
          leb_false→lt l.max_entries _ fits,
        );
        distinct = insert-Distinct ip total (room ip l) (rw fits d);
      }
    ]

-- `add` answers the old score plus the points, and that is the score read afterwards: an address that
-- was just updated is never the one dropped.
pub add-get :
    (ip : String) (points : ℕ) (l : ScoreLedger)
    → ((add ip points l).0 ≡ get ip l + points) × (get ip (add ip points l).1 ≡ get ip l + points)
unfolding add get
add-get ip points l = (
  refl,
  rw (lookup-insert ip ip (or_else (lookup ip l.scores) 0 + points) (room ip l), str_eq_self ip)
      refl,
)

-- With room for one more entry, or where the address has one, no other score changes.
pub add-get_ne :
    (ip j : String) (points : ℕ) (l : ScoreLedger)
    → ip ≢ j
    → length (delete ip l.scores) < l.max_entries
    → get j (add ip points l).1 ≡ get j l
unfolding add get
add-get_ne ip j points l n h =
    let fits : leb l.max_entries (length (delete ip l.scores)) ≡ false = ground arith in
    rw
      (
        fits,
        lookup-insert j ip (or_else (lookup ip l.scores) 0 + points) (delete ip l.scores),
        str_eq_ne ip j n,
        lookup-delete_ne j ip l.scores n,
      )
      refl

evict_to_small : (target : ℕ) (m : List (String × ℕ)) → length m ≤ target → evict_to target m ≡ m
unfolding evict_to
evict_to_small target [] h = refl
evict_to_small target (e ∷ m) h = ground arith

evict_one :
    (target : ℕ) (e : String × ℕ) (m : List (String × ℕ))
    → length m ≡ target
    → evict_to target (e ∷ m) ≡ m
unfolding evict_to
evict_one target e m h = ground (arith, evict_to_small target m)

-- In a full ledger a new address takes the place of the least recently updated one and of no other:
-- the rest keep their scores and their order.
pub add-evicts :
    (ip j : String) (points s : ℕ) (m : List (String × ℕ)) (l : ScoreLedger)
    → l.scores ≡ (j, s) ∷ m
    → length l.scores ≡ l.max_entries
    → lookup ip l.scores ≡ none
    → (add ip points l).1.scores ≡ m ++ (ip, points) ∷ []
unfolding add
add-evicts ip j points s m l e full new =
    let same = delete_absent ip l.scores new in
    let over : leb l.max_entries (length l.scores) ≡ true = le→leb _ _ (omega (arith, full)) in
    let size : length l.scores ≡ suc (length m) = ap length e in
    let rest : evict_to (l.max_entries - 1) l.scores ≡ m =
      ap (evict_to (l.max_entries - 1)) e
      ∙ evict_one (l.max_entries - 1) (j, s) m (omega (arith, full, size)) in
    let missing : lookup ip m ≡ none = ground (arith, ap (lookup ip) e) in
    let zero_plus : 0 + points ≡ points = omega arith in
    rw (new, same, over, rest, zero_plus) (insert_absent ip points m missing)

-- Updates in order: each an address and its points.
unfoldable pub replay : List (String × ℕ) → ScoreLedger → ScoreLedger
replay [] l = l
replay ((ip, points) ∷ us) l = replay us (add ip points l).1

-- The points that an address is given in the updates.
abbrev pub points_of : String → List (String × ℕ) → ℕ
points_of ip [] = 0
points_of ip ((j, points) ∷ us) = (if str_eq j ip then points else 0) + points_of ip us

add-size :
    (ip : String) (points : ℕ) (l : ScoreLedger)
    → length l.scores < l.max_entries
    → (length (add ip points l).1.scores ≤ suc (length l.scores))
      × ((add ip points l).1.max_entries ≡ l.max_entries)
unfolding add
add-size ip points l h =
    let total = or_else (lookup ip l.scores) 0 + points in
    let short = length-delete-le ip l.scores in
    let fits : leb l.max_entries (length (delete ip l.scores)) ≡ false = ground arith in
    let e =
      ap length (insert_absent ip total (delete ip l.scores) (lookup-delete_self ip l.scores)) in
    rw fits (omega (arith, e, length-append (delete ip l.scores) ((ip, total) ∷ [])), refl)

replay-get :
    (ip : String) (us : List (String × ℕ)) (l : ScoreLedger)
    → length l.scores + length us ≤ l.max_entries
    → get ip (replay us l) ≡ get ip l + points_of ip us
unfolding replay
replay-get ip [] l h = omega arith
replay-get ip ((j, points) ∷ us) l h =
    let (size, cap) = add-size j points l (omega arith) in
    let rest = replay-get ip us (add j points l).1 (omega arith) in
    elim (Bool-cases (str_eq j ip)) [
      | inl same ↦
          let key = (str_eq_iff j ip).0 same in
          let now : get ip (add j points l).1 ≡ get ip l + points =
            rw key (add-get ip points l).1 in
          rw same (omega arith)
      | inr other ↦
          let apart : j ≢ ip = λ e. cc (str_eq_self ip) in
          let now = add-get_ne j ip points l apart (omega (arith, length-delete-le j l.scores)) in
          rw other (omega arith)
    ]

-- After no more updates than the ledger has room for, an address's score is the sum of the points
-- that it was given, whatever the order.
pub get-replay :
    (max_entries : ℕ) (us : List (String × ℕ)) (ip : String)
    → length us ≤ max 1 max_entries
    → get ip (replay us (create max_entries)) ≡ points_of ip us
unfolding create
get-replay max_entries us ip h =
    let empty : get ip (create max_entries) ≡ 0 = unfold get in refl in
    omega (arith, replay-get ip us (create max_entries) (omega arith))
