-- ===== src/Telnet/Stream.antt =====
-- src/protocols/telnet/codec.ts: what comes out of a stream in which keystrokes and commands are mixed.
use hackerpot.Common.{
  ℕ, ◌≡◌, ◌≢◌, refl, sym, ◌∙◌, true, false, List, [], ◌∷◌, ◌++◌, append-nil, arith, ◌==◌,
  if◌then◌else◌, Bool-cases, inl, inr, All, subst,
}
use hackerpot.Telnet.{
  TelnetCodec, State, in_data, in_iac, in_option, in_subneg, in_subneg_iac, feed, feed_byte,
  negotiate, is_negotiation, iac, sb, se,
}
use hackerpot.Telnet.Chunks.{feed-append}

-- A sender's own view of the stream: RFC 854 with its escapes.
pub data Item : Type 0 where
  key : ℕ → Item
  command : ℕ → Item
  negotiation : ℕ → ℕ → Item
  subnegotiation : List ℕ → Item

unfoldable pub escape : List ℕ → List ℕ
escape [] = []
escape (b ∷ bs) = let rest = escape bs in if b == iac then iac ∷ iac ∷ rest else b ∷ rest

unfoldable pub print : Item → List ℕ
unfolding escape
print (key b) = if b == iac then iac ∷ iac ∷ [] else b ∷ []
print (command b) = iac ∷ b ∷ []
print (negotiation verb option) = iac ∷ verb ∷ option ∷ []
print (subnegotiation payload) = iac ∷ sb ∷ escape payload ++ iac ∷ se ∷ []

unfoldable pub print_all : List Item → List ℕ
unfolding print
print_all [] = []
print_all (i ∷ is) = print i ++ print_all is

unfoldable pub keys : List Item → List ℕ
keys [] = []
keys (key b ∷ is) = b ∷ keys is
keys (command b ∷ is) = keys is
keys (negotiation verb option ∷ is) = keys is
keys (subnegotiation payload ∷ is) = keys is

-- A command is neither the escape, nor a negotiation's verb, nor the start of a sub-negotiation.
abbrev pub IsItem : Item → Type 0
IsItem (key b) = Unit
IsItem (command b) = (b ≢ iac) × (is_negotiation b ≡ false) × (b ≢ sb)
IsItem (negotiation verb option) = is_negotiation verb ≡ true
IsItem (subnegotiation payload) = Unit

eq→≡ : (a b : ℕ) → (a == b) ≡ true → a ≡ b
eq→≡ a b h = ground arith

ne→false : (a b : ℕ) → a ≢ b → (a == b) ≡ false
ne→false a b h = ground arith

not_iac : (b : ℕ) → is_negotiation b ≡ true → (b == iac) ≡ false
not_iac b h = ground arith

-- From the state `s`, the bytes give the keystrokes `xs` and end in the state `t`.
abbrev Emits : State → List ℕ → List ℕ → State → Type 0
Emits s bytes xs t =
    (c : TelnetCodec)
    → c.state ≡ s
    → ((feed bytes c).1.data_bytes ≡ xs) × ((feed bytes c).0.state ≡ t)

Emits-nil : (s : State) → Emits s [] [] s
unfolding feed
Emits-nil s c e = (refl, e)

Emits-append :
    (s t u : State) (xs ys bytes more : List ℕ)
    → Emits s bytes xs t
    → Emits t more ys u
    → Emits s (bytes ++ more) (xs ++ ys) u
Emits-append s t u xs ys bytes more h k c e =
    let first = h c e in
    let second = k (feed bytes c).0 first.1 in
    rw (feed-append bytes more c, first.0, second.0) (refl, second.1)

Emits-byte :
    (s t : State) (b : ℕ) (xs : List ℕ)
    → ((c : TelnetCodec)
        → ((feed_byte s b c).1.data_bytes ≡ xs) × (c.state ≡ s → (feed_byte s b c).0.state ≡ t))
    → Emits s (b ∷ []) xs t
unfolding feed
Emits-byte s t b xs h c e =
    subst
      (λ (x : State). ((feed_byte x b c).1.data_bytes ++ [] ≡ xs) × ((feed_byte x b c).0.state ≡ t))
      (sym e) (append-nil (feed_byte s b c).1.data_bytes ∙ (h c).0, (h c).1 e)

negotiate-state : (option : ℕ) (c : TelnetCodec) → (negotiate option c).0.state ≡ in_data
unfolding negotiate
negotiate-state option c = ground arith

key_plain : (b : ℕ) → (b == iac) ≡ false → Emits in_data (b ∷ []) (b ∷ []) in_data
unfolding feed_byte
key_plain b p = Emits-byte in_data in_data b (b ∷ []) (λ c. rw p (refl, (λ e. e)))

enter : Emits in_data (iac ∷ []) [] in_iac
unfolding feed_byte
enter = Emits-byte in_data in_iac iac [] (λ c. (refl, (λ e. refl)))

-- A byte of the payload that is not the escape.
payload_plain : (b : ℕ) → (b == iac) ≡ false → Emits in_subneg (b ∷ []) [] in_subneg
unfolding feed_byte
payload_plain b p = Emits-byte in_subneg in_subneg b [] (λ c. rw p (refl, (λ e. e)))

payload_escaped : Emits in_subneg (iac ∷ iac ∷ []) [] in_subneg
unfolding feed_byte
payload_escaped =
    Emits-append in_subneg in_subneg_iac in_subneg [] [] (iac ∷ []) (iac ∷ [])
      (Emits-byte in_subneg in_subneg_iac iac [] (λ c. (refl, (λ e. refl))))
      (Emits-byte in_subneg_iac in_subneg iac [] (λ c. (refl, (λ e. refl))))

payload_end : Emits in_subneg (iac ∷ se ∷ []) [] in_data
unfolding feed_byte
payload_end =
    Emits-append in_subneg in_subneg_iac in_data [] [] (iac ∷ []) (se ∷ [])
      (Emits-byte in_subneg in_subneg_iac iac [] (λ c. (refl, (λ e. refl))))
      (Emits-byte in_subneg_iac in_data se [] (λ c. (refl, (λ e. refl))))

escape-Emits : (payload : List ℕ) → Emits in_subneg (escape payload) [] in_subneg
unfolding escape
escape-Emits [] = Emits-nil in_subneg
escape-Emits (b ∷ bs) = elim (Bool-cases (b == iac)) [
  | inl p ↦ rw p (
      Emits-append in_subneg in_subneg in_subneg [] [] (iac ∷ iac ∷ []) (escape bs) payload_escaped
        (escape-Emits bs))
  | inr p ↦ rw p (
      Emits-append in_subneg in_subneg in_subneg [] [] (b ∷ []) (escape bs) (payload_plain b p)
        (escape-Emits bs))
]

verb : (b : ℕ) → is_negotiation b ≡ true → Emits in_iac (b ∷ []) [] in_option
unfolding feed_byte
verb b n = Emits-byte in_iac in_option b [] (λ c. rw (not_iac b n, n) (refl, (λ e. refl)))

option_code : (b : ℕ) → Emits in_option (b ∷ []) [] in_data
unfolding feed_byte
option_code b = Emits-byte in_option in_data b [] (λ c. (refl, (λ e. negotiate-state b c)))

two_byte :
    (b : ℕ)
    → (b == iac) ≡ false
    → is_negotiation b ≡ false
    → (b == sb) ≡ false
    → Emits in_iac (b ∷ []) [] in_data
unfolding feed_byte
two_byte b p q r = Emits-byte in_iac in_data b [] (λ c. rw (p, q, r) (refl, (λ e. refl)))

start_subneg : Emits in_iac (sb ∷ []) [] in_subneg
unfolding feed_byte
start_subneg = Emits-byte in_iac in_subneg sb [] (λ c. (refl, (λ e. refl)))

escaped_key : Emits in_data (iac ∷ iac ∷ []) (iac ∷ []) in_data
unfolding feed_byte
escaped_key =
    Emits-append in_data in_iac in_data [] (iac ∷ []) (iac ∷ []) (iac ∷ []) enter
      (Emits-byte in_iac in_data iac (iac ∷ []) (λ c. (refl, (λ e. refl))))

abbrev keys_of : Item → List ℕ
keys_of i = keys (i ∷ [])

print-Emits : (i : Item) → IsItem i → Emits in_data (print i) (keys_of i) in_data
unfolding print keys
print-Emits (key b) w = elim (Bool-cases (b == iac)) [
  | inl p ↦ rw (p, eq→≡ b iac p) escaped_key
  | inr p ↦ rw p (key_plain b p)
]
print-Emits (command b) w =
    Emits-append in_data in_iac in_data [] [] (iac ∷ []) (b ∷ []) enter
      (two_byte b (ne→false b iac w.0) w.1 (ne→false b sb w.2))
print-Emits (negotiation v option) w =
    Emits-append in_data in_iac in_data [] [] (iac ∷ []) (v ∷ option ∷ []) enter (
      Emits-append in_iac in_option in_data [] [] (v ∷ []) (option ∷ []) (verb v w)
        (option_code option))
print-Emits (subnegotiation payload) w =
    Emits-append in_data in_iac in_data [] [] (iac ∷ []) (sb ∷ escape payload ++ iac ∷ se ∷ [])
      enter
      (Emits-append in_iac in_subneg in_data [] [] (sb ∷ []) (escape payload ++ iac ∷ se ∷ [])
        start_subneg
        (Emits-append in_subneg in_subneg in_data [] [] (escape payload) (iac ∷ se ∷ [])
          (escape-Emits payload) payload_end))

keys-cons : (i : Item) (is : List Item) → keys (i ∷ is) ≡ keys_of i ++ keys is
unfolding keys
keys-cons (key b) is = refl
keys-cons (command b) is = refl
keys-cons (negotiation v option) is = refl
keys-cons (subnegotiation payload) is = refl

print_all-Emits : (is : List Item) → All IsItem is → Emits in_data (print_all is) (keys is) in_data
unfolding print_all keys
print_all-Emits [] w = Emits-nil in_data
print_all-Emits (i ∷ is) w = rw (keys-cons i is) (
    Emits-append in_data in_data in_data (keys_of i) (keys is) (print i) (print_all is)
      (print-Emits i w.0) (print_all-Emits is w.1))

-- A stream of keystrokes, two-byte commands, negotiations and sub-negotiations, each written as RFC 854
-- writes it, comes out of a codec that awaits data as exactly the keystrokes, in order, the escaped
-- 0xFF among them, and leaves the codec awaiting data.
pub feed-print_all :
    (items : List Item) (c : TelnetCodec)
    → All IsItem items
    → c.state ≡ in_data
    → ((feed (print_all items) c).1.data_bytes ≡ keys items)
      × ((feed (print_all items) c).0.state ≡ in_data)
feed-print_all items c w e = print_all-Emits items w c e
