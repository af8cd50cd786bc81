-- ===== src/Examples/Wire.antt =====
-- src/protocols/telnet/codec.ts and src/internal/http.ts on concrete bytes.
use hackerpot.Common.{
  ℕ, ◌≡◌, ◌≢◌, ◌≤◌, ◌*◌, refl, List, [], ◌∷◌, ◌++◌, some, All, length, arith, true,
}
use hackerpot.Telnet.{
  TelnetCodec, create, feed, feed_byte, negotiate, answer, refuse, join, in_data, in_option, iac,
  do_option, will,
}
use hackerpot.Telnet.Chunks.{feed-append}
use hackerpot.Telnet.Bounds.{feed-IsBounded}
use hackerpot.Telnet.Stream.{
  Item, key, command, negotiation, subnegotiation, print_all, keys, feed-print_all,
}
use hackerpot.Telnet.Refusals.{negotiate-once}
use hackerpot.Paths.{normalize_path, split, is_absolute_form}
use hackerpot.Paths.Resolved.{IsPlain, starts_slash, normalize_path-IsPlain}

abbrev codec : TelnetCodec
codec = record {
  state = in_data;
  command = 0;
  subneg = [];
  replies = 0;
  announced = 1 ∷ 3 ∷ [];
  max_replies = 64;
  max_subneg_bytes = 64;
  refused = [];
}

-- A codec that has just read IAC DO and awaits the option.
abbrev asked : TelnetCodec
asked = record codec { state = in_option; command = do_option }

-- IAC DO 31, split after the verb, with a keystroke on each side.
feed_split : (feed (104 ∷ iac ∷ do_option ∷ 31 ∷ 105 ∷ []) codec).1.data_bytes ≡ 104 ∷ 105 ∷ []
unfolding feed feed_byte negotiate
feed_split = refl

feed_refuses : (feed (iac ∷ do_option ∷ 31 ∷ []) codec).1.reply ≡ iac ∷ 252 ∷ 31 ∷ []
unfolding feed feed_byte negotiate answer refuse
feed_refuses = refl

feed-append_example : feed ((104 ∷ iac ∷ do_option ∷ []) ++ 31 ∷ []) codec ≡ (
  (feed (31 ∷ []) (feed (104 ∷ iac ∷ do_option ∷ []) codec).0).0,
  join
      (feed (104 ∷ iac ∷ do_option ∷ []) codec).1
      (feed (31 ∷ []) (feed (104 ∷ iac ∷ do_option ∷ []) codec).0).1,
)
feed-append_example = feed-append (104 ∷ iac ∷ do_option ∷ []) (31 ∷ []) codec

feed-IsBounded_example :
    (length (feed (iac ∷ do_option ∷ 31 ∷ []) (create (1 ∷ 3 ∷ []) 64 64)).1.reply ≤ 9 * 64)
    × ((feed (iac ∷ do_option ∷ 31 ∷ []) (create (1 ∷ 3 ∷ []) 64 64)).0.replies ≤ 64)
    × (length (feed (iac ∷ do_option ∷ 31 ∷ []) (create (1 ∷ 3 ∷ []) 64 64)).0.subneg ≤ 64)
feed-IsBounded_example = feed-IsBounded (1 ∷ 3 ∷ []) 64 64 (iac ∷ do_option ∷ 31 ∷ [])

abbrev typed : List Item
typed =
    key 104
    ∷ negotiation do_option 31
    ∷ key iac
    ∷ subnegotiation (24 ∷ 0 ∷ iac ∷ 120 ∷ [])
    ∷ command 241
    ∷ key 105
    ∷ []

feed-print_all_example :
    ((feed (print_all typed) codec).1.data_bytes ≡ keys typed)
    × ((feed (print_all typed) codec).0.state ≡ in_data)
feed-print_all_example =
    feed-print_all typed codec
      (tt, (refl, (tt, (tt, ((omega arith, refl, omega arith), (tt, tt)))))) refl

some_reply : (negotiate 31 asked).1 ≢ []
unfolding negotiate answer refuse
some_reply e = cc e

negotiate-once_example :
    (negotiate 31 (record (feed (iac ∷ will ∷ []) (negotiate 31 asked).0).0 { command = will })).1
    ≡ []
negotiate-once_example = negotiate-once 31 will (iac ∷ will ∷ []) asked (omega arith) some_reply

-- `/a/../.env` as sent.
abbrev sneaky : List ℕ
sneaky = 47 ∷ 97 ∷ 47 ∷ 46 ∷ 46 ∷ 47 ∷ 46 ∷ 101 ∷ 110 ∷ 118 ∷ []

normalize_path-IsPlain_example :
    (starts_slash (normalize_path (λ p. some p) sneaky) ≡ true)
    × All IsPlain (split (normalize_path (λ p. some p) sneaky))
normalize_path-IsPlain_example =
    normalize_path-IsPlain (λ p. some p) sneaky (unfold is_absolute_form in refl)
