-- ===== src/Telnet.antt =====
-- src/protocols/telnet/codec.ts: the parser of Telnet's option negotiation, one byte at a time, with the
-- state that survives from one chunk to the next.
use hackerpot.Common.{
  ℕ, zero, suc, ◌+◌, Bool, true, false, ◌||◌, not, ◌&&◌, Option, none, some, List, [], ◌∷◌, ◌++◌,
  ltb, leb, ◌==◌, if◌then◌else◌, or_else, length, drop, take, any, keep,
}
pub mod Chunks
pub mod Bounds
pub mod Stream
pub mod Terminal
pub mod Refusals

abbrev pub iac : ℕ
iac = 255

abbrev pub dont : ℕ
dont = 254

abbrev pub do_option : ℕ
do_option = 253

abbrev pub wont : ℕ
wont = 252

abbrev pub will : ℕ
will = 251

abbrev pub sb : ℕ
sb = 250

abbrev pub se : ℕ
se = 240

abbrev pub opt_terminal_type : ℕ
opt_terminal_type = 24

pub data State : Type 0 where
  in_data : State
  in_iac : State
  in_option : State
  in_subneg : State
  in_subneg_iac : State

-- `announced` and `refused` are sets of option codes; `subneg` is the payload in order of arrival.
pub record TelnetCodec : Type 0 where
  pub state : State
  pub command : ℕ
  pub subneg : List ℕ
  pub replies : ℕ
  pub announced : List ℕ
  pub max_replies : ℕ
  pub max_subneg_bytes : ℕ
  pub refused : List ℕ

pub record Result : Type 0 where
  pub data_bytes : List ℕ
  pub reply : List ℕ
  pub terminal : Option (List ℕ)

abbrev pub has_option : ℕ → List ℕ → Bool
has_option x xs = any (λ y. x == y) xs

unfoldable pub create : List ℕ → ℕ → ℕ → TelnetCodec
create announced max_replies max_subneg_bytes = record {
  state = in_data;
  command = 0;
  subneg = [];
  replies = 0;
  announced = announced;
  max_replies = max_replies;
  max_subneg_bytes = max_subneg_bytes;
  refused = [];
}

unfoldable pub greeting : List ℕ → List ℕ
greeting [] = []
greeting (o ∷ os) = iac ∷ will ∷ o ∷ greeting os

-- What one negotiation leaves: the options refused, and the reply, absent where none is counted.
unfoldable pub refuse : ℕ → ℕ → List ℕ → List ℕ × Option (List ℕ)
refuse verb option refused =
    if has_option option refused
    then (refused, none)
    else (option ∷ refused, some (iac ∷ verb ∷ option ∷ []))

unfoldable pub answer : ℕ → ℕ → List ℕ → List ℕ → List ℕ × Option (List ℕ)
unfolding refuse
answer command option announced refused =
    if command == do_option
    then (if has_option option announced then (refused, none) else refuse wont option refused)
    else if command == will
    then (if option == opt_terminal_type
        then (
          refused,
          some (
              iac ∷ do_option ∷ opt_terminal_type ∷ iac ∷ sb ∷ opt_terminal_type ∷ 1 ∷ iac ∷ se
              ∷ []),
        )
        else refuse dont option refused)
    else if command == dont
    then refuse wont option refused
    else (refused, none)

abbrev pub sent : Option (List ℕ) → List ℕ
sent r = or_else r []

abbrev pub one_if : Option (List ℕ) → ℕ
one_if none = 0
one_if (some _) = 1

-- The codec after a negotiation, back in the data state, with what it answers.
unfoldable pub negotiate : ℕ → TelnetCodec → TelnetCodec × List ℕ
negotiate option c =
    if leb c.max_replies c.replies
    then (record c { state = in_data }, [])
    else let a = answer c.command option c.announced c.refused in
      (record c { state = in_data; refused = a.0; replies = c.replies + one_if a.1 }, sent a.1)

abbrev pub printable : ℕ → Bool
printable b = leb 32 b && leb b 126

unfoldable pub trim_start : List ℕ → List ℕ
trim_start [] = []
trim_start (b ∷ bs) = let rest = trim_start bs in if b == 32 then rest else b ∷ bs

-- Of printable bytes the space is the only one that `trim` takes off.
unfoldable pub trim_end : List ℕ → List ℕ
trim_end [] = []
trim_end (b ∷ bs) = let rest = trim_end bs in if b == 32 && length rest == 0 then [] else b ∷ rest

abbrev pub nonempty_name : List ℕ → Option (List ℕ)
nonempty_name [] = none
nonempty_name (b ∷ bs) = some (take 64 (b ∷ bs))

unfoldable pub read_terminal_type : List ℕ → Option (List ℕ)
unfolding trim_start trim_end
read_terminal_type [] = none
read_terminal_type (option ∷ []) = none
read_terminal_type (option ∷ is ∷ name) =
    if option == opt_terminal_type && is == 0
    then nonempty_name (trim_end (trim_start (keep printable name)))
    else none

abbrev pub nothing : Result
nothing = record { data_bytes = []; reply = []; terminal = none }

abbrev pub keystroke : ℕ → Result
keystroke b = record nothing { data_bytes = b ∷ [] }

abbrev pub buffer : ℕ → ℕ → List ℕ → List ℕ
buffer b limit bytes = if ltb (length bytes) limit then bytes ++ b ∷ [] else bytes

abbrev pub is_negotiation : ℕ → Bool
is_negotiation b = b == do_option || b == dont || b == will || b == wont

abbrev pub feed_iac : ℕ → TelnetCodec → TelnetCodec × Result
feed_iac b c =
    if b == iac
    then (record c { state = in_data }, keystroke iac)
    else if is_negotiation b
    then (record c { state = in_option; command = b }, nothing)
    else if b == sb
    then (record c { state = in_subneg; subneg = [] }, nothing)
    else (record c { state = in_data }, nothing)

abbrev pub feed_subneg_iac : ℕ → TelnetCodec → TelnetCodec × Result
feed_subneg_iac b c =
    if b == se
    then (
      record c { state = in_data; subneg = [] },
      record nothing { terminal = read_terminal_type c.subneg },
    )
    else if b == iac
    then (record c { state = in_subneg; subneg = buffer iac c.max_subneg_bytes c.subneg }, nothing)
    else (record c { state = in_subneg }, nothing)

-- One turn of the loop over a chunk.
unfoldable pub feed_byte : State → ℕ → TelnetCodec → TelnetCodec × Result
feed_byte in_data b c =
    if b == iac then (record c { state = in_iac }, nothing) else (c, keystroke b)
feed_byte in_iac b c = feed_iac b c
feed_byte in_option b c = let n = negotiate b c in (n.0, record nothing { reply = n.1 })
feed_byte in_subneg b c =
    if b == iac
    then (record c { state = in_subneg_iac }, nothing)
    else (record c { subneg = buffer b c.max_subneg_bytes c.subneg }, nothing)
feed_byte in_subneg_iac b c = feed_subneg_iac b c

-- `terminal` is assigned over, so the last one read is the one returned.
abbrev pub later : Option (List ℕ) → Option (List ℕ) → Option (List ℕ)
later first none = first
later first (some t) = some t

abbrev pub join : Result → Result → Result
join a b = record {
  data_bytes = a.data_bytes ++ b.data_bytes;
  reply = a.reply ++ b.reply;
  terminal = later a.terminal b.terminal;
}

unfoldable pub feed : List ℕ → TelnetCodec → TelnetCodec × Result
feed [] c = (c, nothing)
feed (b ∷ bs) c =
    let here = feed_byte c.state b c in let after = feed bs here.0 in (after.0, join here.1 after.1)
