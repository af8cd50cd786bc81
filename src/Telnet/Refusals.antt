-- ===== src/Telnet/Refusals.antt =====
-- src/protocols/telnet/codec.ts: what keeps two peers from refusing each other for ever.
use hackerpot.Common.{ℕ, ◌≡◌, ◌≢◌, refl, true, List, [], ◌∷◌, arith, leb, Bool-cases, inl, inr}
use hackerpot.Telnet.{
  TelnetCodec, State, in_data, in_iac, in_option, in_subneg, in_subneg_iac, negotiate, answer,
  refuse, sent, has_option, feed, feed_byte, feed_iac, feed_subneg_iac, opt_terminal_type,
}

refuse-keeps :
    (verb option o : ℕ) (refused : List ℕ)
    → has_option o refused ≡ true
    → has_option o (refuse verb option refused).0 ≡ true
unfolding refuse
refuse-keeps verb option o refused h = ground arith

answer-keeps :
    (command option o : ℕ) (announced refused : List ℕ)
    → has_option o refused ≡ true
    → has_option o (answer command option announced refused).0 ≡ true
unfolding answer
answer-keeps command option o announced refused h =
    ground (arith, refuse-keeps 252 option o refused, refuse-keeps 254 option o refused)

-- A reply about an option other than the terminal's type records that option as refused.
answer-records :
    (command option : ℕ) (announced refused : List ℕ)
    → option ≢ opt_terminal_type
    → sent (answer command option announced refused).1 ≢ []
    → has_option option (answer command option announced refused).0 ≡ true
unfolding answer refuse
answer-records command option announced refused n r = ground arith

-- An option that was refused gets no reply.
answer-silent :
    (command option : ℕ) (announced refused : List ℕ)
    → option ≢ opt_terminal_type
    → has_option option refused ≡ true
    → sent (answer command option announced refused).1 ≡ []
unfolding answer refuse
answer-silent command option announced refused n h = ground arith

negotiate-keeps :
    (option o : ℕ) (c : TelnetCodec)
    → has_option o c.refused ≡ true
    → has_option o (negotiate option c).0.refused ≡ true
unfolding negotiate
negotiate-keeps option o c h = elim (Bool-cases (leb c.max_replies c.replies)) [
  | inl p ↦ rw p h
  | inr p ↦ rw p (answer-keeps c.command option o c.announced c.refused h)
]

iac-keeps :
    (b o : ℕ) (c : TelnetCodec)
    → has_option o c.refused ≡ true
    → has_option o (feed_iac b c).0.refused ≡ true
iac-keeps b o c h = ground arith

subneg_iac-keeps :
    (b o : ℕ) (c : TelnetCodec)
    → has_option o c.refused ≡ true
    → has_option o (feed_subneg_iac b c).0.refused ≡ true
subneg_iac-keeps b o c h = ground arith

feed_byte-keeps :
    (s : State) (b o : ℕ) (c : TelnetCodec)
    → has_option o c.refused ≡ true
    → has_option o (feed_byte s b c).0.refused ≡ true
unfolding feed_byte
feed_byte-keeps in_data b o c h = ground arith
feed_byte-keeps in_iac b o c h = iac-keeps b o c h
feed_byte-keeps in_option b o c h = negotiate-keeps b o c h
feed_byte-keeps in_subneg b o c h = ground arith
feed_byte-keeps in_subneg_iac b o c h = subneg_iac-keeps b o c h

feed-keeps :
    (bytes : List ℕ) (o : ℕ) (c : TelnetCodec)
    → has_option o c.refused ≡ true
    → has_option o (feed bytes c).0.refused ≡ true
unfolding feed
feed-keeps [] o c h = h
feed-keeps (b ∷ bs) o c h =
    feed-keeps bs o (feed_byte c.state b c).0 (feed_byte-keeps c.state b o c h)

negotiate-records :
    (option : ℕ) (c : TelnetCodec)
    → option ≢ opt_terminal_type
    → (negotiate option c).1 ≢ []
    → has_option option (negotiate option c).0.refused ≡ true
unfolding negotiate
negotiate-records option c n r = elim (Bool-cases (leb c.max_replies c.replies)) [
  | inl p ↦ absurd (rw p at r refl)
  | inr p ↦ rw p (answer-records c.command option c.announced c.refused n (rw p at r))
]

negotiate-silent :
    (option : ℕ) (c : TelnetCodec)
    → option ≢ opt_terminal_type
    → has_option option c.refused ≡ true
    → (negotiate option c).1 ≡ []
unfolding negotiate
negotiate-silent option c n h = elim (Bool-cases (leb c.max_replies c.replies)) [
  | inl p ↦ rw p refl
  | inr p ↦ rw p (answer-silent c.command option c.announced c.refused n h)
]

-- An option other than the terminal's type that once got a reply never gets another, whatever the peer
-- sends in between and whichever verb it asks with.
pub negotiate-once :
    (option verb : ℕ) (bytes : List ℕ) (c : TelnetCodec)
    → option ≢ opt_terminal_type
    → (negotiate option c).1 ≢ []
    → (negotiate option (record (feed bytes (negotiate option c).0).0 { command = verb })).1 ≡ []
negotiate-once option verb bytes c n r =
    let d = (negotiate option c).0 in
    negotiate-silent option (record (feed bytes d).0 { command = verb }) n
      (feed-keeps bytes option d (negotiate-records option c n r))
