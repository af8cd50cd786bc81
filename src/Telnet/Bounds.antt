-- ===== src/Telnet/Bounds.antt =====
-- src/protocols/telnet/codec.ts: what the codec stores and sends has a ceiling, whatever bytes arrive.
use hackerpot.Common.{
  ℕ, ◌+◌, ◌*◌, ◌≤◌, ◌≡◌, refl, ◌∙◌, List, [], ◌∷◌, Option, none, some, arith, length, leb, ◌==◌,
  length-append, Bool-cases, inl, inr, leb_false→lt,
}
use hackerpot.Telnet.{
  TelnetCodec, State, in_data, in_iac, in_option, in_subneg, in_subneg_iac, create, refuse, answer,
  negotiate, sent, one_if, buffer, feed_byte, feed, feed_iac, feed_subneg_iac, is_negotiation, iac,
  sb, se,
}

pub record IsBounded (c : TelnetCodec) : Type 0 where
  pub few_replies : c.replies ≤ c.max_replies
  pub short_subneg : length c.subneg ≤ c.max_subneg_bytes

-- What one step may do: the limits stand, the codec stays within them, and the bytes sent are paid for.
record Steps (c d : TelnetCodec) (reply : List ℕ) : Type 0 where
  bounded : IsBounded d
  same_replies : d.max_replies ≡ c.max_replies
  same_subneg : d.max_subneg_bytes ≡ c.max_subneg_bytes
  paid : length reply + 9 * c.replies ≤ 9 * d.replies

length-buffer : (b limit : ℕ) (xs : List ℕ) → length xs ≤ limit → length (buffer b limit xs) ≤ limit
length-buffer b limit xs h = ground (arith, length-append xs (b ∷ []))

length-refuse :
    (verb option : ℕ) (refused : List ℕ)
    → length (sent (refuse verb option refused).1) ≤ 9 * one_if (refuse verb option refused).1
unfolding refuse
length-refuse verb option refused = ground arith

length-answer :
    (command option : ℕ) (announced refused : List ℕ)
    → length (sent (answer command option announced refused).1)
      ≤ 9 * one_if (answer command option announced refused).1
unfolding answer
length-answer command option announced refused =
    ground (arith, length-refuse 252 option refused, length-refuse 254 option refused)

one_if-le : (r : Option (List ℕ)) → one_if r ≤ 1
one_if-le none = omega arith
one_if-le (some x) = omega arith

still :
    (c d : TelnetCodec)
    → IsBounded c
    → d.replies ≡ c.replies
    → d.max_replies ≡ c.max_replies
    → d.max_subneg_bytes ≡ c.max_subneg_bytes
    → length d.subneg ≤ d.max_subneg_bytes
    → Steps c d []
still c d v e m n l = record {
  bounded = record { few_replies = omega (arith, e, m, v.few_replies); short_subneg = l };
  same_replies = m;
  same_subneg = n;
  paid = omega (arith, e);
}

negotiate-Steps :
    (option : ℕ) (c : TelnetCodec)
    → IsBounded c
    → Steps c (negotiate option c).0 (negotiate option c).1
unfolding negotiate
negotiate-Steps option c v = elim (Bool-cases (leb c.max_replies c.replies)) [
  | inl full ↦ rw full (still c (record c { state = in_data }) v refl refl refl v.short_subneg)
  | inr room ↦ rw room (record {
    bounded = record {
      few_replies = omega (
        arith,
        leb_false→lt c.max_replies c.replies room,
        one_if-le (answer c.command option c.announced c.refused).1,
      );
      short_subneg = v.short_subneg;
    };
    same_replies = refl;
    same_subneg = refl;
    paid = omega (arith, length-answer c.command option c.announced c.refused);
  })
]

iac-Steps :
    (b : ℕ) (c : TelnetCodec) → IsBounded c → Steps c (feed_iac b c).0 (feed_iac b c).1.reply
iac-Steps b c v = elim (Bool-cases (b == iac)) [
  | inl p ↦ rw p (still c (record c { state = in_data }) v refl refl refl v.short_subneg)
  | inr p ↦ elim (Bool-cases (is_negotiation b)) [
    | inl q ↦
        rw (p, q)
          (still c (record c { state = in_option; command = b }) v refl refl refl v.short_subneg)
    | inr q ↦ elim (Bool-cases (b == sb)) [
      | inl r ↦
          rw (p, q, r)
            (still c (record c { state = in_subneg; subneg = [] }) v refl refl refl (omega arith))
      | inr r ↦
          rw (p, q, r) (still c (record c { state = in_data }) v refl refl refl v.short_subneg)
    ]
  ]
]

subneg_iac-Steps :
    (b : ℕ) (c : TelnetCodec)
    → IsBounded c
    → Steps c (feed_subneg_iac b c).0 (feed_subneg_iac b c).1.reply
subneg_iac-Steps b c v = elim (Bool-cases (b == se)) [
  | inl p ↦
      rw p (still c (record c { state = in_data; subneg = [] }) v refl refl refl (omega arith))
  | inr p ↦ elim (Bool-cases (b == iac)) [
    | inl q ↦
        rw (p, q)
          (still c (record c { state = in_subneg; subneg = buffer iac c.max_subneg_bytes c.subneg })
            v refl refl refl (length-buffer iac c.max_subneg_bytes c.subneg v.short_subneg))
    | inr q ↦ rw (p, q) (still c (record c { state = in_subneg }) v refl refl refl v.short_subneg)
  ]
]

feed_byte-Steps :
    (s : State) (b : ℕ) (c : TelnetCodec)
    → IsBounded c
    → Steps c (feed_byte s b c).0 (feed_byte s b c).1.reply
unfolding feed_byte
feed_byte-Steps in_data b c v = elim (Bool-cases (b == iac)) [
  | inl p ↦ rw p (still c (record c { state = in_iac }) v refl refl refl v.short_subneg)
  | inr p ↦ rw p (still c c v refl refl refl v.short_subneg)
]
feed_byte-Steps in_iac b c v = iac-Steps b c v
feed_byte-Steps in_option b c v = negotiate-Steps b c v
feed_byte-Steps in_subneg b c v = elim (Bool-cases (b == iac)) [
  | inl p ↦ rw p (still c (record c { state = in_subneg_iac }) v refl refl refl v.short_subneg)
  | inr p ↦ rw p (
      still c (record c { subneg = buffer b c.max_subneg_bytes c.subneg }) v refl refl refl
        (length-buffer b c.max_subneg_bytes c.subneg v.short_subneg))
]
feed_byte-Steps in_subneg_iac b c v = subneg_iac-Steps b c v

feed-Steps :
    (bytes : List ℕ) (c : TelnetCodec)
    → IsBounded c
    → Steps c (feed bytes c).0 (feed bytes c).1.reply
unfolding feed
feed-Steps [] c v = still c c v refl refl refl v.short_subneg
feed-Steps (b ∷ bs) c v =
    let one = feed_byte-Steps c.state b c v in
    let here = feed_byte c.state b c in
    let many = feed-Steps bs here.0 one.bounded in
    record {
      bounded = many.bounded;
      same_replies = many.same_replies ∙ one.same_replies;
      same_subneg = many.same_subneg ∙ one.same_subneg;
      paid =
          omega (arith, length-append here.1.reply (feed bs here.0).1.reply, one.paid, many.paid);
    }

-- Whatever bytes arrive, a codec made with a ceiling of `max_replies` counts no
-- more replies than that, sends at most nine bytes for each, and never holds more than
-- `max_subneg_bytes` bytes of a sub-negotiation.
pub feed-IsBounded :
    (announced : List ℕ) (max_replies max_subneg_bytes : ℕ) (bytes : List ℕ)
    → (length (feed bytes (create announced max_replies max_subneg_bytes)).1.reply
        ≤ 9 * max_replies)
      × ((feed bytes (create announced max_replies max_subneg_bytes)).0.replies ≤ max_replies)
      × (length (feed bytes (create announced max_replies max_subneg_bytes)).0.subneg
          ≤ max_subneg_bytes)
unfolding create
feed-IsBounded announced max_replies max_subneg_bytes bytes =
    let c = create announced max_replies max_subneg_bytes in
    let all =
      feed-Steps bytes c (record { few_replies = omega arith; short_subneg = omega arith }) in
    let few = all.bounded.few_replies in
    let short = all.bounded.short_subneg in
    (
      omega (arith, all.paid, few, all.same_replies),
      omega (arith, few, all.same_replies),
      omega (arith, short, all.same_subneg),
    )
