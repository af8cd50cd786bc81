-- ===== src/Telnet/Chunks.antt =====
-- src/protocols/telnet/codec.ts: the parser's state survives between two calls of `feed`.
use hackerpot.Common.{ℕ, ◌≡◌, refl, ap, sym, List, [], ◌∷◌, ◌++◌, append_assoc, Option, none, some}
use hackerpot.Telnet.{TelnetCodec, Result, feed, feed_byte, join, nothing, later}

later_assoc : (a b c : Option (List ℕ)) → later (later a b) c ≡ later a (later b c)
later_assoc a b none = refl
later_assoc a b (some t) = refl

later-none : (a : Option (List ℕ)) → later none a ≡ a
later-none none = refl
later-none (some t) = refl

join_assoc : (a b c : Result) → join (join a b) c ≡ join a (join b c)
join_assoc a b c =
    rw
      (
        append_assoc a.data_bytes b.data_bytes c.data_bytes,
        append_assoc a.reply b.reply c.reply,
        later_assoc a.terminal b.terminal c.terminal,
      )
      refl

join-nothing : (a : Result) → join nothing a ≡ a
join-nothing a = rw (later-none a.terminal) refl

-- Feeding a chunk and then a second one leaves the codec that feeding both at once leaves, and gives the
-- same keystrokes, the same replies in the same order and the same terminal name: a command split
-- across chunks is parsed as one.
pub feed-append :
    (xs ys : List ℕ) (c : TelnetCodec)
    → feed (xs ++ ys) c ≡ ((feed ys (feed xs c).0).0, join (feed xs c).1 (feed ys (feed xs c).0).1)
unfolding feed
feed-append [] ys c = rw (join-nothing (feed ys c).1) refl
feed-append (x ∷ xs) ys c =
    let here = feed_byte c.state x c in
    let rest = feed-append xs ys here.0 in
    rw rest (
      ap (λ r. ((feed ys (feed xs here.0).0).0, r))
        (sym (join_assoc here.1 (feed xs here.0).1 (feed ys (feed xs here.0).0).1)))
