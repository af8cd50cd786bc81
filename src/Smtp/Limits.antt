-- ===== src/Smtp/Limits.antt =====
-- src/protocols/smtp/honeypot.ts: the limit on the lines of a connection.
use hackerpot.Common.{
  ℕ, ◌+◌, ◌≤◌, ◌<◌, ◌≡◌, refl, sym, ap, ◌∙◌, subst, String, Bool, true, false, Option, none, some,
  List, [], ◌∷◌, ◌++◌, ltb, if◌then◌else◌, length, map, arith, Bool-cases, inl, inr, same_units,
  lt→ltb, str_eq, length-append, dec_le, ltb_false→le,
}
use hackerpot.Smtp.{
  Session, Mode, Texts, SmtpOptions, Connection, Command, max_lines, max_line, max_message,
  lone_dot, handle_line, take_data, take_command, take_auth, take_token, take_recipient, start_data,
  is_relay, take_line, take_lines, apply_step, too_many, on_data, split_lines, run_split,
  drop_return, open_connection, add_line, first_word, second,
}
use hackerpot.Smtp.Capture.{IsBody, take_lines-live, take_line-body}

none_made : 0 ≤ 1
none_made = omega arith

one_made : 1 ≤ 1
one_made = omega arith

-- A line makes at most one report.
module _ (x : Texts) (o : SmtpOptions) where
  token-reports : (t : Option String) (s : Session) → length (take_token x o t s).reports ≤ 1
  token-reports none s = omega arith
  token-reports (some token) s = elim (Bool-cases (str_eq token "")) [
    | inl h ↦ rw h none_made
    | inr h ↦ rw h one_made
  ]

  start_data-reports : (s : Session) (b : Bool) → length (start_data s b).reports ≤ 1
  start_data-reports s true = omega arith
  start_data-reports s false = omega arith

  take_command-reports :
      (k : Command) (rest : List String) (s : Session)
      → length (take_command x o k rest s).reports ≤ 1
  unfolding take_command take_auth take_recipient
  take_command-reports Command.helo rest s = omega arith
  take_command-reports Command.ehlo rest s = omega arith
  take_command-reports Command.auth rest s =
      elim (Bool-cases (str_eq (x.upper (first_word rest)) "PLAIN")) [
        | inl h ↦ rw h (token-reports (second rest) s)
        | inr h ↦ elim (Bool-cases (str_eq (x.upper (first_word rest)) "LOGIN")) [
          | inl k ↦ rw (h, k) none_made
          | inr k ↦ rw (h, k) none_made
        ]
      ]
  take_command-reports Command.mail rest s = omega arith
  take_command-reports Command.rcpt rest s =
      elim (Bool-cases (is_relay x o s.mail_from (x.to_of (x.join rest)))) [
        | inl h ↦ rw h one_made
        | inr h ↦ rw h none_made
      ]
  take_command-reports Command.start_message rest s = start_data-reports s _
  take_command-reports Command.vrfy rest s = omega arith
  take_command-reports Command.expn rest s = omega arith
  take_command-reports Command.rset rest s = omega arith
  take_command-reports Command.noop rest s = omega arith
  take_command-reports Command.starttls rest s = omega arith
  take_command-reports Command.quit rest s = omega arith
  take_command-reports Command.unknown rest s = omega arith

  handle_line-reports :
      (line : List ℕ) (m : Mode) (s : Session) → length (handle_line x o line m s).reports ≤ 1
  unfolding handle_line take_data
  handle_line-reports line Mode.data_mode s = elim (Bool-cases (same_units line lone_dot)) [
    | inl h ↦ rw h one_made
    | inr h ↦ rw h none_made
  ]
  handle_line-reports line Mode.auth_user_mode s = omega arith
  handle_line-reports line Mode.auth_pass_mode s = omega arith
  handle_line-reports line Mode.commands s = take_command-reports _ _ s

  -- A connection has made no more reports than it took lines, and is destroyed once these are too many.
  record Within (c : Connection) : Type 0 where
    pub few : length c.reports ≤ 200
    pub each : length c.reports ≤ c.line_count
    pub alive : c.destroyed ≡ false → c.line_count ≤ 200

  take_line-Within :
      (line : List ℕ) (c : Connection)
      → c.destroyed ≡ false
      → Within c
      → Within (take_line x o line c)
  unfolding take_line
  take_line-Within line c alive w = elim (Bool-cases (ltb max_lines (c.line_count + 1))) [
    | inl over ↦
        rw over (record { few = w.few; each = omega (arith, w.each); alive = λ h. absurd (cc) })
    | inr room ↦
        let one = handle_line-reports line c.mode c.session in
        let sum = length-append c.reports (handle_line x o line c.mode c.session).reports in
        let fits = ltb_false→le max_lines (c.line_count + 1) room in
        rw room (record {
          few = omega (arith, sum, one, w.each, fits);
          each = omega (arith, sum, one, w.each);
          alive = λ h. omega (arith, fits);
        })
  ]

  take_lines-Within :
      (lines : List (List ℕ)) (c : Connection) → Within c → Within (take_lines x o lines c)
  unfolding take_lines
  take_lines-Within [] c w = w
  take_lines-Within (line ∷ lines) c w = elim (Bool-cases c.destroyed) [
    | inl gone ↦
        subst (λ b. Within (if b then c else take_lines x o lines (take_line x o line c)))
          (sym gone) w
    | inr alive ↦
        subst (λ b. Within (if b then c else take_lines x o lines (take_line x o line c)))
          (sym alive)
          (take_lines-Within lines (take_line x o line c) (take_line-Within line c alive w))
  ]

  split-Within :
      (split : List (List ℕ) × List ℕ) (c : Connection) → Within c → Within (run_split x o split c)
  split-Within (lines, rest) c w =
      take_lines-Within (map drop_return lines) (record c { buffer = rest })
        (record { few = w.few; each = w.each; alive = w.alive })

  on_data-Within : (chunk : List ℕ) (c : Connection) → Within c → Within (on_data x o chunk c)
  unfolding on_data
  on_data-Within chunk c w =
      let buffer = c.buffer ++ chunk in
      kept c.destroyed (ltb (max_line + max_message) (length buffer))
        (record c { buffer = buffer; destroyed = true }) (run_split x o (split_lines buffer) c) w
        (record { few = w.few; each = w.each; alive = λ h. absurd (cc) })
        (split-Within (split_lines buffer) c w)
    where
      kept :
          (a b : Bool) (d e : Connection)
          → Within c
          → Within d
          → Within e
          → Within (if a then c else if b then d else e)
      kept true b d e w u v = w
      kept false true d e w u v = u
      kept false false d e w u v = v

  -- What a connection becomes with the chunks that arrive.
  abbrev pub receive : List (List ℕ) → Connection → Connection
  receive [] c = c
  receive (chunk ∷ chunks) c = receive chunks (on_data x o chunk c)

  receive-Within : (chunks : List (List ℕ)) (c : Connection) → Within c → Within (receive chunks c)
  receive-Within [] c w = w
  receive-Within (chunk ∷ chunks) c w =
      receive-Within chunks (on_data x o chunk c) (on_data-Within chunk c w)

  destroyed_stays :
      (lines : List (List ℕ)) (c : Connection) → c.destroyed ≡ true → take_lines x o lines c ≡ c
  unfolding take_lines
  destroyed_stays [] c gone = refl
  destroyed_stays (line ∷ lines) c gone =
      ap (λ b. if b then c else take_lines x o lines (take_line x o line c)) gone

  take_line-over :
      (line : List ℕ) (c : Connection)
      → max_lines < c.line_count + 1
      → take_line x o line c ≡ too_many c
  unfolding take_line
  take_line-over line c over =
      ap (λ b. if b then too_many c else apply_step (handle_line x o line c.mode c.session) c)
        (lt→ltb max_lines (c.line_count + 1) over)

  long_body :
      (lines : List (List ℕ)) (c : Connection)
      → c.destroyed ≡ false
      → c.mode ≡ Mode.data_mode
      → c.line_count ≤ max_lines
      → max_lines < c.line_count + length lines
      → IsBody lines
      → ((take_lines x o lines c).reports ≡ c.reports) × ((take_lines x o lines c).destroyed ≡ true)
  long_body [] c alive in_message few many body = absurd (omega (arith, few, many))
  long_body (line ∷ lines) c alive in_message few many body =
      elim (dec_le (c.line_count + 1) max_lines) [
        | no over ↦
            let last =
              take_lines-live x o line lines c alive
              ∙ ap (λ (d : Connection). take_lines x o lines d)
                  (take_line-over line c (omega arith))
              ∙ destroyed_stays lines (too_many c) refl in
            (ap (λ (d : Connection). d.reports) last, ap (λ (d : Connection). d.destroyed) last)
        | yes room ↦
            let next : Connection = record c {
              session = add_line x max_message o.capture_body line c.session;
              mode = Mode.data_mode;
              line_count = c.line_count + 1;
            } in
            let turn =
              take_lines-live x o line lines c alive
              ∙ ap (λ (d : Connection). take_lines x o lines d)
                  (take_line-body x o line c in_message room body.0) in
            let (silent, gone) = long_body lines next alive refl room (omega arith) body.1 in
            (
              ap (λ (d : Connection). d.reports) turn ∙ silent,
              ap (λ (d : Connection). d.destroyed) turn ∙ gone,
            )
      ]

-- The limit on lines counts the lines of a message too: a message that goes past it is never reported.
-- The connection is destroyed with no report of what was delivered.
pub take_lines-unreported :
    (x : Texts) (o : SmtpOptions) (lines : List (List ℕ)) (c : Connection)
    → c.destroyed ≡ false
    → c.mode ≡ Mode.data_mode
    → c.line_count ≤ max_lines
    → max_lines < c.line_count + length lines
    → IsBody lines
    → ((take_lines x o lines c).reports ≡ c.reports) × ((take_lines x o lines c).destroyed ≡ true)
take_lines-unreported x o lines c alive in_message few many body =
    long_body x o lines c alive in_message few many body

-- Whatever arrives in whatever chunks, a connection makes at most 200 reports.
pub receive-few :
    (x : Texts) (o : SmtpOptions) (greeting : String) (chunks : List (List ℕ))
    → length (receive x o chunks (open_connection greeting)).reports ≤ 200
unfolding open_connection
receive-few x o greeting chunks =
    (receive-Within x o chunks (open_connection greeting)
      (record { few = omega arith; each = omega arith; alive = λ h. omega arith })).few
