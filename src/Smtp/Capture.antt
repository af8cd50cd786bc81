-- ===== src/Smtp/Capture.antt =====
-- src/protocols/smtp/honeypot.ts: what becomes of the lines of a message.
use mathlib.Core.Path.{ap₂}
use hackerpot.Common.{
  ℕ, zero, suc, ◌+◌, ◌≤◌, ◌≡◌, refl, ap, ◌∙◌, Bool, false, List, [], ◌∷◌, ◌++◌, ltb, if◌then◌else◌,
  length, take, All, arith, append-nil, same_units,
}
use hackerpot.Smtp.{
  Session, Mode, Texts, SmtpOptions, Connection, max_lines, max_message, lone_dot, add_line,
  take_data, handle_line, take_line, take_lines,
}

-- No line of the message is the dot that ends it.
abbrev pub IsBody : List (List ℕ) → Type 0
IsBody = All (λ line. same_units line lone_dot ≡ false)

-- The lines of a message, each with its line feed.
abbrev pub body_of : List (List ℕ) → List ℕ
body_of [] = []
body_of (line ∷ lines) = line ++ 10 ∷ body_of lines

abbrev pub bytes_of : List (List ℕ) → ℕ
bytes_of [] = 0
bytes_of (line ∷ lines) = length line + 1 + bytes_of lines

take_idle : (n : ℕ) (a : List ℕ) → length a ≤ n → take n a ≡ a
take_idle zero [] h = refl
take_idle zero (x ∷ a) h = absurd (omega arith)
take_idle (suc n) [] h = refl
take_idle (suc n) (x ∷ a) h = ap (λ (l : List ℕ). x ∷ l) (take_idle n a (omega arith))

module _ (x : Texts) (most : ℕ) (captures : Bool) where
  -- The session once lines of the message are in.
  abbrev pub add_lines : List (List ℕ) → Session → Session
  add_lines [] s = s
  add_lines (line ∷ lines) s = add_lines lines (add_line x most captures line s)

module _ (x : Texts) (o : SmtpOptions) where
  abbrev all_lines : List (List ℕ) → Session → Session
  all_lines = add_lines x max_message o.capture_body

  -- A line of the message changes the session and the count of lines alone.
  pub take_line-body :
      (line : List ℕ) (c : Connection)
      → c.mode ≡ Mode.data_mode
      → c.line_count + 1 ≤ max_lines
      → same_units line lone_dot ≡ false
      → take_line x o line c ≡ record c {
        session = add_line x max_message o.capture_body line c.session;
        mode = Mode.data_mode;
        line_count = c.line_count + 1;
      }
  unfolding take_line handle_line take_data
  take_line-body line c in_message room more =
      let fits : ltb max_lines (c.line_count + 1) ≡ false = ground arith in
      rw (fits, in_message, more, append-nil c.replies, append-nil c.reports) refl

  pub take_lines-live :
      (line : List ℕ) (lines : List (List ℕ)) (c : Connection)
      → c.destroyed ≡ false
      → take_lines x o (line ∷ lines) c ≡ take_lines x o lines (take_line x o line c)
  unfolding take_lines
  take_lines-live line lines c alive =
      ap (λ b. if b then c else take_lines x o lines (take_line x o line c)) alive

  pub take_lines-body :
      (lines after : List (List ℕ)) (c : Connection)
      → c.destroyed ≡ false
      → c.mode ≡ Mode.data_mode
      → c.line_count + length lines ≤ max_lines
      → IsBody lines
      → take_lines x o (lines ++ after) c
        ≡ take_lines x o after (record c {
          session = all_lines lines c.session;
          mode = Mode.data_mode;
          line_count = c.line_count + length lines;
        })
  unfolding take_lines
  take_lines-body [] after c alive in_message room body =
      let none_more : c.line_count ≡ c.line_count + 0 = omega arith in
      ap (λ (d : Connection). take_lines x o after d)
        (ap₂ (λ (m : Mode) (n : ℕ). record c { mode = m; line_count = n }) in_message none_more)
  take_lines-body (line ∷ lines) after c alive in_message room body =
      let next : Connection = record c {
        session = add_line x max_message o.capture_body line c.session;
        mode = Mode.data_mode;
        line_count = c.line_count + 1;
      } in
      let turn = take_line-body line c in_message (omega arith) body.0 in
      let count : c.line_count + 1 + length lines ≡ c.line_count + suc (length lines) =
        omega arith in
      take_lines-live line (lines ++ after) c alive
      ∙ ap (λ (d : Connection). take_lines x o (lines ++ after) d) turn
      ∙ (take_lines-body lines after next alive refl (omega arith) body.1
          ∙ ap
              (λ (n : ℕ). take_lines x o after (record c {
                session = all_lines lines (add_line x max_message o.capture_body line c.session);
                mode = Mode.data_mode;
                line_count = n;
              }))
              count)

  -- The session of the report of a message.
  abbrev pub captured : List (List ℕ) → Connection → Session
  captured lines c = add_lines x max_message o.capture_body lines c.session

-- The text of a message that a report holds, in the two cuts that it goes through.
abbrev pub reported_text : SmtpOptions → List (List ℕ) → List ℕ
reported_text o lines =
    if o.capture_body then take o.max_body_chars (take max_message (body_of lines)) else []
