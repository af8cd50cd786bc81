-- ===== src/Examples/Mail.antt =====
-- src/protocols/smtp/honeypot.ts on a short message.
use hackerpot.Common.{ℕ, List, ◌≡◌, refl, [], ◌∷◌, none, true, false, arith}
use hackerpot.Smtp.{
  Texts, SmtpOptions, Report, SmtpFinding, Connection, Mode, new_session, take_lines, reported,
}
use hackerpot.Smtp.Capture.{captured}
use hackerpot.Smtp.Limits.{take_lines-unreported}

abbrev texts : Texts
texts = record {
  words = λ line. [];
  upper = λ w. w;
  join = λ ws. "";
  decode = λ line. "";
  plain_parts = λ token. [];
  from_of = λ arg. none;
  to_of = λ arg. none;
  domain_of = λ address. none;
  subject_of = λ line. none;
}

abbrev options : SmtpOptions
options = record {
  hostname = "mail";
  local_domains = [];
  capture_body = true;
  max_body_chars = 2000;
}

-- A connection in the middle of a message, after some lines.
abbrev writing : ℕ → Connection
writing lines = record {
  session = record new_session { rcpt_to = "a@example.org" ∷ [] };
  mode = Mode.data_mode;
  buffer = [];
  line_count = lines;
  replies = [];
  reports = [];
  ended = false;
  destroyed = false;
}

abbrev message : List (List ℕ)
message = (104 ∷ 105 ∷ []) ∷ [] ∷ []

abbrev spam_report : Report
spam_report = reported options SmtpFinding.spam (captured texts options message (writing 4))

take_lines-unreported_example :
    ((take_lines texts options message (writing 199)).reports ≡ [])
    × ((take_lines texts options message (writing 199)).destroyed ≡ true)
take_lines-unreported_example =
    take_lines-unreported texts options message (writing 199) refl refl (omega arith) (omega arith)
      (refl, (refl, tt))
