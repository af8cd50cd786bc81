-- ===== src/Smtp.antt =====
-- src/protocols/smtp/honeypot.ts: one connection of `SmtpHoneypot`, line by line. The decoded text of a
-- chunk and a line are lists of UTF-16 code units; what the code only copies or compares is a `String`.
-- The pattern matching on texts is the argument `Texts`. Reports are kept in order with the session as
-- it stands when they are made; timers, sockets and the store are left out.
pub mod Capture
pub mod Limits
use Prim.Native.String.{◌++◌ as text_append}
use hackerpot.Common.{
  ℕ, zero, suc, ◌+◌, ◌*◌, String, Bool, true, false, Option, none, some, List, [], ◌∷◌, ◌++◌, ltb,
  ◌==◌, ◌&&◌, ◌||◌, not, if◌then◌else◌, length, take, any, map, or_else, str_eq, same_units,
}

abbrev pub max_line : ℕ
max_line = 4096

abbrev pub max_lines : ℕ
max_lines = 200

abbrev pub max_message : ℕ
max_message = 64 * 1024

pub data SmtpFinding : Type 0 where
  auth_bruteforce open_relay spam user_enumeration : SmtpFinding

unfoldable pub score_of : SmtpFinding → ℕ
score_of SmtpFinding.auth_bruteforce = 8
score_of SmtpFinding.open_relay = 12
score_of SmtpFinding.spam = 10
score_of SmtpFinding.user_enumeration = 6

pub record Session : Type 0 where
  pub helo : Option String
  pub mail_from : Option String
  pub rcpt_to : List String
  pub auth_user : Option String
  pub auth_pass : Option String
  pub message : Option (List ℕ)
  pub message_bytes : Option ℕ
  pub subject : Option String

abbrev pub new_session : Session
new_session = record {
  helo = none;
  mail_from = none;
  rcpt_to = [];
  auth_user = none;
  auth_pass = none;
  message = none;
  message_bytes = none;
  subject = none;
}

pub data Mode : Type 0 where
  commands data_mode auth_user_mode auth_pass_mode : Mode

pub record SmtpOptions : Type 0 where
  pub hostname : String
  pub local_domains : List String
  pub capture_body : Bool
  pub max_body_chars : ℕ

-- What the code takes from texts: the words of a trimmed line, upper case, words joined by a space, the
-- text that base64 writes (of a line and of a token, the latter split at its zero bytes), what follows
-- `from:` and `to:`, the domain of an address, and the subject that a header line gives.
pub record Texts : Type 0 where
  pub words : List ℕ → List String
  pub upper : String → String
  pub join : List String → String
  pub decode : List ℕ → String
  pub plain_parts : String → List String
  pub from_of : String → Option String
  pub to_of : String → Option String
  pub domain_of : String → Option String
  pub subject_of : List ℕ → Option String

pub record Report : Type 0 where
  pub finding : SmtpFinding
  pub score : ℕ
  pub session : Session

-- What a line does: lines written, reports made, the session after it and the next mode, and whether
-- the connection is ended.
pub record Step : Type 0 where
  pub replies : List String
  pub reports : List Report
  pub session : Session
  pub mode : Mode
  pub ended : Bool

abbrev pub say : List String → Session → Mode → Step
say lines s m = record { replies = lines; reports = []; session = s; mode = m; ended = false }

abbrev pub option_map_take : ℕ → Option (List ℕ) → Option (List ℕ)
option_map_take n none = none
option_map_take n (some m) = some (take n m)

-- The session of an incident, its message cut.
abbrev pub reported : SmtpOptions → SmtpFinding → Session → Report
reported o f s = record {
  finding = f;
  score = score_of f;
  session = record s { message = option_map_take o.max_body_chars s.message };
}

abbrev pub say_and_report :
    List String → SmtpOptions → SmtpFinding → Session → Session → Mode → Step
say_and_report lines o f seen s m = record {
  replies = lines;
  reports = reported o f seen ∷ [];
  session = s;
  mode = m;
  ended = false;
}

abbrev pub lone_dot : List ℕ
lone_dot = 46 ∷ []

abbrev pub end_message : Session → Session
end_message s = record s {
  message = none;
  message_bytes = none;
  subject = none;
  mail_from = none;
  rcpt_to = [];
}

-- The message with a line more, up to a ceiling.
abbrev pub keep_line : ℕ → List ℕ → Option (List ℕ) → List ℕ
keep_line most line m = take most (or_else m [] ++ (line ++ 10 ∷ []))

-- The first subject stays.
abbrev pub first_of : Option String → Option String → Option String
first_of none later = later
first_of (some s) later = some s

abbrev pub add_line : Texts → ℕ → Bool → List ℕ → Session → Session
add_line x most captures line s = record s {
  message_bytes = some (or_else s.message_bytes 0 + length line + 1);
  subject = first_of s.subject (x.subject_of line);
  message = (if captures then some (keep_line most line s.message) else s.message);
}

-- A line of the message, while it is captured.
unfoldable pub take_data : Texts → SmtpOptions → List ℕ → Session → Step
take_data x o line s =
    if same_units line lone_dot
    then say_and_report ("250 2.0.0 Ok: queued" ∷ []) o SmtpFinding.spam s (end_message s)
        Mode.commands
    else say [] (add_line x max_message o.capture_body line s) Mode.data_mode

abbrev domain : Texts → Option String → Option String
domain x none = none
domain x (some address) = x.domain_of address

abbrev is_elsewhere : List String → Option String → Bool
is_elsewhere locals none = false
is_elsewhere locals (some d) = not (any (str_eq d) locals)

-- A domain that is not known to be one of ours.
abbrev is_foreign : List String → Option String → Bool
is_foreign locals none = true
is_foreign locals (some d) = not (any (str_eq d) locals)

-- The recipient is elsewhere, and so is the sender as far as is known.
unfoldable pub is_relay : Texts → SmtpOptions → Option String → Option String → Bool
is_relay x o from to =
    is_elsewhere o.local_domains (domain x to) && is_foreign o.local_domains (domain x from)

abbrev push_recipient : Option String → List String → List String
push_recipient none rs = rs
push_recipient (some r) rs = if str_eq r "" then rs else rs ++ r ∷ []

unfoldable pub take_recipient : Texts → SmtpOptions → String → Session → Step
unfolding is_relay
take_recipient x o arg s =
    let to = x.to_of arg in
    let s' : Session = record s { rcpt_to = push_recipient to s.rcpt_to } in
    if is_relay x o s.mail_from to
    then say_and_report ("250 2.1.5 Ok" ∷ []) o SmtpFinding.open_relay s' s' Mode.commands
    else say ("250 2.1.5 Ok" ∷ []) s' Mode.commands

abbrev pub second : List String → Option String
second [] = none
second (a ∷ []) = none
second (a ∷ b ∷ rest) = some b

abbrev third : List String → Option String
third [] = none
third (a ∷ rest) = second rest

abbrev pub first_word : List String → String
first_word [] = ""
first_word (w ∷ ws) = w

abbrev rest_of : List String → List String
rest_of [] = []
rest_of (w ∷ ws) = ws

abbrev refused : String
refused = "535 5.7.8 Error: authentication failed"

-- `AUTH PLAIN` with its token, or without it.
abbrev pub take_token : Texts → SmtpOptions → Option String → Session → Step
take_token x o none s = say ("334 " ∷ []) s Mode.auth_user_mode
take_token x o (some token) s =
    let parts = x.plain_parts token in
    let s' : Session = record s {
      auth_user = some (or_else (second parts) "");
      auth_pass = some (or_else (third parts) "");
    } in
    if str_eq token ""
    then say ("334 " ∷ []) s Mode.auth_user_mode
    else say_and_report (refused ∷ []) o SmtpFinding.auth_bruteforce s' s' Mode.commands

unfoldable pub take_auth : Texts → SmtpOptions → List String → Session → Step
take_auth x o rest s =
    let sub = x.upper (first_word rest) in
    if str_eq sub "PLAIN"
    then take_token x o (second rest) s
    else if str_eq sub "LOGIN"
    then say ("334 VXNlcm5hbWU6" ∷ []) s Mode.auth_user_mode
    else say ("504 5.7.4 Unrecognized authentication type" ∷ []) s Mode.commands

abbrev reset : Session → Session
reset s = record s {
  mail_from = none;
  rcpt_to = [];
  message = none;
  message_bytes = none;
  subject = none;
}

abbrev is_empty : List String → Bool
is_empty [] = true
is_empty (r ∷ rs) = false

abbrev pub start_data : Session → Bool → Step
start_data s true = say ("503 5.5.1 Error: need RCPT command" ∷ []) s Mode.commands
start_data s false = say ("354 End data with <CR><LF>.<CR><LF>" ∷ []) s Mode.data_mode

-- The commands of the switch.
pub data Command : Type 0 where
  helo ehlo auth mail rcpt start_message vrfy expn rset noop starttls quit unknown : Command

unfoldable pub command_of : String → Command
command_of c =
    if str_eq c "HELO"
    then Command.helo
    else if str_eq c "EHLO"
    then Command.ehlo
    else if str_eq c "AUTH"
    then Command.auth
    else if str_eq c "MAIL"
    then Command.mail
    else if str_eq c "RCPT"
    then Command.rcpt
    else if str_eq c "DATA"
    then Command.start_message
    else if str_eq c "VRFY"
    then Command.vrfy
    else if str_eq c "EXPN"
    then Command.expn
    else if str_eq c "RSET"
    then Command.rset
    else if str_eq c "NOOP"
    then Command.noop
    else if str_eq c "STARTTLS"
    then Command.starttls
    else if str_eq c "QUIT"
    then Command.quit
    else Command.unknown

-- The switch; `rest` are the words after the command.
unfoldable pub take_command : Texts → SmtpOptions → Command → List String → Session → Step
unfolding take_auth take_recipient
take_command x o Command.helo rest s =
    say (text_append "250 " o.hostname ∷ []) (record s { helo = some (x.join rest) }) Mode.commands
take_command x o Command.ehlo rest s =
    say
      (text_append "250-" o.hostname
        ∷ "250-AUTH LOGIN PLAIN"
        ∷ "250-SIZE 10485760"
        ∷ "250 8BITMIME"
        ∷ [])
      (record s { helo = some (x.join rest) }) Mode.commands
take_command x o Command.auth rest s = take_auth x o rest s
take_command x o Command.mail rest s =
    say ("250 2.1.0 Ok" ∷ []) (record s { mail_from = x.from_of (x.join rest); rcpt_to = [] })
      Mode.commands
take_command x o Command.rcpt rest s = take_recipient x o (x.join rest) s
take_command x o Command.start_message rest s = start_data s (is_empty s.rcpt_to)
take_command x o Command.vrfy rest s =
    say_and_report ("252 2.0.0 Cannot VRFY user, but will accept message" ∷ []) o
      SmtpFinding.user_enumeration s s Mode.commands
take_command x o Command.expn rest s =
    say_and_report ("252 2.0.0 Cannot expand" ∷ []) o SmtpFinding.user_enumeration s s Mode.commands
take_command x o Command.rset rest s = say ("250 2.0.0 Ok" ∷ []) (reset s) Mode.commands
take_command x o Command.noop rest s = say ("250 2.0.0 Ok" ∷ []) s Mode.commands
take_command x o Command.starttls rest s = say ("454 4.7.0 TLS not available" ∷ []) s Mode.commands
take_command x o Command.quit rest s = record {
  replies = "221 2.0.0 Bye" ∷ [];
  reports = [];
  session = s;
  mode = Mode.commands;
  ended = true;
}
take_command x o Command.unknown rest s =
    say ("500 5.5.2 Error: command not recognized" ∷ []) s Mode.commands

-- `handleLine`.
unfoldable pub handle_line : Texts → SmtpOptions → List ℕ → Mode → Session → Step
unfolding take_data take_command command_of
handle_line x o line Mode.data_mode s = take_data x o line s
handle_line x o line Mode.auth_user_mode s =
    say ("334 UGFzc3dvcmQ6" ∷ []) (record s { auth_user = some (x.decode line) })
      Mode.auth_pass_mode
handle_line x o line Mode.auth_pass_mode s =
    let s' : Session = record s { auth_pass = some (x.decode line) } in
    say_and_report (refused ∷ []) o SmtpFinding.auth_bruteforce s' s' Mode.commands
handle_line x o line Mode.commands s =
    let ws = x.words line in take_command x o (command_of (x.upper (first_word ws))) (rest_of ws) s

pub record Connection : Type 0 where
  pub session : Session
  pub mode : Mode
  pub buffer : List ℕ
  pub line_count : ℕ
  pub replies : List String
  pub reports : List Report
  pub ended : Bool
  pub destroyed : Bool

-- A connection that is accepted, greeted.
unfoldable pub open_connection : String → Connection
open_connection greeting = record {
  session = new_session;
  mode = Mode.commands;
  buffer = [];
  line_count = 0;
  replies = greeting ∷ [];
  reports = [];
  ended = false;
  destroyed = false;
}

abbrev pub apply_step : Step → Connection → Connection
apply_step r c = record {
  session = r.session;
  mode = r.mode;
  buffer = c.buffer;
  line_count = c.line_count + 1;
  replies = c.replies ++ r.replies;
  reports = c.reports ++ r.reports;
  ended = r.ended || c.ended;
  destroyed = c.destroyed;
}

abbrev pub too_many : Connection → Connection
too_many c = record c {
  line_count = c.line_count + 1;
  replies = c.replies ++ "421 Too many commands" ∷ [];
  destroyed = true;
}

-- A turn of the loop over the lines.
unfoldable pub take_line : Texts → SmtpOptions → List ℕ → Connection → Connection
take_line x o line c =
    if ltb max_lines (c.line_count + 1)
    then too_many c
    else apply_step (handle_line x o line c.mode c.session) c

-- The loop over the lines, which returns once the connection is destroyed.
unfoldable pub take_lines : Texts → SmtpOptions → List (List ℕ) → Connection → Connection
unfolding take_line
take_lines x o [] c = c
take_lines x o (line ∷ lines) c =
    if c.destroyed then c else take_lines x o lines (take_line x o line c)

-- `replace(/\r$/, "")`.
abbrev pub drop_return : List ℕ → List ℕ
drop_return [] = []
drop_return (c ∷ []) = if c == 13 then [] else c ∷ []
drop_return (c ∷ d ∷ cs) = c ∷ drop_return (d ∷ cs)

abbrev onto_line : ℕ → List (List ℕ) × List ℕ → List (List ℕ) × List ℕ
onto_line c ([], rest) = ([], c ∷ rest)
onto_line c (line ∷ lines, rest) = ((c ∷ line) ∷ lines, rest)

-- The complete lines of a buffer, and what is left.
unfoldable pub split_lines : List ℕ → List (List ℕ) × List ℕ
split_lines [] = ([], [])
split_lines (c ∷ cs) =
    let (lines, rest) = split_lines cs in
    if c == 10 then ([] ∷ lines, rest) else onto_line c (lines, rest)

abbrev pub run_split : Texts → SmtpOptions → List (List ℕ) × List ℕ → Connection → Connection
run_split x o (lines, rest) c = take_lines x o (map drop_return lines) (record c { buffer = rest })

-- The listener for a chunk, decoded. What is left in the buffer of a connection that is destroyed is
-- never read.
unfoldable pub on_data : Texts → SmtpOptions → List ℕ → Connection → Connection
unfolding take_lines split_lines
on_data x o chunk c =
    let buffer = c.buffer ++ chunk in
    if c.destroyed
    then c
    else if ltb (max_line + max_message) (length buffer)
    then record c { buffer = buffer; destroyed = true }
    else run_split x o (split_lines buffer) c
