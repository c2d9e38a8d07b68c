-- ===== src/Smtp/Server.antt =====
-- The loop of `handle_connection` (crates/bridge/src/smtp/mod.rs), one round for each line that is
-- read. A line comes with the number of its bytes, which the reader caps: they are those of its text,
-- unless some were not UTF-8 and are replaced in it. The parser of messages is an argument, and so is what the backend says to a message.
use tutabridge.Prelude.{
  ℕ, ◌+◌, Bool, true, false, not, ◌&&◌, ◌||◌, Option, none, some, List, [], ◌∷◌, ◌++◌, ltb,
  if◌then◌else◌, any, ◌==◌,
}
use tutabridge.Prelude.Text.{Text, codes, same_text, len, starts_with, split_once, trim, trim_end}
use tutabridge.Smtp.Words.{
  Verb, hello, auth, mail, rcpt, begin_data, rset, quit, noop, other, command, size_param_exceeds,
  extract_address, part_one, part_two,
}

pub record SmtpLimits : Type 0 where
  pub max_message_bytes : ℕ
  pub max_line_bytes : ℕ

abbrev default_limits : SmtpLimits
default_limits = record { max_message_bytes = 26214400; max_line_bytes = 1048576 }

pub data SmtpState : Type 0 where
  init greeted quitting : SmtpState
  mail_from : Text → SmtpState
  rcpt_to receiving : Text → List Text → SmtpState

pub data AuthStep : Type 0 where
  no_step wait_plain_data wait_login_user wait_login_pass : AuthStep

-- A line of the answer, by what it says.
pub data Reply : Type 0 where
  ehlo_ok ok message_sent : Reply
  authentication_successful authentication_failed : Reply
  ask_plain ask_user ask_password unrecognized_auth : Reply
  size_exceeded start_input bad_sequence : Reply
  authentication_required temporary_failure not_implemented goodbye line_too_long : Reply

pub record ReadLine : Type 0 where
  pub bytes : ℕ
  pub text : Text

-- A line of a client that writes UTF-8.
abbrev pub written : Text → ReadLine
written line = record { bytes = len line; text = line }

-- A parsed message: names and addresses, and the rest of it.
pub record ParsedMessage (B : Type 0) : Type 0 where
  pub to : List (Text × Text)
  pub cc : List (Text × Text)
  pub bcc : List (Text × Text)
  pub content : B

-- What a connection is given: Unicode's table of white space and its changes of case, base64, the two
-- readings of bytes as text, the parser, the backend's answer, and the two settings.
pub record Setup (B : Type 0) : Type 0 where
  pub white : ℕ → Bool
  pub upper : Text → Text
  pub lower : Text → Text
  pub decode : Text → Option (List ℕ)
  pub from_utf8_lossy : List ℕ → Text
  pub from_utf8 : List ℕ → Option Text
  pub parse_rfc2822 : Text → ParsedMessage B
  pub send_mail : ParsedMessage B → Bool
  pub password_hash : Option Text
  pub limits : SmtpLimits

pub record Connection : Type 0 where
  pub state : SmtpState
  pub data_buf : Text
  pub in_data : Bool
  pub data_too_large : Bool
  pub auth_step : AuthStep
  pub authenticated : Bool

abbrev is_none : Option Text → Bool
is_none none = true
is_none (some t) = false

abbrev pub opened : Option Text → Connection
opened password_hash = record {
  state = init;
  data_buf = [];
  in_data = false;
  data_too_large = false;
  auth_step = no_step;
  authenticated = is_none password_hash;
}

-- The connection behind a line, the reply, and what was given to the backend.
pub record Round (B : Type 0) : Type 0 where
  pub connection : Connection
  pub replies : List Reply
  pub submitted : List (ParsedMessage B)

abbrev bytes_or_none : Option (List ℕ) → List ℕ
bytes_or_none none = []
bytes_or_none (some bytes) = bytes

after_zero : List ℕ → Option (List ℕ)
after_zero [] = none
after_zero (b ∷ bs) = let rest = after_zero bs in if b == 0 then some bs else rest

-- The last of three parts; without three of them there is none.
unfoldable pub third_part : List ℕ → Option (List ℕ)
unfolding after_zero
third_part bytes = elim (after_zero bytes) [ none ↦ none | some rest ↦ after_zero rest ]

abbrev is_success : Reply → Bool
is_success authentication_successful = true
is_success _ = false

unfoldable pub verify_smtp_password : Text → Option Text → Reply
verify_smtp_password password none = authentication_successful
verify_smtp_password password (some expected) =
    if same_text password expected then authentication_successful else authentication_failed

abbrev without_first : Text → Text
without_first [] = []
without_first (c ∷ s) = s

abbrev pub unstuff : Text → Text
unstuff line = if starts_with line (codes "..") then without_first line else line

abbrev pub envelope : SmtpState → List Text
envelope (receiving from to) = to
envelope _ = []

module _ {B : Type 0} (setup : Setup B) where
  abbrev reply : Connection → Reply → Round B
  reply c r = record { connection = c; replies = r ∷ []; submitted = [] }

  abbrev silent : Connection → Round B
  silent c = record { connection = c; replies = []; submitted = [] }

  abbrev text_or_empty : Option (List ℕ) → Text
  text_or_empty none = []
  text_or_empty (some bytes) = setup.from_utf8_lossy bytes

  unfoldable pub plain_password : Text → Text
  unfolding third_part
  plain_password line =
      text_or_empty (third_part (bytes_or_none (setup.decode (trim setup.white line))))

  abbrev strict_text : Option (List ℕ) → Text
  strict_text none = []
  strict_text (some bytes) = elim (setup.from_utf8 bytes) [ none ↦ [] | some t ↦ t ]

  unfoldable pub login_password : Text → Text
  login_password line = strict_text (setup.decode (trim setup.white line))

  -- What a password leads to.
  unfoldable pub check : Text → Connection → Round B
  unfolding verify_smtp_password
  check password c =
      let r = verify_smtp_password password setup.password_hash in
      reply (record c { authenticated = c.authenticated || is_success r }) r

  -- A line within an AUTH exchange.
  unfoldable pub auth_line : AuthStep → Text → Connection → Round B
  unfolding check plain_password login_password
  auth_line no_step trimmed c = silent c
  auth_line wait_plain_data trimmed c =
      check (plain_password trimmed) (record c { auth_step = no_step })
  auth_line wait_login_user trimmed c =
      reply (record c { auth_step = wait_login_pass }) ask_password
  auth_line wait_login_pass trimmed c =
      check (login_password trimmed) (record c { auth_step = no_step })

  abbrev pub names : Text → Text × Text → Bool
  names r a = same_text (setup.lower a.1) (setup.lower r)

  -- Whether a header names a recipient; `header_addrs` is taken before the loop.
  unfoldable pub is_named : ParsedMessage B → Text → Bool
  is_named parsed r = any (names r) (parsed.to ++ (parsed.cc ++ parsed.bcc))

  unfoldable pub hidden : ParsedMessage B → List Text → List (Text × Text)
  unfolding is_named
  hidden parsed [] = []
  hidden parsed (r ∷ rs) =
      let rest = hidden parsed rs in if is_named parsed r then rest else ([], r) ∷ rest

  unfoldable pub with_envelope : ParsedMessage B → List Text → ParsedMessage B
  unfolding hidden
  with_envelope parsed rcpts = record parsed { bcc = parsed.bcc ++ hidden parsed rcpts }

  abbrev after_message : Connection → Connection
  after_message c = record c { in_data = false; state = greeted; data_buf = [] }

  -- The terminator.
  unfoldable pub end_of_data : Connection → Round B
  unfolding with_envelope
  end_of_data c =
      let message = with_envelope (setup.parse_rfc2822 c.data_buf) (envelope c.state) in
      if c.data_too_large
      then reply (record (after_message c) { data_too_large = false }) size_exceeded
      else record {
        connection = after_message c;
        replies = (if setup.send_mail message then message_sent else temporary_failure) ∷ [];
        submitted = message ∷ [];
      }

  unfoldable pub data_line : Text → Connection → Connection
  data_line line c =
      if c.data_too_large
      then c
      else if ltb setup.limits.max_message_bytes (len c.data_buf + len (unstuff line))
      then record c { data_too_large = true; data_buf = [] }
      else record c { data_buf = c.data_buf ++ unstuff line }

  unfoldable pub on_data : Text → Text → Connection → Round B
  unfolding end_of_data data_line
  on_data line trimmed c =
      if same_text trimmed (codes ".") then end_of_data c else silent (data_line line c)

  unfoldable pub auth_plain : Option Text → Connection → Round B
  unfolding check plain_password
  auth_plain none c = reply (record c { auth_step = wait_plain_data }) ask_plain
  auth_plain (some blob) c = check (plain_password blob) c

  unfoldable pub cmd_auth : Text → Connection → Round B
  unfolding auth_plain
  cmd_auth trimmed c =
      let parts = split_once b' ' trimmed in
      let auth_type = setup.upper (part_one parts) in
      if same_text auth_type (codes "PLAIN")
      then auth_plain (part_two parts) c
      else if same_text auth_type (codes "LOGIN")
      then reply (record c { auth_step = wait_login_user }) ask_user
      else reply c unrecognized_auth

  unfoldable pub cmd_mail : Text → Connection → Round B
  cmd_mail trimmed c =
      if size_param_exceeds setup.white trimmed setup.limits.max_message_bytes
      then reply c size_exceeded
      else reply (record c { state = mail_from (extract_address setup.white trimmed) }) ok

  unfoldable pub cmd_rcpt : SmtpState → Text → Connection → Round B
  cmd_rcpt (mail_from from) to c = reply (record c { state = rcpt_to from (to ∷ []) }) ok
  cmd_rcpt (rcpt_to from tos) to c = reply (record c { state = rcpt_to from (tos ++ to ∷ []) }) ok
  cmd_rcpt init to c = reply c bad_sequence
  cmd_rcpt greeted to c = reply c bad_sequence
  cmd_rcpt quitting to c = reply c bad_sequence
  cmd_rcpt (receiving from tos) to c = reply c bad_sequence

  unfoldable pub cmd_data : SmtpState → Connection → Round B
  cmd_data (rcpt_to from tos) c =
      reply (record c { state = receiving from tos; in_data = true }) start_input
  cmd_data init c = reply c bad_sequence
  cmd_data greeted c = reply c bad_sequence
  cmd_data quitting c = reply c bad_sequence
  cmd_data (mail_from from) c = reply c bad_sequence
  cmd_data (receiving from tos) c = reply c bad_sequence

  abbrev needs_auth : Verb → Bool
  needs_auth mail = true
  needs_auth rcpt = true
  needs_auth begin_data = true
  needs_auth _ = false

  unfoldable pub dispatch : Verb → Text → Connection → Round B
  unfolding cmd_auth cmd_mail cmd_rcpt cmd_data
  dispatch hello trimmed c = reply (record c { state = greeted }) ehlo_ok
  dispatch auth trimmed c = cmd_auth trimmed c
  dispatch mail trimmed c = cmd_mail trimmed c
  dispatch rcpt trimmed c = cmd_rcpt c.state (extract_address setup.white trimmed) c
  dispatch begin_data trimmed c = cmd_data c.state c
  dispatch rset trimmed c = reply (record c { state = greeted }) ok
  dispatch quit trimmed c = reply (record c { state = quitting }) goodbye
  dispatch noop trimmed c = reply c ok
  dispatch other trimmed c = reply c not_implemented

  unfoldable pub on_command : Verb → Text → Connection → Round B
  unfolding dispatch
  on_command verb trimmed c =
      if not c.authenticated && needs_auth verb
      then reply c authentication_required
      else dispatch verb trimmed c

  abbrev is_busy : AuthStep → Bool
  is_busy no_step = false
  is_busy _ = true

  -- One line.
  unfoldable pub on_line : Text → Connection → Round B
  unfolding auth_line on_data on_command
  on_line line c =
      let trimmed = trim_end setup.white line in
      if is_busy c.auth_step
      then auth_line c.auth_step trimmed c
      else if c.in_data
      then on_data line trimmed c
      else on_command (command setup.white setup.upper trimmed) trimmed c

  abbrev pub is_quitting : SmtpState → Bool
  is_quitting quitting = true
  is_quitting _ = false

  -- The connection ends with QUIT, with a line over the cap, or with the lines.
  unfoldable pub handle_connection : List ReadLine → Connection → Round B
  unfolding on_line
  handle_connection [] c = silent c
  handle_connection (line ∷ lines) c =
      let now = on_line line.text c in
      let later = handle_connection lines now.connection in
      if ltb setup.limits.max_line_bytes line.bytes
      then reply c line_too_long
      else if is_quitting now.connection.state
      then now
      else record {
        connection = later.connection;
        replies = now.replies ++ later.replies;
        submitted = now.submitted ++ later.submitted;
      }
