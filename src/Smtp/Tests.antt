-- ===== src/Smtp/Tests.antt =====
-- A server with a password and a small cap, and what clients send to it.
use tutabridge.Prelude.{
  ℕ, ◌≤◌, ◌≡◌, refl, arith, Bool, true, false, ◌||◌, some, List, [], ◌∷◌, ◌++◌, map, ◌==◌,
}
use tutabridge.Prelude.Text.{Text, codes, same_text, len, split_once, trim_start, trim_end}
use tutabridge.Smtp.Lines.{read_line_capped}
use tutabridge.Smtp.Server.{
  ParsedMessage, Setup, ReadLine, written, opened, handle_connection, with_envelope, receiving,
  plain_password, login_password, third_part,
}
use tutabridge.Smtp.Chunks.{read_line_capped_lem, concat, first_line}
use tutabridge.Smtp.Gate.{offers, handle_connection-IsShut, handle_connection-IsBounded}
use tutabridge.Smtp.Body.{within, stuff, joined, handle_connection-message}

abbrev blank : ℕ → Bool
blank c = c == 32 || (c == 10 || c == 13)

abbrev parsed : Text → ParsedMessage Text
parsed text = record { to = (codes "Bo", codes "bo@x") ∷ []; cc = []; bcc = []; content = text }

abbrev small_server : Setup Text
small_server = record {
  white = blank;
  upper = λ t. t;
  lower = λ t. t;
  decode = λ t. some t;
  from_utf8_lossy = λ bytes. bytes;
  from_utf8 = λ bytes. some bytes;
  parse_rfc2822 = parsed;
  send_mail = λ message. true;
  password_hash = some (codes "pw");
  limits = record { max_message_bytes = 20; max_line_bytes = 64 };
}

abbrev chunks : List (List ℕ)
chunks = codes "EH" ∷ codes "LO\nMA" ∷ []

read_line_capped_example : (read_line_capped 64 chunks).0 ≡ first_line 64 (concat chunks)
read_line_capped_example = read_line_capped_lem 64 chunks

abbrev with_zoe : ParsedMessage Text
with_zoe = with_envelope small_server (parsed (codes "hi")) (codes "bo@x" ∷ codes "zoe@x" ∷ [])

abbrev guesses : List ReadLine
guesses = map written (
    codes "EHLO me\r\n"
    ∷ codes "AUTH PLAIN no\r\n"
    ∷ codes "MAIL FROM:<a@x>\r\n"
    ∷ codes "DATA\r\n"
    ∷ [])

handle_connection-IsShut_example :
    let r = handle_connection small_server guesses (opened (some (codes "pw"))) in
    (r.submitted ≡ []) × (r.connection.authenticated ≡ false)
handle_connection-IsShut_example =
    handle_connection-IsShut small_server (codes "pw") refl guesses (opened (some (codes "pw")))
      (refl, refl)
      (unfold offers plain_password login_password third_part trim_start trim_end split_once
          same_text in
        refl)

handle_connection-IsBounded_example :
    len
      (handle_connection small_server
        (written (codes "far too long for the cap of this server\r\n") ∷ [])
        (within small_server (receiving (codes "a@x") []) [] false true)).connection.data_buf
    ≤ 20
handle_connection-IsBounded_example =
    handle_connection-IsBounded small_server
      (written (codes "far too long for the cap of this server\r\n") ∷ [])
      (within small_server (receiving (codes "a@x") []) [] false true) (unfold len in omega arith)

handle_connection-message_example :
    (handle_connection small_server
      (map (λ l. written (stuff l)) (codes ".hi\r\n" ∷ []) ++ written (codes ".\r\n") ∷ [])
      (within small_server (receiving (codes "a@x") []) [] false true)).submitted
    ≡ with_envelope small_server (parsed (codes ".hi\r\n")) [] ∷ []
unfolding joined len stuff tutabridge.Prelude.Text.starts_with
handle_connection-message_example =
    handle_connection-message small_server refl refl refl (codes "a@x") [] true refl
      (codes ".hi\r\n" ∷ []) refl
