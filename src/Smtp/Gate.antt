-- ===== src/Smtp/Gate.antt =====
-- What a client reaches without the password, and how much it can make the server keep
-- (crates/bridge/src/smtp/mod.rs).
use tutabridge.Prelude.{
  ◌≤◌, ◌≡◌, refl, Bool, true, false, not, ◌||◌, Option, none, some, List, [], ◌∷◌, arith, all,
}
use tutabridge.Prelude.Text.{Text, same_text, split_once, trim_end, len, len-append}
use tutabridge.Smtp.Words.{
  Verb, hello, auth, mail, rcpt, begin_data, rset, quit, noop, other, command, part_two,
  extract_address,
}
use tutabridge.Smtp.Server.{
  Setup, unstuff, Connection, Round, SmtpState, init, greeted, quitting, mail_from, rcpt_to,
  receiving, AuthStep, no_step, wait_plain_data, wait_login_user, wait_login_pass,
  verify_smtp_password, plain_password, login_password, check, auth_line, auth_plain, cmd_auth,
  cmd_mail, cmd_rcpt, cmd_data, dispatch, on_command, on_line, on_data, data_line, end_of_data,
  handle_connection, ReadLine,
}

abbrev is_it : Text → Option Text → Bool
is_it expected none = false
is_it expected (some password) = same_text password expected

module _ {B : Type 0} (setup : Setup B) where
  abbrev blob_password : Option Text → Option Text
  blob_password none = none
  blob_password (some blob) = some (plain_password setup blob)

  -- A line that shows the password in one of the three places where the server looks for it.
  unfoldable pub offers : Text → Text → Bool
  offers expected line =
      let trimmed = trim_end setup.white line in
      same_text (plain_password setup trimmed) expected
      || same_text (login_password setup trimmed) expected
      || is_it expected (blob_password (part_two (split_once b' ' trimmed)))

  abbrev IsShut : Connection → Type 0
  IsShut c = (c.authenticated ≡ false) × (c.in_data ≡ false)

  abbrev StaysShut : Round B → Type 0
  StaysShut r = IsShut r.connection × (r.submitted ≡ [])

  module _ (expected : Text) (guarded : setup.password_hash ≡ some expected) where
    check-StaysShut :
        (password : Text) (c : Connection)
        → IsShut c
        → same_text password expected ≡ false
        → StaysShut (check setup password c)
    unfolding check verify_smtp_password
    check-StaysShut password c h o = rw guarded (ground arith)

    auth_line-StaysShut :
        (step : AuthStep) (trimmed : Text) (c : Connection)
        → IsShut c
        → same_text (plain_password setup trimmed) expected ≡ false
        → same_text (login_password setup trimmed) expected ≡ false
        → StaysShut (auth_line setup step trimmed c)
    unfolding auth_line
    auth_line-StaysShut no_step trimmed c h p q = ground arith
    auth_line-StaysShut wait_plain_data trimmed c h p q =
        check-StaysShut (plain_password setup trimmed) (record c { auth_step = no_step }) h p
    auth_line-StaysShut wait_login_user trimmed c h p q = ground arith
    auth_line-StaysShut wait_login_pass trimmed c h p q =
        check-StaysShut (login_password setup trimmed) (record c { auth_step = no_step }) h q

    auth_plain-StaysShut :
        (o : Option Text) (c : Connection)
        → IsShut c
        → is_it expected (blob_password o) ≡ false
        → StaysShut (auth_plain setup o c)
    unfolding auth_plain
    auth_plain-StaysShut none c h p = ground arith
    auth_plain-StaysShut (some blob) c h p = check-StaysShut (plain_password setup blob) c h p

    command-StaysShut :
        (verb : Verb) (trimmed : Text) (c : Connection)
        → IsShut c
        → is_it expected (blob_password (part_two (split_once b' ' trimmed))) ≡ false
        → StaysShut (on_command setup verb trimmed c)
    unfolding on_command dispatch cmd_auth
    command-StaysShut auth trimmed c h p =
        ground (arith, auth_plain-StaysShut (part_two (split_once b' ' trimmed)) c h p)
    command-StaysShut hello trimmed c h p = ground arith
    command-StaysShut mail trimmed c h p = ground arith
    command-StaysShut rcpt trimmed c h p = ground arith
    command-StaysShut begin_data trimmed c h p = ground arith
    command-StaysShut rset trimmed c h p = ground arith
    command-StaysShut quit trimmed c h p = ground arith
    command-StaysShut noop trimmed c h p = ground arith
    command-StaysShut other trimmed c h p = ground arith

    line-StaysShut :
        (line : Text) (c : Connection)
        → IsShut c
        → offers expected line ≡ false
        → StaysShut (on_line setup line c)
    unfolding on_line offers
    line-StaysShut line c h o =
        let trimmed = trim_end setup.white line in
        ground (
          arith,
          auth_line-StaysShut c.auth_step trimmed c,
          command-StaysShut (command setup.white setup.upper trimmed) trimmed c,
        )

    -- On a server with a password, a client none of whose lines shows it gets nothing sent, and is
    -- never authenticated, whatever the lines are and in whatever order.
    pub handle_connection-IsShut :
        (lines : List ReadLine) (c : Connection)
        → IsShut c
        → all (λ l. not (offers expected l.text)) lines ≡ true
        → let r = handle_connection setup lines c in
          (r.submitted ≡ []) × (r.connection.authenticated ≡ false)
    unfolding handle_connection
    handle_connection-IsShut [] c h o = ground arith
    handle_connection-IsShut (line ∷ lines) c h o =
        let now = on_line setup line.text c in
        ground (arith, line-StaysShut line.text c h, handle_connection-IsShut lines now.connection)

  abbrev IsBounded : Connection → Type 0
  IsBounded c = len c.data_buf ≤ setup.limits.max_message_bytes

  check-data_buf :
      (password : Text) (c : Connection) → (check setup password c).connection.data_buf ≡ c.data_buf
  unfolding check
  check-data_buf password c = refl

  auth_line-IsBounded :
      (step : AuthStep) (trimmed : Text) (c : Connection)
      → IsBounded c
      → IsBounded (auth_line setup step trimmed c).connection
  unfolding auth_line check
  auth_line-IsBounded no_step trimmed c h = h
  auth_line-IsBounded wait_plain_data trimmed c h = h
  auth_line-IsBounded wait_login_user trimmed c h = h
  auth_line-IsBounded wait_login_pass trimmed c h = h

  auth_plain-IsBounded :
      (o : Option Text) (c : Connection) → IsBounded c → IsBounded (auth_plain setup o c).connection
  unfolding auth_plain check
  auth_plain-IsBounded none c h = h
  auth_plain-IsBounded (some blob) c h = h

  data_line-IsBounded :
      (line : Text) (c : Connection) → IsBounded c → IsBounded (data_line setup line c)
  unfolding data_line len
  data_line-IsBounded line c h = ground (arith, len-append c.data_buf (unstuff line))

  end_of_data-IsBounded : (c : Connection) → IsBounded (end_of_data setup c).connection
  unfolding end_of_data len
  end_of_data-IsBounded c = ground arith

  cmd_rcpt-IsBounded :
      (s : SmtpState) (to : Text) (c : Connection)
      → IsBounded c
      → IsBounded (cmd_rcpt setup s to c).connection
  unfolding cmd_rcpt
  cmd_rcpt-IsBounded init to c h = h
  cmd_rcpt-IsBounded greeted to c h = h
  cmd_rcpt-IsBounded quitting to c h = h
  cmd_rcpt-IsBounded (mail_from from) to c h = h
  cmd_rcpt-IsBounded (rcpt_to from tos) to c h = h
  cmd_rcpt-IsBounded (receiving from tos) to c h = h

  cmd_data-IsBounded :
      (s : SmtpState) (c : Connection) → IsBounded c → IsBounded (cmd_data setup s c).connection
  unfolding cmd_data
  cmd_data-IsBounded init c h = h
  cmd_data-IsBounded greeted c h = h
  cmd_data-IsBounded quitting c h = h
  cmd_data-IsBounded (mail_from from) c h = h
  cmd_data-IsBounded (rcpt_to from tos) c h = h
  cmd_data-IsBounded (receiving from tos) c h = h

  command-IsBounded :
      (verb : Verb) (trimmed : Text) (c : Connection)
      → IsBounded c
      → IsBounded (on_command setup verb trimmed c).connection
  unfolding on_command dispatch cmd_auth cmd_mail
  command-IsBounded auth trimmed c h =
      ground (arith, auth_plain-IsBounded (part_two (split_once b' ' trimmed)) c h)
  command-IsBounded hello trimmed c h = ground arith
  command-IsBounded mail trimmed c h = ground arith
  command-IsBounded rcpt trimmed c h =
      ground (arith, cmd_rcpt-IsBounded c.state (extract_address setup.white trimmed) c h)
  command-IsBounded begin_data trimmed c h = ground (arith, cmd_data-IsBounded c.state c h)
  command-IsBounded rset trimmed c h = ground arith
  command-IsBounded quit trimmed c h = ground arith
  command-IsBounded noop trimmed c h = ground arith
  command-IsBounded other trimmed c h = ground arith

  line-IsBounded :
      (line : Text) (c : Connection) → IsBounded c → IsBounded (on_line setup line c).connection
  unfolding on_line on_data
  line-IsBounded line c h =
      let trimmed = trim_end setup.white line in
      ground (
        arith,
        auth_line-IsBounded c.auth_step trimmed c h,
        data_line-IsBounded line c h,
        end_of_data-IsBounded c,
        command-IsBounded (command setup.white setup.upper trimmed) trimmed c h,
      )

  -- A connection that holds no more of a message than the cap never comes to hold more, whatever
  -- lines arrive: behind them the bytes held are at most the cap.
  pub handle_connection-IsBounded :
      (lines : List ReadLine) (c : Connection)
      → len c.data_buf ≤ setup.limits.max_message_bytes
      → len (handle_connection setup lines c).connection.data_buf ≤ setup.limits.max_message_bytes
  unfolding handle_connection
  handle_connection-IsBounded [] c h = h
  handle_connection-IsBounded (line ∷ lines) c h =
      let now = on_line setup line.text c in
      ground (arith, line-IsBounded line.text c h, handle_connection-IsBounded lines now.connection)
