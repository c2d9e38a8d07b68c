-- ===== src/Session/Opening.antt =====
-- What opens a session (crates/bridge/src/imap/session.rs, crates/bridge/src/imap/mod.rs).
use tutabridge.Prelude.{
  ℕ, ◌≡◌, String, Bool, true, false, Option, none, some, List, arith, Option-cases, inl, inr,
}
use tutabridge.Prelude.Text.{Text}
use tutabridge.MailStore.{MailStore}
use tutabridge.Mime.Library.{Library}
use tutabridge.Session.Fetch.{cmd_fetch}
use tutabridge.Session.Find.{cmd_search}
use tutabridge.Session.Append.{Append, handle_append}
use tutabridge.Session.State.{ImapSession, Call}
use tutabridge.Session.Commands.{
  decoded_password, check_password, cmd_login, cmd_list, cmd_select, cmd_status, cmd_store,
  handle_auth_response, end_idle,
}
use tutabridge.Session.Removal.{cmd_close, cmd_expunge, cmd_move, check_new_mail}
use tutabridge.Session.Dispatch.{
  Command, capability, noop, logout, namespace, idle, close, expunge, copy, unknown, login,
  authenticate, list, select, status, store, move, fetch, search, uid, World, Event, line, changed,
  handle_command, idle_line, busy_line, on_event,
}
use tutabridge.Session.Guard.{is_open, opens_by_command, opens_by_password, opens, IsShut}

module _ (same_path : String → String → Bool) (accepted : Call → Bool) (utf8 : List ℕ → String)
    (lib : Library) where
  command-is_open :
      (w : World) (mails : MailStore) (tag : String) (c : Command) (s : ImapSession)
      → IsShut s
      → is_open (handle_command same_path accepted utf8 lib w mails tag c s).session.state
        ≡ opens_by_command c s.password_hash
  unfolding handle_command opens_by_command is_open cmd_login cmd_list cmd_select cmd_status
      cmd_store cmd_close cmd_expunge cmd_move cmd_fetch cmd_search
  command-is_open w mails tag capability s h = ground arith
  command-is_open w mails tag noop s h = ground arith
  command-is_open w mails tag logout s h = ground arith
  command-is_open w mails tag namespace s h = ground arith
  command-is_open w mails tag idle s h = ground arith
  command-is_open w mails tag close s h = ground arith
  command-is_open w mails tag expunge s h = ground arith
  command-is_open w mails tag copy s h = ground arith
  command-is_open w mails tag unknown s h = ground arith
  command-is_open w mails tag (login password) s h = ground arith
  command-is_open w mails tag (authenticate true) s h = ground arith
  command-is_open w mails tag (authenticate false) s h = ground arith
  command-is_open w mails tag (list root) s h = ground arith
  command-is_open w mails tag (select name) s h = ground arith
  command-is_open w mails tag (status name) s h = ground arith
  command-is_open w mails tag (store args) s h = ground arith
  command-is_open w mails tag (move set name) s h = ground arith
  command-is_open w mails tag (fetch set items) s h = ground arith
  command-is_open w mails tag (search args) s h = ground arith
  command-is_open w mails tag (uid sub) s h = ground arith

  password-is_open :
      (tag : String) (o : Option (List ℕ)) (s : ImapSession)
      → IsShut s
      → is_open (check_password utf8 tag o s).session.state
        ≡ opens_by_password utf8 o s.password_hash
  unfolding check_password opens_by_password is_open
  password-is_open tag none s h = ground arith
  password-is_open tag (some bytes) s h = ground arith

  append-state :
      (sent_here : Text → Option String) (mails : MailStore) (tag : String) (req : Append)
      (s : ImapSession)
      → (handle_append same_path sent_here lib mails tag req s).session.state ≡ s.state
  unfolding handle_append
  append-state sent_here mails tag req s = ground arith

  -- A session in which nobody has authenticated is open after an event exactly if the event is a
  -- LOGIN with the password, the password as the answer to an AUTHENTICATE, or CLOSE, which asks for
  -- no password, and the session does not idle.
  pub on_event-is_open :
      (mails : MailStore) (event : Event) (s : ImapSession)
      → IsShut s
      → is_open (on_event same_path accepted utf8 lib mails event s).session.state
        ≡ opens utf8 event s
  unfolding on_event busy_line idle_line handle_auth_response end_idle check_new_mail opens is_open
  on_event-is_open mails changed s h = ground arith
  on_event-is_open mails (line r) s h = elim (Option-cases s.idle_tag) [
    | inr (tag, e) ↦ rw (e, on_event) (ground arith)
    | inl e ↦ elim (Option-cases s.auth_tag) [
      | inl n ↦ elim (Option-cases r.append) [
        | inl q ↦
            rw (e, on_event, n, busy_line, q)
              (ground (arith, command-is_open r.world mails r.tag r.command s h))
        | inr (req, q) ↦
            rw (e, on_event, n, busy_line, q)
              (ground (arith, append-state r.world.sent_here mails r.tag req s))
      ]
      | inr (tag, n) ↦
          rw (e, on_event, n, busy_line)
            (ground (
              arith,
              password-is_open tag (decoded_password r.base64) (record s { auth_tag = none }) h,
            ))
    ]
  ]
