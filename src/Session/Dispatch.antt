-- ===== src/Session/Dispatch.antt =====
-- The commands, and the lines and news that reach a session (`handle_command` of
-- crates/bridge/src/imap/session.rs, the loop of `run_connection_loop` in crates/bridge/src/imap/mod.rs). A received
-- line is taken with its readings: the command that its words spell, the APPEND that they are, the
-- bytes that its text encodes in base64, and whether it is DONE; and with what the caches, the index
-- and the server would answer while it is handled.
use tutabridge.Prelude.{
  ℕ, String, Bool, true, false, Option, none, some, List, [], ◌∷◌, ◌++◌, ◌||◌, if◌then◌else◌,
}
use tutabridge.Prelude.Text.{Text}
use tutabridge.MailStore.{MailStore}
use tutabridge.Mime.Library.{Library}
use tutabridge.Session.State.{
  logout as logged_out, ImapSession, ok, no, bad, capabilities, namespaces, bye, continue_auth,
  continue_idle, continue_literal, found, Line, Call, Reply, answer,
}
use tutabridge.Session.Fetch.{Outside, cmd_fetch}
use tutabridge.Session.Find.{Surroundings, cmd_search}
use tutabridge.Session.Append.{Append, handle_append}
use tutabridge.Session.Sets.{Part}
use tutabridge.Session.Commands.{
  StoreArgs, is_selected, is_logout, cmd_login, handle_auth_response, end_idle, cmd_list,
  cmd_select, cmd_status, cmd_store,
}
use tutabridge.Session.Removal.{cmd_close, cmd_expunge, cmd_move, check_new_mail}

pub data Command : Type 0 where
  capability noop logout namespace idle close expunge copy unknown : Command
  login : String → Command
  authenticate list : Bool → Command
  select status : String → Command
  store : StoreArgs → Command
  move : List Part → String → Command
  fetch : List Part → Text → Command
  search : Text → Command
  uid : Command → Command

pub record World : Type 0 where
  pub outside : Outside
  pub searching : Surroundings
  pub sent_here : Text → Option String

pub record Received : Type 0 where
  pub tag : String
  pub command : Command
  pub base64 : Option (List ℕ)
  pub is_done : Bool
  pub append : Option Append
  pub world : World

pub data Event : Type 0 where
  line : Received → Event
  changed : Event

-- The answer to SEARCH; without a selected mailbox there are no numbers.
abbrev search_reply : String → ImapSession → Option (List ℕ) → Reply
search_reply tag s none = answer s (no tag ∷ [])
search_reply tag s (some numbers) = answer s (found numbers ∷ ok tag ∷ [])

-- Behind the request for a literal that does not come the connection ends with an error.
abbrev pub is_cut : List Line → Bool
is_cut (continue_literal ∷ []) = true
is_cut _ = false

-- What the session is given: how mailboxes are named, what the server accepts, the reading of bytes as
-- a text, and the libraries that messages are read and written with.
module _ (same_path : String → String → Bool) (accepted : Call → Bool) (utf8 : List ℕ → String)
    (lib : Library) where
  unfoldable cmd_uid : World → String → Command → ImapSession → MailStore → Reply
  unfolding cmd_store cmd_move cmd_fetch cmd_search
  cmd_uid w tag (store args) s mails = cmd_store tag args true s
  cmd_uid w tag (move set name) s mails = cmd_move same_path mails accepted tag set name true s
  cmd_uid w tag (fetch set items) s mails = cmd_fetch lib w.outside tag set items true s
  cmd_uid w tag (search args) s mails = search_reply tag s (cmd_search w.searching args true s)
  cmd_uid w tag copy s mails = answer s (no tag ∷ [])
  cmd_uid w tag _ s mails = answer s (bad tag ∷ [])

  unfoldable pub handle_command : World → MailStore → String → Command → ImapSession → Reply
  unfolding cmd_login cmd_list cmd_select cmd_status cmd_store cmd_close cmd_expunge cmd_move
      cmd_uid cmd_fetch cmd_search
  handle_command w mails tag capability s = answer s (capabilities ∷ ok tag ∷ [])
  handle_command w mails tag noop s = answer s (ok tag ∷ [])
  handle_command w mails tag logout s = answer (record s { state = logged_out }) (bye ∷ ok tag ∷ [])
  handle_command w mails tag (login password) s = cmd_login tag password s
  handle_command w mails tag (authenticate true) s =
      answer (record s { auth_tag = some tag }) (continue_auth ∷ [])
  handle_command w mails tag (authenticate false) s = answer s (no tag ∷ [])
  handle_command w mails tag (list root) s = cmd_list mails tag root s
  handle_command w mails tag (select name) s = cmd_select same_path mails tag name s
  handle_command w mails tag (status name) s = cmd_status same_path mails tag name s
  handle_command w mails tag (uid sub) s =
      if is_selected s.state then cmd_uid w tag sub s mails else answer s (no tag ∷ [])
  handle_command w mails tag (fetch set items) s = cmd_fetch lib w.outside tag set items false s
  handle_command w mails tag (search args) s =
      search_reply tag s (cmd_search w.searching args false s)
  handle_command w mails tag close s = cmd_close tag s
  handle_command w mails tag expunge s = cmd_expunge accepted tag s
  handle_command w mails tag (store args) s = cmd_store tag args false s
  handle_command w mails tag (move set name) s =
      cmd_move same_path mails accepted tag set name false s
  handle_command w mails tag copy s = answer s (no tag ∷ [])
  handle_command w mails tag idle s = answer (record s { idle_tag = some tag }) (continue_idle ∷ [])
  handle_command w mails tag namespace s = answer s (namespaces ∷ ok tag ∷ [])
  handle_command w mails tag unknown s = answer s (bad tag ∷ [])

  -- A line that arrives while the session idles.
  unfoldable pub idle_line : Received → ImapSession → Reply
  unfolding end_idle
  idle_line r s = if r.is_done then end_idle s else answer s []

  unfoldable pub busy_line : MailStore → Received → ImapSession → Reply
  unfolding handle_command handle_auth_response handle_append
  busy_line mails r s = elim s.auth_tag [
    | none ↦ elim r.append [
      | none ↦ handle_command r.world mails r.tag r.command s
      | some req ↦ handle_append same_path r.world.sent_here lib mails r.tag req s
    ]
    | some tag ↦ handle_auth_response utf8 r.base64 s
  ]

  -- One round of the loop: the next line, or the news that the store changed, which only an idle
  -- session waits for.
  unfoldable pub on_event : MailStore → Event → ImapSession → Reply
  unfolding idle_line busy_line check_new_mail
  on_event mails (line r) s = elim s.idle_tag [
    | none ↦ busy_line mails r s
    | some tag ↦ idle_line r s
  ]
  on_event mails changed s = elim s.idle_tag [
    | none ↦ answer s []
    | some tag ↦ check_new_mail mails s
  ]

  -- The connection ends with LOGOUT, or where a literal does not come. Each event comes with the store as it is then.
  unfoldable pub run_connection_loop : List (MailStore × Event) → ImapSession → Reply
  unfolding on_event
  run_connection_loop [] s = answer s []
  run_connection_loop ((mails, event) ∷ events) s =
      let now = on_event mails event s in
      let later = run_connection_loop events now.session in
      if is_logout now.session.state || is_cut now.lines then now else record {
        session = later.session;
        lines = now.lines ++ later.lines;
        calls = now.calls ++ later.calls;
      }
