-- ===== src/Session/Gate.antt =====
-- What a client reaches before it authenticates (crates/bridge/src/imap/session.rs,
-- crates/bridge/src/imap/mod.rs).
use tutabridge.Prelude.{
  ℕ, ◌≡◌, refl, ◌∙◌, sym, subst, String, Bool, true, false, not, ◌&&◌, ◌||◌, Option, none, some,
  List, [], ◌∷◌, ◌++◌, arith, all, any, Option-cases, Bool-cases, inl, inr,
}
use tutabridge.Prelude.Text.{Text}
use tutabridge.MailStore.{MailStore}
use tutabridge.Mime.Library.{Library}
use tutabridge.Session.Fetch.{cmd_fetch}
use tutabridge.Session.Find.{cmd_search}
use tutabridge.Session.Append.{Append, handle_append}
use tutabridge.Session.State.{
  State, not_authenticated, authenticated, selected, logout as logged_out, ImapSession, Call,
}
use tutabridge.Session.Commands.{
  is_logout, decoded_password, check_password, cmd_login, cmd_list, cmd_select, cmd_status,
  cmd_store, handle_auth_response, end_idle,
}
use tutabridge.Session.Removal.{cmd_close, cmd_expunge, cmd_move, check_new_mail}
use tutabridge.Session.Dispatch.{
  Command, capability, noop, logout, namespace, idle, close, expunge, copy, unknown, login,
  authenticate, list, select, status, store, move, fetch, search, uid, World, is_cut, Event, line,
  changed, handle_command, idle_line, busy_line, on_event, run_connection_loop,
}
use tutabridge.Session.Guard.{
  is_public, is_append_line, is_append_call, is_append, may_say, may_ask, is_open, opens_by_command,
  opens_by_password, opens, offers, opens_of_offers, IsShut, TellsNothing, StaysShut,
}

module _ (same_path : String → String → Bool) (accepted : Call → Bool) (utf8 : List ℕ → String)
    (lib : Library) where
  still_new : (x : State) → is_open x ≡ false → is_logout x ≡ false → x ≡ not_authenticated
  unfolding is_open
  still_new not_authenticated p q = refl
  still_new authenticated p q = ground arith
  still_new selected p q = ground arith
  still_new logged_out p q = ground arith

  all-append :
      {A : Type 0} (p : A → Bool) (xs ys : List A) → all p (xs ++ ys) ≡ (all p xs && all p ys)
  all-append p [] ys = refl
  all-append p (x ∷ xs) ys = ground (arith, all-append p xs ys)

  negated : (b : Bool) → not b ≡ true → b ≡ false
  negated b h = ground (arith, h)

  and_left : (a b : Bool) → (a && b) ≡ true → a ≡ true
  and_left a b h = ground (arith, h)

  and_right : (a b : Bool) → (a && b) ≡ true → b ≡ true
  and_right a b h = ground (arith, h)

  or_left : (a b : Bool) → (a || b) ≡ false → a ≡ false
  or_left a b h = ground (arith, h)

  or_right : (a b : Bool) → (a || b) ≡ false → b ≡ false
  or_right a b h = ground (arith, h)

  both : (a b : Bool) → a ≡ true → b ≡ true → (a && b) ≡ true
  both a b h k = ground (arith, h, k)

  module _ (appends : Bool) where
    command-StaysShut :
        (w : World) (mails : MailStore) (tag : String) (c : Command) (s : ImapSession)
        → IsShut s
        → opens_by_command c s.password_hash ≡ false
        → StaysShut appends s.password_hash
            (handle_command same_path accepted utf8 lib w mails tag c s)
    unfolding handle_command opens_by_command is_public is_open cmd_login cmd_list cmd_select
        cmd_status cmd_store cmd_close cmd_expunge cmd_move cmd_fetch cmd_search
    command-StaysShut w mails tag capability s h o = ground arith
    command-StaysShut w mails tag noop s h o = ground arith
    command-StaysShut w mails tag logout s h o = ground arith
    command-StaysShut w mails tag namespace s h o = ground arith
    command-StaysShut w mails tag idle s h o = ground arith
    command-StaysShut w mails tag close s h o = ground arith
    command-StaysShut w mails tag expunge s h o = ground arith
    command-StaysShut w mails tag copy s h o = ground arith
    command-StaysShut w mails tag unknown s h o = ground arith
    command-StaysShut w mails tag (login password) s h o = ground arith
    command-StaysShut w mails tag (authenticate true) s h o = ground arith
    command-StaysShut w mails tag (authenticate false) s h o = ground arith
    command-StaysShut w mails tag (list root) s h o = ground arith
    command-StaysShut w mails tag (select name) s h o = ground arith
    command-StaysShut w mails tag (status name) s h o = ground arith
    command-StaysShut w mails tag (store args) s h o = ground arith
    command-StaysShut w mails tag (move set name) s h o = ground arith
    command-StaysShut w mails tag (fetch set items) s h o = ground arith
    command-StaysShut w mails tag (search args) s h o = ground arith
    command-StaysShut w mails tag (uid sub) s h o = ground arith

    password-StaysShut :
        (tag : String) (o : Option (List ℕ)) (s : ImapSession)
        → IsShut s
        → opens_by_password utf8 o s.password_hash ≡ false
        → StaysShut appends s.password_hash (check_password utf8 tag o s)
    unfolding check_password opens_by_password is_public is_open
    password-StaysShut tag none s h o = ground arith
    password-StaysShut tag (some bytes) s h o = ground arith

    append-StaysShut :
        (sent_here : Text → Option String) (mails : MailStore) (tag : String) (req : Append)
        (s : ImapSession)
        → IsShut s
        → appends ≡ true
        → StaysShut appends s.password_hash (handle_append same_path sent_here lib mails tag req s)
    unfolding handle_append is_public is_open is_append_line is_append_call
    append-StaysShut sent_here mails tag req s h a = ground arith

    event-StaysShut :
        (mails : MailStore) (event : Event) (s : ImapSession)
        → IsShut s
        → opens utf8 event s ≡ false
        → (is_append event && not appends) ≡ false
        → StaysShut appends s.password_hash (on_event same_path accepted utf8 lib mails event s)
    unfolding on_event busy_line idle_line handle_auth_response end_idle check_new_mail opens
        is_open is_public is_append
    event-StaysShut mails changed s h o a = ground arith
    event-StaysShut mails (line r) s h o a = elim (Option-cases s.idle_tag) [
      | inr (tag, e) ↦ rw (e, on_event) (ground arith)
      | inl e ↦ elim (Option-cases s.auth_tag) [
        | inl n ↦ elim (Option-cases r.append) [
          | inl q ↦
              rw (e, on_event, n, busy_line, q)
                (command-StaysShut r.world mails r.tag r.command s h (ground arith))
          | inr (req, q) ↦
              rw (e, on_event, n, busy_line, q)
                (append-StaysShut r.world.sent_here mails r.tag req s h (ground arith))
        ]
        | inr (tag, n) ↦
            rw (e, on_event, n, busy_line)
              (ground (
                arith,
                password-StaysShut tag (decoded_password r.base64) (record s { auth_tag = none }) h,
              ))
      ]
    ]

    run-StaysShut :
        (expected : Option String) (events : List (MailStore × Event)) (s : ImapSession)
        → s.password_hash ≡ expected
        → IsShut s
        → all (λ e. not (offers utf8 expected e.1)) events ≡ true
        → any (λ e. is_append e.1 && not appends) events ≡ false
        → let r = run_connection_loop same_path accepted utf8 lib events s in
          TellsNothing appends r × (r.session.selected_folder ≡ none) × (r.session.mails ≡ [])
    unfolding run_connection_loop
    run-StaysShut expected [] s k h o a = ground arith
    run-StaysShut expected ((mails, event) ∷ events) s k h o a =
        let now = on_event same_path accepted utf8 lib mails event s in
        let later = run_connection_loop same_path accepted utf8 lib events now.session in
        let silent : offers utf8 s.password_hash event ≡ false =
          subst (λ p. offers utf8 p event ≡ false) (sym k) (negated _ (and_left _ _ o)) in
        let shut : (StaysShut appends s.password_hash now) =
          event-StaysShut mails event s h (opens_of_offers utf8 event s silent) (or_left _ _ a) in
        elim (Bool-cases (is_logout now.session.state || is_cut now.lines)) [
          | inl l ↦ rw (l, run_connection_loop) (shut.0, shut.2, shut.3)
          | inr l ↦
              let new = still_new now.session.state shut.4 (or_left _ _ l) in
              let rest =
                run-StaysShut expected events now.session (shut.1 ∙ k) (new, shut.2, shut.3)
                  (and_right _ _ o) (or_right _ _ a) in
              rw (l, run_connection_loop)
                (
                  (
                    all-append (may_say appends) now.lines later.lines ∙ both _ _ shut.0.0 rest.0.0,
                    all-append (may_ask appends) now.calls later.calls ∙ both _ _ shut.0.1 rest.0.1,
                  ),
                  rest.1,
                  rest.2,
                )
        ]

  append_without :
      (b : Bool) (events : List (MailStore × Event))
      → (any (λ e. is_append e.1) events && not b) ≡ false
      → any (λ e. is_append e.1 && not b) events ≡ false
  append_without b [] h = refl
  append_without b (e ∷ events) h = ground (arith, append_without b events)

  no_more :
      (events : List (MailStore × Event))
      → any (λ e. is_append e.1 && not (any (λ e. is_append e.1) events)) events ≡ false
  no_more events = append_without (any (λ e. is_append e.1) events) events (ground arith)

  -- In a session that starts unauthenticated, whatever a client sends and in whatever order, as long
  -- as no line is a LOGIN with the password, encodes the password as the answer to an AUTHENTICATE, or
  -- is CLOSE, no mailbox is opened. Unless an APPEND is among the lines, every line that it gets tells
  -- nothing of the mailbox, and nothing is asked of the backend; if one is, there may also be its request
  -- for the literal, the UID that it answers with, and the question which mail was sent under a message
  -- id.
  pub run_connection_loop-IsShut :
      (events : List (MailStore × Event)) (s : ImapSession)
      → IsShut s
      → all (λ e. not (offers utf8 s.password_hash e.1)) events ≡ true
      → let r = run_connection_loop same_path accepted utf8 lib events s in
        let appends = any (λ e. is_append e.1) events in
        (all (may_say appends) r.lines ≡ true)
        × (all (may_ask appends) r.calls ≡ true)
        × (r.session.selected_folder ≡ none)
        × (r.session.mails ≡ [])
  run_connection_loop-IsShut events s h o =
      let r =
        run-StaysShut (any (λ e. is_append e.1) events) s.password_hash events s refl h o
          (no_more events) in
      (r.0.0, r.0.1, r.1, r.2)
