-- ===== src/Session/Guard.antt =====
-- What a session tells before a client authenticates, and what opens it
-- (crates/bridge/src/imap/session.rs, crates/bridge/src/imap/mod.rs).
use tutabridge.Prelude.{
  ℕ, ◌≡◌, refl, String, Bool, true, false, ◌&&◌, ◌||◌, Option, none, some, List, [], arith, all,
}
use tutabridge.Session.State.{
  State, not_authenticated, authenticated, selected, ImapSession, Line, ok, no, bad, capabilities,
  namespaces, bye, continue_auth, continue_idle, continue_literal, append_uid, Call,
  sent_mail_element_id, Reply,
}
use tutabridge.Session.Commands.{accepts, plain_password, decoded_password}
use tutabridge.Session.Dispatch.{Command, close, login, Event, line, changed}

-- Lines that tell nothing of the mailbox.
unfoldable pub is_public : Line → Bool
is_public (ok tag) = true
is_public (no tag) = true
is_public (bad tag) = true
is_public capabilities = true
is_public namespaces = true
is_public bye = true
is_public continue_auth = true
is_public continue_idle = true
is_public _ = false

-- What an APPEND is answered besides refusals, and what it asks.
unfoldable pub is_append_line : Line → Bool
is_append_line continue_literal = true
is_append_line (append_uid tag n) = true
is_append_line _ = false

unfoldable pub is_append_call : Call → Bool
is_append_call (sent_mail_element_id message_id) = true
is_append_call _ = false

unfoldable pub is_append : Event → Bool
is_append changed = false
is_append (line r) = elim r.append [ none ↦ false | some req ↦ true ]

-- A line that tells nothing, or answers an APPEND where there are some.
abbrev pub may_say : Bool → Line → Bool
may_say appends l = is_public l || (appends && is_append_line l)

abbrev pub may_ask : Bool → Call → Bool
may_ask appends c = appends && is_append_call c

unfoldable pub is_open : State → Bool
is_open authenticated = true
is_open selected = true
is_open _ = false

unfoldable pub opens_by_command : Command → Option String → Bool
unfolding accepts
opens_by_command (login password) expected = accepts expected password
opens_by_command close expected = true
opens_by_command _ expected = false

unfoldable pub opens_by_password : (List ℕ → String) → Option (List ℕ) → Option String → Bool
unfolding accepts
opens_by_password utf8 none expected = false
opens_by_password utf8 (some bytes) expected = accepts expected (utf8 bytes)

-- The lines that open a session: a LOGIN with the password, the password as the answer to an
-- AUTHENTICATE, and CLOSE.
unfoldable pub opens : (List ℕ → String) → Event → ImapSession → Bool
unfolding opens_by_command opens_by_password plain_password
opens utf8 changed s = false
opens utf8 (line r) s = elim s.idle_tag [
  | some tag ↦ false
  | none ↦ elim s.auth_tag [
    | none ↦ elim r.append [ none ↦ opens_by_command r.command s.password_hash | some req ↦ false ]
    | some tag ↦ opens_by_password utf8 (decoded_password r.base64) s.password_hash
  ]
]

-- A line that could open the session, whatever the state that it meets.
unfoldable pub offers : (List ℕ → String) → Option String → Event → Bool
unfolding opens_by_command opens_by_password plain_password
offers utf8 expected changed = false
offers utf8 expected (line r) =
    opens_by_command r.command expected
    || opens_by_password utf8 (decoded_password r.base64) expected

pub opens_of_offers :
    (utf8 : List ℕ → String) (event : Event) (s : ImapSession)
    → offers utf8 s.password_hash event ≡ false
    → opens utf8 event s ≡ false
unfolding opens offers
opens_of_offers utf8 changed s h = refl
opens_of_offers utf8 (line r) s h = ground arith

-- Nobody has authenticated, and no mailbox is open.
abbrev pub IsShut : ImapSession → Type 0
IsShut s = (s.state ≡ not_authenticated) × (s.selected_folder ≡ none) × (s.mails ≡ [])

abbrev pub TellsNothing : Bool → Reply → Type 0
TellsNothing appends r =
    (all (may_say appends) r.lines ≡ true) × (all (may_ask appends) r.calls ≡ true)

abbrev pub StaysShut : Bool → Option String → Reply → Type 0
StaysShut appends expected r =
    TellsNothing appends r
    × (r.session.password_hash ≡ expected)
    × (r.session.selected_folder ≡ none)
    × (r.session.mails ≡ [])
    × (is_open r.session.state ≡ false)
