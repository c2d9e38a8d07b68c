-- ===== src/Session/Tests.antt =====
-- A session of two clients: one without the password, one with an open mailbox.
use tutabridge.Prelude.{
  ℕ, ◌≡◌, refl, ◌⊎◌, String, Bool, true, false, not, ◌&&◌, none, some, List, [], ◌∷◌, ◌++◌, map,
  ◌=s◌, ◌==◌, ltb, if◌then◌else◌, all, any, keep, length, get_elem?, arith,
}
use tutabridge.Model.{Mail, MailSetKind, FolderInfo}
use tutabridge.MailStore.{StoredMail, MailStore, get_folder}
use tutabridge.Session.State.{
  selected, CachedMail, ImapSession, new_session, expunge as expunge_line, exists, Call,
}
use tutabridge.Session.Sets.{Part, range, num, star, resolve_sequence_set}
use tutabridge.Session.Commands.{StoreArgs, cmd_store, accepts, plain_password}
use tutabridge.Session.Removal.{cmd_expunge, cmd_move, check_folder, has_departed}
use tutabridge.Session.Dispatch.{
  Command, login, select, close, authenticate, fetch, unknown, World, Event, line, on_event,
  run_connection_loop,
}
use tutabridge.Session.Append.{Append, handle_append}
use tutabridge.Session.Copies.{tells_right, handle_append_lem}
use tutabridge.Mime.Tests.{ascii}
use tutabridge.Session.Find.{Rendered, Surroundings, cmd_search}
use tutabridge.Session.Found.{names_some, is_found, cmd_search_lem}
use tutabridge.Search.{
  SearchContext, parse, parse_tokens, tokenize, fold_and, parse_atom_key, action_of, str_key,
  collect_body_terms, body_matches,
}
use tutabridge.Prelude.Text.{Text, codes, same_text}
use tutabridge.Session.Expunges.{replay}
use tutabridge.Session.News.{expunged, cmd_expunge-replay, cmd_move-replay, check_folder-replay}
use tutabridge.Session.Addressed.{
  addresses, resolve_sequence_set_lem, map_some, stored, cmd_store_lem,
}
use tutabridge.Session.Guard.{
  is_append, may_say, may_ask, is_open, opens_by_command, opens_by_password, opens, offers,
}
use tutabridge.Session.Gate.{run_connection_loop-IsShut}
use tutabridge.Session.Opening.{on_event-is_open}

abbrev letter : String → Mail
letter eid = record {
  id = some (record { list_id = "L"; element_id = eid });
  subject = "hello";
  sender_name = "Ada";
  sender_address = "ada@example.org";
  received_ms = 1024;
  unread = true;
  attachments = [];
  first_recipient = none;
}

abbrev inbox : FolderInfo
inbox = record {
  id = "f1";
  list_id = "m1";
  imap_path = "INBOX";
  kind = MailSetKind.inbox;
  special_use = none;
  entries_list_id = "e1";
}

abbrev held : String → ℕ → StoredMail
held eid uid = record {
  mail = letter eid;
  body_loaded = false;
  uid = uid;
  attachments_pending = false;
}

abbrev mails : MailStore
mails = record {
  folders = ("f1", held "c" 3 ∷ held "b" 2 ∷ []) ∷ [];
  folder_list = inbox ∷ [];
  generation = 0;
  details_generation = 0;
  gen_counter = 0;
}

abbrev shown : String → ℕ → Bool → CachedMail
shown eid uid deleted = record {
  mail = letter eid;
  body_loaded = false;
  uid = uid;
  deleted = deleted;
}

abbrev view : ImapSession
view = record (new_session none) {
  state = selected;
  selected_folder = some inbox;
  mails = shown "a" 1 true ∷ shown "b" 2 false ∷ shown "d" 5 true ∷ [];
}

abbrev same_path : String → String → Bool
same_path a b = a =s b

abbrev yes_to_all : Call → Bool
yes_to_all call = true

abbrev no_text : List ℕ → String
no_text bytes = ""

abbrev guarded : ImapSession
guarded = new_session (some "secret")

abbrev plain_rendering : Mail → Rendered
plain_rendering mail = record {
  rfc2822 = codes "Subject: hello";
  headers = codes "Subject: hello";
  from = codes "Ada <ada@example.org>";
  to = [];
  cc = [];
  bcc = [];
  sent_ms = none;
}

-- Only the mail "a" has a body with the word.
abbrev lunch_index : Text → List String
lunch_index term = if same_text term (codes "lunch") then "a" ∷ [] else []

abbrev searching : Surroundings
searching = record {
  lower = λ t. t;
  upper = λ t. t;
  white = λ c. c == 32;
  rendered = plain_rendering;
  search_body = some (λ term. some (lunch_index term));
}

-- The cache has no bodies, and the mail "b" was sent here.
abbrev world : World
world = record {
  outside = record {
    get_body = λ eid. none;
    cached = λ eid. none;
    on_cooldown = λ eid. false;
    load_mail_details = λ mail. some none;
    load_attachments = λ mail. some [];
  };
  searching = searching;
  sent_here = λ message_id. some "b";
}

abbrev says : Command → Event
says command = line (record {
  tag = "a1";
  command = command;
  base64 = none;
  is_done = false;
  append = none;
  world = world;
})

abbrev outbox : FolderInfo
outbox = record inbox { imap_path = "Sent"; kind = MailSetKind.sent; special_use = some "\\Sent" }

abbrev sent_mails : MailStore
sent_mails = record mails { folder_list = outbox ∷ [] }

abbrev letter_to_keep : Append
letter_to_keep = record {
  mailbox = "Sent";
  literal_size = 21;
  literal = some (codes "message-id: <m@x>\r\n\r\n");
  stores = sent_mails ∷ [];
}

abbrev appends : Event
appends = line (record {
  tag = "a2";
  command = unknown;
  base64 = none;
  is_done = false;
  append = some letter_to_keep;
  world = world;
})

abbrev stranger : List (MailStore × Event)
stranger =
    (mails, says (select "INBOX"))
    ∷ (mails, says (login "guess"))
    ∷ (mails, says (authenticate true))
    ∷ (mails, says (select "INBOX"))
    ∷ (sent_mails, appends)
    ∷ (mails, says (fetch (range (num 1) star ∷ []) (codes "(BODY[])")))
    ∷ []

run_connection_loop-IsShut_example :
    let r = run_connection_loop same_path yes_to_all no_text ascii stranger guarded in
    let appends = any (λ e. is_append e.1) stranger in
    (all (may_say appends) r.lines ≡ true)
    × (all (may_ask appends) r.calls ≡ true)
    × (r.session.selected_folder ≡ none)
    × (r.session.mails ≡ [])
unfolding offers opens_by_command opens_by_password accepts plain_password
run_connection_loop-IsShut_example =
    run_connection_loop-IsShut same_path yes_to_all no_text ascii stranger guarded
      (refl, refl, refl) refl

on_event-is_open_example :
    is_open (on_event same_path yes_to_all no_text ascii mails (says close) guarded).session.state
    ≡ opens no_text (says close) guarded
on_event-is_open_example =
    on_event-is_open same_path yes_to_all no_text ascii mails (says close) guarded
      (refl, refl, refl)

-- CLOSE alone opens the session that is guarded by a password.
closing_first : opens no_text (says close) guarded ≡ true
unfolding opens opens_by_command
closing_first = refl

cmd_expunge-replay_example :
    let r = cmd_expunge yes_to_all "a2" view in
    replay (expunged r.lines) view.mails ≡ r.session.mails
cmd_expunge-replay_example = cmd_expunge-replay yes_to_all "a2" view

abbrev second_to_last : List Part
second_to_last = range (num 2) star ∷ []

cmd_move-replay_example :
    let r = cmd_move same_path mails yes_to_all "a3" second_to_last "INBOX" false view in
    replay (expunged r.lines) view.mails ≡ r.session.mails
cmd_move-replay_example =
    cmd_move-replay same_path mails yes_to_all "a3" second_to_last "INBOX" false view

check_folder-replay_example :
    let r = check_folder mails inbox view in
    let expunges = expunged r.lines in
    (replay expunges view.mails
      ≡ keep (λ m. not (has_departed (get_folder inbox.id mails) m)) view.mails)
    × ((r.lines ≡ map expunge_line expunges ++ exists (length r.session.mails) ∷ [])
        ⊎ ((r.lines ≡ []) × (r.session ≡ view)))
check_folder-replay_example = check_folder-replay mails inbox view

resolve_sequence_set_lem_example :
    any (λ j. j == 1) (resolve_sequence_set view.mails second_to_last false)
    ≡ (ltb 1 (length view.mails) && any (addresses (length view.mails) 2) second_to_last)
resolve_sequence_set_lem_example = resolve_sequence_set_lem 1 view.mails second_to_last

-- `STORE 2:* FLAGS (\Seen)`
abbrev plain_seen : StoreArgs
plain_seen = record {
  set = second_to_last;
  adding = false;
  removing = false;
  seen = true;
  deleted = false;
}

cmd_store_lem_example :
    get_elem? (cmd_store "a4" plain_seen false view).session.mails 1
    ≡ map_some
        (λ m.
          if any (addresses (length view.mails) 2) plain_seen.set then stored plain_seen m else m)
        (get_elem? view.mails 1)
cmd_store_lem_example = cmd_store_lem "a4" plain_seen view 1 refl

abbrev lunch_context : SearchContext
lunch_context = (codes "lunch", "a" ∷ []) ∷ []

cmd_search_example :
    names_some searching 1 (cmd_search searching (codes "BODY lunch") false view)
    ≡ is_found searching
        (parse (λ t. t) (λ t. t) (codes "BODY lunch"))
        lunch_context
        0
        (some (shown "a" 1 true))
cmd_search_example =
    cmd_search_lem searching lunch_index refl (codes "BODY lunch") view refl (omega arith)
      lunch_context
      (unfold parse parse_tokens tokenize fold_and parse_atom_key action_of str_key
          collect_body_terms body_matches same_text in
        (λ eid. refl, tt))
      0

handle_append_lem_example :
    let r =
      handle_append same_path
        (λ message_id. some "b")
        ascii
        sent_mails
        "a2"
        letter_to_keep
        guarded in
    (tells_right "f1" "b" (sent_mails ∷ []) r.lines ≡ true) × (r.session ≡ guarded)
unfolding tutabridge.Session.Append.append_targets_sent tutabridge.Mime.Parser.parse_rfc2822
    tutabridge.Mime.Strings.lines_from
handle_append_lem_example =
    handle_append_lem same_path (λ message_id. some "b") ascii sent_mails sent_mails [] "a2"
      letter_to_keep guarded (codes "message-id: <m@x>\r\n\r\n") (codes "m@x") "b" outbox refl refl
      refl refl refl refl refl
