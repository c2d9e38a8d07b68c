-- ===== src/Session/Fetch.antt =====
-- FETCH (`cmd_fetch` of crates/bridge/src/imap/session.rs), with the bodies that it loads on demand. The
-- cache of bodies, the cooldown and the requests to the server are an argument: what each would
-- answer. A body that is loaded is found from then on; nothing evicts it within the command.
use tutabridge.Prelude.{
  ℕ, suc, Bool, true, false, not, ◌&&◌, String, Option, none, some, List, [], ◌∷◌, ◌++◌, get_elem?,
  map, if◌then◌else◌,
}
use tutabridge.Prelude.Text.{Text, codes}
use tutabridge.Prelude.Assoc.{lookup}
use tutabridge.Model.{Mail, MailDetails, FolderInfo}
use tutabridge.MailStore.{element_id}
use tutabridge.BodyCache.{BodyEntry}
use tutabridge.Wire.{needs_body, fetch_items_use_content}
use tutabridge.Mime.Library.{Library}
use tutabridge.Mime.Render.{mail_to_rfc2822, TutanotaFile}
use tutabridge.Session.State.{
  CachedMail, ImapSession, Line, ok, no, content, no_body, Call, load_mail_details, Reply, answer,
}
use tutabridge.Session.Sets.{Part, resolve_sequence_set}
use tutabridge.Session.Commands.{change_at, is_selected}
use tutabridge.Session.Response.{build_fetch_response}

abbrev pub Entry : Type 0
Entry = BodyEntry MailDetails

-- `none` is an error of the server.
pub record Outside : Type 0 where
  pub get_body : String → Option Entry
  pub cached : String → Option Entry
  pub on_cooldown : String → Bool
  pub load_mail_details : Mail → Option (Option MailDetails)
  pub load_attachments : Mail → Option (List TutanotaFile)

-- The mails of the session, the bodies that were loaded, for which mails the server was asked, and
-- which of them were put on cooldown.
pub record Progress : Type 0 where
  pub mails : List CachedMail
  pub loaded : List (String × Entry)
  pub requested : List Mail
  pub failed : List String

abbrev pub or_else : Option Entry → Option Entry → Option Entry
or_else none b = b
or_else (some a) b = some a

abbrev find_body : (String → Option Entry) → Progress → String → Option Entry
find_body source p eid = or_else (lookup eid p.loaded) (source eid)

pub data Ensured : Type 0 where
  ready : Progress → Ensured
  unavailable : Text → Progress → Ensured

abbrev pub mark_loaded : ℕ → List CachedMail → List CachedMail
mark_loaded idx mails = change_at (λ m. record m { body_loaded = true }) (idx ∷ []) 0 mails

abbrev failed_one : Option String → List String → List String
failed_one none failed = failed
failed_one (some eid) failed = eid ∷ failed

abbrev pub cooling : Outside → Option String → Bool
cooling out none = false
cooling out (some eid) = out.on_cooldown eid

abbrev is_some : {A : Type 0} → Option A → Bool
is_some none = false
is_some (some a) = true

abbrev pub available : Outside → Progress → Option String → Bool
available out p none = false
available out p (some eid) = is_some (find_body out.get_body p eid)

-- `update_complete_mail`, in a session with a folder.
abbrev stored :
    Option String → Option FolderInfo → Entry → List (String × Entry) → List (String × Entry)
stored (some eid) (some folder) entry loaded = (eid, entry) ∷ loaded
stored _ _ entry loaded = loaded

-- The answers to a command: the lines before a refusal are dropped with it.
pub data Answer : Type 0 where
  answered : List Text → Progress → Answer
  refused : Text → Progress → Answer

abbrev pub with_line : Text → Answer → Answer
with_line t (answered ts p) = answered (t ∷ ts) p
with_line t (refused reason p) = refused reason p

module _ (lib : Library) (out : Outside) (folder : Option FolderInfo) where
  abbrev pub with_files :
      ℕ → Mail → Option MailDetails → Option (List TutanotaFile) → Progress → Ensured
  with_files idx mail details none p =
      unavailable (codes "message attachments cannot be fetched")
        (record p { failed = failed_one (element_id mail) p.failed })
  with_files idx mail details (some files) p =
      let rfc = mail_to_rfc2822 lib mail details files in
      ready (record p {
        mails = mark_loaded idx p.mails;
        loaded =
            stored (element_id mail) folder (record { details = details; rfc2822 = rfc }) p.loaded;
      })

  abbrev pub with_details : ℕ → Mail → Option (Option MailDetails) → Progress → Ensured
  with_details idx mail none p =
      unavailable (codes "could not fetch message body, try again later")
        (record p { failed = failed_one (element_id mail) p.failed })
  with_details idx mail (some details) p = with_files idx mail details (out.load_attachments mail) p

  unfoldable pub load_body : ℕ → Mail → Progress → Ensured
  unfolding mail_to_rfc2822 change_at
  load_body idx mail p =
      let asked : Progress = record p { requested = mail ∷ p.requested } in
      if available out p (element_id mail)
      then ready (record p { mails = mark_loaded idx p.mails })
      else if cooling out (element_id mail)
      then unavailable (codes "message body temporarily unavailable, try again later") p
      else with_details idx mail (out.load_mail_details mail) asked

  unfoldable pub ensure_body : ℕ → CachedMail → Text → Progress → Ensured
  unfolding load_body needs_body
  ensure_body idx m items p =
      if needs_body lib.white items && not m.body_loaded then load_body idx m.mail p else ready p

  abbrev body_for : Option String → Bool → Text → Progress → Option Entry
  body_for none body_loaded items p = none
  body_for (some eid) body_loaded items p =
      if needs_body lib.white items && body_loaded
      then find_body out.get_body p eid
      else if fetch_items_use_content items
      then find_body out.cached p eid
      else none

  -- The line for a mail, once its body is there.
  unfoldable pub response_at : ℕ → CachedMail → Text → Bool → Progress → Text
  unfolding build_fetch_response needs_body fetch_items_use_content
  response_at idx m items uid_mode p =
      build_fetch_response lib (suc idx) m items uid_mode
        (body_for (element_id m.mail) m.body_loaded items p)

  abbrev pub reread : ℕ → CachedMail → Progress → CachedMail
  reread idx m p = elim (get_elem? p.mails idx) [ none ↦ m | some now ↦ now ]

  abbrev pub on_ensured : (Progress → Answer) → ℕ → Text → Bool → CachedMail → Ensured → Answer
  on_ensured next idx items uid_mode m (unavailable reason p) = refused reason p
  on_ensured next idx items uid_mode m (ready p) =
      with_line (response_at idx (reread idx m p) items uid_mode p) (next p)

  -- One mail, and what follows it; an index without a mail is passed over.
  abbrev pub fetch_at :
      (Progress → Answer) → ℕ → Text → Bool → Progress → Option CachedMail → Answer
  fetch_at next idx items uid_mode p none = next p
  fetch_at next idx items uid_mode p (some m) =
      on_ensured next idx items uid_mode m (ensure_body idx m items p)

  unfoldable pub fetch_each : List ℕ → Text → Bool → Progress → Answer
  unfolding ensure_body response_at
  fetch_each [] items uid_mode p = answered [] p
  fetch_each (idx ∷ is) items uid_mode p =
      fetch_at (fetch_each is items uid_mode) idx items uid_mode p (get_elem? p.mails idx)

abbrev pub lines_of : String → Answer → List Line
lines_of tag (answered ts p) = map content ts ++ ok tag ∷ []
lines_of tag (refused reason p) = no_body tag reason ∷ []

abbrev progress_of : Answer → Progress
progress_of (answered ts p) = p
progress_of (refused reason p) = p

-- The requests, the latest of which comes first in the progress.
abbrev calls_of : List Mail → List Call
calls_of [] = []
calls_of (m ∷ ms) = calls_of ms ++ load_mail_details m ∷ []

unfoldable pub cmd_fetch :
    Library → Outside → String → List Part → Text → Bool → ImapSession → Reply
unfolding fetch_each resolve_sequence_set
cmd_fetch lib out tag set items uid_mode s =
    let start : Progress = record { mails = s.mails; loaded = []; requested = []; failed = [] } in
    let a =
      fetch_each lib out s.selected_folder (resolve_sequence_set s.mails set uid_mode) items
        uid_mode start in
    if is_selected s.state
    then record {
      session = record s { mails = (progress_of a).mails };
      lines = lines_of tag a;
      calls = calls_of (progress_of a).requested;
    }
    else answer s (no tag ∷ [])
