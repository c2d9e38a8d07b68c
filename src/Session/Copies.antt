-- ===== src/Session/Copies.antt =====
-- The UID that an APPEND is answered with (`handle_append` of crates/bridge/src/imap/mod.rs,
-- `sent_copy_uid` of crates/bridge/src/imap/session.rs).
use tutabridge.Prelude.{
  ℕ, ◌≡◌, refl, ap, ◌∙◌, String, Bool, true, false, not, ◌&&◌, Option, none, some, List, [], ◌∷◌,
  ◌==◌, ltb, leb, first, any, arith,
}
use tutabridge.Prelude.Text.{Text}
use tutabridge.Model.{FolderInfo}
use tutabridge.MailStore.{
  StoredMail, MailStore, holds_id, get_folder, mail_in_folder, folder_by_imap_path,
}
use tutabridge.Mime.Library.{Library}
use tutabridge.Mime.Parser.{parse_rfc2822}
use tutabridge.Session.State.{ImapSession, Line, ok, continue_literal, append_uid}
use tutabridge.Session.Append.{
  Append, max_append_bytes, copy_uid, copy_in, copy_of, or_copy, append_lines, append_targets_sent,
  sent_copy_uid, handle_append,
}

abbrev is_copy : String → ℕ → StoredMail → Bool
is_copy eid n m = holds_id eid m && m.uid == n

-- A UID is that of the mail in one of the stores; without one no store has the mail.
unfoldable is_right : String → String → List MailStore → Option ℕ → Bool
is_right folder eid stores none = not (any (λ s. any (holds_id eid) (get_folder folder s)) stores)
is_right folder eid stores (some n) = any (λ s. any (is_copy eid n) (get_folder folder s)) stores

-- The same of what is answered behind the literal.
unfoldable pub tells_right : String → String → List MailStore → List Line → Bool
unfolding is_right
tells_right folder eid stores (continue_literal ∷ append_uid tag n ∷ []) =
    is_right folder eid stores (some n)
tells_right folder eid stores (continue_literal ∷ ok tag ∷ []) = is_right folder eid stores none
tells_right folder eid stores _ = false

found_nowhere :
    (eid : String) (ms : List StoredMail)
    → first (holds_id eid) ms ≡ none
    → any (holds_id eid) ms ≡ false
found_nowhere eid [] h = refl
found_nowhere eid (m ∷ ms) h = ground (arith, found_nowhere eid ms)

found_there :
    (eid : String) (ms : List StoredMail) (m : StoredMail)
    → first (holds_id eid) ms ≡ some m
    → any (is_copy eid m.uid) ms ≡ true
found_there eid [] m h = ground arith
found_there eid (x ∷ ms) m h = ground (arith, found_there eid ms m)

is_right-later :
    (folder eid : String) (s : MailStore) (stores : List MailStore) (o : Option ℕ)
    → any (holds_id eid) (get_folder folder s) ≡ false
    → is_right folder eid stores o ≡ true
    → is_right folder eid (s ∷ stores) o ≡ true
unfolding is_right
is_right-later folder eid s stores none h k = ground arith
is_right-later folder eid s stores (some n) h k = ground arith

append_lines-tells_right :
    (folder eid : String) (stores : List MailStore) (tag : String) (o : Option ℕ)
    → is_right folder eid stores o ≡ true
    → tells_right folder eid stores (append_lines tag o) ≡ true
unfolding tells_right
append_lines-tells_right folder eid stores tag none h = h
append_lines-tells_right folder eid stores tag (some n) h = h

or_copy-is_right :
    (folder eid : String) (s : MailStore) (stores : List MailStore) (o : Option StoredMail)
    (later : Option ℕ)
    → first (holds_id eid) (get_folder folder s) ≡ o
    → is_right folder eid stores later ≡ true
    → is_right folder eid (s ∷ stores) (or_copy o later) ≡ true
unfolding is_right
or_copy-is_right folder eid s stores none later e h =
    is_right-later folder eid s stores later (found_nowhere eid (get_folder folder s) e) h
or_copy-is_right folder eid s stores (some m) later e h =
    ground (arith, found_there eid (get_folder folder s) m e)

copy_uid-is_right :
    (folder eid : String) (stores : List MailStore)
    → is_right folder eid stores (copy_uid folder eid stores) ≡ true
unfolding is_right copy_uid mail_in_folder
copy_uid-is_right folder eid [] = refl
copy_uid-is_right folder eid (s ∷ stores) =
    or_copy-is_right folder eid s stores (mail_in_folder folder eid s) (copy_uid folder eid stores)
      refl (copy_uid-is_right folder eid stores)

module _ (same_path : String → String → Bool) (sent_here : Text → Option String)
    (lib : Library) where
  sent_copy_uid-copy_uid :
      (mailbox : String) (now : MailStore) (later : List MailStore) (message_id : Text)
      (eid : String) (sent : FolderInfo)
      → sent_here message_id ≡ some eid
      → folder_by_imap_path same_path mailbox now ≡ some sent
      → sent_copy_uid same_path sent_here mailbox (now ∷ later) message_id
        ≡ copy_uid sent.id eid (now ∷ later)
  unfolding sent_copy_uid
  sent_copy_uid-copy_uid mailbox now later message_id eid sent h f =
      ap (copy_of same_path sent_here mailbox (now ∷ later)) h
      ∙ ap (λ o. copy_in o (now ∷ later) eid) f

  -- An APPEND to the Sent folder whose message comes, is within the limit and has a message id under which
  -- a mail was sent here leaves the session as it is. If the wait sees the folder, it is answered with the
  -- UID that a mail with this id has there in one of the stores that are seen, and without a UID exactly
  -- if none of them has it.
  pub handle_append_lem :
      (mails now : MailStore) (later : List MailStore) (tag : String) (req : Append)
      (s : ImapSession) (bytes : List ℕ) (message_id : Text) (eid : String) (sent : FolderInfo)
      → append_targets_sent same_path sent_here req.mailbox mails ≡ true
      → leb req.literal_size max_append_bytes ≡ true
      → req.literal ≡ some bytes
      → (parse_rfc2822 lib (lib.from_utf8_lossy bytes)).message_id ≡ some message_id
      → sent_here message_id ≡ some eid
      → req.stores ≡ now ∷ later
      → folder_by_imap_path same_path req.mailbox now ≡ some sent
      → let r = handle_append same_path sent_here lib mails tag req s in
        (tells_right sent.id eid (now ∷ later) r.lines ≡ true) × (r.session ≡ s)
  unfolding handle_append sent_copy_uid
  handle_append_lem mails now later tag req s bytes message_id eid sent t l b i h n f =
      let short : ltb max_append_bytes req.literal_size ≡ false = ground (arith, l) in
      let e = sent_copy_uid-copy_uid req.mailbox now later message_id eid sent h f in
      rw (t, short, b, i, n)
        (
          rw e (
              append_lines-tells_right sent.id eid (now ∷ later) tag _
                (copy_uid-is_right sent.id eid (now ∷ later))),
          refl,
        )
