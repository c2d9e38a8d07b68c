-- ===== src/Session/Find.antt =====
-- SEARCH in a session: `cmd_search`, `build_search_view`, `resolve_body_search`
-- (crates/bridge/src/imap/session.rs). What the session reads of a body comes as `Rendered`: the text of
-- the message, or of its placeholder, with what the formatters make of its addresses. That a look into
-- the body cache counts as a use there is left out.
use tutabridge.Prelude.{
  ℕ, suc, ◌%◌, ◌^◌, Bool, Option, none, some, String, List, [], ◌∷◌, if◌then◌else◌,
}
use tutabridge.Prelude.Text.{Text, codes, len}
use tutabridge.Model.{IdTuple, Mail}
use tutabridge.Search.{SearchKey, SearchContext, MsgView, matches, parse, collect_body_terms}
use tutabridge.Session.State.{ImapSession, CachedMail}
use tutabridge.Session.Commands.{is_selected}

pub record Rendered : Type 0 where
  pub rfc2822 : Text
  pub headers : Text
  pub from : Text
  pub to : Text
  pub cc : Text
  pub bcc : Text
  pub sent_ms : Option ℕ

-- The standard library's changes of case and table of white space, the rendering of a mail with
-- what is warm of it, and the full-text index, if there is one: the mails whose body matches a
-- term, or an error.
pub record Surroundings : Type 0 where
  pub lower : Text → Text
  pub upper : Text → Text
  pub white : ℕ → Bool
  pub rendered : Mail → Rendered
  pub search_body : Option (Text → Option (List String))

abbrev pub element_id_of : Option IdTuple → String
element_id_of none = ""
element_id_of (some id) = id.element_id

abbrev or_received : ℕ → Option ℕ → ℕ
or_received ms none = ms
or_received ms (some sent) = sent

-- `(idx + 1) as u32`
abbrev pub seq_at : ℕ → ℕ
seq_at idx = suc idx % 2 ^ 32

-- Answers of the index, a term that it fails on being left out.
unfoldable pub hits_of : (Text → Option (List String)) → List Text → SearchContext
hits_of index [] = []
hits_of index (term ∷ terms) =
    let rest = hits_of index terms in
    elim (index term) [ none ↦ rest | some ids ↦ (term, ids) ∷ rest ]

abbrev pub on_index : Option (Text → Option (List String)) → List Text → SearchContext
on_index none terms = []
on_index (some index) terms = hits_of index terms

module _ (e : Surroundings) where
  unfoldable pub build_search_view : ℕ → CachedMail → MsgView
  build_search_view idx cached =
      let r = e.rendered cached.mail in
      record {
        seq = seq_at idx;
        uid = cached.uid;
        element_id = element_id_of cached.mail.id;
        subject = codes cached.mail.subject;
        from = r.from;
        to = r.to;
        cc = r.cc;
        bcc = r.bcc;
        headers = r.headers;
        date_ms = cached.mail.received_ms;
        sent_ms = or_received cached.mail.received_ms r.sent_ms;
        unread = cached.mail.unread;
        deleted = cached.deleted;
        size = len r.rfc2822;
      }

  unfoldable pub resolve_body_search : SearchKey → SearchContext
  unfolding hits_of
  resolve_body_search query = on_index e.search_body (collect_body_terms query)

  -- The numbers that SEARCH answers, from the position `idx` on.
  unfoldable pub found_from : SearchKey → SearchContext → Bool → ℕ → List CachedMail → List ℕ
  unfolding build_search_view
  found_from query ctx uid_mode idx [] = []
  found_from query ctx uid_mode idx (cached ∷ mails) =
      let rest = found_from query ctx uid_mode (suc idx) mails in
      if matches e.lower e.white query (build_search_view idx cached) ctx
      then (if uid_mode then cached.uid else seq_at idx) ∷ rest
      else rest

  -- `none` stands for the answer that no mailbox is selected.
  unfoldable pub cmd_search : Text → Bool → ImapSession → Option (List ℕ)
  unfolding found_from resolve_body_search
  cmd_search args uid_mode s =
      let query = parse e.lower e.upper args in
      if is_selected s.state
      then some (found_from query (resolve_body_search query) uid_mode 0 s.mails)
      else none
