-- ===== src/Search/Keys.antt =====
-- The types of crates/bridge/src/imap/search.rs. A day number is an `i64`: a number below 2 ^ 64, in
-- two's complement.
use tutabridge.Prelude.{ℕ, String, Bool, Option, List}
use tutabridge.Prelude.Text.{Text}

-- An end that is missing is `*`.
pub record SeqRange : Type 0 where
  pub start : ℕ
  pub end : Option ℕ

abbrev pub SeqSet : Type 0
SeqSet = List SeqRange

mutual
  pub data SearchKey : Type 0 where
    all seen unseen answered unanswered flagged unflagged draft undraft : SearchKey
    deleted undeleted recent new old keyword unkeyword : SearchKey
    and : SearchKeys → SearchKey
    or : SearchKey → SearchKey → SearchKey
    not_key : SearchKey → SearchKey
    subject from to cc bcc body text : Text → SearchKey
    header : Text → Text → SearchKey
    before on since sent_before sent_on sent_since : ℕ → SearchKey
    larger smaller : ℕ → SearchKey
    uid sequence : SeqSet → SearchKey

  pub data SearchKeys : Type 0 where
    nil : SearchKeys
    cons : SearchKey → SearchKeys → SearchKeys

pub record MsgView : Type 0 where
  pub seq : ℕ
  pub uid : ℕ
  pub element_id : String
  pub subject : Text
  pub from : Text
  pub to : Text
  pub cc : Text
  pub bcc : Text
  pub headers : Text
  pub date_ms : ℕ
  pub sent_ms : ℕ
  pub unread : Bool
  pub deleted : Bool
  pub size : ℕ

-- For each term the mails whose indexed body matched it.
abbrev pub SearchContext : Type 0
SearchContext = List (Text × List String)
