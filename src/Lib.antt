-- ===== src/Lib.antt =====
-- TutaBridge: a bridge that serves a Tuta mailbox over IMAP and SMTP. A client of the realtime event bus
-- receives batches of entity updates; the event handler applies them to an in-memory store of
-- folders and to an on-disk cache; IMAP sessions answer their clients from the in-memory store; every
-- request to the server goes through one rate governor.
--
-- Which file models what:
-- - Prelude: shared names, tests on numbers, lists, association lists (Assoc), texts as lists of code
--   points (Text), JSON values (Json).
-- - Model, Backend: mails, folders and the trait `MailBackend` (crates/bridge/src/tuta.rs,
--   crates/tuta/src/folder_system.rs).
-- - Cache: `LocalStore` (crates/bridge/src/store.rs). Tables is its state, Rows the statements on
--   mails, UID counters and cursors, Files the message files and the full-text index, Uids the laws
--   of the counters, Keys those of the upsert.
-- - MailStore: the store in memory (crates/bridge/src/sync.rs). Defs is its state and its readers, Ops
--   its writers, Lookup what they do folder by folder, Numbering which of them keep UIDs distinct.
-- - Sync: `load_cached_folder`, `sync_folder`, `mail_to_metadata` (crates/bridge/src/sync.rs).
-- - Handler: crates/bridge/src/event_handler.rs. Events has `bucket_updates`, Create what a single
--   event does, Batch `apply_batch`, `process` and the loop; Order, Numbering, Uids, Move,
--   Inline and Restart have the laws. The handler takes the reader of entry ids as an argument.
-- - EntryId: `construct` and `deconstruct` (crates/tuta/src/mail_set_entry_id.rs).
-- - EventBus: crates/tuta/src/event_bus.rs. Policy has the reconnect rules, Run the loop as a step
--   function, Messages the parsing of messages, over a JSON reader that is a parameter; Bounds, Trace
--   and Encoded have the laws.
-- - Governor: crates/bridge/src/governed_client.rs. Backoff has the waits, Gate the shared state and
--   the requests as interleaved steps, Delays and Safety the laws.
-- - Retry: src/service/policy.rs (Service) and the retries of crates/bridge/src/sync.rs (Syncer).
-- - Session: crates/bridge/src/imap/session.rs. State is `ImapSession`, Sets the sequence sets and the
--   loops that expunge, Commands and Removal the commands, Dispatch `handle_command` and the loop of
--   crates/bridge/src/imap/mod.rs, Find SEARCH, Response and Fetch FETCH; Expunges, News, Addressed,
--   Guard, Gate, Opening, Found, Answers and Copies have the laws, Append is APPEND.
-- - Search: crates/bridge/src/imap/search.rs. Keys has the types, Tokens the tokenizer and sequence
--   sets, Dates the dates, Parse the parser, Match the evaluation and the terms for the index; Shrinks,
--   Fuel, Queries, Calendar and Terms have the laws.
-- - Wire: the texts of crates/bridge/src/imap/session.rs. Strings has what is written, Args what is read
--   of a command; Reading and Items have the laws.
-- - BodyCache: crates/bridge/src/body_cache.rs. Defs has the state and the operations, Order the laws of the
--   ticks, Entries those of the entries, Budget the invariant.
-- - FolderTree: crates/tuta/src/folder_system.rs. Defs has the trees and what is asked of them, Build
--   how they are built from the flat list, Paths that the answers agree.
-- - Mime: crates/bridge/src/mail/. Library has what is called of libraries, Strings what is used of `str`;
--   Html, Words (encoded words), Addresses, Dates, Headers, Transfer and Parts the pieces; Render
--   `mail_to_rfc2822`, Parser `parse_rfc2822`, Structure BODYSTRUCTURE, Index the text for
--   the full-text index, Drafts the drafts of crates/bridge/src/tuta.rs. Ends, Escapes, Stored and
--   HtmlRoundTrip have the laws of HTML, Sent those of drafts, Entries, Trims and AddressLists those of
--   addresses, Calendar those of dates, Sections those of the header sections that FETCH answers with.
-- - SessionStore: crates/bridge/src/session_store/. Errors and Codec have the data, State the operations
--   over a backend, Store the public methods, Backends the keyring and pass; Protected, Corrupt and
--   RoundTrip have the laws.
-- - Utf7: crates/bridge/src/imap/utf7.rs, with the round trip.
-- - Smtp: crates/bridge/src/smtp/mod.rs. Lines is the capped reader, Words what a command line is read
--   as, Server the loop of `handle_connection` line by line; Chunks, Gate, Body and Recipients have the
--   laws.
--
-- State is passed explicitly. Times are milliseconds or seconds as in the source; 32-bit counters
-- wrap where the source lets them. Loops are structural: over a batch, a list of inputs, a text, a
-- list of mails, so that no fuel is needed; the four attempts of `retry` are counted down. A loop over
-- the messages of a channel is a fold over the list of what arrives. The parser of a search query runs
-- on fuel: each key and each list of keys takes one unit, so that twice the number of tokens is enough;
-- the digits of a number are written on as much fuel as the number is, and each takes one unit.
--
-- The parser of messages and the writer of BODYSTRUCTURE nest on the length of the message as fuel, the
-- readers of message ids and encoded words on the length of their text: each step takes at least one
-- character off. The folder trees are built on the number of folders, one for each level: the parents of
-- a tree without a cycle are distinct folders. The code does not return on a cycle below a system folder,
-- where the model stops at that depth.
--
-- Not modelled: errors of SQLite and of the disk, encryption, sockets,
-- TLS, the staging directory in which a password store is rewritten,
-- the command line and the desktop application: they are I/O or calls of libraries. A position inside a
-- character, at which the code panics, is moved behind it.
-- Libraries that the modelled code relies on, base64 and Unicode's tables of white space and of case
-- among them, are parameters with the laws that are used; so are, where SMTP and SEARCH call them,
-- the parser and the rendering of messages.
pub mod Prelude
pub mod Model
pub mod Cache
pub mod MailStore
pub mod Backend
pub mod Sync
pub mod Handler
pub mod EventBus
pub mod Governor
pub mod Retry
pub mod Session
pub mod EntryId
pub mod Smtp
pub mod Search
pub mod Utf7
pub mod Wire
pub mod BodyCache
pub mod FolderTree
pub mod SessionStore
pub mod Mime
