-- ===== src/Mime.antt =====
-- Mails as texts: crates/bridge/src/mail/.
pub mod Strings
pub mod Html
pub mod Library
pub mod Words
pub mod Addresses
pub mod Entries
pub mod Trims
pub mod AddressLists
pub mod Dates
pub mod Calendar
pub mod Headers
pub mod Sections
pub mod Transfer
pub mod Parts
pub mod Parser
pub mod Structure
pub mod Render
pub mod Index
pub mod Drafts
pub mod Sent
pub mod Ends
pub mod Escapes
pub mod Stored
pub mod HtmlRoundTrip
pub mod Tests
