-- ===== src/EntryId/RoundTrip.antt =====
-- A mail id survives the entry id that is made of it (crates/tuta/src/mail_set_entry_id.rs).
use tutabridge.Prelude.{
  ℕ, ◌*◌, ◌/◌, ◌%◌, ◌^◌, ◌<◌, ◌≡◌, ap, ◌∙◌, some, List, ◌++◌, arith, length, All, All-append,
}
use tutabridge.EntryId.Codec.{
  Engine, IsEngine, entry, to_be_bytes, from_be_bytes, pack, construct, unpack, deconstruct,
}

from_be_bytes-to_be_bytes : (t : ℕ) → t < 2 ^ 32 → from_be_bytes (to_be_bytes t) ≡ t
unfolding from_be_bytes to_be_bytes
from_be_bytes-to_be_bytes t h = omega arith

to_be_bytes-All : (t : ℕ) → All (λ b. b < 256) (to_be_bytes t)
unfolding to_be_bytes
to_be_bytes-All t = (omega arith, (omega arith, (omega arith, (omega arith, tt))))

module _ {CustomId GeneratedId : Type 0} (url : Engine CustomId) (ext : Engine GeneratedId)
    (url_lawful : IsEngine url) (ext_lawful : IsEngine ext) where
  unpacks :
      (t : ℕ) (mail_id : GeneratedId) (bytes : List ℕ)
      → t < 2 ^ 32
      → ext.decode mail_id ≡ some bytes
      → length bytes ≡ 9
      → deconstruct url ext (url.encode (to_be_bytes t ++ bytes)) ≡ entry (t * 2 ^ 10) mail_id
  unfolding deconstruct unpack
  unpacks t mail_id bytes h d l =
      rw
        (
          url_lawful.decode_encode (to_be_bytes t ++ bytes) (
              All-append (λ b. b < 256) (to_be_bytes t) bytes (to_be_bytes-All t)
                (ext_lawful.decode_bytes mail_id bytes d)),
          unpack,
        )
        (unfold to_be_bytes in
          rw (l, ext_lawful.encode_decode mail_id bytes d)
            (ap (λ n. entry n mail_id) (omega arith)))

  -- A mail id of nine bytes and a date before the year 2109 make an entry id, and what that entry id
  -- is taken apart into is the mail id and the date, rounded down to a multiple of 1024 milliseconds.
  pub deconstruct-construct :
      (millis : ℕ) (mail_id : GeneratedId) (bytes : List ℕ)
      → ext.decode mail_id ≡ some bytes
      → length bytes ≡ 9
      → millis < 2 ^ 42
      → (id : CustomId) × (construct url ext millis mail_id ≡ some id)
        × (deconstruct url ext id ≡ entry (millis / 2 ^ 10 * 2 ^ 10) mail_id)
  unfolding construct deconstruct pack unpack
  deconstruct-construct millis mail_id bytes d l h =
      let buffer = to_be_bytes (millis / 2 ^ 10 % 2 ^ 32) ++ bytes in
      (
        url.encode buffer,
        rw (d, pack) (ground arith),
        unpacks (millis / 2 ^ 10 % 2 ^ 32) mail_id bytes (omega arith) d l
            ∙ ap (λ n. entry n mail_id) (omega arith),
      )
