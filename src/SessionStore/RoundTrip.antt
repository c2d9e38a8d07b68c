-- ===== src/SessionStore/RoundTrip.antt =====
-- The saved form of a session and what a store that was saved gives, in this run and in the next
-- (crates/bridge/src/session_store/).
use tutabridge.Prelude.{◌≡◌, refl, Bool, false, Option, none, some, arith}
use tutabridge.Prelude.Text.{Text}
use tutabridge.Prelude.Json.{get}
use tutabridge.SessionStore.Errors.{ok}
use tutabridge.SessionStore.Codec.{
  Credentials, CredentialType, internal, external, Formats, to_value, from_value, encode, decode,
  type_name, type_named,
}
use tutabridge.SessionStore.State.{
  Backend, State, Cache, Persistence, writable, unreadable, replace_invalid, volatile,
  is_unreadable, fresh, load, save_with_policy, delete, on_written, on_deleted, on_read, on_raw,
}

type_named-type_name : (t : CredentialType) → type_named (type_name t) ≡ t
unfolding type_named type_name
type_named-type_name internal = refl
type_named-type_name external = refl

module _ (formats : Formats) (c : Credentials)
    (text_read : formats.from_slice (formats.to_text (to_value formats c))
      ≡ some (to_value formats c))
    (bytes_read : formats.from_base64 (formats.to_base64 c.encrypted_passphrase_key)
      ≡ some c.encrypted_passphrase_key) where
  -- A saved session is read back the same, with a JSON reader that inverts the writer on its object
  -- and a base64 engine that inverts itself on its key.
  decode-encode : decode formats (encode formats c) ≡ some c
  unfolding decode encode from_value to_value get
  decode-encode = rw (text_read, bytes_read, type_named-type_name c.credential_type) refl

  module _ {W : Type 0} (backend : Backend W) where
    written_world :
        (k : Cache) (p : Persistence) (m : Option Text) (w : W)
        → let d =
            save_with_policy formats backend c false
              (record { cache = k; persistence = p; warning = m })
              w in
          d.result ≡ ok tt → d.world ≡ (backend.write (encode formats c) w).1
    unfolding save_with_policy on_written
    written_world k writable m w h = refl
    written_world k unreadable m w h = ground arith
    written_world k replace_invalid m w h = refl
    written_world k volatile m w h = ground arith

    -- A save whose write went well is read back by a store of a later run, on a backend whose read
    -- then gives the bytes that were written, and with formats as above.
    pub load-save :
        (s : State) (w after : W)
        → (save_with_policy formats backend c false s w).result ≡ ok tt
        → backend.read (backend.write (encode formats c) w).1
          ≡ (ok (some (encode formats c)), after)
        → (load formats backend fresh (save_with_policy formats backend c false s w).world).result
          ≡ ok (some c)
    unfolding load on_read on_raw
    load-save s w after written reads =
        rw (written_world s.cache s.persistence s.warning w written, reads, decode-encode) refl

module _ {W : Type 0} (formats : Formats) (backend : Backend W) where
  abbrev Gives : Option Credentials → State → W → Type 0
  Gives c s w = load formats backend s w ≡ record { result = ok c; state = s; world = w }

  save-Gives :
      (c : Credentials) (preserve : Bool) (k : Cache) (p : Persistence) (m : Option Text) (w : W)
      → is_unreadable p ≡ false
      → let d =
          save_with_policy formats backend c preserve
            (record { cache = k; persistence = p; warning = m })
            w in
        Gives (some c) d.state d.world
  unfolding save_with_policy load on_written
  save-Gives c preserve k writable m w readable = refl
  save-Gives c preserve k replace_invalid m w readable = refl
  save-Gives c preserve k volatile m w readable = refl
  save-Gives c preserve k unreadable m w readable = ground arith

  delete_saved-Gives :
      (c : Credentials) (preserve : Bool) (k : Cache) (p : Persistence) (m : Option Text) (w : W)
      → is_unreadable p ≡ false
      → let d =
          save_with_policy formats backend c preserve
            (record { cache = k; persistence = p; warning = m })
            w in
        let e = delete formats backend d.state d.world in Gives none e.state e.world
  unfolding save_with_policy delete load on_written on_deleted
  delete_saved-Gives c preserve k writable m w readable = refl
  delete_saved-Gives c preserve k replace_invalid m w readable = refl
  delete_saved-Gives c preserve k volatile m w readable = refl
  delete_saved-Gives c preserve k unreadable m w readable = ground arith

  -- Unless the last read failed, a load behind a save gives the session that was saved, and behind a
  -- deletion that follows the save it gives none; neither asks the backend, whatever that answered to
  -- the write and to the deletion.
  pub load-save_delete :
      (c : Credentials) (preserve : Bool) (s : State) (w : W)
      → is_unreadable s.persistence ≡ false
      → let d = save_with_policy formats backend c preserve s w in
        let e = delete formats backend d.state d.world in
        (load formats backend d.state d.world
          ≡ record { result = ok (some c); state = d.state; world = d.world })
        × (load formats backend e.state e.world
            ≡ record { result = ok none; state = e.state; world = e.world })
  load-save_delete c preserve s w readable = (
    save-Gives c preserve s.cache s.persistence s.warning w readable,
    delete_saved-Gives c preserve s.cache s.persistence s.warning w readable,
  )
