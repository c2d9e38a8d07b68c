-- ===== src/SessionStore/Corrupt.antt =====
-- What a store does to a saved entry that is not a session (crates/bridge/src/session_store/mod.rs).
use tutabridge.Prelude.{
  ◌≡◌, refl, Bool, true, false, not, ◌&&◌, Option, none, some, List, [], ◌∷◌, arith,
}
use tutabridge.Prelude.Text.{Text}
use tutabridge.SessionStore.Errors.{ok, allows_reauthentication}
use tutabridge.SessionStore.Codec.{Formats, decode}
use tutabridge.SessionStore.State.{
  Backend, State, unloaded, Persistence, writable, unreadable, replace_invalid, fresh, on_inspected,
  on_failed, for_password, persisted, on_read, on_raw, load_for_password, save_with_policy,
  load as load_state, inspect as inspect_state, save as save_state, delete as delete_state,
  load_persisted as load_persisted_state,
}
use tutabridge.SessionStore.Protected.{loads}
use tutabridge.SessionStore.Store.{
  Call, load, inspect, load_interactive, delete, load_persisted, save, save_preserving, run, call,
  calls,
}

abbrev pub opens : Bool → Call → Bool
opens allowed load_interactive = true
opens allowed (load_persisted password_supplied) = password_supplied
opens allowed load = false
opens allowed inspect = false
opens allowed _ = allowed

abbrev pub saves : Call → Bool
saves (save c) = true
saves (save_preserving c) = true
saves _ = false

-- No save comes behind a password login before the entry is read again without one.
unfoldable pub authorises_none : Bool → List Call → Bool
authorises_none allowed [] = true
authorises_none allowed (c ∷ cs) = not (allowed && saves c) && authorises_none (opens allowed c) cs

data IsUntouched : Bool → State → Type 0 where
  strict :
      (m : Option Text)
      → IsUntouched false (record { cache = unloaded; persistence = unreadable; warning = m })
  open_to_save :
      (m : Option Text)
      → IsUntouched true (record { cache = unloaded; persistence = replace_invalid; warning = m })

module _ {W : Type 0} (formats : Formats) (backend : Backend W) (raw : Text) (w : W) where
  abbrev Kept : Bool → State × W → Type 0
  Kept allowed sw = IsUntouched allowed sw.0 × (sw.1 ≡ w)

  module _ (reads : backend.read w ≡ (ok (some raw), w))
      (no_session : decode formats raw ≡ none) where
    reads-Kept :
        (c : Call) (allowed : Bool) (p : Persistence) (m : Option Text)
        → loads c ≡ true
        → Kept (opens allowed c) (
            call formats backend
              (ok tt)
              c
              (record { cache = unloaded; persistence = p; warning = m })
              w)
    unfolding call run load_state on_read on_raw inspect_state on_inspected load_for_password
        for_password on_failed load_persisted_state persisted allows_reauthentication
    reads-Kept load o p m h = rw (reads, no_session) (strict _, refl)
    reads-Kept inspect o p m h = rw (reads, no_session) (strict _, refl)
    reads-Kept load_interactive o p m h = rw (reads, no_session) (open_to_save _, refl)
    reads-Kept (load_persisted true) o p m h = rw (reads, no_session) (open_to_save _, refl)
    reads-Kept (load_persisted false) o p m h = rw (reads, no_session) (strict _, refl)
    reads-Kept delete o p m h = ground arith
    reads-Kept (save c) o p m h = ground arith
    reads-Kept (save_preserving c) o p m h = ground arith

    call-Kept :
        (c : Call) (allowed : Bool) (s : State)
        → IsUntouched allowed s
        → not (allowed && saves c) ≡ true
        → Kept (opens allowed c) (call formats backend (ok tt) c s w)
    unfolding call run save_with_policy save_state delete_state
    call-Kept load o s (strict m) h = reads-Kept load o unreadable m refl
    call-Kept inspect o s (strict m) h = reads-Kept inspect o unreadable m refl
    call-Kept load_interactive o s (strict m) h = reads-Kept load_interactive o unreadable m refl
    call-Kept (load_persisted p) o s (strict m) h =
        reads-Kept (load_persisted p) o unreadable m refl
    call-Kept delete o s (strict m) h = (strict m, refl)
    call-Kept (save c) o s (strict m) h = (strict m, refl)
    call-Kept (save_preserving c) o s (strict m) h = (strict m, refl)
    call-Kept load o s (open_to_save m) h = reads-Kept load o replace_invalid m refl
    call-Kept inspect o s (open_to_save m) h = reads-Kept inspect o replace_invalid m refl
    call-Kept load_interactive o s (open_to_save m) h =
        reads-Kept load_interactive o replace_invalid m refl
    call-Kept (load_persisted p) o s (open_to_save m) h =
        reads-Kept (load_persisted p) o replace_invalid m refl
    call-Kept delete o s (open_to_save m) h = (open_to_save m, refl)
    call-Kept (save c) o s (open_to_save m) h = ground arith
    call-Kept (save_preserving c) o s (open_to_save m) h = ground arith

    calls-Kept :
        (cs : List Call) (allowed : Bool) (sw : State × W)
        → Kept allowed sw
        → authorises_none allowed cs ≡ true
        → (calls formats backend (ok tt) cs sw).1 ≡ w
    unfolding calls authorises_none
    calls-Kept [] allowed sw k h = k.1
    calls-Kept (c ∷ cs) allowed sw k h =
        calls-Kept cs (opens allowed c) (call formats backend (ok tt) c sw.0 sw.1)
          (rw k.1 (call-Kept c allowed sw.0 k.0 (ground arith))) (ground arith)

    -- A store whose first call reads the saved session, on a backend that then and later answers with
    -- bytes that are not a session, leaves the world as it was through all calls that follow, as long
    -- as no save comes behind a load with a password before the entry is read again without one.
    pub calls-invalid_session :
        (c : Call) (cs : List Call)
        → loads c ≡ true
        → authorises_none false (c ∷ cs) ≡ true
        → (calls formats backend (ok tt) (c ∷ cs) (fresh, w)).1 ≡ w
    unfolding calls authorises_none
    calls-invalid_session c cs l h =
        calls-Kept cs (opens false c) (call formats backend (ok tt) c fresh w)
          (reads-Kept c false writable none l) (ground arith)
