-- ===== src/SessionStore/Protected.antt =====
-- What no use of a store does to the saved entry (crates/bridge/src/session_store/mod.rs).
use tutabridge.Prelude.{
  ◌≡◌, refl, Bool, true, false, Option, none, List, [], ◌∷◌, inl, inr, arith, Bool-cases,
}
use tutabridge.Prelude.Text.{Text}
use tutabridge.SessionStore.Errors.{
  ok, err, SessionStoreError, allows_reauthentication, allows_volatile_login,
}
use tutabridge.SessionStore.Codec.{Credentials, Formats}
use tutabridge.SessionStore.State.{
  Backend, State, unloaded, loaded, Persistence, writable, unreadable, volatile, fresh,
  on_inspected, on_failed, for_password, persisted, on_read, load_for_password, save_with_policy,
  load as load_state, inspect as inspect_state, save as save_state, delete as delete_state,
  load_persisted as load_persisted_state,
}
use tutabridge.SessionStore.Store.{
  Call, load, inspect, load_interactive, delete, load_persisted, save, save_preserving, run, call,
  calls,
}

abbrev pub loads : Call → Bool
loads delete = false
loads (save c) = false
loads (save_preserving c) = false
loads _ = true

-- A store whose read failed: it may not write, or it lives in memory.
data IsBlocked : State → Type 0 where
  refused :
      (w : Option Text)
      → IsBlocked (record { cache = unloaded; persistence = unreadable; warning = w })
  in_memory :
      (c : Option Credentials) (w : Option Text)
      → IsBlocked (record { cache = loaded c; persistence = volatile; warning = w })

module _ {W : Type 0} (formats : Formats) (backend : Backend W) (e : SessionStoreError)
    (w : W) where
  abbrev Spared : State × W → Type 0
  Spared sw = IsBlocked sw.0 × (sw.1 ≡ w)

  module _ (fails : backend.read w ≡ (err e, w)) (access : allows_reauthentication e ≡ false) where
    loads-Spared :
        (c : Call) (p : Persistence) (m : Option Text)
        → loads c ≡ true
        → Spared (
            call formats backend
              (ok tt)
              c
              (record { cache = unloaded; persistence = p; warning = m })
              w)
    unfolding call run load_state on_read inspect_state on_inspected load_for_password for_password
        on_failed load_persisted_state persisted
    loads-Spared load p m h = rw fails (refused _, refl)
    loads-Spared inspect p m h = rw fails (refused _, refl)
    loads-Spared load_interactive p m h =
        rw (fails, access)
          (elim (Bool-cases (allows_volatile_login e)) [
            | inl q ↦ rw q (in_memory none _, refl)
            | inr q ↦ rw q (refused _, refl)
          ])
    loads-Spared (load_persisted true) p m h = rw (fails, access) (refused _, refl)
    loads-Spared (load_persisted false) p m h = rw fails (refused _, refl)
    loads-Spared delete p m h = ground arith
    loads-Spared (save c) p m h = ground arith
    loads-Spared (save_preserving c) p m h = ground arith

    call-Spared : (c : Call) (s : State) → IsBlocked s → Spared (call formats backend (ok tt) c s w)
    unfolding call run load_state inspect_state on_inspected load_for_password for_password
        load_persisted_state persisted save_with_policy save_state delete_state
    call-Spared load s (refused m) = loads-Spared load unreadable m refl
    call-Spared inspect s (refused m) = loads-Spared inspect unreadable m refl
    call-Spared load_interactive s (refused m) = loads-Spared load_interactive unreadable m refl
    call-Spared (load_persisted p) s (refused m) = loads-Spared (load_persisted p) unreadable m refl
    call-Spared delete s (refused m) = (refused m, refl)
    call-Spared (save c) s (refused m) = (refused m, refl)
    call-Spared (save_preserving c) s (refused m) = (refused m, refl)
    call-Spared load s (in_memory k m) = (in_memory k m, refl)
    call-Spared inspect s (in_memory k m) = (in_memory k m, refl)
    call-Spared load_interactive s (in_memory k m) = (in_memory k m, refl)
    call-Spared (load_persisted true) s (in_memory k m) = (in_memory k m, refl)
    call-Spared (load_persisted false) s (in_memory k m) = (in_memory k m, refl)
    call-Spared delete s (in_memory k m) = (in_memory none m, refl)
    call-Spared (save c) s (in_memory k m) = (in_memory _ m, refl)
    call-Spared (save_preserving c) s (in_memory k m) = (in_memory _ m, refl)

    calls-Spared :
        (cs : List Call) (sw : State × W) → Spared sw → Spared (calls formats backend (ok tt) cs sw)
    unfolding calls
    calls-Spared [] sw b = b
    calls-Spared (c ∷ cs) sw b =
        calls-Spared cs (call formats backend (ok tt) c sw.0 sw.1) (rw b.1 (call-Spared c sw.0 b.0))

    -- A store whose first call reads the saved session, on a backend that then and later answers with
    -- an error other than that of an invalid session, leaves the world as it was, whatever calls
    -- follow, saves, deletions and password logins among them.
    pub calls-read_error :
        (c : Call) (cs : List Call)
        → loads c ≡ true
        → (calls formats backend (ok tt) (c ∷ cs) (fresh, w)).1 ≡ w
    unfolding calls
    calls-read_error c cs h =
        (calls-Spared cs (call formats backend (ok tt) c fresh w)
          (loads-Spared c writable none h)).1
