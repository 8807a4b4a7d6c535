-- ===== src/Crypto/DoubleRatchet/Sessions/Saved.antt =====
-- src/crypto/double-ratchet.js: what is read back of the sessions of SessionManager.
use chainmail_protocol.Base.{
  ◌≡◌, ◌≢◌, refl, ap, ◌∙◌, sym, subst, List, [], ◌∷◌, Option, none, some, Text, All,
}
use chainmail_protocol.Base.Database.{Db, DbLaws, get-put_self, get-put_ne, get-del_ne}
use chainmail_protocol.Base.Dict.{Dict, text_key, get, set}
use chainmail_protocol.Crypto.{Encodings, EncodingLaws}
use chainmail_protocol.Crypto.DoubleRatchet.{State, skip_key}
use chainmail_protocol.Crypto.DoubleRatchet.Sessions.{
  SavedState, serialize, session_key, Manager, keep_loaded, load_session, known_or_loaded,
  get_session, save_session, delete_session, put_session, delete_saved,
}
use chainmail_protocol.Crypto.DoubleRatchet.Sessions.Serialized.{IsStorable, deserialize-serialize}

-- The calls on a manager, the use of a session, which changes it in memory, and a restart, which
-- forgets what is in memory. What is created is given as the state that it starts with.
pub data Call : Type 0 where
  gets : Text → Call
  uses : Text → (State → State) → Call
  creates : Text → State → Call
  saves : Text → Call
  deletes : Text → Call
  restarts : Call

-- The call neither writes nor deletes what is saved under an address.
abbrev pub Spares : Text → Call → Type 0
Spares a (creates b session) = session_key a ≢ session_key b
Spares a (saves b) = session_key a ≢ session_key b
Spares a (deletes b) = session_key a ≢ session_key b
Spares a _ = Unit

module _ (c : Encodings) (db : Db SavedState) where
  abbrev pub use_session : Text → (State → State) → Option State → Dict Text State → Dict Text State
  use_session a f none m = m
  use_session a f (some session) m = set a (f session) m

  unfoldable pub step : Manager c db → Call → Manager c db
  unfolding get_session save_session delete_session
  step t (gets a) = (get_session c db a t).0
  step t (uses a f) = (use_session a f (get a t.0) t.0, t.1)
  step t (creates a session) = save_session c db a (set a session t.0, t.1)
  step t (saves a) = save_session c db a t
  step t (deletes a) = delete_session c db a t
  step t restarts = ([], t.1)

  unfoldable pub run : Manager c db → List Call → Manager c db
  unfolding step
  run t [] = t
  run t (x ∷ xs) = run (step t x) xs

  -- The database has the session under the address.
  abbrev HasSaved : Text → State → Option db.Store → Type 0
  HasSaved a session none = ⊥
  HasSaved a session (some s) = db.get (session_key a) s ≡ some (serialize c session)

  module _ (laws : DbLaws db) where
    put_session-HasSaved :
        (a b : Text) (session : State) (o : Option State) (s : Option db.Store)
        → session_key a ≢ session_key b
        → HasSaved a session s
        → HasSaved a session (put_session c db b o s)
    put_session-HasSaved a b session none s d h = h
    put_session-HasSaved a b session (some q) none d h = h
    put_session-HasSaved a b session (some q) (some s) d h =
        get-put_ne laws (session_key a) (session_key b) (serialize c q) s d ∙ h

    delete_saved-HasSaved :
        (a b : Text) (session : State) (s : Option db.Store)
        → session_key a ≢ session_key b
        → HasSaved a session s
        → HasSaved a session (delete_saved c db b s)
    delete_saved-HasSaved a b session none d h = h
    delete_saved-HasSaved a b session (some s) d h =
        get-del_ne laws (session_key a) (session_key b) s d ∙ h

    keep_loaded-kept :
        (a : Text) (t : Manager c db) (o : Option SavedState) → (keep_loaded c db a t o).0.1 ≡ t.1
    keep_loaded-kept a t none = refl
    keep_loaded-kept a t (some d) = refl

    load_session-kept :
        (a : Text) (m : Dict Text State) (s : Option db.Store) → (load_session c db a m s).0.1 ≡ s
    load_session-kept a m none = refl
    load_session-kept a m (some s) = keep_loaded-kept a (m, some s) (db.get (session_key a) s)

    known_or_loaded-kept :
        (a : Text) (t : Manager c db) (o : Option State) → (known_or_loaded c db a t o).0.1 ≡ t.1
    known_or_loaded-kept a t none = load_session-kept a t.0 t.1
    known_or_loaded-kept a t (some session) = refl

    get_session-kept : (a : Text) (t : Manager c db) → (get_session c db a t).0.1 ≡ t.1
    unfolding get_session
    get_session-kept a t = known_or_loaded-kept a t (get a t.0)

    step-HasSaved :
        (a : Text) (session : State) (t : Manager c db) (x : Call)
        → Spares a x
        → HasSaved a session t.1
        → HasSaved a session (step t x).1
    unfolding step save_session delete_session
    step-HasSaved a session t (gets b) d h =
        subst (HasSaved a session) (sym (get_session-kept b t)) h
    step-HasSaved a session t (uses b f) d h = h
    step-HasSaved a session t (creates b q) d h =
        put_session-HasSaved a b session (get b (set b q t.0)) t.1 d h
    step-HasSaved a session t (saves b) d h = put_session-HasSaved a b session (get b t.0) t.1 d h
    step-HasSaved a session t (deletes b) d h = delete_saved-HasSaved a b session t.1 d h
    step-HasSaved a session t restarts d h = h

    run-HasSaved :
        (a : Text) (session : State) (t : Manager c db) (xs : List Call)
        → All (Spares a) xs
        → HasSaved a session t.1
        → HasSaved a session (run t xs).1
    unfolding run
    run-HasSaved a session t [] d h = h
    run-HasSaved a session t (x ∷ xs) d h =
        run-HasSaved a session (step t x) xs d.1 (step-HasSaved a session t x d.0 h)

    get_session-HasSaved :
        (codec : EncodingLaws c) (a : Text) (session : State) (s : Option db.Store)
        → IsStorable c session
        → HasSaved a session s
        → (get_session c db a ([], s)).1 ≡ some session
    unfolding get_session get
    get_session-HasSaved codec a session none i h = absurd h
    get_session-HasSaved codec a session (some s) i h =
        rw h (ap some (deserialize-serialize c codec session i))

    -- A session is continued after a restart as it was when it was last saved: of a session that is
    -- in memory and saved, and any calls that neither save nor create nor delete a session of its
    -- address, nothing is left after a restart but the state that was saved, if the base64 of its keys
    -- is not empty and the names of its skipped keys are distinct.
    pub get_session-run :
        (codec : EncodingLaws c) (a : Text) (session : State) (m : Dict Text State) (s : db.Store)
        (xs : List Call)
        → IsStorable c session
        → get a m ≡ some session
        → All (Spares a) xs
        → (get_session c db a (step (run (step (m, some s) (saves a)) xs) restarts)).1
          ≡ some session
    unfolding step save_session
    get_session-run codec a session m s xs i g d =
        get_session-HasSaved codec a session (run (m, put_session c db a (get a m) (some s)) xs).1 i
          (run-HasSaved a session (m, put_session c db a (get a m) (some s)) xs d
            (rw g (get-put_self laws (session_key a) (serialize c session) s)))
