-- ===== src/Crypto/DoubleRatchet/Sessions.antt =====
-- src/crypto/double-ratchet.js: the serialization of a session, and SessionManager, which keeps the
-- sessions in memory and, if it has one, in a database. A skipped key keeps its pair as its name.
use chainmail_protocol.Base.{ℕ, List, [], ◌∷◌, ◌++◌, Option, none, some, Text, Bytes, codes}
use chainmail_protocol.Base.Database.{Db}
use chainmail_protocol.Base.Dict.{Dict, text_key, get, set, delete, keys}
use chainmail_protocol.Crypto.{Primitives, Encodings}
use chainmail_protocol.Crypto.DoubleRatchet.{
  KeyPair, MessageHeader, State, skip_key, new_state, init_as_initiator, init_as_responder,
}
pub mod Serialized
pub mod Saved

pub record SavedHeader : Type 0 where
  pub dh : Text
  pub pn : ℕ
  pub n : ℕ

pub record SavedPair : Type 0 where
  pub private_key : Text
  pub public_key : Text

pub record SavedState : Type 0 where
  pub dhs : Option SavedPair
  pub dhr : Option Text
  pub rk : Option Text
  pub cks : Option Text
  pub ckr : Option Text
  pub ns : ℕ
  pub nr : ℕ
  pub pn : ℕ
  pub skipped : List ((Bytes × ℕ) × Text)

abbrev pub session_key : Text → Text
session_key a = codes "session:" ++ a

module _ (c : Encodings) where
  unfoldable pub serialize_header : MessageHeader → SavedHeader
  serialize_header h = record { dh = c.to_base64 h.dh; pn = h.pn; n = h.n }

  unfoldable pub deserialize_header : SavedHeader → MessageHeader
  deserialize_header h = record { dh = c.from_base64 h.dh; pn = h.pn; n = h.n }

  abbrev pub key_text : Option Bytes → Option Text
  key_text none = none
  key_text (some key) = some (c.to_base64 key)

  -- An empty text counts as missing.
  abbrev pub text_key_of : Option Text → Option Bytes
  text_key_of none = none
  text_key_of (some []) = none
  text_key_of (some (u ∷ us)) = some (c.from_base64 (u ∷ us))

  abbrev pub pair_text : Option KeyPair → Option SavedPair
  pair_text none = none
  pair_text (some pair) = some (record {
    private_key = c.to_base64 pair.private_key;
    public_key = c.to_base64 pair.public_key;
  })

  abbrev pub pair_of : Option SavedPair → Option KeyPair
  pair_of none = none
  pair_of (some pair) = some (record {
    private_key = c.from_base64 pair.private_key;
    public_key = c.from_base64 pair.public_key;
  })

  unfoldable pub entries : Dict (Bytes × ℕ) Bytes → List ((Bytes × ℕ) × Text)
  entries [] = []
  entries ((k, v) ∷ m) = (k, c.to_base64 v) ∷ entries m

  -- `new Map` sets the entries in their order.
  unfoldable pub set_entries :
      List ((Bytes × ℕ) × Text) → Dict (Bytes × ℕ) Bytes → Dict (Bytes × ℕ) Bytes
  set_entries [] m = m
  set_entries ((k, v) ∷ es) m = set_entries es (set k (c.from_base64 v) m)

  unfoldable pub serialize : State → SavedState
  unfolding entries
  serialize s = record {
    dhs = pair_text s.dhs;
    dhr = key_text s.dhr;
    rk = key_text s.rk;
    cks = key_text s.cks;
    ckr = key_text s.ckr;
    ns = s.ns;
    nr = s.nr;
    pn = s.pn;
    skipped = entries s.skipped;
  }

  unfoldable pub deserialize : SavedState → State
  unfolding set_entries
  deserialize d = record {
    dhs = pair_of d.dhs;
    dhr = text_key_of d.dhr;
    rk = text_key_of d.rk;
    cks = text_key_of d.cks;
    ckr = text_key_of d.ckr;
    ns = d.ns;
    nr = d.nr;
    pn = d.pn;
    skipped = set_entries d.skipped [];
  }

  module _ (db : Db SavedState) where
    -- The sessions in memory, and the database if there is one.
    abbrev pub Manager : Type 0
    Manager = Dict Text State × Option db.Store

    abbrev pub keep_loaded : Text → Manager → Option SavedState → Manager × Option State
    keep_loaded a t none = (t, none)
    keep_loaded a t (some d) = ((set a (deserialize d) t.0, t.1), some (deserialize d))

    abbrev pub load_session : Text → Dict Text State → Option db.Store → Manager × Option State
    load_session a m none = ((m, none), none)
    load_session a m (some s) = keep_loaded a (m, some s) (db.get (session_key a) s)

    abbrev pub known_or_loaded : Text → Manager → Option State → Manager × Option State
    known_or_loaded a t none = load_session a t.0 t.1
    known_or_loaded a t (some session) = (t, some session)

    unfoldable pub get_session : Text → Manager → Manager × Option State
    unfolding deserialize
    get_session a t = known_or_loaded a t (get a t.0)

    abbrev pub put_session : Text → Option State → Option db.Store → Option db.Store
    put_session a (some session) (some s) = some (db.put (session_key a) (serialize session) s)
    put_session a (some session) none = none
    put_session a none s = s

    unfoldable pub save_session : Text → Manager → Manager
    unfolding serialize
    save_session a t = (t.0, put_session a (get a t.0) t.1)

    unfoldable pub create_session_as_initiator :
        Primitives → Bytes → Text → Bytes → Bytes → Manager → Manager
    unfolding save_session
    create_session_as_initiator p secret a shared remote t =
        save_session a (set a (init_as_initiator p secret shared remote new_state) t.0, t.1)

    unfoldable pub create_session_as_responder :
        Primitives → Text → Bytes → KeyPair → Manager → Manager
    unfolding save_session
    create_session_as_responder p a shared ours t =
        save_session a (set a (init_as_responder p shared ours new_state) t.0, t.1)

    abbrev pub delete_saved : Text → Option db.Store → Option db.Store
    delete_saved a none = none
    delete_saved a (some s) = some (db.del (session_key a) s)

    unfoldable pub delete_session : Text → Manager → Manager
    delete_session a t = (delete a t.0, delete_saved a t.1)

    unfoldable pub list_sessions : Manager → List Text
    list_sessions t = keys t.0
