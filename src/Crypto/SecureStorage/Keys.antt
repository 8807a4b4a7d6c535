-- ===== src/Crypto/SecureStorage/Keys.antt =====
-- src/crypto/secure-storage.js: what SecureKeyStore keeps, over a list of calls.
use chainmail_protocol.Base.{
  ℕ, ==_iff, ◌≡◌, ◌≢◌, refl, ◌∙◌, subst, false, List, [], ◌∷◌, ◌++◌, Option, none, some, Text,
  Bytes, take, drop, length, take-length-append, drop-length-append, All, Bool-cases, inl, inr,
}
use chainmail_protocol.Base.Database.{Db, DbLaws, get-put_self, get-put_ne, get-del_ne, get-del_of}
use chainmail_protocol.Crypto.{Primitives, Laws}
use chainmail_protocol.Crypto.SecureStorage.{
  Result, done, store_locked, encrypt_data, decrypt_data, KeyStore, key_of, unlock, write_array,
  fill_zero, lock, key_name, opened, put_key, store_private_key, get_private_key,
  delete_private_key,
}

pub data Call : Type 0 where
  -- The caller writes into an array of its own.
  fills : ℕ → Bytes → Call
  unlocks : ℕ → Call
  locks : Call
  stores : Bytes → Text → Bytes → Call
  deletes : Text → Call

module _ (p : Primitives) (db : Db Bytes) where
  -- A call that throws leaves everything as it was.
  abbrev pub after : db.Store → Result db.Store → db.Store
  after s (done s') = s'
  after s _ = s

  unfoldable pub step : KeyStore × db.Store → Call → KeyStore × db.Store
  unfolding unlock lock write_array store_private_key delete_private_key
  step (k, s) (fills r bs) = (record k { memory = write_array r bs k.memory }, s)
  step (k, s) (unlocks key) = (unlock key k, s)
  step (k, s) locks = (lock k, s)
  step (k, s) (stores nonce name private_key) =
      (k, after s (store_private_key p db nonce name private_key k s))
  step (k, s) (deletes name) = (k, delete_private_key p db name s)

  unfoldable pub run : KeyStore × db.Store → List Call → KeyStore × db.Store
  unfolding step
  run t [] = t
  run t (x ∷ xs) = run (step t x) xs

  -- The call neither writes nor deletes the key of that name.
  abbrev pub Spares : Text → Call → Type 0
  Spares n (stores nonce name private_key) = key_name n ≢ key_name name
  Spares n (deletes name) = key_name n ≢ key_name name
  Spares n _ = Unit

  -- The call is not `unlock`.
  abbrev pub Stays : Call → Type 0
  Stays (unlocks key) = ⊥
  Stays _ = Unit

  decrypt_data-encrypt_data :
      (laws : Laws p) (nonce m key : Bytes)
      → length nonce ≡ 12
      → decrypt_data p (encrypt_data p nonce m key) key ≡ some m
  unfolding decrypt_data encrypt_data
  decrypt_data-encrypt_data laws nonce m key h =
      let c : Bytes = p.encrypt key nonce [] m in
      rw
        (
          subst (λ n. take n (nonce ++ c) ≡ nonce) h (take-length-append nonce c),
          subst (λ n. drop n (nonce ++ c) ≡ c) h (drop-length-append nonce c),
          decrypt_data,
        )
        (laws.decrypt-encrypt key nonce [] m)

  module _ (laws : DbLaws db) where
    get-put_key :
        (n : Text) (nonce : Bytes) (name : Text) (m : Bytes) (key : Option Bytes) (s : db.Store)
        → key_name n ≢ key_name name
        → db.get (key_name n) (after s (put_key p db nonce name m key s)) ≡ db.get (key_name n) s
    get-put_key n nonce name m none s d = refl
    get-put_key n nonce name m (some key) s d =
        get-put_ne laws (key_name n) (key_name name) (encrypt_data p nonce m key) s d

    get-step :
        (n : Text) (x : Call) (k : KeyStore) (s : db.Store)
        → Spares n x
        → db.get (key_name n) (step (k, s) x).1 ≡ db.get (key_name n) s
    unfolding step store_private_key delete_private_key
    get-step n (fills r bs) k s d = refl
    get-step n (unlocks key) k s d = refl
    get-step n locks k s d = refl
    get-step n (stores nonce name m) k s d = elim (Bool-cases k.unlocked) [
      | inl e ↦ rw e (get-put_key n nonce name m (key_of k) s d)
      | inr e ↦ rw e refl
    ]
    get-step n (deletes name) k s d = get-del_ne laws (key_name n) (key_name name) s d

    get-run :
        (n : Text) (xs : List Call) (k : KeyStore) (s : db.Store)
        → All (Spares n) xs
        → db.get (key_name n) (run (k, s) xs).1 ≡ db.get (key_name n) s
    unfolding run
    get-run n [] k s h = refl
    get-run n (x ∷ xs) k s h =
        get-run n xs (step (k, s) x).0 (step (k, s) x).1 h.1 ∙ get-step n x k s h.0

    -- What is stored under a name while the store is unlocked with the array `r` is read back after
    -- any calls that neither write nor delete that name, if the store is then unlocked with an array
    -- `r'` that has the bytes which `r` had, and if the nonce has 12 bytes. Locking the store makes
    -- that array zeros: unlocked with it once more, the store opens the entry with a key of zeros.
    pub get_private_key-run :
        (ciphers : Laws p) (nonce m : Bytes) (name : Text) (r r' : ℕ) (xs : List Call)
        (k : KeyStore) (s : db.Store)
        → length nonce ≡ 12
        → All (Spares name) xs
        → (run (step (unlock r k, s) (stores nonce name m)) xs).0.memory r' ≡ k.memory r
        → (let t = run (step (unlock r k, s) (stores nonce name m)) xs in
            (get_private_key p db name (unlock r' t.0) t.1 ≡ done (some m))
            × (get_private_key p db name (unlock r' (lock (unlock r' t.0))) t.1
                ≡ opened p db (
                    decrypt_data p (encrypt_data p nonce m (k.memory r)) (fill_zero (k.memory r)))))
    unfolding get_private_key unlock lock write_array step store_private_key
    get_private_key-run ciphers nonce m name r r' xs k s n h e =
        let s' : db.Store = db.put (key_name name) (encrypt_data p nonce m (k.memory r)) s in
        let g = get-run name xs (unlock r k) s' h in
        let own = get-put_self laws (key_name name) (encrypt_data p nonce m (k.memory r)) s in
        (
          rw (g, own, e, decrypt_data-encrypt_data ciphers nonce m (k.memory r) n) refl,
          rw (g, own, (==_iff r' r').1 refl, e) refl,
        )

    -- What a locked store and what is in it allow.
    abbrev IsLocked : db.Store → KeyStore × db.Store → Type 0
    IsLocked s t =
        (t.0.unlocked ≡ false)
        × ((j : Text) (v : Bytes) → db.get j t.1 ≡ some v → db.get j s ≡ some v)

    step-IsLocked :
        (x : Call) (s : db.Store) (t : KeyStore × db.Store)
        → Stays x
        → IsLocked s t
        → IsLocked s (step t x)
    unfolding step lock store_private_key delete_private_key
    step-IsLocked (fills r bs) s t y h = h
    step-IsLocked (unlocks key) s t y h = absurd y
    step-IsLocked locks s t y h = (refl, h.1)
    step-IsLocked (stores nonce name m) s t y h =
        (h.0, (λ j v. rw (h.0, store_private_key) (h.1 j v)))
    step-IsLocked (deletes name) s t y h =
        (h.0, (λ j v g. h.1 j v (get-del_of laws j (key_name name) v t.1 g)))

    run-IsLocked :
        (xs : List Call) (s : db.Store) (t : KeyStore × db.Store)
        → All Stays xs
        → IsLocked s t
        → IsLocked s (run t xs)
    unfolding run
    run-IsLocked [] s t y h = h
    run-IsLocked (x ∷ xs) s t y h = run-IsLocked xs s (step t x) y.1 (step-IsLocked x s t y.0 h)

    -- While the store is locked, whatever calls come before the next `unlock`: no private key is read,
    -- and nothing is written, so that what the database has it had when the store was locked.
    pub run-lock :
        (xs : List Call) (k : KeyStore) (s : db.Store) (name : Text)
        → All Stays xs
        → (let t = run (lock k, s) xs in
            (get_private_key p db name t.0 t.1 ≡ store_locked)
            × ((j : Text) (v : Bytes) → db.get j t.1 ≡ some v → db.get j s ≡ some v))
    unfolding get_private_key lock
    run-lock xs k s name y =
        let h = run-IsLocked xs s (lock k, s) y (refl, (λ j v g. g)) in (rw h.0 refl, h.1)
