-- ===== src/Tests/Keys.antt =====
-- src/crypto/secure-storage.js at concrete inputs.
use chainmail_protocol.Base.{
  ℕ, ◌≡◌, refl, List, [], ◌∷◌, some, none, Bytes, codes, ◌≢◌, ap, length, arith,
}
use chainmail_protocol.Base.Dict.{text_key}
use chainmail_protocol.Crypto.SecureStorage.{
  new_store, unlock, lock, write_array, fill_zero, opened, encrypt_data, decrypt_data,
  get_private_key, done,
}
use chainmail_protocol.Crypto.SecureStorage.Keys.{
  Call, fills, unlocks, locks, stores, deletes, step, run, get_private_key-run,
}
use chainmail_protocol.Tests.Entries.{entry_list, entry_list_laws}
use chainmail_protocol.Tests.Toy.{toy, toy_laws}

abbrev nonce : Bytes
nonce = 1 ∷ 2 ∷ 3 ∷ 4 ∷ 5 ∷ 6 ∷ 7 ∷ 8 ∷ 9 ∷ 10 ∷ 11 ∷ 12 ∷ []

other_name : codes "key:a" ≢ codes "key:bc"
other_name h = omega (arith, ap length h)

abbrev arrays : ℕ → Bytes
arrays i = i ∷ []

abbrev between : List Call
between =
    locks
    ∷ unlocks 6
    ∷ stores nonce (codes "bc") (8 ∷ [])
    ∷ deletes (codes "bc")
    ∷ fills 7 (5 ∷ [])
    ∷ []

fresh :
    (run toy entry_list
        (step toy entry_list
          (unlock 5 (new_store none arrays), [])
          (stores nonce (codes "a") (7 ∷ [])))
        between).0.memory
      7
    ≡ 5 ∷ []
unfolding run step unlock new_store lock write_array fill_zero
fresh = refl

get_private_key-run_example :
    (let t =
        run toy entry_list
          (step toy entry_list
            (unlock 5 (new_store none arrays), [])
            (stores nonce (codes "a") (7 ∷ [])))
          between in
      (get_private_key toy entry_list (codes "a") (unlock 7 t.0) t.1 ≡ done (some (7 ∷ [])))
      × (get_private_key toy entry_list (codes "a") (unlock 7 (lock (unlock 7 t.0))) t.1
          ≡ opened toy entry_list
              (decrypt_data toy (encrypt_data toy nonce (7 ∷ []) (5 ∷ [])) (fill_zero (5 ∷ [])))))
unfolding new_store
get_private_key-run_example =
    get_private_key-run toy entry_list entry_list_laws toy_laws nonce (7 ∷ []) (codes "a") 5 7
      between (new_store none arrays) [] refl (tt, (tt, (other_name, (other_name, (tt, tt))))) fresh
