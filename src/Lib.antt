-- ===== src/Lib.antt =====
-- Chainmail protocol: the messaging core of dMail in JavaScript.
--
-- The parts, and how they meet:
--   * Crypto is the Double Ratchet of src/crypto/double-ratchet.js. The curve, the key derivation
--     and the cipher are third-party libraries: the record `Primitives` holds them, and `Laws` says
--     what is relied on, that a shared secret does not depend on who computes it and that opening
--     undoes sealing. `init_as_initiator`, `init_as_responder`, `encrypt`, `decrypt`, `dh_ratchet`
--     and `skip_message_keys` are the methods of DoubleRatchetSession over the record of its state;
--     a random key pair is an argument. Chain, Delivery and Conversation hold the proofs.
--     Sessions is the serialization and SessionManager; Serialized and Saved are about what is read
--     back.
--   * Crypto/Encryption is src/crypto/encryption.js, and Crypto/Identity is src/crypto/identity.js with
--     the identity of a wallet: keys, addresses, and what IdentityStore keeps in its database. Ed25519
--     and base58 are the record `Signing`.
--   * Crypto/SecureStorage is src/crypto/secure-storage.js: Keys follows SecureKeyStore over a list of
--     calls, where a key is an array that the store shares with its caller, Compare is about the
--     comparison.
--   * Protocol/Message and Protocol/SealedEnvelope are the builders and parsers of src/protocol, over
--     the encryption, the identities and the proof of work. JSON is a parameter of each; Exchange is
--     about what is built at one end and parsed at the other.
--   * Network/RateLimiter, SizeLimiter and Reputation are the three limiters of
--     src/network/rate-limiter.js, which a relay asks before it stores a message. The clock is an
--     argument; the maps by sender are association lists in the order of a JavaScript Map.
--     Limit follows a limiter over a list of calls, the interval that cleans it up included.
--     WorkLimiter is the ProofOfWorkLimiter there, with an argument that says whether `require` is
--     defined, which it is not in an ES module, and Crypto/ProofOfWork the search and the test of
--     src/crypto/pow.js, whose rounds are the 2^40 + 1 numbers that the code tries.
--   * Network/RelayNode is src/network/relay-node.js: the handlers of messages and of requests, over
--     the reputation limiter and the storage, and the statistics. Storing is about what it stores,
--     Fetching about what it answers.
--   * Network/MailNode is the client of src/network/node.js: Operations is what it does with its
--     mailbox and its peers, whose answers are arguments. Mailbox and Listing are about what is stored
--     and shown, Delivery sends a message over a relay of Network/RelayNode. JSON is the record `Format`.
--   * Network/ConnectionPool is the pool of src/network/connection-pool.js, with what the libp2p node
--     reports and answers as arguments. Tracking follows it over a list of events, Choice is about
--     the relays that it chooses.
--   * Network/OnionRouting is src/network/onion-routing.js: the layers, the packet, the selection of
--     relays and the router. JSON and base64 are the record `Codec`; Math.random is a draw within
--     the total score. Journey sends a packet along its route, Selection is about the choice.
--   * Network/MessageQueue is the MessageQueue of src/network/connection-pool.js as a state machine:
--     idle, a timer pending, or a batch that `onBatchReady` has not answered yet. That callback may be
--     missing, as it is in a new queue: then a batch is dropped.
--   * Server/Auth is src/server/auth.js: challenges, sessions, the sign-in with a wallet, the rate
--     limit by address, and the middleware. The recovery of a signer is a parameter. Calls is a list
--     of calls on the store, with the intervals and the timeouts among them.
--   * Server/Api is src/server/secure-server.js: Handlers, with Mail and Usernames below it, is what
--     each route does with the data of its session, Routes the middleware in front of them, the login
--     and the WebSockets, Runs a list of what happens to the server. Changes and Guard are about what
--     a request may change, Identities and Sessions about whom it is answered as, Alone compares the
--     server with one that has a single session. The libraries and databases are the record `Services`.
--   * Storage/DhtStorage is src/storage/dht-storage.js: what a node stores of messages, with proofs,
--     and how it merges what other nodes answer. Lookup and History are about what is read back,
--     Merge about the answers and the proofs.
--   * Storage/Ipfs is src/storage/ipfs.js: uploading, downloading, and encrypted attachments, with what
--     the services answer as the record `Web`. Attachments is about what is downloaded.
--   * Registry is the UsernameRegistry of src/registry/username-registry.js; the pattern of a
--     username is written out on lower-case units. Names is about who holds one, Addresses about what
--     an address resolves to.
--   * Gateway is src/gateway/smtp-gateway.js: its addresses, in memory and in a database, the
--     recipients that it accepts, and the message that a mail becomes. Cache compares the addresses
--     in memory with those of the database.
--   * Base holds the names of the library that all share, lists, texts, maps and the stable sort. A
--     database is the record `Db`, which by `DbLaws` reads what was written last; the hash and the
--     encodings are the record `Encodings` of Crypto.
--     Tests runs the definitions at concrete inputs.
--
-- Numbers: times are milliseconds in ℕ, where JavaScript's doubles are exact. The scores of the
-- limiter are tenths of a point, so that its steps of 0.1 are whole: they are the decimal numbers
-- that the doubles of the code come close to.
-- Loops are structural recursion: `skip_keys` counts the keys that are left to skip, and `search`
-- the numbers that are left to try, of which the code has a limit of its own.
--
-- Lower case is that of ASCII letters; JavaScript's toLowerCase maps further letters too.
--
-- Not modelled: the serialization of packets, the streams and the topic between nodes, the token
-- client, the on-chain registry, the transport of mail, and the server for one user.
pub mod Base
pub mod Network
pub mod Protocol
pub mod Server
pub mod Crypto
pub mod Storage
pub mod Registry
pub mod Gateway
mod Tests
