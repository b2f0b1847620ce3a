-- ===== src/Lib.antt =====
-- OmaChat: a private chat client, its daemon and its relay-facing library. This development models
-- the part of it that decides where a private message goes, whether it may be sent, and what is
-- believed of what comes in.
--
-- The parts, and where they are:
--   * Base: Rust's Result and its conversions, lists, byte strings with their order, and BTreeMap
--     as an association list in the order of its keys (Base/Assoc).
--   * Crypto/Nip44: crates/omachat-crypto/src/nip44.rs, the version 2 payloads. `calc_padded_len`,
--     `pad`, `unpad` and the encryption and decryption under a conversation key have the names of
--     the source. A `usize` has 64 bits; `checked_next_power_of_two` tries the 64 powers of two
--     below 2^64, which are all there are.
--   * Nostr/Event: crates/omachat-nostr/src/event.rs, limits, signing and verification.
--   * Nostr/Discovery: crates/omachat-nostr/src/discovery.rs, the relay lists of NIP-65 and NIP-17.
--   * Nostr/Inbox: crates/omachat-nostr/src/inbox.rs, the verified inbox of a recipient.
--   * Nostr/DmRelayCache: crates/omachat-nostr/src/dm_relay_cache.rs, the cache of such inboxes. The
--     functions that change the cache return it with their result.
--   * Nostr/RelayListCache: crates/omachat-nostr/src/relay_list_cache.rs, the cache of relay lists.
--   * Nostr/DmRelayRouting: crates/omachat-nostr/src/dm_relay_routing.rs, the choice of relays.
--   * Nostr/RoutedPublish: crates/omachat-nostr/src/dm_routed_publish.rs, the plan of a publication.
--   * Nostr/GiftWrap: crates/omachat-nostr/src/gift_wrap.rs, the rumors of a chat and the seals and
--     gift wraps around them. The random bytes that the system yields are a list, of which each
--     draw takes the first; the 128 tries for a secret key are the fuel of that loop, as in the
--     source.
--   * Nostr/DmInbox: crates/omachat-nostr/src/dm_inbox.rs, the processing of gift wraps that come
--     in. `receive` returns the inbox with its result.
--   * Nostr/Dedup: the bounded memory of event ids of crates/omachat-nostr/src/pool.rs and
--     dm_inbox.rs.
--   * Nostr/Pool: the relay pool of the same file.
--   * Nostr/DmDelivery: crates/omachat-nostr/src/dm_delivery.rs, the delivery along a plan.
--   * Daemon/Confirmation: crates/omachatd/src/confirmation.rs, the one-time tokens of destructive
--     actions.
--   * Crypto/Account: crates/omachat-crypto/src/account.rs, handles and display names.
--   * Server/Transcripts: the byte strings of crates/omachat-proto/src/hosted.rs that are signed.
--   * Server/Storage: crates/omachat-server/src/storage.rs. A table is the list of its rows; a
--     statement of SQL is a function on it that keeps the constraints of the schema, and whose other
--     failures are left out.
--   * Server/Service: crates/omachat-server/src/service.rs, every request of the server. `serve` is
--     the loop of `spawn_service` over the requests that arrive. `bind_nostr` and `unbind_nostr`
--     are what they check and what they then change. Server/Service/Refinement has the abstract
--     directory of handles and keys that the tables refine, and Server/Service/Steps each request as
--     a step of it.
--   * Examples: the libraries as simple functions, and the theorems at concrete inputs.
--
-- How they interact: an inbox event is verified (Event), parsed (Discovery) and bound to a recipient
-- (Inbox); its record enters the cache (DmRelayCache); a route is chosen from the cache
-- (DmRelayRouting), a gift wrap is planned along it (RoutedPublish), and is published by the pool to
-- those relays that have authenticated the sender (DmDelivery, Pool). The reader opens it layer by
-- layer (GiftWrap over Event and Crypto/Nip44), once for each id, unless its author is blocked
-- (DmInbox over Dedup).
--
-- The server is apart from this: a session's requests reach the service one by one (Server/Service),
-- which checks handles (Crypto/Account) and proofs (Server/Transcripts) and changes the tables
-- (Server/Storage), from which NIP-05 documents are answered.
--
-- What the code takes from other crates is a parameter: Nip44Lib (the curve, HKDF, ChaCha20, HMAC,
-- base64), EventLib (hexadecimal, serde, SHA-256, Schnorr signatures), GiftWrapLib (serde),
-- ServiceLib and CharLib (Ed25519, Schnorr signatures, characters), UrlLib (the crate url and
-- IpAddr), CacheJson and ListJson (serde of the persisted caches) and Host (randomness and files).
-- Where a theorem relies on their behaviour, it takes Nip44Laws, AgreementLaws, EventLaws or
-- GiftWrapLaws. A connection of crates/omachat-nostr/src/relay.rs is its health and its answers.
-- Bytes are natural numbers, and a string is its bytes.
--
-- Loops are structural: over lists of tags, endpoints, records and ids. The wait for authentication
-- runs over the notifications that arrive before the deadline, so the end of that list is the
-- deadline.
--
-- Not modelled: the loops over the pool's notifications (pool.rs, dm_inbox_runtime.rs), the
-- connections' actors, the other caches, the daemon, the server's sessions, the sealed store and
-- the clients. Texts of error messages are left out; errors carry the errors that they quote.
pub mod Base
pub mod Crypto
pub mod Nostr
pub mod Daemon
pub mod Server
pub mod Examples
