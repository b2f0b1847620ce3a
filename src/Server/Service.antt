-- ===== src/Server/Service.antt =====
-- crates/omachat-server/src/service.rs: what the server does on each request. A reply in JSON is the
-- data that it is made of, an error its code; a subscriber is its session.
pub mod Serving
pub mod Handles
pub mod Binding
pub mod Names
pub mod Refinement
pub mod Steps
use oma_chat.Base.{
  ℕ, ◌+◌, ◌-◌, ◌==◌, Bool, true, false, not, ◌||◌, ◌&&◌, Option, none, some, List, [], ◌∷◌, ◌++◌,
  map, Result, ok, err, ◌>>=◌, ◌>>◌, reject_if, ok_or, map_err, length, leb, ltb, is_empty, allb,
  filterb, take, saturating_add, Bytes, text, bytes_eq, if◌then◌else◌,
}
use oma_chat.Base.Assoc
use oma_chat.Crypto.Account.{
  CharLib, parse_global_handle, parse_display_name, is_between, is_ascii_lowercase, is_ascii_digit,
}
use oma_chat.Server.Transcripts.{nostr_bind_transcript, nostr_unbind_transcript}
use oma_chat.Server.Storage
use oma_chat.Server.Storage.{
  Storage, StorageError, AccountRecord, sqlite, random, corrupt, not_found, handle_taken,
  handle_already_set, nostr_pubkey_taken, replayed_proof, account_for_device, touch_device,
  create_account, resolve_handle, nostr_for_handle, remember_proof_nonce,
}

abbrev pub nostr_proof_skew_seconds : ℕ
nostr_proof_skew_seconds = 300

-- `ErrorCode` of crates/omachat-proto/src/hosted.rs.
pub data ErrorCode : Type 0 where
  unsupported_version invalid_request not_authenticated already_authenticated : ErrorCode
  invalid_signature invalid_handle_code handle_taken_code handle_already_set_code : ErrorCode
  invalid_name nostr_pubkey_taken_code replayed_proof_code not_found_code : ErrorCode
  too_large rate_limited storage_failed internal : ErrorCode

pub record ServiceLib : Type 0 where
  pub chars : CharLib
  pub hex_encode : Bytes → Bytes
  pub hex_decode : Bytes → Option Bytes
  -- `VerifyingKey::from_bytes` and `verify_strict` of Ed25519
  pub is_device_key : Bytes → Bool
  pub verify_strict : Bytes → Bytes → Bytes → Bool
  -- the same of a Schnorr key, `Signature::try_from`, and `verify_raw`
  pub is_nostr_key : Bytes → Bool
  pub is_nostr_signature : Bytes → Bool
  pub verify_raw : Bytes → Bytes → Bytes → Bool
  -- `npub_from_public_key`
  pub npub : Bytes → Bytes

pub record ServiceConfig : Type 0 where
  pub server_public_key : Bytes
  pub nip05_relays : List Bytes

pub record Service : Type 0 where
  pub storage : Storage
  pub config : ServiceConfig
  pub subscribers : List (Bytes × List ℕ)

pub record BindProof : Type 0 where
  pub nostr_public_key : Bytes
  pub nonce : Bytes
  pub timestamp : ℕ
  pub device_signature : Bytes
  pub nostr_signature : Bytes

-- `Command` of crates/omachat-server/src/protocol.rs; the parameters of the first two are not read.
pub data Command : Type 0 where
  hello authenticate status : Command
  claim_handle_of resolve_handle_of : Bytes → Command
  bind_nostr_key : BindProof → Command
  unbind_nostr_key : Bytes → ℕ → Bytes → Command

pub data ServiceRequest : Type 0 where
  register_device : Bytes → Option Bytes → ℕ → ServiceRequest
  attach detach : Bytes → ℕ → ServiceRequest
  nip05_name : Bytes → ServiceRequest
  command_of : Bytes → Bytes → Command → ℕ → ServiceRequest

pub data Reply : Type 0 where
  null : Reply
  registration : AccountRecord → Bytes → Bool → Reply
  status_of : AccountRecord → Bytes → Bytes → Option Bytes → Reply
  claimed unbound : Bytes → Reply
  resolved : AccountRecord → Reply
  binding : Bytes → Bytes → Bytes → Reply
  names : Bytes → Bytes → List Bytes → Reply

unfoldable pub storage_error : StorageError → ErrorCode
storage_error not_found = not_found_code
storage_error handle_taken = handle_taken_code
storage_error handle_already_set = handle_already_set_code
storage_error nostr_pubkey_taken = nostr_pubkey_taken_code
storage_error replayed_proof = replayed_proof_code
storage_error sqlite = storage_failed
storage_error random = storage_failed
storage_error corrupt = storage_failed

unfoldable pub fresh_timestamp : ℕ → ℕ → Result ErrorCode (Unit {0})
fresh_timestamp timestamp now =
    reject_if
      (not (
        leb timestamp (saturating_add now nostr_proof_skew_seconds)
        && leb (now - nostr_proof_skew_seconds) timestamp))
      invalid_request

unfoldable pub parse_handle : Bytes → Result ErrorCode Bytes
parse_handle value = map_err (λ _. invalid_handle_code) (parse_global_handle value)

-- A reply to a statement of the storage.
unfoldable pub answer {ℓ} :
    {A : Type ℓ}
    → Service
    → Storage × Result StorageError A
    → (A → Reply)
    → Service × Result ErrorCode Reply
answer service (storage, ok a) reply = (record service { storage = storage }, ok (reply a))
answer service (storage, err e) reply =
    (record service { storage = storage }, err (storage_error e))

unfoldable pub account : Service → Bytes → Result ErrorCode AccountRecord
account service account_id = ok_or (Storage.account service.storage account_id) not_found_code

unfoldable pub resolve : Service → Bytes → Result ErrorCode AccountRecord
resolve service handle = ok_or (resolve_handle service.storage handle) not_found_code

-- `to_ascii_lowercase`.
unfoldable pub ascii_lower : ℕ → ℕ
ascii_lower byte = if is_between 65 90 byte then byte + 32 else byte

unfoldable pub is_name_byte : ℕ → Bool
is_name_byte byte =
    is_ascii_lowercase byte
    || (is_ascii_digit byte || ((byte == 45) || ((byte == 95) || (byte == 46))))

-- The branches of `handle` for a session that attaches and detaches.
unfoldable pub attached : Service → Bytes → ℕ → Service
attached service account_id session_id = elim (Assoc.lookup account_id service.subscribers) [
  | none ↦ record service {
    subscribers = Assoc.insert account_id (session_id ∷ []) service.subscribers;
  }
  | some sessions ↦ record service {
    subscribers = Assoc.insert account_id (sessions ++ (session_id ∷ [])) service.subscribers;
  }
]

unfoldable pub detached : Service → Bytes → ℕ → Service
detached service account_id session_id = elim (Assoc.lookup account_id service.subscribers) [
  | none ↦ service
  | some sessions ↦
      let kept = filterb (λ s. not (s == session_id)) sessions in
      record service {
        subscribers =
            if is_empty kept
            then Assoc.remove account_id service.subscribers
            else Assoc.insert account_id kept service.subscribers;
      }
]

module _ (lib : ServiceLib) where
  -- `auth::decode_key` and `decode_signature`.
  unfoldable pub decode_sized : ℕ → Bytes → Result ErrorCode Bytes
  decode_sized size value = do
    bytes ← ok_or (lib.hex_decode value) invalid_request
    reject_if (not (length bytes == size)) invalid_request
    ok bytes

  unfoldable pub decode_nostr_key : Bytes → Result ErrorCode Bytes
  decode_nostr_key value = decode_sized 32 value

  unfoldable pub verify_device : Bytes → Bytes → Bytes → Result ErrorCode (Unit {0})
  verify_device device_public_key transcript signature = do
    reject_if (not (lib.is_device_key device_public_key)) invalid_request
    reject_if (not (lib.verify_strict device_public_key transcript signature)) invalid_signature

  -- `verify_nostr` of crates/omachat-crypto/src/nostr.rs, whose errors are one here.
  unfoldable pub verify_nostr : Bytes → Bytes → Bytes → Result ErrorCode (Unit {0})
  verify_nostr public_key message signature =
      reject_if
        (not (
          lib.is_nostr_key public_key
          && (lib.is_nostr_signature signature && lib.verify_raw public_key message signature)))
        invalid_signature

  unfoldable pub display_name_of : Bytes → Option Bytes → Result ErrorCode Bytes
  display_name_of device_public_key none =
      ok (text "user-" ++ take 8 (lib.hex_encode device_public_key))
  display_name_of device_public_key (some name) =
      map_err (λ _. invalid_name) (parse_display_name lib.chars name)

  unfoldable pub register :
      Option Bytes → Service → Bytes → Option Bytes → ℕ → Service × Result ErrorCode Reply
  register drawn service device_public_key display_name now =
      elim (account_for_device service.storage device_public_key) [
        | some known ↦ (
          record service { storage = touch_device service.storage device_public_key now },
          ok (registration known device_public_key false),
        )
        | none ↦ elim (display_name_of device_public_key display_name) [
          | err e ↦ (service, err e)
          | ok name ↦
              answer service
                (create_account lib.hex_encode drawn service.storage device_public_key name now)
                (λ made. registration made device_public_key true)
        ]
      ]

  unfoldable pub status_reply : Service → Bytes → Bytes → Result ErrorCode Reply
  status_reply service account_id device_public_key = do
    known ← account service account_id
    key ← map_err storage_error (Storage.nostr_pubkey service.storage account_id)
    ok (status_of known device_public_key service.config.server_public_key key)

  -- What `bind_nostr` has checked before it changes anything: the handle, the key and the nonce.
  unfoldable pub check_bind :
      Service → Bytes → Bytes → BindProof → ℕ → Result ErrorCode (Bytes × Bytes × Bytes)
  check_bind service account_id device_public_key proof now = do
    known ← account service account_id
    handle ← ok_or known.handle invalid_handle_code
    nostr_public_key ← decode_nostr_key proof.nostr_public_key
    nonce ← decode_nostr_key proof.nonce
    device_signature ← decode_sized 64 proof.device_signature
    nostr_signature ← decode_sized 64 proof.nostr_signature
    fresh_timestamp proof.timestamp now
    let transcript =
        nostr_bind_transcript service.config.server_public_key account_id handle nostr_public_key
          nonce proof.timestamp
    verify_device device_public_key transcript device_signature
    verify_nostr nostr_public_key transcript nostr_signature
    ok (handle, nostr_public_key, nonce)

  -- The nonce is remembered, then the key is bound.
  unfoldable pub commit_bind :
      Service → Bytes → Bytes × Bytes × Bytes → ℕ → Service × Result ErrorCode Reply
  commit_bind service account_id (handle, nostr_public_key, nonce) now =
      let (storage, remembered) =
        remember_proof_nonce service.storage nonce account_id now nostr_proof_skew_seconds in
      elim remembered [
        | err e ↦ (record service { storage = storage }, err (storage_error e))
        | ok u ↦
            answer service (Storage.bind_nostr storage account_id nostr_public_key)
              (λ _. binding handle (lib.hex_encode nostr_public_key) (lib.npub nostr_public_key))
      ]

  unfoldable pub bind_nostr :
      Service → Bytes → Bytes → BindProof → ℕ → Service × Result ErrorCode Reply
  bind_nostr service account_id device_public_key proof now =
      elim (check_bind service account_id device_public_key proof now) [
        | err e ↦ (service, err e)
        | ok checked ↦ commit_bind service account_id checked now
      ]

  -- What `unbind_nostr` has checked before it changes anything: the handle and the nonce.
  unfoldable pub check_unbind :
      Service → Bytes → Bytes → Bytes → ℕ → Bytes → ℕ → Result ErrorCode (Bytes × Bytes)
  check_unbind service account_id device_public_key nonce_text timestamp signature_text now = do
    known ← account service account_id
    handle ← ok_or known.handle invalid_handle_code
    stored ← map_err storage_error (Storage.nostr_pubkey service.storage account_id)
    bound ← ok_or stored not_found_code
    nonce ← decode_nostr_key nonce_text
    device_signature ← decode_sized 64 signature_text
    fresh_timestamp timestamp now
    let transcript =
        nostr_unbind_transcript service.config.server_public_key account_id handle bound nonce
          timestamp
    verify_device device_public_key transcript device_signature
    ok (handle, nonce)

  unfoldable pub commit_unbind :
      Service → Bytes → Bytes × Bytes → ℕ → Service × Result ErrorCode Reply
  commit_unbind service account_id (handle, nonce) now =
      let (storage, remembered) =
        remember_proof_nonce service.storage nonce account_id now nostr_proof_skew_seconds in
      elim remembered [
        | err e ↦ (record service { storage = storage }, err (storage_error e))
        | ok u ↦ answer service (Storage.unbind_nostr storage account_id) (λ _. unbound handle)
      ]

  unfoldable pub unbind_nostr :
      Service → Bytes → Bytes → Bytes → ℕ → Bytes → ℕ → Service × Result ErrorCode Reply
  unbind_nostr service account_id device_public_key nonce timestamp device_signature now =
      elim (check_unbind service account_id device_public_key nonce timestamp device_signature
        now) [
          | err e ↦ (service, err e)
          | ok checked ↦ commit_unbind service account_id checked now
        ]

  unfoldable pub command : Service → Bytes → Bytes → Command → ℕ → Service × Result ErrorCode Reply
  command service account_id device_public_key hello now = (service, err already_authenticated)
  command service account_id device_public_key authenticate now =
      (service, err already_authenticated)
  command service account_id device_public_key status now =
      (service, status_reply service account_id device_public_key)
  command service account_id device_public_key (claim_handle_of value) now =
      elim (parse_handle value) [
        | err e ↦ (service, err e)
        | ok handle ↦
            answer service (Storage.claim_handle service.storage account_id handle)
              (λ _. claimed handle)
      ]
  command service account_id device_public_key (resolve_handle_of value) now =
      (service, do handle ← parse_handle value; known ← resolve service handle; ok (resolved known))
  command service account_id device_public_key (bind_nostr_key proof) now =
      bind_nostr service account_id device_public_key proof now
  command service account_id device_public_key (unbind_nostr_key nonce timestamp signature) now =
      unbind_nostr service account_id device_public_key nonce timestamp signature now

  unfoldable pub nip05 : Service → Bytes → Result ErrorCode Reply
  nip05 service name = do
    reject_if (is_empty name) invalid_request
    let lowered = map ascii_lower name
    reject_if (ltb 64 (length lowered) || not (allb is_name_byte lowered)) invalid_name
    stored ← map_err storage_error (nostr_for_handle service.storage lowered)
    key ← ok_or stored not_found_code
    ok (names lowered (lib.hex_encode key) service.config.nip05_relays)

  -- `handle`; `drawn` is what the generator yields for a new account.
  unfoldable pub handle : Option Bytes → Service → ServiceRequest → Service × Result ErrorCode Reply
  handle drawn service (register_device key name now) = register drawn service key name now
  handle drawn service (attach account_id session_id) =
      (attached service account_id session_id, ok null)
  handle drawn service (detach account_id session_id) =
      (detached service account_id session_id, ok null)
  handle drawn service (nip05_name name) = (service, nip05 service name)
  handle drawn service (command_of account_id key c now) = command service account_id key c now

  -- The loop of `spawn_service` over the requests that arrive, each with what the generator yields.
  unfoldable pub serve : Service → List (Option Bytes × ServiceRequest) → Service
  serve service [] = service
  serve service ((drawn, request) ∷ requests) = serve (handle drawn service request).0 requests
