-- ===== src/Server/Service/Serving.antt =====
-- What lasts over the requests that crates/omachat-server/src/service.rs serves.
use oma_chat.Base.{
  ℕ, Option, List, [], ◌∷◌, Result, ok, err, Bytes, Option-cases, Result-cases, inl, inr,
}
use oma_chat.Base.Assoc
use oma_chat.Server.Storage
use oma_chat.Server.Storage.{
  Storage, StorageError, AccountRow, AccountRecord, account_row, account_for_device, find_by,
  has_value, id_of, handle_of, update, set_handle, set_pubkey, is_taken, touch_device,
  insert_account, create_account, random_id, write_handle, claim_handle, remember_proof_nonce,
  resolve_handle,
}
use oma_chat.Server.Storage.Integrity.{
  IsStorage, claim_handle-IsStorage, bind_nostr-IsStorage, unbind_nostr-IsStorage,
  touch_device-IsStorage, create_account-IsStorage, remember_proof_nonce-IsStorage,
}
use oma_chat.Server.Service
use oma_chat.Server.Service.{
  Service, ServiceLib, ServiceRequest, Command, BindProof, Reply, ErrorCode, answer, register,
  display_name_of, check_bind, commit_bind, check_unbind, commit_unbind, command, handle, serve,
  attached, detached, parse_handle, hello, authenticate, status, resolve_handle_of, bind_nostr_key,
  unbind_nostr_key, register_device, attach, detach, nip05_name, command_of,
}

-- Every statement that a request runs keeps the property.
pub record IsKept (P : Storage → Type 0) : Type 0 where
  pub touch : (s : Storage) (key : Bytes) (now : ℕ) → P s → P (touch_device s key now)
  pub create :
      (hex_encode : Bytes → Bytes) (drawn : Option Bytes) (s : Storage) (key name : Bytes) (now : ℕ)
      → P s
      → P (create_account hex_encode drawn s key name now).0
  pub claim : (s : Storage) (id value : Bytes) → P s → P (claim_handle s id value).0
  pub remember :
      (s : Storage) (nonce id : Bytes) (now skew : ℕ)
      → P s
      → P (remember_proof_nonce s nonce id now skew).0
  pub bind : (s : Storage) (id key : Bytes) → P s → P (Storage.bind_nostr s id key).0
  pub unbind : (s : Storage) (id : Bytes) → P s → P (Storage.unbind_nostr s id).0

answer-keeps :
    {A : Type 0} (P : Storage → Type 0) (service : Service) (run : Storage × Result StorageError A)
    (reply : A → Reply)
    → P run.0
    → P (answer service run reply).0.storage
unfolding answer
answer-keeps P service (storage, ok a) reply p = p
answer-keeps P service (storage, err e) reply p = p

module _ (lib : ServiceLib) (P : Storage → Type 0) (kept : IsKept P) where
  register-keeps :
      (drawn : Option Bytes) (service : Service) (key : Bytes) (name : Option Bytes) (now : ℕ)
      → P service.storage
      → P (register lib drawn service key name now).0.storage
  unfolding register
  register-keeps drawn service key name now p =
      elim (Option-cases (account_for_device service.storage key)) [
        | inr (known, found) ↦ rw (register, found) (kept.touch service.storage key now p)
        | inl nobody ↦ elim (Result-cases (display_name_of lib key name)) [
          | inr (e, refused) ↦ rw (register, nobody, refused) p
          | inl (shown, fine) ↦
              rw (register, nobody, fine)
                (answer-keeps P service _ _
                  (kept.create lib.hex_encode drawn service.storage key shown now p))
        ]
      ]

  commit_bind-keeps :
      (service : Service) (id : Bytes) (checked : Bytes × Bytes × Bytes) (now : ℕ)
      → P service.storage
      → P (commit_bind lib service id checked now).0.storage
  unfolding commit_bind
  commit_bind-keeps service id (name, key, nonce) now p =
      let remembered = kept.remember service.storage nonce id now 300 p in
      elim (Result-cases (remember_proof_nonce service.storage nonce id now 300).1) [
        | inr (e, replayed) ↦ rw (commit_bind, replayed) remembered
        | inl (u, new) ↦
            rw (commit_bind, new) (answer-keeps P service _ _ (kept.bind _ id key remembered))
      ]

  commit_unbind-keeps :
      (service : Service) (id : Bytes) (checked : Bytes × Bytes) (now : ℕ)
      → P service.storage
      → P (commit_unbind lib service id checked now).0.storage
  unfolding commit_unbind
  commit_unbind-keeps service id (name, nonce) now p =
      let remembered = kept.remember service.storage nonce id now 300 p in
      elim (Result-cases (remember_proof_nonce service.storage nonce id now 300).1) [
        | inr (e, replayed) ↦ rw (commit_unbind, replayed) remembered
        | inl (u, new) ↦
            rw (commit_unbind, new) (answer-keeps P service _ _ (kept.unbind _ id remembered))
      ]

  command-keeps :
      (service : Service) (id key : Bytes) (c : Command) (now : ℕ)
      → P service.storage
      → P (command lib service id key c now).0.storage
  unfolding command Service.bind_nostr Service.unbind_nostr
  command-keeps service id key hello now p = p
  command-keeps service id key authenticate now p = p
  command-keeps service id key status now p = p
  command-keeps service id key (resolve_handle_of value) now p = p
  command-keeps service id key (Command.claim_handle_of value) now p =
      elim (Result-cases (parse_handle value)) [
        | inr (e, refused) ↦ rw (command, refused) p
        | inl (name, fine) ↦
            rw (command, fine) (answer-keeps P service _ _ (kept.claim service.storage id name p))
      ]
  command-keeps service id key (bind_nostr_key proof) now p =
      elim (Result-cases (check_bind lib service id key proof now)) [
        | inr (e, refused) ↦ rw (command, Service.bind_nostr, refused) p
        | inl (checked, fine) ↦
            rw (command, Service.bind_nostr, fine) (commit_bind-keeps service id checked now p)
      ]
  command-keeps service id key (unbind_nostr_key nonce time signature) now p =
      elim (Result-cases (check_unbind lib service id key nonce time signature now)) [
        | inr (e, refused) ↦ rw (command, Service.unbind_nostr, refused) p
        | inl (checked, fine) ↦
            rw (command, Service.unbind_nostr, fine) (commit_unbind-keeps service id checked now p)
      ]

  detached-keeps :
      (service : Service) (id : Bytes) (session : ℕ)
      → P service.storage
      → P (detached service id session).storage
  unfolding detached
  detached-keeps service id session p = elim (Option-cases (Assoc.lookup id service.subscribers)) [
    | inl nobody ↦ rw (detached, nobody) p
    | inr (sessions, found) ↦ rw (detached, found) p
  ]

  attached-keeps :
      (service : Service) (id : Bytes) (session : ℕ)
      → P service.storage
      → P (attached service id session).storage
  unfolding attached
  attached-keeps service id session p = elim (Option-cases (Assoc.lookup id service.subscribers)) [
    | inl nobody ↦ rw (attached, nobody) p
    | inr (sessions, found) ↦ rw (attached, found) p
  ]

  handle-keeps :
      (drawn : Option Bytes) (service : Service) (request : ServiceRequest)
      → P service.storage
      → P (handle lib drawn service request).0.storage
  unfolding handle
  handle-keeps drawn service (register_device key name now) p =
      register-keeps drawn service key name now p
  handle-keeps drawn service (attach id session) p = attached-keeps service id session p
  handle-keeps drawn service (detach id session) p = detached-keeps service id session p
  handle-keeps drawn service (nip05_name name) p = p
  handle-keeps drawn service (command_of id key c now) p = command-keeps service id key c now p

  pub serve-keeps :
      (service : Service) (requests : List (Option Bytes × ServiceRequest))
      → P service.storage
      → P (serve lib service requests).storage
  unfolding serve
  serve-keeps service [] p = p
  serve-keeps service ((drawn, request) ∷ requests) p =
      serve-keeps (handle lib drawn service request).0 requests
        (handle-keeps drawn service request p)

IsStorage-kept : IsKept IsStorage
IsStorage-kept = record {
  touch = touch_device-IsStorage;
  create = create_account-IsStorage;
  claim = claim_handle-IsStorage;
  remember = remember_proof_nonce-IsStorage;
  bind = bind_nostr-IsStorage;
  unbind = unbind_nostr-IsStorage;
}

-- Whatever requests are served, no account id, handle, Nostr key, device key or nonce ever stands in
-- two rows of its table, if none did before.
pub serve-IsStorage :
    (lib : ServiceLib) (service : Service) (requests : List (Option Bytes × ServiceRequest))
    → IsStorage service.storage
    → IsStorage (serve lib service requests).storage
serve-IsStorage lib service requests i = serve-keeps lib IsStorage IsStorage-kept service requests i
