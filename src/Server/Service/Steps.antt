-- ===== src/Server/Service/Steps.antt =====
-- Each request that crates/omachat-server/src/service.rs handles is at most one step of the abstract
-- directory.
use oma_chat.Base.{
  ℕ, ◌≡◌, refl, false, ◌||◌, Option, none, some, Result, ok, err, arith, Bytes, Bool-cases,
  Option-cases, Result-cases, inl, inr, subst,
}
use oma_chat.Base.Assoc
use oma_chat.Nostr.Urls.{is_some}
use oma_chat.Server.Storage
use oma_chat.Server.Storage.{
  Storage, StorageError, AccountRow, find_by, find_device, id_of, touch_device, insert_account,
  create_account, random_id, claim_handle, remember_proof_nonce, account_for_device,
}
use oma_chat.Server.Service
use oma_chat.Server.Service.{
  Service, ServiceLib, ServiceRequest, Command, Reply, answer, register, display_name_of,
  check_bind, commit_bind, check_unbind, commit_unbind, command, handle, attached, detached,
  parse_handle, hello, authenticate, status, resolve_handle_of, bind_nostr_key, unbind_nostr_key,
  register_device, attach, detach, nip05_name, command_of,
}
use oma_chat.Server.Service.Refinement.{
  directory, IsStep, opens, Refines, same-Refines, claim_handle-Refines, bind_nostr-Refines,
  unbind_nostr-Refines, remember-accounts, snoc-IsChange,
}

no_row : (o : Option AccountRow) → is_some o ≡ false → o ≡ none
no_row none h = refl
no_row (some row) h = cc

insert_account-Refines :
    (s : Storage) (id key name : Bytes) (now : ℕ) → Refines s (insert_account s id key name now).0
unfolding insert_account
insert_account-Refines s id key name now =
    elim (Bool-cases
      (is_some (find_by id_of id s.accounts) || is_some (find_device key s.devices))) [
        | inl taken ↦ rw (insert_account, taken) (same-Refines s)
        | inr free ↦
            rw (insert_account, free)
              (opens id (snoc-IsChange s.accounts _ (no_row _ (ground (arith, free)))))
      ]

create_account-Refines :
    (hex_encode : Bytes → Bytes) (drawn : Option Bytes) (s : Storage) (key name : Bytes) (now : ℕ)
    → Refines s (create_account hex_encode drawn s key name now).0
unfolding create_account random_id
create_account-Refines hex_encode none s key name now = same-Refines s
create_account-Refines hex_encode (some bytes) s key name now =
    insert_account-Refines s (hex_encode bytes) key name now

answer-Refines :
    {A : Type 0} (service : Service) (s : Storage) (run : Storage × Result StorageError A)
    (reply : A → Reply)
    → Refines s run.0
    → Refines s (answer service run reply).0.storage
unfolding answer
answer-Refines service s (storage, ok a) reply r = r
answer-Refines service s (storage, err e) reply r = r

module _ (lib : ServiceLib) (service : Service) where
  register-Refines :
      (drawn : Option Bytes) (key : Bytes) (name : Option Bytes) (now : ℕ)
      → Refines service.storage (register lib drawn service key name now).0.storage
  unfolding register touch_device
  register-Refines drawn key name now =
      elim (Option-cases (account_for_device service.storage key)) [
        | inr (known, found) ↦ rw (register, found) (same-Refines service.storage)
        | inl nobody ↦ elim (Result-cases (display_name_of lib key name)) [
          | inr (e, refused) ↦ rw (register, nobody, refused) (same-Refines service.storage)
          | inl (shown, fine) ↦
              rw (register, nobody, fine)
                (answer-Refines service service.storage _ _
                  (create_account-Refines lib.hex_encode drawn service.storage key shown now))
        ]
      ]

  -- A step from where the memory of nonces was changed is one from before.
  after_remember :
      (nonce id : Bytes) (now : ℕ) (t : Storage)
      → Refines (remember_proof_nonce service.storage nonce id now 300).0 t
      → Refines service.storage t
  after_remember nonce id now t r =
      subst (λ rows. IsStep (directory rows) (directory t.accounts))
        (remember-accounts service.storage nonce id now 300) r

  remembered-Refines :
      (nonce id : Bytes) (now : ℕ)
      → Refines service.storage (remember_proof_nonce service.storage nonce id now 300).0
  remembered-Refines nonce id now =
      after_remember nonce id now (remember_proof_nonce service.storage nonce id now 300).0
        (same-Refines (remember_proof_nonce service.storage nonce id now 300).0)

  commit_bind-Refines :
      (id : Bytes) (checked : Bytes × Bytes × Bytes) (now : ℕ)
      → Refines service.storage (commit_bind lib service id checked now).0.storage
  unfolding commit_bind
  commit_bind-Refines id (name, key, nonce) now =
      elim (Result-cases (remember_proof_nonce service.storage nonce id now 300).1) [
        | inr (e, replayed) ↦ rw (commit_bind, replayed) (remembered-Refines nonce id now)
        | inl (u, new) ↦
            rw (commit_bind, new)
              (answer-Refines service service.storage _ _ (
                let stored = (remember_proof_nonce service.storage nonce id now 300).0 in
                after_remember nonce id now (Storage.bind_nostr stored id key).0
                  (bind_nostr-Refines stored id key)))
      ]

  commit_unbind-Refines :
      (id : Bytes) (checked : Bytes × Bytes) (now : ℕ)
      → Refines service.storage (commit_unbind lib service id checked now).0.storage
  unfolding commit_unbind
  commit_unbind-Refines id (name, nonce) now =
      elim (Result-cases (remember_proof_nonce service.storage nonce id now 300).1) [
        | inr (e, replayed) ↦ rw (commit_unbind, replayed) (remembered-Refines nonce id now)
        | inl (u, new) ↦
            rw (commit_unbind, new)
              (answer-Refines service service.storage _ _ (
                let stored = (remember_proof_nonce service.storage nonce id now 300).0 in
                after_remember nonce id now (Storage.unbind_nostr stored id).0
                  (unbind_nostr-Refines stored id)))
      ]

  command-Refines :
      (id key : Bytes) (c : Command) (now : ℕ)
      → Refines service.storage (command lib service id key c now).0.storage
  unfolding command Service.bind_nostr Service.unbind_nostr
  command-Refines id key hello now = same-Refines service.storage
  command-Refines id key authenticate now = same-Refines service.storage
  command-Refines id key status now = same-Refines service.storage
  command-Refines id key (resolve_handle_of value) now = same-Refines service.storage
  command-Refines id key (Command.claim_handle_of value) now =
      elim (Result-cases (parse_handle value)) [
        | inr (e, refused) ↦ rw (command, refused) (same-Refines service.storage)
        | inl (name, fine) ↦
            rw (command, fine)
              (answer-Refines service service.storage _ _
                (claim_handle-Refines service.storage id name))
      ]
  command-Refines id key (bind_nostr_key proof) now =
      elim (Result-cases (check_bind lib service id key proof now)) [
        | inr (e, refused) ↦
            rw (command, Service.bind_nostr, refused) (same-Refines service.storage)
        | inl (checked, fine) ↦
            rw (command, Service.bind_nostr, fine) (commit_bind-Refines id checked now)
      ]
  command-Refines id key (unbind_nostr_key nonce time signature) now =
      elim (Result-cases (check_unbind lib service id key nonce time signature now)) [
        | inr (e, refused) ↦
            rw (command, Service.unbind_nostr, refused) (same-Refines service.storage)
        | inl (checked, fine) ↦
            rw (command, Service.unbind_nostr, fine) (commit_unbind-Refines id checked now)
      ]

  attached-Refines :
      (id : Bytes) (session : ℕ) → Refines service.storage (attached service id session).storage
  unfolding attached
  attached-Refines id session = elim (Option-cases (Assoc.lookup id service.subscribers)) [
    | inl nobody ↦ rw (attached, nobody) (same-Refines service.storage)
    | inr (sessions, found) ↦ rw (attached, found) (same-Refines service.storage)
  ]

  detached-Refines :
      (id : Bytes) (session : ℕ) → Refines service.storage (detached service id session).storage
  unfolding detached
  detached-Refines id session = elim (Option-cases (Assoc.lookup id service.subscribers)) [
    | inl nobody ↦ rw (detached, nobody) (same-Refines service.storage)
    | inr (sessions, found) ↦ rw (detached, found) (same-Refines service.storage)
  ]

  -- Each request, whatever its answer, leaves every account's handle and key as they were, or does one
  -- thing to one account: it opens it without handle and key; gives it its first handle, which no
  -- other account has; gives it a key that no other account has; or takes its key away.
  pub handle-Refines :
      (drawn : Option Bytes) (request : ServiceRequest)
      → Refines service.storage (handle lib drawn service request).0.storage
  unfolding handle
  handle-Refines drawn (register_device key name now) = register-Refines drawn key name now
  handle-Refines drawn (attach id session) = attached-Refines id session
  handle-Refines drawn (detach id session) = detached-Refines id session
  handle-Refines drawn (nip05_name name) = same-Refines service.storage
  handle-Refines drawn (command_of id key c now) = command-Refines id key c now
