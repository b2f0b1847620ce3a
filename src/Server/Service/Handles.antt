-- ===== src/Server/Service/Handles.antt =====
-- Handles in crates/omachat-server, from the request that claims one on.
use oma_chat.Base.{
  ℕ, ◌-◌, ◌≡◌, refl, true, false, ◌||◌, Option, none, some, List, Result, ok, Bytes, bytes_eq,
  bytes_eq_iff, bytes_eq_refl, Bool-cases, Option-cases, inl, inr, anyb, ap, ◌∙◌, subst,
}
use oma_chat.Nostr.Urls.{is_some, is_none}
use oma_chat.Server.Storage
use oma_chat.Server.Storage.{
  Storage, AccountRow, AccountRecord, NonceRow, account_row, find_by, find_device, has_value, id_of,
  handle_of, pubkey_of, update, set_handle, set_pubkey, is_taken, insert_account, create_account,
  random_id, write_handle, claim_handle, drop_before, remember_proof_nonce, resolve_handle, to_i64,
}
use oma_chat.Server.Storage.Rows.{find_by_snoc, find_by-update, find_by_unique, find_by-has_value}
use oma_chat.Server.Storage.Integrity.{IsStorage, claim_handle-IsStorage}
use oma_chat.Server.Service.{Service, ServiceLib, ServiceRequest, serve}
use oma_chat.Server.Service.Serving.{IsKept, serve-keeps, serve-IsStorage}

-- The account has the handle.
abbrev pub Holds : Bytes → Bytes → Storage → Type 0
Holds id value s =
    (row : AccountRow) × (find_by id_of id s.accounts ≡ some row) × (row.handle ≡ some value)

module _ (id value : Bytes) where
  -- An update of rows that leaves the handle of this account.
  Holds-update :
      (s : Storage) (set : AccountRow → AccountRow) (other : Bytes)
      → ((row : AccountRow) → (set row).id ≡ row.id)
      → ((row : AccountRow) → (set row).handle ≡ row.handle)
      → Holds id value s
      → Holds id value (record s { accounts = update set other s.accounts })
  Holds-update s set other same kept (row, found, held) =
      let there = find_by-update set other id s.accounts row same found in
      elim (Bool-cases (bytes_eq id other)) [
        | inl here ↦ (set row, (rw here at there), kept row ∙ held)
        | inr differs ↦ (row, (rw differs at there), held)
      ]

  create_account-Holds :
      (hex_encode : Bytes → Bytes) (drawn : Option Bytes) (s : Storage) (key name : Bytes) (now : ℕ)
      → Holds id value s
      → Holds id value (create_account hex_encode drawn s key name now).0
  unfolding create_account random_id insert_account
  create_account-Holds hex_encode none s key name now h = h
  create_account-Holds hex_encode (some bytes) s key name now (row, found, held) =
      elim (Bool-cases (
        is_some (find_by id_of (hex_encode bytes) s.accounts)
        || is_some (find_device key s.devices))) [
          | inl taken ↦ rw (create_account, random_id, insert_account, taken) (row, found, held)
          | inr free ↦
              rw (create_account, random_id, insert_account, free)
                (row, find_by_snoc id_of id s.accounts _ row found, held)
        ]

  same_row :
      (s : Storage) (other : Bytes) (claimer row : AccountRow)
      → bytes_eq id other ≡ true
      → find_by id_of other s.accounts ≡ some claimer
      → find_by id_of id s.accounts ≡ some row
      → claimer ≡ row
  same_row s other claimer row here there found =
      let eq : id ≡ other = (bytes_eq_iff id other).0 here in
      let found' : find_by id_of other s.accounts ≡ some row = rw (← eq) found in cc

  never :
      (claimer row : AccountRow)
      → is_some claimer.handle ≡ false
      → row.handle ≡ some value
      → claimer ≡ row
      → ⊥
  never claimer row unset held same =
      let unset' : is_some row.handle ≡ false = rw (← same) unset in
      let impossible = rw held at unset' in cc

  claim-Holds :
      (s : Storage) (other name : Bytes)
      → Holds id value s
      → Holds id value (claim_handle s other name).0
  unfolding claim_handle write_handle
  claim-Holds s other name (row, found, held) =
      elim (Option-cases (find_by id_of other s.accounts)) [
        | inl nobody ↦ rw (claim_handle, nobody) (row, found, held)
        | inr (claimer, there) ↦ elim (Bool-cases (is_some claimer.handle)) [
          | inl set ↦ rw (claim_handle, there, set) (row, found, held)
          | inr unset ↦ elim (Bool-cases (is_taken handle_of name other s.accounts)) [
            | inl taken ↦ rw (claim_handle, there, unset, write_handle, taken) (row, found, held)
            | inr free ↦
                let updated =
                  find_by-update (set_handle name) other id s.accounts row (λ row. refl) found in
                elim (Bool-cases (bytes_eq id other)) [
                  | inl here ↦
                      absurd (
                        never claimer row unset held
                          (same_row s other claimer row here there found))
                  | inr differs ↦
                      rw (claim_handle, there, unset, write_handle, free)
                        (row, (rw differs at updated), held)
                ]
          ]
        ]
      ]

  remember-Holds :
      (s : Storage) (nonce other : Bytes) (now skew : ℕ)
      → Holds id value s
      → Holds id value (remember_proof_nonce s nonce other now skew).0
  unfolding remember_proof_nonce
  remember-Holds s nonce other now skew h =
      elim (Bool-cases (
        anyb (λ (row : NonceRow). bytes_eq row.nonce nonce)
          (drop_before (to_i64 (now - skew)) s.nostr_proof_nonces))) [
            | inl replayed ↦ rw (remember_proof_nonce, replayed) h
            | inr new ↦ rw (remember_proof_nonce, new) h
          ]

  bind-Holds :
      (s : Storage) (other key : Bytes)
      → Holds id value s
      → Holds id value (Storage.bind_nostr s other key).0
  unfolding Storage.bind_nostr
  bind-Holds s other key h = elim (Bool-cases (is_none (find_by id_of other s.accounts))) [
    | inl nobody ↦ rw (Storage.bind_nostr, nobody) h
    | inr there ↦ elim (Bool-cases (is_taken pubkey_of key other s.accounts)) [
      | inl taken ↦ rw (Storage.bind_nostr, there, taken) h
      | inr free ↦
          rw (Storage.bind_nostr, there, free)
            (Holds-update s (set_pubkey (some key)) other (λ row. refl) (λ row. refl) h)
    ]
  ]

  unbind-Holds :
      (s : Storage) (other : Bytes)
      → Holds id value s
      → Holds id value (Storage.unbind_nostr s other).0
  unfolding Storage.unbind_nostr
  unbind-Holds s other h = elim (Option-cases (find_by id_of other s.accounts)) [
    | inl nobody ↦ rw (Storage.unbind_nostr, nobody) h
    | inr (row, there) ↦
        rw (Storage.unbind_nostr, there)
          (Holds-update s (set_pubkey none) other (λ row. refl) (λ row. refl) h)
  ]

  Holds-kept : IsKept (Holds id value)
  unfolding Storage.touch_device
  Holds-kept = record {
    touch = λ s key now h. h;
    create = create_account-Holds;
    claim = claim-Holds;
    remember = remember-Holds;
    bind = bind-Holds;
    unbind = unbind-Holds;
  }

  -- Who holds a handle in sound tables is who it resolves to.
  Holds-resolve_handle :
      (s : Storage)
      → IsStorage s
      → Holds id value s
      → (r : AccountRecord) × (resolve_handle s value ≡ some r) × (r.id ≡ id)
  unfolding resolve_handle has_value
  Holds-resolve_handle s i (row, found, held) =
      let has : has_value row.handle value ≡ true = rw (has_value, held) (bytes_eq_refl value) in
      let unique = find_by_unique handle_of id value s.accounts row (i.handles value) found has in
      (
        account_row row,
        rw (resolve_handle, unique) refl,
        (bytes_eq_iff row.id id).0 (find_by-has_value id_of id s.accounts row found),
      )

  claimed-Holds : (s next : Storage) → claim_handle s id value ≡ (next, ok tt) → Holds id value next
  unfolding claim_handle write_handle
  claimed-Holds s next h = elim (Option-cases (find_by id_of id s.accounts)) [
    | inl nobody ↦ (let impossible = rw (claim_handle, nobody) at h in cc)
    | inr (row, there) ↦ elim (Bool-cases (is_some row.handle)) [
      | inl set ↦ (let impossible = rw (claim_handle, there, set) at h in cc)
      | inr unset ↦ elim (Bool-cases (is_taken handle_of value id s.accounts)) [
        | inl taken ↦
            (let impossible = rw (claim_handle, there, unset, write_handle, taken) at h in cc)
        | inr free ↦
            let made = rw (claim_handle, there, unset, write_handle, free) at h in
            let updated =
              find_by-update (set_handle value) id id s.accounts row (λ row. refl) there in
            subst (Holds id value)
              (ap (λ (p : Storage × Result Storage.StorageError (Unit {0})). p.0) made)
              (set_handle value row, (rw (bytes_eq_refl id) at updated), refl)
      ]
    ]
  ]

-- A handle that an account has claimed in sound tables resolves to that account ever after, whatever
-- requests the server handles then.
pub claim_handle-serve :
    (lib : ServiceLib) (service : Service) (id value : Bytes) (next : Storage)
    (requests : List (Option Bytes × ServiceRequest))
    → IsStorage service.storage
    → claim_handle service.storage id value ≡ (next, ok tt)
    → (r : AccountRecord) × (resolve_handle
          (serve lib (record service { storage = next }) requests).storage
          value
        ≡ some r)
      × (r.id ≡ id)
claim_handle-serve lib service id value next requests i claimed =
    let sound =
      subst IsStorage (ap (λ (p : Storage × Result Storage.StorageError (Unit {0})). p.0) claimed)
        (claim_handle-IsStorage service.storage id value i) in
    Holds-resolve_handle id value _
      (serve-IsStorage lib (record service { storage = next }) requests sound)
      (serve-keeps lib (Holds id value) (Holds-kept id value) (record service { storage = next })
        requests (claimed-Holds id value service.storage next claimed))
