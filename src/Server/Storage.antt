-- ===== src/Server/Storage.antt =====
-- crates/omachat-server/src/storage.rs: the tables of the server's database, and the statements on
-- them. A table is the list of its rows in the order of insertion; SQLite's own failures are left
-- out, but for the constraints that the schema declares.
pub mod Rows
pub mod Integrity
use oma_chat.Base.{
  ℕ, ◌-◌, ◌==◌, Bool, true, false, not, ◌||◌, ◌&&◌, Option, none, some, List, [], ◌∷◌, ◌++◌, map,
  Result, ok, err, ◌>>=◌, reject_if, ok_or, length, leb, ltb, anyb, filterb, Bytes, bytes_eq,
  if◌then◌else◌,
}
use oma_chat.Nostr.Urls.{is_some, is_none}

pub record AccountRow : Type 0 where
  pub id : Bytes
  pub handle : Option Bytes
  pub display_name : Bytes
  pub created_at : ℕ
  pub nostr_pubkey : Option Bytes

pub record DeviceRow : Type 0 where
  pub public_key : Bytes
  pub account_id : Bytes
  pub created_at : ℕ
  pub last_seen : ℕ

pub record NonceRow : Type 0 where
  pub nonce : Bytes
  pub account_id : Bytes
  pub seen_at : ℕ

pub record Storage : Type 0 where
  pub accounts : List AccountRow
  pub devices : List DeviceRow
  pub nostr_proof_nonces : List NonceRow

pub record AccountRecord : Type 0 where
  pub id : Bytes
  pub handle : Option Bytes
  pub display_name : Bytes
  pub created_at : ℕ

pub data StorageError : Type 0 where
  sqlite random corrupt not_found handle_taken handle_already_set : StorageError
  nostr_pubkey_taken replayed_proof : StorageError

abbrev pub empty_storage : Storage
empty_storage = record { accounts = []; devices = []; nostr_proof_nonces = [] }

abbrev pub i64_max : ℕ
i64_max = 9223372036854775807

-- `to_i64`; `from_i64` changes nothing that was written by it.
unfoldable pub to_i64 : ℕ → ℕ
to_i64 value = if leb value i64_max then value else i64_max

-- `account_row`.
abbrev pub account_row : AccountRow → AccountRecord
account_row row = record {
  id = row.id;
  handle = row.handle;
  display_name = row.display_name;
  created_at = row.created_at;
}

-- `random_id`, of what the generator yields.
unfoldable pub random_id : (Bytes → Bytes) → Option Bytes → Result StorageError Bytes
random_id hex_encode none = err random
random_id hex_encode (some bytes) = ok (hex_encode bytes)

-- `fixed_key`.
unfoldable pub fixed_key : Bytes → Result StorageError Bytes
fixed_key bytes = if length bytes == 32 then ok bytes else err corrupt

-- `column = value`; NULL equals nothing.
unfoldable pub has_value : Option Bytes → Bytes → Bool
has_value none value = false
has_value (some v) value = bytes_eq v value

-- `WHERE column = value`, of which there is one row at most.
unfoldable pub find_by : (AccountRow → Option Bytes) → Bytes → List AccountRow → Option AccountRow
find_by column value [] = none
find_by column value (row ∷ rows) =
    let rest = find_by column value rows in if has_value (column row) value then some row else rest

abbrev pub id_of : AccountRow → Option Bytes
id_of row = some row.id

abbrev pub handle_of : AccountRow → Option Bytes
handle_of row = row.handle

abbrev pub pubkey_of : AccountRow → Option Bytes
pubkey_of row = row.nostr_pubkey

unfoldable pub find_device : Bytes → List DeviceRow → Option DeviceRow
find_device key [] = none
find_device key (device ∷ devices) =
    let rest = find_device key devices in
    if bytes_eq device.public_key key then some device else rest

-- `UPDATE accounts SET .. WHERE id = ?`.
unfoldable pub update : (AccountRow → AccountRow) → Bytes → List AccountRow → List AccountRow
update set id [] = []
update set id (row ∷ rows) = (if bytes_eq row.id id then set row else row) ∷ update set id rows

-- Another row than that of the id has the value.
unfoldable pub is_taken : (AccountRow → Option Bytes) → Bytes → Bytes → List AccountRow → Bool
is_taken column value id [] = false
is_taken column value id (row ∷ rows) =
    (not (bytes_eq row.id id) && has_value (column row) value) || is_taken column value id rows

unfoldable pub account_for_device : Storage → Bytes → Option AccountRecord
account_for_device storage device_public_key =
    elim (find_device device_public_key storage.devices) [
      | none ↦ none
      | some device ↦ elim (find_by id_of device.account_id storage.accounts) [
        | none ↦ none
        | some row ↦ some (account_row row)
      ]
    ]

unfoldable pub account : Storage → Bytes → Option AccountRecord
account storage account_id = elim (find_by id_of account_id storage.accounts) [
  | none ↦ none
  | some row ↦ some (account_row row)
]

unfoldable pub touch_device : Storage → Bytes → ℕ → Storage
touch_device storage device_public_key now = record storage {
  devices =
      map
        (λ (device : DeviceRow).
          if bytes_eq device.public_key device_public_key
          then record device { last_seen = to_i64 now }
          else device)
        storage.devices;
}

-- The two inserts of `create_account`, of which a failure undoes both.
unfoldable pub insert_account :
    Storage → Bytes → Bytes → Bytes → ℕ → Storage × Result StorageError AccountRecord
insert_account storage id device_public_key display_name now =
    if is_some (find_by id_of id storage.accounts)
      || is_some (find_device device_public_key storage.devices)
    then (storage, err sqlite)
    else (
      record storage {
        accounts =
            storage.accounts
            ++ (record {
              id = id;
              handle = none;
              display_name = display_name;
              created_at = to_i64 now;
              nostr_pubkey = none;
            }
                ∷ []);
        devices =
            storage.devices
            ++ (record {
              public_key = device_public_key;
              account_id = id;
              created_at = to_i64 now;
              last_seen = to_i64 now;
            }
                ∷ []);
      },
      ok (record { id = id; handle = none; display_name = display_name; created_at = now }),
    )

unfoldable pub create_account :
    (Bytes → Bytes)
    → Option Bytes
    → Storage
    → Bytes
    → Bytes
    → ℕ
    → Storage × Result StorageError AccountRecord
create_account hex_encode drawn storage device_public_key display_name now =
    elim (random_id hex_encode drawn) [
      | err e ↦ (storage, err e)
      | ok id ↦ insert_account storage id device_public_key display_name now
    ]

abbrev pub set_handle : Bytes → AccountRow → AccountRow
set_handle handle row = record row { handle = some handle }

abbrev pub set_pubkey : Option Bytes → AccountRow → AccountRow
set_pubkey pubkey row = record row { nostr_pubkey = pubkey }

-- The update of `claim_handle`, on the account without a handle that was found.
unfoldable pub write_handle : Storage → Bytes → Bytes → Storage × Result StorageError (Unit {0})
write_handle storage account_id handle =
    if is_taken handle_of handle account_id storage.accounts then (storage, err handle_taken) else (
      record storage { accounts = update (set_handle handle) account_id storage.accounts },
      ok tt,
    )

unfoldable pub claim_handle : Storage → Bytes → Bytes → Storage × Result StorageError (Unit {0})
claim_handle storage account_id handle = elim (find_by id_of account_id storage.accounts) [
  | none ↦ (storage, err not_found)
  | some row ↦
      if is_some row.handle
      then (storage, err handle_already_set)
      else write_handle storage account_id handle
]

unfoldable pub resolve_handle : Storage → Bytes → Option AccountRecord
resolve_handle storage handle = elim (find_by handle_of handle storage.accounts) [
  | none ↦ none
  | some row ↦ some (account_row row)
]

-- The key of a row, if it has one.
unfoldable pub stored_key : Option Bytes → Result StorageError (Option Bytes)
stored_key none = ok none
stored_key (some bytes) = do key ← fixed_key bytes; ok (some key)

unfoldable pub nostr_pubkey : Storage → Bytes → Result StorageError (Option Bytes)
nostr_pubkey storage account_id = do
  row ← ok_or (find_by id_of account_id storage.accounts) not_found
  stored_key row.nostr_pubkey

unfoldable pub bind_nostr : Storage → Bytes → Bytes → Storage × Result StorageError (Unit {0})
bind_nostr storage account_id pubkey =
    if is_none (find_by id_of account_id storage.accounts)
    then (storage, err not_found)
    else if is_taken pubkey_of pubkey account_id storage.accounts
    then (storage, err nostr_pubkey_taken)
    else (
      record storage { accounts = update (set_pubkey (some pubkey)) account_id storage.accounts },
      ok tt,
    )

unfoldable pub unbind_nostr : Storage → Bytes → Storage × Result StorageError Bool
unbind_nostr storage account_id = elim (find_by id_of account_id storage.accounts) [
  | none ↦ (storage, err not_found)
  | some row ↦ (
    record storage { accounts = update (set_pubkey none) account_id storage.accounts },
    ok (is_some row.nostr_pubkey),
  )
]

unfoldable pub nostr_for_handle : Storage → Bytes → Result StorageError (Option Bytes)
nostr_for_handle storage handle = elim (find_by handle_of handle storage.accounts) [
  | none ↦ ok none
  | some row ↦ stored_key row.nostr_pubkey
]

-- `DELETE .. WHERE seen_at < oldest`.
unfoldable pub drop_before : ℕ → List NonceRow → List NonceRow
drop_before oldest rows = filterb (λ (row : NonceRow). not (ltb row.seen_at oldest)) rows

unfoldable pub remember_proof_nonce :
    Storage → Bytes → Bytes → ℕ → ℕ → Storage × Result StorageError (Unit {0})
remember_proof_nonce storage nonce account_id now skew_seconds =
    let kept = drop_before (to_i64 (now - skew_seconds)) storage.nostr_proof_nonces in
    if anyb (λ (row : NonceRow). bytes_eq row.nonce nonce) kept
    then (record storage { nostr_proof_nonces = kept }, err replayed_proof)
    else (
      record storage {
        nostr_proof_nonces =
            kept ++ (record { nonce = nonce; account_id = account_id; seen_at = to_i64 now } ∷ []);
      },
      ok tt,
    )
