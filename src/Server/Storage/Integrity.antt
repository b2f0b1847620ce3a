-- ===== src/Server/Storage/Integrity.antt =====
-- The constraints of the schema of crates/omachat-server/src/storage.rs, kept by every statement.
use oma_chat.Base.{
  ltb, ℕ, ◌+◌, ◌-◌, ◌≤◌, ◌≡◌, refl, Bool, true, false, not, ◌||◌, Option, none, some, List, [], ◌∷◌,
  ◌++◌, map, arith, count, anyb, filterb, Bytes, bytes_eq, bytes_eq_iff, Bool-cases, Option-cases,
  inl, inr, if◌then◌else◌,
}
use oma_chat.Nostr.Urls.{is_some, is_none}
use oma_chat.Server.Storage.{
  Storage, AccountRow, DeviceRow, NonceRow, has_value, find_by, find_device, update, is_taken,
  id_of, handle_of, pubkey_of, set_handle, set_pubkey, touch_device, insert_account, create_account,
  random_id, write_handle, claim_handle, bind_nostr, unbind_nostr, drop_before,
  remember_proof_nonce, to_i64,
}
use oma_chat.Server.Storage.Rows.{
  holders, holders_snoc, find_by_none, holders-update_same, holders-update_other,
  holders-update_taken,
}

-- The keys that the schema declares unique are so.
pub record IsStorage (s : Storage) : Type 0 where
  pub ids : (v : Bytes) → holders id_of v s.accounts ≤ 1
  pub handles : (v : Bytes) → holders handle_of v s.accounts ≤ 1
  pub pubkeys : (v : Bytes) → holders pubkey_of v s.accounts ≤ 1
  pub devices : (v : Bytes) → count (λ (d : DeviceRow). bytes_eq d.public_key v) s.devices ≤ 1
  pub nonces : (v : Bytes) → count (λ (n : NonceRow). bytes_eq n.nonce v) s.nostr_proof_nonces ≤ 1

-- A column that an update writes keeps its values apart, if no other row holds the value.
holders_write :
    (column : AccountRow → Option Bytes) (set : AccountRow → AccountRow) (value id : Bytes)
    (rows : List AccountRow)
    → ((row : AccountRow) → column (set row) ≡ some value)
    → is_taken column value id rows ≡ false
    → ((v : Bytes) → holders id_of v rows ≤ 1)
    → ((v : Bytes) → holders column v rows ≤ 1)
    → (v : Bytes) → holders column v (update set id rows) ≤ 1
unfolding has_value
holders_write column set value id rows writes free ids once v =
    elim (Bool-cases (bytes_eq value v)) [
      | inl same ↦
          let eq : value ≡ v = (bytes_eq_iff value v).0 same in
          omega (arith, holders-update_taken column v set id rows (rw (← eq) free), ids id)
      | inr other ↦
          omega (
            arith,
            holders-update_other column v set id rows (λ row. rw (writes row) other),
            once v,
          )
    ]

write_handle-IsStorage :
    (s : Storage) (id handle : Bytes) → IsStorage s → IsStorage (write_handle s id handle).0
unfolding write_handle
write_handle-IsStorage s id handle i = elim (Bool-cases (is_taken handle_of handle id s.accounts)) [
  | inl taken ↦ rw (write_handle, taken) i
  | inr free ↦
      rw (write_handle, free)
        (record {
          ids = λ v. omega (
            arith,
            holders-update_same id_of v (set_handle handle) id s.accounts (λ row. refl),
            i.ids v,
          );
          handles =
              holders_write handle_of (set_handle handle) handle id s.accounts (λ row. refl) free
                i.ids i.handles;
          pubkeys = λ v. omega (
            arith,
            holders-update_same pubkey_of v (set_handle handle) id s.accounts (λ row. refl),
            i.pubkeys v,
          );
          devices = i.devices;
          nonces = i.nonces;
        })
]

pub claim_handle-IsStorage :
    (s : Storage) (id handle : Bytes) → IsStorage s → IsStorage (claim_handle s id handle).0
unfolding claim_handle
claim_handle-IsStorage s id handle i = elim (Option-cases (find_by id_of id s.accounts)) [
  | inl nobody ↦ rw (claim_handle, nobody) i
  | inr (row, found) ↦ elim (Bool-cases (is_some row.handle)) [
    | inl set ↦ rw (claim_handle, found, set) i
    | inr unset ↦ rw (claim_handle, found, unset) (write_handle-IsStorage s id handle i)
  ]
]

pub bind_nostr-IsStorage :
    (s : Storage) (id key : Bytes) → IsStorage s → IsStorage (bind_nostr s id key).0
unfolding bind_nostr
bind_nostr-IsStorage s id key i = elim (Bool-cases (is_none (find_by id_of id s.accounts))) [
  | inl nobody ↦ rw (bind_nostr, nobody) i
  | inr there ↦ elim (Bool-cases (is_taken pubkey_of key id s.accounts)) [
    | inl taken ↦ rw (bind_nostr, there, taken) i
    | inr free ↦
        rw (bind_nostr, there, free)
          (record {
            ids = λ v. omega (
              arith,
              holders-update_same id_of v (set_pubkey (some key)) id s.accounts (λ row. refl),
              i.ids v,
            );
            handles = λ v. omega (
              arith,
              holders-update_same handle_of v (set_pubkey (some key)) id s.accounts (λ row. refl),
              i.handles v,
            );
            pubkeys =
                holders_write pubkey_of (set_pubkey (some key)) key id s.accounts (λ row. refl) free
                  i.ids i.pubkeys;
            devices = i.devices;
            nonces = i.nonces;
          })
  ]
]

pub unbind_nostr-IsStorage :
    (s : Storage) (id : Bytes) → IsStorage s → IsStorage (unbind_nostr s id).0
unfolding unbind_nostr has_value
unbind_nostr-IsStorage s id i = elim (Option-cases (find_by id_of id s.accounts)) [
  | inl nobody ↦ rw (unbind_nostr, nobody) i
  | inr (row, found) ↦
      rw (unbind_nostr, found)
        (record {
          ids = λ v. omega (
            arith,
            holders-update_same id_of v (set_pubkey none) id s.accounts (λ row. refl),
            i.ids v,
          );
          handles = λ v. omega (
            arith,
            holders-update_same handle_of v (set_pubkey none) id s.accounts (λ row. refl),
            i.handles v,
          );
          pubkeys = λ v. omega (
            arith,
            holders-update_other pubkey_of v (set_pubkey none) id s.accounts (λ row. refl),
            i.pubkeys v,
          );
          devices = i.devices;
          nonces = i.nonces;
        })
]

touched_count :
    (key v : Bytes) (time : ℕ) (devices : List DeviceRow)
    → count
        (λ (d : DeviceRow). bytes_eq d.public_key v)
        (map
          (λ (d : DeviceRow).
            if bytes_eq d.public_key key then record d { last_seen = time } else d)
          devices)
      ≡ count (λ (d : DeviceRow). bytes_eq d.public_key v) devices
touched_count key v time [] = refl
touched_count key v time (d ∷ devices) = elim (Bool-cases (bytes_eq d.public_key key)) [
  | inl here ↦ rw (here, touched_count key v time devices) refl
  | inr there ↦ rw (there, touched_count key v time devices) refl
]

pub touch_device-IsStorage :
    (s : Storage) (key : Bytes) (now : ℕ) → IsStorage s → IsStorage (touch_device s key now)
unfolding touch_device
touch_device-IsStorage s key now i = record {
  ids = i.ids;
  handles = i.handles;
  pubkeys = i.pubkeys;
  devices = λ v. omega (arith, touched_count key v (to_i64 now) s.devices, i.devices v);
  nonces = i.nonces;
}

count_snoc :
    {A : Type 0} (p : A → Bool) (rows : List A) (row : A)
    → count p (rows ++ (row ∷ [])) ≡ count p rows + count p (row ∷ [])
count_snoc p [] row = omega arith
count_snoc p (r ∷ rows) row = ground (arith, count_snoc p rows row)

find_device_none :
    (key : Bytes) (devices : List DeviceRow)
    → is_some (find_device key devices) ≡ false
    → count (λ (d : DeviceRow). bytes_eq d.public_key key) devices ≡ 0
unfolding find_device
find_device_none key [] h = refl
find_device_none key (d ∷ devices) h = ground (arith, find_device_none key devices)

anyb-count : {A : Type 0} (p : A → Bool) (rows : List A) → anyb p rows ≡ false → count p rows ≡ 0
unfolding anyb
anyb-count p [] h = refl
anyb-count p (r ∷ rows) h = ground (arith, anyb-count p rows)

count-filterb :
    {A : Type 0} (p keep : A → Bool) (rows : List A) → count p (filterb keep rows) ≤ count p rows
unfolding filterb
count-filterb p keep [] = omega arith
count-filterb p keep (r ∷ rows) = ground (arith, count-filterb p keep rows)

-- A value is held once after a row came that holds a value that no row held.
fresh_once :
    (n one : ℕ) (fresh value : Bytes)
    → (bytes_eq fresh value ≡ true → n ≡ 0)
    → n ≤ 1
    → one ≡ (if bytes_eq fresh value then 1 else 0) + 0
    → n + one ≤ 1
fresh_once n one fresh value absent once h = ground (arith, absent)

pub insert_account-IsStorage :
    (s : Storage) (id key name : Bytes) (now : ℕ)
    → IsStorage s
    → IsStorage (insert_account s id key name now).0
unfolding insert_account has_value
insert_account-IsStorage s id key name now i =
    elim (Bool-cases
      (is_some (find_by id_of id s.accounts) || is_some (find_device key s.devices))) [
        | inl taken ↦ rw (insert_account, taken) i
        | inr free ↦
            let no_account = find_by_none id_of id s.accounts (ground arith) in
            let no_device = find_device_none key s.devices (ground arith) in
            rw (insert_account, free)
              (record {
                ids = λ v. rw (holders_snoc id_of v s.accounts _) (
                    fresh_once _ _ id v (λ e. rw (← (bytes_eq_iff id v).0 e) no_account) (i.ids v)
                      refl);
                handles = λ v. omega (arith, holders_snoc handle_of v s.accounts _, i.handles v);
                pubkeys = λ v. omega (arith, holders_snoc pubkey_of v s.accounts _, i.pubkeys v);
                devices = λ v. rw (count_snoc _ s.devices _) (
                    fresh_once _ _ key v (λ e. rw (← (bytes_eq_iff key v).0 e) no_device)
                      (i.devices v) refl);
                nonces = i.nonces;
              })
      ]

pub create_account-IsStorage :
    (hex_encode : Bytes → Bytes) (drawn : Option Bytes) (s : Storage) (key name : Bytes) (now : ℕ)
    → IsStorage s
    → IsStorage (create_account hex_encode drawn s key name now).0
unfolding create_account random_id
create_account-IsStorage hex_encode none s key name now i = i
create_account-IsStorage hex_encode (some bytes) s key name now i =
    insert_account-IsStorage s (hex_encode bytes) key name now i

pub remember_proof_nonce-IsStorage :
    (s : Storage) (nonce id : Bytes) (now skew : ℕ)
    → IsStorage s
    → IsStorage (remember_proof_nonce s nonce id now skew).0
unfolding remember_proof_nonce drop_before
remember_proof_nonce-IsStorage s nonce id now skew i =
    let kept = drop_before (to_i64 (now - skew)) s.nostr_proof_nonces in
    let fewer = λ (v : Bytes).
      count-filterb (λ (n : NonceRow). bytes_eq n.nonce v)
        (λ (n : NonceRow). not (ltb n.seen_at (to_i64 (now - skew)))) s.nostr_proof_nonces in
    elim (Bool-cases (anyb (λ (row : NonceRow). bytes_eq row.nonce nonce) kept)) [
      | inl replayed ↦
          rw (remember_proof_nonce, replayed)
            (record {
              ids = i.ids;
              handles = i.handles;
              pubkeys = i.pubkeys;
              devices = i.devices;
              nonces = λ v. omega (arith, fewer v, i.nonces v);
            })
      | inr new ↦
          let none_there = anyb-count (λ (row : NonceRow). bytes_eq row.nonce nonce) kept new in
          rw (remember_proof_nonce, new)
            (record {
              ids = i.ids;
              handles = i.handles;
              pubkeys = i.pubkeys;
              devices = i.devices;
              nonces = λ v. rw (count_snoc _ kept _) (
                  fresh_once _ _ nonce v (λ e. rw (← (bytes_eq_iff nonce v).0 e) none_there)
                    (omega (arith, fewer v, i.nonces v)) refl);
            })
    ]
