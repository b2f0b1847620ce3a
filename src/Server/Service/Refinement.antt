-- ===== src/Server/Service/Refinement.antt =====
-- The directory that crates/omachat-server keeps, in the abstract: what handle and what key each
-- account has. The tables of its storage refine it.
use oma_chat.Base.{
  ℕ, ◌-◌, ◌≡◌, refl, false, Option, none, some, List, [], ◌∷◌, ◌++◌, arith, anyb, Bytes, bytes_eq,
  bytes_eq_iff, bytes_eq_refl, Bool-cases, Option-cases, inl, inr, if◌then◌else◌, subst,
}
use oma_chat.Nostr.Urls.{is_some}
use oma_chat.Server.Storage
use oma_chat.Server.Storage.{
  Storage, StorageError, AccountRow, AccountRecord, NonceRow, has_value, find_by, find_device,
  id_of, handle_of, pubkey_of, update, set_handle, set_pubkey, is_taken, touch_device,
  insert_account, create_account, random_id, write_handle, claim_handle, drop_before,
  remember_proof_nonce, to_i64, account_for_device,
}
use oma_chat.Server.Storage.Rows.{find_by-update, find_by_snoc}

-- The handle and the key of each account that there is.
abbrev pub Directory : Type 0
Directory = Bytes → Option (Option Bytes × Option Bytes)

-- One account's entry changes.
pub record IsChange (v w : Directory) (id : Bytes) (old new : Option (Option Bytes × Option Bytes))
    : Type 0 where
  pub was : v id ≡ old
  pub is : w id ≡ new
  pub others : (other : Bytes) → bytes_eq other id ≡ false → w other ≡ v other

-- No other account has the handle, or the key.
abbrev pub IsFreeHandle : Directory → Bytes → Bytes → Type 0
IsFreeHandle v id name =
    (other : Bytes) (h k : Option Bytes)
    → bytes_eq other id ≡ false
    → v other ≡ some (h, k)
    → has_value h name ≡ false

abbrev pub IsFreeKey : Directory → Bytes → Bytes → Type 0
IsFreeKey v id key =
    (other : Bytes) (h k : Option Bytes)
    → bytes_eq other id ≡ false
    → v other ≡ some (h, k)
    → has_value k key ≡ false

-- What may happen to a directory.
pub data IsStep (v w : Directory) : Type 0 where
  stays : ((id : Bytes) → w id ≡ v id) → IsStep v w
  opens : (id : Bytes) → IsChange v w id none (some (none, none)) → IsStep v w
  claims :
      (id name : Bytes) (k : Option Bytes)
      → IsChange v w id (some (none, k)) (some (some name, k))
      → IsFreeHandle v id name
      → IsStep v w
  binds :
      (id key : Bytes) (h k : Option Bytes)
      → IsChange v w id (some (h, k)) (some (h, some key))
      → IsFreeKey v id key
      → IsStep v w
  unbinds :
      (id : Bytes) (h k : Option Bytes)
      → IsChange v w id (some (h, k)) (some (h, none))
      → IsStep v w

abbrev entry : Option AccountRow → Option (Option Bytes × Option Bytes)
entry none = none
entry (some row) = some (row.handle, row.nostr_pubkey)

-- The directory that the tables hold.
abbrev pub directory : List AccountRow → Directory
directory rows id = entry (find_by id_of id rows)

entry-some :
    (o : Option AccountRow) (h k : Option Bytes)
    → entry o ≡ some (h, k)
    → (row : AccountRow) × (o ≡ some row) × (row.handle ≡ h) × (row.nostr_pubkey ≡ k)
entry-some none h k e = cc
entry-some (some row) h k e = (row, refl, cc, cc)

update-none :
    (set : AccountRow → AccountRow) (id other : Bytes) (rows : List AccountRow)
    → ((row : AccountRow) → (set row).id ≡ row.id)
    → find_by id_of other rows ≡ none
    → find_by id_of other (update set id rows) ≡ none
unfolding update find_by has_value
update-none set id other [] kept h = refl
update-none set id other (r ∷ rows) kept h = elim (Bool-cases (bytes_eq r.id other)) [
  | inl sought ↦ (let impossible = rw (find_by, sought) at h in cc)
  | inr differs ↦
      let rest = update-none set id other rows kept (rw (find_by, differs) at h) in
      elim (Bool-cases (bytes_eq r.id id)) [
        | inl here ↦ rw (here, kept r, differs) rest
        | inr there ↦ rw (there, differs) rest
      ]
]

module _ (set : AccountRow → AccountRow) (id : Bytes) (rows : List AccountRow)
    (kept : (row : AccountRow) → (set row).id ≡ row.id) where
  update-others :
      (other : Bytes)
      → bytes_eq other id ≡ false
      → directory (update set id rows) other ≡ directory rows other
  update-others other differs = elim (Option-cases (find_by id_of other rows)) [
    | inl nobody ↦ rw (nobody, update-none set id other rows kept nobody) refl
    | inr (row, found) ↦
        let there = find_by-update set id other rows row kept found in
        let same = rw differs at there in rw (found, same) refl
  ]

  update-IsChange :
      (row : AccountRow)
      → find_by id_of id rows ≡ some row
      → IsChange
          (directory rows)
          (directory (update set id rows))
          id
          (entry (some row))
          (entry (some (set row)))
  update-IsChange row found =
      let there = find_by-update set id id rows row kept found in
      let here = rw (bytes_eq_refl id) at there in
      record { was = rw found refl; is = rw here refl; others = update-others }

some-injective : {A : Type 0} {a b : A} → some a ≡ some b → a ≡ b
some-injective h = cc

-- Whose value another row is not to have.
free_row :
    (column : AccountRow → Option Bytes) (value id other : Bytes) (rows : List AccountRow)
    (row : AccountRow)
    → is_taken column value id rows ≡ false
    → bytes_eq other id ≡ false
    → find_by id_of other rows ≡ some row
    → has_value (column row) value ≡ false
unfolding is_taken find_by has_value
free_row column value id other [] row free differs h = cc
free_row column value id other (r ∷ rows) row free differs h =
    elim (Bool-cases (has_value (id_of r) other)) [
      | inl sought ↦
          let same : r ≡ row = some-injective (rw (find_by, sought) at h) in
          let is_other : r.id ≡ other = (bytes_eq_iff r.id other).0 sought in
          let elsewhere : bytes_eq r.id id ≡ false = rw is_other differs in
          let clear : has_value (column r) value ≡ false = ground (arith, free, elsewhere) in
          rw (← same) clear
      | inr no_match ↦
          free_row column value id other rows row (ground (arith, free)) differs
            (rw (find_by, no_match) at h)
    ]

-- A step of the tables is a step of the directory.
abbrev pub Refines : Storage → Storage → Type 0
Refines s t = IsStep (directory s.accounts) (directory t.accounts)

pub same-Refines : (s : Storage) → Refines s s
same-Refines s = stays (λ id. refl)

write_handle-Refines :
    (s : Storage) (id name : Bytes) (row : AccountRow)
    → find_by id_of id s.accounts ≡ some row
    → row.handle ≡ none
    → Refines s (write_handle s id name).0
unfolding write_handle
write_handle-Refines s id name row found unset =
    elim (Bool-cases (is_taken handle_of name id s.accounts)) [
      | inl taken ↦ rw (write_handle, taken) (same-Refines s)
      | inr free ↦
          let change = update-IsChange (set_handle name) id s.accounts (λ r. refl) row found in
          rw (write_handle, free)
            (claims id name row.nostr_pubkey
              (record {
                was =
                    subst (λ h. directory s.accounts id ≡ some (h, row.nostr_pubkey)) unset
                      change.was;
                is = change.is;
                others = change.others;
              })
              (λ other h k differs e.
                let (r, there, held, key) = entry-some (find_by id_of other s.accounts) h k e in
                subst (λ h. has_value h name ≡ false) held
                  (free_row handle_of name id other s.accounts r free differs there)))
    ]

unset_handle : (h : Option Bytes) → is_some h ≡ false → h ≡ none
unset_handle none e = refl
unset_handle (some h) e = cc

pub claim_handle-Refines : (s : Storage) (id name : Bytes) → Refines s (claim_handle s id name).0
unfolding claim_handle
claim_handle-Refines s id name = elim (Option-cases (find_by id_of id s.accounts)) [
  | inl nobody ↦ rw (claim_handle, nobody) (same-Refines s)
  | inr (row, found) ↦ elim (Bool-cases (is_some row.handle)) [
    | inl set ↦ rw (claim_handle, found, set) (same-Refines s)
    | inr unset ↦
        rw (claim_handle, found, unset)
          (write_handle-Refines s id name row found (unset_handle row.handle unset))
  ]
]

pub bind_nostr-Refines : (s : Storage) (id key : Bytes) → Refines s (Storage.bind_nostr s id key).0
unfolding Storage.bind_nostr
bind_nostr-Refines s id key = elim (Option-cases (find_by id_of id s.accounts)) [
  | inl nobody ↦ rw (Storage.bind_nostr, nobody) (same-Refines s)
  | inr (row, found) ↦ elim (Bool-cases (is_taken pubkey_of key id s.accounts)) [
    | inl taken ↦ rw (Storage.bind_nostr, found, taken) (same-Refines s)
    | inr free ↦
        rw (Storage.bind_nostr, found, free)
          (binds id key row.handle row.nostr_pubkey
            (update-IsChange (set_pubkey (some key)) id s.accounts (λ r. refl) row found)
            (λ other h k differs e.
              let (r, there, held, bound) = entry-some (find_by id_of other s.accounts) h k e in
              subst (λ k. has_value k key ≡ false) bound
                (free_row pubkey_of key id other s.accounts r free differs there)))
  ]
]

pub unbind_nostr-Refines : (s : Storage) (id : Bytes) → Refines s (Storage.unbind_nostr s id).0
unfolding Storage.unbind_nostr
unbind_nostr-Refines s id = elim (Option-cases (find_by id_of id s.accounts)) [
  | inl nobody ↦ rw (Storage.unbind_nostr, nobody) (same-Refines s)
  | inr (row, found) ↦
      rw (Storage.unbind_nostr, found)
        (unbinds id row.handle row.nostr_pubkey
          (update-IsChange (set_pubkey none) id s.accounts (λ r. refl) row found))
]

-- The accounts are not touched by the memory of nonces.
pub remember-accounts :
    (s : Storage) (nonce id : Bytes) (now skew : ℕ)
    → (remember_proof_nonce s nonce id now skew).0.accounts ≡ s.accounts
unfolding remember_proof_nonce
remember-accounts s nonce id now skew =
    elim (Bool-cases (
      anyb (λ (row : NonceRow). bytes_eq row.nonce nonce)
        (drop_before (to_i64 (now - skew)) s.nostr_proof_nonces))) [
          | inl replayed ↦ rw (remember_proof_nonce, replayed) refl
          | inr new ↦ rw (remember_proof_nonce, new) refl
        ]

snoc_found :
    (id : Bytes) (rows : List AccountRow) (row : AccountRow)
    → find_by id_of id rows ≡ none
    → find_by id_of id (rows ++ (row ∷ [])) ≡ (if bytes_eq row.id id then some row else none)
unfolding find_by has_value
snoc_found id [] row h = refl
snoc_found id (r ∷ rows) row h = elim (Bool-cases (has_value (id_of r) id)) [
  | inl here ↦ (let impossible = rw (find_by, here) at h in cc)
  | inr there ↦ rw (find_by, there) (snoc_found id rows row (rw (find_by, there) at h))
]

apart : (a b : Bytes) → bytes_eq b a ≡ false → bytes_eq a b ≡ false
apart a b differs = ground (arith, bytes_eq_iff a b, bytes_eq_iff b a, differs)

pub snoc-IsChange :
    (rows : List AccountRow) (row : AccountRow)
    → find_by id_of row.id rows ≡ none
    → IsChange (directory rows) (directory (rows ++ (row ∷ []))) row.id none (entry (some row))
snoc-IsChange rows row h = record {
  was = rw h refl;
  is =
      (let here = snoc_found row.id rows row h in
        let there = rw (bytes_eq_refl row.id) at here in rw there refl);
  others = λ other differs. elim (Option-cases (find_by id_of other rows)) [
    | inl nobody ↦
        let here = snoc_found other rows row nobody in
        let there = rw (apart row.id other differs) at here in rw (nobody, there) refl
    | inr (r, found) ↦ rw (found, find_by_snoc id_of other rows row r found) refl
  ];
}
