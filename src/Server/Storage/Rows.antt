-- ===== src/Server/Storage/Rows.antt =====
-- Rows of the accounts in crates/omachat-server/src/storage.rs under lookups, inserts and updates.
use oma_chat.Base.{
  ℕ, ◌+◌, ◌≤◌, ◌≡◌, refl, true, false, Option, some, List, [], ◌∷◌, ◌++◌, arith, count, Bytes,
  bytes_eq, bytes_eq_iff, bytes_eq_refl, Bool-cases, inl, inr, if◌then◌else◌, ap,
}
use oma_chat.Nostr.Urls.{is_some}
use oma_chat.Server.Storage.{AccountRow, has_value, find_by, update, is_taken, id_of}

some-injective : {A : Type 0} {a b : A} → some a ≡ some b → a ≡ b
some-injective h = cc

-- How many rows have the value.
abbrev pub holders : (AccountRow → Option Bytes) → Bytes → List AccountRow → ℕ
holders column value rows = count (λ row. has_value (column row) value) rows

pub holders_snoc :
    (column : AccountRow → Option Bytes) (value : Bytes) (rows : List AccountRow) (row : AccountRow)
    → holders column value (rows ++ (row ∷ []))
      ≡ holders column value rows + holders column value (row ∷ [])
holders_snoc column value [] row = omega arith
holders_snoc column value (r ∷ rows) row = ground (arith, holders_snoc column value rows row)

-- Who is not found holds nothing.
pub find_by_none :
    (column : AccountRow → Option Bytes) (value : Bytes) (rows : List AccountRow)
    → is_some (find_by column value rows) ≡ false
    → holders column value rows ≡ 0
unfolding find_by
find_by_none column value [] h = refl
find_by_none column value (r ∷ rows) h = ground (arith, find_by_none column value rows)

-- An update that leaves the column, that clears it, and that writes a value to it.
pub holders-update_same :
    (column : AccountRow → Option Bytes) (value : Bytes) (set : AccountRow → AccountRow)
    (id : Bytes) (rows : List AccountRow)
    → ((row : AccountRow) → column (set row) ≡ column row)
    → holders column value (update set id rows) ≡ holders column value rows
unfolding update
holders-update_same column value set id [] same = refl
holders-update_same column value set id (r ∷ rows) same = elim (Bool-cases (bytes_eq r.id id)) [
  | inl here ↦ rw (here, same r, holders-update_same column value set id rows same) refl
  | inr there ↦ rw (there, holders-update_same column value set id rows same) refl
]

pub holders-update_other :
    (column : AccountRow → Option Bytes) (value : Bytes) (set : AccountRow → AccountRow)
    (id : Bytes) (rows : List AccountRow)
    → ((row : AccountRow) → has_value (column (set row)) value ≡ false)
    → holders column value (update set id rows) ≤ holders column value rows
unfolding update
holders-update_other column value set id [] other = omega arith
holders-update_other column value set id (r ∷ rows) other =
    let rest = holders-update_other column value set id rows other in
    elim (Bool-cases (bytes_eq r.id id)) [
      | inl here ↦
          rw (here, other r)
            (elim (Bool-cases (has_value (column r) value)) [
              | inl had ↦ rw had (omega (arith, rest))
              | inr without ↦ rw without (omega (arith, rest))
            ])
      | inr there ↦ rw there (elim (Bool-cases (has_value (column r) value)) [
        | inl had ↦ rw had (omega (arith, rest))
        | inr without ↦ rw without (omega (arith, rest))
      ])
    ]

pub holders-update_taken :
    (column : AccountRow → Option Bytes) (value : Bytes) (set : AccountRow → AccountRow)
    (id : Bytes) (rows : List AccountRow)
    → is_taken column value id rows ≡ false
    → holders column value (update set id rows) ≤ holders id_of id rows
unfolding update is_taken has_value
holders-update_taken column value set id [] free = omega arith
holders-update_taken column value set id (r ∷ rows) free = elim (Bool-cases (bytes_eq r.id id)) [
  | inl here ↦
      let rest = holders-update_taken column value set id rows (ground (arith, here, free)) in
      rw here (elim (Bool-cases (has_value (column (set r)) value)) [
        | inl had ↦ rw had (omega (arith, rest))
        | inr without ↦ rw without (omega (arith, rest))
      ])
  | inr there ↦
      let rest = holders-update_taken column value set id rows (ground (arith, there, free)) in
      let without : has_value (column r) value ≡ false = ground (arith, there, free) in
      rw (there, without) (omega (arith, rest))
]

-- What is found under an id after an insert or an update.
pub find_by_snoc :
    (column : AccountRow → Option Bytes) (value : Bytes) (rows : List AccountRow)
    (row found : AccountRow)
    → find_by column value rows ≡ some found
    → find_by column value (rows ++ (row ∷ [])) ≡ some found
unfolding find_by
find_by_snoc column value [] row found h = cc
find_by_snoc column value (r ∷ rows) row found h = elim (Bool-cases (has_value (column r) value)) [
  | inl here ↦ rw (find_by, here) (rw (find_by, here) at h)
  | inr there ↦
      rw (find_by, there) (find_by_snoc column value rows row found (rw (find_by, there) at h))
]

pub find_by-update :
    (set : AccountRow → AccountRow) (id other : Bytes) (rows : List AccountRow) (found : AccountRow)
    → ((row : AccountRow) → (set row).id ≡ row.id)
    → find_by id_of other rows ≡ some found
    → find_by id_of other (update set id rows)
      ≡ some (if bytes_eq other id then set found else found)
unfolding update find_by has_value
find_by-update set id other [] found kept h = cc
find_by-update set id other (r ∷ rows) found kept h = elim (Bool-cases (bytes_eq r.id other)) [
  | inl sought ↦
      let same : r ≡ found = some-injective (rw (find_by, sought) at h) in
      rw (← same, ← (bytes_eq_iff r.id other).0 sought)
        (elim (Bool-cases (bytes_eq r.id id)) [
          | inl here ↦ rw (here, kept r, bytes_eq_refl r.id) refl
          | inr there ↦ rw (there, bytes_eq_refl r.id) refl
        ])
  | inr differs ↦
      let rest = find_by-update set id other rows found kept (rw (find_by, differs) at h) in
      elim (Bool-cases (bytes_eq r.id id)) [
        | inl here ↦ rw (here, kept r, differs) rest
        | inr there ↦ rw (there, differs) rest
      ]
]

found-holders :
    (column : AccountRow → Option Bytes) (id value : Bytes) (rows : List AccountRow)
    (row : AccountRow)
    → find_by id_of id rows ≡ some row
    → has_value (column row) value ≡ true
    → 1 ≤ holders column value rows
unfolding find_by
found-holders column id value [] row f h = cc
found-holders column id value (r ∷ rows) row f h = elim (Bool-cases (has_value (id_of r) id)) [
  | inl sought ↦
      let same : r ≡ row = some-injective (rw (find_by, sought) at f) in
      let held : has_value (column r) value ≡ true = rw same h in rw held (omega arith)
  | inr other ↦ omega (arith, found-holders column id value rows row (rw (find_by, other) at f) h)
]

-- A value that only one row can hold is found in the row that holds it.
pub find_by_unique :
    (column : AccountRow → Option Bytes) (id value : Bytes) (rows : List AccountRow)
    (row : AccountRow)
    → holders column value rows ≤ 1
    → find_by id_of id rows ≡ some row
    → has_value (column row) value ≡ true
    → find_by column value rows ≡ some row
unfolding find_by
find_by_unique column id value [] row once f h = cc
find_by_unique column id value (r ∷ rows) row once f h =
    elim (Bool-cases (has_value (id_of r) id)) [
      | inl sought ↦
          let same : r ≡ row = some-injective (rw (find_by, sought) at f) in
          let held : has_value (column r) value ≡ true = rw same h in rw held (ap some same)
      | inr other ↦
          let f' = rw (find_by, other) at f in
          elim (Bool-cases (has_value (column r) value)) [
            | inl twice ↦
                let one = rw twice at once in
                absurd (omega (arith, found-holders column id value rows row f' h, one))
            | inr free ↦
                let one = rw free at once in
                rw free (find_by_unique column id value rows row (omega (arith, one)) f' h)
          ]
    ]

pub find_by-has_value :
    (column : AccountRow → Option Bytes) (value : Bytes) (rows : List AccountRow) (row : AccountRow)
    → find_by column value rows ≡ some row
    → has_value (column row) value ≡ true
unfolding find_by
find_by-has_value column value [] row h = cc
find_by-has_value column value (r ∷ rows) row h = elim (Bool-cases (has_value (column r) value)) [
  | inl here ↦ rw (← some-injective (rw (find_by, here) at h)) here
  | inr there ↦ find_by-has_value column value rows row (rw (find_by, there) at h)
]
