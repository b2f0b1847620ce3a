-- ===== src/Base/Assoc.antt =====
-- `BTreeMap` with byte-string keys: an association list in the order of its keys.
use Prim.Native.Nat.{Ordering}
use oma_chat.Base.Lists.{length}
use oma_chat.Base.Tests.{if◌then◌else◌}
use oma_chat.Base.Text.{Bytes, bytes_eq, bytes_eq_iff, bytes_cmp}
use oma_chat.Base.Order.{BytesLt, bytes_cmp_refl, bytes_cmp-eq, bytes_cmp-gt, BytesLt-trans}
use Prim.Native.Nat.{◌+◌}
use mathlib.Core.Path.{◌≡◌, refl}
use mathlib.Core.Option.{Option, none, some}
use mathlib.Core.List.{List, [], ◌∷◌}
use native.Mathlib.Omega.{arith}

abbrev pub BTreeMap {ℓ} : Type ℓ → Type ℓ
BTreeMap V = List (Bytes × V)

module _ {ℓ} {V : Type ℓ} where
  unfoldable pub lookup : Bytes → BTreeMap V → Option V
  lookup k [] = none
  lookup k ((j, v) ∷ m) = if bytes_eq j k then some v else lookup k m

  -- `BTreeMap::insert`: replaces the value of an equal key, or enters the key at its place.
  unfoldable pub insert : Bytes → V → BTreeMap V → BTreeMap V
  insert k v [] = (k, v) ∷ []
  insert k v ((j, w) ∷ m) = elim (bytes_cmp k j) [
    | Ordering.lt ↦ (k, v) ∷ (j, w) ∷ m
    | Ordering.eq ↦ (k, v) ∷ m
    | Ordering.gt ↦ (j, w) ∷ insert k v m
  ]

  -- `BTreeMap::remove`.
  unfoldable pub remove : Bytes → BTreeMap V → BTreeMap V
  remove k [] = []
  remove k ((j, v) ∷ m) = let rest = remove k m in if bytes_eq j k then rest else (j, v) ∷ rest

  unfoldable pub values : BTreeMap V → List V
  values [] = []
  values ((k, v) ∷ m) = v ∷ values m

  abbrev pub IsAbove : Bytes → BTreeMap V → Type 0
  IsAbove k [] = Unit
  IsAbove k ((j, v) ∷ m) = BytesLt k j

  -- The keys stand in strictly increasing order.
  abbrev pub IsSorted : BTreeMap V → Type 0
  IsSorted [] = Unit
  IsSorted ((k, v) ∷ m) = IsAbove k m × IsSorted m

module _ {ℓ} {V : Type ℓ} where
  pub lookup-insert :
      (k j : Bytes) (v : V) (m : BTreeMap V)
      → lookup j (insert k v m) ≡ (if bytes_eq k j then some v else lookup j m)
  unfolding lookup insert
  lookup-insert k j v [] = refl
  lookup-insert k j v ((i, w) ∷ m) = ground (
    arith,
    bytes_eq_iff k j,
    bytes_eq_iff i j,
    bytes_cmp-eq k i,
    bytes_cmp_refl k,
    lookup-insert k j v m,
  )

  pub lookup-remove :
      (k j : Bytes) (m : BTreeMap V)
      → lookup j (remove k m) ≡ (if bytes_eq k j then none else lookup j m)
  unfolding lookup remove
  lookup-remove k j [] = ground arith
  lookup-remove k j ((i, w) ∷ m) =
      ground (arith, bytes_eq_iff k j, bytes_eq_iff i j, bytes_eq_iff i k, lookup-remove k j m)

  IsAbove-trans : (k j : Bytes) (m : BTreeMap V) → BytesLt k j → IsAbove j m → IsAbove k m
  IsAbove-trans k j [] h a = tt
  IsAbove-trans k j ((i, w) ∷ m) h a = BytesLt-trans k j i h a

  insert-IsAbove :
      (k j : Bytes) (v : V) (m : BTreeMap V) → BytesLt j k → IsAbove j m → IsAbove j (insert k v m)
  unfolding insert
  insert-IsAbove k j v [] h a = h
  insert-IsAbove k j v ((i, w) ∷ m) h a = ground arith

  pub insert-IsSorted : (k : Bytes) (v : V) (m : BTreeMap V) → IsSorted m → IsSorted (insert k v m)
  unfolding insert
  insert-IsSorted k v [] s = (tt, tt)
  insert-IsSorted k v ((i, w) ∷ m) s =
      ground (
        arith,
        bytes_cmp-eq k i,
        bytes_cmp-gt k i,
        insert-IsAbove k i v m,
        insert-IsSorted k v m s.1,
      )

  pub lookup-IsAbove : (k : Bytes) (m : BTreeMap V) → IsAbove k m → IsSorted m → lookup k m ≡ none
  unfolding lookup
  lookup-IsAbove k [] a s = refl
  lookup-IsAbove k ((i, w) ∷ m) a s = ground (
    arith,
    bytes_eq_iff i k,
    bytes_cmp_refl k,
    lookup-IsAbove k m (IsAbove-trans k i m a s.0) s.1,
  )

  -- An insertion over a key that is there keeps the size, and any other adds one.
  pub length-insert :
      (k : Bytes) (v : V) (m : BTreeMap V)
      → IsSorted m
      → length (insert k v m) ≡ length m + (elim (lookup k m) [ none ↦ 1 | some _ ↦ 0 ])
  unfolding insert lookup
  length-insert k v [] s = refl
  length-insert k v ((i, w) ∷ m) s = ground (
    arith,
    bytes_eq_iff i k,
    bytes_cmp_refl k,
    bytes_cmp-eq k i,
    lookup-IsAbove k m,
    IsAbove-trans k i m,
    length-insert k v m s.1,
  )

  remove-none : (k : Bytes) (m : BTreeMap V) → lookup k m ≡ none → remove k m ≡ m
  unfolding lookup remove
  remove-none k [] h = refl
  remove-none k ((i, w) ∷ m) h = ground (arith, bytes_eq_iff i k, remove-none k m)

  -- A new key is taken out again.
  pub remove-insert :
      (k : Bytes) (v : V) (m : BTreeMap V) → lookup k m ≡ none → remove k (insert k v m) ≡ m
  unfolding lookup remove insert
  remove-insert k v [] h = ground (arith, bytes_eq_iff k k)
  remove-insert k v ((i, w) ∷ m) h = ground (
    arith,
    bytes_eq_iff i k,
    bytes_eq_iff k k,
    bytes_cmp-eq k i,
    remove-none k m,
    remove-insert k v m,
  )

  -- The old value of a key is put back.
  pub insert-insert :
      (k : Bytes) (v w : V) (m : BTreeMap V)
      → IsSorted m
      → lookup k m ≡ some w
      → insert k w (insert k v m) ≡ m
  unfolding lookup insert
  insert-insert k v w [] s h = cc
  insert-insert k v w ((i, x) ∷ m) s h = ground (
    arith,
    bytes_eq_iff i k,
    bytes_cmp_refl k,
    bytes_cmp-eq k i,
    lookup-IsAbove k m,
    IsAbove-trans k i m,
    insert-insert k v w m s.1,
  )
