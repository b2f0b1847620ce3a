-- ===== src/Nostr/Dedup/Window.antt =====
-- The window that the memory of event ids of crates/omachat-nostr/src/pool.rs and dm_inbox.rs is.
use oma_chat.Base.{
  if◌then◌else◌, ◌⊎◌, ℕ, ◌≤◌, ◌<◌, ◌-◌, ◌≡◌, refl, Bool, true, false, ◌||◌, List, [], ◌∷◌, ◌++◌,
  arith, ltb, leb, length, anyb, filterb, Bytes, bytes_eq, bytes_eq_iff, Bool-cases, inl, inr,
  subst, sym, ap,
}
use oma_chat.Nostr.Dedup.{Seen, contains, without, expire, make_room}

abbrev pub ids : List (ℕ × Bytes) → List Bytes
ids [] = []
ids ((seen_at, id) ∷ order) = id ∷ ids order

abbrev pub Distinct : List Bytes → Type 0
Distinct [] = Unit
Distinct (id ∷ rest) = (contains rest id ≡ false) × Distinct rest

-- No entry was made before `t`, and none before the one in front of it.
abbrev pub IsOrdered : ℕ → List (ℕ × Bytes) → Type 0
IsOrdered t [] = Unit
IsOrdered t ((seen_at, id) ∷ order) = (t ≤ seen_at) × IsOrdered seen_at order

-- No entry was made after `t`.
abbrev pub IsUntil : ℕ → List (ℕ × Bytes) → Type 0
IsUntil t [] = Unit
IsUntil t ((seen_at, id) ∷ order) = (seen_at ≤ t) × IsUntil t order

-- The set and the queue hold the same ids, each once, and no more than the capacity.
pub record IsWindow (capacity : ℕ) (s : Seen) : Type 0 where
  pub synced : s.seen ≡ ids s.seen_order
  pub distinct : Distinct (ids s.seen_order)
  pub bounded : length s.seen_order ≤ capacity

-- The id is remembered since less than `ttl` before `now`.
abbrev pub IsRecent : ℕ → ℕ → Bytes → List (ℕ × Bytes) → Type 0
IsRecent ttl now id [] = ⊥
IsRecent ttl now id ((seen_at, x) ∷ order) =
    ((x ≡ id) × (now - seen_at < ttl)) ⊎ IsRecent ttl now id order

without-absent : (id : Bytes) (set : List Bytes) → contains set id ≡ false → without set id ≡ set
unfolding without contains filterb anyb
without-absent id [] h = refl
without-absent id (x ∷ set) h = ground (arith, without-absent id set)

pub without-head :
    (id : Bytes) (set : List Bytes) → contains set id ≡ false → without (id ∷ set) id ≡ set
unfolding without filterb
without-head id set h = ground (arith, bytes_eq_iff id id, without-absent id set h)

pub contains-snoc :
    (set : List Bytes) (x id : Bytes)
    → contains (set ++ (x ∷ [])) id ≡ (contains set id || bytes_eq x id)
unfolding contains anyb
contains-snoc [] x id = ground arith
contains-snoc (y ∷ set) x id = ground (arith, contains-snoc set x id)

pub ids-snoc :
    (order : List (ℕ × Bytes)) (now : ℕ) (id : Bytes)
    → ids (order ++ ((now, id) ∷ [])) ≡ ids order ++ (id ∷ [])
ids-snoc [] now id = refl
ids-snoc ((t, x) ∷ order) now id = ap (◌∷◌ x) (ids-snoc order now id)

pub Distinct-snoc :
    (set : List Bytes) (id : Bytes)
    → contains set id ≡ false
    → Distinct set
    → Distinct (set ++ (id ∷ []))
unfolding contains anyb
Distinct-snoc [] id h d = (refl, tt)
Distinct-snoc (x ∷ set) id h d = (
  ground (arith, contains-snoc set id x, bytes_eq_iff x id, bytes_eq_iff id x),
  Distinct-snoc set id (ground arith) d.1,
)

pub length-ids : (order : List (ℕ × Bytes)) → length (ids order) ≡ length order
length-ids [] = refl
length-ids ((t, x) ∷ order) = omega (arith, length-ids order)

-- The memory after a loop, whose queue is part of `order`.
pub record IsSynced (order : List (ℕ × Bytes)) (s : Seen) : Type 0 where
  pub synced : s.seen ≡ ids s.seen_order
  pub distinct : Distinct (ids s.seen_order)
  pub shorter : length s.seen_order ≤ length order
  pub ordered : (t : ℕ) → IsOrdered t order → IsOrdered t s.seen_order
  pub until : (t : ℕ) → IsUntil t order → IsUntil t s.seen_order

pub IsOrdered-weaken :
    (s t : ℕ) (order : List (ℕ × Bytes)) → s ≤ t → IsOrdered t order → IsOrdered s order
IsOrdered-weaken s t [] h o = tt
IsOrdered-weaken s t ((u, x) ∷ order) h o = (omega (arith, o.0), o.1)

IsSynced-same :
    (order : List (ℕ × Bytes))
    → Distinct (ids order)
    → IsSynced order (record { seen = ids order; seen_order = order })
IsSynced-same order d = record {
  synced = refl;
  distinct = d;
  shorter = omega arith;
  ordered = λ t o. o;
  until = λ t o. o;
}

IsSynced-step :
    (t : ℕ) (x : Bytes) (order : List (ℕ × Bytes)) (s : Seen)
    → IsSynced order s
    → IsSynced ((t, x) ∷ order) s
IsSynced-step t x order s i = record {
  synced = i.synced;
  distinct = i.distinct;
  shorter = omega (arith, i.shorter);
  ordered = λ u o. i.ordered u (IsOrdered-weaken u t order o.0 o.1);
  until = λ u o. i.until u o.1;
}

IsSynced-if :
    (b : Bool) (order : List (ℕ × Bytes)) (s t : Seen)
    → IsSynced order s
    → IsSynced order t
    → IsSynced order (if b then s else t)
IsSynced-if true order s t h k = h
IsSynced-if false order s t h k = k

pub expire-IsSynced :
    (ttl now : ℕ) (order : List (ℕ × Bytes))
    → Distinct (ids order)
    → IsSynced order (expire ttl now (ids order) order)
unfolding expire
expire-IsSynced ttl now [] d = IsSynced-same [] tt
expire-IsSynced ttl now ((t, x) ∷ order) d =
    IsSynced-if (ltb (now - t) ttl) ((t, x) ∷ order) _ _ (IsSynced-same ((t, x) ∷ order) d) (
      IsSynced-step t x order _ (
        subst (λ set. IsSynced order (expire ttl now set order))
          (sym (without-head x (ids order) d.0)) (expire-IsSynced ttl now order d.1)))

pub make_room-IsSynced :
    (capacity : ℕ) (order : List (ℕ × Bytes))
    → Distinct (ids order)
    → IsSynced order (make_room capacity (ids order) order)
unfolding make_room
make_room-IsSynced capacity [] d = IsSynced-same [] tt
make_room-IsSynced capacity ((t, x) ∷ order) d =
    IsSynced-if (leb capacity (length (x ∷ ids order))) ((t, x) ∷ order) _ _
      (IsSynced-step t x order _ (
        subst (λ set. IsSynced order (make_room capacity set order))
          (sym (without-head x (ids order) d.0)) (make_room-IsSynced capacity order d.1)))
      (IsSynced-same ((t, x) ∷ order) d)

-- There is room afterwards.
pub make_room-room :
    (capacity : ℕ) (order : List (ℕ × Bytes))
    → Distinct (ids order)
    → 0 < capacity
    → length (make_room capacity (ids order) order).seen_order < capacity
unfolding make_room
make_room-room capacity [] d h = omega (arith, h)
make_room-room capacity ((t, x) ∷ order) d h =
    elim (Bool-cases (leb capacity (length (x ∷ ids order)))) [
      | inl full ↦
          ground (arith, without-head x (ids order) d.0, make_room-room capacity order d.1 h)
      | inr room ↦ ground (arith, length-ids order)
    ]

-- Making room forgets only.
pub make_room-absent :
    (capacity : ℕ) (order : List (ℕ × Bytes)) (id : Bytes)
    → Distinct (ids order)
    → contains (ids order) id ≡ false
    → contains (make_room capacity (ids order) order).seen id ≡ false
unfolding make_room contains anyb
make_room-absent capacity [] id d h = refl
make_room-absent capacity ((t, x) ∷ order) id d h =
    elim (Bool-cases (leb capacity (length (x ∷ ids order)))) [
      | inl full ↦
          ground (arith, without-head x (ids order) d.0, make_room-absent capacity order id d.1)
      | inr room ↦ ground (arith)
    ]
