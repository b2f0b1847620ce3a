-- ===== src/Nostr/Dedup/Recent.antt =====
-- What the memory of event ids refuses and keeps.
use oma_chat.Base.{
  ltb→lt, ℕ, ◌<◌, ◌-◌, ◌≡◌, refl, true, false, List, [], ◌∷◌, ◌++◌, arith, ltb, Bytes, bytes_eq,
  bytes_eq_iff, Bool-cases, inl, inr, ◌↔◌, subst, sym, ap, anyb, ◌∙◌, length-append,
}
use oma_chat.Nostr.Dedup.{Seen, contains, with, expire, make_room, enter, remember}
use oma_chat.Nostr.Dedup.Window.{
  ids, IsOrdered, IsWindow, IsRecent, IsSynced, expire-IsSynced, make_room-IsSynced, make_room-room,
  make_room-absent, Distinct, Distinct-snoc, ids-snoc, without-head, IsOrdered-weaken,
}

-- Behind a recent entry of an ordered queue, every entry is recent.
IsRecent-tail :
    (ttl now t : ℕ) (id : Bytes) (order : List (ℕ × Bytes))
    → now - t < ttl
    → IsOrdered t order
    → (contains (ids order) id ≡ true) ↔ IsRecent ttl now id order
unfolding contains anyb
IsRecent-tail ttl now t id [] h o = (λ k. cc, λ k. absurd k)
IsRecent-tail ttl now t id ((u, x) ∷ order) h o =
    let young : now - u < ttl = omega (arith, h, o.0) in
    let rest = IsRecent-tail ttl now u id order young o.1 in
    elim (Bool-cases (bytes_eq x id)) [
      | inl same ↦ (λ k. inl ((bytes_eq_iff x id).0 same, young), λ k. ground arith)
      | inr other ↦ (
        λ k. inr (rest.0 (ground arith)),
        λ k. elim k [
          | inl here ↦ ground (arith, bytes_eq_iff x id)
          | inr there ↦ ground (arith, rest.1 there)
        ],
      )
    ]

-- After expiry, an id is there exactly if its entry is recent.
expire-IsRecent :
    (ttl now : ℕ) (id : Bytes) (order : List (ℕ × Bytes))
    → Distinct (ids order)
    → IsOrdered 0 order
    → (contains (expire ttl now (ids order) order).seen id ≡ true) ↔ IsRecent ttl now id order
unfolding expire contains anyb
expire-IsRecent ttl now id [] d o = (λ k. cc, λ k. absurd k)
expire-IsRecent ttl now id ((t, x) ∷ order) d o = elim (Bool-cases (ltb (now - t) ttl)) [
  | inl young ↦
      rw young (IsRecent-tail ttl now t id ((t, x) ∷ order) (ltb→lt _ _ young) (omega arith, o.1))
  | inr aged ↦
      let rest =
        expire-IsRecent ttl now id order d.1 (IsOrdered-weaken 0 t order (omega arith) o.1) in
      let same = without-head x (ids order) d.0 in
      (
        λ k. inr (rest.0 (ground arith)),
        λ k. elim k [ inl (here, young) ↦ ground arith | inr there ↦ ground (arith, rest.1 there) ],
      )
]

with-absent :
    (set : List Bytes) (id : Bytes) → contains set id ≡ false → with set id ≡ set ++ (id ∷ [])
unfolding with
with-absent set id h = rw h refl

enter-IsWindow :
    (capacity now : ℕ) (id : Bytes) (order : List (ℕ × Bytes))
    → 0 < capacity
    → Distinct (ids order)
    → contains (ids order) id ≡ false
    → IsWindow capacity (enter capacity now id (record { seen = ids order; seen_order = order }))
unfolding enter
enter-IsWindow capacity now id order h d absent =
    let room = make_room-IsSynced capacity order d in
    let gone = make_room-absent capacity order id d absent in
    let kept = (make_room capacity (ids order) order).seen_order in
    let grown = ids-snoc kept now id in
    record {
      synced = with-absent _ id gone ∙ (ap (λ l. l ++ (id ∷ [])) room.synced ∙ sym grown);
      distinct = subst Distinct (sym grown) (
          Distinct-snoc (ids kept) id (subst (λ l. contains l id ≡ false) room.synced gone)
            room.distinct);
      bounded =
          omega (arith, length-append kept ((now, id) ∷ []), make_room-room capacity order d h);
    }

-- Either the memory is what expiry left, or the id is entered into it.
pub remember_cases :
    (P : Seen → Type 0) (capacity ttl now : ℕ) (id : Bytes) (s : Seen)
    → P (expire ttl now s.seen s.seen_order)
    → (contains (expire ttl now s.seen s.seen_order).seen id ≡ false
        → P (enter capacity now id (expire ttl now s.seen s.seen_order)))
    → P (remember capacity ttl now id s).0
unfolding remember
remember_cases P capacity ttl now id s kept entered =
    elim (Bool-cases (contains (expire ttl now s.seen s.seen_order).seen id)) [
      | inl there ↦ rw there kept
      | inr absent ↦ rw absent (entered absent)
    ]

module _ (capacity ttl now : ℕ) (id : Bytes) (s : Seen) (inv : IsWindow capacity s) where
  -- In a window in the order of time, an id is refused exactly if the queue has an entry of it that is
  -- younger than the time to live.
  pub remember-IsRecent :
      IsOrdered 0 s.seen_order
      → ((remember capacity ttl now id s).1 ≡ false) ↔ IsRecent ttl now id s.seen_order
  unfolding remember
  remember-IsRecent o =
      let e = expire-IsRecent ttl now id s.seen_order inv.distinct o in
      let same = inv.synced in (λ h. e.0 (ground arith), λ k. ground (arith, e.1 k))

  -- The set and the queue keep to the same ids, each once, and within the capacity.
  pub remember-IsWindow : 0 < capacity → IsWindow capacity (remember capacity ttl now id s).0
  remember-IsWindow h =
      let left = expire ttl now s.seen s.seen_order in
      let e : IsSynced s.seen_order left =
        subst (λ set. IsSynced s.seen_order (expire ttl now set s.seen_order)) (sym inv.synced)
          (expire-IsSynced ttl now s.seen_order inv.distinct) in
      remember_cases (IsWindow capacity) capacity ttl now id s
        (record {
          synced = e.synced;
          distinct = e.distinct;
          bounded = omega (arith, e.shorter, inv.bounded);
        })
        (λ absent.
          subst
            (λ set.
              IsWindow capacity
                (enter capacity now id (record { seen = set; seen_order = left.seen_order })))
            (sym e.synced)
            (enter-IsWindow capacity now id left.seen_order h e.distinct
              (subst (λ l. contains l id ≡ false) e.synced absent)))
