-- ===== src/Nostr/Dedup/Again.antt =====
-- The memory of event ids of crates/omachat-nostr/src/pool.rs and dm_inbox.rs as time goes by.
use oma_chat.Base.{ℕ, ◌≤◌, List, [], ◌∷◌, ◌++◌, arith, Bytes, subst, sym}
use oma_chat.Nostr.Dedup.{Seen, expire, make_room, enter, remember}
use oma_chat.Nostr.Dedup.Window.{
  IsOrdered, IsUntil, IsWindow, IsSynced, expire-IsSynced, make_room-IsSynced,
}
use oma_chat.Nostr.Dedup.Recent.{remember_cases}

IsOrdered-snoc :
    (s now : ℕ) (id : Bytes) (order : List (ℕ × Bytes))
    → s ≤ now
    → IsOrdered s order
    → IsUntil now order
    → IsOrdered s (order ++ ((now, id) ∷ []))
IsOrdered-snoc s now id [] h o u = (h, tt)
IsOrdered-snoc s now id ((t, x) ∷ order) h o u = (o.0, IsOrdered-snoc t now id order u.0 o.1 u.1)

IsUntil-snoc :
    (now : ℕ) (id : Bytes) (order : List (ℕ × Bytes))
    → IsUntil now order
    → IsUntil now (order ++ ((now, id) ∷ []))
IsUntil-snoc now id [] u = (omega arith, tt)
IsUntil-snoc now id ((t, x) ∷ order) u = (u.0, IsUntil-snoc now id order u.1)

pub IsUntil-weaken :
    (s t : ℕ) (order : List (ℕ × Bytes)) → s ≤ t → IsUntil s order → IsUntil t order
IsUntil-weaken s t [] h u = tt
IsUntil-weaken s t ((v, x) ∷ order) h u = (omega (arith, u.0), IsUntil-weaken s t order h u.1)

-- In the order of time, all of it until now.
abbrev pub IsTimed : ℕ → Seen → Type 0
IsTimed now s = IsOrdered 0 s.seen_order × IsUntil now s.seen_order

module _ (capacity ttl now : ℕ) (id : Bytes) (s : Seen) (inv : IsWindow capacity s)
    (timed : IsTimed now s) where
  expired : IsSynced s.seen_order (expire ttl now s.seen s.seen_order)
  expired =
      subst (λ set. IsSynced s.seen_order (expire ttl now set s.seen_order)) (sym inv.synced)
        (expire-IsSynced ttl now s.seen_order inv.distinct)

  roomy :
      IsSynced s.seen_order (expire ttl now s.seen s.seen_order)
      → IsTimed now (enter capacity now id (expire ttl now s.seen s.seen_order))
  unfolding enter
  roomy e =
      let left = expire ttl now s.seen s.seen_order in
      let room : IsSynced left.seen_order (make_room capacity left.seen left.seen_order) =
        subst (λ set. IsSynced left.seen_order (make_room capacity set left.seen_order))
          (sym e.synced) (make_room-IsSynced capacity left.seen_order e.distinct) in
      let kept = room.until now (e.until now timed.1) in
      (
        IsOrdered-snoc 0 now id _ (omega arith) (room.ordered 0 (e.ordered 0 timed.0)) kept,
        IsUntil-snoc now id _ kept,
      )

  pub remember-IsTimed : IsTimed now (remember capacity ttl now id s).0
  remember-IsTimed =
      remember_cases (IsTimed now) capacity ttl now id s
        (expired.ordered 0 timed.0, expired.until now timed.1) (λ absent. roomy expired)
