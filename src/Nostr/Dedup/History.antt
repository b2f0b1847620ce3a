-- ===== src/Nostr/Dedup/History.antt =====
-- The histories of the memory of event ids of crates/omachat-nostr/src/pool.rs and dm_inbox.rs, with
-- the log of the ids that it has taken in.
use oma_chat.Base.{
  ℕ, suc, ◌+◌, ◌≤◌, ◌<◌, ◌≡◌, refl, Bool, false, ◌↔◌, inl, inr, List, [], ◌∷◌, arith, length, Bytes,
  Bool-cases, if◌then◌else◌, subst, sym, ap, ◌∙◌, length-append,
}
use oma_chat.Nostr.Dedup.Window.{IsWindow, IsSynced, expire-IsSynced}
use oma_chat.Nostr.Dedup.Recent.{remember-IsRecent, remember-IsWindow}
use oma_chat.Nostr.Dedup.Again.{IsTimed, IsUntil-weaken, remember-IsTimed}
use oma_chat.Nostr.Dedup.{
  [], length, ◌∷◌, Bytes, List, ℕ, Seen, nothing_seen, contains, expire, make_room, enter, remember,
}
use oma_chat.Nostr.Dedup.Coverage.{
  revapp, revapp-snoc, IsRemembered, AllGone, AllGone-weaken, AllGone-not, IsRemembered-revapp,
  Covers, Covers-later, expire-Covers, make_room-Covers,
}

-- The log after `remember`: an id that is new has been taken in.
abbrev pub logged : Bool → ℕ → Bytes → List (ℕ × Bytes) → List (ℕ × Bytes)
logged is_new now id log = if is_new then (now, id) ∷ log else log

-- The memory covers the log, with what else it keeps to.
pub record IsLogged (capacity ttl now : ℕ) (log : List (ℕ × Bytes)) (s : Seen) : Type 0 where
  pub window : IsWindow capacity s
  pub timed : IsTimed now s
  pub covers : Covers capacity ttl now s.seen_order log

pub nothing_seen-IsLogged : (capacity ttl now : ℕ) → IsLogged capacity ttl now [] nothing_seen
nothing_seen-IsLogged capacity ttl now = record {
  window = record { synced = refl; distinct = tt; bounded = omega arith };
  timed = (tt, tt);
  covers = ([], refl, tt);
}

pub later-IsLogged :
    (capacity ttl before now : ℕ) (log : List (ℕ × Bytes)) (s : Seen)
    → before ≤ now
    → IsLogged capacity ttl before log s
    → IsLogged capacity ttl now log s
later-IsLogged capacity ttl before now log s h i = record {
  window = i.window;
  timed = (i.timed.0, IsUntil-weaken before now s.seen_order h i.timed.1);
  covers = (
    i.covers.0,
    i.covers.1,
    Covers-later capacity ttl before now (length s.seen_order) i.covers.0 h i.covers.2,
  );
}

module _ (capacity ttl now : ℕ) (id : Bytes) (log : List (ℕ × Bytes)) (s : Seen)
    (i : IsLogged capacity ttl now log s) where
  abbrev left : Seen
  left = expire ttl now s.seen s.seen_order

  left-Covers : Covers capacity ttl now left.seen_order log
  left-Covers =
      subst (Covers capacity ttl now left.seen_order) (sym i.covers.1)
        (expire-Covers capacity ttl now s.seen s.seen_order i.covers.0 i.covers.2)

  left-IsSynced : IsSynced s.seen_order left
  left-IsSynced =
      subst (λ set. IsSynced s.seen_order (expire ttl now set s.seen_order)) (sym i.window.synced)
        (expire-IsSynced ttl now s.seen_order i.window.distinct)

  enter-Covers : Covers capacity ttl now (enter capacity now id left).seen_order ((now, id) ∷ log)
  unfolding enter
  enter-Covers =
      let (rest, same, gone) = left-Covers in
      let room =
        subst
          (λ set.
            (rest' : List (ℕ × Bytes)) × (revapp left.seen_order rest
              ≡ revapp (make_room capacity set left.seen_order).seen_order rest')
            × AllGone capacity ttl now
                (suc (length (make_room capacity set left.seen_order).seen_order)) rest')
          (sym left-IsSynced.synced)
          (make_room-Covers capacity ttl now left.seen_order rest left-IsSynced.distinct
            (AllGone-weaken capacity ttl now _ _ rest (omega arith) gone)) in
      let order = (make_room capacity left.seen left.seen_order).seen_order in
      (
        room.0,
        ap (◌∷◌ (now, id)) (same ∙ room.1) ∙ sym (revapp-snoc order room.0 (now, id)),
        AllGone-weaken capacity ttl now _ _ room.0
            (omega (arith, length-append order ((now, id) ∷ []))) room.2,
      )

  remember-Covers :
      Covers capacity ttl now
        (remember capacity ttl now id s).0.seen_order
        (logged (remember capacity ttl now id s).1 now id log)
  unfolding remember
  remember-Covers = elim (Bool-cases (contains left.seen id)) [
    | inl there ↦ rw there left-Covers
    | inr absent ↦ rw absent enter-Covers
  ]

  pub remember-IsLogged :
      0 < capacity
      → IsLogged capacity ttl now
          (logged (remember capacity ttl now id s).1 now id log)
          (remember capacity ttl now id s).0
  remember-IsLogged room = record {
    window = remember-IsWindow capacity ttl now id s i.window room;
    timed = remember-IsTimed capacity ttl now id s i.window i.timed;
    covers = remember-Covers;
  }

  -- What covers the log refuses what is remembered of the log.
  pub refused_iff :
      ((remember capacity ttl now id s).1 ≡ false) ↔ IsRemembered capacity ttl now id 0 log
  refused_iff =
      let (rest, same, gone) = i.covers in
      let recent = remember-IsRecent capacity ttl now id s i.window i.timed.0 in
      let split =
        IsRemembered-revapp capacity ttl now id s.seen_order rest 0
          (omega (arith, i.window.bounded)) in
      (
        λ h. subst (IsRemembered capacity ttl now id 0) (sym same) (split.1 (inl (recent.0 h))),
        λ r. recent.1 (elim (split.0 (subst (IsRemembered capacity ttl now id 0) same r)) [
          | inl young ↦ young
          | inr old ↦ absurd (
              AllGone-not capacity ttl now id _ rest
                (AllGone-weaken capacity ttl now _ (0 + length s.seen_order) rest (omega arith)
                  gone)
                old)
        ]),
      )

-- The memory is as a history of calls leaves it that took in the ids of the log, whose clock stands
-- at `now` and never ran backwards.
pub data IsReachedMemory (capacity ttl : ℕ) : List (ℕ × Bytes) → Seen → ℕ → Type 0 where
  started : (now : ℕ) → IsReachedMemory capacity ttl [] nothing_seen now
  remembered :
      (log : List (ℕ × Bytes)) (s : Seen) (before now : ℕ) (id : Bytes)
      → IsReachedMemory capacity ttl log s before
      → before ≤ now
      → IsReachedMemory capacity ttl
          (logged (remember capacity ttl now id s).1 now id log)
          (remember capacity ttl now id s).0
          now

IsReachedMemory-IsLogged :
    (capacity ttl : ℕ) (log : List (ℕ × Bytes)) (s : Seen) (now : ℕ)
    → 0 < capacity
    → IsReachedMemory capacity ttl log s now
    → IsLogged capacity ttl now log s
IsReachedMemory-IsLogged capacity ttl _ _ _ room (started now) =
    nothing_seen-IsLogged capacity ttl now
IsReachedMemory-IsLogged capacity ttl _ _ _ room (remembered log s before now id r h) =
    remember-IsLogged capacity ttl now id log s
      (later-IsLogged capacity ttl before now log s h
        (IsReachedMemory-IsLogged capacity ttl log s before room r))
      room

-- However a memory with a capacity above 0 was used, as long as the clock does not run backwards, it
-- refuses an id exactly if the id was taken in less than the time to live ago and fewer than
-- `capacity` ids were taken in since.
pub remember-IsRemembered :
    (capacity ttl : ℕ) (log : List (ℕ × Bytes)) (s : Seen) (before now : ℕ) (id : Bytes)
    → 0 < capacity
    → IsReachedMemory capacity ttl log s before
    → before ≤ now
    → ((remember capacity ttl now id s).1 ≡ false) ↔ IsRemembered capacity ttl now id 0 log
remember-IsRemembered capacity ttl log s before now id room r h =
    refused_iff capacity ttl now id log s (
      later-IsLogged capacity ttl before now log s h
        (IsReachedMemory-IsLogged capacity ttl log s before room r))
