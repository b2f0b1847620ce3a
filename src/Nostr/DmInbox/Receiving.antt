-- ===== src/Nostr/DmInbox/Receiving.antt =====
-- What `DmInbox::receive` of crates/omachat-nostr/src/dm_inbox.rs returns, and what it remembers, over
-- the histories of an inbox.
use oma_chat.Base.{
  err, List, [], ℕ, ◌≤◌, ◌<◌, ◌≡◌, ok, arith, Bytes, subst, reject_if-elim, ok-injective, inl, inr,
  Result-cases,
}
use oma_chat.Nostr.Event.{SignedEvent}
use oma_chat.Nostr.Dedup.Window.{IsWindow}
use oma_chat.Nostr.Dedup.History.{
  logged, IsLogged, nothing_seen-IsLogged, later-IsLogged, remember-IsLogged,
}
use oma_chat.Nostr.Dedup.Again.{IsTimed}
use oma_chat.Nostr.GiftWrap.{GiftWrapLib}
use oma_chat.Nostr.DmInbox.{
  DmInbox, DmInboxConfig, new_inbox, block_author, unblock_author, validate_xonly, remember_wrap,
  admit, receive,
}

-- The wraps that the inbox has taken in: those that it does not refuse and whose id is new to it.
unfoldable pub received_log :
    GiftWrapLib → DmInbox → SignedEvent → Bytes → ℕ → List (ℕ × Bytes) → List (ℕ × Bytes)
received_log lib inbox wrap secret now log =
    elim (admit lib inbox.config.event_limits wrap secret now) [
      | ok opened ↦ logged (remember_wrap inbox wrap.id now).1 now wrap.id log
      | err e ↦ log
    ]

-- The inbox is as a history of calls leaves it that took in the wraps of the log, the latest in
-- front, whose clock stands at `now` and never ran backwards.
pub data IsReached (lib : GiftWrapLib) : List (ℕ × Bytes) → DmInbox → ℕ → Type 0 where
  created :
      (config : DmInboxConfig) (inbox : DmInbox) (now : ℕ)
      → new_inbox config ≡ ok inbox
      → IsReached lib [] inbox now
  received :
      (log : List (ℕ × Bytes)) (inbox : DmInbox) (before now : ℕ) (wrap : SignedEvent)
      (secret : Bytes)
      → IsReached lib log inbox before
      → before ≤ now
      → IsReached lib
          (received_log lib inbox wrap secret now log)
          (receive lib inbox wrap secret now).0
          now
  blocked_one :
      (log : List (ℕ × Bytes)) (inbox : DmInbox) (now : ℕ) (author : Bytes)
      → IsReached lib log inbox now
      → IsReached lib log (block_author inbox author).0 now
  unblocked_one :
      (log : List (ℕ × Bytes)) (inbox : DmInbox) (now : ℕ) (author : Bytes)
      → IsReached lib log inbox now
      → IsReached lib log (unblock_author inbox author).0 now

-- The memory is a window in the order of time, within the capacity.
pub record IsInbox (inbox : DmInbox) (now : ℕ) : Type 0 where
  pub room : 0 < inbox.config.dedup_capacity
  pub window : IsWindow inbox.config.dedup_capacity inbox.memory
  pub timed : IsTimed now inbox.memory

-- The memory is that of the log.
pub record IsInboxOf (log : List (ℕ × Bytes)) (inbox : DmInbox) (now : ℕ) : Type 0 where
  pub room : 0 < inbox.config.dedup_capacity
  pub memory :
      IsLogged inbox.config.dedup_capacity inbox.config.dedup_ttl_seconds now log inbox.memory

new_inbox-IsInboxOf :
    (config : DmInboxConfig) (inbox : DmInbox) (now : ℕ)
    → new_inbox config ≡ ok inbox
    → IsInboxOf [] inbox now
unfolding new_inbox
new_inbox-IsInboxOf config inbox now h = reject_if-elim _ _ _ h λ sound built.
    subst (λ i. IsInboxOf [] i now) (ok-injective built)
      (record { room = ground arith; memory = nothing_seen-IsLogged _ _ now })

module _ (log : List (ℕ × Bytes)) where
  block_author-IsInboxOf :
      (inbox : DmInbox) (now : ℕ) (author : Bytes)
      → IsInboxOf log inbox now
      → IsInboxOf log (block_author inbox author).0 now
  unfolding block_author
  block_author-IsInboxOf inbox now author i = elim (Result-cases (validate_xonly author)) [
    | inl (u, fine) ↦ rw (block_author, fine) (record { room = i.room; memory = i.memory })
    | inr (e, refused) ↦ rw (block_author, refused) i
  ]

  unblock_author-IsInboxOf :
      (inbox : DmInbox) (now : ℕ) (author : Bytes)
      → IsInboxOf log inbox now
      → IsInboxOf log (unblock_author inbox author).0 now
  unfolding unblock_author
  unblock_author-IsInboxOf inbox now author i = elim (Result-cases (validate_xonly author)) [
    | inl (u, fine) ↦ rw (unblock_author, fine) (record { room = i.room; memory = i.memory })
    | inr (e, refused) ↦ rw (unblock_author, refused) i
  ]

  pub later-IsInboxOf :
      (inbox : DmInbox) (before now : ℕ)
      → before ≤ now
      → IsInboxOf log inbox before
      → IsInboxOf log inbox now
  later-IsInboxOf inbox before now h i = record {
    room = i.room;
    memory = later-IsLogged _ _ before now log inbox.memory h i.memory;
  }

  remember_wrap-IsInboxOf :
      (inbox : DmInbox) (now : ℕ) (id : Bytes)
      → IsInboxOf log inbox now
      → IsInboxOf
          (logged (remember_wrap inbox id now).1 now id log)
          (remember_wrap inbox id now).0
          now
  unfolding remember_wrap
  remember_wrap-IsInboxOf inbox now id i = record {
    room = i.room;
    memory =
        remember-IsLogged inbox.config.dedup_capacity inbox.config.dedup_ttl_seconds now id log
          inbox.memory i.memory i.room;
  }

  receive-IsInboxOf :
      (lib : GiftWrapLib) (inbox : DmInbox) (wrap : SignedEvent) (secret : Bytes) (now : ℕ)
      → IsInboxOf log inbox now
      → IsInboxOf
          (received_log lib inbox wrap secret now log)
          (receive lib inbox wrap secret now).0
          now
  unfolding receive received_log
  receive-IsInboxOf lib inbox wrap secret now i =
      elim (Result-cases (admit lib inbox.config.event_limits wrap secret now)) [
        | inl (opened, fine) ↦
            rw (receive, received_log, fine) (remember_wrap-IsInboxOf inbox now wrap.id i)
        | inr (e, refused) ↦ rw (receive, received_log, refused) i
      ]

pub IsReached-IsInboxOf :
    (lib : GiftWrapLib) (log : List (ℕ × Bytes)) (inbox : DmInbox) (now : ℕ)
    → IsReached lib log inbox now
    → IsInboxOf log inbox now
IsReached-IsInboxOf lib _ _ _ (created config inbox now h) = new_inbox-IsInboxOf config inbox now h
IsReached-IsInboxOf lib _ _ _ (received log inbox before now wrap secret r h) =
    receive-IsInboxOf log lib inbox wrap secret now
      (later-IsInboxOf log inbox before now h (IsReached-IsInboxOf lib log inbox before r))
IsReached-IsInboxOf lib _ _ _ (blocked_one log inbox now author r) =
    block_author-IsInboxOf log inbox now author (IsReached-IsInboxOf lib log inbox now r)
IsReached-IsInboxOf lib _ _ _ (unblocked_one log inbox now author r) =
    unblock_author-IsInboxOf log inbox now author (IsReached-IsInboxOf lib log inbox now r)

-- However an inbox was used, its memory of gift wraps is one of distinct ids, in the order of time,
-- and within the capacity, while the clock does not run backwards.
pub IsReached-IsInbox :
    (lib : GiftWrapLib) (log : List (ℕ × Bytes)) (inbox : DmInbox) (now : ℕ)
    → IsReached lib log inbox now
    → IsInbox inbox now
IsReached-IsInbox lib log inbox now r =
    let i = IsReached-IsInboxOf lib log inbox now r in
    record { room = i.room; window = i.memory.window; timed = i.memory.timed }
