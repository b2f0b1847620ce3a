-- ===== src/Examples/Inboxes.antt =====
-- An inbox that receives a gift wrap twice.
use oma_chat.Base.{
  anyb, inl, ◌∷◌, filterb, bytes_eq, list_eq, reject_if, map_err, ok_or, ◌≡◌, refl, ok, arith, [],
}
use oma_chat.Nostr.Event.{default_limits, xonly_public_key}
use oma_chat.Nostr.Tags.{recipient_tags}
use oma_chat.Nostr.Dedup.{nothing_seen, remember, expire, contains}
use oma_chat.Nostr.DmInbox.{
  DmInbox, default_inbox_config, new_inbox, admit, receive, duplicate,
  require_exact_outer_recipient, second_fields, is_exactly, remember_wrap,
}
use oma_chat.Nostr.DmInbox.Receiving.{
  IsReached, received_log, created, received, IsInbox, IsReached-IsInbox,
}
use oma_chat.Nostr.DmInbox.Outcomes.{WasSeen, IsOutcome, receive-IsOutcome, receive_again}
use oma_chat.Examples.Wrapping.{wraps}
use oma_chat.Examples.Messages.{wrap, wrap_opens, wrap_created, opened, bob}

abbrev inbox : DmInbox
inbox = record { config = default_inbox_config; blocked_authors = []; memory = nothing_seen }

inbox-IsReached : IsReached wraps [] inbox 50
unfolding new_inbox reject_if
inbox-IsReached = created default_inbox_config inbox 50 refl

wrap_admitted : admit wraps default_limits wrap bob 100 ≡ ok opened
unfolding admit xonly_public_key require_exact_outer_recipient recipient_tags second_fields
    is_exactly filterb bytes_eq list_eq reject_if map_err ok_or
wrap_admitted = rw (wrap_created.3, wrap_created.4, wrap_opens.1) refl

-- The inbox that has received the wrap.
abbrev holding : DmInbox
holding = (receive wraps inbox wrap bob 100).0

holding-IsReached : IsReached wraps (received_log wraps inbox wrap bob 100 []) holding 100
holding-IsReached = received [] inbox 50 100 wrap bob inbox-IsReached (omega arith)

IsReached-IsInbox_example : IsInbox (receive wraps inbox wrap bob 100).0 100
IsReached-IsInbox_example =
    IsReached-IsInbox wraps (received_log wraps inbox wrap bob 100 [])
      (receive wraps inbox wrap bob 100).0 100 holding-IsReached

receive-IsOutcome_example :
    IsOutcome wraps [] inbox wrap bob 100
      (receive wraps inbox wrap bob 100).0
      (receive wraps inbox wrap bob 100).1
receive-IsOutcome_example =
    receive-IsOutcome wraps [] inbox wrap bob 100 50 inbox-IsReached (omega arith)

holding_config : holding.config ≡ default_inbox_config
unfolding receive remember_wrap
holding_config = rw (holding, receive, wrap_admitted) refl

holding_admits : admit wraps holding.config.event_limits wrap bob 100 ≡ ok opened
holding_admits = rw holding_config wrap_admitted

holding_log : received_log wraps inbox wrap bob 100 [] ≡ (100, wrap.id) ∷ []
unfolding received_log remember_wrap remember expire contains anyb
holding_log = rw (received_log, wrap_admitted) refl

holding-WasSeen : WasSeen wraps (received_log wraps inbox wrap bob 100 []) holding wrap bob 100
holding-WasSeen = rw (holding_log, holding_config) (inl (refl, omega arith, omega arith))

receive_again_example : (receive wraps holding wrap bob 100).1 ≡ ok (duplicate wrap.id)
receive_again_example =
    receive_again wraps (received_log wraps inbox wrap bob 100 []) holding wrap bob 100 100 opened
      holding-IsReached (omega arith) holding_admits holding-WasSeen
