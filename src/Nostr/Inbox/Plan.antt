-- ===== src/Nostr/Inbox/Plan.antt =====
-- The publication plans of crates/omachat-nostr/src/inbox.rs.
use oma_chat.Base.{
  ap, ◌∙◌, ◌↔◌, ℕ, ◌<◌, ◌≤◌, ◌≡◌, ==_iff, min, ok, arith, length, Bytes, >>=-elim, reject_if-elim,
  reject_if, map_err, map_err-eq-ok, not-eq-false, ok-injective, sym,
}
use oma_chat.Nostr.Event.{SignedEvent, EventLimits, EventLib, verify}
use oma_chat.Nostr.Urls.{UrlLib}
use oma_chat.Nostr.Tags.{IsAddressedTo, is_misaddressed_lem}
use oma_chat.Nostr.Inbox.{
  DmInboxPolicy, VerifiedDmInbox, DmPublishPlan, gift_wrap_kind, verify_dm_inbox, plan_dm_publish,
  invalid_gift_wrap,
}
use oma_chat.Nostr.Inbox.Verified.{verify_dm_inbox-IsVerifiedInbox}

abbrev pub planned : SignedEvent → VerifiedDmInbox → DmPublishPlan
planned gift_wrap inbox = record {
  event = gift_wrap;
  recipient_public_key = inbox.recipient_public_key;
  relay_urls = inbox.relay_urls;
  required_acknowledgements = min (length inbox.relay_urls) 2;
  inbox_event_id = inbox.source_event_id;
}

module _ (lib : EventLib) (urls : UrlLib) (gift_wrap : SignedEvent) (inbox : VerifiedDmInbox)
    (now : ℕ) (event_limits : EventLimits) where
  -- A gift wrap that may be published to the inbox.
  abbrev pub IsPublishable : Type 0
  IsPublishable =
      (verify lib gift_wrap now event_limits ≡ ok tt)
      × (gift_wrap.kind ≡ gift_wrap_kind)
      × IsAddressedTo inbox.recipient_public_key gift_wrap.tags

  plan_dm_publish-to :
      (plan : DmPublishPlan)
      → plan_dm_publish lib urls gift_wrap inbox now event_limits ≡ ok plan
      → IsPublishable × (plan ≡ planned gift_wrap inbox)
  unfolding plan_dm_publish
  plan_dm_publish-to plan h =
      >>=-elim (map_err invalid_gift_wrap (verify lib gift_wrap now event_limits)) _ h λ u v h₁.
        reject_if-elim _ _ _ h₁ λ kind h₂. reject_if-elim _ _ _ h₂ λ address h₃.
          reject_if-elim _ _ _ h₃ λ quorum built. (
            (
              map_err-eq-ok _ _ v,
              (==_iff _ _).0 (not-eq-false _ kind),
              (is_misaddressed_lem _ _).0 address,
            ),
            sym (ok-injective built),
          )

  plan_dm_publish-from :
      0 < length inbox.relay_urls
      → IsPublishable
      → plan_dm_publish lib urls gift_wrap inbox now event_limits ≡ ok (planned gift_wrap inbox)
  unfolding plan_dm_publish reject_if map_err
  plan_dm_publish-from some_relay (v, kind, address) =
      rw (v, (==_iff _ _).1 kind, (is_misaddressed_lem _ _).1 address) (ground arith)

-- For a verified inbox, a plan is made exactly for a gift wrap that verifies, has kind 1059 and
-- names the inbox's recipient in its only `p` tag; the plan is for the inbox's relays, and asks for
-- one acknowledgement where there is one relay and for two otherwise.
pub plan_dm_publish_lem :
    (lib : EventLib) (urls : UrlLib) (list gift_wrap : SignedEvent) (expected : Bytes)
    (then_now now : ℕ) (event_limits : EventLimits) (policy : DmInboxPolicy)
    (inbox : VerifiedDmInbox) (plan : DmPublishPlan)
    → verify_dm_inbox lib urls list expected then_now event_limits policy ≡ ok inbox
    → ((plan_dm_publish lib urls gift_wrap inbox now event_limits ≡ ok plan) ↔ (
        IsPublishable lib urls gift_wrap inbox now event_limits × (plan ≡ planned gift_wrap inbox)))
      × (0 < (planned gift_wrap inbox).required_acknowledgements)
      × ((planned gift_wrap inbox).required_acknowledgements
          ≤ length (planned gift_wrap inbox).relay_urls)
plan_dm_publish_lem lib urls list gift_wrap expected then_now now event_limits policy inbox plan h =
    let v =
      verify_dm_inbox-IsVerifiedInbox lib urls list expected then_now event_limits policy inbox h in
    (
      (
        plan_dm_publish-to lib urls gift_wrap inbox now event_limits plan,
        λ (p, e).
            plan_dm_publish-from lib urls gift_wrap inbox now event_limits v.some_relay p
            ∙ ap ok (sym e),
      ),
      omega (arith, v.some_relay),
      omega (arith, v.some_relay),
    )
