-- ===== src/Nostr/DmInbox/Outcomes.antt =====
-- The results of `DmInbox::receive` of crates/omachat-nostr/src/dm_inbox.rs.
use oma_chat.Base.{
  some, ℕ, ◌≤◌, ◌≡◌, refl, true, false, ==_iff, List, [], ◌∷◌, Result, ok, err, Bytes, bytes_eq_iff,
  subst, ap, >>=-elim, reject_if-elim, ok_or-eq-ok, ok-injective, map_err, map_err-eq-ok,
  not-eq-false, Bool-cases, inl, inr, Result-cases, if◌then◌else◌,
}
use oma_chat.Nostr.Event.{SignedEvent, EventLimits, xonly_public_key}
use oma_chat.Nostr.Inbox.{gift_wrap_kind}
use oma_chat.Nostr.Tags.{recipient_tags}
use oma_chat.Nostr.Dedup.{contains}
use oma_chat.Nostr.GiftWrap.{GiftWrapLib, OpenedGiftWrap, open_gift_wrap, chat_message_kind}
use oma_chat.Nostr.GiftWrap.Opening.{IsOpened, open_gift_wrap-IsOpened}
use oma_chat.Nostr.DmInbox.{
  DmInbox, DmInboxReceive, DmReceiveError, message, blocked, duplicate, metadata_of,
  apply_author_policy, remember_wrap, second_fields, is_exactly, admit, receive, gift_wrap,
  invalid_secret_key, require_exact_outer_recipient,
}
use oma_chat.Nostr.DmInbox.Receiving.{IsReached, IsInboxOf, IsReached-IsInboxOf, later-IsInboxOf}
use oma_chat.Nostr.Dedup.Coverage.{IsRemembered}
use oma_chat.Nostr.Dedup.History.{refused_iff}

-- A gift wrap that may enter the inbox: of kind 1059, with one recipient, the reader, around a chat
-- message.
pub record IsAdmitted (lib : GiftWrapLib) (limits : EventLimits) (wrap : SignedEvent)
    (secret : Bytes) (now : ℕ) (opened : OpenedGiftWrap) : Type 0 where
  pub wrapped : wrap.kind ≡ gift_wrap_kind
  pub recipient : Bytes
  pub is_recipient : lib.events.xonly_of_secret secret ≡ some recipient
  pub only_recipient :
      second_fields (recipient_tags wrap.tags) ≡ lib.events.hex_encode recipient ∷ []
  pub is_opened : IsOpened lib wrap secret now limits opened
  pub chat : opened.rumor.kind ≡ chat_message_kind

is_exactly_iff : (r : Bytes) (fields : List Bytes) → is_exactly r fields ≡ true → fields ≡ r ∷ []
unfolding is_exactly
is_exactly_iff r [] h = cc
is_exactly_iff r (f ∷ []) h = ap (λ x. x ∷ []) ((bytes_eq_iff f r).0 h)
is_exactly_iff r (f ∷ g ∷ fields) h = cc

admit-IsAdmitted :
    (lib : GiftWrapLib) (limits : EventLimits) (wrap : SignedEvent) (secret : Bytes) (now : ℕ)
    (opened : OpenedGiftWrap)
    → admit lib limits wrap secret now ≡ ok opened
    → IsAdmitted lib limits wrap secret now opened
unfolding admit xonly_public_key require_exact_outer_recipient
admit-IsAdmitted lib limits wrap secret now opened h = reject_if-elim _ _ _ h λ kind h₁.
    >>=-elim (map_err (λ _. invalid_secret_key) (xonly_public_key lib.events secret)) _ h₁
      λ recipient x h₂. reject_if-elim _ _ _ h₂ λ exact h₃.
        >>=-elim (map_err gift_wrap (open_gift_wrap lib wrap secret now limits)) _ h₃
          λ inner open_it h₄. reject_if-elim _ _ _ h₄ λ chat built.
            subst (IsAdmitted lib limits wrap secret now) (ok-injective built) (record {
              wrapped = (==_iff _ _).0 (not-eq-false _ kind);
              recipient = recipient;
              is_recipient = ok_or-eq-ok _ _ (map_err-eq-ok _ _ x);
              only_recipient = is_exactly_iff _ _ (not-eq-false _ exact);
              is_opened =
                  open_gift_wrap-IsOpened lib wrap secret now limits inner
                    (map_err-eq-ok _ _ open_it);
              chat = (==_iff _ _).0 (not-eq-false _ chat);
            })

receive-admitted :
    (lib : GiftWrapLib) (inbox : DmInbox) (wrap : SignedEvent) (secret : Bytes) (now : ℕ)
    (opened : OpenedGiftWrap)
    → admit lib inbox.config.event_limits wrap secret now ≡ ok opened
    → receive lib inbox wrap secret now ≡ (
      (remember_wrap inbox wrap.id now).0,
      ok (
          if (remember_wrap inbox wrap.id now).1
          then apply_author_policy (remember_wrap inbox wrap.id now).0 wrap opened
          else duplicate wrap.id),
    )
unfolding receive
receive-admitted lib inbox wrap secret now opened fine = rw (receive, fine) refl

module _ (lib : GiftWrapLib) (log : List (ℕ × Bytes)) (inbox : DmInbox) (wrap : SignedEvent)
    (secret : Bytes) (now : ℕ) where
  -- The wrap's id was taken in less than the time to live ago, and fewer wraps than the capacity were
  -- taken in since.
  abbrev pub WasSeen : Type 0
  WasSeen =
      IsRemembered inbox.config.dedup_capacity inbox.config.dedup_ttl_seconds now wrap.id 0 log

  -- What a result says of the wrap.
  abbrev pub IsAnswer : OpenedGiftWrap → DmInboxReceive → Type 0
  IsAnswer opened (duplicate id) = (id ≡ wrap.id) × WasSeen
  IsAnswer opened (blocked metadata) =
      (metadata ≡ metadata_of wrap opened)
      × (contains inbox.blocked_authors opened.rumor.pubkey ≡ true)
      × ¬ WasSeen
  IsAnswer opened (message m) =
      (m.metadata ≡ metadata_of wrap opened)
      × (m.tags ≡ opened.rumor.tags)
      × (m.content ≡ opened.rumor.content)
      × (contains inbox.blocked_authors opened.rumor.pubkey ≡ false)
      × ¬ WasSeen

  -- A refused wrap changes nothing; the memory alone changes otherwise.
  abbrev pub IsOutcome : DmInbox → Result DmReceiveError DmInboxReceive → Type 0
  IsOutcome next (err e) = next ≡ inbox
  IsOutcome next (ok answer) =
      (opened : OpenedGiftWrap) × IsAdmitted lib inbox.config.event_limits wrap secret now opened
      × IsAnswer opened answer
      × (next.config ≡ inbox.config)
      × (next.blocked_authors ≡ inbox.blocked_authors)

  policy-IsAnswer :
      (opened : OpenedGiftWrap) (next : DmInbox)
      → next.blocked_authors ≡ inbox.blocked_authors
      → ¬ WasSeen
      → IsAnswer opened (apply_author_policy next wrap opened)
  unfolding apply_author_policy
  policy-IsAnswer opened next same new =
      elim (Bool-cases (contains next.blocked_authors opened.rumor.pubkey)) [
        | inl bad ↦ rw bad (refl, rw same at bad, new)
        | inr fine ↦ rw fine (refl, refl, refl, rw same at fine, new)
      ]

  remembered-IsAnswer :
      (opened : OpenedGiftWrap)
      → IsInboxOf log inbox now
      → IsAnswer opened (
          if (remember_wrap inbox wrap.id now).1
          then apply_author_policy (remember_wrap inbox wrap.id now).0 wrap opened
          else duplicate wrap.id)
  unfolding remember_wrap
  remembered-IsAnswer opened i =
      let seen =
        refused_iff inbox.config.dedup_capacity inbox.config.dedup_ttl_seconds now wrap.id log
          inbox.memory i.memory in
      elim (Bool-cases (remember_wrap inbox wrap.id now).1) [
        | inl new ↦ rw new (
            policy-IsAnswer opened (remember_wrap inbox wrap.id now).0 refl
              (λ was. cc (new, seen.1 was)))
        | inr old ↦ rw old (refl, seen.0 old)
      ]

  -- In any reached inbox, what `receive` refuses changes nothing. What it does not refuse is a gift
  -- wrap of kind 1059 with one recipient, the reader, that opens to a chat message: it is reported
  -- as a duplicate exactly if its id was taken in less than the time to live ago and fewer wraps than
  -- the capacity of the memory were taken in since; else as blocked if its author is blocked, else as
  -- the message; and only the memory of ids changes.
  pub receive-IsOutcome :
      (before : ℕ)
      → IsReached lib log inbox before
      → before ≤ now
      → IsOutcome (receive lib inbox wrap secret now).0 (receive lib inbox wrap secret now).1
  unfolding receive remember_wrap
  receive-IsOutcome before r h =
      let i = later-IsInboxOf log inbox before now h (IsReached-IsInboxOf lib log inbox before r) in
      elim (Result-cases (admit lib inbox.config.event_limits wrap secret now)) [
        | inl (opened, fine) ↦
            rw (receive, fine)
              (
                opened,
                admit-IsAdmitted lib _ wrap secret now opened fine,
                remembered-IsAnswer opened i,
                refl,
                refl,
              )
        | inr (e, refused) ↦ rw (receive, refused) refl
      ]

  -- A wrap that a reached inbox admits is answered as a duplicate, whatever the inbox has done in
  -- between, when its id was taken in less than the time to live ago and fewer wraps than the
  -- capacity of the memory were taken in since.
  pub receive_again :
      (before : ℕ) (opened : OpenedGiftWrap)
      → IsReached lib log inbox before
      → before ≤ now
      → admit lib inbox.config.event_limits wrap secret now ≡ ok opened
      → WasSeen
      → (receive lib inbox wrap secret now).1 ≡ ok (duplicate wrap.id)
  unfolding remember_wrap
  receive_again before opened r h fine seen =
      let i = later-IsInboxOf log inbox before now h (IsReached-IsInboxOf lib log inbox before r) in
      let known : (remember_wrap inbox wrap.id now).1 ≡ false =
        (refused_iff inbox.config.dedup_capacity inbox.config.dedup_ttl_seconds now wrap.id log
            inbox.memory i.memory).1
          seen in
      rw (receive-admitted lib inbox wrap secret now opened fine, known) refl
