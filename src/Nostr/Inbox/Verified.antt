-- ===== src/Nostr/Inbox/Verified.antt =====
-- What a verified inbox of crates/omachat-nostr/src/inbox.rs guarantees.
use oma_chat.Base.{
  ok-injective, sym, suc, ap, reject_if, ◌∙◌, ℕ, ◌+◌, ◌≤◌, ◌<◌, ◌≡◌, refl, true, false, not, List,
  [], ◌∷◌, ok, arith, length, All, anyb, Bytes, bytes_eq, bytes_eq_iff, >>=-elim, reject_if-elim,
  map_err, map_err-eq-ok, subst, not-eq-false, ltb_false→le, is_empty,
}
use oma_chat.Nostr.Event.{SignedEvent, EventLimits, EventLib, verify}
use oma_chat.Nostr.Urls.{UrlLib, secure_or_loopback}
use oma_chat.Nostr.Discovery.{RelayPreference, nip17_dm_relay_list_kind, parse_nip17_dm_relay_list}
use oma_chat.Nostr.Discovery.Merging.{Distinct}
use oma_chat.Nostr.Discovery.Parsing.{parse_nip17_dm_relay_list-IsRelayListOf}
use oma_chat.Nostr.Inbox.{
  DmInboxPolicy, VerifiedDmInbox, validate_policy, urls_of, discovery_limits, verify_dm_inbox,
  invalid_relay_list,
}

-- No address stands twice.
abbrev pub DistinctUrls : List Bytes → Type 0
DistinctUrls [] = Unit
DistinctUrls (u ∷ us) = (anyb (λ v. bytes_eq v u) us ≡ false) × DistinctUrls us

-- The inbox belongs to the expected recipient, whose verified event is at hand and is as old as the
-- policy allows; it has 1 to 3 distinct relays, each of them secure where the policy wants that.
pub record IsVerifiedInbox (lib : EventLib) (urls : UrlLib) (event : SignedEvent) (expected : Bytes)
    (now : ℕ) (event_limits : EventLimits) (policy : DmInboxPolicy) (inbox : VerifiedDmInbox)
    : Type 0 where
  pub verified : verify lib event now event_limits ≡ ok tt
  pub is_kind : event.kind ≡ nip17_dm_relay_list_kind
  pub recipient : inbox.recipient_public_key ≡ lib.hex_encode expected
  pub author : event.pubkey ≡ lib.hex_encode expected
  pub source : inbox.source_event ≡ event
  pub source_id : inbox.source_event_id ≡ event.id
  pub source_time : inbox.source_created_at ≡ event.created_at
  pub not_from_future : event.created_at ≤ now
  pub not_stale : now ≤ event.created_at + policy.maximum_age_seconds
  pub some_relay : 0 < length inbox.relay_urls
  pub few_relays : length inbox.relay_urls ≤ 3
  pub distinct : DistinctUrls inbox.relay_urls
  pub secure :
      policy.require_tls ≡ true → All (λ u. secure_or_loopback urls u ≡ true) inbox.relay_urls

length-urls_of : (relays : List RelayPreference) → length (urls_of relays) ≡ length relays
length-urls_of [] = refl
length-urls_of (r ∷ relays) = ap suc (length-urls_of relays)

contains-urls_of :
    (u : Bytes) (relays : List RelayPreference)
    → anyb (λ v. bytes_eq v u) (urls_of relays)
      ≡ anyb (λ (r : RelayPreference). bytes_eq r.url u) relays
unfolding anyb
contains-urls_of u [] = refl
contains-urls_of u (r ∷ relays) = ground (arith, contains-urls_of u relays)

DistinctUrls-urls_of :
    (relays : List RelayPreference) → Distinct relays → DistinctUrls (urls_of relays)
DistinctUrls-urls_of [] d = tt
DistinctUrls-urls_of (r ∷ relays) d =
    (contains-urls_of r.url relays ∙ d.0, DistinctUrls-urls_of relays d.1)

All-secure :
    (urls : UrlLib) (us : List Bytes)
    → anyb (λ u. not (secure_or_loopback urls u)) us ≡ false
    → All (λ u. secure_or_loopback urls u ≡ true) us
unfolding anyb
All-secure urls [] h = tt
All-secure urls (u ∷ us) h = (ground arith, All-secure urls us (ground arith))

not_empty_length : (relays : List RelayPreference) → is_empty relays ≡ false → 0 < length relays
not_empty_length [] h = cc
not_empty_length (r ∷ relays) h = omega arith

policy_max : (policy : DmInboxPolicy) → validate_policy policy ≡ ok tt → policy.max_relays ≤ 3
unfolding validate_policy reject_if
policy_max policy h = ground arith

module _ (lib : EventLib) (urls : UrlLib) (event : SignedEvent) (expected : Bytes) (now : ℕ)
    (event_limits : EventLimits) (policy : DmInboxPolicy) (inbox : VerifiedDmInbox) where
  -- An inbox that `verify_dm_inbox` returns is the expected recipient's, from an event that
  -- verifies, is of kind 10050, is not from the future and not older than the policy's maximum; it
  -- has 1 to 3 relays, no two the same, and all secure or on a loopback address where the policy
  -- requires TLS.
  pub verify_dm_inbox-IsVerifiedInbox :
      verify_dm_inbox lib urls event expected now event_limits policy ≡ ok inbox
      → IsVerifiedInbox lib urls event expected now event_limits policy inbox
  unfolding verify_dm_inbox
  verify_dm_inbox-IsVerifiedInbox h = >>=-elim (validate_policy policy) _ h λ u p h₁.
      >>=-elim
        (map_err invalid_relay_list
          (parse_nip17_dm_relay_list urls (discovery_limits policy) lib event now event_limits))
        _ h₁
        λ list parsed h₂. reject_if-elim _ _ _ h₂ λ subject h₃. reject_if-elim _ _ _ h₃ λ future h₄.
          reject_if-elim _ _ _ h₄ λ stale h₅. reject_if-elim _ _ _ h₅ λ secure built.
            let l =
              parse_nip17_dm_relay_list-IsRelayListOf lib urls (discovery_limits policy) event now
                event_limits list (map_err-eq-ok _ _ parsed) in
            let key : list.public_key ≡ lib.hex_encode expected =
              (bytes_eq_iff _ _).0 (not-eq-false _ subject) in
            let few = policy_max policy p in
            subst (IsVerifiedInbox lib urls event expected now event_limits policy)
              (ok-injective built)
              (record {
                verified = l.verified;
                is_kind = l.is_kind;
                recipient = refl;
                author = sym l.author ∙ key;
                source = refl;
                source_id = refl;
                source_time = l.time;
                not_from_future = rw (← l.time) (ltb_false→le _ _ future);
                not_stale = ground (arith, l.time);
                some_relay = rw (length-urls_of list.relays) (not_empty_length _ l.not_empty);
                few_relays = omega (arith, length-urls_of list.relays, l.relay_set.bounded, few);
                distinct = DistinctUrls-urls_of list.relays l.relay_set.distinct;
                secure = λ tls. All-secure urls (urls_of list.relays) (ground arith);
              })
