-- ===== src/Nostr/RelayListCache/Newest.antt =====
-- `insert_event` of crates/omachat-nostr/src/relay_list_cache.rs.
use oma_chat.Base.{
  text, map_err-eq-ok, ok-injective, map_err, >>=-elim, reject_if-elim, ◌≤◌, ℕ, ◌<◌, subst, ◌≡◌,
  refl, ◌⊎◌, inl, inr, false, none, some, Result, ok, err, arith, ltb, leb, length, Bytes,
  Bool-cases, Option-cases, Result-cases,
}
use oma_chat.Base.Assoc
use oma_chat.Base.Assoc.{IsSorted, remove-insert, insert-insert}
use oma_chat.Nostr.Event.{SignedEvent, EventLib, EventLimits}
use oma_chat.Nostr.Urls.{UrlLib}
use oma_chat.Nostr.Discovery.{
  parse_nip65_relay_list, nip65_relay_list_kind, nip65_fields, RelayDiscoveryLimits,
}
use oma_chat.Nostr.Discovery.Parsing.{IsRelayListOf, parse_nip65_relay_list-IsRelayListOf}
use oma_chat.Nostr.RelayListCache.{
  list_invalid_source_event, RelayListCache, ListJson, VerifiedRelayListCacheRecord,
  RelayListCacheError, RelayListCacheMutation, list_stored, list_unchanged, to_json, is_at_least,
  list_conflict, store_list, insert_list, check_event, insert_event,
}

-- The event replaces what stands under its key: it is newer, or as old with a smaller id.
abbrev pub Replaces : SignedEvent → SignedEvent → Type 0
Replaces event old =
    (old.created_at < event.created_at)
    ⊎ ((old.created_at ≡ event.created_at) × (is_at_least event.id old.id ≡ false))

list_conflict-Replaces :
    (event old : SignedEvent) → list_conflict event old ≡ none → Replaces event old
unfolding list_conflict
list_conflict-Replaces event old h = elim (Bool-cases (ltb old.created_at event.created_at)) [
  | inl newer ↦ inl (ground (arith, newer))
  | inr same ↦ inr (ground (arith, h, same), ground (arith, h, same))
]

-- Nothing has changed, or the record was stored in the place of what it replaces.
abbrev pub IsInsertion :
    RelayListCache
    → Bytes
    → VerifiedRelayListCacheRecord
    → RelayListCache × Result RelayListCacheError RelayListCacheMutation
    → Type 0
IsInsertion cache key r (next, ok list_stored) =
    (next ≡ Assoc.insert key r cache)
    × ((old : VerifiedRelayListCacheRecord)
        → Assoc.lookup key cache ≡ some old
        → Replaces r.source_event old.source_event)
IsInsertion cache key r (next, ok list_unchanged) = next ≡ cache
IsInsertion cache key r (next, err e) = next ≡ cache

module _ (json : ListJson) (cache : RelayListCache) (key : Bytes) (r : VerifiedRelayListCacheRecord)
    (sorted : IsSorted cache) where
  store_list-IsInsertion :
      ((old : VerifiedRelayListCacheRecord)
        → Assoc.lookup key cache ≡ some old
        → Replaces r.source_event old.source_event)
      → IsInsertion cache key r (store_list json cache key r)
  unfolding store_list
  store_list-IsInsertion newer = elim (Result-cases (to_json json (Assoc.insert key r cache))) [
    | inl (encoded, fine) ↦ rw (store_list, fine) (refl, newer)
    | inr (e, failed) ↦ elim (Option-cases (Assoc.lookup key cache)) [
      | inl absent ↦ rw (store_list, failed, absent) (remove-insert key r cache absent)
      | inr (old, present) ↦
          rw (store_list, failed, present) (insert-insert key r old cache sorted present)
    ]
  ]

  answer-IsInsertion :
      (old : SignedEvent) (answer : Result RelayListCacheError RelayListCacheMutation)
      → list_conflict r.source_event old ≡ some answer
      → IsInsertion cache key r (cache, answer)
  unfolding list_conflict
  answer-IsInsertion old (err e) h = refl
  answer-IsInsertion old (ok list_unchanged) h = refl
  answer-IsInsertion old (ok list_stored) h = absurd (ground (arith, h))

  same_entry :
      (old other : VerifiedRelayListCacheRecord)
      → Assoc.lookup key cache ≡ some old
      → Assoc.lookup key cache ≡ some other
      → old ≡ other
  same_entry old other h k = cc

  insert_list-IsInsertion : IsInsertion cache key r (insert_list json cache key r)
  unfolding insert_list
  insert_list-IsInsertion = elim (Option-cases (Assoc.lookup key cache)) [
    | inl absent ↦ elim (Bool-cases (leb 4096 (length cache))) [
      | inl full ↦ rw (insert_list, absent, full) refl
      | inr room ↦
          rw (insert_list, absent, room)
            (store_list-IsInsertion (λ old h. (let impossible = rw absent at h in cc)))
    ]
    | inr (old, present) ↦ elim (Option-cases (list_conflict r.source_event old.source_event)) [
      | inl nothing ↦
          rw (insert_list, present, nothing)
            (store_list-IsInsertion (λ other h.
              subst (λ (o : VerifiedRelayListCacheRecord). Replaces r.source_event o.source_event)
                (same_entry old other present h)
                (list_conflict-Replaces r.source_event old.source_event nothing)))
      | inr (answer, found) ↦
          rw (insert_list, present, found) (answer-IsInsertion old.source_event answer found)
    ]
  ]

module _ (lib : EventLib) (urls : UrlLib) (limits : RelayDiscoveryLimits) (json : ListJson)
    (now : ℕ) (event_limits : EventLimits) (cache : RelayListCache) (event : SignedEvent)
    (verified_at : ℕ) where
  -- What is stored is the event with the NIP-65 list in it, verified between its creation and now.
  pub record IsCheckedList (r : VerifiedRelayListCacheRecord) : Type 0 where
    pub of_event : r.source_event ≡ event
    pub since : r.verified_at ≡ verified_at
    pub created : event.created_at ≤ verified_at
    pub past : verified_at ≤ now
    pub parsed :
        IsRelayListOf lib urls limits nip65_relay_list_kind
          (text "r")
          nip65_fields
          event
          now
          event_limits
          r.relay_list

  check_event-IsCheckedList :
      (r : VerifiedRelayListCacheRecord)
      → check_event lib urls limits json now event_limits event verified_at ≡ ok r
      → IsCheckedList r
  unfolding check_event
  check_event-IsCheckedList r h = reject_if-elim _ _ _ h λ timely h₁.
      >>=-elim
        (map_err (λ _. list_invalid_source_event)
          (parse_nip65_relay_list urls limits lib event now event_limits))
        _ h₁
        λ list parse built. subst IsCheckedList (ok-injective built) (record {
          of_event = refl;
          since = refl;
          created = ground (arith, timely);
          past = ground (arith, timely);
          parsed =
              parse_nip65_relay_list-IsRelayListOf lib urls limits event now event_limits list
                (map_err-eq-ok _ _ parse);
        })

  -- An event for a sorted cache either changes nothing, or it is a verified event of kind 10002 that
  -- was received between its creation and now, and the relay list in it, with all that the parser
  -- promises of it, is stored with the event and that time under the author's key, in the place of
  -- a list that is older, or as old with a greater id.
  pub insert_event-IsInsertion :
      IsSorted cache
      → ((insert_event lib urls limits json now event_limits cache event verified_at).0 ≡ cache)
        ⊎ ((r : VerifiedRelayListCacheRecord) × IsCheckedList r
            × IsInsertion cache event.pubkey r
                (insert_event lib urls limits json now event_limits cache event verified_at))
  unfolding insert_event
  insert_event-IsInsertion sorted =
      elim (Result-cases (check_event lib urls limits json now event_limits event verified_at)) [
        | inr (e, refused) ↦ inl (rw (insert_event, refused) refl)
        | inl (r, fine) ↦ inr (
          r,
          check_event-IsCheckedList r fine,
          subst
              (λ key.
                IsInsertion cache key r
                  (insert_event lib urls limits json now event_limits cache event verified_at))
              (check_event-IsCheckedList r fine).parsed.author
              (rw (insert_event, fine)
                (insert_list-IsInsertion json cache r.relay_list.public_key r sorted)),
        )
      ]
