-- ===== src/Nostr/Discovery/Parsing.antt =====
-- The relay lists that crates/omachat-nostr/src/discovery.rs parses out of events.
use oma_chat.Base.{
  not-eq-false, subst, ℕ, ◌≡◌, refl, Bool, true, false, Option, some, List, [], ◌∷◌, ok, arith,
  is_empty, All, Bytes, text, >>=-elim, ok_or-elim, reject_if-elim, map_err-eq-ok, map_err,
  Bool-cases, inl, inr, ==_iff,
}
use oma_chat.Nostr.Event.{Tag, SignedEvent, EventLimits, EventLib, verify}
use oma_chat.Nostr.Urls.{UrlLib}
use oma_chat.Nostr.Discovery.{
  RelayPreference, RelayDiscoveryLimits, RelayList, normalize_relay_url, merge_relay, merge_tags,
  parse_relay_list, validate_limits, has_name, nip65_fields, nip17_fields, parse_nip65_relay_list,
  parse_nip17_dm_relay_list, nip17_dm_relay_list_kind, nip65_relay_list_kind, invalid_event,
}
use oma_chat.Nostr.Discovery.Merging.{contains_url, IsRelaySet, merge_url-IsRelaySet}

-- The address is the normal form of some address.
abbrev pub IsNormal : UrlLib → RelayDiscoveryLimits → Bytes → Type 0
IsNormal urls limits url = (raw : Bytes) × (normalize_relay_url urls raw limits ≡ ok url)

-- A tag of the given name has a shape that the parser reads, and the normal form of its address is
-- among the relays.
abbrev pub IsHonoured :
    UrlLib
    → RelayDiscoveryLimits
    → (Tag → Option (Bytes × Bool × Bool))
    → List RelayPreference
    → Tag
    → Type 0
IsHonoured urls limits fields relays tag =
    (raw url : Bytes) × (read write : Bool) × (fields tag ≡ some (raw, read, write))
    × (normalize_relay_url urls raw limits ≡ ok url)
    × (contains_url url relays ≡ true)

module _ (urls : UrlLib) (limits : RelayDiscoveryLimits) (name : Bytes)
    (fields : Tag → Option (Bytes × Bool × Bool)) where
  abbrev Honours : List RelayPreference → List Tag → Type 0
  Honours relays tags =
      All (λ tag. has_name name tag ≡ true → IsHonoured urls limits fields relays tag) tags

  abbrev Parsed : List RelayPreference → List Tag → List RelayPreference → Type 0
  Parsed relays tags parsed =
      IsRelaySet (IsNormal urls limits) limits.max_relays parsed
      × Honours parsed tags
      × ((v : Bytes) → contains_url v relays ≡ true → contains_url v parsed ≡ true)

  merge_tags-Parsed :
      (tags : List Tag) (relays parsed : List RelayPreference)
      → merge_tags urls limits name fields tags relays ≡ ok parsed
      → IsRelaySet (IsNormal urls limits) limits.max_relays relays
      → Parsed relays tags parsed
  unfolding merge_tags merge_relay
  merge_tags-Parsed [] relays parsed h s =
      let e : relays ≡ parsed = cc in subst (λ m. Parsed relays [] m) e (s, tt, λ v c. c)
  merge_tags-Parsed (tag ∷ tags) relays parsed h s = elim (Bool-cases (has_name name tag)) [
    | inl named ↦ ok_or-elim (fields tag) _ _ (rw named at h) λ f shape h₁.
        >>=-elim (merge_relay urls limits relays f) _ h₁ λ next one h₂.
          >>=-elim (normalize_relay_url urls f.0 limits) _ one λ url normal merge.
            let step =
              merge_url-IsRelaySet (IsNormal urls limits) limits relays next url f.1 f.2 merge s
                (f.0, normal) in
            let rest = merge_tags-Parsed tags next parsed h₂ step.0 in
            (
              rest.0,
              (λ _. (f.0, url, f.1, f.2, shape, normal, rest.2 url step.1), rest.1),
              λ v c. rest.2 v (step.2 v c),
            )
    | inr skipped ↦
        let rest = merge_tags-Parsed tags relays parsed (rw skipped at h) s in
        (rest.0, (λ named. cc, rest.1), rest.2)
  ]

-- A relay list of an event: it carries the author and the time of the event, which is verified and
-- of the list's kind; it is not empty, holds at most the allowed number of distinct addresses, each
-- a normal form, and has the address of every tag of the list's name.
pub record IsRelayListOf (lib : EventLib) (urls : UrlLib) (limits : RelayDiscoveryLimits) (kind : ℕ)
    (name : Bytes) (fields : Tag → Option (Bytes × Bool × Bool)) (event : SignedEvent) (now : ℕ)
    (event_limits : EventLimits) (list : RelayList) : Type 0 where
  pub verified : verify lib event now event_limits ≡ ok tt
  pub is_kind : event.kind ≡ kind
  pub author : list.public_key ≡ event.pubkey
  pub time : list.created_at ≡ event.created_at
  pub not_empty : is_empty list.relays ≡ false
  pub relay_set : IsRelaySet (IsNormal urls limits) limits.max_relays list.relays
  pub honours :
      All
        (λ tag. has_name name tag ≡ true → IsHonoured urls limits fields list.relays tag)
        event.tags

module _ (lib : EventLib) (urls : UrlLib) (limits : RelayDiscoveryLimits) (kind : ℕ) (name : Bytes)
    (fields : Tag → Option (Bytes × Bool × Bool)) (event : SignedEvent) (now : ℕ)
    (event_limits : EventLimits) (list : RelayList) where
  pub parse_relay_list-IsRelayListOf :
      parse_relay_list urls limits lib kind name fields event now event_limits ≡ ok list
      → IsRelayListOf lib urls limits kind name fields event now event_limits list
  unfolding parse_relay_list
  parse_relay_list-IsRelayListOf h =
      >>=-elim (map_err invalid_event (verify lib event now event_limits)) _ h λ u v h₁.
        reject_if-elim _ _ _ h₁ λ k h₂. >>=-elim (validate_limits limits) _ h₂ λ w l h₃.
          >>=-elim (merge_tags urls limits name fields event.tags []) _ h₃ λ relays m h₄.
            reject_if-elim _ _ _ h₄ λ filled built.
              let parsed =
                merge_tags-Parsed urls limits name fields event.tags [] relays m
                  (record { distinct = tt; bounded = omega arith; urls = tt }) in
              let made : record {
                public_key = event.pubkey;
                created_at = event.created_at;
                relays = relays;
              }
                  ≡ list =
                cc in
              subst (IsRelayListOf lib urls limits kind name fields event now event_limits) made
                (record {
                  verified = map_err-eq-ok _ _ v;
                  is_kind = (==_iff event.kind kind).0 (not-eq-false _ k);
                  author = refl;
                  time = refl;
                  not_empty = filled;
                  relay_set = parsed.0;
                  honours = parsed.1;
                })

-- A NIP-65 list that is parsed comes from a verified event of kind 10002 with its author and time;
-- it is not empty, within the limit, without repeated addresses, and has each `r` tag's address.
pub parse_nip65_relay_list-IsRelayListOf :
    (lib : EventLib) (urls : UrlLib) (limits : RelayDiscoveryLimits) (event : SignedEvent) (now : ℕ)
    (event_limits : EventLimits) (list : RelayList)
    → parse_nip65_relay_list urls limits lib event now event_limits ≡ ok list
    → IsRelayListOf lib urls limits nip65_relay_list_kind
        (text "r")
        nip65_fields
        event
        now
        event_limits
        list
unfolding parse_nip65_relay_list
parse_nip65_relay_list-IsRelayListOf lib urls limits event now event_limits list h =
    parse_relay_list-IsRelayListOf lib urls limits nip65_relay_list_kind (text "r") nip65_fields
      event now event_limits list h

-- A NIP-17 list that is parsed comes from a verified event of kind 10050 with its author and time;
-- it is not empty, within the limit, without repeated addresses, each the normal form of some
-- address, and has the normal form of each `relay` tag's address.
pub parse_nip17_dm_relay_list-IsRelayListOf :
    (lib : EventLib) (urls : UrlLib) (limits : RelayDiscoveryLimits) (event : SignedEvent) (now : ℕ)
    (event_limits : EventLimits) (list : RelayList)
    → parse_nip17_dm_relay_list urls limits lib event now event_limits ≡ ok list
    → IsRelayListOf lib urls limits nip17_dm_relay_list_kind
        (text "relay")
        nip17_fields
        event
        now
        event_limits
        list
unfolding parse_nip17_dm_relay_list
parse_nip17_dm_relay_list-IsRelayListOf lib urls limits event now event_limits list h =
    parse_relay_list-IsRelayListOf lib urls limits nip17_dm_relay_list_kind (text "relay")
      nip17_fields event now event_limits list h
