-- ===== src/Nostr/Discovery.antt =====
-- crates/omachat-nostr/src/discovery.rs: the relay lists of NIP-65 and NIP-17 events. An
-- `InvalidEvent` carries the error itself where the source carries its text.
pub mod Merging
pub mod Parsing
use oma_chat.Base.{
  ℕ, ◌==◌, Bool, true, false, not, ◌&&◌, ◌||◌, Option, none, some, List, [], ◌∷◌, ◌++◌, Result, ok,
  err, ◌>>=◌, ◌>>◌, reject_if, ok_or, map_err, ltb, leb, if◌then◌else◌, length, is_empty, Bytes,
  text, bytes_eq,
}
use oma_chat.Nostr.Event.{Tag, SignedEvent, EventLimits, EventError, EventLib, verify}
use oma_chat.Nostr.Urls.{Url, UrlLib, is_some, is_none}

abbrev pub nip65_relay_list_kind : ℕ
nip65_relay_list_kind = 10002

abbrev pub nip17_dm_relay_list_kind : ℕ
nip17_dm_relay_list_kind = 10050

pub record RelayDiscoveryLimits : Type 0 where
  pub max_relays : ℕ
  pub max_url_bytes : ℕ

pub record RelayPreference : Type 0 where
  pub url : Bytes
  pub read : Bool
  pub write : Bool

pub record RelayList : Type 0 where
  pub public_key : Bytes
  pub created_at : ℕ
  pub relays : List RelayPreference

pub data RelayDiscoveryError : Type 0 where
  invalid_event : EventError → RelayDiscoveryError
  -- expected, then actual
  wrong_kind : ℕ → ℕ → RelayDiscoveryError
  invalid_limits invalid_relay_tag invalid_relay_url empty_relay_list : RelayDiscoveryError
  too_many_relays : ℕ → RelayDiscoveryError

unfoldable pub validate_limits : RelayDiscoveryLimits → Result RelayDiscoveryError (Unit {0})
validate_limits limits =
    if (limits.max_relays == 0) || (limits.max_url_bytes == 0) then err invalid_limits else ok tt

-- The condition on a parsed address in `normalize_relay_url`, negated as there.
unfoldable pub is_refused_relay_url : Url → Bool
is_refused_relay_url parsed =
    not (bytes_eq parsed.scheme (text "ws") || bytes_eq parsed.scheme (text "wss"))
    || (is_none parsed.host_str
        || (is_none parsed.port_or_known_default
            || (not (is_empty parsed.username)
                || (is_some parsed.password || (is_some parsed.query || is_some parsed.fragment)))))

unfoldable pub normalize_relay_url :
    UrlLib → Bytes → RelayDiscoveryLimits → Result RelayDiscoveryError Bytes
normalize_relay_url urls raw_url limits = do
  reject_if (is_empty raw_url || ltb limits.max_url_bytes (length raw_url)) invalid_relay_url
  parsed ← ok_or (urls.parse raw_url) invalid_relay_url
  reject_if (is_refused_relay_url parsed) invalid_relay_url
  ok parsed.serialization

-- `relays.iter_mut().find(|relay| relay.url == url)` with the update of the entry found.
unfoldable pub add_flags :
    Bytes → Bool → Bool → List RelayPreference → Option (List RelayPreference)
add_flags url read write [] = none
add_flags url read write (r ∷ relays) =
    if bytes_eq r.url url
    then some (record r { read = r.read || read; write = r.write || write } ∷ relays)
    else (elim (add_flags url read write relays) [ none ↦ none | some rest ↦ some (r ∷ rest) ])

-- `merge_relay`, behind the normalisation of the address.
unfoldable pub merge_url :
    List RelayPreference
    → Bytes
    → Bool
    → Bool
    → RelayDiscoveryLimits
    → Result RelayDiscoveryError (List RelayPreference)
merge_url relays url read write limits = elim (add_flags url read write relays) [
  | some merged ↦ ok merged
  | none ↦
      if leb limits.max_relays (length relays)
      then err (too_many_relays limits.max_relays)
      else ok (relays ++ record { url = url; read = read; write = write } ∷ [])
]

-- `tag.first().map(String::as_str) == Some(name)`.
abbrev pub has_name : Bytes → Tag → Bool
has_name name [] = false
has_name name (field ∷ fields) = bytes_eq field name

-- The `match` of `parse_nip65_relay_list` on a tag, with the address that it goes on with.
unfoldable pub nip65_fields : Tag → Option (Bytes × Bool × Bool)
nip65_fields (name ∷ url ∷ []) = some (url, true, true)
nip65_fields (name ∷ url ∷ marker ∷ []) =
    if bytes_eq marker (text "read")
    then some (url, true, false)
    else if bytes_eq marker (text "write")
    then some (url, false, true)
    else none
nip65_fields _ = none

-- `let [_, relay_url] = tag.as_slice()`.
unfoldable pub nip17_fields : Tag → Option (Bytes × Bool × Bool)
nip17_fields (name ∷ url ∷ []) = some (url, true, true)
nip17_fields _ = none

module _ (urls : UrlLib) (limits : RelayDiscoveryLimits) where
  unfoldable pub merge_relay :
      List RelayPreference → Bytes × Bool × Bool → Result RelayDiscoveryError (List RelayPreference)
  merge_relay relays (raw_url, read, write) = do
    url ← normalize_relay_url urls raw_url limits
    merge_url relays url read write limits

  -- The loop of both parsers: tags of another name are skipped.
  unfoldable pub merge_tags :
      Bytes
      → (Tag → Option (Bytes × Bool × Bool))
      → List Tag
      → List RelayPreference
      → Result RelayDiscoveryError (List RelayPreference)
  merge_tags name fields [] relays = ok relays
  merge_tags name fields (tag ∷ tags) relays =
      let skipped = merge_tags name fields tags relays in
      let merged =
        (ok_or (fields tag) invalid_relay_tag >>= λ f.
        (merge_relay relays f >>= λ next. merge_tags name fields tags next)) in
      if has_name name tag then merged else skipped

  -- The body that the two parsers share in shape.
  unfoldable pub parse_relay_list :
      EventLib
      → ℕ
      → Bytes
      → (Tag → Option (Bytes × Bool × Bool))
      → SignedEvent
      → ℕ
      → EventLimits
      → Result RelayDiscoveryError RelayList
  parse_relay_list lib kind name fields event now event_limits = do
    map_err invalid_event (verify lib event now event_limits)
    reject_if (not (event.kind == kind)) (wrong_kind kind event.kind)
    validate_limits limits
    relays ← merge_tags name fields event.tags []
    reject_if (is_empty relays) empty_relay_list
    ok (record { public_key = event.pubkey; created_at = event.created_at; relays = relays })

  unfoldable pub parse_nip65_relay_list :
      EventLib → SignedEvent → ℕ → EventLimits → Result RelayDiscoveryError RelayList
  parse_nip65_relay_list lib = parse_relay_list lib nip65_relay_list_kind (text "r") nip65_fields

  unfoldable pub parse_nip17_dm_relay_list :
      EventLib → SignedEvent → ℕ → EventLimits → Result RelayDiscoveryError RelayList
  parse_nip17_dm_relay_list lib =
      parse_relay_list lib nip17_dm_relay_list_kind (text "relay") nip17_fields
