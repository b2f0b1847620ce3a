-- ===== src/Nostr/Urls.antt =====
-- What the crate takes from the crate `url` and from `std::net::IpAddr`, and the test for a secure
-- or loopback endpoint of crates/omachat-nostr/src/inbox.rs.
use oma_chat.Base.{ℕ, Bool, true, false, ◌&&◌, ◌||◌, Option, none, some, Bytes, text, bytes_eq}

pub record Url : Type 0 where
  pub scheme : Bytes
  pub host_str : Option Bytes
  pub port_or_known_default : Option ℕ
  pub username : Bytes
  pub password : Option Bytes
  pub query : Option Bytes
  pub fragment : Option Bytes
  -- `to_string`
  pub serialization : Bytes

pub record UrlLib : Type 0 where
  -- `Url::parse`
  pub parse : Bytes → Option Url
  -- `host.parse::<IpAddr>()` succeeds with a loopback address
  pub is_loopback : Bytes → Bool

abbrev pub is_some {ℓ} : {A : Type ℓ} → Option A → Bool
is_some none = false
is_some (some a) = true

abbrev pub is_none {ℓ} : {A : Type ℓ} → Option A → Bool
is_none none = true
is_none (some a) = false

abbrev pub loopback_host : UrlLib → Option Bytes → Bool
loopback_host lib none = false
loopback_host lib (some host) = lib.is_loopback host

-- `scheme() == "wss" || (scheme() == "ws" && host is a loopback address)`.
unfoldable pub is_secure_or_loopback : UrlLib → Url → Bool
is_secure_or_loopback lib url =
    bytes_eq url.scheme (text "wss")
    || (bytes_eq url.scheme (text "ws") && loopback_host lib url.host_str)

-- `secure_or_loopback` of inbox.rs.
unfoldable pub secure_or_loopback : UrlLib → Bytes → Bool
secure_or_loopback lib endpoint = elim (lib.parse endpoint) [
  | none ↦ false
  | some url ↦ is_secure_or_loopback lib url
]
