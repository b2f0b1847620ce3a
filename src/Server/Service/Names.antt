-- ===== src/Server/Service/Names.antt =====
-- Handles of crates/omachat-crypto/src/account.rs as the NIP-05 names of
-- crates/omachat-server/src/service.rs.
use oma_chat.Base.{
  ℕ, ◌≤◌, ◌≡◌, refl, true, false, ◌&&◌, some, [], ◌∷◌, map, ok, arith, length, ltb, allb, is_empty,
  Bytes, Bool-cases, inl, inr, ok-injective, subst, reject_if, ok_or, map_err,
}
use oma_chat.Crypto.Account.{
  parse_global_handle, strip_at, is_between, is_ascii_lowercase, is_ascii_digit, is_handle_byte,
  starts_lowercase,
}
use oma_chat.Server.Storage.{nostr_for_handle}
use oma_chat.Server.Service.{Service, ServiceLib, names, ascii_lower, is_name_byte, nip05}

-- A canonical handle.
pub record IsHandle (h : Bytes) : Type 0 where
  pub long : 3 ≤ length h
  pub short : length h ≤ 32
  pub shape : starts_lowercase h ≡ true

parse_global_handle-IsHandle : (value h : Bytes) → parse_global_handle value ≡ ok h → IsHandle h
unfolding parse_global_handle is_between
parse_global_handle-IsHandle value h p =
    elim (Bool-cases
      (is_between 3 32 (length (strip_at value)) && starts_lowercase (strip_at value))) [
        | inl fine ↦ subst IsHandle (ok-injective (rw (parse_global_handle, fine) at p)) (record {
          long = ground (arith, fine);
          short = ground (arith, fine);
          shape = ground (arith, fine);
        })
        | inr bad ↦ (let impossible = rw (parse_global_handle, bad) at p in cc)
      ]

strip_at-starts_lowercase : (h : Bytes) → starts_lowercase h ≡ true → strip_at h ≡ h
unfolding strip_at starts_lowercase is_ascii_lowercase is_between
strip_at-starts_lowercase [] s = refl
strip_at-starts_lowercase (b ∷ h) s = ground (arith, s)

lower_handle_byte :
    (b : ℕ) → is_handle_byte b ≡ true → (ascii_lower b ≡ b) × (is_name_byte b ≡ true)
unfolding is_handle_byte ascii_lower is_name_byte is_ascii_lowercase is_ascii_digit is_between
lower_handle_byte b h = (ground (arith, h), ground (arith, h))

lower_handle :
    (h : Bytes)
    → allb is_handle_byte h ≡ true
    → (map ascii_lower h ≡ h) × (allb is_name_byte h ≡ true)
unfolding allb
lower_handle [] a = (refl, refl)
lower_handle (b ∷ h) a =
    let (same, fine) = lower_handle_byte b (ground (arith, a)) in
    let (rest, all_fine) = lower_handle h (ground (arith, a)) in
    (rw (same, rest) refl, rw (fine, all_fine) refl)

handle_bytes : (h : Bytes) → starts_lowercase h ≡ true → allb is_handle_byte h ≡ true
unfolding starts_lowercase allb is_handle_byte
handle_bytes [] s = refl
handle_bytes (b ∷ h) s = ground (arith, s)

IsHandle-parse_global_handle : (h : Bytes) → IsHandle h → parse_global_handle h ≡ ok h
unfolding parse_global_handle is_between
IsHandle-parse_global_handle h is =
    let sized : is_between 3 32 (length h) ≡ true = ground (arith, is.long, is.short) in
    rw (parse_global_handle, strip_at-starts_lowercase h is.shape, sized, is.shape) refl

some_name : (h : Bytes) → 3 ≤ length h → is_empty h ≡ false
some_name [] l = absurd (omega (arith, l))
some_name (b ∷ h) l = refl

-- A handle that parses to a canonical one parses again to itself, and where the canonical handle has
-- a key, the NIP-05 document of that name gives the key, with the relays of the configuration.
pub nip05-parse_global_handle :
    (lib : ServiceLib) (service : Service) (value h key : Bytes)
    → parse_global_handle value ≡ ok h
    → nostr_for_handle service.storage h ≡ ok (some key)
    → (parse_global_handle h ≡ ok h)
      × (nip05 lib service h ≡ ok (names h (lib.hex_encode key) service.config.nip05_relays))
unfolding nip05 reject_if ok_or map_err
nip05-parse_global_handle lib service value h key p stored =
    let is = parse_global_handle-IsHandle value h p in
    let (lowered, fine) = lower_handle h (handle_bytes h is.shape) in
    let short : ltb 64 (length h) ≡ false = ground (arith, is.short) in
    (
      IsHandle-parse_global_handle h is,
      rw (nip05, some_name h is.long, lowered, short, fine, stored) refl,
    )
