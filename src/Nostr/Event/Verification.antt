-- ===== src/Nostr/Event/Verification.antt =====
-- What `SignedEvent::verify` and `from_json` of crates/omachat-nostr/src/event.rs accept.
use oma_chat.Base.{
  not-eq-false, some, some, some, ℕ, ◌≤◌, ◌≡◌, refl, true, ◌↔◌, some, ok, >>=-elim, ok_or-elim,
  reject_if-elim, ok_or, reject_if, ltb_false→le, le→ltb_false, length, Bytes, bytes_eq_iff,
  saturating_add, arith,
}
use oma_chat.Nostr.Event.{
  SignedEvent, EventLimits, EventLib, unsigned, validate, event_id, decode_hex, check_signature,
  verify,
}
use oma_chat.Nostr.Event.Limits.{IsHex, decode_hex_lem, FitsLimits, validate_lem}

-- NIP-01 validity of the identifier and the signature: the identifier is the hex of the digest of
-- the canonical form, and the signature is one of that digest under the author's key.
pub record IsAuthentic (lib : EventLib) (e : SignedEvent) : Type 0 where
  pub canonical : Bytes
  pub is_canonical : lib.canonical_to_json (unsigned e) ≡ some canonical
  pub id_hex : IsHex lib 32 e.id (lib.sha256 canonical)
  pub key : Bytes
  pub key_hex : IsHex lib 32 e.pubkey key
  pub key_valid : lib.is_verifying_key key ≡ true
  pub sig : Bytes
  pub sig_hex : IsHex lib 64 e.sig sig
  pub sig_valid : lib.is_signature sig ≡ true
  pub signed : lib.verify_raw key (lib.sha256 canonical) sig ≡ true

pub record IsAcceptable (lib : EventLib) (now : ℕ) (limits : EventLimits) (e : SignedEvent)
    : Type 0 where
  pub serialized : Bytes
  pub is_serialized : lib.signed_to_json e ≡ some serialized
  pub size_fits : length serialized ≤ limits.max_serialized_bytes
  pub not_in_future : e.created_at ≤ saturating_add now limits.max_future_seconds
  pub fits : FitsLimits lib limits (unsigned e)
  pub authentic : IsAuthentic lib e

module _ (lib : EventLib) (e : SignedEvent) where
  check_signature-IsAuthentic : check_signature lib e ≡ ok tt → IsAuthentic lib e
  unfolding check_signature event_id
  check_signature-IsAuthentic h = >>=-elim (event_id lib (unsigned e)) _ h λ digest d h₁.
      >>=-elim (decode_hex lib 32 e.id) _ h₁ λ supplied s h₂. reject_if-elim _ _ _ h₂ λ same h₃.
        >>=-elim (decode_hex lib 32 e.pubkey) _ h₃ λ key k h₄. reject_if-elim _ _ _ h₄ λ valid h₅.
          >>=-elim (decode_hex lib 64 e.sig) _ h₅ λ sig g h₆. reject_if-elim _ _ _ h₆ λ valid' h₇.
            reject_if-elim _ _ _ h₇ λ verified h₈.
              ok_or-elim (lib.canonical_to_json (unsigned e)) _ _ d λ canonical c digest_of.
                let eq : lib.sha256 canonical ≡ supplied =
                  ground (arith, bytes_eq_iff digest supplied) in
                let eq' : lib.sha256 canonical ≡ digest = ground arith in
                record {
                  canonical = canonical;
                  is_canonical = c;
                  id_hex = rw eq ((decode_hex_lem lib 32 e.id supplied).0 s);
                  key = key;
                  key_hex = (decode_hex_lem lib 32 e.pubkey key).0 k;
                  key_valid = not-eq-false _ valid;
                  sig = sig;
                  sig_hex = (decode_hex_lem lib 64 e.sig sig).0 g;
                  sig_valid = not-eq-false _ valid';
                  signed = rw eq' (not-eq-false _ verified);
                }

  IsAuthentic-check_signature : IsAuthentic lib e → check_signature lib e ≡ ok tt
  unfolding check_signature event_id reject_if ok_or
  IsAuthentic-check_signature a = rw (
    a.is_canonical,
    (decode_hex_lem lib 32 e.id (lib.sha256 a.canonical)).1 a.id_hex,
    (bytes_eq_iff (lib.sha256 a.canonical) (lib.sha256 a.canonical)).1 refl,
    (decode_hex_lem lib 32 e.pubkey a.key).1 a.key_hex,
    a.key_valid,
    (decode_hex_lem lib 64 e.sig a.sig).1 a.sig_hex,
    a.sig_valid,
    a.signed,
  )

module _ (lib : EventLib) (e : SignedEvent) (now : ℕ) (limits : EventLimits) where
  verify-IsAcceptable : verify lib e now limits ≡ ok tt → IsAcceptable lib now limits e
  unfolding verify
  verify-IsAcceptable h = ok_or-elim (lib.signed_to_json e) _ _ h λ serialized s h₁.
      reject_if-elim _ _ _ h₁ λ small h₂. reject_if-elim _ _ _ h₂ λ past h₃.
        >>=-elim (validate lib (unsigned e) limits) _ h₃ λ u v h₄. record {
          serialized = serialized;
          is_serialized = s;
          size_fits = ltb_false→le _ _ small;
          not_in_future = ltb_false→le _ _ past;
          fits = (validate_lem lib (unsigned e) limits).0 v;
          authentic = check_signature-IsAuthentic lib e h₄;
        }

  IsAcceptable-verify : IsAcceptable lib now limits e → verify lib e now limits ≡ ok tt
  unfolding verify reject_if ok_or
  IsAcceptable-verify a =
      rw
        (
          a.is_serialized,
          le→ltb_false _ _ a.size_fits,
          le→ltb_false _ _ a.not_in_future,
          (validate_lem lib (unsigned e) limits).1 a.fits,
        )
        (IsAuthentic-check_signature lib e a.authentic)

  -- `verify` accepts an event exactly if its JSON form and its parts are within the limits, its time
  -- is at most the limit ahead of `now` (saturating at 2^64 - 1), its identifier is the digest of the
  -- canonical form, and its signature is valid for that digest under its author's key.
  pub verify_lem : (verify lib e now limits ≡ ok tt) ↔ IsAcceptable lib now limits e
  verify_lem = (verify-IsAcceptable, IsAcceptable-verify)
