-- ===== src/Nostr/Event/Signing.antt =====
-- Events that `UnsignedEvent::sign_with_aux` of crates/omachat-nostr/src/event.rs returns.
use oma_chat.Base.{
  ◌<◌, All, not-eq-false, ap, subst, false, ℕ, ◌≤◌, ◌≡◌, refl, true, some, ok, >>=-elim, ok_or-elim,
  reject_if-elim, length, Bytes, bytes_eq, bytes_eq_iff, saturating_add, arith, not,
}
use oma_chat.Nostr.Event.{
  signed_event, UnsignedEvent, SignedEvent, EventLimits, EventLib, unsigned, validate, event_id,
  decode_hex, verify, sign_with_aux,
}
use oma_chat.Nostr.Event.Limits.{IsHex, decode_hex_lem, validate_lem}
use oma_chat.Nostr.Event.Verification.{IsAuthentic, verify_lem}

-- A `u8` is below 256.
abbrev pub AreBytes : Bytes → Type 0
AreBytes b = All (λ x. x < 256) b

-- What the file relies on in its libraries.
pub record EventLaws (lib : EventLib) : Type 0 where
  pub hex_round_trip :
      (n : ℕ) (b : Bytes) → length b ≡ n → AreBytes b → IsHex lib n (lib.hex_encode b) b
  pub length-sha256 : (b : Bytes) → length (lib.sha256 b) ≡ 32
  pub sha256-AreBytes : (b : Bytes) → AreBytes (lib.sha256 b)
  pub xonly_valid :
      (secret key : Bytes) → lib.xonly_of_secret secret ≡ some key → lib.is_verifying_key key ≡ true
  pub sign_correct :
      (secret key m aux sig : Bytes)
      → lib.xonly_of_secret secret ≡ some key
      → lib.sign_raw secret m aux ≡ some sig
      → (length sig ≡ 64)
        × AreBytes sig
        × (lib.is_signature sig ≡ true)
        × (lib.verify_raw key m sig ≡ true)

signed_event-IsAuthentic :
    (lib : EventLib)
    → EventLaws lib
    → (e : UnsignedEvent) (secret aux key declared canonical sig : Bytes)
    → lib.xonly_of_secret secret ≡ some key
    → decode_hex lib 32 e.pubkey ≡ ok declared
    → not (bytes_eq key declared) ≡ false
    → lib.canonical_to_json e ≡ some canonical
    → lib.sign_raw secret (lib.sha256 canonical) aux ≡ some sig
    → IsAuthentic lib (signed_event e (lib.hex_encode (lib.sha256 canonical)) (lib.hex_encode sig))
signed_event-IsAuthentic lib laws e secret aux key declared canonical sig x d same c g =
    let eq : key ≡ declared = (bytes_eq_iff key declared).0 (not-eq-false _ same) in
    let correct = laws.sign_correct secret key (lib.sha256 canonical) aux sig x g in
    record {
      canonical = canonical;
      is_canonical = c;
      id_hex =
          laws.hex_round_trip 32 (lib.sha256 canonical) (laws.length-sha256 canonical)
            (laws.sha256-AreBytes canonical);
      key = key;
      key_hex = rw eq ((decode_hex_lem lib 32 e.pubkey declared).0 d);
      key_valid = laws.xonly_valid secret key x;
      sig = sig;
      sig_hex = laws.hex_round_trip 64 sig correct.0 correct.1;
      sig_valid = correct.2;
      signed = correct.3;
    }

module _ (lib : EventLib) (laws : EventLaws lib) (e : UnsignedEvent) (secret aux : Bytes)
    (limits : EventLimits) (s : SignedEvent)
    (done : sign_with_aux lib e secret aux limits ≡ ok s) where
  -- What is signed is the event as given, and its identifier and signature are authentic.
  sign_with_aux-IsAuthentic : (unsigned s ≡ e) × IsAuthentic lib s × (validate lib e limits ≡ ok tt)
  unfolding sign_with_aux event_id
  sign_with_aux-IsAuthentic = >>=-elim (validate lib e limits) _ done λ u v h₁.
      ok_or-elim (lib.xonly_of_secret secret) _ _ h₁ λ key x h₂.
        >>=-elim (decode_hex lib 32 e.pubkey) _ h₂ λ declared d h₃.
          reject_if-elim _ _ _ h₃ λ same h₄. >>=-elim (event_id lib e) _ h₄ λ id i h₅.
            ok_or-elim (lib.sign_raw secret id aux) _ _ h₅ λ sig g built.
              ok_or-elim (lib.canonical_to_json e) _ _ i λ canonical c digest_of.
                let digest : id ≡ lib.sha256 canonical = ground arith in
                let made : signed_event e (lib.hex_encode id) (lib.hex_encode sig) ≡ s = cc in
                subst (λ t. (unsigned t ≡ e) × IsAuthentic lib t × (validate lib e limits ≡ ok tt))
                  made
                  (
                    refl,
                    rw digest (
                        signed_event-IsAuthentic lib laws e secret aux key declared canonical sig x
                          d same c (rw digest at g)),
                    v,
                  )

  -- A signed event keeps the fields of the event that was given, and every party verifies it whose
  -- limits are the signer's, whose clock does not put it beyond the allowed future, and for whom its
  -- JSON form fits.
  pub verify-sign_with_aux :
      (now : ℕ) (json : Bytes)
      → lib.signed_to_json s ≡ some json
      → length json ≤ limits.max_serialized_bytes
      → e.created_at ≤ saturating_add now limits.max_future_seconds
      → (unsigned s ≡ e) × (verify lib s now limits ≡ ok tt)
  verify-sign_with_aux now json j size past =
      let (same, authentic, v) = sign_with_aux-IsAuthentic in
      (
        same,
        (verify_lem lib s now limits).1 (record {
          serialized = json;
          is_serialized = j;
          size_fits = size;
          not_in_future = rw (ap (λ (u : UnsignedEvent). u.created_at) same) past;
          fits = rw same ((validate_lem lib e limits).0 v);
          authentic = authentic;
        }),
      )
