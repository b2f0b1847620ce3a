-- ===== src/Nostr/GiftWrap/Layers.antt =====
-- The layers of a gift wrap of crates/omachat-nostr/src/gift_wrap.rs, as their reader finds them.
use oma_chat.Base.{
  list_eq, filterb, ℕ, ◌≤◌, ◌≡◌, refl, true, false, not, ==_iff, some, List, [], ◌∷◌, ok, arith,
  length, anyb, allb, Bytes, bytes_eq, text, le→ltb_false, bytes_eq_iff, >>=-elim, ok_or-elim,
  ok_or-eq-ok, ok-injective, map_err, map_err-eq-ok, subst, sym, ap, reject_if, ok_or,
  saturating_add, is_lower_hex,
}
use oma_chat.Crypto.Nip44
use oma_chat.Crypto.Nip44.{Nip44Lib}
use oma_chat.Crypto.Nip44.RoundTrip.{Nip44Laws}
use oma_chat.Crypto.Nip44.Parties.{AgreementLaws, decrypt-encrypt_with_nonce}
use oma_chat.Nostr.Event.{
  Tag, UnsignedEvent, SignedEvent, EventLimits, unsigned, verify, new_unsigned, sign_with_aux,
  validate, xonly_public_key,
}
use oma_chat.Nostr.Event.Limits.{IsHex}
use oma_chat.Nostr.Event.Signing.{EventLaws, AreBytes, verify-sign_with_aux}
use oma_chat.Nostr.Event.Verification.{verify_lem}
use oma_chat.Nostr.Tags.{IsAddressedTo, recipient_tags}
use oma_chat.Nostr.GiftWrap.{
  GiftWrapLib, Rumor, GiftWrapMaterial, GiftWrapPersistence, kind_of, verify_rumor, make_and_sign,
  create_seal, wrap_seal, open_seal, decode_lower_hex_32, validate_lower_hex, event_error,
  encryption, seal_kind,
}

-- What the file relies on in its libraries.
pub record GiftWrapLaws (lib : GiftWrapLib) : Type 0 where
  pub event_laws : EventLaws lib.events
  pub nip44_laws : Nip44Laws lib.nip44
  pub agreement_laws : AgreementLaws lib.nip44 lib.events.xonly_of_secret
  pub xonly_bytes :
      (secret key : Bytes)
      → lib.events.xonly_of_secret secret ≡ some key
      → (length key ≡ 32) × AreBytes key
  pub rumor_round_trip :
      (rumor : Rumor) (json : Bytes)
      → lib.rumor_to_json rumor ≡ some json
      → lib.rumor_of_json json ≡ some rumor
  pub event_round_trip :
      (e : SignedEvent) (json : Bytes)
      → lib.events.signed_to_json e ≡ some json
      → lib.events.signed_of_json json ≡ some e
  pub rumor_utf8 :
      (rumor : Rumor) (json : Bytes)
      → lib.rumor_to_json rumor ≡ some json
      → lib.nip44.is_utf8 json ≡ true
  pub event_utf8 :
      (e : SignedEvent) (json : Bytes)
      → lib.events.signed_to_json e ≡ some json
      → lib.nip44.is_utf8 json ≡ true

pub some-injective : {a b : Bytes} → some a ≡ some b → a ≡ b
some-injective h = cc

lower_hex_any :
    (v : Bytes) → allb is_lower_hex v ≡ true → anyb (λ c. not (is_lower_hex c)) v ≡ false
unfolding anyb allb
lower_hex_any [] h = refl
lower_hex_any (c ∷ v) h = ground (arith, lower_hex_any v)

decode_lower_hex_32-IsHex :
    (lib : GiftWrapLib) (value key : Bytes)
    → IsHex lib.events 32 value key
    → decode_lower_hex_32 lib value ≡ ok key
unfolding decode_lower_hex_32 validate_lower_hex reject_if ok_or
decode_lower_hex_32-IsHex lib value key (size, lower, decoded) =
    rw ((==_iff _ _).1 size, lower_hex_any value lower, decoded) refl

make_and_sign-eq-ok :
    (lib : GiftWrapLib) (e : UnsignedEvent) (secret aux : Bytes) (limits : EventLimits)
    (s : SignedEvent)
    → make_and_sign lib e secret aux limits ≡ ok s
    → sign_with_aux lib.events e secret aux limits ≡ ok s
unfolding make_and_sign new_unsigned
make_and_sign-eq-ok lib e secret aux limits s h =
    >>=-elim (map_err event_error (new_unsigned lib.events e limits)) _ h λ made m signed.
      >>=-elim (validate lib.events e limits) _ (map_err-eq-ok _ _ m) λ u v same.
        subst (λ e. sign_with_aux lib.events e secret aux limits ≡ ok s) (sym (ok-injective same))
          (map_err-eq-ok _ _ signed)

pub one_recipient : (recipient : Bytes) → IsAddressedTo recipient ((text "p" ∷ recipient ∷ []) ∷ [])
unfolding recipient_tags filterb bytes_eq list_eq
one_recipient recipient = (text "p" ∷ recipient ∷ [], refl, refl)

-- What a reader needs to read a layer: the event that is signed as it was meant, and verifies.
record IsLayer (lib : GiftWrapLib) (e : UnsignedEvent) (now : ℕ) (limits : EventLimits)
    (s : SignedEvent) : Type 0 where
  kept : unsigned s ≡ e
  pub verified : verify lib.events s now limits ≡ ok tt
  content_fits : length s.content ≤ limits.max_content_bytes

make_and_sign-IsLayer :
    (lib : GiftWrapLib)
    → GiftWrapLaws lib
    → (e : UnsignedEvent) (secret aux : Bytes) (limits : EventLimits) (s : SignedEvent) (now : ℕ)
      (json : Bytes)
    → make_and_sign lib e secret aux limits ≡ ok s
    → lib.events.signed_to_json s ≡ some json
    → length json ≤ limits.max_serialized_bytes
    → e.created_at ≤ saturating_add now limits.max_future_seconds
    → IsLayer lib e now limits s
make_and_sign-IsLayer lib laws e secret aux limits s now json made j size past =
    let (same, v) =
      verify-sign_with_aux lib.events laws.event_laws e secret aux limits s
        (make_and_sign-eq-ok lib e secret aux limits s made) now json j size past in
    let accepted = (verify_lem lib.events s now limits).0 v in
    record { kept = same; verified = v; content_fits = accepted.fits.content_fits }

pub open_seal_steps :
    (lib : GiftWrapLib) (seal : SignedEvent) (secret key rumor_json : Bytes) (limits : EventLimits)
    (rumor : Rumor)
    → seal.kind ≡ seal_kind
    → seal.tags ≡ []
    → decode_lower_hex_32 lib seal.pubkey ≡ ok key
    → Nip44.decrypt lib.nip44 secret key seal.content ≡ ok rumor_json
    → length rumor_json ≤ limits.max_serialized_bytes
    → lib.rumor_of_json rumor_json ≡ some rumor
    → verify_rumor lib rumor limits ≡ ok tt
    → rumor.pubkey ≡ seal.pubkey
    → open_seal lib seal secret limits ≡ ok (record { seal = seal; rumor = rumor })
unfolding open_seal reject_if ok_or map_err
open_seal_steps lib seal secret key rumor_json limits rumor kind untagged author decrypted small
      parsed valid same =
    rw
      (
        (==_iff _ _).1 kind,
        untagged,
        author,
        decrypted,
        le→ltb_false _ _ small,
        parsed,
        valid,
        (bytes_eq_iff _ _).1 same,
      )
      refl

module _ (lib : GiftWrapLib) (laws : GiftWrapLaws lib) (b key_b : Bytes)
    (is_b : lib.events.xonly_of_secret b ≡ some key_b) (material : GiftWrapMaterial)
    (limits : EventLimits) (now : ℕ) where
  -- What the reader finds in a layer: the text of the inner one, readable under the layer's key.
  pub record Holds (s : SignedEvent) (kind : ℕ) (tags : List Tag) (key json : Bytes) : Type 0 where
    pub verified : verify lib.events s now limits ≡ ok tt
    pub is_kind : s.kind ≡ kind
    pub is_tags : s.tags ≡ tags
    pub is_key : decode_lower_hex_32 lib s.pubkey ≡ ok key
    pub decrypted : Nip44.decrypt lib.nip44 b key s.content ≡ ok json
    pub short : length json ≤ limits.max_content_bytes

  IsHex-xonly :
      (secret key : Bytes)
      → lib.events.xonly_of_secret secret ≡ some key
      → IsHex lib.events 32 (lib.events.hex_encode key) key
  IsHex-xonly secret key x =
      let (size, bytes) = laws.xonly_bytes secret key x in
      laws.event_laws.hex_round_trip 32 key size bytes

  -- A layer that `secret` has signed around an encrypted text is read by the recipient.
  layer-Holds :
      (secret key nonce aux json encrypted : Bytes) (time kind : ℕ) (tags : List Tag)
      (s : SignedEvent) (outer_json : Bytes)
      → lib.events.xonly_of_secret secret ≡ some key
      → length nonce ≡ 32
      → lib.nip44.is_utf8 json ≡ true
      → Nip44.encrypt_with_nonce lib.nip44 secret key_b json nonce ≡ ok encrypted
      → make_and_sign lib
          (record {
            pubkey = lib.events.hex_encode key;
            created_at = time;
            kind = kind;
            tags = tags;
            content = encrypted;
          })
          secret
          aux
          limits
        ≡ ok s
      → lib.events.signed_to_json s ≡ some outer_json
      → length outer_json ≤ limits.max_serialized_bytes
      → time ≤ saturating_add now limits.max_future_seconds
      → Holds s kind tags key json
  layer-Holds secret key nonce aux json encrypted time kind tags s outer x n utf8 enc signed j size
        past =
      let layer =
        make_and_sign-IsLayer lib laws _ secret aux limits s now outer signed j size past in
      let (decrypted, some_text, shorter) =
        decrypt-encrypt_with_nonce lib.nip44 laws.nip44_laws lib.events.xonly_of_secret
          laws.agreement_laws secret b key key_b x is_b json nonce encrypted n utf8 enc in
      let content : s.content ≡ encrypted = ap (λ (u : UnsignedEvent). u.content) layer.kept in
      record {
        verified = layer.verified;
        is_kind = ap (λ (u : UnsignedEvent). u.kind) layer.kept;
        is_tags = ap (λ (u : UnsignedEvent). u.tags) layer.kept;
        is_key =
            rw (ap (λ (u : UnsignedEvent). u.pubkey) layer.kept)
              (decode_lower_hex_32-IsHex lib _ key (IsHex-xonly secret key x));
        decrypted = rw content decrypted;
        short = omega (arith, shorter, ap length content, layer.content_fits);
      }

  module _ (w : length material.wrapper_nonce ≡ 32) (sn : length material.seal_nonce ≡ 32)
      (wrapper_past : material.wrapper_created_at ≤ saturating_add now limits.max_future_seconds)
      (seal_past : material.seal_created_at ≤ saturating_add now limits.max_future_seconds)
      (room : limits.max_content_bytes ≤ limits.max_serialized_bytes) where
    pub wrap_seal-Holds :
        (seal wrap : SignedEvent) (lasting : GiftWrapPersistence) (wrap_json : Bytes)
        → wrap_seal lib seal key_b lasting material limits ≡ ok wrap
        → lib.events.signed_to_json wrap ≡ some wrap_json
        → length wrap_json ≤ limits.max_serialized_bytes
        → (seal_json key : Bytes) × (lib.events.signed_to_json seal ≡ some seal_json)
          × Holds wrap
              (kind_of lasting)
              ((text "p" ∷ lib.events.hex_encode key_b ∷ []) ∷ [])
              key
              seal_json
    unfolding wrap_seal xonly_public_key
    wrap_seal-Holds seal wrap lasting wrap_json h j size =
        >>=-elim (map_err event_error (xonly_public_key lib.events material.wrapper_secret_key)) _ h
          λ key x h₁. ok_or-elim (lib.events.signed_to_json seal) _ _ h₁ λ seal_json sj h₂.
            >>=-elim
              (map_err encryption (
                Nip44.encrypt_with_nonce lib.nip44 material.wrapper_secret_key key_b seal_json
                  material.wrapper_nonce))
              _ h₂
              λ enc e signed. (
                seal_json,
                key,
                sj,
                layer-Holds material.wrapper_secret_key key material.wrapper_nonce _ seal_json enc _
                    _ _ wrap wrap_json (ok_or-eq-ok _ _ (map_err-eq-ok _ _ x)) w
                    (laws.event_utf8 seal seal_json sj) (map_err-eq-ok _ _ e) signed j size
                    wrapper_past,
              )

    pub create_seal-Holds :
        (rumor : Rumor) (a key_a : Bytes) (seal : SignedEvent) (seal_json : Bytes)
        → lib.events.xonly_of_secret a ≡ some key_a
        → rumor.pubkey ≡ lib.events.hex_encode key_a
        → create_seal lib rumor a key_b material limits ≡ ok seal
        → lib.events.signed_to_json seal ≡ some seal_json
        → length seal_json ≤ limits.max_serialized_bytes
        → (rumor_json : Bytes) × (lib.rumor_to_json rumor ≡ some rumor_json)
          × Holds seal seal_kind [] key_a rumor_json
          × (seal.pubkey ≡ rumor.pubkey)
    unfolding create_seal
    create_seal-Holds rumor a key_a seal seal_json x author h j size =
        ok_or-elim (lib.rumor_to_json rumor) _ _ h λ rumor_json rj h₁.
          >>=-elim
            (map_err encryption
              (Nip44.encrypt_with_nonce lib.nip44 a key_b rumor_json material.seal_nonce))
            _ h₁
            λ enc e signed.
              let signed' = rw author at signed in
              let kept =
                make_and_sign-IsLayer lib laws _ a material.seal_auxiliary_randomness limits seal
                  now seal_json signed j size seal_past in
              (
                rumor_json,
                rj,
                layer-Holds a key_a material.seal_nonce _ rumor_json enc _ _ _ seal seal_json x sn
                    (laws.rumor_utf8 rumor rumor_json rj) (map_err-eq-ok _ _ e) signed' j size
                    seal_past,
                ap (λ (u : UnsignedEvent). u.pubkey) kept.kept,
              )
