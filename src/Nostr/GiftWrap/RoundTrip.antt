-- ===== src/Nostr/GiftWrap/RoundTrip.antt =====
-- A gift wrap of crates/omachat-nostr/src/gift_wrap.rs that was created is opened by its recipient.
use oma_chat.Base.{
  ℕ, ◌≤◌, ◌≡◌, refl, true, ◌||◌, ◌==◌, some, [], ◌∷◌, ok, length, Bytes, text, le→ltb_false,
  bytes_eq_iff, >>=-elim, reject_if-elim, ok_or-eq-ok, map_err, map_err-eq-ok, not-eq-false, sym,
  ap, ◌∙◌, reject_if, ok_or, saturating_add,
}
use native.Mathlib.Nat.{le_trans}
use oma_chat.Crypto.Nip44
use oma_chat.Crypto.Nip44.{Nip44Lib}
use oma_chat.Nostr.Event
use oma_chat.Nostr.Event.{
  Tag, UnsignedEvent, SignedEvent, EventLib, EventLimits, unsigned, verify, new_unsigned,
  sign_with_aux, validate, xonly_public_key,
}
use oma_chat.Nostr.Inbox.{gift_wrap_kind}
use oma_chat.Nostr.Tags.{is_misaddressed_lem}
use oma_chat.Nostr.GiftWrap.{
  GiftWrapLib, Rumor, OpenedGiftWrap, GiftWrapMaterial, GiftWrapPersistence, persistent, ephemeral,
  kind_of, verify_rumor, create_seal, create_gift_wrap_with_material, open_seal, open_gift_wrap,
  decode_lower_hex_32, event_error, ephemeral_gift_wrap_kind,
}
use oma_chat.Nostr.GiftWrap.Layers.{
  open_seal_steps, create_seal-Holds, wrap_seal-Holds, one_recipient, some-injective, GiftWrapLaws,
}

wrapper_kind_fine :
    (kind : ℕ) (lasting : GiftWrapPersistence)
    → kind ≡ kind_of lasting
    → ((kind == gift_wrap_kind) || (kind == ephemeral_gift_wrap_kind)) ≡ true
unfolding kind_of
wrapper_kind_fine kind persistent e = rw e refl
wrapper_kind_fine kind ephemeral e = rw e refl

from_json_steps :
    (events : EventLib) (json : Bytes) (e : SignedEvent) (now : ℕ) (limits : EventLimits)
    → length json ≤ limits.max_serialized_bytes
    → events.signed_of_json json ≡ some e
    → verify events e now limits ≡ ok tt
    → Event.from_json events json now limits ≡ ok e
unfolding Event.from_json reject_if ok_or
from_json_steps events json e now limits size parsed v = rw (le→ltb_false _ _ size, parsed, v) refl

open_steps :
    (lib : GiftWrapLib) (wrap seal : SignedEvent) (secret recipient key seal_json : Bytes) (now : ℕ)
    (limits : EventLimits) (lasting : GiftWrapPersistence) (opened : OpenedGiftWrap)
    → verify lib.events wrap now limits ≡ ok tt
    → wrap.kind ≡ kind_of lasting
    → lib.events.xonly_of_secret secret ≡ some recipient
    → wrap.tags ≡ (text "p" ∷ lib.events.hex_encode recipient ∷ []) ∷ []
    → decode_lower_hex_32 lib wrap.pubkey ≡ ok key
    → Nip44.decrypt lib.nip44 secret key wrap.content ≡ ok seal_json
    → Event.from_json lib.events seal_json now limits ≡ ok seal
    → open_seal lib seal secret limits ≡ ok opened
    → open_gift_wrap lib wrap secret now limits ≡ ok opened
unfolding open_gift_wrap xonly_public_key reject_if ok_or map_err kind_of
open_steps lib wrap seal secret recipient key seal_json now limits lasting opened v k x t w d f
      inside =
    rw
      (
        v,
        wrapper_kind_fine wrap.kind lasting k,
        x,
        t,
        (is_misaddressed_lem _ _).1 (one_recipient (lib.events.hex_encode recipient)),
        w,
        d,
        f,
      )
      inside

module _ (lib : GiftWrapLib) (laws : GiftWrapLaws lib) (a b key_a key_b : Bytes)
    (is_a : lib.events.xonly_of_secret a ≡ some key_a)
    (is_b : lib.events.xonly_of_secret b ≡ some key_b) (rumor : Rumor)
    (lasting : GiftWrapPersistence) (material : GiftWrapMaterial) (limits : EventLimits)
    (wrap : SignedEvent) (wrap_json : Bytes) (now : ℕ) where
  -- A gift wrap that the sender `a` creates for the key of `b`, with nonces of 32 bytes, is opened by
  -- `b` to the rumor that was wrapped, in a seal by the rumor's author, wherever the reader's clock
  -- allows both times, the limits are the sender's, the gift wrap's JSON form is within them, and
  -- they allow a JSON form as long as a content.
  pub open_gift_wrap-create_gift_wrap :
      create_gift_wrap_with_material lib rumor a key_b lasting material limits ≡ ok wrap
      → length material.wrapper_nonce ≡ 32
      → length material.seal_nonce ≡ 32
      → material.wrapper_created_at ≤ saturating_add now limits.max_future_seconds
      → material.seal_created_at ≤ saturating_add now limits.max_future_seconds
      → limits.max_content_bytes ≤ limits.max_serialized_bytes
      → lib.events.signed_to_json wrap ≡ some wrap_json
      → length wrap_json ≤ limits.max_serialized_bytes
      → (seal : SignedEvent) × (open_gift_wrap lib wrap b now limits
          ≡ ok (record { seal = seal; rumor = rumor }))
        × (seal.pubkey ≡ lib.events.hex_encode key_a)
  unfolding create_gift_wrap_with_material xonly_public_key
  open_gift_wrap-create_gift_wrap h w sn wp sp room j size =
      >>=-elim (verify_rumor lib rumor limits) _ h λ u valid h₁.
        >>=-elim (map_err event_error (xonly_public_key lib.events a)) _ h₁ λ sender x h₂.
          reject_if-elim _ _ _ h₂ λ same h₃.
            >>=-elim (create_seal lib rumor a key_b material limits) _ h₃ λ seal made wrapped.
              let sender_key : sender ≡ key_a =
                some-injective (sym (ok_or-eq-ok _ _ (map_err-eq-ok _ _ x)) ∙ is_a) in
              let author : rumor.pubkey ≡ lib.events.hex_encode key_a =
                (bytes_eq_iff _ _).0 (not-eq-false _ same) ∙ ap lib.events.hex_encode sender_key in
              let (seal_json, key, sj, outer) =
                wrap_seal-Holds lib laws b key_b is_b material limits now w sn wp sp room seal wrap
                  lasting wrap_json wrapped j size in
              let fits = le_trans outer.short room in
              let (rumor_json, rj, inner, same_author) =
                create_seal-Holds lib laws b key_b is_b material limits now w sn wp sp room rumor a
                  key_a seal seal_json is_a author made sj fits in
              (
                seal,
                open_steps lib wrap seal b key_b key seal_json now limits lasting _ outer.verified
                    outer.is_kind is_b outer.is_tags outer.is_key outer.decrypted
                    (from_json_steps lib.events seal_json seal now limits fits
                      (laws.event_round_trip seal seal_json sj) inner.verified)
                    (open_seal_steps lib seal b key_a rumor_json limits rumor inner.is_kind
                      inner.is_tags inner.is_key inner.decrypted (le_trans inner.short room)
                      (laws.rumor_round_trip rumor rumor_json rj) valid (sym same_author)),
                same_author ∙ author,
              )
