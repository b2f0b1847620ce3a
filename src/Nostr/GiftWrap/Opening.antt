-- ===== src/Nostr/GiftWrap/Opening.antt =====
-- What `open_gift_wrap` of crates/omachat-nostr/src/gift_wrap.rs has checked of what it returns.
use oma_chat.Base.{
  ◌∙◌, ap, ℕ, ◌≤◌, ◌≡◌, refl, ◌⊎◌, inl, inr, true, false, not, ◌||◌, ◌==◌, ==_iff, some, ok, arith,
  length, is_empty, Bytes, bytes_eq_iff, >>=-elim, ok_or-elim, reject_if-elim, ok_or-eq-ok,
  ok-injective, map_err, map_err-eq-ok, not-eq-false, ltb_false→le, subst, Bool-cases,
}
use oma_chat.Crypto.Nip44
use oma_chat.Nostr.Event
use oma_chat.Nostr.Event.{
  SignedEvent, EventLib, EventLimits, verify, new_unsigned, event_id, validate, xonly_public_key,
}
use oma_chat.Nostr.Event.Limits.{FitsLimits, validate_lem}
use oma_chat.Nostr.Inbox.{gift_wrap_kind}
use oma_chat.Nostr.Tags.{IsAddressedTo, is_misaddressed_lem}
use oma_chat.Nostr.GiftWrap.{
  GiftWrapLib, Rumor, OpenedGiftWrap, rumor_event, verify_rumor, open_seal, open_gift_wrap,
  seal_kind, ephemeral_gift_wrap_kind, event_error, encryption, decode_lower_hex_32,
}

-- A rumor within the limits whose identifier is the hex of the digest of its canonical form.
pub record IsRumor (lib : GiftWrapLib) (limits : EventLimits) (rumor : Rumor) : Type 0 where
  pub fits : FitsLimits lib.events limits (rumor_event rumor)
  pub canonical : Bytes
  pub is_canonical : lib.events.canonical_to_json (rumor_event rumor) ≡ some canonical
  pub identified : lib.events.hex_encode (lib.events.sha256 canonical) ≡ rumor.id

module _ (lib : GiftWrapLib) (limits : EventLimits) (rumor : Rumor) where
  pub verify_rumor-IsRumor : verify_rumor lib rumor limits ≡ ok tt → IsRumor lib limits rumor
  unfolding verify_rumor new_unsigned event_id
  verify_rumor-IsRumor h =
      >>=-elim (map_err event_error (new_unsigned lib.events (rumor_event rumor) limits)) _ h
        λ e made h₁. >>=-elim (map_err event_error (event_id lib.events e)) _ h₁ λ id digest h₂.
          reject_if-elim _ _ _ h₂ λ same done.
            >>=-elim (validate lib.events (rumor_event rumor) limits) _ (map_err-eq-ok _ _ made)
              λ u v as_given.
                let eq : rumor_event rumor ≡ e = ok-injective as_given in
                ok_or-elim (lib.events.canonical_to_json e) _ _ (map_err-eq-ok _ _ digest)
                  λ canonical c hashed. record {
                    fits = (validate_lem lib.events (rumor_event rumor) limits).0 v;
                    canonical = canonical;
                    is_canonical = rw eq c;
                    identified =
                        ap lib.events.hex_encode (ok-injective hashed)
                        ∙ (bytes_eq_iff _ _).0 (not-eq-false _ same);
                  }

-- What stands inside a seal that was opened.
pub record IsSealed (lib : GiftWrapLib) (secret : Bytes) (limits : EventLimits)
    (opened : OpenedGiftWrap) : Type 0 where
  pub sealed_kind : opened.seal.kind ≡ seal_kind
  pub untagged : is_empty opened.seal.tags ≡ true
  pub author_key : Bytes
  pub author : decode_lower_hex_32 lib opened.seal.pubkey ≡ ok author_key
  pub rumor_json : Bytes
  pub decrypted : Nip44.decrypt lib.nip44 secret author_key opened.seal.content ≡ ok rumor_json
  pub parsed : lib.rumor_of_json rumor_json ≡ some opened.rumor
  pub small : length rumor_json ≤ limits.max_serialized_bytes
  pub rumor_valid : IsRumor lib limits opened.rumor
  pub same_author : opened.rumor.pubkey ≡ opened.seal.pubkey

-- What has been checked of a gift wrap that was opened, layer by layer.
pub record IsOpened (lib : GiftWrapLib) (gift_wrap : SignedEvent) (secret : Bytes) (now : ℕ)
    (limits : EventLimits) (opened : OpenedGiftWrap) : Type 0 where
  pub verified : verify lib.events gift_wrap now limits ≡ ok tt
  pub wrapper_kind : (gift_wrap.kind ≡ gift_wrap_kind) ⊎ (gift_wrap.kind ≡ ephemeral_gift_wrap_kind)
  pub recipient : Bytes
  pub is_recipient : lib.events.xonly_of_secret secret ≡ some recipient
  pub addressed : IsAddressedTo (lib.events.hex_encode recipient) gift_wrap.tags
  pub wrapper_key : Bytes
  pub wrapper : decode_lower_hex_32 lib gift_wrap.pubkey ≡ ok wrapper_key
  pub seal_json : Bytes
  pub decrypted : Nip44.decrypt lib.nip44 secret wrapper_key gift_wrap.content ≡ ok seal_json
  pub parsed : lib.events.signed_of_json seal_json ≡ some opened.seal
  pub seal_verified : verify lib.events opened.seal now limits ≡ ok tt
  pub inside : IsSealed lib secret limits opened

pub from_json-eq-ok :
    (events : EventLib) (bytes : Bytes) (now : ℕ) (limits : EventLimits) (e : SignedEvent)
    → Event.from_json events bytes now limits ≡ ok e
    → (events.signed_of_json bytes ≡ some e) × (verify events e now limits ≡ ok tt)
unfolding Event.from_json
from_json-eq-ok events bytes now limits e h = reject_if-elim _ _ _ h λ small h₁.
    ok_or-elim (events.signed_of_json bytes) _ _ h₁ λ parsed p h₂.
      >>=-elim (verify events parsed now limits) _ h₂ λ u v same.
        subst (λ e. (events.signed_of_json bytes ≡ some e) × (verify events e now limits ≡ ok tt))
          (ok-injective same) (p, v)

module _ (lib : GiftWrapLib) (secret : Bytes) (limits : EventLimits) where
  open_seal-IsSealed :
      (seal : SignedEvent) (opened : OpenedGiftWrap)
      → open_seal lib seal secret limits ≡ ok opened
      → IsSealed lib secret limits opened × (opened.seal ≡ seal)
  unfolding open_seal
  open_seal-IsSealed seal opened h = reject_if-elim _ _ _ h λ kind h₁.
      reject_if-elim _ _ _ h₁ λ untagged h₂.
        >>=-elim (decode_lower_hex_32 lib seal.pubkey) _ h₂ λ key author h₃.
          >>=-elim (map_err encryption (Nip44.decrypt lib.nip44 secret key seal.content)) _ h₃
            λ rumor_json decrypted h₄. reject_if-elim _ _ _ h₄ λ small h₅.
              ok_or-elim (lib.rumor_of_json rumor_json) _ _ h₅ λ rumor parsed h₆.
                >>=-elim (verify_rumor lib rumor limits) _ h₆ λ u valid h₇.
                  reject_if-elim _ _ _ h₇ λ same built.
                    subst
                      (λ (opened : OpenedGiftWrap).
                        IsSealed lib secret limits opened × (opened.seal ≡ seal))
                      (ok-injective built)
                      (
                        record {
                          sealed_kind = (==_iff _ _).0 (not-eq-false _ kind);
                          untagged = not-eq-false _ untagged;
                          author_key = key;
                          author = author;
                          rumor_json = rumor_json;
                          decrypted = map_err-eq-ok _ _ decrypted;
                          parsed = parsed;
                          small = ltb_false→le _ _ small;
                          rumor_valid = verify_rumor-IsRumor lib limits rumor valid;
                          same_author = (bytes_eq_iff _ _).0 (not-eq-false _ same);
                        },
                        refl,
                      )

either_kind : (kind a b : ℕ) → not ((kind == a) || (kind == b)) ≡ false → (kind ≡ a) ⊎ (kind ≡ b)
either_kind kind a b h = elim (Bool-cases (kind == a)) [
  | inl same ↦ inl ((==_iff kind a).0 same)
  | inr other ↦ inr ((==_iff kind b).0 (ground arith))
]

-- A gift wrap opens only if it verifies, is of one of the two kinds, has the reader as its only
-- recipient, and holds, encrypted for the reader by its author, a seal that verifies, is of kind 13
-- without tags, and holds, encrypted for the reader by its own author, a rumor within the limits,
-- with the right identifier and with the seal's author.
pub open_gift_wrap-IsOpened :
    (lib : GiftWrapLib) (gift_wrap : SignedEvent) (secret : Bytes) (now : ℕ) (limits : EventLimits)
    (opened : OpenedGiftWrap)
    → open_gift_wrap lib gift_wrap secret now limits ≡ ok opened
    → IsOpened lib gift_wrap secret now limits opened
unfolding open_gift_wrap xonly_public_key
open_gift_wrap-IsOpened lib gift_wrap secret now limits opened h =
    >>=-elim (map_err event_error (verify lib.events gift_wrap now limits)) _ h λ u verified h₁.
      reject_if-elim _ _ _ h₁ λ kind h₂.
        >>=-elim (map_err event_error (xonly_public_key lib.events secret)) _ h₂
          λ recipient is_recipient h₃. reject_if-elim _ _ _ h₃ λ address h₄.
            >>=-elim (decode_lower_hex_32 lib gift_wrap.pubkey) _ h₄ λ key wrapper h₅.
              >>=-elim (map_err encryption (Nip44.decrypt lib.nip44 secret key gift_wrap.content)) _
                h₅
                λ seal_json decrypted h₆.
                  >>=-elim (map_err event_error (Event.from_json lib.events seal_json now limits)) _
                    h₆
                    λ seal made rest.
                      let (parsed, seal_verified) =
                        from_json-eq-ok lib.events seal_json now limits seal
                          (map_err-eq-ok _ _ made) in
                      let (inside, same) = open_seal-IsSealed lib secret limits seal opened rest in
                      record {
                        verified = map_err-eq-ok _ _ verified;
                        wrapper_kind = either_kind _ _ _ kind;
                        recipient = recipient;
                        is_recipient = ok_or-eq-ok _ _ (map_err-eq-ok _ _ is_recipient);
                        addressed = (is_misaddressed_lem _ _).0 address;
                        wrapper_key = key;
                        wrapper = wrapper;
                        seal_json = seal_json;
                        decrypted = map_err-eq-ok _ _ decrypted;
                        parsed = rw same parsed;
                        seal_verified = rw same seal_verified;
                        inside = inside;
                      }
