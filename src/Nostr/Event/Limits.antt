-- ===== src/Nostr/Event/Limits.antt =====
-- The resource limits of crates/omachat-nostr/src/event.rs, as `UnsignedEvent::validate` keeps them.
use oma_chat.Base.{
  some, ◌*◌, is_lower_hex, not, allb, le→ltb_false, anyb, ltb_false→le, ok_or, ℕ, suc, ◌≤◌, ◌≡◌,
  refl, true, ◌↔◌, List, [], ◌∷◌, ok, ◌>>=◌, reject_if, arith, length, All, Bytes, >>=-elim,
  reject_if-elim,
}
use oma_chat.Nostr.Event.{
  Tag, UnsignedEvent, EventLimits, EventLib, decode_hex, validate, check_fields, check_tags,
}

-- Every field of the tag is short enough.
abbrev pub FieldsFit : EventLimits → Tag → Type 0
FieldsFit limits tag = All (λ field. length field ≤ limits.max_tag_field_bytes) tag

abbrev pub TagsFit : EventLimits → List Tag → Type 0
TagsFit limits tags = All (λ tag. (length tag ≤ limits.max_tag_fields) × FieldsFit limits tag) tags

check_fields_lem :
    (limits : EventLimits) (i j : ℕ) (tag : Tag)
    → (check_fields limits i j tag ≡ ok tt) ↔ FieldsFit limits tag
unfolding check_fields
check_fields_lem limits i j [] = (λ h. tt, λ h. refl)
check_fields_lem limits i j (x ∷ tag) = (
  λ h. ground (arith, check_fields_lem limits i (suc j) tag),
  λ h. ground (arith, check_fields_lem limits i (suc j) tag),
)

check_tags_lem :
    (limits : EventLimits) (i : ℕ) (tags : List Tag)
    → (check_tags limits i tags ≡ ok tt) ↔ TagsFit limits tags
unfolding check_tags
check_tags_lem limits i [] = (λ h. tt, λ h. refl)
check_tags_lem limits i (x ∷ tags) = (
  λ h. ground (arith, check_fields_lem limits i 0 x, check_tags_lem limits (suc i) tags),
  λ h. ground (arith, check_fields_lem limits i 0 x, check_tags_lem limits (suc i) tags),
)

-- A value that `decode_hex` accepts, and its bytes.
abbrev pub IsHex : EventLib → ℕ → Bytes → Bytes → Type 0
IsHex lib n value bytes =
    (length value ≡ n * 2)
    × (allb is_lower_hex value ≡ true)
    × (lib.hex_decode n value ≡ some bytes)

anyb-not : (v : Bytes) → anyb (λ c. not (is_lower_hex c)) v ≡ not (allb is_lower_hex v)
unfolding anyb allb
anyb-not [] = refl
anyb-not (c ∷ v) = ground (arith, anyb-not v)

-- Hex is accepted exactly at twice the width, in lower case, where the library decodes it.
pub decode_hex_lem :
    (lib : EventLib) (n : ℕ) (value bytes : Bytes)
    → (decode_hex lib n value ≡ ok bytes) ↔ IsHex lib n value bytes
unfolding decode_hex reject_if ok_or
decode_hex_lem lib n v b = (λ h. ground (arith, anyb-not v), λ h. ground (arith, anyb-not v))

-- An event within the limits, whose public key is 32 bytes of hex.
pub record FitsLimits (lib : EventLib) (limits : EventLimits) (e : UnsignedEvent) : Type 0 where
  pub key : Bytes
  pub key_hex : IsHex lib 32 e.pubkey key
  pub content_fits : length e.content ≤ limits.max_content_bytes
  pub tags_fit : length e.tags ≤ limits.max_tags
  pub fields_fit : TagsFit limits e.tags

-- `validate` accepts exactly the events within the limits whose public key is lower-case hex of 32
-- bytes.
pub validate_lem :
    (lib : EventLib) (e : UnsignedEvent) (limits : EventLimits)
    → (validate lib e limits ≡ ok tt) ↔ FitsLimits lib limits e
unfolding validate reject_if
validate_lem lib e limits = (to, from)
  where
    to : validate lib e limits ≡ ok tt → FitsLimits lib limits e
    to h = >>=-elim (decode_hex lib 32 e.pubkey >>= λ _. ok tt) _ h λ u d h₁.
        >>=-elim (decode_hex lib 32 e.pubkey) _ d λ key hex same. reject_if-elim _ _ _ h₁ λ c h₂.
          reject_if-elim _ _ _ h₂ λ t h₃. record {
            key = key;
            key_hex = (decode_hex_lem lib 32 e.pubkey key).0 hex;
            content_fits = ltb_false→le _ _ c;
            tags_fit = ltb_false→le _ _ t;
            fields_fit = (check_tags_lem limits 0 e.tags).0 h₃;
          }

    from : FitsLimits lib limits e → validate lib e limits ≡ ok tt
    from f = rw (
      (decode_hex_lem lib 32 e.pubkey f.key).1 f.key_hex,
      le→ltb_false _ _ f.content_fits,
      le→ltb_false _ _ f.tags_fit,
      (check_tags_lem limits 0 e.tags).1 f.fields_fit,
    )
