-- ===== src/Nostr/Tags.antt =====
-- The search for recipient tags that crates/omachat-nostr/src/inbox.rs, dm_routed_publish.rs and
-- gift_wrap.rs each write out.
use oma_chat.Base.{
  bytes_eq_iff, inr, refl, inl, Option-cases, arith, ◌↔◌, ◌≡◌, ℕ, Bool, true, false, not, ◌||◌,
  ◌==◌, none, some, List, [], ◌∷◌, length, filterb, get_elem?, Bytes, text, bytes_eq,
}
use oma_chat.Nostr.Event.{Tag}
use oma_chat.Nostr.Discovery.{has_name}

-- `tags.iter().filter(|tag| tag.first() == Some("p"))`.
unfoldable pub recipient_tags : List Tag → List Tag
recipient_tags tags = filterb (has_name (text "p")) tags

-- `tag.get(i) == Some(value)`.
abbrev pub field_is : ℕ → Bytes → Tag → Bool
field_is i value tag = elim (get_elem? tag i) [ none ↦ false | some field ↦ bytes_eq field value ]

-- `tags.len() != 1 || tags[0].get(1) != Some(recipient)`, over the recipient tags.
unfoldable pub is_misaddressed : Bytes → List Tag → Bool
is_misaddressed recipient [] = true
is_misaddressed recipient (tag ∷ tags) =
    not (length (tag ∷ tags) == 1) || not (field_is 1 recipient tag)

-- There is one recipient tag, and its second field is the recipient.
abbrev pub IsAddressedTo : Bytes → List Tag → Type 0
IsAddressedTo recipient tags =
    (tag : Tag) × (recipient_tags tags ≡ tag ∷ []) × (get_elem? tag 1 ≡ some recipient)

field_is_lem :
    (i : ℕ) (value : Bytes) (tag : Tag)
    → (field_is i value tag ≡ true) ↔ (get_elem? tag i ≡ some value)
field_is_lem i value tag = elim (Option-cases (get_elem? tag i)) [
  | inl e ↦ (λ h. ground arith, λ h. ground arith)
  | inr (field, e) ↦
      (λ h. ground (arith, bytes_eq_iff field value), λ h. ground (arith, bytes_eq_iff field value))
]

misaddressed_cases :
    (recipient : Bytes) (tags : List Tag)
    → (is_misaddressed recipient tags ≡ false)
      ↔ ((tag : Tag) × (tags ≡ tag ∷ []) × (get_elem? tag 1 ≡ some recipient))
unfolding is_misaddressed
misaddressed_cases recipient [] = (λ h. cc, λ h. cc)
misaddressed_cases recipient (tag ∷ []) = (
  λ h. (tag, refl, ground (arith, field_is_lem 1 recipient tag)),
  λ h. ground (arith, field_is_lem 1 recipient tag, field_is_lem 1 recipient h.0),
)
misaddressed_cases recipient (tag ∷ other ∷ tags) = (λ h. ground arith, λ h. ground arith)

-- The test refuses exactly what is not addressed to the recipient alone.
pub is_misaddressed_lem :
    (recipient : Bytes) (tags : List Tag)
    → (is_misaddressed recipient (recipient_tags tags) ≡ false) ↔ IsAddressedTo recipient tags
is_misaddressed_lem recipient tags = misaddressed_cases recipient (recipient_tags tags)
