-- ===== src/Examples/Wrapping.antt =====
-- A form of events and rumors with each field behind its length, in the place of JSON.
use oma_chat.Base.{
  ℕ, zero, suc, Option-cases, inl, inr, ◌≡◌, refl, Option, none, some, List, [], ◌∷◌, ◌++◌, length,
  take, drop, replicate, Bytes, text, ap, ◌∙◌, subst, take-append, drop-append, arith,
  length-replicate,
}
use oma_chat.Crypto.Nip44.Parties.{AgreementLaws}
use oma_chat.Nostr.Event.{Tag, SignedEvent, EventLib}
use oma_chat.Nostr.Event.Signing.{EventLaws, AreBytes}
use oma_chat.Nostr.GiftWrap.{GiftWrapLib, Rumor}
use oma_chat.Nostr.GiftWrap.Layers.{GiftWrapLaws}
use oma_chat.Examples.Libraries.{
  plain_nip44, plain_nip44_laws, plain_events, plain_events_laws, AreBytes-replicate,
  some-injective,
}

abbrev field : Bytes → Bytes
field f = length f ∷ f

abbrev tag_code : Tag → Option Bytes
tag_code (a ∷ b ∷ []) = some (1 ∷ (field a ++ (field b ++ [])))
tag_code tag = none

-- The tags that occur: none, or one with two fields.
abbrev tags_code : List Tag → Option Bytes
tags_code [] = some (0 ∷ [])
tags_code (tag ∷ []) = tag_code tag
tags_code (t ∷ u ∷ tags) = none

abbrev read_field : Bytes → Bytes
read_field [] = []
read_field (n ∷ b) = take n b

abbrev skip_field : Bytes → Bytes
skip_field [] = []
skip_field (n ∷ b) = drop n b

abbrev read_tags : Bytes → List Tag
read_tags [] = []
read_tags (zero ∷ b) = []
read_tags (suc n ∷ b) = (read_field b ∷ read_field (skip_field b) ∷ []) ∷ []

abbrev code : SignedEvent → Option Bytes
code e = elim (tags_code e.tags) [
  | none ↦ none
  | some tags ↦ some (
      e.created_at
      ∷ e.kind
      ∷ (field e.id ++ (field e.pubkey ++ (field e.sig ++ (field e.content ++ tags)))))
]

abbrev read_fields : ℕ → ℕ → Bytes → SignedEvent
read_fields created_at kind b =
    let b₁ = skip_field b in
    let b₂ = skip_field b₁ in
    let b₃ = skip_field b₂ in
    record {
      id = read_field b;
      pubkey = read_field b₁;
      created_at = created_at;
      kind = kind;
      tags = read_tags (skip_field b₃);
      content = read_field b₃;
      sig = read_field b₂;
    }

abbrev decoded : Bytes → Option SignedEvent
decoded (created_at ∷ kind ∷ b) = some (read_fields created_at kind b)
decoded b = none

abbrev rumor_as_event : Rumor → SignedEvent
rumor_as_event r = record {
  id = r.id;
  pubkey = r.pubkey;
  created_at = r.created_at;
  kind = r.kind;
  tags = r.tags;
  content = r.content;
  sig = [];
}

abbrev event_as_rumor : SignedEvent → Rumor
event_as_rumor e = record {
  id = e.id;
  pubkey = e.pubkey;
  created_at = e.created_at;
  kind = e.kind;
  tags = e.tags;
  content = e.content;
}

abbrev decoded_rumor : Bytes → Option Rumor
decoded_rumor b = elim (decoded b) [ none ↦ none | some e ↦ some (event_as_rumor e) ]

abbrev pub wrap_events : EventLib
wrap_events = record plain_events { signed_to_json = code; signed_of_json = decoded }

abbrev pub wraps : GiftWrapLib
wraps = record {
  events = wrap_events;
  nip44 = plain_nip44;
  rumor_to_json = λ r. code (rumor_as_event r);
  rumor_of_json = decoded_rumor;
}

read-field :
    (f rest : Bytes) → (read_field (field f ++ rest) ≡ f) × (skip_field (field f ++ rest) ≡ rest)
read-field f rest = (take-append f rest, drop-append f rest)

read_tags-tags_code : (tags : List Tag) (b : Bytes) → tags_code tags ≡ some b → read_tags b ≡ tags
read_tags-tags_code [] b h = subst (λ b. read_tags b ≡ []) (some-injective h) refl
read_tags-tags_code ((x ∷ y ∷ []) ∷ []) b h =
    subst (λ b. read_tags b ≡ (x ∷ y ∷ []) ∷ []) (some-injective h)
      (rw ((read-field x (field y ++ [])).0, (read-field x (field y ++ [])).1, (read-field y []).0)
        refl)
read_tags-tags_code ([] ∷ []) b h = cc
read_tags-tags_code ((x ∷ []) ∷ []) b h = cc
read_tags-tags_code ((x ∷ y ∷ z ∷ v) ∷ []) b h = cc
read_tags-tags_code (t ∷ u ∷ tags) b h = cc

read_fields-fields :
    (created_at kind : ℕ) (id pubkey sig content tags : Bytes)
    → read_fields created_at kind
        (field id ++ (field pubkey ++ (field sig ++ (field content ++ tags))))
      ≡ record {
        id = id;
        pubkey = pubkey;
        created_at = created_at;
        kind = kind;
        tags = read_tags tags;
        content = content;
        sig = sig;
      }
read_fields-fields created_at kind id pubkey sig content tags =
    let c = field content ++ tags in
    let s = field sig ++ c in
    let p = field pubkey ++ s in
    rw
      (
        (read-field id p).0,
        (read-field id p).1,
        (read-field pubkey s).0,
        (read-field pubkey s).1,
        (read-field sig c).0,
        (read-field sig c).1,
        (read-field content tags).0,
        (read-field content tags).1,
      )
      refl

decoded-code : (e : SignedEvent) (b : Bytes) → code e ≡ some b → decoded b ≡ some e
decoded-code e b h = elim (Option-cases (tags_code e.tags)) [
  | inl nothing ↦ (let impossible = rw (code, nothing) at h in cc)
  | inr (tags, t) ↦
      subst (λ b. decoded b ≡ some e) (some-injective (rw (code, t) at h))
        (ap some (
          read_fields-fields e.created_at e.kind e.id e.pubkey e.sig e.content tags
          ∙ ap (λ (tags : List Tag). record e { tags = tags }) (read_tags-tags_code e.tags tags t)))
]

decoded_rumor-code :
    (r : Rumor) (b : Bytes) → code (rumor_as_event r) ≡ some b → decoded_rumor b ≡ some r
decoded_rumor-code r b h = rw (decoded_rumor, decoded-code (rumor_as_event r) b h) refl

wrap_events_laws : EventLaws wrap_events
wrap_events_laws = record {
  hex_round_trip = plain_events_laws.hex_round_trip;
  length-sha256 = plain_events_laws.length-sha256;
  sha256-AreBytes = plain_events_laws.sha256-AreBytes;
  xonly_valid = plain_events_laws.xonly_valid;
  sign_correct = plain_events_laws.sign_correct;
}

pub plain_agreement : AgreementLaws plain_nip44 plain_events.xonly_of_secret
plain_agreement = record {
  agreement = λ a b key_a key_b x y. (text "x", refl, refl, refl, refl);
  length-extract = λ salt x. length-replicate {A = ℕ} 32 5;
}

twos : (key : Bytes) → replicate 32 2 ≡ key → (length key ≡ 32) × AreBytes key
twos key h =
    subst (λ k. (length k ≡ 32) × AreBytes k) h (refl, AreBytes-replicate 32 2 (omega arith))

pub wraps_laws : GiftWrapLaws wraps
wraps_laws = record {
  event_laws = wrap_events_laws;
  nip44_laws = plain_nip44_laws;
  agreement_laws = plain_agreement;
  xonly_bytes = λ secret key x. twos key (some-injective x);
  rumor_round_trip = decoded_rumor-code;
  event_round_trip = decoded-code;
  rumor_utf8 = λ rumor json h. refl;
  event_utf8 = λ e json h. refl;
}
