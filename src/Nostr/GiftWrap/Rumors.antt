-- ===== src/Nostr/GiftWrap/Rumors.antt =====
-- The rumors that `create_chat_rumor` of crates/omachat-nostr/src/gift_wrap.rs makes.
use oma_chat.Base.{
  ℕ, ◌≤◌, ◌<◌, ◌≡◌, false, ◌||◌, Option, some, none, List, [], ◌∷◌, ◌++◌, ok, arith, length,
  is_empty, anyb, map, Bytes, text, bytes_eq, ltb, >>=-elim, ok_or-elim, reject_if-elim,
  ok_or-eq-ok, ok-injective, map_err, map_err-eq-ok, subst, sym, ap, ◌∙◌,
}
use oma_chat.Nostr.Event.{
  Tag, UnsignedEvent, EventLib, EventLimits, new_unsigned, event_id, validate, xonly_public_key,
}
use oma_chat.Nostr.Event.Limits.{FitsLimits, validate_lem}
use oma_chat.Nostr.Urls.{UrlLib}
use oma_chat.Nostr.GiftWrap.{
  Rumor, ChatRecipient, rumor_of, rumor_event, recipient_fields, hint_field, check_hint,
  check_reply, subject_tag, new_rumor, create_chat_rumor, chat_message_kind, max_chat_recipients,
  event_error, validate_lower_hex,
}

module _ (events : EventLib) where
  -- The tags that stand for the recipients, in their order.
  abbrev pub recipient_tag : ChatRecipient → Tag
  recipient_tag r = text "p" ∷ events.hex_encode r.public_key ∷ hint_field r.relay_hint

  abbrev pub keys : List ChatRecipient → List Bytes
  keys recipients = map (λ (r : ChatRecipient). events.hex_encode r.public_key) recipients

  -- No key is the sender's, none is among those before, and none stands twice.
  abbrev pub AreOthers : Bytes → List Bytes → List Bytes → Type 0
  AreOthers sender seen [] = Unit
  AreOthers sender seen (k ∷ ks) =
      (bytes_eq k sender ≡ false)
      × (anyb (λ s. bytes_eq s k) seen ≡ false)
      × AreOthers sender (k ∷ seen) ks

  recipient_fields-eq-ok :
      (urls : UrlLib) (sender : Bytes) (recipients : List ChatRecipient) (seen : List Bytes)
      (tags : List Tag)
      → recipient_fields events urls sender recipients seen ≡ ok tags
      → (tags ≡ map recipient_tag recipients) × AreOthers sender seen (keys recipients)
  unfolding recipient_fields
  recipient_fields-eq-ok urls sender [] seen tags h = (sym (ok-injective h), tt)
  recipient_fields-eq-ok urls sender (r ∷ recipients) seen tags h =
      reject_if-elim _ _ _ h λ fresh h₁.
        >>=-elim (check_hint events urls r.relay_hint) _ h₁ λ u hint h₂.
          >>=-elim
            (recipient_fields events urls sender recipients (events.hex_encode r.public_key ∷ seen))
            _ h₂
            λ rest more built.
              let (same, others) =
                recipient_fields-eq-ok urls sender recipients
                  (events.hex_encode r.public_key ∷ seen) rest more in
              (
                sym (ok-injective built) ∙ ap (◌∷◌ (recipient_tag r)) same,
                (ground arith, ground arith, others),
              )

abbrev pub reply_tag : Option Bytes → List Tag
reply_tag none = []
reply_tag (some reply) = (text "e" ∷ reply ∷ []) ∷ []

check_reply-eq-ok :
    (reply : Option Bytes) (tags : List Tag) → check_reply reply ≡ ok tags → tags ≡ reply_tag reply
unfolding check_reply
check_reply-eq-ok none tags h = sym (ok-injective h)
check_reply-eq-ok (some reply) tags h =
    >>=-elim (validate_lower_hex reply 32) _ h λ u v built. sym (ok-injective built)

-- What is in a rumor made for a chat.
pub record IsChat (events : EventLib) (secret : Bytes) (created_at : ℕ)
    (recipients : List ChatRecipient) (content : Bytes) (subject reply : Option Bytes)
    (limits : EventLimits) (rumor : Rumor) : Type 0 where
  pub some_recipient : 0 < length recipients
  pub few : length recipients ≤ max_chat_recipients
  pub key : Bytes
  pub is_key : events.xonly_of_secret secret ≡ some key
  pub others : AreOthers events (events.hex_encode key) [] (keys events recipients)
  pub canonical : Bytes
  pub is_canonical : events.canonical_to_json (rumor_event rumor) ≡ some canonical
  pub fits : FitsLimits events limits (rumor_event rumor)
  pub made : rumor ≡ record {
    id = events.hex_encode (events.sha256 canonical);
    pubkey = events.hex_encode key;
    created_at = created_at;
    kind = chat_message_kind;
    tags = map (recipient_tag events) recipients ++ (reply_tag reply ++ subject_tag subject);
    content = content;
  }

counted :
    (recipients : List ChatRecipient)
    → (is_empty recipients || ltb max_chat_recipients (length recipients)) ≡ false
    → (0 < length recipients) × (length recipients ≤ max_chat_recipients)
counted [] h = cc
counted (r ∷ recipients) h = (omega arith, ground arith)

abbrev chat_event : Bytes → ℕ → List Tag → Bytes → UnsignedEvent
chat_event key created_at tags content = record {
  pubkey = key;
  created_at = created_at;
  kind = chat_message_kind;
  tags = tags;
  content = content;
}

-- The rumor of an event, with its digest.
record IsRumorOf (events : EventLib) (limits : EventLimits) (e : UnsignedEvent) (rumor : Rumor)
    : Type 0 where
  canonical : Bytes
  is_canonical : events.canonical_to_json e ≡ some canonical
  fits : FitsLimits events limits e
  made : rumor ≡ rumor_of e (events.hex_encode (events.sha256 canonical))

module _ (events : EventLib) (urls : UrlLib) (limits : EventLimits) where
  new_unsigned-eq-ok :
      (e made : UnsignedEvent)
      → map_err event_error (new_unsigned events e limits) ≡ ok made
      → (validate events e limits ≡ ok tt) × (e ≡ made)
  unfolding new_unsigned
  new_unsigned-eq-ok e made h =
      >>=-elim (validate events e limits) _ (map_err-eq-ok _ _ h) λ u v same. (v, ok-injective same)

  new_rumor-IsRumorOf :
      (e : UnsignedEvent) (rumor : Rumor)
      → new_rumor events e limits ≡ ok rumor
      → IsRumorOf events limits e rumor
  unfolding new_rumor event_id
  new_rumor-IsRumorOf e rumor h =
      >>=-elim (map_err event_error (new_unsigned events e limits)) _ h λ made m h₁.
        >>=-elim (map_err event_error (event_id events made)) _ h₁ λ id digest built.
          let (v, same) = new_unsigned-eq-ok e made m in
          ok_or-elim (events.canonical_to_json made) _ _ (map_err-eq-ok _ _ digest)
            λ canonical c hashed. record {
              canonical = canonical;
              is_canonical = rw same c;
              fits = (validate_lem events e limits).0 v;
              made = rw (same, ok-injective hashed) (sym (ok-injective built));
            }

  -- A rumor that is made for a chat is for 1 to 10 recipients, none the sender and none twice; it is
  -- the sender's, of kind 14, with one tag for each recipient in their order, then the reply and the
  -- subject where they are given, is within the limits, and has the digest of its canonical form.
  pub create_chat_rumor-IsChat :
      (secret : Bytes) (created_at : ℕ) (recipients : List ChatRecipient) (content : Bytes)
      (subject reply : Option Bytes) (rumor : Rumor)
      → create_chat_rumor events urls secret created_at recipients content subject reply limits
        ≡ ok rumor
      → IsChat events secret created_at recipients content subject reply limits rumor
  unfolding create_chat_rumor xonly_public_key
  create_chat_rumor-IsChat secret created_at recipients content subject reply rumor h =
      reject_if-elim _ _ _ h λ count h₁.
        >>=-elim (map_err event_error (xonly_public_key events secret)) _ h₁ λ key x h₂.
          >>=-elim (recipient_fields events urls (events.hex_encode key) recipients []) _ h₂
            λ addressed a h₃. >>=-elim (check_reply reply) _ h₃ λ replied r h₄.
              >>=-elim (map_err event_error (new_unsigned events _ limits)) _ h₄ λ e m rest.
                let (v, same) = new_unsigned-eq-ok _ e m in
                let (tags, others) =
                  recipient_fields-eq-ok events urls (events.hex_encode key) recipients [] addressed
                    a in
                let made = new_rumor-IsRumorOf e rumor rest in
                let chat = λ (to back : List Tag).
                  chat_event (events.hex_encode key) created_at
                    (to ++ (back ++ subject_tag subject)) content in
                let whole : e ≡ chat (map (recipient_tag events) recipients) (reply_tag reply) =
                  subst (λ to. e ≡ chat to (reply_tag reply)) tags
                    (subst (λ back. e ≡ chat addressed back) (check_reply-eq-ok reply replied r)
                      (sym same)) in
                record {
                  some_recipient = (counted recipients count).0;
                  few = (counted recipients count).1;
                  key = key;
                  is_key = ok_or-eq-ok _ _ (map_err-eq-ok _ _ x);
                  others = others;
                  canonical = made.canonical;
                  is_canonical =
                      subst (λ u. events.canonical_to_json u ≡ some made.canonical)
                        (sym (ap rumor_event made.made)) made.is_canonical;
                  fits =
                      subst (FitsLimits events limits) (sym (ap rumor_event made.made)) made.fits;
                  made =
                      made.made
                      ∙ ap (λ u. rumor_of u (events.hex_encode (events.sha256 made.canonical)))
                          whole;
                }
