-- ===== src/Nostr/GiftWrap/Material.antt =====
-- The random material of crates/omachat-nostr/src/gift_wrap.rs.
use oma_chat.Base.{
  ℕ, zero, suc, ◌+◌, ◌≤◌, ◌<◌, ◌≡◌, refl, true, false, some, none, List, [], ◌∷◌, ◌++◌, ok, arith,
  length, map, All, Bytes, >>=-elim, ok-injective, subst, Bool-cases, inl, inr,
}
use oma_chat.Nostr.Event.{EventLib}
use oma_chat.Nostr.Urls.{is_some}
use oma_chat.Nostr.GiftWrap.{
  GiftWrapMaterial, Draws, random_array, random_secret_key, random_past_timestamp, draw_material,
  max_timestamp_skew_seconds,
}

abbrev IsPast : ℕ → ℕ → Type 0
IsPast now time = (time ≤ now) × (now ≤ time + max_timestamp_skew_seconds)

random_past_timestamp-IsPast :
    (now : ℕ) (draws : Draws) (out : ℕ × Draws)
    → random_past_timestamp now draws ≡ ok out
    → IsPast now out.0
unfolding random_past_timestamp
random_past_timestamp-IsPast now [] out h = cc
random_past_timestamp-IsPast now (none ∷ draws) out h = cc
random_past_timestamp-IsPast now (some bytes ∷ draws) out h =
    subst (λ (o : ℕ × Draws). IsPast now o.0) (ok-injective h) (omega arith, omega arith)

random_secret_key-valid :
    (events : EventLib) (tries : ℕ) (draws : Draws) (out : Bytes × Draws)
    → random_secret_key events tries draws ≡ ok out
    → is_some (events.xonly_of_secret out.0) ≡ true
unfolding random_secret_key
random_secret_key-valid events zero draws out h = cc
random_secret_key-valid events (suc tries) [] out h = cc
random_secret_key-valid events (suc tries) (none ∷ draws) out h = cc
random_secret_key-valid events (suc tries) (some candidate ∷ draws) out h =
    elim (Bool-cases (is_some (events.xonly_of_secret candidate))) [
      | inl valid ↦
          subst (λ (o : Bytes × Draws). is_some (events.xonly_of_secret o.0) ≡ true)
            (ok-injective (rw valid at h)) valid
      | inr other ↦ random_secret_key-valid events tries draws out (rw other at h)
    ]

-- Both times lie in the two days up to now, and the wrapper's key is a secret key.
pub record IsMaterial (events : EventLib) (now : ℕ) (m : GiftWrapMaterial) : Type 0 where
  pub seal_past : (m.seal_created_at ≤ now) × (now ≤ m.seal_created_at + max_timestamp_skew_seconds)
  pub wrapper_past :
      (m.wrapper_created_at ≤ now) × (now ≤ m.wrapper_created_at + max_timestamp_skew_seconds)
  pub wrapper_key : is_some (events.xonly_of_secret m.wrapper_secret_key) ≡ true

-- The material that is drawn has both times in the two days up to now, and a wrapper key that is a
-- secret key.
pub draw_material-IsMaterial :
    (events : EventLib) (now : ℕ) (draws : Draws) (m : GiftWrapMaterial)
    → draw_material events now draws ≡ ok m
    → IsMaterial events now m
unfolding draw_material
draw_material-IsMaterial events now draws m h =
    >>=-elim (random_past_timestamp now draws) _ h λ seal_time s h₁.
      >>=-elim (random_array seal_time.1) _ h₁ λ seal_nonce x₁ h₂.
        >>=-elim (random_array seal_nonce.1) _ h₂ λ seal_aux x₂ h₃.
          >>=-elim (random_secret_key events 128 seal_aux.1) _ h₃ λ secret k h₄.
            >>=-elim (random_past_timestamp now secret.1) _ h₄ λ wrapper_time w h₅.
              >>=-elim (random_array wrapper_time.1) _ h₅ λ wrapper_nonce x₃ h₆.
                >>=-elim (random_array wrapper_nonce.1) _ h₆ λ wrapper_aux x₄ built.
                  subst (IsMaterial events now) (ok-injective built) (record {
                    seal_past = random_past_timestamp-IsPast now draws seal_time s;
                    wrapper_past = random_past_timestamp-IsPast now secret.1 wrapper_time w;
                    wrapper_key = random_secret_key-valid events 128 seal_aux.1 secret k;
                  })

abbrev pub drawn : List Bytes → Draws
drawn candidates = map (λ c. some c) candidates

-- Where the system yields bytes that are a secret key within the tries, after fewer that are not, the
-- search for a key returns the first of them and leaves what follows.
pub random_secret_key-finds :
    (events : EventLib) (tries : ℕ) (others : List Bytes) (key : Bytes) (draws : Draws)
    → length others < tries
    → All (λ c. is_some (events.xonly_of_secret c) ≡ false) others
    → is_some (events.xonly_of_secret key) ≡ true
    → random_secret_key events tries (drawn others ++ (some key ∷ draws)) ≡ ok (key, draws)
unfolding random_secret_key
random_secret_key-finds events zero others key draws h a v = absurd (omega arith)
random_secret_key-finds events (suc tries) [] key draws h a v = rw v refl
random_secret_key-finds events (suc tries) (c ∷ others) key draws h a v =
    rw a.0 (random_secret_key-finds events tries others key draws (omega arith) a.1 v)
