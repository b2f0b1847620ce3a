-- ===== src/Nostr/DmRelayCache/Canonical.antt =====
-- The canonical records of crates/omachat-nostr/src/dm_relay_cache.rs.
use oma_chat.Base.{
  ◌∙◌, ℕ, ◌≤◌, ◌+◌, ◌≡◌, refl, Bool, false, not, ◌||◌, ◌==◌, ==_iff, some, List, [], ◌∷◌, ok, arith,
  length, anyb, All, Bytes, bytes_eq, bytes_eq_iff, >>=-elim, ok_or-elim, reject_if-elim,
  ok-injective, ltb_false→le, subst, BytesLt, BytesLt-trans, bytes_cmp-eq, bytes_cmp-gt,
}
use oma_chat.Nostr.Event.{EventLib}
use oma_chat.Nostr.Urls.{Url, UrlLib}
use oma_chat.Nostr.DmRelayCache.{
  VerifiedDmRelayRecord, is_refused_endpoint, canonical_endpoints, insert_sorted, sort,
  canonicalize_and_validate, max_dm_relays_per_recipient, max_dm_relay_endpoint_bytes, zero_32,
}

-- The list is strictly increasing.
abbrev pub IsAscending : List Bytes → Type 0
IsAscending [] = Unit
IsAscending (u ∷ us) = All (BytesLt u) us × IsAscending us

abbrev contains : Bytes → List Bytes → Bool
contains u us = anyb (λ v. bytes_eq v u) us

abbrev Distinct : List Bytes → Type 0
Distinct [] = Unit
Distinct (u ∷ us) = (contains u us ≡ false) × Distinct us

All-BytesLt :
    (u v : Bytes) (us : List Bytes) → BytesLt u v → All (BytesLt v) us → All (BytesLt u) us
All-BytesLt u v [] h a = tt
All-BytesLt u v (w ∷ us) h a = (BytesLt-trans u v w h a.0, All-BytesLt u v us h a.1)

All-insert_sorted :
    (P : Bytes → Type 0) (u : Bytes) (us : List Bytes) → P u → All P us → All P (insert_sorted u us)
unfolding insert_sorted
All-insert_sorted P u [] h a = (h, tt)
All-insert_sorted P u (v ∷ us) h a = ground (arith, All-insert_sorted P u us)

insert_sorted-IsAscending :
    (u : Bytes) (us : List Bytes)
    → contains u us ≡ false
    → IsAscending us
    → IsAscending (insert_sorted u us)
unfolding insert_sorted anyb
insert_sorted-IsAscending u [] h a = (tt, tt)
insert_sorted-IsAscending u (v ∷ us) h a = ground (
  arith,
  bytes_cmp-eq u v,
  bytes_cmp-gt u v,
  bytes_eq_iff v u,
  All-BytesLt u v us,
  All-insert_sorted (BytesLt v) u us,
  insert_sorted-IsAscending u us,
)

contains-insert_sorted :
    (w u : Bytes) (us : List Bytes)
    → contains w (insert_sorted u us) ≡ (bytes_eq u w || contains w us)
unfolding insert_sorted anyb
contains-insert_sorted w u [] = refl
contains-insert_sorted w u (v ∷ us) = ground (arith, contains-insert_sorted w u us)

contains-sort : (w : Bytes) (us : List Bytes) → contains w (sort us) ≡ contains w us
unfolding sort anyb
contains-sort w [] = refl
contains-sort w (u ∷ us) = ground (arith, contains-insert_sorted w u (sort us), contains-sort w us)

length-insert_sorted : (u : Bytes) (us : List Bytes) → length (insert_sorted u us) ≡ 1 + length us
unfolding insert_sorted
length-insert_sorted u [] = refl
length-insert_sorted u (v ∷ us) = ground (arith, length-insert_sorted u us)

pub length-sort : (us : List Bytes) → length (sort us) ≡ length us
unfolding sort
length-sort [] = refl
length-sort (u ∷ us) = omega (arith, length-insert_sorted u (sort us), length-sort us)

All-sort : (P : Bytes → Type 0) (us : List Bytes) → All P us → All P (sort us)
unfolding sort
All-sort P [] a = tt
All-sort P (u ∷ us) a = All-insert_sorted P u (sort us) a.0 (All-sort P us a.1)

sort-IsAscending : (us : List Bytes) → Distinct us → IsAscending (sort us)
unfolding sort
sort-IsAscending [] d = tt
sort-IsAscending (u ∷ us) d =
    insert_sorted-IsAscending u (sort us) (contains-sort u us ∙ d.0) (sort-IsAscending us d.1)

-- The address is the normal form of a short enough endpoint that parses and is not refused.
abbrev pub IsEndpoint : UrlLib → Bytes → Type 0
IsEndpoint urls u =
    (endpoint : Bytes) × (parsed : Url) × (length endpoint ≤ max_dm_relay_endpoint_bytes)
    × (urls.parse endpoint ≡ some parsed)
    × (is_refused_endpoint urls parsed ≡ false)
    × (parsed.serialization ≡ u)

-- Distinct endpoints in the order of their bytes, as many as `n`.
pub record IsEndpointList (urls : UrlLib) (n : ℕ) (relays : List Bytes) : Type 0 where
  pub ascending : IsAscending relays
  pub endpoints : All (IsEndpoint urls) relays
  pub size : length relays ≡ n

module _ (urls : UrlLib) where
  canonical_endpoints-eq-ok :
      (es seen out : List Bytes)
      → canonical_endpoints urls es seen ≡ ok out
      → Distinct seen
      → All (IsEndpoint urls) seen
      → Distinct out × All (IsEndpoint urls) out × (length out ≡ length es + length seen)
  unfolding canonical_endpoints
  canonical_endpoints-eq-ok [] seen out h d a =
      subst (λ o. Distinct o × All (IsEndpoint urls) o × (length o ≡ 0 + length seen))
        (ok-injective h) (d, a, omega arith)
  canonical_endpoints-eq-ok (e ∷ es) seen out h d a = reject_if-elim _ _ _ h λ short h₁.
      ok_or-elim (urls.parse e) _ _ h₁ λ parsed p h₂. reject_if-elim _ _ _ h₂ λ fine h₃.
        reject_if-elim _ _ _ h₃ λ unseen rest.
          let (d', a', n) =
            canonical_endpoints-eq-ok es (parsed.serialization ∷ seen) out rest (unseen, d)
              ((e, parsed, ltb_false→le _ _ short, p, fine, refl), a) in
          (d', a', omega (arith, n))

  pub sort-IsEndpointList :
      (es out : List Bytes)
      → canonical_endpoints urls es [] ≡ ok out
      → IsEndpointList urls (length es) (sort out)
  sort-IsEndpointList es out h =
      let (d, a, n) = canonical_endpoints-eq-ok es [] out h tt tt in
      record {
        ascending = sort-IsAscending out d;
        endpoints = All-sort (IsEndpoint urls) out a;
        size = omega (arith, length-sort out, n);
      }

-- What `canonicalize_and_validate` makes sure of.
pub record IsCanonicalRecord (lib : EventLib) (urls : UrlLib) (r : VerifiedDmRelayRecord)
    : Type 0 where
  pub recipient : bytes_eq r.recipient_pubkey zero_32 ≡ false
  pub source : bytes_eq r.source_event_id zero_32 ≡ false
  pub later : r.source_created_at ≤ r.verified_at
  pub author : r.source_event.pubkey ≡ lib.hex_encode r.recipient_pubkey
  pub event_id : r.source_event.id ≡ lib.hex_encode r.source_event_id
  pub created_at : r.source_event.created_at ≡ r.source_created_at
  pub ascending : IsAscending r.relays
  pub endpoints : All (IsEndpoint urls) r.relays
  pub few : length r.relays ≤ max_dm_relays_per_recipient

unbound :
    (a b c d : Bytes) (m n : ℕ)
    → (not (bytes_eq a b) || (not (bytes_eq c d) || not (m == n))) ≡ false
    → (a ≡ b) × (c ≡ d) × (m ≡ n)
unbound a b c d m n h =
    (ground (arith, bytes_eq_iff a b), ground (arith, bytes_eq_iff c d), ground (arith, ==_iff m n))

module _ (lib : EventLib) (urls : UrlLib) (r c : VerifiedDmRelayRecord) where
  -- What is accepted is canonical, and differs from what was given in its relays alone.
  pub canonicalize_and_validate-IsCanonicalRecord :
      canonicalize_and_validate lib urls r ≡ ok c
      → IsCanonicalRecord lib urls c × (c ≡ record r { relays = c.relays })
  unfolding canonicalize_and_validate
  canonicalize_and_validate-IsCanonicalRecord h = reject_if-elim _ _ _ h λ recipient h₁.
      reject_if-elim _ _ _ h₁ λ source h₂. reject_if-elim _ _ _ h₂ λ later h₃.
        reject_if-elim _ _ _ h₃ λ bound h₄. reject_if-elim _ _ _ h₄ λ few h₅.
          >>=-elim (canonical_endpoints urls r.relays []) _ h₅ λ out relays built.
            let l = sort-IsEndpointList urls r.relays out relays in
            let (author, event_id, created_at) = unbound _ _ _ _ _ _ bound in
            subst (λ c. IsCanonicalRecord lib urls c × (c ≡ record r { relays = c.relays }))
              (ok-injective built)
              (
                record {
                  recipient = recipient;
                  source = source;
                  later = ltb_false→le _ _ later;
                  author = author;
                  event_id = event_id;
                  created_at = created_at;
                  ascending = l.ascending;
                  endpoints = l.endpoints;
                  few = omega (arith, l.size, ltb_false→le _ _ few);
                },
                refl,
              )
