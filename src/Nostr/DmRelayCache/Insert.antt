-- ===== src/Nostr/DmRelayCache/Insert.antt =====
-- `insert` of crates/omachat-nostr/src/dm_relay_cache.rs.
use oma_chat.Base.{
  if◌then◌else◌, sym, ◌∙◌, ap, subst, ◌≢◌, Result, Result-cases, ◌⊎◌, ◌≤◌, ◌<◌, ◌≡◌, refl, none,
  some, [], ok, err, arith, leb, length, Bytes, bytes_eq, bytes_eq_iff, Bool-cases, Option-cases,
  inl, inr,
}
use oma_chat.Base.Assoc
use oma_chat.Base.Assoc.{
  IsSorted, insert-IsSorted, length-insert, insert-insert, remove-insert, lookup-insert,
}
use oma_chat.Nostr.Event.{EventLib}
use oma_chat.Nostr.Urls.{UrlLib}
use oma_chat.Nostr.DmRelayCache.{
  Cache, CacheJson, VerifiedDmRelayRecord, CacheMutation, stored, unchanged, DmRelayCacheError,
  store, insert_canonical, insert, conflict, to_json, canonicalize_and_validate,
  max_cached_dm_recipients, cache_full,
}
use oma_chat.Nostr.DmRelayCache.Canonical.{
  IsCanonicalRecord, canonicalize_and_validate-IsCanonicalRecord,
}

-- The cache's own representation: sorted keys, a bounded number, and under the key of a recipient
-- a canonical record of that recipient.
pub record IsCache (lib : EventLib) (urls : UrlLib) (cache : Cache) : Type 0 where
  pub sorted : IsSorted cache
  pub bounded : length cache ≤ max_cached_dm_recipients
  pub records :
      (key : Bytes) (r : VerifiedDmRelayRecord)
      → Assoc.lookup key cache ≡ some r
      → IsCanonicalRecord lib urls r × (key ≡ lib.hex_encode r.recipient_pubkey)

module _ (lib : EventLib) (urls : UrlLib) (json : CacheJson) where
  -- Either nothing changes, or the record is stored.
  store_cases :
      (cache : Cache) (key : Bytes) (r : VerifiedDmRelayRecord)
      → IsSorted cache
      → ((e : DmRelayCacheError) × (store lib urls json cache key r ≡ (cache, err e)))
        ⊎ (store lib urls json cache key r ≡ (Assoc.insert key r cache, ok stored))
  unfolding store
  store_cases cache key r s = elim (Result-cases (to_json json (Assoc.insert key r cache))) [
    | inl (encoded, e) ↦ inr (ground arith)
    | inr (x, e) ↦ elim (Option-cases (Assoc.lookup key cache)) [
      | inl absent ↦ inl (x, ground (arith, remove-insert key r cache))
      | inr (old, present) ↦ inl (x, ground (arith, insert-insert key r old cache))
    ]
  ]

-- The outcomes of an insertion that do not store.
data IsRefusal {ℓ} {E : Type ℓ} : Result E CacheMutation → Type ℓ where
  refused : (e : E) → IsRefusal (err e)
  same : IsRefusal (ok unchanged)

-- The record is newer than what stands under the key, if anything, and there is room for it.
record IsStorable (cache : Cache) (key : Bytes) (c : VerifiedDmRelayRecord) : Type 0 where
  newer :
      (old : VerifiedDmRelayRecord)
      → Assoc.lookup key cache ≡ some old
      → old.source_created_at < c.source_created_at
  room : Assoc.lookup key cache ≡ none → length cache < max_cached_dm_recipients

stored-IsRefusal :
    {E : Type 0} (answer : Result E CacheMutation) → IsRefusal answer → answer ≢ ok stored
stored-IsRefusal (err d) (refused e) h = cc
stored-IsRefusal (ok unchanged) same h = cc
stored-IsRefusal (ok stored) x h = elim x [ ]

conflict-IsRefusal :
    (c old : VerifiedDmRelayRecord) (answer : Result DmRelayCacheError CacheMutation)
    → conflict c old ≡ some answer
    → IsRefusal answer
unfolding conflict
conflict-IsRefusal c old (err e) h = refused e
conflict-IsRefusal c old (ok unchanged) h = same
conflict-IsRefusal c old (ok stored) h = ground arith

conflict-none :
    (c old : VerifiedDmRelayRecord)
    → conflict c old ≡ none
    → old.source_created_at < c.source_created_at
unfolding conflict
conflict-none c old h = ground arith

module _ (lib : EventLib) (urls : UrlLib) (json : CacheJson) where
  Kept : Cache → Cache × Result DmRelayCacheError CacheMutation → Type 0
  Kept cache outcome =
      (answer : Result DmRelayCacheError CacheMutation) × (outcome ≡ (cache, answer))
      × IsRefusal answer

  insert_canonical_cases :
      (cache : Cache) (key : Bytes) (c : VerifiedDmRelayRecord)
      → IsSorted cache
      → Kept cache (insert_canonical lib urls json cache key c)
        ⊎ ((insert_canonical lib urls json cache key c ≡ (Assoc.insert key c cache, ok stored))
            × IsStorable cache key c)
  unfolding insert_canonical Kept
  insert_canonical_cases cache key c s = elim (Option-cases (Assoc.lookup key cache)) [
    | inl absent ↦ elim (Bool-cases (leb max_cached_dm_recipients (length cache))) [
      | inl full ↦ inl (err cache_full, ground arith, refused cache_full)
      | inr room ↦ elim (store_cases lib urls json cache key c s) [
        | inl (e, kept) ↦ inl (err e, ground arith, refused e)
        | inr done ↦ inr (ground arith, record { newer = λ old h. cc; room = λ h. ground arith })
      ]
    ]
    | inr (old, present) ↦ elim (Option-cases (conflict c old)) [
      | inl nothing ↦ elim (store_cases lib urls json cache key c s) [
        | inl (e, kept) ↦ inl (err e, ground arith, refused e)
        | inr done ↦ inr (
          ground arith,
          record { newer = λ other h. ground (arith, conflict-none c old nothing); room = λ h. cc },
        )
      ]
      | inr (answer, found) ↦ inl (answer, ground arith, conflict-IsRefusal c old answer found)
    ]
  ]

module _ (lib : EventLib) (urls : UrlLib) (json : CacheJson) (cache : Cache)
    (r : VerifiedDmRelayRecord) where
  key_of : VerifiedDmRelayRecord → Bytes
  key_of c = lib.hex_encode c.recipient_pubkey

  -- The record `c` was stored.
  IsStored : VerifiedDmRelayRecord → Type 0
  IsStored c =
      (canonicalize_and_validate lib urls r ≡ ok c)
      × (insert lib urls json cache r ≡ (Assoc.insert (key_of c) c cache, ok stored))
      × IsStorable cache (key_of c) c

  insert_cases :
      IsSorted cache
      → Kept lib urls json cache (insert lib urls json cache r)
        ⊎ ((c : VerifiedDmRelayRecord) × IsStored c)
  unfolding insert Kept IsStored key_of
  insert_cases s = elim (Result-cases (canonicalize_and_validate lib urls r)) [
    | inl (c, valid) ↦
        elim (insert_canonical_cases lib urls json cache (lib.hex_encode c.recipient_pubkey) c s) [
          | inl (answer, kept, refusal) ↦ inl (answer, ground arith, refusal)
          | inr (done, storable) ↦ inr (c, (valid, ground arith, storable))
        ]
    | inr (e, invalid) ↦ inl (err e, ground arith, refused e)
  ]

  -- An insertion that fails, or that reports no change, leaves the cache exactly as it was.
  pub insert-unless_stored :
      IsSorted cache
      → (insert lib urls json cache r).1 ≢ ok stored
      → (insert lib urls json cache r).0 ≡ cache
  unfolding Kept IsStored
  insert-unless_stored s h = elim (insert_cases s) [
    | inl (answer, kept, refusal) ↦ cc
    | inr (c, (valid, done, storable)) ↦ absurd (h (ap (λ o. o.1) done))
  ]

  -- A successful insertion stores the canonical form of the record under its recipient, for the
  -- lookups of all other keys to stay as they are.
  pub insert-stored :
      IsSorted cache
      → (insert lib urls json cache r).1 ≡ ok stored
      → (c : VerifiedDmRelayRecord) × (canonicalize_and_validate lib urls r ≡ ok c)
        × ((key : Bytes)
            → Assoc.lookup key (insert lib urls json cache r).0 ≡ (
                if bytes_eq (lib.hex_encode c.recipient_pubkey) key
                then some c
                else Assoc.lookup key cache))
  unfolding Kept IsStored key_of
  insert-stored s h = elim (insert_cases s) [
    | inl (answer, kept, refusal) ↦ absurd (stored-IsRefusal answer refusal cc)
    | inr (c, (valid, done, storable)) ↦ (
      c,
      valid,
      λ key.
          ap (λ o. Assoc.lookup key o.0) done
          ∙ lookup-insert (lib.hex_encode c.recipient_pubkey) key c cache,
    )
  ]

  -- An insertion never loses a recipient, and never puts an older list in the place of a newer one.
  pub insert-newest :
      (key : Bytes) (old : VerifiedDmRelayRecord)
      → IsSorted cache
      → Assoc.lookup key cache ≡ some old
      → (new : VerifiedDmRelayRecord) × (Assoc.lookup key (insert lib urls json cache r).0
          ≡ some new)
        × ((new ≡ old) ⊎ (old.source_created_at < new.source_created_at))
  unfolding Kept IsStored key_of
  insert-newest key old s present = elim (insert_cases s) [
    | inl (answer, kept, refusal) ↦ (old, ap (λ o. Assoc.lookup key o.0) kept ∙ present, inl refl)
    | inr (c, (valid, done, storable)) ↦
        let there =
          ap (λ o. Assoc.lookup key o.0) done
          ∙ lookup-insert (lib.hex_encode c.recipient_pubkey) key c cache in
        elim (Bool-cases (bytes_eq (lib.hex_encode c.recipient_pubkey) key)) [
          | inl mine ↦
              let eq = (bytes_eq_iff _ _).0 mine in
              (
                c,
                rw (there, mine) refl,
                inr (storable.newer old (ap (λ k. Assoc.lookup k cache) eq ∙ present)),
              )
          | inr other ↦ (old, rw (there, other) present, inl refl)
        ]
  ]

  -- Insertion keeps the cache sorted, bounded, and full of canonical records under their own keys.
  pub insert-IsCache : IsCache lib urls cache → IsCache lib urls (insert lib urls json cache r).0
  unfolding Kept IsStored key_of
  insert-IsCache inv = elim (insert_cases inv.sorted) [
    | inl (answer, kept, refusal) ↦ subst (IsCache lib urls) (sym (ap (λ o. o.0) kept)) inv
    | inr (c, (valid, done, storable)) ↦
        subst (IsCache lib urls) (sym (ap (λ o. o.0) done)) (record {
          sorted = insert-IsSorted _ c cache inv.sorted;
          bounded = ground (
            arith,
            inv.bounded,
            storable.room,
            length-insert (lib.hex_encode c.recipient_pubkey) c cache inv.sorted,
          );
          records = λ key q h.
              elim (Bool-cases (bytes_eq (lib.hex_encode c.recipient_pubkey) key)) [
                | inl mine ↦
                    (let eq : c ≡ q =
                        ground
                          (arith, lookup-insert (lib.hex_encode c.recipient_pubkey) key c cache) in
                      subst
                        (λ q.
                          IsCanonicalRecord lib urls q × (key ≡ lib.hex_encode q.recipient_pubkey))
                        eq
                        (
                          (canonicalize_and_validate-IsCanonicalRecord lib urls r c valid).0,
                          sym ((bytes_eq_iff _ _).0 mine),
                        ))
                | inr other ↦
                    inv.records key q (
                      ground (arith, lookup-insert (lib.hex_encode c.recipient_pubkey) key c cache))
              ];
        })
  ]

pub empty-IsCache : (lib : EventLib) (urls : UrlLib) → IsCache lib urls []
unfolding Assoc.lookup
empty-IsCache lib urls = record { sorted = tt; bounded = omega arith; records = λ key r h. cc }
