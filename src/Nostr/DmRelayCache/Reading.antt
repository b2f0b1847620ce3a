-- ===== src/Nostr/DmRelayCache/Reading.antt =====
-- `lookup` and `from_json` of crates/omachat-nostr/src/dm_relay_cache.rs.
use oma_chat.Base.{
  ==_iff, not-eq-false, ltb_false→le, map_err-eq-ok, anyb, bytes_eq, false, ◌-◌, inr, map_err,
  Result, inl, Bool-cases, Option, ℕ, ◌≤◌, ◌<◌, ◌+◌, ◌≡◌, refl, none, some, List, [], ◌∷◌, ok,
  arith, leb, Bytes, >>=-elim, ok_or-elim, reject_if-elim, ok-injective, subst,
}
use oma_chat.Base.Assoc
use oma_chat.Nostr.Event.{EventLib, EventLimits}
use oma_chat.Nostr.Urls.{UrlLib}
use oma_chat.Nostr.Inbox.{DmInboxPolicy, VerifiedDmInbox, verify_dm_inbox}
use oma_chat.Nostr.DmRelayCache.{
  Cache, CacheJson, cache_format_version, PersistedDmRelayCache, VerifiedDmRelayRecord,
  PersistedDmRelayRecord, insert, restore, from_json, classify, lookup, missing, to_cache_record,
  DmRelayCacheError, invalid_source_event, stale_tolerant_policy, fresh, offline_stale,
  unusable_clock_rollback, DmRelayCacheLookup,
}
use oma_chat.Nostr.Inbox.Verified.{IsVerifiedInbox, verify_dm_inbox-IsVerifiedInbox}
use oma_chat.Nostr.DmRelayCache.Insert.{empty-IsCache, IsCache, insert-IsCache}

-- What each answer of a lookup says of the entry.
abbrev pub IsAnswer : DmRelayCacheLookup → Option VerifiedDmRelayRecord → ℕ → ℕ → Type 0
IsAnswer missing entry now window = entry ≡ none
IsAnswer (fresh r) entry now window =
    (entry ≡ some r) × (r.source_created_at ≤ now) × (now ≤ r.source_created_at + window)
IsAnswer (offline_stale r) entry now window =
    (entry ≡ some r) × (r.source_created_at + window < now)
IsAnswer (unusable_clock_rollback r) entry now window =
    (entry ≡ some r) × (now < r.source_created_at)

classify-IsAnswer :
    (entry : Option VerifiedDmRelayRecord) (now window : ℕ)
    → IsAnswer (classify entry now window) entry now window
unfolding classify
classify-IsAnswer none now window = refl
classify-IsAnswer (some r) now window = elim (Bool-cases (leb r.source_created_at now)) [
  | inl past ↦ elim (Bool-cases (leb (now - r.source_created_at) window)) [
    | inl young ↦ ground arith
    | inr aged ↦ ground arith
  ]
  | inr future ↦ ground arith
]

-- A lookup answers by the entry of the recipient: no entry, one that was made in the window before
-- now, one that is older than the window, or one that was made after now.
pub lookup-IsAnswer :
    (lib : EventLib) (cache : Cache) (recipient : Bytes) (now window : ℕ)
    → IsAnswer
        (lookup lib cache recipient now window)
        (Assoc.lookup (lib.hex_encode recipient) cache)
        now
        window
unfolding lookup
lookup-IsAnswer lib cache recipient now window =
    classify-IsAnswer (Assoc.lookup (lib.hex_encode recipient) cache) now window

module _ (lib : EventLib) (urls : UrlLib) (json : CacheJson) (now : ℕ) (event_limits : EventLimits)
    (policy : DmInboxPolicy) where
  abbrev verdict : PersistedDmRelayRecord → Bytes → Result DmRelayCacheError VerifiedDmInbox
  verdict p recipient =
      map_err (λ _. invalid_source_event)
        (verify_dm_inbox lib urls p.source_event recipient now event_limits
          (stale_tolerant_policy lib urls json now event_limits policy))

  restore-IsCache :
      (ps : List PersistedDmRelayRecord) (seen : List Bytes) (cache out : Cache)
      → restore lib urls json now event_limits policy ps seen cache ≡ ok out
      → IsCache lib urls cache
      → IsCache lib urls out
  unfolding restore
  restore-IsCache [] seen cache out h inv = subst (IsCache lib urls) (ok-injective h) inv
  restore-IsCache (p ∷ ps) seen cache out h inv = reject_if-elim _ _ _ h λ past h₁.
      ok_or-elim _ _ _ h₁ λ recipient decoded h₂. reject_if-elim _ _ _ h₂ λ unseen h₃.
        >>=-elim (verdict p recipient) _ h₃ λ verified v h₄.
          >>=-elim (to_cache_record lib urls verified p.verified_at) _ h₄ λ r made h₅.
            >>=-elim ((insert lib urls json cache r).1) _ h₅ λ mutation inserted rest.
              restore-IsCache ps (recipient ∷ seen) (insert lib urls json cache r).0 out rest
                (insert-IsCache lib urls json cache r inv)

  -- Each persisted record was verified no later than now, and its event is a verified relay list of
  -- a recipient whom no record before it and none of `seen` has.
  abbrev pub IsRestored : List Bytes → List PersistedDmRelayRecord → Type 0
  IsRestored seen [] = Unit
  IsRestored seen (p ∷ ps) =
      (p.verified_at ≤ now)
      × ((recipient : Bytes) × (lib.hex_decode 32 p.source_event.pubkey ≡ some recipient)
          × (anyb (λ k. bytes_eq k recipient) seen ≡ false)
          × ((verified : VerifiedDmInbox) × IsVerifiedInbox lib urls p.source_event recipient now
                event_limits (stale_tolerant_policy lib urls json now event_limits policy) verified)
          × IsRestored (recipient ∷ seen) ps)

  restore-IsRestored :
      (ps : List PersistedDmRelayRecord) (seen : List Bytes) (cache out : Cache)
      → restore lib urls json now event_limits policy ps seen cache ≡ ok out
      → IsRestored seen ps
  unfolding restore
  restore-IsRestored [] seen cache out h = tt
  restore-IsRestored (p ∷ ps) seen cache out h = reject_if-elim _ _ _ h λ past h₁.
      ok_or-elim _ _ _ h₁ λ recipient decoded h₂. reject_if-elim _ _ _ h₂ λ unseen h₃.
        >>=-elim (verdict p recipient) _ h₃ λ verified v h₄.
          >>=-elim (to_cache_record lib urls verified p.verified_at) _ h₄ λ r made h₅.
            >>=-elim ((insert lib urls json cache r).1) _ h₅ λ mutation inserted rest. (
              ltb_false→le _ _ past,
              (
                recipient,
                decoded,
                unseen,
                (
                  verified,
                  verify_dm_inbox-IsVerifiedInbox lib urls p.source_event recipient now event_limits
                      (stale_tolerant_policy lib urls json now event_limits policy) verified
                      (map_err-eq-ok _ _ v),
                ),
                restore-IsRestored ps (recipient ∷ seen) (insert lib urls json cache r).0 out rest,
              ),
            )

  -- A cache that is read back satisfies the invariant of the caches that are built by insertion. The
  -- bytes hold a persisted cache of the version that is written, each record of which was verified no
  -- later than now and has an event that is a verified relay list of its author, of any age; no
  -- author has two.
  pub from_json-IsCache :
      (encoded : Bytes) (cache : Cache)
      → from_json lib urls json now event_limits policy encoded ≡ ok cache
      → IsCache lib urls cache
        × ((persisted : PersistedDmRelayCache) × (json.from_slice encoded ≡ some persisted)
            × (persisted.version ≡ cache_format_version)
            × IsRestored [] persisted.records)
  unfolding from_json
  from_json-IsCache encoded cache h = reject_if-elim _ _ _ h λ small h₁.
      ok_or-elim _ _ _ h₁ λ parsed p h₂. reject_if-elim _ _ _ h₂ λ version h₃.
        reject_if-elim _ _ _ h₃ λ few rest. (
          restore-IsCache parsed.records [] [] cache rest (empty-IsCache lib urls),
          (
            parsed,
            p,
            (==_iff _ _).0 (not-eq-false _ version),
            restore-IsRestored parsed.records [] [] cache rest,
          ),
        )
