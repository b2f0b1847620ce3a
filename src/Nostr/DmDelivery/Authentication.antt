-- ===== src/Nostr/DmDelivery/Authentication.antt =====
-- Which relays crates/omachat-nostr/src/dm_delivery.rs takes for authenticated, and that it publishes
-- to no others.
use oma_chat.Base.{
  ◌≢◌, All-map, Result-cases, bytes_eq_iff, ◌⊎◌, ℕ, ◌≤◌, ◌≡◌, refl, Bool, true, false, not, ◌&&◌,
  ◌||◌, ◌==◌, ==_iff, Option, some, none, List, [], ◌∷◌, ok, err, Result, arith, ltb, length, anyb,
  filterb, Bytes, bytes_eq, Bool-cases, inl, inr, subst, sym, ap, ◌∙◌, All, map_err-eq-ok,
  ltb_false→le, get_elem?, ltb→lt, ◌<◌,
}
use oma_chat.Nostr.Pool.{
  PoolNotification, PoolPublishResult, RelayNotification, authenticated, authentication_rejected,
  is_disconnected, is_connected, event, end_of_stored_events, closed, notice, auth_challenge,
  has_index, RelayPublishOutcome, RelayPool, RelayConnection, is_healthy, accepted_of,
}
use oma_chat.Nostr.Pool.Publishing.{publish_to_indices-IsPublished}
use oma_chat.Nostr.DmDelivery.{
  RoutedDmPublishPlan, AuthenticatedRelayState, AuthenticatedDmDelivery, DmDeliveryError,
  without_index, with_index, apply, await_quorum, wait_until_authenticated, publish,
}

-- The notification authenticates `key` at the relay `i`.
abbrev pub confirms : Bytes → ℕ → PoolNotification → Bool
confirms key i n =
    (n.relay_index == i) && (elim n.notification [ authenticated k ↦ bytes_eq k key | _ ↦ false ])

-- The notification ends what the relay `i` has authenticated.
abbrev pub drops : ℕ → PoolNotification → Bool
drops i n = (n.relay_index == i) && (elim n.notification [
  | authentication_rejected k m ↦ true
  | is_disconnected ↦ true
  | _ ↦ false
])

-- In a history, latest first, `i` has authenticated `key`, and nothing has ended that since.
unfoldable pub is_live : Bytes → ℕ → List PoolNotification → Bool
is_live key i [] = false
is_live key i (n ∷ past) = confirms key i n || (not (drops i n) && is_live key i past)

abbrev pub Distinct : List ℕ → Type 0
Distinct [] = Unit
Distinct (i ∷ indices) = (has_index i indices ≡ false) × Distinct indices

-- Every relay in the set is live, and stands in it once.
pub record IsTracked (key : Bytes) (past : List PoolNotification) (st : AuthenticatedRelayState)
    : Type 0 where
  pub expected : st.expected_public_key ≡ key
  pub distinct : Distinct st.authenticated_relays
  pub live : (i : ℕ) → has_index i st.authenticated_relays ≡ true → is_live key i past ≡ true

has_index-without :
    (i j : ℕ) (s : List ℕ) → has_index i (without_index j s) ≡ (not (i == j) && has_index i s)
unfolding filterb anyb
has_index-without i j [] = ground arith
has_index-without i j (k ∷ s) = ground (arith, has_index-without i j s)

has_index-with : (i j : ℕ) (s : List ℕ) → has_index i (with_index j s) ≡ ((j == i) || has_index i s)
unfolding anyb
has_index-with i j s = ground (arith, ==_iff j i)

without-Distinct : (j : ℕ) (s : List ℕ) → Distinct s → Distinct (without_index j s)
unfolding filterb
without-Distinct j [] d = tt
without-Distinct j (k ∷ s) d = ground (arith, has_index-without k j s, without-Distinct j s d.1)

with-Distinct : (j : ℕ) (s : List ℕ) → Distinct s → Distinct (with_index j s)
with-Distinct j s d = ground arith

abbrev at : ℕ → RelayNotification → PoolNotification
at i n = record { relay_index = i; notification = n }

-- What neither confirms nor drops anything leaves everything live.
IsTracked-same :
    (key : Bytes) (past : List PoolNotification) (st : AuthenticatedRelayState)
    (n : PoolNotification)
    → ((i : ℕ) → drops i n ≡ false)
    → IsTracked key past st
    → IsTracked key (n ∷ past) st
unfolding is_live
IsTracked-same key past st n h t = record {
  expected = t.expected;
  distinct = t.distinct;
  live = λ i there. ground (arith, h i, t.live i there);
}

IsTracked-without :
    (key : Bytes) (past : List PoolNotification) (st : AuthenticatedRelayState) (j : ℕ)
    (n : RelayNotification)
    → IsTracked key past st
    → IsTracked key
        (at j n ∷ past)
        (record st { authenticated_relays = without_index j st.authenticated_relays })
unfolding is_live
IsTracked-without key past st j n t = record {
  expected = t.expected;
  distinct = without-Distinct j st.authenticated_relays t.distinct;
  live = λ i there.
      ground
        (arith, has_index-without i j st.authenticated_relays, t.live i, ==_iff i j, ==_iff j i);
}

IsTracked-with :
    (key : Bytes) (past : List PoolNotification) (st : AuthenticatedRelayState) (j : ℕ)
    → IsTracked key past st
    → IsTracked key
        (at j (authenticated key) ∷ past)
        (record st { authenticated_relays = with_index j st.authenticated_relays })
unfolding is_live
IsTracked-with key past st j t = record {
  expected = t.expected;
  distinct = with-Distinct j st.authenticated_relays t.distinct;
  live = λ i there.
      ground (arith, has_index-with i j st.authenticated_relays, t.live i, bytes_eq_iff key key);
}

apply-IsTracked :
    (key : Bytes) (past : List PoolNotification) (st : AuthenticatedRelayState) (j : ℕ)
    (n : RelayNotification)
    → IsTracked key past st
    → (apply st j n).1 ≡ ok tt
    → IsTracked key (at j n ∷ past) (apply st j n).0
unfolding apply
apply-IsTracked key past st j (authenticated k) t h =
    elim (Bool-cases (bytes_eq k st.expected_public_key)) [
      | inl same ↦ rw same (
          subst
            (λ k.
              IsTracked key (at j (authenticated k) ∷ past)
                (record st { authenticated_relays = with_index j st.authenticated_relays }))
            (sym ((bytes_eq_iff _ _).0 same ∙ t.expected)) (IsTracked-with key past st j t))
      | inr other ↦ ground arith
    ]
apply-IsTracked key past st j (authentication_rejected k m) t h =
    IsTracked-without key past st j _ t
apply-IsTracked key past st j is_disconnected t h = IsTracked-without key past st j _ t
apply-IsTracked key past st j is_connected t h = IsTracked-same key past st _ (λ i. ground arith) t
apply-IsTracked key past st j (event s e) t h = IsTracked-same key past st _ (λ i. ground arith) t
apply-IsTracked key past st j (end_of_stored_events s) t h =
    IsTracked-same key past st _ (λ i. ground arith) t
apply-IsTracked key past st j (closed s m) t h = IsTracked-same key past st _ (λ i. ground arith) t
apply-IsTracked key past st j (notice m) t h = IsTracked-same key past st _ (λ i. ground arith) t
apply-IsTracked key past st j (auth_challenge m) t h =
    IsTracked-same key past st _ (λ i. ground arith) t

-- `history` is `past` with the arrivals that a wait in the state `st` reads put before it, one after
-- the other: it reads on exactly while fewer relays than are required stand in its set.
abbrev pub IsHistory :
    ℕ
    → AuthenticatedRelayState
    → List PoolNotification
    → List (Option PoolNotification)
    → List PoolNotification
    → Type 0
IsHistory required st past [] history =
    (required ≤ length st.authenticated_relays) × (history ≡ past)
IsHistory required st past (none ∷ arrivals) history =
    (required ≤ length st.authenticated_relays) × (history ≡ past)
IsHistory required st past (some n ∷ arrivals) history =
    ((required ≤ length st.authenticated_relays) × (history ≡ past))
    ⊎ ((length st.authenticated_relays < required)
        × IsHistory required (apply st n.relay_index n.notification).0 (n ∷ past) arrivals history)

-- The end of a successful wait.
abbrev pub IsAwaited :
    Bytes
    → ℕ
    → List PoolNotification
    → List (Option PoolNotification)
    → AuthenticatedRelayState
    → AuthenticatedRelayState
    → Type 0
IsAwaited key required past arrivals before st =
    (required ≤ length st.authenticated_relays)
    × ((history : List PoolNotification) × IsHistory required before past arrivals history
        × IsTracked key history st)

module _ (required : ℕ) (st : AuthenticatedRelayState) (n : PoolNotification)
    (arrivals : List (Option PoolNotification))
    (few : ltb (length st.authenticated_relays) required ≡ true) where
  await_quorum-go :
      (apply st n.relay_index n.notification).1 ≡ ok tt
      → await_quorum required st (some n ∷ arrivals)
        ≡ await_quorum required (apply st n.relay_index n.notification).0 arrivals
  unfolding await_quorum
  await_quorum-go fine = rw (few, fine) refl

  await_quorum-stop :
      (e : DmDeliveryError)
      → (apply st n.relay_index n.notification).1 ≡ err e
      → (await_quorum required st (some n ∷ arrivals)).1 ≡ err e
  unfolding await_quorum
  await_quorum-stop e failed = rw (few, failed) refl

ok-≢-err : {e : DmDeliveryError} → ◌≢◌ {A = Result DmDeliveryError (Unit {0})} (ok tt) (err e)
ok-≢-err h = cc

await_quorum-IsAwaited :
    (key : Bytes) (required : ℕ) (past : List PoolNotification) (st : AuthenticatedRelayState)
    (arrivals : List (Option PoolNotification))
    → IsTracked key past st
    → (await_quorum required st arrivals).1 ≡ ok tt
    → IsAwaited key required past arrivals st (await_quorum required st arrivals).0
unfolding await_quorum
await_quorum-IsAwaited key required past st [] t h =
    elim (Bool-cases (ltb (length st.authenticated_relays) required)) [
      | inl few ↦ ground arith
      | inr enough ↦ let full = ltb_false→le _ _ enough in rw enough (full, (past, (full, refl), t))
    ]
await_quorum-IsAwaited key required past st (none ∷ arrivals) t h =
    elim (Bool-cases (ltb (length st.authenticated_relays) required)) [
      | inl few ↦ ground arith
      | inr enough ↦ let full = ltb_false→le _ _ enough in rw enough (full, (past, (full, refl), t))
    ]
await_quorum-IsAwaited key required past st (some n ∷ arrivals) t h =
    elim (Bool-cases (ltb (length st.authenticated_relays) required)) [
      | inl few ↦ elim (Result-cases (apply st n.relay_index n.notification).1) [
        | inl (u, fine) ↦
            let go = await_quorum-go required st n arrivals few fine in
            let next = (apply st n.relay_index n.notification).0 in
            let ih =
              await_quorum-IsAwaited key required (n ∷ past) next arrivals
                (apply-IsTracked key past st n.relay_index n.notification t fine)
                (ap (λ o. o.1) (sym go) ∙ h) in
            subst (λ o. IsAwaited key required past (some n ∷ arrivals) st o.0) (sym go)
              (ih.0, (ih.1.0, inr (ltb→lt _ _ few, ih.1.1), ih.1.2))
        | inr (e, failed) ↦
            absurd (ok-≢-err (sym h ∙ await_quorum-stop required st n arrivals few e failed))
      ]
      | inr enough ↦
          let full = ltb_false→le _ _ enough in rw enough (full, (past, inl (full, refl), t))
    ]

module _ (d : AuthenticatedDmDelivery) (key : Bytes) (timeout : ℕ)
    (arrivals : List (Option PoolNotification)) where
  -- The delivery after the wait.
  abbrev pub waited : AuthenticatedDmDelivery
  waited = (wait_until_authenticated d timeout arrivals).0

  wait_run :
      (timeout == 0) ≡ false
      → wait_until_authenticated d timeout arrivals ≡ (
        record d {
          authentication =
              (await_quorum d.plan.required_acknowledgements d.authentication arrivals).0;
        },
        (await_quorum d.plan.required_acknowledgements d.authentication arrivals).1,
      )
  unfolding wait_until_authenticated
  wait_run some_time = rw some_time refl

  wait-IsAwaited :
      IsTracked key [] d.authentication
      → (wait_until_authenticated d timeout arrivals).1 ≡ ok tt
      → IsAwaited key d.plan.required_acknowledgements [] arrivals d.authentication
          waited.authentication
        × (waited.pool ≡ d.pool)
        × (waited.plan ≡ d.plan)
  unfolding wait_until_authenticated
  wait-IsAwaited t h = elim (Bool-cases (timeout == 0)) [
    | inl zero_timeout ↦ ground arith
    | inr some_time ↦
        let run = wait_run some_time in
        subst
          (λ o.
            IsAwaited key d.plan.required_acknowledgements [] arrivals d.authentication
              o.0.authentication
            × (o.0.pool ≡ d.pool)
            × (o.0.plan ≡ d.plan))
          (sym run)
          (
            await_quorum-IsAwaited key d.plan.required_acknowledgements [] d.authentication arrivals
                t (ap (λ o. o.1) (sym run) ∙ h),
            refl,
            refl,
          )
  ]

  -- The outcome is what a healthy connection of the pool answered to the event, under its index,
  -- whose relay had authenticated the key and had not ended that since.
  abbrev pub IsFromLive :
      RelayPool → RoutedDmPublishPlan → List PoolNotification → RelayPublishOutcome → Type 0
  IsFromLive pool plan history o =
      (is_live key o.relay_index history ≡ true)
      × ((c : RelayConnection) × (get_elem? pool.connections o.relay_index ≡ some c)
          × (is_healthy c ≡ true)
          × (o.result ≡ c.publish plan.event))

  -- What is published after a wait that took `history` in.
  abbrev pub IsDelivered :
      RelayPool → RoutedDmPublishPlan → List PoolNotification → PoolPublishResult → Type 0
  IsDelivered pool plan history r =
      (plan.required_acknowledgements ≤ r.accepted)
      × (r.accepted ≡ accepted_of r.outcomes)
      × All (IsFromLive pool plan history) r.outcomes

  delivered :
      (r : PoolPublishResult) (history : List PoolNotification)
      → IsTracked key history waited.authentication
      → publish waited ≡ ok r
      → IsDelivered waited.pool waited.plan history r
  unfolding publish
  delivered r history tracked p =
      let (selection, published) =
        publish_to_indices-IsPublished waited.pool waited.plan.event
          waited.authentication.authenticated_relays waited.plan.required_acknowledgements r
          (map_err-eq-ok _ _ p) in
      (
        published.enough,
        published.counted,
        All-map
            (λ o (c, at_index, chosen, healthy, answer).
              (tracked.live o.relay_index chosen, (c, at_index, healthy, answer)))
            r.outcomes published.outcomes,
      )

  -- For a delivery to the expected key that has no relay in its set yet, a wait that succeeds and then a publication that succeeds: in the order of the notifications that the wait
  -- read, which are the arrivals up to the first after which its set had as many relays as the plan
  -- requires, every relay that was asked to publish had authenticated the expected key and had
  -- neither disconnected nor rejected it since; each outcome is the answer of a healthy connection to
  -- the plan's event; and the number of positive answers is at least what the plan asks for.
  pub publish-IsFromLive :
      (r : PoolPublishResult)
      → IsTracked key [] d.authentication
      → (wait_until_authenticated d timeout arrivals).1 ≡ ok tt
      → publish waited ≡ ok r
      → (history : List PoolNotification) × IsHistory d.plan.required_acknowledgements
          d.authentication [] arrivals history
        × IsDelivered d.pool d.plan history r
  publish-IsFromLive r t h p =
      let ((quorum, (history, began, tracked)), same_pool, same_plan) = wait-IsAwaited t h in
      (
        history,
        began,
        subst (λ plan. IsDelivered d.pool plan history r) same_plan
            (subst (λ pool. IsDelivered pool waited.plan history r) same_pool
              (delivered r history tracked p)),
      )
