-- ===== src/Nostr/Discovery/Merging.antt =====
-- Merging keeps the relays of crates/omachat-nostr/src/discovery.rs distinct and bounded.
use oma_chat.Base.{
  inl, inr, subst, ◌∙◌, Bool-cases, Option-cases, ℕ, ◌≤◌, ◌≡◌, refl, Bool, true, false, ◌||◌, none,
  some, List, [], ◌∷◌, ◌++◌, ok, arith, leb, length, All, Bytes, bytes_eq, bytes_eq_iff,
  length-append, All-append, anyb,
}
use oma_chat.Nostr.Discovery.{RelayPreference, RelayDiscoveryLimits, add_flags, merge_url}

abbrev pub contains_url : Bytes → List RelayPreference → Bool
contains_url url relays = anyb (λ (r : RelayPreference). bytes_eq r.url url) relays

-- No two entries have the same address.
abbrev pub Distinct : List RelayPreference → Type 0
Distinct [] = Unit
Distinct (r ∷ relays) = (contains_url r.url relays ≡ false) × Distinct relays

-- Every address has the property `P`, no address stands twice, and there are at most `max`.
pub record IsRelaySet (P : Bytes → Type 0) (max : ℕ) (relays : List RelayPreference) : Type 0 where
  pub distinct : Distinct relays
  pub bounded : length relays ≤ max
  pub urls : All (λ (r : RelayPreference). P r.url) relays

module _ (url : Bytes) (read write : Bool) where
  -- Merging into an entry changes no address.
  add_flags-urls :
      (v : Bytes) (relays merged : List RelayPreference)
      → add_flags url read write relays ≡ some merged
      → (contains_url v merged ≡ contains_url v relays) × (length merged ≡ length relays)
  unfolding add_flags anyb
  add_flags-urls v [] merged h = cc
  add_flags-urls v (r ∷ relays) merged h = elim (Option-cases (add_flags url read write relays)) [
    | inl e ↦ (ground arith, ground arith)
    | inr (rest, e) ↦ let ih = add_flags-urls v relays rest e in (ground arith, ground arith)
  ]

  add_flags_self :
      (relays merged : List RelayPreference)
      → add_flags url read write relays ≡ some merged
      → contains_url url merged ≡ true
  unfolding add_flags anyb
  add_flags_self [] merged h = cc
  add_flags_self (r ∷ relays) merged h = elim (Option-cases (add_flags url read write relays)) [
    | inl e ↦ ground arith
    | inr (rest, e) ↦ let ih = add_flags_self relays rest e in ground arith
  ]

  add_flags-none :
      (relays : List RelayPreference)
      → add_flags url read write relays ≡ none
      → contains_url url relays ≡ false
  unfolding add_flags anyb
  add_flags-none [] h = refl
  add_flags-none (r ∷ relays) h = ground (arith, add_flags-none relays)

  add_flags-keeps :
      (P : Bytes → Type 0) (relays merged : List RelayPreference)
      → add_flags url read write relays ≡ some merged
      → Distinct relays
      → All (λ (r : RelayPreference). P r.url) relays
      → Distinct merged × All (λ (r : RelayPreference). P r.url) merged
  unfolding add_flags
  add_flags-keeps P [] merged h d a = cc
  add_flags-keeps P (r ∷ relays) merged h d a = elim (Bool-cases (bytes_eq r.url url)) [
    | inl same ↦
        let made : record r { read = r.read || read; write = r.write || write } ∷ relays ≡ merged =
          ground arith in
        subst (λ m. Distinct m × All (λ (q : RelayPreference). P q.url) m) made (d, a)
    | inr other ↦ elim (Option-cases (add_flags url read write relays)) [
      | inl e ↦ absurd (ground arith)
      | inr (rest, e) ↦
          let ih = add_flags-keeps P relays rest e d.1 a.1 in
          let urls = add_flags-urls r.url relays rest e in
          let made : r ∷ rest ≡ merged = ground arith in
          subst (λ m. Distinct m × All (λ (q : RelayPreference). P q.url) m) made
            ((urls.0 ∙ d.0, ih.0), (a.0, ih.1))
    ]
  ]

contains_url-append :
    (v : Bytes) (relays : List RelayPreference) (r : RelayPreference)
    → contains_url v (relays ++ r ∷ []) ≡ (contains_url v relays || bytes_eq r.url v)
unfolding anyb
contains_url-append v [] r = ground arith
contains_url-append v (q ∷ relays) r = ground (arith, contains_url-append v relays r)

Distinct-append :
    (relays : List RelayPreference) (r : RelayPreference)
    → Distinct relays
    → contains_url r.url relays ≡ false
    → Distinct (relays ++ r ∷ [])
unfolding anyb
Distinct-append [] r d h = (refl, tt)
Distinct-append (q ∷ relays) r d h = (
  ground (
    arith,
    contains_url-append q.url relays r,
    bytes_eq_iff q.url r.url,
    bytes_eq_iff r.url q.url,
  ),
  Distinct-append relays r d.1 (ground arith),
)

module _ (P : Bytes → Type 0) (limits : RelayDiscoveryLimits) where
  -- A relay set with the address and with all that the relays before had.
  abbrev pub Extends : List RelayPreference → Bytes → List RelayPreference → Type 0
  Extends relays url merged =
      IsRelaySet P limits.max_relays merged
      × (contains_url url merged ≡ true)
      × ((v : Bytes) → contains_url v relays ≡ true → contains_url v merged ≡ true)

  -- One merge keeps the set, keeps what it contains and contains the merged address.
  pub merge_url-IsRelaySet :
      (relays merged : List RelayPreference) (url : Bytes) (read write : Bool)
      → merge_url relays url read write limits ≡ ok merged
      → IsRelaySet P limits.max_relays relays
      → P url
      → Extends relays url merged
  unfolding merge_url
  merge_url-IsRelaySet relays merged url read write h s p =
      elim (Option-cases (add_flags url read write relays)) [
        | inl e ↦
            let room : leb limits.max_relays (length relays) ≡ false = ground arith in
            let r : RelayPreference = record { url = url; read = read; write = write } in
            let made : relays ++ r ∷ [] ≡ merged = ground arith in
            subst (Extends relays url) made (
              record {
                distinct =
                    Distinct-append relays r s.distinct (add_flags-none url read write relays e);
                bounded = ground (arith, length-append relays (r ∷ []), s.bounded);
                urls = All-append (λ (q : RelayPreference). P q.url) relays (r ∷ []) s.urls (p, tt);
              },
              ground (arith, contains_url-append url relays r, bytes_eq_iff url url),
              λ v c. ground (arith, contains_url-append v relays r),
            )
        | inr (rest, e) ↦
            let made : rest ≡ merged = ground arith in
            let kept = add_flags-keeps url read write P relays rest e s.distinct s.urls in
            let urls = add_flags-urls url read write url relays rest e in
            subst (Extends relays url) made (
              record { distinct = kept.0; bounded = rw urls.1 s.bounded; urls = kept.1 },
              add_flags_self url read write relays rest e,
              λ v c. (add_flags-urls url read write v relays rest e).0 ∙ c,
            )
      ]
