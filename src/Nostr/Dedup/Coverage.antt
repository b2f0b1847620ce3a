-- ===== src/Nostr/Dedup/Coverage.antt =====
-- The memory of event ids of crates/omachat-nostr/src/pool.rs and dm_inbox.rs against the log of all
-- the ids that it has taken in, the latest in front.
use oma_chat.Base.{
  ℕ, suc, ◌+◌, ◌-◌, ◌≤◌, ◌<◌, ◌≡◌, refl, ◌⊎◌, ◌↔◌, inl, inr, List, [], ◌∷◌, ◌++◌, arith, ltb, leb,
  length, Bytes, Bool-cases,
}
use oma_chat.Nostr.Dedup.Window.{ids, Distinct, IsRecent, without-head, length-ids}
use oma_chat.Nostr.Dedup.{[], length, ◌++◌, ◌∷◌, Bytes, List, ℕ, without, expire, make_room}

-- The queue, from its back to its front, before the rest of the log.
abbrev pub revapp : List (ℕ × Bytes) → List (ℕ × Bytes) → List (ℕ × Bytes)
revapp [] rest = rest
revapp (entry ∷ order) rest = revapp order (entry ∷ rest)

pub revapp-snoc :
    (order rest : List (ℕ × Bytes)) (entry : ℕ × Bytes)
    → revapp (order ++ (entry ∷ [])) rest ≡ entry ∷ revapp order rest
revapp-snoc [] rest entry = refl
revapp-snoc (front ∷ order) rest entry = revapp-snoc order (front ∷ rest) entry

module _ (capacity ttl now : ℕ) where
  -- The id was taken in less than the time to live ago, and fewer than `capacity` ids were taken in
  -- since, counting `k` that the log does not hold.
  abbrev pub IsRemembered : Bytes → ℕ → List (ℕ × Bytes) → Type 0
  IsRemembered id k [] = ⊥
  IsRemembered id k ((taken_at, x) ∷ log) =
      ((x ≡ id) × (now - taken_at < ttl) × (k < capacity)) ⊎ IsRemembered id (suc k) log

  -- Every entry has outlived `ttl` or has `capacity` later ones.
  abbrev pub AllGone : ℕ → List (ℕ × Bytes) → Type 0
  AllGone k [] = Unit
  AllGone k ((taken_at, x) ∷ log) = ((ttl ≤ now - taken_at) ⊎ (capacity ≤ k)) × AllGone (suc k) log

  pub AllGone-weaken : (j k : ℕ) (log : List (ℕ × Bytes)) → j ≤ k → AllGone j log → AllGone k log
  AllGone-weaken j k [] h g = tt
  AllGone-weaken j k ((t, x) ∷ log) h g = (
    elim g.0 [ inl aged ↦ inl aged | inr many ↦ inr (omega arith) ],
    AllGone-weaken (suc j) (suc k) log (omega arith) g.1,
  )

  pub AllGone-not :
      (id : Bytes) (k : ℕ) (log : List (ℕ × Bytes)) → AllGone k log → ¬ IsRemembered id k log
  AllGone-not id k [] g r = r
  AllGone-not id k ((t, x) ∷ log) g r = elim r [
    | inl here ↦ elim g.0 [ inl aged ↦ omega arith | inr many ↦ omega arith ]
    | inr there ↦ AllGone-not id (suc k) log g.1 there
  ]

  -- Of a queue within the capacity, exactly what is recent is remembered.
  pub IsRemembered-revapp :
      (id : Bytes) (order rest : List (ℕ × Bytes)) (k : ℕ)
      → k + length order ≤ capacity
      → IsRemembered id k (revapp order rest)
        ↔ (IsRecent ttl now id order ⊎ IsRemembered id (k + length order) rest)
  IsRemembered-revapp id [] rest k h =
      let e : k + 0 ≡ k = omega arith in
      rw e (λ r. inr r, λ r. elim r [ inl none ↦ absurd none | inr r ↦ r ])
  IsRemembered-revapp id ((t, x) ∷ order) rest k h =
      let before = IsRemembered-revapp id order ((t, x) ∷ rest) k (omega arith) in
      let e : k + suc (length order) ≡ suc (k + length order) = omega arith in
      rw e (
        λ r. elim (before.0 r) [
          | inl recent ↦ inl (inr recent)
          | inr r ↦ elim r [ inl here ↦ inl (inl (here.0, here.1)) | inr gone ↦ inr gone ]
        ],
        λ r. before.1 (elim r [
          | inl recent ↦ elim recent [
            | inl here ↦ inr (inl (here.0, here.1, omega arith))
            | inr recent ↦ inl recent
          ]
          | inr gone ↦ inr (inr gone)
        ]),
      )

-- The queue holds the latest of the log, and what it no longer holds is old or has enough later
-- entries.
abbrev pub Covers : ℕ → ℕ → ℕ → List (ℕ × Bytes) → List (ℕ × Bytes) → Type 0
Covers capacity ttl now order log =
    (rest : List (ℕ × Bytes)) × (log ≡ revapp order rest)
    × AllGone capacity ttl now (length order) rest

pub Covers-later :
    (capacity ttl before now : ℕ) (k : ℕ) (rest : List (ℕ × Bytes))
    → before ≤ now
    → AllGone capacity ttl before k rest
    → AllGone capacity ttl now k rest
Covers-later capacity ttl before now k [] h g = tt
Covers-later capacity ttl before now k ((t, x) ∷ rest) h g = (
  elim g.0 [ inl aged ↦ inl (omega arith) | inr many ↦ inr many ],
  Covers-later capacity ttl before now (suc k) rest h g.1,
)

pub expire-Covers :
    (capacity ttl now : ℕ) (set : List Bytes) (order rest : List (ℕ × Bytes))
    → AllGone capacity ttl now (length order) rest
    → Covers capacity ttl now (expire ttl now set order).seen_order (revapp order rest)
unfolding expire
expire-Covers capacity ttl now set [] rest g = (rest, refl, g)
expire-Covers capacity ttl now set ((t, x) ∷ order) rest g = elim (Bool-cases (ltb (now - t) ttl)) [
  | inl young ↦ rw young (rest, refl, g)
  | inr aged ↦ rw aged (
      expire-Covers capacity ttl now (without set x) order ((t, x) ∷ rest)
        (inl (ground (arith, aged)), g))
]

module _ (capacity ttl now : ℕ) where
  pub make_room-Covers :
      (order rest : List (ℕ × Bytes))
      → Distinct (ids order)
      → AllGone capacity ttl now (suc (length order)) rest
      → (rest' : List (ℕ × Bytes)) × (revapp order rest
          ≡ revapp (make_room capacity (ids order) order).seen_order rest')
        × AllGone capacity ttl now
            (suc (length (make_room capacity (ids order) order).seen_order))
            rest'
  unfolding make_room
  make_room-Covers [] rest d g = (rest, refl, g)
  make_room-Covers ((t, x) ∷ order) rest d g =
      elim (Bool-cases (leb capacity (length (x ∷ ids order)))) [
        | inl full ↦
            rw (full, without-head x (ids order) d.0)
              (make_room-Covers order ((t, x) ∷ rest) d.1
                (inr (ground (arith, full, length-ids order)), g))
        | inr room ↦ rw room (rest, refl, g)
      ]
