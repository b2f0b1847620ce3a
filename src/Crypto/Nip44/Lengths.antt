-- ===== src/Crypto/Nip44/Lengths.antt =====
-- `calc_padded_len` of crates/omachat-crypto/src/nip44.rs: it is total on the lengths that
-- `pad` lets through, and bounded.
use native.Mathlib.Nat.{le_trans, pow-suc, div-add-mod, mod-lt}
use oma_chat.Base.{
  ok_or, ℕ, zero, suc, ◌+◌, ◌-◌, ◌*◌, ◌/◌, ◌^◌, ◌≤◌, ◌<◌, ◌≡◌, refl, ap, ◌∙◌, ◌⊎◌, inl, inr, false,
  some, ok, arith, leb, Bool-cases, u64_max, le→leb, leb→le,
}
use oma_chat.Crypto.Nip44.{
  power_from, checked_next_power_of_two, chunk_of, calc_padded_len, chunked_len, max_plaintext_len,
}

pow_pos : (k : ℕ) → 0 < 2 ^ k
pow_pos zero = omega arith
pow_pos (suc k) = omega (arith, pow-suc 2 k, pow_pos k)

doubled : (p f n : ℕ) → n ≤ p * 2 ^ suc f → n ≤ 2 * p * 2 ^ f
doubled p f n h = omega (arith, ap (λ (t : ℕ). p * t) (pow-suc 2 f))

-- With 2^f times the start at or above `n` the search ends at a power below twice `n`.
power_from_total :
    (f p n : ℕ)
    → n ≤ p * 2 ^ f
    → (q : ℕ) × (power_from (suc f) p n ≡ some q) × (n ≤ q) × ((q ≡ p) ⊎ (q < 2 * n))
unfolding power_from
power_from_total zero p n h = (p, rw (le→leb n p (omega arith)), omega arith, inl refl)
power_from_total (suc f) p n h = elim (Bool-cases (leb n p)) [
  | inl e ↦ (p, rw e, leb→le n p e, inl refl)
  | inr e ↦
      let (q, found, le, side) = power_from_total f (2 * p) n (doubled p f n h) in
      (q, rw e found, le, inr (ground arith))
]

checked_next_power_of_two_lem :
    (n : ℕ)
    → 1 < n
    → n ≤ max_plaintext_len
    → (q : ℕ) × (checked_next_power_of_two n ≡ some q) × (n ≤ q) × (q < 2 * n)
unfolding checked_next_power_of_two
checked_next_power_of_two_lem n h k =
    let (q, e, le, side) = power_from_total 63 1 n (omega arith) in (q, e, le, omega arith)

-- Above 4 the power that is found is eight times a number, and above 16 thirty-two times one.
power_from_pow : (f p n q : ℕ) → power_from f p n ≡ some q → (k : ℕ) × (q ≡ p * 2 ^ k)
unfolding power_from
power_from_pow zero p n q h = cc
power_from_pow (suc f) p n q h = elim (Bool-cases (leb n p)) [
  | inl e ↦ (0, ground arith)
  | inr e ↦
      let (k, found) = power_from_pow f (2 * p) n q (ground arith) in
      (suc k, omega (arith, ap (λ (t : ℕ). p * t) (pow-suc 2 k)))
]

-- While a later power suffices the search does not pass it.
power_from-le : (g f p n q : ℕ) → n ≤ p * 2 ^ g → power_from f p n ≡ some q → q ≤ p * 2 ^ g
unfolding power_from
power_from-le g zero p n q h e = cc
power_from-le zero (suc f) p n q h e = ground (arith, le→leb n p (omega arith))
power_from-le (suc g) (suc f) p n q h e = elim (Bool-cases (leb n p)) [
  | inl t ↦
      let two_pow_pos : 0 < 2 ^ suc g = pow_pos (suc g) in
      let same : p ≡ q = ground arith in grind arith
  | inr t ↦
      let le = power_from-le g f (2 * p) n q (doubled p g n h) (ground arith) in
      omega (arith, ap (λ (t : ℕ). p * t) (pow-suc 2 g))
]

pow_five : (k : ℕ) → 2 ^ suc (suc (suc (suc (suc k)))) ≡ 32 * 2 ^ k
pow_five k = simp pow-suc (omega arith)

divides_32 : (q t : ℕ) → q ≡ 32 * t → (d : ℕ) × (q ≡ chunk_of q * d)
divides_32 q t e = elim (Bool-cases (leb q 256)) [
  | inl small ↦ (t, rw small e)
  | inr large ↦ (8, rw large (omega arith))
]

chunk_divides :
    (q n : ℕ) → checked_next_power_of_two n ≡ some q → 32 < q → (d : ℕ) × (q ≡ chunk_of q * d)
unfolding checked_next_power_of_two
chunk_divides q n found h = let (k, e) = power_from_pow 64 1 n q found in go k (omega arith)
  where
    go : (k : ℕ) → q ≡ 2 ^ k → (d : ℕ) × (q ≡ chunk_of q * d)
    go zero e = absurd (omega arith)
    go (suc zero) e = absurd (omega arith)
    go (suc (suc zero)) e = absurd (omega arith)
    go (suc (suc (suc zero))) e = absurd (omega arith)
    go (suc (suc (suc (suc zero)))) e = absurd (omega arith)
    go (suc (suc (suc (suc (suc k))))) e = divides_32 q (2 ^ k) (e ∙ pow_five k)

round_up_le : (n c d : ℕ) → 0 < n → 0 < c → n ≤ c * d → ((n - 1) / c + 1) * c ≤ c * d
round_up_le n c d h k le =
    let low : c * ((n - 1) / c) < c * d = omega (arith, div-add-mod (n - 1) c) in
    let quotient : (n - 1) / c < d = grind arith in grind arith

round_up : (n c : ℕ) → 0 < n → 0 < c → (n ≤ ((n - 1) / c + 1) * c) × (((n - 1) / c + 1) * c < n + c)
round_up n c h k = (
  omega (arith, div-add-mod (n - 1) c, mod-lt (n - 1) k),
  omega (arith, div-add-mod (n - 1) c, mod-lt (n - 1) k),
)

chunk_of_bounds :
    (q n : ℕ) → q < 2 * n → 32 < q → (0 < chunk_of q) × ((chunk_of q ≡ 32) ⊎ (4 * chunk_of q < n))
chunk_of_bounds q n h k = (ground arith, ground arith)

chunked_len_lem :
    (n c : ℕ) → 0 < n → 0 < c → n + c ≤ u64_max → chunked_len n c ≡ some (((n - 1) / c + 1) * c)
unfolding chunked_len
chunked_len_lem n c h k fits =
    let fits' : ((n - 1) / c + 1) * c ≤ u64_max = omega (arith, round_up n c h k) in
    let below : (n - 1) / c + 1 ≤ ((n - 1) / c + 1) * c = grind arith in ground arith

padded-le :
    (n q : ℕ)
    → 0 < n
    → n ≤ max_plaintext_len
    → checked_next_power_of_two n ≡ some q
    → n ≤ q
    → 32 < q
    → 0 < chunk_of q
    → ((n - 1) / chunk_of q + 1) * chunk_of q ≤ max_plaintext_len
unfolding checked_next_power_of_two
padded-le n q h k found le large pos =
    let (d, e) = chunk_divides q n found large in
    let up = round_up_le n (chunk_of q) d h pos (rw (← e) le) in
    let cap = power_from-le 20 64 1 n q (omega arith) found in le_trans (rw (← e) at up) cap

abbrev Padded : ℕ → ℕ → Type 0
Padded n padded =
    (calc_padded_len n ≡ ok padded)
    × (32 ≤ padded)
    × (padded ≤ max_plaintext_len)
    × (n ≤ padded)
    × ((padded < n + 32) ⊎ (4 * padded ≤ 5 * n))

large_Padded :
    (n q c : ℕ)
    → leb n 32 ≡ false
    → n ≤ max_plaintext_len
    → checked_next_power_of_two n ≡ some q
    → c ≡ chunk_of q
    → 0 < c
    → (c ≡ 32) ⊎ (4 * c < n)
    → ((n - 1) / c + 1) * c ≤ max_plaintext_len
    → Padded n (((n - 1) / c + 1) * c)
unfolding calc_padded_len ok_or
large_Padded n q c large k found e pos side most =
    let up = round_up n c (ground arith) pos in
    (ground (arith, chunked_len_lem n c), ground arith, most, up.0, omega arith)

above_32 : (n : ℕ) → leb n 32 ≡ false → 32 < n
above_32 n h = ground arith

-- For a plaintext of 1 to 2^20 bytes the padded length exists, is at least 32, at most 2^20 and no
-- shorter than the plaintext, and exceeds it by less than 32 bytes or by at most a quarter.
pub calc_padded_len_bounds :
    (n : ℕ)
    → 0 < n
    → n ≤ max_plaintext_len
    → (padded : ℕ) × (calc_padded_len n ≡ ok padded)
      × (32 ≤ padded)
      × (padded ≤ max_plaintext_len)
      × (n ≤ padded)
      × ((padded < n + 32) ⊎ (4 * padded ≤ 5 * n))
unfolding calc_padded_len
calc_padded_len_bounds n h k = elim (Bool-cases (leb n 32)) [
  | inl small ↦ (32, ground arith, omega arith, omega arith, leb→le n 32 small, inl (omega arith))
  | inr large ↦
      let big : 32 < n = above_32 n large in
      let (q, found, le, below) = checked_next_power_of_two_lem n (omega arith) k in
      let wide : 32 < q = le_trans big le in
      let chunk = chunk_of_bounds q n below wide in
      let r =
        large_Padded n q (chunk_of q) large k found refl chunk.0 chunk.1
          (padded-le n q h k found le wide chunk.0) in
      (((n - 1) / chunk_of q + 1) * chunk_of q, r.0, r.1, r.2, r.3, r.4)
]
