-- ===== src/Crypto/Nip44/Padding.antt =====
-- The round trip of `pad` and `unpad` of crates/omachat-crypto/src/nip44.rs.
use mathlib.Core.List.{append_assoc}
use oma_chat.Base.{
  reject_if-elim, ok_or, reject_if, ℕ, zero, suc, ◌+◌, ◌-◌, ◌*◌, ◌/◌, ◌%◌, ◌≤◌, ◌<◌, ◌≡◌, refl, ap,
  inl, inr, [], ◌∷◌, ◌++◌, ok, arith, leb, length, take, drop, replicate, Bytes, Bool-cases,
  length-append, length-replicate, take-append, drop-append, leb→le,
}
use oma_chat.Crypto.Nip44.{
  prefix_width, calc_padded_len, pad, unpad, read_prefix, max_plaintext_len,
  extended_prefix_threshold, prefix_of, resize, u16_be_bytes, u32_be_bytes,
}
use oma_chat.Crypto.Nip44.Lengths.{calc_padded_len_bounds}

take-length : (n : ℕ) (v : Bytes) → length v ≤ n → take n v ≡ v
unfolding take
take-length zero [] h = refl
take-length zero (x ∷ v) h = absurd (omega arith)
take-length (suc n) [] h = refl
take-length (suc n) (x ∷ v) h = ap (◌∷◌ x) (take-length n v (omega arith))

read_prefix_short :
    (n : ℕ) (rest : Bytes)
    → 0 < n
    → n < extended_prefix_threshold
    → read_prefix (u16_be_bytes n ++ rest) ≡ ok (2, n)
unfolding read_prefix reject_if
read_prefix_short n rest h k =
    let e : 256 * (n / 256 % 256) + n % 256 ≡ n = omega arith in rw e (ground arith)

read_prefix_long :
    (n : ℕ) (rest : Bytes)
    → extended_prefix_threshold ≤ n
    → n ≤ max_plaintext_len
    → read_prefix (0 ∷ 0 ∷ (u32_be_bytes n ++ rest)) ≡ ok (6, n)
unfolding read_prefix reject_if
read_prefix_long n rest h k =
    let e : 16777216 * (n / 16777216 % 256)
          + 65536 * (n / 65536 % 256)
          + 256 * (n / 256 % 256)
          + n % 256
        ≡ n =
      omega arith in
    rw e (ground arith)

-- The steps of `unpad` behind a prefix that has been read.
unpad_steps :
    (p n padded : ℕ) (v w plaintext : Bytes)
    → read_prefix v ≡ ok (p, n)
    → calc_padded_len n ≡ ok padded
    → length v ≡ p + padded
    → drop p v ≡ w
    → take n w ≡ plaintext
    → p ≤ 6
    → n ≤ max_plaintext_len
    → n ≤ padded
    → padded ≤ 4 * max_plaintext_len
    → unpad v ≡ ok plaintext
unfolding unpad reject_if ok_or
unpad_steps p n padded v w pt read calc total dropped taken six k le cap =
    let width : p + n - p ≡ n = omega arith in rw (read, calc) (ground arith)

unpad_framed :
    (p padded : ℕ) (prefix plaintext zeros : Bytes)
    → length prefix ≡ p
    → p ≤ 6
    → length plaintext ≤ max_plaintext_len
    → length plaintext ≤ padded
    → padded ≤ 4 * max_plaintext_len
    → length zeros + length plaintext ≡ padded
    → calc_padded_len (length plaintext) ≡ ok padded
    → read_prefix (prefix ++ (plaintext ++ zeros)) ≡ ok (p, length plaintext)
    → unpad (prefix ++ (plaintext ++ zeros)) ≡ ok plaintext
unpad_framed p padded prefix pt zeros lp six k le cap lz calc read =
    unpad_steps p (length pt) padded (prefix ++ (pt ++ zeros)) (pt ++ zeros) pt read calc
      (omega (arith, length-append prefix (pt ++ zeros), length-append pt zeros))
      (rw (← lp) (drop-append prefix (pt ++ zeros))) (take-append pt zeros) six k le cap

prefix_width_bounds : (n : ℕ) → (2 ≤ prefix_width n) × (prefix_width n ≤ 6)
prefix_width_bounds n = (ground arith, ground arith)

length-prefix_of : (n : ℕ) → length (prefix_of n) ≡ prefix_width n
length-prefix_of n = ground arith

read_prefix-prefix_of :
    (n : ℕ) (rest : Bytes)
    → 0 < n
    → n ≤ max_plaintext_len
    → read_prefix (prefix_of n ++ rest) ≡ ok (prefix_width n, n)
read_prefix-prefix_of n rest h k = elim (Bool-cases (leb extended_prefix_threshold n)) [
  | inl long ↦ rw long (read_prefix_long n rest (leb→le _ n long) k)
  | inr short ↦ rw short (read_prefix_short n rest h (ground arith))
]

resize-append :
    (p n : ℕ) (prefix plaintext : Bytes)
    → length prefix ≡ p
    → length plaintext ≤ n
    → resize (p + n) (prefix ++ plaintext)
      ≡ prefix ++ (plaintext ++ replicate (n - length plaintext) 0)
resize-append p n prefix pt lp le =
    let size : length (prefix ++ pt) ≡ p + length pt = omega (arith, length-append prefix pt) in
    let rest : p + n - length (prefix ++ pt) ≡ n - length pt = omega arith in
    rw (take-length (p + n) (prefix ++ pt) (omega arith), rest) (append_assoc prefix pt _)

-- The shape of a padded plaintext.
pub pad_lem :
    (plaintext : Bytes) (padded : ℕ)
    → 0 < length plaintext
    → length plaintext ≤ max_plaintext_len
    → calc_padded_len (length plaintext) ≡ ok padded
    → length plaintext ≤ padded
    → pad plaintext
      ≡ ok (prefix_of (length plaintext) ++ (plaintext ++ replicate (padded - length plaintext) 0))
unfolding pad reject_if
pad_lem pt padded h k calc le = rw calc (
    ground (
      arith,
      resize-append (prefix_width (length pt)) padded (prefix_of (length pt)) pt
          (length-prefix_of (length pt)) le,
    ))

-- For a plaintext of 1 to 2^20 bytes `pad` succeeds, its result has the bytes of the prefix and of
-- the padded length that `calc_padded_len` gives, 34 at least and 6 + 2^20 at most, and `unpad` gives
-- the plaintext back.
pub unpad-pad :
    (plaintext : Bytes)
    → 0 < length plaintext
    → length plaintext ≤ max_plaintext_len
    → (padded : Bytes) × (pad plaintext ≡ ok padded)
      × (unpad padded ≡ ok plaintext)
      × ((n : ℕ) × (calc_padded_len (length plaintext) ≡ ok n)
          × (length padded ≡ prefix_width (length plaintext) + n))
      × (34 ≤ length padded)
      × (length padded ≤ 6 + max_plaintext_len)
unpad-pad pt h k =
    let (padded, calc, least, most, le, side) = calc_padded_len_bounds (length pt) h k in
    let zeros = replicate (padded - length pt) 0 in
    let width = length-prefix_of (length pt) in
    let bounds = prefix_width_bounds (length pt) in
    let full : length zeros + length pt ≡ padded =
      omega (arith, length-replicate (padded - length pt) (zero)) in
    let size : length (prefix_of (length pt) ++ (pt ++ zeros)) ≡ prefix_width (length pt) + padded =
      omega (
        arith,
        width,
        length-append (prefix_of (length pt)) (pt ++ zeros),
        length-append pt zeros,
      ) in
    (
      prefix_of (length pt) ++ (pt ++ zeros),
      pad_lem pt padded h k calc le,
      unpad_framed (prefix_width (length pt)) padded (prefix_of (length pt)) pt zeros width
          (omega arith) k le (omega arith) full calc (read_prefix-prefix_of (length pt) _ h k),
      (padded, calc, size),
      omega arith,
      omega arith,
    )

-- What `pad` accepts has 1 to 2^20 bytes.
pub pad_bounds :
    (plaintext padded : Bytes)
    → pad plaintext ≡ ok padded
    → (0 < length plaintext) × (length plaintext ≤ max_plaintext_len)
unfolding pad
pad_bounds pt padded h =
    reject_if-elim _ _ _ h
      λ some_text h₁. reject_if-elim _ _ _ h₁ λ small h₂. (ground arith, ground arith)
