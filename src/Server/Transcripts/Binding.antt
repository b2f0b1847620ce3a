-- ===== src/Server/Transcripts/Binding.antt =====
-- What a signed byte string of crates/omachat-proto/src/hosted.rs binds.
use oma_chat.Base.{
  Option, get_elem?, le→leb, ℕ, zero, suc, ◌*◌, ◌/◌, ◌%◌, ◌≤◌, ◌<◌, ◌≡◌, refl, [], ◌∷◌, ◌++◌, arith,
  length, take, drop, Bytes, ap, sym, ◌∙◌, take-append, drop-append, length-append,
}
use oma_chat.Server.Transcripts.{
  nostr_unbind_domain, nostr_bind_domain, to_be_bytes, clamped_u16, push_str, proof_transcript,
  nostr_bind_transcript, nostr_unbind_transcript,
}

append-injective :
    (xs ys a b : Bytes) → length xs ≡ length ys → xs ++ a ≡ ys ++ b → (xs ≡ ys) × (a ≡ b)
append-injective xs ys a b size h = (
  sym (take-append xs a)
      ∙ (ap (take (length xs)) h ∙ (ap (λ n. take n (ys ++ b)) size ∙ take-append ys b)),
  sym (drop-append xs a)
      ∙ (ap (drop (length xs)) h ∙ (ap (λ n. drop n (ys ++ b)) size ∙ drop-append ys b)),
)

length-to_be_bytes : (width n : ℕ) → length (to_be_bytes width n) ≡ width
unfolding to_be_bytes
length-to_be_bytes zero n = refl
length-to_be_bytes (suc width) n = omega (
  arith,
  length-append (to_be_bytes width (n / 256)) ((n % 256) ∷ []),
  length-to_be_bytes width (n / 256),
)

-- How many numbers have that many bytes.
abbrev pub range : ℕ → ℕ
range zero = 1
range (suc width) = 256 * range width

to_be_bytes-injective :
    (width m n : ℕ)
    → m < range width
    → n < range width
    → to_be_bytes width m ≡ to_be_bytes width n
    → m ≡ n
unfolding to_be_bytes
to_be_bytes-injective zero m n hm hn h = omega (arith, hm, hn)
to_be_bytes-injective (suc width) m n hm hn h =
    let (high, low) =
      append-injective (to_be_bytes width (m / 256)) (to_be_bytes width (n / 256)) ((m % 256) ∷ [])
        ((n % 256) ∷ [])
        (length-to_be_bytes width (m / 256) ∙ sym (length-to_be_bytes width (n / 256))) h in
    let high' =
      to_be_bytes-injective width (m / 256) (n / 256) (omega (arith, hm)) (omega (arith, hn))
        high in
    let low' : m % 256 ≡ n % 256 = cc in omega (arith, high', low')

take-length : (xs : Bytes) → take (length xs) xs ≡ xs
unfolding take
take-length [] = refl
take-length (x ∷ xs) = ap (◌∷◌ x) (take-length xs)

push_str_short : (v : Bytes) → length v ≤ 65535 → push_str v ≡ to_be_bytes 2 (length v) ++ v
unfolding push_str clamped_u16
push_str_short v h = rw ((le→leb _ _ h), take-length v) refl

append_assoc : (a b c : Bytes) → (a ++ b) ++ c ≡ a ++ (b ++ c)
append_assoc [] b c = refl
append_assoc (x ∷ a) b c = ap (◌∷◌ x) (append_assoc a b c)

push_str-injective :
    (v w a b : Bytes)
    → length v ≤ 65535
    → length w ≤ 65535
    → push_str v ++ a ≡ push_str w ++ b
    → (v ≡ w) × (a ≡ b)
push_str-injective v w a b hv hw h =
    let h' : to_be_bytes 2 (length v) ++ (v ++ a) ≡ to_be_bytes 2 (length w) ++ (w ++ b) =
      sym (append_assoc (to_be_bytes 2 (length v)) v a)
      ∙ (ap (λ p. p ++ a) (sym (push_str_short v hv))
          ∙ (h
              ∙ (ap (λ p. p ++ b) (push_str_short w hw)
                  ∙ append_assoc (to_be_bytes 2 (length w)) w b))) in
    let (sizes, rest) =
      append-injective (to_be_bytes 2 (length v)) (to_be_bytes 2 (length w)) (v ++ a) (w ++ b)
        (length-to_be_bytes 2 (length v) ∙ sym (length-to_be_bytes 2 (length w))) h' in
    append-injective v w a b
      (to_be_bytes-injective 2 _ _ (omega (arith, hv)) (omega (arith, hw)) sizes) rest

-- What a proof says: keys and nonce of 32 bytes, texts of at most 65535 bytes, a time of 64 bits.
pub record Proof : Type 0 where
  pub server_public_key : Bytes
  pub account_id : Bytes
  pub handle : Bytes
  pub nostr_public_key : Bytes
  pub nonce : Bytes
  pub timestamp : ℕ

pub record IsProof (p : Proof) : Type 0 where
  pub server_size : length p.server_public_key ≡ 32
  pub account_fits : length p.account_id ≤ 65535
  pub handle_fits : length p.handle ≤ 65535
  pub key_size : length p.nostr_public_key ≡ 32
  pub nonce_size : length p.nonce ≡ 32
  pub time_fits : p.timestamp < range 8

abbrev pub signed : Bytes → Proof → Bytes
signed domain p =
    proof_transcript domain p.server_public_key p.account_id p.handle p.nostr_public_key p.nonce
      p.timestamp

signed-injective :
    (domain : Bytes) (p q : Proof)
    → IsProof p
    → IsProof q
    → signed domain p ≡ signed domain q
    → p ≡ q
unfolding proof_transcript
signed-injective domain p q ip iq h =
    let (d, h₁) = append-injective domain domain _ _ refl h in
    let (server, h₂) =
      append-injective p.server_public_key q.server_public_key _ _
        (ip.server_size ∙ sym iq.server_size) h₁ in
    let (account, h₃) =
      push_str-injective p.account_id q.account_id _ _ ip.account_fits iq.account_fits h₂ in
    let (handle, h₄) = push_str-injective p.handle q.handle _ _ ip.handle_fits iq.handle_fits h₃ in
    let (key, h₅) =
      append-injective p.nostr_public_key q.nostr_public_key _ _ (ip.key_size ∙ sym iq.key_size)
        h₄ in
    let (nonce, h₆) = append-injective p.nonce q.nonce _ _ (ip.nonce_size ∙ sym iq.nonce_size) h₅ in
    let time = to_be_bytes-injective 8 p.timestamp q.timestamp ip.time_fits iq.time_fits h₆ in cc

abbrev byte_at : ℕ → Bytes → ℕ
byte_at i l = elim (get_elem? l i) [ Option.none ↦ 0 | Option.some b ↦ b ]

apart : ◌≡◌ {A = ℕ} 98 117 → ⊥
apart h = absurd (omega (arith, h))

-- What is signed to bind a key is never what is signed to unbind one, and either text determines the
-- server, the account, the handle, the key, the nonce and the time, where keys and nonces have 32
-- bytes, the account and the handle at most 65535, and the time 64 bits.
pub proof_transcript-injective :
    (p q : Proof)
    → IsProof p
    → IsProof q
    → (nostr_bind_transcript p.server_public_key p.account_id p.handle p.nostr_public_key p.nonce
            p.timestamp
          ≡ nostr_bind_transcript q.server_public_key q.account_id q.handle q.nostr_public_key
              q.nonce q.timestamp
        → p ≡ q)
      × (nostr_unbind_transcript p.server_public_key p.account_id p.handle p.nostr_public_key
              p.nonce p.timestamp
            ≡ nostr_unbind_transcript q.server_public_key q.account_id q.handle q.nostr_public_key
                q.nonce q.timestamp
          → p ≡ q)
      × ¬ (
          nostr_bind_transcript p.server_public_key p.account_id p.handle p.nostr_public_key p.nonce
            p.timestamp
          ≡ nostr_unbind_transcript q.server_public_key q.account_id q.handle q.nostr_public_key
              q.nonce q.timestamp)
unfolding nostr_bind_transcript nostr_unbind_transcript proof_transcript
proof_transcript-injective p q ip iq = (
  signed-injective nostr_bind_domain p q ip iq,
  signed-injective nostr_unbind_domain p q ip iq,
  λ h. apart (ap (λ (l : Bytes). byte_at 14 l) h),
)
