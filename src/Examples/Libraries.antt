-- ===== src/Examples/Libraries.antt =====
-- Simple functions in the place of the libraries.
use oma_chat.Base.{
  subst, ℕ, zero, suc, ◌+◌, ◌-◌, ◌*◌, ◌/◌, ◌%◌, ◌<◌, ◌≡◌, refl, true, false, ◌==◌, Option, none,
  some, [], ◌∷◌, ◌++◌, arith, ltb, length, replicate, allb, Bytes, text, bytes_eq, bytes_eq_refl,
  is_lower_hex, ap, length-append, length-replicate, if◌then◌else◌,
}
use oma_chat.Crypto.Nip44.{Nip44Lib, starts_with_hash}
use oma_chat.Crypto.Nip44.RoundTrip.{Nip44Laws}
use oma_chat.Nostr.Event.{EventLib}
use oma_chat.Nostr.Event.Signing.{EventLaws, AreBytes}
use oma_chat.Nostr.Event.Limits.{IsHex}
use oma_chat.Nostr.Urls.{UrlLib}
use oma_chat.Nostr.DmRelayCache.{CacheJson}

abbrev pub marked : Bytes → Option Bytes
marked [] = some []
marked (zero ∷ b) = marked b
marked (suc x ∷ b) = some b

abbrev pub mark : Bytes → Bytes
mark [] = []
mark (x ∷ b) = replicate ((length (x ∷ b) + 2) / 3 * 4 - length (x ∷ b) - 1) 0 ++ (1 ∷ (x ∷ b))

marked-zeros : (n : ℕ) (b : Bytes) → marked (replicate n 0 ++ (1 ∷ b)) ≡ some b
marked-zeros zero b = refl
marked-zeros (suc n) b = marked-zeros n b

-- All parties share one secret, of which the key is 32 times 5. The 76 bytes of the keys are all 1, the cipher changes nothing, every tag is 32 times 7, and
-- base64 has its length with the bytes behind a mark.
abbrev pub plain_nip44 : Nip44Lib
plain_nip44 = record {
  is_secret_key = λ k. true;
  is_public_key = λ k. true;
  shared_x = λ s p. some (text "x");
  hkdf_extract = λ s k. replicate 32 5;
  hkdf_expand = λ k n l. some (replicate l 1);
  chacha20 = λ k iv m. some m;
  hmac = λ k m. some (replicate 32 7);
  hmac_verify = λ k m t. some (bytes_eq t (replicate 32 7));
  base64_encode = mark;
  base64_decode = marked;
  is_utf8 = λ b. true;
}

length-mark : (b : Bytes) → length (mark b) ≡ (length b + 2) / 3 * 4
length-mark [] = refl
length-mark (x ∷ b) = omega (
  arith,
  length-append (replicate ((length (x ∷ b) + 2) / 3 * 4 - length (x ∷ b) - 1) 0) (1 ∷ (x ∷ b)),
  length-replicate {A = ℕ} ((length (x ∷ b) + 2) / 3 * 4 - length (x ∷ b) - 1) 0,
)

no_hash : (n : ℕ) (b : Bytes) → starts_with_hash (replicate n 0 ++ (1 ∷ b)) ≡ false
no_hash zero b = refl
no_hash (suc n) b = refl

pub plain_nip44_laws : Nip44Laws plain_nip44
plain_nip44_laws = record {
  expand_total = λ key nonce k. (replicate 76 1, refl, length-replicate {A = ℕ} 76 1);
  chacha20_involutive = λ key iv m k i. (m, refl, refl, refl);
  hmac_verifies = λ key m. (
    replicate 32 7,
    refl,
    ap some (bytes_eq_refl (replicate 32 7)),
    length-replicate {A = ℕ} 32 7,
  );
  base64_round_trip = λ b. mark_round_trip b;
  base64_length = length-mark;
  base64_alphabet = λ b. mark_alphabet b;
}
  where
    mark_round_trip : (b : Bytes) → marked (mark b) ≡ some b
    mark_round_trip [] = refl
    mark_round_trip (x ∷ b) =
        marked-zeros ((length (x ∷ b) + 2) / 3 * 4 - length (x ∷ b) - 1) (x ∷ b)

    mark_alphabet : (b : Bytes) → starts_with_hash (mark b) ≡ false
    mark_alphabet [] = refl
    mark_alphabet (x ∷ b) = no_hash ((length (x ∷ b) + 2) / 3 * 4 - length (x ∷ b) - 1) (x ∷ b)

abbrev pub digit : ℕ → ℕ
digit d = if ltb d 10 then 48 + d else 87 + d

abbrev pub value_of : ℕ → ℕ
value_of c = if ltb c 58 then c - 48 else c - 87

abbrev pub hex : Bytes → Bytes
hex [] = []
hex (x ∷ b) = digit (x / 16) ∷ digit (x % 16) ∷ hex b

abbrev pub unhex : Bytes → Bytes
unhex (c ∷ d ∷ v) = (value_of c * 16 + value_of d) ∷ unhex v
unhex _ = []

-- Hexadecimal as it is; digests 32 times the length modulo 256, the key of every secret 32 times 2,
-- and its one signature 64 times 3.
abbrev pub plain_events : EventLib
plain_events = record {
  hex_encode = hex;
  hex_decode = λ n v. if length v == n * 2 then some (unhex v) else none;
  canonical_to_json = λ e. some (text "[0]" ++ e.content);
  signed_to_json = λ e. some (text "{}" ++ e.content);
  signed_of_json = λ b. none;
  sha256 = λ b. replicate 32 (length b % 256);
  xonly_of_secret = λ s. some (replicate 32 2);
  sign_raw = λ s m a. some (replicate 64 3);
  is_verifying_key = λ k. length k == 32;
  is_signature = λ s. length s == 64;
  verify_raw = λ k m s. bytes_eq s (replicate 64 3);
}

digit-hex : (d : ℕ) → d < 16 → is_lower_hex (digit d) ≡ true
unfolding is_lower_hex
digit-hex d h = ground arith

value_of-digit : (d : ℕ) → d < 16 → value_of (digit d) ≡ d
value_of-digit d h = ground arith

length-hex : (b : Bytes) → length (hex b) ≡ length b * 2
length-hex [] = refl
length-hex (x ∷ b) = omega (arith, length-hex b)

hex_lower : (b : Bytes) → AreBytes b → allb is_lower_hex (hex b) ≡ true
unfolding allb
hex_lower [] a = refl
hex_lower (x ∷ b) a =
    rw (digit-hex (x / 16) (omega (arith, a.0)), digit-hex (x % 16) (omega arith)) (hex_lower b a.1)

unhex-hex : (b : Bytes) → AreBytes b → unhex (hex b) ≡ b
unhex-hex [] a = refl
unhex-hex (x ∷ b) a =
    rw
      (
        value_of-digit (x / 16) (omega (arith, a.0)),
        value_of-digit (x % 16) (omega arith),
        unhex-hex b a.1,
      )
      (ap (λ n. n ∷ b) (omega arith))

pub AreBytes-replicate : (n x : ℕ) → x < 256 → AreBytes (replicate n x)
AreBytes-replicate zero x h = tt
AreBytes-replicate (suc n) x h = (h, AreBytes-replicate n x h)

hex-IsHex : (n : ℕ) (b : Bytes) → length b ≡ n → AreBytes b → IsHex plain_events n (hex b) b
hex-IsHex n b l a =
    (omega (arith, length-hex b, l), hex_lower b a, ground (arith, length-hex b, unhex-hex b a))

pub some-injective : {a b : Bytes} → some a ≡ some b → a ≡ b
some-injective h = cc

ones_signature :
    (sig : Bytes)
    → replicate 64 3 ≡ sig
    → (length sig ≡ 64)
      × AreBytes sig
      × ((length sig == 64) ≡ true)
      × (bytes_eq sig (replicate 64 3) ≡ true)
ones_signature sig h =
    subst
      (λ s.
        (length s ≡ 64)
        × AreBytes s
        × ((length s == 64) ≡ true)
        × (bytes_eq s (replicate 64 3) ≡ true))
      h (refl, AreBytes-replicate 64 3 (omega arith), refl, bytes_eq_refl (replicate 64 3))

pub plain_events_laws : EventLaws plain_events
plain_events_laws = record {
  hex_round_trip = hex-IsHex;
  length-sha256 = λ b. length-replicate {A = ℕ} 32 (length b % 256);
  sha256-AreBytes = λ b. AreBytes-replicate 32 (length b % 256) (omega arith);
  xonly_valid = λ secret key x. (subst (λ k. (length k == 32) ≡ true) (some-injective x) refl);
  sign_correct = λ secret key m aux sig x s. ones_signature sig (some-injective s);
}

-- Every address parses, as a `wss` address of the host that it names.
abbrev pub plain_urls : UrlLib
plain_urls = record {
  parse = λ u. some (record {
    scheme = text "wss";
    host_str = some u;
    port_or_known_default = some 443;
    username = [];
    password = none;
    query = none;
    fragment = none;
    serialization = u;
  });
  is_loopback = λ h. false;
}

abbrev pub plain_json : CacheJson
plain_json = record { to_vec = λ c. some (text "{}"); from_slice = λ b. none }
