-- ===== src/Dnssec/Keys.antt =====
-- src/dnssec.rs: keys, signatures and digests. The primitives of the crate `ring` are an instance argument.
use numa.Prelude.{
  ◌&&◌, drop, ◌||◌, ◌-◌, take, ◌^◌, length, if_some, ◌++◌, not, ◌/◌, ◌==◌, ◌%◌, ◌+◌, is_nil, leb,
  ltb, Option, ◌*◌, if◌then◌else◌, false, none, some, [], ◌∷◌, ℕ, Bool,
}
use numa.Wire.{u16_at, byte}
use numa.Record.{Dnskey}
use numa.Buffer.{Bytes}
use numa.Buffer.Words.{be16}

-- Verification under a key, and digests.
pub record Crypto : Type 0 where
  pub rsa_pkcs1_sha256 : Bytes → Bytes → Bytes → Bool
  pub ecdsa_p256_sha256 : Bytes → Bytes → Bytes → Bool
  pub ed25519 : Bytes → Bytes → Bytes → Bool
  pub sha1 : Bytes → Bytes
  pub sha256 : Bytes → Bytes
  pub sha384 : Bytes → Bytes

-- The sum of the bytes, each at an even place as a high byte.
unfoldable pub sum_words : Bytes → ℕ
sum_words [] = 0
sum_words (x ∷ []) = x * 256
sum_words (x ∷ y ∷ rest) = (x * 256 + y) + sum_words rest

abbrev pub dnskey_rdata : Dnskey → Bytes
dnskey_rdata k = be16 k.flags ++ (k.protocol ∷ k.algorithm ∷ k.public_key)

unfoldable pub compute_key_tag : Dnskey → ℕ
compute_key_tag k =
    let ac = sum_words (dnskey_rdata k) % 2 ^ 32 in (ac + (ac / 2 ^ 16) % 2 ^ 16) % 2 ^ 32 % 2 ^ 16

unfoldable pub asn1_length : ℕ → Bytes
asn1_length n =
    if ltb n 128
    then n ∷ []
    else if ltb n 256
    then 0x81 ∷ n ∷ []
    else 0x82 ∷ n / 256 % 256 ∷ n % 256 ∷ []

-- Leading zeros go, but one byte stays.
unfoldable pub strip_zeros : Bytes → Bytes
strip_zeros [] = 0 ∷ []
strip_zeros (b ∷ bs) = let rest = strip_zeros bs in if b == 0 then rest else b ∷ bs

unfoldable pub asn1_integer : Bytes → Bytes
asn1_integer bytes =
    let stripped = strip_zeros bytes in
    let needs_pad = leb 0x80 (byte stripped 0) in
    0x02
    ∷ (asn1_length (length stripped + (if needs_pad then 1 else 0))
        ++ ((if needs_pad then 0 ∷ [] else []) ++ stripped))

-- The length of the exponent and where it starts.
unfoldable pub exponent_at : Bytes → Option (ℕ × ℕ)
exponent_at key =
    if is_nil key
    then none
    else if byte key 0 == 0
    then (if ltb (length key) 3 then none else some (u16_at key 1, 3))
    else some (byte key 0, 1)

unfoldable pub rsa_dnskey_to_der : Bytes → Option Bytes
rsa_dnskey_to_der key = if_some (exponent_at key) (λ (exp_len, start).
    if ltb (length key) (start + exp_len)
    then none
    else let exponent = take exp_len (drop start key) in
      let modulus = drop (start + exp_len) key in
      if is_nil modulus
      then none
      else let content = asn1_integer modulus ++ asn1_integer exponent in
        some (0x30 ∷ (asn1_length (length content) ++ content)))

module _ ⦃crypto : Crypto⦄ where
  unfoldable pub verify_rsa_sha256 : Bytes → Bytes → Bytes → Bool
  verify_rsa_sha256 key signed sig = elim (rsa_dnskey_to_der key) [
    | none ↦ false
    | some der ↦ crypto.rsa_pkcs1_sha256 der signed sig
  ]

  unfoldable pub verify_ecdsa_p256 : Bytes → Bytes → Bytes → Bool
  verify_ecdsa_p256 key signed sig =
      if not (length key == 64) || not (length sig == 64)
      then false
      else crypto.ecdsa_p256_sha256 (0x04 ∷ key) signed sig

  unfoldable pub verify_ed25519 : Bytes → Bytes → Bytes → Bool
  verify_ed25519 key signed sig =
      if not (length key == 32) || not (length sig == 64)
      then false
      else crypto.ed25519 key signed sig

  unfoldable pub verify_signature : ℕ → Bytes → Bytes → Bytes → Bool
  verify_signature algorithm key signed sig =
      if algorithm == 8
      then verify_rsa_sha256 key signed sig
      else if algorithm == 13
      then verify_ecdsa_p256 key signed sig
      else if algorithm == 15
      then verify_ed25519 key signed sig
      else false

-- Serial number arithmetic on 32 bits; `now` is the low word of the seconds since the epoch.
unfoldable pub is_rrsig_time_valid : ℕ → ℕ → ℕ → Bool
is_rrsig_time_valid now expiration inception =
    let inception_ok = ltb ((now + (2 ^ 32 - inception)) % 2 ^ 32) (2 ^ 31) in
    let expiration_ok = ltb ((expiration + (2 ^ 32 - now)) % 2 ^ 32) (2 ^ 31) in
    (inception_ok || leb inception ((now + 300) % 2 ^ 32)) && expiration_ok
