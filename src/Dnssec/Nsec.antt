-- ===== src/Dnssec/Nsec.antt =====
-- src/dnssec.rs: what single NSEC and NSEC3 records say.
use numa.Prelude.{
  ◌*◌, bit_and, ltb, if_some, ◌-◌, ◌^◌, ◌+◌, leb, ◌==◌, bytes_key, not, ◌||◌, if◌then◌else◌, ◌/◌,
  ◌&&◌, Option, ◌++◌, ◌%◌, any, ◌=?◌, length, zero, suc, false, none, some, [], ◌∷◌, List, ℕ, Bool,
}
use numa.Buffer.{Bytes}
use numa.Wire.{byte}
use numa.Question.{QueryType, to_num}
use numa.Text.{before}
use numa.Dnssec.Order.{cmp_bytes, is_lt}
use numa.Dnssec.Response.{to_lower}
use numa.Dnssec.Keys.{Crypto}
use numa.Dnssec.Canonical.{name_to_wire}
use numa.Record.{DnsRecord, Rdata, nsec, nsec3}

-- `0x80 >> bit`
abbrev pub bit_mask : ℕ → ℕ
bit_mask bit = 0x80 / 2 ^ bit

unfoldable pub find_type : ℕ → Bytes → ℕ → ℕ → Bool
find_type zero bitmap qtype pos = false
find_type (suc fuel) bitmap qtype pos =
    let target_bit = qtype % 256 in
    let byte_offset = target_bit / 8 in
    let bmap_len = byte bitmap (pos + 1) in
    let later = find_type fuel bitmap qtype (pos + (2 + bmap_len)) in
    if ltb (length bitmap) (pos + 2)
    then false
    else if ltb (length bitmap) (pos + 2 + bmap_len)
    then false
    else if (byte bitmap pos == qtype / 256) && ltb byte_offset bmap_len
    then not (bit_and (byte bitmap (pos + 2 + byte_offset)) (bit_mask (target_bit % 8)) == 0)
    else later

-- Each round moves forward inside the bitmap.
abbrev pub type_bitmap_contains : Bytes → ℕ → Bool
type_bitmap_contains bitmap qtype = find_type (suc (length bitmap)) bitmap qtype 0

abbrev pub eq_ignore_ascii_case : Bytes → Bytes → Bool
eq_ignore_ascii_case x y = to_lower x =? to_lower y

unfoldable pub nsec_proves_nodata : Bytes → Bytes → Bytes → ℕ → Bool
nsec_proves_nodata owner qname bitmap qtype =
    eq_ignore_ascii_case owner qname
    && not (type_bitmap_contains bitmap qtype)
    && not (type_bitmap_contains bitmap (to_num QueryType.cname))

-- `join(".")`
unfoldable pub join_labels : List Bytes → Bytes
join_labels [] = []
join_labels (l ∷ []) = l
join_labels (l ∷ m ∷ ls) = l ++ (b'.' ∷ join_labels (m ∷ ls))

abbrev pub owns : Bytes → DnsRecord → Rdata → Bool
owns name r (nsec next bitmap) = eq_ignore_ascii_case r.domain name
owns name r _ = false

-- Over the labels of the name, from the name itself up.
unfoldable pub closest_encloser : List Bytes → List DnsRecord → Option Bytes
closest_encloser [] nsecs = none
closest_encloser (l ∷ ls) nsecs =
    let further = closest_encloser ls nsecs in
    let candidate = join_labels (l ∷ ls) in
    if any (λ r. owns candidate r r.rdata) nsecs then some candidate else further

abbrev pub max_nsec3_iterations : ℕ
max_nsec3_iterations = 500

-- The value of a digit of base32hex.
unfoldable pub base32hex_value : ℕ → Option ℕ
base32hex_value c =
    if leb b'0' c && leb c b'9'
    then some (c - b'0')
    else if leb b'A' c && leb c b'V'
    then some (c - b'A' + 10)
    else if leb b'a' c && leb c b'v'
    then some (c - b'a' + 10)
    else none

-- `bits` holds `bit_count` bits, fewer than eight.
unfoldable pub decode_digits : Bytes → ℕ → ℕ → Bytes → Option Bytes
decode_digits [] bits bit_count output = some output
decode_digits (ch ∷ rest) bits bit_count output =
    if ch == b'='
    then some output
    else if_some (base32hex_value ch) (λ val.
      if ltb (bit_count + 5) 8
      then decode_digits rest (bits * 32 + val) (bit_count + 5) output
      else let left = bit_count + 5 - 8 in
        decode_digits rest ((bits * 32 + val) % 2 ^ left) left
          (output ++ ((bits * 32 + val) / 2 ^ left % 256 ∷ [])))

abbrev pub base32hex_decode : Bytes → Option Bytes
base32hex_decode input = decode_digits input 0 0 []

abbrev pub nsec3_owner_hash : Bytes → Option Bytes
nsec3_owner_hash domain = base32hex_decode (before b'.' domain)

abbrev pub precedes : Bytes → Bytes → Bool
precedes x y = is_lt (cmp_bytes x y)

unfoldable pub nsec3_hash_in_range : Bytes → Bytes → Bytes → Bool
nsec3_hash_in_range owner_hash next_hash target_hash =
    if precedes owner_hash next_hash
    then precedes owner_hash target_hash && precedes target_hash next_hash
    else precedes owner_hash target_hash || precedes target_hash next_hash

abbrev pub covers_hash : Bytes → Bytes → Rdata → Bool
covers_hash target owner_hash (nsec3 n) = nsec3_hash_in_range owner_hash n.next_hashed_owner target
covers_hash target owner_hash _ = false

unfoldable pub nsec3_any_covers : List (Bytes × DnsRecord) → Bytes → Bool
nsec3_any_covers decoded target = any (λ d. covers_hash target d.0 d.1.rdata) decoded

module _ ⦃crypto : Crypto⦄ where
  unfoldable pub iterate_hash : ℕ → Bytes → Bytes → Bytes
  iterate_hash zero salt hash = hash
  iterate_hash (suc n) salt hash = iterate_hash n salt (crypto.sha1 (hash ++ salt))

  -- Whether the name panics, and otherwise whether the parameters are refused.
  unfoldable pub nsec3_hash : Bytes → ℕ → ℕ → Bytes → Option (Option Bytes)
  nsec3_hash name algorithm iterations salt =
      if not (algorithm == 1)
      then some none
      else if ltb max_nsec3_iterations iterations
      then some none
      else if_some (name_to_wire name)
          (λ wire. some (some (iterate_hash iterations salt (crypto.sha1 (wire ++ salt)))))
