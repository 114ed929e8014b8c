-- ===== src/Question.antt =====
-- src/question.rs: query types and questions. A type's number is the u16 of the wire.
pub mod Types
pub mod RoundTrip
use numa.Prelude.{
  eq_bytes, ◌-◌, ◌&&◌, leb, ◌==◌, map, ◌=?◌, if◌then◌else◌, Option, ℕ, refl, zero, suc, true, false,
  none, some, inl, inr, [], ◌∷◌,
}
use numa.Exec.{pure, ◌>>◌, ◌>>=◌, Exec}
use numa.Buffer.{write_u16, read_u16, Buffer, Bytes}
use numa.Buffer.Name.{write_qname, read_qname}
use Prim.Native.Char.{code}
use Prim.Native.String
use Prim.Native.String.{String}

pub data QueryType : Type 0 where
  unknown : ℕ → QueryType
  a ns cname soa ptr mx txt aaaa loc srv naptr opt ds rrsig nsec dnskey nsec3 svcb https : QueryType

unfoldable pub to_num : QueryType → ℕ
to_num (unknown x) = x
to_num a = 1
to_num ns = 2
to_num cname = 5
to_num soa = 6
to_num ptr = 12
to_num mx = 15
to_num txt = 16
to_num aaaa = 28
to_num loc = 29
to_num srv = 33
to_num naptr = 35
to_num opt = 41
to_num ds = 43
to_num rrsig = 46
to_num nsec = 47
to_num dnskey = 48
to_num nsec3 = 50
to_num svcb = 64
to_num https = 65

unfoldable pub from_num : ℕ → QueryType
from_num num =
    if num == 1
    then a
    else if num == 2
    then ns
    else if num == 5
    then cname
    else if num == 6
    then soa
    else if num == 12
    then ptr
    else if num == 15
    then mx
    else if num == 16
    then txt
    else if num == 28
    then aaaa
    else if num == 29
    then loc
    else if num == 33
    then srv
    else if num == 35
    then naptr
    else if num == 41
    then opt
    else if num == 43
    then ds
    else if num == 46
    then rrsig
    else if num == 47
    then nsec
    else if num == 48
    then dnskey
    else if num == 50
    then nsec3
    else if num == 64
    then svcb
    else if num == 65
    then https
    else unknown num

-- A text literal as its bytes.
abbrev pub codes : String → Bytes
codes String.[] = []
codes (String.◌∷◌ c s) = code c ∷ codes s

unfoldable pub as_str : QueryType → Bytes
as_str (unknown x) = codes "UNKNOWN"
as_str a = codes "A"
as_str ns = codes "NS"
as_str cname = codes "CNAME"
as_str soa = codes "SOA"
as_str ptr = codes "PTR"
as_str mx = codes "MX"
as_str txt = codes "TXT"
as_str aaaa = codes "AAAA"
as_str loc = codes "LOC"
as_str srv = codes "SRV"
as_str naptr = codes "NAPTR"
as_str opt = codes "OPT"
as_str ds = codes "DS"
as_str rrsig = codes "RRSIG"
as_str nsec = codes "NSEC"
as_str dnskey = codes "DNSKEY"
as_str nsec3 = codes "NSEC3"
as_str svcb = codes "SVCB"
as_str https = codes "HTTPS"

-- `str::to_ascii_uppercase`
abbrev pub to_ascii_uppercase : ℕ → ℕ
to_ascii_uppercase b = if leb b'a' b && leb b b'z' then b - 32 else b

-- The match of `parse_str`, over the upper-case text.
unfoldable pub parse_upper : Bytes → Option QueryType
parse_upper s =
    if eq_bytes s (codes "A")
    then some a
    else if eq_bytes s (codes "NS")
    then some ns
    else if eq_bytes s (codes "CNAME")
    then some cname
    else if eq_bytes s (codes "SOA")
    then some soa
    else if eq_bytes s (codes "PTR")
    then some ptr
    else if eq_bytes s (codes "MX")
    then some mx
    else if eq_bytes s (codes "TXT")
    then some txt
    else if eq_bytes s (codes "AAAA")
    then some aaaa
    else if eq_bytes s (codes "LOC")
    then some loc
    else if eq_bytes s (codes "SRV")
    then some srv
    else if eq_bytes s (codes "NAPTR")
    then some naptr
    else if eq_bytes s (codes "OPT")
    then some opt
    else if eq_bytes s (codes "DS")
    then some ds
    else if eq_bytes s (codes "RRSIG")
    then some rrsig
    else if eq_bytes s (codes "NSEC")
    then some nsec
    else if eq_bytes s (codes "DNSKEY")
    then some dnskey
    else if eq_bytes s (codes "NSEC3")
    then some nsec3
    else if eq_bytes s (codes "SVCB")
    then some svcb
    else if eq_bytes s (codes "HTTPS")
    then some https
    else none

unfoldable pub parse_str : Bytes → Option QueryType
unfolding parse_upper
parse_str s = parse_upper (map to_ascii_uppercase s)

pub record DnsQuestion : Type 0 where
  pub name : Bytes
  pub qtype : QueryType

-- `read` appends to the empty name that its caller made; the class is read and dropped.
unfoldable pub read_question : Exec Buffer DnsQuestion
read_question = do
  name ← read_qname
  num ← read_u16
  class ← read_u16
  pure (record { name = name; qtype = from_num num })

unfoldable pub write_question : DnsQuestion → Exec Buffer (Unit {0})
write_question q = do write_qname q.name; write_u16 (to_num q.qtype); write_u16 1
