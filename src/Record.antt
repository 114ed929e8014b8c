-- ===== src/Record.antt =====
-- src/record.rs: resource records, their reader and writer. `Vec<u8>` and a string are lists of bytes.
pub mod Writer
pub mod Fields
pub mod Write
pub mod Read
pub mod RoundTrip
pub mod Valid
use numa.Prelude.{
  ◌-◌, ◌+◌, ltb, if◌then◌else◌, ◌^◌, ◌/◌, bit_and, ℕ, refl, zero, suc, true, false, none, some, inl,
  inr, [], ◌∷◌,
}
use numa.Error.{data_len_too_short}
use numa.Exec.{raise, pure, ◌>>=◌, Exec}
use numa.Question.{from_num, QueryType}
use numa.Buffer.Words.{take_bytes}
use numa.Buffer.Name.{read_qname}
use numa.Buffer.{read_u32, position, read, read_u16, Buffer, Bytes}

-- `std::net::Ipv4Addr`: its octets.
pub record Ipv4Addr : Type 0 where
  pub o0 : ℕ
  pub o1 : ℕ
  pub o2 : ℕ
  pub o3 : ℕ

-- `std::net::Ipv6Addr`: its segments.
pub record Ipv6Addr : Type 0 where
  pub s0 : ℕ
  pub s1 : ℕ
  pub s2 : ℕ
  pub s3 : ℕ
  pub s4 : ℕ
  pub s5 : ℕ
  pub s6 : ℕ
  pub s7 : ℕ

pub record Soa : Type 0 where
  pub mname : Bytes
  pub rname : Bytes
  pub serial : ℕ
  pub refresh : ℕ
  pub retry : ℕ
  pub expire : ℕ
  pub minimum : ℕ

pub record Dnskey : Type 0 where
  pub flags : ℕ
  pub protocol : ℕ
  pub algorithm : ℕ
  pub public_key : Bytes

pub record Ds : Type 0 where
  pub key_tag : ℕ
  pub algorithm : ℕ
  pub digest_type : ℕ
  pub digest : Bytes

pub record Rrsig : Type 0 where
  pub type_covered : ℕ
  pub algorithm : ℕ
  pub labels : ℕ
  pub original_ttl : ℕ
  pub expiration : ℕ
  pub inception : ℕ
  pub key_tag : ℕ
  pub signer_name : Bytes
  pub signature : Bytes

pub record Nsec3 : Type 0 where
  pub hash_algorithm : ℕ
  pub flags : ℕ
  pub iterations : ℕ
  pub salt : Bytes
  pub next_hashed_owner : Bytes
  pub type_bitmap : Bytes

-- What the variants of `DnsRecord` hold beside `domain` and `ttl`.
pub data Rdata : Type 0 where
  unknown : ℕ → Bytes → Rdata
  a : Ipv4Addr → Rdata
  ns : Bytes → Rdata
  soa : Soa → Rdata
  cname : Bytes → Rdata
  ptr : Bytes → Rdata
  mx : ℕ → Bytes → Rdata
  aaaa : Ipv6Addr → Rdata
  dnskey : Dnskey → Rdata
  ds : Ds → Rdata
  rrsig : Rrsig → Rdata
  nsec : Bytes → Bytes → Rdata
  nsec3 : Nsec3 → Rdata

-- Every variant of the source has the fields `domain` and `ttl`: they stand beside the rest here.
pub record DnsRecord : Type 0 where
  pub domain : Bytes
  pub rdata : Rdata
  pub ttl : ℕ

unfoldable pub rdata_type : Rdata → QueryType
rdata_type (unknown qtype bytes) = QueryType.unknown qtype
rdata_type (a addr) = QueryType.a
rdata_type (ns host) = QueryType.ns
rdata_type (soa s) = QueryType.soa
rdata_type (cname host) = QueryType.cname
rdata_type (ptr host) = QueryType.ptr
rdata_type (mx priority host) = QueryType.mx
rdata_type (aaaa addr) = QueryType.aaaa
rdata_type (dnskey k) = QueryType.dnskey
rdata_type (ds d) = QueryType.ds
rdata_type (rrsig r) = QueryType.rrsig
rdata_type (nsec next_domain type_bitmap) = QueryType.nsec
rdata_type (nsec3 n) = QueryType.nsec3

abbrev pub query_type : DnsRecord → QueryType
query_type r = rdata_type r.rdata

abbrev pub set_ttl : ℕ → DnsRecord → DnsRecord
set_ttl new_ttl r = record r { ttl = new_ttl }

abbrev pub set_domain : Bytes → DnsRecord → DnsRecord
set_domain new_domain r = record r { domain = new_domain }

-- `rdata_end.checked_sub(buffer.pos())`, and the bytes up to `rdata_end`.
unfoldable pub read_rest : ℕ → Exec Buffer Bytes
read_rest rdata_end = do
  pos ← position
  if ltb rdata_end pos then raise data_len_too_short else take_bytes (rdata_end - pos)

abbrev pub ipv4_of : ℕ → Ipv4Addr
ipv4_of raw = record {
  o0 = bit_and (raw / 2 ^ 24) 0xff;
  o1 = bit_and (raw / 2 ^ 16) 0xff;
  o2 = bit_and (raw / 2 ^ 8) 0xff;
  o3 = bit_and raw 0xff;
}

abbrev pub ipv6_of : ℕ → ℕ → ℕ → ℕ → Ipv6Addr
ipv6_of raw1 raw2 raw3 raw4 = record {
  s0 = bit_and (raw1 / 2 ^ 16) 0xffff;
  s1 = bit_and raw1 0xffff;
  s2 = bit_and (raw2 / 2 ^ 16) 0xffff;
  s3 = bit_and raw2 0xffff;
  s4 = bit_and (raw3 / 2 ^ 16) 0xffff;
  s5 = bit_and raw3 0xffff;
  s6 = bit_and (raw4 / 2 ^ 16) 0xffff;
  s7 = bit_and raw4 0xffff;
}

unfoldable pub read_a : Exec Buffer Rdata
read_a = do raw ← read_u32; pure (a (ipv4_of raw))

unfoldable pub read_aaaa : Exec Buffer Rdata
read_aaaa = do
  raw1 ← read_u32
  raw2 ← read_u32
  raw3 ← read_u32
  raw4 ← read_u32
  pure (aaaa (ipv6_of raw1 raw2 raw3 raw4))

unfoldable pub read_host : (Bytes → Rdata) → Exec Buffer Rdata
read_host make = do host ← read_qname; pure (make host)

unfoldable pub read_mx : Exec Buffer Rdata
read_mx = do priority ← read_u16; host ← read_qname; pure (mx priority host)

unfoldable pub read_dnskey : ℕ → Exec Buffer Rdata
read_dnskey rdata_end = do
  flags ← read_u16
  protocol ← read
  algorithm ← read
  public_key ← read_rest rdata_end
  pure (
      dnskey (record {
        flags = flags;
        protocol = protocol;
        algorithm = algorithm;
        public_key = public_key;
      }))

unfoldable pub read_ds : ℕ → Exec Buffer Rdata
read_ds rdata_end = do
  key_tag ← read_u16
  algorithm ← read
  digest_type ← read
  digest ← read_rest rdata_end
  pure (
      ds (record {
        key_tag = key_tag;
        algorithm = algorithm;
        digest_type = digest_type;
        digest = digest;
      }))

unfoldable pub read_rrsig : ℕ → Exec Buffer Rdata
read_rrsig rdata_end = do
  type_covered ← read_u16
  algorithm ← read
  labels ← read
  original_ttl ← read_u32
  expiration ← read_u32
  inception ← read_u32
  key_tag ← read_u16
  signer_name ← read_qname
  signature ← read_rest rdata_end
  pure (
      rrsig (record {
        type_covered = type_covered;
        algorithm = algorithm;
        labels = labels;
        original_ttl = original_ttl;
        expiration = expiration;
        inception = inception;
        key_tag = key_tag;
        signer_name = signer_name;
        signature = signature;
      }))

unfoldable pub read_nsec : ℕ → Exec Buffer Rdata
read_nsec rdata_end = do
  next_domain ← read_qname
  type_bitmap ← read_rest rdata_end
  pure (nsec next_domain type_bitmap)

unfoldable pub read_nsec3 : ℕ → Exec Buffer Rdata
read_nsec3 rdata_end = do
  hash_algorithm ← read
  flags ← read
  iterations ← read_u16
  salt_length ← read
  salt ← take_bytes salt_length
  hash_length ← read
  next_hashed_owner ← take_bytes hash_length
  type_bitmap ← read_rest rdata_end
  pure (
      nsec3 (record {
        hash_algorithm = hash_algorithm;
        flags = flags;
        iterations = iterations;
        salt = salt;
        next_hashed_owner = next_hashed_owner;
        type_bitmap = type_bitmap;
      }))

unfoldable pub read_soa : Exec Buffer Rdata
read_soa = do
  mname ← read_qname
  rname ← read_qname
  serial ← read_u32
  refresh ← read_u32
  retry ← read_u32
  expire ← read_u32
  minimum ← read_u32
  pure (
      soa (record {
        mname = mname;
        rname = rname;
        serial = serial;
        refresh = refresh;
        retry = retry;
        expire = expire;
        minimum = minimum;
      }))

-- The types that the match of `read` does not name are kept as opaque bytes.
unfoldable pub read_opaque : ℕ → ℕ → Exec Buffer Rdata
read_opaque qtype_num data_len = do bytes ← take_bytes data_len; pure (unknown qtype_num bytes)

-- The match on the type.
unfoldable pub read_rdata : QueryType → ℕ → ℕ → ℕ → Exec Buffer Rdata
read_rdata QueryType.a qtype_num data_len rdata_end = read_a
read_rdata QueryType.aaaa qtype_num data_len rdata_end = read_aaaa
read_rdata QueryType.ns qtype_num data_len rdata_end = read_host ns
read_rdata QueryType.cname qtype_num data_len rdata_end = read_host cname
read_rdata QueryType.ptr qtype_num data_len rdata_end = read_host ptr
read_rdata QueryType.mx qtype_num data_len rdata_end = read_mx
read_rdata QueryType.dnskey qtype_num data_len rdata_end = read_dnskey rdata_end
read_rdata QueryType.ds qtype_num data_len rdata_end = read_ds rdata_end
read_rdata QueryType.rrsig qtype_num data_len rdata_end = read_rrsig rdata_end
read_rdata QueryType.nsec qtype_num data_len rdata_end = read_nsec rdata_end
read_rdata QueryType.nsec3 qtype_num data_len rdata_end = read_nsec3 rdata_end
read_rdata QueryType.soa qtype_num data_len rdata_end = read_soa
read_rdata _ qtype_num data_len rdata_end = read_opaque qtype_num data_len

unfoldable pub read_record : Exec Buffer DnsRecord
read_record = do
  domain ← read_qname
  qtype_num ← read_u16
  class ← read_u16
  ttl ← read_u32
  data_len ← read_u16
  rdata_start ← position
  rdata ← read_rdata (from_num qtype_num) qtype_num data_len (rdata_start + data_len)
  pure (record { domain = domain; rdata = rdata; ttl = ttl })
