-- ===== src/Record/Valid.antt =====
-- The records that have a wire form, and that form: RFC 1035 §3.2 and the RFCs of each type.
use numa.Buffer.Words.{be32, be16}
use numa.Prelude.{◌≡◌, ◌+◌, length, ◌++◌, ◌^◌, ◌<◌, Bool, true, false, [], ◌∷◌}
use numa.Record.{
  rdata_type, Rrsig, Ds, Nsec3, Rdata, Ipv4Addr, Ipv6Addr, DnsRecord, Dnskey, Soa, a, ns, cname,
  ptr, mx, soa, aaaa, dnskey, ds, rrsig, nsec, nsec3, unknown,
}
use numa.Question.{from_num, to_num, QueryType}
use numa.Question.RoundTrip.{text_wire, IsText}
use numa.Record.Writer.{octets}
use numa.Buffer.{Bytes}

pub record IsIpv4 (addr : Ipv4Addr) : Type 0 where
  pub o0 : addr.o0 < 256
  pub o1 : addr.o1 < 256
  pub o2 : addr.o2 < 256
  pub o3 : addr.o3 < 256

pub record IsIpv6 (addr : Ipv6Addr) : Type 0 where
  pub s0 : addr.s0 < 2 ^ 16
  pub s1 : addr.s1 < 2 ^ 16
  pub s2 : addr.s2 < 2 ^ 16
  pub s3 : addr.s3 < 2 ^ 16
  pub s4 : addr.s4 < 2 ^ 16
  pub s5 : addr.s5 < 2 ^ 16
  pub s6 : addr.s6 < 2 ^ 16
  pub s7 : addr.s7 < 2 ^ 16

pub record IsSoa (s : Soa) : Type 0 where
  pub mname : IsText s.mname
  pub rname : IsText s.rname
  pub serial : s.serial < 2 ^ 32
  pub refresh : s.refresh < 2 ^ 32
  pub retry : s.retry < 2 ^ 32
  pub expire : s.expire < 2 ^ 32
  pub minimum : s.minimum < 2 ^ 32

pub record IsDnskey (k : Dnskey) : Type 0 where
  pub flags : k.flags < 2 ^ 16
  pub size : 4 + length k.public_key < 2 ^ 16

pub record IsDs (d : Ds) : Type 0 where
  pub key_tag : d.key_tag < 2 ^ 16
  pub size : 4 + length d.digest < 2 ^ 16

pub record IsRrsig (r : Rrsig) : Type 0 where
  pub type_covered : r.type_covered < 2 ^ 16
  pub original_ttl : r.original_ttl < 2 ^ 32
  pub expiration : r.expiration < 2 ^ 32
  pub inception : r.inception < 2 ^ 32
  pub key_tag : r.key_tag < 2 ^ 16
  pub signer_name : IsText r.signer_name

pub record IsNsec3 (n : Nsec3) : Type 0 where
  pub iterations : n.iterations < 2 ^ 16
  pub salt : length n.salt < 256
  pub owner : length n.next_hashed_owner < 256
  pub size : 6 + length n.salt + length n.next_hashed_owner + length n.type_bitmap < 2 ^ 16

-- The types that `read` parses; it keeps the others as opaque bytes.
unfoldable pub is_native : QueryType → Bool
is_native QueryType.a = true
is_native QueryType.aaaa = true
is_native QueryType.ns = true
is_native QueryType.cname = true
is_native QueryType.ptr = true
is_native QueryType.mx = true
is_native QueryType.dnskey = true
is_native QueryType.ds = true
is_native QueryType.rrsig = true
is_native QueryType.nsec = true
is_native QueryType.nsec3 = true
is_native QueryType.soa = true
is_native _ = false

abbrev pub IsRdata : Rdata → Type 0
IsRdata (unknown qtype bytes) =
    (qtype < 2 ^ 16) × (is_native (from_num qtype) ≡ false) × (length bytes < 2 ^ 16)
IsRdata (a addr) = IsIpv4 addr
IsRdata (ns host) = IsText host
IsRdata (soa s) = IsSoa s
IsRdata (cname host) = IsText host
IsRdata (ptr host) = IsText host
IsRdata (mx priority host) = (priority < 2 ^ 16) × IsText host
IsRdata (aaaa addr) = IsIpv6 addr
IsRdata (dnskey k) = IsDnskey k
IsRdata (ds d) = IsDs d
IsRdata (rrsig r) = IsRrsig r
IsRdata (nsec next_domain type_bitmap) = IsText next_domain
IsRdata (nsec3 n) = IsNsec3 n

-- The bytes behind the length field.
unfoldable pub rdata_wire : (d : Rdata) → IsRdata d → Bytes
rdata_wire (unknown qtype bytes) h = bytes
rdata_wire (a addr) h = octets addr
rdata_wire (ns host) h = text_wire host h
rdata_wire (soa s) h =
    text_wire s.mname h.mname
    ++ (text_wire s.rname h.rname
        ++ (be32 s.serial
            ++ (be32 s.refresh ++ (be32 s.retry ++ (be32 s.expire ++ be32 s.minimum)))))
rdata_wire (cname host) h = text_wire host h
rdata_wire (ptr host) h = text_wire host h
rdata_wire (mx priority host) h = be16 priority ++ text_wire host h.1
rdata_wire (aaaa addr) h =
    be16 addr.s0
    ++ (be16 addr.s1
        ++ (be16 addr.s2
            ++ (be16 addr.s3
                ++ (be16 addr.s4 ++ (be16 addr.s5 ++ (be16 addr.s6 ++ be16 addr.s7))))))
rdata_wire (dnskey k) h =
    be16 k.flags ++ ((k.protocol ∷ []) ++ ((k.algorithm ∷ []) ++ k.public_key))
rdata_wire (ds d) h = be16 d.key_tag ++ ((d.algorithm ∷ []) ++ ((d.digest_type ∷ []) ++ d.digest))
rdata_wire (rrsig r) h =
    be16 r.type_covered
    ++ ((r.algorithm ∷ [])
        ++ ((r.labels ∷ [])
            ++ (be32 r.original_ttl
                ++ (be32 r.expiration
                    ++ (be32 r.inception
                        ++ (be16 r.key_tag
                            ++ (text_wire r.signer_name h.signer_name ++ r.signature)))))))
rdata_wire (nsec next_domain type_bitmap) h = text_wire next_domain h ++ type_bitmap
rdata_wire (nsec3 n) h =
    (n.hash_algorithm ∷ [])
    ++ ((n.flags ∷ [])
        ++ (be16 n.iterations
            ++ ((length n.salt ∷ [])
                ++ (n.salt
                    ++ ((length n.next_hashed_owner ∷ [])
                        ++ (n.next_hashed_owner ++ n.type_bitmap))))))

pub record IsRecord (r : DnsRecord) : Type 0 where
  pub domain : IsText r.domain
  pub rdata : IsRdata r.rdata
  pub number : to_num (rdata_type r.rdata) < 2 ^ 16
  pub ttl : r.ttl < 2 ^ 32

unfoldable pub record_wire : (r : DnsRecord) → IsRecord r → Bytes
record_wire r h =
    text_wire r.domain h.domain
    ++ (be16 (to_num (rdata_type r.rdata))
        ++ (be16 1
            ++ (be32 r.ttl
                ++ (be16 (length (rdata_wire r.rdata h.rdata)) ++ rdata_wire r.rdata h.rdata))))
