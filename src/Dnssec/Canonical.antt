-- ===== src/Dnssec/Canonical.antt =====
-- src/dnssec.rs: the canonical form of names and records, and the data that a signature covers. Where a name
-- does not fit a buffer or does not parse, the source panics: that is `none`.
use numa.Prelude.{
  take, map, ◌^◌, drop, ◌%◌, ltb, concat, ◌==◌, length, if◌then◌else◌, ◌++◌, if_some, Option, zero,
  suc, none, some, [], ◌∷◌, List, ℕ,
}
use numa.Record.{
  rdata_type, Ipv6Addr, Ipv4Addr, DnsRecord, Rdata, Rrsig, a, ns, cname, ptr, mx, soa, aaaa, dnskey,
  ds, rrsig, nsec, nsec3, unknown,
}
use numa.Error.{ok, err}
use numa.Buffer.{Bytes, new, filled}
use numa.Buffer.Words.{be16, be32}
use numa.Buffer.Name.{to_ascii_lowercase, write_qname}
use numa.DomainList.{sort}
use numa.Question.{to_num}
use numa.Dnssec.Keys.{dnskey_rdata}

unfoldable pub lower_labels : ℕ → Bytes → Option Bytes
lower_labels zero wire = some wire
lower_labels (suc fuel) [] = some []
lower_labels (suc fuel) (len ∷ rest) =
    if len == 0
    then some (len ∷ rest)
    else if ltb (length rest) len
    then none
    else if_some (lower_labels fuel (drop len rest))
        (λ more. some (len ∷ (map to_ascii_lowercase (take len rest) ++ more)))

-- No more labels than bytes.
unfoldable pub name_to_wire : Bytes → Option Bytes
name_to_wire name =
    let (result, b) = write_qname name new in
    elim result [
      | err e ↦ none
      | ok _ ↦ if_some (filled b) (λ wire. lower_labels (length wire) wire)
    ]

abbrev pub v4_octets : Ipv4Addr → Bytes
v4_octets addr = addr.o0 ∷ addr.o1 ∷ addr.o2 ∷ addr.o3 ∷ []

abbrev pub v6_octets : Ipv6Addr → Bytes
v6_octets addr =
    be16 addr.s0
    ++ (be16 addr.s1
        ++ (be16 addr.s2
            ++ (be16 addr.s3
                ++ (be16 addr.s4 ++ (be16 addr.s5 ++ (be16 addr.s6 ++ be16 addr.s7))))))

unfoldable pub record_rdata_canonical : Rdata → Option Bytes
record_rdata_canonical (a addr) = some (v4_octets addr)
record_rdata_canonical (aaaa addr) = some (v6_octets addr)
record_rdata_canonical (ns host) = name_to_wire host
record_rdata_canonical (cname host) = name_to_wire host
record_rdata_canonical (ptr host) = name_to_wire host
record_rdata_canonical (mx priority host) =
    if_some (name_to_wire host) (λ wire. some (be16 priority ++ wire))
record_rdata_canonical (dnskey k) = some (dnskey_rdata k)
record_rdata_canonical (ds d) = some (be16 d.key_tag ++ (d.algorithm ∷ d.digest_type ∷ d.digest))
record_rdata_canonical (nsec next bitmap) =
    if_some (name_to_wire next) (λ wire. some (wire ++ bitmap))
record_rdata_canonical (nsec3 n) = some (
    n.hash_algorithm
    ∷ n.flags
    ∷ (be16 n.iterations
        ++ (length n.salt % 256
            ∷ (n.salt
                ++ (length n.next_hashed_owner % 256 ∷ (n.next_hashed_owner ++ n.type_bitmap))))))
record_rdata_canonical (soa s) = if_some (name_to_wire s.mname) (λ mname.
    if_some (name_to_wire s.rname) (λ rname. some (
      mname
      ++ (rname
          ++ (be32 s.serial
              ++ (be32 s.refresh ++ (be32 s.retry ++ (be32 s.expire ++ be32 s.minimum))))))))
record_rdata_canonical (unknown qtype bytes) = some bytes
record_rdata_canonical (rrsig s) = some []

unfoldable pub record_to_canonical_wire : DnsRecord → ℕ → Option Bytes
record_to_canonical_wire r original_ttl = if_some (name_to_wire r.domain) (λ owner.
    if_some (record_rdata_canonical r.rdata) (λ rdata. some (
      owner
      ++ (be16 (to_num (rdata_type r.rdata))
          ++ (be16 1 ++ (be32 original_ttl ++ (be16 (length rdata % 2 ^ 16) ++ rdata)))))))

unfoldable pub canonical_records : List DnsRecord → ℕ → Option (List Bytes)
canonical_records [] original_ttl = some []
canonical_records (r ∷ rs) original_ttl =
    if_some (record_to_canonical_wire r original_ttl)
      (λ wire. if_some (canonical_records rs original_ttl) (λ wires. some (wire ∷ wires)))

unfoldable pub build_signed_data : Rrsig → List DnsRecord → Option Bytes
build_signed_data s rrset = if_some (name_to_wire s.signer_name) (λ signer.
    if_some (canonical_records rrset s.original_ttl) (λ wires. some (
      be16 s.type_covered
      ++ (s.algorithm
          ∷ s.labels
          ∷ (be32 s.original_ttl
              ++ (be32 s.expiration
                  ++ (be32 s.inception ++ (be16 s.key_tag ++ (signer ++ concat (sort wires))))))))))
