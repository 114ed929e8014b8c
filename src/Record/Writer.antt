-- ===== src/Record/Writer.antt =====
-- src/record.rs: `DnsRecord::write`.
-- The placeholder of the length, the body, and the length patched in.
use numa.Prelude.{◌^◌, ◌%◌, length, ◌-◌, ◌+◌, ℕ, [], ◌∷◌}
use numa.Exec.{pure, ◌>>=◌, ◌>>◌, Exec}
use numa.Record.{
  a, ns, cname, ptr, mx, soa, aaaa, dnskey, ds, rrsig, nsec, nsec3, unknown, rdata_type, Ipv4Addr,
  Nsec3, DnsRecord, Soa, Ipv6Addr, Dnskey, Rrsig, Ds, Rdata,
}
use numa.Buffer.{write_bytes, write_u32, write_u8, set_u16, write_u16, position, Buffer, Bytes}
use numa.Question.{to_num}
use numa.Buffer.Name.{write_qname}

unfoldable pub with_rdlength : Exec Buffer (Unit {0}) → Exec Buffer (Unit {0})
with_rdlength body = do
  pos ← position
  write_u16 0
  body
  end ← position
  set_u16 pos ((end - (pos + 2)) % 2 ^ 16)

unfoldable pub write_record_header : Bytes → ℕ → ℕ → Exec Buffer (Unit {0})
write_record_header domain qtype ttl = do
  write_qname domain
  write_u16 qtype
  write_u16 1
  write_u32 ttl

abbrev pub octets : Ipv4Addr → Bytes
octets addr = addr.o0 ∷ addr.o1 ∷ addr.o2 ∷ addr.o3 ∷ []

unfoldable pub write_aaaa : Ipv6Addr → Exec Buffer (Unit {0})
write_aaaa addr = do
  write_u16 16
  write_u16 addr.s0
  write_u16 addr.s1
  write_u16 addr.s2
  write_u16 addr.s3
  write_u16 addr.s4
  write_u16 addr.s5
  write_u16 addr.s6
  write_u16 addr.s7

unfoldable pub write_soa : Soa → Exec Buffer (Unit {0})
write_soa s = do
  write_qname s.mname
  write_qname s.rname
  write_u32 s.serial
  write_u32 s.refresh
  write_u32 s.retry
  write_u32 s.expire
  write_u32 s.minimum

unfoldable pub write_dnskey : Dnskey → Exec Buffer (Unit {0})
write_dnskey k = do
  write_u16 ((4 + length k.public_key) % 2 ^ 16)
  write_u16 k.flags
  write_u8 k.protocol
  write_u8 k.algorithm
  write_bytes k.public_key

unfoldable pub write_ds : Ds → Exec Buffer (Unit {0})
write_ds d = do
  write_u16 ((4 + length d.digest) % 2 ^ 16)
  write_u16 d.key_tag
  write_u8 d.algorithm
  write_u8 d.digest_type
  write_bytes d.digest

unfoldable pub write_rrsig : Rrsig → Exec Buffer (Unit {0})
write_rrsig r = do
  write_u16 r.type_covered
  write_u8 r.algorithm
  write_u8 r.labels
  write_u32 r.original_ttl
  write_u32 r.expiration
  write_u32 r.inception
  write_u16 r.key_tag
  write_qname r.signer_name
  write_bytes r.signature

unfoldable pub write_nsec3 : Nsec3 → Exec Buffer (Unit {0})
write_nsec3 n = do
  write_u16 (
      (1 + 1 + 2 + 1 + length n.salt + 1 + length n.next_hashed_owner + length n.type_bitmap)
      % 2 ^ 16)
  write_u8 n.hash_algorithm
  write_u8 n.flags
  write_u16 n.iterations
  write_u8 (length n.salt % 256)
  write_bytes n.salt
  write_u8 (length n.next_hashed_owner % 256)
  write_bytes n.next_hashed_owner
  write_bytes n.type_bitmap

-- What a variant writes behind its record header, the length included.
unfoldable pub write_rdata : Rdata → Exec Buffer (Unit {0})
write_rdata (a addr) = do write_u16 4; write_bytes (octets addr)
write_rdata (ns host) = with_rdlength (write_qname host)
write_rdata (cname host) = with_rdlength (write_qname host)
write_rdata (ptr host) = with_rdlength (write_qname host)
write_rdata (mx priority host) = with_rdlength (do write_u16 priority; write_qname host)
write_rdata (soa s) = with_rdlength (write_soa s)
write_rdata (aaaa addr) = write_aaaa addr
write_rdata (dnskey k) = write_dnskey k
write_rdata (ds d) = write_ds d
write_rdata (rrsig r) = with_rdlength (write_rrsig r)
write_rdata (nsec next_domain type_bitmap) =
    with_rdlength (do write_qname next_domain; write_bytes type_bitmap)
write_rdata (nsec3 n) = write_nsec3 n
write_rdata (unknown qtype bytes) = do write_u16 (length bytes % 2 ^ 16); write_bytes bytes

-- The count of bytes that the source returns is used by no caller but its tests; it is the cursor's
-- advance.
unfoldable pub write_record : DnsRecord → Exec Buffer ℕ
write_record r = do
  start_pos ← position
  write_record_header r.domain (to_num (rdata_type r.rdata)) r.ttl
  write_rdata r.rdata
  end ← position
  pure (end - start_pos)
