-- ===== src/Record/Write.antt =====
-- `DnsRecord::write` appends the wire form of the record.
use numa.Record.Fields.{with_rdlength-Writes}
use numa.Record.Writer.{
  octets, write_aaaa, write_dnskey, write_ds, write_nsec3, write_rrsig, write_rdata, write_soa,
}
use numa.Prelude.{
  length-append, subst, ◌%◌, ◌≡◌, ◌++◌, arith, ◌+◌, ◌^◌, length, ◌<◌, ℕ, suc, [], ◌∷◌,
}
use numa.Buffer.Words.{write-Writes, write_u32-Writes, write_bytes-Writes, write_u16-Writes, be16}
use numa.Buffer.Codec.{◌▸◌, Writes}
use numa.Record.Valid.{IsDs, IsIpv6, IsDnskey, IsSoa, IsNsec3, IsRrsig, IsRdata, rdata_wire}
use numa.Question.RoundTrip.{write_text-Writes}
use numa.Buffer.{write_u8, write_u16}
use numa.Record.{
  Ds, Dnskey, Ipv6Addr, Nsec3, Soa, Rrsig, Rdata, a, ns, cname, ptr, mx, soa, aaaa, dnskey, ds,
  rrsig, nsec, nsec3, unknown,
}

write_u16_mod : (n : ℕ) → n < 2 ^ 16 → Writes (write_u16 (n % 2 ^ 16)) tt (be16 n)
write_u16_mod n h = let e : n % 2 ^ 16 ≡ n = omega arith in rw e (write_u16-Writes n h)

write_byte_mod : (n : ℕ) → n < 256 → Writes (write_u8 (n % 256)) tt (n ∷ [])
write_byte_mod n h = let e : n % 256 ≡ n = omega arith in rw e (write-Writes n)

write_soa-Writes : (s : Soa) (h : IsSoa s) → Writes (write_soa s) tt (rdata_wire (soa s) h)
unfolding write_soa rdata_wire
write_soa-Writes s h =
    write_text-Writes s.mname h.mname
    ▸ write_text-Writes s.rname h.rname
    ▸ write_u32-Writes _ h.serial
    ▸ write_u32-Writes _ h.refresh
    ▸ write_u32-Writes _ h.retry
    ▸ write_u32-Writes _ h.expire
    ▸ write_u32-Writes _ h.minimum

write_rrsig-Writes :
    (r : Rrsig) (h : IsRrsig r) → Writes (write_rrsig r) tt (rdata_wire (rrsig r) h)
unfolding write_rrsig rdata_wire
write_rrsig-Writes r h =
    write_u16-Writes _ h.type_covered
    ▸ write-Writes r.algorithm
    ▸ write-Writes r.labels
    ▸ write_u32-Writes _ h.original_ttl
    ▸ write_u32-Writes _ h.expiration
    ▸ write_u32-Writes _ h.inception
    ▸ write_u16-Writes _ h.key_tag
    ▸ write_text-Writes r.signer_name h.signer_name
    ▸ write_bytes-Writes r.signature

abbrev IsWritten : (d : Rdata) → IsRdata d → Type 0
IsWritten d h = Writes (write_rdata d) tt (be16 (length (rdata_wire d h)) ++ rdata_wire d h)

write_aaaa-Writes : (addr : Ipv6Addr) (h : IsIpv6 addr) → IsWritten (aaaa addr) h
unfolding write_rdata write_aaaa rdata_wire
write_aaaa-Writes addr h =
    write_u16-Writes 16 (omega arith)
    ▸ write_u16-Writes addr.s0 h.s0
    ▸ write_u16-Writes addr.s1 h.s1
    ▸ write_u16-Writes addr.s2 h.s2
    ▸ write_u16-Writes addr.s3 h.s3
    ▸ write_u16-Writes addr.s4 h.s4
    ▸ write_u16-Writes addr.s5 h.s5
    ▸ write_u16-Writes addr.s6 h.s6
    ▸ write_u16-Writes addr.s7 h.s7

write_dnskey-Writes : (k : Dnskey) (h : IsDnskey k) → IsWritten (dnskey k) h
unfolding write_rdata write_dnskey rdata_wire
write_dnskey-Writes k h =
    subst (λ (n : ℕ). Writes (write_u16 ((4 + length k.public_key) % 2 ^ 16)) tt (be16 n))
      {x = 4 + length k.public_key} {y = suc (suc (suc (suc (length k.public_key))))} (omega arith)
      (write_u16_mod _ h.size)
    ▸ write_u16-Writes k.flags h.flags
    ▸ write-Writes k.protocol
    ▸ write-Writes k.algorithm
    ▸ write_bytes-Writes k.public_key

write_ds-Writes : (d : Ds) (h : IsDs d) → IsWritten (ds d) h
unfolding write_rdata write_ds rdata_wire
write_ds-Writes d h =
    subst (λ (n : ℕ). Writes (write_u16 ((4 + length d.digest) % 2 ^ 16)) tt (be16 n))
      {x = 4 + length d.digest} {y = suc (suc (suc (suc (length d.digest))))} (omega arith)
      (write_u16_mod _ h.size)
    ▸ write_u16-Writes d.key_tag h.key_tag
    ▸ write-Writes d.algorithm
    ▸ write-Writes d.digest_type
    ▸ write_bytes-Writes d.digest

nsec3_size :
    (n : Nsec3) (h : IsNsec3 n)
    → 1 + 1 + 2 + 1 + length n.salt + 1 + length n.next_hashed_owner + length n.type_bitmap
      ≡ length (rdata_wire (nsec3 n) h)
unfolding rdata_wire
nsec3_size n h = omega (
  arith,
  length-append n.salt (length n.next_hashed_owner ∷ (n.next_hashed_owner ++ n.type_bitmap)),
  length-append n.next_hashed_owner n.type_bitmap,
)

write_nsec3-Writes : (n : Nsec3) (h : IsNsec3 n) → IsWritten (nsec3 n) h
unfolding write_rdata write_nsec3
write_nsec3-Writes n h = rw (nsec3_size n h) (
    write_u16_mod (length (rdata_wire (nsec3 n) h)) (omega (arith, nsec3_size n h, h.size))
    ▸ (unfold rdata_wire in
        write-Writes n.hash_algorithm
        ▸ write-Writes n.flags
        ▸ write_u16-Writes n.iterations h.iterations
        ▸ write_byte_mod (length n.salt) h.salt
        ▸ write_bytes-Writes n.salt
        ▸ write_byte_mod (length n.next_hashed_owner) h.owner
        ▸ write_bytes-Writes n.next_hashed_owner
        ▸ write_bytes-Writes n.type_bitmap))

-- Every variant writes the length of its data and the data.
pub write_rdata-Writes : (d : Rdata) (h : IsRdata d) → IsWritten d h
unfolding write_rdata
write_rdata-Writes (unknown qtype bytes) h =
    unfold rdata_wire in write_u16_mod (length bytes) h.2 ▸ write_bytes-Writes bytes
write_rdata-Writes (a addr) h =
    unfold rdata_wire in write_u16-Writes 4 (omega arith) ▸ write_bytes-Writes (octets addr)
write_rdata-Writes (ns host) h =
    unfold rdata_wire in with_rdlength-Writes _ _ (write_text-Writes host h)
write_rdata-Writes (cname host) h =
    unfold rdata_wire in with_rdlength-Writes _ _ (write_text-Writes host h)
write_rdata-Writes (ptr host) h =
    unfold rdata_wire in with_rdlength-Writes _ _ (write_text-Writes host h)
write_rdata-Writes (mx priority host) h =
    unfold rdata_wire in
    with_rdlength-Writes _ _ (write_u16-Writes priority h.0 ▸ write_text-Writes host h.1)
write_rdata-Writes (soa s) h = with_rdlength-Writes _ _ (write_soa-Writes s h)
write_rdata-Writes (aaaa addr) h = write_aaaa-Writes addr h
write_rdata-Writes (dnskey k) h = write_dnskey-Writes k h
write_rdata-Writes (ds d) h = write_ds-Writes d h
write_rdata-Writes (rrsig r) h = with_rdlength-Writes _ _ (write_rrsig-Writes r h)
write_rdata-Writes (nsec next_domain type_bitmap) h =
    unfold rdata_wire in
    with_rdlength-Writes _ _ (write_text-Writes next_domain h ▸ write_bytes-Writes type_bitmap)
write_rdata-Writes (nsec3 n) h = write_nsec3-Writes n h
