-- ===== src/Record/Read.antt =====
-- `DnsRecord::read` on the wire form of a record.
use numa.Record.Valid.{
  IsRdata, IsRrsig, IsIpv6, IsNsec3, IsDs, is_native, IsSoa, IsDnskey, rdata_wire, IsIpv4,
}
use numa.Record.{
  ipv6_of, Ipv6Addr, Rrsig, read_rdata, Ds, Nsec3, read_mx, read_aaaa, read_ds, read_nsec,
  read_nsec3, rdata_type, read_opaque, read_rrsig, ipv4_of, Rdata, Soa, Dnskey, read_a, read_soa,
  read_dnskey, Ipv4Addr, read_host, a, ns, cname, ptr, mx, soa, aaaa, dnskey, ds, rrsig, nsec,
  nsec3, unknown,
}
use numa.Prelude.Bits.{low_word, low_byte}
use numa.Question.{from_num, QueryType, to_num}
use numa.Prelude.{
  ◌%◌, length-append, bit_and, ◌++◌, ◌/◌, ◌*◌, arith, ap, length, ◌+◌, subst, ◌≡◌, ◌^◌, ◌<◌, ℕ,
  refl, false, [], ◌∷◌,
}
use numa.Buffer.{Buffer, Bytes}
use numa.Buffer.Words.{take_bytes-Reads, be16, read-Reads, read_u16-Reads, read_u32-Reads, be32}
use numa.Exec.{Exec}
use numa.Record.Fields.{read_rest-Reads}
use numa.Buffer.Codec.{Reads-last, Reads-then, Reads}
use numa.Question.RoundTrip.{read_text-Reads, text_wire, IsText}
use numa.Record.Writer.{octets}

read_soa-Reads : (p : ℕ) (s : Soa) (h : IsSoa s) → Reads p read_soa (soa s) (rdata_wire (soa s) h)
unfolding read_soa rdata_wire
read_soa-Reads p s h = Reads-then _ (read_text-Reads _ s.mname h.mname) (
    Reads-then _ (read_text-Reads _ s.rname h.rname) (
      Reads-then _ (read_u32-Reads _ _ h.serial) (
        Reads-then _ (read_u32-Reads _ _ h.refresh) (
          Reads-then _ (read_u32-Reads _ _ h.retry) (
            Reads-then _ (read_u32-Reads _ _ h.expire)
              (Reads-last _ (soa s) (read_u32-Reads _ _ h.minimum) refl))))))

-- Four octets as one big-endian word.
ipv4_word :
    (addr : Ipv4Addr)
    → IsIpv4 addr
    → (w : ℕ) × (w < 2 ^ 32) × (be32 w ≡ octets addr) × (ipv4_of w ≡ addr)
ipv4_word addr h =
    let w : ℕ = ((addr.o0 * 256 + addr.o1) * 256 + addr.o2) * 256 + addr.o3 in
    let b0 : w / 2 ^ 24 ≡ addr.o0 = omega arith in
    let b1 : w / 2 ^ 16 % 256 ≡ addr.o1 = omega arith in
    let b2 : w / 256 % 256 ≡ addr.o2 = omega arith in
    let b3 : w % 256 ≡ addr.o3 = omega arith in
    let f0 : bit_and (w / 2 ^ 24) 0xff ≡ addr.o0 = omega (arith, low_byte (w / 2 ^ 24)) in
    let f1 : bit_and (w / 2 ^ 16) 0xff ≡ addr.o1 = omega (arith, low_byte (w / 2 ^ 16)) in
    let f2 : bit_and (w / 2 ^ 8) 0xff ≡ addr.o2 = omega (arith, low_byte (w / 2 ^ 8)) in
    let f3 : bit_and w 0xff ≡ addr.o3 = omega (arith, low_byte w) in
    (
      w,
      omega arith,
      λ i. b0 i ∷ b1 i ∷ b2 i ∷ b3 i ∷ [],
      λ i. record { o0 = f0 i; o1 = f1 i; o2 = f2 i; o3 = f3 i },
    )

-- Two segments as one big-endian word.
segments_word :
    (s t : ℕ)
    → s < 2 ^ 16
    → t < 2 ^ 16
    → (w : ℕ) × (w < 2 ^ 32)
      × (be32 w ≡ be16 s ++ be16 t)
      × (bit_and (w / 2 ^ 16) 0xffff ≡ s)
      × (bit_and w 0xffff ≡ t)
segments_word s t hs ht =
    let w : ℕ = s * 65536 + t in
    let b0 : w / 2 ^ 24 ≡ s / 256 = omega arith in
    let b1 : w / 2 ^ 16 % 256 ≡ s % 256 = omega arith in
    let b2 : w / 256 % 256 ≡ t / 256 = omega arith in
    let b3 : w % 256 ≡ t % 256 = omega arith in
    (
      w,
      omega arith,
      λ i. b0 i ∷ b1 i ∷ b2 i ∷ b3 i ∷ [],
      omega (arith, low_word (w / 2 ^ 16)),
      omega (arith, low_word w),
    )

read_aaaa-Reads :
    (p : ℕ) (addr : Ipv6Addr) (h : IsIpv6 addr)
    → Reads p read_aaaa (aaaa addr) (rdata_wire (aaaa addr) h)
unfolding read_aaaa rdata_wire
read_aaaa-Reads p addr h =
    let (w1, f1, b1, s0, s1) = segments_word addr.s0 addr.s1 h.s0 h.s1 in
    let (w2, f2, b2, s2, s3) = segments_word addr.s2 addr.s3 h.s2 h.s3 in
    let (w3, f3, b3, s4, s5) = segments_word addr.s4 addr.s5 h.s4 h.s5 in
    let (w4, f4, b4, s6, s7) = segments_word addr.s6 addr.s7 h.s6 h.s7 in
    let value : aaaa (ipv6_of w1 w2 w3 w4) ≡ aaaa addr = λ i. aaaa (record {
      s0 = s0 i;
      s1 = s1 i;
      s2 = s2 i;
      s3 = s3 i;
      s4 = s4 i;
      s5 = s5 i;
      s6 = s6 i;
      s7 = s7 i;
    }) in
    subst (λ (xs : Bytes). Reads p read_aaaa (aaaa addr) xs) (λ i. b1 i ++ (b2 i ++ (b3 i ++ b4 i)))
      (Reads-then _ (read_u32-Reads _ w1 f1) (
        Reads-then _ (read_u32-Reads _ w2 f2) (
          Reads-then _ (read_u32-Reads _ w3 f3)
            (Reads-last _ (aaaa addr) (read_u32-Reads _ w4 f4) value))))

read_a-Reads : (p : ℕ) (addr : Ipv4Addr) (h : IsIpv4 addr) → Reads p read_a (a addr) (octets addr)
unfolding read_a
read_a-Reads p addr h =
    let (w, fits, bytes, value) = ipv4_word addr h in
    subst (λ (xs : Bytes). Reads p read_a (a addr) xs) bytes
      (Reads-last _ (a addr) (read_u32-Reads p w fits) (ap a value))

read_host-Reads :
    (p : ℕ) (make : Bytes → Rdata) (host : Bytes) (h : IsText host)
    → Reads p (read_host make) (make host) (text_wire host h)
unfolding read_host
read_host-Reads p make host h = Reads-last _ (make host) (read_text-Reads p host h) refl

read_dnskey-Reads :
    (p e : ℕ) (k : Dnskey) (h : IsDnskey k)
    → e ≡ p + length (rdata_wire (dnskey k) h)
    → Reads p (read_dnskey e) (dnskey k) (rdata_wire (dnskey k) h)
unfolding read_dnskey rdata_wire
read_dnskey-Reads p e k h end = Reads-then _ (read_u16-Reads _ _ h.flags) (
    Reads-then _ (read-Reads _ k.protocol) (
      Reads-then _ (read-Reads _ k.algorithm)
        (Reads-last _ (dnskey k) (read_rest-Reads _ e k.public_key (omega arith)) refl)))

read_mx-Reads :
    (p priority : ℕ) (host : Bytes) (fits : priority < 2 ^ 16) (h : IsText host)
    → Reads p read_mx (mx priority host) (be16 priority ++ text_wire host h)
unfolding read_mx
read_mx-Reads p priority host fits h =
    Reads-then _ (read_u16-Reads _ _ fits)
      (Reads-last _ (mx priority host) (read_text-Reads _ host h) refl)

read_ds-Reads :
    (p e : ℕ) (d : Ds) (h : IsDs d)
    → e ≡ p + length (rdata_wire (ds d) h)
    → Reads p (read_ds e) (ds d) (rdata_wire (ds d) h)
unfolding read_ds rdata_wire
read_ds-Reads p e d h end = Reads-then _ (read_u16-Reads _ _ h.key_tag) (
    Reads-then _ (read-Reads _ d.algorithm) (
      Reads-then _ (read-Reads _ d.digest_type)
        (Reads-last _ (ds d) (read_rest-Reads _ e d.digest (omega arith)) refl)))

read_rrsig-Reads :
    (p e : ℕ) (r : Rrsig) (h : IsRrsig r)
    → e ≡ p + length (rdata_wire (rrsig r) h)
    → Reads p (read_rrsig e) (rrsig r) (rdata_wire (rrsig r) h)
unfolding read_rrsig rdata_wire
read_rrsig-Reads p e r h end = Reads-then _ (read_u16-Reads _ _ h.type_covered) (
    Reads-then _ (read-Reads _ r.algorithm) (
      Reads-then _ (read-Reads _ r.labels) (
        Reads-then _ (read_u32-Reads _ _ h.original_ttl) (
          Reads-then _ (read_u32-Reads _ _ h.expiration) (
            Reads-then _ (read_u32-Reads _ _ h.inception) (
              Reads-then _ (read_u16-Reads _ _ h.key_tag) (
                Reads-then _ (read_text-Reads _ r.signer_name h.signer_name) (
                  Reads-last _ (rrsig r)
                    (read_rest-Reads _ e r.signature (
                      omega
                        (arith, length-append (text_wire r.signer_name h.signer_name) r.signature)))
                    refl))))))))

read_nsec-Reads :
    (p e : ℕ) (next_domain type_bitmap : Bytes) (h : IsText next_domain)
    → e ≡ p + length (text_wire next_domain h ++ type_bitmap)
    → Reads p (read_nsec e) (nsec next_domain type_bitmap) (text_wire next_domain h ++ type_bitmap)
unfolding read_nsec
read_nsec-Reads p e next_domain type_bitmap h end = Reads-then _ (read_text-Reads _ next_domain h) (
    Reads-last _ (nsec next_domain type_bitmap)
      (read_rest-Reads _ e type_bitmap
        (omega (arith, length-append (text_wire next_domain h) type_bitmap)))
      refl)

read_nsec3-Reads :
    (p e : ℕ) (n : Nsec3) (h : IsNsec3 n)
    → e ≡ p + length (rdata_wire (nsec3 n) h)
    → Reads p (read_nsec3 e) (nsec3 n) (rdata_wire (nsec3 n) h)
unfolding read_nsec3 rdata_wire
read_nsec3-Reads p e n h end = Reads-then _ (read-Reads _ n.hash_algorithm) (
    Reads-then _ (read-Reads _ n.flags) (
      Reads-then _ (read_u16-Reads _ _ h.iterations) (
        Reads-then _ (read-Reads _ (length n.salt)) (
          Reads-then _ (take_bytes-Reads _ n.salt) (
            Reads-then _ (read-Reads _ (length n.next_hashed_owner)) (
              Reads-then _ (take_bytes-Reads _ n.next_hashed_owner) (
                Reads-last _ (nsec3 n)
                  (read_rest-Reads _ e n.type_bitmap (
                    omega (
                      arith,
                      length-append n.salt
                          (length n.next_hashed_owner ∷ (n.next_hashed_owner ++ n.type_bitmap)),
                      length-append n.next_hashed_owner n.type_bitmap,
                    )))
                  refl)))))))

-- The match of `read` at a type that it does not parse.
read_rdata_opaque :
    (t : QueryType) (num len e : ℕ)
    → is_native t ≡ false
    → read_rdata t num len e ≡ read_opaque num len
unfolding is_native read_rdata
read_rdata_opaque QueryType.a num len e h = cc
read_rdata_opaque QueryType.aaaa num len e h = cc
read_rdata_opaque QueryType.ns num len e h = cc
read_rdata_opaque QueryType.cname num len e h = cc
read_rdata_opaque QueryType.ptr num len e h = cc
read_rdata_opaque QueryType.mx num len e h = cc
read_rdata_opaque QueryType.dnskey num len e h = cc
read_rdata_opaque QueryType.ds num len e h = cc
read_rdata_opaque QueryType.rrsig num len e h = cc
read_rdata_opaque QueryType.nsec num len e h = cc
read_rdata_opaque QueryType.nsec3 num len e h = cc
read_rdata_opaque QueryType.soa num len e h = cc
read_rdata_opaque _ num len e h = refl

read_opaque-Reads :
    (p qtype : ℕ) (bytes : Bytes)
    → Reads p (read_opaque qtype (length bytes)) (unknown qtype bytes) bytes
unfolding read_opaque
read_opaque-Reads p qtype bytes = Reads-last _ (unknown qtype bytes) (take_bytes-Reads p bytes) refl

abbrev pub read_typed : Rdata → ℕ → ℕ → Exec Buffer Rdata
read_typed d len e = read_rdata (from_num (to_num (rdata_type d))) (to_num (rdata_type d)) len e

-- Every variant reads back from its data, given the length of it.
pub read_rdata-Reads :
    (p : ℕ) (d : Rdata) (h : IsRdata d)
    → Reads p
        (read_typed d (length (rdata_wire d h)) (p + length (rdata_wire d h)))
        d
        (rdata_wire d h)
unfolding rdata_type to_num from_num read_rdata
read_rdata-Reads p (unknown qtype bytes) h =
    rw
      (read_rdata_opaque (from_num qtype) qtype (length (rdata_wire (unknown qtype bytes) h))
        (p + length (rdata_wire (unknown qtype bytes) h)) h.1)
      (unfold rdata_wire in read_opaque-Reads p qtype bytes)
read_rdata-Reads p (a addr) h = unfold rdata_wire in read_a-Reads p addr h
read_rdata-Reads p (ns host) h = unfold rdata_wire in read_host-Reads p ns host h
read_rdata-Reads p (cname host) h = unfold rdata_wire in read_host-Reads p cname host h
read_rdata-Reads p (ptr host) h = unfold rdata_wire in read_host-Reads p ptr host h
read_rdata-Reads p (mx priority host) h = unfold rdata_wire in read_mx-Reads p priority host h.0 h.1
read_rdata-Reads p (soa s) h = read_soa-Reads p s h
read_rdata-Reads p (aaaa addr) h = read_aaaa-Reads p addr h
read_rdata-Reads p (dnskey k) h = read_dnskey-Reads p _ k h refl
read_rdata-Reads p (ds d) h = read_ds-Reads p _ d h refl
read_rdata-Reads p (rrsig r) h = read_rrsig-Reads p _ r h refl
read_rdata-Reads p (nsec next_domain type_bitmap) h =
    unfold rdata_wire in read_nsec-Reads p _ next_domain type_bitmap h refl
read_rdata-Reads p (nsec3 n) h = read_nsec3-Reads p _ n h refl
