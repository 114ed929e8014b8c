-- ===== src/Acl/Mapped.antt =====
-- Peers behind a dual-stack socket, and exclusion.
use numa.Acl.{
  is_loopback, is_mapped, v6, v4, IpAddr, to_canonical, matches, allows, CidrMatcher, Networks,
}
use numa.Prelude.{
  ◌||◌, is_nil, any, if◌then◌else◌, ap, arith, Bool-cases, ◌/◌, ◌%◌, ◌+◌, ◌*◌, ◌<◌, ◌≡◌, refl, true,
  false, inl, inr, ℕ, bytes_key,
}
use numa.Record.Valid.{IsIpv4}
use numa.Record.{Ipv4Addr}

-- `::ffff:a.b.c.d`
unfoldable pub mapped : Ipv4Addr → IpAddr
mapped a = v6 (record {
  s0 = 0;
  s1 = 0;
  s2 = 0;
  s3 = 0;
  s4 = 0;
  s5 = 0xffff;
  s6 = a.o0 * 256 + a.o1;
  s7 = a.o2 * 256 + a.o3;
})

high_octet : (a b : ℕ) → b < 256 → (a * 256 + b) / 256 ≡ a
high_octet a b h = omega arith

low_octet : (a b : ℕ) → b < 256 → (a * 256 + b) % 256 ≡ b
low_octet a b h = omega arith

pub to_canonical-mapped : (a : Ipv4Addr) → IsIpv4 a → to_canonical (mapped a) ≡ v4 a
unfolding to_canonical mapped
to_canonical-mapped a h =
    rw
      (
        high_octet a.o0 a.o1 h.o1,
        low_octet a.o0 a.o1 h.o1,
        high_octet a.o2 a.o3 h.o3,
        low_octet a.o2 a.o3 h.o3,
      )
      refl

pub to_canonical_twice : (ip : IpAddr) → to_canonical (to_canonical ip) ≡ to_canonical ip
unfolding to_canonical
to_canonical_twice (v4 a) = refl
to_canonical_twice (v6 a) = elim (Bool-cases (is_mapped a)) [
  | inl here ↦ rw here refl
  | inr other ↦ rw (other, other) refl
]

module _ ⦃networks : Networks⦄ where
  -- A peer that a dual-stack socket gives as an IPv4-mapped address gets the verdicts of its IPv4
  -- address: of the matcher, and of the list that admits clients.
  pub allows-mapped :
      (a : Ipv4Addr) (m : CidrMatcher)
      → IsIpv4 a
      → (matches (mapped a) m ≡ matches (v4 a) m) × (allows (mapped a) m ≡ allows (v4 a) m)
  unfolding matches allows to_canonical
  allows-mapped a m h =
      let same : to_canonical (mapped a) ≡ to_canonical (v4 a) = to_canonical-mapped a h in
      (
        ap
            (λ ip.
              if any (λ n. networks.contains n ip) m.exclude
              then false
              else any (λ n. networks.contains n ip) m.include)
            same,
        ap (λ ip. if is_nil m.include || is_loopback ip then true else matches ip m) same,
      )
