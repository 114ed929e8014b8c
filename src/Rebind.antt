-- ===== src/Rebind.antt =====
-- src/rebind.rs: private addresses are taken out of the answers to public names.
pub mod Clean
use numa.Prelude.{
  refl, zero, false, inl, if_some, ◌+◌, ◌-◌, is_nil, ◌&&◌, length, ◌||◌, ◌==◌, retain,
  if◌then◌else◌, Option, not, suc, true, none, some, inr, [], ◌∷◌, List, ℕ, Bool,
}
use numa.Svcb.{strip_private_hints}
use numa.Packet.{DnsPacket}
use numa.Text.{Text, Unicode}
use numa.Acl.{
  IpAddr, v4, v6, Networks, CidrMatcher, from_entries, Parsed, parsed_then, rebind_private_ranges,
  matches,
}
use numa.DomainList.{DomainList, insert, remove, is_empty, matches as matches_name}
use numa.Record.{DnsRecord, Rdata, a, aaaa, unknown}
use numa.Question.{to_num, QueryType}

abbrev pub default_ranges : List Text
default_ranges =
    (b'1' ∷ b'2' ∷ b'7' ∷ b'.' ∷ b'0' ∷ b'.' ∷ b'0' ∷ b'.' ∷ b'0' ∷ b'/' ∷ b'8' ∷ [])
    ∷ (b'1' ∷ b'0' ∷ b'.' ∷ b'0' ∷ b'.' ∷ b'0' ∷ b'.' ∷ b'0' ∷ b'/' ∷ b'8' ∷ [])
    ∷ (b'1' ∷ b'7' ∷ b'2' ∷ b'.' ∷ b'1' ∷ b'6' ∷ b'.' ∷ b'0' ∷ b'.' ∷ b'0' ∷ b'/' ∷ b'1' ∷ b'2'
        ∷ [])
    ∷ (b'1' ∷ b'9' ∷ b'2' ∷ b'.' ∷ b'1' ∷ b'6' ∷ b'8' ∷ b'.' ∷ b'0' ∷ b'.' ∷ b'0' ∷ b'/' ∷ b'1'
        ∷ b'6' ∷ [])
    ∷ (b'1' ∷ b'6' ∷ b'9' ∷ b'.' ∷ b'2' ∷ b'5' ∷ b'4' ∷ b'.' ∷ b'0' ∷ b'.' ∷ b'0' ∷ b'/' ∷ b'1'
        ∷ b'6' ∷ [])
    ∷ (b'1' ∷ b'0' ∷ b'0' ∷ b'.' ∷ b'6' ∷ b'4' ∷ b'.' ∷ b'0' ∷ b'.' ∷ b'0' ∷ b'/' ∷ b'1' ∷ b'0'
        ∷ [])
    ∷ (b'0' ∷ b'.' ∷ b'0' ∷ b'.' ∷ b'0' ∷ b'.' ∷ b'0' ∷ b'/' ∷ b'8' ∷ [])
    ∷ (b'f' ∷ b'c' ∷ b'0' ∷ b'0' ∷ b':' ∷ b':' ∷ b'/' ∷ b'7' ∷ [])
    ∷ (b'6' ∷ b'4' ∷ b':' ∷ b'f' ∷ b'f' ∷ b'9' ∷ b'b' ∷ b':' ∷ b':' ∷ b'/' ∷ b'9' ∷ b'6' ∷ [])
    ∷ (b'f' ∷ b'e' ∷ b'8' ∷ b'0' ∷ b':' ∷ b':' ∷ b'/' ∷ b'1' ∷ b'0' ∷ [])
    ∷ (b':' ∷ b':' ∷ b'1' ∷ b'/' ∷ b'1' ∷ b'2' ∷ b'8' ∷ [])
    ∷ (b':' ∷ b':' ∷ b'/' ∷ b'1' ∷ b'2' ∷ b'8' ∷ [])
    ∷ []

-- The records that stay whole, by their address.
unfoldable pub is_public_record : (IpAddr → Bool) → Rdata → Bool
is_public_record is_private (a addr) = not (is_private (v4 addr))
is_public_record is_private (aaaa addr) = not (is_private (v6 addr))
is_public_record is_private _ = true

-- The data that an HTTPS or SVCB record has after its hints are scrubbed, where they change.
unfoldable pub scrub_rdata : (IpAddr → Bool) → Rdata → Option Rdata
scrub_rdata is_private (unknown qtype bytes) =
    if (qtype == to_num QueryType.https) || (qtype == to_num QueryType.svcb)
    then if_some (strip_private_hints bytes is_private) (λ scrubbed. some (unknown qtype scrubbed))
    else none
scrub_rdata is_private _ = none

-- One round of the loop of `scrub_section`: the record with the data that changes, if it does, and the
-- count.
abbrev pub put_scrubbed : DnsRecord → Option Rdata → ℕ × List DnsRecord → ℕ × List DnsRecord
put_scrubbed r none (acted, rest) = (acted, r ∷ rest)
put_scrubbed r (some rdata) (acted, rest) = (suc acted, record r { rdata = rdata } ∷ rest)

unfoldable pub scrub_records : (IpAddr → Bool) → List DnsRecord → ℕ × List DnsRecord
scrub_records is_private [] = (0, [])
scrub_records is_private (r ∷ rs) =
    put_scrubbed r (scrub_rdata is_private r.rdata) (scrub_records is_private rs)

unfoldable pub scrub_section : (IpAddr → Bool) → List DnsRecord → ℕ × List DnsRecord
scrub_section is_private records =
    let left = retain (λ r. is_public_record is_private r.rdata) records in
    let (acted, scrubbed) = scrub_records is_private left in
    (length records - length left + acted, scrubbed)

module _ ⦃unicode : Unicode⦄ ⦃networks : Networks⦄ where
  pub record RebindFilter : Type 0 where
    pub enabled : Bool
    pub ranges : CidrMatcher
    pub range_strings : List Text
    pub allowlist : DomainList

  unfoldable pub new_filter : Bool → DomainList → List Text → Parsed RebindFilter
  new_filter enabled allowlist custom_ranges =
      let range_strings = if is_nil custom_ranges then default_ranges else custom_ranges in
      parsed_then (from_entries range_strings [] rebind_private_ranges) (λ ranges. inr (record {
        enabled = enabled;
        ranges = ranges;
        range_strings = range_strings;
        allowlist = allowlist;
      }))

  abbrev pub set_enabled : Bool → RebindFilter → RebindFilter
  set_enabled enabled f = record f { enabled = enabled }

  abbrev pub add_to_allowlist : Bool → Text → RebindFilter → RebindFilter
  add_to_allowlist written domain f = record f { allowlist = insert written domain f.allowlist }

  abbrev pub remove_from_allowlist : Bool → Text → RebindFilter → Bool × RebindFilter
  remove_from_allowlist written domain f =
      let (removed, l) = remove written domain f.allowlist in (removed, record f { allowlist = l })

  unfoldable pub is_allowed : Text → RebindFilter → Bool
  is_allowed qname f = not (is_empty f.allowlist) && matches_name qname f.allowlist

  unfoldable pub apply : Text → RebindFilter → DnsPacket → ℕ × DnsPacket
  apply qname f response =
      if not f.enabled || is_allowed qname f
      then (0, response)
      else let is_private = λ (ip : IpAddr). matches ip f.ranges in
        let (n, answers) = scrub_section is_private response.answers in
        let (m, authorities) = scrub_section is_private response.authorities in
        let (k, resources) = scrub_section is_private response.resources in
        (
          n + m + k,
          record response { answers = answers; authorities = authorities; resources = resources },
        )
