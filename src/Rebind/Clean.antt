-- ===== src/Rebind/Clean.antt =====
-- What is left of a response.
use numa.Prelude.{
  ◌+◌, length-retain, retain_whole, ◌∙◌, arith, ◌||◌, retain-All, ◌==◌, ap, Option-cases, not,
  retain, Bool-cases, ◌≡◌, Option, All, refl, true, false, none, some, inl, inr, [], ◌∷◌, List, ℕ,
  Bool,
}
use numa.Rebind.{
  put_scrubbed, is_allowed, apply, scrub_section, scrub_records, scrub_rdata, is_public_record,
  RebindFilter,
}
use numa.Svcb.{strip_private_hints}
use numa.Question.{QueryType, to_num}
use numa.Packet.{DnsPacket}
use numa.Text.{Text, Unicode}
use numa.Acl.{IpAddr, Networks, matches}
use numa.Record.{DnsRecord, Rdata, unknown}

abbrev is_public_option : (IpAddr → Bool) → Option Rdata → Bool
is_public_option is_private none = true
is_public_option is_private (some rdata) = is_public_record is_private rdata

scrub_rdata-is_public :
    (is_private : IpAddr → Bool) (rdata : Rdata)
    → is_public_option is_private (scrub_rdata is_private rdata) ≡ true
unfolding scrub_rdata is_public_record
scrub_rdata-is_public is_private (unknown qtype bytes) =
    elim (Bool-cases ((qtype == to_num QueryType.https) || (qtype == to_num QueryType.svcb))) [
      | inr other ↦ rw other refl
      | inl hints ↦ elim (Option-cases (strip_private_hints bytes is_private)) [
        | inl nothing ↦ rw (hints, nothing) refl
        | inr (out, found) ↦ rw (hints, found) refl
      ]
    ]
scrub_rdata-is_public is_private _ = refl

pub IsClean : (IpAddr → Bool) → DnsRecord → Type 0
IsClean is_private r = is_public_record is_private r.rdata ≡ true

put_scrubbed-IsClean :
    (is_private : IpAddr → Bool) (r : DnsRecord) (o : Option Rdata) (n : ℕ)
    (rest rs : List DnsRecord)
    → IsClean is_private r
    → is_public_option is_private o ≡ true
    → All (IsClean is_private) rest
    → (n ≡ 0 → rest ≡ rs)
    → All (IsClean is_private) (put_scrubbed r o (n, rest)).1
      × ((put_scrubbed r o (n, rest)).0 ≡ 0 → (put_scrubbed r o (n, rest)).1 ≡ r ∷ rs)
unfolding IsClean
put_scrubbed-IsClean is_private r none n rest rs clean public others same =
    ((clean, others), λ e. ap (λ (x : List DnsRecord). r ∷ x) (same e))
put_scrubbed-IsClean is_private r (some rdata) n rest rs clean public others same =
    ((public, others), λ e. absurd (omega (arith, e)))

-- The scrub of the hints puts no private address into a record, and changes nothing where it counts none.
scrub_records-IsClean :
    (is_private : IpAddr → Bool) (rs : List DnsRecord)
    → All (IsClean is_private) rs
    → All (IsClean is_private) (scrub_records is_private rs).1
      × ((scrub_records is_private rs).0 ≡ 0 → (scrub_records is_private rs).1 ≡ rs)
unfolding scrub_records
scrub_records-IsClean is_private [] h = (tt, λ e. refl)
scrub_records-IsClean is_private (r ∷ rs) h =
    let (clean, same) = scrub_records-IsClean is_private rs h.1 in
    put_scrubbed-IsClean is_private r (scrub_rdata is_private r.rdata) _ _ rs h.0
      (scrub_rdata-is_public is_private r.rdata) clean same

scrub_section-IsClean :
    (is_private : IpAddr → Bool) (rs : List DnsRecord)
    → All (IsClean is_private) (scrub_section is_private rs).1
      × ((scrub_section is_private rs).0 ≡ 0 → (scrub_section is_private rs).1 ≡ rs)
unfolding scrub_section IsClean
scrub_section-IsClean is_private rs =
    let keeps : DnsRecord → Bool = λ r. is_public_record is_private r.rdata in
    let (clean, same) = scrub_records-IsClean is_private (retain keeps rs) (retain-All keeps rs) in
    (
      clean,
      λ e.
          same (omega (arith, e))
          ∙ retain_whole keeps rs (omega (arith, e, length-retain keeps rs)),
    )

module _ ⦃unicode : Unicode⦄ ⦃networks : Networks⦄ where
  -- With the filter on and a name that is not allowed, no A or AAAA record of a private address is left in
  -- any section of the response, and where the count is zero the response is as it was; with the
  -- filter off or an allowed name the count is zero and the response as it was.
  pub apply-IsClean :
      (qname : Text) (f : RebindFilter) (response : DnsPacket)
      → (not f.enabled || is_allowed qname f ≡ false
          → All (IsClean (λ ip. matches ip f.ranges)) (apply qname f response).1.answers
            × All (IsClean (λ ip. matches ip f.ranges)) (apply qname f response).1.authorities
            × All (IsClean (λ ip. matches ip f.ranges)) (apply qname f response).1.resources
            × ((apply qname f response).0 ≡ 0 → (apply qname f response).1 ≡ response))
        × (not f.enabled || is_allowed qname f ≡ true → apply qname f response ≡ (0, response))
  unfolding apply
  apply-IsClean qname f response =
      let is_private : IpAddr → Bool = λ ip. matches ip f.ranges in
      let (answers, same₁) = scrub_section-IsClean is_private response.answers in
      let (authorities, same₂) = scrub_section-IsClean is_private response.authorities in
      let (resources, same₃) = scrub_section-IsClean is_private response.resources in
      (
        λ on. rw on (
          answers,
          authorities,
          resources,
          λ e.
              let total : (scrub_section is_private response.answers).0
                    + (scrub_section is_private response.authorities).0
                    + (scrub_section is_private response.resources).0
                  ≡ 0 =
                e in
              rw
                (
                  same₁ (omega (arith, total)),
                  same₂ (omega (arith, total)),
                  same₃ (omega (arith, total)),
                )
                refl,
        ),
        λ off. rw off refl,
      )
