-- ===== src/Dnssec/NsecProof.antt =====
-- What NSEC records prove.
use numa.Prelude.{
  any-Mem, ◌&&◌, ◌||◌, ◌⊎◌, ◌∙◌, ap, sym, Bool-cases, any, not, List, ◌≡◌, Option, ℕ, Bool, refl,
  true, false, none, some, inl, inr, ◌∷◌,
}
use numa.Dnssec.Hashed.{not-true, same_bytes}
use numa.Dnssec.Nsec.{
  eq_ignore_ascii_case, type_bitmap_contains, nsec_proves_nodata, closest_encloser,
}
use numa.Question.{to_num}
use numa.Dnssec.Order.{nsec_covers_name, labels_of}
use numa.Dnssec.Response.{to_lower}
use numa.Record.{nsec, Rdata, DnsRecord}
use numa.Dnssec.Endorsed.{both-true}
use numa.Dnssec.Denial.{wildcard_of, denies_wildcard, lacks_type, nsec_proves, covers_name}
use numa.Buffer.{Bytes}
use mathlib.Core.List.{Memᴰ}

-- A record is an NSEC record whose gap covers the name.
abbrev pub HasGap : Bytes → DnsRecord → Type 0
HasGap name r =
    (next : Bytes) × (bitmap : Bytes) × (r.rdata ≡ nsec next bitmap)
    × (nsec_covers_name r.domain next name ≡ true)

-- Either the gap of a record covers the wildcard, or the wildcard is its own name.
abbrev pub DeniesWildcard : Bytes → DnsRecord → Type 0
DeniesWildcard wildcard r = HasGap wildcard r ⊎ (to_lower r.domain ≡ to_lower wildcard)

-- A record is the NSEC record of the name, and its bitmap has neither the type nor CNAME.
abbrev pub NameLacks : Bytes → ℕ → DnsRecord → Type 0
NameLacks name qtype r =
    (next : Bytes) × (bitmap : Bytes) × (r.rdata ≡ nsec next bitmap)
    × (to_lower r.domain ≡ to_lower name)
    × (type_bitmap_contains bitmap qtype ≡ false)
    × (type_bitmap_contains bitmap 5 ≡ false)

covers_name-HasGap :
    (name : Bytes) (r : DnsRecord) (x : Rdata)
    → r.rdata ≡ x
    → covers_name name r x ≡ true
    → HasGap name r
covers_name-HasGap name r (nsec next bitmap) same h = (next, bitmap, same, h)
covers_name-HasGap name r _ same h = absurd cc

denies_wildcard-Denies :
    (wildcard : Bytes) (r : DnsRecord) (x : Rdata)
    → r.rdata ≡ x
    → denies_wildcard wildcard r x ≡ true
    → DeniesWildcard wildcard r
denies_wildcard-Denies wildcard r (nsec next bitmap) same h =
    elim (Bool-cases (nsec_covers_name r.domain next wildcard)) [
      | inl gap ↦ inl (next, bitmap, same, gap)
      | inr elsewhere ↦ inr (
          same_bytes (to_lower r.domain) (to_lower wildcard)
            (sym (ap (λ t. t || eq_ignore_ascii_case r.domain wildcard) elsewhere) ∙ h))
    ]
denies_wildcard-Denies wildcard r _ same h = absurd cc

lacks_type-NameLacks :
    (name : Bytes) (qtype : ℕ) (r : DnsRecord) (x : Rdata)
    → r.rdata ≡ x
    → lacks_type name qtype r x ≡ true
    → NameLacks name qtype r
unfolding nsec_proves_nodata to_num
lacks_type-NameLacks name qtype r (nsec next bitmap) same h =
    let has_type : Bool = type_bitmap_contains bitmap qtype in
    let has_cname : Bool = type_bitmap_contains bitmap 5 in
    let own : Bool = eq_ignore_ascii_case r.domain name in
    let (first, no_cname) = both-true (own && not has_type) (not has_cname) h in
    let (is_own, no_type) = both-true own (not has_type) first in
    (
      next,
      bitmap,
      same,
      same_bytes (to_lower r.domain) (to_lower name) is_own,
      not-true has_type no_type,
      not-true has_cname no_cname,
    )
lacks_type-NameLacks name qtype r _ same h = absurd cc

-- A record denies the wildcard below the closest encloser, where one is found.
abbrev pub WildcardDenied : Option Bytes → List DnsRecord → Type 0
WildcardDenied none nsecs = Unit
WildcardDenied (some ce) nsecs =
    (r : DnsRecord) × Memᴰ r nsecs × DeniesWildcard (b'*' ∷ b'.' ∷ ce) r

abbrev pub NsecProves : Bytes → ℕ → Bool → List DnsRecord → Type 0
NsecProves qname qtype true nsecs =
    ((r : DnsRecord) × Memᴰ r nsecs × HasGap qname r)
    × WildcardDenied (closest_encloser (labels_of qname) nsecs) nsecs
NsecProves qname qtype false nsecs = (r : DnsRecord) × Memᴰ r nsecs × NameLacks qname qtype r

wildcard_part :
    (o : Option Bytes) (nsecs : List DnsRecord)
    → (elim o as (λ x. Bool) [
      | none ↦ true
      | some ce ↦ any (λ r. denies_wildcard (wildcard_of ce) r r.rdata) nsecs
    ])
      ≡ true
    → WildcardDenied o nsecs
wildcard_part none nsecs h = tt
wildcard_part (some ce) nsecs h =
    let (r, inside, denies) = any-Mem (λ r. denies_wildcard (wildcard_of ce) r r.rdata) nsecs h in
    (r, inside, denies_wildcard-Denies (wildcard_of ce) r r.rdata refl denies)

pub nsec_proves-Proves :
    (qname : Bytes) (qtype : ℕ) (is_nxdomain : Bool) (nsecs : List DnsRecord)
    → nsec_proves qname qtype is_nxdomain nsecs ≡ true
    → NsecProves qname qtype is_nxdomain nsecs
unfolding nsec_proves
nsec_proves-Proves qname qtype true nsecs h =
    let (covered, wildcard) = both-true (any (λ r. covers_name qname r r.rdata) nsecs) _ h in
    let (r, inside, covers) = any-Mem (λ r. covers_name qname r r.rdata) nsecs covered in
    (
      (r, inside, covers_name-HasGap qname r r.rdata refl covers),
      wildcard_part (closest_encloser (labels_of qname) nsecs) nsecs wildcard,
    )
nsec_proves-Proves qname qtype false nsecs h =
    let (r, inside, lacks) = any-Mem (λ r. lacks_type qname qtype r r.rdata) nsecs h in
    (r, inside, lacks_type-NameLacks qname qtype r r.rdata refl lacks)
