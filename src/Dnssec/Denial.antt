-- ===== src/Dnssec/Denial.antt =====
-- src/dnssec.rs: the proof that a name or a type does not exist. The keys that the cache holds for a signer are
-- an argument.
use numa.Prelude.{
  if_some, ◌&&◌, any, not, is_nil, ◌=?◌, if◌then◌else◌, ◌==◌, ◌||◌, Option, retain, true, false,
  none, some, [], ◌∷◌, List, ℕ, Bool, bytes_key,
}
use numa.Buffer.{Bytes}
use numa.Cache.{DnssecStatus, secure, bogus, indeterminate}
use numa.Record.{DnsRecord, Rdata, Rrsig, Nsec3, rrsig, dnskey, nsec, nsec3, rdata_type}
use numa.Question.{QueryType, to_num}
use numa.Question.Types.{same_type}
use numa.Dnssec.Keys.{Crypto, compute_key_tag, verify_signature, is_rrsig_time_valid}
use numa.Dnssec.Canonical.{build_signed_data}
use numa.Dnssec.Order.{labels_of, nsec_covers_name}
use numa.Dnssec.Response.{group_rrsets, matching_rrsigs_for, Rrset}
use numa.Dnssec.Nsec.{
  nsec_proves_nodata, closest_encloser, nsec3_hash, nsec3_any_covers, nsec3_owner_hash, join_labels,
  eq_ignore_ascii_case, type_bitmap_contains,
}

abbrev pub of_type : QueryType → List DnsRecord → List DnsRecord
of_type t rs = retain (λ r. same_type (rdata_type r.rdata) t) rs

abbrev pub covers_name : Bytes → DnsRecord → Rdata → Bool
covers_name qname r (nsec next bitmap) = nsec_covers_name r.domain next qname
covers_name qname r _ = false

abbrev pub denies_wildcard : Bytes → DnsRecord → Rdata → Bool
denies_wildcard wildcard r (nsec next bitmap) =
    nsec_covers_name r.domain next wildcard || eq_ignore_ascii_case r.domain wildcard
denies_wildcard wildcard r _ = false

abbrev pub lacks_type : Bytes → ℕ → DnsRecord → Rdata → Bool
lacks_type qname qtype r (nsec next bitmap) = nsec_proves_nodata r.domain qname bitmap qtype
lacks_type qname qtype r _ = false

abbrev pub wildcard_of : Bytes → Bytes
wildcard_of name = b'*' ∷ b'.' ∷ name

unfoldable pub nsec_proves : Bytes → ℕ → Bool → List DnsRecord → Bool
nsec_proves qname qtype is_nxdomain nsecs =
    if is_nxdomain
    then any (λ r. covers_name qname r r.rdata) nsecs
      && (elim (closest_encloser (labels_of qname) nsecs) [
        | none ↦ true
        | some ce ↦ any (λ r. denies_wildcard (wildcard_of ce) r r.rdata) nsecs
      ])
    else any (λ r. lacks_type qname qtype r r.rdata) nsecs

abbrev pub with_hash :
    DnsRecord → Option Bytes → List (Bytes × DnsRecord) → List (Bytes × DnsRecord)
with_hash r none rest = rest
with_hash r (some h) rest = (h, r) ∷ rest

unfoldable pub decode_owners : List DnsRecord → List (Bytes × DnsRecord)
decode_owners [] = []
decode_owners (r ∷ rs) = with_hash r (nsec3_owner_hash r.domain) (decode_owners rs)

abbrev pub hash_lacks_type : Bytes → ℕ → Bytes → Rdata → Bool
hash_lacks_type qname_hash qtype owner_hash (nsec3 n) =
    (owner_hash =? qname_hash)
    && not (type_bitmap_contains n.type_bitmap qtype)
    && not (type_bitmap_contains n.type_bitmap (to_num QueryType.cname))
hash_lacks_type qname_hash qtype owner_hash _ = false

module _ ⦃crypto : Crypto⦄ where
  -- The hashes of the name and of each name above it.
  unfoldable pub ancestor_hashes : Nsec3 → List Bytes → Option (List (Option Bytes))
  ancestor_hashes n [] = some []
  ancestor_hashes n (l ∷ ls) =
      if_some (nsec3_hash (join_labels (l ∷ ls)) n.hash_algorithm n.iterations n.salt)
        (λ h. if_some (ancestor_hashes n ls) (λ hs. some (h ∷ hs)))

  -- Whether the encloser of some labels exists, the name below it does not and the wildcard does not.
  unfoldable pub denied_below :
      Nsec3 → List (Bytes × DnsRecord) → List Bytes → Option Bytes → Option Bytes → Option Bool
  denied_below n decoded encloser ce none = some false
  denied_below n decoded encloser none nc = some false
  denied_below n decoded encloser (some ce) (some nc) =
      if not (any (λ d. d.0 =? ce) decoded)
      then some false
      else if not (nsec3_any_covers decoded nc)
      then some false
      else if_some
          (nsec3_hash (wildcard_of (join_labels encloser)) n.hash_algorithm n.iterations n.salt)
          (λ wc. elim wc [ none ↦ some false | some h ↦ some (nsec3_any_covers decoded h) ])

  unfoldable pub nsec3_denies :
      Nsec3 → List (Bytes × DnsRecord) → List Bytes → List (Option Bytes) → Option Bool
  nsec3_denies n decoded [] hashes = some false
  nsec3_denies n decoded (l ∷ ls) [] = some false
  nsec3_denies n decoded (l ∷ ls) (nc ∷ []) = some false
  nsec3_denies n decoded (l ∷ ls) (nc ∷ ce ∷ hashes) =
      let later = nsec3_denies n decoded ls (ce ∷ hashes) in
      if_some (denied_below n decoded ls ce nc) (λ proven. if proven then some true else later)

  unfoldable pub nsec3_proves : Bytes → ℕ → Bool → List DnsRecord → Rdata → Option DnssecStatus
  nsec3_proves qname qtype is_nxdomain nsec3s (nsec3 n) =
      if_some (nsec3_hash qname n.hash_algorithm n.iterations n.salt) (λ hashed. elim hashed [
        | none ↦ some indeterminate
        | some qname_hash ↦
            let decoded = decode_owners nsec3s in
            if is_nxdomain
            then if_some (ancestor_hashes n (labels_of qname)) (λ hashes.
              if_some (nsec3_denies n decoded (labels_of qname) hashes)
                (λ proven. some (if proven then secure else bogus)))
            else some (
                if any (λ d. hash_lacks_type qname_hash qtype d.0 d.1.rdata) decoded
                then secure
                else bogus)
      ])
  nsec3_proves qname qtype is_nxdomain nsec3s _ = some indeterminate

  -- Whether a key has made the signature.
  abbrev pub key_signs : Rrsig → Bytes → Rdata → Bool
  key_signs s signed (dnskey k) =
      (k.algorithm == s.algorithm)
      && (compute_key_tag k == s.key_tag)
      && verify_signature s.algorithm k.public_key signed s.signature
  key_signs s signed _ = false

  module _ (now : ℕ) (cached_keys : Bytes → Option (List DnsRecord)) where
    -- By the first signature of the set.
    unfoldable pub endorsed_by : List DnsRecord → Rdata → Option Bool
    endorsed_by rrset (rrsig s) =
        if not (is_rrsig_time_valid now s.expiration s.inception)
        then some false
        else elim (cached_keys s.signer_name) [
          | none ↦ some false
          | some keys ↦
              if_some (build_signed_data s rrset)
                (λ signed. some (any (λ dk. key_signs s signed dk.rdata) keys))
        ]
    endorsed_by rrset _ = some true

    unfoldable pub endorsed : List DnsRecord → List DnsRecord → Option Bool
    endorsed rrset [] = some false
    endorsed rrset (sig ∷ sigs) = endorsed_by rrset sig.rdata

    unfoldable pub all_endorsed : List DnsRecord → List Rrset → Option Bool
    all_endorsed all_rrsigs [] = some true
    all_endorsed all_rrsigs (g ∷ groups) =
        let later = all_endorsed all_rrsigs groups in
        if_some (endorsed g.records (matching_rrsigs_for all_rrsigs g.name g.qtype))
          (λ good. if good then later else some false)

    unfoldable pub verify_authority_rrsigs :
        List DnsRecord → List DnsRecord → QueryType → Option Bool
    verify_authority_rrsigs authorities all_rrsigs denial_type =
        let rrsets = group_rrsets (of_type denial_type authorities) in
        if_some (all_endorsed all_rrsigs rrsets) (λ good. some (good && not (is_nil rrsets)))

    unfoldable pub by_nsec3 :
        List DnsRecord → List DnsRecord → Bytes → ℕ → Bool → List DnsRecord → Option DnssecStatus
    by_nsec3 authorities all_rrsigs qname qtype is_nxdomain [] = some indeterminate
    by_nsec3 authorities all_rrsigs qname qtype is_nxdomain (r ∷ rs) =
        if_some (verify_authority_rrsigs authorities all_rrsigs QueryType.nsec3) (λ good.
          if not good
          then some indeterminate
          else nsec3_proves qname qtype is_nxdomain (r ∷ rs) r.rdata)

    unfoldable pub validate_denial :
        List DnsRecord → List DnsRecord → Bytes → ℕ → Bool → Option DnssecStatus
    validate_denial authorities all_rrsigs qname qtype is_nxdomain =
        let nsecs = of_type QueryType.nsec authorities in
        if is_nil nsecs
        then by_nsec3 authorities all_rrsigs qname qtype is_nxdomain
            (of_type QueryType.nsec3 authorities)
        else if_some (verify_authority_rrsigs authorities all_rrsigs QueryType.nsec) (λ good.
          if not good
          then some indeterminate
          else some (if nsec_proves qname qtype is_nxdomain nsecs then secure else bogus))
