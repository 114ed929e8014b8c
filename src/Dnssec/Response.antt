-- ===== src/Dnssec/Response.antt =====
-- src/dnssec.rs: the status of a response. What `validate_denial` returns for a response without answers is
-- an argument, and so is what the fetches bring, which is the same each time that a zone is asked for at the
-- same depth; those for the signer of an answer have the index 11.
use numa.Prelude.{
  not, ◌&&◌, if_some, ◌++◌, is_nil, if◌then◌else◌, Option, retain, map, ◌=?◌, true, false, some, [],
  ◌∷◌, List, ℕ, Bool, bytes_key,
}
use numa.Buffer.{Bytes}
use numa.Buffer.Name.{to_ascii_lowercase}
use numa.Cache.{DnssecStatus, secure, insecure, bogus}
use numa.Record.{DnsRecord, Rdata, rrsig, rdata_type}
use numa.Question.{QueryType, from_num}
use numa.Question.Types.{same_type}
use numa.Packet.{DnsPacket}
use numa.Dnssec.Keys.{Crypto}
use numa.Dnssec.Chain.{rrsig_verified_by, validate_chain, keys_of}

abbrev pub to_lower : Bytes → Bytes
to_lower name = map to_ascii_lowercase name

pub record Rrset : Type 0 where
  pub name : Bytes
  pub qtype : QueryType
  pub records : List DnsRecord

-- Into the group of the same name and type, or into one of its own at the end.
unfoldable pub push_group : Bytes → DnsRecord → List Rrset → List Rrset
push_group name r [] = record { name = name; qtype = rdata_type r.rdata; records = r ∷ [] } ∷ []
push_group name r (g ∷ groups) =
    let rest = push_group name r groups in
    if (g.name =? name) && same_type g.qtype (rdata_type r.rdata)
    then record g { records = g.records ++ (r ∷ []) } ∷ groups
    else g ∷ rest

abbrev pub is_rrsig : DnsRecord → Bool
is_rrsig r = same_type (rdata_type r.rdata) QueryType.rrsig

unfoldable pub group_onto : List Rrset → List DnsRecord → List Rrset
group_onto groups [] = groups
group_onto groups (r ∷ rs) =
    group_onto (if is_rrsig r then groups else push_group (to_lower r.domain) r groups) rs

abbrev pub group_rrsets : List DnsRecord → List Rrset
group_rrsets records = group_onto [] records

abbrev pub signs : Bytes → QueryType → DnsRecord → Rdata → Bool
signs name t r (rrsig s) =
    (to_lower r.domain =? to_lower name) && same_type (from_num s.type_covered) t
signs name t r _ = false

unfoldable pub matching_rrsigs_for : List DnsRecord → Bytes → QueryType → List DnsRecord
matching_rrsigs_for all_rrsigs name t = retain (λ r. signs name t r r.rdata) all_rrsigs

-- The signatures of all sections.
abbrev pub rrsigs_of : DnsPacket → List DnsRecord
rrsigs_of response =
    retain is_rrsig (response.answers ++ (response.authorities ++ response.resources))

-- `RrsigOutcome`, and `KeyOutcome` with `no_matching_key` for its `Skip`.
pub data Outcome : Type 0 where
  verified chain_bogus no_matching_key : Outcome

abbrev pub outcome_of : DnssecStatus → Outcome
outcome_of secure = verified
outcome_of bogus = chain_bogus
outcome_of _ = no_matching_key

-- What a loop does after one outcome.
abbrev pub or_next : Option Outcome → Outcome → Option Outcome
or_next later verified = some verified
or_next later chain_bogus = some chain_bogus
or_next later no_matching_key = later

module _ ⦃crypto : Crypto⦄ (now : ℕ) (trust_anchors : List DnsRecord)
    (fetch_dnskeys fetch_ds : ℕ → Bytes → List DnsRecord) where
  unfoldable pub try_verify_with_key :
      DnsRecord → DnsRecord → Bytes → List DnsRecord → List DnsRecord → Option Outcome
  try_verify_with_key dk sig signer_name dnskey_response rrset =
      if_some (rrsig_verified_by now sig.rdata dk.rdata rrset) (λ good.
        if not good
        then some no_matching_key
        else if_some
            (validate_chain now trust_anchors fetch_dnskeys fetch_ds 11 signer_name dnskey_response)
            (λ status. some (outcome_of status)))

  unfoldable pub try_keys :
      List DnsRecord → DnsRecord → Bytes → List DnsRecord → List DnsRecord → Option Outcome
  try_keys [] sig signer_name dnskey_response rrset = some no_matching_key
  try_keys (dk ∷ keys) sig signer_name dnskey_response rrset =
      if_some (try_verify_with_key dk sig signer_name dnskey_response rrset)
        (or_next (try_keys keys sig signer_name dnskey_response rrset))

  unfoldable pub try_verify_rrsig : DnsRecord → Rdata → List DnsRecord → Option Outcome
  try_verify_rrsig sig (rrsig s) rrset =
      let dnskey_response = fetch_dnskeys 11 s.signer_name in
      try_keys (keys_of dnskey_response) sig s.signer_name dnskey_response rrset
  try_verify_rrsig sig _ rrset = some no_matching_key

  -- Whether the set is verified; otherwise it is bogus.
  unfoldable pub verify_rrset : List DnsRecord → List DnsRecord → Option Bool
  verify_rrset [] rrset = some false
  verify_rrset (sig ∷ sigs) rrset =
      let later = verify_rrset sigs rrset in
      if_some (try_verify_rrsig sig sig.rdata rrset)
        (λ o. elim o [ verified ↦ some true | chain_bogus ↦ some false | no_matching_key ↦ later ])

  -- The loop over the sets of the answer.
  unfoldable pub verify_groups : List DnsRecord → List Rrset → Option DnssecStatus
  verify_groups all_rrsigs [] = some secure
  verify_groups all_rrsigs (g ∷ groups) =
      let later = verify_groups all_rrsigs groups in
      let matching = matching_rrsigs_for all_rrsigs g.name g.qtype in
      if is_nil matching
      then later
      else if_some (verify_rrset matching g.records) (λ good. if good then later else some bogus)

  unfoldable pub validate_response : Option DnssecStatus → DnsPacket → Option DnssecStatus
  validate_response denial response =
      let all_rrsigs = rrsigs_of response in
      let rrsets = group_rrsets response.answers in
      if is_nil all_rrsigs
      then some insecure
      else if is_nil rrsets
      then denial
      else verify_groups all_rrsigs rrsets
