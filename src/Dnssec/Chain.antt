-- ===== src/Dnssec/Chain.antt =====
-- src/dnssec.rs: signatures over records, and the chain of trust from a zone's keys up to a trust anchor.
-- What `fetch_dnskeys` and `fetch_ds` bring, from the cache or the network, at each depth of the chain is an
-- argument. A panic is `none`.
use numa.Prelude.{
  ◌++◌, if_some, not, ◌||◌, any, ◌&&◌, is_nil, ◌=?◌, Option, if◌then◌else◌, ◌==◌, retain, zero, suc,
  true, false, some, [], ◌∷◌, List, ℕ, Bool, bytes_key,
}
use numa.Domain.{is_dot}
use numa.Buffer.{Bytes}
use numa.Question.Types.{same_type}
use numa.Cache.{DnssecStatus, secure, insecure, bogus, indeterminate}
use numa.Record.{DnsRecord, Rdata, Dnskey, Ds, Rrsig, dnskey, ds, rrsig, rdata_type}
use numa.Question.{QueryType, from_num}
use numa.Dnssec.Keys.{Crypto, compute_key_tag, verify_signature, is_rrsig_time_valid, dnskey_rdata}
use numa.Dnssec.Canonical.{build_signed_data, name_to_wire}

-- `any` of a test that may panic.
unfoldable pub any_or_panic {ℓ} : {A : Type ℓ} → (A → Option Bool) → List A → Option Bool
any_or_panic test [] = some false
any_or_panic test (x ∷ xs) =
    let later = any_or_panic test xs in
    if_some (test x) (λ found. if found then some true else later)

-- The keys among the records, and the delegations.
unfoldable pub keys_of : List DnsRecord → List DnsRecord
keys_of rs = retain (λ r. same_type (rdata_type r.rdata) QueryType.dnskey) rs

unfoldable pub delegations_of : List DnsRecord → List DnsRecord
delegations_of rs = retain (λ r. same_type (rdata_type r.rdata) QueryType.ds) rs

unfoldable pub same_dnskey : Rdata → Rdata → Bool
same_dnskey (dnskey k) (dnskey l) = (k.algorithm == l.algorithm) && (k.public_key =? l.public_key)
same_dnskey _ _ = false

abbrev pub covers_type : QueryType → Rdata → Bool
covers_type t (rrsig s) = same_type (from_num s.type_covered) t
covers_type t _ = false

abbrev pub is_secure : DnssecStatus → Bool
is_secure secure = true
is_secure _ = false

abbrev pub is_root : Bytes → Bool
is_root zone = (zone =? (b'.' ∷ [])) || is_nil zone

-- What stands after the first dot, or the root.
unfoldable pub after_dot : Bytes → Bytes
after_dot [] = b'.' ∷ []
after_dot (x ∷ xs) =
    let later = after_dot xs in if is_dot x then (if is_nil xs then b'.' ∷ [] else xs) else later

unfoldable pub parent_zone : Bytes → Bytes
parent_zone zone = if is_root zone then b'.' ∷ [] else after_dot zone

module _ ⦃crypto : Crypto⦄ where
  -- Between a DS and a DNSKEY.
  unfoldable pub digest_matches : Ds → Dnskey → Bytes → Option Bool
  digest_matches d k owner =
      if not (compute_key_tag k == d.key_tag) || not (k.algorithm == d.algorithm)
      then some false
      else if_some (name_to_wire owner) (λ wire.
        let input = wire ++ dnskey_rdata k in
        some (
          if d.digest_type == 2
          then crypto.sha256 input =? d.digest
          else if d.digest_type == 4
          then crypto.sha384 input =? d.digest
          else false))

  unfoldable pub verify_ds : Rdata → Rdata → Bytes → Option Bool
  verify_ds (ds d) (dnskey k) owner = digest_matches d k owner
  verify_ds _ _ owner = some false

  -- The keys that a delegation commits to.
  unfoldable pub matched_keys : List DnsRecord → List DnsRecord → Bytes → Option (List DnsRecord)
  matched_keys ds_records [] zone = some []
  matched_keys ds_records (dk ∷ keys) zone =
      if_some (any_or_panic (λ d. verify_ds d.rdata dk.rdata zone) ds_records) (λ matched.
        if_some (matched_keys ds_records keys zone)
          (λ rest. some (if matched then dk ∷ rest else rest)))

module _ ⦃crypto : Crypto⦄ (now : ℕ) where
  -- Between an RRSIG and a DNSKEY.
  unfoldable pub signed_by : Rrsig → Dnskey → List DnsRecord → Option Bool
  signed_by s k rrset =
      if not (k.algorithm == s.algorithm)
      then some false
      else if not (compute_key_tag k == s.key_tag)
      then some false
      else if not (is_rrsig_time_valid now s.expiration s.inception)
      then some false
      else if_some (build_signed_data s rrset)
          (λ signed. some (verify_signature s.algorithm k.public_key signed s.signature))

  unfoldable pub rrsig_verified_by : Rdata → Rdata → List DnsRecord → Option Bool
  rrsig_verified_by (rrsig s) (dnskey k) rrset = signed_by s k rrset
  rrsig_verified_by _ _ rrset = some false

  unfoldable pub verify_rrset_signed : List DnsRecord → QueryType → List DnsRecord → Option Bool
  verify_rrset_signed records rrset_type signing_keys =
      let rrset = retain (λ r. same_type (rdata_type r.rdata) rrset_type) records in
      if is_nil rrset
      then some false
      else any_or_panic
          (λ r.
            if covers_type rrset_type r.rdata
            then any_or_panic (λ dk. rrsig_verified_by r.rdata dk.rdata rrset) signing_keys
            else some false)
          records

  module _ (trust_anchors : List DnsRecord)
      (fetch_dnskeys fetch_ds : ℕ → Bytes → List DnsRecord) where
    -- The part of `validate_chain` after the trust anchors, given the walk from the parent.
    unfoldable pub validate_parent :
        ℕ
        → (Bytes → List DnsRecord → Option DnssecStatus)
        → Bytes
        → List DnsRecord
        → Option DnssecStatus
    validate_parent left walk zone zone_records =
        let parent = parent_zone zone in
        let ds_response = fetch_ds left zone in
        let ds_records = delegations_of ds_response in
        if is_root zone
        then some indeterminate
        else if is_nil ds_records
        then some insecure
        else if_some (matched_keys ds_records (keys_of zone_records) zone) (λ ksks.
          if is_nil ksks
          then some bogus
          else if_some (verify_rrset_signed zone_records QueryType.dnskey ksks) (λ signed.
            if not signed
            then some bogus
            else let parent_records = fetch_dnskeys left parent in
              if is_nil parent_records
              then some indeterminate
              else if_some (walk parent parent_records) (λ parent_status.
                if not (is_secure parent_status)
                then some parent_status
                else if_some (verify_rrset_signed ds_response QueryType.ds parent_records)
                    (λ ds_signed. some (if ds_signed then secure else bogus)))))

    -- `left` is how many depths are left, the present one counted, of the eleven from 0 to MAX_CHAIN_DEPTH.
    unfoldable pub validate_chain : ℕ → Bytes → List DnsRecord → Option DnssecStatus
    validate_chain zero zone zone_records = some indeterminate
    validate_chain (suc left) zone zone_records =
        if any (λ dk. any (λ ta. same_dnskey dk.rdata ta.rdata) trust_anchors)
          (keys_of zone_records)
        then if_some (verify_rrset_signed zone_records QueryType.dnskey trust_anchors)
            (λ signed. some (if signed then secure else bogus))
        else validate_parent left (validate_chain left) zone zone_records
