-- ===== src/Dnssec/Proved.antt =====
-- What the status Secure of a response with answers rests on.
use numa.Dnssec.Response.{
  rrsigs_of, or_next, outcome_of, Outcome, verified, chain_bogus, no_matching_key,
  validate_response, verify_groups, verify_rrset, try_verify_rrsig, try_keys, try_verify_with_key,
  Rrset, group_rrsets, matching_rrsigs_for,
}
use numa.Prelude.{
  ap₂, subst, if_some, Bool-cases, sym, is_nil, All, ◌∙◌, ◌⊎◌, not, if◌then◌else◌, ap, Option, ◌≡◌,
  refl, true, false, some, inl, inr, [], ◌∷◌, List, ℕ, Bool, bytes_key,
}
use numa.Dnssec.Trust.{
  some_bool, Trusted, SignedBy, verified_parts, validate_chain-Trusted, if_some-true,
}
use numa.Dnssec.Chain.{rrsig_verified_by, validate_chain, keys_of, is_secure}
use mathlib.Core.List.{Memᴰ}
use numa.Buffer.{Bytes}
use numa.Cache.{DnssecStatus, secure, insecure, bogus, indeterminate}
use numa.Record.{DnsRecord, Rdata, Rrsig, Dnskey, rrsig, dnskey}
use numa.Packet.{DnsPacket}
use numa.Dnssec.Keys.{Crypto}

module _ ⦃crypto : Crypto⦄ (now : ℕ) (trust_anchors : List DnsRecord)
    (fetch_dnskeys fetch_ds : ℕ → Bytes → List DnsRecord) where
  -- One of the signatures is made over the records by a fetched key of its signer, whose keys stand at
  -- the foot of a chain of trust.
  pub record Proved (sigs rrset : List DnsRecord) : Type 0 where
    pub signature : DnsRecord
    pub carried : Memᴰ signature sigs
    pub fields : Rrsig
    pub is_rrsig : signature.rdata ≡ rrsig fields
    pub signer : DnsRecord
    pub fetched : Memᴰ signer (keys_of (fetch_dnskeys 11 fields.signer_name))
    pub key : Dnskey
    pub is_key : signer.rdata ≡ dnskey key
    pub by_key : SignedBy now fields key rrset
    pub chain :
        Trusted now trust_anchors fetch_dnskeys fetch_ds 11 fields.signer_name
          (fetch_dnskeys 11 fields.signer_name)

  abbrev is_verified : Outcome → Bool
  is_verified verified = true
  is_verified _ = false

  some_outcome : {o p : Outcome} → some o ≡ some p → o ≡ p
  some_outcome e = cc

  outcome_of-secure : (v : DnssecStatus) → some (outcome_of v) ≡ some verified → v ≡ secure
  outcome_of-secure secure h = refl
  outcome_of-secure bogus h = absurd (let k : false ≡ true = ap is_verified (some_outcome h) in cc)
  outcome_of-secure insecure h =
      absurd (let k : false ≡ true = ap is_verified (some_outcome h) in cc)
  outcome_of-secure indeterminate h =
      absurd (let k : false ≡ true = ap is_verified (some_outcome h) in cc)

  or_next-verified :
      (later : Option Outcome) (o : Outcome)
      → or_next later o ≡ some verified
      → (o ≡ verified) ⊎ (later ≡ some verified)
  or_next-verified later verified h = inl refl
  or_next-verified later chain_bogus h =
      absurd (let k : false ≡ true = ap is_verified (some_outcome h) in cc)
  or_next-verified later no_matching_key h = inr h

  skip-false :
      (t : Bool) (o : Option Outcome)
      → (if not t then some no_matching_key else o) ≡ some verified
      → (t ≡ true) × (o ≡ some verified)
  skip-false true o h = (refl, h)
  skip-false false o h = absurd (let k : false ≡ true = ap is_verified (some_outcome h) in cc)

  rrsig_injective : {s t : Rrsig} → rrsig s ≡ rrsig t → s ≡ t
  rrsig_injective e = cc

  try_keys-Proved :
      (keys sigs : List DnsRecord) (sig : DnsRecord) (s : Rrsig) (rrset : List DnsRecord)
      → Memᴰ sig sigs
      → sig.rdata ≡ rrsig s
      → ((dk : DnsRecord) → Memᴰ dk keys → Memᴰ dk (keys_of (fetch_dnskeys 11 s.signer_name)))
      → try_keys now trust_anchors fetch_dnskeys fetch_ds keys sig s.signer_name
          (fetch_dnskeys 11 s.signer_name)
          rrset
        ≡ some verified
      → Proved sigs rrset
  unfolding try_keys try_verify_with_key
  try_keys-Proved [] sigs sig s rrset carried same inside h =
      absurd (let k : false ≡ true = ap is_verified (some_outcome h) in cc)
  try_keys-Proved (dk ∷ keys) sigs sig s rrset carried same inside h =
      let response : List DnsRecord = fetch_dnskeys 11 s.signer_name in
      let (o, ran, h₁) =
        if_some-true
          (try_verify_with_key now trust_anchors fetch_dnskeys fetch_ds dk sig s.signer_name
            response rrset)
          _ verified h in
      elim (or_next-verified _ o h₁) [
        | inr later ↦
            try_keys-Proved keys sigs sig s rrset carried same (λ k m. inside k (Memᴰ.tail m)) later
        | inl here ↦
            let (good, checked, h₂) =
              if_some-true (rrsig_verified_by now sig.rdata dk.rdata rrset) _ verified
                (ran ∙ ap some here) in
            let (passed, h₃) = skip-false good _ h₂ in
            let (status, walked, h₄) =
              if_some-true
                (validate_chain now trust_anchors fetch_dnskeys fetch_ds 11 s.signer_name response)
                (λ v. some (outcome_of v)) verified h₃ in
            let (s', k, is_sig, is_key, by_key) =
              verified_parts now sig.rdata dk.rdata rrset (checked ∙ ap some passed) in
            let same_sig : s' ≡ s = rrsig_injective (sym is_sig ∙ same) in
            record {
              signature = sig;
              carried = carried;
              fields = s;
              is_rrsig = same;
              signer = dk;
              fetched = inside dk (Memᴰ.head refl);
              key = k;
              is_key = is_key;
              by_key = subst (λ x. SignedBy now x k rrset) same_sig by_key;
              chain =
                  validate_chain-Trusted now trust_anchors fetch_dnskeys fetch_ds 11 s.signer_name
                    response (walked ∙ ap some (outcome_of-secure status h₄));
            }
      ]

  try_verify_rrsig-Proved :
      (x : Rdata) (sigs : List DnsRecord) (sig : DnsRecord) (rrset : List DnsRecord)
      → Memᴰ sig sigs
      → sig.rdata ≡ x
      → try_verify_rrsig now trust_anchors fetch_dnskeys fetch_ds sig x rrset ≡ some verified
      → Proved sigs rrset
  unfolding try_verify_rrsig
  try_verify_rrsig-Proved (rrsig s) sigs sig rrset carried same h =
      try_keys-Proved (keys_of (fetch_dnskeys 11 s.signer_name)) sigs sig s rrset carried same
        (λ dk m. m) h
  try_verify_rrsig-Proved _ sigs sig rrset carried same h =
      absurd (let k : false ≡ true = ap is_verified (some_outcome h) in cc)

  after_outcome :
      (o : Outcome) (later : Option Bool)
      → (elim o as (λ x. Option Bool) [
        | verified ↦ some true
        | chain_bogus ↦ some false
        | no_matching_key ↦ later
      ])
        ≡ some true
      → (o ≡ verified) ⊎ (later ≡ some true)
  after_outcome verified later h = inl refl
  after_outcome chain_bogus later h = absurd (let k : false ≡ true = some_bool h in cc)
  after_outcome no_matching_key later h = inr h

  verify_rrset-Proved :
      (all_sigs sigs rrset : List DnsRecord)
      → ((r : DnsRecord) → Memᴰ r sigs → Memᴰ r all_sigs)
      → verify_rrset now trust_anchors fetch_dnskeys fetch_ds sigs rrset ≡ some true
      → Proved all_sigs rrset
  unfolding verify_rrset
  verify_rrset-Proved all_sigs [] rrset inside h = absurd (let k : false ≡ true = some_bool h in cc)
  verify_rrset-Proved all_sigs (sig ∷ sigs) rrset inside h =
      let (o, ran, h₁) =
        if_some-true (try_verify_rrsig now trust_anchors fetch_dnskeys fetch_ds sig sig.rdata rrset)
          _ true h in
      elim (after_outcome o _ h₁) [
        | inl here ↦
            try_verify_rrsig-Proved sig.rdata all_sigs sig rrset (inside sig (Memᴰ.head refl)) refl
              (ran ∙ ap some here)
        | inr later ↦ verify_rrset-Proved all_sigs sigs rrset (λ r m. inside r (Memᴰ.tail m)) later
      ]

  some_status : {v w : DnssecStatus} → some v ≡ some w → v ≡ w
  some_status e = cc

  good_group :
      (t : Bool) (later : Option DnssecStatus)
      → (if t then later else some bogus) ≡ some secure
      → (t ≡ true) × (later ≡ some secure)
  good_group true later h = (refl, h)
  good_group false later h = absurd (let k : false ≡ true = ap is_secure (some_status h) in cc)

  -- Either the set has no signature of its name and type, or one proves it.
  abbrev pub Accepted : List DnsRecord → Rrset → Type 0
  Accepted all_rrsigs g =
      (is_nil (matching_rrsigs_for all_rrsigs g.name g.qtype) ≡ true)
      ⊎ Proved (matching_rrsigs_for all_rrsigs g.name g.qtype) g.records

  verify_groups-Accepted :
      (all_rrsigs : List DnsRecord) (groups : List Rrset)
      → verify_groups now trust_anchors fetch_dnskeys fetch_ds all_rrsigs groups ≡ some secure
      → All (Accepted all_rrsigs) groups
  unfolding verify_groups
  verify_groups-Accepted all_rrsigs [] h = tt
  verify_groups-Accepted all_rrsigs (g ∷ groups) h =
      let matching : List DnsRecord = matching_rrsigs_for all_rrsigs g.name g.qtype in
      let later : Option DnssecStatus =
        verify_groups now trust_anchors fetch_dnskeys fetch_ds all_rrsigs groups in
      let check : Option DnssecStatus =
        if_some (verify_rrset now trust_anchors fetch_dnskeys fetch_ds matching g.records)
          (λ good. if good then later else some bogus) in
      elim (Bool-cases (is_nil matching)) [
        | inl unsigned ↦ (
          inl unsigned,
          verify_groups-Accepted all_rrsigs groups
              (ap (λ t. if t then later else check) (sym unsigned) ∙ h),
        )
        | inr signed ↦
            let (good, ran, h₁) =
              if_some-true
                (verify_rrset now trust_anchors fetch_dnskeys fetch_ds matching g.records)
                (λ good. if good then later else some bogus) secure
                (ap (λ t. if t then later else check) (sym signed) ∙ h) in
            let (passed, h₂) = good_group good later h₁ in
            (
              inr (
                  verify_rrset-Proved matching matching g.records (λ r m. m)
                    (ran ∙ ap some passed)),
              verify_groups-Accepted all_rrsigs groups h₂,
            )
      ]

  unsigned-secure :
      (all_rrsigs : List DnsRecord) (groups : List Rrset)
      → All (λ g. is_nil (matching_rrsigs_for all_rrsigs g.name g.qtype) ≡ true) groups
      → verify_groups now trust_anchors fetch_dnskeys fetch_ds all_rrsigs groups ≡ some secure
  unfolding verify_groups
  unsigned-secure all_rrsigs [] h = refl
  unsigned-secure all_rrsigs (g ∷ groups) h = rw h.0 (unsigned-secure all_rrsigs groups h.1)

  -- Where a response with answers is Secure, each of its sets of answers either has no signature of its
  -- name and type in the whole response, or has one that is in its time and that a fetched key of the
  -- signer has made, whose zone's keys stand at the foot of a chain of trust.
  pub validate_response-Accepted :
      (denial : Option DnssecStatus) (response : DnsPacket)
      → is_nil (group_rrsets response.answers) ≡ false
      → validate_response now trust_anchors fetch_dnskeys fetch_ds denial response ≡ some secure
      → All (Accepted (rrsigs_of response)) (group_rrsets response.answers)
  unfolding validate_response
  validate_response-Accepted denial response answered h =
      let groups : List Rrset = group_rrsets response.answers in
      let checked : Option DnssecStatus =
        verify_groups now trust_anchors fetch_dnskeys fetch_ds (rrsigs_of response) groups in
      elim (Bool-cases (is_nil (rrsigs_of response))) [
        | inl none_signed ↦
            let k : some insecure ≡ some secure =
              ap (λ t. if t then some insecure else if is_nil groups then denial else checked)
                (sym none_signed)
              ∙ h in
            absurd (let j : false ≡ true = ap is_secure (some_status k) in cc)
        | inr some_signed ↦ verify_groups-Accepted (rrsigs_of response) groups (
            ap₂ (λ t u. if t then some insecure else if u then denial else checked)
              (sym some_signed) (sym answered)
            ∙ h)
      ]

  -- A response with answers none of which has a signature of its own is Secure where any section carries a
  -- signature of something else, whatever the keys and the trust anchors are.
  pub validate_response-unsigned :
      (denial : Option DnssecStatus) (response : DnsPacket)
      → is_nil (rrsigs_of response) ≡ false
      → is_nil (group_rrsets response.answers) ≡ false
      → All
          (λ g. is_nil (matching_rrsigs_for (rrsigs_of response) g.name g.qtype) ≡ true)
          (group_rrsets response.answers)
      → validate_response now trust_anchors fetch_dnskeys fetch_ds denial response ≡ some secure
  unfolding validate_response
  validate_response-unsigned denial response signed answered unsigned =
      rw (signed, answered)
        (unsigned-secure (rrsigs_of response) (group_rrsets response.answers) unsigned)
