-- ===== src/Dnssec/Trust.antt =====
-- A chain that validates is a chain of signatures.
use numa.Dnssec.Chain.{
  same_dnskey, validate_parent, parent_zone, is_secure, is_root, delegations_of, keys_of,
  covers_type, any_or_panic, signed_by, rrsig_verified_by, verify_rrset_signed, verify_ds,
  matched_keys, validate_chain,
}
use numa.Prelude.{
  any, subst, All, ap, ◌∙◌, is_nil, sym, not, Bool-cases, retain, arith, if_some, if◌then◌else◌,
  ◌≡◌, Option, ◌==◌, refl, zero, suc, true, false, none, some, inl, inr, [], ◌∷◌, List, ℕ, Bool,
  bytes_key,
}
use mathlib.Core.List.{Memᴰ}
use numa.Buffer.{Bytes}
use numa.Cache.{DnssecStatus, secure, bogus, indeterminate, insecure}
use numa.Record.{DnsRecord, Rdata, Dnskey, Rrsig, dnskey, rrsig, rdata_type}
use numa.Question.{QueryType, from_num}
use numa.Question.Types.{same_type, same_type_iff}
use numa.Dnssec.Keys.{Crypto, compute_key_tag, verify_signature, is_rrsig_time_valid}
use numa.Dnssec.Canonical.{build_signed_data}

pub some_bool : {a b : Bool} → some a ≡ some b → a ≡ b
some_bool e = cc

-- What a chain of guards and binds has passed where it returns `true`.
pub guard-true :
    (t : Bool) (o : Option Bool)
    → (if t then some false else o) ≡ some true
    → (t ≡ false) × (o ≡ some true)
guard-true true o h = absurd (let k : false ≡ true = some_bool h in cc)
guard-true false o h = (refl, h)

pub taken-true :
    (t : Bool) (o : Option Bool)
    → (if t then o else some false) ≡ some true
    → (t ≡ true) × (o ≡ some true)
taken-true true o h = (refl, h)
taken-true false o h = absurd (let k : false ≡ true = some_bool h in cc)

some_list : {xs ys : List DnsRecord} → some xs ≡ some ys → xs ≡ ys
some_list e = cc

pub if_some-true :
    {A B : Type 0} (o : Option A) (f : A → Option B) (b : B)
    → if_some o f ≡ some b
    → (a : A) × (o ≡ some a) × (f a ≡ some b)
if_some-true none f b h = absurd cc
if_some-true (some a) f b h = (a, refl, h)

any_or_panic-true :
    {A : Type 0} (test : A → Option Bool) (xs : List A)
    → any_or_panic test xs ≡ some true
    → (x : A) × Memᴰ x xs × (test x ≡ some true)
unfolding any_or_panic
any_or_panic-true test [] h = absurd (let k : false ≡ true = some_bool h in cc)
any_or_panic-true test (x ∷ xs) h =
    let (found, ran, rest) = if_some-true (test x) _ true h in
    elim (Bool-cases found) [
      | inl here ↦ (x, Memᴰ.head refl, ran ∙ ap some here)
      | inr more ↦
          let later : any_or_panic test xs ≡ some true =
            ap (λ t. if t then some true else any_or_panic test xs) (sym more) ∙ rest in
          let (y, inside, passed) = any_or_panic-true test xs later in (y, Memᴰ.tail inside, passed)
    ]

module _ ⦃crypto : Crypto⦄ (now : ℕ) where
  -- The key has made the signature over the records, which is in its time.
  pub record SignedBy (s : Rrsig) (k : Dnskey) (rrset : List DnsRecord) : Type 0 where
    pub algorithm : (k.algorithm == s.algorithm) ≡ true
    pub key_tag : (compute_key_tag k == s.key_tag) ≡ true
    pub in_time : is_rrsig_time_valid now s.expiration s.inception ≡ true
    pub signed : Bytes
    pub covers : build_signed_data s rrset ≡ some signed
    pub verified : verify_signature s.algorithm k.public_key signed s.signature ≡ true

  signed_by-SignedBy :
      (s : Rrsig) (k : Dnskey) (rrset : List DnsRecord)
      → signed_by now s k rrset ≡ some true
      → SignedBy s k rrset
  unfolding signed_by
  signed_by-SignedBy s k rrset h =
      let (algorithm, h₁) = guard-true (not (k.algorithm == s.algorithm)) _ h in
      let (tag, h₂) = guard-true (not (compute_key_tag k == s.key_tag)) _ h₁ in
      let (time, h₃) = guard-true (not (is_rrsig_time_valid now s.expiration s.inception)) _ h₂ in
      let (signed, covers, verified) =
        if_some-true (build_signed_data s rrset)
          (λ x. some (verify_signature s.algorithm k.public_key x s.signature)) true h₃ in
      record {
        algorithm = ground (arith, algorithm);
        key_tag = ground (arith, tag);
        in_time = ground (arith, time);
        signed = signed;
        covers = covers;
        verified = some_bool verified;
      }

  -- Records of a type carry a signature of theirs that one of the keys has made.
  pub record Signed (records : List DnsRecord) (t : QueryType) (keys : List DnsRecord)
      : Type 0 where
    pub signature : DnsRecord
    pub carried : Memᴰ signature records
    pub fields : Rrsig
    pub is_rrsig : signature.rdata ≡ rrsig fields
    pub covers : from_num fields.type_covered ≡ t
    pub signer : DnsRecord
    pub trusted : Memᴰ signer keys
    pub key : Dnskey
    pub is_key : signer.rdata ≡ dnskey key
    pub by_key : SignedBy fields key (retain (λ r. same_type (rdata_type r.rdata) t) records)

  pub verified_parts :
      (x y : Rdata) (rrset : List DnsRecord)
      → rrsig_verified_by now x y rrset ≡ some true
      → (s : Rrsig) × (k : Dnskey) × (x ≡ rrsig s) × (y ≡ dnskey k) × SignedBy s k rrset
  unfolding rrsig_verified_by
  verified_parts (rrsig s) (dnskey k) rrset h = (s, k, refl, refl, signed_by-SignedBy s k rrset h)
  verified_parts _ _ rrset h = absurd (let k : false ≡ true = some_bool h in cc)

  covered_part :
      (t : QueryType) (x : Rdata) (s : Rrsig)
      → x ≡ rrsig s
      → covers_type t x ≡ true
      → from_num s.type_covered ≡ t
  covered_part t x s same h = (same_type_iff _ t).0 (sym (ap (covers_type t) same) ∙ h)

  verify_rrset_signed-Signed :
      (records : List DnsRecord) (t : QueryType) (keys : List DnsRecord)
      → verify_rrset_signed now records t keys ≡ some true
      → Signed records t keys
  unfolding verify_rrset_signed
  verify_rrset_signed-Signed records t keys h =
      let rrset : List DnsRecord = retain (λ r. same_type (rdata_type r.rdata) t) records in
      let by_any : DnsRecord → Option Bool =
        λ r. any_or_panic (λ dk. rrsig_verified_by now r.rdata dk.rdata rrset) keys in
      let (filled, h₁) = guard-true (is_nil rrset) _ h in
      let (r, carried, passed) =
        any_or_panic-true (λ r. if covers_type t r.rdata then by_any r else some false) records
          h₁ in
      let (covers, signed) = taken-true (covers_type t r.rdata) (by_any r) passed in
      let (dk, trusted, verified) = any_or_panic-true _ keys signed in
      let (s, k, is_rrsig, is_key, by_key) = verified_parts r.rdata dk.rdata rrset verified in
      record {
        signature = r;
        carried = carried;
        fields = s;
        is_rrsig = is_rrsig;
        covers = covered_part t r.rdata s is_rrsig covers;
        signer = dk;
        trusted = trusted;
        key = k;
        is_key = is_key;
        by_key = by_key;
      }

  -- A key of the zone that a delegation commits to.
  pub record Committed (records ds_response : List DnsRecord) (zone : Bytes) (dk : DnsRecord)
      : Type 0 where
    pub of_zone : Memᴰ dk (keys_of records)
    pub delegation : DnsRecord
    pub at_parent : Memᴰ delegation (delegations_of ds_response)
    pub matches : verify_ds delegation.rdata dk.rdata zone ≡ some true

  matched_keys-Committed :
      (records ds_response : List DnsRecord) (zone : Bytes) (keys ksks : List DnsRecord)
      → ((dk : DnsRecord) → Memᴰ dk keys → Memᴰ dk (keys_of records))
      → matched_keys (delegations_of ds_response) keys zone ≡ some ksks
      → All (Committed records ds_response zone) ksks
  unfolding matched_keys
  matched_keys-Committed records ds_response zone [] ksks inside h =
      subst (All (Committed records ds_response zone)) (some_list h) tt
  matched_keys-Committed records ds_response zone (dk ∷ keys) ksks inside h =
      let (matched, ran, h₁) =
        if_some-true
          (any_or_panic (λ d. verify_ds d.rdata dk.rdata zone) (delegations_of ds_response)) _ ksks
          h in
      let (rest, found, h₂) =
        if_some-true (matched_keys (delegations_of ds_response) keys zone) _ ksks h₁ in
      let others =
        matched_keys-Committed records ds_response zone keys rest (λ k m. inside k (Memᴰ.tail m))
          found in
      subst (All (Committed records ds_response zone)) (some_list h₂) (elim (Bool-cases matched) [
        | inr other ↦ rw (other, All) others
        | inl good ↦
            let (d, at_parent, passed) =
              any_or_panic-true _ (delegations_of ds_response) (ran ∙ ap some good) in
            rw (good, All)
              (
                record {
                  of_zone = inside dk (Memᴰ.head refl);
                  delegation = d;
                  at_parent = at_parent;
                  matches = passed;
                },
                others,
              )
      ])

  module _ (trust_anchors : List DnsRecord)
      (fetch_dnskeys fetch_ds : ℕ → Bytes → List DnsRecord) where
    -- A chain of at most so many zones: each zone's keys are signed by keys that its delegation commits
    -- to, and the delegation by the keys of the parent, up to keys that a trust anchor has signed.
    pub data Trusted : ℕ → Bytes → List DnsRecord → Type 0 where
      anchored :
          {left : ℕ} {zone : Bytes} {records : List DnsRecord}
          → Signed records QueryType.dnskey trust_anchors
          → Trusted (suc left) zone records
      delegated :
          {left : ℕ} {zone : Bytes} {records ksks : List DnsRecord}
          → is_root zone ≡ false
          → All (Committed records (fetch_ds left zone) zone) ksks
          → Signed records QueryType.dnskey ksks
          → Trusted left (parent_zone zone) (fetch_dnskeys left (parent_zone zone))
          → Signed (fetch_ds left zone) QueryType.ds (fetch_dnskeys left (parent_zone zone))
          → Trusted (suc left) zone records

    is_secure_lem : (v : DnssecStatus) → is_secure v ≡ true → v ≡ secure
    is_secure_lem secure h = refl
    is_secure_lem insecure h = absurd cc
    is_secure_lem bogus h = absurd cc
    is_secure_lem indeterminate h = absurd cc

    some_status : {v w : DnssecStatus} → some v ≡ some w → v ≡ w
    some_status e = cc

    -- Branches that return another status than the one that is returned.
    branch :
        (t : Bool) (v : DnssecStatus) (o : Option DnssecStatus)
        → is_secure v ≡ false
        → (if t then some v else o) ≡ some secure
        → (t ≡ false) × (o ≡ some secure)
    branch true v o other h =
        absurd (let k : false ≡ true = sym other ∙ ap is_secure (some_status h) in cc)
    branch false v o other h = (refl, h)

    verdict_secure : (t : Bool) → some (if t then secure else bogus) ≡ some secure → t ≡ true
    verdict_secure true h = refl
    verdict_secure false h = absurd (let k : false ≡ true = ap is_secure (some_status h) in cc)

    branch_status :
        (v : DnssecStatus) (o : Option DnssecStatus)
        → (if not (is_secure v) then some v else o) ≡ some secure
        → (v ≡ secure) × (o ≡ some secure)
    branch_status secure o h = (refl, h)
    branch_status insecure o h = absurd (let k : false ≡ true = ap is_secure (some_status h) in cc)
    branch_status bogus o h = absurd (let k : false ≡ true = ap is_secure (some_status h) in cc)
    branch_status indeterminate o h =
        absurd (let k : false ≡ true = ap is_secure (some_status h) in cc)

    chosen :
        (t b : Bool) (x y : Option DnssecStatus)
        → t ≡ b
        → (if t then x else y) ≡ some secure
        → (if b then x else y) ≡ some secure
    chosen t b x y same h = ap (λ c. if c then x else y) (sym same) ∙ h

    parent_secure :
        (left : ℕ) (zone : Bytes) (records : List DnsRecord)
        → ((parent : Bytes) (keys : List DnsRecord)
            → validate_chain now trust_anchors fetch_dnskeys fetch_ds left parent keys ≡ some secure
            → Trusted left parent keys)
        → validate_parent now trust_anchors fetch_dnskeys fetch_ds left
            (validate_chain now trust_anchors fetch_dnskeys fetch_ds left)
            zone
            records
          ≡ some secure
        → Trusted (suc left) zone records
    unfolding validate_parent
    parent_secure left zone records above h =
        let parent : Bytes = parent_zone zone in
        let ds_response : List DnsRecord = fetch_ds left zone in
        let ds_records : List DnsRecord = delegations_of ds_response in
        let parents : List DnsRecord = fetch_dnskeys left parent in
        let (below_root, h₁) = branch (is_root zone) indeterminate _ refl h in
        let (delegated_zone, h₂) = branch (is_nil ds_records) insecure _ refl h₁ in
        let (ksks, matched, h₃) =
          if_some-true (matched_keys ds_records (keys_of records) zone) _ secure h₂ in
        let (some_ksks, h₄) = branch (is_nil ksks) bogus _ refl h₃ in
        let (signed, keys_signed, h₅) =
          if_some-true (verify_rrset_signed now records QueryType.dnskey ksks) _ secure h₄ in
        let (good, h₆) = branch (not signed) bogus _ refl h₅ in
        let (some_parents, h₇) = branch (is_nil parents) indeterminate _ refl h₆ in
        let (status, walked, h₈) =
          if_some-true (validate_chain now trust_anchors fetch_dnskeys fetch_ds left parent parents)
            _ secure h₇ in
        let (secured, h₉) = branch_status status _ h₈ in
        let (ds_signed, ds_ran, last) =
          if_some-true (verify_rrset_signed now ds_response QueryType.ds parents) _ secure h₉ in
        delegated below_root
          (matched_keys-Committed records ds_response zone (keys_of records) ksks (λ dk m. m)
            matched)
          (verify_rrset_signed-Signed records QueryType.dnskey ksks
            (keys_signed ∙ ap some (ground (arith, good))))
          (above parent parents (walked ∙ ap some secured))
          (verify_rrset_signed-Signed ds_response QueryType.ds parents
            (ds_ran ∙ ap some (verdict_secure ds_signed last)))

    -- Where the walk from a zone's keys returns Secure, the keys stand at the foot of a chain of
    -- signatures that are in their time, of at most as many zones as there are depths left, and a
    -- trust anchor at its top.
    pub validate_chain-Trusted :
        (left : ℕ) (zone : Bytes) (records : List DnsRecord)
        → validate_chain now trust_anchors fetch_dnskeys fetch_ds left zone records ≡ some secure
        → Trusted left zone records
    unfolding validate_chain
    validate_chain-Trusted zero zone records h =
        absurd (let k : false ≡ true = ap is_secure (some_status h) in cc)
    validate_chain-Trusted (suc left) zone records h =
        let zone_dnskeys : List DnsRecord = keys_of records in
        let present : Bool =
          any (λ dk. any (λ ta. same_dnskey dk.rdata ta.rdata) trust_anchors) zone_dnskeys in
        elim (Bool-cases present) [
          | inl here ↦
              let (signed, ran, h₁) =
                if_some-true (verify_rrset_signed now records QueryType.dnskey trust_anchors)
                  (λ t. some (if t then secure else bogus)) secure
                  (chosen present true _ _ here h) in
              anchored (
                verify_rrset_signed-Signed records QueryType.dnskey trust_anchors
                  (ran ∙ ap some (verdict_secure signed h₁)))
          | inr absent ↦
              parent_secure left zone records (validate_chain-Trusted left)
                (chosen present false _ _ absent h)
        ]
