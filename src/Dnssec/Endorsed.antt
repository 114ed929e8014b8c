-- ===== src/Dnssec/Endorsed.antt =====
-- The signatures of the records that deny a name or a type.
use numa.Prelude.{
  any-Mem, is_nil, ◌==◌, arith, if_some, ◌∙◌, All, ap, sym, Bool-cases, retain, any, not, List, ◌≡◌,
  Option, if◌then◌else◌, ℕ, ◌&&◌, Bool, refl, true, false, none, some, inl, inr, [], ◌∷◌,
}
use numa.Dnssec.Denial.{
  of_type, verify_authority_rrsigs, key_signs, all_endorsed, endorsed_by, endorsed,
}
use numa.Dnssec.Response.{group_rrsets, signs, matching_rrsigs_for, Rrset}
use numa.Dnssec.Keys.{verify_signature, compute_key_tag, is_rrsig_time_valid, Crypto}
use numa.Dnssec.Trust.{SignedBy, guard-true, taken-true, some_bool, if_some-true}
use numa.Dnssec.Canonical.{build_signed_data}
use numa.Record.{dnskey, Dnskey, rrsig, Rdata, Rrsig, DnsRecord}
use numa.Question.{QueryType}
use numa.Buffer.{Bytes}
use mathlib.Core.List.{Memᴰ}

head-retain :
    {A : Type 0} (keeps : A → Bool) (xs : List A) (y : A) (ys : List A)
    → retain keeps xs ≡ y ∷ ys
    → keeps y ≡ true
head-retain keeps [] y ys h = absurd cc
head-retain keeps (x ∷ xs) y ys h = elim (Bool-cases (keeps x)) [
  | inl kept ↦
      let same : x ∷ retain keeps xs ≡ y ∷ ys =
        sym (ap (λ t. if t then x ∷ retain keeps xs else retain keeps xs) kept) ∙ h in
      let k : x ≡ y = cc in ap keeps (sym k) ∙ kept
  | inr gone ↦
      head-retain keeps xs y ys
        (sym (ap (λ t. if t then x ∷ retain keeps xs else retain keeps xs) gone) ∙ h)
]

pub both-true : (x y : Bool) → (x && y) ≡ true → (x ≡ true) × (y ≡ true)
both-true true y h = (refl, h)
both-true false y h = absurd cc

module _ ⦃crypto : Crypto⦄ (now : ℕ) (cached_keys : Bytes → Option (List DnsRecord)) where
  -- One of the signatures is made over the records by a key that the cache holds for its signer.
  pub record Endorsed (sigs rrset : List DnsRecord) : Type 0 where
    pub signature : DnsRecord
    pub carried : Memᴰ signature sigs
    pub fields : Rrsig
    pub is_rrsig : signature.rdata ≡ rrsig fields
    pub keys : List DnsRecord
    pub cached : cached_keys fields.signer_name ≡ some keys
    pub signer : DnsRecord
    pub trusted : Memᴰ signer keys
    pub key : Dnskey
    pub is_key : signer.rdata ≡ dnskey key
    pub by_key : SignedBy now fields key rrset

  key_signs-SignedBy :
      (s : Rrsig) (signed : Bytes) (rrset : List DnsRecord) (x : Rdata)
      → is_rrsig_time_valid now s.expiration s.inception ≡ true
      → build_signed_data s rrset ≡ some signed
      → key_signs s signed x ≡ true
      → (k : Dnskey) × (x ≡ dnskey k) × SignedBy now s k rrset
  key_signs-SignedBy s signed rrset (dnskey k) time covers h =
      let (fits, verified) =
        both-true ((k.algorithm == s.algorithm) && (compute_key_tag k == s.key_tag))
          (verify_signature s.algorithm k.public_key signed s.signature) h in
      let (algorithm, tag) =
        both-true (k.algorithm == s.algorithm) (compute_key_tag k == s.key_tag) fits in
      (
        k,
        refl,
        record {
          algorithm = algorithm;
          key_tag = tag;
          in_time = time;
          signed = signed;
          covers = covers;
          verified = verified;
        },
      )
  key_signs-SignedBy s signed rrset _ time covers h = absurd cc

  with_keys-Endorsed :
      (sigs rrset : List DnsRecord) (sig : DnsRecord) (s : Rrsig) (found : Option (List DnsRecord))
      → Memᴰ sig sigs
      → sig.rdata ≡ rrsig s
      → is_rrsig_time_valid now s.expiration s.inception ≡ true
      → cached_keys s.signer_name ≡ found
      → (elim found as (λ x. Option Bool) [
        | none ↦ some false
        | some keys ↦
            if_some
              (build_signed_data s rrset)
              (λ signed. some (any (λ dk. key_signs s signed dk.rdata) keys))
      ])
        ≡ some true
      → Endorsed sigs rrset
  with_keys-Endorsed sigs rrset sig s none carried same time cached h =
      absurd (let k : false ≡ true = some_bool h in cc)
  with_keys-Endorsed sigs rrset sig s (some keys) carried same time cached h =
      let (signed, covers, h₁) =
        if_some-true (build_signed_data s rrset)
          (λ signed. some (any (λ dk. key_signs s signed dk.rdata) keys)) true h in
      let (dk, trusted, signs_it) =
        any-Mem (λ dk. key_signs s signed dk.rdata) keys (some_bool h₁) in
      let (k, is_key, by_key) = key_signs-SignedBy s signed rrset dk.rdata time covers signs_it in
      record {
        signature = sig;
        carried = carried;
        fields = s;
        is_rrsig = same;
        keys = keys;
        cached = cached;
        signer = dk;
        trusted = trusted;
        key = k;
        is_key = is_key;
        by_key = by_key;
      }

  endorsed_by-Endorsed :
      (name : Bytes) (t : QueryType) (x : Rdata) (sigs rrset : List DnsRecord) (sig : DnsRecord)
      → Memᴰ sig sigs
      → sig.rdata ≡ x
      → signs name t sig x ≡ true
      → endorsed_by now cached_keys rrset x ≡ some true
      → Endorsed sigs rrset
  unfolding endorsed_by
  endorsed_by-Endorsed name t (rrsig s) sigs rrset sig carried same matches h =
      let (time, h₁) = guard-true (not (is_rrsig_time_valid now s.expiration s.inception)) _ h in
      with_keys-Endorsed sigs rrset sig s (cached_keys s.signer_name) carried same
        (ground (arith, time)) refl h₁
  endorsed_by-Endorsed name t _ sigs rrset sig carried same matches h = absurd cc

  -- One of the signatures of the set endorses it.
  abbrev pub EndorsedSet : List DnsRecord → Rrset → Type 0
  EndorsedSet all_rrsigs g = Endorsed (matching_rrsigs_for all_rrsigs g.name g.qtype) g.records

  endorsed-Endorsed :
      (all_rrsigs sigs : List DnsRecord) (g : Rrset)
      → matching_rrsigs_for all_rrsigs g.name g.qtype ≡ sigs
      → endorsed now cached_keys g.records sigs ≡ some true
      → Endorsed sigs g.records
  unfolding endorsed matching_rrsigs_for
  endorsed-Endorsed all_rrsigs [] g same h = absurd (let k : false ≡ true = some_bool h in cc)
  endorsed-Endorsed all_rrsigs (sig ∷ sigs) g same h =
      endorsed_by-Endorsed g.name g.qtype sig.rdata (sig ∷ sigs) g.records sig (Memᴰ.head refl) refl
        (head-retain (λ r. signs g.name g.qtype r r.rdata) all_rrsigs sig sigs same) h

  all_endorsed-Endorsed :
      (all_rrsigs : List DnsRecord) (groups : List Rrset)
      → all_endorsed now cached_keys all_rrsigs groups ≡ some true
      → All (EndorsedSet all_rrsigs) groups
  unfolding all_endorsed
  all_endorsed-Endorsed all_rrsigs [] h = tt
  all_endorsed-Endorsed all_rrsigs (g ∷ groups) h =
      let (good, ran, h₁) =
        if_some-true
          (endorsed now cached_keys g.records (matching_rrsigs_for all_rrsigs g.name g.qtype))
          (λ good. if good then all_endorsed now cached_keys all_rrsigs groups else some false) true
          h in
      let (passed, later) = taken-true good _ h₁ in
      (
        endorsed-Endorsed all_rrsigs (matching_rrsigs_for all_rrsigs g.name g.qtype) g refl
            (ran ∙ ap some passed),
        all_endorsed-Endorsed all_rrsigs groups later,
      )

  pub verify_authority_rrsigs-Endorsed :
      (authorities all_rrsigs : List DnsRecord) (t : QueryType)
      → verify_authority_rrsigs now cached_keys authorities all_rrsigs t ≡ some true
      → All (EndorsedSet all_rrsigs) (group_rrsets (of_type t authorities))
  unfolding verify_authority_rrsigs
  verify_authority_rrsigs-Endorsed authorities all_rrsigs t h =
      let groups : List Rrset = group_rrsets (of_type t authorities) in
      let (good, ran, h₁) =
        if_some-true (all_endorsed now cached_keys all_rrsigs groups)
          (λ good. some (good && not (is_nil groups))) true h in
      let (passed, filled) = both-true good (not (is_nil groups)) (some_bool h₁) in
      all_endorsed-Endorsed all_rrsigs groups (ran ∙ ap some passed)
