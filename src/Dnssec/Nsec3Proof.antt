-- ===== src/Dnssec/Nsec3Proof.antt =====
-- What NSEC3 records prove.
use numa.Prelude.{
  arith, ltb, ◌==◌, ◌≤◌, if_some, if◌then◌else◌, ◌++◌, sym, Bool-cases, ap, ◌∙◌, bytes_key, any,
  Option, ◌≡◌, ℕ, not, List, Bool, refl, true, false, none, some, inl, inr,
}
use numa.Dnssec.Hashed.{decoded-Lacks, Lacks}
use numa.Dnssec.Encloser.{ancestor_hashes-Hashes, HashOf, nsec3_denies-Proof, EncloserProof}
use numa.Dnssec.Nsec.{iterate_hash, nsec3_hash}
use numa.Dnssec.Chain.{is_secure}
use numa.Cache.{indeterminate, bogus, secure, DnssecStatus}
use numa.Dnssec.Canonical.{name_to_wire}
use numa.Dnssec.Order.{labels_of}
use numa.Dnssec.Denial.{nsec3_proves, ancestor_hashes, nsec3_denies, hash_lacks_type, decode_owners}
use numa.Dnssec.Trust.{if_some-true}
use numa.Dnssec.Keys.{Crypto}
use numa.Record.{nsec3, Nsec3, DnsRecord, Rdata}
use numa.Buffer.{Bytes}

some_status : {v w : DnssecStatus} → some v ≡ some w → v ≡ w
some_status e = cc

module _ ⦃crypto : Crypto⦄ where
  -- What the records prove with the parameters of one of them: for a name that does not exist, what the record
  -- above says, and otherwise that a record under the name's hash lacks the type.
  abbrev pub Nsec3Proves : Nsec3 → Bytes → ℕ → Bool → List DnsRecord → Type 0
  Nsec3Proves n qname qtype true nsec3s = EncloserProof n nsec3s (labels_of qname)
  Nsec3Proves n qname qtype false nsec3s = (h : Bytes) × HashOf n qname h × Lacks nsec3s h qtype

  nsec3_hash-limits :
      (name : Bytes) (algorithm iterations : ℕ) (salt h : Bytes)
      → nsec3_hash name algorithm iterations salt ≡ some (some h)
      → (algorithm ≡ 1) × (iterations ≤ 500)
  unfolding nsec3_hash
  nsec3_hash-limits name algorithm iterations salt h e =
      let other : Bool → Option (Option Bytes) → Option (Option Bytes) =
        λ t o. if t then some none else o in
      let later : Option (Option Bytes) =
        if_some (name_to_wire name)
          (λ wire. some (some (iterate_hash iterations salt (crypto.sha1 (wire ++ salt))))) in
      elim (Bool-cases (not (algorithm == 1))) [
        | inl unknown ↦ absurd (
            let k : some none ≡ some (some h) =
              sym (ap (λ t. other t (other (ltb 500 iterations) later)) unknown) ∙ e in
            cc)
        | inr known ↦ elim (Bool-cases (ltb 500 iterations)) [
          | inl past ↦ absurd (
              let k : some none ≡ some (some h) =
                sym (
                  ap (λ t. other (not (algorithm == 1)) (other t later)) past
                  ∙ ap (λ t. other t (some none)) known)
                ∙ e in
              cc)
          | inr below ↦ (ground (arith, known), ground (arith, below))
        ]
      ]

  some_if : (t : Bool) → some (if t then secure else bogus) ≡ some secure → t ≡ true
  some_if true e = refl
  some_if false e = absurd (let k : false ≡ true = ap is_secure (some_status e) in cc)

  -- What follows from the hash of the name.
  hashed_part :
      (qname : Bytes) (qtype : ℕ) (is_nxdomain : Bool) (nsec3s : List DnsRecord) (n : Nsec3)
      (hashed : Option Bytes)
      → nsec3_hash qname n.hash_algorithm n.iterations n.salt ≡ some hashed
      → (elim hashed as (λ x. Option DnssecStatus) [
        | none ↦ some indeterminate
        | some qname_hash ↦
            let decoded = decode_owners nsec3s in
            if is_nxdomain
            then if_some (ancestor_hashes n (labels_of qname)) (λ hashes.
              if_some
                (nsec3_denies n decoded (labels_of qname) hashes)
                (λ proven. some (if proven then secure else bogus)))
            else some (
                if any (λ d. hash_lacks_type qname_hash qtype d.0 d.1.rdata) decoded
                then secure
                else bogus)
      ])
        ≡ some secure
      → (n.hash_algorithm ≡ 1) × (n.iterations ≤ 500) × Nsec3Proves n qname qtype is_nxdomain nsec3s
  hashed_part qname qtype is_nxdomain nsec3s n none hash e =
      absurd (let k : false ≡ true = ap is_secure (some_status e) in cc)
  hashed_part qname qtype true nsec3s n (some h) hash e =
      let (algorithm, iterations) =
        nsec3_hash-limits qname n.hash_algorithm n.iterations n.salt h hash in
      let (hashes, walked, e₁) = if_some-true (ancestor_hashes n (labels_of qname)) _ secure e in
      let (proven, ran, e₂) =
        if_some-true (nsec3_denies n (decode_owners nsec3s) (labels_of qname) hashes)
          (λ proven. some (if proven then secure else bogus)) secure e₁ in
      (
        algorithm,
        iterations,
        nsec3_denies-Proof n nsec3s (labels_of qname) hashes
            (ancestor_hashes-Hashes n (labels_of qname) hashes walked)
            (ran ∙ ap some (some_if proven e₂)),
      )
  hashed_part qname qtype false nsec3s n (some h) hash e =
      let (algorithm, iterations) =
        nsec3_hash-limits qname n.hash_algorithm n.iterations n.salt h hash in
      (algorithm, iterations, (h, hash, decoded-Lacks nsec3s h qtype (some_if _ e)))

  pub nsec3_proves-Proves :
      (qname : Bytes) (qtype : ℕ) (is_nxdomain : Bool) (nsec3s : List DnsRecord) (x : Rdata)
      → nsec3_proves qname qtype is_nxdomain nsec3s x ≡ some secure
      → (n : Nsec3) × (x ≡ nsec3 n)
        × (n.hash_algorithm ≡ 1)
        × (n.iterations ≤ 500)
        × Nsec3Proves n qname qtype is_nxdomain nsec3s
  unfolding nsec3_proves
  nsec3_proves-Proves qname qtype is_nxdomain nsec3s (nsec3 n) e =
      let (hashed, hash, e₁) =
        if_some-true (nsec3_hash qname n.hash_algorithm n.iterations n.salt) _ secure e in
      let (algorithm, iterations, proves) =
        hashed_part qname qtype is_nxdomain nsec3s n hashed hash e₁ in
      (n, refl, algorithm, iterations, proves)
  nsec3_proves-Proves qname qtype is_nxdomain nsec3s _ e =
      absurd (let k : false ≡ true = ap is_secure (some_status e) in cc)
