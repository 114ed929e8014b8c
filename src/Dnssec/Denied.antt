-- ===== src/Dnssec/Denied.antt =====
-- What the status Secure of a response without answers rests on.
use numa.Dnssec.NsecProof.{NsecProves}
use numa.Dnssec.Nsec3Proof.{Nsec3Proves}
use numa.Prelude.{◌≤◌, All, List, ◌≡◌, Option, ℕ, Bool, ◌∷◌}
use numa.Record.{nsec3, Nsec3, DnsRecord}
use numa.Dnssec.Endorsed.{EndorsedSet}
use numa.Dnssec.Denial.{of_type}
use numa.Dnssec.Response.{group_rrsets}
use numa.Dnssec.Keys.{Crypto}
use numa.Question.{QueryType}
use numa.Buffer.{Bytes}

module _ ⦃crypto : Crypto⦄ (now : ℕ) (cached_keys : Bytes → Option (List DnsRecord)) where
  -- The NSEC records prove the denial, and each of their sets is endorsed.
  abbrev pub DeniedByNsec : List DnsRecord → List DnsRecord → Bytes → ℕ → Bool → Type 0
  DeniedByNsec authorities all_rrsigs qname qtype is_nxdomain =
      All (EndorsedSet now cached_keys all_rrsigs)
        (group_rrsets (of_type QueryType.nsec authorities))
      × NsecProves qname qtype is_nxdomain (of_type QueryType.nsec authorities)

  -- The NSEC3 records prove the denial with the parameters of the first, and each of their sets is endorsed.
  pub record DeniedByNsec3 (authorities all_rrsigs : List DnsRecord) (qname : Bytes) (qtype : ℕ)
      (is_nxdomain : Bool) : Type 0 where
    pub sets :
        All
          (EndorsedSet now cached_keys all_rrsigs)
          (group_rrsets (of_type QueryType.nsec3 authorities))
    pub first : DnsRecord
    pub others : List DnsRecord
    pub all_nsec3 : of_type QueryType.nsec3 authorities ≡ first ∷ others
    pub parameters : Nsec3
    pub is_nsec3 : first.rdata ≡ nsec3 parameters
    pub algorithm : parameters.hash_algorithm ≡ 1
    pub iterations : parameters.iterations ≤ 500
    pub proves : Nsec3Proves parameters qname qtype is_nxdomain (first ∷ others)
