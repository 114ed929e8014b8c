-- ===== src/Tests/Trust.antt =====
-- A root zone with one key that signs itself, and responses under it.
use numa.Prelude.{
  Option, ◌≡◌, is_nil, All, refl, true, false, none, some, [], ◌∷◌, List, ℕ, bytes_key,
}
use numa.Record.{nsec, rdata_type, DnsRecord, a, rrsig, dnskey}
use numa.Dnssec.Response.{
  try_verify_with_key, try_keys, try_verify_rrsig, verify_rrset, verify_groups, matching_rrsigs_for,
  push_group, group_onto, validate_response, group_rrsets, rrsigs_of,
}
use numa.Buffer.{buffer_runs, Bytes}
use numa.Buffer.Name.{name_runs, write_one_label}
use numa.DomainList.{text_le, insert_text, sort}
use numa.Question.{to_num, from_num}
use numa.Question.Types.{same_type}
use numa.Dnssec.Keys.{
  strip_zeros, asn1_length, asn1_integer, exponent_at, rsa_dnskey_to_der, verify_rsa_sha256,
  verify_signature, is_rrsig_time_valid, sum_words, compute_key_tag, Crypto,
}
use numa.Dnssec.Canonical.{
  record_rdata_canonical, record_to_canonical_wire, canonical_records, lower_labels, name_to_wire,
  build_signed_data,
}
use numa.Dnssec.Chain.{
  signed_by, rrsig_verified_by, any_or_panic, verify_rrset_signed, same_dnskey, keys_of,
  validate_chain,
}
use numa.Cache.{secure}
use numa.Packet.{DnsPacket, new_packet}
use numa.Dnssec.Order.{nsec_covers_name, canonical}
use numa.Dnssec.Gap.{nsec_covers_name-ends}
use numa.Dnssec.Trust.{Trusted, validate_chain-Trusted}
use numa.Dnssec.Proved.{validate_response-Accepted, validate_response-unsigned, Accepted}
use numa.Tests.Ascii.{ab, x_ab}

-- Primitives that accept every signature.
instance abbrev accepting : Crypto
accepting = record {
  rsa_pkcs1_sha256 = λ key signed sig. true;
  ecdsa_p256_sha256 = λ key signed sig. true;
  ed25519 = λ key signed sig. true;
  sha1 = λ input. input;
  sha256 = λ input. input;
  sha384 = λ input. input;
}

abbrev root : Bytes
root = b'.' ∷ []

abbrev root_key : DnsRecord
root_key = record {
  domain = root;
  rdata = dnskey (record { flags = 257; protocol = 3; algorithm = 8; public_key = 1 ∷ 3 ∷ 5 ∷ [] });
  ttl = 60;
}

-- A signature of the root's key over the records of a type.
abbrev root_signature : Bytes → ℕ → DnsRecord
root_signature owner t = record {
  domain = owner;
  rdata = rrsig (record {
    type_covered = t;
    algorithm = 8;
    labels = 0;
    original_ttl = 60;
    expiration = 2000;
    inception = 0;
    key_tag = 2572;
    signer_name = root;
    signature = [];
  });
  ttl = 60;
}

abbrev root_records : List DnsRecord
root_records = root_key ∷ root_signature root 48 ∷ []

abbrev fetched : ℕ → Bytes → List DnsRecord
fetched left zone = root_records

abbrev no_ds : ℕ → Bytes → List DnsRecord
no_ds left zone = []

root_validates :
    validate_chain 1000 (root_key ∷ []) fetched no_ds 11 root root_records ≡ some secure
unfolding validate_chain keys_of same_dnskey verify_rrset_signed any_or_panic rrsig_verified_by
    signed_by compute_key_tag sum_words is_rrsig_time_valid build_signed_data name_to_wire
    lower_labels canonical_records record_to_canonical_wire record_rdata_canonical verify_signature
    verify_rsa_sha256 rsa_dnskey_to_der exponent_at asn1_integer asn1_length strip_zeros same_type
    from_num to_num rdata_type sort insert_text text_le name_runs buffer_runs
root_validates = refl

validate_chain-Trusted_example : Trusted 1000 (root_key ∷ []) fetched no_ds 11 root root_records
validate_chain-Trusted_example =
    validate_chain-Trusted 1000 (root_key ∷ []) fetched no_ds 11 root root_records root_validates

abbrev address : DnsRecord
address = record { domain = ab; rdata = a (record { o0 = 1; o1 = 2; o2 = 3; o3 = 4 }); ttl = 60 }

abbrev signed_response : DnsPacket
signed_response = record new_packet { answers = address ∷ root_signature ab 1 ∷ [] }

-- The only signature is of name servers of another name.
abbrev unsigned_response : DnsPacket
unsigned_response = record new_packet {
  answers = address ∷ [];
  authorities = root_signature x_ab 2 ∷ [];
}

signed_answers_secure :
    validate_response 1000 (root_key ∷ []) fetched no_ds none signed_response ≡ some secure
unfolding validate_chain keys_of same_dnskey verify_rrset_signed any_or_panic rrsig_verified_by
    signed_by compute_key_tag sum_words is_rrsig_time_valid build_signed_data name_to_wire
    lower_labels canonical_records record_to_canonical_wire record_rdata_canonical verify_signature
    verify_rsa_sha256 rsa_dnskey_to_der exponent_at asn1_integer asn1_length strip_zeros same_type
    from_num to_num rdata_type sort insert_text text_le name_runs buffer_runs validate_response
    group_onto push_group matching_rrsigs_for verify_groups verify_rrset try_verify_rrsig try_keys
    try_verify_with_key write_one_label
signed_answers_secure = refl

signed_answered : is_nil (group_rrsets signed_response.answers) ≡ false
unfolding group_onto push_group rdata_type same_type
signed_answered = refl

validate_response-Accepted_example :
    All
      (Accepted 1000 (root_key ∷ []) fetched no_ds (rrsigs_of signed_response))
      (group_rrsets signed_response.answers)
validate_response-Accepted_example =
    validate_response-Accepted 1000 (root_key ∷ []) fetched no_ds none signed_response
      signed_answered signed_answers_secure

unsigned_signed : is_nil (rrsigs_of unsigned_response) ≡ false
unfolding rdata_type same_type
unsigned_signed = refl

unsigned_answered : is_nil (group_rrsets unsigned_response.answers) ≡ false
unfolding group_onto push_group rdata_type same_type
unsigned_answered = refl

unsigned_groups :
    All
      (λ g. is_nil (matching_rrsigs_for (rrsigs_of unsigned_response) g.name g.qtype) ≡ true)
      (group_rrsets unsigned_response.answers)
unfolding group_onto push_group rdata_type same_type matching_rrsigs_for from_num to_num
unsigned_groups = (refl, tt)

validate_response-unsigned_example :
    validate_response 1000 [] no_ds no_ds none unsigned_response ≡ some secure
validate_response-unsigned_example =
    validate_response-unsigned 1000 [] no_ds no_ds none unsigned_response unsigned_signed
      unsigned_answered unsigned_groups

nsec_covers_name-ends_example :
    (canonical ab ≡ canonical ab → nsec_covers_name ab x_ab ab ≡ false)
    × (canonical ab ≡ canonical x_ab → nsec_covers_name ab x_ab ab ≡ false)
nsec_covers_name-ends_example = nsec_covers_name-ends ab x_ab ab

-- The name holds no record but this one.
abbrev own_nsec : DnsRecord
own_nsec = record { domain = ab; rdata = nsec x_ab []; ttl = 60 }

abbrev denying : List DnsRecord
denying = own_nsec ∷ root_signature ab 47 ∷ []

abbrev cached_root : Bytes → Option (List DnsRecord)
cached_root name = some (root_key ∷ [])
