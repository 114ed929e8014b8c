-- ===== src/Packet/Valid.antt =====
-- The messages that have a wire form, and that form.
use numa.Buffer.Words.{be32, be16}
use numa.Prelude.{
  if◌then◌else◌, ◌≢◌, length, ◌+◌, ◌^◌, ◌*◌, ◌++◌, arith, ◌≡◌, ℕ, ◌<◌, All, Option, List, none,
  some, [], ◌∷◌,
}
use numa.Record.Valid.{record_wire, IsRecord}
use numa.Question.RoundTrip.{question_wire, IsQuestion}
use numa.Record.{rdata_type, DnsRecord}
use numa.Header.RoundTrip.{header_wire, IsHeader}
use numa.Question.{to_num, DnsQuestion}
use numa.Buffer.{Bytes}
use numa.Packet.{DnsPacket, counted, EdnsOpt}

pub record IsEdns (e : EdnsOpt) : Type 0 where
  pub udp_payload_size : e.udp_payload_size < 2 ^ 16
  pub extended_rcode : e.extended_rcode < 256
  pub version : e.version < 256
  pub size : length e.options < 2 ^ 16

abbrev pub IsOption : Option EdnsOpt → Type 0
IsOption none = Unit {0}
IsOption (some e) = IsEdns e

-- An additional record that `from_buffer` does not take for the OPT pseudo-record.
abbrev pub IsPlain : DnsRecord → Type 0
IsPlain r = r.domain ≡ [] → to_num (rdata_type r.rdata) ≢ 41

pub record IsPacket (p : DnsPacket) : Type 0 where
  pub id : p.header.id < 2 ^ 16
  pub opcode : p.header.opcode < 16
  pub questions : All IsQuestion p.questions
  pub answers : All IsRecord p.answers
  pub authorities : All IsRecord p.authorities
  pub resources : All IsRecord p.resources
  pub plain : All IsPlain p.resources
  pub edns : IsOption p.edns
  pub question_count : length p.questions < 2 ^ 16
  pub answer_count : length p.answers < 2 ^ 16
  pub authority_count : length p.authorities < 2 ^ 16
  pub resource_count : length p.resources + 1 < 2 ^ 16

abbrev pub questions_wire : (qs : List DnsQuestion) → All IsQuestion qs → Bytes
questions_wire [] h = []
questions_wire (q ∷ qs) h = question_wire q h.0 ++ questions_wire qs h.1

abbrev pub records_wire : (rs : List DnsRecord) → All IsRecord rs → Bytes
records_wire [] h = []
records_wire (r ∷ rs) h = record_wire r h.0 ++ records_wire rs h.1

-- The packed flags of an OPT record.
abbrev pub edns_flags : EdnsOpt → ℕ
edns_flags e = (e.extended_rcode * 256 + e.version) * 65536 + (if e.do_bit then 32768 else 0)

abbrev pub edns_wire : Option EdnsOpt → Bytes
edns_wire none = []
edns_wire (some e) =
    (0 ∷ [])
    ++ (be16 41
        ++ (be16 e.udp_payload_size
            ++ (be32 (edns_flags e) ++ (be16 (length e.options) ++ e.options))))

unfoldable pub packet_wire : (p : DnsPacket) → IsPacket p → Bytes
packet_wire p h =
    header_wire (counted p)
    ++ (questions_wire p.questions h.questions
        ++ (records_wire p.answers h.answers
            ++ (records_wire p.authorities h.authorities
                ++ (records_wire p.resources h.resources ++ edns_wire p.edns))))

pub counted-IsHeader : (p : DnsPacket) → IsPacket p → IsHeader (counted p)
unfolding counted
counted-IsHeader p h = record {
  id = h.id;
  opcode = h.opcode;
  questions = omega arith;
  answers = omega arith;
  authoritative_entries = omega arith;
  resource_entries = omega arith;
}
