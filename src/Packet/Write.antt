-- ===== src/Packet/Write.antt =====
-- `DnsPacket::write` appends the wire form of the message.
use numa.Prelude.Bits.{or_shifted}
use numa.Buffer.Words.{
  be16, be32, write_bytes-Writes, write_u32-Writes, write_u16-Writes, write-Writes,
}
use numa.Prelude.{
  ◌+◌, ◌*◌, if◌then◌else◌, ℕ, ◌<◌, arith, ◌^◌, ◌%◌, length, ◌≡◌, All, Option, List, none, some, [],
  ◌∷◌,
}
use numa.Buffer.{write_u16, write_u32}
use numa.Buffer.Codec.{◌▸◌, Writes-bind, Writes-pure, Writes}
use numa.Record.RoundTrip.{write_record-Writes}
use numa.Question.RoundTrip.{write_question-Writes, IsQuestion}
use numa.Packet.Valid.{
  counted-IsHeader, questions_wire, records_wire, edns_wire, edns_flags, IsOption, IsPacket, IsEdns,
  packet_wire,
}
use numa.Packet.{
  counted, DnsPacket, EdnsOpt, write_list_of, edns_ttl_field, write_packet, write_edns,
}
use numa.Header.RoundTrip.{write_header-Writes}
use numa.Record.Writer.{write_record}
use numa.Question.{write_question, DnsQuestion, to_num}
use numa.Record.Valid.{IsRecord}
use numa.Record.{DnsRecord}

write_questions-Writes :
    (qs : List DnsQuestion) (h : All IsQuestion qs)
    → Writes (write_list_of write_question qs) tt (questions_wire qs h)
unfolding write_list_of
write_questions-Writes [] h = Writes-pure tt
write_questions-Writes (q ∷ qs) h =
    Writes-bind (write_question q) _ tt tt _ _ (write_question-Writes q h.0)
      (write_questions-Writes qs h.1)

write_records-Writes :
    (rs : List DnsRecord) (h : All IsRecord rs)
    → Writes (write_list_of write_record rs) tt (records_wire rs h)
unfolding write_list_of
write_records-Writes [] h = Writes-pure tt
write_records-Writes (r ∷ rs) h =
    Writes-bind (write_record r) _ _ tt _ _ (write_record-Writes r h.0)
      (write_records-Writes rs h.1)

pub edns_ttl_field-flags : (e : EdnsOpt) → IsEdns e → edns_ttl_field e ≡ edns_flags e
unfolding edns_ttl_field
edns_ttl_field-flags e h =
    let bit : ℕ = if e.do_bit then 32768 else 0 in
    let small : bit < 2 ^ 16 = ground arith in
    let top : e.extended_rcode * 2 ^ 24 + e.version * 2 ^ 16
        ≡ (e.extended_rcode * 256 + e.version) * 2 ^ 16 =
      omega arith in
    rw (or_shifted 24 e.extended_rcode (e.version * 2 ^ 16) (omega (arith, h.version)))
      (rw top (or_shifted 16 (e.extended_rcode * 256 + e.version) bit small))

pub edns_flags_fit : (e : EdnsOpt) → IsEdns e → edns_flags e < 2 ^ 32
edns_flags_fit e h = ground (arith, h.extended_rcode, h.version)

write_edns-Writes : (o : Option EdnsOpt) → IsOption o → Writes (write_edns o) tt (edns_wire o)
unfolding write_edns to_num
write_edns-Writes none h = Writes-pure tt
write_edns-Writes (some e) h =
    write-Writes 0
    ▸ write_u16-Writes 41 (omega arith)
    ▸ write_u16-Writes e.udp_payload_size h.udp_payload_size
    ▸ flags
    ▸ length_field
    ▸ write_bytes-Writes e.options
  where
    flags : Writes (write_u32 (edns_ttl_field e)) tt (be32 (edns_flags e))
    flags = rw (edns_ttl_field-flags e h) (write_u32-Writes (edns_flags e) (edns_flags_fit e h))

    length_field : Writes (write_u16 (length e.options % 2 ^ 16)) tt (be16 (length e.options))
    length_field =
        let size : length e.options % 2 ^ 16 ≡ length e.options = omega (arith, h.size) in
        rw size (write_u16-Writes (length e.options) h.size)

-- A valid message is appended whole, or the call fails with the overflow flag set.
pub write_packet-Writes :
    (p : DnsPacket) (h : IsPacket p) → Writes (write_packet p) tt (packet_wire p h)
unfolding write_packet packet_wire
write_packet-Writes p h =
    write_header-Writes (counted p) (counted-IsHeader p h)
    ▸ write_questions-Writes p.questions h.questions
    ▸ write_records-Writes p.answers h.answers
    ▸ write_records-Writes p.authorities h.authorities
    ▸ write_records-Writes p.resources h.resources
    ▸ write_edns-Writes p.edns h.edns
