-- ===== src/Packet/RoundTrip.antt =====
-- Whole messages: `DnsPacket::from_buffer` takes back what `DnsPacket::write` appended.
use numa.Buffer.Trip.{Reads-from_bytes, Writes-Overflows, Writes-Sends, Sends, Overflows}
use numa.Prelude.{◌≤◌, ◌<◌, ◌^◌, ◌%◌, arith, ◌+◌, length, ◌≡◌, ℕ, refl, none, some}
use numa.Buffer.Codec.{Reads-last, Reads-then, Reads}
use numa.Buffer.{from_bytes, buf_size}
use numa.Packet.Write.{write_packet-Writes}
use numa.Error.{ok}
use numa.Packet.{write_packet, edns_count, DnsPacket, from_buffer, counted}
use numa.Packet.Read.{read_resources-Reads, read_records-Reads, read_questions-Reads}
use numa.Header.RoundTrip.{read_header-Reads, IsHeader}
use numa.Packet.Valid.{counted-IsHeader, IsPacket, packet_wire}

counted_sizes :
    (m : DnsPacket)
    → IsPacket m
    → ((counted m).questions ≡ length m.questions)
      × ((counted m).answers ≡ length m.answers)
      × ((counted m).authoritative_entries ≡ length m.authorities)
      × ((counted m).resource_entries ≡ length m.resources + edns_count m.edns)
unfolding counted
counted_sizes m h = (
  omega (arith, h.question_count),
  omega (arith, h.answer_count),
  omega (arith, h.authority_count),
  elim m.edns
      as (λ o.
        (length m.resources % 2 ^ 16 + edns_count o) % 2 ^ 16 ≡ length m.resources + edns_count o) [
          | none ↦ omega (arith, h.resource_count)
          | some e ↦ omega (arith, h.resource_count)
        ],
)

pub from_buffer-Reads :
    (p : ℕ) (m : DnsPacket) (h : IsPacket m)
    → Reads p from_buffer (record m { header = counted m }) (packet_wire m h)
unfolding from_buffer packet_wire
from_buffer-Reads p m h =
    let head : IsHeader (counted m) = counted-IsHeader m h in
    let (c1, c2, c3, c4) = counted_sizes m h in
    Reads-then _ (read_header-Reads (counted m) head p) (
      rw (c1, c2, c3, c4)
        (Reads-then _ (read_questions-Reads _ m.questions h.questions) (
          Reads-then _ (read_records-Reads _ m.answers h.answers) (
            Reads-then _ (read_records-Reads _ m.authorities h.authorities) (
              Reads-last _ _ (read_resources-Reads _ m.resources h.resources h.plain m.edns h.edns)
                refl)))))

module _ (m : DnsPacket) (h : IsPacket m) where
  -- A valid message whose wire form fits the buffer: `write` on a new buffer returns, `filled` gives
  -- the wire form, and `from_buffer` on those bytes gives the message back, with the section counts
  -- of its header set to the sizes of its sections.
  pub write_packet-from_buffer :
      length (packet_wire m h) ≤ buf_size
      → Sends (write_packet m) tt (packet_wire m h)
        × ((from_buffer (from_bytes (packet_wire m h))).0 ≡ ok (record m { header = counted m }))
  write_packet-from_buffer fits =
      (Writes-Sends (write_packet-Writes m h) fits, Reads-from_bytes (from_buffer-Reads 0 m h) fits)

  -- A valid message whose wire form does not fit the buffer: `write` on a new buffer fails, and the
  -- buffer says that it overflowed.
  pub write_packet-Overflows : buf_size < length (packet_wire m h) → Overflows (write_packet m)
  write_packet-Overflows past = Writes-Overflows (write_packet-Writes m h) past
