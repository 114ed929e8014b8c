-- ===== src/Cache/Written.antt =====
-- What becomes of a message that is inserted.
use numa.Packet.RoundTrip.{write_packet-Overflows, write_packet-from_buffer}
use numa.Packet.{write_packet, DnsPacket}
use numa.Buffer.Trip.{Sends}
use numa.Prelude.{arith, leb, Bool-cases, ◌≤◌, ◌⊎◌, ◌≡◌, length, ◌<◌, ℕ, refl, inl, inr}
use numa.Cache.{insert_wire, DnsCache, DnssecStatus, insert_with_status}
use numa.Packet.Valid.{packet_wire, IsPacket}
use numa.Buffer.{buf_size, Bytes}
use numa.Question.{QueryType}

-- A valid message whose wire form is longer than a buffer leaves the cache as it is; any other one is inserted
-- in its wire form.
pub insert_with_status-written :
    (now : ℕ) (domain : Bytes) (qtype : QueryType) (m : DnsPacket) (h : IsPacket m)
    (dnssec_status : DnssecStatus) (c : DnsCache)
    → ((buf_size < length (packet_wire m h))
        × (insert_with_status now domain qtype m dnssec_status c ≡ c))
      ⊎ ((length (packet_wire m h) ≤ buf_size)
          × (insert_with_status now domain qtype m dnssec_status c
              ≡ insert_wire now domain qtype (packet_wire m h) dnssec_status c))
unfolding insert_with_status
insert_with_status-written now domain qtype m h dnssec_status c =
    elim (Bool-cases (leb (length (packet_wire m h)) buf_size)) [
      | inl fits ↦
          let short : length (packet_wire m h) ≤ buf_size = ground (arith, fits) in
          let sent : Sends (write_packet m) tt (packet_wire m h) =
            (write_packet-from_buffer m h short).0 in
          inr (short, rw (sent.returns, sent.sent, insert_with_status) refl)
      | inr past ↦
          let long : buf_size < length (packet_wire m h) = ground (arith, past) in
          inl (long, rw ((write_packet-Overflows m h long).0, insert_with_status) refl)
    ]
