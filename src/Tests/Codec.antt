-- ===== src/Tests/Codec.antt =====
-- Names, headers, questions, records and messages.
use numa.Prelude.{◌≤◌, ◌⊎◌, ◌<◌, length, ℕ, zero, suc, ◌≡◌, arith, refl, true, some, [], ◌∷◌}
use numa.Buffer.{buf_size, new, from_bytes, Bytes}
use numa.Cache.{insert_with_status, insert_wire, new_cache, insecure}
use numa.Cache.Written.{insert_with_status-written}
use numa.Error.{jump_limit, err, ok}
use numa.Packet.RoundTrip.{write_packet-from_buffer, write_packet-Overflows}
use numa.Packet.{counted, from_buffer, write_packet, new_packet, default_edns, EdnsOpt, DnsPacket}
use numa.Record.RoundTrip.{write_record-read_record}
use numa.Record.{read_record, rdata_type, a, DnsRecord}
use numa.Header.RoundTrip.{write_header-read_header, header_wire}
use numa.Buffer.Trip.{Overflows, Sends}
use numa.Record.Writer.{write_record}
use numa.Question.{read_question, write_question, to_num, from_num, QueryType, DnsQuestion}
use numa.Header.{read_header, write_header, new_header}
use numa.Buffer.Name.Flag.{write_qname-Flagged, Flagged}
use numa.Record.Valid.{rdata_wire, record_wire, IsRecord}
use numa.Buffer.Name.Total.{read_qname_total, QnameOutcome}
use numa.Packet.Valid.{packet_wire, IsPacket}
use numa.Question.RoundTrip.{
  write_question-read_question, text_wire, question_wire, IsQuestion, IsText,
}
use numa.Buffer.Name.Read.{write_qname-read_qname}
use numa.Buffer.Name.{read_qname, write_qname, name_runs}
use numa.Buffer.Name.Text.{name_wire, rest_text, name_text, IsLabel}

abbrev label : Bytes
label = b'd' ∷ b'n' ∷ b's' ∷ []

label-IsLabel : IsLabel label
label-IsLabel = record {
  bytes = ((omega arith, refl), ((omega arith, refl), ((omega arith, refl), tt)));
  not_empty = omega arith;
  short = omega arith;
}

abbrev host : Bytes
host = name_text (label ∷ label ∷ [])

abbrev host-IsText : IsText host
host-IsText = record {
  labels = label ∷ label ∷ [];
  valid = (label-IsLabel, (label-IsLabel, tt));
  prints = refl;
}

host_spelled : host ≡ b'd' ∷ b'n' ∷ b's' ∷ b'.' ∷ b'd' ∷ b'n' ∷ b's' ∷ []
unfolding name_runs name_text rest_text
host_spelled = refl

abbrev question : DnsQuestion
question = record { name = host; qtype = QueryType.a }

question-IsQuestion : IsQuestion question
unfolding from_num to_num
question-IsQuestion = record { name = host-IsText; canonical = refl; number = omega arith }

abbrev answer : DnsRecord
answer = record { domain = host; rdata = a (record { o0 = 10; o1 = 0; o2 = 0; o3 = 1 }); ttl = 300 }

answer-IsRecord : IsRecord answer
unfolding rdata_type to_num
answer-IsRecord = record {
  domain = host-IsText;
  rdata = record { o0 = omega arith; o1 = omega arith; o2 = omega arith; o3 = omega arith };
  number = omega arith;
  ttl = omega arith;
}

abbrev edns : EdnsOpt
edns = record default_edns { do_bit = true }

abbrev message : DnsPacket
message = record new_packet {
  header = record new_header { id = 4660; recursion_desired = true };
  questions = question ∷ [];
  answers = answer ∷ [];
  resources = answer ∷ [];
  edns = some edns;
}

message-IsPacket : IsPacket message
unfolding rdata_type to_num
message-IsPacket = record {
  id = omega arith;
  opcode = omega arith;
  questions = (question-IsQuestion, tt);
  answers = (answer-IsRecord, tt);
  authorities = tt;
  resources = (answer-IsRecord, tt);
  plain = ((λ root. ground arith), tt);
  edns = record {
    udp_payload_size = omega arith;
    extended_rcode = omega arith;
    version = omega arith;
    size = omega arith;
  };
  question_count = omega arith;
  answer_count = omega arith;
  authority_count = omega arith;
  resource_count = omega arith;
}

write_qname-read_qname_example :
    Sends (write_qname (name_text (label ∷ label ∷ []))) tt (name_wire (label ∷ label ∷ []))
    × ((read_qname (from_bytes (name_wire (label ∷ label ∷ [])))).0
        ≡ ok (name_text (label ∷ label ∷ [])))
unfolding name_wire
write_qname-read_qname_example =
    write_qname-read_qname (label ∷ label ∷ []) (label-IsLabel, (label-IsLabel, tt)) (omega arith)

write_question-read_question_example :
    Sends (write_question question) tt (question_wire question question-IsQuestion)
    × ((read_question (from_bytes (question_wire question question-IsQuestion))).0 ≡ ok question)
unfolding question_wire text_wire name_wire
write_question-read_question_example =
    write_question-read_question question question-IsQuestion
      (unfold question-IsQuestion in omega arith)

read_qname_total_example :
    QnameOutcome (from_bytes (0xc0 ∷ 0 ∷ [])) (read_qname (from_bytes (0xc0 ∷ 0 ∷ [])))
read_qname_total_example = read_qname_total (from_bytes (0xc0 ∷ 0 ∷ []))

-- A pointer to itself runs into the limit on jumps.
read_qname_pointer_loop : (read_qname (from_bytes (0xc0 ∷ 0 ∷ []))).0 ≡ err jump_limit
unfolding name_runs
read_qname_pointer_loop = refl

write_qname-Flagged_example :
    Flagged (write_qname (b'a' ∷ b'.' ∷ b'b' ∷ []) (record new { pos = 4094 }))
write_qname-Flagged_example =
    write_qname-Flagged (b'a' ∷ b'.' ∷ b'b' ∷ []) (record new { pos = 4094 }) refl

write_header-read_header_example :
    Sends (write_header message.header) tt (header_wire message.header)
    × ((read_header (from_bytes (header_wire message.header))).0 ≡ ok message.header)
write_header-read_header_example = write_header-read_header message.header (record {
  id = omega arith;
  opcode = omega arith;
  questions = omega arith;
  answers = omega arith;
  authoritative_entries = omega arith;
  resource_entries = omega arith;
})

write_record-read_record_example :
    Sends
      (write_record answer)
      (length (record_wire answer answer-IsRecord))
      (record_wire answer answer-IsRecord)
    × ((read_record (from_bytes (record_wire answer answer-IsRecord))).0 ≡ ok answer)
unfolding record_wire rdata_wire text_wire name_wire
write_record-read_record_example =
    write_record-read_record answer answer-IsRecord (unfold answer-IsRecord in omega arith)

write_packet-from_buffer_example :
    Sends (write_packet message) tt (packet_wire message message-IsPacket)
    × ((from_buffer (from_bytes (packet_wire message message-IsPacket))).0
        ≡ ok (record message { header = counted message }))
unfolding packet_wire header_wire question_wire record_wire rdata_wire text_wire name_wire
write_packet-from_buffer_example = write_packet-from_buffer message message-IsPacket (
    unfold message-IsPacket in
    (unfold answer-IsRecord in (unfold question-IsQuestion in omega arith)))

repeated : ℕ → Bytes
repeated zero = []
repeated (suc n) = 0 ∷ repeated n

length-repeated : (n : ℕ) → length (repeated n) ≡ n
unfolding repeated
length-repeated zero = refl
length-repeated (suc n) = omega (arith, length-repeated n)

abbrev long_message : DnsPacket
long_message = record new_packet { edns = some (record default_edns { options = repeated 4096 }) }

long_message-IsPacket : IsPacket long_message
long_message-IsPacket = record {
  id = omega arith;
  opcode = omega arith;
  questions = tt;
  answers = tt;
  authorities = tt;
  resources = tt;
  plain = tt;
  edns = record {
    udp_payload_size = omega arith;
    extended_rcode = omega arith;
    version = omega arith;
    size = omega (arith, length-repeated 4096);
  };
  question_count = omega arith;
  answer_count = omega arith;
  authority_count = omega arith;
  resource_count = omega arith;
}

write_packet-Overflows_example : Overflows (write_packet long_message)
unfolding packet_wire header_wire
write_packet-Overflows_example =
    write_packet-Overflows long_message long_message-IsPacket (omega (arith, length-repeated 4096))

-- A message that is too long for a buffer.
insert_with_status-written_example :
    ((buf_size < length (packet_wire long_message long_message-IsPacket))
      × (insert_with_status 0 [] QueryType.a long_message insecure (new_cache 10 60 3600)
          ≡ new_cache 10 60 3600))
    ⊎ ((length (packet_wire long_message long_message-IsPacket) ≤ buf_size)
        × (insert_with_status 0 [] QueryType.a long_message insecure (new_cache 10 60 3600)
            ≡ insert_wire 0 [] QueryType.a
                (packet_wire long_message long_message-IsPacket)
                insecure
                (new_cache 10 60 3600)))
insert_with_status-written_example =
    insert_with_status-written 0 [] QueryType.a long_message long_message-IsPacket insecure
      (new_cache 10 60 3600)
