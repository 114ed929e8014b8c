-- ===== src/Packet.antt =====
-- src/packet.rs: messages.
pub mod Valid
pub mod Write
pub mod Read
pub mod RoundTrip
use numa.Buffer.{
  write_bytes, write_u32, read_u32, get, write_u16, read_u16, write_u8, position, step, Buffer,
  Bytes,
}
use numa.Prelude.{
  ◌/◌, bit_and, ◌==◌, ◌+◌, ◌^◌, if◌then◌else◌, ◌*◌, ◌%◌, length, map, List, Bool, bit_or, Option, ℕ,
  refl, zero, suc, true, false, none, some, inl, inr, [], ◌∷◌,
}
use numa.Question.{opt, to_num, read_question, write_question, QueryType, DnsQuestion}
use numa.Buffer.Words.{take_bytes}
use numa.Record.Writer.{write_record}
use numa.Record.{read_record, DnsRecord}
use numa.Header.{read_header, write_header, DnsHeader, ResultCode, new_header}
use numa.Exec.{◌>>=◌, pure, ◌>>◌, Exec}

abbrev pub default_edns_payload : ℕ
default_edns_payload = 1232

pub record EdnsOpt : Type 0 where
  pub udp_payload_size : ℕ
  pub extended_rcode : ℕ
  pub version : ℕ
  pub do_bit : Bool
  pub options : Bytes

abbrev pub default_edns : EdnsOpt
default_edns = record {
  udp_payload_size = default_edns_payload;
  extended_rcode = 0;
  version = 0;
  do_bit = false;
  options = [];
}

pub record DnsPacket : Type 0 where
  pub header : DnsHeader
  pub questions : List DnsQuestion
  pub answers : List DnsRecord
  pub authorities : List DnsRecord
  pub resources : List DnsRecord
  pub edns : Option EdnsOpt

abbrev pub new_packet : DnsPacket
new_packet = record {
  header = new_header;
  questions = [];
  answers = [];
  authorities = [];
  resources = [];
  edns = none;
}

unfoldable pub query : ℕ → Bytes → QueryType → DnsPacket
query id domain qtype = record new_packet {
  header = record new_header { id = id; recursion_desired = true };
  questions = record { name = domain; qtype = qtype } ∷ [];
}

-- Applies to the three record sections alone.
unfoldable pub for_each_record : (DnsRecord → DnsRecord) → DnsPacket → DnsPacket
for_each_record f p = record p {
  answers = map f p.answers;
  authorities = map f p.authorities;
  resources = map f p.resources;
}

unfoldable pub response_from : DnsPacket → ResultCode → DnsPacket
response_from q rescode = record new_packet {
  header = record new_header {
    id = q.header.id;
    response = true;
    recursion_desired = q.header.recursion_desired;
    recursion_available = true;
    rescode = rescode;
  };
  questions = q.questions;
}

-- `for _ in 0..n { list.push(read(buffer)?) }`
unfoldable pub read_list : {A : Type 0} → ℕ → Exec Buffer A → Exec Buffer (List A)
read_list zero r = pure []
read_list (suc n) r = do x ← r; xs ← read_list n r; pure (x ∷ xs)

-- Whether an OPT record begins at the cursor, which does not move.
unfoldable pub peek_opt : Exec Buffer Bool
peek_opt = do
  peek_pos ← position
  name_byte ← get peek_pos
  if name_byte == 0
      then (do
        type_hi ← get (peek_pos + 1)
        type_lo ← get (peek_pos + 2)
        pure (type_hi * 256 + type_lo == 41))
      else pure false

unfoldable pub read_opt : Exec Buffer EdnsOpt
read_opt = do
  step 1
  type ← read_u16
  udp_payload_size ← read_u16
  ttl_field ← read_u32
  rdlength ← read_u16
  options ← take_bytes rdlength
  pure (record {
    udp_payload_size = udp_payload_size;
    extended_rcode = bit_and (ttl_field / 2 ^ 24) 0xff;
    version = bit_and (ttl_field / 2 ^ 16) 0xff;
    do_bit = bit_and (ttl_field / 2 ^ 15) 1 == 1;
    options = options;
  })

-- The loop over the additional section: a later OPT record replaces an earlier one.
unfoldable pub read_resources : ℕ → Option EdnsOpt → Exec Buffer (List DnsRecord × Option EdnsOpt)
read_resources zero edns = pure ([], edns)
read_resources (suc n) edns = do
  is_opt ← peek_opt
  if is_opt
      then (do found ← read_opt; read_resources n (some found))
      else (do rec ← read_record; (recs, edns') ← read_resources n edns; pure (rec ∷ recs, edns'))

unfoldable pub from_buffer : Exec Buffer DnsPacket
from_buffer = do
  header ← read_header
  questions ← read_list header.questions read_question
  answers ← read_list header.answers read_record
  authorities ← read_list header.authoritative_entries read_record
  (resources, edns) ← read_resources header.resource_entries none
  pure (record {
    header = header;
    questions = questions;
    answers = answers;
    authorities = authorities;
    resources = resources;
    edns = edns;
  })

unfoldable pub write_list_of :
    {A B : Type 0} → (A → Exec Buffer B) → List A → Exec Buffer (Unit {0})
write_list_of w [] = pure tt
write_list_of w (x ∷ xs) = do written ← w x; write_list_of w xs

unfoldable pub edns_ttl_field : EdnsOpt → ℕ
edns_ttl_field e =
    bit_or (bit_or (e.extended_rcode * 2 ^ 24) (e.version * 2 ^ 16))
      (if e.do_bit then 2 ^ 15 else 0)

unfoldable pub write_edns : Option EdnsOpt → Exec Buffer (Unit {0})
write_edns none = pure tt
write_edns (some e) = do
  write_u8 0
  write_u16 (to_num opt)
  write_u16 e.udp_payload_size
  write_u32 (edns_ttl_field e)
  write_u16 (length e.options % 2 ^ 16)
  write_bytes e.options

abbrev pub edns_count : Option EdnsOpt → ℕ
edns_count none = 0
edns_count (some e) = 1

-- The header that `write` makes: the counts are those of the sections.
unfoldable pub counted : DnsPacket → DnsHeader
counted p = record p.header {
  questions = length p.questions % 2 ^ 16;
  answers = length p.answers % 2 ^ 16;
  authoritative_entries = length p.authorities % 2 ^ 16;
  resource_entries = (length p.resources % 2 ^ 16 + edns_count p.edns) % 2 ^ 16;
}

unfoldable pub write_packet : DnsPacket → Exec Buffer (Unit {0})
write_packet p = do
  write_header (counted p)
  write_list_of write_question p.questions
  write_list_of write_record p.answers
  write_list_of write_record p.authorities
  write_list_of write_record p.resources
  write_edns p.edns
