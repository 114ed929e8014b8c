-- ===== src/Header.antt =====
-- src/header.rs: the message header.
pub mod Flags
pub mod RoundTrip
use numa.Exec.{pure, ◌>>=◌, ◌>>◌, Exec}
use numa.Buffer.{write_u8, write_u16, read_u16, Buffer}
use numa.Prelude.{
  ◌/◌, ◌%◌, ◌^◌, ◌==◌, bit_and, ◌*◌, if◌then◌else◌, ltb, bit_or, ℕ, Bool, refl, zero, suc, true,
  false, none, some, inl, inr, [], ◌∷◌,
}

pub data ResultCode : Type 0 where
  noerror formerr servfail nxdomain notimp refused : ResultCode

unfoldable pub rescode_from_num : ℕ → ResultCode
rescode_from_num num =
    if num == 1
    then formerr
    else if num == 2
    then servfail
    else if num == 3
    then nxdomain
    else if num == 4
    then notimp
    else if num == 5
    then refused
    else noerror

-- `self.rescode as u8`
unfoldable pub rescode_to_num : ResultCode → ℕ
rescode_to_num noerror = 0
rescode_to_num formerr = 1
rescode_to_num servfail = 2
rescode_to_num nxdomain = 3
rescode_to_num notimp = 4
rescode_to_num refused = 5

pub record DnsHeader : Type 0 where
  pub id : ℕ
  pub recursion_desired : Bool
  pub truncated_message : Bool
  pub authoritative_answer : Bool
  pub opcode : ℕ
  pub response : Bool
  pub rescode : ResultCode
  pub checking_disabled : Bool
  pub authed_data : Bool
  pub z : Bool
  pub recursion_available : Bool
  pub questions : ℕ
  pub answers : ℕ
  pub authoritative_entries : ℕ
  pub resource_entries : ℕ

abbrev pub new_header : DnsHeader
new_header = record {
  id = 0;
  recursion_desired = false;
  truncated_message = false;
  authoritative_answer = false;
  opcode = 0;
  response = false;
  rescode = noerror;
  checking_disabled = false;
  authed_data = false;
  z = false;
  recursion_available = false;
  questions = 0;
  answers = 0;
  authoritative_entries = 0;
  resource_entries = 0;
}

-- `(x & (1 << k)) > 0`
abbrev pub bit : ℕ → ℕ → Bool
bit x k = ltb 0 (bit_and x (2 ^ k))

-- The header that the id, the two flag bytes and the four counts stand for.
abbrev pub header_of : ℕ → ℕ → ℕ → ℕ → ℕ → ℕ → ℕ → DnsHeader
header_of id a b questions answers authoritative_entries resource_entries = record {
  id = id;
  recursion_desired = bit a 0;
  truncated_message = bit a 1;
  authoritative_answer = bit a 2;
  opcode = bit_and (a / 2 ^ 3) 0x0f;
  response = bit a 7;
  rescode = rescode_from_num (bit_and b 0x0f);
  checking_disabled = bit b 4;
  authed_data = bit b 5;
  z = bit b 6;
  recursion_available = bit b 7;
  questions = questions;
  answers = answers;
  authoritative_entries = authoritative_entries;
  resource_entries = resource_entries;
}

unfoldable pub read_header : Exec Buffer DnsHeader
read_header = do
  id ← read_u16
  flags ← read_u16
  questions ← read_u16
  answers ← read_u16
  authoritative_entries ← read_u16
  resource_entries ← read_u16
  pure (
      header_of id (flags / 2 ^ 8 % 256) (bit_and flags 0xff) questions answers
        authoritative_entries resource_entries)

-- `b as u8`
abbrev pub as_u8 : Bool → ℕ
as_u8 b = if b then 1 else 0

unfoldable pub flags_high : Bool → Bool → Bool → ℕ → Bool → ℕ
flags_high rd tc aa opcode qr =
    bit_or
      (bit_or (bit_or (bit_or (as_u8 rd) (as_u8 tc * 2 ^ 1)) (as_u8 aa * 2 ^ 2))
        (opcode * 2 ^ 3 % 256))
      (as_u8 qr * 2 ^ 7)

unfoldable pub flags_low : ResultCode → Bool → Bool → Bool → Bool → ℕ
unfolding rescode_to_num
flags_low rescode cd ad z ra =
    bit_or
      (bit_or (bit_or (bit_or (rescode_to_num rescode) (as_u8 cd * 2 ^ 4)) (as_u8 ad * 2 ^ 5))
        (as_u8 z * 2 ^ 6))
      (as_u8 ra * 2 ^ 7)

unfoldable pub write_header : DnsHeader → Exec Buffer (Unit {0})
write_header h = do
  write_u16 h.id
  write_u8 (
      flags_high h.recursion_desired h.truncated_message h.authoritative_answer h.opcode h.response)
  write_u8 (flags_low h.rescode h.checking_disabled h.authed_data h.z h.recursion_available)
  write_u16 h.questions
  write_u16 h.answers
  write_u16 h.authoritative_entries
  write_u16 h.resource_entries
