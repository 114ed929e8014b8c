-- ===== src/Header/RoundTrip.antt =====
-- The header's wire form, and `read` after `write`.
use numa.Buffer.Trip.{Reads-from_bytes, Writes-Sends, Sends}
use numa.Error.{ok}
use numa.Buffer.{from_bytes, read_u16, write_u8, write_u16, Bytes}
use numa.Prelude.{length, ◌%◌, ap₂, ◌/◌, bit_and, arith, ◌≡◌, ◌+◌, ◌^◌, ◌*◌, ◌++◌, ◌<◌, ℕ, [], ◌∷◌}
use numa.Buffer.Codec.{Reads-pure, Reads-bind, Reads, Writes-bind, Writes}
use numa.Buffer.Words.{read_u16-Reads, write-Writes, write_u16-Writes, be16}
use numa.Prelude.Bits.{low_byte}
use numa.Header.{header_of, flags_high, flags_low, write_header, read_header, DnsHeader}
use numa.Header.Flags.{flags_high_read, flags_low_read}

pub record IsHeader (h : DnsHeader) : Type 0 where
  pub id : h.id < 2 ^ 16
  pub opcode : h.opcode < 16
  pub questions : h.questions < 2 ^ 16
  pub answers : h.answers < 2 ^ 16
  pub authoritative_entries : h.authoritative_entries < 2 ^ 16
  pub resource_entries : h.resource_entries < 2 ^ 16

abbrev pub high_of : DnsHeader → ℕ
high_of h =
    flags_high h.recursion_desired h.truncated_message h.authoritative_answer h.opcode h.response

abbrev pub low_of : DnsHeader → ℕ
low_of h = flags_low h.rescode h.checking_disabled h.authed_data h.z h.recursion_available

unfoldable pub header_wire : DnsHeader → Bytes
header_wire h =
    be16 h.id
    ++ ((high_of h ∷ [])
        ++ ((low_of h ∷ [])
            ++ (be16 h.questions
                ++ (be16 h.answers ++ (be16 h.authoritative_entries ++ be16 h.resource_entries)))))

pub write_header-Writes : (h : DnsHeader) → IsHeader h → Writes (write_header h) tt (header_wire h)
unfolding write_header header_wire
write_header-Writes h v = Writes-bind (write_u16 h.id) _ tt tt _ _ (write_u16-Writes _ v.id) (
    Writes-bind (write_u8 (high_of h)) _ tt tt _ _ (write-Writes _) (
      Writes-bind (write_u8 (low_of h)) _ tt tt _ _ (write-Writes _) (
        Writes-bind (write_u16 h.questions) _ tt tt _ _ (write_u16-Writes _ v.questions) (
          Writes-bind (write_u16 h.answers) _ tt tt _ _ (write_u16-Writes _ v.answers) (
            Writes-bind (write_u16 h.authoritative_entries) _ tt tt _ _
              (write_u16-Writes _ v.authoritative_entries)
              (write_u16-Writes _ v.resource_entries))))))

module _ (h : DnsHeader) (v : IsHeader h) where
  high_byte : high_of h < 256
  high_byte = (flags_high_read _ _ _ _ _ v.opcode).0

  low_of_byte : low_of h < 256
  low_of_byte = (flags_low_read _ _ _ _ _).0

  flags_word : ℕ
  flags_word = high_of h * 256 + low_of h

  flags_word_fits : flags_word < 2 ^ 16
  unfolding flags_word
  flags_word_fits = omega (arith, high_byte, low_of_byte)

  flags_word_high : flags_word / 2 ^ 8 % 256 ≡ high_of h
  unfolding flags_word
  flags_word_high = omega (arith, high_byte, low_of_byte)

  flags_word_low : bit_and flags_word 0xff ≡ low_of h
  unfolding flags_word
  flags_word_low = omega (arith, low_byte flags_word, high_byte, low_of_byte)

  flags_word_bytes : be16 flags_word ≡ high_of h ∷ low_of h ∷ []
  unfolding flags_word
  flags_word_bytes =
      ap₂ (λ (a b : ℕ). a ∷ b ∷ []) {x = flags_word / 256} {y = high_of h} {u = flags_word % 256}
        {v = low_of h} (omega (arith, high_byte, low_of_byte))
        (omega (arith, high_byte, low_of_byte))

  unpacked :
      header_of h.id
        (high_of h)
        (low_of h)
        h.questions
        h.answers
        h.authoritative_entries
        h.resource_entries
      ≡ h
  unpacked =
      let (_, rd, tc, aa, op, qr) =
        flags_high_read h.recursion_desired h.truncated_message h.authoritative_answer h.response
          h.opcode v.opcode in
      let (_, rc, cd, ad, z, ra) =
        flags_low_read h.rescode h.checking_disabled h.authed_data h.z h.recursion_available in
      λ i. record h {
        recursion_desired = rd i;
        truncated_message = tc i;
        authoritative_answer = aa i;
        opcode = op i;
        response = qr i;
        rescode = rc i;
        checking_disabled = cd i;
        authed_data = ad i;
        z = z i;
        recursion_available = ra i;
      }

  -- Where the buffer holds the wire form of a header, `read` returns that header.
  pub read_header-Reads : (p : ℕ) → Reads p read_header h (header_wire h)
  unfolding read_header header_wire
  read_header-Reads p = Reads-bind p read_u16 _ h.id h (be16 h.id) _ (read_u16-Reads _ _ v.id) (
      Reads-bind _ read_u16 _ flags_word h (high_of h ∷ low_of h ∷ []) _
        (rw flags_word_bytes at
          (read_u16-Reads (p + length (be16 h.id)) flags_word flags_word_fits))
        (Reads-bind _ read_u16 _ h.questions h (be16 h.questions) _ (read_u16-Reads _ _ v.questions)
          (Reads-bind _ read_u16 _ h.answers h (be16 h.answers) _ (read_u16-Reads _ _ v.answers) (
            Reads-bind _ read_u16 _ h.authoritative_entries h (be16 h.authoritative_entries) _
              (read_u16-Reads _ _ v.authoritative_entries)
              (Reads-bind _ read_u16 _ h.resource_entries h (be16 h.resource_entries) []
                (read_u16-Reads _ _ v.resource_entries)
                (Reads-pure _ _ h (rw (flags_word_high, flags_word_low) unpacked)))))))

-- A valid header: `write` on a new buffer returns, `filled` gives the twelve bytes of the wire form,
-- and `read` on those bytes gives the header back.
pub write_header-read_header :
    (h : DnsHeader)
    → IsHeader h
    → Sends (write_header h) tt (header_wire h)
      × ((read_header (from_bytes (header_wire h))).0 ≡ ok h)
unfolding header_wire
write_header-read_header h v = (
  Writes-Sends (write_header-Writes h v) (omega arith),
  Reads-from_bytes (read_header-Reads h v 0) (omega arith),
)
