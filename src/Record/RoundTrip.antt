-- ===== src/Record/RoundTrip.antt =====
-- Whole records: `write` appends the wire form and `read` takes it back.
use numa.Buffer.Trip.{Reads-from_bytes, Writes-Sends, Sends}
use numa.Buffer.{from_bytes, buf_size, position, Buffer, Bytes}
use numa.Buffer.Words.{
  read_u32-Reads, read_u16-Reads, write_u32-Writes, write_u16-Writes, be32, be16,
}
use numa.Question.RoundTrip.{read_text-Reads, write_text-Writes, text_wire}
use numa.Buffer.Codec.{Reads-then, Reads-when, blit-append, Reads-last, blit, ◌▸◌, Reads, Writes}
use numa.Prelude.{
  ◌^◌, ap₂, length-append, arith, ◌∙◌, ◌-◌, ◌<◌, ◌+◌, append_assoc, subst, ◌≤◌, ◌≡◌, length, ◌++◌,
  ℕ, refl, true,
}
use numa.Record.Read.{read_rdata-Reads, read_typed}
use numa.Exec.{bind_err, bind_ok, pure, ◌>>◌, ◌>>=◌, Exec}
use native.Mathlib.Decide.{dec_le}
use numa.Record.Write.{write_rdata-Writes}
use numa.Error.{end_of_buffer, err, ok}
use numa.Record.Writer.{write_rdata, write_record, write_record_header}
use numa.Record.Valid.{rdata_wire, IsRecord, record_wire}
use numa.Record.{rdata_type, DnsRecord, read_record}
use numa.Question.{to_num}

header_bytes : (r : DnsRecord) → IsRecord r → Bytes
header_bytes r h =
    text_wire r.domain h.domain ++ (be16 (to_num (rdata_type r.rdata)) ++ (be16 1 ++ be32 r.ttl))

data_bytes : (r : DnsRecord) → IsRecord r → Bytes
data_bytes r h = be16 (length (rdata_wire r.rdata h.rdata)) ++ rdata_wire r.rdata h.rdata

parts : (r : DnsRecord) (h : IsRecord r) → header_bytes r h ++ data_bytes r h ≡ record_wire r h
unfolding header_bytes data_bytes record_wire
parts r h = append_assoc (text_wire r.domain h.domain) _ _

write_record_header-Writes :
    (r : DnsRecord) (h : IsRecord r)
    → Writes
        (write_record_header r.domain (to_num (rdata_type r.rdata)) r.ttl)
        tt
        (header_bytes r h)
unfolding write_record_header header_bytes
write_record_header-Writes r h =
    write_text-Writes r.domain h.domain
    ▸ write_u16-Writes _ h.number
    ▸ write_u16-Writes 1 (omega arith)
    ▸ write_u32-Writes r.ttl h.ttl

abbrev after_header : DnsRecord → ℕ → Exec Buffer ℕ
after_header r start_pos = do write_rdata r.rdata; end ← position; pure (end - start_pos)

module _ (r : DnsRecord) (h : IsRecord r) where
  record_parts_fit :
      (b : Buffer)
      → b.pos + length (header_bytes r h ++ data_bytes r h) ≤ buf_size
      → write_record r b ≡ (
        ok (length (header_bytes r h ++ data_bytes r h)),
        blit (header_bytes r h ++ data_bytes r h) b,
      )
  unfolding write_record
  record_parts_fit b room =
      let xs : Bytes = header_bytes r h in
      let ys : Bytes = data_bytes r h in
      let size : length (xs ++ ys) ≡ length xs + length ys = length-append xs ys in
      let hd : Writes (write_rdata r.rdata) tt ys =
        unfold data_bytes in write_rdata-Writes r.rdata h.rdata in
      bind_ok position _ b refl
      ∙ bind_ok (write_record_header r.domain (to_num (rdata_type r.rdata)) r.ttl) _ b
          ((write_record_header-Writes r h).fits b (omega arith))
      ∙ bind_ok (write_rdata r.rdata) _ (blit xs b) (hd.fits (blit xs b) (omega arith))
      ∙ bind_ok position _ (blit ys (blit xs b)) refl
      ∙ ap₂ (λ (n : ℕ) (c : Buffer). (ok n, c)) {x = b.pos + length xs + length ys - b.pos}
          {y = length (xs ++ ys)} (omega arith) (blit-append xs ys b)

  record_parts_full :
      (b : Buffer)
      → b.pos ≤ buf_size
      → buf_size < b.pos + length (header_bytes r h ++ data_bytes r h)
      → ((write_record r b).0 ≡ err end_of_buffer) × ((write_record r b).1.overflow ≡ true)
  unfolding write_record
  record_parts_full b inside past =
      let xs : Bytes = header_bytes r h in
      let ys : Bytes = data_bytes r h in
      let w : Exec Buffer (Unit {0}) =
        write_record_header r.domain (to_num (rdata_type r.rdata)) r.ttl in
      let hw : Writes w tt xs = write_record_header-Writes r h in
      let size : length (xs ++ ys) ≡ length xs + length ys = length-append xs ys in
      let start : write_record r b ≡ (w >>= λ _. after_header r b.pos) b =
        bind_ok position _ b refl in
      elim (dec_le (b.pos + length xs) buf_size) [
        | no stop ↦
            let (fails, flag) = hw.full b inside (omega arith) in
            rw start
              (rw (bind_err w (λ _. after_header r b.pos) b end_of_buffer fails) (refl, flag))
        | yes room ↦
            let (fails, flag) =
              (write_rdata-Writes r.rdata h.rdata).full (blit xs b) room
                (unfold data_bytes in omega arith) in
            let go : (w >>= λ _. after_header r b.pos) b ≡ after_header r b.pos (blit xs b) =
              bind_ok w (λ _. after_header r b.pos) b (hw.fits b room) in
            rw start (
              rw go (
                rw (bind_err (write_rdata r.rdata) _ (blit xs b) end_of_buffer fails) (refl, flag)))
      ]

  -- `write` appends the wire form of a record and counts its bytes, or fails with the flag set.
  pub write_record-Writes : Writes (write_record r) (length (record_wire r h)) (record_wire r h)
  write_record-Writes =
      subst (λ (xs : Bytes). Writes (write_record r) (length xs) xs) (parts r h)
        (record { fits = record_parts_fit; full = record_parts_full })

-- Where the buffer holds the wire form of a record, `read` returns that record.
pub read_record-Reads :
    (p : ℕ) (r : DnsRecord) (h : IsRecord r) → Reads p read_record r (record_wire r h)
unfolding read_record record_wire
read_record-Reads p r h = Reads-when p read_record r _ (λ room.
    let xs : Bytes = text_wire r.domain h.domain in
    let ys : Bytes = rdata_wire r.rdata h.rdata in
    let fits : length ys < 2 ^ 16 = omega (
      arith,
      length-append xs (
          be16 (to_num (rdata_type r.rdata))
          ++ (be16 1 ++ (be32 r.ttl ++ (be16 (length ys) ++ ys)))),
    ) in
    Reads-then _ (read_text-Reads _ r.domain h.domain) (
      Reads-then _ (read_u16-Reads _ _ h.number) (
        Reads-then _ (read_u16-Reads _ 1 (omega arith)) (
          Reads-then _ (read_u32-Reads _ _ h.ttl) (
            Reads-then _ (read_u16-Reads _ _ fits) (rdata_here (p + length xs + 2 + 2 + 4 + 2)))))))
  where
    rdata_here :
        (q : ℕ)
        → Reads q
            (do
              rdata_start ← position
              rdata ←
                  read_typed r.rdata
                    (length (rdata_wire r.rdata h.rdata))
                    (rdata_start + length (rdata_wire r.rdata h.rdata))
              pure (record { domain = r.domain; rdata = rdata; ttl = r.ttl }))
            r
            (rdata_wire r.rdata h.rdata)
    rdata_here q = record {
      at = λ b here holds room.
          bind_ok position _ b refl
          ∙ simp here (
              (Reads-last (λ d. record r { rdata = d }) r (read_rdata-Reads q r.rdata h.rdata)
                  refl).at
                b here holds room);
    }

-- A valid record whose wire form fits the buffer: `write` on a new buffer returns the number of
-- bytes of the wire form, `filled` gives the wire form, and `read` on those bytes gives the record
-- back.
pub write_record-read_record :
    (r : DnsRecord) (h : IsRecord r)
    → length (record_wire r h) ≤ buf_size
    → Sends (write_record r) (length (record_wire r h)) (record_wire r h)
      × ((read_record (from_bytes (record_wire r h))).0 ≡ ok r)
write_record-read_record r h fits =
    (Writes-Sends (write_record-Writes r h) fits, Reads-from_bytes (read_record-Reads 0 r h) fits)
