-- ===== src/Buffer/Name/Read.antt =====
-- `read_qname` on the wire form of a name: it returns the text.
use numa.Buffer.Trip.{Reads-from_bytes, Writes-Sends, Sends}
use numa.Buffer.Name.Write.{write_qname-Writes}
use numa.Buffer.{from_bytes, position, slice, buf_size, seek, Buffer, get_range, get, Bytes}
use numa.Buffer.Name.{
  write_qname, qname_fuel, max_jumps, escape_label, seek_unless, read_labels, read_qname,
}
use numa.Prelude.{
  append_assoc, ap₂, ap, ◌∙◌, length-append, refl, zero, append-nil, arith, false, suc, ◌+◌, ◌<◌,
  Bool, ◌≤◌, length, ◌++◌, ◌≡◌, ◌∷◌, [], ℕ,
}
use numa.Buffer.Codec.{slice-Holds, Holds-at, Holds-append, Holds, Reads}
use numa.Exec.{bind_ok, ◌>>=◌}
use numa.Prelude.Bits.{top_two_bits}
use numa.Error.{ok}
use numa.Buffer.Name.Text.{IsName, Name, rest_text, name_text, name_wire}

read_label_step :
    (fuel pos : ℕ) (jumped : Bool) (jumps : ℕ) (delim outstr l : Bytes) (b : Buffer)
    → jumps ≤ max_jumps
    → b.buf pos ≡ length l
    → 1 ≤ length l
    → length l ≤ 63
    → pos + 1 + length l ≤ buf_size
    → slice b.buf (pos + 1) (length l) ≡ l
    → read_labels (suc fuel) pos jumped jumps delim outstr b
      ≡ read_labels fuel
          (pos + 1 + length l)
          jumped
          jumps
          (b'.' ∷ [])
          (outstr ++ delim ++ escape_label l)
          b
unfolding read_labels get get_range ◌>>=◌
read_label_step fuel pos jumped jumps delim outstr l b few byte some_bytes short room label =
    ground (arith, top_two_bits (length l))

read_root_step :
    (fuel pos jumps : ℕ) (delim outstr : Bytes) (b : Buffer)
    → jumps ≤ max_jumps
    → b.buf pos ≡ 0
    → pos < buf_size
    → read_labels (suc fuel) pos false jumps delim outstr b
      ≡ (ok outstr, record b { pos = pos + 1 })
unfolding read_labels get seek_unless seek ◌>>=◌
read_root_step fuel pos jumps delim outstr b few byte room = ground (arith, top_two_bits 0)

-- The text that a pass over `n` adds, behind the delimiter it has come to.
abbrev joined : Bytes → Name → Bytes
joined delim [] = []
joined delim (l ∷ ls) = delim ++ escape_label l ++ rest_text ls

joined_dot : (n : Name) → joined (b'.' ∷ []) n ≡ rest_text n
unfolding rest_text
joined_dot [] = refl
joined_dot (l ∷ ls) = refl

joined_nothing : (n : Name) → joined [] n ≡ name_text n
unfolding name_text
joined_nothing [] = refl
joined_nothing (l ∷ ls) = refl

read_labels-name :
    (n : Name) (fuel pos : ℕ) (delim outstr : Bytes) (b : Buffer)
    → IsName n
    → length n < fuel
    → Holds b.buf pos (name_wire n)
    → pos + length (name_wire n) ≤ buf_size
    → read_labels fuel pos false 0 delim outstr b
      ≡ (ok (outstr ++ joined delim n), record b { pos = pos + length (name_wire n) })
unfolding name_wire
read_labels-name n zero pos delim outstr b h enough holds room = absurd (omega arith)
read_labels-name [] (suc fuel) pos delim outstr b h enough holds room =
    rw append-nil (read_root_step fuel pos 0 delim outstr b (omega arith) holds.0 (omega arith))
read_labels-name (l ∷ ls) (suc fuel) pos delim outstr b h enough holds room =
    let (label, tail) = Holds-append b.buf (suc pos) l (name_wire ls) holds.1 in
    let sizes : length (l ++ name_wire ls) ≡ length l + length (name_wire ls) =
      length-append l (name_wire ls) in
    let here : Holds b.buf (pos + 1) l = Holds-at b.buf (suc pos) (pos + 1) l (omega arith) label in
    let there : Holds b.buf (pos + 1 + length l) (name_wire ls) =
      Holds-at b.buf (suc pos + length l) (pos + 1 + length l) (name_wire ls) (omega arith) tail in
    read_label_step fuel pos false 0 delim outstr l b (omega arith) holds.0 h.0.not_empty h.0.short
      (omega arith) (slice-Holds b.buf (pos + 1) l here)
    ∙ read_labels-name ls fuel (pos + 1 + length l) (b'.' ∷ []) (outstr ++ delim ++ escape_label l)
        b h.1 (omega arith) there (omega arith)
    ∙ ap₂ (λ (t : Bytes) (q : ℕ). (ok t, record b { pos = q }))
        {u = pos + 1 + length l + length (name_wire ls)} {v = pos + length (name_wire (l ∷ ls))}
        (rw joined_dot (simp append_assoc)) (omega arith)

length-lt-wire : (n : Name) → length n < length (name_wire n)
unfolding name_wire
length-lt-wire [] = omega arith
length-lt-wire (l ∷ ls) = omega (arith, length-append l (name_wire ls), length-lt-wire ls)

-- Where the buffer holds the wire form of a name, `read_qname` returns the text and stops behind it.
pub read_qname-Reads :
    (p : ℕ) (n : Name) → IsName n → Reads p read_qname (name_text n) (name_wire n)
unfolding read_qname
read_qname-Reads p n h = record {
  at = λ b here holds room.
      bind_ok position _ b refl
      ∙ ap (λ (q : ℕ). read_labels qname_fuel q false 0 [] [] b) here
      ∙ read_labels-name n qname_fuel p [] [] b h (omega (arith, length-lt-wire n)) holds room
      ∙ ap (λ (t : Bytes). (ok t, record b { pos = p + length (name_wire n) })) (joined_nothing n);
}

-- A name of valid labels in lower case whose wire form fits the buffer: `write_qname` of its escaped
-- text on a new buffer returns, `filled` gives the labels with their lengths and the root byte, and
-- `read_qname` on those bytes gives the text back.
pub write_qname-read_qname :
    (n : Name)
    → IsName n
    → length (name_wire n) ≤ buf_size
    → Sends (write_qname (name_text n)) tt (name_wire n)
      × ((read_qname (from_bytes (name_wire n))).0 ≡ ok (name_text n))
write_qname-read_qname n h fits =
    (Writes-Sends (write_qname-Writes n h) fits, Reads-from_bytes (read_qname-Reads 0 n h) fits)
