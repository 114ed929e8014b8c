-- ===== src/Buffer/Name.antt =====
-- src/buffer.rs: `read_qname` and `write_qname`. A Rust string is its list of bytes.
pub mod Text
pub mod Write
pub mod Read
pub mod Total
pub mod Flag
use numa.Prelude.{
  is_nil, refl, none, some, inl, inr, ℕ, zero, suc, ◌+◌, ◌-◌, ◌*◌, ◌/◌, ◌%◌, ◌^◌, bit_and, bit_or,
  bit_xor, Bool, true, false, not, ◌&&◌, ◌||◌, List, [], ◌∷◌, ◌++◌, ltb, leb, ◌==◌, if◌then◌else◌,
  length,
}
use numa.Error.{
  Result, ok, err, jump_limit, reserved_label, trailing_backslash, bad_escape, escape_range,
  label_too_long, out_of_fuel,
}
use numa.Exec.{Exec, pure, raise, lift, ◌>>=◌, ◌>>◌}
use numa.Buffer.{Bytes, Buffer, position, seek, get, get_range, write_u8, set}

-- `u8::to_ascii_lowercase`
abbrev pub to_ascii_lowercase : ℕ → ℕ
to_ascii_lowercase b = if leb b'A' b && leb b b'Z' then b + 32 else b

-- What one label byte adds to the text.
unfoldable pub escape_byte : ℕ → Bytes
escape_byte b =
    let c = to_ascii_lowercase b in
    if c == b'.'
    then b'\\' ∷ b'.' ∷ []
    else if c == b'\\'
    then b'\\' ∷ b'\\' ∷ []
    else if leb 0x21 c && leb c 0x7e
    then c ∷ []
    else b'\\' ∷ (b'0' + c / 100) ∷ (b'0' + c / 10 % 10) ∷ (b'0' + c % 10) ∷ []

unfoldable pub escape_label : Bytes → Bytes
escape_label [] = []
escape_label (b ∷ bs) = escape_byte b ++ escape_label bs

abbrev pub max_jumps : ℕ
max_jumps = 5

-- `if !jumped { self.seek(p)?; }`
unfoldable pub seek_unless : Bool → ℕ → Exec Buffer (Unit {0})
seek_unless jumped p = if jumped then pure tt else seek p

abbrev pub pointer_offset : ℕ → ℕ → ℕ
pointer_offset len b2 = bit_or (bit_xor len 0xc0 * 2 ^ 8 % 2 ^ 16) b2

-- The loop of `read_qname`, over its variables; it returns `outstr`.
unfoldable pub read_labels : ℕ → ℕ → Bool → ℕ → Bytes → Bytes → Exec Buffer Bytes
read_labels zero pos jumped jumps delim outstr = raise out_of_fuel
read_labels (suc fuel) pos jumped jumps delim outstr =
    if ltb max_jumps jumps then raise jump_limit else do
      len ← get pos
      if bit_and len 0xc0 == 0xc0
          then (do
            seek_unless jumped (pos + 2)
            b2 ← get (pos + 1)
            read_labels fuel (pointer_offset len b2) true (jumps + 1) delim outstr)
          else if not (bit_and len 0xc0 == 0)
          then raise reserved_label
          else if len == 0
          then (do seek_unless jumped (pos + 1); pure outstr)
          else (do
            label ← get_range (pos + 1) len
            read_labels fuel (pos + 1 + len) jumped jumps (b'.' ∷ [])
                (outstr ++ delim ++ escape_label label))

-- A pass between two jumps ends inside the buffer, so these rounds are enough.
abbrev pub qname_fuel : ℕ
qname_fuel = 40000

unfoldable pub read_qname : Exec Buffer Bytes
read_qname = do pos ← position; read_labels qname_fuel pos false 0 [] []

abbrev pub is_ascii_digit : ℕ → Bool
is_ascii_digit c = leb b'0' c && leb c b'9'

-- The digits after a backslash.
unfoldable pub decimal_escape : ℕ → Bytes → Result (ℕ × Bytes)
decimal_escape c1 (c2 ∷ c3 ∷ rest) =
    if not (is_ascii_digit c2) || not (is_ascii_digit c3)
    then err bad_escape
    else let val = (c1 - b'0') * 100 + (c2 - b'0') * 10 + (c3 - b'0') in
      if ltb 255 val then err escape_range else ok (val, rest)
decimal_escape c1 _ = err bad_escape

unfoldable pub escaped_byte : Bytes → Result (ℕ × Bytes)
escaped_byte [] = err trailing_backslash
escaped_byte (c1 ∷ rest) = if is_ascii_digit c1 then decimal_escape c1 rest else ok (c1, rest)

-- The next label byte of the text, and the text behind it.
unfoldable pub next_byte : ℕ → Bytes → Result (ℕ × Bytes)
next_byte b rest = if b == b'\\' then escaped_byte rest else ok (b, rest)

-- `self.pos - body_start > 0x3f`
unfoldable pub check_label : ℕ → Exec Buffer (Unit {0})
check_label body_start = do
  pos ← position
  if ltb 0x3f (pos - body_start) then raise label_too_long else pure tt

-- The inner loop of `write_qname`: one label. It returns the text from `i` on.
unfoldable pub write_label : ℕ → ℕ → Bytes → Exec Buffer Bytes
write_label fuel body_start [] = pure []
write_label zero body_start (b ∷ rest) = raise out_of_fuel
write_label (suc fuel) body_start (b ∷ rest) = if b == b'.' then pure (b ∷ rest) else do
  (val, rest') ← lift (next_byte b rest)
  write_u8 val
  check_label body_start
  write_label fuel body_start rest'

-- `if i < bytes.len() && bytes[i] == b'.' { i += 1; }`
unfoldable pub skip_dot : Bytes → Bytes
skip_dot [] = []
skip_dot (b ∷ bs) = if b == b'.' then bs else b ∷ bs

-- The length byte is patched, or the placeholder of an empty label rolled back.
unfoldable pub patch_label : ℕ → ℕ → Bytes → Exec Buffer (Unit {0})
patch_label len_pos body_start rest = do
  pos ← position
  let label_len = pos - body_start
  if label_len == 0 && not (is_nil rest) then seek len_pos else set len_pos (label_len % 256)

-- One round of the outer loop of `write_qname`, up to the dot; it returns the text from `i` on.
unfoldable pub write_one_label : Bytes → Exec Buffer Bytes
write_one_label text = do
  len_pos ← position
  write_u8 0
  body_start ← position
  rest ← write_label (length text) body_start text
  patch_label len_pos body_start rest
  pure rest

-- The outer loop of `write_qname`, and the root label behind it.
unfoldable pub write_labels : ℕ → Bytes → Exec Buffer (Unit {0})
write_labels fuel [] = write_u8 0
write_labels zero (b ∷ bs) = raise out_of_fuel
write_labels (suc fuel) (b ∷ bs) = do
  rest ← write_one_label (b ∷ bs)
  write_labels fuel (skip_dot rest)

abbrev pub is_root_text : Bytes → Bool
is_root_text [] = true
is_root_text (b ∷ []) = b == b'.'
is_root_text (b ∷ c ∷ bs) = false

unfoldable pub write_qname : Bytes → Exec Buffer (Unit {0})
write_qname qname = if is_root_text qname then write_u8 0 else write_labels (length qname) qname

-- A test that runs the name codec names this one definition on its `unfolding` line.
unfoldable pub name_runs : Unit {0}
unfolding numa.Buffer.buffer_runs escape_byte escape_label seek_unless read_labels read_qname
    decimal_escape escaped_byte next_byte check_label write_label skip_dot patch_label write_labels
    write_qname
name_runs = tt
