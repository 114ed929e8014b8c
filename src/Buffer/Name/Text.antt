-- ===== src/Buffer/Name/Text.antt =====
-- Names as label lists, their text and wire forms, and the escapes of `write_qname` against those of
-- `read_qname`.
use numa.Error.{ok}
use numa.Prelude.{
  ℕ, ◌+◌, ◌/◌, ◌%◌, ◌≤◌, ◌<◌, ◌≡◌, ◌≢◌, arith, List, [], ◌∷◌, ◌++◌, length, All, leb, ◌==◌,
  Bool-cases, inl, inr,
}
use numa.Buffer.{Bytes}
use numa.Buffer.Name.{
  to_ascii_lowercase, escape_byte, escape_label, decimal_escape, escaped_byte, next_byte,
}

-- A byte of a label in the case that `read_qname` gives back.
abbrev pub IsLabelByte : ℕ → Type 0
IsLabelByte b = (b < 256) × (to_ascii_lowercase b ≡ b)

pub record IsLabel (l : Bytes) : Type 0 where
  pub bytes : All IsLabelByte l
  pub not_empty : 1 ≤ length l
  pub short : length l ≤ 63

abbrev pub Name : Type 0
Name = List Bytes

abbrev pub IsName : Name → Type 0
IsName n = All IsLabel n

-- The text of the labels after the first.
unfoldable pub rest_text : Name → Bytes
rest_text [] = []
rest_text (l ∷ ls) = b'.' ∷ (escape_label l ++ rest_text ls)

unfoldable pub name_text : Name → Bytes
name_text [] = []
name_text (l ∷ ls) = escape_label l ++ rest_text ls

unfoldable pub name_wire : Name → Bytes
name_wire [] = 0 ∷ []
name_wire (l ∷ ls) = length l ∷ (l ++ name_wire ls)

-- What `write_qname` reads of an escape is the byte that was escaped, and no escape begins with a dot.
pub next_byte-escape :
    (b : ℕ) (rest : Bytes)
    → IsLabelByte b
    → (x : ℕ) × (xs : Bytes) × (escape_byte b ≡ x ∷ xs)
      × (x ≢ b'.')
      × (next_byte x (xs ++ rest) ≡ ok (b, rest))
unfolding escape_byte next_byte escaped_byte decimal_escape
next_byte-escape b rest (byte, lower) = rw lower (elim (Bool-cases (b == b'.')) [
  | inl dot ↦ (b'\\', b'.' ∷ [], ground arith, ground arith, ground arith)
  | inr other ↦ elim (Bool-cases (b == b'\\')) [
    | inl slash ↦ (b'\\', b'\\' ∷ [], ground arith, ground arith, ground arith)
    | inr plain ↦ elim (Bool-cases (leb 0x21 b)) [
      | inl lo ↦ elim (Bool-cases (leb b 0x7e)) [
        | inl hi ↦ (b, [], ground arith, ground arith, ground arith)
        | inr hi ↦ (
          b'\\',
          (b'0' + b / 100) ∷ (b'0' + b / 10 % 10) ∷ (b'0' + b % 10) ∷ [],
          ground arith,
          ground arith,
          ground arith,
        )
      ]
      | inr lo ↦ (
        b'\\',
        (b'0' + b / 100) ∷ (b'0' + b / 10 % 10) ∷ (b'0' + b % 10) ∷ [],
        ground arith,
        ground arith,
        ground arith,
      )
    ]
  ]
])
