-- ===== src/Wire.antt =====
-- src/wire.rs: TTL fields found and patched in the bytes of a message. A read is behind the bounds
-- checks of the source; a write past the end, a panic in Rust, is `none`.
pub mod Scan
pub mod Patch
pub mod Least
use numa.Prelude.{
  refl, inl, inr, ◌==◌, bit_and, ◌&&◌, length, take, leb, min, ◌+◌, ◌++◌, get_or, if◌then◌else◌,
  ◌*◌, Option, ltb, ℕ, Bool, List, zero, suc, true, false, none, some, [], ◌∷◌,
}
use numa.Error.{wire_too_short, wire_truncated, out_of_fuel, err, and_then, ok, Result}
use numa.Buffer.Words.{be16, be32}
use numa.Buffer.{Bytes}

pub record WireMeta : Type 0 where
  pub ttl_offsets : List ℕ
  pub answer_count : ℕ

-- `wire[i]`
abbrev pub byte : Bytes → ℕ → ℕ
byte wire i = get_or wire i 0

-- `u16::from_be_bytes` and `u32::from_be_bytes` of the bytes at `i`.
abbrev pub u16_at : Bytes → ℕ → ℕ
u16_at wire i = byte wire i * 256 + byte wire (i + 1)

abbrev pub u32_at : Bytes → ℕ → ℕ
u32_at wire i =
    ((byte wire i * 256 + byte wire (i + 1)) * 256 + byte wire (i + 2)) * 256 + byte wire (i + 3)

-- The loop of `skip_wire_name`; it returns the new `pos`.
unfoldable pub skip_labels : ℕ → Bytes → ℕ → Result ℕ
skip_labels zero wire pos = err out_of_fuel
skip_labels (suc fuel) wire pos =
    let len = byte wire pos in
    if leb (length wire) pos
    then err wire_truncated
    else if bit_and len 0xc0 == 0xc0
    then ok (pos + 2)
    else if len == 0
    then ok (pos + 1)
    else skip_labels fuel wire (pos + (1 + len))

-- The position grows and stays inside the message, so these rounds are enough.
unfoldable pub skip_wire_name : Bytes → ℕ → Result ℕ
skip_wire_name wire pos = skip_labels (suc (length wire)) wire pos

unfoldable pub skip_questions : ℕ → Bytes → ℕ → Result ℕ
skip_questions zero wire pos = ok pos
skip_questions (suc n) wire pos = and_then (skip_wire_name wire pos) (λ past_name.
    if ltb (length wire) (past_name + 4)
    then err wire_truncated
    else skip_questions n wire (past_name + 4))

-- The variables of the loops over the sections.
pub record ScanState : Type 0 where
  pub pos : ℕ
  pub ttl_offsets : List ℕ
  pub answer_offset_count : ℕ

unfoldable pub is_opt_at : Bytes → ℕ → Bool
is_opt_at wire pos =
    ltb pos (length wire)
    && (byte wire pos == 0)
    && leb (pos + 3) (length wire)
    && (u16_at wire (pos + 1) == 41)

-- `ttl_offsets.push(ttl_offset)` and the count of those in the answer section.
unfoldable pub push_offset : Bool → Bool → ℕ → ScanState → ScanState
push_offset is_opt in_answers ttl_offset s = if is_opt then s else record s {
  ttl_offsets = s.ttl_offsets ++ (ttl_offset ∷ []);
  answer_offset_count = s.answer_offset_count + (if in_answers then 1 else 0);
}

-- One round of the inner loop.
unfoldable pub scan_record : Bytes → Bool → ScanState → Result ScanState
scan_record wire in_answers s = and_then (skip_wire_name wire s.pos) (λ pos.
    if ltb (length wire) (pos + 10)
    then err wire_truncated
    else let rdlength = u16_at wire (pos + 8) in
      let past = pos + (10 + rdlength) in
      if ltb (length wire) past
      then err wire_truncated
      else ok (record (push_offset (is_opt_at wire s.pos) in_answers (pos + 4) s) { pos = past }))

unfoldable pub scan_section : ℕ → Bytes → Bool → ScanState → Result ScanState
scan_section zero wire in_answers s = ok s
scan_section (suc n) wire in_answers s =
    and_then (scan_record wire in_answers s) (λ t. scan_section n wire in_answers t)

unfoldable pub scan_ttl_offsets : Bytes → Result WireMeta
scan_ttl_offsets wire =
    if ltb (length wire) 12
    then err wire_too_short
    else and_then (skip_questions (u16_at wire 4) wire 12) (λ pos.
      and_then
        (scan_section (u16_at wire 6) wire true
          (record { pos = pos; ttl_offsets = []; answer_offset_count = 0 }))
        (λ answers. and_then (scan_section (u16_at wire 8) wire false answers) (λ authorities.
          and_then (scan_section (u16_at wire 10) wire false authorities) (λ s.
            ok (record { ttl_offsets = s.ttl_offsets; answer_count = s.answer_offset_count })))))

-- `filter_map` over the offsets.
unfoldable pub ttls_at : Bytes → List ℕ → List ℕ
ttls_at wire [] = []
ttls_at wire (off ∷ offs) =
    if leb (off + 4) (length wire) then u32_at wire off ∷ ttls_at wire offs else ttls_at wire offs

-- `Iterator::min`
unfoldable pub min_of : List ℕ → Option ℕ
min_of [] = none
min_of (x ∷ xs) = some (elim (min_of xs) [ none ↦ x | some m ↦ min x m ])

unfoldable pub min_ttl_from_wire : Bytes → WireMeta → Option ℕ
min_ttl_from_wire wire meta = min_of (ttls_at wire (take meta.answer_count meta.ttl_offsets))

-- `wire[i] = v`
unfoldable pub set_elem? : Bytes → ℕ → ℕ → Option Bytes
set_elem? [] i v = none
set_elem? (x ∷ xs) zero v = some (v ∷ xs)
set_elem? (x ∷ xs) (suc i) v = elim (set_elem? xs i v) [ none ↦ none | some ys ↦ some (x ∷ ys) ]

-- `for (k, b) in bytes { wire[off + k] = b }`
unfoldable pub set_run : Bytes → ℕ → Bytes → Option Bytes
set_run wire off [] = some wire
set_run wire off (v ∷ vs) = elim (set_elem? wire off v) [
  | none ↦ none
  | some next ↦ set_run next (off + 1) vs
]

-- The two bytes of the ID are written in order.
unfoldable pub patch_id : Bytes → ℕ → Option Bytes
patch_id wire new_id = set_run wire 0 (be16 new_id)

unfoldable pub patch_ttls : Bytes → List ℕ → ℕ → Option Bytes
patch_ttls wire [] new_ttl = some wire
patch_ttls wire (off ∷ offs) new_ttl = elim (set_run wire off (be32 new_ttl)) [
  | none ↦ none
  | some next ↦ patch_ttls next offs new_ttl
]
