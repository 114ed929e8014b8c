-- ===== src/Wire/Scan.antt =====
-- The scan for TTL fields: it ends, and what it finds are fields inside the message.
use numa.Prelude.{
  ltb, if◌then◌else◌, length-append, ◌≡◌, ◌==◌, bit_and, leb, ◌++◌, arith, ◌<◌, ◌+◌, List, ◌≢◌, ℕ,
  ◌≤◌, Bool, length, refl, zero, suc, true, false, [], ◌∷◌,
}
use numa.Wire.{
  is_opt_at, u16_at, byte, ScanState, WireMeta, skip_questions, scan_ttl_offsets, scan_section,
  push_offset, skip_wire_name, scan_record, skip_labels,
}
use numa.Error.{ok, err, Error, Result, and_then, out_of_fuel, wire_truncated, wire_too_short}
use numa.Buffer.{Bytes}

-- A result that satisfies `P`, or an error of the program.
abbrev pub Settles : {A : Type 0} → (A → Type 0) → Result A → Type 0
Settles P (ok a) = P a
Settles P (err e) = e ≢ out_of_fuel

pub Settles-and_then :
    {A B : Type 0} (P : A → Type 0) (Q : B → Type 0) (r : Result A) (f : A → Result B)
    → Settles P r
    → ((a : A) → P a → Settles Q (f a))
    → Settles Q (and_then r f)
Settles-and_then P Q (ok a) f h k = k a h
Settles-and_then P Q (err e) f h k = h

Settles-if :
    {A : Type 0} (P : A → Type 0) (t : Bool) (r s : Result A)
    → (t ≡ true → Settles P r)
    → (t ≡ false → Settles P s)
    → Settles P (if t then r else s)
Settles-if P true r s hr hs = hr refl
Settles-if P false r s hr hs = hs refl

Settles-guard :
    {A : Type 0} (P : A → Type 0) (t : Bool) (e : Error) (s : Result A)
    → e ≢ out_of_fuel
    → (t ≡ false → Settles P s)
    → Settles P (if t then err e else s)
Settles-guard P true e s other hs = other
Settles-guard P false e s other hs = hs refl

Settles-map :
    {A : Type 0} (P Q : A → Type 0) (r : Result A)
    → ((a : A) → P a → Q a)
    → Settles P r
    → Settles Q r
Settles-map P Q (ok a) f h = f a h
Settles-map P Q (err e) f h = h

-- Fields of four bytes, one after another, from `lo` on and up to `hi`.
abbrev pub Fields : ℕ → List ℕ → ℕ → Type 0
Fields lo [] hi = lo ≤ hi
Fields lo (off ∷ offs) hi = (lo ≤ off) × Fields (off + 4) offs hi

pub Fields-le : (lo : ℕ) (offs : List ℕ) (hi : ℕ) → Fields lo offs hi → lo ≤ hi
Fields-le lo [] hi h = h
Fields-le lo (off ∷ offs) hi h = omega (arith, h.0, Fields-le (off + 4) offs hi h.1)

Fields-append :
    (lo : ℕ) (offs : List ℕ) (mid off hi : ℕ)
    → Fields lo offs mid
    → mid ≤ off
    → off + 4 ≤ hi
    → Fields lo (offs ++ (off ∷ [])) hi
Fields-append lo [] mid off hi h above below = (omega arith, below)
Fields-append lo (o ∷ offs) mid off hi h above below =
    (h.0, Fields-append (o + 4) offs mid off hi h.1 above below)

Fields-raise :
    (lo : ℕ) (offs : List ℕ) (mid hi : ℕ) → Fields lo offs mid → mid ≤ hi → Fields lo offs hi
Fields-raise lo [] mid hi h le = omega arith
Fields-raise lo (o ∷ offs) mid hi h le = (h.0, Fields-raise (o + 4) offs mid hi h.1 le)

skip_labels-Settles :
    (fuel : ℕ) (wire : Bytes) (pos : ℕ)
    → 1 ≤ fuel
    → length wire < fuel + pos
    → Settles (λ p. pos < p) (skip_labels fuel wire pos)
unfolding skip_labels
skip_labels-Settles zero wire pos some_left enough = absurd (omega arith)
skip_labels-Settles (suc fuel) wire pos some_left enough =
    let len : ℕ = byte wire pos in
    let later : Result ℕ = skip_labels fuel wire (pos + (1 + len)) in
    Settles-guard (λ p. pos < p) (leb (length wire) pos) wire_truncated
      (if bit_and len 0xc0 == 0xc0 then ok (pos + 2) else if len == 0 then ok (pos + 1) else later)
      (λ e. cc)
      (λ inside.
        Settles-if (λ p. pos < p) (bit_and len 0xc0 == 0xc0) (ok (pos + 2))
          (if len == 0 then ok (pos + 1) else later) (λ pointer. omega arith)
          (λ label.
            Settles-if (λ p. pos < p) (len == 0) (ok (pos + 1)) later (λ root. omega arith)
              (λ more.
                Settles-map _ _ later (λ p further. omega arith)
                  (skip_labels-Settles fuel wire (pos + (1 + len)) (ground arith) (ground arith)))))

pub skip_wire_name-Settles :
    (wire : Bytes) (pos : ℕ) → Settles (λ p. pos < p) (skip_wire_name wire pos)
unfolding skip_wire_name
skip_wire_name-Settles wire pos =
    skip_labels-Settles (suc (length wire)) wire pos (omega arith) (omega arith)

skip_questions-Settles :
    (n : ℕ) (wire : Bytes) (pos : ℕ)
    → pos ≤ length wire
    → Settles (λ p. (pos ≤ p) × (p ≤ length wire)) (skip_questions n wire pos)
unfolding skip_questions
skip_questions-Settles zero wire pos inside = (omega arith, inside)
skip_questions-Settles (suc n) wire pos inside =
    Settles-and_then (λ p. pos < p) _ (skip_wire_name wire pos) _ (skip_wire_name-Settles wire pos)
      (λ p moved.
        Settles-guard _ (ltb (length wire) (p + 4)) wire_truncated (skip_questions n wire (p + 4))
          (λ e. cc)
          (λ room.
            Settles-map _ _ (skip_questions n wire (p + 4)) (λ q h. (omega arith, h.1))
              (skip_questions-Settles n wire (p + 4) (ground arith))))

-- What holds between two rounds of the scan.
record IsScan (wire : Bytes) (s : ScanState) : Type 0 where
  fields : Fields 12 s.ttl_offsets s.pos
  inside : s.pos ≤ length wire
  answers : s.answer_offset_count ≤ length s.ttl_offsets

push_offset-IsScan :
    (wire : Bytes) (is_opt in_answers : Bool) (off past : ℕ) (s : ScanState)
    → IsScan wire s
    → s.pos ≤ off
    → off + 4 ≤ past
    → past ≤ length wire
    → IsScan wire (record (push_offset is_opt in_answers off s) { pos = past })
unfolding push_offset
push_offset-IsScan wire true in_answers off past s h above below room = record {
  fields = Fields-raise 12 s.ttl_offsets s.pos past h.fields (omega arith);
  inside = room;
  answers = h.answers;
}
push_offset-IsScan wire false in_answers off past s h above below room = record {
  fields = Fields-append 12 s.ttl_offsets s.pos off past h.fields above below;
  inside = room;
  answers = ground (arith, h.answers, length-append s.ttl_offsets (off ∷ []));
}

scan_record-IsScan :
    (wire : Bytes) (in_answers : Bool) (s : ScanState)
    → IsScan wire s
    → Settles (IsScan wire) (scan_record wire in_answers s)
unfolding scan_record
scan_record-IsScan wire in_answers s h =
    Settles-and_then (λ p. s.pos < p) _ (skip_wire_name wire s.pos) _
      (skip_wire_name-Settles wire s.pos)
      (λ pos moved.
        let past : ℕ = pos + (10 + u16_at wire (pos + 8)) in
        let next : ScanState = record (push_offset (is_opt_at wire s.pos) in_answers (pos + 4) s) {
          pos = past;
        } in
        Settles-guard (IsScan wire) (ltb (length wire) (pos + 10)) wire_truncated
          (if ltb (length wire) past then err wire_truncated else ok next) (λ e. cc)
          (λ header.
            Settles-guard (IsScan wire) (ltb (length wire) past) wire_truncated (ok next) (λ e. cc)
              (λ room.
                push_offset-IsScan wire (is_opt_at wire s.pos) in_answers (pos + 4) past s h
                  (omega arith) (omega arith) (ground arith))))

scan_section-IsScan :
    (n : ℕ) (wire : Bytes) (in_answers : Bool) (s : ScanState)
    → IsScan wire s
    → Settles (IsScan wire) (scan_section n wire in_answers s)
unfolding scan_section
scan_section-IsScan zero wire in_answers s h = h
scan_section-IsScan (suc n) wire in_answers s h =
    Settles-and_then (IsScan wire) _ (scan_record wire in_answers s) _
      (scan_record-IsScan wire in_answers s h) (λ t. scan_section-IsScan n wire in_answers t)

-- The sections, from the answers on.
abbrev sections : Bytes → ℕ → Result WireMeta
sections wire pos =
    and_then
      (scan_section (u16_at wire 6) wire true
        (record { pos = pos; ttl_offsets = []; answer_offset_count = 0 }))
      (λ answers. and_then (scan_section (u16_at wire 8) wire false answers) (λ authorities.
        and_then (scan_section (u16_at wire 10) wire false authorities)
          (λ s. ok (record { ttl_offsets = s.ttl_offsets; answer_count = s.answer_offset_count }))))

-- What the scan promises of its result: the offsets are of four-byte fields that follow the header,
-- do not overlap, stand in order and lie inside the message.
pub record IsMeta (wire : Bytes) (meta : WireMeta) : Type 0 where
  pub header : 12 ≤ length wire
  pub fields : Fields 12 meta.ttl_offsets (length wire)
  pub answers : meta.answer_count ≤ length meta.ttl_offsets

-- On any bytes the scan ends, and where it returns, the message has a header, the offsets are of
-- four-byte fields after it that do not overlap, stand in order and lie inside the message, and
-- there are at least as many offsets as counted for the answers.
pub scan_ttl_offsets-IsMeta : (wire : Bytes) → Settles (IsMeta wire) (scan_ttl_offsets wire)
unfolding scan_ttl_offsets
scan_ttl_offsets-IsMeta wire =
    Settles-guard (IsMeta wire) (ltb (length wire) 12) wire_too_short
      (and_then (skip_questions (u16_at wire 4) wire 12) (sections wire)) (λ e. cc)
      (λ long.
        let header : 12 ≤ length wire = ground arith in
        Settles-and_then _ (IsMeta wire) (skip_questions (u16_at wire 4) wire 12) (sections wire)
          (skip_questions-Settles (u16_at wire 4) wire 12 header)
          (λ pos at. sections-IsMeta pos header at))
  where
    sections-IsMeta :
        (pos : ℕ)
        → 12 ≤ length wire
        → (12 ≤ pos) × (pos ≤ length wire)
        → Settles (IsMeta wire) (sections wire pos)
    sections-IsMeta pos header at =
        Settles-and_then (IsScan wire) _ (scan_section (u16_at wire 6) wire true _) _
          (scan_section-IsScan (u16_at wire 6) wire true _
            (record { fields = at.0; inside = at.1; answers = omega arith }))
          (λ answers h.
            Settles-and_then (IsScan wire) _ (scan_section (u16_at wire 8) wire false answers) _
              (scan_section-IsScan (u16_at wire 8) wire false answers h)
              (λ authorities k.
                Settles-and_then (IsScan wire) _
                  (scan_section (u16_at wire 10) wire false authorities) _
                  (scan_section-IsScan (u16_at wire 10) wire false authorities k)
                  (λ s l. record {
                    header = header;
                    fields = Fields-raise 12 s.ttl_offsets s.pos (length wire) l.fields l.inside;
                    answers = l.answers;
                  })))
