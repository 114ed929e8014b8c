-- ===== src/Buffer/Words.antt =====
-- The fixed-width fields of src/buffer.rs as writers and readers of bytes.
use numa.Exec.{Exec, pure, ◌>>=◌, ◌>>◌}
use numa.Prelude.{ℕ, ◌+◌, ◌*◌, ◌/◌, ◌%◌, ◌^◌, ◌<◌, ◌≡◌, ap, ◌∙◌, arith, bit_or, [], ◌∷◌, length}
use numa.Prelude.Bits.{low_byte, or_shifted}
use numa.Buffer.{
  Bytes, Buffer, write_list, slice, read, get_range, step, write, write_u16, write_bytes, read_u16,
  position, write_u32, read_u32,
}
use numa.Buffer.Codec.{slice-Holds, Writes, Writes-bind, Reads, Reads-bind, Reads-pure}

-- Big-endian fields.
abbrev pub be16 : ℕ → Bytes
be16 v = v / 256 ∷ v % 256 ∷ []

abbrev pub be32 : ℕ → Bytes
be32 v = v / 2 ^ 24 ∷ v / 2 ^ 16 % 256 ∷ v / 256 % 256 ∷ v % 256 ∷ []

pub write-Writes : (v : ℕ) → Writes (write v) tt (v ∷ [])
unfolding write write_list
write-Writes v = record { fits = λ b room. ground arith; full = λ b inside past. ground arith }

pub write_u16-Writes : (v : ℕ) → v < 2 ^ 16 → Writes (write_u16 v) tt (be16 v)
unfolding write_u16
write_u16-Writes v h = rw low_byte (
    rw high (
      Writes-bind (write (v / 256)) _ tt tt (v / 256 ∷ []) (v % 256 ∷ []) (write-Writes _)
        (write-Writes _)))
  where
    high : v / 2 ^ 8 % 256 ≡ v / 256
    high = omega arith

pub write_bytes-Writes : (xs : Bytes) → Writes (write_bytes xs) tt xs
unfolding write_bytes
write_bytes-Writes xs = record {
  fits = λ b room. ground arith;
  full = λ b inside past. ground arith;
}

pub read-Reads : (p v : ℕ) → Reads p read v (v ∷ [])
unfolding read
read-Reads p v = record {
  at = λ b here holds room. let e : b.buf b.pos ≡ v = ap b.buf here ∙ holds.0 in ground (arith, e);
}

join16 : (hi lo : ℕ) → hi < 256 → lo < 256 → bit_or (hi * 2 ^ 8 % 2 ^ 16) lo ≡ hi * 256 + lo
join16 hi lo h k = rw keep (or_shifted 8 hi lo k)
  where
    keep : hi * 2 ^ 8 % 2 ^ 16 ≡ hi * 2 ^ 8
    keep = omega arith

join32 :
    (b3 b2 b1 b0 : ℕ)
    → b3 < 256
    → b2 < 256
    → b1 < 256
    → b0 < 256
    → bit_or
        (bit_or (bit_or (b3 * 2 ^ 24 % 2 ^ 32) (b2 * 2 ^ 16 % 2 ^ 32)) (b1 * 2 ^ 8 % 2 ^ 32))
        b0
      ≡ ((b3 * 256 + b2) * 256 + b1) * 256 + b0
join32 b3 b2 b1 b0 h3 h2 h1 h0 =
    rw
      (
        keep3,
        keep2,
        keep1,
        or_shifted 24 b3 (b2 * 2 ^ 16) (omega arith),
        top,
        or_shifted 16 (b3 * 256 + b2) (b1 * 2 ^ 8) (omega arith),
        middle,
      )
      (or_shifted 8 ((b3 * 256 + b2) * 256 + b1) b0 h0)
  where
    keep3 : b3 * 2 ^ 24 % 2 ^ 32 ≡ b3 * 2 ^ 24
    keep3 = omega arith

    keep2 : b2 * 2 ^ 16 % 2 ^ 32 ≡ b2 * 2 ^ 16
    keep2 = omega arith

    keep1 : b1 * 2 ^ 8 % 2 ^ 32 ≡ b1 * 2 ^ 8
    keep1 = omega arith

    top : b3 * 2 ^ 24 + b2 * 2 ^ 16 ≡ (b3 * 256 + b2) * 2 ^ 16
    top = omega arith

    middle : (b3 * 256 + b2) * 2 ^ 16 + b1 * 2 ^ 8 ≡ ((b3 * 256 + b2) * 256 + b1) * 2 ^ 8
    middle = omega arith

pub read_u16-Reads : (p v : ℕ) → v < 2 ^ 16 → Reads p read_u16 v (be16 v)
unfolding read_u16
read_u16-Reads p v h =
    Reads-bind p read _ (v / 256) v (v / 256 ∷ []) (v % 256 ∷ []) (read-Reads p _) (
      Reads-bind (p + 1) read _ (v % 256) v (v % 256 ∷ []) [] (read-Reads _ _)
        (Reads-pure _ _ v (omega (arith, join16 (v / 256) (v % 256) (omega arith) (omega arith)))))

pub write_u32-Writes : (v : ℕ) → v < 2 ^ 32 → Writes (write_u32 v) tt (be32 v)
unfolding write_u32
write_u32-Writes v h = simp low_byte (
    rw high (
      Writes-bind (write (v / 2 ^ 24)) _ tt tt (v / 2 ^ 24 ∷ []) _ (write-Writes _) (
        Writes-bind (write (v / 2 ^ 16 % 256)) _ tt tt (v / 2 ^ 16 % 256 ∷ []) _ (write-Writes _) (
          Writes-bind (write (v / 2 ^ 8 % 256)) _ tt tt (v / 256 % 256 ∷ []) _ (write-Writes _)
            (write-Writes _)))))
  where
    high : v / 2 ^ 24 % 256 ≡ v / 2 ^ 24
    high = omega arith

pub read_u32-Reads : (p v : ℕ) → v < 2 ^ 32 → Reads p read_u32 v (be32 v)
unfolding read_u32
read_u32-Reads p v h = Reads-bind p read _ _ v (v / 2 ^ 24 ∷ []) _ (read-Reads p _) (
    Reads-bind (p + 1) read _ _ v (v / 2 ^ 16 % 256 ∷ []) _ (read-Reads _ _) (
      Reads-bind (p + 1 + 1) read _ _ v (v / 256 % 256 ∷ []) _ (read-Reads _ _) (
        Reads-bind (p + 1 + 1 + 1) read _ _ v (v % 256 ∷ []) [] (read-Reads _ _) (
          Reads-pure _ _ v (
            omega (
              arith,
              join32 (v / 2 ^ 24) (v / 2 ^ 16 % 256) (v / 256 % 256) (v % 256) (omega arith)
                  (omega arith) (omega arith) (omega arith),
            ))))))

-- `get_range(pos, n)` and then `step(n)`.
abbrev pub take_bytes : ℕ → Exec Buffer Bytes
take_bytes n = do p ← position; bytes ← get_range p n; step n; pure bytes

pub take_bytes-Reads : (p : ℕ) (xs : Bytes) → Reads p (take_bytes (length xs)) xs xs
unfolding get_range step ◌>>=◌
take_bytes-Reads p xs = record {
  at = λ b here holds room.
      let found : slice b.buf b.pos (length xs) ≡ xs =
        ap (λ (i : ℕ). slice b.buf i (length xs)) here ∙ slice-Holds b.buf p xs holds in
      ground (arith, found);
}
