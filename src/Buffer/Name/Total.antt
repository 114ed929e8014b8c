-- ===== src/Buffer/Name/Total.antt =====
-- `read_qname` on any buffer: it ends, and writes nothing but the cursor.
-- What a pass leaves behind, with a result or an error.
use numa.Buffer.Name.{
  qname_fuel, read_qname, escape_label, pointer_offset, seek_unless, read_labels,
}
use numa.Buffer.{buf_size, slice, seek, get_range, Bytes, get, Buffer}
use numa.Error.{ok, out_of_fuel, err, Result}
use numa.Prelude.{
  ◌≤◌, refl, ◌++◌, arith, ◌<◌, ◌+◌, ◌*◌, ◌-◌, Bool, ◌≡◌, ℕ, ◌≢◌, zero, suc, true, false, [], ◌∷◌,
}
use numa.Exec.{◌>>=◌}

record Scanned (b : Buffer) (r : Result Bytes × Buffer) : Type 0 where
  ends : r.0 ≢ err out_of_fuel
  same_bytes : r.1.buf ≡ b.buf
  same_flag : r.1.overflow ≡ b.overflow

Scanned-read_labels :
    (fuel pos : ℕ) (jumped : Bool) (jumps : ℕ) (delim outstr : Bytes) (b : Buffer)
    → (6 - jumps) * 4097 + (4096 - pos) < fuel
    → Scanned b (read_labels fuel pos jumped jumps delim outstr b)
unfolding read_labels get get_range seek_unless seek ◌>>=◌
Scanned-read_labels zero pos jumped jumps delim outstr b enough = absurd (omega arith)
Scanned-read_labels (suc fuel) pos true jumps delim outstr b enough =
    let off : ℕ = pointer_offset (b.buf pos) (b.buf (pos + 1)) in
    let next : ℕ = pos + 1 + b.buf pos in
    let out : Bytes = outstr ++ delim ++ escape_label (slice b.buf (pos + 1) (b.buf pos)) in
    ground (
      arith,
      Scanned-read_labels fuel off true (jumps + 1) delim outstr b,
      Scanned-read_labels fuel next true jumps (b'.' ∷ []) out b,
    )
Scanned-read_labels (suc fuel) pos false jumps delim outstr b enough =
    let off : ℕ = pointer_offset (b.buf pos) (b.buf (pos + 1)) in
    let next : ℕ = pos + 1 + b.buf pos in
    let out : Bytes = outstr ++ delim ++ escape_label (slice b.buf (pos + 1) (b.buf pos)) in
    ground (
      arith,
      Scanned-read_labels fuel off true (jumps + 1) delim outstr (record b { pos = pos + 2 }),
      Scanned-read_labels fuel next false jumps (b'.' ∷ []) out b,
    )

-- Where a pass that returns a text leaves the cursor: after a jump where it was, and otherwise behind
-- the name, inside the buffer.
cursor-read_labels :
    (fuel pos : ℕ) (jumped : Bool) (jumps : ℕ) (delim outstr : Bytes) (b : Buffer) (t : Bytes)
    → (jumped ≡ true → b.pos ≤ buf_size)
    → (read_labels fuel pos jumped jumps delim outstr b).0 ≡ ok t
    → (jumped ≡ true → (read_labels fuel pos jumped jumps delim outstr b).1.pos ≡ b.pos)
      × (jumped ≡ false
          → (pos < (read_labels fuel pos jumped jumps delim outstr b).1.pos)
            × ((read_labels fuel pos jumped jumps delim outstr b).1.pos ≤ buf_size))
unfolding read_labels get get_range seek_unless seek ◌>>=◌
cursor-read_labels zero pos jumped jumps delim outstr b t inside e = cc
cursor-read_labels (suc fuel) pos true jumps delim outstr b t inside e =
    let off : ℕ = pointer_offset (b.buf pos) (b.buf (pos + 1)) in
    let next : ℕ = pos + 1 + b.buf pos in
    let out : Bytes = outstr ++ delim ++ escape_label (slice b.buf (pos + 1) (b.buf pos)) in
    ground (
      arith,
      cursor-read_labels fuel off true (jumps + 1) delim outstr b t inside,
      cursor-read_labels fuel next true jumps (b'.' ∷ []) out b t inside,
    )
cursor-read_labels (suc fuel) pos false jumps delim outstr b t inside e =
    let off : ℕ = pointer_offset (b.buf pos) (b.buf (pos + 1)) in
    let next : ℕ = pos + 1 + b.buf pos in
    let out : Bytes = outstr ++ delim ++ escape_label (slice b.buf (pos + 1) (b.buf pos)) in
    ground (
      arith,
      cursor-read_labels fuel off true (jumps + 1) delim outstr (record b { pos = pos + 2 }) t,
      cursor-read_labels fuel next false jumps (b'.' ∷ []) out b t,
    )

pub record QnameOutcome (b : Buffer) (r : Result Bytes × Buffer) : Type 0 where
  pub ends : r.0 ≢ err out_of_fuel
  pub same_bytes : r.1.buf ≡ b.buf
  pub same_flag : r.1.overflow ≡ b.overflow
  pub advances : (t : Bytes) → r.0 ≡ ok t → (b.pos < r.1.pos) × (r.1.pos ≤ buf_size)

-- On any buffer `read_qname` ends, writes no byte and no flag, and where it returns a text it has
-- moved the cursor forward, to a place inside the buffer.
pub read_qname_total : (b : Buffer) → QnameOutcome b (read_qname b)
unfolding read_qname ◌>>=◌
read_qname_total b =
    let scan = Scanned-read_labels qname_fuel b.pos false 0 [] [] b (omega arith) in
    record {
      ends = scan.ends;
      same_bytes = scan.same_bytes;
      same_flag = scan.same_flag;
      advances = λ t e. (cursor-read_labels qname_fuel b.pos false 0 [] [] b t (λ c. cc) e).1 refl;
    }
