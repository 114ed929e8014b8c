-- ===== src/Buffer/Trip.antt =====
-- From the two halves of a codec to the bytes that leave one `BytePacketBuffer` and enter another.
use numa.Prelude.{
  le→leb, ◌∙◌, ◌+◌, arith, ap, take, ◌<◌, ◌≤◌, ◌≡◌, length, ℕ, refl, zero, suc, true, some, [], ◌∷◌,
}
use numa.Error.{Result, end_of_buffer, ok, err}
use numa.Buffer.Codec.{slice-Holds, Holds-write_list, blit, Writes, Reads}
use numa.Buffer.{slice, write_list, buf_size, filled, new, Buffer, Bytes, from_bytes}
use numa.Exec.{Exec}

take_all : (n : ℕ) (xs : Bytes) → length xs ≤ n → take n xs ≡ xs
take_all zero [] h = refl
take_all zero (x ∷ xs) h = absurd (omega arith)
take_all (suc n) [] h = refl
take_all (suc n) (x ∷ xs) h = rw (take_all n xs (omega arith))

-- What a writer leaves in a new buffer: `v` is returned and `bytes` is what `filled` gives.
pub record Sends {A : Type 0} (w : Exec Buffer A) (v : A) (bytes : Bytes) : Type 0 where
  pub returns : (w new).0 ≡ ok v
  pub sent : filled (w new).1 ≡ some bytes

abbrev pub Overflows : {A : Type 0} → Exec Buffer A → Type 0
Overflows w = ((w new).0 ≡ err end_of_buffer) × ((w new).1.overflow ≡ true)

module _ {A : Type 0} {w : Exec Buffer A} {v : A} {bytes : Bytes} (hw : Writes w v bytes) where
  pub Writes-Sends : length bytes ≤ buf_size → Sends w v bytes
  unfolding filled
  Writes-Sends fits =
      let written : w new ≡ (ok v, blit bytes new) = hw.fits new (omega arith) in
      let held : slice (write_list (λ _. 0) 0 bytes) 0 (length bytes) ≡ bytes =
        slice-Holds (write_list (λ _. 0) 0 bytes) 0 bytes (Holds-write_list (λ _. 0) 0 bytes) in
      let size : 0 + length bytes ≡ length bytes = omega arith in
      record {
        returns = ap (λ r. r.0) written;
        sent =
            ap (λ (r : Result A × Buffer). filled r.1) written ∙ rw (size, le→leb _ _ fits, held);
      }

  pub Writes-Overflows : buf_size < length bytes → Overflows w
  Writes-Overflows past = hw.full new (omega arith) (omega arith)

pub Reads-from_bytes :
    {A : Type 0} {r : Exec Buffer A} {u : A} {bytes : Bytes}
    → Reads 0 r u bytes
    → length bytes ≤ buf_size
    → (r (from_bytes bytes)).0 ≡ ok u
unfolding from_bytes
Reads-from_bytes {r = r} {u = u} {bytes = bytes} hr fits = rw (take_all buf_size bytes fits) (
    ap (λ s. s.0)
      (hr.at (record new { buf = write_list (λ _. 0) 0 bytes }) refl
        (Holds-write_list (λ _. 0) 0 bytes) (omega arith)))
