-- ===== src/Record/Fields.antt =====
-- The pieces that the record types share: the length field, the bytes up to the end, addresses.
-- Patching the two bytes of the placeholder.
use native.Mathlib.Decide.{dec_le}
use numa.Exec.{bind_err, bind_ok, ◌>>=◌, Exec}
use native.Mathlib.Numerals.{add-one}
use numa.Buffer.Words.{write_u16-Writes, take_bytes-Reads, be16}
use numa.Buffer.Codec.{update-write_list, blit-append, blit, Reads, Writes}
use numa.Prelude.Bits.{low_byte}
use numa.Error.{end_of_buffer, err, ok}
use numa.Buffer.{write_u16, buf_size, position, write_list, Buffer, update, set, Bytes, set_u16}
use numa.Prelude.{
  ap, ap₂, ◌/◌, ◌∙◌, ◌<◌, ◌^◌, ltb, ◌%◌, ◌≤◌, ◌-◌, ◌++◌, arith, length, fun_ext, ◌+◌, ◌≡◌, ℕ, refl,
  suc, true, false, [], ◌∷◌,
}
use numa.Record.{read_rest}
use numa.Record.Writer.{with_rdlength}

patched_pair :
    (f : ℕ → ℕ) (p hi lo : ℕ)
    → update (update (update (update f p 0) (suc p) 0) p hi) (suc p) lo
      ≡ update (update f p hi) (suc p) lo
patched_pair f p hi lo = fun_ext (λ j. ground arith)

set_u16_fits :
    (p v : ℕ) (c : Buffer)
    → p + 2 ≤ buf_size
    → v < 2 ^ 16
    → set_u16 p v c
      ≡ (ok tt, record c { buf = update (update c.buf p (v / 256)) (suc p) (v % 256) })
unfolding set_u16 set ◌>>=◌
set_u16_fits p v c room fits =
    let high : v / 2 ^ 8 % 256 ≡ v / 256 = omega arith in
    rw (low_byte v) (rw high (rw add-one (ground arith)))

set_u16_front :
    (xs : Bytes) (b : Buffer) (v : ℕ)
    → b.pos + 2 ≤ buf_size
    → v < 2 ^ 16
    → set_u16 b.pos v (blit (0 ∷ 0 ∷ xs) b) ≡ (ok tt, blit (be16 v ++ xs) b)
unfolding write_list
set_u16_front xs b v room fits =
    let p : ℕ = b.pos in
    let f : ℕ → ℕ = update (update b.buf p 0) (suc p) 0 in
    set_u16_fits p v (blit (0 ∷ 0 ∷ xs) b) room fits
    ∙ ap (λ (g : ℕ → ℕ). (ok tt, record (blit (0 ∷ 0 ∷ xs) b) { buf = g }))
        (ap (λ (g : ℕ → ℕ). update g (suc p) (v % 256))
            (update-write_list f (suc (suc p)) xs p (v / 256) (omega arith))
          ∙ update-write_list (update f p (v / 256)) (suc (suc p)) xs (suc p) (v % 256)
              (omega arith)
          ∙ ap (λ (g : ℕ → ℕ). write_list g (suc (suc p)) xs)
              (patched_pair b.buf p (v / 256) (v % 256)))

abbrev patch : ℕ → Exec Buffer (Unit {0})
patch pos = do end ← position; set_u16 pos ((end - (pos + 2)) % 2 ^ 16)

-- With room for the placeholder, the body follows.
with_rdlength_body :
    (body : Exec Buffer (Unit {0})) (b : Buffer)
    → b.pos + 2 ≤ buf_size
    → with_rdlength body b ≡ (body >>= λ _. patch b.pos) (blit (0 ∷ 0 ∷ []) b)
unfolding with_rdlength
with_rdlength_body body b room =
    bind_ok position _ b refl
    ∙ bind_ok (write_u16 0) _ b ((write_u16-Writes 0 (omega arith)).fits b room)

with_rdlength_stops :
    (body : Exec Buffer (Unit {0})) (b : Buffer)
    → b.pos ≤ buf_size
    → buf_size < b.pos + 2
    → ((with_rdlength body b).0 ≡ err end_of_buffer) × ((with_rdlength body b).1.overflow ≡ true)
unfolding with_rdlength
with_rdlength_stops body b inside past =
    let (fails, flag) = (write_u16-Writes 0 (omega arith)).full b inside past in
    let e : with_rdlength body b ≡ (err end_of_buffer, (write_u16 0 b).1) =
      bind_ok position _ b refl ∙ bind_err (write_u16 0) _ b end_of_buffer fails in
    rw e (refl, flag)

-- A body that appends `xs`, run under `with_rdlength`, appends the two-byte length of `xs` and then
-- `xs` wherever there is room, and fails with the overflow flag set where there is not.
pub with_rdlength-Writes :
    (body : Exec Buffer (Unit {0})) (xs : Bytes)
    → Writes body tt xs
    → Writes (with_rdlength body) tt (be16 (length xs) ++ xs)
with_rdlength-Writes body xs h = record {
  fits = λ b room.
      let c : Buffer = blit (0 ∷ 0 ∷ []) b in
      let size : (b.pos + 2 + length xs - (b.pos + 2)) % 2 ^ 16 ≡ length xs = omega arith in
      with_rdlength_body body b (omega arith)
      ∙ bind_ok body _ c (h.fits c (omega arith))
      ∙ bind_ok position _ (blit xs c) refl
      ∙ ap₂ (λ (v : ℕ) (d : Buffer). set_u16 b.pos v d) size (blit-append (0 ∷ 0 ∷ []) xs b)
      ∙ set_u16_front xs b (length xs) (omega arith) (omega arith);
  full = λ b inside past. elim (dec_le (b.pos + 2) buf_size) [
    | no stop ↦ with_rdlength_stops body b inside (omega arith)
    | yes room ↦
        let c : Buffer = blit (0 ∷ 0 ∷ []) b in
        let (fails, flag) = h.full c room (omega arith) in
        let e : (body >>= λ _. patch b.pos) c ≡ (err end_of_buffer, (body c).1) =
          bind_err body _ c end_of_buffer fails in
        rw (with_rdlength_body body b room) (rw e (refl, flag))
  ];
}

-- The bytes up to the end that the length field set.
pub read_rest-Reads : (p e : ℕ) (xs : Bytes) → e ≡ p + length xs → Reads p (read_rest e) xs xs
unfolding read_rest
read_rest-Reads p e xs end = record {
  at = λ b here holds room.
      let size : e - b.pos ≡ length xs = omega arith in
      let late : ltb e b.pos ≡ false = ground arith in
      bind_ok position _ b refl ∙ rw late (rw size ((take_bytes-Reads p xs).at b here holds room));
}
