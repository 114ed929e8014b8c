-- ===== src/Buffer.antt =====
-- src/buffer.rs: the packet buffer. The array is a function, read and written only behind the bounds
-- checks of the source; a byte is a number.
pub mod Codec
pub mod Words
pub mod Name
pub mod Trip
use numa.Prelude.{
  refl, inl, inr, ℕ, zero, suc, ◌+◌, ◌*◌, ◌/◌, ◌%◌, ◌^◌, bit_and, bit_or, Bool, true, false, Option,
  none, some, List, [], ◌∷◌, ltb, leb, ◌==◌, if◌then◌else◌, length, take,
}
use numa.Error.{ok, err, end_of_buffer}
use numa.Exec.{Exec, pure, gets, ◌>>=◌, ◌>>◌}

abbrev pub Bytes : Type 0
Bytes = List ℕ

abbrev pub buf_size : ℕ
buf_size = 4096

pub record Buffer : Type 0 where
  pub buf : ℕ → ℕ
  pub pos : ℕ
  pub overflow : Bool

-- `self.buf[i] = v`
abbrev pub update : (ℕ → ℕ) → ℕ → ℕ → (ℕ → ℕ)
update f i v j = if j == i then v else f j

-- `self.buf[i..i + data.len()].copy_from_slice(data)`
unfoldable pub write_list : (ℕ → ℕ) → ℕ → Bytes → (ℕ → ℕ)
write_list f i [] = f
write_list f i (x ∷ xs) = write_list (update f i x) (suc i) xs

-- `&self.buf[i..i + n]`
unfoldable pub slice : (ℕ → ℕ) → ℕ → ℕ → Bytes
slice f i zero = []
slice f i (suc n) = f i ∷ slice f (suc i) n

abbrev pub new : Buffer
new = record { buf = λ _. 0; pos = 0; overflow = false }

unfoldable pub from_bytes : Bytes → Buffer
from_bytes bytes = record new { buf = write_list (λ _. 0) 0 (take buf_size bytes) }

-- `none` is the panic of a slice that ends past the array.
unfoldable pub filled : Buffer → Option Bytes
filled b = if leb b.pos buf_size then some (slice b.buf 0 b.pos) else none

abbrev pub position : Exec Buffer ℕ
position = gets (λ b. b.pos)

unfoldable pub step : ℕ → Exec Buffer (Unit {0})
step n b = (ok tt, record b { pos = b.pos + n })

unfoldable pub seek : ℕ → Exec Buffer (Unit {0})
seek p b = (ok tt, record b { pos = p })

unfoldable pub read : Exec Buffer ℕ
read b =
    if leb buf_size b.pos
    then (err end_of_buffer, b)
    else (ok (b.buf b.pos), record b { pos = b.pos + 1 })

unfoldable pub get : ℕ → Exec Buffer ℕ
get p b = if leb buf_size p then (err end_of_buffer, b) else (ok (b.buf p), b)

-- A sum past `usize` has the error of one past the array.
unfoldable pub get_range : ℕ → ℕ → Exec Buffer Bytes
get_range start len b =
    if ltb buf_size (start + len) then (err end_of_buffer, b) else (ok (slice b.buf start len), b)

unfoldable pub read_u16 : Exec Buffer ℕ
read_u16 = do hi ← read; lo ← read; pure (bit_or (hi * 2 ^ 8 % 2 ^ 16) lo)

unfoldable pub read_u32 : Exec Buffer ℕ
read_u32 = do
  b3 ← read
  b2 ← read
  b1 ← read
  b0 ← read
  pure (
      bit_or (bit_or (bit_or (b3 * 2 ^ 24 % 2 ^ 32) (b2 * 2 ^ 16 % 2 ^ 32)) (b1 * 2 ^ 8 % 2 ^ 32))
        b0)

unfoldable pub write : ℕ → Exec Buffer (Unit {0})
write val b =
    if leb buf_size b.pos
    then (err end_of_buffer, record b { overflow = true })
    else (ok tt, record b { buf = update b.buf b.pos val; pos = b.pos + 1 })

abbrev pub write_u8 : ℕ → Exec Buffer (Unit {0})
write_u8 val = write val

unfoldable pub write_u16 : ℕ → Exec Buffer (Unit {0})
write_u16 val = do write (val / 2 ^ 8 % 256); write (bit_and val 0xff)

unfoldable pub write_u32 : ℕ → Exec Buffer (Unit {0})
write_u32 val = do
  write (bit_and (val / 2 ^ 24) 0xff)
  write (bit_and (val / 2 ^ 16) 0xff)
  write (bit_and (val / 2 ^ 8) 0xff)
  write (bit_and val 0xff)

unfoldable pub write_bytes : Bytes → Exec Buffer (Unit {0})
write_bytes bytes b =
    let end = b.pos + length bytes in
    if ltb buf_size end
    then (err end_of_buffer, record b { overflow = true })
    else (ok tt, record b { buf = write_list b.buf b.pos bytes; pos = end })

-- `set` does not touch the overflow flag.
unfoldable pub set : ℕ → ℕ → Exec Buffer (Unit {0})
set p val b =
    if leb buf_size p
    then (err end_of_buffer, b)
    else (ok tt, record b { buf = update b.buf p val })

unfoldable pub set_u16 : ℕ → ℕ → Exec Buffer (Unit {0})
set_u16 p val = do set p (val / 2 ^ 8 % 256); set (p + 1) (bit_and val 0xff)

-- A test that runs the buffer names this one definition on its `unfolding` line.
unfoldable pub buffer_runs : Unit {0}
unfolding write_list slice from_bytes filled step seek read get get_range read_u16 read_u32 write
    write_u16 write_u32 write_bytes set set_u16 ◌>>=◌
buffer_runs = tt
