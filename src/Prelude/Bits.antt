-- ===== src/Prelude/Bits.antt =====
-- `|`, `&` and the shifts of fixed-width words as arithmetic, at every width, from the recursion on
-- binary digits that the native operations stand for.
use numa.Prelude.Tests.{◌==◌, ==_iff}
use Prim.Native.Nat.{
  ℕ, zero, suc, ◌+◌, ◌*◌, ◌/◌, ◌%◌, ◌^◌, ◌<◌, ◌≤◌, min, max, bit_and, bit_or, bit_xor, digits,
  bit_and-bitwise, bit_or-bitwise,
}
use mathlib.Core.Path.{◌≡◌, refl, ap, ap₂, ◌∙◌}
use mathlib.Core.Bool.{Bool, true, false, ◌&&◌}
use native.Mathlib.Omega.{arith}
use native.Mathlib.Nat.{pow-suc}

-- A test passed by every number under a bound, from the highest down.
unfoldable pub all_below : ℕ → (ℕ → Bool) → Bool
all_below zero test = true
all_below (suc top) test = elim (test top) [ true ↦ all_below top test | false ↦ false ]

pub all_below_sound :
    (bound : ℕ) (test : ℕ → Bool) (k : ℕ) → all_below bound test ≡ true → k < bound → test k ≡ true
unfolding all_below
all_below_sound (suc top) test k passed inside = ground (arith, all_below_sound top test k)
all_below_sound zero test k passed inside = absurd (omega arith)

unfoldable pub all_bools : (Bool → Bool) → Bool
all_bools p = p true && p false

pub all_bools_sound : (p : Bool → Bool) → all_bools p ≡ true → (b : Bool) → p b ≡ true
unfolding all_bools
all_bools_sound p h true = ground arith
all_bools_sound p h false = ground arith

-- The fuel of `digits` is of no account once it covers the left operand.
module _ (rest : ℕ → ℕ) (op : ℕ → ℕ → ℕ) where
  digits_enough : (a b n m : ℕ) → a ≤ n → a ≤ m → digits rest op n a b ≡ digits rest op m a b
  digits_enough a b zero zero hn hm = refl
  digits_enough zero b zero (suc m) hn hm = refl
  digits_enough zero b (suc n) zero hn hm = refl
  digits_enough zero b (suc n) (suc m) hn hm = refl
  digits_enough (suc a) b zero (suc m) hn hm = absurd (omega arith)
  digits_enough (suc a) b (suc n) zero hn hm = absurd (omega arith)
  digits_enough (suc a) b (suc n) (suc m) hn hm =
      rw (digits_enough (suc a / 2) (b / 2) n m (omega arith) (omega arith))

or_low_digit : (x y : ℕ) → bit_or x y ≡ max (x % 2) (y % 2) + 2 * bit_or (x / 2) (y / 2)
or_low_digit zero b = omega (arith, bit_or-bitwise 0 b, bit_or-bitwise 0 (b / 2))
or_low_digit (suc a) b = omega (
  arith,
  bit_or-bitwise (suc a) b,
  bit_or-bitwise (suc a / 2) (b / 2),
  digits_enough (λ y. y) max (suc a / 2) (b / 2) a (suc a / 2) (omega arith) (omega arith),
)

and_low_digit : (x y : ℕ) → bit_and x y ≡ min (x % 2) (y % 2) + 2 * bit_and (x / 2) (y / 2)
and_low_digit zero b = omega (arith, bit_and-bitwise 0 b, bit_and-bitwise 0 (b / 2))
and_low_digit (suc a) b = omega (
  arith,
  bit_and-bitwise (suc a) b,
  bit_and-bitwise (suc a / 2) (b / 2),
  digits_enough (λ y. 0) min (suc a / 2) (b / 2) a (suc a / 2) (omega arith) (omega arith),
)

or_zero_below : (n a : ℕ) → a < n → bit_or a 0 ≡ a
or_zero_below zero a h = absurd (omega arith)
or_zero_below (suc n) zero h = refl
or_zero_below (suc n) (suc a) h =
    omega (arith, or_low_digit (suc a) 0, or_zero_below n (suc a / 2) (omega arith))

and_zero_below : (n a : ℕ) → a < n → bit_and a 0 ≡ 0
and_zero_below zero a h = absurd (omega arith)
and_zero_below (suc n) zero h = refl
and_zero_below (suc n) (suc a) h =
    omega (arith, and_low_digit (suc a) 0, and_zero_below n (suc a / 2) (omega arith))

times_two_pow : (x k : ℕ) → x * 2 ^ suc k ≡ x * 2 ^ k * 2
times_two_pow x k = omega (arith, ap (λ (p : ℕ). x * p) (pow-suc 2 k))

-- `(x << k) | y` adds, where `y` has at most `k` bits.
pub or_shifted : (k x y : ℕ) → y < 2 ^ k → bit_or (x * 2 ^ k) y ≡ x * 2 ^ k + y
or_shifted zero x y h = ground (arith, or_zero_below (suc x) x)
or_shifted (suc k) x y h = ground (
  arith,
  times_two_pow x k,
  pow-suc 2 k,
  or_low_digit (x * 2 ^ suc k) y,
  or_shifted k x (y / 2) (omega (arith, pow-suc 2 k)),
)

and_ones_step : (x m : ℕ) → bit_and x (2 * m + 1) ≡ x % 2 + 2 * bit_and (x / 2) m
and_ones_step x m =
    and_low_digit x (2 * m + 1)
    ∙ ap₂ (λ (p q : ℕ). q + 2 * bit_and (x / 2) p) {x = (2 * m + 1) / 2} {y = m}
        {u = min (x % 2) ((2 * m + 1) % 2)} {v = x % 2} (omega arith) (omega arith)

-- The low bit of a word.
pub low_bit : (x : ℕ) → bit_and x 1 ≡ x % 2
low_bit x = omega (arith, and_ones_step x 0, and_zero_below (suc (x / 2)) (x / 2) (omega arith))

-- The low byte of a word.
pub low_byte : (x : ℕ) → bit_and x 0xff ≡ x % 256
low_byte x = omega (
  arith,
  and_ones_step x 127,
  and_ones_step (x / 2) 63,
  and_ones_step (x / 2 / 2) 31,
  and_ones_step (x / 2 / 2 / 2) 15,
  and_ones_step (x / 2 / 2 / 2 / 2) 7,
  and_ones_step (x / 2 / 2 / 2 / 2 / 2) 3,
  and_ones_step (x / 2 / 2 / 2 / 2 / 2 / 2) 1,
  and_ones_step (x / 2 / 2 / 2 / 2 / 2 / 2 / 2) 0,
  and_zero_below (suc (x / 2 / 2 / 2 / 2 / 2 / 2 / 2 / 2)) (x / 2 / 2 / 2 / 2 / 2 / 2 / 2 / 2)
      (omega arith),
)

low_word_step : (x : ℕ) → bit_and x 0xffff ≡ bit_and (x / 256) 0xff * 256 + x % 256
low_word_step x = omega (
  arith,
  and_ones_step x 32767,
  and_ones_step (x / 2) 16383,
  and_ones_step (x / 2 / 2) 8191,
  and_ones_step (x / 2 / 2 / 2) 4095,
  and_ones_step (x / 2 / 2 / 2 / 2) 2047,
  and_ones_step (x / 2 / 2 / 2 / 2 / 2) 1023,
  and_ones_step (x / 2 / 2 / 2 / 2 / 2 / 2) 511,
  and_ones_step (x / 2 / 2 / 2 / 2 / 2 / 2 / 2) 255,
  eighth x,
)
  where
    eighth : (y : ℕ) → bit_and (y / 2 / 2 / 2 / 2 / 2 / 2 / 2 / 2) 0xff ≡ bit_and (y / 256) 0xff
    eighth y =
        ap (λ (z : ℕ). bit_and z 0xff) {x = y / 2 / 2 / 2 / 2 / 2 / 2 / 2 / 2} {y = y / 256}
          (omega arith)

-- The low sixteen bits of a word.
pub low_word : (x : ℕ) → bit_and x 0xffff ≡ x % 65536
low_word x = omega (arith, low_word_step x, low_byte (x / 256))

-- The two top bits of a length byte.
pub top_two_bits : (b : ℕ) → b < 256 → bit_and b 0xc0 ≡ b / 64 * 64
unfolding all_below
top_two_bits b h =
    (==_iff _ _).0 (all_below_sound 256 (λ x. bit_and x 0xc0 == x / 64 * 64) b refl h)

-- A pointer's first byte without its mark.
pub pointer_high_bits : (y : ℕ) → y < 64 → bit_xor (y + 192) 0xc0 ≡ y
unfolding all_below
pointer_high_bits y h =
    (==_iff _ _).0 (all_below_sound 64 (λ x. bit_xor (x + 192) 0xc0 == x) y refl h)
