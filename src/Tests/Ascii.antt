-- ===== src/Tests/Ascii.antt =====
-- A table of the lower case that knows the ASCII letters, and a few names.
use numa.Prelude.{◌&&◌, arith, leb, ap₂, not, all, ◌≡◌, map, refl, true, [], ◌∷◌, ℕ, Bool}
use numa.Text.{Text, Unicode}
use numa.Buffer.Name.{to_ascii_lowercase}

abbrev pub is_small : ℕ → Bool
is_small c = not (leb b'A' c && leb c b'Z')

pub small_text : (t : Text) → all is_small (map to_ascii_lowercase t) ≡ true
small_text [] = refl
small_text (c ∷ t) = ground (arith, small_text t)

lower_kept : (c : ℕ) → is_small c ≡ true → to_ascii_lowercase c ≡ c
lower_kept c h = ground arith

pub small_kept : (t : Text) → all is_small t ≡ true → map to_ascii_lowercase t ≡ t
small_kept [] h = refl
small_kept (c ∷ t) h =
    ap₂ (λ x xs. x ∷ xs) (lower_kept c (ground (arith, h))) (small_kept t (ground (arith, h)))

-- The table of the ASCII letters.
instance abbrev pub ascii : Unicode
ascii = record {
  to_lowercase = map to_ascii_lowercase;
  is_lower = is_small;
  lowered = small_text;
  kept = small_kept;
}

-- "a.b", "x.a.b", "xa.b" and "X.A.B."
abbrev pub ab : Text
ab = b'a' ∷ b'.' ∷ b'b' ∷ []

abbrev pub x_ab : Text
x_ab = b'x' ∷ b'.' ∷ ab

abbrev pub xab : Text
xab = b'x' ∷ ab

abbrev pub x_ab_upper : Text
x_ab_upper = b'X' ∷ b'.' ∷ b'A' ∷ b'.' ∷ b'B' ∷ b'.' ∷ []
