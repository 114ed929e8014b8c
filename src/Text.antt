-- ===== src/Text.antt =====
-- What the program uses of Rust's `str`: a text is the list of its characters, each a Unicode scalar
-- value. The tables of the lower case are the standard library's.
use numa.Prelude.{
  all, is_nil, Bool-cases, ◌||◌, ◌&&◌, not, leb, ◌≡◌, ◌==◌, if◌then◌else◌, any, refl, true, false,
  inl, inr, [], ◌∷◌, List, ℕ, Bool,
}

abbrev pub Text : Type 0
Text = List ℕ

-- `str::to_lowercase`, whose tables are those of Unicode: it gives characters without a lower case
-- other than themselves, and leaves a text of such characters as it is.
pub record Unicode : Type 0 where
  pub to_lowercase : Text → Text
  pub is_lower : ℕ → Bool
  pub lowered : (t : Text) → all is_lower (to_lowercase t) ≡ true
  pub kept : (t : Text) → all is_lower t ≡ true → to_lowercase t ≡ t

-- `char::is_whitespace`
unfoldable pub is_whitespace : ℕ → Bool
is_whitespace c =
    (leb 9 c && leb c 13)
    || (c == 0x20)
    || (c == 0x85)
    || (c == 0xa0)
    || (c == 0x1680)
    || (leb 0x2000 c && leb c 0x200a)
    || (c == 0x2028)
    || (c == 0x2029)
    || (c == 0x202f)
    || (c == 0x205f)
    || (c == 0x3000)

-- `text.starts_with(part)`, the part first.
unfoldable pub starts_with : Text → Text → Bool
starts_with [] text = true
starts_with (x ∷ xs) [] = false
starts_with (x ∷ xs) (y ∷ ys) = (x == y) && starts_with xs ys

-- `str::contains` of a character.
abbrev pub has_char : ℕ → Text → Bool
has_char c text = any (λ x. x == c) text

-- `trim_start_matches` and `trim_end_matches` of the characters that pass a test.
unfoldable pub trim_start : (ℕ → Bool) → Text → Text
trim_start drops [] = []
trim_start drops (c ∷ text) = let rest = trim_start drops text in if drops c then rest else c ∷ text

unfoldable pub trim_end : (ℕ → Bool) → Text → Text
trim_end drops [] = []
trim_end drops (c ∷ text) =
    let rest = trim_end drops text in if drops c && is_nil rest then [] else c ∷ rest

abbrev pub trim : Text → Text
trim text = trim_end is_whitespace (trim_start is_whitespace text)

-- `trim_start_matches` of a text of two characters.
unfoldable pub trim_start_pair : ℕ → ℕ → Text → Text
trim_start_pair a b [] = []
trim_start_pair a b (x ∷ []) = x ∷ []
trim_start_pair a b (x ∷ y ∷ text) =
    let rest = trim_start_pair a b text in if (x == a) && (y == b) then rest else x ∷ y ∷ text

-- `text.split(c).next()`
unfoldable pub before : ℕ → Text → Text
before c [] = []
before c (x ∷ text) = let rest = before c text in if x == c then [] else x ∷ rest

abbrev pub push_front : ℕ → List Text → List Text
push_front x [] = (x ∷ []) ∷ []
push_front x (word ∷ words) = (x ∷ word) ∷ words

-- `str::split` at the characters that pass a test.
unfoldable pub split : (ℕ → Bool) → Text → List Text
split at [] = [] ∷ []
split at (x ∷ text) = let rest = split at text in if at x then [] ∷ rest else push_front x rest

abbrev pub drop_empty : List Text → List Text
drop_empty [] = []
drop_empty (word ∷ words) = let rest = drop_empty words in if is_nil word then rest else word ∷ rest

abbrev pub split_whitespace : Text → List Text
split_whitespace text = drop_empty (split is_whitespace text)

-- `str::lines`: an end of line is a line feed with or without a carriage return before it.
unfoldable pub strip_return : Text → Text
strip_return [] = []
strip_return (c ∷ text) =
    let rest = strip_return text in if (c == 0x0d) && is_nil text then [] else c ∷ rest

-- The part after the last line feed is no line where it is empty, and keeps its carriage return.
unfoldable pub ended_lines : List Text → List Text
ended_lines [] = []
ended_lines (last ∷ []) = if is_nil last then [] else last ∷ []
ended_lines (line ∷ next ∷ more) = let rest = ended_lines (next ∷ more) in strip_return line ∷ rest

abbrev pub lines : Text → List Text
lines text = ended_lines (split (λ c. c == 0x0a) text)

-- The last character of a text, if there is one, passes the test.
abbrev pub EndsIn : (ℕ → Bool) → Text → Type 0
EndsIn keeps [] = Unit
EndsIn keeps (c ∷ []) = keeps c ≡ true
EndsIn keeps (c ∷ d ∷ text) = EndsIn keeps (d ∷ text)

EndsIn-cons :
    (drops : ℕ → Bool) (c : ℕ) (rest : Text)
    → EndsIn (λ x. not (drops x)) rest
    → EndsIn (λ x. not (drops x)) (if drops c && is_nil rest then [] else c ∷ rest)
EndsIn-cons drops c [] h = elim (Bool-cases (drops c)) [
  | inl dropped ↦ rw dropped tt
  | inr kept ↦ rw kept (rw kept refl)
]
EndsIn-cons drops c (d ∷ rest) h = elim (Bool-cases (drops c)) [
  | inl dropped ↦ rw dropped h
  | inr kept ↦ rw kept h
]

pub trim_end-EndsIn :
    (drops : ℕ → Bool) (text : Text) → EndsIn (λ x. not (drops x)) (trim_end drops text)
unfolding trim_end
trim_end-EndsIn drops [] = tt
trim_end-EndsIn drops (c ∷ text) =
    EndsIn-cons drops c (trim_end drops text) (trim_end-EndsIn drops text)
