-- ===== src/Prelude/Lists.antt =====
-- Lists measured and indexed by native numbers, under the library's names.
use Prim.Native.Nat.{ℕ, zero, suc, ◌+◌, ◌-◌, min, ◌≤◌}
use mathlib.Core.Path.{◌≡◌, refl, ap, sym, ◌∙◌}
use mathlib.Core.Logic.{inl, inr}
use numa.Prelude.Tests.{if◌then◌else◌, Bool-cases}
use mathlib.Core.Bool.{Bool, true, false, ◌&&◌, ◌||◌}
use mathlib.Core.List.{List, [], ◌∷◌, ◌++◌}
use mathlib.Core.Option.{Option, none, some}
use native.Mathlib.Omega.{arith}

module _ {ℓ} {A : Type ℓ} where
  abbrev pub length : List A → ℕ
  length [] = 0
  length (x ∷ xs) = suc (length xs)

  abbrev pub is_nil : List A → Bool
  is_nil [] = true
  is_nil (x ∷ xs) = false

  abbrev pub get_elem? : List A → ℕ → Option A
  get_elem? [] i = none
  get_elem? (x ∷ xs) zero = some x
  get_elem? (x ∷ xs) (suc i) = get_elem? xs i

  abbrev pub get_or : List A → ℕ → A → A
  get_or [] i d = d
  get_or (x ∷ xs) zero d = x
  get_or (x ∷ xs) (suc i) d = get_or xs i d

  abbrev pub take : ℕ → List A → List A
  take zero xs = []
  take (suc n) [] = []
  take (suc n) (x ∷ xs) = x ∷ take n xs

  abbrev pub drop : ℕ → List A → List A
  drop zero xs = xs
  drop (suc n) [] = []
  drop (suc n) (x ∷ xs) = drop n xs

  abbrev pub all : (A → Bool) → List A → Bool
  all p [] = true
  all p (x ∷ xs) = p x && all p xs

  abbrev pub any : (A → Bool) → List A → Bool
  any p [] = false
  any p (x ∷ xs) = p x || any p xs

  abbrev pub All {κ} : (A → Type κ) → List A → Type κ
  All P [] = Unit {κ}
  All P (x ∷ xs) = P x × All P xs

  pub length-append : (xs ys : List A) → length (xs ++ ys) ≡ length xs + length ys
  length-append [] ys = omega arith
  length-append (x ∷ xs) ys = omega (arith, length-append xs ys)

module _ {ℓ} {A : Type ℓ} where
  pub take-append-drop : (n : ℕ) (xs : List A) → take n xs ++ drop n xs ≡ xs
  take-append-drop zero xs = refl
  take-append-drop (suc n) [] = refl
  take-append-drop (suc n) (x ∷ xs) = rw (take-append-drop n xs)

  pub length-take : (n : ℕ) (xs : List A) → length (take n xs) ≡ min n (length xs)
  length-take zero xs = omega arith
  length-take (suc n) [] = omega arith
  length-take (suc n) (x ∷ xs) = omega (arith, length-take n xs)

  pub length-drop : (n : ℕ) (xs : List A) → length (drop n xs) ≡ length xs - n
  length-drop zero xs = omega arith
  length-drop (suc n) [] = omega arith
  length-drop (suc n) (x ∷ xs) = omega (arith, length-drop n xs)

  pub All-append {κ} : (P : A → Type κ) (xs ys : List A) → All P xs → All P ys → All P (xs ++ ys)
  All-append P [] ys h k = k
  All-append P (x ∷ xs) ys h k = (h.0, All-append P xs ys h.1 k)

module _ {ℓ} {A : Type ℓ} where
  -- `Vec::retain`
  abbrev pub retain : (A → Bool) → List A → List A
  retain keeps [] = []
  retain keeps (x ∷ xs) = let rest = retain keeps xs in if keeps x then x ∷ rest else rest

  abbrev pub concat : List (List A) → List A
  concat [] = []
  concat (xs ∷ xss) = xs ++ concat xss

  -- Past a front, the list behind it.
  pub get_or-append :
      (front xs : List A) (i n : ℕ) (d : A)
      → n ≡ length front + i
      → get_or (front ++ xs) n d ≡ get_or xs i d
  get_or-append [] xs i n d h =
      ap (λ (m : ℕ). get_or xs m d) (let same : n ≡ i = omega (arith, h) in same)
  get_or-append (y ∷ front) xs i zero d h = absurd (omega (arith, h))
  get_or-append (y ∷ front) xs i (suc n) d h = get_or-append front xs i n d (omega (arith, h))

  pub drop-append :
      (front xs : List A) (i n : ℕ) → n ≡ length front + i → drop n (front ++ xs) ≡ drop i xs
  drop-append [] xs i n h = ap (λ (m : ℕ). drop m xs) (let same : n ≡ i = omega (arith, h) in same)
  drop-append (y ∷ front) xs i zero h = absurd (omega (arith, h))
  drop-append (y ∷ front) xs i (suc n) h = drop-append front xs i n (omega (arith, h))

  pub take-append : (xs ys : List A) (n : ℕ) → n ≡ length xs → take n (xs ++ ys) ≡ xs
  take-append [] ys n h = rw h refl
  take-append (x ∷ xs) ys zero h = absurd (omega (arith, h))
  take-append (x ∷ xs) ys (suc n) h = ap (λ rest. x ∷ rest) (take-append xs ys n (omega (arith, h)))

  pub All-retain {κ} :
      (P : A → Type κ) (keeps : A → Bool) (xs : List A) → All P xs → All P (retain keeps xs)
  All-retain P keeps [] h = tt
  All-retain P keeps (x ∷ xs) h = elim (Bool-cases (keeps x)) [
    | inl kept ↦ rw (kept, All) (h.0, All-retain P keeps xs h.1)
    | inr gone ↦ rw (gone, All) (All-retain P keeps xs h.1)
  ]

  pub get_elem?-append :
      (front xs : List A) (n : ℕ) → n ≡ length front → get_elem? (front ++ xs) n ≡ get_elem? xs 0
  get_elem?-append [] xs n h =
      ap (λ (m : ℕ). get_elem? xs m) (let same : n ≡ 0 = omega (arith, h) in same)
  get_elem?-append (y ∷ front) xs zero h = absurd (omega (arith, h))
  get_elem?-append (y ∷ front) xs (suc n) h = get_elem?-append front xs n (omega (arith, h))

  pub All-of {κ} : (P : A → Type κ) (xs : List A) → ((x : A) → P x) → All P xs
  All-of P [] h = tt
  All-of P (x ∷ xs) h = (h x, All-of P xs h)

  pub length-retain : (keeps : A → Bool) (xs : List A) → length (retain keeps xs) ≤ length xs
  length-retain keeps [] = omega arith
  length-retain keeps (x ∷ xs) = elim (Bool-cases (keeps x)) [
    | inl kept ↦ rw kept (omega (arith, length-retain keeps xs))
    | inr gone ↦ rw gone (omega (arith, length-retain keeps xs))
  ]

  -- What keeps its length keeps every element.
  pub retain_whole :
      (keeps : A → Bool) (xs : List A) → length (retain keeps xs) ≡ length xs → retain keeps xs ≡ xs
  retain_whole keeps [] same = refl
  retain_whole keeps (x ∷ xs) same =
      let size : (t : Bool) → ℕ =
        λ t. length (if t then x ∷ retain keeps xs else retain keeps xs) in
      elim (Bool-cases (keeps x)) [
        | inl kept ↦
            let k : suc (length (retain keeps xs)) ≡ suc (length xs) = ap size (sym kept) ∙ same in
            rw kept (ap (λ rest. x ∷ rest) (retain_whole keeps xs (omega (arith, k))))
        | inr gone ↦
            let k : length (retain keeps xs) ≡ suc (length xs) = ap size (sym gone) ∙ same in
            absurd (omega (arith, k, length-retain keeps xs))
      ]

  pub retain-All : (keeps : A → Bool) (xs : List A) → All (λ x. keeps x ≡ true) (retain keeps xs)
  retain-All keeps [] = tt
  retain-All keeps (x ∷ xs) = elim (Bool-cases (keeps x)) [
    | inl kept ↦ rw (kept, All) (kept, retain-All keeps xs)
    | inr gone ↦ rw (gone, All) (retain-All keeps xs)
  ]
