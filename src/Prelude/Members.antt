-- ===== src/Prelude/Members.antt =====
-- Members of a list that pass a test.
use mathlib.Core.Bool.{Bool, true, false, ◌||◌}
use mathlib.Core.List.{List, [], ◌∷◌, Memᴰ}
use mathlib.Core.Logic.{inl, inr}
use mathlib.Core.Path.{◌≡◌, refl, sym, ap, ◌∙◌}
use numa.Prelude.Lists.{any}
use numa.Prelude.Tests.{Bool-cases}

module _ {A : Type 0} (test : A → Bool) where
  pub any-Mem : (xs : List A) → any test xs ≡ true → (x : A) × Memᴰ x xs × (test x ≡ true)
  any-Mem [] h = absurd cc
  any-Mem (x ∷ xs) h = elim (Bool-cases (test x)) [
    | inl here ↦ (x, Memᴰ.head refl, here)
    | inr more ↦
        let later : any test xs ≡ true = sym (ap (λ t. t || any test xs) more) ∙ h in
        let (y, inside, passed) = any-Mem xs later in (y, Memᴰ.tail inside, passed)
  ]

  first_passes : (t : Bool) (xs : List A) → t ≡ true → t || any test xs ≡ true
  first_passes true xs h = refl
  first_passes false xs h = absurd cc

  later_passes : (t : Bool) (xs : List A) → any test xs ≡ true → t || any test xs ≡ true
  later_passes true xs h = refl
  later_passes false xs h = h

  pub Mem-any : (x : A) (xs : List A) → Memᴰ x xs → test x ≡ true → any test xs ≡ true
  Mem-any x [] inside h = elim inside [ ]
  Mem-any x (y ∷ xs) (Memᴰ.head same) h = first_passes (test y) xs (sym (ap test same) ∙ h)
  Mem-any x (y ∷ xs) (Memᴰ.tail inside) h = later_passes (test y) xs (Mem-any x xs inside h)
