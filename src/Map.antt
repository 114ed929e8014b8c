-- ===== src/Map.antt =====
-- `HashMap` as a list of entries under distinct keys: the list's order stands for the order of
-- iteration, which Rust leaves open.
pub mod Distinct
use numa.Prelude.{
  refl, zero, suc, subst, All, ℕ, inl, inr, [], ◌∷◌, none, some, true, false, Bool-cases, arith,
  ◌+◌, same_self, ◌=?◌, if◌then◌else◌, length, Option, Bool, ◌≡◌, List, Key,
}

abbrev pub Map {ℓ} : Type ℓ → Type ℓ → Type ℓ
Map K V = List (K × V)

abbrev pub is_some {ℓ} : {A : Type ℓ} → Option A → Bool
is_some none = false
is_some (some a) = true

-- What is under the key, or nothing yet.
abbrev pub get_or_default {ℓ} : {A : Type ℓ} → Option (List A) → List A
get_or_default none = []
get_or_default (some xs) = xs

module _ {ℓ} {K V : Type ℓ} ⦃key : Key K⦄ where
  unfoldable pub get : K → Map K V → Option V
  get k [] = none
  get k (e ∷ m) = if e.0 =? k then some e.1 else get k m

  abbrev pub contains_key : K → Map K V → Bool
  contains_key k m = is_some (get k m)

  -- The value under an old key is replaced.
  unfoldable pub insert : K → V → Map K V → Map K V
  insert k v [] = (k, v) ∷ []
  insert k v (e ∷ m) = if e.0 =? k then (k, v) ∷ m else e ∷ insert k v m

  unfoldable pub remove : K → Map K V → Map K V
  remove k [] = []
  remove k (e ∷ m) = if e.0 =? k then m else e ∷ remove k m

  pub get-insert : (k : K) (v : V) (m : Map K V) → get k (insert k v m) ≡ some v
  unfolding get insert
  get-insert k v [] = rw (same_self k)
  get-insert k v (e ∷ m) = elim (Bool-cases (e.0 =? k)) [
    | inl here ↦ rw here (rw (same_self k))
    | inr later ↦ rw later (rw later (get-insert k v m))
  ]

  pub length-insert :
      (k : K) (v : V) (m : Map K V)
      → length (insert k v m) ≡ length m + (if contains_key k m then 0 else 1)
  unfolding get insert
  length-insert k v [] = omega arith
  length-insert k v (e ∷ m) = ground (arith, length-insert k v m)

  pub length-remove :
      (k : K) (m : Map K V) → length (remove k m) + (if contains_key k m then 1 else 0) ≡ length m
  unfolding get remove
  length-remove k [] = omega arith
  length-remove k (e ∷ m) = ground (arith, length-remove k m)

  -- What holds of every value holds of what is found, and of every value of what is left or made.
  pub All-get :
      (P : V → Type 0) (k : K) (v : V) (m : Map K V) → All (λ e. P e.1) m → get k m ≡ some v → P v
  unfolding get
  All-get P k v [] h found = absurd (ground arith)
  All-get P k v (e ∷ m) h found = elim (Bool-cases (e.0 =? k)) [
    | inl here ↦ subst P (ground arith) h.0
    | inr later ↦ All-get P k v m h.1 (ground arith)
  ]

  pub All-insert :
      (P : V → Type 0) (k : K) (v : V) (m : Map K V)
      → P v
      → All (λ e. P e.1) m
      → All (λ e. P e.1) (insert k v m)
  unfolding insert
  All-insert P k v [] new h = (new, tt)
  All-insert P k v (e ∷ m) new h = elim (Bool-cases (e.0 =? k)) [
    | inl here ↦ rw (here, All) (new, h.1)
    | inr later ↦ rw (later, All) (h.0, All-insert P k v m new h.1)
  ]

  pub All-remove :
      (P : V → Type 0) (k : K) (m : Map K V) → All (λ e. P e.1) m → All (λ e. P e.1) (remove k m)
  unfolding remove
  All-remove P k [] h = tt
  All-remove P k (e ∷ m) h = elim (Bool-cases (e.0 =? k)) [
    | inl here ↦ rw (here, All) h.1
    | inr later ↦ rw (later, All) (h.0, All-remove P k m h.1)
  ]

-- The entries of a map of maps.
module _ {ℓ} {K L V : Type ℓ} ⦃key : Key K⦄ where
  unfoldable pub total : Map K (Map L V) → ℕ
  total [] = 0
  total (e ∷ m) = length e.1 + total m

  pub total-insert :
      (k : K) (inner : Map L V) (m : Map K (Map L V))
      → total (insert k inner m) + length (get_or_default (get k m)) ≡ total m + length inner
  unfolding get insert total
  total-insert k inner [] = omega arith
  total-insert k inner (e ∷ m) = ground (arith, total-insert k inner m)

  pub total-remove :
      (k : K) (m : Map K (Map L V))
      → total (remove k m) + length (get_or_default (get k m)) ≡ total m
  unfolding get remove total
  total-remove k [] = omega arith
  total-remove k (e ∷ m) = ground (arith, total-remove k m)
