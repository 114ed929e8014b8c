-- ===== src/Map/Distinct.antt =====
-- Maps whose keys differ, as every `HashMap`'s do.
use numa.Prelude.{
  same_comm, if◌then◌else◌, sym, ap, ◌∙◌, ◌≡◌, retain, Bool-cases, Option, ◌=?◌, refl, true, false,
  none, some, inl, inr, [], ◌∷◌, Bool, Key,
}
use numa.Map.{Map, get, insert}

-- A value where it passes a test.
abbrev pub only_if {ℓ} : {V : Type ℓ} → (V → Bool) → Option V → Option V
only_if keeps none = none
only_if keeps (some v) = if keeps v then some v else none

module _ {K V : Type 0} ⦃key : Key K⦄ where
  abbrev pub Distinct : Map K V → Type 0
  Distinct [] = Unit
  Distinct (e ∷ m) = (get e.0 m ≡ none) × Distinct m

  same_get : (j k : K) (m : Map K V) → (j =? k) ≡ true → get j m ≡ get k m
  same_get j k m h = ap (λ x. get x m) ((key.same_iff j k).0 h)

  pub get-insert_other :
      (j k : K) (v : V) (m : Map K V) → (k =? j) ≡ false → get j (insert k v m) ≡ get j m
  unfolding get insert
  get-insert_other j k v [] other = rw other refl
  get-insert_other j k v (e ∷ m) other = elim (Bool-cases (e.0 =? k)) [
    | inl here ↦
        let differs : (e.0 =? j) ≡ false = ap (λ x. x =? j) ((key.same_iff e.0 k).0 here) ∙ other in
        rw (here, other, differs) refl
    | inr later ↦ elim (Bool-cases (e.0 =? j)) [
      | inl found ↦ rw (later, found) refl
      | inr more ↦ rw (later, more) (get-insert_other j k v m other)
    ]
  ]

  pub get-retain :
      (keeps : V → Bool) (k : K) (m : Map K V)
      → Distinct m
      → get k (retain (λ e. keeps e.1) m) ≡ only_if keeps (get k m)
  unfolding get
  get-retain keeps k [] h = refl
  get-retain keeps k (e ∷ m) h = elim (Bool-cases (e.0 =? k)) [
    | inl here ↦ elim (Bool-cases (keeps e.1)) [
      | inl kept ↦ rw (kept, here, kept) refl
      | inr gone ↦
          let missing : get k m ≡ none = sym (same_get e.0 k m here) ∙ h.0 in
          rw (gone, here, gone) (get-retain keeps k m h.1 ∙ ap (only_if keeps) missing)
    ]
    | inr other ↦ elim (Bool-cases (keeps e.1)) [
      | inl kept ↦ rw (kept, other) (get-retain keeps k m h.1)
      | inr gone ↦ rw (gone, other) (get-retain keeps k m h.1)
    ]
  ]

  pub Distinct-insert : (k : K) (v : V) (m : Map K V) → Distinct m → Distinct (insert k v m)
  unfolding get insert
  Distinct-insert k v [] h = (refl, tt)
  Distinct-insert k v (e ∷ m) h = elim (Bool-cases (e.0 =? k)) [
    | inl here ↦ rw (here, Distinct) (sym (same_get e.0 k m here) ∙ h.0, h.1)
    | inr other ↦
        rw (other, Distinct)
          (get-insert_other e.0 k v m (same_comm k e.0 ∙ other) ∙ h.0, Distinct-insert k v m h.1)
  ]

  pub Distinct-retain :
      (keeps : V → Bool) (m : Map K V) → Distinct m → Distinct (retain (λ e. keeps e.1) m)
  Distinct-retain keeps [] h = tt
  Distinct-retain keeps (e ∷ m) h = elim (Bool-cases (keeps e.1)) [
    | inl kept ↦
        rw (kept, Distinct)
          (get-retain keeps e.0 m h.1 ∙ ap (only_if keeps) h.0, Distinct-retain keeps m h.1)
    | inr gone ↦ rw (gone, Distinct) (Distinct-retain keeps m h.1)
  ]
