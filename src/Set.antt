-- ===== src/Set.antt =====
-- `HashSet` as a list of its elements, in the order of iteration, which Rust leaves open.
use numa.Prelude.{
  arith, ◌∙◌, sym, subst, ap, ◌&&◌, Bool-cases, not, ◌||◌, ◌≡◌, ◌=?◌, if◌then◌else◌, Key, refl,
  true, false, inl, inr, [], ◌∷◌, List, Bool,
}

module _ {ℓ} {K : Type ℓ} ⦃key : Key K⦄ where
  unfoldable pub has : K → List K → Bool
  has k [] = false
  has k (e ∷ s) = (e =? k) || has k s

  -- `HashSet::insert`; what it returns is `not (has k s)` of the set before.
  abbrev pub add : K → List K → List K
  add k s = if has k s then s else k ∷ s

  -- `HashSet::remove`; what it returns is `has k s` of the set before.
  unfoldable pub delete : K → List K → List K
  delete k [] = []
  delete k (e ∷ s) = let rest = delete k s in if e =? k then rest else e ∷ rest

  same_key : (k l : K) → (k =? l) ≡ true → k ≡ l
  same_key k l h = (key.same_iff k l).0 h

  pub has_same : (j k : K) (s : List K) → (k =? j) ≡ true → has j s ≡ has k s
  has_same j k s h = ap (λ x. has x s) (sym (same_key k j h))

  pub has-add : (j k : K) (s : List K) → has j (add k s) ≡ (k =? j) || has j s
  unfolding has
  has-add j k s = elim (Bool-cases (has k s)) [
    | inl old ↦ elim (Bool-cases (k =? j)) [
      | inl same ↦ rw (old, same) (subst (λ x. has x s ≡ true) (same_key k j same) old)
      | inr other ↦ rw (old, other) refl
    ]
    | inr new ↦ rw new refl
  ]

  pub has-delete : (j k : K) (s : List K) → has j (delete k s) ≡ not (k =? j) && has j s
  unfolding has delete
  has-delete j k [] = ground arith
  has-delete j k (e ∷ s) = elim (Bool-cases (e =? k)) [
    | inl gone ↦
        let same : (e =? j) ≡ (k =? j) = ap (λ x. x =? j) (same_key e k gone) in
        ground (arith, same, gone, has-delete j k s)
    | inr kept ↦ elim (Bool-cases (k =? j)) [
      | inl same ↦
          let other : (e =? j) ≡ false = ap (λ x. e =? x) (sym (same_key k j same)) ∙ kept in
          ground (arith, other, kept, same, has-delete j k s)
      | inr differs ↦ ground (arith, kept, differs, has-delete j k s)
    ]
  ]
