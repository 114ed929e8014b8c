-- ===== src/Blocklist/Words.antt =====
-- The domains that the words of a line name.
use numa.Blocklist.{localdomain, localhost, is_valid, insert_if_valid, insert_aliases}
use numa.Prelude.{
  ◌++◌, subst, if◌then◌else◌, ◌∙◌, same_self, bytes_key, is_nil, ◌↔◌, sym, Bool-cases, arith, ◌||◌,
  ap, List, ◌≡◌, ◌=?◌, refl, true, false, inl, inr, [], ◌∷◌,
}
use numa.Set.{has-add, has}
use numa.Domain.Normal.{normalize_twice}
use numa.Blocklist.Loads.{IsRule}
use numa.Domain.{normalize}
use numa.Text.{has_char, Text, Unicode}
use mathlib.Core.List.{Memᴰ}

module _ ⦃unicode : Unicode⦄ where
  differs : (x y : Text) → (x =? y) ≡ false → ¬ (x ≡ y)
  differs x y h same =
      let k : true ≡ false = sym (same_self y) ∙ sym (ap (λ t. t =? y) same) ∙ h in cc

  unequal : (x y : Text) → ¬ (x ≡ y) → (x =? y) ≡ false
  unequal x y h = elim (Bool-cases (x =? y)) [
    | inl same ↦ absurd (h ((bytes_key.same_iff x y).0 same))
    | inr other ↦ other
  ]

  dotted_filled : (d : Text) → has_char b'.' d ≡ true → is_nil d ≡ false
  dotted_filled [] h = absurd cc
  dotted_filled (c ∷ d) h = refl

  pub is_valid-IsRule : (raw : Text) → is_valid (normalize raw) ≡ true → IsRule (normalize raw)
  unfolding is_valid
  is_valid-IsRule raw h = record {
    normal = normalize_twice raw;
    dotted = ground (arith, h);
    not_localhost = differs (normalize raw) localhost (ground (arith, h));
    not_localdomain =
        differs (normalize raw) (localhost ++ (b'.' ∷ localdomain)) (ground (arith, h));
  }

  IsRule-is_valid : (d : Text) → IsRule d → is_valid d ≡ true
  unfolding is_valid
  IsRule-is_valid d h = ground (
    arith,
    dotted_filled d h.dotted,
    h.dotted,
    unequal d localhost h.not_localhost,
    unequal d (localhost ++ (b'.' ∷ localdomain)) h.not_localdomain,
  )

  pub has-insert_if_valid :
      (d raw : Text) (set : List Text)
      → has d (insert_if_valid raw set) ≡ has d (insert_if_valid raw []) || has d set
  unfolding insert_if_valid has
  has-insert_if_valid d raw set = elim (Bool-cases (is_valid (normalize raw))) [
    | inl valid ↦ rw valid (ground (arith, has-add d (normalize raw) set))
    | inr refused ↦ rw refused refl
  ]

  pub has-insert_aliases :
      (d : Text) (words set : List Text)
      → has d (insert_aliases words set) ≡ has d (insert_aliases words []) || has d set
  unfolding insert_aliases has
  has-insert_aliases d [] set = refl
  has-insert_aliases d (word ∷ words) set = ground (
    arith,
    has-insert_aliases d words (insert_if_valid word set),
    has-insert_aliases d words (insert_if_valid word []),
    has-insert_if_valid d word set,
  )

  -- A word gives its normal form, where that is a rule.
  abbrev pub Names : Text → Text → Type 0
  Names raw d = IsRule d × (normalize raw ≡ d)

  pub insert_if_valid-Names : (raw d : Text) → (has d (insert_if_valid raw []) ≡ true) ↔ Names raw d
  unfolding insert_if_valid has
  insert_if_valid-Names raw d = (
    λ h. elim (Bool-cases (is_valid (normalize raw))) [
      | inl valid ↦
          let found : has d (normalize raw ∷ []) ≡ true =
            sym (ap (λ t. has d (if t then normalize raw ∷ [] else [])) valid) ∙ h in
          let same : normalize raw ≡ d =
            (bytes_key.same_iff (normalize raw) d).0 (ground (arith, found)) in
          (subst IsRule same (is_valid-IsRule raw valid), same)
      | inr refused ↦ absurd (
          let k : false ≡ true =
            sym (ap (λ t. has d (if t then normalize raw ∷ [] else [])) refused) ∙ h in
          cc)
    ],
    λ (is_rule, same).
        let valid : is_valid (normalize raw) ≡ true =
          ap is_valid same ∙ IsRule-is_valid d is_rule in
        let here : (normalize raw =? d) ≡ true = (bytes_key.same_iff (normalize raw) d).1 same in
        rw valid (rw here refl),
  )

  pub insert_aliases-Names :
      (words : List Text) (d : Text)
      → has d (insert_aliases words []) ≡ true
      → (word : Text) × Memᴰ word words × Names word d
  unfolding insert_aliases has
  insert_aliases-Names [] d h = absurd cc
  insert_aliases-Names (word ∷ words) d h = elim (Bool-cases (has d (insert_if_valid word []))) [
    | inl here ↦ (word, Memᴰ.head refl, (insert_if_valid-Names word d).0 here)
    | inr other ↦
        let later : has d (insert_aliases words []) ≡ true =
          ground (arith, h, has-insert_aliases d words (insert_if_valid word []), other) in
        let (w, inside, names) = insert_aliases-Names words d later in (w, Memᴰ.tail inside, names)
  ]

  pub Names-insert_aliases :
      (words : List Text) (d word : Text)
      → Memᴰ word words
      → Names word d
      → has d (insert_aliases words []) ≡ true
  unfolding insert_aliases
  Names-insert_aliases [] d w inside names = elim inside [ ]
  Names-insert_aliases (word ∷ words) d w (Memᴰ.head same) names =
      let here : has d (insert_if_valid word []) ≡ true =
        (insert_if_valid-Names word d).1 (names.0, ap normalize (sym same) ∙ names.1) in
      ground (arith, has-insert_aliases d words (insert_if_valid word []), here)
  Names-insert_aliases (word ∷ words) d w (Memᴰ.tail inside) names =
      let later : has d (insert_aliases words []) ≡ true =
        Names-insert_aliases words d w inside names in
      ground (arith, has-insert_aliases d words (insert_if_valid word []), later)
