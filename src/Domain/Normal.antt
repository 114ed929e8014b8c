-- ===== src/Domain/Normal.antt =====
-- Normal forms of domain names.
use numa.Prelude.{
  is_nil, ◌&&◌, if◌then◌else◌, Bool-cases, not, arith, ◌∙◌, ap, all, ◌≡◌, refl, true, inl, inr, [],
  ◌∷◌, ℕ, Bool,
}
use numa.Text.{trim_end-EndsIn, EndsIn, trim_end, Text, Unicode}
use numa.Domain.{normalize, is_dot}

all-trim_end :
    (keeps drops : ℕ → Bool) (t : Text) → all keeps t ≡ true → all keeps (trim_end drops t) ≡ true
unfolding trim_end
all-trim_end keeps drops [] h = refl
all-trim_end keeps drops (c ∷ t) h = ground (arith, h, all-trim_end keeps drops t)

trim_end_kept : (drops : ℕ → Bool) (t : Text) → EndsIn (λ x. not (drops x)) t → trim_end drops t ≡ t
unfolding trim_end
trim_end_kept drops [] h = refl
trim_end_kept drops (c ∷ []) h = elim (Bool-cases (drops c)) [
  | inl dropped ↦ absurd (ground (arith, h, dropped))
  | inr keeps ↦ rw keeps refl
]
trim_end_kept drops (c ∷ d ∷ t) h =
    let rest : trim_end drops (d ∷ t) ≡ d ∷ t = trim_end_kept drops (d ∷ t) h in
    let body : (kept : Text) → Text = λ kept. if drops c && is_nil kept then [] else c ∷ kept in
    ap body rest
    ∙ (elim (Bool-cases (drops c)) [ inl dropped ↦ rw dropped refl | inr keeps ↦ rw keeps refl ])

module _ ⦃unicode : Unicode⦄ where
  pub normalize_twice : (d : Text) → normalize (normalize d) ≡ normalize d
  unfolding normalize
  normalize_twice d =
      let low : Text = unicode.to_lowercase d in
      ap (trim_end is_dot) (
        unicode.kept (trim_end is_dot low)
          (all-trim_end unicode.is_lower is_dot low (unicode.lowered d)))
      ∙ trim_end_kept is_dot (trim_end is_dot low) (trim_end-EndsIn is_dot low)
