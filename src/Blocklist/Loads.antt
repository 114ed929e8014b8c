-- ===== src/Blocklist/Loads.antt =====
-- What one line of a blocklist loads, as a relation.
use numa.Prelude.{
  bytes_key, is_nil, ap, ap₂, ◌∙◌, sym, ◌==◌, Bool-cases, arith, ◌⊎◌, ◌↔◌, ◌++◌, List, ◌≡◌, refl,
  true, false, inl, inr, [], ◌∷◌,
}
use numa.Blocklist.{
  is_skipped, is_hosts_line, localdomain, hosts_v6, localhost, hosts_loopback, hosts_zero,
}
use numa.Text.{
  trim_start_pair, trim_end, before, has_char, split_whitespace, Unicode, Text, starts_with,
}
use numa.Domain.{normalize}
use mathlib.Core.List.{Memᴰ}

abbrev pub Begins : Text → Text → Type 0
Begins part text = (rest : Text) × (text ≡ part ++ rest)

starts_with-Begins : (part text : Text) → (starts_with part text ≡ true) ↔ Begins part text
unfolding starts_with
starts_with-Begins part text = (begins part text, begun part text)
  where
    begins : (part text : Text) → starts_with part text ≡ true → Begins part text
    begins [] text h = (text, refl)
    begins (x ∷ part) [] h = absurd cc
    begins (x ∷ part) (y ∷ text) h = elim (Bool-cases (x == y)) [
      | inl same ↦
          let later : starts_with part text ≡ true = sym (rw same refl) ∙ h in
          let (rest, parts) = begins part text later in
          let k : x ≡ y = ground (arith, same) in (rest, ap₂ (λ c t. c ∷ t) (sym k) parts)
      | inr other ↦ absurd (let k : false ≡ true = sym (rw other refl) ∙ h in cc)
    ]

    begun_itself : (part rest : Text) → starts_with part (part ++ rest) ≡ true
    begun_itself [] rest = refl
    begun_itself (x ∷ part) rest = ground (arith, begun_itself part rest)

    begun : (part text : Text) → Begins part text → starts_with part text ≡ true
    begun part text (rest, parts) = ap (starts_with part) parts ∙ begun_itself part rest

-- A line with an address that blocks.
abbrev pub IsHosts : Text → Type 0
IsHosts line = Begins hosts_zero line ⊎ Begins hosts_loopback line ⊎ Begins hosts_v6 line

-- Neither empty nor a comment.
abbrev pub IsRead : Text → Type 0
IsRead line = ¬ (line ≡ []) × ¬ Begins (b'#' ∷ []) line × ¬ Begins (b'!' ∷ []) line

no_start : (part text : Text) → starts_with part text ≡ false → ¬ Begins part text
no_start part text h begins =
    let k : true ≡ false = sym ((starts_with-Begins part text).1 begins) ∙ h in cc

not_begun : (part text : Text) → ¬ Begins part text → starts_with part text ≡ false
not_begun part text h = elim (Bool-cases (starts_with part text)) [
  | inl yes_it ↦ absurd (h ((starts_with-Begins part text).0 yes_it))
  | inr other ↦ other
]

filled_line : (t : Text) → is_nil t ≡ false → ¬ (t ≡ [])
filled_line t h same = let k : true ≡ false = sym (ap (λ x. is_nil x) same) ∙ h in cc

line_filled : (t : Text) → ¬ (t ≡ []) → is_nil t ≡ false
line_filled [] h = absurd (h refl)
line_filled (c ∷ t) h = refl

pub is_skipped-IsRead : (line : Text) → is_skipped line ≡ false → IsRead line
unfolding is_skipped
is_skipped-IsRead line h = (
  filled_line line (ground (arith, h)),
  no_start (b'#' ∷ []) line (ground (arith, h)),
  no_start (b'!' ∷ []) line (ground (arith, h)),
)

pub IsRead-is_skipped : (line : Text) → IsRead line → is_skipped line ≡ false
unfolding is_skipped
IsRead-is_skipped line h =
    ground
      (arith, line_filled line h.0, not_begun (b'#' ∷ []) line h.1, not_begun (b'!' ∷ []) line h.2)

pub is_hosts_line-IsHosts : (line : Text) → (is_hosts_line line ≡ true) ↔ IsHosts line
unfolding is_hosts_line
is_hosts_line-IsHosts line = (
  λ h. elim (Bool-cases (starts_with hosts_zero line)) [
    | inl zero_it ↦ inl ((starts_with-Begins hosts_zero line).0 zero_it)
    | inr not_zero ↦ elim (Bool-cases (starts_with hosts_loopback line)) [
      | inl loop_it ↦ inr (inl ((starts_with-Begins hosts_loopback line).0 loop_it))
      | inr not_loop ↦
          inr (inr ((starts_with-Begins hosts_v6 line).0 (ground (arith, h, not_zero, not_loop))))
    ]
  ],
  λ h. elim h [
    | inl z ↦ ground (arith, (starts_with-Begins hosts_zero line).1 z)
    | inr (inl l) ↦ ground (arith, (starts_with-Begins hosts_loopback line).1 l)
    | inr (inr v) ↦ ground (arith, (starts_with-Begins hosts_v6 line).1 v)
  ],
)

module _ ⦃unicode : Unicode⦄ where
  -- A domain that is normal, has a dot and does not name the host itself.
  pub record IsRule (d : Text) : Type 0 where
    pub normal : normalize d ≡ d
    pub dotted : has_char b'.' d ≡ true
    pub not_localhost : ¬ (d ≡ localhost)
    pub not_localdomain : ¬ (d ≡ localhost ++ (b'.' ∷ localdomain))

  -- A line gives a domain: as one of the words between the first one and a comment, in the line of an
  -- address; or as all of the line, without what marks it as a filter, where that is one word.
  pub data Loads (line d : Text) : Type 0 where
    hosts :
        {first word : Text} {words : List Text}
        → IsRead line
        → IsHosts line
        → split_whitespace (before b'#' line) ≡ first ∷ words
        → Memᴰ word words
        → normalize word ≡ d
        → Loads line d
    rule :
        IsRead line
        → ¬ IsHosts line
        → has_char b' ' line ≡ false
        → has_char 9 line ≡ false
        → normalize (
            trim_end
              (λ c. c == b'^')
              (before b'$' (trim_start_pair b'|' b'|' (trim_start_pair b'*' b'.' line))))
          ≡ d
        → Loads line d
