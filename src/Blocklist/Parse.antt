-- ===== src/Blocklist/Parse.antt =====
-- What the parser of blocklists loads.
use numa.Blocklist.Words.{
  Names, insert_aliases-Names, insert_if_valid-Names, Names-insert_aliases, has-insert_if_valid,
  is_valid-IsRule, has-insert_aliases,
}
use numa.Text.{before, split_whitespace, lines, has_char, trim, Unicode, Text}
use numa.Blocklist.Loads.{
  is_skipped-IsRead, IsRead, is_hosts_line-IsHosts, IsRead-is_skipped, Loads, IsRule,
}
use numa.Prelude.{
  ◌∙◌, Mem-any, ap, if◌then◌else◌, sym, any-Mem, bytes_key, arith, subst, any, Bool, ◌||◌, ◌↔◌, ◌≡◌,
  Bool-cases, drop, All, List, refl, true, false, inl, inr, [], ◌∷◌,
}
use numa.Blocklist.{
  filter_domain, is_hosts_line, is_valid, aliases, is_skipped, parse_line, insert_if_valid,
  parse_lines, insert_aliases, parse_blocklist,
}
use numa.Domain.{normalize}
use numa.Set.{has}
use mathlib.Core.List.{Memᴰ}

after_first :
    (word : Text) (words : List Text)
    → Memᴰ word (drop 1 words)
    → (first : Text) × (rest : List Text) × (words ≡ first ∷ rest) × Memᴰ word rest
after_first word [] inside = elim inside [ ]
after_first word (first ∷ rest) inside = (first, rest, refl, inside)

module _ ⦃unicode : Unicode⦄ where
  has-parse_line :
      (d line : Text) (set : List Text)
      → has d (parse_line line set) ≡ has d (parse_line line []) || has d set
  unfolding parse_line has
  has-parse_line d line set =
      let l : Text = trim line in
      ground
        (arith, has-insert_aliases d (aliases l) set, has-insert_if_valid d (filter_domain l) set)

  has-parse_lines :
      (d : Text) (ls set : List Text)
      → has d (parse_lines ls set) ≡ any (λ line. has d (parse_line line [])) ls || has d set
  unfolding parse_lines
  has-parse_lines d [] set = refl
  has-parse_lines d (line ∷ ls) set =
      ground (arith, has-parse_lines d ls (parse_line line set), has-parse_line d line set)

  IsRule-insert_if_valid :
      (raw : Text) (set : List Text) → All IsRule set → All IsRule (insert_if_valid raw set)
  unfolding insert_if_valid
  IsRule-insert_if_valid raw set h = elim (Bool-cases (is_valid (normalize raw))) [
    | inr refused ↦ rw refused h
    | inl valid ↦ rw valid (elim (Bool-cases (has (normalize raw) set)) [
      | inl old ↦ rw old h
      | inr fresh ↦ rw fresh (is_valid-IsRule raw valid, h)
    ])
  ]

  IsRule-insert_aliases :
      (words set : List Text) → All IsRule set → All IsRule (insert_aliases words set)
  unfolding insert_aliases
  IsRule-insert_aliases [] set h = h
  IsRule-insert_aliases (word ∷ words) set h =
      IsRule-insert_aliases words (insert_if_valid word set) (IsRule-insert_if_valid word set h)

  IsRule-parse_line :
      (line : Text) (set : List Text) → All IsRule set → All IsRule (parse_line line set)
  unfolding parse_line
  IsRule-parse_line raw set h =
      let line : Text = trim raw in
      elim (Bool-cases (is_skipped line)) [
        | inl skipped ↦ rw skipped h
        | inr read ↦ elim (Bool-cases (is_hosts_line line)) [
          | inl hosts ↦ rw (read, hosts) (IsRule-insert_aliases (aliases line) set h)
          | inr rule ↦ elim (Bool-cases (has_char b' ' line || has_char 9 line)) [
            | inl blank ↦ rw (read, rule, blank) h
            | inr word ↦ rw (read, rule, word) (IsRule-insert_if_valid (filter_domain line) set h)
          ]
        ]
      ]

  IsRule-parse_lines : (ls set : List Text) → All IsRule set → All IsRule (parse_lines ls set)
  unfolding parse_lines
  IsRule-parse_lines [] set h = h
  IsRule-parse_lines (line ∷ ls) set h =
      IsRule-parse_lines ls (parse_line line set) (IsRule-parse_line line set h)

  parse_line-Loads :
      (raw d : Text) → has d (parse_line raw []) ≡ true → IsRule d × Loads (trim raw) d
  unfolding parse_line has
  parse_line-Loads raw d h =
      let line : Text = trim raw in
      let blank : Bool = has_char b' ' line || has_char 9 line in
      let loaded : Bool → Bool → Bool → Bool = λ skipped hosts several. has d (
        if skipped
        then []
        else if hosts
        then insert_aliases (aliases line) []
        else if several
        then []
        else insert_if_valid (filter_domain line) []) in
      elim (Bool-cases (is_skipped line)) [
        | inl skipped ↦ absurd (
            let k : false ≡ true =
              sym (ap (λ t. loaded t (is_hosts_line line) blank) skipped) ∙ h in
            cc)
        | inr read ↦
            let h₁ : loaded false (is_hosts_line line) blank ≡ true =
              sym (ap (λ t. loaded t (is_hosts_line line) blank) read) ∙ h in
            let is_read : IsRead line = is_skipped-IsRead line read in
            elim (Bool-cases (is_hosts_line line)) [
              | inl hosts_line ↦
                  let h₂ : has d (insert_aliases (aliases line) []) ≡ true =
                    sym (ap (λ t. loaded false t blank) hosts_line) ∙ h₁ in
                  let (word, inside, names) = insert_aliases-Names (aliases line) d h₂ in
                  let (first, words, parts, among) =
                    after_first word (split_whitespace (before b'#' line)) inside in
                  (
                    names.0,
                    Loads.hosts is_read ((is_hosts_line-IsHosts line).0 hosts_line) parts among
                        names.1,
                  )
              | inr other ↦
                  let h₂ : loaded false false blank ≡ true =
                    sym (ap (λ t. loaded false t blank) other) ∙ h₁ in
                  elim (Bool-cases blank) [
                    | inl several ↦ absurd (
                        let k : false ≡ true = sym (ap (λ t. loaded false false t) several) ∙ h₂ in
                        cc)
                    | inr single ↦
                        let h₃ : has d (insert_if_valid (filter_domain line) []) ≡ true =
                          sym (ap (λ t. loaded false false t) single) ∙ h₂ in
                        let names : Names (filter_domain line) d =
                          (insert_if_valid-Names (filter_domain line) d).0 h₃ in
                        (
                          names.0,
                          Loads.rule is_read
                              (λ it.
                                let k : true ≡ false =
                                  sym ((is_hosts_line-IsHosts line).1 it) ∙ other in
                                cc)
                              (ground (arith, single)) (ground (arith, single)) names.1,
                        )
                  ]
            ]
      ]

  Loads-parse_line :
      (raw d : Text) → IsRule d → Loads (trim raw) d → has d (parse_line raw []) ≡ true
  unfolding parse_line
  Loads-parse_line raw d is_rule (Loads.hosts {word = word} read hosts_line parts among normal) =
      let line : Text = trim raw in
      let inside : Memᴰ word (aliases line) =
        subst (λ ws. Memᴰ word (drop 1 ws)) (sym parts) among in
      rw (IsRead-is_skipped line read, (is_hosts_line-IsHosts line).1 hosts_line)
        (Names-insert_aliases (aliases line) d word inside (is_rule, normal))
  Loads-parse_line raw d is_rule (Loads.rule read other no_space no_tab normal) =
      let line : Text = trim raw in
      let not_hosts : is_hosts_line line ≡ false = elim (Bool-cases (is_hosts_line line)) [
        | inl it ↦ absurd (other ((is_hosts_line-IsHosts line).0 it))
        | inr it ↦ it
      ] in
      rw (IsRead-is_skipped line read, not_hosts, no_space, no_tab)
        ((insert_if_valid-Names (filter_domain line) d).1 (is_rule, normal))

  -- Of any text the parser loads normal domains with a dot other than the two names of the host, and it loads such
  -- a domain exactly where one of the lines, trimmed, gives it: a line that is neither empty nor a comment, and
  -- either begins with a blocking address and has the domain among its words after the first and before a
  -- comment, or is one word, which is the domain once its marks and options as a filter are taken off.
  pub parse_blocklist-IsRule :
      (text : Text)
      → All IsRule (parse_blocklist text)
        × ((d : Text)
            → (has d (parse_blocklist text) ≡ true)
              ↔ (IsRule d × ((line : Text) × Memᴰ line (lines text) × Loads (trim line) d)))
  unfolding parse_blocklist has
  parse_blocklist-IsRule text = (
    IsRule-parse_lines (lines text) [] tt,
    λ d. (
      λ h.
          let by_some : any (λ line. has d (parse_line line [])) (lines text) ≡ true =
            ground (arith, h, has-parse_lines d (lines text) []) in
          let (line, inside, loaded) =
            any-Mem (λ line. has d (parse_line line [])) (lines text) by_some in
          let (is_rule, loads) = parse_line-Loads line d loaded in (is_rule, (line, inside, loads)),
      λ h.
          let (is_rule, found) = h in
          let (line, inside, loads) = found in
          let by_some : any (λ line. has d (parse_line line [])) (lines text) ≡ true =
            Mem-any (λ line. has d (parse_line line [])) line (lines text) inside
              (Loads-parse_line line d is_rule loads) in
          ground (arith, by_some, has-parse_lines d (lines text) []),
    ),
  )
