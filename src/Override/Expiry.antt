-- ===== src/Override/Expiry.antt =====
-- What a lookup finds after an insertion.
use numa.Prelude.{
  ◌∙◌, ap, ◌=?◌, ◌*◌, ◌+◌, if_some, arith, if◌then◌else◌, Bool-cases, not, ◌≡◌, ◌≤◌, Option, refl,
  true, false, none, some, inl, inr, ℕ, Bool, bytes_key,
}
use numa.Record.{DnsRecord}
use numa.Override.{
  parse_target, OverrideStore, OverrideEntry, Addresses, lookup, list, live, insert_override,
  is_expired, new_entry, is_past, expires_at,
}
use numa.Text.{Text, Unicode}
use numa.Map.{get, get-insert}
use numa.Map.Distinct.{
  Distinct, get-retain, get-insert_other, Distinct-insert, Distinct-retain, only_if,
}

is_past_later : (now t : ℕ) (o : Option ℕ) → now ≤ t → is_past now o ≡ true → is_past t o ≡ true
unfolding is_past
is_past_later now t none le h = h
is_past_later now t (some exp) le h = ground (arith, h)

-- An entry that a clean-up at one time would take away is not live at any later time.
live-only_if :
    (now t : ℕ) (o : Option OverrideEntry)
    → now ≤ t
    → live t (only_if (λ e. not (is_expired now e)) o) ≡ live t o
live-only_if now t none le = refl
live-only_if now t (some e) le = elim (Bool-cases (is_expired now e)) [
  | inl gone ↦ rw (gone, is_past_later now t (expires_at e) le gone) refl
  | inr kept ↦ rw kept refl
]

unless_past :
    (b : Bool) (e : OverrideEntry)
    → if_some (if b then none else some e) (λ (x : OverrideEntry). some x.entry_record)
      ≡ (if b then none else some e.entry_record)
unless_past true e = refl
unless_past false e = refl

module _ ⦃unicode : Unicode⦄ ⦃addresses : Addresses⦄ where
  -- In a store whose keys differ, an insertion at a time keeps them so, and at that time and every later one
  -- a lookup of the lower-case name finds the new record until its duration ends and nothing after it,
  -- and a lookup of any other name finds what it would find without the insertion, though entries that
  -- have expired are cleaned up.
  pub insert_override-lookup :
      (now t : ℕ) (domain target : Text) (ttl : ℕ) (duration_secs : Option ℕ) (s : OverrideStore)
      → Distinct s
      → now ≤ t
      → Distinct (insert_override now domain target ttl duration_secs s).1
        × (lookup t
              (unicode.to_lowercase domain)
              (insert_override now domain target ttl duration_secs s).1
            ≡ (if is_past t (if_some duration_secs (λ d. some (now + d * 1000000000)))
                then none
                else some (parse_target (unicode.to_lowercase domain) target ttl).1))
        × ((other : Text)
            → (unicode.to_lowercase domain =? other) ≡ false
            → lookup t other (insert_override now domain target ttl duration_secs s).1
              ≡ lookup t other s)
  unfolding insert_override lookup
  insert_override-lookup now t domain target ttl duration_secs s distinct le =
      let k : Text = unicode.to_lowercase domain in
      let e : OverrideEntry = new_entry now k target ttl duration_secs in
      let keeps : OverrideEntry → Bool = λ x. not (is_expired now x) in
      let read : Option OverrideEntry → Option DnsRecord =
        λ o. if_some (live t o) (λ x. some x.entry_record) in
      (
        Distinct-insert k e (list now s) (Distinct-retain keeps s distinct),
        ap read (get-insert k e (list now s)) ∙ unless_past (is_expired t e) e,
        λ other differs.
            ap read
              (get-insert_other other k e (list now s) differs ∙ get-retain keeps other s distinct)
            ∙ ap (λ o. if_some o (λ (x : OverrideEntry). some x.entry_record))
                (live-only_if now t (get other s) le),
      )
