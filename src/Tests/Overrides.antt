-- ===== src/Tests/Overrides.antt =====
-- An override of a name for a minute.
use numa.Prelude.{arith, ◌=?◌, if◌then◌else◌, ◌≡◌, refl, false, none, some, [], ◌∷◌, bytes_key}
use numa.Map.{get, insert}
use numa.Text.{Text}
use numa.Tests.Ascii.{ascii, ab, x_ab}
use numa.Map.Distinct.{Distinct}
use numa.Record.{cname}
use numa.Override.{OverrideStore, Addresses, insert_override, lookup, parse_target, is_past}
use numa.Override.Expiry.{insert_override-lookup}

-- No text is an address.
instance abbrev no_addresses : Addresses
no_addresses = record { parse_v4 = λ t. none; parse_v6 = λ t. none }

abbrev empty : OverrideStore
empty = []

alias_found :
    lookup 59000000000 x_ab (insert_override 0 (b'X' ∷ b'.' ∷ ab) ab 60 (some 60) empty).1
    ≡ some (record { domain = x_ab; rdata = cname ab; ttl = 60 })
unfolding lookup insert_override get insert parse_target is_past
alias_found = refl

alias_gone : lookup 60000000000 x_ab (insert_override 0 x_ab ab 60 (some 60) empty).1 ≡ none
unfolding lookup insert_override get insert parse_target is_past
alias_gone = refl

insert_override-lookup_example :
    Distinct (insert_override 0 x_ab ab 60 (some 60) empty).1
    × (lookup 5 x_ab (insert_override 0 x_ab ab 60 (some 60) empty).1
        ≡ (if is_past 5 (some 60000000000) then none else some (parse_target x_ab ab 60).1))
    × ((other : Text)
        → (x_ab =? other) ≡ false
        → lookup 5 other (insert_override 0 x_ab ab 60 (some 60) empty).1 ≡ lookup 5 other empty)
insert_override-lookup_example =
    insert_override-lookup 0 5 x_ab ab 60 (some 60) empty tt (omega arith)
