-- ===== src/Domain.antt =====
-- src/blocklist.rs: normal forms of domain names, and the match of a name in a set of domains.
pub mod Match
pub mod Normal
use numa.Prelude.{
  bytes_key, if◌then◌else◌, ◌==◌, Option, refl, zero, suc, true, false, none, some, inl, inr, [],
  ◌∷◌, List, ℕ, Bool,
}
use numa.Text.{trim_end, Text, Unicode}
use numa.Set.{has}

abbrev pub is_dot : ℕ → Bool
is_dot c = c == b'.'

unfoldable pub normalize : ⦃unicode : Unicode⦄ → Text → Text
normalize ⦃unicode⦄ domain = trim_end is_dot (unicode.to_lowercase domain)

-- `while let Some(dot) = d.find('.')`: what is left after the dot.
unfoldable pub find_parent : Text → List Text → Option Text
find_parent [] set = none
find_parent (c ∷ d) set =
    let later = find_parent d set in
    if is_dot c then (if has d set then some d else later) else later

unfoldable pub find_in_set : Text → List Text → Option Text
find_in_set domain set = if has domain set then some domain else find_parent domain set
