-- ===== src/Tests/Policy.antt =====
-- Client policies and address lists, with networks that are known by their first octet.
use numa.Prelude.{
  arith, Option, ◌==◌, ◌≡◌, refl, true, false, none, some, [], ◌∷◌, List, ℕ, Bool, bytes_key,
}
use numa.Blocklist.{check_listed, check_manual, check_allowed, is_paused, check}
use numa.Set.{has}
use numa.Domain.{find_parent, find_in_set, normalize}
use numa.DomainList.{find_normalized}
use numa.Text.{trim_end, Text}
use numa.ClientPolicy.{
  decide, applies, matching_rules, ClientPolicy, ClientPolicyConfig, block, evaluate, from_configs,
}
use numa.Acl.{is_loopback, to_canonical, IpAddr, v4, v6, Networks, CidrMatcher, matches, allows}
use numa.Record.Valid.{IsIpv4}
use numa.Record.{Ipv4Addr}
use numa.Tests.Ascii.{ascii, ab, x_ab, x_ab_upper}
use numa.Tests.Domains.{block_ab}
use numa.Acl.Mapped.{mapped, allows-mapped}
use numa.ClientPolicy.Decides.{evaluate-Decides, Decides}
use numa.ClientPolicy.Built.{from_configs-Built, Built, Accepts}

abbrev first_octet : ℕ → IpAddr → Bool
first_octet n (v4 a) = a.o0 == n
first_octet n (v6 a) = false

-- A network is written as one character, its first octet.
abbrev one_char : Text → Option ℕ
one_char (c ∷ []) = some c
one_char _ = none

instance abbrev pub by_octet : Networks
by_octet = record {
  IpNet = ℕ;
  parse_net = one_char;
  parse_addr = λ t. none;
  from_addr = λ ip. 0;
  contains = first_octet;
}

abbrev peer : Ipv4Addr
peer = record { o0 = 10; o1 = 0; o2 = 0; o3 = 7 }

peer-IsIpv4 : IsIpv4 peer
peer-IsIpv4 = record { o0 = omega arith; o1 = omega arith; o2 = omega arith; o3 = omega arith }

abbrev tens : CidrMatcher
tens = record { include = 10 ∷ []; exclude = [] }

mapped_admitted : allows (mapped peer) tens ≡ true
unfolding allows matches mapped to_canonical is_loopback
mapped_admitted = refl

allows-mapped_example :
    (matches (mapped peer) tens ≡ matches (v4 peer) tens)
    × (allows (mapped peer) tens ≡ allows (v4 peer) tens)
allows-mapped_example = allows-mapped peer tens peer-IsIpv4

abbrev rules : List ClientPolicy
rules = record { nets = tens; store = block_ab; filter_aaaa = some true } ∷ []

blocked_for_ten : evaluate 5 (mapped peer) ab rules ≡ block
unfolding evaluate matching_rules applies decide matches mapped to_canonical is_loopback check
    is_paused normalize trim_end find_normalized find_in_set find_parent has check_allowed
    check_manual check_listed
blocked_for_ten = refl

evaluate-Decides_example :
    Decides (v4 peer) (normalize x_ab_upper) rules (evaluate 5 (v4 peer) x_ab_upper rules)
evaluate-Decides_example =
    evaluate-Decides 5 (v4 peer) x_ab_upper rules
      (record { on = refl; running = refl; no_manual = refl }, tt)

abbrev configs : List ClientPolicyConfig
configs =
    record {
      from = (10 ∷ []) ∷ [];
      exclude = [];
      block = ab ∷ x_ab ∷ [];
      allow = [];
      filter_aaaa = none;
    }
    ∷ []

from_configs-Built_example : Accepts (Built configs) (from_configs 0 configs)
from_configs-Built_example = from_configs-Built 0 configs
