-- ===== src/Tests/Hints.antt =====
-- Service binding records and the rebinding filter.
use numa.Svcb.Private.{same_stride, is_public, strip_private_hints-HintsPass, HintsPass, IsHint}
use numa.Prelude.{
  subst, ◌||◌, arith, ◌==◌, ◌≡◌, All, not, refl, true, false, none, some, [], ◌∷◌, List, ℕ, Bool,
  bytes_key,
}
use numa.Svcb.Strip.{strip_ipv6hint-wire, svcb_wire, IsLabel}
use numa.Question.{to_num}
use numa.Set.{has}
use numa.Domain.{find_parent, find_in_set, normalize}
use numa.DomainList.{find_normalized}
use numa.Text.{trim_end}
use numa.Svcb.{
  hint_addr, chunks_exact, filter_hint, edit_hint, emit, read_param, rebuild, find_change,
  skip_name, edit_ipv6hint, edit_with, strip_ipv6hint, strip_private_hints,
}
use numa.Acl.{to_canonical, matches, IpAddr, v4, v6}
use numa.Rebind.{
  is_public_record, scrub_rdata, scrub_records, scrub_section, is_allowed, RebindFilter, apply,
}
use numa.Svcb.Params.{IsParam}
use numa.Packet.{new_packet, DnsPacket}
use numa.Record.{a, unknown}
use numa.Buffer.{Bytes}
use numa.Tests.Ascii.{ascii, ab}
use numa.Tests.Policy.{by_octet}
use numa.Rebind.Clean.{apply-IsClean, IsClean}

abbrev labels : List Bytes
labels = (b'w' ∷ []) ∷ []

labels-IsLabel : All IsLabel labels
labels-IsLabel = (record { some_bytes = omega arith; few_bytes = omega arith }, tt)

-- A port, and two addresses as hints.
abbrev params : List (ℕ × Bytes)
params = (3, 1 ∷ 187 ∷ []) ∷ (4, 10 ∷ 0 ∷ 0 ∷ 1 ∷ 1 ∷ 2 ∷ 3 ∷ 4 ∷ []) ∷ []

abbrev params_v6 : List (ℕ × Bytes)
params_v6 = (3, 1 ∷ 187 ∷ []) ∷ (6, 1 ∷ []) ∷ []

abbrev starts_with_ten : IpAddr → Bool
starts_with_ten (v4 addr) = addr.o0 == 10
starts_with_ten (v6 addr) = false

stripped_v6 :
    strip_ipv6hint (svcb_wire 1 labels params_v6)
    ≡ some (svcb_wire 1 labels ((3, 1 ∷ 187 ∷ []) ∷ []))
unfolding edit_with skip_name find_change rebuild read_param emit edit_ipv6hint
stripped_v6 = refl

stripped_ten :
    strip_private_hints (svcb_wire 1 labels params) starts_with_ten
    ≡ some (svcb_wire 1 labels ((3, 1 ∷ 187 ∷ []) ∷ (4, 1 ∷ 2 ∷ 3 ∷ 4 ∷ []) ∷ []))
unfolding edit_with skip_name find_change rebuild read_param emit edit_hint filter_hint chunks_exact
    hint_addr
stripped_ten = refl

strip_ipv6hint-wire_example :
    (strip_ipv6hint (svcb_wire 1 labels params_v6)
      ≡ some (svcb_wire 1 labels ((3, 1 ∷ 187 ∷ []) ∷ [])))
    × (strip_ipv6hint (svcb_wire 1 labels ((3, 1 ∷ 187 ∷ []) ∷ [])) ≡ none)
strip_ipv6hint-wire_example = strip_ipv6hint-wire 1 labels params_v6 labels-IsLabel

params-IsParam : All IsParam params
params-IsParam = (
  record { key = omega arith; size = omega arith },
  (record { key = omega arith; size = omega arith }, tt),
)

params-HintsPass : All (HintsPass (λ c. true)) params
unfolding HintsPass
params-HintsPass = (
  λ stride h. let clash : none ≡ some stride = h in absurd cc,
  (
    λ stride h.
        subst (IsHint (λ c. true) (4, 10 ∷ 0 ∷ 0 ∷ 1 ∷ 1 ∷ 2 ∷ 3 ∷ 4 ∷ [])) (same_stride 4 stride h)
          (record {
            chunks = (10 ∷ 0 ∷ 0 ∷ 1 ∷ []) ∷ (1 ∷ 2 ∷ 3 ∷ 4 ∷ []) ∷ [];
            sizes = (refl, (refl, tt));
            pass = (refl, (refl, tt));
            value = refl;
          }),
    tt,
  ),
)

strip_private_hints-HintsPass_example :
    ((out : Bytes)
      → strip_private_hints (svcb_wire 1 labels params) starts_with_ten ≡ some out
      → (qs : List (ℕ × Bytes)) × (out ≡ svcb_wire 1 labels qs)
        × All (HintsPass (is_public starts_with_ten)) qs)
    × (strip_private_hints (svcb_wire 1 labels params) starts_with_ten ≡ none
        → All (HintsPass (is_public starts_with_ten)) params)
strip_private_hints-HintsPass_example =
    strip_private_hints-HintsPass starts_with_ten 1 labels params labels-IsLabel params-IsParam
      params-HintsPass

abbrev filter : RebindFilter
filter = record {
  enabled = true;
  ranges = record { include = 10 ∷ []; exclude = [] };
  range_strings = [];
  allowlist = record { config = ab ∷ []; user = []; file = none };
}

abbrev response : DnsPacket
response = record new_packet {
  answers =
      record { domain = ab; rdata = a (record { o0 = 10; o1 = 0; o2 = 0; o3 = 1 }); ttl = 60 }
      ∷ record { domain = ab; rdata = unknown 65 (svcb_wire 1 labels params); ttl = 60 }
      ∷ [];
}

scrubbed_answers :
    (apply (b'c' ∷ []) filter response).1.answers
    ≡ record {
      domain = ab;
      rdata = unknown 65 (svcb_wire 1 labels ((3, 1 ∷ 187 ∷ []) ∷ (4, 1 ∷ 2 ∷ 3 ∷ 4 ∷ []) ∷ []));
      ttl = 60;
    }
      ∷ []
unfolding apply is_allowed scrub_section scrub_records scrub_rdata is_public_record matches
    to_canonical edit_with skip_name find_change rebuild read_param emit edit_hint filter_hint
    chunks_exact hint_addr normalize trim_end find_normalized find_in_set find_parent has to_num
scrubbed_answers = refl

apply-IsClean_example :
    (not true || is_allowed ab filter ≡ false
      → All (IsClean (λ ip. matches ip filter.ranges)) (apply ab filter response).1.answers
        × All (IsClean (λ ip. matches ip filter.ranges)) (apply ab filter response).1.authorities
        × All (IsClean (λ ip. matches ip filter.ranges)) (apply ab filter response).1.resources
        × ((apply ab filter response).0 ≡ 0 → (apply ab filter response).1 ≡ response))
    × (not true || is_allowed ab filter ≡ true → apply ab filter response ≡ (0, response))
apply-IsClean_example = apply-IsClean ab filter response
