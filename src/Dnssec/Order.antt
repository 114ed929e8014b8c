-- ===== src/Dnssec/Order.antt =====
-- src/dnssec.rs: the canonical order of names and the gaps that NSEC records prove.
use numa.Prelude.{◌&&◌, ◌||◌, not, map, length, if◌then◌else◌, true, false, [], ◌∷◌, List, Bool}
use numa.Buffer.{Bytes}
use numa.Buffer.Name.{to_ascii_lowercase}
use numa.Text.{split, drop_empty}
use numa.Domain.{is_dot}
use Prim.Native.Nat.{Ordering, compare}

-- `split('.')` without the empty labels.
abbrev pub labels_of : Bytes → List Bytes
labels_of name = drop_empty (split is_dot name)

unfoldable pub reversed : List Bytes → List Bytes → List Bytes
reversed [] done = done
reversed (l ∷ ls) done = reversed ls (l ∷ done)

-- The labels from the root on, in lower case.
abbrev pub canonical : Bytes → List Bytes
canonical name = map (λ l. map to_ascii_lowercase l) (reversed (labels_of name) [])

-- The first order, or the second where the first finds no difference.
abbrev pub then_by : Ordering → Ordering → Ordering
then_by Ordering.lt rest = Ordering.lt
then_by Ordering.eq rest = rest
then_by Ordering.gt rest = Ordering.gt

-- `Iterator::cmp`
unfoldable pub cmp_bytes : Bytes → Bytes → Ordering
cmp_bytes [] [] = Ordering.eq
cmp_bytes [] (y ∷ ys) = Ordering.lt
cmp_bytes (x ∷ xs) [] = Ordering.gt
cmp_bytes (x ∷ xs) (y ∷ ys) = then_by (compare x y) (cmp_bytes xs ys)

-- The loop over the labels that both names have.
unfoldable pub cmp_common : List Bytes → List Bytes → Ordering
cmp_common [] bs = Ordering.eq
cmp_common (l ∷ ls) [] = Ordering.eq
cmp_common (l ∷ ls) (m ∷ ms) = then_by (cmp_bytes l m) (cmp_common ls ms)

unfoldable pub cmp_names : List Bytes → List Bytes → Ordering
cmp_names ls ms = then_by (cmp_common ls ms) (compare (length ls) (length ms))

abbrev pub canonical_dns_name_order : Bytes → Bytes → Ordering
canonical_dns_name_order a b = cmp_names (canonical a) (canonical b)

abbrev pub is_gt : Ordering → Bool
is_gt Ordering.gt = true
is_gt _ = false

abbrev pub is_lt : Ordering → Bool
is_lt Ordering.lt = true
is_lt _ = false

unfoldable pub nsec_covers_name : Bytes → Bytes → Bytes → Bool
nsec_covers_name owner next qname =
    let on = canonical_dns_name_order owner next in
    let qo = canonical_dns_name_order qname owner in
    let qn = canonical_dns_name_order qname next in
    if not (is_lt on) then is_gt qo || is_lt qn else is_gt qo && is_lt qn
