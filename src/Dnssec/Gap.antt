-- ===== src/Dnssec/Gap.antt =====
-- The canonical order is one, and no NSEC record covers a name that it shows to exist.
use numa.Prelude.{
  ap, ◌&&◌, ◌||◌, length, ◌∙◌, not, if◌then◌else◌, arith, ap₂, ◌⊎◌, ◌≡◌, refl, false, inl, inr, [],
  ◌∷◌, List, ℕ, Bool,
}
use numa.Dnssec.Order.{
  is_gt, is_lt, then_by, cmp_bytes, cmp_common, cmp_names, canonical, canonical_dns_name_order,
  nsec_covers_name,
}
use numa.Buffer.{Bytes}
use Prim.Native.Nat.{Ordering, compare}

abbrev flip : Ordering → Ordering
flip Ordering.lt = Ordering.gt
flip Ordering.eq = Ordering.eq
flip Ordering.gt = Ordering.lt

compare-flip : (x y : ℕ) → compare y x ≡ flip (compare x y)
compare-flip x y = ground arith

then_by-flip :
    (first rest : Ordering) → then_by (flip first) (flip rest) ≡ flip (then_by first rest)
then_by-flip Ordering.lt rest = refl
then_by-flip Ordering.eq rest = refl
then_by-flip Ordering.gt rest = refl

Ordering-cases : (o : Ordering) → (o ≡ Ordering.lt) ⊎ ((o ≡ Ordering.eq) ⊎ (o ≡ Ordering.gt))
Ordering-cases Ordering.lt = inl refl
Ordering-cases Ordering.eq = inr (inl refl)
Ordering-cases Ordering.gt = inr (inr refl)

cmp_bytes-flip : (xs ys : Bytes) → cmp_bytes ys xs ≡ flip (cmp_bytes xs ys)
unfolding cmp_bytes
cmp_bytes-flip [] [] = refl
cmp_bytes-flip [] (y ∷ ys) = refl
cmp_bytes-flip (x ∷ xs) [] = refl
cmp_bytes-flip (x ∷ xs) (y ∷ ys) =
    ap₂ then_by (compare-flip x y) (cmp_bytes-flip xs ys)
    ∙ then_by-flip (compare x y) (cmp_bytes xs ys)

cmp_common-flip : (xs ys : List Bytes) → cmp_common ys xs ≡ flip (cmp_common xs ys)
unfolding cmp_common
cmp_common-flip [] [] = refl
cmp_common-flip [] (y ∷ ys) = refl
cmp_common-flip (x ∷ xs) [] = refl
cmp_common-flip (x ∷ xs) (y ∷ ys) =
    ap₂ then_by (cmp_bytes-flip x y) (cmp_common-flip xs ys)
    ∙ then_by-flip (cmp_bytes x y) (cmp_common xs ys)

pub cmp_names-flip : (xs ys : List Bytes) → cmp_names ys xs ≡ flip (cmp_names xs ys)
unfolding cmp_names
cmp_names-flip xs ys =
    ap₂ then_by (cmp_common-flip xs ys) (compare-flip (length xs) (length ys))
    ∙ then_by-flip (cmp_common xs ys) (compare (length xs) (length ys))

cmp_bytes_self : (xs : Bytes) → cmp_bytes xs xs ≡ Ordering.eq
unfolding cmp_bytes
cmp_bytes_self [] = refl
cmp_bytes_self (x ∷ xs) =
    ap₂ then_by (let same : compare x x ≡ Ordering.eq = ground arith in same) (cmp_bytes_self xs)

cmp_common_self : (ls : List Bytes) → cmp_common ls ls ≡ Ordering.eq
unfolding cmp_common
cmp_common_self [] = refl
cmp_common_self (l ∷ ls) = ap₂ then_by (cmp_bytes_self l) (cmp_common_self ls)

cmp_names_self : (xs : List Bytes) → cmp_names xs xs ≡ Ordering.eq
unfolding cmp_names
cmp_names_self xs =
    ap₂ then_by (cmp_common_self xs)
      (let same : compare (length xs) (length xs) ≡ Ordering.eq = ground arith in same)

-- A record whose names are `xs` and `ys` does not cover either of them.
covers_at :
    (o : Ordering)
    → ((if not (is_lt o) then is_gt Ordering.eq || is_lt o else is_gt Ordering.eq && is_lt o)
        ≡ false)
      × ((if not (is_lt o)
            then is_gt (flip o) || is_lt Ordering.eq
            else is_gt (flip o) && is_lt Ordering.eq)
          ≡ false)
covers_at Ordering.lt = (refl, refl)
covers_at Ordering.eq = (refl, refl)
covers_at Ordering.gt = (refl, refl)

-- No NSEC record covers the name that owns it or the next name, in whatever case they are asked for and
-- whether or not its gap wraps around the end of the zone.
pub nsec_covers_name-ends :
    (owner next qname : Bytes)
    → (canonical qname ≡ canonical owner → nsec_covers_name owner next qname ≡ false)
      × (canonical qname ≡ canonical next → nsec_covers_name owner next qname ≡ false)
unfolding nsec_covers_name
nsec_covers_name-ends owner next qname =
    let o : Ordering = canonical_dns_name_order owner next in
    let test : Ordering → Ordering → Bool =
      λ qo qn. if not (is_lt o) then is_gt qo || is_lt qn else is_gt qo && is_lt qn in
    (
      λ same.
          ap₂ test (ap (λ q. cmp_names q (canonical owner)) same ∙ cmp_names_self (canonical owner))
            (ap (λ q. cmp_names q (canonical next)) same)
          ∙ (covers_at o).0,
      λ same.
          ap₂ test
            (ap (λ q. cmp_names q (canonical owner)) same
              ∙ cmp_names-flip (canonical owner) (canonical next))
            (ap (λ q. cmp_names q (canonical next)) same ∙ cmp_names_self (canonical next))
          ∙ (covers_at o).1,
    )
