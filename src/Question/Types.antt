-- ===== src/Question/Types.antt =====
-- Query types against their numbers and their names.
-- No number is lost: an unnamed one is kept as it is.
use numa.Prelude.{
  ◌-◌, ==_iff, ap, ◌∙◌, ◌+◌, arith, sym, ◌==◌, ◌≢◌, ◌↔◌, ◌≡◌, if◌then◌else◌, Bool, ℕ, Key, refl,
  true, some,
}
use numa.Question.{
  https, svcb, nsec3, dnskey, nsec, rrsig, ds, opt, naptr, srv, loc, aaaa, txt, mx, ptr, soa, cname,
  ns, unknown, a, as_str, from_num, parse_str, to_num, QueryType,
}

-- The type that any number reads as gives that number back.
pub to_num-from_num : (n : ℕ) → to_num (from_num n) ≡ n
unfolding to_num from_num
to_num-from_num n = ground arith

-- A type that its number gives back: every named one, and an unknown one whose number is unnamed.
abbrev pub IsCanonical : QueryType → Type 0
IsCanonical t = from_num (to_num t) ≡ t

-- A constructor's place, to tell two types apart: `UNKNOWN(1)` and `A` differ.
unfoldable pub tag : QueryType → ℕ
tag (unknown x) = 19 + x
tag a = 0
tag ns = 1
tag cname = 2
tag soa = 3
tag ptr = 4
tag mx = 5
tag txt = 6
tag aaaa = 7
tag loc = 8
tag srv = 9
tag naptr = 10
tag opt = 11
tag ds = 12
tag rrsig = 13
tag nsec = 14
tag dnskey = 15
tag nsec3 = 16
tag svcb = 17
tag https = 18

unfoldable pub of_tag : ℕ → QueryType
of_tag n =
    if n == 0
    then a
    else if n == 1
    then ns
    else if n == 2
    then cname
    else if n == 3
    then soa
    else if n == 4
    then ptr
    else if n == 5
    then mx
    else if n == 6
    then txt
    else if n == 7
    then aaaa
    else if n == 8
    then loc
    else if n == 9
    then srv
    else if n == 10
    then naptr
    else if n == 11
    then opt
    else if n == 12
    then ds
    else if n == 13
    then rrsig
    else if n == 14
    then nsec
    else if n == 15
    then dnskey
    else if n == 16
    then nsec3
    else if n == 17
    then svcb
    else if n == 18
    then https
    else unknown (n - 19)

of_tag-tag : (t : QueryType) → of_tag (tag t) ≡ t
unfolding of_tag tag
of_tag-tag (unknown x) = ground arith
of_tag-tag a = refl
of_tag-tag ns = refl
of_tag-tag cname = refl
of_tag-tag soa = refl
of_tag-tag ptr = refl
of_tag-tag mx = refl
of_tag-tag txt = refl
of_tag-tag aaaa = refl
of_tag-tag loc = refl
of_tag-tag srv = refl
of_tag-tag naptr = refl
of_tag-tag opt = refl
of_tag-tag ds = refl
of_tag-tag rrsig = refl
of_tag-tag nsec = refl
of_tag-tag dnskey = refl
of_tag-tag nsec3 = refl
of_tag-tag svcb = refl
of_tag-tag https = refl

-- `#[derive(PartialEq, Eq)]`
unfoldable pub same_type : QueryType → QueryType → Bool
unfolding tag
same_type t u = tag t == tag u

pub same_type_iff : (t u : QueryType) → (same_type t u ≡ true) ↔ (t ≡ u)
unfolding same_type
same_type_iff t u = (
  λ h. sym (of_tag-tag t) ∙ ap of_tag ((==_iff (tag t) (tag u)).0 h) ∙ of_tag-tag u,
  λ e. (==_iff (tag t) (tag u)).1 (ap tag e),
)

instance abbrev pub query_type_key : Key QueryType
query_type_key = record { same = same_type; same_iff = same_type_iff }

-- A type other than an unknown one is the one that its number reads as and that its name parses to.
parse_str-as_str :
    (t : QueryType) → ((x : ℕ) → t ≢ unknown x) → IsCanonical t × (parse_str (as_str t) ≡ some t)
unfolding from_num to_num parse_str as_str
parse_str-as_str (unknown x) named = absurd (named x refl)
parse_str-as_str a named = (refl, refl)
parse_str-as_str ns named = (refl, refl)
parse_str-as_str cname named = (refl, refl)
parse_str-as_str soa named = (refl, refl)
parse_str-as_str ptr named = (refl, refl)
parse_str-as_str mx named = (refl, refl)
parse_str-as_str txt named = (refl, refl)
parse_str-as_str aaaa named = (refl, refl)
parse_str-as_str loc named = (refl, refl)
parse_str-as_str srv named = (refl, refl)
parse_str-as_str naptr named = (refl, refl)
parse_str-as_str opt named = (refl, refl)
parse_str-as_str ds named = (refl, refl)
parse_str-as_str rrsig named = (refl, refl)
parse_str-as_str nsec named = (refl, refl)
parse_str-as_str dnskey named = (refl, refl)
parse_str-as_str nsec3 named = (refl, refl)
parse_str-as_str svcb named = (refl, refl)
parse_str-as_str https named = (refl, refl)
