-- ===== src/Domain/Match.antt =====
-- Which entry of a set of domains a name matches.
use numa.Prelude.{
  Option-cases, ◌∙◌, sym, bytes_key, ==_iff, ap₂, subst, if◌then◌else◌, length-append, Bool-cases,
  ap, ◌≤◌, arith, ◌⊎◌, ◌++◌, length, ◌↔◌, ◌≡◌, refl, true, none, some, inl, inr, [], ◌∷◌, List,
}
use numa.Text.{Text}
use numa.Set.{has}
use numa.Domain.{find_in_set, find_parent, is_dot}

-- The name is the entry, or ends in a dot and the entry.
abbrev pub Covers : Text → Text → Type 0
Covers entry domain = (domain ≡ entry) ⊎ ((front : Text) × (domain ≡ front ++ (b'.' ∷ entry)))

-- The longest entry of the set that covers the name.
pub record IsClosest (domain : Text) (set : List Text) (entry : Text) : Type 0 where
  pub member : has entry set ≡ true
  pub covers : Covers entry domain
  pub longest : (e : Text) → has e set ≡ true → Covers e domain → length e ≤ length entry

find_parent-found :
    (front entry : Text) (set : List Text)
    → has entry set ≡ true
    → (m : Text) × (find_parent (front ++ (b'.' ∷ entry)) set ≡ some m) × (length entry ≤ length m)
unfolding find_parent
find_parent-found [] entry set h = (entry, rw (h) refl, omega arith)
find_parent-found (c ∷ front) entry set h =
    let (m, found, le) = find_parent-found front entry set h in
    elim (Bool-cases (is_dot c)) [
      | inr other ↦ (m, rw other found, le)
      | inl dot ↦ elim (Bool-cases (has (front ++ (b'.' ∷ entry)) set)) [
        | inl here ↦ (
          front ++ (b'.' ∷ entry),
          rw (dot, here) refl,
          omega (arith, length-append front (b'.' ∷ entry)),
        )
        | inr later ↦ (m, rw (dot, later) found, le)
      ]
    ]

some-injective : {x y : Text} → some x ≡ some y → x ≡ y
some-injective e = cc

find_parent-Covers :
    (d : Text) (set : List Text) (m : Text)
    → find_parent d set ≡ some m
    → (has m set ≡ true) × (front : Text) × (d ≡ front ++ (b'.' ∷ m))
unfolding find_parent
find_parent-Covers [] set m h = absurd (ground arith)
find_parent-Covers (c ∷ d) set m h =
    let tail : find_parent d set ≡ some m
        → (has m set ≡ true) × (front : Text) × (c ∷ d ≡ front ++ (b'.' ∷ m)) =
      λ later.
        let (member, front, e) = find_parent-Covers d set m later in
        (member, c ∷ front, ap (λ x. c ∷ x) e) in
    elim (Bool-cases (is_dot c)) [
      | inr other ↦ tail (
          let k : (if is_dot c
                then (if has d set then some d else find_parent d set)
                else find_parent d set)
              ≡ some m =
            h in
          ground (arith, k, other))
      | inl dot ↦ elim (Bool-cases (has d set)) [
        | inl here ↦
            let same : d ≡ m =
              some-injective (let k : some d ≡ some m = ground (arith, h, dot, here) in k) in
            (
              subst (λ x. has x set ≡ true) same here,
              [],
              ap₂ (λ x y. x ∷ y) ((==_iff c b'.').0 dot) same,
            )
        | inr later ↦ tail (ground (arith, h, dot, later))
      ]
    ]

find_parent_same :
    (d : Text) (s t : List Text)
    → ((e : Text) → has e s ≡ has e t)
    → find_parent d s ≡ find_parent d t
unfolding find_parent
find_parent_same [] s t same = refl
find_parent_same (c ∷ d) s t same = rw (same d, find_parent_same d s t same) refl

pub find_in_set-found :
    (domain : Text) (set : List Text) (e : Text)
    → has e set ≡ true
    → Covers e domain
    → (m : Text) × (find_in_set domain set ≡ some m) × (length e ≤ length m)
unfolding find_in_set
find_in_set-found domain set e member (inl same) =
    let here : has domain set ≡ true = subst (λ x. has x set ≡ true) (sym same) member in
    (domain, rw here refl, omega (arith, ap (λ (x : Text). length x) same))
find_in_set-found domain set e member (inr (front, ends)) =
    let (m, found, le) = find_parent-found front e set member in
    elim (Bool-cases (has domain set)) [
      | inl here ↦ (
        domain,
        rw here refl,
        omega (arith, ap (λ (x : Text). length x) ends, length-append front (b'.' ∷ e)),
      )
      | inr missing ↦ (m, rw missing (ap (λ x. find_parent x set) ends ∙ found), le)
    ]

pub find_in_set-Covers :
    (domain : Text) (set : List Text) (m : Text)
    → find_in_set domain set ≡ some m
    → (has m set ≡ true) × Covers m domain
unfolding find_in_set
find_in_set-Covers domain set m h = elim (Bool-cases (has domain set)) [
  | inl here ↦
      let same : domain ≡ m =
        some-injective (let k : some domain ≡ some m = ground (arith, h, here) in k) in
      (subst (λ x. has x set ≡ true) same here, inl same)
  | inr missing ↦
      let (member, front, e) = find_parent-Covers domain set m (ground (arith, h, missing)) in
      (member, inr (front, e))
]

-- On any name and any set, `find_in_set` returns the longest entry of the set that the name is or that
-- the name ends in after a dot, and nothing exactly where there is no such entry.
pub find_in_set-IsClosest :
    (domain : Text) (set : List Text)
    → ((m : Text) → find_in_set domain set ≡ some m → IsClosest domain set m)
      × (find_in_set domain set ≡ none ↔ ((e : Text) → has e set ≡ true → ¬ Covers e domain))
find_in_set-IsClosest domain set = (
  λ m h.
      let (member, covers) = find_in_set-Covers domain set m h in
      record {
        member = member;
        covers = covers;
        longest = λ e k c.
            let (n, found, le) = find_in_set-found domain set e k c in
            subst (λ (x : Text). length e ≤ length x) (some-injective (sym found ∙ h)) le;
      },
  (
    λ nothing e k c.
        let (n, found, le) = find_in_set-found domain set e k c in
        let clash : some n ≡ none = sym found ∙ nothing in absurd cc,
    λ no_entry. elim (Option-cases (find_in_set domain set)) [
      | inl nothing ↦ nothing
      | inr (m, found) ↦
          let (member, covers) = find_in_set-Covers domain set m found in
          absurd (no_entry m member covers)
    ],
  ),
)

-- A match depends on the members of the set alone.
pub find_in_set_same :
    (domain : Text) (s t : List Text)
    → ((d : Text) → has d s ≡ has d t)
    → find_in_set domain s ≡ find_in_set domain t
unfolding find_in_set
find_in_set_same domain s t same = rw (same domain, find_parent_same domain s t same) refl
