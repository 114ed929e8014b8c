-- ===== src/Dnssec/Hashed.antt =====
-- The records that stand under a hash or cover it.
use numa.Prelude.{
  ◌&&◌, ◌||◌, sym, Bool-cases, ap, ◌⊎◌, ◌∙◌, bytes_key, any, Option, ◌≡◌, ℕ, not, ◌=?◌, List, Bool,
  refl, true, false, none, some, inl, inr, [], ◌∷◌,
}
use numa.Dnssec.Denial.{with_hash, hash_lacks_type, decode_owners}
use numa.Dnssec.Nsec.{
  type_bitmap_contains, nsec3_hash_in_range, nsec3_owner_hash, covers_hash, nsec3_any_covers,
}
use numa.Dnssec.Endorsed.{both-true}
use numa.Record.{nsec3, Nsec3, DnsRecord, Rdata}
use numa.Question.{to_num}
use numa.Buffer.{Bytes}
use mathlib.Core.List.{Memᴰ}

-- A record of the list stands under the hash.
abbrev pub Owned : List DnsRecord → Bytes → Type 0
Owned nsec3s h = (r : DnsRecord) × Memᴰ r nsec3s × (nsec3_owner_hash r.domain ≡ some h)

-- The range of a record of the list covers the hash.
abbrev pub Covered : List DnsRecord → Bytes → Type 0
Covered nsec3s h =
    (r : DnsRecord) × Memᴰ r nsec3s
    × (owner : Bytes) × (nsec3_owner_hash r.domain ≡ some owner)
    × (n : Nsec3) × (r.rdata ≡ nsec3 n)
    × (nsec3_hash_in_range owner n.next_hashed_owner h ≡ true)

-- A record of the list stands under the hash, and its bitmap has neither the type nor CNAME.
abbrev pub Lacks : List DnsRecord → Bytes → ℕ → Type 0
Lacks nsec3s h qtype =
    (r : DnsRecord) × Memᴰ r nsec3s
    × (nsec3_owner_hash r.domain ≡ some h)
    × (n : Nsec3) × (r.rdata ≡ nsec3 n)
    × (type_bitmap_contains n.type_bitmap qtype ≡ false)
    × (type_bitmap_contains n.type_bitmap 5 ≡ false)

with_hash-any :
    (test : Bytes × DnsRecord → Bool) (r : DnsRecord) (o : Option Bytes)
    (rest : List (Bytes × DnsRecord))
    → any test (with_hash r o rest) ≡ true
    → ((h : Bytes) × (o ≡ some h) × (test (h, r) ≡ true)) ⊎ (any test rest ≡ true)
with_hash-any test r none rest e = inr e
with_hash-any test r (some h) rest e = elim (Bool-cases (test (h, r))) [
  | inl here ↦ inl (h, refl, here)
  | inr later ↦ inr (sym (ap (λ t. t || any test rest) later) ∙ e)
]

-- A decoded record is one of the list, with the hash of its owner.
decode_owners-any :
    (test : Bytes × DnsRecord → Bool) (rs : List DnsRecord)
    → any test (decode_owners rs) ≡ true
    → (r : DnsRecord) × Memᴰ r rs
      × (h : Bytes) × (nsec3_owner_hash r.domain ≡ some h)
      × (test (h, r) ≡ true)
unfolding decode_owners
decode_owners-any test [] e = absurd cc
decode_owners-any test (r ∷ rs) e =
    elim (with_hash-any test r (nsec3_owner_hash r.domain) (decode_owners rs) e) [
      | inl (h, owner, passed) ↦ (r, Memᴰ.head refl, h, owner, passed)
      | inr later ↦
          let (s, inside, h, owner, passed) = decode_owners-any test rs later in
          (s, Memᴰ.tail inside, h, owner, passed)
    ]

pub same_bytes : (x y : Bytes) → (x =? y) ≡ true → x ≡ y
same_bytes x y e = (bytes_key.same_iff x y).0 e

pub decoded-Owned :
    (rs : List DnsRecord) (h : Bytes) → any (λ d. d.0 =? h) (decode_owners rs) ≡ true → Owned rs h
decoded-Owned rs h e =
    let (r, inside, owner, found, same) = decode_owners-any (λ d. d.0 =? h) rs e in
    (r, inside, found ∙ ap some (same_bytes owner h same))

covers_hash-part :
    (h owner : Bytes) (x : Rdata)
    → covers_hash h owner x ≡ true
    → (n : Nsec3) × (x ≡ nsec3 n) × (nsec3_hash_in_range owner n.next_hashed_owner h ≡ true)
covers_hash-part h owner (nsec3 n) e = (n, refl, e)
covers_hash-part h owner _ e = absurd cc

pub any_covers-Covered :
    (rs : List DnsRecord) (h : Bytes) → nsec3_any_covers (decode_owners rs) h ≡ true → Covered rs h
unfolding nsec3_any_covers
any_covers-Covered rs h e =
    let (r, inside, owner, found, covers) =
      decode_owners-any (λ d. covers_hash h d.0 d.1.rdata) rs e in
    let (n, is_nsec3, in_range) = covers_hash-part h owner r.rdata covers in
    (r, inside, owner, found, n, is_nsec3, in_range)

pub not-true : (t : Bool) → not t ≡ true → t ≡ false
not-true true e = absurd cc
not-true false e = refl

pub not-false : (t : Bool) → not t ≡ false → t ≡ true
not-false true e = refl
not-false false e = absurd cc

lacks_part :
    (h : Bytes) (qtype : ℕ) (owner : Bytes) (x : Rdata)
    → hash_lacks_type h qtype owner x ≡ true
    → (owner ≡ h)
      × (n : Nsec3) × (x ≡ nsec3 n)
      × (type_bitmap_contains n.type_bitmap qtype ≡ false)
      × (type_bitmap_contains n.type_bitmap 5 ≡ false)
unfolding to_num
lacks_part h qtype owner (nsec3 n) e =
    let has_type : Bool = type_bitmap_contains n.type_bitmap qtype in
    let has_cname : Bool = type_bitmap_contains n.type_bitmap 5 in
    let (first, no_cname) = both-true ((owner =? h) && not has_type) (not has_cname) e in
    let (same, no_type) = both-true (owner =? h) (not has_type) first in
    (same_bytes owner h same, n, refl, not-true has_type no_type, not-true has_cname no_cname)
lacks_part h qtype owner _ e = absurd cc

pub decoded-Lacks :
    (rs : List DnsRecord) (h : Bytes) (qtype : ℕ)
    → any (λ d. hash_lacks_type h qtype d.0 d.1.rdata) (decode_owners rs) ≡ true
    → Lacks rs h qtype
decoded-Lacks rs h qtype e =
    let (r, inside, owner, found, lacks) =
      decode_owners-any (λ d. hash_lacks_type h qtype d.0 d.1.rdata) rs e in
    let (same, n, is_nsec3, no_type, no_cname) = lacks_part h qtype owner r.rdata lacks in
    (r, inside, found ∙ ap some same, n, is_nsec3, no_type, no_cname)
