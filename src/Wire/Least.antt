-- ===== src/Wire/Least.antt =====
-- The least TTL of the answers.
use numa.Prelude.{
  ◌∙◌, sym, min, length-take, Option-cases, le→leb, subst, leb, ◌==◌, ◌+◌, any, arith, ◌↔◌, ◌≤◌,
  take, length, ◌≡◌, All, List, ℕ, refl, zero, suc, true, none, some, inl, inr, [], ◌∷◌,
}
use native.Mathlib.Decide.{dec_le}
use numa.Wire.{min_of, u32_at, scan_ttl_offsets, ttls_at, WireMeta, min_ttl_from_wire}
use numa.Wire.Scan.{scan_ttl_offsets-IsMeta, Settles, IsMeta, Fields-le, Fields}
use numa.Buffer.{Bytes}
use numa.Error.{ok}

-- `m` is the least of the words at the offsets, and one of them.
pub record IsLeast (wire : Bytes) (offs : List ℕ) (m : ℕ) : Type 0 where
  pub below : All (λ off. m ≤ u32_at wire off) offs
  pub reached : any (λ off. u32_at wire off == m) offs ≡ true

some-injective : {x y : ℕ} → some x ≡ some y → x ≡ y
some-injective e = cc

-- A field in front of the rest.
min_of_step :
    (wire : Bytes) (off : ℕ) (offs : List ℕ)
    → leb (off + 4) (length wire) ≡ true
    → ((min_of (ttls_at wire offs) ≡ none)
        → min_of (ttls_at wire (off ∷ offs)) ≡ some (u32_at wire off))
      × ((k : ℕ)
          → min_of (ttls_at wire offs) ≡ some k
          → min_of (ttls_at wire (off ∷ offs)) ≡ some (min (u32_at wire off) k))
unfolding min_of ttls_at
min_of_step wire off offs inside = (
  λ e. rw (inside, ttls_at) (rw (e, min_of) refl),
  λ k e. rw (inside, ttls_at) (rw (e, min_of) refl),
)

All-empty : (P : ℕ → Type 0) (xs : List ℕ) → length xs ≡ 0 → All P xs
All-empty P [] h = tt
All-empty P (x ∷ xs) h = absurd (omega arith)

All-below :
    (f : ℕ → ℕ) (xs : List ℕ) (k m : ℕ) → m ≤ k → All (λ x. k ≤ f x) xs → All (λ x. m ≤ f x) xs
All-below f [] k m le h = tt
All-below f (x ∷ xs) k m le h = (omega (arith, h.0), All-below f xs k m le h.1)

IsLeast-cons :
    (wire : Bytes) (off : ℕ) (offs : List ℕ) (k : ℕ)
    → IsLeast wire offs k
    → IsLeast wire (off ∷ offs) (min (u32_at wire off) k)
IsLeast-cons wire off offs k h = record {
  below =
      (omega arith, All-below (u32_at wire) offs k (min (u32_at wire off) k) (omega arith) h.below);
  reached = elim (dec_le (u32_at wire off) k) [
    | yes le ↦ ground arith
    | no more ↦
        let least : min (u32_at wire off) k ≡ k = omega arith in
        subst (λ (n : ℕ). any (λ x. u32_at wire x == n) (off ∷ offs) ≡ true) (sym least)
          (ground (arith, h.reached))
  ];
}

min_of-ttls_at :
    (wire : Bytes) (lo : ℕ) (offs : List ℕ)
    → Fields lo offs (length wire)
    → ((min_of (ttls_at wire offs) ≡ none) → length offs ≡ 0)
      × ((m : ℕ) → min_of (ttls_at wire offs) ≡ some m → IsLeast wire offs m)
unfolding min_of ttls_at
min_of-ttls_at wire lo [] h = (λ e. refl, λ m e. absurd (ground arith))
min_of-ttls_at wire lo (off ∷ offs) h =
    let (empty, least) = min_of-ttls_at wire (off + 4) offs h.1 in
    let inside : leb (off + 4) (length wire) ≡ true =
      le→leb _ _ (Fields-le (off + 4) offs (length wire) h.1) in
    let (first, next) = min_of_step wire off offs inside in
    elim (Option-cases (min_of (ttls_at wire offs))) [
      | inl nothing ↦ (
        λ e. absurd (let clash : some (u32_at wire off) ≡ none = sym (first nothing) ∙ e in cc),
        λ m e.
            let same : u32_at wire off ≡ m = some-injective (sym (first nothing) ∙ e) in
            record {
              below = (omega arith, All-empty _ offs (empty nothing));
              reached = ground arith;
            },
      )
      | inr (k, found) ↦ (
        λ e.
            absurd
              (let clash : some (min (u32_at wire off) k) ≡ none = sym (next k found) ∙ e in cc),
        λ m e.
            subst (IsLeast wire (off ∷ offs)) (some-injective (sym (next k found) ∙ e))
              (IsLeast-cons wire off offs k (least k found)),
      )
    ]

Fields-take : (n lo : ℕ) (offs : List ℕ) (hi : ℕ) → Fields lo offs hi → Fields lo (take n offs) hi
Fields-take zero lo offs hi h = Fields-le lo offs hi h
Fields-take (suc n) lo [] hi h = h
Fields-take (suc n) lo (off ∷ offs) hi h = (h.0, Fields-take n (off + 4) offs hi h.1)

-- For what the scan of a message found, `min_ttl_from_wire` returns the least of the TTLs at the
-- offsets that belong to the answers, and nothing exactly where no offset does.
pub min_ttl_from_wire-IsLeast :
    (wire : Bytes) (meta : WireMeta)
    → scan_ttl_offsets wire ≡ ok meta
    → ((min_ttl_from_wire wire meta ≡ none) ↔ (meta.answer_count ≡ 0))
      × ((m : ℕ)
          → min_ttl_from_wire wire meta ≡ some m
          → IsLeast wire (take meta.answer_count meta.ttl_offsets) m)
unfolding min_ttl_from_wire min_of ttls_at
min_ttl_from_wire-IsLeast wire meta scanned =
    let m : IsMeta wire meta =
      subst (Settles (IsMeta wire)) scanned (scan_ttl_offsets-IsMeta wire) in
    let (empty, least) =
      min_of-ttls_at wire 12 (take meta.answer_count meta.ttl_offsets)
        (Fields-take meta.answer_count 12 meta.ttl_offsets (length wire) m.fields) in
    (
      (
        λ e. omega (arith, empty e, length-take meta.answer_count meta.ttl_offsets, m.answers),
        λ zero_count. rw (zero_count, take) refl,
      ),
      least,
    )
