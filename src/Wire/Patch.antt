-- ===== src/Wire/Patch.antt =====
-- Patching the ID and the TTL fields of a message.
use numa.Buffer.Words.{be16, be32}
use numa.Wire.Scan.{scan_ttl_offsets-IsMeta, Settles, IsMeta, Fields-le, Fields}
use numa.Wire.{
  u16_at, scan_ttl_offsets, WireMeta, patch_id, u32_at, byte, set_elem?, set_run, patch_ttls,
}
use numa.Error.{ok}
use numa.Buffer.Codec.{Holds-agree, Holds-at, Holds}
use numa.Prelude.{
  ap, ◌==◌, sym, if◌then◌else◌, subst, All, ◌∙◌, ◌*◌, ◌≡◌, arith, ◌≤◌, ◌+◌, length, ◌<◌, ℕ, List,
  refl, zero, suc, some, inl, inr, [], ◌∷◌, ◌⊎◌,
}
use numa.Buffer.{Bytes}

set_elem?_step :
    (x : ℕ) (xs ys : Bytes) (i v : ℕ)
    → set_elem? xs i v ≡ some ys
    → set_elem? (x ∷ xs) (suc i) v ≡ some (x ∷ ys)
unfolding set_elem?
set_elem?_step x xs ys i v e = rw e

set_run_step :
    (wire next : Bytes) (off v : ℕ) (vs : Bytes)
    → set_elem? wire off v ≡ some next
    → set_run wire off (v ∷ vs) ≡ set_run next (off + 1) vs
unfolding set_run
set_run_step wire next off v vs e = rw (e, set_run)

patch_ttls_step :
    (wire next : Bytes) (off : ℕ) (offs : List ℕ) (ttl : ℕ)
    → set_run wire off (be32 ttl) ≡ some next
    → patch_ttls wire (off ∷ offs) ttl ≡ patch_ttls next offs ttl
unfolding patch_ttls
patch_ttls_step wire next off offs ttl e = rw (e, patch_ttls)

set_elem?-found :
    (wire : Bytes) (i v : ℕ)
    → i < length wire
    → (ys : Bytes) × (set_elem? wire i v ≡ some ys)
      × (length ys ≡ length wire)
      × ((j : ℕ) → byte ys j ≡ (if j == i then v else byte wire j))
unfolding set_elem?
set_elem?-found [] i v inside = absurd (omega arith)
set_elem?-found (x ∷ xs) zero v inside =
    (v ∷ xs, refl, refl, elim [ zero ↦ refl | suc j ↦ ground arith ])
set_elem?-found (x ∷ xs) (suc i) v inside =
    let (ys, found, size, bytes) = set_elem?-found xs i v (omega arith) in
    (
      x ∷ ys,
      set_elem?_step x xs ys i v found,
      omega (arith, size),
      elim [ zero ↦ ground arith | suc j ↦ bytes j ∙ ground arith ],
    )

-- `vs` written at `off`: the rest of the message is as it was.
pub record Patched (wire : Bytes) (off : ℕ) (vs : Bytes) (ys : Bytes) : Type 0 where
  pub size : length ys ≡ length wire
  pub holds : Holds (byte ys) off vs
  pub outside : (j : ℕ) → (j < off) ⊎ (off + length vs ≤ j) → byte ys j ≡ byte wire j

pub set_run-Patched :
    (wire : Bytes) (off : ℕ) (vs : Bytes)
    → off + length vs ≤ length wire
    → (ys : Bytes) × (set_run wire off vs ≡ some ys) × Patched wire off vs ys
unfolding set_run
set_run-Patched wire off [] room =
    (wire, refl, record { size = refl; holds = tt; outside = λ j far. refl })
set_run-Patched wire off (v ∷ vs) room =
    let (next, first, size, bytes) = set_elem?-found wire off v (omega arith) in
    let (ys, rest, p) = set_run-Patched next (off + 1) vs (omega (arith, size)) in
    (
      ys,
      set_run_step wire next off v vs first ∙ rest,
      record {
        size = p.size ∙ size;
        holds = (
          p.outside off (inl (omega arith)) ∙ bytes off ∙ ground arith,
          Holds-at (byte ys) (off + 1) (suc off) vs (omega arith) p.holds,
        );
        outside = λ j far.
            p.outside j (elim far [ inl lo ↦ inl (omega arith) | inr hi ↦ inr (omega arith) ])
            ∙ bytes j
            ∙ (elim far [ inl lo ↦ ground arith | inr hi ↦ ground arith ]);
      },
    )

-- Whether a byte is in none of the four-byte fields.
abbrev pub Outside : List ℕ → ℕ → Type 0
Outside [] j = Unit {0}
Outside (off ∷ offs) j = ((j < off) ⊎ (off + 4 ≤ j)) × Outside offs j

pub record TtlsPatched (wire : Bytes) (offs : List ℕ) (ttl : ℕ) (ys : Bytes) : Type 0 where
  pub size : length ys ≡ length wire
  pub ttls : All (λ off. u32_at ys off ≡ ttl) offs
  pub outside : (j : ℕ) → Outside offs j → byte ys j ≡ byte wire j

word_of :
    (f : ℕ → ℕ) (off ttl : ℕ)
    → Holds f off (be32 ttl)
    → ((f off * 256 + f (off + 1)) * 256 + f (off + 2)) * 256 + f (off + 3) ≡ ttl
word_of f off ttl h =
    let e1 : f (off + 1) ≡ f (suc off) = ap f (omega arith) in
    let e2 : f (off + 2) ≡ f (suc (suc off)) = ap f (omega arith) in
    let e3 : f (off + 3) ≡ f (suc (suc (suc off))) = ap f (omega arith) in
    omega (arith, h.0, h.1.0, h.1.1.0, h.1.1.1.0, e1, e2, e3)

below_Outside : (lo : ℕ) (offs : List ℕ) (hi j : ℕ) → Fields lo offs hi → j < lo → Outside offs j
below_Outside lo [] hi j h below = tt
below_Outside lo (off ∷ offs) hi j h below =
    (inl (omega arith), below_Outside (off + 4) offs hi j h.1 (omega arith))

pub patch_ttls-TtlsPatched :
    (wire : Bytes) (lo : ℕ) (offs : List ℕ) (ttl : ℕ)
    → Fields lo offs (length wire)
    → (ys : Bytes) × (patch_ttls wire offs ttl ≡ some ys) × TtlsPatched wire offs ttl ys
unfolding patch_ttls
patch_ttls-TtlsPatched wire lo [] ttl h =
    (wire, refl, record { size = refl; ttls = tt; outside = λ j far. refl })
patch_ttls-TtlsPatched wire lo (off ∷ offs) ttl h =
    let (next, first, p) =
      set_run-Patched wire off (be32 ttl) (Fields-le (off + 4) offs (length wire) h.1) in
    let (ys, rest, q) =
      patch_ttls-TtlsPatched next (off + 4) offs ttl
        (subst (λ (n : ℕ). Fields (off + 4) offs n) (sym p.size) h.1) in
    (
      ys,
      patch_ttls_step wire next off offs ttl first ∙ rest,
      record {
        size = q.size ∙ p.size;
        ttls = (
          word_of (byte ys) off ttl (
              Holds-agree (byte next) (byte ys) off (be32 ttl)
                (λ j lo hi. sym (q.outside j (below_Outside (off + 4) offs (length wire) j h.1 hi)))
                p.holds),
          q.ttls,
        );
        outside = λ j far. q.outside j far.1 ∙ p.outside j far.0;
      },
    )

-- Where the scan of a message returns, the message can be patched with any ID and any TTL: neither
-- `patch_id` nor `patch_ttls` indexes past its end, the length stays, every TTL field that was found
-- reads as the new TTL, the first two bytes are the new ID, and every byte elsewhere is as it was.
pub patched_as_scanned :
    (wire : Bytes) (meta : WireMeta) (new_id new_ttl : ℕ)
    → scan_ttl_offsets wire ≡ ok meta
    → (mid : Bytes) × (ys : Bytes) × (patch_id wire new_id ≡ some mid)
      × (patch_ttls mid meta.ttl_offsets new_ttl ≡ some ys)
      × (length ys ≡ length wire)
      × All (λ off. u32_at ys off ≡ new_ttl) meta.ttl_offsets
      × (u16_at ys 0 ≡ new_id)
      × ((j : ℕ) → 2 ≤ j → Outside meta.ttl_offsets j → byte ys j ≡ byte wire j)
unfolding patch_id
patched_as_scanned wire meta new_id new_ttl scanned =
    let m : IsMeta wire meta =
      subst (Settles (IsMeta wire)) scanned (scan_ttl_offsets-IsMeta wire) in
    let (mid, first, p) = set_run-Patched wire 0 (be16 new_id) (omega (arith, m.header)) in
    let (ys, rest, q) =
      patch_ttls-TtlsPatched mid 12 meta.ttl_offsets new_ttl
        (subst (λ (n : ℕ). Fields 12 meta.ttl_offsets n) (sym p.size) m.fields) in
    let near : (j : ℕ) → j < 12 → byte ys j ≡ byte mid j =
      λ j lt. q.outside j (below_Outside 12 meta.ttl_offsets (length wire) j m.fields lt) in
    (
      mid,
      ys,
      first,
      rest,
      q.size ∙ p.size,
      q.ttls,
      omega (arith, near 0 (omega arith), near 1 (omega arith), p.holds.0, p.holds.1.0),
      λ j past far. q.outside j far ∙ p.outside j (inr (omega arith)),
    )
