-- ===== src/Dnssec/Encloser.antt =====
-- The proof that the names below an encloser do not exist.
use numa.Dnssec.Hashed.{any_covers-Covered, not-false, decoded-Owned, Covered, Owned}
use numa.Dnssec.Trust.{guard-true, if_some-true}
use numa.Prelude.{
  if_some, if◌then◌else◌, subst, is_nil, ◌++◌, sym, Bool-cases, ap, ◌∙◌, bytes_key, any, Option,
  ◌≡◌, not, ◌=?◌, List, Bool, refl, true, false, none, some, inl, inr, [], ◌∷◌,
}
use numa.Dnssec.Denial.{wildcard_of, ancestor_hashes, nsec3_denies, denied_below, decode_owners}
use numa.Dnssec.Nsec.{join_labels, nsec3_hash, nsec3_any_covers}
use numa.Dnssec.Keys.{Crypto}
use numa.Record.{Nsec3, DnsRecord}
use numa.Buffer.{Bytes}

module _ ⦃crypto : Crypto⦄ where
  -- The hash of the name with the parameters of the record.
  abbrev pub HashOf : Nsec3 → Bytes → Bytes → Type 0
  HashOf n name h = nsec3_hash name n.hash_algorithm n.iterations n.salt ≡ some (some h)

  -- Some name above exists, the name one label below it does not, and neither does its wildcard.
  pub record EncloserProof (n : Nsec3) (nsec3s : List DnsRecord) (labels : List Bytes)
      : Type 0 where
    pub below : List Bytes
    pub next : Bytes
    pub encloser : List Bytes
    pub parts : labels ≡ below ++ (next ∷ encloser)
    pub proper : is_nil encloser ≡ false
    pub encloser_hash : Bytes
    pub of_encloser : HashOf n (join_labels encloser) encloser_hash
    pub owned : Owned nsec3s encloser_hash
    pub next_hash : Bytes
    pub of_next : HashOf n (join_labels (next ∷ encloser)) next_hash
    pub covered : Covered nsec3s next_hash
    pub wildcard_hash : Bytes
    pub of_wildcard : HashOf n (wildcard_of (join_labels encloser)) wildcard_hash
    pub denied : Covered nsec3s wildcard_hash

  -- One hash for each name from the first on.
  unfoldable pub Hashes : Nsec3 → List Bytes → List (Option Bytes) → Type 0
  Hashes n [] [] = Unit
  Hashes n (l ∷ ls) (h ∷ hs) =
      (nsec3_hash (join_labels (l ∷ ls)) n.hash_algorithm n.iterations n.salt ≡ some h)
      × Hashes n ls hs
  Hashes n _ _ = ⊥

  some_hashes : {x y : List (Option Bytes)} → some x ≡ some y → x ≡ y
  some_hashes e = cc

  pub ancestor_hashes-Hashes :
      (n : Nsec3) (ls : List Bytes) (hs : List (Option Bytes))
      → ancestor_hashes n ls ≡ some hs
      → Hashes n ls hs
  unfolding ancestor_hashes Hashes
  ancestor_hashes-Hashes n [] hs e = subst (Hashes n []) (some_hashes e) tt
  ancestor_hashes-Hashes n (l ∷ ls) hs e =
      let (h, hashed, e₁) =
        if_some-true (nsec3_hash (join_labels (l ∷ ls)) n.hash_algorithm n.iterations n.salt)
          (λ h. if_some (ancestor_hashes n ls) (λ hs. some (h ∷ hs))) hs e in
      let (rest, later, e₂) = if_some-true (ancestor_hashes n ls) (λ hs. some (h ∷ hs)) hs e₁ in
      subst (Hashes n (l ∷ ls)) (some_hashes e₂) (hashed, ancestor_hashes-Hashes n ls rest later)

  some_is_true : {t : Bool} → some t ≡ some true → t ≡ true
  some_is_true e = cc

  wildcard_denied :
      (nsec3s : List DnsRecord) (wc : Option Bytes)
      → (elim wc as (λ x. Option Bool) [
        | none ↦ some false
        | some h ↦ some (nsec3_any_covers (decode_owners nsec3s) h)
      ])
        ≡ some true
      → (h : Bytes) × (wc ≡ some h) × Covered nsec3s h
  wildcard_denied nsec3s none e = absurd (let k : false ≡ true = some_is_true e in cc)
  wildcard_denied nsec3s (some h) e = (h, refl, any_covers-Covered nsec3s h (some_is_true e))

  below_part :
      (n : Nsec3) (nsec3s : List DnsRecord) (next : Bytes) (encloser : List Bytes)
      (ce nc : Option Bytes)
      → is_nil encloser ≡ false
      → nsec3_hash (join_labels encloser) n.hash_algorithm n.iterations n.salt ≡ some ce
      → nsec3_hash (join_labels (next ∷ encloser)) n.hash_algorithm n.iterations n.salt ≡ some nc
      → denied_below n (decode_owners nsec3s) encloser ce nc ≡ some true
      → EncloserProof n nsec3s (next ∷ encloser)
  unfolding denied_below
  below_part n nsec3s next encloser ce none filled of_ce of_nc e =
      absurd (let k : false ≡ true = some_is_true e in cc)
  below_part n nsec3s next encloser none (some nc) filled of_ce of_nc e =
      absurd (let k : false ≡ true = some_is_true e in cc)
  below_part n nsec3s next encloser (some ce) (some nc) filled of_ce of_nc e =
      let decoded : List (Bytes × DnsRecord) = decode_owners nsec3s in
      let (owned, e₁) = guard-true (not (any (λ d. d.0 =? ce) decoded)) _ e in
      let (covered, e₂) = guard-true (not (nsec3_any_covers decoded nc)) _ e₁ in
      let (wc, hashed, e₃) =
        if_some-true
          (nsec3_hash (wildcard_of (join_labels encloser)) n.hash_algorithm n.iterations n.salt)
          (λ wc. elim wc [ none ↦ some false | some h ↦ some (nsec3_any_covers decoded h) ]) true
          e₂ in
      let (h, is_some, denied) = wildcard_denied nsec3s wc e₃ in
      record {
        below = [];
        next = next;
        encloser = encloser;
        parts = refl;
        proper = filled;
        encloser_hash = ce;
        of_encloser = of_ce;
        owned = decoded-Owned nsec3s ce (not-false _ owned);
        next_hash = nc;
        of_next = of_nc;
        covered = any_covers-Covered nsec3s nc (not-false _ covered);
        wildcard_hash = h;
        of_wildcard = hashed ∙ ap some is_some;
        denied = denied;
      }

  -- The proof for a name with one more label.
  below_deeper :
      (n : Nsec3) (nsec3s : List DnsRecord) (l : Bytes) (ls : List Bytes)
      → EncloserProof n nsec3s ls
      → EncloserProof n nsec3s (l ∷ ls)
  below_deeper n nsec3s l ls p = record {
    below = l ∷ p.below;
    next = p.next;
    encloser = p.encloser;
    parts = ap (λ xs. l ∷ xs) p.parts;
    proper = p.proper;
    encloser_hash = p.encloser_hash;
    of_encloser = p.of_encloser;
    owned = p.owned;
    next_hash = p.next_hash;
    of_next = p.of_next;
    covered = p.covered;
    wildcard_hash = p.wildcard_hash;
    of_wildcard = p.of_wildcard;
    denied = p.denied;
  }

  pub nsec3_denies-Proof :
      (n : Nsec3) (nsec3s : List DnsRecord) (ls : List Bytes) (hs : List (Option Bytes))
      → Hashes n ls hs
      → nsec3_denies n (decode_owners nsec3s) ls hs ≡ some true
      → EncloserProof n nsec3s ls
  unfolding nsec3_denies Hashes
  nsec3_denies-Proof n nsec3s [] hs h e = absurd (let k : false ≡ true = some_is_true e in cc)
  nsec3_denies-Proof n nsec3s (l ∷ ls) [] h e = absurd (let k : false ≡ true = some_is_true e in cc)
  nsec3_denies-Proof n nsec3s (l ∷ ls) (nc ∷ []) h e =
      absurd (let k : false ≡ true = some_is_true e in cc)
  nsec3_denies-Proof n nsec3s (l ∷ []) (nc ∷ ce ∷ hs) h e = absurd h.1
  nsec3_denies-Proof n nsec3s (l ∷ m ∷ ls) (nc ∷ ce ∷ hs) h e =
      let decoded : List (Bytes × DnsRecord) = decode_owners nsec3s in
      let rest : Option Bool = nsec3_denies n decoded (m ∷ ls) (ce ∷ hs) in
      let (proven, ran, e₁) =
        if_some-true (denied_below n decoded (m ∷ ls) ce nc)
          (λ proven. if proven then some true else rest) true e in
      elim (Bool-cases proven) [
        | inl here ↦ below_part n nsec3s l (m ∷ ls) ce nc refl h.1.0 h.0 (ran ∙ ap some here)
        | inr later ↦
            let p : EncloserProof n nsec3s (m ∷ ls) =
              nsec3_denies-Proof n nsec3s (m ∷ ls) (ce ∷ hs) h.1
                (sym (ap (λ t. if t then some true else rest) later) ∙ e₁) in
            below_deeper n nsec3s l (m ∷ ls) p
      ]
