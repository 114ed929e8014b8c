-- ===== src/Svcb/Private.antt =====
-- Private addresses in the hints.
use numa.Prelude.{
  retain-All, All-retain, is_nil, ==_iff, ◌||◌, subst, ◌∙◌, ◌+◌, Option-cases, if◌then◌else◌,
  Option, ◌==◌, ◌%◌, drop-append, drop, sym, take-append, take, ltb, lt→ltb, ◌++◌, length-append,
  arith, ap, Bool-cases, retain, concat, ◌≤◌, length, ◌<◌, ◌≡◌, not, All, refl, zero, suc, true,
  false, none, some, inl, inr, [], ◌∷◌, List, ℕ, Bool,
}
use numa.Svcb.Passes.{Fits}
use numa.Svcb.Strip.{with_params, edit_size, svcb_wire, IsLabel, edit_svcparams-wire}
use numa.Svcb.{
  rewrite, ipv6_hint_key, is_keep, keep, ipv4_hint_key, Edit, filter_hint, chunks_exact, hint_addr,
  hint_stride, strip_private_hints, edit_hint,
}
use numa.Svcb.Params.{IsParam, edited, after_edit}
use numa.Buffer.{Bytes}
use native.Mathlib.Nat.{zero-mod, add-mod_left}
use numa.Acl.{IpAddr}

chunks_exact-concat :
    (stride fuel : ℕ) (cs : List Bytes)
    → 0 < stride
    → All (λ c. length c ≡ stride) cs
    → length cs ≤ fuel
    → chunks_exact fuel stride (concat cs) ≡ cs
unfolding chunks_exact
chunks_exact-concat stride zero [] some_bytes sizes enough = refl
chunks_exact-concat stride zero (c ∷ cs) some_bytes sizes enough = absurd (omega (arith, enough))
chunks_exact-concat stride (suc fuel) [] some_bytes sizes enough =
    rw (lt→ltb 0 stride some_bytes) refl
chunks_exact-concat stride (suc fuel) (c ∷ cs) some_bytes sizes enough =
    let whole : ltb (length (c ++ concat cs)) stride ≡ false =
      ground (arith, sizes.0, length-append c (concat cs)) in
    let first : take stride (c ++ concat cs) ≡ c = take-append c (concat cs) stride (sym sizes.0) in
    let rest : drop stride (c ++ concat cs) ≡ concat cs =
      drop-append c (concat cs) 0 stride (omega (arith, sizes.0)) in
    rw (whole, first, rest)
      (ap (λ (ds : List Bytes). c ∷ ds)
        (chunks_exact-concat stride fuel cs some_bytes sizes.1 (omega (arith, enough))))

length-concat :
    (stride : ℕ) (cs : List Bytes)
    → 0 < stride
    → All (λ c. length c ≡ stride) cs
    → length cs ≤ length (concat cs)
length-concat stride [] some_bytes sizes = omega arith
length-concat stride (c ∷ cs) some_bytes sizes =
    omega (arith, sizes.0, length-append c (concat cs), length-concat stride cs some_bytes sizes.1)

-- Whether a chunk is an address that may stay.
abbrev pub is_public : (IpAddr → Bool) → Bytes → Bool
is_public is_private chunk = not (is_private (hint_addr chunk))

filter_hint-concat :
    (is_private : IpAddr → Bool) (stride : ℕ) (cs : List Bytes)
    → 0 < stride
    → All (λ c. length c ≡ stride) cs
    → filter_hint (concat cs) stride is_private ≡ concat (retain (is_public is_private) cs)
unfolding filter_hint
filter_hint-concat is_private stride cs some_bytes sizes =
    ap (λ ds. concat (retain (is_public is_private) ds))
      (chunks_exact-concat stride (length (concat cs)) cs some_bytes sizes
        (length-concat stride cs some_bytes sizes))

length-concat-retain :
    (keeps : Bytes → Bool) (cs : List Bytes)
    → length (concat (retain keeps cs)) ≤ length (concat cs)
length-concat-retain keeps [] = omega arith
length-concat-retain keeps (c ∷ cs) = elim (Bool-cases (keeps c)) [
  | inl kept ↦ rw kept (
      omega (
        arith,
        length-append c (concat cs),
        length-append c (concat (retain keeps cs)),
        length-concat-retain keeps cs,
      ))
  | inr gone ↦ rw gone (omega (arith, length-append c (concat cs), length-concat-retain keeps cs))
]

-- A filter that takes no byte away takes no chunk away.
retain_every :
    (keeps : Bytes → Bool) (stride : ℕ) (cs : List Bytes)
    → 0 < stride
    → All (λ c. length c ≡ stride) cs
    → length (concat (retain keeps cs)) ≡ length (concat cs)
    → All (λ c. keeps c ≡ true) cs
retain_every keeps stride [] some_bytes sizes same = tt
retain_every keeps stride (c ∷ cs) some_bytes sizes same = elim (Bool-cases (keeps c)) [
  | inl kept ↦
      let k : length (c ++ concat (retain keeps cs)) ≡ length (c ++ concat cs) =
        ap (λ (t : Bool). length (concat (if t then c ∷ retain keeps cs else retain keeps cs)))
          (sym kept)
        ∙ same in
      (
        kept,
        retain_every keeps stride cs some_bytes sizes.1 (
            omega
              (arith, k, length-append c (concat cs), length-append c (concat (retain keeps cs)))),
      )
  | inr gone ↦
      let k : length (concat (retain keeps cs)) ≡ length (c ++ concat cs) =
        ap (λ (t : Bool). length (concat (if t then c ∷ retain keeps cs else retain keeps cs)))
          (sym gone)
        ∙ same in
      absurd (
        omega (
          arith,
          k,
          some_bytes,
          sizes.0,
          length-append c (concat cs),
          length-concat-retain keeps cs,
        ))
]

-- A hint is a row of addresses, and each of them passes the test.
pub record IsHint (keeps : Bytes → Bool) (p : ℕ × Bytes) (stride : ℕ) : Type 0 where
  pub chunks : List Bytes
  pub sizes : All (λ c. length c ≡ stride) chunks
  pub pass : All (λ c. keeps c ≡ true) chunks
  pub value : p.1 ≡ concat chunks

-- Where the parameter is a hint, of addresses that pass the test.
unfoldable pub HintsPass : (Bytes → Bool) → ℕ × Bytes → Type 0
HintsPass keeps p = (stride : ℕ) → hint_stride p.0 ≡ some stride → IsHint keeps p stride

whole_chunks :
    (stride : ℕ) (cs : List Bytes)
    → All (λ c. length c ≡ stride) cs
    → length (concat cs) % stride ≡ 0
whole_chunks stride [] sizes = zero-mod stride
whole_chunks stride (c ∷ cs) sizes =
    ap (λ (n : ℕ). n % stride)
      (let size : length (c ++ concat cs) ≡ stride + length (concat cs) =
          omega (arith, sizes.0, length-append c (concat cs)) in
        size)
    ∙ add-mod_left stride (length (concat cs))
    ∙ whole_chunks stride cs sizes.1

abbrev or_zero : Option ℕ → ℕ
or_zero none = 0
or_zero (some n) = n

hint_stride-positive : (k stride : ℕ) → hint_stride k ≡ some stride → 0 < stride
hint_stride-positive k stride h = elim (Bool-cases (k == ipv4_hint_key)) [
  | inl four ↦ let e : or_zero (hint_stride k) ≡ 4 = rw four refl in omega (arith, e, ap or_zero h)
  | inr other ↦ elim (Bool-cases (k == ipv6_hint_key)) [
    | inl six ↦
        let e : or_zero (hint_stride k) ≡ 16 = rw (other, six) refl in
        omega (arith, e, ap or_zero h)
    | inr more ↦
        let e : hint_stride k ≡ none = rw (other, more) refl in
        let clash : none ≡ some stride = sym e ∙ h in absurd cc
  ]
]

pub same_stride : (m n : ℕ) → some m ≡ some n → m ≡ n
same_stride m n e = cc

-- One parameter under the edit: what it becomes has addresses that pass alone, and so has the parameter
-- itself where it is kept.
record Scrubbed (is_private : IpAddr → Bool) (p : ℕ × Bytes) (e : Edit) : Type 0 where
  edit : edit_hint is_private p.0 p.1 ≡ some e
  after :
      (qs : List (ℕ × Bytes))
      → All (HintsPass (is_public is_private)) qs
      → All (HintsPass (is_public is_private)) (after_edit p e qs)
  size : edit_size (some e) ≤ length p.1
  kept : is_keep e ≡ true → HintsPass (is_public is_private) p

scrub_hint :
    (is_private : IpAddr → Bool) (p : ℕ × Bytes) (stride : ℕ)
    → hint_stride p.0 ≡ some stride
    → IsHint (λ c. true) p stride
    → (e : Edit) × Scrubbed is_private p e
unfolding edit_hint HintsPass
scrub_hint is_private p stride found h =
    let keeps : Bytes → Bool = is_public is_private in
    let kept : Bytes = concat (retain keeps h.chunks) in
    let some_bytes : 0 < stride = hint_stride-positive p.0 stride found in
    let filtered : filter_hint p.1 stride is_private ≡ kept =
      ap (λ v. filter_hint v stride is_private) h.value
      ∙ filter_hint-concat is_private stride h.chunks some_bytes h.sizes in
    let whole : (length p.1 % stride == 0) ≡ true =
      ap (λ (v : Bytes). length v % stride == 0) h.value
      ∙ ap (λ (n : ℕ). n == 0) (whole_chunks stride h.chunks h.sizes) in
    let hint : (q : ℕ × Bytes) → q.0 ≡ p.0 → IsHint keeps q stride → HintsPass keeps q =
      λ q same_key is_hint other found'.
        subst (IsHint keeps q)
          (same_stride stride other (sym found ∙ ap hint_stride (sym same_key) ∙ found')) is_hint in
    elim (Bool-cases (length kept == length p.1)) [
      | inl same ↦
          let pass : HintsPass keeps p = hint p refl (record {
            chunks = h.chunks;
            sizes = h.sizes;
            pass =
                retain_every keeps stride h.chunks some_bytes h.sizes
                  ((==_iff _ _).0 same ∙ ap (λ (v : Bytes). length v) h.value);
            value = h.value;
          }) in
          (
            keep,
            record {
              edit = rw (found, edit_hint) (rw (whole, filtered, same) refl);
              after = λ qs k. (pass, k);
              size = omega arith;
              kept = λ e. pass;
            },
          )
      | inr differs ↦ (
        rewrite kept,
        record {
          edit = rw (found, edit_hint) (rw (whole, filtered, differs) refl);
          after = λ qs k. elim (Bool-cases (is_nil kept)) [
            | inl empty ↦ rw (empty, All) k
            | inr full ↦
                rw (full, All)
                  (
                    hint (p.0, kept) refl
                        (record {
                          chunks = retain keeps h.chunks;
                          sizes = All-retain (λ c. length c ≡ stride) keeps h.chunks h.sizes;
                          pass = retain-All keeps h.chunks;
                          value = refl;
                        }),
                    k,
                  )
          ];
          size =
              omega
                (arith, ap (λ (v : Bytes). length v) h.value, length-concat-retain keeps h.chunks);
          kept = λ e. absurd (let k : false ≡ true = e in cc);
        },
      )
    ]

scrub_param :
    (is_private : IpAddr → Bool) (p : ℕ × Bytes)
    → HintsPass (λ c. true) p
    → (e : Edit) × Scrubbed is_private p e
unfolding edit_hint HintsPass
scrub_param is_private p h = elim (Option-cases (hint_stride p.0)) [
  | inr (stride, found) ↦ scrub_hint is_private p stride found (h stride found)
  | inl nothing ↦
      let pass : HintsPass (is_public is_private) p =
        λ stride found. let clash : none ≡ some stride = sym nothing ∙ found in absurd cc in
      (
        keep,
        record {
          edit = rw (nothing, edit_hint) refl;
          after = λ qs k. (pass, k);
          size = omega arith;
          kept = λ e. pass;
        },
      )
]

-- All parameters: the edit is accepted, what it gives has addresses that pass alone, and so have the
-- parameters themselves where none is rewritten.
scrub_params :
    (is_private : IpAddr → Bool) (ps : List (ℕ × Bytes))
    → All (HintsPass (λ c. true)) ps
    → (changed : Bool) × (qs : List (ℕ × Bytes)) × (edited (edit_hint is_private) ps
        ≡ some (changed, qs))
      × All (HintsPass (is_public is_private)) qs
      × (changed ≡ false → All (HintsPass (is_public is_private)) ps)
scrub_params is_private [] h = (false, [], refl, tt, λ e. tt)
scrub_params is_private (p ∷ ps) h =
    let (e, s) = scrub_param is_private p h.0 in
    let (changed, qs, same, public, untouched) = scrub_params is_private ps h.1 in
    (
      not (is_keep e) || changed,
      after_edit p e qs,
      rw (s.edit, same) refl,
      s.after qs public,
      λ none_changed.
          (s.kept (ground (arith, none_changed)), untouched (ground (arith, none_changed))),
    )

scrub-Fits :
    (is_private : IpAddr → Bool) (ps : List (ℕ × Bytes))
    → All IsParam ps
    → All (HintsPass (λ c. true)) ps
    → All (Fits (edit_hint is_private)) ps
scrub-Fits is_private [] sized framed = tt
scrub-Fits is_private (p ∷ ps) sized framed =
    let (e, s) = scrub_param is_private p framed.0 in
    (
      λ w same. omega (arith, ap edit_size (sym same ∙ s.edit), s.size, sized.0.size),
      scrub-Fits is_private ps sized.1 framed.1,
    )

some_bytes_injective : {x y : Bytes} → some x ≡ some y → x ≡ y
some_bytes_injective e = cc

-- On the wire form of a record whose target has valid labels and whose hints are rows of whole addresses,
-- what strip_private_hints gives is the wire form of parameters whose hints hold no address that the
-- test calls private; where it gives nothing, the record itself holds none.
pub strip_private_hints-HintsPass :
    (is_private : IpAddr → Bool) (priority : ℕ) (ls : List Bytes) (ps : List (ℕ × Bytes))
    → All IsLabel ls
    → All IsParam ps
    → All (HintsPass (λ c. true)) ps
    → ((out : Bytes)
        → strip_private_hints (svcb_wire priority ls ps) is_private ≡ some out
        → (qs : List (ℕ × Bytes)) × (out ≡ svcb_wire priority ls qs)
          × All (HintsPass (is_public is_private)) qs)
      × (strip_private_hints (svcb_wire priority ls ps) is_private ≡ none
          → All (HintsPass (is_public is_private)) ps)
strip_private_hints-HintsPass is_private priority ls ps valid sized framed =
    let (changed, qs, same, public, untouched) = scrub_params is_private ps framed in
    let result : strip_private_hints (svcb_wire priority ls ps) is_private
        ≡ (if changed then some (svcb_wire priority ls qs) else none) =
      edit_svcparams-wire (edit_hint is_private) priority ls ps
        (scrub-Fits is_private ps sized framed) valid
      ∙ ap (with_params priority ls) same in
    elim (Bool-cases changed) [
      | inl rewritten ↦ (
        λ out h. (qs, some_bytes_injective (sym h ∙ result ∙ rw rewritten refl), public),
        λ h. absurd (
            let clash : none ≡ some (svcb_wire priority ls qs) =
              sym h ∙ result ∙ rw rewritten refl in
            cc),
      )
      | inr same_bytes ↦ (
        λ out h. absurd (let clash : some out ≡ none = sym h ∙ result ∙ rw same_bytes refl in cc),
        λ h. untouched same_bytes,
      )
    ]
