-- ===== src/Svcb/Strip.antt =====
-- Edits of a whole RDATA in its wire form.
use numa.Prelude.{
  All-of, take-append, Bool-cases, take, not, retain, if_some, if◌then◌else◌, any, Option, ltb, sym,
  append_assoc, ◌==◌, get_elem?-append, ◌∙◌, ap, get_elem?, length-append, ◌+◌, arith, bit_and,
  ◌++◌, ◌≤◌, ◌≡◌, length, All, ◌<◌, refl, zero, suc, true, false, none, some, inl, inr, [], ◌∷◌,
  List, ℕ, Bool,
}
use numa.Svcb.Passes.{Fits, written_by, changed_by, find_change-wire, rebuild-wire}
use numa.Svcb.{
  fuel_of, ipv6_hint_key, edit_ipv6hint, Edit, rewrite, edit_svcparams, edit_with, skip_name,
  strip_ipv6hint,
}
use numa.Prelude.Bits.{top_two_bits}
use numa.Svcb.Params.{length-param_wire, param_wire, edited, params_wire}
use numa.Buffer.Words.{be16}
use numa.Buffer.{Bytes}

pub record IsLabel (l : Bytes) : Type 0 where
  pub some_bytes : 0 < length l
  pub few_bytes : length l < 64

abbrev pub target_wire : List Bytes → Bytes
target_wire [] = 0 ∷ []
target_wire (l ∷ ls) = length l ∷ (l ++ target_wire ls)

-- A priority, a target name and parameters.
abbrev pub svcb_wire : ℕ → List Bytes → List (ℕ × Bytes) → Bytes
svcb_wire priority ls ps = be16 priority ++ (target_wire ls ++ params_wire ps)

length-labels : (ls : List Bytes) → length ls < length (target_wire ls)
length-labels [] = omega arith
length-labels (l ∷ ls) = omega (arith, length-labels ls, length-append l (target_wire ls))

length-params : (ps : List (ℕ × Bytes)) → length ps ≤ length (params_wire ps)
length-params [] = omega arith
length-params (p ∷ ps) =
    omega
      (arith, length-params ps, length-append (param_wire p) (params_wire ps), length-param_wire p)

no_pointer : (n : ℕ) → n < 64 → bit_and n 0xc0 ≡ 0
no_pointer n h = omega (arith, top_two_bits n (omega (arith, h)))

skip_name-wire :
    (ls : List Bytes) (front rest rdata : Bytes) (fuel pos : ℕ)
    → All IsLabel ls
    → length ls < fuel
    → rdata ≡ front ++ (target_wire ls ++ rest)
    → pos ≡ length front
    → skip_name fuel rdata pos ≡ some (length front + length (target_wire ls))
unfolding skip_name
skip_name-wire ls front rest rdata zero pos valid enough bytes at = absurd (omega (arith, enough))
skip_name-wire [] front rest rdata (suc fuel) pos valid enough bytes at =
    let root : get_elem? rdata pos ≡ some 0 =
      ap (λ x. get_elem? x pos) bytes ∙ get_elem?-append front (0 ∷ rest) pos at in
    rw root (ap some (omega (arith, at)))
skip_name-wire (l ∷ ls) front rest rdata (suc fuel) pos valid enough bytes at =
    let tail : Bytes = target_wire (l ∷ ls) ++ rest in
    let len : get_elem? rdata pos ≡ some (length l) =
      ap (λ x. get_elem? x pos) bytes ∙ get_elem?-append front tail pos at in
    let not_root : (length l == 0) ≡ false = ground (arith, valid.0.some_bytes) in
    let label : (bit_and (length l) 0xc0 == 0) ≡ true =
      ap (λ (n : ℕ). n == 0) (no_pointer (length l) valid.0.few_bytes) in
    let here : Bytes = front ++ (length l ∷ l) in
    let size : length here ≡ length front + (1 + length l) =
      omega (arith, length-append front (length l ∷ l)) in
    let bytes' : rdata ≡ here ++ (target_wire ls ++ rest) =
      bytes
      ∙ ap (λ (x : Bytes). front ++ (length l ∷ x)) (append_assoc l (target_wire ls) rest)
      ∙ sym (append_assoc front (length l ∷ l) (target_wire ls ++ rest)) in
    let inside : ltb (length rdata) (pos + 1 + length l) ≡ false = ground (
      arith,
      at,
      size,
      ap (λ (x : Bytes). length x) bytes',
      length-append here (target_wire ls ++ rest),
    ) in
    rw (len, not_root, label, inside)
      (skip_name-wire ls here rest rdata fuel (pos + 1 + length l) valid.1 (omega (arith, enough))
          bytes' (omega (arith, at, size))
        ∙ ap some (omega (arith, size, length-append l (target_wire ls))))

-- The bytes that an edit of all parameters gives, where it rewrites one.
abbrev pub with_params : ℕ → List Bytes → Option (Bool × List (ℕ × Bytes)) → Option Bytes
with_params priority ls none = none
with_params priority ls (some (changed, qs)) =
    if changed then some (svcb_wire priority ls qs) else none

with_params_case :
    (priority : ℕ) (ls : List Bytes) (rest : Option (Bool × List (ℕ × Bytes))) (out : Bytes)
    → out ≡ be16 priority ++ target_wire ls
    → if_some (changed_by false rest) (λ changed. if not changed then none else written_by out rest)
      ≡ with_params priority ls rest
with_params_case priority ls none out same = refl
with_params_case priority ls (some (true, qs)) out same =
    ap (λ (x : Bytes). some (x ++ params_wire qs)) same
with_params_case priority ls (some (false, qs)) out same = refl

-- On the wire form of a priority, a target name of valid labels and any parameters, an edit that makes no
-- value too long for its length field ends, and gives the wire form of the edited parameters under
-- the same priority and target where it rewrites one of them, and nothing where it keeps them all or
-- refuses one.
pub edit_svcparams-wire :
    (edit : ℕ → Bytes → Option Edit) (priority : ℕ) (ls : List Bytes) (ps : List (ℕ × Bytes))
    → All (Fits edit) ps
    → All IsLabel ls
    → edit_svcparams edit (svcb_wire priority ls ps) ≡ with_params priority ls (edited edit ps)
unfolding edit_with
edit_svcparams-wire edit priority ls ps fits valid =
    let rdata : Bytes = svcb_wire priority ls ps in
    let front : Bytes = be16 priority ++ target_wire ls in
    let fuel : ℕ = fuel_of rdata in
    let start : ℕ = 2 + length (target_wire ls) in
    let size : length rdata ≡ start + length (params_wire ps) =
      omega (arith, length-append (target_wire ls) (params_wire ps)) in
    let long : ltb (length rdata) 2 ≡ false = ground (arith, size) in
    let skipped : skip_name fuel rdata 2 ≡ some start =
      skip_name-wire ls (be16 priority) (params_wire ps) rdata fuel 2 valid
        (omega (arith, size, length-labels ls)) refl refl in
    let at : start ≡ length front = omega arith in
    let enough : length ps < fuel = omega (arith, size, length-params ps) in
    rw
      (
        long,
        skipped,
        find_change-wire edit ps front rdata fuel start false enough refl at,
        rebuild-wire edit ps front rdata fuel start (take start rdata) fits enough refl at,
      )
      (with_params_case priority ls (edited edit ps) (take start rdata)
        (take-append front (params_wire ps) start at))

edited-ipv6hint :
    (ps : List (ℕ × Bytes))
    → edited edit_ipv6hint ps
      ≡ some (any (λ p. p.0 == ipv6_hint_key) ps, retain (λ p. not (p.0 == ipv6_hint_key)) ps)
unfolding edit_ipv6hint
edited-ipv6hint [] = refl
edited-ipv6hint (p ∷ ps) = elim (Bool-cases (p.0 == ipv6_hint_key)) [
  | inl hint ↦ rw (hint, edited-ipv6hint ps) refl
  | inr other ↦ rw (other, edited-ipv6hint ps) refl
]

-- How many bytes an edit writes as a value.
abbrev pub edit_size : Option Edit → ℕ
edit_size (some (rewrite w)) = length w
edit_size _ = 0

edit_ipv6hint_size : (k : ℕ) (v : Bytes) → edit_size (edit_ipv6hint k v) ≡ 0
unfolding edit_ipv6hint
edit_ipv6hint_size k v = elim (Bool-cases (k == ipv6_hint_key)) [
  | inl hint ↦ rw hint refl
  | inr other ↦ rw other refl
]

pub ipv6hint-Fits : (qs : List (ℕ × Bytes)) → All (Fits edit_ipv6hint) qs
ipv6hint-Fits qs =
    All-of (Fits edit_ipv6hint) qs
      (λ p w same. omega (arith, ap edit_size same, edit_ipv6hint_size p.0 p.1))

any-retain :
    (ps : List (ℕ × Bytes))
    → any (λ p. p.0 == ipv6_hint_key) (retain (λ p. not (p.0 == ipv6_hint_key)) ps) ≡ false
any-retain [] = refl
any-retain (p ∷ ps) = elim (Bool-cases (p.0 == ipv6_hint_key)) [
  | inl hint ↦ rw hint (any-retain ps)
  | inr other ↦ rw other (rw other (any-retain ps))
]

-- On the wire form of a record with valid labels, strip_ipv6hint gives the record without its ipv6hint
-- parameters and with all the others where it has one, and nothing where it has none; on what it gives it
-- gives nothing.
pub strip_ipv6hint-wire :
    (priority : ℕ) (ls : List Bytes) (ps : List (ℕ × Bytes))
    → All IsLabel ls
    → (strip_ipv6hint (svcb_wire priority ls ps) ≡ (
        if any (λ p. p.0 == ipv6_hint_key) ps
        then some (svcb_wire priority ls (retain (λ p. not (p.0 == ipv6_hint_key)) ps))
        else none))
      × (strip_ipv6hint (svcb_wire priority ls (retain (λ p. not (p.0 == ipv6_hint_key)) ps))
          ≡ none)
strip_ipv6hint-wire priority ls ps valid =
    let once = λ (qs : List (ℕ × Bytes)).
      edit_svcparams-wire edit_ipv6hint priority ls qs (ipv6hint-Fits qs) valid
      ∙ ap (with_params priority ls) (edited-ipv6hint qs) in
    (once ps, once (retain (λ p. not (p.0 == ipv6_hint_key)) ps) ∙ rw (any-retain ps) refl)
