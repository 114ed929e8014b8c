-- ===== src/Svcb/Passes.antt =====
-- The two passes over parameters in their wire form.
use numa.Prelude.{
  All, drop, ◌-◌, ◌/◌, take, ◌%◌, sym, append-nil, Option-cases, ◌∙◌, ap₂, ◌+◌, lt→leb_false,
  length-append, append_assoc, le→leb, ap, leb, arith, ◌^◌, not, ◌<◌, length, ◌≡◌, ◌||◌, if_some,
  ◌++◌, Option, refl, zero, suc, true, false, none, some, inl, inr, [], ◌∷◌, List, ℕ, Bool,
}
use numa.Svcb.Params.{
  own_bytes, regroup, read_param-wire, length-param_wire, edited, after_edit, param_wire,
  params_wire,
}
use numa.Svcb.{is_keep, Edit, keep, rewrite, read_param, find_change, rebuild, emit}
use numa.Buffer.{Bytes}

abbrev pub changed_by : Bool → Option (Bool × List (ℕ × Bytes)) → Option Bool
changed_by before none = none
changed_by before (some (changed, qs)) = some (before || changed)

abbrev pub written_by : Bytes → Option (Bool × List (ℕ × Bytes)) → Option Bytes
written_by out none = none
written_by out (some (changed, qs)) = some (out ++ params_wire qs)

-- What one parameter's edit does to the edit of all.
abbrev step_edited :
    ℕ × Bytes → Edit → Option (Bool × List (ℕ × Bytes)) → Option (Bool × List (ℕ × Bytes))
step_edited p e rest =
    if_some rest (λ (changed, qs). some (not (is_keep e) || changed, after_edit p e qs))

changed_step :
    (before : Bool) (p : ℕ × Bytes) (e : Edit) (rest : Option (Bool × List (ℕ × Bytes)))
    → changed_by (before || not (is_keep e)) rest ≡ changed_by before (step_edited p e rest)
changed_step before p e none = refl
changed_step before p e (some (changed, qs)) = ap some (ground arith)

written_step :
    (out : Bytes) (p : ℕ × Bytes) (e : Edit) (rest : Option (Bool × List (ℕ × Bytes)))
    → ((v : Bytes) → e ≡ rewrite v → length v < 2 ^ 16)
    → written_by (out ++ emit p.0 (param_wire p) e) rest ≡ written_by out (step_edited p e rest)
unfolding emit
written_step out p e none h = refl
written_step out p keep (some (changed, qs)) h =
    ap some (append_assoc out (param_wire p) (params_wire qs))
written_step out p (rewrite []) (some (changed, qs)) h =
    ap (λ o. some (o ++ params_wire qs)) (append-nil out)
written_step out p (rewrite (b ∷ v)) (some (changed, qs)) h =
    let fits : suc (length v) % 2 ^ 16 ≡ suc (length v) = omega (arith, h (b ∷ v) refl) in
    ap
      (λ (n : ℕ).
        some ((out ++ (p.0 / 256 ∷ p.0 % 256 ∷ n / 256 ∷ n % 256 ∷ b ∷ v)) ++ params_wire qs))
      fits
    ∙ ap some (append_assoc out (param_wire (p.0, b ∷ v)) (params_wire qs))

more_params :
    (front : Bytes) (p : ℕ × Bytes) (ps : List (ℕ × Bytes)) (rdata : Bytes) (pos : ℕ)
    → rdata ≡ front ++ params_wire (p ∷ ps)
    → pos ≡ length front
    → leb (length rdata) pos ≡ false
more_params front p ps rdata pos bytes at = lt→leb_false _ _ (
    omega (
      arith,
      at,
      ap (λ (x : Bytes). length x) bytes,
      length-append front (params_wire (p ∷ ps)),
      length-append (param_wire p) (params_wire ps),
      length-param_wire p,
    ))

-- What an edit writes for the parameter fits its length field.
abbrev pub Fits : (ℕ → Bytes → Option Edit) → ℕ × Bytes → Type 0
Fits edit p = (w : Bytes) → edit p.0 p.1 ≡ some (rewrite w) → length w < 2 ^ 16

module _ (edit : ℕ → Bytes → Option Edit) where
  pub find_change-wire :
      (ps : List (ℕ × Bytes)) (front rdata : Bytes) (fuel pos : ℕ) (before : Bool)
      → length ps < fuel
      → rdata ≡ front ++ params_wire ps
      → pos ≡ length front
      → find_change edit fuel rdata pos before ≡ changed_by before (edited edit ps)
  unfolding find_change
  find_change-wire ps front rdata zero pos before enough bytes at = absurd (omega (arith, enough))
  find_change-wire [] front rdata (suc fuel) pos before enough bytes at =
      let end : leb (length rdata) pos ≡ true =
        le→leb _ _
          (omega (arith, at, ap (λ (x : Bytes). length x) bytes, length-append front [])) in
      rw end (ap some (ground arith))
  find_change-wire (p ∷ ps) front rdata (suc fuel) pos before enough bytes at =
      let more : leb (length rdata) pos ≡ false = more_params front p ps rdata pos bytes at in
      let found : read_param rdata pos
          ≡ some (record { key = p.0; value = p.1; end = length front + 4 + length p.1 }) =
        ap₂ read_param bytes at ∙ read_param-wire front p (params_wire ps) in
      elim (Option-cases (edit p.0 p.1)) [
        | inl refused ↦ rw (more, found, refused) refl
        | inr (e, accepted) ↦
            rw (more, found, accepted)
              (find_change-wire ps (front ++ param_wire p) rdata fuel _ (before || not (is_keep e))
                  (omega (arith, enough)) (bytes ∙ regroup front p (params_wire ps))
                  (omega (arith, length-append front (param_wire p), length-param_wire p))
                ∙ changed_step before p e (edited edit ps))
      ]

  pub rebuild-wire :
      (ps : List (ℕ × Bytes)) (front rdata : Bytes) (fuel pos : ℕ) (out : Bytes)
      → All (Fits edit) ps
      → length ps < fuel
      → rdata ≡ front ++ params_wire ps
      → pos ≡ length front
      → rebuild edit fuel rdata pos out ≡ written_by out (edited edit ps)
  unfolding rebuild
  rebuild-wire ps front rdata zero pos out fits enough bytes at = absurd (omega (arith, enough))
  rebuild-wire [] front rdata (suc fuel) pos out fits enough bytes at =
      let end : leb (length rdata) pos ≡ true =
        le→leb _ _
          (omega (arith, at, ap (λ (x : Bytes). length x) bytes, length-append front [])) in
      rw end (ap some (sym (append-nil out)))
  rebuild-wire (p ∷ ps) front rdata (suc fuel) pos out fits enough bytes at =
      let more : leb (length rdata) pos ≡ false = more_params front p ps rdata pos bytes at in
      let found = ap₂ read_param bytes at ∙ read_param-wire front p (params_wire ps) in
      let own : take (length front + 4 + length p.1 - pos) (drop pos rdata) ≡ param_wire p =
        ap₂ (λ (n : ℕ) (x : Bytes). take (length front + 4 + length p.1 - n) (drop n x)) at bytes
        ∙ own_bytes front p (params_wire ps) in
      elim (Option-cases (edit p.0 p.1)) [
        | inl refused ↦ rw (more, found, refused) refl
        | inr (e, accepted) ↦
            rw (more, found, accepted, own)
              (rebuild-wire ps (front ++ param_wire p) rdata fuel _
                  (out ++ emit p.0 (param_wire p) e) fits.1 (omega (arith, enough))
                  (bytes ∙ regroup front p (params_wire ps))
                  (omega (arith, length-append front (param_wire p), length-param_wire p))
                ∙ written_step out p e (edited edit ps)
                    (λ v same. fits.0 v (accepted ∙ ap some same)))
      ]
