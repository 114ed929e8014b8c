-- ===== src/Svcb/Params.antt =====
-- The wire form of parameters, and the two passes on it.
use numa.Prelude.{
  ltb, take-append, ◌∙◌, drop-append, ap, drop, get_or-append, ◌-◌, append_assoc, sym, take, ◌||◌,
  length-append, ◌%◌, arith, ◌+◌, not, ◌^◌, if_some, ◌≡◌, ◌*◌, is_nil, Option, ◌++◌, length, ◌<◌,
  ◌/◌, if◌then◌else◌, refl, false, some, [], ◌∷◌, List, ℕ, Bool,
}
use numa.Wire.{u16_at, byte}
use numa.Svcb.{is_keep, Edit, keep, rewrite, read_param}
use numa.Buffer.Words.{be16}
use numa.Buffer.{Bytes}

-- A parameter's wire form: its key, the length of its value and the value.
abbrev pub param_wire : ℕ × Bytes → Bytes
param_wire p = be16 p.0 ++ (be16 (length p.1) ++ p.1)

abbrev pub params_wire : List (ℕ × Bytes) → Bytes
params_wire [] = []
params_wire (p ∷ ps) = param_wire p ++ params_wire ps

pub record IsParam (p : ℕ × Bytes) : Type 0 where
  pub key : p.0 < 2 ^ 16
  pub size : length p.1 < 2 ^ 16

-- What an edit leaves of the parameters in front of others.
abbrev pub after_edit : ℕ × Bytes → Edit → List (ℕ × Bytes) → List (ℕ × Bytes)
after_edit p keep ps = p ∷ ps
after_edit p (rewrite v) ps = if is_nil v then ps else (p.0, v) ∷ ps

module _ (edit : ℕ → Bytes → Option Edit) where
  -- The parameters after the edit of each, and whether one was rewritten.
  abbrev pub edited : List (ℕ × Bytes) → Option (Bool × List (ℕ × Bytes))
  edited [] = some (false, [])
  edited (p ∷ ps) = if_some (edit p.0 p.1) (λ e.
      if_some (edited ps) (λ (changed, qs). some (not (is_keep e) || changed, after_edit p e qs)))

pub length-param_wire : (p : ℕ × Bytes) → length (param_wire p) ≡ 4 + length p.1
length-param_wire p = omega (arith, length-append (be16 (length p.1)) p.1)

join_word : (v : ℕ) → v / 256 * 256 + v % 256 ≡ v
join_word v = omega arith

-- Each parameter is read where it stands.
pub read_param-wire :
    (front : Bytes) (p : ℕ × Bytes) (rest : Bytes)
    → read_param (front ++ (param_wire p ++ rest)) (length front)
      ≡ some (record { key = p.0; value = p.1; end = length front + 4 + length p.1 })
unfolding read_param
read_param-wire front p rest =
    let tail : Bytes = param_wire p ++ rest in
    let rdata : Bytes = front ++ tail in
    let pos : ℕ = length front in
    let size : length rdata ≡ pos + (4 + length p.1 + length rest) =
      omega (arith, length-append front tail, length-append p.1 rest) in
    let b0 : byte rdata pos ≡ p.0 / 256 = get_or-append front tail 0 pos 0 (omega arith) in
    let b1 : byte rdata (pos + 1) ≡ p.0 % 256 =
      get_or-append front tail 1 (pos + 1) 0 (omega arith) in
    let b2 : byte rdata (pos + 2) ≡ length p.1 / 256 =
      get_or-append front tail 2 (pos + 2) 0 (omega arith) in
    let b3 : byte rdata (pos + 2 + 1) ≡ length p.1 % 256 =
      get_or-append front tail 3 (pos + 2 + 1) 0 (omega arith) in
    let key : u16_at rdata pos ≡ p.0 = omega (arith, b0, b1) in
    let vlen : u16_at rdata (pos + 2) ≡ length p.1 = omega (arith, b2, b3) in
    let value : take (length p.1) (drop (pos + 4) rdata) ≡ p.1 =
      ap (take (length p.1)) (drop-append front tail 4 (pos + 4) refl)
      ∙ take-append p.1 rest (length p.1) refl in
    let room : ltb (length rdata) (pos + 4) ≡ false = ground (arith, size) in
    let whole : ltb (length rdata) (pos + 4 + length p.1) ≡ false = ground (arith, size) in
    rw (room, vlen, whole, key, value) refl

-- The bytes of the parameter itself.
pub own_bytes :
    (front : Bytes) (p : ℕ × Bytes) (rest : Bytes)
    → take
        (length front + 4 + length p.1 - length front)
        (drop (length front) (front ++ (param_wire p ++ rest)))
      ≡ param_wire p
own_bytes front p rest =
    ap (take (length front + 4 + length p.1 - length front))
      (drop-append front (param_wire p ++ rest) 0 (length front) (omega arith))
    ∙ take-append (param_wire p) rest _ (omega (arith, length-param_wire p))

pub regroup :
    (front : Bytes) (p : ℕ × Bytes) (rest : Bytes)
    → front ++ (param_wire p ++ rest) ≡ (front ++ param_wire p) ++ rest
regroup front p rest = sym (append_assoc front (param_wire p) rest)
