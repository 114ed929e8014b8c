-- ===== src/Svcb.antt =====
-- src/svcb.rs: the edits of the parameters in the RDATA of HTTPS and SVCB records.
pub mod Params
pub mod Passes
pub mod Strip
pub mod Private
use numa.Prelude.{
  refl, inl, inr, ◌^◌, bit_and, ◌-◌, ◌+◌, retain, get_elem?, take, ◌||◌, ◌++◌, ◌%◌, not, ltb, ◌==◌,
  is_nil, leb, if_some, concat, length, drop, if◌then◌else◌, Option, zero, suc, true, false, none,
  some, [], ◌∷◌, List, ℕ, Bool,
}
use numa.Acl.{v6, v4, IpAddr}
use numa.Wire.{byte, u16_at}
use numa.Buffer.Words.{be16}
use numa.Buffer.{Bytes}

abbrev pub ipv4_hint_key : ℕ
ipv4_hint_key = 4

abbrev pub ipv6_hint_key : ℕ
ipv6_hint_key = 6

unfoldable pub skip_name : ℕ → Bytes → ℕ → Option ℕ
skip_name zero rdata pos = none
skip_name (suc fuel) rdata pos = if_some (get_elem? rdata pos) (λ len.
    if len == 0
    then some (pos + 1)
    else if not (bit_and len 0xc0 == 0)
    then none
    else if ltb (length rdata) (pos + 1 + len)
    then none
    else skip_name fuel rdata (pos + 1 + len))

-- Each round moves forward inside the RDATA.
abbrev pub fuel_of : Bytes → ℕ
fuel_of rdata = suc (length rdata)

abbrev pub hint_stride : ℕ → Option ℕ
hint_stride key =
    if key == ipv4_hint_key then some 4 else if key == ipv6_hint_key then some 16 else none

unfoldable pub hint_addr : Bytes → IpAddr
hint_addr chunk =
    if length chunk == 4
    then v4 (record { o0 = byte chunk 0; o1 = byte chunk 1; o2 = byte chunk 2; o3 = byte chunk 3 })
    else v6 (record {
      s0 = u16_at chunk 0;
      s1 = u16_at chunk 2;
      s2 = u16_at chunk 4;
      s3 = u16_at chunk 6;
      s4 = u16_at chunk 8;
      s5 = u16_at chunk 10;
      s6 = u16_at chunk 12;
      s7 = u16_at chunk 14;
    })

-- `chunks_exact`: a remainder is left out. No more chunks than bytes.
unfoldable pub chunks_exact : ℕ → ℕ → Bytes → List Bytes
chunks_exact zero stride value = []
chunks_exact (suc fuel) stride value =
    let rest = chunks_exact fuel stride (drop stride value) in
    if ltb (length value) stride then [] else take stride value ∷ rest

unfoldable pub filter_hint : Bytes → ℕ → (IpAddr → Bool) → Bytes
filter_hint value stride is_private = concat (
    retain (λ chunk. not (is_private (hint_addr chunk))) (chunks_exact (length value) stride value))

pub record Param : Type 0 where
  pub key : ℕ
  pub value : Bytes
  pub end : ℕ

unfoldable pub read_param : Bytes → ℕ → Option Param
read_param rdata pos =
    if ltb (length rdata) (pos + 4)
    then none
    else let vlen = u16_at rdata (pos + 2) in
      if ltb (length rdata) (pos + 4 + vlen)
      then none
      else some (record {
        key = u16_at rdata pos;
        value = take vlen (drop (pos + 4) rdata);
        end = pos + 4 + vlen;
      })

-- An empty `rewrite` drops the parameter.
pub data Edit : Type 0 where
  keep : Edit
  rewrite : Bytes → Edit

abbrev pub is_keep : Edit → Bool
is_keep keep = true
is_keep (rewrite v) = false

-- What an edit adds to the output; `kept` is the parameter's own bytes.
unfoldable pub emit : ℕ → Bytes → Edit → Bytes
emit key kept keep = kept
emit key kept (rewrite v) = if is_nil v then [] else be16 key ++ (be16 (length v % 2 ^ 16) ++ v)

module _ (edit : ℕ → Bytes → Option Edit) where
  -- The first pass: whether an edit rewrites.
  unfoldable pub find_change : ℕ → Bytes → ℕ → Bool → Option Bool
  find_change zero rdata pos changed = none
  find_change (suc fuel) rdata pos changed =
      if leb (length rdata) pos
      then some changed
      else if_some (read_param rdata pos) (λ p.
        if_some (edit p.key p.value)
          (λ e. find_change fuel rdata p.end (changed || not (is_keep e))))

  -- The second pass.
  unfoldable pub rebuild : ℕ → Bytes → ℕ → Bytes → Option Bytes
  rebuild zero rdata pos out = none
  rebuild (suc fuel) rdata pos out =
      if leb (length rdata) pos
      then some out
      else if_some (read_param rdata pos) (λ p.
        if_some (edit p.key p.value) (λ e.
          rebuild fuel rdata p.end (out ++ emit p.key (take (p.end - pos) (drop pos rdata)) e)))

  unfoldable pub edit_with : ℕ → Bytes → Option Bytes
  edit_with fuel rdata =
      if ltb (length rdata) 2
      then none
      else if_some (skip_name fuel rdata 2) (λ params_start.
        if_some (find_change fuel rdata params_start false) (λ changed.
          if not changed then none else rebuild fuel rdata params_start (take params_start rdata)))

  abbrev pub edit_svcparams : Bytes → Option Bytes
  edit_svcparams rdata = edit_with (fuel_of rdata) rdata

unfoldable pub edit_hint : (IpAddr → Bool) → ℕ → Bytes → Option Edit
edit_hint is_private key value = elim (hint_stride key) [
  | none ↦ some keep
  | some stride ↦
      if not (length value % stride == 0)
      then none
      else let kept = filter_hint value stride is_private in
        some (if length kept == length value then keep else rewrite kept)
]

abbrev pub strip_private_hints : Bytes → (IpAddr → Bool) → Option Bytes
strip_private_hints rdata is_private = edit_svcparams (edit_hint is_private) rdata

unfoldable pub edit_ipv6hint : ℕ → Bytes → Option Edit
edit_ipv6hint key value = some (if key == ipv6_hint_key then rewrite [] else keep)

abbrev pub strip_ipv6hint : Bytes → Option Bytes
strip_ipv6hint rdata = edit_svcparams edit_ipv6hint rdata
