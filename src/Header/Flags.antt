-- ===== src/Header/Flags.antt =====
-- The two flag bytes: what `write` packs, `read` takes apart.
use numa.Header.{
  refused, notimp, nxdomain, servfail, formerr, noerror, rescode_to_num, rescode_from_num, bit,
  flags_low, flags_high, ResultCode,
}
use numa.Prelude.{
  ◌∙◌, ap, arith, ◌==◌, ◌^◌, ◌/◌, bit_and, ◌&&◌, ltb, ◌<◌, not, ◌≡◌, ℕ, Bool, refl, true, false,
}
use numa.Prelude.Bits.{all_below_sound, all_bools_sound, all_bools, all_below}

same_bit : Bool → Bool → Bool
same_bit true b = b
same_bit false b = not b

same_bit_sound : (a b : Bool) → same_bit a b ≡ true → b ≡ a
unfolding same_bit
same_bit_sound true b h = h
same_bit_sound false true h = cc
same_bit_sound false false h = refl

high_agrees : Bool → Bool → Bool → Bool → ℕ → Bool
high_agrees rd tc aa qr op =
    let a = flags_high rd tc aa op qr in
    ltb a 256
    && same_bit rd (bit a 0)
    && same_bit tc (bit a 1)
    && same_bit aa (bit a 2)
    && (bit_and (a / 2 ^ 3) 0x0f == op)
    && same_bit qr (bit a 7)

-- Every setting of the four bits, with every opcode.
high_table :
    all_bools (λ rd.
      all_bools (λ tc. all_bools (λ aa. all_bools (λ qr. all_below 16 (high_agrees rd tc aa qr)))))
    ≡ true
unfolding all_below all_bools high_agrees same_bit flags_high
high_table = refl

high_agrees_all : (rd tc aa qr : Bool) (op : ℕ) → op < 16 → high_agrees rd tc aa qr op ≡ true
high_agrees_all rd tc aa qr op h =
    all_below_sound 16 (high_agrees rd tc aa qr) op
      (all_bools_sound (λ qr. all_below 16 (high_agrees rd tc aa qr))
        (all_bools_sound (λ aa. all_bools (λ qr. all_below 16 (high_agrees rd tc aa qr)))
          (all_bools_sound
            (λ tc. all_bools (λ aa. all_bools (λ qr. all_below 16 (high_agrees rd tc aa qr))))
            (all_bools_sound
              (λ rd.
                all_bools (λ tc.
                  all_bools (λ aa. all_bools (λ qr. all_below 16 (high_agrees rd tc aa qr)))))
              high_table rd)
            tc)
          aa)
        qr)
      h

pub flags_high_read :
    (rd tc aa qr : Bool) (op : ℕ)
    → op < 16
    → (flags_high rd tc aa op qr < 256)
      × (bit (flags_high rd tc aa op qr) 0 ≡ rd)
      × (bit (flags_high rd tc aa op qr) 1 ≡ tc)
      × (bit (flags_high rd tc aa op qr) 2 ≡ aa)
      × (bit_and (flags_high rd tc aa op qr / 2 ^ 3) 0x0f ≡ op)
      × (bit (flags_high rd tc aa op qr) 7 ≡ qr)
unfolding high_agrees
flags_high_read rd tc aa qr op h =
    let a : ℕ = flags_high rd tc aa op qr in
    let t = high_agrees_all rd tc aa qr op h in
    (
      ground (arith, t),
      same_bit_sound rd _ (ground (arith, t)),
      same_bit_sound tc _ (ground (arith, t)),
      same_bit_sound aa _ (ground (arith, t)),
      ground (arith, t),
      same_bit_sound qr _ (ground (arith, t)),
    )

low_agrees : ResultCode → Bool → Bool → Bool → Bool → Bool
low_agrees rc cd ad z ra =
    let b = flags_low rc cd ad z ra in
    ltb b 256
    && (bit_and b 0x0f == rescode_to_num rc)
    && same_bit cd (bit b 4)
    && same_bit ad (bit b 5)
    && same_bit z (bit b 6)
    && same_bit ra (bit b 7)

low_table :
    (rc : ResultCode)
    → all_bools (λ cd. all_bools (λ ad. all_bools (λ z. all_bools (low_agrees rc cd ad z)))) ≡ true
unfolding all_bools low_agrees same_bit flags_low
low_table noerror = refl
low_table formerr = refl
low_table servfail = refl
low_table nxdomain = refl
low_table notimp = refl
low_table refused = refl

low_agrees_all : (rc : ResultCode) (cd ad z ra : Bool) → low_agrees rc cd ad z ra ≡ true
low_agrees_all rc cd ad z = all_bools_sound (low_agrees rc cd ad z) (
    all_bools_sound (λ z. all_bools (low_agrees rc cd ad z))
      (all_bools_sound (λ ad. all_bools (λ z. all_bools (low_agrees rc cd ad z)))
        (all_bools_sound
          (λ cd. all_bools (λ ad. all_bools (λ z. all_bools (low_agrees rc cd ad z))))
          (low_table rc) cd)
        ad)
      z)

-- A code that the enumeration has survives its number; any other number reads as `noerror`.
pub rescode_from_num-to_num : (rc : ResultCode) → rescode_from_num (rescode_to_num rc) ≡ rc
unfolding rescode_from_num rescode_to_num
rescode_from_num-to_num noerror = refl
rescode_from_num-to_num formerr = refl
rescode_from_num-to_num servfail = refl
rescode_from_num-to_num nxdomain = refl
rescode_from_num-to_num notimp = refl
rescode_from_num-to_num refused = refl

pub flags_low_read :
    (rc : ResultCode) (cd ad z ra : Bool)
    → (flags_low rc cd ad z ra < 256)
      × (rescode_from_num (bit_and (flags_low rc cd ad z ra) 0x0f) ≡ rc)
      × (bit (flags_low rc cd ad z ra) 4 ≡ cd)
      × (bit (flags_low rc cd ad z ra) 5 ≡ ad)
      × (bit (flags_low rc cd ad z ra) 6 ≡ z)
      × (bit (flags_low rc cd ad z ra) 7 ≡ ra)
unfolding low_agrees
flags_low_read rc cd ad z ra =
    let b : ℕ = flags_low rc cd ad z ra in
    let t = low_agrees_all rc cd ad z ra in
    let code : bit_and b 0x0f ≡ rescode_to_num rc = ground (arith, t) in
    (
      ground (arith, t),
      ap rescode_from_num code ∙ rescode_from_num-to_num rc,
      same_bit_sound cd _ (ground (arith, t)),
      same_bit_sound ad _ (ground (arith, t)),
      same_bit_sound z _ (ground (arith, t)),
      same_bit_sound ra _ (ground (arith, t)),
    )
