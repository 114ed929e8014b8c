-- ===== src/Buffer/Name/Flag.antt =====
-- `write_qname` on any text: it ends, and the overflow flag says exactly that the buffer was full.
-- For a writer that found the flag down.
use numa.Error.{Result-cases, label_too_long, end_of_buffer, Error, out_of_fuel, err, ok, Result}
use numa.Exec.{bind_inv, bind_err, Exec, ◌>>=◌}
use numa.Buffer.Name.Write.{after_label, to_label}
use numa.Prelude.{
  ◌<◌, Bool-cases, ◌-◌, ltb, leb, ◌==◌, Bool, if◌then◌else◌, ◌+◌, arith, ◌≤◌, length, ℕ, ◌≢◌, ◌≡◌,
  refl, zero, suc, true, false, inl, inr, [], ◌∷◌,
}
use numa.Buffer.Name.{
  is_root_text, write_labels, skip_dot, patch_label, write_qname, write_one_label, decimal_escape,
  check_label, escaped_byte, next_byte, write_label,
}
use numa.Buffer.Codec.{blit}
use numa.Buffer.{set, seek, buf_size, update, Bytes, write, Buffer}
use native.Mathlib.Decide.{dec_lt}

pub record Flagged {A : Type 0} (r : Result A × Buffer) : Type 0 where
  pub ends : r.0 ≢ err out_of_fuel
  pub raised : r.0 ≡ err end_of_buffer → r.1.overflow ≡ true
  pub reported : r.1.overflow ≡ true → r.0 ≡ err end_of_buffer

next_byte_shorter :
    (b : ℕ) (rest : Bytes) (v : ℕ) (rest' : Bytes)
    → next_byte b rest ≡ ok (v, rest')
    → length rest' ≤ length rest
unfolding next_byte escaped_byte decimal_escape
next_byte_shorter b [] v rest' e = ground arith
next_byte_shorter b (c1 ∷ []) v rest' e = ground arith
next_byte_shorter b (c1 ∷ c2 ∷ []) v rest' e = ground arith
next_byte_shorter b (c1 ∷ c2 ∷ c3 ∷ rest) v rest' e = ground arith

-- `next_byte` fails with an error of the text alone.
next_byte_errors :
    (b : ℕ) (rest : Bytes) (e : Error)
    → next_byte b rest ≡ err e
    → (e ≢ end_of_buffer) × (e ≢ out_of_fuel)
unfolding next_byte escaped_byte decimal_escape
next_byte_errors b [] e h = ground arith
next_byte_errors b (c1 ∷ []) e h = ground arith
next_byte_errors b (c1 ∷ c2 ∷ []) e h = ground arith
next_byte_errors b (c1 ∷ c2 ∷ c3 ∷ rest) e h = ground arith

Flagged-if :
    {A : Type 0} (t : Bool) (r s : Result A × Buffer)
    → Flagged r
    → Flagged s
    → Flagged (if t then r else s)
Flagged-if true r s hr hs = hr
Flagged-if false r s hr hs = hs

Flagged-ok : {A : Type 0} (a : A) (b : Buffer) → b.overflow ≡ false → Flagged (ok a, b)
Flagged-ok a b down = ground arith

Flagged-err :
    {A : Type 0} (e : Error) (b : Buffer)
    → e ≢ end_of_buffer
    → e ≢ out_of_fuel
    → b.overflow ≡ false
    → Flagged {A = A} (err e, b)
Flagged-err e b other timely down = ground arith

Flagged-full :
    {A : Type 0} (b : Buffer) → b.overflow ≡ true → Flagged {A = A} (err end_of_buffer, b)
Flagged-full b up = ground arith

-- One round of the inner loop, test by test.
write_label_round :
    (fuel start x : ℕ) (xs : Bytes) (v : ℕ) (rest : Bytes) (b : Buffer)
    → next_byte x xs ≡ ok (v, rest)
    → write_label (suc fuel) start (x ∷ xs) b ≡ (
        if x == b'.'
        then (ok (x ∷ xs), b)
        else if leb buf_size b.pos
        then (err end_of_buffer, record b { overflow = true })
        else if ltb 0x3f (b.pos + 1 - start)
        then (err label_too_long, record b { buf = update b.buf b.pos v; pos = b.pos + 1 })
        else write_label fuel start rest (record b { buf = update b.buf b.pos v; pos = b.pos + 1 }))
unfolding write_label check_label write ◌>>=◌
write_label_round fuel start x xs v rest b e = ground arith

write_label_refused :
    (fuel start x : ℕ) (xs : Bytes) (e : Error) (b : Buffer)
    → next_byte x xs ≡ err e
    → write_label (suc fuel) start (x ∷ xs) b ≡ (if x == b'.' then (ok (x ∷ xs), b) else (err e, b))
unfolding write_label ◌>>=◌
write_label_refused fuel start x xs e b h = ground arith

write_label-Flagged :
    (fuel start : ℕ) (text : Bytes) (b : Buffer)
    → length text ≤ fuel
    → b.overflow ≡ false
    → Flagged (write_label fuel start text b)
write_label-Flagged zero start [] b enough down = unfold write_label in Flagged-ok [] b down
write_label-Flagged (suc fuel) start [] b enough down = unfold write_label in Flagged-ok [] b down
write_label-Flagged zero start (x ∷ xs) b enough down = absurd (omega arith)
write_label-Flagged (suc fuel) start (x ∷ xs) b enough down = elim (Result-cases (next_byte x xs)) [
  | inl ((v, rest), e) ↦
      let c : Buffer = record b { buf = update b.buf b.pos v; pos = b.pos + 1 } in
      let fewer : length rest ≤ fuel = omega (arith, next_byte_shorter x xs v rest e) in
      rw (write_label_round fuel start x xs v rest b e) (
        Flagged-if _ _ _ (Flagged-ok _ b down) (
          Flagged-if _ _ _ (Flagged-full (record b { overflow = true }) refl) (
            Flagged-if _ _ _ (Flagged-err label_too_long c (λ p. cc) (λ p. cc) down)
              (write_label-Flagged fuel start rest c fewer down))))
  | inr (f, e) ↦
      let (other, timely) = next_byte_errors x xs f e in
      rw (write_label_refused fuel start x xs f b e)
        (Flagged-if _ _ _ (Flagged-ok _ b down) (Flagged-err f b other timely down))
]

-- What is left of a text that does not begin with a dot is shorter.
write_label_shorter :
    (fuel start : ℕ) (text : Bytes) (b : Buffer) (rest : Bytes)
    → (write_label fuel start text b).0 ≡ ok rest
    → length rest ≤ length text
write_label_shorter zero start [] b rest h = unfold write_label in ground arith
write_label_shorter (suc fuel) start [] b rest h = unfold write_label in ground arith
write_label_shorter zero start (x ∷ xs) b rest h = unfold write_label in cc
write_label_shorter (suc fuel) start (x ∷ xs) b rest h = elim (Result-cases (next_byte x xs)) [
  | inl ((v, rest'), e) ↦ ground (
    arith,
    write_label_round fuel start x xs v rest' b e,
    next_byte_shorter x xs v rest' e,
    write_label_shorter fuel start rest' (record b { buf = update b.buf b.pos v; pos = b.pos + 1 })
        rest,
  )
  | inr (f, e) ↦ ground (arith, write_label_refused fuel start x xs f b e)
]

Flagged-bind :
    {A B : Type 0} (m : Exec Buffer A) (f : A → Exec Buffer B) (b : Buffer)
    → Flagged (m b)
    → ((a : A) → (m b).0 ≡ ok a → (m b).1.overflow ≡ false → Flagged (f a (m b).1))
    → Flagged ((m >>= f) b)
Flagged-bind m f b hm hf = elim (Result-cases (m b).0) [
  | inl (a, e) ↦ unfold ◌>>=◌ in rw e (hf a e (down a e))
  | inr (x, e) ↦ rw (bind_err m f b x e) (ground (arith, hm.ends, hm.raised, hm.reported))
]
  where
    down : (a : _) → (m b).0 ≡ ok a → (m b).1.overflow ≡ false
    down a e = ground (arith, hm.reported)

write-Flagged : (v : ℕ) (b : Buffer) → b.overflow ≡ false → Flagged (write v b)
unfolding write
write-Flagged v b down = ground arith

-- The length byte goes to the place of the placeholder, which was inside the buffer.
after_label-Flagged :
    (p : ℕ) (rest : Bytes) (b : Buffer)
    → p < buf_size
    → b.overflow ≡ false
    → Flagged (after_label p rest b)
unfolding patch_label seek set ◌>>=◌
after_label-Flagged p rest b inside down = ground arith

after_label_rest :
    (p : ℕ) (rest : Bytes) (b : Buffer) (t : Bytes) → (after_label p rest b).0 ≡ ok t → t ≡ rest
unfolding patch_label seek set ◌>>=◌
after_label_rest p rest b t e = ground arith

write_one_label-Flagged :
    (text : Bytes) (b : Buffer) → b.overflow ≡ false → Flagged (write_one_label text b)
write_one_label-Flagged text b down = elim (dec_lt b.pos buf_size) [
  | no at_end ↦ unfold write_one_label write ◌>>=◌ in ground arith
  | yes inside ↦
      let c : Buffer = blit (0 ∷ []) b in
      rw (to_label text b inside) (
        Flagged-bind (write_label (length text) (b.pos + 1) text) (after_label b.pos) c
          (write_label-Flagged (length text) (b.pos + 1) text c (omega arith) down)
          (λ rest e still. after_label-Flagged b.pos rest _ inside still))
]

skip_dot-le : (t : Bytes) → length (skip_dot t) ≤ length t
unfolding skip_dot
skip_dot-le [] = omega arith
skip_dot-le (x ∷ xs) = ground arith

skip_dot_head : (x : ℕ) (xs : Bytes) → x ≡ b'.' → length (skip_dot (x ∷ xs)) ≤ length xs
unfolding skip_dot
skip_dot_head x xs dot = ground arith

-- A round takes a byte of text at least.
label_then_dot :
    (fuel start x : ℕ) (xs : Bytes) (b : Buffer) (rest : Bytes)
    → (write_label (suc fuel) start (x ∷ xs) b).0 ≡ ok rest
    → length (skip_dot rest) ≤ length xs
label_then_dot fuel start x xs b rest h = elim (Result-cases (next_byte x xs)) [
  | inl ((v, rest'), e) ↦ ground (
    arith,
    write_label_round fuel start x xs v rest' b e,
    next_byte_shorter x xs v rest' e,
    skip_dot-le rest,
    skip_dot_head x xs,
    write_label_shorter fuel start rest' (record b { buf = update b.buf b.pos v; pos = b.pos + 1 })
        rest,
  )
  | inr (f, e) ↦ ground (arith, write_label_refused fuel start x xs f b e, skip_dot_head x xs)
]

write_one_label_shorter :
    (x : ℕ) (xs : Bytes) (b : Buffer) (rest : Bytes)
    → (write_one_label (x ∷ xs) b).0 ≡ ok rest
    → length (skip_dot rest) ≤ length xs
write_one_label_shorter x xs b rest h = elim (dec_lt b.pos buf_size) [
  | no at_end ↦ unfold write_one_label write ◌>>=◌ in ground arith
  | yes inside ↦
      let c : Buffer = blit (0 ∷ []) b in
      let m : Exec Buffer Bytes = write_label (suc (length xs)) (b.pos + 1) (x ∷ xs) in
      let (r, e, k) =
        bind_inv m (after_label b.pos) c rest (rw (to_label (x ∷ xs) b inside) at h) in
      let same : rest ≡ r = after_label_rest b.pos r (m c).1 rest k in
      rw same (label_then_dot (length xs) (b.pos + 1) x xs c r e)
]

write_labels-Flagged :
    (fuel : ℕ) (text : Bytes) (b : Buffer)
    → length text ≤ fuel
    → b.overflow ≡ false
    → Flagged (write_labels fuel text b)
unfolding write_labels
write_labels-Flagged zero [] b enough down = write-Flagged 0 b down
write_labels-Flagged (suc fuel) [] b enough down = write-Flagged 0 b down
write_labels-Flagged zero (x ∷ xs) b enough down = absurd (omega arith)
write_labels-Flagged (suc fuel) (x ∷ xs) b enough down =
    Flagged-bind (write_one_label (x ∷ xs)) (λ rest. write_labels fuel (skip_dot rest)) b
      (write_one_label-Flagged (x ∷ xs) b down)
      (λ rest e still.
        write_labels-Flagged fuel (skip_dot rest) _
          (omega (arith, write_one_label_shorter x xs b rest e)) still)

-- On any text `write_qname` ends; if the flag was down before, it is up afterwards exactly where
-- the call fails because the buffer is full.
pub write_qname-Flagged :
    (qname : Bytes) (b : Buffer) → b.overflow ≡ false → Flagged (write_qname qname b)
unfolding write_qname
write_qname-Flagged qname b down = elim (Bool-cases (is_root_text qname)) [
  | inl root ↦ rw root (write-Flagged 0 b down)
  | inr other ↦ rw other (write_labels-Flagged (length qname) qname b (omega arith) down)
]
