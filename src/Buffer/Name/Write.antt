-- ===== src/Buffer/Name/Write.antt =====
-- `write_qname` on the text of a name: it appends the wire form, or reports a full buffer.
use numa.Prelude.{
  false, ◌%◌, ◌-◌, ap₂, ℕ, zero, suc, ◌+◌, ◌≤◌, ◌<◌, ◌≡◌, ◌≢◌, refl, ap, ◌∙◌, arith, true, [], ◌∷◌,
  ◌++◌, length, length-append, All, append_assoc,
}
use numa.Buffer.Codec.{Writes-bind, Writes, update-update, update-write_list, blit, blit-append}
use numa.Exec.{pure, ◌>>◌, Exec, bind_err, bind_ok, ◌>>=◌}
use numa.Buffer.Name.{
  is_root_text, skip_dot, write_qname, write_labels, patch_label, write_one_label, escape_byte,
  escape_label, next_byte, check_label, write_label,
}
use numa.Buffer.Name.Text.{
  IsName, name_wire, name_text, IsLabel, IsLabelByte, Name, rest_text, next_byte-escape,
}
use numa.Buffer.{set, position, write_u8, update, Bytes, buf_size, Buffer, write_list, write}
use numa.Error.{ok, err, end_of_buffer}
use native.Mathlib.Decide.{dec_le}
use numa.Buffer.Words.{write-Writes}

blit-nil : (b : Buffer) → blit [] b ≡ b
unfolding write_list
blit-nil b = ap (λ (n : ℕ). record b { pos = n }) {x = b.pos + 0} {y = b.pos} (omega arith)

write_label_step :
    (fuel start x : ℕ) (rest : Bytes) (v : ℕ) (rest' : Bytes) (b : Buffer)
    → x ≢ b'.'
    → next_byte x rest ≡ ok (v, rest')
    → b.pos < buf_size
    → start ≤ b.pos
    → b.pos < start + 63
    → write_label (suc fuel) start (x ∷ rest) b ≡ write_label fuel start rest' (blit (v ∷ []) b)
unfolding write_label check_label write write_list ◌>>=◌
write_label_step fuel start x rest v rest' b dot reads room from short = ground arith

write_label_stops :
    (fuel start x : ℕ) (rest : Bytes) (v : ℕ) (rest' : Bytes) (b : Buffer)
    → x ≢ b'.'
    → next_byte x rest ≡ ok (v, rest')
    → buf_size ≤ b.pos
    → ((write_label (suc fuel) start (x ∷ rest) b).0 ≡ err end_of_buffer)
      × ((write_label (suc fuel) start (x ∷ rest) b).1.overflow ≡ true)
unfolding write_label write ◌>>=◌
write_label_stops fuel start x rest v rest' b dot reads room = ground arith

-- At the end of a label the loop returns the rest of the text.
write_label_end :
    (ls : Name) (fuel start : ℕ) (b : Buffer)
    → length (rest_text ls) ≤ fuel
    → write_label fuel start (rest_text ls) b ≡ (ok (rest_text ls), b)
unfolding write_label rest_text
write_label_end [] zero start b h = refl
write_label_end [] (suc fuel) start b h = refl
write_label_end (l ∷ ls) zero start b h = absurd (omega arith)
write_label_end (l ∷ ls) (suc fuel) start b h = refl

-- An escape takes a byte of text at least.
escape_takes :
    (c : ℕ) (l : Bytes) (tail : Bytes)
    → IsLabelByte c
    → length (escape_label l ++ tail) < length (escape_label (c ∷ l) ++ tail)
unfolding escape_label
escape_takes c l tail byte =
    let (x, xs, text, dot, reads) = next_byte-escape c tail byte in
    omega (
      arith,
      length-append (escape_byte c ++ escape_label l) tail,
      length-append (escape_byte c) (escape_label l),
      length-append (escape_label l) tail,
      ap (λ (t : Bytes). length t) text,
    )

module _ (ls : Name) (start : ℕ) where
  write_label_fits :
      (l : Bytes) (fuel : ℕ) (b : Buffer)
      → All IsLabelByte l
      → length (escape_label l ++ rest_text ls) ≤ fuel
      → start ≤ b.pos
      → b.pos + length l ≤ start + 63
      → b.pos + length l ≤ buf_size
      → write_label fuel start (escape_label l ++ rest_text ls) b ≡ (ok (rest_text ls), blit l b)
  unfolding escape_label
  write_label_fits [] fuel b bytes enough from short room =
      rw (blit-nil b) (write_label_end ls fuel start b enough)
  write_label_fits (c ∷ l) zero b bytes enough from short room =
      absurd (omega (arith, escape_takes c l (rest_text ls) bytes.0))
  write_label_fits (c ∷ l) (suc fuel) b bytes enough from short room =
      let (x, xs, text, dot, reads) = next_byte-escape c (escape_label l ++ rest_text ls) bytes.0 in
      rw (append_assoc, text)
        (write_label_step fuel start x (xs ++ (escape_label l ++ rest_text ls)) c
            (escape_label l ++ rest_text ls) b dot reads (omega arith) from (omega arith)
          ∙ write_label_fits l fuel (blit (c ∷ []) b) bytes.1
              (omega (arith, escape_takes c l (rest_text ls) bytes.0)) (omega arith) (omega arith)
              (omega arith)
          ∙ ap (λ (d : Buffer). (ok (rest_text ls), d)) (blit-append (c ∷ []) l b))

  write_label_full :
      (l : Bytes) (fuel : ℕ) (b : Buffer)
      → All IsLabelByte l
      → length (escape_label l ++ rest_text ls) ≤ fuel
      → start ≤ b.pos
      → b.pos + length l ≤ start + 63
      → b.pos ≤ buf_size
      → buf_size < b.pos + length l
      → ((write_label fuel start (escape_label l ++ rest_text ls) b).0 ≡ err end_of_buffer)
        × ((write_label fuel start (escape_label l ++ rest_text ls) b).1.overflow ≡ true)
  unfolding escape_label
  write_label_full [] fuel b bytes enough from short inside past = absurd (omega arith)
  write_label_full (c ∷ l) zero b bytes enough from short inside past =
      absurd (omega (arith, escape_takes c l (rest_text ls) bytes.0))
  write_label_full (c ∷ l) (suc fuel) b bytes enough from short inside past =
      let (x, xs, text, dot, reads) = next_byte-escape c (escape_label l ++ rest_text ls) bytes.0 in
      let text_rest : Bytes = escape_label l ++ rest_text ls in
      rw (append_assoc, text)
        (elim (dec_le buf_size b.pos) [
          | yes at_end ↦
              write_label_stops fuel start x (xs ++ text_rest) c text_rest b dot reads at_end
          | no more ↦
              rw
                (write_label_step fuel start x (xs ++ text_rest) c text_rest b dot reads
                  (omega arith) from (omega arith))
                (write_label_full l fuel (blit (c ∷ []) b) bytes.1
                  (omega (arith, escape_takes c l (rest_text ls) bytes.0)) (omega arith)
                  (omega arith) (omega arith) (omega arith))
        ])

-- Patching the placeholder leaves the label behind its length.
patched :
    (l : Bytes) (b : Buffer) (v : ℕ)
    → record (blit l (blit (0 ∷ []) b)) { buf = update (blit l (blit (0 ∷ []) b)).buf b.pos v }
      ≡ blit (v ∷ l) b
unfolding write_list
patched l b v =
    ap₂ (λ (f : ℕ → ℕ) (n : ℕ). record b { buf = f; pos = n }) {u = b.pos + 1 + length l}
      {v = b.pos + suc (length l)}
      (update-write_list (update b.buf b.pos 0) (b.pos + 1) l b.pos v (omega arith)
        ∙ ap₂ (λ (f : ℕ → ℕ) (i : ℕ). write_list f i l) {u = b.pos + 1} {v = suc b.pos}
            (update-update b.buf b.pos 0 v) (omega arith))
      (omega arith)

patch_label_fits :
    (rest : Bytes) (p n : ℕ) (c : Buffer)
    → c.pos ≡ p + 1 + n
    → 1 ≤ n
    → n ≤ 63
    → p < buf_size
    → patch_label p (p + 1) rest c ≡ (ok tt, record c { buf = update c.buf p n })
unfolding patch_label set ◌>>=◌
patch_label_fits rest p n c here some_bytes short inside =
    let e : c.pos - (p + 1) ≡ n = omega arith in
    rw e (let k : n % 256 ≡ n = omega arith in rw k (ground arith))

abbrev pub after_label : ℕ → Bytes → Exec Buffer Bytes
after_label p rest = do patch_label p (p + 1) rest; pure rest

-- With room for the placeholder, the round goes on with the label.
pub to_label :
    (text : Bytes) (b : Buffer)
    → b.pos < buf_size
    → write_one_label text b
      ≡ (write_label (length text) (b.pos + 1) text >>= after_label b.pos) (blit (0 ∷ []) b)
unfolding write_one_label
to_label text b room =
    bind_ok position _ b refl
    ∙ bind_ok (write_u8 0) _ b ((write-Writes 0).fits b (omega arith))
    ∙ bind_ok position _ (blit (0 ∷ []) b) refl

one_label_fits :
    (l : Bytes) (ls : Name) (b : Buffer)
    → IsLabel l
    → b.pos + suc (length l) ≤ buf_size
    → write_one_label (escape_label l ++ rest_text ls) b
      ≡ (ok (rest_text ls), blit (length l ∷ l) b)
one_label_fits l ls b h room =
    to_label _ b (omega arith)
    ∙ bind_ok (write_label _ (b.pos + 1) _) _ (blit (0 ∷ []) b) inner
    ∙ bind_ok (patch_label b.pos (b.pos + 1) (rest_text ls)) _ (blit l (blit (0 ∷ []) b)) (
        patch_label_fits (rest_text ls) b.pos (length l) (blit l (blit (0 ∷ []) b)) refl h.not_empty
          h.short (omega arith))
    ∙ ap (λ (c : Buffer). (ok (rest_text ls), c)) (patched l b (length l))
  where
    inner :
        write_label
          (length (escape_label l ++ rest_text ls))
          (b.pos + 1)
          (escape_label l ++ rest_text ls)
          (blit (0 ∷ []) b)
        ≡ (ok (rest_text ls), blit l (blit (0 ∷ []) b))
    inner =
        write_label_fits ls (b.pos + 1) l _ (blit (0 ∷ []) b) h.bytes (omega arith) (omega arith)
          (omega (arith, h.short)) (omega arith)

one_label_full :
    (l : Bytes) (ls : Name) (b : Buffer)
    → IsLabel l
    → b.pos ≤ buf_size
    → buf_size < b.pos + suc (length l)
    → ((write_one_label (escape_label l ++ rest_text ls) b).0 ≡ err end_of_buffer)
      × ((write_one_label (escape_label l ++ rest_text ls) b).1.overflow ≡ true)
one_label_full l ls b h inside past = elim (dec_le buf_size b.pos) [
  | yes at_end ↦ unfold write_one_label write ◌>>=◌ in ground arith
  | no more ↦
      let text : Bytes = escape_label l ++ rest_text ls in
      let c : Buffer = blit (0 ∷ []) b in
      let (fails, flag) =
        write_label_full ls (b.pos + 1) l (length text) c h.bytes (omega arith) (omega arith)
          (omega (arith, h.short)) (omega arith) (omega arith) in
      rw (to_label text b (omega arith)) (
        rw
          (bind_err (write_label (length text) (b.pos + 1) text) (after_label b.pos) c end_of_buffer
            fails)
          (refl, flag))
]

-- One round appends a length byte and the label.
one_label-Writes :
    (l : Bytes) (ls : Name)
    → IsLabel l
    → Writes (write_one_label (escape_label l ++ rest_text ls)) (rest_text ls) (length l ∷ l)
one_label-Writes l ls h = record {
  fits = λ b room. one_label_fits l ls b h room;
  full = λ b inside past. one_label_full l ls b h inside past;
}

-- The text of a name with labels is not empty, and its first round leaves less.
label_text :
    (l : Bytes) (ls : Name)
    → IsLabel l
    → (x : ℕ) × (xs : Bytes) × (escape_label l ++ rest_text ls ≡ x ∷ xs)
      × (x ≢ b'.')
      × (length (rest_text ls) ≤ length xs)
unfolding escape_label
label_text [] ls h = absurd (omega (arith, h.not_empty))
label_text (c ∷ l) ls h =
    let (x, xs, text, dot, reads) = next_byte-escape c (escape_label l ++ rest_text ls) h.bytes.0 in
    (
      x,
      xs ++ (escape_label l ++ rest_text ls),
      rw (append_assoc, text),
      dot,
      omega (
        arith,
        length-append xs (escape_label l ++ rest_text ls),
        length-append (escape_label l) (rest_text ls),
      ),
    )

skip_dot-rest_text : (ls : Name) → skip_dot (rest_text ls) ≡ name_text ls
unfolding skip_dot rest_text name_text
skip_dot-rest_text [] = refl
skip_dot-rest_text (l ∷ ls) = refl

length-name_text-le : (ls : Name) → length (name_text ls) ≤ length (rest_text ls)
unfolding rest_text name_text
length-name_text-le [] = omega arith
length-name_text-le (l ∷ ls) = omega arith

-- The outer loop, with a round for each label.
write_labels-Writes :
    (n : Name) (fuel : ℕ)
    → IsName n
    → length (name_text n) ≤ fuel
    → Writes (write_labels fuel (name_text n)) tt (name_wire n)
unfolding write_labels name_text name_wire
write_labels-Writes [] zero h enough = write-Writes 0
write_labels-Writes [] (suc fuel) h enough = write-Writes 0
write_labels-Writes (l ∷ ls) zero h enough =
    let (x, xs, text, dot, shorter) = label_text l ls h.0 in
    absurd (omega (arith, ap (λ (t : Bytes). length t) text))
write_labels-Writes (l ∷ ls) (suc fuel) h enough =
    let (x, xs, text, dot, shorter) = label_text l ls h.0 in
    let fewer : length (name_text ls) ≤ fuel =
      omega (arith, length-name_text-le ls, ap (λ (t : Bytes). length t) text) in
    let tail : Writes (write_labels fuel (skip_dot (rest_text ls))) tt (name_wire ls) =
      rw skip_dot-rest_text (write_labels-Writes ls fuel h.1 fewer) in
    rw text (
      Writes-bind (write_one_label (x ∷ xs)) (λ rest. write_labels fuel (skip_dot rest))
        (rest_text ls) tt (length l ∷ l) (name_wire ls) (rw text at (one_label-Writes l ls h.0))
        tail)

is_root_text-name_text :
    (l : Bytes) (ls : Name) → IsLabel l → is_root_text (name_text (l ∷ ls)) ≡ false
unfolding name_text
is_root_text-name_text l ls h =
    let (x, xs, text, dot, shorter) = label_text l ls h in rw text (root x xs dot)
  where
    root : (x : ℕ) (xs : Bytes) → x ≢ b'.' → is_root_text (x ∷ xs) ≡ false
    root x [] dot = ground arith
    root x (y ∷ ys) dot = refl

-- `write_qname` appends the wire form of the name, or fails with the overflow flag set.
pub write_qname-Writes : (n : Name) → IsName n → Writes (write_qname (name_text n)) tt (name_wire n)
unfolding write_qname
write_qname-Writes [] h = unfold name_text name_wire in write-Writes 0
write_qname-Writes (l ∷ ls) h =
    rw (is_root_text-name_text l ls h.0) (write_labels-Writes (l ∷ ls) _ h (omega arith))
