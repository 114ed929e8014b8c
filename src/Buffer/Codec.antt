-- ===== src/Buffer/Codec.antt =====
-- The abstract view of src/buffer.rs that the rest of the codec is proved against: a writer appends
-- bytes or reports that the buffer is full, a reader takes the bytes that the buffer holds.
use numa.Prelude.{
  append-nil, ℕ, suc, ◌+◌, ◌≤◌, ◌<◌, ◌≡◌, refl, ap, ap₂, fun_ext, subst, ◌∙◌, sym, arith, true, [],
  ◌∷◌, ◌++◌, length, length-append,
}
use numa.Exec.{◌>>◌, Exec, pure, ◌>>=◌, bind_ok, bind_err}
use numa.Error.{ok, err, end_of_buffer}
use numa.Buffer.{Bytes, buf_size, Buffer, update, write_list, slice}
use native.Mathlib.Decide.{dec_le}

-- `bytes` appended at the cursor.
abbrev pub blit : Bytes → Buffer → Buffer
blit bytes b = record b { buf = write_list b.buf b.pos bytes; pos = b.pos + length bytes }

-- The buffer holds `bytes` from `i` on.
abbrev pub Holds : (ℕ → ℕ) → ℕ → Bytes → Type 0
Holds f i [] = Unit {0}
Holds f i (x ∷ xs) = (f i ≡ x) × Holds f (suc i) xs

-- With room the writer appends `bytes` and returns `v`; without, it fails and sets the flag.
pub record Writes {A : Type 0} (w : Exec Buffer A) (v : A) (bytes : Bytes) : Type 0 where
  pub fits : (b : Buffer) → b.pos + length bytes ≤ buf_size → w b ≡ (ok v, blit bytes b)
  pub full :
      (b : Buffer)
      → b.pos ≤ buf_size
      → buf_size < b.pos + length bytes
      → ((w b).0 ≡ err end_of_buffer) × ((w b).1.overflow ≡ true)

-- At `p` the reader takes `bytes` and returns `v`.
pub record Reads {A : Type 0} (p : ℕ) (r : Exec Buffer A) (v : A) (bytes : Bytes) : Type 0 where
  pub at :
      (b : Buffer)
      → b.pos ≡ p
      → Holds b.buf p bytes
      → p + length bytes ≤ buf_size
      → r b ≡ (ok v, record b { pos = p + length bytes })

pub write_list_below : (f : ℕ → ℕ) (i : ℕ) (xs : Bytes) (j : ℕ) → j < i → write_list f i xs j ≡ f j
unfolding write_list
write_list_below f i [] j h = refl
write_list_below f i (x ∷ xs) j h = ground (arith, write_list_below (update f i x) (suc i) xs j)

pub write_list_above :
    (f : ℕ → ℕ) (i : ℕ) (xs : Bytes) (j : ℕ) → i + length xs ≤ j → write_list f i xs j ≡ f j
unfolding write_list
write_list_above f i [] j h = refl
write_list_above f i (x ∷ xs) j h = ground (arith, write_list_above (update f i x) (suc i) xs j)

pub write_list-append :
    (f : ℕ → ℕ) (i : ℕ) (xs ys : Bytes)
    → write_list f i (xs ++ ys) ≡ write_list (write_list f i xs) (i + length xs) ys
unfolding write_list
write_list-append f i [] ys = ap (λ (j : ℕ). write_list f j ys) {x = i} {y = i + 0} (omega arith)
write_list-append f i (x ∷ xs) ys =
    write_list-append (update f i x) (suc i) xs ys
    ∙ ap (λ (j : ℕ). write_list (write_list (update f i x) (suc i) xs) j ys) (omega arith)

-- A byte in front of a copied run is patched.
pub update-write_list :
    (f : ℕ → ℕ) (i : ℕ) (xs : Bytes) (j v : ℕ)
    → j < i
    → update (write_list f i xs) j v ≡ write_list (update f j v) i xs
unfolding write_list
update-write_list f i [] j v h = refl
update-write_list f i (x ∷ xs) j v h =
    update-write_list (update f i x) (suc i) xs j v (omega arith)
    ∙ ap (λ (g : ℕ → ℕ). write_list g (suc i) xs) {x = update (update f i x) j v}
        {y = update (update f j v) i x} (fun_ext (λ k. ground arith))

pub update-update : (f : ℕ → ℕ) (i v w : ℕ) → update (update f i v) i w ≡ update f i w
update-update f i v w = fun_ext (λ k. ground arith)

pub Holds-agree :
    (f g : ℕ → ℕ) (i : ℕ) (xs : Bytes)
    → ((j : ℕ) → i ≤ j → j < i + length xs → f j ≡ g j)
    → Holds f i xs
    → Holds g i xs
Holds-agree f g i [] same h = tt
Holds-agree f g i (x ∷ xs) same h = (
  sym (same i (omega arith) (omega arith)) ∙ h.0,
  Holds-agree f g (suc i) xs (λ j lo hi. same j (omega arith) (omega arith)) h.1,
)

pub Holds-write_list : (f : ℕ → ℕ) (i : ℕ) (xs : Bytes) → Holds (write_list f i xs) i xs
unfolding write_list
Holds-write_list f i [] = tt
Holds-write_list f i (x ∷ xs) = (
  write_list_below (update f i x) (suc i) xs i (omega arith) ∙ ground arith,
  Holds-write_list (update f i x) (suc i) xs,
)

pub Holds-at : (f : ℕ → ℕ) (i j : ℕ) (xs : Bytes) → i ≡ j → Holds f i xs → Holds f j xs
Holds-at f i j xs e h = subst (λ (k : ℕ). Holds f k xs) e h

pub Holds-append :
    (f : ℕ → ℕ) (i : ℕ) (xs ys : Bytes)
    → Holds f i (xs ++ ys)
    → Holds f i xs × Holds f (i + length xs) ys
Holds-append f i [] ys h = (tt, Holds-at f i (i + 0) ys (omega arith) h)
Holds-append f i (x ∷ xs) ys h =
    let (front, back) = Holds-append f (suc i) xs ys h.1 in
    ((h.0, front), Holds-at f (suc i + length xs) (i + suc (length xs)) ys (omega arith) back)

pub slice-Holds : (f : ℕ → ℕ) (i : ℕ) (xs : Bytes) → Holds f i xs → slice f i (length xs) ≡ xs
unfolding slice
slice-Holds f i [] h = refl
slice-Holds f i (x ∷ xs) h = cc (h.0, slice-Holds f (suc i) xs h.1)

pub blit-append : (xs ys : Bytes) (b : Buffer) → blit ys (blit xs b) ≡ blit (xs ++ ys) b
blit-append xs ys b = cc (write_list-append b.buf b.pos xs ys, sums)
  where
    sums : b.pos + length xs + length ys ≡ b.pos + length (xs ++ ys)
    sums = omega (arith, length-append xs ys)

module _ {A B : Type 0} where
  pub Writes-bind :
      (w : Exec Buffer A) (f : A → Exec Buffer B) (v : A) (u : B) (xs ys : Bytes)
      → Writes w v xs
      → Writes (f v) u ys
      → Writes (w >>= f) u (xs ++ ys)
  Writes-bind w f v u xs ys hw hf = record {
    fits = λ b room.
        bind_ok w f b (hw.fits b (omega (arith, length-append xs ys)))
        ∙ hf.fits (blit xs b) (omega (arith, length-append xs ys))
        ∙ ap (λ (c : Buffer). (ok u, c)) (blit-append xs ys b);
    full = λ b inside past. elim (dec_le (b.pos + length xs) buf_size) [
      | yes room ↦
          rw (bind_ok w f b (hw.fits b room))
            (hf.full (blit xs b) room (omega (arith, length-append xs ys)))
      | no more ↦
          let (fails, flag) = hw.full b inside (omega arith) in
          rw (bind_err w f b end_of_buffer fails) (refl, flag)
    ];
  }

  pub Reads-bind :
      (p : ℕ) (r : Exec Buffer A) (f : A → Exec Buffer B) (v : A) (u : B) (xs ys : Bytes)
      → Reads p r v xs
      → Reads (p + length xs) (f v) u ys
      → Reads p (r >>= f) u (xs ++ ys)
  Reads-bind p r f v u xs ys hr hf = record {
    at = λ b here holds room.
        let (front, back) = Holds-append b.buf p xs ys holds in
        bind_ok r f b (hr.at b here front (omega (arith, length-append xs ys)))
        ∙ hf.at (record b { pos = p + length xs }) refl back (omega (arith, length-append xs ys))
        ∙ ap (λ (n : ℕ). (ok u, record b { pos = n })) {x = p + length xs + length ys}
            {y = p + length (xs ++ ys)} (omega (arith, length-append xs ys));
  }

pub Writes-pure : {A : Type 0} (v : A) → Writes (pure v) v []
unfolding write_list
Writes-pure v = record {
  fits = λ b room.
      ap (λ (n : ℕ). (ok v, record b { pos = n })) {x = b.pos} {y = b.pos + 0} (omega arith);
  full = λ b inside past. absurd (omega arith);
}

pub Reads-pure : {A : Type 0} (p : ℕ) (u v : A) → u ≡ v → Reads p (pure u) v []
Reads-pure {A} p u v e = record {
  at = λ b here holds room.
      ap₂ (λ (w : A) (n : ℕ). (ok w, record b { pos = n })) {u = b.pos} {v = p + 0} e (omega arith);
}

-- The reader may use that the bytes fit the buffer.
pub Reads-when :
    {A : Type 0} (p : ℕ) (r : Exec Buffer A) (v : A) (bytes : Bytes)
    → (p + length bytes ≤ buf_size → Reads p r v bytes)
    → Reads p r v bytes
Reads-when p r v bytes h = record { at = λ b here holds room. (h room).at b here holds room }

-- One writer after another, and one reader after another, for the long chains.
infixr 20 ◌▸◌
pub ◌▸◌ :
    {w k : Exec Buffer (Unit {0})} {xs ys : Bytes}
    → Writes w tt xs
    → Writes k tt ys
    → Writes (w >> k) tt (xs ++ ys)
◌▸◌ {w} {k} {xs} {ys} hw hk = Writes-bind w (λ _. k) tt tt xs ys hw hk

pub Reads-then :
    {A B : Type 0} {p : ℕ} {r : Exec Buffer A} {v : A} {u : B} {xs ys : Bytes}
    (f : A → Exec Buffer B)
    → Reads p r v xs
    → Reads (p + length xs) (f v) u ys
    → Reads p (r >>= f) u (xs ++ ys)
Reads-then {p = p} {r = r} {v = v} {u = u} {xs = xs} {ys = ys} f hr hf =
    Reads-bind p r f v u xs ys hr hf

-- The last reader of a chain, before its result.
pub Reads-last :
    {A B : Type 0} {p : ℕ} {r : Exec Buffer A} {v : A} {xs : Bytes} (g : A → B) (u : B)
    → Reads p r v xs
    → g v ≡ u
    → Reads p (r >>= λ a. pure (g a)) u xs
Reads-last {p = p} {r = r} {v = v} {xs = xs} g u hr e =
    rw append-nil at (Reads-bind p r (λ a. pure (g a)) v u xs [] hr (Reads-pure _ (g v) u e))
