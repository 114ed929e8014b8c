-- ===== src/Error.antt =====
-- The errors of the codec, src/lib.rs's `Error`: one constructor for each message that the code
-- builds, and one for the five messages that the data of a record is too short. `out_of_fuel` is no Rust value: a loop of the model used up its rounds.
use numa.Prelude.{◌≡◌, ◌⊎◌, inl, inr, refl}

pub data Error : Type 0 where
  end_of_buffer : Error
  jump_limit : Error
  reserved_label : Error
  trailing_backslash : Error
  bad_escape : Error
  escape_range : Error
  label_too_long : Error
  data_len_too_short : Error
  wire_too_short : Error
  wire_truncated : Error
  out_of_fuel : Error

-- Rust's `Result`.
pub data Result {ℓ} (A : Type ℓ) : Type ℓ where
  ok : A → Result A
  err : Error → Result A

-- The `?` of a function without state.
abbrev pub and_then {ℓ} : {A B : Type ℓ} → Result A → (A → Result B) → Result B
and_then (ok a) f = f a
and_then (err e) f = err e

pub Result-cases :
    {A : Type 0} (r : Result A) → ((a : A) × (r ≡ ok a)) ⊎ ((e : Error) × (r ≡ err e))
Result-cases (ok a) = inl (a, refl)
Result-cases (err e) = inr (e, refl)
