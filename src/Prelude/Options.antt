-- ===== src/Prelude/Options.antt =====
-- The operator `?` on an option.
use mathlib.Core.Option.{Option, none, some}

abbrev pub if_some {ℓ} : {A B : Type ℓ} → Option A → (A → Option B) → Option B
if_some none f = none
if_some (some a) f = f a
