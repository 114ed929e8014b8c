-- ===== src/Tests.antt =====
-- Runs of the model at concrete inputs, and the theorems applied there.
mod Ascii
mod Codec
mod Domains
mod Policy
mod Proxy
mod Hints
mod Trust
mod Overrides
mod Wire
mod Stores
use numa.Prelude.{refl, zero, suc, true, false, none, some, inl, inr, [], ◌∷◌}
