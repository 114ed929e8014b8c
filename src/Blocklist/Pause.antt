-- ===== src/Blocklist/Pause.antt =====
-- Pausing the blocklist.
use numa.Prelude.{
  arith, ltb, lt→ltb, Bool-cases, ◌≤◌, ◌≡◌, ◌*◌, ◌+◌, ◌<◌, false, inl, inr, ℕ, bytes_key,
}
use numa.Text.{Text, Unicode}
use numa.Blocklist.{BlocklistStore, check, is_paused, pause, unpause}

module _ ⦃unicode : Unicode⦄ where
  -- A pause ends by itself: until its last nanosecond no name is blocked, and from then on the verdict
  -- on every name is what it is without a pause.
  pub check-pause :
      (now seconds t : ℕ) (domain : Text) (s : BlocklistStore)
      → (t < now + seconds * 1000000000 → (check t domain (pause now seconds s)).blocked ≡ false)
        × (now + seconds * 1000000000 ≤ t
            → check t domain (pause now seconds s) ≡ check t domain (unpause s))
  unfolding check pause is_paused
  check-pause now seconds t domain s = elim (Bool-cases s.enabled) [
    | inl on ↦ (
      λ early. simp (on, lt→ltb t (now + seconds * 1000000000) early),
      λ late.
          let over : ltb t (now + seconds * 1000000000) ≡ false = ground arith in simp (on, over),
    )
    | inr off ↦ (λ early. simp off, λ late. simp off)
  ]
