-- ===== src/Cache/Life.antt =====
-- The life of an entry: what a lookup serves at each age after the insertion of a message.
use numa.Prelude.{◌↔◌, ◌⊎◌, ◌≡◌, ◌*◌, ◌≤◌, ◌+◌, ◌<◌, ℕ, none, some}
use numa.Cache.{stale, near_expiry, fresh, stale_window, Freshness, served}

-- The TTL and the freshness that are served at an age: the whole seconds left of the TTL, or one second where
-- less than one is left.
pub record IsServed (age ttl remaining : ℕ) (freshness : Freshness) : Type 0 where
  pub remains :
      ((age + 1000000000 ≤ ttl)
        × (age + remaining * 1000000000 ≤ ttl)
        × (ttl < age + (remaining + 1) * 1000000000))
      ⊎ ((ttl < age + 1000000000) × (remaining ≡ 1))
  pub fresh : (freshness ≡ fresh) ↔ ((age < ttl) × (age * 10 < ttl * 9))
  pub near_expiry : (freshness ≡ near_expiry) ↔ ((age < ttl) × (ttl * 9 ≤ age * 10))
  pub stale : (freshness ≡ stale) ↔ (ttl ≤ age)

-- An entry is served for its TTL and an hour more.
abbrev pub Life : ℕ → ℕ → Type 0
Life age ttl =
    ((ttl + stale_window ≤ age) × (served age ttl ≡ none))
    ⊎ ((remaining : ℕ) × (freshness : Freshness) × (served age ttl ≡ some (remaining, freshness))
        × (age < ttl + stale_window)
        × IsServed age ttl remaining freshness)
