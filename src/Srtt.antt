-- ===== src/Srtt.antt =====
-- src/srtt.rs: the smoothed round-trip times of upstream servers. A key stands for a pair of an
-- address and a transport; a time is a number of nanoseconds, and `Instant::now()` an argument.
pub mod Bounds
use numa.Prelude.{
  take, ◌*◌, length, min, ◌/◌, not, ltb, leb, if◌then◌else◌, Option, ◌-◌, Bool, ◌+◌, ℕ, Key, refl,
  zero, suc, true, false, none, some, inl, inr, [], ◌∷◌,
}
use numa.Map.{Map, get, insert, remove, contains_key}

abbrev pub initial_srtt_ms : ℕ
initial_srtt_ms = 200

abbrev pub failure_penalty_ms : ℕ
failure_penalty_ms = 5000

abbrev pub decay_after_secs : ℕ
decay_after_secs = 300

abbrev pub srtt_max_entries : ℕ
srtt_max_entries = 4096

abbrev pub evict_batch : ℕ
evict_batch = 64

abbrev pub primary_skip_srtt_ms : ℕ
primary_skip_srtt_ms = 4000

pub record SrttEntry : Type 0 where
  pub srtt_ms : ℕ
  pub updated_at : ℕ

-- `for _ in 0..periods`
unfoldable pub decay_periods : ℕ → ℕ → ℕ
decay_periods zero srtt = srtt
decay_periods (suc periods) srtt = decay_periods periods ((srtt + initial_srtt_ms) / 2)

unfoldable pub decay_for_age : ℕ → ℕ → ℕ
decay_for_age srtt_ms age_secs =
    if ltb decay_after_secs age_secs
    then decay_periods (min (age_secs / decay_after_secs) 8) srtt_ms
    else srtt_ms

unfoldable pub decayed_srtt : ℕ → SrttEntry → ℕ
decayed_srtt now entry = decay_for_age entry.srtt_ms ((now - entry.updated_at) / 1000000000)

pub record SrttCache (K : Type 0) : Type 0 where
  pub entries : Map K SrttEntry
  pub enabled : Bool

-- `entry(k).or_insert(..)`
abbrev pub or_insert : SrttEntry → Option SrttEntry → SrttEntry
or_insert e none = e
or_insert e (some old) = old

module _ {K : Type 0} ⦃key : Key K⦄ where
  unfoldable pub get_srtt : ℕ → K → SrttCache K → ℕ
  get_srtt now k c = elim (get k c.entries) [
    | none ↦ initial_srtt_ms
    | some entry ↦ decayed_srtt now entry
  ]

  -- `sort_by_key` on the time of the last update, which is stable.
  unfoldable pub insert_by_age : K × SrttEntry → Map K SrttEntry → Map K SrttEntry
  insert_by_age e [] = e ∷ []
  insert_by_age e (f ∷ m) =
      let rest = insert_by_age e m in
      if leb e.1.updated_at f.1.updated_at then e ∷ f ∷ m else f ∷ rest

  unfoldable pub sort_by_age : Map K SrttEntry → Map K SrttEntry
  sort_by_age [] = []
  sort_by_age (e ∷ m) = insert_by_age e (sort_by_age m)

  unfoldable pub remove_all : Map K SrttEntry → Map K SrttEntry → Map K SrttEntry
  remove_all [] m = m
  remove_all (e ∷ gone) m = remove_all gone (remove e.0 m)

  unfoldable pub maybe_evict : Map K SrttEntry → Map K SrttEntry
  maybe_evict m =
      if ltb (length m) srtt_max_entries then m else remove_all (take evict_batch (sort_by_age m)) m

  -- The product and the sum stay below 64 bits for every time that can be measured.
  unfoldable pub record_rtt : ℕ → K → ℕ → SrttCache K → SrttCache K
  record_rtt now k rtt_ms c =
      if not c.enabled
      then c
      else let m = maybe_evict c.entries in
        let entry = or_insert (record { srtt_ms = rtt_ms; updated_at = now }) (get k m) in
        let base = decayed_srtt now entry in
        record c {
          entries = insert k (record { srtt_ms = (base * 7 + rtt_ms) / 8; updated_at = now }) m;
        }

  unfoldable pub record_failure : ℕ → K → SrttCache K → SrttCache K
  record_failure now k c = if not c.enabled then c else record c {
    entries =
        insert k (record { srtt_ms = failure_penalty_ms; updated_at = now })
          (maybe_evict c.entries);
  }
