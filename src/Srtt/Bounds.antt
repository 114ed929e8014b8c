-- ===== src/Srtt/Bounds.antt =====
-- The scores and the size of the cache stay inside their bounds.
use native.Mathlib.Decide.{dec_le}
use numa.Prelude.{
  Option-cases, ◌-◌, ◌*◌, if◌then◌else◌, Bool, not, ltb→lt, same_self, take, min, ◌<◌, leb, ltb,
  ◌/◌, Bool-cases, ◌≡◌, length, ◌+◌, All, ◌≤◌, arith, ℕ, Key, refl, zero, suc, true, false, inl,
  inr, [], ◌∷◌,
}
use numa.Srtt.{
  or_insert, decayed_srtt, failure_penalty_ms, evict_batch, record_failure, record_rtt,
  srtt_max_entries, decay_after_secs, SrttEntry, remove_all, insert_by_age, initial_srtt_ms,
  SrttCache, sort_by_age, maybe_evict, decay_for_age, decay_periods,
}
use numa.Map.{
  Map, get, insert, remove, contains_key, length-insert, length-remove, All-get, All-insert,
  All-remove,
}

-- Decay moves a score toward the initial one and never past it.
pub record IsBetween (srtt decayed : ℕ) : Type 0 where
  pub above : initial_srtt_ms ≤ srtt → (initial_srtt_ms ≤ decayed) × (decayed ≤ srtt)
  pub below : srtt ≤ initial_srtt_ms → (srtt ≤ decayed) × (decayed ≤ initial_srtt_ms)

decay_periods-IsBetween : (periods srtt : ℕ) → IsBetween srtt (decay_periods periods srtt)
unfolding decay_periods
decay_periods-IsBetween zero srtt = record {
  above = λ h. (omega arith, omega arith);
  below = λ h. (omega arith, omega arith);
}
decay_periods-IsBetween (suc periods) srtt =
    let next : IsBetween ((srtt + initial_srtt_ms) / 2)
        (decay_periods periods ((srtt + initial_srtt_ms) / 2)) =
      decay_periods-IsBetween periods ((srtt + initial_srtt_ms) / 2) in
    record {
      above = λ h. let (lo, hi) = next.above (omega arith) in (omega arith, omega arith);
      below = λ h. let (lo, hi) = next.below (omega arith) in (omega arith, omega arith);
    }

-- At every age the decayed score lies between the score and the initial one, and up to the decay
-- period it is the score itself.
pub decay_for_age-IsBetween :
    (srtt_ms age_secs : ℕ)
    → IsBetween srtt_ms (decay_for_age srtt_ms age_secs)
      × (age_secs ≤ decay_after_secs → decay_for_age srtt_ms age_secs ≡ srtt_ms)
unfolding decay_for_age decay_periods
decay_for_age-IsBetween srtt_ms age_secs = (
  elim (Bool-cases (ltb decay_after_secs age_secs)) [
    | inl old ↦
        rw (old, decay_for_age)
          (decay_periods-IsBetween (min (age_secs / decay_after_secs) 8) srtt_ms)
    | inr young ↦ rw (young, decay_for_age) (decay_periods-IsBetween 0 srtt_ms)
  ],
  λ young. ground arith,
)

module _ {K : Type 0} ⦃key : Key K⦄ where
  -- Every score is at most `most`, and there are at most as many entries as allowed.
  pub record IsSrtt (most : ℕ) (c : SrttCache K) : Type 0 where
    pub scores : All (λ e. e.1.srtt_ms ≤ most) c.entries
    pub size : length c.entries ≤ srtt_max_entries

  AreKeys : Map K SrttEntry → Map K SrttEntry → Type 0
  AreKeys m gone = All (λ e. contains_key e.0 m ≡ true) gone

  contains_more :
      (e : K × SrttEntry) (m gone : Map K SrttEntry) → AreKeys m gone → AreKeys (e ∷ m) gone
  unfolding AreKeys get
  contains_more e m [] h = tt
  contains_more e m (f ∷ gone) h = (ground (arith, h.0), contains_more e m gone h.1)

  insert_by_age-AreKeys :
      (m : Map K SrttEntry) (e : K × SrttEntry) (gone : Map K SrttEntry)
      → contains_key e.0 m ≡ true
      → AreKeys m gone
      → AreKeys m (insert_by_age e gone)
  unfolding AreKeys insert_by_age
  insert_by_age-AreKeys m e [] own h = (own, tt)
  insert_by_age-AreKeys m e (f ∷ gone) own h =
      elim (Bool-cases (leb e.1.updated_at f.1.updated_at)) [
        | inl older ↦ rw (older, All) (own, (h.0, h.1))
        | inr younger ↦ rw (younger, All) (h.0, insert_by_age-AreKeys m e gone own h.1)
      ]

  contains_first : (e : K × SrttEntry) (m : Map K SrttEntry) → contains_key e.0 (e ∷ m) ≡ true
  unfolding get
  contains_first e m = rw (same_self e.0) refl

  sort_by_age-AreKeys : (m : Map K SrttEntry) → AreKeys m (sort_by_age m)
  unfolding sort_by_age
  sort_by_age-AreKeys [] = unfold AreKeys in tt
  sort_by_age-AreKeys (e ∷ m) =
      insert_by_age-AreKeys (e ∷ m) e (sort_by_age m) (contains_first e m)
        (contains_more e m (sort_by_age m) (sort_by_age-AreKeys m))

  length-insert_by_age :
      (e : K × SrttEntry) (m : Map K SrttEntry) → length (insert_by_age e m) ≡ suc (length m)
  unfolding insert_by_age
  length-insert_by_age e [] = refl
  length-insert_by_age e (f ∷ m) = ground (arith, length-insert_by_age e m)

  remove_all_scores :
      (most : ℕ) (gone m : Map K SrttEntry)
      → All (λ e. e.1.srtt_ms ≤ most) m
      → All (λ e. e.1.srtt_ms ≤ most) (remove_all gone m)
  unfolding remove_all
  remove_all_scores most [] m h = h
  remove_all_scores most (e ∷ gone) m h =
      remove_all_scores most gone (remove e.0 m) (All-remove (λ v. v.srtt_ms ≤ most) e.0 m h)

  remove_all_fewer : (gone m : Map K SrttEntry) → length (remove_all gone m) ≤ length m
  unfolding remove_all
  remove_all_fewer [] m = omega arith
  remove_all_fewer (e ∷ gone) m =
      omega (arith, remove_all_fewer gone (remove e.0 m), length-remove e.0 m)

  length-sort_by_age : (m : Map K SrttEntry) → length (sort_by_age m) ≡ length m
  unfolding sort_by_age
  length-sort_by_age [] = refl
  length-sort_by_age (e ∷ m) =
      omega (arith, length-insert_by_age e (sort_by_age m), length-sort_by_age m)

  -- The first of the entries that go is found, so the map gets smaller.
  remove_all_shrinks :
      (n : ℕ) (gone m : Map K SrttEntry)
      → AreKeys m gone
      → 1 ≤ length gone
      → length (remove_all (take (suc n) gone) m) < length m
  unfolding remove_all AreKeys
  remove_all_shrinks n [] m keys some_gone = absurd (omega arith)
  remove_all_shrinks n (e ∷ gone) m keys some_gone =
      let rest : length (remove_all (take n gone) (remove e.0 m)) ≤ length (remove e.0 m) =
        remove_all_fewer (take n gone) (remove e.0 m) in
      let first : length (remove e.0 m) + 1 ≡ length m =
        ground (arith, length-remove e.0 m, keys.0) in
      omega (arith, rest, first)

  maybe_evict_lem :
      (most : ℕ) (m : Map K SrttEntry)
      → All (λ e. e.1.srtt_ms ≤ most) m
      → All (λ e. e.1.srtt_ms ≤ most) (maybe_evict m)
        × (length m ≤ srtt_max_entries → length (maybe_evict m) < srtt_max_entries)
  unfolding maybe_evict
  maybe_evict_lem most m h = elim (Bool-cases (ltb (length m) srtt_max_entries)) [
    | inl room ↦ rw (room, maybe_evict) (h, λ most_full. ltb→lt _ _ room)
    | inr full ↦
        let gone : Map K SrttEntry = sort_by_age m in
        let many : srtt_max_entries ≤ length m = ground arith in
        let fewer : length (remove_all (take evict_batch gone) m) < length m =
          remove_all_shrinks 63 gone m (sort_by_age-AreKeys m)
            (omega (arith, length-sort_by_age m)) in
        rw (full, maybe_evict)
          (remove_all_scores most (take evict_batch gone) m h, λ at_most. omega (arith, fewer))
  ]

  insert_score :
      (most now srtt : ℕ) (k : K) (c : SrttCache K)
      → IsSrtt most c
      → srtt ≤ most
      → IsSrtt most (record c {
        entries = insert k (record { srtt_ms = srtt; updated_at = now }) (maybe_evict c.entries);
      })
  insert_score most now srtt k c h le =
      let (scores, room) = maybe_evict_lem most c.entries h.scores in
      let fits : length (maybe_evict c.entries) < srtt_max_entries = room h.size in
      record {
        scores =
            All-insert (λ v. v.srtt_ms ≤ most) k (record { srtt_ms = srtt; updated_at = now })
              (maybe_evict c.entries) le scores;
        size = ground (
          arith,
          fits,
          length-insert k (record { srtt_ms = srtt; updated_at = now }) (maybe_evict c.entries),
        );
      }

  IsSrtt-if :
      (most : ℕ) (t : Bool) (c d : SrttCache K)
      → IsSrtt most c
      → IsSrtt most d
      → IsSrtt most (if t then c else d)
  IsSrtt-if most true c d hc hd = hc
  IsSrtt-if most false c d hc hd = hd

  -- The moving average of two scores within the bound.
  base_score :
      (most now rtt_ms : ℕ) (k : K) (m : Map K SrttEntry)
      → failure_penalty_ms ≤ most
      → rtt_ms ≤ most
      → All (λ e. e.1.srtt_ms ≤ most) m
      → (decayed_srtt now (or_insert (record { srtt_ms = rtt_ms; updated_at = now }) (get k m)) * 7
            + rtt_ms)
          / 8
        ≤ most
  unfolding decayed_srtt
  base_score most now rtt_ms k m penalty fits h =
      let entry : SrttEntry = or_insert (record { srtt_ms = rtt_ms; updated_at = now }) (get k m) in
      let age : ℕ = (now - entry.updated_at) / 1000000000 in
      let inside : entry.srtt_ms ≤ most = elim (Option-cases (get k m)) [
        | inl absent ↦ rw absent fits
        | inr (old, found) ↦ rw found (All-get (λ v. v.srtt_ms ≤ most) k old m h found)
      ] in
      let between : IsBetween entry.srtt_ms (decay_for_age entry.srtt_ms age) =
        (decay_for_age-IsBetween entry.srtt_ms age).0 in
      elim (dec_le initial_srtt_ms entry.srtt_ms) [
        | yes above ↦ omega (arith, between.above above, inside)
        | no below ↦ omega (arith, between.below (omega arith), penalty)
      ]

  -- For a bound of at least the failure penalty: recording a time within the bound, or
  -- a failure, keeps every score within it, and the number of entries within its limit.
  pub record-IsSrtt :
      (most now rtt_ms : ℕ) (k : K) (c : SrttCache K)
      → failure_penalty_ms ≤ most
      → rtt_ms ≤ most
      → IsSrtt most c
      → IsSrtt most (record_rtt now k rtt_ms c) × IsSrtt most (record_failure now k c)
  unfolding record_rtt record_failure
  record-IsSrtt most now rtt_ms k c penalty fits h = (
    IsSrtt-if most (not c.enabled) c _ h (
        insert_score most now _ k c h (
          base_score most now rtt_ms k (maybe_evict c.entries) penalty fits
            (maybe_evict_lem most c.entries h.scores).0)),
    IsSrtt-if most (not c.enabled) c _ h (insert_score most now failure_penalty_ms k c h penalty),
  )
