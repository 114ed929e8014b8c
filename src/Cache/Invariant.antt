-- ===== src/Cache/Invariant.antt =====
-- The cache between two calls: its counter and its messages.
use numa.Buffer.{new, Bytes}
use numa.Cache.{
  elapsed, keep_entry, DnssecStatus, put_left, worst_of, Entries, clear, evict_entries, retain_live,
  evict_expired, make_room, remove_domain, CacheEntry, put_entry, evict_stalest, drop_entry,
  insert_wire, DnsCache,
}
use numa.Buffer.Name.{to_ascii_lowercase}
use numa.Prelude.{
  if◌then◌else◌, map, Bool, ltb, ◌≤◌, leb, length, Bool-cases, ◌+◌, All, arith, ℕ, ◌≡◌,
  Option-cases, refl, true, false, none, inl, inr, [], ◌∷◌, bytes_key,
}
use numa.Error.{Result-cases, ok}
use numa.Wire.{scan_ttl_offsets}
use numa.Question.{QueryType}
use numa.Map.{
  Map, get, insert, remove, get_or_default, total, length-insert, length-remove, total-insert,
  total-remove, All-get, All-insert, All-remove,
}
use numa.Question.Types.{query_type_key}

-- The offsets of an entry are those of a scan of its message.
abbrev pub IsEntry : CacheEntry → Type 0
IsEntry e = scan_ttl_offsets e.wire ≡ ok e.meta

abbrev pub AreEntries : Map QueryType CacheEntry → Type 0
AreEntries m = All (λ e. IsEntry e.1) m

-- The counter is the number of entries, and each entry can be patched.
pub record IsCache (c : DnsCache) : Type 0 where
  pub counted : c.entry_count ≡ total c.entries
  pub valid : All (λ e. AreEntries e.1) c.entries

retain_live-AreEntries :
    (now : ℕ) (m : Map QueryType CacheEntry)
    → AreEntries m
    → AreEntries (retain_live now m) × (length (retain_live now m) ≤ length m)
unfolding retain_live
retain_live-AreEntries now [] h = (tt, omega arith)
retain_live-AreEntries now (e ∷ m) h =
    let (kept, fewer) = retain_live-AreEntries now m h.1 in
    elim (Bool-cases (ltb (elapsed now e.1) e.1.ttl)) [
      | inl live ↦ rw (live, All) ((h.0, kept), omega arith)
      | inr dead ↦ rw (dead, All) (kept, omega arith)
    ]

keep_entry-AreEntries :
    (domain : Bytes) (live : Map QueryType CacheEntry) (m : Entries)
    → AreEntries live
    → All (λ e. AreEntries e.1) m
    → All (λ e. AreEntries e.1) (keep_entry domain live m)
      × (total (keep_entry domain live m) ≡ length live + total m)
unfolding total
keep_entry-AreEntries domain [] m live h = (h, omega arith)
keep_entry-AreEntries domain (e ∷ live) m kept h = ((kept, h), omega arith)

evict_entries-AreEntries :
    (now : ℕ) (m : Entries)
    → All (λ e. AreEntries e.1) m
    → All (λ e. AreEntries e.1) (evict_entries now m).0
      × (total (evict_entries now m).0 + (evict_entries now m).1 ≡ total m)
unfolding evict_entries total
evict_entries-AreEntries now [] h = (tt, omega arith)
evict_entries-AreEntries now (e ∷ m) h =
    let (rest, sum) = evict_entries-AreEntries now m h.1 in
    let (live, fewer) = retain_live-AreEntries now e.1 h.0 in
    let (kept, size) =
      keep_entry-AreEntries e.0 (retain_live now e.1) (evict_entries now m).0 live rest in
    (kept, omega (arith, size, sum, fewer))

evict_expired-IsCache : (now : ℕ) (c : DnsCache) → IsCache c → IsCache (evict_expired now c)
unfolding evict_expired
evict_expired-IsCache now c h =
    let (kept, sum) = evict_entries-AreEntries now c.entries h.valid in
    record { counted = omega (arith, h.counted, sum); valid = kept }

put_left-AreEntries :
    (domain : Bytes) (left : Map QueryType CacheEntry) (m : Entries)
    → AreEntries left
    → All (λ e. AreEntries e.1) m
    → All (λ e. AreEntries e.1) (put_left domain left m)
      × (total (put_left domain left m) + length (get_or_default (get domain m))
          ≡ total m + length left)
put_left-AreEntries domain [] m left h =
    (All-remove AreEntries domain m h, omega (arith, total-remove domain m))
put_left-AreEntries domain (e ∷ left) m kept h =
    (All-insert AreEntries domain (e ∷ left) m kept h, total-insert domain (e ∷ left) m)

drop_entry-IsCache :
    (domain : Bytes) (qtype : QueryType) (c : DnsCache)
    → IsCache c
    → IsCache (drop_entry domain qtype c)
unfolding drop_entry
drop_entry-IsCache domain qtype c h = elim (Option-cases (get domain c.entries)) [
  | inl absent ↦ rw (absent, drop_entry) h
  | inr (type_map, found) ↦
      let valid : AreEntries type_map =
        All-get AreEntries domain type_map c.entries h.valid found in
      let (left, sum) =
        put_left-AreEntries domain (remove qtype type_map) c.entries
          (All-remove IsEntry qtype type_map valid) h.valid in
      let size : length (get_or_default (get domain c.entries)) ≡ length type_map = rw found refl in
      rw (found, drop_entry)
        (record {
          counted = omega (arith, sum, size, h.counted, length-remove qtype type_map);
          valid = left;
        })
]

evict_stalest-IsCache : (now : ℕ) (c : DnsCache) → IsCache c → IsCache (evict_stalest now c)
unfolding evict_stalest
evict_stalest-IsCache now c h = elim (Option-cases (worst_of now c.entries none)) [
  | inl nothing ↦ rw (nothing, evict_stalest) h
  | inr (w, found) ↦ rw (found, evict_stalest) (drop_entry-IsCache w.0 w.1 c h)
]

IsCache-if : (t : Bool) (c d : DnsCache) → IsCache c → IsCache d → IsCache (if t then c else d)
IsCache-if true c d hc hd = hc
IsCache-if false c d hc hd = hd

make_room-IsCache : (now : ℕ) (c : DnsCache) → IsCache c → IsCache (make_room now c)
unfolding make_room
make_room-IsCache now c h =
    let kept : IsCache (evict_expired now c) = evict_expired-IsCache now c h in
    IsCache-if (leb c.max_entries c.entry_count) _ _
      (IsCache-if _ _ _ (evict_stalest-IsCache now (evict_expired now c) kept) kept) h

get_or_default-AreEntries :
    (domain : Bytes) (c : DnsCache) → IsCache c → AreEntries (get_or_default (get domain c.entries))
get_or_default-AreEntries domain c h = elim (Option-cases (get domain c.entries)) [
  | inl absent ↦ rw absent tt
  | inr (type_map, found) ↦ rw found (All-get AreEntries domain type_map c.entries h.valid found)
]

put_entry-IsCache :
    (domain : Bytes) (qtype : QueryType) (e : CacheEntry) (c : DnsCache)
    → IsEntry e
    → IsCache c
    → IsCache (put_entry domain qtype e c)
unfolding put_entry
put_entry-IsCache domain qtype e c new h =
    let type_map : Map QueryType CacheEntry = get_or_default (get domain c.entries) in
    let valid : AreEntries type_map = get_or_default-AreEntries domain c h in
    record {
      counted = omega (
        arith,
        h.counted,
        total-insert domain (insert qtype e type_map) c.entries,
        length-insert qtype e type_map,
      );
      valid =
          All-insert AreEntries domain (insert qtype e type_map) c.entries
            (All-insert IsEntry qtype e type_map new valid) h.valid;
    }

-- `insert_wire` keeps the cache well-formed whatever the message is: the counter stays the number of
-- entries, through both evictions, and every entry's offsets are those of a scan of its message.
pub insert_wire-IsCache :
    (now : ℕ) (domain : Bytes) (qtype : QueryType) (wire : Bytes) (dnssec_status : DnssecStatus)
    (c : DnsCache)
    → IsCache c
    → IsCache (insert_wire now domain qtype wire dnssec_status c)
unfolding insert_wire
insert_wire-IsCache now domain qtype wire dnssec_status c h =
    elim (Result-cases (scan_ttl_offsets wire)) [
      | inl (meta, scanned) ↦
          rw (scanned, insert_wire)
            (put_entry-IsCache domain qtype _ (make_room now c) scanned (make_room-IsCache now c h))
      | inr (e, failed) ↦ rw (failed, insert_wire) h
    ]

-- `remove` and `clear` keep the cache well-formed.
pub remove_domain-IsCache :
    (domain : Bytes) (c : DnsCache)
    → IsCache c
    → IsCache (remove_domain domain c) × IsCache (clear c)
unfolding remove_domain clear total
remove_domain-IsCache domain c h =
    let low : Bytes = map to_ascii_lowercase domain in
    (
      elim (Option-cases (get low c.entries)) [
        | inl absent ↦ rw (absent, remove_domain) h
        | inr (type_map, found) ↦
            let size : length (get_or_default (get low c.entries)) ≡ length type_map =
              rw found refl in
            rw (found, remove_domain)
              (record {
                counted = omega (arith, size, h.counted, total-remove low c.entries);
                valid = All-remove AreEntries low c.entries h.valid;
              })
      ],
      record { counted = refl; valid = tt },
    )
