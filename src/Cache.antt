-- ===== src/Cache.antt =====
-- src/cache.rs: the cache of raw messages with serve-stale. A time is a number of nanoseconds, and
-- `Instant::now()` an argument. The outer `none` of a lookup is a panic.
pub mod Invariant
pub mod Serve
pub mod Life
pub mod Written
use numa.Buffer.{filled, new, from_bytes, Bytes}
use numa.Packet.{from_buffer, write_packet, DnsPacket}
use numa.Prelude.{
  any, refl, zero, suc, inl, inr, bytes_key, ◌^◌, max, ltb, ◌%◌, length, leb, ◌+◌, ◌*◌, ◌-◌, ◌/◌,
  map, if◌then◌else◌, Bool, Option, ℕ, true, false, none, some, [], ◌∷◌,
}
use numa.Wire.{min_ttl_from_wire, scan_ttl_offsets, patch_ttls, patch_id, WireMeta}
use numa.Question.Types.{query_type_key}
use numa.Error.{ok, err}
use numa.Buffer.Name.{to_ascii_lowercase}
use numa.Question.{QueryType}
use numa.Map.{Map, get, insert, remove, contains_key, get_or_default}

pub data Freshness : Type 0 where
  fresh near_expiry stale : Freshness

unfoldable pub needs_refresh : Freshness → Bool
needs_refresh near_expiry = true
needs_refresh stale = true
needs_refresh _ = false

pub data DnssecStatus : Type 0 where
  secure insecure bogus indeterminate : DnssecStatus

pub record CacheEntry : Type 0 where
  pub wire : Bytes
  pub meta : WireMeta
  pub inserted_at : ℕ
  pub ttl : ℕ
  pub dnssec_status : DnssecStatus

-- `Duration::from_secs`
abbrev pub from_secs : ℕ → ℕ
from_secs n = n * 1000000000

-- `as_secs() as u32`
abbrev pub as_secs : ℕ → ℕ
as_secs d = d / 1000000000 % 2 ^ 32

abbrev pub stale_window : ℕ
stale_window = from_secs 3600

abbrev pub Entries : Type 0
Entries = Map Bytes (Map QueryType CacheEntry)

pub record DnsCache : Type 0 where
  pub entries : Entries
  pub entry_count : ℕ
  pub max_entries : ℕ
  pub min_ttl : ℕ
  pub max_ttl : ℕ

unfoldable pub new_cache : ℕ → ℕ → ℕ → DnsCache
new_cache max_entries min_ttl max_ttl = record {
  entries = [];
  entry_count = 0;
  max_entries = max_entries;
  min_ttl = min_ttl;
  max_ttl = max_ttl;
}

-- `inserted_at.elapsed()`, which saturates.
abbrev pub elapsed : ℕ → CacheEntry → ℕ
elapsed now e = now - e.inserted_at

unfoldable pub find_entry : Bytes → QueryType → DnsCache → Option CacheEntry
find_entry domain qtype c = elim (get domain c.entries) [
  | none ↦ none
  | some type_map ↦ get qtype type_map
]

-- The TTL to serve and the freshness, by age.
unfoldable pub served : ℕ → ℕ → Option (ℕ × Freshness)
served age ttl =
    if ltb age ttl
    then some (max (as_secs (ttl - age)) 1, if leb (ttl * 9) (age * 10) then near_expiry else fresh)
    else if ltb age (ttl + stale_window)
    then some (1, stale)
    else none

-- The copy that is served, patched.
unfoldable pub patch_copy : CacheEntry → ℕ → ℕ → Option Bytes
patch_copy e new_id remaining = elim (patch_id e.wire new_id) [
  | none ↦ none
  | some wire ↦ patch_ttls wire e.meta.ttl_offsets remaining
]

unfoldable pub serve_entry : ℕ → ℕ → CacheEntry → Option (Option (Bytes × DnssecStatus × Freshness))
serve_entry now new_id e = elim (served (elapsed now e) e.ttl) [
  | none ↦ some none
  | some (remaining, freshness) ↦ elim (patch_copy e new_id remaining) [
    | none ↦ none
    | some wire ↦ some (some (wire, e.dnssec_status, freshness))
  ]
]

unfoldable pub lookup_wire :
    ℕ → Bytes → QueryType → ℕ → DnsCache → Option (Option (Bytes × DnssecStatus × Freshness))
lookup_wire now domain qtype new_id c = elim (find_entry domain qtype c) [
  | none ↦ some none
  | some e ↦ serve_entry now new_id e
]

-- `type_map.retain(|_, entry| entry.inserted_at.elapsed() < entry.ttl)`
unfoldable pub retain_live : ℕ → Map QueryType CacheEntry → Map QueryType CacheEntry
retain_live now [] = []
retain_live now (e ∷ m) =
    let rest = retain_live now m in if ltb (elapsed now e.1) e.1.ttl then e ∷ rest else rest

-- `!type_map.is_empty()`
abbrev pub keep_entry : Bytes → Map QueryType CacheEntry → Entries → Entries
keep_entry domain [] m = m
keep_entry domain (e ∷ live) m = (domain, e ∷ live) ∷ m

-- The outer `retain`, with the number of entries that it drops.
unfoldable pub evict_entries : ℕ → Entries → Entries × ℕ
evict_entries now [] = ([], 0)
evict_entries now (e ∷ m) =
    let rest = evict_entries now m in
    let live = retain_live now e.1 in
    let count = rest.1 + (length e.1 - length live) in (keep_entry e.0 live rest.0, count)

unfoldable pub evict_expired : ℕ → DnsCache → DnsCache
evict_expired now c =
    let kept = evict_entries now c.entries in
    record c { entries = kept.0; entry_count = c.entry_count - kept.1 }

abbrev pub Worst : Type 0
Worst = Option (Bytes × QueryType × ℕ)

-- One round of the search for the least time left; the first of equals stays.
unfoldable pub worse : ℕ → Bytes → QueryType × CacheEntry → Worst → Worst
worse now domain e none = some (domain, e.0, e.1.ttl - elapsed now e.1)
worse now domain e (some w) =
    let remaining = e.1.ttl - elapsed now e.1 in
    if ltb remaining w.2 then some (domain, e.0, remaining) else some w

unfoldable pub worst_of_types : ℕ → Bytes → Map QueryType CacheEntry → Worst → Worst
worst_of_types now domain [] w = w
worst_of_types now domain (e ∷ m) w = worst_of_types now domain m (worse now domain e w)

unfoldable pub worst_of : ℕ → Entries → Worst → Worst
worst_of now [] w = w
worst_of now (e ∷ m) w = worst_of now m (worst_of_types now e.0 e.1 w)

abbrev pub put_left : Bytes → Map QueryType CacheEntry → Entries → Entries
put_left domain [] m = remove domain m
put_left domain (e ∷ left) m = insert domain (e ∷ left) m

-- The removal of one entry, and of its map where that leaves it empty.
unfoldable pub drop_entry : Bytes → QueryType → DnsCache → DnsCache
drop_entry domain qtype c = elim (get domain c.entries) [
  | none ↦ c
  | some type_map ↦ record c {
    entries = put_left domain (remove qtype type_map) c.entries;
    entry_count = c.entry_count - (if contains_key qtype type_map then 1 else 0);
  }
]

unfoldable pub evict_stalest : ℕ → DnsCache → DnsCache
evict_stalest now c = elim (worst_of now c.entries none) [
  | none ↦ c
  | some (domain, qtype, remaining) ↦ drop_entry domain qtype c
]

unfoldable pub make_room : ℕ → DnsCache → DnsCache
make_room now c =
    if leb c.max_entries c.entry_count
    then (let kept = evict_expired now c in
        if leb kept.max_entries kept.entry_count then evict_stalest now kept else kept)
    else c

-- `u32::clamp` for `lo ≤ hi`, without which it panics in Rust.
abbrev pub clamp : ℕ → ℕ → ℕ → ℕ
clamp lo hi x = if ltb x lo then lo else if ltb hi x then hi else x

abbrev pub unwrap_or : Option ℕ → ℕ → ℕ
unwrap_or none d = d
unwrap_or (some x) d = x

-- The part of `insert_wire` after the eviction.
unfoldable pub put_entry : Bytes → QueryType → CacheEntry → DnsCache → DnsCache
put_entry domain qtype e c =
    let type_map = get_or_default (get domain c.entries) in
    record c {
      entries = insert domain (insert qtype e type_map) c.entries;
      entry_count = c.entry_count + (if contains_key qtype type_map then 0 else 1);
    }

unfoldable pub insert_wire : ℕ → Bytes → QueryType → Bytes → DnssecStatus → DnsCache → DnsCache
insert_wire now domain qtype wire dnssec_status c = elim (scan_ttl_offsets wire) [
  | err e ↦ c
  | ok meta ↦
      let room = make_room now c in
      let min_ttl =
        clamp room.min_ttl room.max_ttl (unwrap_or (min_ttl_from_wire wire meta) room.min_ttl) in
      put_entry domain qtype
        (record {
          wire = wire;
          meta = meta;
          inserted_at = now;
          ttl = from_secs min_ttl;
          dnssec_status = dnssec_status;
        })
        room
]

unfoldable pub clear : DnsCache → DnsCache
clear c = record c { entries = []; entry_count = 0 }

-- `remove`, of a domain's every type.
unfoldable pub remove_domain : Bytes → DnsCache → DnsCache
remove_domain domain c =
    let domain_lower = map to_ascii_lowercase domain in
    elim (get domain_lower c.entries) [
      | none ↦ c
      | some type_map ↦ record c {
        entries = remove domain_lower c.entries;
        entry_count = c.entry_count - length type_map;
      }
    ]

unfoldable pub ttl_remaining : ℕ → Bytes → QueryType → DnsCache → Option (ℕ × ℕ)
ttl_remaining now domain qtype c = elim (find_entry domain qtype c) [
  | none ↦ none
  | some e ↦
      if leb e.ttl (elapsed now e)
      then none
      else some (as_secs (e.ttl - elapsed now e), as_secs e.ttl)
]

-- `lookup_with_status`: a copy that does not parse is no answer.
unfoldable pub lookup_with_status :
    ℕ → Bytes → QueryType → DnsCache → Option (Option (DnsPacket × DnssecStatus × Freshness))
lookup_with_status now domain qtype c = elim (lookup_wire now domain qtype 0 c) [
  | none ↦ none
  | some none ↦ some none
  | some (some (wire, status, freshness)) ↦ elim (from_buffer (from_bytes wire)).0 [
    | err e ↦ some none
    | ok pkt ↦ some (some (pkt, status, freshness))
  ]
]

-- A message that does not fit a buffer is not kept; after a write that fits, `filled` has bytes.
unfoldable pub insert_with_status :
    ℕ → Bytes → QueryType → DnsPacket → DnssecStatus → DnsCache → DnsCache
insert_with_status now domain qtype packet dnssec_status c =
    let written = write_packet packet new in
    elim written.0 [
      | err e ↦ c
      | ok done ↦ elim (filled written.1) [
        | none ↦ c
        | some bytes ↦ insert_wire now domain qtype bytes dnssec_status c
      ]
    ]

unfoldable pub needs_warm : ℕ → Bytes → DnsCache → Bool
needs_warm now domain c =
    any
      (λ qtype. elim (ttl_remaining now domain qtype c) [
        | none ↦ true
        | some (remaining, total) ↦ ltb remaining (total / 4)
      ])
      (QueryType.a ∷ QueryType.aaaa ∷ [])
