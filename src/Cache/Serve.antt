-- ===== src/Cache/Serve.antt =====
-- What a lookup serves, and what an insertion makes it find.
use numa.Prelude.{
  ap, ◌∙◌, All, length, Option-cases, arith, ◌≤◌, ◌≡◌, ℕ, refl, none, some, inl, inr, bytes_key,
}
use numa.Cache.{
  clamp, drop_entry, evict_stalest, unwrap_or, evict_expired, put_entry, make_room, patch_copy,
  serve_entry, lookup_wire, from_secs, elapsed, insert_wire, CacheEntry, DnssecStatus, DnsCache,
  Freshness, find_entry, served,
}
use numa.Wire.{min_ttl_from_wire, patch_ttls, patch_id, u32_at, u16_at, scan_ttl_offsets, WireMeta}
use numa.Wire.Patch.{patched_as_scanned}
use numa.Cache.Invariant.{AreEntries, IsEntry, IsCache}
use numa.Map.{All-get, Map, get, insert, get_or_default, get-insert}
use numa.Question.{QueryType}
use numa.Buffer.{Bytes}
use numa.Question.Types.{query_type_key}
use numa.Error.{ok}

find_entry-IsEntry :
    (domain : Bytes) (qtype : QueryType) (c : DnsCache) (e : CacheEntry)
    → IsCache c
    → find_entry domain qtype c ≡ some e
    → IsEntry e
unfolding find_entry
find_entry-IsEntry domain qtype c e h found = elim (Option-cases (get domain c.entries)) [
  | inl absent ↦ absurd (let none_found : none ≡ some e = rw (absent, find_entry) at found in cc)
  | inr (type_map, here) ↦
      All-get IsEntry qtype e type_map (All-get AreEntries domain type_map c.entries h.valid here)
        (rw (here, find_entry) at found)
]

patch_copy_lem :
    (e : CacheEntry) (new_id remaining : ℕ) (mid ys : Bytes)
    → patch_id e.wire new_id ≡ some mid
    → patch_ttls mid e.meta.ttl_offsets remaining ≡ some ys
    → patch_copy e new_id remaining ≡ some ys
unfolding patch_copy
patch_copy_lem e new_id remaining mid ys first rest = rw (first, patch_copy) rest

-- A lookup that finds an entry returns a copy of its message while the entry is young enough.
pub lookup_wire_copies :
    (now : ℕ) (domain : Bytes) (qtype : QueryType) (new_id : ℕ) (c : DnsCache) (e : CacheEntry)
    (remaining : ℕ) (freshness : Freshness)
    → IsEntry e
    → find_entry domain qtype c ≡ some e
    → served (elapsed now e) e.ttl ≡ some (remaining, freshness)
    → (wire : Bytes) × (lookup_wire now domain qtype new_id c
        ≡ some (some (wire, e.dnssec_status, freshness)))
      × (length wire ≡ length e.wire)
      × (u16_at wire 0 ≡ new_id)
      × All (λ off. u32_at wire off ≡ remaining) e.meta.ttl_offsets
unfolding lookup_wire serve_entry
lookup_wire_copies now domain qtype new_id c e remaining freshness valid found young =
    let (mid, ys, first, rest, size, ttls, id, outside) =
      patched_as_scanned e.wire e.meta new_id remaining valid in
    (
      ys,
      (rw (found, lookup_wire)
          (rw (young, serve_entry)
            (rw (patch_copy_lem e new_id remaining mid ys first rest) refl))),
      size,
      id,
      ttls,
    )

-- Where the cache is well-formed and has an entry for the question that is young enough to serve, a
-- lookup returns a copy of its message, without a panic: of the same length, with the ID that was
-- asked for, and with the remaining TTL in each of its TTL fields.
pub lookup_wire-served :
    (now : ℕ) (domain : Bytes) (qtype : QueryType) (new_id : ℕ) (c : DnsCache) (e : CacheEntry)
    (remaining : ℕ) (freshness : Freshness)
    → IsCache c
    → find_entry domain qtype c ≡ some e
    → served (elapsed now e) e.ttl ≡ some (remaining, freshness)
    → (wire : Bytes) × (lookup_wire now domain qtype new_id c
        ≡ some (some (wire, e.dnssec_status, freshness)))
      × (length wire ≡ length e.wire)
      × (u16_at wire 0 ≡ new_id)
      × All (λ off. u32_at wire off ≡ remaining) e.meta.ttl_offsets
lookup_wire-served now domain qtype new_id c e remaining freshness h found young =
    lookup_wire_copies now domain qtype new_id c e remaining freshness
      (find_entry-IsEntry domain qtype c e h found) found young

-- Making room leaves the limits.
make_room-limits :
    (now : ℕ) (c : DnsCache)
    → ((make_room now c).min_ttl ≡ c.min_ttl) × ((make_room now c).max_ttl ≡ c.max_ttl)
unfolding make_room evict_expired evict_stalest drop_entry
make_room-limits now c = ground arith

find_entry-put_entry :
    (domain : Bytes) (qtype : QueryType) (e : CacheEntry) (c : DnsCache)
    → find_entry domain qtype (put_entry domain qtype e c) ≡ some e
unfolding find_entry put_entry
find_entry-put_entry domain qtype e c =
    let types : Map QueryType CacheEntry = insert qtype e (get_or_default (get domain c.entries)) in
    rw (get-insert domain types c.entries, find_entry)
      (get-insert qtype e (get_or_default (get domain c.entries)))

-- The entry that an insertion makes of a message.
abbrev pub kept_ttl : DnsCache → Bytes → WireMeta → ℕ
kept_ttl c wire meta =
    from_secs (clamp c.min_ttl c.max_ttl (unwrap_or (min_ttl_from_wire wire meta) c.min_ttl))

abbrev pub kept_entry : ℕ → Bytes → DnssecStatus → DnsCache → WireMeta → CacheEntry
kept_entry now wire dnssec_status c meta = record {
  wire = wire;
  meta = meta;
  inserted_at = now;
  ttl = kept_ttl c wire meta;
  dnssec_status = dnssec_status;
}

pub find_entry-kept_entry :
    (now : ℕ) (domain : Bytes) (qtype : QueryType) (wire : Bytes) (dnssec_status : DnssecStatus)
    (c : DnsCache) (meta : WireMeta)
    → scan_ttl_offsets wire ≡ ok meta
    → find_entry domain qtype (insert_wire now domain qtype wire dnssec_status c)
      ≡ some (kept_entry now wire dnssec_status c meta)
unfolding insert_wire
find_entry-kept_entry now domain qtype wire dnssec_status c meta scanned =
    let room : DnsCache = make_room now c in
    let (least, most) = make_room-limits now c in
    let limited : ℕ → ℕ → CacheEntry = λ lo hi. record {
      wire = wire;
      meta = meta;
      inserted_at = now;
      ttl = from_secs (clamp lo hi (unwrap_or (min_ttl_from_wire wire meta) lo));
      dnssec_status = dnssec_status;
    } in
    rw (scanned, insert_wire)
      (find_entry-put_entry domain qtype (kept_entry now wire dnssec_status room meta) room)
    ∙ ap some (ap (λ lo. limited lo room.max_ttl) least ∙ ap (λ hi. limited c.min_ttl hi) most)

-- A message that the scan accepts is found under its question right after its insertion, with the
-- offsets of the scan, and with a TTL inside the cache's limits where those are in order.
pub find_entry-insert_wire :
    (now : ℕ) (domain : Bytes) (qtype : QueryType) (wire : Bytes) (dnssec_status : DnssecStatus)
    (c : DnsCache) (meta : WireMeta)
    → scan_ttl_offsets wire ≡ ok meta
    → c.min_ttl ≤ c.max_ttl
    → (e : CacheEntry) × (find_entry domain qtype
          (insert_wire now domain qtype wire dnssec_status c)
        ≡ some e)
      × (e.wire ≡ wire)
      × (e.meta ≡ meta)
      × (e.inserted_at ≡ now)
      × (e.dnssec_status ≡ dnssec_status)
      × (from_secs c.min_ttl ≤ e.ttl)
      × (e.ttl ≤ from_secs c.max_ttl)
find_entry-insert_wire now domain qtype wire dnssec_status c meta scanned order = (
  kept_entry now wire dnssec_status c meta,
  find_entry-kept_entry now domain qtype wire dnssec_status c meta scanned,
  refl,
  refl,
  refl,
  refl,
  ground (arith, order),
  ground (arith, order),
)
