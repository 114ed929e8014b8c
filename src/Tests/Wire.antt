-- ===== src/Tests/Wire.antt =====
-- The scan, the patches and the cache at a message with one answer.
use numa.Prelude.{arith, take, ◌≤◌, All, ℕ, length, ◌↔◌, ◌≡◌, refl, none, some, [], ◌∷◌, bytes_key}
use numa.Cache.Serve.{lookup_wire-served, find_entry-insert_wire}
use numa.Cache.Invariant.{insert_wire-IsCache, remove_domain-IsCache, IsCache}
use numa.Cache.{
  clear, insecure, from_secs, remove_domain, insert_wire, lookup_wire, served, find_entry, DnsCache,
  CacheEntry, fresh,
}
use numa.Question.Types.{same_type, query_type_key}
use numa.Question.{QueryType}
use numa.Wire.Patch.{patched_as_scanned, Outside}
use numa.Wire.{
  byte, skip_labels, u16_at, skip_wire_name, skip_questions, u32_at, is_opt_at, push_offset,
  ttls_at, patch_ttls, scan_record, scan_section, patch_id, min_of, min_ttl_from_wire,
  scan_ttl_offsets, WireMeta,
}
use numa.Wire.Least.{min_ttl_from_wire-IsLeast, IsLeast}
use numa.Wire.Scan.{scan_ttl_offsets-IsMeta, IsMeta, Settles}
use numa.Map.{total, get}
use numa.Buffer.{Bytes}
use numa.Error.{ok}

abbrev answer_wire : Bytes
answer_wire =
    18 ∷ 52 ∷ 129 ∷ 128 ∷ 0 ∷ 0 ∷ 0 ∷ 1 ∷ 0 ∷ 0 ∷ 0 ∷ 0 ∷ 0 ∷ 0 ∷ 1 ∷ 0 ∷ 1 ∷ 0 ∷ 0 ∷ 1 ∷ 44 ∷ 0 ∷ 4
    ∷ 10 ∷ 0 ∷ 0 ∷ 1 ∷ []

abbrev answer_meta : WireMeta
answer_meta = record { ttl_offsets = 17 ∷ []; answer_count = 1 }

answer_scanned : scan_ttl_offsets answer_wire ≡ ok answer_meta
unfolding scan_ttl_offsets scan_section scan_record push_offset is_opt_at skip_questions
    skip_wire_name skip_labels
answer_scanned = refl

least_ttl : min_ttl_from_wire answer_wire answer_meta ≡ some 300
unfolding min_ttl_from_wire min_of ttls_at
least_ttl = refl

scan_ttl_offsets-IsMeta_example : Settles (IsMeta answer_wire) (scan_ttl_offsets answer_wire)
scan_ttl_offsets-IsMeta_example = scan_ttl_offsets-IsMeta answer_wire

patched_as_scanned_example :
    (mid : Bytes) × (ys : Bytes) × (patch_id answer_wire 7 ≡ some mid)
    × (patch_ttls mid (17 ∷ []) 60 ≡ some ys)
    × (length ys ≡ length answer_wire)
    × All (λ off. u32_at ys off ≡ 60) (17 ∷ [])
    × (u16_at ys 0 ≡ 7)
    × ((j : ℕ) → 2 ≤ j → Outside (17 ∷ []) j → byte ys j ≡ byte answer_wire j)
patched_as_scanned_example = patched_as_scanned answer_wire answer_meta 7 60 answer_scanned

min_ttl_from_wire-IsLeast_example :
    ((min_ttl_from_wire answer_wire answer_meta ≡ none) ↔ (answer_meta.answer_count ≡ 0))
    × ((m : ℕ)
        → min_ttl_from_wire answer_wire answer_meta ≡ some m
        → IsLeast answer_wire (take 1 (17 ∷ [])) m)
min_ttl_from_wire-IsLeast_example = min_ttl_from_wire-IsLeast answer_wire answer_meta answer_scanned

abbrev domain : Bytes
domain = b'd' ∷ b'n' ∷ b's' ∷ []

abbrev entry : CacheEntry
entry = record {
  wire = answer_wire;
  meta = answer_meta;
  inserted_at = 0;
  ttl = from_secs 300;
  dnssec_status = insecure;
}

abbrev cache : DnsCache
cache = record {
  entries = (domain, (QueryType.a, entry) ∷ []) ∷ [];
  entry_count = 1;
  max_entries = 1;
  min_ttl = 60;
  max_ttl = 3600;
}

cache-IsCache : IsCache cache
unfolding total
cache-IsCache = record { counted = refl; valid = ((answer_scanned, tt), tt) }

abbrev www : Bytes
www = b'w' ∷ b'w' ∷ b'w' ∷ []

-- The cache is full, so the insertion of another name evicts.
insert_wire-IsCache_example :
    IsCache (insert_wire (from_secs 400) www QueryType.a answer_wire insecure cache)
insert_wire-IsCache_example =
    insert_wire-IsCache (from_secs 400) www QueryType.a answer_wire insecure cache cache-IsCache

remove_domain-IsCache_example : IsCache (remove_domain domain cache) × IsCache (clear cache)
remove_domain-IsCache_example = remove_domain-IsCache domain cache cache-IsCache

lookup_wire-served_example :
    (wire : Bytes) × (lookup_wire (from_secs 60) domain QueryType.a 9 cache
      ≡ some (some (wire, insecure, fresh)))
    × (length wire ≡ length answer_wire)
    × (u16_at wire 0 ≡ 9)
    × All (λ off. u32_at wire off ≡ 240) (17 ∷ [])
unfolding find_entry get served same_type
lookup_wire-served_example =
    lookup_wire-served (from_secs 60) domain QueryType.a 9 cache entry 240 fresh cache-IsCache refl
      refl

find_entry-insert_wire_example :
    (e : CacheEntry) × (find_entry www QueryType.a
        (insert_wire (from_secs 400) www QueryType.a answer_wire insecure cache)
      ≡ some e)
    × (e.wire ≡ answer_wire)
    × (e.meta ≡ answer_meta)
    × (e.inserted_at ≡ from_secs 400)
    × (e.dnssec_status ≡ insecure)
    × (from_secs 60 ≤ e.ttl)
    × (e.ttl ≤ from_secs 3600)
find_entry-insert_wire_example =
    find_entry-insert_wire (from_secs 400) www QueryType.a answer_wire insecure cache answer_meta
      answer_scanned (omega arith)
