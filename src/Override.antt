-- ===== src/Override.antt =====
-- src/override_store.rs: temporary answers for a name. A time is a count of nanoseconds and `Instant::now()` an
-- argument; the standard library's parsers of addresses are an instance argument.
pub mod Expiry
use numa.Prelude.{
  ◌*◌, ◌/◌, ◌+◌, ◌-◌, if◌then◌else◌, not, leb, if_some, length, retain, Option, refl, zero, suc,
  true, false, none, some, inl, inr, [], ◌∷◌, List, ℕ, Bool, bytes_key,
}
use numa.Map.{is_some, Map, get, insert, remove}
use numa.Text.{Text, Unicode}
use numa.Record.{DnsRecord, Rdata, Ipv4Addr, Ipv6Addr, a, aaaa, cname}
use numa.Question.{QueryType}

-- `str::parse` to an address.
pub record Addresses : Type 0 where
  pub parse_v4 : Text → Option Ipv4Addr
  pub parse_v6 : Text → Option Ipv6Addr

pub record OverrideEntry : Type 0 where
  pub domain : Text
  pub target : Text
  pub entry_record : DnsRecord
  pub query_type : QueryType
  pub ttl : ℕ
  pub created_at : ℕ
  pub duration_secs : Option ℕ

-- The sum of an instant and a duration, which panics in Rust past what the clock can hold.
abbrev pub expires_at : OverrideEntry → Option ℕ
expires_at e = if_some e.duration_secs (λ d. some (e.created_at + d * 1000000000))

-- Of the time that an entry expires at, if any.
unfoldable pub is_past : ℕ → Option ℕ → Bool
is_past now none = false
is_past now (some exp) = leb exp now

abbrev pub is_expired : ℕ → OverrideEntry → Bool
is_expired now e = is_past now (expires_at e)

unfoldable pub remaining_secs : ℕ → OverrideEntry → Option ℕ
remaining_secs now e =
    if_some (expires_at e) (λ exp. some (if leb exp now then 0 else (exp - now) / 1000000000))

abbrev pub OverrideStore : Type 0
OverrideStore = Map Text OverrideEntry

-- `_.filter(|e| !e.is_expired())` on an entry that was found.
abbrev pub live : ℕ → Option OverrideEntry → Option OverrideEntry
live now none = none
live now (some e) = if is_expired now e then none else some e

unfoldable pub lookup : ℕ → Text → OverrideStore → Option DnsRecord
lookup now domain s = if_some (live now (get domain s)) (λ e. some e.entry_record)

abbrev pub list : ℕ → OverrideStore → OverrideStore
list now s = retain (λ e. not (is_expired now e.1)) s

abbrev pub active_count : ℕ → OverrideStore → ℕ
active_count now s = length (list now s)

abbrev pub clear : OverrideStore → OverrideStore
clear s = []

module _ ⦃addresses : Addresses⦄ where
  unfoldable pub parse_target : Text → Text → ℕ → QueryType × DnsRecord
  parse_target domain target ttl = elim (addresses.parse_v4 target) [
    | some addr ↦ (QueryType.a, record { domain = domain; rdata = a addr; ttl = ttl })
    | none ↦ elim (addresses.parse_v6 target) [
      | some addr ↦ (QueryType.aaaa, record { domain = domain; rdata = aaaa addr; ttl = ttl })
      | none ↦ (QueryType.cname, record { domain = domain; rdata = cname target; ttl = ttl })
    ]
  ]

module _ ⦃unicode : Unicode⦄ where
  abbrev pub get_entry : ℕ → Text → OverrideStore → Option OverrideEntry
  get_entry now domain s = live now (get (unicode.to_lowercase domain) s)

  abbrev pub remove_entry : Text → OverrideStore → Bool × OverrideStore
  remove_entry domain s = let k = unicode.to_lowercase domain in (is_some (get k s), remove k s)

  module _ ⦃addresses : Addresses⦄ where
    abbrev pub new_entry : ℕ → Text → Text → ℕ → Option ℕ → OverrideEntry
    new_entry now domain target ttl duration_secs =
        let (qtype, rec) = parse_target domain target ttl in
        record {
          domain = domain;
          target = target;
          entry_record = rec;
          query_type = qtype;
          ttl = ttl;
          created_at = now;
          duration_secs = duration_secs;
        }

    unfoldable pub insert_override :
        ℕ → Text → Text → ℕ → Option ℕ → OverrideStore → QueryType × OverrideStore
    insert_override now domain target ttl duration_secs s =
        let domain_lower = unicode.to_lowercase domain in
        let e = new_entry now domain_lower target ttl duration_secs in
        (e.query_type, insert domain_lower e (list now s))
