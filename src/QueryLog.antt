-- ===== src/QueryLog.antt =====
-- src/query_log.rs: the ring of the latest queries, its front first. A client's address is of a type
-- that the log only carries.
pub mod Order
use numa.Text.{starts_with}
use numa.Prelude.{
  length, leb, ◌=?◌, ◌++◌, ◌||◌, ◌&&◌, if◌then◌else◌, ◌==◌, take, ℕ, List, Option, ◌+◌, Bool, refl,
  zero, suc, true, false, none, some, inl, inr, [], ◌∷◌,
}
use numa.Cache.{DnssecStatus}
use numa.Header.{ResultCode}
use numa.Question.{QueryType}
use numa.Buffer.{Bytes}
use numa.Question.Types.{query_type_key}

pub data QueryPath : Type 0 where
  local cached forwarded upstream recursive coalesced blocked overridden upstream_error : QueryPath

pub data Transport : Type 0 where
  udp tcp dot doh : Transport

unfoldable pub path_tag : QueryPath → ℕ
path_tag local = 0
path_tag cached = 1
path_tag forwarded = 2
path_tag upstream = 3
path_tag recursive = 4
path_tag coalesced = 5
path_tag blocked = 6
path_tag overridden = 7
path_tag upstream_error = 8

pub record QueryLogEntry (Addr : Type 0) : Type 0 where
  pub seq : ℕ
  pub timestamp : ℕ
  pub src_addr : Addr
  pub domain : Bytes
  pub query_type : QueryType
  pub path : QueryPath
  pub transport : Transport
  pub rescode : ResultCode
  pub latency_us : ℕ
  pub dnssec : DnssecStatus
  pub rebind_stripped : Bool

pub record QueryLog (Addr : Type 0) : Type 0 where
  pub entries : List (QueryLogEntry Addr)
  pub capacity : ℕ
  pub next_seq : ℕ

pub record QueryLogFilter : Type 0 where
  pub domain : Option Bytes
  pub query_type : Option QueryType
  pub path : Option QueryPath
  pub limit : Option ℕ

-- `str::contains`
unfoldable pub contains : Bytes → Bytes → Bool
contains [] part = starts_with part []
contains (x ∷ text) part = starts_with part (x ∷ text) || contains text part

-- A filter that is not set lets every entry pass.
abbrev pub passes {ℓ} : {A : Type ℓ} → (A → Bool) → Option A → Bool
passes test none = true
passes test (some a) = test a

-- `filter.limit.unwrap_or(50)`
abbrev pub limit_of : QueryLogFilter → ℕ
limit_of f = elim f.limit [ none ↦ 50 | some n ↦ n ]

module _ {Addr : Type 0} where
  unfoldable pub new_log : ℕ → QueryLog Addr
  new_log capacity = record { entries = []; capacity = capacity; next_seq = 0 }

  -- `pop_front`
  abbrev pub pop_front : List (QueryLogEntry Addr) → List (QueryLogEntry Addr)
  pop_front [] = []
  pop_front (e ∷ es) = es

  unfoldable pub push : QueryLogEntry Addr → QueryLog Addr → QueryLog Addr
  push entry l =
      let next_seq = l.next_seq + 1 in
      let kept = if leb l.capacity (length l.entries) then pop_front l.entries else l.entries in
      record l { next_seq = next_seq; entries = kept ++ (record entry { seq = next_seq } ∷ []) }

  unfoldable pub selects : QueryLogFilter → QueryLogEntry Addr → Bool
  selects f e =
      passes (λ domain. contains e.domain domain) f.domain
      && passes (λ qtype. e.query_type =? qtype) f.query_type
      && passes (λ path. path_tag e.path == path_tag path) f.path

  -- `iter().rev()`
  unfoldable pub newest_first : List (QueryLogEntry Addr) → List (QueryLogEntry Addr)
  newest_first [] = []
  newest_first (e ∷ es) = newest_first es ++ (e ∷ [])

  unfoldable pub select : QueryLogFilter → List (QueryLogEntry Addr) → List (QueryLogEntry Addr)
  select f [] = []
  select f (e ∷ es) = let rest = select f es in if selects f e then e ∷ rest else rest

  unfoldable pub query_log : QueryLogFilter → QueryLog Addr → List (QueryLogEntry Addr)
  query_log f l = take (limit_of f) (select f (newest_first l.entries))
