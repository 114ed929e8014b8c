-- ===== src/Blocklist.antt =====
-- src/blocklist.rs: `BlocklistStore` and `parse_blocklist`. A time is a count of nanoseconds and
-- `Instant::now()` the argument `now`; a set of domains is the list of its members.
pub mod Check
pub mod Loads
pub mod Words
pub mod Parse
pub mod Pause
use numa.DomainList.{list_length, DomainList, insert, remove, find_normalized, list_length}
use numa.Prelude.{
  ◌++◌, ◌==◌, ◌&&◌, drop, is_nil, refl, zero, suc, inl, inr, ◌∷◌, ◌||◌, ◌/◌, ◌=?◌, ◌-◌, not, ◌*◌,
  if◌then◌else◌, ltb, length, ◌+◌, Option, true, false, none, some, [], List, ℕ, Bool, bytes_key,
}
use numa.Text.{
  has_char, before, starts_with, trim_end, split_whitespace, trim_start_pair, lines, trim, Text,
  Unicode,
}
use numa.Set.{add}
use numa.Map.{is_some}
use numa.Domain.{find_in_set, normalize}

pub record BlocklistStore : Type 0 where
  pub domains : List Text
  pub allowlist : DomainList
  pub manual : DomainList
  pub enabled : Bool
  pub paused_until : Option ℕ
  pub list_sources : List Text
  pub last_refresh : Option ℕ

-- The texts that `reason` takes.
pub data Reason : Type 0 where
  exact_match_in_allowlist parent_domain_in_allowlist manually_blocked exact_match_in_blocklist
        parent_domain_in_blocklist not_in_blocklist blocking_is_disabled :
      Reason

pub record BlockCheckResult : Type 0 where
  pub blocked : Bool
  pub reason : Reason
  pub matched_rule : Option Text

abbrev pub blocked_by : Text → Reason → BlockCheckResult
blocked_by rule reason = record { blocked = true; reason = reason; matched_rule = some rule }

abbrev pub allowed_by : Text → Reason → BlockCheckResult
allowed_by rule reason = record { blocked = false; reason = reason; matched_rule = some rule }

abbrev pub not_blocked : BlockCheckResult
not_blocked = record { blocked = false; reason = not_in_blocklist; matched_rule = none }

abbrev pub disabled : BlockCheckResult
disabled = record { blocked = false; reason = blocking_is_disabled; matched_rule = none }

unfoldable pub new_store : DomainList → DomainList → BlocklistStore
new_store allowlist manual = record {
  domains = [];
  allowlist = allowlist;
  manual = manual;
  enabled = true;
  paused_until = none;
  list_sources = [];
  last_refresh = none;
}

unfoldable pub is_paused : ℕ → BlocklistStore → Bool
is_paused now s = elim s.paused_until [ none ↦ false | some until ↦ ltb now until ]

-- The branches of `check` after the two that disable it; the domain is normal.
unfoldable pub check_listed : Text → Option Text → BlockCheckResult
check_listed domain none = not_blocked
check_listed domain (some matched) =
    blocked_by matched
      (if matched =? domain then exact_match_in_blocklist else parent_domain_in_blocklist)

unfoldable pub check_manual : Text → Option Text → Option Text → BlockCheckResult
check_manual domain (some matched) listed = blocked_by matched manually_blocked
check_manual domain none listed = check_listed domain listed

unfoldable pub check_allowed : Text → Option Text → Option Text → Option Text → BlockCheckResult
check_allowed domain (some matched) manual listed =
    allowed_by matched
      (if matched =? domain then exact_match_in_allowlist else parent_domain_in_allowlist)
check_allowed domain none manual listed = check_manual domain manual listed

module _ ⦃unicode : Unicode⦄ where
  unfoldable pub is_blocked : ℕ → Text → BlocklistStore → Bool
  is_blocked now domain s =
      if not s.enabled
      then false
      else if is_paused now s
      then false
      else let d = normalize domain in
        if is_some (find_normalized d s.allowlist)
        then false
        else (is_some (find_normalized d s.manual) || is_some (find_in_set d s.domains))

  unfoldable pub check : ℕ → Text → BlocklistStore → BlockCheckResult
  check now domain s =
      if not s.enabled
      then disabled
      else if is_paused now s
      then disabled
      else let d = normalize domain in
        check_allowed d (find_normalized d s.allowlist) (find_normalized d s.manual)
          (find_in_set d s.domains)

  abbrev pub add_to_allowlist : Bool → Text → BlocklistStore → BlocklistStore
  add_to_allowlist written domain s = record s { allowlist = insert written domain s.allowlist }

  abbrev pub remove_from_allowlist : Bool → Text → BlocklistStore → Bool × BlocklistStore
  remove_from_allowlist written domain s =
      let (removed, l) = remove written domain s.allowlist in (removed, record s { allowlist = l })

  abbrev pub add_to_blocklist : Bool → Text → BlocklistStore → BlocklistStore
  add_to_blocklist written domain s = record s { manual = insert written domain s.manual }

  abbrev pub remove_from_blocklist : Bool → Text → BlocklistStore → Bool × BlocklistStore
  remove_from_blocklist written domain s =
      let (removed, l) = remove written domain s.manual in (removed, record s { manual = l })

abbrev pub swap_domains : ℕ → List Text → List Text → BlocklistStore → BlocklistStore
swap_domains now domains sources s = record s {
  domains = domains;
  list_sources = sources;
  last_refresh = some now;
}

abbrev pub set_enabled : Bool → BlocklistStore → BlocklistStore
set_enabled enabled s = record s { enabled = enabled }

-- The sum of an instant and a duration, which panics in Rust past what the clock can hold.
unfoldable pub pause : ℕ → ℕ → BlocklistStore → BlocklistStore
pause now seconds s = record s { paused_until = some (now + seconds * 1000000000) }

abbrev pub unpause : BlocklistStore → BlocklistStore
unpause s = record s { paused_until = none }

pub record BlocklistStats : Type 0 where
  pub enabled : Bool
  pub paused : Bool
  pub domains_loaded : ℕ
  pub allowlist_size : ℕ
  pub list_sources : List Text
  pub last_refresh_secs_ago : Option ℕ

unfoldable pub stats : ℕ → BlocklistStore → BlocklistStats
stats now s = record {
  enabled = s.enabled;
  paused = is_paused now s;
  domains_loaded = length s.domains;
  allowlist_size = list_length s.allowlist;
  list_sources = s.list_sources;
  last_refresh_secs_ago = elim s.last_refresh [
    | none ↦ none
    | some t ↦ some ((now - t) / 1000000000)
  ];
}

abbrev pub hosts_zero : Text
hosts_zero = b'0' ∷ b'.' ∷ b'0' ∷ b'.' ∷ b'0' ∷ b'.' ∷ b'0' ∷ []

abbrev pub hosts_loopback : Text
hosts_loopback = b'1' ∷ b'2' ∷ b'7' ∷ b'.' ∷ b'0' ∷ b'.' ∷ b'0' ∷ b'.' ∷ b'1' ∷ []

abbrev pub hosts_v6 : Text
hosts_v6 = b':' ∷ b':' ∷ []

abbrev pub localhost : Text
localhost = b'l' ∷ b'o' ∷ b'c' ∷ b'a' ∷ b'l' ∷ b'h' ∷ b'o' ∷ b's' ∷ b't' ∷ []

abbrev pub localdomain : Text
localdomain = b'l' ∷ b'o' ∷ b'c' ∷ b'a' ∷ b'l' ∷ b'd' ∷ b'o' ∷ b'm' ∷ b'a' ∷ b'i' ∷ b'n' ∷ []

-- The part before an adblock rule's options, without what marks it as a rule.
abbrev pub filter_domain : Text → Text
filter_domain line =
    let d = trim_start_pair b'|' b'|' (trim_start_pair b'*' b'.' line) in
    trim_end (λ c. c == b'^') (before b'$' d)

-- `skip(1)`
abbrev pub aliases : Text → List Text
aliases line = drop 1 (split_whitespace (before b'#' line))

unfoldable pub is_skipped : Text → Bool
is_skipped line = is_nil line || starts_with (b'#' ∷ []) line || starts_with (b'!' ∷ []) line

unfoldable pub is_hosts_line : Text → Bool
is_hosts_line line =
    starts_with hosts_zero line || starts_with hosts_loopback line || starts_with hosts_v6 line

module _ ⦃unicode : Unicode⦄ where
  unfoldable pub is_valid : Text → Bool
  is_valid d =
      not (is_nil d)
      && has_char b'.' d
      && not (d =? localhost)
      && not (d =? localhost ++ (b'.' ∷ localdomain))

  unfoldable pub insert_if_valid : Text → List Text → List Text
  insert_if_valid raw set = let d = normalize raw in if is_valid d then add d set else set

  unfoldable pub insert_aliases : List Text → List Text → List Text
  insert_aliases [] set = set
  insert_aliases (alias ∷ rest) set = insert_aliases rest (insert_if_valid alias set)

  -- One round of the loop, on the line as `lines` gives it.
  unfoldable pub parse_line : Text → List Text → List Text
  parse_line raw set =
      let line = trim raw in
      if is_skipped line
      then set
      else if is_hosts_line line
      then insert_aliases (aliases line) set
      else if has_char b' ' line || has_char 9 line
      then set
      else insert_if_valid (filter_domain line) set

  unfoldable pub parse_lines : List Text → List Text → List Text
  parse_lines [] set = set
  parse_lines (line ∷ rest) set = parse_lines rest (parse_line line set)

  unfoldable pub parse_blocklist : Text → List Text
  parse_blocklist text = parse_lines (lines text) []
