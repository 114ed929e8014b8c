-- ===== src/Tests/Stores.antt =====
-- Round-trip times and the query log at small stores.
use numa.Text.{starts_with}
use numa.QueryLog.Order.{query_log-push, push-IsLog, IsLog}
use numa.Prelude.{length, List, ◌≡◌, ◌≤◌, arith, ℕ, refl, true, false, some, [], ◌∷◌, nat_key}
use numa.QueryLog.{
  query_log, path_tag, udp, contains, cached, push, QueryLogFilter, selects, QueryLog,
  QueryLogEntry,
}
use numa.Question.Types.{same_type}
use numa.Srtt.Bounds.{decay_for_age-IsBetween, record-IsSrtt, IsBetween, IsSrtt}
use numa.Header.{noerror}
use numa.Srtt.{
  decay_after_secs, failure_penalty_ms, record_failure, record_rtt, decay_periods, decay_for_age,
  SrttCache,
}
use numa.Cache.{insecure}
use numa.Question.{QueryType}

abbrev srtt_cache : SrttCache ℕ
srtt_cache = record {
  entries = (1, record { srtt_ms = 5000; updated_at = 0 }) ∷ [];
  enabled = true;
}

srtt_cache-IsSrtt : IsSrtt 6000 srtt_cache
srtt_cache-IsSrtt = record { scores = (omega arith, tt); size = omega arith }

-- One decay period after a failure the server is probed again.
decayed_penalty : decay_for_age failure_penalty_ms 301 ≡ 2600
unfolding decay_for_age decay_periods
decayed_penalty = refl

decay_for_age-IsBetween_example :
    IsBetween 5000 (decay_for_age 5000 900)
    × (900 ≤ decay_after_secs → decay_for_age 5000 900 ≡ 5000)
decay_for_age-IsBetween_example = decay_for_age-IsBetween 5000 900

record-IsSrtt_example :
    IsSrtt 6000 (record_rtt 1000 1 80 srtt_cache) × IsSrtt 6000 (record_failure 1000 1 srtt_cache)
record-IsSrtt_example =
    record-IsSrtt 6000 1000 80 1 srtt_cache (omega arith) (omega arith) srtt_cache-IsSrtt

abbrev first_query : QueryLogEntry ℕ
first_query = record {
  seq = 1;
  timestamp = 10;
  src_addr = 0;
  domain = b'a' ∷ b'.' ∷ b'b' ∷ [];
  query_type = QueryType.a;
  path = cached;
  transport = udp;
  rescode = noerror;
  latency_us = 40;
  dnssec = insecure;
  rebind_stripped = false;
}

-- A log of one entry that is full.
abbrev log : QueryLog ℕ
log = record { entries = first_query ∷ []; capacity = 1; next_seq = 1 }

log-IsLog : IsLog log
log-IsLog = record { oldest = 0; numbered = (refl, refl); size = omega arith }

push-IsLog_example : IsLog (push first_query log)
push-IsLog_example = push-IsLog first_query log log-IsLog

abbrev by_domain : QueryLogFilter
by_domain = record {
  domain = some (b'b' ∷ []);
  query_type = some QueryType.a;
  path = some cached;
  limit = some 5;
}

query_log-push_example :
    (older : List (QueryLogEntry ℕ)) × (query_log by_domain (push first_query log)
      ≡ record first_query { seq = 2 } ∷ older)
    × (length older ≤ 4)
unfolding selects contains starts_with path_tag same_type
query_log-push_example = query_log-push by_domain first_query log 4 refl refl
