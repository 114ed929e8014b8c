-- ===== src/QueryLog/Order.antt =====
-- The log's numbering, its size and its order.
use numa.Prelude.{
  length-take, take, length-append, if◌then◌else◌, Bool, ◌+◌, arith, ap, ◌-◌, ◌∙◌, leb, max, ◌≡◌,
  ◌++◌, ◌≤◌, length, List, ℕ, refl, suc, true, false, [], ◌∷◌,
}
use numa.QueryLog.{
  limit_of, selects, QueryLogFilter, pop_front, select, QueryLogEntry, newest_first, QueryLog,
  query_log, push,
}

module _ {Addr : Type 0} where
  -- Entries numbered one after another, from after `lo` up to `hi`.
  abbrev pub Numbered : ℕ → List (QueryLogEntry Addr) → ℕ → Type 0
  Numbered lo [] hi = lo ≡ hi
  Numbered lo (e ∷ es) hi = (e.seq ≡ suc lo) × Numbered (suc lo) es hi

  -- The entries are the latest, without a gap, and no more than the capacity, or one.
  pub record IsLog (l : QueryLog Addr) : Type 0 where
    pub oldest : ℕ
    pub numbered : Numbered oldest l.entries l.next_seq
    pub size : length l.entries ≤ max l.capacity 1

  Numbered-append :
      (lo : ℕ) (es : List (QueryLogEntry Addr)) (hi : ℕ) (e : QueryLogEntry Addr)
      → Numbered lo es hi
      → e.seq ≡ hi + 1
      → Numbered lo (es ++ (e ∷ [])) (hi + 1)
  Numbered-append lo [] hi e h next = (omega (arith, h, next), omega (arith, h))
  Numbered-append lo (f ∷ es) hi e h next = (h.0, Numbered-append (suc lo) es hi e h.1 next)

  Numbered-pop_front :
      (lo : ℕ) (es : List (QueryLogEntry Addr)) (hi : ℕ)
      → Numbered lo es hi
      → (lo' : ℕ) × Numbered lo' (pop_front es) hi
  Numbered-pop_front lo [] hi h = (lo, h)
  Numbered-pop_front lo (e ∷ es) hi h = (suc lo, h.1)

  length-pop_front : (es : List (QueryLogEntry Addr)) → length (pop_front es) ≡ length es - 1
  length-pop_front [] = refl
  length-pop_front (e ∷ es) = omega arith

  kept-Numbered :
      (full : Bool) (lo : ℕ) (es : List (QueryLogEntry Addr)) (hi : ℕ)
      → Numbered lo es hi
      → (first : ℕ) × Numbered first (if full then pop_front es else es) hi
  kept-Numbered true lo es hi h = Numbered-pop_front lo es hi h
  kept-Numbered false lo es hi h = (lo, h)

  -- A push keeps the numbers consecutive up to the newest and the log within its capacity, or at one
  -- entry where the capacity is zero.
  pub push-IsLog : (entry : QueryLogEntry Addr) (l : QueryLog Addr) → IsLog l → IsLog (push entry l)
  unfolding push
  push-IsLog entry l h =
      let full : Bool = leb l.capacity (length l.entries) in
      let kept : List (QueryLogEntry Addr) = if full then pop_front l.entries else l.entries in
      let (first, numbered) = kept-Numbered full h.oldest l.entries l.next_seq h.numbered in
      record {
        oldest = first;
        numbered =
            Numbered-append first kept l.next_seq (record entry { seq = l.next_seq + 1 }) numbered
              refl;
        size = ground (
          arith,
          h.size,
          length-pop_front l.entries,
          length-append kept (record entry { seq = l.next_seq + 1 } ∷ []),
        );
      }

  newest_first-append :
      (es : List (QueryLogEntry Addr)) (e : QueryLogEntry Addr)
      → newest_first (es ++ (e ∷ [])) ≡ e ∷ newest_first es
  unfolding newest_first
  newest_first-append [] e = refl
  newest_first-append (f ∷ es) e = rw (newest_first-append es e) refl

  select_first :
      (f : QueryLogFilter) (e : QueryLogEntry Addr) (es : List (QueryLogEntry Addr)) (rest : ℕ)
      → selects f e ≡ true
      → limit_of f ≡ suc rest
      → take (limit_of f) (select f (e ∷ es)) ≡ e ∷ take rest (select f es)
  unfolding select
  select_first f e es rest passes_filter limited = rw (limited, passes_filter, select) refl

  -- Right after a push, a query that the entry passes, with a limit of at least one, lists that entry
  -- first, with the next number, and no more than the limit.
  pub query_log-push :
      (f : QueryLogFilter) (entry : QueryLogEntry Addr) (l : QueryLog Addr) (rest : ℕ)
      → selects f entry ≡ true
      → limit_of f ≡ suc rest
      → (older : List (QueryLogEntry Addr)) × (query_log f (push entry l)
          ≡ record entry { seq = l.next_seq + 1 } ∷ older)
        × (length older ≤ rest)
  unfolding query_log push select
  query_log-push f entry l rest passes_filter limited =
      let full : Bool = leb l.capacity (length l.entries) in
      let kept : List (QueryLogEntry Addr) = if full then pop_front l.entries else l.entries in
      let newest : QueryLogEntry Addr = record entry { seq = l.next_seq + 1 } in
      let older : List (QueryLogEntry Addr) = take rest (select f (newest_first kept)) in
      (
        older,
        ap (λ (es : List (QueryLogEntry Addr)). take (limit_of f) (select f es))
              (newest_first-append kept newest)
            ∙ select_first f newest (newest_first kept) rest (unfold selects in passes_filter)
                limited,
        omega (arith, length-take rest (select f (newest_first kept))),
      )
