-- ===== src/Tests/Domains.antt =====
-- Domain lists and the blocklist on a few names.
use numa.Text.{
  trim, is_whitespace, starts_with, strip_return, ended_lines, split, before, trim_start_pair,
  trim_start, lines, trim_end, Text,
}
use numa.Blocklist.{
  exact_match_in_blocklist, exact_match_in_allowlist, is_hosts_line, is_skipped, blocked_by,
  is_valid, unpause, insert_if_valid, check_listed, check_manual, allowed_by, insert_aliases,
  parse_line, check_allowed, parse_lines, parse_blocklist, is_paused, BlocklistStore, check,
  is_blocked, pause,
}
use numa.Blocklist.Pause.{check-pause}
use numa.Blocklist.Parse.{parse_blocklist-IsRule}
use numa.Blocklist.Loads.{IsRule, Loads}
use mathlib.Core.List.{Memᴰ}
use numa.Blocklist.Check.{is_blocked-Lists, Lists}
use numa.Prelude.{
  ◌&&◌, not, ◌⊎◌, ◌≤◌, ◌*◌, ◌||◌, ◌=?◌, ◌+◌, ◌↔◌, ◌++◌, All, ◌≡◌, ◌<◌, refl, true, false, none,
  some, [], ◌∷◌, List, bytes_key,
}
use numa.Domain.Match.{Covers, IsClosest, find_in_set-IsClosest}
use numa.DomainList.{find_normalized, unpersisted, DomainList, new_list, insert, remove}
use numa.DomainList.Restart.{run, new_list-run, inserted, removed}
use numa.DomainList.Layers.{listed, changes-listed}
use numa.Domain.{find_parent, normalize, find_in_set}
use numa.Set.{has}
use numa.Tests.Ascii.{ascii, ab, x_ab, xab, x_ab_upper}

normal_form : normalize x_ab_upper ≡ x_ab
unfolding normalize trim_end
normal_form = refl

parent_found : find_in_set x_ab (ab ∷ []) ≡ some ab
unfolding find_in_set find_parent has
parent_found = refl

no_parent : find_in_set xab (ab ∷ []) ≡ none
unfolding find_in_set find_parent has
no_parent = refl

find_in_set-IsClosest_example :
    ((m : Text) → find_in_set x_ab (ab ∷ []) ≡ some m → IsClosest x_ab (ab ∷ []) m)
    × ((find_in_set x_ab (ab ∷ []) ≡ none)
        ↔ ((e : Text) → has e (ab ∷ []) ≡ true → ¬ Covers e x_ab))
find_in_set-IsClosest_example = find_in_set-IsClosest x_ab (ab ∷ [])

abbrev one_seed : DomainList
one_seed = record { config = ab ∷ []; user = xab ∷ []; file = some (xab ∷ []) }

changes-listed_example :
    ((listed x_ab (insert true x_ab_upper one_seed)
        ≡ (normalize x_ab_upper =? x_ab) || listed x_ab one_seed)
      × ((insert true x_ab_upper one_seed).config ≡ ab ∷ []))
    × ((listed x_ab (remove true x_ab_upper one_seed).1
          ≡ has x_ab (ab ∷ []) || (not (normalize x_ab_upper =? x_ab) && has x_ab (xab ∷ [])))
        × ((remove true x_ab_upper one_seed).0 ≡ has (normalize x_ab_upper) (xab ∷ []))
        × ((remove true x_ab_upper one_seed).1.config ≡ ab ∷ []))
changes-listed_example = changes-listed true x_ab_upper x_ab one_seed

new_list-run_example :
    (left : List Text) × ((run
        (inserted x_ab_upper ∷ removed xab ∷ [])
        (new_list (xab ∷ []) (ab ∷ []))).file
      ≡ some left)
    × ((q : Text)
        → find_normalized q (new_list left (ab ∷ []))
          ≡ find_normalized q
              (run (inserted x_ab_upper ∷ removed xab ∷ []) (new_list (xab ∷ []) (ab ∷ []))))
new_list-run_example = new_list-run (xab ∷ []) (ab ∷ []) (inserted x_ab_upper ∷ removed xab ∷ [])

-- Blocks everything under "a.b" but "x.a.b".
abbrev pub block_ab : BlocklistStore
block_ab = record {
  domains = ab ∷ [];
  allowlist = record { config = x_ab ∷ []; user = []; file = none };
  manual = unpersisted;
  enabled = true;
  paused_until = none;
  list_sources = [];
  last_refresh = some 0;
}

exact_block : check 5 ab block_ab ≡ blocked_by ab exact_match_in_blocklist
unfolding check is_paused normalize trim_end find_normalized find_in_set find_parent has
    check_allowed check_manual check_listed
exact_block = refl

allowed_child : check 5 x_ab_upper block_ab ≡ allowed_by x_ab exact_match_in_allowlist
unfolding check is_paused normalize trim_end find_normalized find_in_set find_parent has
    check_allowed
allowed_child = refl

is_blocked-Lists_example : (is_blocked 5 ab block_ab ≡ true) ↔ (
    (true ≡ true)
    × (is_paused 5 block_ab ≡ false)
    × (¬ ((e : Text) × Lists (block_ab.allowlist) (normalize ab) e))
    × (((e : Text) × Lists unpersisted (normalize ab) e)
        ⊎ ((e : Text) × (has e (ab ∷ []) ≡ true) × Covers e (normalize ab))))
is_blocked-Lists_example = is_blocked-Lists 5 ab block_ab

check-pause_example :
    (70 < 5 + 60 * 1000000000 → (check 70 ab (pause 5 60 block_ab)).blocked ≡ false)
    × (5 + 60 * 1000000000 ≤ 70
        → check 70 ab (pause 5 60 block_ab) ≡ check 70 ab (unpause block_ab))
check-pause_example = check-pause 5 60 70 ab block_ab

-- "0.0.0.0 X.A.B. # a", "||a.b^$c" and "!a.b" on lines.
abbrev list_text : Text
list_text =
    b'0'
    ∷ b'.'
    ∷ b'0'
    ∷ b'.'
    ∷ b'0'
    ∷ b'.'
    ∷ b'0'
    ∷ b' '
    ∷ (x_ab_upper
        ++ (b' '
            ∷ b'#'
            ∷ b' '
            ∷ b'a'
            ∷ 13
            ∷ 10
            ∷ b'|'
            ∷ b'|'
            ∷ (ab ++ (b'^' ∷ b'$' ∷ b'c' ∷ 10 ∷ b'!' ∷ ab))))

parsed_list : parse_blocklist list_text ≡ ab ∷ x_ab ∷ []
unfolding parse_blocklist parse_lines parse_line insert_aliases insert_if_valid is_valid normalize
    trim_end trim_start trim_start_pair before split ended_lines strip_return starts_with
    is_whitespace is_skipped is_hosts_line has
parsed_list = refl

parse_blocklist-IsRule_example :
    All IsRule (parse_blocklist list_text)
    × ((d : Text)
        → (has d (parse_blocklist list_text) ≡ true)
          ↔ (IsRule d × ((line : Text) × Memᴰ line (lines list_text) × Loads (trim line) d)))
parse_blocklist-IsRule_example = parse_blocklist-IsRule list_text
