-- ===== src/DomainList.antt =====
-- src/domain_list.rs: `PersistedDomainList`. The JSON file behind a list is its array of strings; every
-- operation that saves takes as `written` whether the write succeeds, since a failure is only logged.
pub mod Sorted
pub mod Layers
pub mod Restart
use numa.Prelude.{
  refl, zero, suc, inl, inr, is_nil, ◌==◌, not, ◌&&◌, ◌+◌, ◌||◌, if◌then◌else◌, ltb, Option, length,
  ◌++◌, true, false, none, some, [], ◌∷◌, List, ℕ, Bool, bytes_key,
}
use numa.Map.{is_some}
use numa.Text.{Text, Unicode}
use numa.Set.{has, add, delete}
use numa.Domain.{find_in_set, normalize}

pub record DomainList : Type 0 where
  pub config : List Text
  pub user : List Text
  -- The contents of the file at `persist_path`, where there is a path.
  pub file : Option (List Text)

abbrev pub unpersisted : DomainList
unpersisted = record { config = []; user = []; file = none }

-- `Ord` of strings.
unfoldable pub text_le : Text → Text → Bool
text_le [] ys = true
text_le (x ∷ xs) [] = false
text_le (x ∷ xs) (y ∷ ys) = ltb x y || ((x == y) && text_le xs ys)

unfoldable pub insert_text : Text → List Text → List Text
insert_text d [] = d ∷ []
insert_text d (e ∷ es) = let rest = insert_text d es in if text_le d e then d ∷ e ∷ es else e ∷ rest

unfoldable pub sort : List Text → List Text
sort [] = []
sort (d ∷ ds) = insert_text d (sort ds)

abbrev pub saved_file : Bool → List Text → Option (List Text) → Option (List Text)
saved_file written user none = none
saved_file written user (some old) = if written then some (sort user) else some old

unfoldable pub save : Bool → DomainList → DomainList
save written l = record l { file = saved_file written l.user l.file }

-- What `second` has besides `first`, as `union` iterates.
unfoldable pub difference : List Text → List Text → List Text
difference [] first = []
difference (d ∷ second) first =
    let rest = difference second first in if has d first then rest else d ∷ rest

unfoldable pub entries : DomainList → List Text
entries l = sort (l.config ++ difference l.user l.config)

abbrev pub list_length : DomainList → ℕ
list_length l = length l.config + length l.user

abbrev pub is_empty : DomainList → Bool
is_empty l = is_nil l.config && is_nil l.user

abbrev pub or_else : Option Text → Option Text → Option Text
or_else none other = other
or_else (some d) other = some d

-- The domain is normal already.
unfoldable pub find_normalized : Text → DomainList → Option Text
find_normalized domain l = or_else (find_in_set domain l.config) (find_in_set domain l.user)

module _ ⦃unicode : Unicode⦄ where
  unfoldable pub insert_from_config : Text → DomainList → DomainList
  insert_from_config domain l = record l { config = add (normalize domain) l.config }

  unfoldable pub insert : Bool → Text → DomainList → DomainList
  insert written domain l =
      let d = normalize domain in
      if not (has d l.config) && not (has d l.user)
      then save written (record l { user = add d l.user })
      else l

  unfoldable pub remove : Bool → Text → DomainList → Bool × DomainList
  remove written domain l =
      let d = normalize domain in
      if has d l.user
      then (true, save written (record l { user = delete d l.user }))
      else (false, l)

  abbrev pub matches : Text → DomainList → Bool
  matches qname l = is_some (find_normalized (normalize qname) l)

  abbrev pub is_config : Text → DomainList → Bool
  is_config domain l = has (normalize domain) l.config

  -- One round of the loop of `load_persisted`.
  unfoldable pub load_entry : Text → DomainList → DomainList
  load_entry domain l =
      let d = normalize domain in
      if not (has d l.config) then record l { user = add d l.user } else l

  unfoldable pub load_entries : List Text → DomainList → DomainList
  load_entries [] l = l
  load_entries (domain ∷ domains) l = load_entries domains (load_entry domain l)

  abbrev pub load_from : Option (List Text) → DomainList → DomainList
  load_from none l = l
  load_from (some domains) l = load_entries domains l

  unfoldable pub load_persisted : DomainList → DomainList
  load_persisted l = load_from l.file l

  unfoldable pub seed : List Text → DomainList → DomainList
  seed [] l = l
  seed (domain ∷ domains) l = seed domains (insert_from_config domain l)

  -- `file` is what the file holds: nothing where it is absent or cannot be read.
  unfoldable pub new_list : List Text → List Text → DomainList
  new_list file config_seeds =
      load_persisted (seed config_seeds (record { config = []; user = []; file = some file }))
