-- ===== src/Service.antt =====
-- src/service_store.rs: the services that the proxy names, and their routes. A path is its bytes.
pub mod Route
use numa.Prelude.{
  get_elem?, ◌&&◌, ◌||◌, length, is_nil, map, bytes_key, drop, ltb, ◌=?◌, ◌++◌, ◌==◌, ℕ, Bool, not,
  if◌then◌else◌, retain, Option, List, refl, zero, suc, true, false, none, some, inl, inr, [], ◌∷◌,
}
use numa.Text.{trim_start, starts_with, Text, Unicode}
use numa.Buffer.{Bytes}
use numa.Map.{Map, get, insert, remove, contains_key}
use numa.Set.{has, add}

pub record RouteEntry : Type 0 where
  pub path : Bytes
  pub port : ℕ
  pub strip : Bool

pub record ServiceEntry : Type 0 where
  pub name : Text
  pub target_port : ℕ
  pub target_host : Option Text
  pub routes : List RouteEntry

-- `text.ends_with('/')`
unfoldable pub ends_in_slash : Bytes → Bool
ends_in_slash [] = false
ends_in_slash (c ∷ []) = c == b'/'
ends_in_slash (c ∷ d ∷ text) = ends_in_slash (d ∷ text)

abbrev pub is_slash : Option ℕ → Bool
is_slash none = false
is_slash (some c) = c == b'/'

unfoldable pub route_matches : Bytes → RouteEntry → Bool
route_matches request_path r =
    (request_path =? r.path)
    || (starts_with r.path request_path
        && (ends_in_slash r.path || is_slash (get_elem? request_path (length r.path))))

-- Of two routes, the one with the longer path, and of two as long the later.
abbrev pub longer : RouteEntry → Option RouteEntry → RouteEntry
longer r none = r
longer r (some m) = if ltb (length m.path) (length r.path) then r else m

-- `max_by_key` of the length of the path, which returns the last of several.
unfoldable pub longest_route : List RouteEntry → Option RouteEntry
longest_route [] = none
longest_route (r ∷ rs) = some (longer r (longest_route rs))

abbrev pub stripped_path : Bytes → Bytes
stripped_path stripped =
    if is_nil stripped || not (starts_with (b'/' ∷ []) stripped)
    then b'/' ∷ trim_start (λ c. c == b'/') stripped
    else stripped

abbrev pub rewritten : Bytes → RouteEntry → Bytes
rewritten request_path r =
    if r.strip then stripped_path (drop (length r.path) request_path) else request_path

unfoldable pub resolve_route : ServiceEntry → Bytes → ℕ × Bytes
resolve_route e request_path = elim (longest_route (retain (route_matches request_path) e.routes)) [
  | none ↦ (e.target_port, request_path)
  | some route ↦ (route.port, rewritten request_path route)
]

-- `saved` is the user's services as last written to the file.
pub record ServiceStore : Type 0 where
  pub entries : Map Text ServiceEntry
  pub config_services : List Text
  pub saved : List ServiceEntry

abbrev pub new_services : List ServiceEntry → ServiceStore
new_services saved = record { entries = []; config_services = []; saved = saved }

unfoldable pub save_services : ServiceStore → ServiceStore
save_services s = record s {
  saved = retain (λ e. not (has e.name s.config_services)) (map (λ e. e.1) s.entries);
}

abbrev pub other_path : Bytes → RouteEntry → Bool
other_path path r = not (r.path =? path)

abbrev pub is_config_service : Text → ServiceStore → Bool
is_config_service name s = has name s.config_services

module _ (unicode : Unicode) where
  abbrev pub named : Text → ℕ → Option Text → List RouteEntry → ServiceEntry
  named key target_port target_host routes = record {
    name = key;
    target_port = target_port;
    target_host = target_host;
    routes = routes;
  }

  unfoldable pub insert_config_service :
      Text → ℕ → Option Text → List RouteEntry → ServiceStore → ServiceStore
  insert_config_service name target_port target_host routes s =
      let key = unicode.to_lowercase name in
      record s {
        config_services = add key s.config_services;
        entries = insert key (named key target_port target_host routes) s.entries;
      }

  unfoldable pub insert_service : Text → ℕ → Option Text → ServiceStore → ServiceStore
  insert_service name target_port target_host s =
      let key = unicode.to_lowercase name in
      save_services
        (record s { entries = insert key (named key target_port target_host []) s.entries })

  unfoldable pub add_route : Text → Bytes → ℕ → Bool → ServiceStore → Bool × ServiceStore
  add_route service path port strip s =
      let key = unicode.to_lowercase service in
      elim (get key s.entries) [
        | none ↦ (false, s)
        | some e ↦
            let route : RouteEntry = record { path = path; port = port; strip = strip } in
            let routes = retain (other_path path) e.routes ++ (route ∷ []) in
            (
              true,
              save_services
                  (record s { entries = insert key (record e { routes = routes }) s.entries }),
            )
      ]

  unfoldable pub remove_route : Text → Bytes → ServiceStore → Bool × ServiceStore
  remove_route service path s =
      let key = unicode.to_lowercase service in
      elim (get key s.entries) [
        | none ↦ (false, s)
        | some e ↦
            let routes = retain (other_path path) e.routes in
            let without = record s {
              entries = insert key (record e { routes = routes }) s.entries;
            } in
            if ltb (length routes) (length e.routes)
            then (true, save_services without)
            else (false, without)
      ]

  unfoldable pub lookup_service : Text → ServiceStore → Option ServiceEntry
  lookup_service name s = get (unicode.to_lowercase name) s.entries

  unfoldable pub remove_service : Text → ServiceStore → Bool × ServiceStore
  remove_service name s =
      let key = unicode.to_lowercase name in
      if contains_key key s.entries
      then (true, save_services (record s { entries = remove key s.entries }))
      else (false, s)

  abbrev pub has_name : Text → ServiceStore → Bool
  has_name name s = contains_key (unicode.to_lowercase name) s.entries

  unfoldable pub load_service : ServiceEntry → ServiceStore → ServiceStore
  load_service e s =
      let key = unicode.to_lowercase e.name in
      if has key s.config_services then s else record s { entries = insert key e s.entries }

  unfoldable pub load_services : List ServiceEntry → ServiceStore → ServiceStore
  load_services [] s = s
  load_services (e ∷ es) s = load_services es (load_service e s)
