-- ===== src/Service/Route.antt =====
-- The route that answers a request.
use numa.Prelude.{
  sym, Bool-cases, subst, ◌⊎◌, ltb, arith, retain, if◌then◌else◌, ℕ, ◌≤◌, ◌≡◌, All, List, length,
  Option, refl, none, some, inl, inr, [], ◌∷◌,
}
use numa.Service.{
  rewritten, route_matches, longer, RouteEntry, resolve_route, ServiceEntry, longest_route,
}
use numa.Buffer.{Bytes}
use mathlib.Core.List.{Memᴰ}

abbrev pub IsNoLonger : RouteEntry → RouteEntry → Type 0
IsNoLonger r q = length q.path ≤ length r.path

-- A route of the list with the longest path.
abbrev pub LongestOf : RouteEntry → List RouteEntry → Type 0
LongestOf r rs = Memᴰ r rs × All (IsNoLonger r) rs

All-IsNoLonger :
    (r m : RouteEntry) (rs : List RouteEntry)
    → length m.path ≤ length r.path
    → All (IsNoLonger m) rs
    → All (IsNoLonger r) rs
All-IsNoLonger r m [] fits h = tt
All-IsNoLonger r m (q ∷ rs) fits h = (omega (arith, h.0, fits), All-IsNoLonger r m rs fits h.1)

longer_part :
    (r : RouteEntry) (rs : List RouteEntry) (m : RouteEntry)
    → LongestOf m rs
    → LongestOf (if ltb (length m.path) (length r.path) then r else m) (r ∷ rs)
longer_part r rs m h = elim (Bool-cases (ltb (length m.path) (length r.path))) [
  | inl below ↦
      let fits : length m.path ≤ length r.path = ground (arith, below) in
      subst (λ t. LongestOf (if t then r else m) (r ∷ rs)) (sym below)
        (Memᴰ.head refl, (omega arith, All-IsNoLonger r m rs fits h.1))
  | inr above ↦
      subst (λ t. LongestOf (if t then r else m) (r ∷ rs)) (sym above)
        (Memᴰ.tail h.0, (ground (arith, above), h.1))
]

-- Either there is no route, or the one found is a longest.
unfoldable Found : Option RouteEntry → List RouteEntry → Type 0
Found none rs = rs ≡ []
Found (some r) rs = LongestOf r rs

longer-Found :
    (r : RouteEntry) (rs : List RouteEntry) (o : Option RouteEntry)
    → Found o rs
    → LongestOf (longer r o) (r ∷ rs)
unfolding Found
longer-Found r rs none h = (Memᴰ.head refl, (omega arith, subst (All (IsNoLonger r)) (sym h) tt))
longer-Found r rs (some m) h = longer_part r rs m h

longest_route-Found : (rs : List RouteEntry) → Found (longest_route rs) rs
unfolding longest_route Found
longest_route-Found [] = refl
longest_route-Found (r ∷ rs) = longer-Found r rs (longest_route rs) (longest_route-Found rs)

-- What a request gets: the service's own port and the path as it is where no route matches, and otherwise
-- the port and the rewriting of a matching route.
abbrev pub Routed : ServiceEntry → Bytes → ℕ × Bytes → Type 0
Routed e request_path answer =
    ((retain (route_matches request_path) e.routes ≡ []) × (answer ≡ (e.target_port, request_path)))
    ⊎ ((r : RouteEntry) × LongestOf r (retain (route_matches request_path) e.routes)
        × (answer ≡ (r.port, rewritten request_path r)))

Found-Routed :
    (e : ServiceEntry) (request_path : Bytes) (o : Option RouteEntry)
    → Found o (retain (route_matches request_path) e.routes)
    → Routed e request_path (elim o as (λ x. ℕ × Bytes) [
      | none ↦ (e.target_port, request_path)
      | some route ↦ (route.port, rewritten request_path route)
    ])
unfolding Found
Found-Routed e request_path none h = inl (h, refl)
Found-Routed e request_path (some r) h = inr (r, h, refl)

-- A request gets the service's own port and its path as it is where no route matches it, and otherwise the
-- port of a matching route with the longest path among those that match, with the path as that route
-- rewrites it.
pub resolve_route-Routed :
    (e : ServiceEntry) (request_path : Bytes) → Routed e request_path (resolve_route e request_path)
unfolding resolve_route
resolve_route-Routed e request_path =
    Found-Routed e request_path (longest_route (retain (route_matches request_path) e.routes))
      (longest_route-Found (retain (route_matches request_path) e.routes))
