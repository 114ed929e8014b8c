-- ===== src/Tests/Proxy.antt =====
-- A service with two routes, one below the other.
use numa.Text.{trim_start, starts_with}
use numa.Prelude.{◌≡◌, ◌++◌, refl, true, false, none, [], ◌∷◌}
use numa.Service.{ends_in_slash, route_matches, longest_route, ServiceEntry, resolve_route}
use numa.Service.Route.{resolve_route-Routed, Routed}
use numa.Buffer.{Bytes}

abbrev upper_path : Bytes
upper_path = b'/' ∷ b'a' ∷ []

abbrev lower_path : Bytes
lower_path = b'/' ∷ b'a' ∷ b'/' ∷ b'b' ∷ []

abbrev service : ServiceEntry
service = record {
  name = b's' ∷ [];
  target_port = 80;
  target_host = none;
  routes =
      record { path = lower_path; port = 82; strip = true }
      ∷ record { path = upper_path; port = 81; strip = false }
      ∷ [];
}

abbrev request : Bytes
request = lower_path ++ (b'/' ∷ b'c' ∷ [])

below_both : resolve_route service request ≡ (82, b'/' ∷ b'c' ∷ [])
unfolding resolve_route longest_route route_matches ends_in_slash starts_with
below_both = refl

-- The path of a route must end where a segment does.
beside_both : resolve_route service (b'/' ∷ b'a' ∷ b'b' ∷ []) ≡ (80, b'/' ∷ b'a' ∷ b'b' ∷ [])
unfolding resolve_route longest_route route_matches ends_in_slash starts_with
beside_both = refl

whole_path : resolve_route service lower_path ≡ (82, b'/' ∷ [])
unfolding resolve_route longest_route route_matches ends_in_slash starts_with trim_start
whole_path = refl

resolve_route-Routed_example : Routed service request (resolve_route service request)
resolve_route-Routed_example = resolve_route-Routed service request
