-- ===== src/Acl.antt =====
-- src/acl.rs: `CidrMatcher` and `AllowFromAcl`. A network is what the crate `ipnet` makes of its text;
-- the parsers of networks and addresses and the test of membership are parameters.
pub mod Mapped
use numa.Prelude.{
  ◌%◌, ◌/◌, any, ◌&&◌, is_nil, ◌==◌, ◌||◌, if◌then◌else◌, Option, not, ◌⊎◌, refl, zero, suc, true,
  false, none, some, inl, inr, [], ◌∷◌, List, ℕ, Bool, bytes_key,
}
use numa.Record.{Ipv6Addr, Ipv4Addr}
use numa.Text.{Text}

pub data IpAddr : Type 0 where
  v4 : Ipv4Addr → IpAddr
  v6 : Ipv6Addr → IpAddr

-- `IpAddr::to_canonical`: the address that an IPv4-mapped one stands for.
abbrev pub is_mapped : Ipv6Addr → Bool
is_mapped a =
    (a.s0 == 0) && (a.s1 == 0) && (a.s2 == 0) && (a.s3 == 0) && (a.s4 == 0) && (a.s5 == 0xffff)

unfoldable pub to_canonical : IpAddr → IpAddr
to_canonical (v4 a) = v4 a
to_canonical (v6 a) =
    if is_mapped a
    then v4 (record { o0 = a.s6 / 256; o1 = a.s6 % 256; o2 = a.s7 / 256; o3 = a.s7 % 256 })
    else v6 a

-- `IpAddr::is_loopback`
unfoldable pub is_loopback : IpAddr → Bool
is_loopback (v4 a) = a.o0 == 127
is_loopback (v6 a) =
    (a.s0 == 0)
    && (a.s1 == 0)
    && (a.s2 == 0)
    && (a.s3 == 0)
    && (a.s4 == 0)
    && (a.s5 == 0)
    && (a.s6 == 0)
    && (a.s7 == 1)

-- `IpNet` of the crate `ipnet`, and the parsers of text.
pub record Networks : Type 1 where
  pub IpNet : Type 0
  pub parse_net : Text → Option IpNet
  pub parse_addr : Text → Option IpAddr
  pub from_addr : IpAddr → IpNet
  pub contains : IpNet → IpAddr → Bool

-- Where in the configuration a list of networks stands.
pub data Context : Type 0 where
  allow_from rebind_private_ranges : Context
  client_policy : ℕ → Context
  exclude_of : Context → Context

pub data ConfigError : Type 0 where
  invalid_cidr_or_ip : Context → Text → ConfigError
  no_from : Context → ConfigError
  no_valid_domain : Context → ConfigError

abbrev pub Parsed {ℓ} : Type ℓ → Type ℓ
Parsed A = ConfigError ⊎ A

-- The operator `?` on a result.
abbrev pub parsed_then {ℓ} : {A B : Type ℓ} → Parsed A → (A → Parsed B) → Parsed B
parsed_then (inl e) f = inl e
parsed_then (inr a) f = f a

module _ ⦃networks : Networks⦄ where
  abbrev pub parse_entry : Context → Text → Parsed networks.IpNet
  parse_entry context entry = elim (networks.parse_net entry) [
    | some net ↦ inr net
    | none ↦ elim (networks.parse_addr entry) [
      | some addr ↦ inr (networks.from_addr addr)
      | none ↦ inl (invalid_cidr_or_ip context entry)
    ]
  ]

  unfoldable pub parse_cidr_list : List Text → Context → Parsed (List networks.IpNet)
  parse_cidr_list [] context = inr []
  parse_cidr_list (entry ∷ entries) context =
      parsed_then (parse_entry context entry)
        (λ net. parsed_then (parse_cidr_list entries context) (λ nets. inr (net ∷ nets)))

  pub record CidrMatcher : Type 0 where
    pub include : List networks.IpNet
    pub exclude : List networks.IpNet

  unfoldable pub from_entries : List Text → List Text → Context → Parsed CidrMatcher
  from_entries include exclude context = parsed_then (parse_cidr_list include context) (λ inside.
      parsed_then (parse_cidr_list exclude (exclude_of context))
        (λ outside. inr (record { include = inside; exclude = outside })))

  unfoldable pub matches : IpAddr → CidrMatcher → Bool
  matches ip m =
      let ip' = to_canonical ip in
      if any (λ n. networks.contains n ip') m.exclude
      then false
      else any (λ n. networks.contains n ip') m.include

  unfoldable pub allows : IpAddr → CidrMatcher → Bool
  allows peer m =
      let peer' = to_canonical peer in
      if is_nil m.include || is_loopback peer' then true else matches peer' m

  abbrev pub admits : IpAddr → Bool → CidrMatcher → Bool
  admits peer local_command m = local_command || allows peer m

  abbrev pub is_enabled : CidrMatcher → Bool
  is_enabled m = not (is_nil m.include)
