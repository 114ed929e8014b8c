-- ===== src/ClientPolicy.antt =====
-- src/client_policy.rs: rules that block or allow domains for some clients, each a `BlocklistStore` under
-- a `CidrMatcher`.
pub mod Decides
pub mod Built
use numa.Prelude.{
  ◌&&◌, is_nil, Option, not, if◌then◌else◌, ◌++◌, refl, zero, suc, true, false, none, some, inl,
  inr, [], ◌∷◌, List, ℕ, Bool, bytes_key,
}
use numa.Map.{is_some}
use numa.Acl.{
  is_loopback, IpAddr, to_canonical, matches, CidrMatcher, Networks, Parsed, parsed_then, no_from,
  no_valid_domain, client_policy, from_entries,
}
use numa.Text.{Text, Unicode}
use numa.DomainList.{unpersisted, seed}
use numa.Blocklist.{BlocklistStore, check, parse_blocklist, new_store, swap_domains}

pub record ClientPolicyConfig : Type 0 where
  pub from : List Text
  pub exclude : List Text
  pub block : List Text
  pub allow : List Text
  pub filter_aaaa : Option Bool

pub data Decision : Type 0 where
  block allow passthrough : Decision

-- `join("\n")`
unfoldable pub join_lines : List Text → Text
join_lines [] = []
join_lines (line ∷ []) = line
join_lines (line ∷ next ∷ rest) = line ++ (0x0a ∷ join_lines (next ∷ rest))

module _ ⦃unicode : Unicode⦄ ⦃networks : Networks⦄ where
  pub record ClientPolicy : Type 0 where
    pub nets : CidrMatcher
    pub store : BlocklistStore
    pub filter_aaaa : Option Bool

  -- What one round of the loop pushes; `now` is the time of `swap_domains`.
  unfoldable pub rule_of : ℕ → ℕ → ClientPolicyConfig → Parsed ClientPolicy
  rule_of now idx cfg =
      let ctx = client_policy idx in
      if is_nil cfg.from
      then inl (no_from ctx)
      else let blocks = parse_blocklist (join_lines cfg.block) in
        let allows = parse_blocklist (join_lines cfg.allow) in
        if is_nil blocks && is_nil allows && not (is_some cfg.filter_aaaa)
        then inl (no_valid_domain ctx)
        else parsed_then (from_entries cfg.from cfg.exclude ctx) (λ nets. inr (record {
          nets = nets;
          store = swap_domains now blocks [] (new_store (seed allows unpersisted) unpersisted);
          filter_aaaa = cfg.filter_aaaa;
        }))

  unfoldable pub rules_from : ℕ → ℕ → List ClientPolicyConfig → Parsed (List ClientPolicy)
  rules_from now idx [] = inr []
  rules_from now idx (cfg ∷ configs) =
      parsed_then (rule_of now idx cfg)
        (λ rule. parsed_then (rules_from now (suc idx) configs) (λ rules. inr (rule ∷ rules)))

  abbrev pub from_configs : ℕ → List ClientPolicyConfig → Parsed (List ClientPolicy)
  from_configs now configs = rules_from now 0 configs

  unfoldable pub applies : IpAddr → ClientPolicy → Bool
  applies peer rule = let ip = to_canonical peer in not (is_loopback ip) && matches ip rule.nets

  unfoldable pub matching_rules : IpAddr → List ClientPolicy → List ClientPolicy
  matching_rules peer [] = []
  matching_rules peer (rule ∷ rules) =
      let rest = matching_rules peer rules in if applies peer rule then rule ∷ rest else rest

  unfoldable pub decide : ℕ → Text → List ClientPolicy → Decision
  decide now qname [] = passthrough
  decide now qname (rule ∷ rules) =
      let later = decide now qname rules in
      let r = check now qname rule.store in
      if r.blocked then block else if is_some r.matched_rule then allow else later

  unfoldable pub evaluate : ℕ → IpAddr → Text → List ClientPolicy → Decision
  evaluate now peer qname rules = decide now qname (matching_rules peer rules)

  unfoldable pub first_override : List ClientPolicy → Bool → Bool
  first_override [] global = global
  first_override (rule ∷ rules) global =
      let later = first_override rules global in
      elim rule.filter_aaaa [ none ↦ later | some set ↦ set ]

  unfoldable pub effective_filter_aaaa : IpAddr → Bool → List ClientPolicy → Bool
  effective_filter_aaaa peer global rules = first_override (matching_rules peer rules) global
