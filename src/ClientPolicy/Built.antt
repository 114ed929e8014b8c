-- ===== src/ClientPolicy/Built.antt =====
-- The rules that a configuration gives.
use numa.Prelude.{
  ◌=?◌, ◌||◌, All, ◌∙◌, ap, arith, not, ◌&&◌, Bool-cases, ◌≡◌, is_nil, refl, suc, false, inl, inr,
  [], ◌∷◌, List, ℕ, bytes_key,
}
use numa.Acl.{Context, parsed_then, Networks, Parsed, from_entries, client_policy}
use numa.Set.{has-add, add, has}
use numa.Blocklist.Loads.{IsRule}
use numa.Blocklist.Parse.{parse_blocklist-IsRule}
use numa.Domain.{normalize}
use numa.DomainList.{DomainList, insert_from_config, unpersisted, seed}
use numa.Map.{is_some}
use numa.ClientPolicy.{
  join_lines, ClientPolicy, ClientPolicyConfig, from_configs, rule_of, rules_from,
}
use numa.Blocklist.{parse_blocklist, new_store}
use numa.Text.{Text, Unicode}
use numa.ClientPolicy.Decides.{IsRuleStore}

module _ ⦃unicode : Unicode⦄ where
  -- Seeding a list with normal domains adds those to its configuration.
  has-seed :
      (d : Text) (ds : List Text) (l : DomainList)
      → All IsRule ds
      → has d (seed ds l).config ≡ has d ds || has d l.config
  unfolding seed insert_from_config has
  has-seed d [] l h = refl
  has-seed d (e ∷ ds) l h =
      let own : normalize e ≡ e = h.0.normal in
      let same : has d (add (normalize e) l.config) ≡ (e =? d) || has d l.config =
        ap (λ k. has d (add k l.config)) own ∙ has-add d e l.config in
      ground (arith, has-seed d ds (insert_from_config e l) h.1, same)

  is_nil-add : (d : Text) (s : List Text) → is_nil (add d s) ≡ false
  unfolding has
  is_nil-add d [] = refl
  is_nil-add d (e ∷ s) = ground arith

  is_nil-seed :
      (ds : List Text) (l : DomainList) → is_nil (seed ds l).config ≡ is_nil ds && is_nil l.config
  unfolding seed insert_from_config
  is_nil-seed [] l = refl
  is_nil-seed (d ∷ ds) l =
      ground (arith, is_nil-seed ds (insert_from_config d l), is_nil-add (normalize d) l.config)

  seed-user : (ds : List Text) (l : DomainList) → (seed ds l).user ≡ l.user
  unfolding seed insert_from_config
  seed-user [] l = refl
  seed-user (d ∷ ds) l = seed-user ds (insert_from_config d l)

module _ ⦃unicode : Unicode⦄ ⦃networks : Networks⦄ where
  -- The rule is built from its entry of the configuration, which names a client: it is for the clients of the
  -- entry, its store blocks and allows what the lists of the entry parse to, and it has something to do.
  pub record IsRuleOf (cfg : ClientPolicyConfig) (rule : ClientPolicy) : Type 0 where
    pub clients : is_nil cfg.from ≡ false
    pub place : Context
    pub nets : from_entries cfg.from cfg.exclude place ≡ inr rule.nets
    pub store : IsRuleStore rule.store
    pub blocks : rule.store.domains ≡ parse_blocklist (join_lines cfg.block)
    pub allows :
        (d : Text)
        → has d rule.store.allowlist.config ≡ has d (parse_blocklist (join_lines cfg.allow))
    pub allows_no_more : rule.store.allowlist.user ≡ []
    pub filter : rule.filter_aaaa ≡ cfg.filter_aaaa
    pub acts :
        is_nil rule.store.domains
          && is_nil rule.store.allowlist.config
          && not (is_some rule.filter_aaaa)
        ≡ false

  -- One rule for each entry, in their order.
  abbrev pub Built : List ClientPolicyConfig → List ClientPolicy → Type 0
  Built [] [] = Unit
  Built (cfg ∷ configs) (rule ∷ rules) = IsRuleOf cfg rule × Built configs rules
  Built _ _ = ⊥

  -- Where the configuration is accepted.
  abbrev pub Accepts {ℓ} : {A : Type ℓ} → (A → Type 0) → Parsed A → Type 0
  Accepts P (inl e) = Unit
  Accepts P (inr a) = P a

  Accepts-then :
      {A B : Type 0} (P : A → Type 0) (Q : B → Type 0) (r : Parsed A) (f : A → Parsed B)
      → Accepts P r
      → ((a : A) → P a → Accepts Q (f a))
      → Accepts Q (parsed_then r f)
  Accepts-then P Q (inl e) f h k = tt
  Accepts-then P Q (inr a) f h k = k a h

  Accepts-same : {A : Type 0} (r : Parsed A) → Accepts (λ a. r ≡ inr a) r
  Accepts-same (inl e) = tt
  Accepts-same (inr a) = refl

  has-allows :
      (d text : Text)
      → has d (seed (parse_blocklist text) unpersisted).config ≡ has d (parse_blocklist text)
  unfolding has
  has-allows d text =
      ground (arith, has-seed d (parse_blocklist text) unpersisted (parse_blocklist-IsRule text).0)

  is_nil-allows :
      (text : Text)
      → is_nil (seed (parse_blocklist text) unpersisted).config ≡ is_nil (parse_blocklist text)
  is_nil-allows text = ground (arith, is_nil-seed (parse_blocklist text) unpersisted)

  rule_of-IsRuleOf :
      (now idx : ℕ) (cfg : ClientPolicyConfig) → Accepts (IsRuleOf cfg) (rule_of now idx cfg)
  unfolding rule_of new_store
  rule_of-IsRuleOf now idx cfg =
      let blocks : List Text = parse_blocklist (join_lines cfg.block) in
      let allows : List Text = parse_blocklist (join_lines cfg.allow) in
      elim (Bool-cases (is_nil cfg.from)) [
        | inl empty ↦ rw empty tt
        | inr clients ↦
            elim (Bool-cases (is_nil blocks && is_nil allows && not (is_some cfg.filter_aaaa))) [
              | inl idle ↦ rw (clients, idle) tt
              | inr acts ↦
                  rw (clients, acts)
                    (Accepts-then
                      (λ nets. from_entries cfg.from cfg.exclude (client_policy idx) ≡ inr nets)
                      (IsRuleOf cfg) (from_entries cfg.from cfg.exclude (client_policy idx)) _
                      (Accepts-same _)
                      (λ nets same. record {
                        clients = clients;
                        place = client_policy idx;
                        nets = same;
                        store = record { on = refl; running = refl; no_manual = refl };
                        blocks = refl;
                        allows = λ d. has-allows d (join_lines cfg.allow);
                        allows_no_more = seed-user allows unpersisted;
                        filter = refl;
                        acts =
                            ap (λ t. is_nil blocks && t && not (is_some cfg.filter_aaaa))
                              (is_nil-allows (join_lines cfg.allow))
                            ∙ acts;
                      }))
            ]
      ]

  rules_from-Built :
      (now idx : ℕ) (configs : List ClientPolicyConfig)
      → Accepts (Built configs) (rules_from now idx configs)
  unfolding rules_from
  rules_from-Built now idx [] = tt
  rules_from-Built now idx (cfg ∷ configs) =
      Accepts-then (IsRuleOf cfg) _ (rule_of now idx cfg) _ (rule_of-IsRuleOf now idx cfg)
        (λ rule h.
          Accepts-then (Built configs) _ (rules_from now (suc idx) configs) _
            (rules_from-Built now (suc idx) configs) (λ rules k. (h, k)))

  -- A configuration that is accepted gives one rule for each entry, in order: each is for the clients that its
  -- entry names, of which there is one, blocks what the entry's list parses to, allows exactly what the other
  -- list parses to, filters as the entry says, is always on, and blocks, allows or filters something.
  pub from_configs-Built :
      (now : ℕ) (configs : List ClientPolicyConfig)
      → Accepts (Built configs) (from_configs now configs)
  from_configs-Built now configs = rules_from-Built now 0 configs
