-- ===== src/ClientPolicy/Decides.antt =====
-- What a set of client policies decides, as a relation, and that `evaluate` decides it.
use numa.Prelude.{
  ltb, Option-cases, Bool-cases, ◌∙◌, ap, subst, All, ◌↔◌, ℕ, arith, Option, refl, some, inl, inr,
  ◌≡◌, true, false, none, [], ◌∷◌, List, bytes_key,
}
use numa.Blocklist.Check.{is_some-found, find_normalized-Lists, Lists}
use numa.Blocklist.{check_listed, check_manual, check_allowed, is_paused, check, BlocklistStore}
use numa.Domain.{normalize, find_in_set, find_parent}
use numa.DomainList.{DomainList, find_normalized, unpersisted}
use numa.ClientPolicy.{
  matching_rules, evaluate, decide, block, allow, passthrough, ClientPolicy, Decision, applies,
}
use numa.Map.{is_some}
use numa.Text.{Text, Unicode}
use numa.Set.{has}
use numa.Acl.{IpAddr, Networks}
use numa.Domain.Match.{Covers}

-- A rule's store blocks at all times, and through its own list alone.
pub record IsRuleStore (s : BlocklistStore) : Type 0 where
  pub on : s.enabled ≡ true
  pub running : s.paused_until ≡ none
  pub no_manual : s.manual ≡ unpersisted

pub Allowed : BlocklistStore → Text → Type 0
Allowed s d = (e : Text) × Lists s.allowlist d e

pub Blocked : BlocklistStore → Text → Type 0
Blocked s d = (e : Text) × (has e s.domains ≡ true) × Covers e d

find_parent-empty : (d : Text) → find_parent d [] ≡ none
unfolding find_parent has
find_parent-empty [] = refl
find_parent-empty (c ∷ d) = ground (arith, find_parent-empty d)

find_normalized-unpersisted :
    (d : Text) (l : DomainList) → l ≡ unpersisted → find_normalized d l ≡ none
unfolding find_normalized find_in_set has
find_normalized-unpersisted d l same = ap (find_normalized d) same ∙ rw (find_parent-empty d) refl

is_paused_never : (now : ℕ) (s : BlocklistStore) → s.paused_until ≡ none → is_paused now s ≡ false
unfolding is_paused
is_paused_never now s never =
    ap (λ (o : Option ℕ). elim o [ none ↦ false | some until ↦ ltb now until ]) never

not_found : {A : Type 0} (o : Option Text) → (is_some o ≡ true) ↔ A → o ≡ none → ¬ A
not_found o iff nothing a =
    let k : is_some {A = Text} none ≡ true = subst (λ x. is_some x ≡ true) nothing (iff.1 a) in
    absurd cc

module _ ⦃unicode : Unicode⦄ ⦃networks : Networks⦄ where
  -- Rules from the first on: the first that is for the peer and lists the name decides.
  pub data Decides (peer : IpAddr) (d : Text) : List ClientPolicy → Decision → Type 0 where
    no_rule : Decides peer d [] passthrough
    other_client :
        {rule : ClientPolicy} {rules : List ClientPolicy} {v : Decision}
        → applies peer rule ≡ false
        → Decides peer d rules v
        → Decides peer d (rule ∷ rules) v
    silent :
        {rule : ClientPolicy} {rules : List ClientPolicy} {v : Decision}
        → ¬ Allowed rule.store d
        → ¬ Blocked rule.store d
        → Decides peer d rules v
        → Decides peer d (rule ∷ rules) v
    allowed :
        {rule : ClientPolicy} {rules : List ClientPolicy}
        → applies peer rule ≡ true
        → Allowed rule.store d
        → Decides peer d (rule ∷ rules) allow
    blocked :
        {rule : ClientPolicy} {rules : List ClientPolicy}
        → applies peer rule ≡ true
        → ¬ Allowed rule.store d
        → Blocked rule.store d
        → Decides peer d (rule ∷ rules) block

  check_rule :
      (now : ℕ) (q : Text) (s : BlocklistStore)
      → IsRuleStore s
      → check now q s
        ≡ check_allowed
            (normalize q)
            (find_normalized (normalize q) s.allowlist)
            none
            (find_in_set (normalize q) s.domains)
  unfolding check
  check_rule now q s h = simp (
    h.on,
    is_paused_never now s h.running,
    find_normalized-unpersisted (normalize q) s.manual h.no_manual,
  )

  first_rule :
      (now : ℕ) (peer : IpAddr) (q : Text) (rule : ClientPolicy) (rules : List ClientPolicy)
      → IsRuleStore rule.store
      → applies peer rule ≡ true
      → Decides peer (normalize q) rules (decide now q (matching_rules peer rules))
      → Decides peer (normalize q) (rule ∷ rules) (decide now q (rule ∷ matching_rules peer rules))
  unfolding decide check_allowed check_manual check_listed Allowed Blocked
  first_rule now peer q rule rules h for_peer later =
      let d : Text = normalize q in
      let s : BlocklistStore = rule.store in
      let same = check_rule now q s h in
      let allows = find_normalized-Lists d s.allowlist in
      let blocks = is_some-found d s.domains in
      elim (Option-cases (find_normalized d s.allowlist)) [
        | inr (e, found) ↦ rw (same, found) (allowed for_peer (allows.0 (ap is_some found)))
        | inl no_allow ↦ elim (Option-cases (find_in_set d s.domains)) [
          | inr (e, found) ↦
              rw (same, no_allow, found)
                (blocked for_peer (not_found _ allows no_allow) (blocks.0 (ap is_some found)))
          | inl no_block ↦
              rw (same, no_allow, no_block)
                (silent (not_found _ allows no_allow) (not_found _ blocks no_block) later)
        ]
      ]

  -- For rules as the configuration builds them, at any time, `evaluate` returns what the first rule
  -- decides that is for the peer and lists the name, where an entry of its allowlist comes before one
  -- that blocks, and passes the query through where no rule does.
  pub evaluate-Decides :
      (now : ℕ) (peer : IpAddr) (q : Text) (rules : List ClientPolicy)
      → All (λ rule. IsRuleStore rule.store) rules
      → Decides peer (normalize q) rules (evaluate now peer q rules)
  unfolding evaluate matching_rules decide
  evaluate-Decides now peer q [] h = no_rule
  evaluate-Decides now peer q (rule ∷ rules) h =
      let later = evaluate-Decides now peer q rules h.1 in
      elim (Bool-cases (applies peer rule)) [
        | inr other ↦ rw other (other_client other later)
        | inl for_peer ↦ rw for_peer (first_rule now peer q rule rules h.0 for_peer later)
      ]
