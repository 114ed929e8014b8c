-- ===== src/Blocklist/Check.antt =====
-- The verdict of the blocklist on a name.
use numa.Prelude.{
  arith, if◌then◌else◌, Option, Bool-cases, ◌⊎◌, ap, subst, Option-cases, ◌↔◌, ◌≡◌, ◌||◌, refl,
  true, false, none, some, inl, inr, List, ℕ, bytes_key,
}
use numa.DomainList.{or_else, DomainList, find_normalized}
use numa.Blocklist.{
  check_listed, check_manual, check_allowed, BlocklistStore, is_blocked, check, is_paused,
}
use numa.Map.{is_some}
use numa.Text.{Text, Unicode}
use numa.Set.{has}
use numa.Domain.{normalize, find_in_set}
use numa.Domain.Match.{Covers, find_in_set-Covers, find_in_set-found}

pub is_some-found :
    (domain : Text) (set : List Text)
    → (is_some (find_in_set domain set) ≡ true)
      ↔ ((e : Text) × (has e set ≡ true) × Covers e domain)
is_some-found domain set = (
  λ h. elim (Option-cases (find_in_set domain set)) [
    | inl nothing ↦
        absurd
          (let k : is_some {A = Text} none ≡ true = subst (λ o. is_some o ≡ true) nothing h in cc)
    | inr (m, found) ↦
        let (member, covers) = find_in_set-Covers domain set m found in (m, member, covers)
  ],
  λ (e, member, covers).
      let (m, found, le) = find_in_set-found domain set e member covers in ap is_some found,
)

-- An entry of the list, of either layer, covers the name.
pub record Lists (l : DomainList) (domain entry : Text) : Type 0 where
  pub member : has entry l.config || has entry l.user ≡ true
  pub covers : Covers entry domain

is_some-or_else : (a b : Option Text) → is_some (or_else a b) ≡ is_some a || is_some b
is_some-or_else none b = refl
is_some-or_else (some a) b = refl

pub find_normalized-Lists :
    (domain : Text) (l : DomainList)
    → (is_some (find_normalized domain l) ≡ true) ↔ ((e : Text) × Lists l domain e)
unfolding find_normalized
find_normalized-Lists domain l =
    let either : is_some (find_normalized domain l)
        ≡ is_some (find_in_set domain l.config) || is_some (find_in_set domain l.user) =
      is_some-or_else (find_in_set domain l.config) (find_in_set domain l.user) in
    let config = is_some-found domain l.config in
    let user = is_some-found domain l.user in
    (
      λ h. elim (Bool-cases (is_some (find_in_set domain l.config))) [
        | inl here ↦
            let (e, member, covers) = config.0 here in
            (e, record { member = ground (arith, member); covers = covers })
        | inr missing ↦
            let (e, member, covers) = user.0 (ground (arith, either, h, missing)) in
            (e, record { member = ground (arith, member); covers = covers })
      ],
      λ (e, lists). elim (Bool-cases (has e l.config)) [
        | inl here ↦ let k = config.1 (e, here, lists.covers) in ground (arith, either, k)
        | inr missing ↦
            let member : has e l.user ≡ true = ground (arith, lists.member, missing) in
            let k = user.1 (e, member, lists.covers) in ground (arith, either, k)
      ],
    )

verdict_of :
    (domain : Text) (allowed manual listed : Option Text)
    → (check_allowed domain allowed manual listed).blocked
      ≡ (if is_some allowed then false else is_some manual || is_some listed)
unfolding check_allowed check_manual check_listed
verdict_of domain (some a) manual listed = refl
verdict_of domain none (some m) listed = refl
verdict_of domain none none (some m) = refl
verdict_of domain none none none = refl

module _ ⦃unicode : Unicode⦄ where
  -- At every time `is_blocked` is the verdict of `check`.
  pub is_blocked-check :
      (now : ℕ) (domain : Text) (s : BlocklistStore)
      → is_blocked now domain s ≡ (check now domain s).blocked
  unfolding is_blocked check
  is_blocked-check now domain s = elim (Bool-cases s.enabled) [
    | inr off ↦ simp (off)
    | inl on ↦ elim (Bool-cases (is_paused now s)) [
      | inl paused ↦ simp (on, paused)
      | inr running ↦
          let d : Text = normalize domain in
          simp (
            on,
            running,
            verdict_of d (find_normalized d s.allowlist) (find_normalized d s.manual)
                (find_in_set d s.domains),
          )
    ]
  ]

  -- A name is blocked at a time exactly where blocking is on and not paused then, no entry of the
  -- allowlist covers it, and an entry of the manual list or of the loaded lists does.
  pub is_blocked-Lists :
      (now : ℕ) (domain : Text) (s : BlocklistStore)
      → (is_blocked now domain s ≡ true) ↔ (
          (s.enabled ≡ true)
          × (is_paused now s ≡ false)
          × (¬ ((e : Text) × Lists s.allowlist (normalize domain) e))
          × (((e : Text) × Lists s.manual (normalize domain) e)
              ⊎ ((e : Text) × (has e s.domains ≡ true) × Covers e (normalize domain))))
  unfolding is_blocked
  is_blocked-Lists now domain s =
      let d : Text = normalize domain in
      let allow = find_normalized-Lists d s.allowlist in
      let manual = find_normalized-Lists d s.manual in
      let listed = is_some-found d s.domains in
      (
        λ h. (
          ground (arith, h),
          ground (arith, h),
          λ found. let k = allow.1 found in absurd (ground (arith, h, k)),
          elim (Bool-cases (is_some (find_normalized d s.manual))) [
            | inl here ↦ inl (manual.0 here)
            | inr missing ↦ inr (listed.0 (ground (arith, h, missing)))
          ],
        ),
        λ (on, running, not_allowed, found).
            let clear : is_some (find_normalized d s.allowlist) ≡ false =
              elim (Bool-cases (is_some (find_normalized d s.allowlist))) [
                | inl bad ↦ absurd (not_allowed (allow.0 bad))
                | inr good ↦ good
              ] in
            elim found [
              | inl m ↦ let k = manual.1 m in ground (arith, on, running, clear, k)
              | inr m ↦ let k = listed.1 m in ground (arith, on, running, clear, k)
            ],
      )
