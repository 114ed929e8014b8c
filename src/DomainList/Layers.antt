-- ===== src/DomainList/Layers.antt =====
-- The two layers of a list under its operations.
use numa.Set.{has_same, has-add, has-delete, has, add, delete}
use numa.Prelude.{
  ◌||◌, ◌∙◌, eq_bytes_iff, subst, ap, arith, Bool-cases, not, ◌&&◌, ◌=?◌, ◌≡◌, any, All, refl, true,
  false, some, inl, inr, [], ◌∷◌, List, Bool, bytes_key,
}
use numa.DomainList.Sorted.{has-sort, All-sort, All-delete}
use numa.DomainList.{saved_file, sort, DomainList, save, insert, remove}
use numa.Domain.Normal.{normalize_twice}
use numa.Text.{Text, Unicode}
use numa.Domain.{normalize}

module _ ⦃unicode : Unicode⦄ where
  -- Runtime entries are normal, and none of them is an entry of the configuration.
  pub record IsLayered (l : DomainList) : Type 0 where
    pub normal : All (λ d. normalize d ≡ d) l.user
    pub disjoint : (d : Text) → has d l.user && has d l.config ≡ false

  -- Whether an entry of the file stands for the domain.
  unfoldable pub stored : Text → List Text → Bool
  stored d file = any (λ e. normalize e =? d) file

  -- The file holds the runtime entries, and maybe domains that the configuration covers.
  pub record IsSaved (l : DomainList) : Type 0 where
    pub contents : List Text
    pub path : l.file ≡ some contents
    pub synced : (d : Text) → has d l.user ≡ stored d contents && not (has d l.config)

  stored-normal :
      (d : Text) (ds : List Text) → All (λ e. normalize e ≡ e) ds → stored d ds ≡ has d ds
  unfolding stored has
  stored-normal d [] h = refl
  stored-normal d (e ∷ ds) h = rw (h.0, stored-normal d ds h.1) refl

  IsLayered-save : (written : Bool) (l : DomainList) → IsLayered l → IsLayered (save written l)
  unfolding save
  IsLayered-save written l h = record { normal = h.normal; disjoint = h.disjoint }

  IsSaved-save :
      (l : DomainList) (old : List Text) → l.file ≡ some old → IsLayered l → IsSaved (save true l)
  unfolding save
  IsSaved-save l old present h = record {
    contents = sort l.user;
    path = ap (saved_file true l.user) present;
    synced = λ d.
        let same : stored d (sort l.user) ≡ has d l.user =
          stored-normal d (sort l.user) (All-sort (λ e. normalize e ≡ e) l.user h.normal)
          ∙ has-sort d l.user in
        ground (arith, same, h.disjoint d);
  }

  pub IsLayered-added :
      (domain : Text) (l : DomainList)
      → has (normalize domain) l.config ≡ false
      → IsLayered l
      → IsLayered (record l { user = add (normalize domain) l.user })
  IsLayered-added domain l free h =
      let d : Text = normalize domain in
      record {
        normal = elim (Bool-cases (has d l.user)) [
          | inl old ↦ rw old h.normal
          | inr fresh ↦ rw fresh (normalize_twice domain, h.normal)
        ];
        disjoint = λ x. elim (Bool-cases (d =? x)) [
          | inl same ↦
              let unset : has x l.config ≡ false =
                subst (λ y. has y l.config ≡ false) ((eq_bytes_iff d x).0 same) free in
              ground (arith, unset)
          | inr other ↦ ground (arith, has-add x d l.user, other, h.disjoint x)
        ];
      }

  IsLayered-deleted :
      (d : Text) (l : DomainList) → IsLayered l → IsLayered (record l { user = delete d l.user })
  IsLayered-deleted d l h = record {
    normal = All-delete (λ e. normalize e ≡ e) d l.user h.normal;
    disjoint = λ x. ground (arith, has-delete x d l.user, h.disjoint x);
  }

  pub IsLayered-insert :
      (written : Bool) (domain : Text) (l : DomainList)
      → IsLayered l
      → IsLayered (insert written domain l)
  unfolding insert
  IsLayered-insert written domain l h =
      let d : Text = normalize domain in
      elim (Bool-cases (not (has d l.config) && not (has d l.user))) [
        | inl fresh ↦ rw fresh (
            IsLayered-save written (record l { user = add d l.user })
              (IsLayered-added domain l (ground (arith, fresh)) h))
        | inr known ↦ rw known h
      ]

  pub IsLayered-remove :
      (written : Bool) (domain : Text) (l : DomainList)
      → IsLayered l
      → IsLayered (remove written domain l).1
  unfolding remove
  IsLayered-remove written domain l h =
      let d : Text = normalize domain in
      elim (Bool-cases (has d l.user)) [
        | inl present ↦
            rw present (
              IsLayered-save written (record l { user = delete d l.user })
                (IsLayered-deleted d l h))
        | inr missing ↦ rw missing h
      ]

  pub IsSaved-insert :
      (domain : Text) (l : DomainList) → IsLayered l → IsSaved l → IsSaved (insert true domain l)
  unfolding insert
  IsSaved-insert domain l h s =
      let d : Text = normalize domain in
      elim (Bool-cases (not (has d l.config) && not (has d l.user))) [
        | inl fresh ↦ rw fresh (
            IsSaved-save (record l { user = add d l.user }) s.contents s.path
              (IsLayered-added domain l (ground (arith, fresh)) h))
        | inr known ↦ rw known s
      ]

  pub IsSaved-remove :
      (domain : Text) (l : DomainList) → IsLayered l → IsSaved l → IsSaved (remove true domain l).1
  unfolding remove
  IsSaved-remove domain l h s =
      let d : Text = normalize domain in
      elim (Bool-cases (has d l.user)) [
        | inl present ↦ rw present (
            IsSaved-save (record l { user = delete d l.user }) s.contents s.path
              (IsLayered-deleted d l h))
        | inr missing ↦ rw missing s
      ]

  -- The domains listed by either layer.
  unfoldable pub listed : Text → DomainList → Bool
  listed d l = has d l.config || has d l.user

  insert-listed :
      (written : Bool) (domain d : Text) (l : DomainList)
      → (listed d (insert written domain l) ≡ (normalize domain =? d) || listed d l)
        × ((insert written domain l).config ≡ l.config)
  unfolding listed insert save
  insert-listed written domain d l =
      let n : Text = normalize domain in
      elim (Bool-cases (not (has n l.config) && not (has n l.user))) [
        | inl fresh ↦ rw fresh (ground (arith, has-add d n l.user), refl)
        | inr known ↦ elim (Bool-cases (n =? d)) [
          | inl same ↦ rw known (
            ground (arith, known, same, has_same d n l.config same, has_same d n l.user same),
            refl,
          )
          | inr other ↦ rw known (ground (arith, other), refl)
        ]
      ]

  remove-listed :
      (written : Bool) (domain d : Text) (l : DomainList)
      → (listed d (remove written domain l).1
          ≡ has d l.config || (not (normalize domain =? d) && has d l.user))
        × ((remove written domain l).0 ≡ has (normalize domain) l.user)
        × ((remove written domain l).1.config ≡ l.config)
  unfolding listed remove save
  remove-listed written domain d l =
      let n : Text = normalize domain in
      elim (Bool-cases (has n l.user)) [
        | inl present ↦ rw present (ground (arith, has-delete d n l.user), refl, refl)
        | inr missing ↦ elim (Bool-cases (n =? d)) [
          | inl same ↦
              rw missing (ground (arith, missing, same, has_same d n l.user same), refl, refl)
          | inr other ↦ rw missing (ground (arith, other), refl, refl)
        ]
      ]

  -- Of the domains that a list holds, `insert` adds its own; `remove` takes its own out unless the
  -- configuration has it, and tells whether the runtime layer had it; the configuration stays.
  pub changes-listed :
      (written : Bool) (domain d : Text) (l : DomainList)
      → ((listed d (insert written domain l) ≡ (normalize domain =? d) || listed d l)
          × ((insert written domain l).config ≡ l.config))
        × ((listed d (remove written domain l).1
              ≡ has d l.config || (not (normalize domain =? d) && has d l.user))
            × ((remove written domain l).0 ≡ has (normalize domain) l.user)
            × ((remove written domain l).1.config ≡ l.config))
  changes-listed written domain d l =
      (insert-listed written domain d l, remove-listed written domain d l)
