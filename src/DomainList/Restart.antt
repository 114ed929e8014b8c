-- ===== src/DomainList/Restart.antt =====
-- A list that is loaded again after changes.
use numa.Set.{add, has-add, has_same, has}
use numa.DomainList.{
  new_list, load_from, or_else, load_persisted, find_normalized, insert_from_config, load_entries,
  load_entry, seed, DomainList, insert, remove,
}
use numa.DomainList.Layers.{
  IsSaved-remove, IsLayered-remove, changes-listed, IsSaved-insert, IsLayered-insert,
  IsLayered-added, IsSaved, IsLayered, stored,
}
use numa.Domain.Match.{find_in_set_same}
use numa.Prelude.{
  All, sym, subst, Option, ap₂, false, some, ap, arith, not, ◌&&◌, ◌=?◌, ◌||◌, Bool-cases, ◌∙◌, ◌≡◌,
  refl, true, inl, inr, [], ◌∷◌, List, bytes_key,
}
use numa.Domain.{find_in_set, normalize}
use numa.Text.{Text, Unicode}

pub data Change : Type 0 where
  inserted removed : Text → Change

module _ ⦃unicode : Unicode⦄ where
  -- Changes one after another, each of which is written.
  unfoldable pub run : List Change → DomainList → DomainList
  run [] l = l
  run (inserted d ∷ changes) l = run changes (insert true d l)
  run (removed d ∷ changes) l = run changes (remove true d l).1

  seed-user :
      (ds : List Text) (l : DomainList) → ((seed ds l).user ≡ l.user) × ((seed ds l).file ≡ l.file)
  unfolding seed insert_from_config
  seed-user [] l = (refl, refl)
  seed-user (d ∷ ds) l = seed-user ds (insert_from_config d l)

  load_entry-user :
      (e d : Text) (l : DomainList)
      → has d (load_entry e l).user ≡ (has d l.user || ((normalize e =? d) && not (has d l.config)))
  unfolding load_entry
  load_entry-user e d l =
      let n : Text = normalize e in
      elim (Bool-cases (has n l.config)) [
        | inl here ↦ elim (Bool-cases (n =? d)) [
          | inl same ↦ rw here (ground (arith, here, same, has_same d n l.config same))
          | inr other ↦ rw here (ground (arith, other))
        ]
        | inr free ↦ elim (Bool-cases (n =? d)) [
          | inl same ↦
              rw free (ground (arith, free, same, has_same d n l.config same, has-add d n l.user))
          | inr other ↦ rw free (ground (arith, other, has-add d n l.user))
        ]
      ]

  load_entry-config :
      (e : Text) (l : DomainList)
      → ((load_entry e l).config ≡ l.config) × ((load_entry e l).file ≡ l.file)
  unfolding load_entry
  load_entry-config e l = elim (Bool-cases (has (normalize e) l.config)) [
    | inl here ↦ (rw here refl, rw here refl)
    | inr free ↦ (rw free refl, rw free refl)
  ]

  load_entries-config :
      (es : List Text) (l : DomainList)
      → ((load_entries es l).config ≡ l.config) × ((load_entries es l).file ≡ l.file)
  unfolding load_entries
  load_entries-config [] l = (refl, refl)
  load_entries-config (e ∷ es) l =
      let (config, file) = load_entries-config es (load_entry e l) in
      let (config', file') = load_entry-config e l in (config ∙ config', file ∙ file')

  load_entries-user :
      (es : List Text) (d : Text) (l : DomainList)
      → has d (load_entries es l).user ≡ (has d l.user || (stored d es && not (has d l.config)))
  unfolding load_entries stored
  load_entries-user [] d l = ground arith
  load_entries-user (e ∷ es) d l =
      let config : has d (load_entry e l).config ≡ has d l.config =
        ap (has d) (load_entry-config e l).0 in
      ground (arith, load_entries-user es d (load_entry e l), load_entry-user e d l, config)

  IsLayered-load_entries :
      (es : List Text) (l : DomainList) → IsLayered l → IsLayered (load_entries es l)
  unfolding load_entries load_entry
  IsLayered-load_entries [] l h = h
  IsLayered-load_entries (e ∷ es) l h =
      IsLayered-load_entries es (load_entry e l) (elim (Bool-cases (has (normalize e) l.config)) [
        | inl here ↦ rw here h
        | inr free ↦ rw free (IsLayered-added e l free h)
      ])

  -- The list before the file is read.
  abbrev seeded : List Text → List Text → DomainList
  seeded file seeds = seed seeds (record { config = []; user = []; file = some file })

  new_list-load_entries :
      (file seeds : List Text) → new_list file seeds ≡ load_entries file (seeded file seeds)
  unfolding new_list load_persisted
  new_list-load_entries file seeds =
      ap (λ (f : Option (List Text)). load_from f (seeded file seeds))
        (seed-user seeds (record { config = []; user = []; file = some file })).1

  pub new_list-user :
      (file seeds : List Text) (d : Text)
      → (has d (new_list file seeds).user
          ≡ (stored d file && not (has d (seeded file seeds).config)))
        × ((new_list file seeds).config ≡ (seeded file seeds).config)
        × ((new_list file seeds).file ≡ some file)
  unfolding has
  new_list-user file seeds d =
      let s : DomainList = seeded file seeds in
      let (user, kept) = seed-user seeds (record { config = []; user = []; file = some file }) in
      let (config, same_file) = load_entries-config file s in
      let empty : has d s.user ≡ false = ap (has d) user in
      let e = new_list-load_entries file seeds in
      (
        ap (λ (l : DomainList). has d l.user) e ∙ ground (arith, load_entries-user file d s, empty),
        ap (λ (l : DomainList). l.config) e ∙ config,
        ap (λ (l : DomainList). l.file) e ∙ same_file ∙ kept,
      )

  new_list-IsSaved :
      (file seeds : List Text) → IsLayered (new_list file seeds) × IsSaved (new_list file seeds)
  unfolding has
  new_list-IsSaved file seeds = (
    subst IsLayered (sym (new_list-load_entries file seeds)) (
        IsLayered-load_entries file (seeded file seeds) (
          let (user, kept) =
            seed-user seeds (record { config = []; user = []; file = some file }) in
          record {
            normal = subst (All (λ d. normalize d ≡ d)) (sym user) tt;
            disjoint = λ d.
                let empty : has d (seeded file seeds).user ≡ false = ap (has d) user in
                ground (arith, empty);
          })),
    record {
      contents = file;
      path = (new_list-user file seeds []).2;
      synced = λ d.
          let (user, config, path) = new_list-user file seeds d in
          let same : has d (new_list file seeds).config ≡ has d (seeded file seeds).config =
            ap (has d) config in
          ground (arith, user, same);
    },
  )

  run-IsSaved :
      (changes : List Change) (l : DomainList)
      → IsLayered l
      → IsSaved l
      → IsLayered (run changes l) × IsSaved (run changes l) × ((run changes l).config ≡ l.config)
  unfolding run
  run-IsSaved [] l h s = (h, s, refl)
  run-IsSaved (inserted d ∷ changes) l h s =
      let (h', s', same) =
        run-IsSaved changes (insert true d l) (IsLayered-insert true d l h)
          (IsSaved-insert d l h s) in
      (h', s', same ∙ (changes-listed true d [] l).0.1)
  run-IsSaved (removed d ∷ changes) l h s =
      let (h', s', same) =
        run-IsSaved changes (remove true d l).1 (IsLayered-remove true d l h)
          (IsSaved-remove d l h s) in
      (h', s', same ∙ (changes-listed true d [] l).1.2)

  seed-config :
      (ds : List Text) (l m : DomainList)
      → l.config ≡ m.config
      → (seed ds l).config ≡ (seed ds m).config
  unfolding seed insert_from_config
  seed-config [] l m same = same
  seed-config (d ∷ ds) l m same =
      seed-config ds (insert_from_config d l) (insert_from_config d m) (ap (add (normalize d)) same)

  find_normalized_same :
      (q : Text) (l m : DomainList)
      → l.config ≡ m.config
      → ((d : Text) → has d l.user ≡ has d m.user)
      → find_normalized q l ≡ find_normalized q m
  unfolding find_normalized
  find_normalized_same q l m config user =
      ap₂ or_else (ap (find_in_set q) config) (find_in_set_same q l.user m.user user)

  -- After any changes that are written, a start from the file that they leave and the same
  -- configuration gives a list in which every name matches the same entry, or none.
  pub new_list-run :
      (file seeds : List Text) (changes : List Change)
      → (left : List Text) × ((run changes (new_list file seeds)).file ≡ some left)
        × ((q : Text)
            → find_normalized q (new_list left seeds)
              ≡ find_normalized q (run changes (new_list file seeds)))
  new_list-run file seeds changes =
      let l : DomainList = new_list file seeds in
      let (layered, saved) = new_list-IsSaved file seeds in
      let (layered', saved', config) = run-IsSaved changes l layered saved in
      (
        saved'.contents,
        saved'.path,
        λ q.
            let again : DomainList = new_list saved'.contents seeds in
            let config' : again.config ≡ l.config =
              (new_list-user saved'.contents seeds []).1
              ∙ seed-config seeds _ _ refl
              ∙ sym (new_list-user file seeds []).1 in
            find_normalized_same q again (run changes l) (config' ∙ sym config) (λ d.
              let (user, kept, path) = new_list-user saved'.contents seeds d in
              let first : has d again.config ≡ has d (run changes l).config =
                ap (has d) (config' ∙ sym config) in
              let second : has d again.config ≡ has d (seeded saved'.contents seeds).config =
                ap (has d) kept in
              ground (arith, user, first, second, saved'.synced d)),
      )
