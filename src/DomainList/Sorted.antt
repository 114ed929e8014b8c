-- ===== src/DomainList/Sorted.antt =====
-- The sort of a list of domains keeps its members.
use numa.Prelude.{arith, ◌||◌, Bool-cases, ◌=?◌, All, ◌≡◌, refl, inl, inr, [], ◌∷◌, List, bytes_key}
use numa.DomainList.{text_le, sort, insert_text}
use numa.Set.{delete, has}
use numa.Text.{Text}

has-insert_text : (j d : Text) (es : List Text) → has j (insert_text d es) ≡ (d =? j) || has j es
unfolding has insert_text
has-insert_text j d [] = refl
has-insert_text j d (e ∷ es) = ground (arith, has-insert_text j d es)

pub has-sort : (j : Text) (ds : List Text) → has j (sort ds) ≡ has j ds
unfolding has sort
has-sort j [] = refl
has-sort j (d ∷ ds) = rw (has-insert_text j d (sort ds), has-sort j ds) refl

All-insert_text :
    (P : Text → Type 0) (d : Text) (es : List Text) → P d → All P es → All P (insert_text d es)
unfolding insert_text
All-insert_text P d [] h k = (h, tt)
All-insert_text P d (e ∷ es) h k = elim (Bool-cases (text_le d e)) [
  | inl first ↦ rw first (h, k)
  | inr later ↦ rw later (k.0, All-insert_text P d es h k.1)
]

pub All-sort : (P : Text → Type 0) (ds : List Text) → All P ds → All P (sort ds)
unfolding sort
All-sort P [] h = tt
All-sort P (d ∷ ds) h = All-insert_text P d (sort ds) h.0 (All-sort P ds h.1)

pub All-delete : (P : Text → Type 0) (d : Text) (es : List Text) → All P es → All P (delete d es)
unfolding delete
All-delete P d [] h = tt
All-delete P d (e ∷ es) h = elim (Bool-cases (e =? d)) [
  | inl here ↦ rw (here) (All-delete P d es h.1)
  | inr later ↦ rw later (h.0, All-delete P d es h.1)
]
