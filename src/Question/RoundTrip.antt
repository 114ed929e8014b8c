-- ===== src/Question/RoundTrip.antt =====
-- A question's wire form, and `read` after `write`.
-- A text that a name prints to.
use numa.Buffer.Trip.{Reads-from_bytes, Writes-Sends, Sends}
use numa.Error.{ok}
use numa.Buffer.{from_bytes, buf_size, write_u16, read_u16, Bytes}
use numa.Prelude.{
  ◌≤◌, length, sym, ◌≢◌, ◌⊎◌, refl, inl, inr, ◌∷◌, arith, ◌^◌, ◌≡◌, ◌<◌, subst, ◌++◌, ℕ, [],
}
use numa.Buffer.Codec.{Reads-pure, Writes-bind, Reads-bind, Writes, Reads}
use numa.Buffer.Words.{write_u16-Writes, read_u16-Reads, be16}
use numa.Buffer.Name.Read.{read_qname-Reads}
use numa.Buffer.Name.Write.{write_qname-Writes}
use numa.Buffer.Name.Text.{name_text, IsName, Name, name_wire}
use numa.Question.{to_num, DnsQuestion, read_question, write_question}
use numa.Buffer.Name.{write_qname, read_qname}
use numa.Question.Types.{IsCanonical}

pub record IsText (t : Bytes) : Type 0 where
  pub labels : Name
  pub valid : IsName labels
  pub prints : name_text labels ≡ t

unfoldable pub text_wire : (t : Bytes) → IsText t → Bytes
text_wire t h = name_wire h.labels

pub write_text-Writes : (t : Bytes) (h : IsText t) → Writes (write_qname t) tt (text_wire t h)
unfolding text_wire
write_text-Writes t h =
    subst (λ (s : Bytes). Writes (write_qname s) tt (name_wire h.labels)) h.prints
      (write_qname-Writes h.labels h.valid)

pub read_text-Reads : (p : ℕ) (t : Bytes) (h : IsText t) → Reads p read_qname t (text_wire t h)
unfolding text_wire
read_text-Reads p t h =
    subst (λ (s : Bytes). Reads p read_qname s (name_wire h.labels)) h.prints
      (read_qname-Reads p h.labels h.valid)

-- The first byte of a name's wire form is zero at the root alone.
pub text_wire_head :
    (t : Bytes) (h : IsText t)
    → ((t ≡ []) × (text_wire t h ≡ 0 ∷ []))
      ⊎ ((x : ℕ) × (xs : Bytes) × (text_wire t h ≡ x ∷ xs) × (x ≢ 0))
unfolding text_wire name_wire name_text
text_wire_head t h = head h.labels h.valid h.prints
  where
    head :
        (n : Name)
        → IsName n
        → name_text n ≡ t
        → ((t ≡ []) × (name_wire n ≡ 0 ∷ []))
          ⊎ ((x : ℕ) × (xs : Bytes) × (name_wire n ≡ x ∷ xs) × (x ≢ 0))
    head [] valid prints = inl (sym prints, refl)
    head (l ∷ ls) valid prints =
        inr (length l, l ++ name_wire ls, refl, omega (arith, valid.0.not_empty))

pub record IsQuestion (q : DnsQuestion) : Type 0 where
  pub name : IsText q.name
  pub canonical : IsCanonical q.qtype
  pub number : to_num q.qtype < 2 ^ 16

unfoldable pub question_wire : (q : DnsQuestion) → IsQuestion q → Bytes
question_wire q h = text_wire q.name h.name ++ (be16 (to_num q.qtype) ++ be16 1)

pub write_question-Writes :
    (q : DnsQuestion) (h : IsQuestion q) → Writes (write_question q) tt (question_wire q h)
unfolding write_question question_wire
write_question-Writes q h =
    Writes-bind (write_qname q.name) _ tt tt _ _ (write_text-Writes q.name h.name) (
      Writes-bind (write_u16 (to_num q.qtype)) _ tt tt _ _ (write_u16-Writes _ h.number)
        (write_u16-Writes 1 (omega arith)))

pub read_question-Reads :
    (p : ℕ) (q : DnsQuestion) (h : IsQuestion q) → Reads p read_question q (question_wire q h)
unfolding read_question question_wire
read_question-Reads p q h =
    Reads-bind p read_qname _ q.name q (text_wire q.name h.name) _ (read_text-Reads p q.name h.name)
      (Reads-bind _ read_u16 _ (to_num q.qtype) q (be16 (to_num q.qtype)) _
        (read_u16-Reads _ _ h.number)
        (Reads-bind _ read_u16 _ 1 q (be16 1) [] (read_u16-Reads _ _ (omega arith))
          (Reads-pure _ _ q (λ i. record { name = q.name; qtype = h.canonical i }))))

-- A valid question whose wire form fits the buffer: `write` on a new buffer returns, `filled` gives
-- the wire form, and `read` on those bytes gives the question back.
pub write_question-read_question :
    (q : DnsQuestion) (h : IsQuestion q)
    → length (question_wire q h) ≤ buf_size
    → Sends (write_question q) tt (question_wire q h)
      × ((read_question (from_bytes (question_wire q h))).0 ≡ ok q)
write_question-read_question q h fits = (
  Writes-Sends (write_question-Writes q h) fits,
  Reads-from_bytes (read_question-Reads 0 q h) fits,
)
