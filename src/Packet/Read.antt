-- ===== src/Packet/Read.antt =====
-- `DnsPacket::from_buffer` on the wire form of a message.
use numa.Buffer.Words.{be32, take_bytes-Reads, read_u32-Reads, read_u16-Reads, be16}
use numa.Prelude.{
  length-append, append_assoc, sym, subst, ap, ◌∙◌, ◌≢◌, ◌<◌, if◌then◌else◌, arith, ◌≤◌, ◌==◌, ◌+◌,
  ◌++◌, Option, ◌≡◌, length, ◌^◌, ◌/◌, All, bit_and, List, ℕ, refl, suc, true, false, none, some,
  inl, inr, [], ◌∷◌,
}
use numa.Buffer.Codec.{Holds-append, Holds-at, Reads-last, Reads-then, Reads-pure, Holds, Reads}
use numa.Exec.{bind_ok, Exec, ◌>>=◌}
use numa.Record.{rdata_type, read_record, DnsRecord}
use numa.Question.{to_num, read_question, DnsQuestion}
use numa.Question.RoundTrip.{
  text_wire, text_wire_head, question_wire, read_question-Reads, IsQuestion,
}
use numa.Prelude.Bits.{low_bit, low_byte}
use numa.Packet.Write.{edns_flags_fit}
use numa.Buffer.{step, buf_size, Bytes, Buffer, get}
use numa.Error.{ok}
use numa.Record.RoundTrip.{read_record-Reads}
use numa.Packet.{edns_count, peek_opt, read_resources, EdnsOpt, read_list, read_opt}
use numa.Packet.Valid.{
  IsOption, records_wire, questions_wire, IsPlain, edns_wire, edns_flags, IsEdns,
}
use numa.Record.Valid.{record_wire, IsRecord}

pub read_questions-Reads :
    (p : ℕ) (qs : List DnsQuestion) (h : All IsQuestion qs)
    → Reads p (read_list (length qs) read_question) qs (questions_wire qs h)
unfolding read_list
read_questions-Reads p [] h = Reads-pure p [] [] refl
read_questions-Reads p (q ∷ qs) h =
    Reads-then _ (read_question-Reads p q h.0)
      (Reads-last _ (q ∷ qs) (read_questions-Reads (p + length (question_wire q h.0)) qs h.1) refl)

pub read_records-Reads :
    (p : ℕ) (rs : List DnsRecord) (h : All IsRecord rs)
    → Reads p (read_list (length rs) read_record) rs (records_wire rs h)
unfolding read_list
read_records-Reads p [] h = Reads-pure p [] [] refl
read_records-Reads p (r ∷ rs) h =
    Reads-then _ (read_record-Reads p r h.0)
      (Reads-last _ (r ∷ rs) (read_records-Reads (p + length (record_wire r h.0)) rs h.1) refl)

-- The flags of an OPT record come apart again.
edns_flags_read :
    (e : EdnsOpt)
    → IsEdns e
    → (bit_and (edns_flags e / 2 ^ 24) 0xff ≡ e.extended_rcode)
      × (bit_and (edns_flags e / 2 ^ 16) 0xff ≡ e.version)
      × ((bit_and (edns_flags e / 2 ^ 15) 1 == 1) ≡ e.do_bit)
edns_flags_read e h =
    let f : ℕ = edns_flags e in
    let rest : (if e.do_bit then 32768 else 0) < 65536 = ground arith in
    (
      omega (arith, low_byte (f / 2 ^ 24), h.extended_rcode, h.version),
      omega (arith, low_byte (f / 2 ^ 16), h.extended_rcode, h.version),
      ground (arith, low_bit (f / 2 ^ 15), h.extended_rcode, h.version),
    )

step-Reads : (p x : ℕ) → Reads p (step 1) tt (x ∷ [])
unfolding step
step-Reads p x = record { at = λ b here holds room. ground (arith, here) }

read_opt-Reads : (p : ℕ) (e : EdnsOpt) → IsEdns e → Reads p read_opt e (edns_wire (some e))
unfolding read_opt
read_opt-Reads p e h =
    let (code, version, bit) = edns_flags_read e h in
    Reads-then _ (step-Reads p 0) (
      Reads-then _ (read_u16-Reads _ 41 (omega arith)) (
        Reads-then _ (read_u16-Reads _ _ h.udp_payload_size) (
          Reads-then _ (read_u32-Reads _ _ (edns_flags_fit e h)) (
            Reads-then _ (read_u16-Reads _ _ h.size) (
              Reads-last _ e (take_bytes-Reads _ e.options) (λ i. record {
                udp_payload_size = e.udp_payload_size;
                extended_rcode = code i;
                version = version i;
                do_bit = bit i;
                options = e.options;
              }))))))

-- Peeking decides by the first byte and, after a root name, by the type.
peek_opt_root :
    (b : Buffer) (n : ℕ) (xs : Bytes)
    → n < 2 ^ 16
    → Holds b.buf b.pos (0 ∷ (be16 n ++ xs))
    → b.pos + 3 ≤ buf_size
    → peek_opt b ≡ (ok (n == 41), b)
unfolding peek_opt get ◌>>=◌
peek_opt_root b n xs fits holds room = ground (arith, holds.0, holds.1.0, holds.1.1.0)

peek_opt_named :
    (b : Buffer) (x : ℕ) → x ≢ 0 → b.buf b.pos ≡ x → b.pos < buf_size → peek_opt b ≡ (ok false, b)
unfolding peek_opt get ◌>>=◌
peek_opt_named b x other here room = ground (arith, here)

record_tail :
    (r : DnsRecord) (h : IsRecord r)
    → (ys : Bytes) × (record_wire r h
        ≡ text_wire r.domain h.domain ++ (be16 (to_num (rdata_type r.rdata)) ++ ys))
unfolding record_wire
record_tail r h = (_, refl)

-- A plain record is not taken for an OPT record.
peek_opt_plain :
    (b : Buffer) (r : DnsRecord) (h : IsRecord r)
    → IsPlain r
    → Holds b.buf b.pos (record_wire r h)
    → b.pos + length (record_wire r h) ≤ buf_size
    → peek_opt b ≡ (ok false, b)
peek_opt_plain b r h plain holds room =
    let (ys, whole) = record_tail r h in
    let num : ℕ = to_num (rdata_type r.rdata) in
    elim (text_wire_head r.domain h.domain) [
      | inl (root, wire) ↦
          let all : record_wire r h ≡ 0 ∷ (be16 num ++ ys) =
            whole ∙ ap (λ (zs : Bytes). zs ++ (be16 num ++ ys)) wire in
          let found : peek_opt b ≡ (ok (num == 41), b) =
            peek_opt_root b num ys h.number (subst (λ (zs : Bytes). Holds b.buf b.pos zs) all holds)
              (let size : length (record_wire r h) ≡ suc (suc (suc (length ys))) = ap length all in
                omega arith) in
          found ∙ ground (arith, plain root)
      | inr (x, xs, wire, other) ↦
          let all : record_wire r h ≡ x ∷ (xs ++ (be16 num ++ ys)) =
            whole ∙ ap (λ (zs : Bytes). zs ++ (be16 num ++ ys)) wire in
          peek_opt_named b x other (subst (λ (zs : Bytes). Holds b.buf b.pos zs) all holds).0 (
            let size : length (record_wire r h) ≡ suc (length (xs ++ (be16 num ++ ys))) =
              ap length all in
            omega arith)
    ]

-- A step that only looks, before a reader.
Reads-peek :
    {A B : Type 0} {p : ℕ} {r : Exec Buffer A} {v : A} {u : B} {xs : Bytes} (f : A → Exec Buffer B)
    → ((b : Buffer) → b.pos ≡ p → Holds b.buf p xs → p + length xs ≤ buf_size → r b ≡ (ok v, b))
    → Reads p (f v) u xs
    → Reads p (r >>= f) u xs
Reads-peek {r = r} f look hf = record {
  at = λ b here holds room. bind_ok r f b (look b here holds room) ∙ hf.at b here holds room;
}

pub read_resources-Reads :
    (p : ℕ) (rs : List DnsRecord) (h : All IsRecord rs) (plain : All IsPlain rs)
    (o : Option EdnsOpt)
    → IsOption o
    → Reads p
        (read_resources (length rs + edns_count o) none)
        (rs, o)
        (records_wire rs h ++ edns_wire o)
unfolding read_resources
read_resources-Reads p [] h plain none ho = Reads-pure p ([], none) ([], none) refl
read_resources-Reads p [] h plain (some e) ho =
    Reads-peek {v = true} _
      (λ b here holds room.
        peek_opt_root b 41
          (be16 e.udp_payload_size
            ++ (be32 (edns_flags e) ++ (be16 (length e.options) ++ e.options)))
          (omega arith) (Holds-at b.buf _ _ (edns_wire (some e)) (sym here) holds) (omega arith))
      (Reads-last _ ([], some e) (read_opt-Reads p e ho) refl)
read_resources-Reads p (r ∷ rs) h plain o ho =
    let count : suc (length rs) + edns_count o ≡ suc (length rs + edns_count o) = omega arith in
    rw (count, append_assoc (record_wire r h.0) (records_wire rs h.1) (edns_wire o))
      (Reads-peek {v = false} _
        (λ b here holds room.
          let (front, back) = Holds-append b.buf p (record_wire r h.0) _ holds in
          peek_opt_plain b r h.0 plain.0 (Holds-at _ _ _ _ (sym here) front)
            (omega (arith, length-append (record_wire r h.0) (records_wire rs h.1 ++ edns_wire o))))
        (Reads-then _ (read_record-Reads p r h.0) (
          Reads-last _ (r ∷ rs, o)
            (read_resources-Reads (p + length (record_wire r h.0)) rs h.1 plain.1 o ho) refl)))
