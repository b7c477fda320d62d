-- ===== src/Wire/Msg/Walked.antt =====
-- mongowire/src/messages/op_msg.rs: what one section, and the loop over the sections, took off the
-- body.
use mongowire.Base.{
  ℕ, zero, suc, ◌+◌, ◌<◌, ◌≤◌, ◌≡◌, sym, ap, ◌∙◌, none, some, List, [], ◌∷◌, ◌++◌, append_assoc,
  append-nil, Bytes, AreBytes, length, drop, get_elem?, ◌==◌, if◌then◌else◌, ok, ◌>>=◌, bind_ok,
  if_ok, ==→eq, arith, Option-cases, inl, inr, All, All-append,
}
use mongowire.Bson.Raw.{IsRaw}
use mongowire.Wire.Sections.{DocumentSequence, take_document}
use mongowire.Wire.Sections.Slices.{take_document-ok}
use mongowire.Wire.Msg.{parse_document, parse_sequence, parse_section, parse_sections, Read}
use mongowire.Wire.Msg.Written.{sequences_bytes, sequence_bytes}
use mongowire.Wire.Msg.Taken.{IsSequence, parse_sequence-ok}

abbrev pub read_bytes : Read → Bytes
read_bytes (none, seqs) = sequences_bytes seqs
read_bytes (some d, seqs) = 0 ∷ (d.bytes ++ sequences_bytes seqs)

-- The document read is valid, and so is each sequence.
abbrev pub IsRead : Read → Type 0
IsRead (none, seqs) = All IsSequence seqs
IsRead (some d, seqs) = IsRaw d.bytes × All IsSequence seqs

pub get_elem?-drop : (b : Bytes) (i x : ℕ) → get_elem? b i ≡ some x → drop i b ≡ x ∷ drop (i + 1) b
get_elem?-drop [] i x h = cc
get_elem?-drop (y ∷ b) zero x h = ground arith
get_elem?-drop (y ∷ b) (suc i) x h =
    let n : suc i + 1 ≡ suc (i + 1) = omega arith in rw n (get_elem?-drop b i x h)

sequences_bytes-snoc :
    (seqs : List DocumentSequence) (seq : DocumentSequence)
    → sequences_bytes (seqs ++ seq ∷ []) ≡ sequences_bytes seqs ++ 1 ∷ sequence_bytes seq
sequences_bytes-snoc [] seq = ap (λ t. 1 ∷ t) (append-nil (sequence_bytes seq))
sequences_bytes-snoc (s ∷ seqs) seq = rw (sequences_bytes-snoc seqs seq) (
    ap (λ t. 1 ∷ t)
      (sym (append_assoc (sequence_bytes s) (sequences_bytes seqs) (1 ∷ sequence_bytes seq))))

-- One more sequence behind what was read.
push_bytes :
    (acc : Read) (seq : DocumentSequence) (rest tail : Bytes)
    → rest ≡ sequence_bytes seq ++ tail
    → read_bytes (acc.0, acc.1 ++ seq ∷ []) ++ tail ≡ read_bytes acc ++ 1 ∷ rest
push_bytes (none, seqs) seq rest tail h = rw (h, sequences_bytes-snoc seqs seq) (simp append_assoc)
push_bytes (some d, seqs) seq rest tail h =
    rw (h, sequences_bytes-snoc seqs seq) (simp append_assoc)

push_IsRead :
    (acc : Read) (seq : DocumentSequence)
    → IsRead acc
    → IsSequence seq
    → IsRead (acc.0, acc.1 ++ seq ∷ [])
push_IsRead (none, seqs) seq h k = All-append IsSequence seqs (seq ∷ []) h (k, tt)
push_IsRead (some d, seqs) seq (r, h) k = (r, All-append IsSequence seqs (seq ∷ []) h (k, tt))

module _ (body : Bytes) (hb : AreBytes body) (end : ℕ) (he : end ≤ length body) where
  parse_document-ok :
      (offset next : ℕ) (acc acc' : Read)
      → parse_document body end offset acc ≡ ok (acc', next)
      → (offset < next)
        × (next ≤ end)
        × (read_bytes acc' ++ drop next body ≡ read_bytes acc ++ 0 ∷ drop offset body)
        × (IsRead acc → IsRead acc')
  unfolding parse_document
  parse_document-ok offset next (some d, seqs) acc' h = cc
  parse_document-ok offset next (none, s ∷ seqs) acc' h = cc
  parse_document-ok offset next (none, []) acc' h =
      bind_ok (take_document body offset end) _ h λ p e f.
        let (n, le, cut, raw) = take_document-ok body offset end p.1 p.0 e he in
        let (ea, en) : (acc' ≡ (some p.0, [])) × (next ≡ p.1) = ground (arith, f) in
        rw (ea, en)
          (
            omega (arith, raw.0),
            le,
            ap (λ t. 0 ∷ t) (rw (cut, append-nil p.0.bytes)),
            λ t. (raw, tt),
          )

  pub parse_section-ok :
      (kind offset next : ℕ) (acc acc' : Read)
      → parse_section kind body end offset acc ≡ ok (acc', next)
      → (offset < next)
        × (next ≤ end)
        × (read_bytes acc' ++ drop next body ≡ read_bytes acc ++ kind ∷ drop offset body)
        × (IsRead acc → IsRead acc')
  unfolding parse_section
  parse_section-ok kind offset next acc acc' h =
      if_ok (kind == 0) h (λ e f. rw (==→eq kind 0 e) (parse_document-ok offset next acc acc' f))
        λ e f.
          if_ok (kind == 1) f
            (λ e1 f1. bind_ok (parse_sequence body end offset) _ f1 λ p e2 f3.
              let (more, le, cut, good) = parse_sequence-ok body hb end he offset p.1 p.0 e2 in
              let (ea, en) : (acc' ≡ (acc.0, acc.1 ++ p.0 ∷ [])) × (next ≡ p.1) =
                ground (arith, f3) in
              rw (ea, en, ==→eq kind 1 e1)
                (
                  more,
                  le,
                  push_bytes acc p.0 (drop offset body) (drop p.1 body) cut,
                  λ t. push_IsRead acc p.0 t good,
                ))
            λ e1 f1. cc

  pub parse_sections-ok :
      (fuel offset : ℕ) (acc acc' : Read)
      → parse_sections fuel body end offset acc ≡ ok acc'
      → (read_bytes acc' ++ drop end body ≡ read_bytes acc ++ drop offset body)
        × (IsRead acc → IsRead acc')
  unfolding parse_sections
  parse_sections-ok zero offset acc acc' h = cc
  parse_sections-ok (suc fuel) offset acc acc' h = elim (Option-cases (get_elem? body offset)) [
    | inl e ↦ ground arith
    | inr (kind, e) ↦
        let h' : (◌>>=◌ {B = Read} (parse_section kind body end (offset + 1) acc)
              λ p. if p.1 == end then ok p.0 else parse_sections fuel body end p.1 p.0)
            ≡ ok acc' =
          ground (arith, h, e) in
        bind_ok (parse_section kind body end (offset + 1) acc) _ h' λ p e1 f1.
          let (more, le, cut, keeps) = parse_section-ok kind (offset + 1) p.1 acc p.0 e1 in
          let at = get_elem?-drop body offset kind e in
          if_ok (p.1 == end) f1
            (λ e2 f2.
              let ea : acc' ≡ p.0 = ground (arith, f2) in
              rw (ea, at, ← ==→eq p.1 end e2) (cut, keeps))
            λ e2 f2.
              let (cut', keeps') = parse_sections-ok fuel p.1 p.0 acc' f2 in
              (cut' ∙ rw at cut, λ t. keeps' (keeps t))
  ]
