-- ===== src/Wire/Msg/Taken.antt =====
-- mongowire/src/messages/op_msg.rs: what the parser's steps took off the body: documents, one
-- sequence, one section, all sections.
use mongowire.Base.{
  ℕ, zero, suc, ◌+◌, ◌-◌, ◌%◌, ◌<◌, ◌≤◌, ◌^◌, ◌≡◌, refl, sym, ap, ◌∙◌, true, false, not, some, List,
  ◌∷◌, ◌++◌, append_assoc, Bytes, AreBytes, IsByte, length, drop, ltb, leb, ◌==◌, ok, guard,
  bind_ok, if_ok, guard-eq-ok, leb→le, arith, Option-cases, inl, inr, is_utf8, contains_nul,
  from_le, from_le-lt, to_le, to_le-from_le, position_nul, position_nul-some, position_nul-take,
  All, All-take, All-drop, length-drop, length-append, drop-add,
}
use native.Mathlib.Numerals.{add-one}
use mongowire.Bson.{RawDocument}
use mongowire.Bson.Raw.{IsRaw}
use mongowire.Bson.Scan.{slice}
use mongowire.Wire.{invalid_op_msg}
use mongowire.Wire.Sections.{DocumentSequence, documents_len, take_document}
use mongowire.Wire.Sections.Slices.{take_document-ok, slice-drop, length-slice}
use mongowire.Wire.Msg.{take_documents, sequence_at, parse_sequence}
use mongowire.Wire.Msg.Written.{
  documents_bytes, sequence_bytes, sequence_len, length-documents_bytes,
}

abbrev pub AreRaw : List RawDocument → Type 0
AreRaw = All (λ d. IsRaw d.bytes)

-- A sequence as the parser accepts it.
abbrev pub IsSequence : DocumentSequence → Type 0
IsSequence seq =
    (contains_nul seq.identifier ≡ false)
    × (is_utf8 seq.identifier ≡ true)
    × AreRaw seq.documents
    × (9 ≤ sequence_len seq)
    × (sequence_len seq < 2 ^ 32)

pub take_documents-ok :
    (fuel : ℕ) (body : Bytes) (offset sec_end rest final : ℕ) (docs : List RawDocument)
    → take_documents fuel body offset sec_end rest ≡ ok (docs, final)
    → rest ≡ sec_end - offset
    → offset ≤ sec_end
    → sec_end ≤ length body
    → (final ≡ sec_end) × (drop offset body ≡ documents_bytes docs ++ drop final body) × AreRaw docs
unfolding take_documents
take_documents-ok zero body offset sec_end rest final docs h hr ho he = cc
take_documents-ok (suc fuel) body offset sec_end rest final docs h hr ho he =
    if_ok (rest == 0) h (λ e f. ground arith)
      λ e f. bind_ok (take_document body offset sec_end) _ f λ p e1 f1.
        bind_ok (take_documents fuel body p.1 sec_end (rest - (p.1 - offset))) _ f1 λ q e2 f2.
          let (n, le, cut, raw) = take_document-ok body offset sec_end p.1 p.0 e1 he in
          let (fin, more, raws) =
            take_documents-ok fuel body p.1 sec_end (rest - (p.1 - offset)) q.1 q.0 e2 (omega arith)
              le he in
          ground (arith, f2, append_assoc p.0.bytes (documents_bytes q.0) (drop q.1 body))

sequence_at-ok :
    (body : Bytes) (offset sec_end ident_len final : ℕ) (seq : DocumentSequence)
    → sequence_at body offset sec_end ident_len ≡ ok (seq, final)
    → offset + (ident_len + 1) ≤ sec_end
    → sec_end ≤ length body
    → (final ≡ sec_end)
      × (seq.identifier ≡ slice offset (offset + ident_len) body)
      × (is_utf8 seq.identifier ≡ true)
      × (drop (offset + (ident_len + 1)) body ≡ documents_bytes seq.documents ++ drop sec_end body)
      × AreRaw seq.documents
unfolding sequence_at
sequence_at-ok body offset sec_end ident_len final seq h ho he =
    let identifier = slice offset (offset + ident_len) body in
    bind_ok (guard (is_utf8 identifier) (invalid_op_msg "invalid UTF-8 in section identifier")) _ h
      λ u e f.
        bind_ok (take_documents (suc (length body)) body (offset + (ident_len + 1)) sec_end _) _ f
          λ q e2 f2.
            let (fin, cut, raws) =
              take_documents-ok (suc (length body)) body _ sec_end _ q.1 q.0 e2 refl ho he in
            ground (arith, f2)

-- The identifier and its NUL, in front of what follows them.
ident_cut :
    (body : Bytes) (start sec_end ident_len : ℕ)
    → position_nul (slice start sec_end body) ≡ some ident_len
    → start ≤ sec_end
    → sec_end ≤ length body
    → (contains_nul (slice start (start + ident_len) body) ≡ false)
      × (drop start body
          ≡ slice start (start + ident_len) body ++ 0 ∷ drop (start + (ident_len + 1)) body)
      × (start + (ident_len + 1) ≤ sec_end)
ident_cut body start sec_end ident_len h hs he =
    let n : start + ident_len - start ≡ ident_len = omega arith in
    let (first, less) = position_nul-take (sec_end - start) (drop start body) ident_len h in
    let (clean, cut, within) = position_nul-some (drop start body) ident_len first in
    rw (n, drop-add start (ident_len + 1) body, add-one) (clean, cut, omega arith)

-- Four bytes at the offset, as the word that they encode.
pub word_cut :
    (body : Bytes) (offset : ℕ)
    → AreBytes body
    → offset + 4 ≤ length body
    → (drop offset body
        ≡ to_le 4 (from_le (slice offset (offset + 4) body)) ++ drop (offset + 4) body)
      × (from_le (slice offset (offset + 4) body) < 2 ^ 32)
word_cut body offset hb h =
    let bytes =
      All-take IsByte (offset + 4 - offset) (drop offset body) (All-drop IsByte offset body hb) in
    let n = length-slice offset 4 body h in
    (
      slice-drop offset 4 body
          ∙ ap (λ t. t ++ drop (offset + 4) body)
              (sym (rw n at (to_le-from_le (slice offset (offset + 4) body) bytes))),
      rw n at (from_le-lt (slice offset (offset + 4) body) bytes),
    )

-- The bytes that the documents of a sequence take.
sequence_sized :
    (body : Bytes) (seq : DocumentSequence) (from to : ℕ)
    → drop from body ≡ documents_bytes seq.documents ++ drop to body
    → from ≤ to
    → to ≤ length body
    → from + documents_len seq.documents ≡ to
sequence_sized body seq from to h hf ht = omega (
  arith,
  ap length h,
  length-append (documents_bytes seq.documents) (drop to body),
  length-documents_bytes seq.documents,
  length-drop from body,
  length-drop to body,
)

-- The pieces of a sequence, put together.
sequence_joined :
    (body : Bytes) (seq : DocumentSequence) (raw_size offset start from to : ℕ)
    → drop offset body ≡ to_le 4 raw_size ++ drop start body
    → drop start body ≡ seq.identifier ++ 0 ∷ drop from body
    → drop from body ≡ documents_bytes seq.documents ++ drop to body
    → drop offset body
      ≡ (to_le 4 raw_size ++ (seq.identifier ++ 0 ∷ documents_bytes seq.documents)) ++ drop to body
sequence_joined body seq raw_size offset start from to h1 h2 h3 =
    rw (h1, h2, h3) (simp append_assoc)

module _ (body : Bytes) (hb : AreBytes body) (end : ℕ) (he : end ≤ length body) where
  pub parse_sequence-ok :
      (offset next : ℕ) (seq : DocumentSequence)
      → parse_sequence body end offset ≡ ok (seq, next)
      → (offset < next)
        × (next ≤ end)
        × (drop offset body ≡ sequence_bytes seq ++ drop next body)
        × IsSequence seq
  unfolding parse_sequence
  parse_sequence-ok offset next seq h =
      let raw_size = from_le (slice offset (offset + 4) body) in
      let start = offset + 4 in
      let sec_end = start + (raw_size - 4) in
      bind_ok (guard (leb offset end) (invalid_op_msg "section cursor overran its end")) _ h
        λ u1 e1 f1.
          bind_ok (guard (not (ltb (end - offset) 4)) (invalid_op_msg "truncated section size")) _
            f1
            λ u2 e2 f2.
              bind_ok (guard (not (ltb raw_size 9)) (invalid_op_msg "section size too small")) _ f2
                λ u3 e3 f3.
                  bind_ok
                    (guard (not (ltb (end - offset - 4) (raw_size - 4)))
                      (invalid_op_msg "section exceeds the message"))
                    _ f3
                    λ u4 e4 f4.
                      let g1 = leb→le offset end (guard-eq-ok _ _ e1) in
                      let g2 : 4 ≤ end - offset = ground arith in
                      let g3 : 9 ≤ raw_size = ground arith in
                      let g4 : raw_size - 4 ≤ end - offset - 4 = ground arith in
                      elim (Option-cases (position_nul (slice start sec_end body))) [
                        | inl n ↦ ground arith
                        | inr (ident_len, n) ↦
                            let at : sequence_at body start sec_end ident_len ≡ ok (seq, next) =
                              ground arith in
                            let (word, small) = word_cut body offset hb (omega arith) in
                            let (clean, icut, within) =
                              ident_cut body start sec_end ident_len n (omega arith)
                                (omega arith) in
                            let (fin, same, utf, dcut, raws) =
                              sequence_at-ok body start sec_end ident_len next seq at within
                                (omega arith) in
                            let len : length seq.identifier ≡ ident_len =
                              rw same (length-slice start ident_len body (omega arith)) in
                            let sized =
                              sequence_sized body seq (start + (ident_len + 1)) sec_end dcut within
                                (omega arith) in
                            let total : sequence_len seq ≡ raw_size = omega arith in
                            let narrow : raw_size % 2 ^ 32 ≡ raw_size = omega arith in
                            rw (fin, total, narrow)
                              (
                                omega arith,
                                omega arith,
                                sequence_joined body seq raw_size offset start
                                    (start + (ident_len + 1)) sec_end word (rw (← same) at icut)
                                    dcut,
                                (rw (← same) at clean, utf, raws, g3, small),
                              )
                      ]
