-- ===== src/Wire/Msg/Placed.antt =====
-- mongowire/src/messages/op_msg.rs: a sequence that stands at an offset of the body is parsed there.
use mongowire.Base.{
  ℕ, zero, suc, ◌+◌, ◌-◌, ◌%◌, ◌<◌, ◌≤◌, ◌^◌, ◌≡◌, refl, sym, ap, ◌∙◌, List, [], ◌∷◌, ◌++◌,
  append_assoc, Bytes, length, drop, ok, from_le, to_le, from_le-to_le, length-to_le, length-append,
  arith, position_nul-append, i32_half, ne→==,
}
use mongowire.Bson.{RawDocument}
use mongowire.Bson.Scan.{slice}
use mongowire.Wire.Sections.{DocumentSequence, documents_len}
use mongowire.Wire.Sections.Slices.{take_document-at, slice-at, drop-at}
use mongowire.Wire.Msg.{take_documents, sequence_at, parse_sequence}
use mongowire.Wire.Msg.Written.{
  documents_bytes, sequence_len, sequence_bytes, length-documents_bytes,
}
use mongowire.Wire.Msg.Taken.{AreRaw, IsSequence}

-- A valid document is at least five bytes long.
take_documents-at :
    (docs : List RawDocument) (fuel : ℕ) (body rest : Bytes) (offset sec_end : ℕ)
    → drop offset body ≡ documents_bytes docs ++ rest
    → AreRaw docs
    → documents_len docs < i32_half
    → sec_end ≡ offset + documents_len docs
    → documents_len docs < fuel
    → take_documents fuel body offset sec_end (sec_end - offset) ≡ ok (docs, sec_end)
unfolding take_documents documents_len
take_documents-at docs zero body rest offset sec_end at raws small he hf = absurd (omega arith)
take_documents-at [] (suc fuel) body rest offset sec_end at raws small he hf = ground arith
take_documents-at (d ∷ docs) (suc fuel) body rest offset sec_end at (raw, raws) small he hf =
    let at1 = at ∙ append_assoc d.bytes (documents_bytes docs) rest in
    let one =
      take_document-at body (documents_bytes docs ++ rest) offset sec_end d at1 raw (omega arith)
        (omega arith) in
    let ih =
      take_documents-at docs fuel body rest (offset + length d.bytes) sec_end
        (drop-at offset body d.bytes (documents_bytes docs ++ rest) at1) raws (omega arith)
        (omega arith) (omega (arith, raw.0)) in
    let more = ne→== (sec_end - offset) 0 (omega (arith, raw.0)) in
    let left : sec_end - offset - (offset + length d.bytes - offset)
        ≡ sec_end - (offset + length d.bytes) =
      omega arith in
    rw (more, one, left, ih) refl

-- What stands behind an identifier and its NUL.
behind_nul :
    (body : Bytes) (start : ℕ) (name tail : Bytes)
    → drop start body ≡ name ++ 0 ∷ tail
    → drop (start + (length name + 1)) body ≡ tail
behind_nul body start name tail h =
    let n : length (name ++ 0 ∷ []) ≡ length name + 1 =
      omega (arith, length-append name (0 ∷ [])) in
    rw n at (drop-at start body (name ++ 0 ∷ []) tail (h ∙ sym (append_assoc name (0 ∷ []) tail)))

sequence_at-at :
    (body rest : Bytes) (start sec_end : ℕ) (seq : DocumentSequence)
    → drop start body ≡ seq.identifier ++ 0 ∷ (documents_bytes seq.documents ++ rest)
    → IsSequence seq
    → documents_len seq.documents < i32_half
    → sec_end ≡ start + (length seq.identifier + 1) + documents_len seq.documents
    → sec_end ≤ length body
    → sequence_at body start sec_end (length seq.identifier) ≡ ok (seq, sec_end)
unfolding sequence_at
sequence_at-at body rest start sec_end seq at (clean, utf, raws, low, high) small hs he =
    let ident =
      slice-at start body seq.identifier (0 ∷ (documents_bytes seq.documents ++ rest)) at in
    let docs =
      take_documents-at seq.documents (suc (length body)) body rest
        (start + (length seq.identifier + 1)) sec_end
        (behind_nul body start seq.identifier (documents_bytes seq.documents ++ rest) at) raws small
        hs (omega arith) in
    rw (ident, utf, docs) refl

-- The word that stands at the offset.
pub word_at :
    (body tail : Bytes) (offset v : ℕ)
    → drop offset body ≡ to_le 4 v ++ tail
    → v < 2 ^ 32
    → (from_le (slice offset (offset + 4) body) ≡ v) × (drop (offset + 4) body ≡ tail)
word_at body tail offset v h hv = (
  ap from_le (rw (length-to_le 4 v) at (slice-at offset body (to_le 4 v) tail h))
      ∙ from_le-to_le 4 v hv,
  rw (length-to_le 4 v) at (drop-at offset body (to_le 4 v) tail h),
)

payload : DocumentSequence → Bytes
payload seq = seq.identifier ++ 0 ∷ documents_bytes seq.documents

length-payload : (seq : DocumentSequence) → length (payload seq) + 4 ≡ sequence_len seq
unfolding payload
length-payload seq = omega (
  arith,
  length-append seq.identifier (0 ∷ documents_bytes seq.documents),
  length-documents_bytes seq.documents,
)

pub parse_sequence-at :
    (body rest : Bytes) (end offset : ℕ) (seq : DocumentSequence)
    → drop offset body ≡ sequence_bytes seq ++ rest
    → IsSequence seq
    → sequence_len seq < i32_half
    → offset + sequence_len seq ≤ end
    → end ≤ length body
    → parse_sequence body end offset ≡ ok (seq, offset + sequence_len seq)
unfolding parse_sequence payload
parse_sequence-at body rest end offset seq at good small room he =
    let n = sequence_len seq in
    let (clean, utf, raws, low, high) = good in
    let narrow : n % 2 ^ 32 ≡ n = omega arith in
    let at0 : drop offset body ≡ to_le 4 n ++ (payload seq ++ rest) =
      at ∙ rw narrow (append_assoc (to_le 4 n) (payload seq) rest) in
    let (word, at1) = word_at body (payload seq ++ rest) offset n at0 high in
    let len = length-payload seq in
    let cut = slice-at (offset + 4) body (payload seq) rest at1 in
    let len1 : length (payload seq) ≡ n - 4 = omega arith in
    let nul = position_nul-append seq.identifier (documents_bytes seq.documents) clean in
    let whole : offset + 4 + (n - 4) ≡ offset + n = omega arith in
    let inner =
      sequence_at-at body rest (offset + 4) (offset + 4 + (n - 4)) seq
        (at1 ∙ append_assoc seq.identifier (0 ∷ documents_bytes seq.documents) rest) good
        (omega arith) (omega arith) (omega arith) in
    ground (arith, word, rw len1 at cut, nul, inner, whole)
