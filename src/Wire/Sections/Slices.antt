-- ===== src/Wire/Sections/Slices.antt =====
-- mongowire/src/messages/op_msg.rs: what `take_document` took off the body, and the document that
-- it takes where one stands.
use mongowire.Base.{
  ℕ, ◌+◌, ◌-◌, ◌<◌, ◌≤◌, ◌≡◌, refl, sym, ap, ◌∙◌, ◌++◌, Bytes, pos, as_usize, i32_half, length,
  drop, ok, Result-cases, inl, inr, arith, take-append, take-append_front, drop-append, drop-add,
  length-drop, length-take, take-append-drop,
}
use mongowire.Io.{i32_from_le}
use mongowire.Bson.{RawDocument}
use mongowire.Bson.Raw.{from_bytes, from_bytes_iff, IsRaw}
use mongowire.Bson.Scan.{slice}
use mongowire.Wire.Sections.{take_document}

-- A piece that stands at the offset.
pub slice-at :
    (off : ℕ) (b x rest : Bytes) → drop off b ≡ x ++ rest → slice off (off + length x) b ≡ x
slice-at off b x rest h =
    let n : off + length x - off ≡ length x = omega arith in rw (n, h) (take-append x rest)

pub drop-at : (off : ℕ) (b x rest : Bytes) → drop off b ≡ x ++ rest → drop (off + length x) b ≡ rest
drop-at off b x rest h = drop-add off (length x) b ∙ rw h (drop-append x rest)

-- A slice and what follows it.
pub slice-drop : (off n : ℕ) (b : Bytes) → drop off b ≡ slice off (off + n) b ++ drop (off + n) b
slice-drop off n b =
    let m : off + n - off ≡ n = omega arith in
    rw (m, drop-add off n b) (sym (take-append-drop n (drop off b)))

pub length-slice : (off n : ℕ) (b : Bytes) → off + n ≤ length b → length (slice off (off + n) b) ≡ n
length-slice off n b h = omega (arith, length-take (off + n - off) (drop off b), length-drop off b)

-- The length that the four bytes at the offset declare.
abbrev len_at : Bytes → ℕ → ℕ
len_at body offset = as_usize (i32_from_le (slice offset (offset + 4) body))

take_document_parts :
    (body : Bytes) (offset end next : ℕ) (doc : RawDocument)
    → take_document body offset end ≡ ok (doc, next)
    → (from_bytes (slice offset (offset + len_at body offset) body) ≡ ok doc)
      × (next ≡ offset + len_at body offset)
      × (offset + len_at body offset ≤ end)
unfolding take_document
take_document_parts body offset end next doc h =
    elim (Result-cases (from_bytes (slice offset (offset + len_at body offset) body))) [
      | inl (d, e) ↦ ground arith
      | inr (inl (x, e)) ↦ ground arith
      | inr (inr e) ↦ ground arith
    ]

-- The document taken lies between the offset and the end, and follows the validation rules.
pub take_document-ok :
    (body : Bytes) (offset end next : ℕ) (doc : RawDocument)
    → take_document body offset end ≡ ok (doc, next)
    → end ≤ length body
    → (next ≡ offset + length doc.bytes)
      × (next ≤ end)
      × (drop offset body ≡ doc.bytes ++ drop next body)
      × IsRaw doc.bytes
take_document-ok body offset end next doc h he =
    let (e, n, le) = take_document_parts body offset end next doc h in
    let (same, raw) = (from_bytes_iff _ doc).0 e in
    let len = length-slice offset (len_at body offset) body (omega arith) in
    rw (n, same)
      (ap (λ t. offset + t) (sym len), le, slice-drop offset (len_at body offset) body, raw)

-- The declared length, where a document stands.
len_at-at :
    (body rest : Bytes) (offset : ℕ) (doc : RawDocument)
    → drop offset body ≡ doc.bytes ++ rest
    → IsRaw doc.bytes
    → length doc.bytes < i32_half
    → i32_from_le (slice offset (offset + 4) body) ≡ pos (length doc.bytes)
unfolding i32_from_le
len_at-at body rest offset doc at (low, declared, last) small =
    let n : offset + 4 - offset ≡ 4 = omega arith in
    rw (n, at, take-append_front 4 doc.bytes rest (omega arith), declared) (ground arith)

-- Where a document of less than 2^31 bytes stands, it is taken.
pub take_document-at :
    (body rest : Bytes) (offset end : ℕ) (doc : RawDocument)
    → drop offset body ≡ doc.bytes ++ rest
    → IsRaw doc.bytes
    → length doc.bytes < i32_half
    → offset + length doc.bytes ≤ end
    → take_document body offset end ≡ ok (doc, offset + length doc.bytes)
unfolding take_document
take_document-at body rest offset end doc at raw small room =
    let whole = slice-at offset body doc.bytes rest at in
    let word = len_at-at body rest offset doc at raw small in
    let valid : from_bytes doc.bytes ≡ ok doc = (from_bytes_iff doc.bytes doc).1 (refl, raw) in
    ground (arith, whole, word, valid)
