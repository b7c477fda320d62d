-- ===== src/Wire/Reply/Laws.antt =====
-- mongowire/src/messages/op_reply.rs: what the writer appends, and that the parser reads it back.
use mongowire.Base.{
  ℕ, ◌*◌, ◌/◌, ◌%◌, ◌<◌, ◌≤◌, ◌≡◌, refl, sym, ap, ◌∙◌, false, List, [], ◌∷◌, ◌++◌, append_assoc,
  Bytes, pos, Fits, pattern_of, i32_half, i64_half, length, ltb, ok, length-append, length-to_le,
  arith, ge→ltb, All,
}
use mongowire.Io.{put_bytes, put_i32_le, put_i64_le, i32_to_le, i64_to_le, read_i32_le, read_i64_le}
use mongowire.Io.Laws.{read_i32_le-append, read_i64_le-append}
use mongowire.Bson.{RawDocument}
use mongowire.Bson.Raw.{IsRaw}
use mongowire.Wire.Msg.Written.{documents_bytes, put_documents-bytes, length-documents_bytes}
use mongowire.Wire.Query.Laws.{take_document-at}
use mongowire.Wire.Reply.{
  OpReply, reply_flags, take_documents, parse_body, encode_body, body_len, count_i32,
}

abbrev pub reply_bytes : OpReply → Bytes
reply_bytes p =
    i32_to_le (pos p.response_flags.bits)
    ++ (i64_to_le p.cursor_id
        ++ (i32_to_le p.starting_from
            ++ (i32_to_le (count_i32 p.documents) ++ documents_bytes p.documents)))

pub encode_body-bytes : (p : OpReply) (out : Bytes) → encode_body p out ≡ out ++ reply_bytes p
unfolding encode_body put_i32_le put_i64_le put_bytes
encode_body-bytes p out = put_documents-bytes p.documents _ ∙ simp append_assoc

pub length-reply_bytes : (p : OpReply) → length (reply_bytes p) ≡ body_len p
unfolding body_len
length-reply_bytes p =
    let d = documents_bytes p.documents in
    let c = i32_to_le (count_i32 p.documents) in
    omega (
      arith,
      length-append (i32_to_le (pos p.response_flags.bits))
          (i64_to_le p.cursor_id ++ (i32_to_le p.starting_from ++ (c ++ d))),
      length-append (i64_to_le p.cursor_id) (i32_to_le p.starting_from ++ (c ++ d)),
      length-append (i32_to_le p.starting_from) (c ++ d),
      length-append c d,
      length-to_le 4 p.response_flags.bits,
      length-to_le 8 (pattern_of i64_half p.cursor_id),
      length-to_le 4 (pattern_of i32_half p.starting_from),
      length-to_le 4 (pattern_of i32_half (count_i32 p.documents)),
      length-documents_bytes p.documents,
    )

-- Valid documents below 2^31 bytes.
abbrev pub AreDocuments : List RawDocument → Type 0
AreDocuments = All (λ d. IsRaw d.bytes × (length d.bytes < i32_half))

-- A reply as the parser accepts it: the count is the number of documents.
abbrev pub IsReply : OpReply → Type 0
IsReply p =
    (p.response_flags.bits < 16)
    × Fits i64_half p.cursor_id
    × Fits i32_half p.starting_from
    × (length p.documents < i32_half)
    × (p.number_returned ≡ pos (length p.documents))
    × AreDocuments p.documents

take_documents-at :
    (ds : List RawDocument) (pre : Bytes)
    → AreDocuments ds
    → take_documents (length ds) (pre ++ documents_bytes ds) (documents_bytes ds) ≡ ok (ds, [])
unfolding take_documents
take_documents-at [] pre h = refl
take_documents-at (d ∷ ds) pre ((raw, small), h) =
    let one = take_document-at pre (documents_bytes ds) d raw small in
    let ih =
      rw (append_assoc pre d.bytes (documents_bytes ds)) at
        (take_documents-at ds (pre ++ d.bytes) h) in
    rw (one, ih) refl

-- Every document takes at least five bytes.
many_bytes : (ds : List RawDocument) → AreDocuments ds → 5 * length ds ≤ length (documents_bytes ds)
many_bytes [] h = omega arith
many_bytes (d ∷ ds) ((raw, small), h) =
    omega (arith, raw.0, many_bytes ds h, length-append d.bytes (documents_bytes ds))

parse_body_steps :
    (p : OpReply) (body r1 r2 r3 r4 : Bytes) (n : ℕ)
    → read_i32_le body ≡ ok (pos p.response_flags.bits, r1)
    → read_i64_le r1 ≡ ok (p.cursor_id, r2)
    → read_i32_le r2 ≡ ok (p.starting_from, r3)
    → read_i32_le r3 ≡ ok (pos n, r4)
    → ltb (length r4 / 5) n ≡ false
    → take_documents n body r4 ≡ ok (p.documents, [])
    → p.number_returned ≡ pos n
    → p.response_flags.bits % 16 ≡ p.response_flags.bits
    → parse_body body ≡ ok p
unfolding parse_body reply_flags
parse_body_steps p body r1 r2 r3 r4 n h1 h2 h3 h4 h5 h6 h7 h8 =
    rw (h1, h2, h3, h4, h5, h6, h8, ge→ltb n 0 (omega arith))
      (ap (λ t. ok (record p { number_returned = t })) (sym h7))

pub parse_body-encode_body_reply : (p : OpReply) → IsReply p → parse_body (encode_body p []) ≡ ok p
parse_body-encode_body_reply p (bits, cursor, start, few, counted, docs) =
    let d = documents_bytes p.documents in
    let n = length p.documents in
    let count : count_i32 p.documents ≡ pos n = ground arith in
    let r3 = i32_to_le (count_i32 p.documents) ++ d in
    let r2 = i32_to_le p.starting_from ++ r3 in
    let r1 = i64_to_le p.cursor_id ++ r2 in
    let head =
      i32_to_le (pos p.response_flags.bits)
      ++ (i64_to_le p.cursor_id
          ++ (i32_to_le p.starting_from ++ i32_to_le (count_i32 p.documents))) in
    let split : reply_bytes p ≡ head ++ d = simp append_assoc in
    rw (encode_body-bytes p []) (
      parse_body_steps p (reply_bytes p) r1 r2 r3 d n
        (read_i32_le-append (pos p.response_flags.bits) r1 (omega arith))
        (read_i64_le-append p.cursor_id r2 cursor) (read_i32_le-append p.starting_from r3 start)
        (rw count (read_i32_le-append (pos n) d few))
        (ge→ltb (length d / 5) n (omega (arith, many_bytes p.documents docs)))
        (rw (← split) at (take_documents-at p.documents head docs)) counted (omega arith))
