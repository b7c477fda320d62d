-- ===== src/Wire/Msg.antt =====
-- mongowire/src/messages/op_msg.rs: the OP_MSG body, built, written and parsed.
pub mod Written
pub mod Taken
pub mod Walked
pub mod Ends
pub mod Reencode
pub mod Placed
pub mod RoundTrip
use mongowire.Base.{
  ℕ, zero, suc, ◌+◌, ◌-◌, ◌*◌, ◌%◌, ◌^◌, Bool, true, false, not, Option, none, some, List, [], ◌∷◌,
  ◌++◌, Bytes, length, take, drop, get_elem?, ltb, leb, ◌==◌, if◌then◌else◌, Result, ok, err, stuck,
  ◌>>=◌, ◌>>◌, guard, is_utf8, from_le, position_nul,
}
use mongowire.Io.{put_u8, put_bytes, put_u32_le}
use mongowire.Bson.{RawDocument}
use mongowire.Bson.Scan.{slice}
use mongowire.Wire.{ProtocolError, invalid_op_msg}
use mongowire.Wire.Sections.{
  MsgFlags, flags_parse, checksum_present, DocumentSequence, Sections, sections_new, documents_len,
  size, take_document,
}

pub record OpMsg : Type 0 where
  pub flags : MsgFlags
  pub sections : Sections
  pub checksum : Option ℕ

unfoldable pub new : MsgFlags → RawDocument → List DocumentSequence → Result ProtocolError OpMsg
new flags body sequences = do
  sections ← sections_new body sequences
  ok (record {
    flags = record { bits = flags.bits - flags.bits % 2 };
    sections = sections;
    checksum = none;
  })

-- The bytes of the trailer.
abbrev pub trailer_len : Option ℕ → ℕ
trailer_len none = 0
trailer_len (some c) = 4

unfoldable pub body_len : OpMsg → ℕ
unfolding size
body_len m = 4 + size m.sections + trailer_len m.checksum

unfoldable pub put_documents : List RawDocument → Bytes → Bytes
put_documents [] out = out
put_documents (d ∷ ds) out = put_documents ds (put_bytes out d.bytes)

unfoldable pub put_sequence : DocumentSequence → Bytes → Bytes
unfolding put_documents documents_len
put_sequence seq out =
    let n = 4 + length seq.identifier + 1 + documents_len seq.documents in
    let head = put_u8 (put_bytes (put_u32_le (put_u8 out 1) (n % 2 ^ 32)) seq.identifier) 0 in
    put_documents seq.documents head

unfoldable pub put_sequences : List DocumentSequence → Bytes → Bytes
unfolding put_sequence
put_sequences [] out = out
put_sequences (seq ∷ seqs) out = put_sequences seqs (put_sequence seq out)

abbrev pub put_checksum : Option ℕ → Bytes → Bytes
put_checksum none out = out
put_checksum (some c) out = put_u32_le out c

unfoldable pub encode_body : OpMsg → Bytes → Bytes
unfolding put_sequences
encode_body m out =
    let head = put_bytes (put_u8 (put_u32_le out m.flags.bits) 0) m.sections.body.bytes in
    put_checksum m.checksum (put_sequences m.sections.sequences head)

-- The loop over the documents of one sequence: `sec_rest` bytes are left of it.
unfoldable pub take_documents : ℕ → Bytes → ℕ → ℕ → ℕ → Result ProtocolError (List RawDocument × ℕ)
take_documents zero body offset sec_end sec_rest = stuck
take_documents (suc fuel) body offset sec_end sec_rest =
    if sec_rest == 0 then ok ([], offset) else (do
      (doc, next) ← take_document body offset sec_end
      (docs, final) ← take_documents fuel body next sec_end (sec_rest - (next - offset))
      ok (doc ∷ docs, final))

-- The identifier, `ident_len` bytes at the offset, and the documents behind it.
unfoldable pub sequence_at : Bytes → ℕ → ℕ → ℕ → Result ProtocolError (DocumentSequence × ℕ)
unfolding take_documents
sequence_at body offset sec_end ident_len = do
  let identifier = slice offset (offset + ident_len) body
  guard (is_utf8 identifier) (invalid_op_msg "invalid UTF-8 in section identifier")
  let start = offset + (ident_len + 1)
  (docs, final) ← take_documents (suc (length body)) body start sec_end (sec_end - start)
  ok (record { identifier = identifier; documents = docs }, final)

-- The arm of kind 1, at the offset behind the kind byte.
unfoldable pub parse_sequence : Bytes → ℕ → ℕ → Result ProtocolError (DocumentSequence × ℕ)
unfolding sequence_at
parse_sequence body end offset = do
  guard (leb offset end) (invalid_op_msg "section cursor overran its end")
  guard (not (ltb (end - offset) 4)) (invalid_op_msg "truncated section size")
  let raw_size = from_le (slice offset (offset + 4) body)
  guard (not (ltb raw_size 9)) (invalid_op_msg "section size too small")
  let sec_size = raw_size - 4
  guard (not (ltb (end - offset - 4) sec_size)) (invalid_op_msg "section exceeds the message")
  let start = offset + 4
  let sec_end = start + sec_size
  elim (position_nul (slice start sec_end body)) [
    | none ↦ err (invalid_op_msg "truncated section identifier")
    | some ident_len ↦ sequence_at body start sec_end ident_len
  ]

-- The sections read so far: the body document and the sequences, in order.
abbrev pub Read : Type 0
Read = Option RawDocument × List DocumentSequence

-- The arm of kind 0.
unfoldable pub parse_document : Bytes → ℕ → ℕ → Read → Result ProtocolError (Read × ℕ)
parse_document body end offset (some d, seqs) = err (invalid_op_msg "multiple kind 0 sections")
parse_document body end offset (none, s ∷ seqs) =
    err (invalid_op_msg "kind 0 section must be the first section")
parse_document body end offset (none, []) = do
  (doc, next) ← take_document body offset end
  ok ((some doc, []), next)

-- One section of the given kind, at the offset behind the kind byte.
unfoldable pub parse_section : ℕ → Bytes → ℕ → ℕ → Read → Result ProtocolError (Read × ℕ)
unfolding parse_document parse_sequence
parse_section kind body end offset acc =
    if kind == 0
    then parse_document body end offset acc
    else if kind == 1
    then (do (seq, next) ← parse_sequence body end offset; ok ((acc.0, acc.1 ++ seq ∷ []), next))
    else err (invalid_op_msg "unknown section kind")

unfoldable pub parse_sections : ℕ → Bytes → ℕ → ℕ → Read → Result ProtocolError Read
unfolding parse_section
parse_sections zero body end offset acc = stuck
parse_sections (suc fuel) body end offset acc = elim (get_elem? body offset) [
  | none ↦ err (invalid_op_msg "truncated section kind")
  | some kind ↦ do
    (acc', next) ← parse_section kind body end (offset + 1) acc
    (if next == end then ok acc' else parse_sections fuel body end next acc')
]

unfoldable pub require_document : Read → Result ProtocolError Sections
unfolding sections_new
require_document (none, seqs) = err (invalid_op_msg "no kind 0 section")
require_document (some d, seqs) = sections_new d seqs

-- `usize::from(checksummed) * 4`
abbrev pub trailer_of : Bool → ℕ
trailer_of b = if b then 4 else 0

unfoldable pub parse_body : Bytes → Result ProtocolError OpMsg
unfolding flags_parse parse_sections require_document
parse_body body = do
  guard (not (ltb (length body) 5)) (invalid_op_msg "body too short for OP_MSG")
  flags ← flags_parse (from_le (take 4 body))
  let checksummed = checksum_present flags
  guard (not (ltb (length body) (6 + trailer_of checksummed)))
      (invalid_op_msg "body too short for OP_MSG")
  let end = length body - trailer_of checksummed
  acc ← parse_sections (length body) body end 4 (none, [])
  let checksum = if checksummed then some (from_le (slice end (end + 4) body)) else none
  sections ← require_document acc
  ok (record { flags = flags; sections = sections; checksum = checksum })
