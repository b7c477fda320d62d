-- ===== src/Wire/Sections.antt =====
-- mongowire/src/messages/op_msg.rs: the flag word, the sections of an OP_MSG and their checks, and
-- the slicing of one document off the body.
pub mod Slices
use mongowire.Base.{
  ℕ, zero, suc, ◌+◌, ◌-◌, ◌*◌, ◌%◌, ◌/◌, Bool, true, false, not, Option, none, some, List, [], ◌∷◌,
  ◌++◌, Bytes, ℤ, pos, negsuc, ltb_ℤ, as_usize, length, take, drop, ltb, leb, ◌==◌, ◌||◌,
  if◌then◌else◌, Result, ok, err, map_err, ◌>>=◌, ◌>>◌, guard, is_utf8, contains_nul, mem,
}
use mongowire.Io.{i32_from_le}
use mongowire.Bson.{RawDocument, min_doc_len}
use mongowire.Bson.Raw.{from_bytes}
use mongowire.Bson.Scan.{slice}
use mongowire.Bson.Names.{field_names}
use mongowire.Wire.{ProtocolError, invalid_op_msg, bson}

pub record MsgFlags : Type 0 where
  pub bits : ℕ

-- The value of bit `2 ^ k` in a word: `raw & (1 << k)`.
abbrev pub bit_value : ℕ → ℕ → ℕ
bit_value weight raw = (raw / weight) % 2 * weight

-- `MsgFlags::from_bits_truncate`: bits 0, 1 and 16.
abbrev pub known_bits : ℕ → ℕ
known_bits raw = bit_value 1 raw + bit_value 2 raw + bit_value 65536 raw

-- `raw & REQUIRED_BITS & !known`: bits 2 to 15.
abbrev pub unknown_required : ℕ → ℕ
unknown_required raw = raw % 65536 - raw % 4

unfoldable pub flags_parse : ℕ → Result ProtocolError MsgFlags
flags_parse raw = do
  guard (unknown_required raw == 0) (invalid_op_msg "unknown required flag bits")
  ok (record { bits = known_bits raw })

-- `flags.contains(CHECKSUM_PRESENT)`
abbrev pub checksum_present : MsgFlags → Bool
checksum_present f = f.bits % 2 == 1

pub record DocumentSequence : Type 0 where
  pub identifier : Bytes
  pub documents : List RawDocument

pub record Sections : Type 0 where
  pub body : RawDocument
  pub sequences : List DocumentSequence

-- The checks of one identifier against the names in the body.
unfoldable pub check_identifier : List Bytes → DocumentSequence → Result ProtocolError (Unit {0})
check_identifier names seq = do
  guard (not (length seq.identifier == 0)) (invalid_op_msg "kind 1 section has no identifier")
  guard (not (contains_nul seq.identifier)) (invalid_op_msg "kind 1 identifier contains NUL")
  guard (not (mem seq.identifier names))
      (invalid_op_msg "kind 1 identifier duplicates a body field")

unfoldable pub check_identifiers :
    List Bytes → List DocumentSequence → Result ProtocolError (Unit {0})
unfolding check_identifier
check_identifiers names [] = ok tt
check_identifiers names (seq ∷ seqs) = check_identifier names seq >> check_identifiers names seqs

unfoldable pub sections_new : RawDocument → List DocumentSequence → Result ProtocolError Sections
unfolding check_identifiers
sections_new body [] = ok (record { body = body; sequences = [] })
sections_new body (seq ∷ seqs) = do
  names ← map_err bson (field_names body)
  check_identifiers names (seq ∷ seqs)
  ok (record { body = body; sequences = seq ∷ seqs })

unfoldable pub documents_len : List RawDocument → ℕ
documents_len [] = 0
documents_len (d ∷ ds) = length d.bytes + documents_len ds

unfoldable pub sequences_size : List DocumentSequence → ℕ
unfolding documents_len
sequences_size [] = 0
sequences_size (seq ∷ seqs) =
    1 + 4 + length seq.identifier + 1 + documents_len seq.documents + sequences_size seqs

unfoldable pub size : Sections → ℕ
unfolding sequences_size
size s = 1 + length s.body.bytes + sequences_size s.sequences

unfoldable pub take_document : Bytes → ℕ → ℕ → Result ProtocolError (RawDocument × ℕ)
take_document body offset end = do
  guard (leb offset end) (invalid_op_msg "section cursor overran its end")
  let rest = end - offset
  guard (not (ltb rest 4)) (invalid_op_msg "truncated document")
  let len = i32_from_le (slice offset (offset + 4) body)
  guard (not (ltb_ℤ len (pos min_doc_len) || ltb rest (as_usize len)))
      (invalid_op_msg "invalid document length")
  doc ← map_err bson (from_bytes (slice offset (offset + as_usize len) body))
  ok (doc, offset + as_usize len)
