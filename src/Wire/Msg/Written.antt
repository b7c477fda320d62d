-- ===== src/Wire/Msg/Written.antt =====
-- mongowire/src/messages/op_msg.rs: the bytes of a body in plain terms, and that the writer appends
-- them.
use mongowire.Base.{
  ℕ, ◌+◌, ◌%◌, ◌^◌, ◌≡◌, refl, sym, ◌∙◌, Option, none, some, List, [], ◌∷◌, ◌++◌, append_assoc,
  append-nil, Bytes, length, length-append, to_le, length-to_le, arith,
}
use mongowire.Io.{put_u8, put_bytes, put_u32_le}
use mongowire.Bson.{RawDocument}
use mongowire.Wire.Sections.{DocumentSequence, Sections, documents_len, sequences_size, size}
use mongowire.Wire.Msg.{
  OpMsg, put_documents, put_sequence, put_sequences, put_checksum, encode_body, body_len,
  trailer_len,
}

abbrev pub documents_bytes : List RawDocument → Bytes
documents_bytes [] = []
documents_bytes (d ∷ ds) = d.bytes ++ documents_bytes ds

-- The size that a sequence declares.
abbrev pub sequence_len : DocumentSequence → ℕ
sequence_len seq = 4 + length seq.identifier + 1 + documents_len seq.documents

-- A sequence behind its kind byte.
abbrev pub sequence_bytes : DocumentSequence → Bytes
sequence_bytes seq =
    to_le 4 (sequence_len seq % 2 ^ 32) ++ (seq.identifier ++ 0 ∷ documents_bytes seq.documents)

abbrev pub sequences_bytes : List DocumentSequence → Bytes
sequences_bytes [] = []
sequences_bytes (seq ∷ seqs) = 1 ∷ (sequence_bytes seq ++ sequences_bytes seqs)

abbrev pub checksum_bytes : Option ℕ → Bytes
checksum_bytes none = []
checksum_bytes (some c) = to_le 4 c

abbrev pub sections_bytes : Sections → Bytes
sections_bytes s = 0 ∷ (s.body.bytes ++ sequences_bytes s.sequences)

abbrev pub op_msg_bytes : OpMsg → Bytes
op_msg_bytes m = to_le 4 m.flags.bits ++ (sections_bytes m.sections ++ checksum_bytes m.checksum)

pub put_documents-bytes :
    (ds : List RawDocument) (out : Bytes) → put_documents ds out ≡ out ++ documents_bytes ds
unfolding put_documents put_bytes
put_documents-bytes [] out = sym (append-nil out)
put_documents-bytes (d ∷ ds) out =
    put_documents-bytes ds (out ++ d.bytes) ∙ append_assoc out d.bytes (documents_bytes ds)

put_sequence-bytes :
    (seq : DocumentSequence) (out : Bytes) → put_sequence seq out ≡ out ++ 1 ∷ sequence_bytes seq
unfolding put_sequence put_bytes put_u8 put_u32_le
put_sequence-bytes seq out = put_documents-bytes seq.documents _ ∙ simp append_assoc

put_sequences-bytes :
    (seqs : List DocumentSequence) (out : Bytes)
    → put_sequences seqs out ≡ out ++ sequences_bytes seqs
unfolding put_sequences
put_sequences-bytes [] out = sym (append-nil out)
put_sequences-bytes (seq ∷ seqs) out =
    put_sequences-bytes seqs (put_sequence seq out)
    ∙ rw (put_sequence-bytes seq out)
        (append_assoc out (1 ∷ sequence_bytes seq) (sequences_bytes seqs))

put_checksum-bytes : (c : Option ℕ) (out : Bytes) → put_checksum c out ≡ out ++ checksum_bytes c
unfolding put_u32_le put_bytes
put_checksum-bytes none out = sym (append-nil out)
put_checksum-bytes (some c) out = refl

-- The writer appends the flag word, the body document behind a 0, the sequences, and the trailer.
pub encode_body-bytes : (m : OpMsg) (out : Bytes) → encode_body m out ≡ out ++ op_msg_bytes m
unfolding encode_body put_u32_le put_u8 put_bytes
encode_body-bytes m out =
    put_checksum-bytes m.checksum _
    ∙ rw
        (put_sequences-bytes m.sections.sequences
          (((out ++ to_le 4 m.flags.bits) ++ 0 ∷ []) ++ m.sections.body.bytes))
        (simp append_assoc)

pub length-documents_bytes :
    (ds : List RawDocument) → length (documents_bytes ds) ≡ documents_len ds
unfolding documents_len
length-documents_bytes [] = refl
length-documents_bytes (d ∷ ds) =
    omega (arith, length-append d.bytes (documents_bytes ds), length-documents_bytes ds)

pub length-sequence_bytes :
    (seq : DocumentSequence) → length (sequence_bytes seq) ≡ sequence_len seq
length-sequence_bytes seq = omega (
  arith,
  length-append (to_le 4 (sequence_len seq % 2 ^ 32))
      (seq.identifier ++ 0 ∷ documents_bytes seq.documents),
  length-append seq.identifier (0 ∷ documents_bytes seq.documents),
  length-to_le 4 (sequence_len seq % 2 ^ 32),
  length-documents_bytes seq.documents,
)

pub length-sequences_bytes :
    (seqs : List DocumentSequence) → length (sequences_bytes seqs) ≡ sequences_size seqs
unfolding sequences_size
length-sequences_bytes [] = refl
length-sequences_bytes (seq ∷ seqs) = omega (
  arith,
  length-append (sequence_bytes seq) (sequences_bytes seqs),
  length-sequence_bytes seq,
  length-sequences_bytes seqs,
)

pub length-sections_bytes : (s : Sections) → length (sections_bytes s) ≡ size s
unfolding size
length-sections_bytes s = omega (
  arith,
  length-append s.body.bytes (sequences_bytes s.sequences),
  length-sequences_bytes s.sequences,
)

pub length-checksum_bytes : (c : Option ℕ) → length (checksum_bytes c) ≡ trailer_len c
length-checksum_bytes none = refl
length-checksum_bytes (some c) = length-to_le 4 c

pub length-op_msg_bytes : (m : OpMsg) → length (op_msg_bytes m) ≡ body_len m
unfolding body_len
length-op_msg_bytes m = omega (
  arith,
  length-append (to_le 4 m.flags.bits) (sections_bytes m.sections ++ checksum_bytes m.checksum),
  length-append (sections_bytes m.sections) (checksum_bytes m.checksum),
  length-to_le 4 m.flags.bits,
  length-sections_bytes m.sections,
  length-checksum_bytes m.checksum,
)

-- `encode_body` appends exactly `body_len` bytes, and leaves what the buffer held.
pub length-encode_body :
    (m : OpMsg) (out : Bytes) → length (encode_body m out) ≡ length out + body_len m
length-encode_body m out =
    rw (encode_body-bytes m out)
      (omega (arith, length-append out (op_msg_bytes m), length-op_msg_bytes m))
