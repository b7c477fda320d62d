-- ===== src/Wire/Msg/Reencode.antt =====
-- mongowire/src/messages/op_msg.rs: a parsed body, what it satisfies, and that writing it gives the
-- bytes back.
use mongowire.Base.{
  ◌↔◌, ℕ, ◌+◌, ◌-◌, ◌%◌, ◌<◌, ◌≤◌, ◌^◌, ◌≡◌, refl, sym, ap, ◌∙◌, Bool, true, false, not, Option,
  none, some, List, [], ◌∷◌, ◌++◌, append-nil, Bytes, AreBytes, length, take, drop, ltb,
  if◌then◌else◌, ok, guard, bind_ok, map_err, Bool-cases, inl, inr, arith, All, from_le, to_le,
  length-to_le, length-drop, length-append, drop-all,
}
use mongowire.Bson.{RawDocument}
use mongowire.Bson.Raw.{IsRaw}
use mongowire.Bson.Names.{field_names}
use mongowire.Bson.Scan.{slice}
use mongowire.Wire.{invalid_op_msg, bson}
use mongowire.Wire.Sections.{
  DocumentSequence, Sections, MsgFlags, flags_parse, known_bits, checksum_present, sections_new,
  check_identifiers,
}
use mongowire.Wire.Msg.{
  OpMsg, parse_sections, require_document, parse_body, trailer_of, body_len, encode_body, Read,
}
use mongowire.Wire.Msg.Written.{
  op_msg_bytes, sections_bytes, checksum_bytes, encode_body-bytes, length-op_msg_bytes,
}
use mongowire.Wire.Msg.Taken.{IsSequence, word_cut}
use mongowire.Wire.Msg.Walked.{read_bytes, IsRead, parse_sections-ok}

-- A value of the type that the bit flags keep: known bits alone.
abbrev pub IsFlags : MsgFlags → Type 0
IsFlags f = f.bits ≡ known_bits f.bits

-- The trailer is there where the flag says so.
abbrev pub ChecksumMatches : MsgFlags → Option ℕ → Type 0
ChecksumMatches f none = checksum_present f ≡ false
ChecksumMatches f (some c) = (checksum_present f ≡ true) × (c < 2 ^ 32)

-- The invariants of a parsed message.
abbrev pub IsOpMsg : OpMsg → Type 0
IsOpMsg m =
    IsFlags m.flags
    × ChecksumMatches m.flags m.checksum
    × IsRaw m.sections.body.bytes
    × All IsSequence m.sections.sequences
    × (sections_new m.sections.body m.sections.sequences ≡ ok m.sections)

-- The raw flag word is accepted when no unknown bit among the low 16 is set; the result keeps the
-- known bits alone, and these are again such a word.
pub flags_parse_iff :
    (raw : ℕ) (f : MsgFlags)
    → (flags_parse raw ≡ ok f) ↔ ((raw % 65536 < 4) × (f.bits ≡ known_bits raw))
unfolding flags_parse
flags_parse_iff raw f = (λ h. ground arith, λ h. ground arith)

sections_new-ok :
    (d : RawDocument) (seqs : List DocumentSequence) (s : Sections)
    → sections_new d seqs ≡ ok s
    → s ≡ record { body = d; sequences = seqs }
unfolding sections_new
sections_new-ok d [] s h = ground arith
sections_new-ok d (seq ∷ seqs) s h =
    bind_ok (map_err bson (field_names d)) _ h
      λ names e f. bind_ok (check_identifiers names (seq ∷ seqs)) _ f λ u e2 f2. ground (arith, f2)

known_bits-IsFlags : (raw : ℕ) → known_bits raw ≡ known_bits (known_bits raw)
known_bits-IsFlags raw = omega arith

-- The sections found make up the message's sections.
require_document-ok :
    (acc : Read) (s : Sections)
    → require_document acc ≡ ok s
    → IsRead acc
    → (read_bytes acc ≡ sections_bytes s)
      × IsRaw s.body.bytes
      × All IsSequence s.sequences
      × (sections_new s.body s.sequences ≡ ok s)
unfolding require_document
require_document-ok (none, seqs) s h good = cc
require_document-ok (some d, seqs) s h good =
    let e = sections_new-ok d seqs s h in rw e (refl, good.0, good.1, rw e at h)

-- The trailer that `parse_body` reads, as bytes.
abbrev trailer_at : Bytes → ℕ → Bool → Option ℕ
trailer_at body end b = if b then some (from_le (slice end (end + 4) body)) else none

trailer_at-ok :
    (body : Bytes) (f : MsgFlags)
    → AreBytes body
    → trailer_of (checksum_present f) ≤ length body
    → (checksum_bytes
          (trailer_at body (length body - trailer_of (checksum_present f)) (checksum_present f))
        ≡ drop (length body - trailer_of (checksum_present f)) body)
      × ChecksumMatches f
          (trailer_at body (length body - trailer_of (checksum_present f)) (checksum_present f))
trailer_at-ok body f hb h = elim (Bool-cases (checksum_present f)) [
  | inl e ↦
      let four : 4 ≤ length body = ground arith in
      let (cut, small) = word_cut body (length body - 4) hb (omega arith) in
      let all = drop-all (length body - 4 + 4) body (omega arith) in
      rw e (sym (append-nil _) ∙ sym (rw all at cut), (e, small))
  | inr e ↦ rw e (sym (drop-all (length body - 0) body (omega arith)), e)
]

pub parse_body-ok :
    (body : Bytes) (m : OpMsg)
    → AreBytes body
    → parse_body body ≡ ok m
    → (op_msg_bytes m ≡ to_le 4 (known_bits (from_le (take 4 body))) ++ drop 4 body) × IsOpMsg m
unfolding parse_body flags_parse
parse_body-ok body m hb h =
    bind_ok (guard (not (ltb (length body) 5)) (invalid_op_msg "body too short for OP_MSG")) _ h
      λ u1 e1 f1. bind_ok (flags_parse (from_le (take 4 body))) _ f1 λ flags e2 f2.
        let end = length body - trailer_of (checksum_present flags) in
        bind_ok
          (guard (not (ltb (length body) (6 + trailer_of (checksum_present flags))))
            (invalid_op_msg "body too short for OP_MSG"))
          _ f2
          λ u3 e3 f3. bind_ok (parse_sections (length body) body end 4 (none, [])) _ f3 λ acc e4 f4.
            bind_ok (require_document acc) _ f4 λ sec e5 f5.
              let known = ((flags_parse_iff (from_le (take 4 body)) flags).0 e2).1 in
              let room : trailer_of (checksum_present flags) ≤ length body = ground arith in
              let (walked, keeps) =
                parse_sections-ok body hb end (omega arith) (length body) 4 (none, []) acc e4 in
              let (sb, raw, seqs, valid) = require_document-ok acc sec e5 (keeps tt) in
              let (tb, matches) = trailer_at-ok body flags hb room in
              let tail : sections_bytes sec
                    ++ checksum_bytes (trailer_at body end (checksum_present flags))
                  ≡ drop 4 body =
                ap (λ t. t ++ checksum_bytes (trailer_at body end (checksum_present flags)))
                  (sym sb)
                ∙ (ap (λ t. read_bytes acc ++ t) tb ∙ walked) in
              let em : m ≡ record {
                flags = flags;
                sections = sec;
                checksum = trailer_at body end (checksum_present flags);
              } =
                ground (arith, f5) in
              rw em (
                ap (λ t. to_le 4 flags.bits ++ t) tail ∙ ap (λ t. to_le 4 t ++ drop 4 body) known,
                (rw known (known_bits-IsFlags (from_le (take 4 body))), matches, raw, seqs, valid),
              )

-- Writing a parsed body gives its bytes back, but for the flag word, of which the known bits are
-- left; and the body length that the message declares is the length of what was parsed.
pub encode_body-parse_body :
    (body : Bytes) (m : OpMsg)
    → AreBytes body
    → parse_body body ≡ ok m
    → (encode_body m [] ≡ to_le 4 (known_bits (from_le (take 4 body))) ++ drop 4 body)
      × (body_len m ≡ length body)
unfolding parse_body
encode_body-parse_body body m hb h =
    let same = (parse_body-ok body m hb h).0 in
    let long : 5 ≤ length body =
      bind_ok (guard (not (ltb (length body) 5)) _) _ h λ u e f. ground arith in
    (
      encode_body-bytes m [] ∙ same,
      omega (
        arith,
        length-op_msg_bytes m,
        ap length same,
        length-append (to_le 4 (known_bits (from_le (take 4 body)))) (drop 4 body),
        length-to_le 4 (known_bits (from_le (take 4 body))),
        length-drop 4 body,
      ),
    )

-- A parsed message has known flag bits alone, a checksum exactly where the flag is set, a valid body
-- document and valid sequences, and sections that `Sections::new` accepts.
pub parse_body-IsOpMsg :
    (body : Bytes) (m : OpMsg) → AreBytes body → parse_body body ≡ ok m → IsOpMsg m
parse_body-IsOpMsg body m hb h = (parse_body-ok body m hb h).1
