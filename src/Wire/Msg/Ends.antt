-- ===== src/Wire/Msg/Ends.antt =====
-- mongowire/src/messages/op_msg.rs: the loops of the parser end. A document taken is at least five
-- bytes long, and a section moves the cursor forward, not past the end.
use mongowire.Base.{
  ℕ, zero, suc, ◌+◌, ◌-◌, ◌<◌, ◌≤◌, ◌≡◌, ◌≢◌, refl, none, some, List, [], ◌∷◌, Bytes, length, take,
  get_elem?, ◌==◌, if◌then◌else◌, ok, stuck, ◌>>=◌, if_ok, ==→ne, AreBytes, >>=-ne-stuck,
  map_err-ne-stuck, arith, Result-cases, Option-cases, inl, inr, from_le, position_nul,
}
use mongowire.Bson.{RawDocument}
use mongowire.Bson.Names.{field_names, field_names-ne-stuck}
use mongowire.Bson.Raw.{from_bytes}
use mongowire.Bson.Scan.{slice}
use mongowire.Wire.{bson}
use mongowire.Wire.Sections.{
  DocumentSequence, sections_new, check_identifier, check_identifiers, take_document, flags_parse,
  MsgFlags, known_bits, checksum_present,
}
use mongowire.Wire.Sections.Slices.{take_document-ok}
use mongowire.Wire.Msg.{
  take_documents, sequence_at, parse_sequence, parse_document, parse_section, parse_sections,
  require_document, parse_body, trailer_of, Read, new,
}
use mongowire.Wire.Msg.Walked.{parse_section-ok}

take_document-ne-stuck : (body : Bytes) (offset end : ℕ) → take_document body offset end ≢ stuck
unfolding take_document from_bytes
take_document-ne-stuck body offset end e = ground arith

take_documents-ne-stuck :
    (fuel : ℕ) (body : Bytes) (offset sec_end rest : ℕ)
    → rest ≡ sec_end - offset
    → sec_end ≤ length body
    → rest < fuel
    → take_documents fuel body offset sec_end rest ≢ stuck
unfolding take_documents
take_documents-ne-stuck zero body offset sec_end rest hr he hf h = absurd (omega arith)
take_documents-ne-stuck (suc fuel) body offset sec_end rest hr he hf h =
    if_ok (rest == 0) h (λ e f. cc)
      λ e f.
        >>=-ne-stuck (take_document body offset sec_end) _
          (take_document-ne-stuck body offset sec_end)
          (λ p e1.
            let (n, le, cut, raw) = take_document-ok body offset sec_end p.1 p.0 e1 he in
            let low = raw.0 in
            let more = ==→ne rest 0 e in
            >>=-ne-stuck (take_documents fuel body p.1 sec_end (rest - (p.1 - offset))) _
              (take_documents-ne-stuck fuel body p.1 sec_end _ (omega arith) he (omega arith))
              λ q e2. λ r. cc)
          f

check_identifiers-ne-stuck :
    (names : List Bytes) (seqs : List DocumentSequence) → check_identifiers names seqs ≢ stuck
unfolding check_identifiers check_identifier
check_identifiers-ne-stuck names [] e = cc
check_identifiers-ne-stuck names (seq ∷ seqs) e =
    ground (arith, check_identifiers-ne-stuck names seqs)

sections_new-ne-stuck :
    (d : RawDocument) (seqs : List DocumentSequence) → sections_new d seqs ≢ stuck
unfolding sections_new
sections_new-ne-stuck d [] = λ q. cc
sections_new-ne-stuck d (seq ∷ seqs) =
    >>=-ne-stuck _ _ (map_err-ne-stuck bson (field_names d) (field_names-ne-stuck d))
      λ names e. >>=-ne-stuck _ _ (check_identifiers-ne-stuck names (seq ∷ seqs)) λ u e2. λ q. cc

sequence_at-ne-stuck :
    (body : Bytes) (offset sec_end ident_len : ℕ)
    → sec_end ≤ length body
    → sequence_at body offset sec_end ident_len ≢ stuck
unfolding sequence_at
sequence_at-ne-stuck body offset sec_end ident_len he e = ground (
  arith,
  take_documents-ne-stuck (suc (length body)) body (offset + (ident_len + 1)) sec_end _ refl he
      (omega arith),
)

parse_sequence-ne-stuck :
    (body : Bytes) (offset end : ℕ) → end ≤ length body → parse_sequence body end offset ≢ stuck
unfolding parse_sequence
parse_sequence-ne-stuck body offset end he e =
    let raw_size = from_le (slice offset (offset + 4) body) in
    let start = offset + 4 in
    let sec_end = start + (raw_size - 4) in
    elim (Option-cases (position_nul (slice start sec_end body))) [
      | inl n ↦ ground arith
      | inr (i, n) ↦ ground (arith, sequence_at-ne-stuck body start sec_end i)
    ]

parse_section-ne-stuck :
    (kind : ℕ) (body : Bytes) (offset end : ℕ) (acc : Read)
    → end ≤ length body
    → parse_section kind body end offset acc ≢ stuck
unfolding parse_section parse_document
parse_section-ne-stuck kind body offset end (none, []) he e =
    ground
      (arith, take_document-ne-stuck body offset end, parse_sequence-ne-stuck body offset end he)
parse_section-ne-stuck kind body offset end (none, s ∷ seqs) he e =
    ground (arith, parse_sequence-ne-stuck body offset end he)
parse_section-ne-stuck kind body offset end (some d, seqs) he e =
    ground (arith, parse_sequence-ne-stuck body offset end he)

parse_sections-ne-stuck :
    (fuel : ℕ) (body : Bytes) (end offset : ℕ) (acc : Read)
    → AreBytes body
    → end ≤ length body
    → end - offset < fuel
    → parse_sections fuel body end offset acc ≢ stuck
unfolding parse_sections
parse_sections-ne-stuck zero body end offset acc hb he hf h = absurd (omega arith)
parse_sections-ne-stuck (suc fuel) body end offset acc hb he hf h =
    elim (Option-cases (get_elem? body offset)) [
      | inl e ↦ ground arith
      | inr (kind, e) ↦
          let h' : (◌>>=◌ {B = Read} (parse_section kind body end (offset + 1) acc)
                λ p. if p.1 == end then ok p.0 else parse_sections fuel body end p.1 p.0)
              ≡ stuck =
            ground (arith, h, e) in
          >>=-ne-stuck (parse_section kind body end (offset + 1) acc) _
            (parse_section-ne-stuck kind body (offset + 1) end acc he)
            (λ p e1.
              let (more, le, cut, keeps) =
                parse_section-ok body hb end he kind (offset + 1) p.1 acc p.0 e1 in
              λ q.
                if_ok (p.1 == end) q (λ e2 f2. cc)
                  λ e2 f2.
                    let off = ==→ne p.1 end e2 in
                    parse_sections-ne-stuck fuel body end p.1 p.0 hb he (omega arith) f2)
            h'
    ]

pub new-ne-stuck :
    (flags : MsgFlags) (d : RawDocument) (seqs : List DocumentSequence) → new flags d seqs ≢ stuck
unfolding new
new-ne-stuck flags d seqs = >>=-ne-stuck _ _ (sections_new-ne-stuck d seqs) λ m e. λ q. cc

require_document-ne-stuck : (acc : Read) → require_document acc ≢ stuck
unfolding require_document
require_document-ne-stuck (none, seqs) = λ q. cc
require_document-ne-stuck (some d, seqs) = sections_new-ne-stuck d seqs

-- Parsing an OP_MSG body ends on every byte string: no loop of the model runs out of fuel.
pub parse_body-ne-stuck : (body : Bytes) → AreBytes body → parse_body body ≢ stuck
unfolding parse_body flags_parse
parse_body-ne-stuck body hb h =
    let flags : MsgFlags = record { bits = known_bits (from_le (take 4 body)) } in
    let end = length body - trailer_of (checksum_present flags) in
    elim (Result-cases (parse_sections (length body) body end 4 (none, []))) [
      | inl (acc, e) ↦ ground (arith, require_document-ne-stuck acc)
      | inr (inl (x, e)) ↦ ground arith
      | inr (inr e) ↦
          ground
            (arith, parse_sections-ne-stuck (length body) body end 4 (none, []) hb (omega arith))
    ]
