-- ===== src/Wire/Msg/RoundTrip.antt =====
-- mongowire/src/messages/op_msg.rs: a message that follows the invariants is parsed back from the
-- bytes that `encode_body` writes.
use mongowire.Base.{
  ℕ, zero, suc, ◌+◌, ◌-◌, ◌<◌, ◌≤◌, ◌^◌, ◌≡◌, refl, sym, ap, ◌∙◌, true, false, Option, none, some,
  List, [], ◌∷◌, ◌++◌, append_assoc, append-nil, Bytes, length, take, drop, ltb, ◌==◌,
  if◌then◌else◌, ok, All, from_le, to_le, drop-append, arith, get_elem?, i32_half, ge→ltb, ne→==,
  drop-add,
}
use mongowire.Bson.{RawDocument}
use mongowire.Bson.Raw.{IsRaw}
use mongowire.Bson.Scan.{slice}
use mongowire.Wire.Sections.{
  DocumentSequence, Sections, MsgFlags, flags_parse, checksum_present, sequences_size, size,
}
use mongowire.Wire.Sections.Slices.{take_document-at, drop-at}
use mongowire.Wire.Msg.{
  OpMsg, parse_document, parse_section, parse_sections, require_document, parse_body, trailer_of,
  trailer_len, body_len, encode_body, Read,
}
use mongowire.Wire.Msg.Written.{
  sequence_len, sequence_bytes, sequences_bytes, checksum_bytes, sections_bytes, op_msg_bytes,
  encode_body-bytes, length-sequence_bytes, length-sections_bytes, length-op_msg_bytes,
}
use mongowire.Wire.Msg.Taken.{IsSequence}
use mongowire.Wire.Msg.Reencode.{IsOpMsg, ChecksumMatches, flags_parse_iff}
use mongowire.Wire.Msg.Placed.{word_at, parse_sequence-at}

-- Sequences that the writer can frame: each section is smaller than 2^31 bytes.
abbrev pub AreSmall : List DocumentSequence → Type 0
AreSmall = All (λ seq. sequence_len seq < i32_half)

-- The next kind byte.
kind_at :
    (body rest : Bytes) (offset kind : ℕ)
    → drop offset body ≡ kind ∷ rest
    → get_elem? body offset ≡ some kind
kind_at [] rest zero kind h = cc
kind_at [] rest (suc offset) kind h = cc
kind_at (b ∷ body) rest zero kind h = ground (arith, h)
kind_at (b ∷ body) rest (suc offset) kind h = kind_at body rest offset kind h

-- One sequence, from its kind byte on.
section_at :
    (body tail : Bytes) (end offset : ℕ) (seq : DocumentSequence) (acc : Read)
    → drop offset body ≡ 1 ∷ (sequence_bytes seq ++ tail)
    → IsSequence seq
    → sequence_len seq < i32_half
    → offset + 1 + sequence_len seq ≤ end
    → end ≤ length body
    → (get_elem? body offset ≡ some 1)
      × (parse_section 1 body end (offset + 1) acc
          ≡ ok ((acc.0, acc.1 ++ seq ∷ []), offset + 1 + sequence_len seq))
      × (drop (offset + 1 + sequence_len seq) body ≡ tail)
unfolding parse_section
section_at body tail end offset seq acc at good small room he =
    let at1 : drop (offset + 1) body ≡ sequence_bytes seq ++ tail =
      drop-at offset body (1 ∷ []) (sequence_bytes seq ++ tail) at in
    let one = parse_sequence-at body tail end (offset + 1) seq at1 good small room he in
    (
      kind_at body (sequence_bytes seq ++ tail) offset 1 at,
      rw one refl,
      rw (length-sequence_bytes seq) at (drop-at (offset + 1) body (sequence_bytes seq) tail at1),
    )

sections_step :
    (fuel : ℕ) (body : Bytes) (end offset kind next : ℕ) (acc acc' : Read)
    → get_elem? body offset ≡ some kind
    → parse_section kind body end (offset + 1) acc ≡ ok (acc', next)
    → parse_sections (suc fuel) body end offset acc
      ≡ (if next == end then ok acc' else parse_sections fuel body end next acc')
unfolding parse_sections
sections_step fuel body end offset kind next acc acc' h k = ground (arith, h, k)

-- The loop over one or more sequences, behind the body document.
parse_sequences-at :
    (seqs : List DocumentSequence) (seq : DocumentSequence) (fuel : ℕ) (body rest : Bytes)
    (end offset : ℕ) (d : RawDocument) (done : List DocumentSequence)
    → drop offset body ≡ sequences_bytes (seq ∷ seqs) ++ rest
    → All IsSequence (seq ∷ seqs)
    → AreSmall (seq ∷ seqs)
    → end ≡ offset + sequences_size (seq ∷ seqs)
    → end ≤ length body
    → sequences_size (seq ∷ seqs) ≤ fuel
    → parse_sections fuel body end offset (some d, done) ≡ ok (some d, done ++ seq ∷ seqs)
unfolding sequences_size
parse_sequences-at seqs seq zero body rest end offset d done at good small hs he hf =
    absurd (omega arith)
parse_sequences-at [] seq (suc fuel) body rest end offset d done at (g, gs) (s, ss) hs he hf =
    let (kind, one, tail) =
      section_at body rest end offset seq (some d, done)
        (at ∙ ap (λ t. 1 ∷ (t ++ rest)) (append-nil (sequence_bytes seq))) g s (omega arith) he in
    let there : offset + 1 + sequence_len seq ≡ end = omega arith in
    let stop : (offset + 1 + sequence_len seq == end) ≡ true = ground arith in
    sections_step fuel body end offset 1 _ _ _ kind one ∙ rw stop refl
parse_sequences-at (seq' ∷ seqs) seq (suc fuel) body rest end offset d done at (g, gs) (s, ss) hs he
      hf =
    let (kind, one, tail) =
      section_at body (sequences_bytes (seq' ∷ seqs) ++ rest) end offset seq (some d, done)
        (at
          ∙ ap (λ t. 1 ∷ t)
              (append_assoc (sequence_bytes seq) (sequences_bytes (seq' ∷ seqs)) rest))
        g s (omega arith) he in
    let ih =
      parse_sequences-at seqs seq' fuel body rest end (offset + 1 + sequence_len seq) d
        (done ++ seq ∷ []) tail gs ss (omega arith) he (omega arith) in
    let on = ne→== (offset + 1 + sequence_len seq) end (omega arith) in
    let join : (done ++ seq ∷ []) ++ seq' ∷ seqs ≡ done ++ seq ∷ seq' ∷ seqs =
      append_assoc done (seq ∷ []) (seq' ∷ seqs) in
    sections_step fuel body end offset 1 _ _ _ kind one ∙ rw on (ih ∙ ap (λ t. ok (some d, t)) join)

-- The loop behind the body document: the end, or one or more sequences.
behind_body :
    (seqs : List DocumentSequence) (fuel : ℕ) (body rest : Bytes) (end offset : ℕ) (d : RawDocument)
    → drop offset body ≡ sequences_bytes seqs ++ rest
    → All IsSequence seqs
    → AreSmall seqs
    → end ≡ offset + sequences_size seqs
    → end ≤ length body
    → sequences_size seqs ≤ fuel
    → (if offset == end then ok (some d, []) else parse_sections fuel body end offset (some d, []))
      ≡ ok (some d, seqs)
unfolding sequences_size
behind_body [] fuel body rest end offset d at good smalls hs he hf = ground arith
behind_body (seq ∷ seqs) fuel body rest end offset d at good smalls hs he hf =
    rw (ne→== offset end (omega arith))
      (parse_sequences-at seqs seq fuel body rest end offset d [] at good smalls hs he hf)

-- The sections of a message, from the kind byte of the body document on.
parse_sections-at :
    (seqs : List DocumentSequence) (fuel : ℕ) (body rest : Bytes) (end : ℕ) (d : RawDocument)
    → drop 4 body ≡ 0 ∷ (d.bytes ++ sequences_bytes seqs) ++ rest
    → IsRaw d.bytes
    → length d.bytes < i32_half
    → All IsSequence seqs
    → AreSmall seqs
    → end ≡ 5 + length d.bytes + sequences_size seqs
    → end ≤ length body
    → end ≤ fuel
    → parse_sections fuel body end 4 (none, []) ≡ ok (some d, seqs)
unfolding parse_section parse_document sequences_size
parse_sections-at seqs zero body rest end d at raw small good smalls hs he hf =
    absurd (omega (arith, hs))
parse_sections-at seqs (suc fuel) body rest end d at raw small good smalls hs he hf =
    let at1 : drop 5 body ≡ d.bytes ++ (sequences_bytes seqs ++ rest) =
      drop-at 4 body (0 ∷ []) _ at ∙ append_assoc d.bytes (sequences_bytes seqs) rest in
    let kind = kind_at body ((d.bytes ++ sequences_bytes seqs) ++ rest) 4 0 at in
    let one =
      take_document-at body (sequences_bytes seqs ++ rest) 5 end d at1 raw small (omega arith) in
    let first : parse_section 0 body end 5 (none, []) ≡ ok ((some d, []), 5 + length d.bytes) =
      rw one refl in
    sections_step fuel body end 4 0 _ _ _ kind first
    ∙ behind_body seqs fuel body rest end (5 + length d.bytes) d
        (drop-at 5 body d.bytes (sequences_bytes seqs ++ rest) at1) good smalls hs he (omega arith)

-- The trailer, read back.
trailer_back :
    (body : Bytes) (f : MsgFlags) (c : Option ℕ) (end : ℕ)
    → ChecksumMatches f c
    → drop end body ≡ checksum_bytes c
    → (trailer_of (checksum_present f) ≡ trailer_len c)
      × ((if checksum_present f then some (from_le (slice end (end + 4) body)) else none) ≡ c)
trailer_back body f none end h cut = rw h (refl, refl)
trailer_back body f (some c) end (h, small) cut =
    let (word, tail) = word_at body [] end c (cut ∙ sym (append-nil (to_le 4 c))) small in
    rw (h, word) (refl, refl)

-- The steps of the parser, each with its result.
parse_body_steps :
    (body : Bytes) (flags : MsgFlags) (acc : Read) (sec : Sections) (c : Option ℕ)
    → ltb (length body) 5 ≡ false
    → flags_parse (from_le (take 4 body)) ≡ ok flags
    → ltb (length body) (6 + trailer_of (checksum_present flags)) ≡ false
    → parse_sections
        (length body)
        body
        (length body - trailer_of (checksum_present flags))
        4
        (none, [])
      ≡ ok acc
    → require_document acc ≡ ok sec
    → (if checksum_present flags
        then some (
            from_le (
              slice
                (length body - trailer_of (checksum_present flags))
                (length body - trailer_of (checksum_present flags) + 4)
                body))
        else none)
      ≡ c
    → parse_body body ≡ ok (record { flags = flags; sections = sec; checksum = c })
unfolding parse_body
parse_body_steps body flags acc sec c h1 h2 h3 h4 h5 h6 =
    rw (h1, h2, h3, h4, h5, h6, parse_body) refl

-- The bounds under which a message can be framed: the body document and each sequence are smaller
-- than 2^31 bytes.
abbrev pub IsSmall : OpMsg → Type 0
IsSmall m = (length m.sections.body.bytes < i32_half) × AreSmall m.sections.sequences

-- A message that follows the invariants of a parsed one, with documents below 2^31 bytes, is parsed
-- back from the bytes that `encode_body` writes.
pub parse_body-encode_body_msg :
    (m : OpMsg) → IsOpMsg m → IsSmall m → parse_body (encode_body m []) ≡ ok m
unfolding require_document size body_len
parse_body-encode_body_msg m (known, matches, raw, seqs, valid) (small, smalls) =
    let body = op_msg_bytes m in
    let tail = sections_bytes m.sections ++ checksum_bytes m.checksum in
    let narrow : m.flags.bits < 2 ^ 32 = omega (arith, known) in
    let (word, at) = word_at body tail 0 m.flags.bits refl narrow in
    let flags = (flags_parse_iff m.flags.bits m.flags).1 (omega (arith, known), known) in
    let end = 4 + size m.sections in
    let cut : drop end body ≡ checksum_bytes m.checksum =
      drop-add 4 (size m.sections) body
      ∙ rw at (
          rw (length-sections_bytes m.sections) at
            (drop-append (sections_bytes m.sections) (checksum_bytes m.checksum))) in
    let (trail, back) = trailer_back body m.flags m.checksum end matches cut in
    let len : length body ≡ end + trailer_len m.checksum = length-op_msg_bytes m in
    let stop : length body - trailer_of (checksum_present m.flags) ≡ end = omega arith in
    let found =
      parse_sections-at m.sections.sequences (length body) body (checksum_bytes m.checksum) end
        m.sections.body at raw small seqs smalls (omega arith) (omega arith) (omega arith) in
    rw (encode_body-bytes m []) (
      parse_body_steps body m.flags (some m.sections.body, m.sections.sequences) m.sections
        m.checksum (ge→ltb (length body) 5 (omega (arith, raw.0))) (ap flags_parse word ∙ flags)
        (ge→ltb (length body) _ (omega (arith, raw.0))) (rw stop found) valid (rw stop back))
