-- ===== src/Examples.antt =====
-- Runs on concrete data: documents, messages and frames that meet the hypotheses of the theorems.
mod Bson
mod Digests
mod Auth
mod Server
mod Socket
mod Wire
mod Frames
use mongowire.Base.{
  ℕ, ◌<◌, ◌≡◌, refl, Bool, true, false, ◌&&◌, [], ◌∷◌, Bytes, AreBytes, ltb, ltb→lt, arith,
}
use mongowire.Bson.{RawDocument}

abbrev pub empty_document : RawDocument
empty_document = record { bytes = 5 ∷ 0 ∷ 0 ∷ 0 ∷ 0 ∷ [] }

-- {"a": null}
abbrev pub null_document : RawDocument
null_document = record { bytes = 8 ∷ 0 ∷ 0 ∷ 0 ∷ 10 ∷ 97 ∷ 0 ∷ 0 ∷ [] }

abbrev pub all_bytes : Bytes → Bool
all_bytes [] = true
all_bytes (b ∷ bs) = elim (ltb b 256) [ true ↦ all_bytes bs | false ↦ false ]

pub all_bytes-AreBytes : (bs : Bytes) → all_bytes bs ≡ true → AreBytes bs
all_bytes-AreBytes [] h = tt
all_bytes-AreBytes (b ∷ bs) h = ground (arith, h, ltb→lt b 256, all_bytes-AreBytes bs)
