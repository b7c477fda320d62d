-- ===== src/Bson/Names.antt =====
-- wirebson/src/raw.rs: walking the fields of a raw document (`fields`, `get`), and the names that a
-- whole walk collects.
use mongowire.Base.{
  ℕ, zero, suc, ◌<◌, ◌≡◌, ◌≢◌, Option, none, some, List, [], ◌∷◌, Bytes, length, length-drop,
  if◌then◌else◌, Result, ok, stuck, ◌>>=◌, >>=-ne-stuck, arith, bytes_eq,
}
use mongowire.Bson.{RawDocument, RawBsonRef, Error}
use mongowire.Bson.Scan.{Scanner, scanner_new, next}
use mongowire.Bson.Decode.Ends.{left, next-ne-stuck, next_progress}

-- One step of the iterator: a field, the end, or the error that ends it.
unfoldable names_from : ℕ → Scanner → Result Error (List Bytes)
names_from zero sc = stuck
names_from (suc fuel) sc = do
  (item, sc') ← next sc
  elim item [ none ↦ ok [] | some (name, raw) ↦ do names ← names_from fuel sc'; ok (name ∷ names) ]

-- `doc.fields()`, collected into the names or the first error.
unfoldable pub field_names : RawDocument → Result Error (List Bytes)
unfolding names_from
field_names d = names_from (suc (length d.bytes)) (scanner_new d.bytes)

unfoldable get_from : ℕ → Bytes → Scanner → Result Error (Option RawBsonRef)
get_from zero key sc = stuck
get_from (suc fuel) key sc = do
  (item, sc') ← next sc
  elim item [
    | none ↦ ok none
    | some (name, raw) ↦
        let rest = get_from fuel key sc' in if bytes_eq name key then ok (some raw) else rest
  ]

unfoldable pub get : RawDocument → Bytes → Result Error (Option RawBsonRef)
unfolding get_from
get d key = get_from (suc (length d.bytes)) key (scanner_new d.bytes)

-- What follows a step, in terms of the walk from where it ended.
names_step :
    (fuel : ℕ) (sc sc' : Scanner) (item : Option (Bytes × RawBsonRef))
    → (left sc' < left sc → names_from fuel sc' ≢ stuck)
    → next sc ≡ ok (item, sc')
    → (elim item [
      | none ↦ ok []
      | some (name, raw) ↦ do names ← names_from fuel sc'; ok (name ∷ names)
    ])
      ≢ stuck
names_step fuel sc sc' none ih e = λ q. cc
names_step fuel sc sc' (some (name, raw)) ih e =
    >>=-ne-stuck (names_from fuel sc') _ (ih ((next_progress sc sc' name raw e).0)) λ ns e2. λ q. cc

names_from-ne-stuck : (fuel : ℕ) (sc : Scanner) → left sc < fuel → names_from fuel sc ≢ stuck
unfolding names_from
names_from-ne-stuck zero sc h = absurd (omega arith)
names_from-ne-stuck (suc fuel) sc h =
    >>=-ne-stuck (next sc) _ (next-ne-stuck sc)
      λ p e. names_step fuel sc p.1 p.0 (λ less. names_from-ne-stuck fuel p.1 (omega arith)) e

pub field_names-ne-stuck : (d : RawDocument) → field_names d ≢ stuck
unfolding field_names scanner_new
field_names-ne-stuck d =
    names_from-ne-stuck (suc (length d.bytes)) (scanner_new d.bytes)
      (omega (arith, length-drop 4 d.bytes))
