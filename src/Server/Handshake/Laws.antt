-- ===== src/Server/Handshake/Laws.antt =====
-- What the choice of compressors in mongowire/src/api/mod.rs comes to.
use mongowire.Base.{
  ℕ, suc, ◌≡◌, refl, Bool, true, false, if◌then◌else◌, ◌==◌, ==→eq, ==_refl, Option, none, some,
  List, [], ◌∷◌, Bytes, mem, Bool-cases, inl, inr, ap, sym, ◌∙◌,
}
use mongowire.Wire.{CompressorId, noop, snappy, zlib, zstd, to_u8, from_u8}
use mongowire.Server.{name}
use mongowire.Server.Handshake.{negotiate, filter_requested}

-- A list that another gives when some of its members are left out.
pub data IsSublist : List CompressorId → List CompressorId → Type 0 where
  nil : IsSublist [] []
  keep :
      {c : CompressorId} {xs ys : List CompressorId} → IsSublist xs ys → IsSublist (c ∷ xs) (c ∷ ys)
  skip : {c : CompressorId} {xs ys : List CompressorId} → IsSublist xs ys → IsSublist xs (c ∷ ys)

abbrev same : CompressorId → CompressorId → Bool
same c d = to_u8 c == to_u8 d

-- How often a compressor stands in a list.
pub count : CompressorId → List CompressorId → ℕ
count c [] = 0
count c (d ∷ ds) = if same d c then suc (count c ds) else count c ds

-- The number, where the test holds.
abbrev pub only_if : Bool → ℕ → ℕ
only_if true n = n
only_if false n = 0

abbrev pub asked_for : CompressorId → Option (List Bytes) → Bool
asked_for c none = false
asked_for c (some requested) = mem (name c) requested

from_u8-to_u8 : (c : CompressorId) → from_u8 (to_u8 c) ≡ some c
unfolding from_u8 to_u8
from_u8-to_u8 noop = refl
from_u8-to_u8 snappy = refl
from_u8-to_u8 zlib = refl
from_u8-to_u8 zstd = refl

same→eq : (c d : CompressorId) → same c d ≡ true → c ≡ d
same→eq c d h = let e = sym (from_u8-to_u8 c) ∙ (ap from_u8 (==→eq _ _ h) ∙ from_u8-to_u8 d) in cc e

filter_requested-IsSublist :
    (requested : List Bytes) (configured : List CompressorId)
    → IsSublist (filter_requested requested configured) configured
unfolding filter_requested
filter_requested-IsSublist requested [] = nil
filter_requested-IsSublist requested (c ∷ configured) = elim (Bool-cases (mem (name c) requested)) [
  | inl t ↦ rw t (keep (filter_requested-IsSublist requested configured))
  | inr f ↦ rw f (skip (filter_requested-IsSublist requested configured))
]

only_if_zero : (b : Bool) → only_if b 0 ≡ 0
only_if_zero true = refl
only_if_zero false = refl

count-filter_requested :
    (requested : List Bytes) (configured : List CompressorId) (c : CompressorId)
    → count c (filter_requested requested configured)
      ≡ only_if (mem (name c) requested) (count c configured)
unfolding filter_requested count
count-filter_requested requested [] c = sym (only_if_zero (mem (name c) requested))
count-filter_requested requested (d ∷ configured) c =
    let ih = count-filter_requested requested configured c in
    elim (Bool-cases (same d c)) [
      | inl t ↦
          rw (t, same→eq d c t)
            (elim (Bool-cases (mem (name c) requested)) [
              | inl u ↦ rw (u, ==_refl (to_u8 c)) (ap suc (ih ∙ rw u refl))
              | inr g ↦ rw g (ih ∙ rw g refl)
            ])
      | inr f ↦ elim (Bool-cases (mem (name d) requested)) [
        | inl u ↦ rw (u, f) ih
        | inr g ↦ rw (g, f) ih
      ]
    ]

not_asked : (c : CompressorId) (configured : List CompressorId) → IsSublist [] configured
not_asked c [] = nil
not_asked c (d ∷ configured) = skip (not_asked c configured)

-- The compressors agreed on are a sublist of the configured ones, so in the server's order, in
-- which each that the client asked for stands as often as the server lists it, and no other stands;
-- without a request there are none.
pub negotiate_preference :
    (configured : List CompressorId) (requested : Option (List Bytes))
    → IsSublist (negotiate configured requested) configured
      × ((c : CompressorId)
          → count c (negotiate configured requested)
            ≡ only_if (asked_for c requested) (count c configured))
unfolding negotiate count
negotiate_preference configured none = (not_asked noop configured, λ c. refl)
negotiate_preference configured (some requested) =
    (filter_requested-IsSublist requested configured, count-filter_requested requested configured)
