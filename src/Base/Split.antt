-- ===== src/Base/Split.antt =====
-- Text cut at a byte: `split`, `strip_prefix`, `contains` and `replace` of the standard library on
-- byte strings.
use Prim.Native.Nat.{ℕ}
use mathlib.Core.Path.{◌≡◌, refl, sym, ap, ◌∙◌}
use mathlib.Core.Bool.{Bool, false, ◌&&◌, ◌||◌}
use mathlib.Core.Option.{Option, none, some}
use mathlib.Core.List.{List, [], ◌∷◌, ◌++◌}
use native.Mathlib.Omega.{arith}
use mathlib.Core.Logic.{inl, inr}
use mongowire.Base.Tests.{◌==◌, if◌then◌else◌, ==→eq, Bool-cases}
use mongowire.Base.Lists.{All}
use mongowire.Base.Words.{Bytes}

-- `bs.contains(&c)`
unfoldable pub contains : ℕ → Bytes → Bool
contains c [] = false
contains c (b ∷ bs) = b == c || contains c bs

grow_first : ℕ → List Bytes → List Bytes
grow_first b [] = (b ∷ []) ∷ []
grow_first b (field ∷ fields) = (b ∷ field) ∷ fields

-- `bs.split(|&b| b == c)`: one field more than there are separators.
unfoldable pub split_on : ℕ → Bytes → List Bytes
unfolding grow_first
split_on c [] = [] ∷ []
split_on c (b ∷ bs) = let rest = split_on c bs in if b == c then [] ∷ rest else grow_first b rest

-- `fields.join(&c)`
unfoldable pub join_with : ℕ → List Bytes → Bytes
join_with c [] = []
join_with c (field ∷ []) = field
join_with c (field ∷ next ∷ fields) = field ++ c ∷ join_with c (next ∷ fields)

-- `bs.strip_prefix(prefix)`
unfoldable pub strip_prefix : Bytes → Bytes → Option Bytes
strip_prefix [] bs = some bs
strip_prefix (p ∷ prefix) [] = none
strip_prefix (p ∷ prefix) (b ∷ bs) = if p == b then strip_prefix prefix bs else none

-- `s.replace(c, with)` for one character.
unfoldable pub replace_byte : ℕ → Bytes → Bytes → Bytes
replace_byte c by [] = []
replace_byte c by (b ∷ bs) =
    let rest = replace_byte c by bs in if b == c then by ++ rest else b ∷ rest

-- `s.replace(pattern, with)` for a pattern of three characters and one in its place: the
-- occurrences are taken from the left and do not overlap.
unfoldable pub replace_three : ℕ → ℕ → ℕ → ℕ → Bytes → Bytes
replace_three p q r by [] = []
replace_three p q r by (x ∷ []) = x ∷ []
replace_three p q r by (x ∷ y ∷ []) = x ∷ y ∷ []
replace_three p q r by (x ∷ y ∷ z ∷ bs) =
    let after = replace_three p q r by bs in
    let shifted = replace_three p q r by (y ∷ z ∷ bs) in
    if x == p && y == q && z == r then by ∷ after else x ∷ shifted

pub split_on-single : (c : ℕ) (s : Bytes) → contains c s ≡ false → split_on c s ≡ s ∷ []
unfolding contains split_on
split_on-single c [] h = refl
split_on-single c (b ∷ s) h = ground (arith, split_on-single c s)

-- A field ends at its separator.
pub split_on-append :
    (c : ℕ) (s rest : Bytes)
    → contains c s ≡ false
    → split_on c (s ++ c ∷ rest) ≡ s ∷ split_on c rest
unfolding contains split_on
split_on-append c [] rest h = ground arith
split_on-append c (b ∷ s) rest h = ground (arith, split_on-append c s rest)

pub strip_prefix-append : (prefix rest : Bytes) → strip_prefix prefix (prefix ++ rest) ≡ some rest
unfolding strip_prefix
strip_prefix-append [] rest = refl
strip_prefix-append (p ∷ prefix) rest = ground (arith, strip_prefix-append prefix rest)

-- What a prefix was stripped from.
pub strip_prefix-some :
    (prefix bs rest : Bytes) → strip_prefix prefix bs ≡ some rest → bs ≡ prefix ++ rest
unfolding strip_prefix
strip_prefix-some [] bs rest h = cc
strip_prefix-some (p ∷ prefix) [] rest h = cc
strip_prefix-some (p ∷ prefix) (b ∷ bs) rest h = ground (arith, strip_prefix-some prefix bs rest)

pub contains-append :
    (c : ℕ) (s t : Bytes)
    → contains c s ≡ false
    → contains c t ≡ false
    → contains c (s ++ t) ≡ false
unfolding contains
contains-append c [] t h k = k
contains-append c (b ∷ s) t h k = ground (arith, contains-append c s t)

-- A cut gives at least one field.
split_on-cons :
    (c : ℕ) (bs : Bytes)
    → (field : Bytes) × (fields : List Bytes) × (split_on c bs ≡ field ∷ fields)
unfolding split_on
split_on-cons c [] = ([], [], refl)
split_on-cons c (b ∷ bs) =
    let (field, fields, e) = split_on-cons c bs in
    elim (Bool-cases (b == c)) [
      | inl t ↦ ([], field ∷ fields, rw (e, t) refl)
      | inr f ↦ (b ∷ field, fields, rw (e, f) refl)
    ]

join_with-nil :
    (c : ℕ) (field : Bytes) (fields : List Bytes)
    → join_with c ([] ∷ field ∷ fields) ≡ c ∷ join_with c (field ∷ fields)
unfolding join_with
join_with-nil c field fields = refl

join_with-cons :
    (c b : ℕ) (field : Bytes) (fields : List Bytes)
    → join_with c ((b ∷ field) ∷ fields) ≡ b ∷ join_with c (field ∷ fields)
unfolding join_with
join_with-cons c b field [] = refl
join_with-cons c b field (next ∷ fields) = refl

-- The fields, put together again, are the text; none of them holds a separator.
pub join_with-split_on : (c : ℕ) (bs : Bytes) → join_with c (split_on c bs) ≡ bs
unfolding join_with split_on
join_with-split_on c [] = refl
join_with-split_on c (b ∷ bs) =
    let (field, fields, e) = split_on-cons c bs in
    let ih = ap (λ t. join_with c t) (sym e) ∙ join_with-split_on c bs in
    elim (Bool-cases (b == c)) [
      | inl t ↦ rw (e, t) (join_with-nil c field fields ∙ (rw (==→eq b c t) (ap (λ t. c ∷ t) ih)))
      | inr f ↦ rw (e, f) (join_with-cons c b field fields ∙ ap (λ t. b ∷ t) ih)
    ]

abbrev pub Lacks : ℕ → Bytes → Type 0
Lacks c field = contains c field ≡ false

grow_first-Lacks :
    (c b : ℕ) (fields : List Bytes)
    → (b == c) ≡ false
    → All (Lacks c) fields
    → All (Lacks c) (grow_first b fields)
unfolding grow_first contains
grow_first-Lacks c b [] e h = (rw e refl, tt)
grow_first-Lacks c b (field ∷ fields) e (h, hs) = (rw e h, hs)

nil_lacks : (c : ℕ) → contains c [] ≡ false
unfolding contains
nil_lacks c = refl

pub split_on-Lacks : (c : ℕ) (bs : Bytes) → All (Lacks c) (split_on c bs)
unfolding split_on
split_on-Lacks c [] = (nil_lacks c, tt)
split_on-Lacks c (b ∷ bs) = elim (Bool-cases (b == c)) [
  | inl t ↦ rw t (nil_lacks c, split_on-Lacks c bs)
  | inr f ↦ rw f (grow_first-Lacks c b (split_on c bs) f (split_on-Lacks c bs))
]
