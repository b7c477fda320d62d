-- ===== src/Auth/Scram/Attributes.antt =====
-- Attribute lists of SCRAM messages and escaped user names, written and read back.
use mongowire.Base.{
  ◌≡◌, refl, true, false, [], ◌∷◌, ◌++◌, List, Bytes, ℕ, ltb, ◌==◌, ok, contains, contains-append,
  replace_byte, split_on-append, split_on-single, Lacks, arith, Bool-cases, inl, inr,
}
use mongowire.Auth.Scram.{Attribute, parse_attributes, escape_username}

-- `k=v`
abbrev pub pair : ℕ → Bytes → Attribute
pair k v = record { key = k ∷ []; value = v }

lacks-pair : (k : ℕ) (v : Bytes) → (k == b',') ≡ false → Lacks b',' v → Lacks b',' (k ∷ b'=' ∷ v)
unfolding contains
lacks-pair k v h l = ground (arith, l)

pub parse_attributes-single :
    (k : ℕ) (v : Bytes)
    → ltb k 128 ≡ true
    → (k == b',') ≡ false
    → Lacks b',' v
    → parse_attributes (k ∷ b'=' ∷ v) ≡ ok (pair k v ∷ [])
unfolding parse_attributes
parse_attributes-single k v h n l =
    rw (split_on-single b',' (k ∷ b'=' ∷ v) (lacks-pair k v n l), h) refl

pub parse_attributes-append :
    (k : ℕ) (v rest : Bytes) {attrs : List Attribute}
    → ltb k 128 ≡ true
    → (k == b',') ≡ false
    → Lacks b',' v
    → parse_attributes rest ≡ ok attrs
    → parse_attributes (k ∷ b'=' ∷ (v ++ b',' ∷ rest)) ≡ ok (pair k v ∷ attrs)
unfolding parse_attributes
parse_attributes-append k v rest h n l e =
    rw (split_on-append b',' (k ∷ b'=' ∷ v) rest (lacks-pair k v n l), h, e) refl

replaced : (c : ℕ) (by s : Bytes) → Lacks c by → Lacks c (replace_byte c by s)
unfolding replace_byte contains
replaced c by [] h = refl
replaced c by (b ∷ s) h = elim (Bool-cases (b == c)) [
  | inl t ↦ rw t (contains-append c by (replace_byte c by s) h (replaced c by s h))
  | inr f ↦ rw (f, f) (replaced c by s h)
]

pub escape_username-Lacks : (username : Bytes) → Lacks b',' (escape_username username)
unfolding escape_username contains
escape_username-Lacks username = replaced b',' (b'=' ∷ b'2' ∷ b'C' ∷ []) _ refl
