-- ===== src/Server/Sasl/Username.antt =====
-- The user name of a client-first message (mongo_common/src/auth/scram.rs writes it,
-- mongowire/src/api/auth.rs reads it).
use mongowire.Base.{
  ℕ, ◌≡◌, refl, false, ◌==◌, some, [], ◌∷◌, ◌++◌, Bytes, replace_byte, replace_three, Bool-cases,
  inl, inr, ap, ==→eq, split_on-append, Lacks, contains, strip_prefix, ◌∙◌,
}
use mongowire.Auth.Scram.{escape_username, gs2_no_binding_header}
use mongowire.Auth.Scram.Attributes.{escape_username-Lacks}
use mongowire.Auth.Scram.Client.{first_bare}
use mongowire.Server.Sasl.{unescape_username, parse_client_first_username}

-- A character that does not begin the pattern is kept.
replace_three-skip :
    (p q r by x : ℕ) (s : Bytes)
    → (x == p) ≡ false
    → replace_three p q r by (x ∷ s) ≡ x ∷ replace_three p q r by s
unfolding replace_three
replace_three-skip p q r by x [] h = refl
replace_three-skip p q r by x (y ∷ []) h = refl
replace_three-skip p q r by x (y ∷ z ∷ s) h = rw h refl

abbrev escaped_equals : Bytes
escaped_equals = b'=' ∷ b'3' ∷ b'D' ∷ []

abbrev escaped_comma : Bytes
escaped_comma = b'=' ∷ b'2' ∷ b'C' ∷ []

undo_equals :
    (u : Bytes) → replace_three b'=' b'3' b'D' b'=' (replace_byte b'=' escaped_equals u) ≡ u
unfolding replace_byte replace_three
undo_equals [] = refl
undo_equals (b ∷ u) = elim (Bool-cases (b == b'=')) [
  | inl t ↦ rw (t, ==→eq b b'=' t) (ap (λ s. b'=' ∷ s) (undo_equals u))
  | inr f ↦ rw f (replace_three-skip b'=' b'3' b'D' b'=' b _ f ∙ ap (λ s. b ∷ s) (undo_equals u))
]

undo_commas :
    (u : Bytes)
    → replace_three b'=' b'2' b'C' b','
        (replace_byte b',' escaped_comma (replace_byte b'=' escaped_equals u))
      ≡ replace_byte b'=' escaped_equals u
unfolding replace_byte replace_three
undo_commas [] = refl
undo_commas (b ∷ u) = elim (Bool-cases (b == b'=')) [
  | inl t ↦
      let text = replace_byte b',' escaped_comma (replace_byte b'=' escaped_equals u) in
      rw t (
        ap (λ s. b'=' ∷ s)
          (replace_three-skip b'=' b'2' b'C' b',' b'3' (b'D' ∷ text) refl
            ∙ ap (λ s. b'3' ∷ s)
                (replace_three-skip b'=' b'2' b'C' b',' b'D' text refl
                  ∙ ap (λ s. b'D' ∷ s) (undo_commas u))))
  | inr f ↦ elim (Bool-cases (b == b',')) [
    | inl t ↦ rw (f, t, ==→eq b b',' t) (ap (λ s. b',' ∷ s) (undo_commas u))
    | inr g ↦
        rw (f, g) (replace_three-skip b'=' b'2' b'C' b',' b _ f ∙ ap (λ s. b ∷ s) (undo_commas u))
  ]
]

unescape_username-escape_username : (user : Bytes) → unescape_username (escape_username user) ≡ user
unfolding unescape_username escape_username
unescape_username-escape_username user = rw (undo_commas user) (undo_equals user)

lacks-name : (s : Bytes) → Lacks b',' s → Lacks b',' (b'n' ∷ b'=' ∷ s)
unfolding contains
lacks-name s h = h

-- The server reads, from the first message that a client writes, the client's user name, whatever
-- commas and equals signs it holds.
pub parse_client_first_username-first_bare :
    (user cn : Bytes)
    → parse_client_first_username (gs2_no_binding_header ++ first_bare user cn) ≡ some user
unfolding parse_client_first_username first_bare strip_prefix
parse_client_first_username-first_bare user cn =
    rw
      (
        split_on-append b',' (b'n' ∷ b'=' ∷ escape_username user) (b'r' ∷ b'=' ∷ cn)
            (lacks-name (escape_username user) (escape_username-Lacks user)),
        unescape_username-escape_username user,
      )
      refl
