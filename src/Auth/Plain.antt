-- ===== src/Auth/Plain.antt =====
-- mongo_common/src/auth/plain.rs: the payload of the PLAIN mechanism, three fields apart by NULs.
use mongowire.Base.{
  ◌≡◌, refl, true, false, [], ◌∷◌, ◌++◌, ◌↔◌, Bytes, List, is_utf8, if◌then◌else◌, Result, ok, err,
  ◌>>=◌, contains, split_on, split_on-append, split_on-single, arith, join_with, join_with-split_on,
  Lacks, split_on-Lacks, All, sym, ap, ◌∙◌, subst, append_assoc,
}
use mongowire.Auth.{AuthError, invalid_message}

pub record PlainMessage : Type 0 where
  pub authz_id : Bytes
  pub authc_id : Bytes
  pub password : Bytes

abbrev as_utf8 : Bytes → Result AuthError Bytes
as_utf8 bytes =
    if is_utf8 bytes then ok bytes else err (invalid_message "payload is not valid UTF-8")

-- The three fields of a payload that has exactly two separators.
three_fields : List Bytes → Result AuthError PlainMessage
three_fields (authz ∷ authc ∷ pass ∷ []) = do
  authz_id ← as_utf8 authz
  authc_id ← as_utf8 authc
  password ← as_utf8 pass
  ok (record { authz_id = authz_id; authc_id = authc_id; password = password })
three_fields _ = err (invalid_message "expected two NUL separators")

unfoldable pub parse_client_payload : Bytes → Result AuthError PlainMessage
unfolding three_fields
parse_client_payload payload = three_fields (split_on 0 payload)

unfoldable pub build_client_payload : Bytes → Bytes → Bytes → Bytes
build_client_payload authz_id authc_id password =
    ((((authz_id ++ 0 ∷ []) ++ authc_id) ++ 0 ∷ []) ++ password)

abbrev IsPlain : Bytes → Type 0
IsPlain field = (contains 0 field ≡ false) × (is_utf8 field ≡ true)

-- The fields that a payload can carry.
unfoldable pub IsPlainMessage : PlainMessage → Type 0
IsPlainMessage m = IsPlain m.authz_id × IsPlain m.authc_id × IsPlain m.password

three_fields-ok :
    (fields : List Bytes) (m : PlainMessage)
    → three_fields fields ≡ ok m
    → (fields ≡ m.authz_id ∷ m.authc_id ∷ m.password ∷ [])
      × (is_utf8 m.authz_id ≡ true)
      × (is_utf8 m.authc_id ≡ true)
      × (is_utf8 m.password ≡ true)
unfolding three_fields
three_fields-ok [] m h = cc
three_fields-ok (a ∷ []) m h = cc
three_fields-ok (a ∷ b ∷ []) m h = cc
three_fields-ok (a ∷ b ∷ c ∷ []) m h = ground arith
three_fields-ok (a ∷ b ∷ c ∷ d ∷ fields) m h = cc

joined : (a b c : Bytes) → join_with 0 (a ∷ b ∷ c ∷ []) ≡ build_client_payload a b c
unfolding join_with build_client_payload
joined a b c = simp append_assoc

split_payload :
    (a b c : Bytes)
    → Lacks 0 a
    → Lacks 0 b
    → Lacks 0 c
    → split_on 0 (build_client_payload a b c) ≡ a ∷ b ∷ c ∷ []
unfolding join_with
split_payload a b c ha hb hc =
    rw
      (
        sym (joined a b c),
        split_on-append 0 a (b ++ 0 ∷ c) ha,
        split_on-append 0 b c hb,
        split_on-single 0 c hc,
      )
      refl

-- A payload is parsed as a message exactly if it is the one built from that message, whose three
-- fields hold no NUL and are valid UTF-8.
pub parse_client_payload_iff :
    (payload : Bytes) (m : PlainMessage)
    → (parse_client_payload payload ≡ ok m)
      ↔ ((payload ≡ build_client_payload m.authz_id m.authc_id m.password) × IsPlainMessage m)
unfolding parse_client_payload IsPlainMessage
parse_client_payload_iff payload m = (forth, back)
  where
    forth :
        parse_client_payload payload ≡ ok m
        → (payload ≡ build_client_payload m.authz_id m.authc_id m.password) × IsPlainMessage m
    forth h =
        let (e, ua, ub, uc) = three_fields-ok (split_on 0 payload) m h in
        let (la, (lb, (lc, _))) = subst (λ t. All (Lacks 0) t) e (split_on-Lacks 0 payload) in
        (
          sym (join_with-split_on 0 payload)
              ∙ (ap (λ t. join_with 0 t) e ∙ joined m.authz_id m.authc_id m.password),
          ((la, ua), (lb, ub), (lc, uc)),
        )

    back :
        (payload ≡ build_client_payload m.authz_id m.authc_id m.password) × IsPlainMessage m
        → parse_client_payload payload ≡ ok m
    back (e, ((la, ua), (lb, ub), (lc, uc))) =
        rw (e, split_payload m.authz_id m.authc_id m.password la lb lc, ua, ub, uc) refl
