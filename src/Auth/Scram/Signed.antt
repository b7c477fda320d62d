-- ===== src/Auth/Scram/Signed.antt =====
-- mongo_common/src/auth/scram.rs: what the client has checked when it reports success.
use mongowire.Base.{
  ◌≡◌, ◌↔◌, ◌&&◌, ◌==◌, refl, true, false, Bool, some, [], ◌∷◌, List, Bytes, length, ok, guard,
  bind_ok, guard-eq-ok, if_ok, bytes_eq, bytes_eq→eq, bytes_eq_refl, ==_refl, ap, sym, ◌∙◌,
}
use mongowire.Auth.Scram.{
  Crypto, Attribute, server_key_label, hmac_bytes, parse_attributes, has_key,
}
use mongowire.Auth.Scram.Client.{
  ScramClient, ClientState, init, first_sent, final_sent, done, is_final_sent, receive_server_final,
  ok_or, ok_or-some, only_attribute, verify_signature,
}

final_sent_state : (st : ClientState) → is_final_sent st ≡ true → st ≡ final_sent
final_sent_state init h = cc
final_sent_state first_sent h = cc
final_sent_state final_sent h = refl
final_sent_state done h = cc

and_right : (a b : Bool) → (a && b) ≡ true → b ≡ true
and_right true b h = h
and_right false b h = cc

module _ (C : Crypto) where
  abbrev pub signature_of : ScramClient → Bytes → Bytes
  signature_of c salted =
      hmac_bytes C c.mechanism (hmac_bytes C c.mechanism salted server_key_label) c.auth_message

  -- A server-final message that the client has to accept: its one attribute `v` is the signature
  -- of the transcript under the server key that the client's own salted password gives.
  pub record IsSigned (c : ScramClient) (text : Bytes) : Type 0 where
    pub value : Bytes
    pub salted : Bytes
    pub parsed : parse_attributes text ≡ ok (record { key = b'v' ∷ []; value = value } ∷ [])
    pub derived : c.salted_password ≡ some salted
    pub decoded : C.base64_decode value ≡ some (signature_of c salted)

  only_attribute-ok :
      (attrs : List Attribute) (a : Attribute) → only_attribute C attrs ≡ ok a → attrs ≡ a ∷ []
  only_attribute-ok [] a h = cc
  only_attribute-ok (b ∷ []) a h = cc
  only_attribute-ok (b ∷ e ∷ attrs) a h = cc

  verify_signature-ok :
      (c d : ScramClient) (value : Bytes)
      → verify_signature C c value ≡ ok d
      → (salted : Bytes) × (c.salted_password ≡ some salted)
        × (C.base64_decode value ≡ some (signature_of c salted))
        × (d ≡ record c { state = done })
  unfolding verify_signature
  verify_signature-ok c d value h = bind_ok (ok_or (C.base64_decode value) _) _ h λ received de h.
      bind_ok (ok_or c.salted_password _) _ h λ salted se h.
        if_ok
          (length (signature_of c salted) == length received
            && bytes_eq (signature_of c salted) received)
          h
          (λ te h. (
            salted,
            ok_or-some c.salted_password _ se,
            ok_or-some (C.base64_decode value) _ de
                ∙ ap some (sym (bytes_eq→eq _ _ (and_right _ _ te))),
            cc,
          ))
          λ _ e. cc

  receive_server_final-IsSigned :
      (c d : ScramClient) (text : Bytes)
      → receive_server_final C c text ≡ ok d
      → (c.state ≡ final_sent) × IsSigned c text × (d ≡ record c { state = done })
  unfolding receive_server_final
  receive_server_final-IsSigned c d text h = bind_ok (guard (is_final_sent c.state) _) _ h λ _ st h.
      bind_ok (parse_attributes text) _ h λ attrs pe h.
        bind_ok (only_attribute C attrs) _ h λ a oe h.
          if_ok (has_key a b'e') h (λ _ e. cc)
            λ _ h.
              if_ok (has_key a b'v') h
                (λ ve h.
                  let (salted, se, de, re) = verify_signature-ok c d a.value h in
                  (
                    final_sent_state c.state (guard-eq-ok _ _ st),
                    record {
                      value = a.value;
                      salted = salted;
                      parsed =
                          pe
                          ∙ ap ok (
                              only_attribute-ok attrs a oe
                              ∙ ap (λ k. record { key = k; value = a.value } ∷ [])
                                  (bytes_eq→eq a.key _ ve));
                      derived = se;
                      decoded = de;
                    },
                    re,
                  ))
                λ _ e. cc

  IsSigned-receive_server_final :
      (c : ScramClient) (text : Bytes)
      → c.state ≡ final_sent
      → IsSigned c text
      → receive_server_final C c text ≡ ok (record c { state = done })
  unfolding receive_server_final bytes_eq
  IsSigned-receive_server_final c text st a =
      rw
        (
          st,
          a.parsed,
          a.decoded,
          a.derived,
          ==_refl (length (signature_of c a.salted)),
          bytes_eq_refl (signature_of c a.salted),
        )
        refl

  -- The client accepts a server-final message exactly if it has sent its proof and the message is
  -- signed with the server key that the client's salted password gives, over the client's own
  -- transcript; nothing of the client changes but its state, which is done.
  pub receive_server_final_iff :
      (c d : ScramClient) (text : Bytes)
      → (receive_server_final C c text ≡ ok d)
        ↔ ((c.state ≡ final_sent) × IsSigned c text × (d ≡ record c { state = done }))
  receive_server_final_iff c d text = (
    receive_server_final-IsSigned c d text,
    λ p. let (st, a, e) = p in IsSigned-receive_server_final c text st a ∙ ap ok (sym e),
  )
