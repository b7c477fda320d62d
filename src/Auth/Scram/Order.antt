-- ===== src/Auth/Scram/Order.antt =====
-- The order of the calls on a client of mongo_common/src/auth/scram.rs, as a relation between a new
-- client and the clients that successful calls lead to, and what holds of each of them.
use mongowire.Base.{
  ◌≡◌, ◌≤◌, ◌<◌, ◌++◌, refl, true, Option, some, none, List, [], ◌∷◌, Bytes, Result, ok, map_ok,
  not, guard, bind_ok, guard-eq-ok, strip_prefix, strip_prefix-some, arith, Option-cases, subst,
  inl, inr, ◌&&◌,
}
use mongowire.Auth.{AuthError}
use mongowire.Auth.Scram.{Crypto, ScramMechanism, max_scram_iterations, salted_password_of}
use mongowire.Auth.Scram.Client.{
  ScramClient, ClientState, ServerFirst, init, first_sent, final_sent, done, client_first_message,
  receive_server_first, client_final_message, receive_server_final, with_nonce, parse, is_none,
  is_first_sent,
}
use mongowire.Auth.Scram.Bounds.{parse_bounds}
use mongowire.Auth.Scram.Signed.{receive_server_final_iff}

pub data Call : Type 0 where
  sends_first sends_final : Call
  receives_first receives_final : Bytes → Call

-- A call without the message that it takes.
pub data Kind : Type 0 where
  first_out first_in final_out final_in : Kind

abbrev pub kind : Call → Kind
kind sends_first = first_out
kind sends_final = final_out
kind (receives_first text) = first_in
kind (receives_final text) = final_in

extends :
    (own nonce : Bytes)
    → not (is_none (strip_prefix own nonce)) ≡ true
    → (rest : Bytes) × (nonce ≡ own ++ rest)
extends own nonce h = elim (Option-cases (strip_prefix own nonce)) [
  | inl e ↦ absurd (ground (arith, e))
  | inr (rest, e) ↦ (rest, strip_prefix-some own nonce rest e)
]

-- The calls that lie behind a client, where its state and what it has read fit together.
abbrev behind : ClientState → Option ServerFirst → Option (List Kind)
behind init none = some []
behind first_sent none = some (first_out ∷ [])
behind first_sent (some sf) = some (first_in ∷ first_out ∷ [])
behind final_sent (some sf) = some (final_out ∷ first_in ∷ first_out ∷ [])
behind done (some sf) = some (final_in ∷ final_out ∷ first_in ∷ first_out ∷ [])
behind _ _ = none

first_in-behind :
    (kinds : List Kind) (c : ScramClient) (sf : ServerFirst)
    → (is_first_sent c.state && is_none c.server_first) ≡ true
    → behind c.state c.server_first ≡ some kinds
    → behind c.state (some sf) ≡ some (first_in ∷ kinds)
first_in-behind kinds c sf h e = ground arith

module _ (C : Crypto) where
  unfoldable pub perform : ScramClient → Call → Result AuthError ScramClient
  perform c sends_first = map_ok (λ r. r.1) (client_first_message c)
  perform c sends_final = map_ok (λ r. r.1) (client_final_message C c)
  perform c (receives_first text) = receive_server_first C c text
  perform c (receives_final text) = receive_server_final C c text

  -- The clients that successful calls lead to, with the kinds of the calls, the last one first.
  pub data Reach (start : ScramClient) : List Kind → ScramClient → Type 0 where
    here : Reach start [] start
    next :
        {kinds : List Kind} {c d : ScramClient} (call : Call)
        → Reach start kinds c
        → perform c call ≡ ok d
        → Reach start (kind call ∷ kinds) d

  -- Before the server's first message is read the client holds no key; after it, the nonce extends
  -- the client's own, the count is in bounds, and the key is derived from them.
  abbrev IsChallenged : ScramClient → Option ServerFirst → Type 0
  IsChallenged c none = c.salted_password ≡ none
  IsChallenged c (some sf) =
      ((rest : Bytes) × (sf.nonce ≡ c.client_nonce ++ rest))
      × (0 < sf.iterations)
      × (sf.iterations ≤ max_scram_iterations)
      × (c.salted_password
          ≡ some (salted_password_of C c.mechanism c.password sf.salt sf.iterations))

  pub record IsOrderly (kinds : List Kind) (c : ScramClient) : Type 0 where
    pub order : behind c.state c.server_first ≡ some kinds
    pub challenged : IsChallenged c c.server_first

  first_out-IsOrderly :
      (kinds : List Kind) (c d : ScramClient)
      → IsOrderly kinds c
      → perform c sends_first ≡ ok d
      → IsOrderly (first_out ∷ kinds) d
  unfolding perform client_first_message
  first_out-IsOrderly kinds c d i h = ground arith

  final_out-IsOrderly :
      (kinds : List Kind) (c d : ScramClient)
      → IsOrderly kinds c
      → perform c sends_final ≡ ok d
      → IsOrderly (final_out ∷ kinds) d
  unfolding perform client_final_message
  final_out-IsOrderly kinds c d i h = ground arith

  final_in-IsOrderly :
      (kinds : List Kind) (c d : ScramClient) (text : Bytes)
      → IsOrderly kinds c
      → perform c (receives_final text) ≡ ok d
      → IsOrderly (final_in ∷ kinds) d
  unfolding perform
  final_in-IsOrderly kinds c d text i h = ground (arith, (receive_server_final_iff C c d text).0 h)

  first_in-IsOrderly :
      (kinds : List Kind) (c d : ScramClient) (text : Bytes)
      → IsOrderly kinds c
      → perform c (receives_first text) ≡ ok d
      → IsOrderly (first_in ∷ kinds) d
  unfolding perform receive_server_first
  first_in-IsOrderly kinds c d text i h =
      bind_ok (guard (is_first_sent c.state && is_none c.server_first) _) _ h λ _ st h.
        bind_ok (parse C text) _ h λ sf pe h.
          bind_ok (guard (not (is_none (strip_prefix c.client_nonce sf.nonce))) _) _ h λ _ ne h.
            let (_, lo, hi) = parse_bounds C text sf pe in
            let extended = extends c.client_nonce sf.nonce (guard-eq-ok _ _ ne) in
            let order = first_in-behind kinds c sf (guard-eq-ok _ _ st) i.order in
            subst (λ x. IsOrderly (first_in ∷ kinds) x)
              {x = record c {
                server_first = some sf;
                salted_password =
                    some (salted_password_of C c.mechanism c.password sf.salt sf.iterations);
                auth_message = c.auth_message ++ b',' ∷ (text ++ b',' ∷ []);
              }}
              (cc) (record { order = order; challenged = (extended, lo, hi, refl) })

  perform-IsOrderly :
      (kinds : List Kind) (c d : ScramClient) (call : Call)
      → IsOrderly kinds c
      → perform c call ≡ ok d
      → IsOrderly (kind call ∷ kinds) d
  perform-IsOrderly kinds c d sends_first i h = first_out-IsOrderly kinds c d i h
  perform-IsOrderly kinds c d sends_final i h = final_out-IsOrderly kinds c d i h
  perform-IsOrderly kinds c d (receives_first text) i h = first_in-IsOrderly kinds c d text i h
  perform-IsOrderly kinds c d (receives_final text) i h = final_in-IsOrderly kinds c d text i h

  -- Whatever calls are made on a new client, those that succeed are a beginning of the protocol's
  -- four steps in their order, and the client's state and whether it holds the server's message tell
  -- which. From the second step on, to the last, it holds the server's message, whose nonce extends
  -- its own and whose count is from 1 to 1,000,000, and a key derived from its password with the
  -- server's salt and count; before that it holds neither.
  pub Reach-IsOrderly :
      (m : ScramMechanism) (user password cn : Bytes) {kinds : List Kind} {c : ScramClient}
      → Reach (with_nonce m user password cn) kinds c
      → IsOrderly kinds c
  unfolding with_nonce
  Reach-IsOrderly m user password cn here = record { order = refl; challenged = refl }
  Reach-IsOrderly m user password cn (next call r h) =
      perform-IsOrderly _ _ _ call (Reach-IsOrderly m user password cn r) h
