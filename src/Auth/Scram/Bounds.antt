-- ===== src/Auth/Scram/Bounds.antt =====
-- What the client accepts of a server-first message (mongo_common/src/auth/scram.rs).
use mongowire.Base.{
  ℕ, ◌≡◌, ◌≤◌, ◌<◌, Option, some, none, List, [], ◌∷◌, Bytes, ok, bind_ok, if_ok, arith, ◌&&◌,
  length, parse_u32, subst,
}
use mongowire.Auth.Scram.{Crypto, Attribute, has_key, max_scram_iterations, parse_attributes}
use mongowire.Auth.Scram.Client.{
  ServerFirst, Slots, parse, take_attribute, take_attributes, is_none, ok_or, ok_or-some, in_range,
  non_empty,
}

-- A count that was read is within the client's bounds.
abbrev InBounds : Option ℕ → Type 0
InBounds none = Unit
InBounds (some n) = (0 < n) × (n ≤ max_scram_iterations)

carry : (x y : Option ℕ) → x ≡ y → InBounds x → InBounds y
carry x y e i = subst InBounds e i

longer : (x y : Bytes) → x ≡ y → 0 < length x → 0 < length y
longer x y e h = subst (λ t. 0 < length t) e h

not_empty : (slot : Option Bytes) {nonce : Bytes} → non_empty slot ≡ some nonce → 0 < length nonce
not_empty none h = cc
not_empty (some []) h = cc
not_empty (some (b ∷ bs)) h = longer (b ∷ bs) _ (cc) (omega arith)

module _ (C : Crypto) where
  in_range-InBounds : (parsed : ℕ) {n : ℕ} → in_range C parsed ≡ ok n → InBounds (some n)
  unfolding in_range
  in_range-InBounds parsed h = ground arith

  take_attribute-InBounds :
      (s t : Slots) (a : Attribute)
      → InBounds s.iterations
      → take_attribute C s a ≡ ok t
      → InBounds t.iterations
  unfolding take_attribute
  take_attribute-InBounds s t a i h =
      if_ok (has_key a b'r' && is_none s.nonce) h (λ _ e. carry s.iterations t.iterations (cc) i)
        λ _ h.
          if_ok (has_key a b's' && is_none s.salt) h
            (λ _ h.
              bind_ok (ok_or (C.base64_decode a.value) _) _ h
                λ salt _ h. carry s.iterations t.iterations (cc) i)
            λ _ h.
              if_ok (has_key a b'i' && is_none s.iterations) h
                (λ _ h. bind_ok (ok_or (parse_u32 a.value) _) _ h λ parsed _ h.
                  bind_ok (in_range C parsed) _ h
                    λ n e h. carry (some n) t.iterations (cc) (in_range-InBounds parsed e))
                λ _ h. carry s.iterations t.iterations (cc) i

  take_attributes-InBounds :
      (attrs : List Attribute) (s t : Slots)
      → InBounds s.iterations
      → take_attributes C s attrs ≡ ok t
      → InBounds t.iterations
  unfolding take_attributes
  take_attributes-InBounds [] s t i h = carry s.iterations t.iterations (cc) i
  take_attributes-InBounds (a ∷ attrs) s t i h =
      bind_ok (take_attribute C s a) _ h
        λ u e h. take_attributes-InBounds attrs u t (take_attribute-InBounds s u a i e) h

  -- A server-first message that is accepted has a nonce that is not empty and a count from 1 up to
  -- a million.
  pub parse_bounds :
      (text : Bytes) (sf : ServerFirst)
      → parse C text ≡ ok sf
      → (0 < length sf.nonce) × (0 < sf.iterations) × (sf.iterations ≤ max_scram_iterations)
  unfolding parse
  parse_bounds text sf h = bind_ok (parse_attributes text) _ h λ attrs _ h.
      bind_ok (take_attributes C _ attrs) _ h λ slots te h.
        bind_ok (ok_or (non_empty slots.nonce) _) _ h λ nonce ne h.
          bind_ok (ok_or slots.salt _) _ h λ salt _ h.
            bind_ok (ok_or slots.iterations _) _ h λ iterations ie h.
              let bounds = take_attributes-InBounds attrs _ slots tt te in
              let counted = carry slots.iterations (some iterations) (ok_or-some _ _ ie) bounds in
              let (lo, hi) = carry (some iterations) (some sf.iterations) (cc) counted in
              (longer nonce sf.nonce (cc) (not_empty slots.nonce (ok_or-some _ _ ne)), lo, hi)
