-- ===== src/Base/Outcome.antt =====
-- Rust's `Result`, with one more outcome: `stuck` is no value of the program, a model loop that
-- ran out of fuel.
use mathlib.Core.Path.{◌≡◌, refl}
use mathlib.Core.Bool.{Bool, true, false}
use mongowire.Base.Tests.{if◌then◌else◌}
use mathlib.Core.Logic.{◌≢◌, ◌⊎◌, inl, inr}

pub data Result {ℓ κ} (E : Type ℓ) (A : Type κ) : Type (ℓ ⊔ κ) where
  ok : A → Result E A
  err : E → Result E A
  stuck : Result E A

infixl 5 ◌>>=◌ ◌>>◌
abbrev pub ◌>>=◌ {ℓ κ μ} :
    {E : Type ℓ} {A : Type κ} {B : Type μ} → Result E A → (A → Result E B) → Result E B
stuck >>= next = stuck
err failure >>= next = err failure
ok value >>= next = next value

abbrev pub ◌>>◌ {ℓ μ} : {E : Type ℓ} {B : Type μ} → Result E (Unit {0}) → Result E B → Result E B
first >> second = first >>= λ _. second

-- `if !test { return Err(e) }`
abbrev pub guard {ℓ} : {E : Type ℓ} → Bool → E → Result E (Unit {0})
guard false failure = err failure
guard true failure = ok tt

abbrev pub map_err {ℓ κ μ} :
    {E : Type ℓ} {F : Type κ} {A : Type μ} → (E → F) → Result E A → Result F A
map_err f (ok a) = ok a
map_err f (err e) = err (f e)
map_err f stuck = stuck

abbrev pub map_ok {ℓ κ μ} :
    {E : Type ℓ} {A : Type κ} {B : Type μ} → (A → B) → Result E A → Result E B
map_ok f (ok a) = ok (f a)
map_ok f (err e) = err e
map_ok f stuck = stuck

module _ {ℓ κ μ} {E : Type ℓ} {A : Type κ} {B : Type μ} where
  pub >>=-ne-stuck :
      (m : Result E A) (f : A → Result E B)
      → m ≢ stuck
      → ((a : A) → m ≡ ok a → f a ≢ stuck)
      → (m >>= f) ≢ stuck
  >>=-ne-stuck (ok a) f h k = k a refl
  >>=-ne-stuck (err e) f h k = λ p. cc
  >>=-ne-stuck stuck f h k = absurd (h refl)

module _ {ℓ κ μ} {E : Type ℓ} {F : Type κ} {A : Type μ} where
  pub map_err-eq-ok : (f : E → F) (m : Result E A) {a : A} → map_err f m ≡ ok a → m ≡ ok a
  map_err-eq-ok f (ok a) h = cc
  map_err-eq-ok f (err e) h = cc
  map_err-eq-ok f stuck h = cc

  pub map_err-ne-stuck : (f : E → F) (m : Result E A) → m ≢ stuck → map_err f m ≢ stuck
  map_err-ne-stuck f (ok a) h = λ p. cc
  map_err-ne-stuck f (err e) h = λ p. cc
  map_err-ne-stuck f stuck h = absurd (h refl)

module _ {ℓ} {E : Type ℓ} where
  pub guard-eq-ok : (b : Bool) (e : E) {u : Unit {0}} → guard b e ≡ ok u → b ≡ true
  guard-eq-ok true e h = refl
  guard-eq-ok false e h = cc

-- A successful bind, taken apart in the middle of a proof.
pub bind_ok {ℓ κ μ ν} :
    {E : Type ℓ} {A : Type κ} {B : Type μ} {Q : Type ν} (m : Result E A) (f : A → Result E B)
    {b : B}
    → (m >>= f) ≡ ok b
    → ((a : A) → m ≡ ok a → f a ≡ ok b → Q)
    → Q
bind_ok (ok a) f h k = k a refl h
bind_ok (err e) f h k = cc
bind_ok stuck f h k = cc

pub Result-cases {ℓ κ} :
    {E : Type ℓ} {A : Type κ} (r : Result E A)
    → ((a : A) × (r ≡ ok a)) ⊎ (((e : E) × (r ≡ err e)) ⊎ (r ≡ stuck))
Result-cases (ok a) = inl (a, refl)
Result-cases (err e) = inr (inl (e, refl))
Result-cases stuck = inr (inr refl)

module _ {ℓ κ μ} {E : Type ℓ} {A : Type κ} {B : Type μ} where
  -- Chains with the same first step and equal continuations.
  pub bind_cong :
      (m : Result E A) (f g : A → Result E B)
      → ((a : A) → m ≡ ok a → f a ≡ g a)
      → (m >>= f) ≡ (m >>= g)
  bind_cong (ok a) f g h = h a refl
  bind_cong (err e) f g h = refl
  bind_cong stuck f g h = refl

-- A conditional that returned a value, taken apart in the middle of a proof.
pub if_ok {ℓ ν} :
    {A : Type ℓ} {Q : Type ν} (b : Bool) {x y z : A}
    → (if b then x else y) ≡ z
    → (b ≡ true → x ≡ z → Q)
    → (b ≡ false → y ≡ z → Q)
    → Q
if_ok true h f g = f refl h
if_ok false h f g = g refl h
