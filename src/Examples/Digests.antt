-- ===== src/Examples/Digests.antt =====
-- Small digests with the sizes of the real ones, and a base64 in whose
-- place each byte is two letters.
use mongowire.Base.{
  ℕ, suc, zero, ◌+◌, ◌-◌, ◌*◌, ◌/◌, ◌%◌, ◌≡◌, refl, false, Option, some, none, [], ◌∷◌, Bytes,
  AreBytes, length, contains, arith, ap,
}
use mathlib.Core.Option
use mongowire.Auth.Scram.{Crypto, CryptoLaws}

total : Bytes → ℕ
total [] = 0
total (b ∷ bs) = b + total bs

repeat : ℕ → ℕ → Bytes
repeat zero b = []
repeat (suc n) b = b ∷ repeat n b

small_mac : ℕ → Bytes → Bytes → Bytes
unfolding total repeat
small_mac n key input = repeat n ((total key * 3 + total input) % 256)

small_digest : ℕ → Bytes → Bytes
unfolding total repeat
small_digest n input = repeat n ((total input + 7) % 256)

letters : Bytes → Bytes
letters [] = []
letters (b ∷ bs) = (65 + b / 16) ∷ (65 + b % 16) ∷ letters bs

unletters : Bytes → Option Bytes
unletters [] = some []
unletters (x ∷ []) = none
unletters (x ∷ y ∷ s) = Option.map (λ bs. ((x - 65) * 16 + (y - 65)) ∷ bs) (unletters s)

unfoldable pub small : Crypto
unfolding small_mac small_digest letters unletters
small = record {
  md5_digest = small_digest 16;
  sha1_digest = small_digest 20;
  sha256_digest = small_digest 32;
  hmac_sha1 = small_mac 20;
  hmac_sha256 = small_mac 32;
  pbkdf2_sha1 = λ password salt iterations. small_mac 20 password (iterations ∷ salt);
  pbkdf2_sha256 = λ password salt iterations. small_mac 32 password (iterations ∷ salt);
  base64_encode = letters;
  base64_decode = unletters;
}

length-repeat : (n b : ℕ) → length (repeat n b) ≡ n
unfolding repeat
length-repeat zero b = refl
length-repeat (suc n) b = omega (arith, length-repeat n b)

repeat-AreBytes : (n b : ℕ) → AreBytes (repeat n (b % 256))
unfolding repeat
repeat-AreBytes zero b = tt
repeat-AreBytes (suc n) b = (omega arith, repeat-AreBytes n b)

length-small_mac : (n : ℕ) (k x : Bytes) → length (small_mac n k x) ≡ n
unfolding small_mac
length-small_mac n k x = length-repeat n _

small_mac-AreBytes : (n : ℕ) (k x : Bytes) → AreBytes (small_mac n k x)
unfolding small_mac
small_mac-AreBytes n k x = repeat-AreBytes n _

nibbles : (b : ℕ) → (65 + b / 16 - 65) * 16 + (65 + b % 16 - 65) ≡ b
nibbles b = omega arith

unletters-letters : (bs : Bytes) → AreBytes bs → unletters (letters bs) ≡ some bs
unfolding unletters letters
unletters-letters [] h = refl
unletters-letters (b ∷ bs) (hb, h) =
    rw (unletters-letters bs h) (ap (λ x. some (x ∷ bs)) (nibbles b))

letters_plain : (bs : Bytes) → contains b',' (letters bs) ≡ false
unfolding contains letters
letters_plain [] = refl
letters_plain (b ∷ bs) = ground (arith, letters_plain bs)

pub small-CryptoLaws : CryptoLaws small
unfolding small small_mac
small-CryptoLaws = record {
  hmac_sha1_sized = length-small_mac 20;
  hmac_sha256_sized = length-small_mac 32;
  hmac_sha1_bytes = small_mac-AreBytes 20;
  hmac_sha256_bytes = small_mac-AreBytes 32;
  decode_encode = unletters-letters;
  encode_plain = letters_plain;
}
