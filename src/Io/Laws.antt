-- ===== src/Io/Laws.antt =====
-- mongo_common/src/io.rs: each reader reads back what its writer wrote and leaves what follows;
-- and what a reader took off a slice is what its writer would write.
use mongowire.Base.{
  ℕ, ◌<◌, ◌≤◌, ◌^◌, ◌≡◌, refl, sym, ap, ◌∙◌, false, [], ◌∷◌, ◌++◌, Bytes, AreBytes, IsByte, ℤ, Fits,
  length, take, drop, ok, arith, signed, pattern_of, i32_half, i64_half, to_le, from_le,
  position_nul, contains_nul, from_le-to_le, to_le-from_le, length-to_le, from_le-lt, take-append,
  drop-append, length-append, length-take, take-append-drop, ge→ltb, signed-pattern_of,
  pattern_of-signed, pattern_of-lt, signed-Fits, position_nul-append, position_nul-some, inl, inr,
  All-take, All-drop, Option-cases, drop_next, set-append_front, set-append,
}
use mongowire.Io.{
  read_bytes, read_u8, read_u32_le, read_i32_le, read_i64_le, read_u64_le, read_cstring,
  peek_i32_le, i32_from_le, i64_from_le, i32_to_le, i64_to_le, put_i32_le_at, put_u8_at,
}

pub read_bytes-append : (xs rest : Bytes) → read_bytes (length xs) (xs ++ rest) ≡ ok (xs, rest)
unfolding read_bytes
read_bytes-append xs rest =
    rw (ge→ltb (length (xs ++ rest)) (length xs) (omega (arith, length-append xs rest)))
      (rw (take-append xs rest, drop-append xs rest))

-- The same, at a length that is known otherwise.
pub read_bytes-at :
    (n : ℕ) (xs rest : Bytes) → length xs ≡ n → read_bytes n (xs ++ rest) ≡ ok (xs, rest)
read_bytes-at n xs rest h = rw (← h) (read_bytes-append xs rest)

pub read_u8-cons : (b : ℕ) (rest : Bytes) → read_u8 (b ∷ rest) ≡ ok (b, rest)
unfolding read_u8
read_u8-cons b rest = rw (read_bytes-at 1 (b ∷ []) rest refl)

pub read_u32_le-append :
    (v : ℕ) (rest : Bytes) → v < 2 ^ 32 → read_u32_le (to_le 4 v ++ rest) ≡ ok (v, rest)
unfolding read_u32_le
read_u32_le-append v rest h =
    rw (read_bytes-at 4 (to_le 4 v) rest (length-to_le 4 v)) (rw (from_le-to_le 4 v h))

pub read_u64_le-append :
    (v : ℕ) (rest : Bytes) → v < 2 ^ 64 → read_u64_le (to_le 8 v ++ rest) ≡ ok (v, rest)
unfolding read_u64_le
read_u64_le-append v rest h =
    rw (read_bytes-at 8 (to_le 8 v) rest (length-to_le 8 v)) (rw (from_le-to_le 8 v h))

pub i32_from_le-to_le : (v : ℤ) → Fits i32_half v → i32_from_le (i32_to_le v) ≡ v
unfolding i32_from_le
i32_from_le-to_le v h =
    rw (from_le-to_le 4 (pattern_of i32_half v) (pattern_of-lt i32_half v h))
      (signed-pattern_of i32_half v h)

pub i64_from_le-to_le : (v : ℤ) → Fits i64_half v → i64_from_le (i64_to_le v) ≡ v
unfolding i64_from_le
i64_from_le-to_le v h =
    rw (from_le-to_le 8 (pattern_of i64_half v) (pattern_of-lt i64_half v h))
      (signed-pattern_of i64_half v h)

pub read_i32_le-append :
    (v : ℤ) (rest : Bytes) → Fits i32_half v → read_i32_le (i32_to_le v ++ rest) ≡ ok (v, rest)
unfolding read_i32_le
read_i32_le-append v rest h =
    rw (read_bytes-at 4 (i32_to_le v) rest (length-to_le 4 _)) (rw (i32_from_le-to_le v h))

pub read_i64_le-append :
    (v : ℤ) (rest : Bytes) → Fits i64_half v → read_i64_le (i64_to_le v ++ rest) ≡ ok (v, rest)
unfolding read_i64_le
read_i64_le-append v rest h =
    rw (read_bytes-at 8 (i64_to_le v) rest (length-to_le 8 _)) (rw (i64_from_le-to_le v h))

pub peek_i32_le-append :
    (v : ℤ) (rest : Bytes) → Fits i32_half v → peek_i32_le (i32_to_le v ++ rest) ≡ ok v
unfolding peek_i32_le
peek_i32_le-append v rest h =
    let e = length-to_le 4 (pattern_of i32_half v) in
    let cut = rw e at (take-append (i32_to_le v) rest) in
    rw (
      ge→ltb (length (i32_to_le v ++ rest)) 4 (omega (arith, e, length-append (i32_to_le v) rest)),
      cut,
      i32_from_le-to_le v h,
    )

pub read_cstring-append :
    (s rest : Bytes) → contains_nul s ≡ false → read_cstring (s ++ 0 ∷ rest) ≡ ok (s, rest)
unfolding read_cstring
read_cstring-append s rest h =
    rw (position_nul-append s rest h, read_cstring)
      (rw (take-append s (0 ∷ rest), drop-append s (0 ∷ rest)))

-- What a reader took and what it left make up the slice.
pub read_bytes-ok :
    (n : ℕ) (r xs rest : Bytes)
    → read_bytes n r ≡ ok (xs, rest)
    → (r ≡ xs ++ rest) × (length xs ≡ n)
unfolding read_bytes
read_bytes-ok n r xs rest h = ground (arith, take-append-drop n r, length-take n r)

pub read_u8-ok : (r : Bytes) (b : ℕ) (rest : Bytes) → read_u8 r ≡ ok (b, rest) → r ≡ b ∷ rest
unfolding read_u8 read_bytes
read_u8-ok [] b rest h = ground arith
read_u8-ok (x ∷ r) b rest h = ground arith

word_parts :
    (k : ℕ) (r : Bytes)
    → AreBytes r
    → k ≤ length r
    → (r ≡ to_le k (from_le (take k r)) ++ drop k r) × (from_le (take k r) < 256 ^ k)
word_parts k r hr h =
    let n : length (take k r) ≡ k = omega (arith, length-take k r) in
    let ht = All-take IsByte k r hr in
    (
      sym (take-append-drop k r)
          ∙ ap (λ t. t ++ drop k r) (sym (rw n at (to_le-from_le (take k r) ht))),
      rw n at (from_le-lt (take k r) ht),
    )

pub read_u32_le-ok :
    (r : Bytes) (v : ℕ) (rest : Bytes)
    → AreBytes r
    → read_u32_le r ≡ ok (v, rest)
    → (r ≡ to_le 4 v ++ rest) × (v < 2 ^ 32) × AreBytes rest
unfolding read_u32_le read_bytes
read_u32_le-ok r v rest hr h = ground (arith, word_parts 4 r hr, All-drop IsByte 4 r hr)

-- What a signed read returned, in terms of the word at the front.
read_i32_le_parts :
    (r : Bytes) (v : ℤ) (rest : Bytes)
    → read_i32_le r ≡ ok (v, rest)
    → (4 ≤ length r) × (v ≡ i32_from_le (take 4 r)) × (rest ≡ drop 4 r)
unfolding read_i32_le read_bytes
read_i32_le_parts r v rest h = ground arith

read_i64_le_parts :
    (r : Bytes) (v : ℤ) (rest : Bytes)
    → read_i64_le r ≡ ok (v, rest)
    → (8 ≤ length r) × (v ≡ i64_from_le (take 8 r)) × (rest ≡ drop 8 r)
unfolding read_i64_le read_bytes
read_i64_le_parts r v rest h = ground arith

module _ (r : Bytes) (v : ℤ) (rest : Bytes) (hr : AreBytes r) where
  pub read_i32_le-ok :
      read_i32_le r ≡ ok (v, rest) → (r ≡ i32_to_le v ++ rest) × Fits i32_half v × AreBytes rest
  unfolding i32_from_le
  read_i32_le-ok h =
      let (len, ev, er) = read_i32_le_parts r v rest h in
      let (whole, small) = word_parts 4 r hr len in
      rw (ev, er, pattern_of-signed i32_half (from_le (take 4 r)) small)
        (whole, signed-Fits i32_half (from_le (take 4 r)) small, All-drop IsByte 4 r hr)

  pub read_i64_le-ok :
      read_i64_le r ≡ ok (v, rest) → (r ≡ i64_to_le v ++ rest) × Fits i64_half v × AreBytes rest
  unfolding i64_from_le
  read_i64_le-ok h =
      let (len, ev, er) = read_i64_le_parts r v rest h in
      let (whole, small) = word_parts 8 r hr len in
      rw (ev, er, pattern_of-signed i64_half (from_le (take 8 r)) small)
        (whole, signed-Fits i64_half (from_le (take 8 r)) small, All-drop IsByte 8 r hr)

  -- A peeked length is at the front, and nothing is taken.
  pub peek_i32_le-ok : peek_i32_le r ≡ ok v → (r ≡ i32_to_le v ++ drop 4 r) × Fits i32_half v
  unfolding peek_i32_le i32_from_le
  peek_i32_le-ok h =
      let (len, ev) = parts in
      let (whole, small) = word_parts 4 r hr len in
      rw (ev, pattern_of-signed i32_half (from_le (take 4 r)) small)
        (whole, signed-Fits i32_half (from_le (take 4 r)) small)
    where
      parts : (4 ≤ length r) × (v ≡ signed i32_half (from_le (take 4 r)))
      parts = ground arith

pub read_cstring-ok :
    (r s rest : Bytes)
    → read_cstring r ≡ ok (s, rest)
    → (r ≡ s ++ 0 ∷ rest) × (contains_nul s ≡ false)
unfolding read_cstring
read_cstring-ok r s rest h = elim (Option-cases (position_nul r)) [
  | inl e ↦ ground arith
  | inr (i, e) ↦ ground (arith, position_nul-some r i e, drop_next i r)
]

-- Patching a placeholder overwrites its four bytes and nothing else.
pub put_i32_le_at-append :
    (out body : Bytes) (v : ℤ)
    → put_i32_le_at (out ++ (0 ∷ 0 ∷ 0 ∷ 0 ∷ body)) (length out) v ≡ out ++ (i32_to_le v ++ body)
unfolding put_i32_le_at put_u8_at to_le
put_i32_le_at-append out body v = rw (
  set-append_front out (0 ∷ 0 ∷ 0 ∷ 0 ∷ body),
  set-append out _ 1 _,
  set-append out _ 2 _,
  set-append out _ 3 _,
)
