-- ===== src/Signer/Der/Signature.antt =====
-- The numbers of a signature in DER (src/signer.ts) come out as words of 64 hex digits.
use mathlib.Core.List.{append-nil}
use open_ttt.Prelude.{
  ℕ, zero, suc, ◌+◌, ◌-◌, ◌*◌, ◌<◌, ◌≤◌, ◌≡◌, refl, sym, ap, ◌∙◌, some, [], ◌∷◌, ◌++◌, Text, length,
  drop, replicate, subarray, to_hex, ◌==◌, arith, Bool-cases, inl, inr, take-append, drop-append,
  drop-drop,
}
use open_ttt.Signer.{ok}
use open_ttt.Signer.Der.{drop_zero, pad_start, hex_word, integer_at, read_s, parse_der_signature}
use open_ttt.Signer.Der.Encode.{strip_zeros, with_sign, der_integer, der_signature, byte_at}

length-to_hex : (bs : Text) → length (to_hex bs) ≡ 2 * length bs
unfolding to_hex
length-to_hex [] = refl
length-to_hex (b ∷ bs) = omega (arith, length-to_hex bs)

length-strip_zeros : (bs : Text) → length (strip_zeros bs) ≤ length bs
length-strip_zeros [] = omega arith
length-strip_zeros (b ∷ bs) = ground (arith, length-strip_zeros bs)

length-with_sign : (bs : Text) → length (with_sign bs) ≤ suc (length bs)
length-with_sign [] = omega arith
length-with_sign (b ∷ bs) = ground arith

pad_full : (n : ℕ) (s : Text) → length s ≡ n → pad_start n s ≡ s
pad_full n s e = let none_left : n - length s ≡ 0 = omega arith in rw none_left refl

pad_two : (n : ℕ) (s : Text) → length s + 2 ≤ n → pad_start n (b'0' ∷ b'0' ∷ s) ≡ pad_start n s
pad_two n s h =
    two_more (n - length s - 2) (n - length (b'0' ∷ b'0' ∷ s)) (n - length s) (omega arith)
      (omega arith)
  where
    put_in : (k : ℕ) → replicate k b'0' ++ (b'0' ∷ b'0' ∷ s) ≡ b'0' ∷ b'0' ∷ (replicate k b'0' ++ s)
    put_in zero = refl
    put_in (suc k) = ap (λ l. b'0' ∷ l) (put_in k)

    two_more :
        (k i j : ℕ)
        → i ≡ k
        → j ≡ suc (suc k)
        → replicate i b'0' ++ (b'0' ∷ b'0' ∷ s) ≡ replicate j b'0' ++ s
    two_more k i j e f = rw (e, f) (put_in k)

-- Leading zeros that are left out are put back by the padding.
padded :
    (n : ℕ) (bs : Text)
    → 2 * length bs ≤ n
    → pad_start n (to_hex (strip_zeros bs)) ≡ pad_start n (to_hex bs)
unfolding to_hex
padded n [] h = refl
padded n (b ∷ bs) h = elim (Bool-cases (b == 0)) [
  | inl e ↦
      let is_zero : b ≡ 0 = ground arith in
      rw is_zero
        (padded n bs (omega arith) ∙ sym (pad_two n (to_hex bs) (omega (arith, length-to_hex bs))))
  | inr e ↦ rw e refl
]

strip_zeros-head : (bs cs : Text) (c : ℕ) → strip_zeros bs ≡ c ∷ cs → 0 < c
strip_zeros-head [] cs c e = cc
strip_zeros-head (b ∷ bs) cs c e = ground (arith, strip_zeros-head bs cs c)

drop_zero-with_sign :
    (bs : Text) → ((cs : Text) (c : ℕ) → bs ≡ c ∷ cs → 0 < c) → drop_zero (with_sign bs) ≡ bs
drop_zero-with_sign [] h = refl
drop_zero-with_sign (b ∷ bs) h = let p = h bs b refl in ground arith

-- An integer in DER is the word of the number that was written.
word_lem :
    (bs : Text) → length bs ≡ 32 → hex_word (drop_zero (der_integer bs)) ≡ b'0' ∷ b'x' ∷ to_hex bs
word_lem bs e =
    ap hex_word (drop_zero-with_sign (strip_zeros bs) (strip_zeros-head bs))
    ∙ ap (λ l. b'0' ∷ b'x' ∷ l)
        (padded 64 bs (omega arith) ∙ pad_full 64 (to_hex bs) (omega (arith, length-to_hex bs)))

module _ (sig : Text) where
  integer_found :
      (p : ℕ) (body rest : Text)
      → drop p sig ≡ body ++ rest
      → integer_at sig p (some (length body)) ≡ drop_zero body
  integer_found p body rest e =
      let size : p + length body - p ≡ length body = omega arith in
      let same : subarray p (p + length body) sig ≡ body =
        rw (size, e) (take-append body rest refl) in
      ap drop_zero same

  s_found :
      (p : ℕ) (r r_body s_body : Text)
      → drop p sig ≡ r_body ++ 2 ∷ length s_body ∷ s_body
      → read_s sig r p (some (length r_body)) ≡ ok (hex_word r, hex_word (drop_zero s_body))
  unfolding read_s
  s_found p r r_body s_body e =
      let behind =
        sym (drop-drop (length r_body) p sig)
        ∙ ap (drop (length r_body)) e
        ∙ drop-append r_body (2 ∷ length s_body ∷ s_body) refl in
      let (tag, e1) = byte_at (p + length r_body) 2 sig (length s_body ∷ s_body) behind in
      let (len, e2) = byte_at (p + length r_body + 1) (length s_body) sig s_body e1 in
      let at : p + length r_body + 1 + 1 ≡ p + length r_body + 2 = omega arith in
      let e3 = ap (λ q. drop q sig) (sym at) ∙ e2 ∙ sym (append-nil s_body) in
      rw tag (rw len (ap (λ t. ok (hex_word r, hex_word t)) (integer_found _ s_body [] e3)))

-- From the DER form of two numbers of 32 bytes, with their leading zeros left out and a zero put in
-- front of a set first bit, the two words of 64 hex digits are read.
pub parse-der_signature :
    (r s : Text)
    → length r ≡ 32
    → length s ≡ 32
    → parse_der_signature (der_signature r s) ≡ ok (b'0' ∷ b'x' ∷ to_hex r, b'0' ∷ b'x' ∷ to_hex s)
unfolding parse_der_signature
parse-der_signature r s hr hs =
    let sig = der_signature r s in
    let behind = 2 ∷ length (der_integer s) ∷ der_integer s in
    s_found sig 4 (integer_at sig 4 (some (length (der_integer r)))) (der_integer r) (der_integer s)
      refl
    ∙ rw (integer_found sig 4 (der_integer r) behind refl)
        (rw (word_lem r hr) (rw (word_lem s hs) refl))
