-- ===== src/Signer/Der.antt =====
-- Reading a public key and a signature in DER (src/signer.ts). A position is a number of bytes from
-- the start; a length of four bytes is a signed number of 32 bits there, and may be negative.
pub mod Encode
pub mod Key
pub mod Signature
use open_ttt.Prelude.{
  ℕ, zero, suc, ◌+◌, ◌-◌, ◌*◌, ◌%◌, ◌^◌, Bool, true, false, ◌&&◌, ◌||◌, Option, none, some, List,
  [], ◌∷◌, ◌++◌, Text, codes, ℤ, pos, negsuc, sub_ℕ, length, replicate, get_elem?, subarray, to_hex,
  ltb, ◌==◌, if◌then◌else◌,
}
use open_ttt.Signer.{
  SignerError, end_in_tag, end_in_length, end_in_long_length, unsupported_length, expected_sequence,
  expected_inner_sequence, expected_bit_string, unused_bits, unexpected_key, not_a_sequence,
  expected_r, expected_s, Result, ok, err, ◌>>=◌, ◌>>◌, require,
}

-- Whether there is a byte, and it is this one; a byte past the end is `undefined`.
abbrev pub is_byte : Option ℕ → ℕ → Bool
is_byte none c = false
is_byte (some b) c = b == c

-- `der[pos++]`, with the error for a position past the end.
abbrev pub next_byte : SignerError → ℕ → Option ℕ → Result (ℕ × ℕ)
next_byte e p none = err e
next_byte e p (some b) = ok (b, p + 1)

abbrev pub add_length : ℕ → ℤ → ℤ
add_length p (pos n) = pos (p + n)
add_length p (negsuc k) = sub_ℕ p (suc k)

-- The number of 32 bits, with its sign.
abbrev pub to_int32 : ℕ → ℤ
to_int32 n = if ltb n (2 ^ 31) then pos n else sub_ℕ n (2 ^ 32)

-- `der.slice(from, to)`; an end below 0 counts from the end of the buffer.
abbrev pub slice_to : Text → ℕ → ℤ → Text
slice_to der from (pos to) = subarray from to der
slice_to der from (negsuc k) = subarray from (length der - suc k) der

module _ (der : Text) where
  unfoldable pub read_tag : ℕ → Result (ℕ × ℕ)
  read_tag p = next_byte end_in_tag p (get_elem? der p)

  unfoldable pub read_long : ℕ → ℕ → ℕ → Result (ℤ × ℕ)
  read_long zero len p = ok (to_int32 len, p)
  read_long (suc n) len p = do
    (b, p) ← next_byte end_in_long_length p (get_elem? der p)
    read_long n ((len * 256 + b) % 2 ^ 32) p

  -- What follows the first byte of a length.
  unfoldable pub length_from : ℕ → ℕ → Result (ℤ × ℕ)
  length_from first p =
      let num_bytes = first % 128 in
      if ltb first 128
      then ok (pos first, p)
      else if num_bytes == 0 || ltb 4 num_bytes
      then err (unsupported_length num_bytes)
      else read_long num_bytes 0 p

  unfoldable pub read_length : ℕ → Result (ℤ × ℕ)
  read_length p = do (first, p) ← next_byte end_in_length p (get_elem? der p); length_from first p

  -- The tag at a position below 0 is `undefined`.
  unfoldable pub read_bit_string : ℤ → Result Text
  read_bit_string (negsuc k) = err (expected_bit_string 0)
  read_bit_string (pos p) = do
    (bs_tag, p) ← read_tag p
    require (bs_tag == 3) (expected_bit_string bs_tag)
    (bs_len, p) ← read_length p
    require (is_byte (get_elem? der p) 0) unused_bits
    let key_bytes = slice_to der (p + 1) (add_length p bs_len)
    require (length key_bytes == 65 && is_byte (get_elem? key_bytes 0) 4) unexpected_key
    ok key_bytes

  unfoldable pub extract_public_key_from_der : Result Text
  extract_public_key_from_der = do
    (outer_tag, p) ← read_tag 0
    require (outer_tag == 48) (expected_sequence outer_tag)
    (_, p) ← read_length p
    (inner_tag, p) ← read_tag p
    require (inner_tag == 48) (expected_inner_sequence inner_tag)
    (inner_len, p) ← read_length p
    read_bit_string (add_length p inner_len)

-- `if (r[0] === 0x00) r = r.slice(1)`.
abbrev pub drop_zero : Text → Text
drop_zero [] = []
drop_zero (b ∷ bs) = if b == 0 then bs else b ∷ bs

-- `s.padStart(n, "0")`.
abbrev pub pad_start : ℕ → Text → Text
pad_start n s = replicate (n - length s) b'0' ++ s

abbrev pub hex_word : Text → Text
hex_word bs = b'0' ∷ b'x' ∷ pad_start 64 (to_hex bs)

module _ (sig : Text) where
  -- The bytes of an integer whose length stands at `p`; without that length there are none.
  abbrev pub integer_at : ℕ → Option ℕ → Text
  integer_at p none = []
  integer_at p (some len) = drop_zero (subarray p (p + len) sig)

  -- The integer S, whose tag is to stand at `p`. Without a length of R that position is `NaN`.
  unfoldable pub read_s : Text → ℕ → Option ℕ → Result (Text × Text)
  read_s r p none = err expected_s
  read_s r p (some r_len) = do
    require (is_byte (get_elem? sig (p + r_len)) 2) expected_s
    let s = integer_at (p + r_len + 2) (get_elem? sig (p + r_len + 1))
    ok (hex_word r, hex_word s)

  unfoldable pub parse_der_signature : Result (Text × Text)
  parse_der_signature = do
    require (is_byte (get_elem? sig 0) 48) not_a_sequence
    require (is_byte (get_elem? sig 2) 2) expected_r
    read_s (integer_at 4 (get_elem? sig 3)) 4 (get_elem? sig 3)
