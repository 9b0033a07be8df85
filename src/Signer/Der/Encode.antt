-- ===== src/Signer/Der/Encode.antt =====
-- How a key and a signature are written in DER, by X.690: what the readers of src/signer.ts expect.
use native.Mathlib.Nat.{suc-add}
use open_ttt.Prelude.{
  ℕ, zero, suc, ◌+◌, ◌/◌, ◌%◌, ◌<◌, ◌≡◌, refl, some, [], ◌∷◌, ◌++◌, Text, length, drop, get_elem?,
  ltb, ◌==◌, if◌then◌else◌, arith, pos, drop-nil, Bool-cases, inl, inr,
}
use open_ttt.Signer.{Result, ok}
use open_ttt.Signer.Der.{read_tag, length_from, read_length, read_long}

-- A length below 65536, in the short form or in one or two bytes.
abbrev pub der_length : ℕ → Text
der_length n =
    if ltb n 128 then n ∷ [] else if ltb n 256 then 129 ∷ n ∷ [] else 130 ∷ n / 256 ∷ n % 256 ∷ []

abbrev pub der_field : ℕ → Text → Text
der_field tag body = tag ∷ (der_length (length body) ++ body)

-- SEQUENCE { SEQUENCE { algorithm }, BIT STRING { 0, key } }
abbrev pub key_body : Text → Text → Text
key_body algorithm key = der_field 48 algorithm ++ der_field 3 (0 ∷ key)

abbrev pub subject_public_key_info : Text → Text → Text
subject_public_key_info algorithm key = der_field 48 (key_body algorithm key)

-- A number without its leading zeros, and one zero if the first bit is set or nothing is left.
abbrev pub strip_zeros : Text → Text
strip_zeros [] = []
strip_zeros (b ∷ bs) = let rest = strip_zeros bs in if b == 0 then rest else b ∷ bs

abbrev pub with_sign : Text → Text
with_sign [] = 0 ∷ []
with_sign (b ∷ bs) = if ltb b 128 then b ∷ bs else 0 ∷ b ∷ bs

abbrev pub der_integer : Text → Text
der_integer bs = with_sign (strip_zeros bs)

-- SEQUENCE { INTEGER r, INTEGER s }, with the lengths in the short form.
abbrev pub der_signature : Text → Text → Text
der_signature r s =
    48
    ∷ (4 + length (der_integer r) + length (der_integer s))
    ∷ 2
    ∷ length (der_integer r)
    ∷ (der_integer r ++ 2 ∷ length (der_integer s) ∷ der_integer s)

pub byte_at :
    (p b : ℕ) (xs rest : Text)
    → drop p xs ≡ b ∷ rest
    → (get_elem? xs p ≡ some b) × (drop (p + 1) xs ≡ rest)
byte_at p b [] rest e = absurd (ground (arith, drop-nil {A = ℕ} p))
byte_at zero b (x ∷ xs) rest e = (cc, cc)
byte_at (suc p) b (x ∷ xs) rest e = rw suc-add (byte_at p b xs rest e)

module _ (der : Text) where
  -- What a reader gives, and where it goes on.
  abbrev pub Reads {ℓ} : {X : Type ℓ} → Result (X × ℕ) → X → Text → Type ℓ
  Reads m x rest = (q : ℕ) × (m ≡ ok (x, q)) × (drop q der ≡ rest)

  pub read_tag_written :
      (p tag : ℕ) (rest : Text) → drop p der ≡ tag ∷ rest → Reads (read_tag der p) tag rest
  unfolding read_tag
  read_tag_written p tag rest e =
      let (found, next) = byte_at p tag der rest e in (p + 1, rw found refl, next)

  -- A length is read back, whatever form it has.
  pub read_length_written :
      (p n : ℕ) (rest : Text)
      → n < 65536
      → drop p der ≡ der_length n ++ rest
      → Reads (read_length der p) (pos n) rest
  unfolding read_length length_from read_long
  read_length_written p n rest small e = elim (Bool-cases (ltb n 128)) [
    | inl short ↦
        let (found, next) = byte_at p n der rest (rw short at e) in
        (p + 1, rw found (rw short refl), next)
    | inr long ↦ elim (Bool-cases (ltb n 256)) [
      | inl one ↦
          let (found, next) = byte_at p 129 der (n ∷ rest) (rw one at (rw long at e)) in
          let (found', next') = byte_at (p + 1) n der rest next in
          (p + 1 + 1, rw found (rw found' (ground arith)), next')
      | inr two ↦
          let (found, next) =
            byte_at p 130 der (n / 256 ∷ n % 256 ∷ rest) (rw two at (rw long at e)) in
          let (found', next') = byte_at (p + 1) (n / 256) der (n % 256 ∷ rest) next in
          let (found'', next'') = byte_at (p + 1 + 1) (n % 256) der rest next' in
          (p + 1 + 1 + 1, rw found (rw found' (rw found'' (ground arith))), next'')
    ]
  ]
