-- ===== src/Signer/Der/Key.antt =====
-- The public key in a SubjectPublicKeyInfo (src/signer.ts): what is read, and that it is found.
use mathlib.Core.List.{append_assoc}
use open_ttt.Prelude.{
  ℕ, zero, suc, ◌+◌, ◌-◌, ◌<◌, ◌≡◌, refl, sym, ap, ◌∙◌, true, ◌&&◌, Option, none, some, [], ◌∷◌,
  ◌++◌, Text, length, drop, take, get_elem?, subarray, ◌==◌, arith, ℤ, pos, negsuc, drop-drop,
  drop-append, take_self, length-append,
}
use open_ttt.Signer.{
  ok, ◌>>◌, require, expected_bit_string, expected_sequence, expected_inner_sequence, unused_bits,
  unexpected_key, goes_on, came_from, required,
}
use open_ttt.Signer.Der.{
  is_byte, add_length, slice_to, read_tag, read_length, read_bit_string,
  extract_public_key_from_der,
}
use open_ttt.Signer.Der.Encode.{
  der_length, der_field, key_body, subject_public_key_info, byte_at, read_tag_written,
  read_length_written,
}

skipped :
    (p : ℕ) (body rest der : Text) → drop p der ≡ body ++ rest → drop (p + length body) der ≡ rest
skipped p body rest der e =
    sym (drop-drop (length body) p der) ∙ ap (drop (length body)) e ∙ drop-append body rest refl

-- What the algorithm and the bit string are made of, behind one another.
laid_out :
    (algorithm key : Text)
    → key_body algorithm key
      ≡ 48
        ∷ (der_length (length algorithm)
            ++ (algorithm ++ (3 ∷ (der_length (suc (length key)) ++ 0 ∷ key))))
laid_out algorithm key =
    ap (λ l. 48 ∷ l)
      (append_assoc (der_length (length algorithm)) algorithm (der_field 3 (0 ∷ key)))

module _ (der : Text) where
  bit_string_found :
      (p : ℕ) (key : Text)
      → length key ≡ 65
      → get_elem? key 0 ≡ some 4
      → drop p der ≡ der_field 3 (0 ∷ key)
      → read_bit_string der (pos p) ≡ ok key
  unfolding read_bit_string
  bit_string_found p key size head e =
      let (p1, tag, e1) = read_tag_written der p 3 _ e in
      let (p2, len, e2) =
        read_length_written der p1 (suc (length key)) (0 ∷ key) (omega arith) e1 in
      let (zero_byte, e3) = byte_at p2 0 der key e2 in
      let shift : p2 + suc (length key) - (p2 + 1) ≡ 65 = omega arith in
      let taken : subarray (p2 + 1) (p2 + suc (length key)) der ≡ key =
        rw (shift, e3) (take_self 65 key (omega arith)) in
      goes_on _ tag (goes_on _ len (rw zero_byte (rw taken (rw size (rw head refl)))))

-- The key of a SubjectPublicKeyInfo is found, whatever its algorithm is, in any of the lengths'
-- forms.
pub extract-subject_public_key_info :
    (algorithm key : Text)
    → length key ≡ 65
    → get_elem? key 0 ≡ some 4
    → length (key_body algorithm key) < 65536
    → extract_public_key_from_der (subject_public_key_info algorithm key) ≡ ok key
unfolding extract_public_key_from_der
extract-subject_public_key_info algorithm key size head small =
    let der = subject_public_key_info algorithm key in
    let bits = der_field 3 (0 ∷ key) in
    let (p1, outer, e1) = read_tag_written der 0 48 _ refl in
    let (p2, len, e2) =
      read_length_written der p1 (length (key_body algorithm key)) (key_body algorithm key) small
        e1 in
    let (p3, inner, e3) = read_tag_written der p2 48 _ (e2 ∙ laid_out algorithm key) in
    let (p4, inner_len, e4) =
      read_length_written der p3 (length algorithm) (algorithm ++ bits)
        (omega (
          arith,
          length-append (48 ∷ (der_length (length algorithm) ++ algorithm)) bits,
          length-append (der_length (length algorithm)) algorithm,
        ))
        e3 in
    goes_on _ outer (
      goes_on _ len (
        goes_on _ inner (
          goes_on _ inner_len (
            bit_string_found der (p4 + length algorithm) key size head
              (skipped p4 algorithm bits der e4)))))

take_exact : (n m : ℕ) (xs : Text) → length (take n xs) ≡ m → take n xs ≡ take m xs
take_exact zero zero xs e = refl
take_exact zero (suc m) xs e = absurd (omega arith)
take_exact (suc n) zero [] e = refl
take_exact (suc n) (suc m) [] e = refl
take_exact (suc n) zero (x ∷ xs) e = absurd (omega arith)
take_exact (suc n) (suc m) (x ∷ xs) e = ap (λ l. x ∷ l) (take_exact n m xs (omega arith))

-- Where a key stands in what it was read from.
abbrev pub IsKeyAt : Text → Text → ℕ → Type 0
IsKeyAt der key p =
    (get_elem? der p ≡ some 0)
    × (subarray (p + 1) (p + 66) der ≡ key)
    × (length key ≡ 65)
    × (get_elem? key 0 ≡ some 4)

exact_slice :
    (der : Text) (p to : ℕ)
    → length (subarray (p + 1) to der) ≡ 65
    → subarray (p + 1) (p + 66) der ≡ subarray (p + 1) to der
exact_slice der p to e =
    let size : p + 66 - (p + 1) ≡ 65 = omega arith in
    rw size (sym (take_exact (to - (p + 1)) 65 (drop (p + 1) der) e))

exact_slice_to :
    (der : Text) (p : ℕ) (to : ℤ)
    → length (slice_to der (p + 1) to) ≡ 65
    → subarray (p + 1) (p + 66) der ≡ slice_to der (p + 1) to
exact_slice_to der p (pos to) e = exact_slice der p to e
exact_slice_to der p (negsuc k) e = exact_slice der p (length der - suc k) e

is_byte_found : (o : Option ℕ) (c : ℕ) → is_byte o c ≡ true → o ≡ some c
is_byte_found none c e = cc
is_byte_found (some b) c e = ground arith

-- What the last check lets through.
checked :
    (found key : Text)
    → (require (length found == 65 && is_byte (get_elem? found 0) 4) unexpected_key >> ok found)
      ≡ ok key
    → (found ≡ key) × (length found ≡ 65) × (length key ≡ 65) × (get_elem? key 0 ≡ some 4)
checked found key e =
    let good = length found == 65 && is_byte (get_elem? found 0) 4 in
    let (_, sized, e) = came_from (require good unexpected_key) (λ _. ok found) e in
    let all = required good unexpected_key sized in
    let size : length found ≡ 65 = ground arith in
    let head : is_byte (get_elem? found 0) 4 ≡ true = ground arith in
    let e' : found ≡ key = cc in
    let at_start = is_byte_found (get_elem? found 0) 4 head in
    (e', size, (rw e' at size), (rw e' at at_start))

module _ (der : Text) where
  read_bit_string-IsKeyAt :
      (p : ℤ) (key : Text) → read_bit_string der p ≡ ok key → (q : ℕ) × IsKeyAt der key q
  unfolding read_bit_string
  read_bit_string-IsKeyAt (negsuc k) key e = cc
  read_bit_string-IsKeyAt (pos p) key e =
      let ((tag, p1), _, e) = came_from (read_tag der p) _ e in
      let (_, _, e) = came_from (require (tag == 3) (expected_bit_string tag)) _ e in
      let ((len, q), _, e) = came_from (read_length der p1) _ e in
      let (_, zero_byte, e) = came_from (require (is_byte (get_elem? der q) 0) unused_bits) _ e in
      let (same, size, key_size, head) = checked (slice_to der (q + 1) (add_length q len)) key e in
      (
        q,
        (
          is_byte_found (get_elem? der q) 0
              (required (is_byte (get_elem? der q) 0) unused_bits zero_byte),
          exact_slice_to der q (add_length q len) size ∙ same,
          key_size,
          head,
        ),
      )

  -- A key that is read out has 65 bytes, of which the first is 4, and stands in the input as it is,
  -- right behind a zero byte, whatever lengths the input claims.
  pub extract-IsKeyAt :
      (key : Text) → extract_public_key_from_der der ≡ ok key → (p : ℕ) × IsKeyAt der key p
  unfolding extract_public_key_from_der
  extract-IsKeyAt key e =
      let ((outer, p), _, e) = came_from (read_tag der 0) _ e in
      let (_, _, e) = came_from (require (outer == 48) (expected_sequence outer)) _ e in
      let ((_, p), _, e) = came_from (read_length der p) _ e in
      let ((inner, p), _, e) = came_from (read_tag der p) _ e in
      let (_, _, e) = came_from (require (inner == 48) (expected_inner_sequence inner)) _ e in
      let ((len, p), _, e) = came_from (read_length der p) _ e in
      read_bit_string-IsKeyAt (add_length p len) key e
