-- ===== src/Roughtime/RoundTrip.antt =====
-- Parsing a built Roughtime message gives its fields back (src/roughtime_source.ts).
use mathlib.Core.Path.{ap₂}
use open_ttt.Prelude.{
  ℕ, suc, ◌+◌, ◌-◌, ◌*◌, ◌<◌, ◌≤◌, ◌≡◌, refl, sym, ap, ◌∙◌, some, List, [], ◌∷◌, ◌++◌, Text, length,
  drop, All, le_bytes, of_le, arith, length-le_bytes, length-append, drop-append, drop-drop,
}
use open_ttt.Roughtime.Wire.{
  write_offsets, write_tags, write_values, build_message, read_u32, read_words, collect,
  header_length, parse_fields, parse_message, get_tag,
}
use open_ttt.Roughtime.Words.{
  words, length-words, IsWord, IsTag, tag_numbers, read_u32_word, read_words-words, offsets_of,
  write_offsets-words, write_tags-words, length-offsets_of, length-tag_numbers, offsets_of-IsWord,
  tag_numbers-IsWord,
}
use open_ttt.Roughtime.Values.{fields_of, HasDistinctTags, IsNew, collect-values}

parse_lem :
    (n : ℕ) (buf : Text)
    → 4 ≤ length buf
    → read_u32 0 buf ≡ n
    → 0 < n
    → header_length n ≤ length buf
    → parse_message buf ≡ parse_fields n buf
unfolding parse_message parse_fields
parse_lem n buf h e some_field k = rw e (ground arith)

fields_lem :
    (n k : ℕ) (buf : Text) (os ts : List ℕ)
    → n - 1 ≡ k
    → read_words k 4 buf ≡ os
    → read_words n (4 + 4 * k) buf ≡ ts
    → parse_fields n buf ≡ collect (header_length n) buf (0 ∷ os) ts []
unfolding parse_fields
fields_lem n k buf os ts e ho ht = rw (e, ho, ht) refl

-- What the parts of a message are, once it is built of words.
module _ (n : ℕ) (os ts : List ℕ) (values : Text) where
  abbrev laid_out : Text
  laid_out = le_bytes 4 n ++ (words os ++ (words ts ++ values))

  drop_count : drop 4 laid_out ≡ words os ++ (words ts ++ values)
  drop_count = drop-append (le_bytes 4 n) (words os ++ (words ts ++ values)) (length-le_bytes 4 n)

  drop_offsets : drop (4 + 4 * length os) laid_out ≡ words ts ++ values
  drop_offsets =
      sym (drop-drop (4 * length os) 4 laid_out)
      ∙ ap (drop (4 * length os)) drop_count
      ∙ drop-append (words os) (words ts ++ values) (length-words os)

  drop_header : drop (4 + 4 * length os + 4 * length ts) laid_out ≡ values
  drop_header =
      sym (drop-drop (4 * length ts) (4 + 4 * length os) laid_out)
      ∙ ap (drop (4 * length ts)) drop_offsets
      ∙ drop-append (words ts) values (length-words ts)

  length-laid_out : length laid_out ≡ 4 + 4 * length os + 4 * length ts + length values
  length-laid_out = omega (
    arith,
    length-append (le_bytes 4 n) (words os ++ (words ts ++ values)),
    length-append (words os) (words ts ++ values),
    length-append (words ts) values,
    length-le_bytes 4 n,
    length-words os,
    length-words ts,
  )

  read_count : n < 4294967296 → read_u32 0 laid_out ≡ n
  read_count h = read_u32_word 0 n laid_out (words os ++ (words ts ++ values)) h refl

  read_offsets : All IsWord os → read_words (length os) 4 laid_out ≡ os
  read_offsets h = read_words-words os 4 laid_out (words ts ++ values) h drop_count

  read_tags : All IsWord ts → read_words (length ts) (4 + 4 * length os) laid_out ≡ ts
  read_tags h = read_words-words ts (4 + 4 * length os) laid_out values h drop_offsets

  parse_laid_out :
      n < 4294967296
      → 0 < n
      → length ts ≡ n
      → length os ≡ n - 1
      → All IsWord os
      → All IsWord ts
      → parse_message laid_out ≡ collect (header_length n) laid_out (0 ∷ os) ts []
  parse_laid_out small some_field t o ho ht =
      parse_lem n laid_out (omega (arith, length-laid_out)) (read_count small) some_field
        (omega (arith, length-laid_out))
      ∙ fields_lem n (length os) laid_out os ts (sym o) (read_offsets ho)
          (ap (λ k. read_words k (4 + 4 * length os) laid_out) (sym t) ∙ read_tags ht)

length-values :
    (tag v : Text) (pairs : List (Text × Text))
    → length (write_values ((tag, v) ∷ pairs)) ≡ length v + length (write_values pairs)
unfolding write_values
length-values tag v pairs = length-append v (write_values pairs)

All-IsNew_empty : (pairs : List (Text × Text)) → All (IsNew []) pairs
unfolding get_tag
All-IsNew_empty [] = tt
All-IsNew_empty ((tag, v) ∷ pairs) = (refl, All-IsNew_empty pairs)

build_message-laid_out :
    (tag v : Text) (pairs : List (Text × Text))
    → All (λ p. IsTag p.0) ((tag, v) ∷ pairs)
    → build_message ((tag, v) ∷ pairs)
      ≡ laid_out
          (length ((tag, v) ∷ pairs))
          (offsets_of (0 + length v) pairs)
          (tag_numbers ((tag, v) ∷ pairs))
          (write_values ((tag, v) ∷ pairs))
unfolding build_message write_offsets
build_message-laid_out tag v pairs tags =
    ap₂
      (λ os ts. le_bytes 4 (suc (length pairs)) ++ (os ++ (ts ++ write_values ((tag, v) ∷ pairs))))
      (write_offsets-words 0 (0 + length v) pairs) (write_tags-words ((tag, v) ∷ pairs) tags)

collect-laid_out :
    (tag v : Text) (pairs : List (Text × Text)) (buf : Text)
    → drop (header_length (suc (length pairs))) buf ≡ write_values ((tag, v) ∷ pairs)
    → header_length (suc (length pairs)) ≤ length buf
    → HasDistinctTags ((tag, v) ∷ pairs)
    → collect
        (header_length (suc (length pairs)))
        buf
        (0 ∷ offsets_of (0 + length v) pairs)
        (tag_numbers ((tag, v) ∷ pairs))
        []
      ≡ some (fields_of ((tag, v) ∷ pairs))
unfolding offsets_of
collect-laid_out tag v pairs buf e h d =
    let start = header_length (suc (length pairs)) in
    let zero_lem : start + 0 ≡ start = omega arith in
    collect-values start buf 0 ((tag, v) ∷ pairs) [] (omega arith)
      (ap (λ k. drop k buf) zero_lem ∙ e) (All-IsNew_empty ((tag, v) ∷ pairs)) d

parse-build_empty : parse_message (build_message []) ≡ some []
unfolding build_message parse_message le_bytes of_le write_offsets write_tags write_values
parse-build_empty = refl

-- Parsing a message that was built from fields with distinct four-byte tags gives every field, under
-- its tag's number and in the same order, if the sizes fit 32 bits.
pub parse-build_message :
    (pairs : List (Text × Text))
    → All (λ p. IsTag p.0) pairs
    → HasDistinctTags pairs
    → length pairs < 4294967296
    → length (write_values pairs) < 4294967296
    → parse_message (build_message pairs) ≡ some (fields_of pairs)
parse-build_message [] tags distinct few small = parse-build_empty
parse-build_message ((tag, v) ∷ pairs) tags distinct few small =
    let n = suc (length pairs) in
    let os = offsets_of (0 + length v) pairs in
    let ts = tag_numbers ((tag, v) ∷ pairs) in
    let values = write_values ((tag, v) ∷ pairs) in
    let small' : 0 + length v + length (write_values pairs) < 4294967296 =
      omega (arith, length-values tag v pairs) in
    let lo : length os ≡ length pairs = length-offsets_of (0 + length v) pairs in
    let lt : length ts ≡ n = length-tag_numbers ((tag, v) ∷ pairs) in
    let start : header_length n ≡ 4 + 4 * length os + 4 * length ts = omega arith in
    ap parse_message (build_message-laid_out tag v pairs tags)
    ∙ parse_laid_out n os ts values few (omega arith) lt (omega arith)
        (offsets_of-IsWord (0 + length v) pairs small') (tag_numbers-IsWord ((tag, v) ∷ pairs) tags)
    ∙ collect-laid_out tag v pairs (laid_out n os ts values)
        (ap (λ k. drop k (laid_out n os ts values)) start ∙ drop_header n os ts values)
        (omega (arith, length-laid_out n os ts values)) distinct
