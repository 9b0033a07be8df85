-- ===== src/Roughtime/Words.antt =====
-- The numbers of a Roughtime message as 32-bit words (src/roughtime_source.ts).
use mathlib.Core.Path.{ap₂}
use mathlib.Core.List.{append_assoc}
use open_ttt.Prelude.{
  ℕ, suc, ◌+◌, ◌-◌, ◌*◌, ◌<◌, ◌≡◌, refl, sym, ap, ◌∙◌, true, List, [], ◌∷◌, ◌++◌, Text, length,
  drop, take, All, IsByte, le_bytes, of_le, ltb, arith, length-le_bytes, of_le-le_bytes,
  le_bytes-of_le, length-append, drop-append, take-append, drop-drop,
}
use open_ttt.Roughtime.Wire.{write_offsets, write_tags, write_values, read_u32, read_words}

-- Numbers as 32-bit words.
unfoldable pub words : List ℕ → Text
words [] = []
words (w ∷ ws) = le_bytes 4 w ++ words ws

pub length-words : (ws : List ℕ) → length (words ws) ≡ 4 * length ws
unfolding words
length-words [] = refl
length-words (w ∷ ws) =
    omega (arith, length-append (le_bytes 4 w) (words ws), length-le_bytes 4 w, length-words ws)

abbrev pub IsWord : ℕ → Type 0
IsWord w = w < 4294967296

pub drop_step :
    (at : ℕ) (buf xs ys : Text) → drop at buf ≡ xs ++ ys → length xs ≡ 4 → drop (at + 4) buf ≡ ys
drop_step at buf xs ys e h = sym (drop-drop 4 at buf) ∙ ap (drop 4) e ∙ drop-append xs ys h

pub read_u32_word :
    (at w : ℕ) (buf rest : Text)
    → IsWord w
    → drop at buf ≡ le_bytes 4 w ++ rest
    → read_u32 at buf ≡ w
read_u32_word at w buf rest h e =
    ap (λ n. of_le (take n (drop at buf))) (four at)
    ∙ ap (λ b. of_le (take 4 b)) e
    ∙ ap of_le (take-append (le_bytes 4 w) rest (length-le_bytes 4 w))
    ∙ of_le-le_bytes 4 w h
  where
    four : (k : ℕ) → k + 4 - k ≡ 4
    four k = omega arith

pub read_words-words :
    (ws : List ℕ) (at : ℕ) (buf rest : Text)
    → All IsWord ws
    → drop at buf ≡ words ws ++ rest
    → read_words (length ws) at buf ≡ ws
unfolding read_words words
read_words-words [] at buf rest h e = refl
read_words-words (w ∷ ws) at buf rest (p, h) e =
    let e' : drop at buf ≡ le_bytes 4 w ++ (words ws ++ rest) =
      e ∙ append_assoc (le_bytes 4 w) (words ws) rest in
    ap₂ (λ x xs. x ∷ xs) (read_u32_word at w buf (words ws ++ rest) p e')
      (read_words-words ws (at + 4) buf rest h
        (drop_step at buf (le_bytes 4 w) (words ws ++ rest) e' (length-le_bytes 4 w)))

-- The offsets of the values behind the first.
unfoldable pub offsets_of : ℕ → List (Text × Text) → List ℕ
offsets_of offset [] = []
offsets_of offset ((tag, v) ∷ pairs) = offset ∷ offsets_of (offset + length v) pairs

pub write_offsets-words :
    (i offset : ℕ) (pairs : List (Text × Text))
    → write_offsets (suc i) offset pairs ≡ words (offsets_of offset pairs)
unfolding write_offsets words offsets_of
write_offsets-words i offset [] = refl
write_offsets-words i offset ((tag, v) ∷ pairs) =
    rw (positive i)
      (ap (λ r. le_bytes 4 offset ++ r) (write_offsets-words (suc i) (offset + length v) pairs))
  where
    positive : (k : ℕ) → ltb 0 (suc k) ≡ true
    positive k = ground arith

abbrev pub IsTag : Text → Type 0
IsTag tag = All IsByte tag × (length tag ≡ 4)

abbrev pub tag_numbers : List (Text × Text) → List ℕ
tag_numbers [] = []
tag_numbers ((tag, v) ∷ pairs) = of_le tag ∷ tag_numbers pairs

pub write_tags-words :
    (pairs : List (Text × Text))
    → All (λ p. IsTag p.0) pairs
    → write_tags pairs ≡ words (tag_numbers pairs)
unfolding write_tags words
write_tags-words [] h = refl
write_tags-words ((tag, v) ∷ pairs) ((bytes, four), h) =
    ap₂ (λ a b. a ++ b) (sym (le_bytes-of_le tag bytes four)) (write_tags-words pairs h)

pub length-offsets_of :
    (offset : ℕ) (pairs : List (Text × Text)) → length (offsets_of offset pairs) ≡ length pairs
unfolding offsets_of
length-offsets_of offset [] = refl
length-offsets_of offset ((tag, v) ∷ pairs) = ap suc (length-offsets_of (offset + length v) pairs)

pub length-tag_numbers : (pairs : List (Text × Text)) → length (tag_numbers pairs) ≡ length pairs
length-tag_numbers [] = refl
length-tag_numbers ((tag, v) ∷ pairs) = ap suc (length-tag_numbers pairs)

pub offsets_of-IsWord :
    (offset : ℕ) (pairs : List (Text × Text))
    → offset + length (write_values pairs) < 4294967296
    → All IsWord (offsets_of offset pairs)
unfolding offsets_of write_values
offsets_of-IsWord offset [] h = tt
offsets_of-IsWord offset ((tag, v) ∷ pairs) h = (
  omega arith,
  offsets_of-IsWord (offset + length v) pairs (omega (arith, length-append v (write_values pairs))),
)

of_le-lt : (bs : Text) → All IsByte bs → length bs ≡ 4 → of_le bs < 4294967296
unfolding of_le
of_le-lt (a ∷ b ∷ c ∷ d ∷ []) (ha, (hb, (hc, (hd, _)))) e = omega arith
of_le-lt bs h e = absurd (omega arith)

pub tag_numbers-IsWord :
    (pairs : List (Text × Text)) → All (λ p. IsTag p.0) pairs → All IsWord (tag_numbers pairs)
tag_numbers-IsWord [] h = tt
tag_numbers-IsWord ((tag, v) ∷ pairs) ((bytes, four), h) =
    (of_le-lt tag bytes four, tag_numbers-IsWord pairs h)
