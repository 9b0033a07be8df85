-- ===== src/Roughtime/Values.antt =====
-- Collecting the values of a Roughtime message (src/roughtime_source.ts).
use mathlib.Core.List.{append_assoc, append-nil}
use open_ttt.Prelude.{
  ℕ, ◌+◌, ◌-◌, ◌≤◌, ◌≡◌, ◌≢◌, refl, sym, ap, ◌∙◌, none, some, List, [], ◌∷◌, ◌++◌, Text, length,
  drop, take, All, subarray, of_le, arith, length-append, length-drop, drop-append, take-append,
  drop-drop,
}
use open_ttt.Roughtime.Words.{offsets_of, tag_numbers}
use open_ttt.Roughtime.Wire.{TagMap, get_tag, set_tag, write_values, value_end, collect}

-- What parsing makes of the fields.
abbrev pub fields_of : List (Text × Text) → TagMap
fields_of [] = []
fields_of ((tag, v) ∷ pairs) = (of_le tag, v) ∷ fields_of pairs

abbrev pub Differs : ℕ → Text × Text → Type 0
Differs t (tag, v) = t ≢ of_le tag

-- No two fields have the same tag.
abbrev pub HasDistinctTags : List (Text × Text) → Type 0
HasDistinctTags [] = Unit
HasDistinctTags ((tag, v) ∷ pairs) = All (Differs (of_le tag)) pairs × HasDistinctTags pairs

abbrev pub IsNew : TagMap → Text × Text → Type 0
IsNew m (tag, v) = get_tag (of_le tag) m ≡ none

set_tag_new :
    (t : ℕ) (v : Text) (m : TagMap) → get_tag t m ≡ none → set_tag t v m ≡ m ++ (t, v) ∷ []
unfolding get_tag set_tag
set_tag_new t v [] h = refl
set_tag_new t v ((u, w) ∷ m) h = ground (arith, set_tag_new t v m)

get_tag-append :
    (t u : ℕ) (v : Text) (m : TagMap)
    → u ≢ t
    → get_tag t m ≡ none
    → get_tag t (m ++ (u, v) ∷ []) ≡ none
unfolding get_tag
get_tag-append t u v [] d h = ground arith
get_tag-append t u v ((s, w) ∷ m) d h = ground (arith, get_tag-append t u v m d)

All-IsNew :
    (u : ℕ) (v : Text) (m : TagMap) (pairs : List (Text × Text))
    → All (Differs u) pairs
    → All (IsNew m) pairs
    → All (IsNew (m ++ (u, v) ∷ [])) pairs
All-IsNew u v m [] d h = tt
All-IsNew u v m ((tag, w) ∷ pairs) (d, ds) (h, hs) =
    (get_tag-append (of_le tag) u v m d h, All-IsNew u v m pairs ds hs)

module _ (values_start : ℕ) (buf : Text) where
  empty : (m : TagMap) → collect values_start buf [] [] m ≡ some (m ++ [])
  unfolding collect
  empty m = ap some (sym (append-nil m))

  value_end_lem :
      (offset : ℕ) (v : Text) (pairs : List (Text × Text))
      → values_start + offset ≤ length buf
      → drop (values_start + offset) buf ≡ v ++ write_values pairs
      → value_end values_start buf (offsets_of (offset + length v) pairs)
        ≡ values_start + offset + length v
  unfolding offsets_of write_values
  value_end_lem offset v [] h e =
      omega (arith, ap length e, length-append v [], length-drop (values_start + offset) buf)
  value_end_lem offset v ((tag, w) ∷ pairs) h e = omega arith

  collect_cons :
      (o t vend : ℕ) (v : Text) (os ts : List ℕ) (m : TagMap)
      → value_end values_start buf os ≡ vend
      → vend ≤ length buf
      → values_start + o ≤ vend
      → subarray (values_start + o) vend buf ≡ v
      → collect values_start buf (o ∷ os) (t ∷ ts) m
        ≡ collect values_start buf os ts (set_tag t v m)
  unfolding collect
  collect_cons o t vend v os ts m e h k s = rw (e, s) (ground arith)

  taken : (k : ℕ) (x r : Text) → drop k buf ≡ x ++ r → subarray k (k + length x) buf ≡ x
  taken k x r q =
      let size : k + length x - k ≡ length x = omega arith in
      ap (λ j. take j (drop k buf)) size ∙ ap (take (length x)) q ∙ take-append x r refl

  drop_value :
      (o : ℕ) (x r : Text)
      → drop (values_start + o) buf ≡ x ++ r
      → drop (values_start + (o + length x)) buf ≡ r
  drop_value o x r q =
      let sum : values_start + (o + length x) ≡ values_start + o + length x = omega arith in
      ap (λ j. drop j buf) sum
      ∙ sym (drop-drop (length x) (values_start + o) buf)
      ∙ ap (drop (length x)) q
      ∙ drop-append x r refl

  pub collect-values :
      (offset : ℕ) (pairs : List (Text × Text)) (m : TagMap)
      → values_start + offset ≤ length buf
      → drop (values_start + offset) buf ≡ write_values pairs
      → All (IsNew m) pairs
      → HasDistinctTags pairs
      → collect values_start buf (offsets_of offset pairs) (tag_numbers pairs) m
        ≡ some (m ++ fields_of pairs)
  unfolding offsets_of write_values
  collect-values offset [] m h e n d = empty m
  collect-values offset ((tag, v) ∷ pairs) m h e (n, ns) (d, ds) =
      let at = values_start + offset in
      let len : at + length v ≤ length buf =
        omega (arith, ap length e, length-append v (write_values pairs), length-drop at buf) in
      let next : drop (values_start + (offset + length v)) buf ≡ write_values pairs =
        drop_value offset v (write_values pairs) e in
      collect_cons offset (of_le tag) (at + length v) v (offsets_of (offset + length v) pairs)
        (tag_numbers pairs) m (value_end_lem offset v pairs h e) len (omega arith)
        (taken at v (write_values pairs) e)
      ∙ ap (collect values_start buf (offsets_of (offset + length v) pairs) (tag_numbers pairs))
          (set_tag_new (of_le tag) v m n)
      ∙ collect-values (offset + length v) pairs (m ++ (of_le tag, v) ∷ []) (omega arith) next
          (All-IsNew (of_le tag) v m pairs d ns) ds
      ∙ ap some (append_assoc m ((of_le tag, v) ∷ []) (fields_of pairs))
