-- ===== src/Roughtime/Wire.antt =====
-- Roughtime messages (src/roughtime_source.ts): a count, offsets, tags and values. No Buffer is so
-- long that a size would not fit the 32-bit field that it is written to.
use open_ttt.Prelude.{
  ℕ, suc, zero, ◌+◌, ◌-◌, ◌*◌, ◌||◌, Option, none, some, List, [], ◌∷◌, ◌++◌, Text, length,
  subarray, le_bytes, of_le, ltb, ◌==◌, if◌then◌else◌,
}

-- The `Map` from tag numbers to values, in insertion order.
abbrev pub TagMap : Type 0
TagMap = List (ℕ × Text)

unfoldable pub get_tag : ℕ → TagMap → Option Text
get_tag t [] = none
get_tag t ((u, v) ∷ m) = if u == t then some v else get_tag t m

unfoldable pub set_tag : ℕ → Text → TagMap → TagMap
set_tag t v [] = (t, v) ∷ []
set_tag t v ((u, w) ∷ m) = if u == t then (u, v) ∷ m else (u, w) ∷ set_tag t v m

-- The loop that writes the offset of every value but the first.
unfoldable pub write_offsets : ℕ → ℕ → List (Text × Text) → Text
write_offsets i offset [] = []
write_offsets i offset ((tag, v) ∷ pairs) =
    (if ltb 0 i then le_bytes 4 offset else []) ++ write_offsets (suc i) (offset + length v) pairs

unfoldable pub write_tags : List (Text × Text) → Text
write_tags [] = []
write_tags ((tag, v) ∷ pairs) = tag ++ write_tags pairs

unfoldable pub write_values : List (Text × Text) → Text
write_values [] = []
write_values ((tag, v) ∷ pairs) = v ++ write_values pairs

unfoldable pub build_message : List (Text × Text) → Text
build_message pairs =
    le_bytes 4 (length pairs)
    ++ (write_offsets 0 0 pairs ++ (write_tags pairs ++ write_values pairs))

-- `buf.readUInt32LE(at)`, inside the buffer.
abbrev pub read_u32 : ℕ → Text → ℕ
read_u32 at buf = of_le (subarray at (at + 4) buf)

-- The loops that read `count` numbers from a position on.
unfoldable pub read_words : ℕ → ℕ → Text → List ℕ
read_words zero at buf = []
read_words (suc count) at buf = read_u32 at buf ∷ read_words count (at + 4) buf

-- `offsets[i + 1]` gives the end of a value, or the end of the buffer for the last one.
abbrev pub value_end : ℕ → Text → List ℕ → ℕ
value_end values_start buf [] = length buf
value_end values_start buf (o ∷ os) = values_start + o

-- The loop over the values, with the offsets and tags that are left.
unfoldable pub collect : ℕ → Text → List ℕ → List ℕ → TagMap → Option TagMap
collect values_start buf (o ∷ os) (t ∷ ts) m =
    let vstart = values_start + o in
    let vend = value_end values_start buf os in
    let rest = collect values_start buf os ts (set_tag t (subarray vstart vend buf) m) in
    if ltb (length buf) vend || ltb vend vstart then none else rest
collect values_start buf [] ts m = some m
collect values_start buf (o ∷ os) [] m = some m

abbrev pub header_length : ℕ → ℕ
header_length n = 4 + 4 * (n - 1) + 4 * n

unfoldable pub parse_fields : ℕ → Text → Option TagMap
parse_fields n buf =
    collect (header_length n) buf (0 ∷ read_words (n - 1) 4 buf)
      (read_words n (4 + 4 * (n - 1)) buf) []

-- `none` for a malformed message.
unfoldable pub parse_message : Text → Option TagMap
unfolding parse_fields
parse_message buf =
    if ltb (length buf) 4
    then none
    else if read_u32 0 buf == 0
    then some []
    else if ltb (length buf) (header_length (read_u32 0 buf))
    then none
    else parse_fields (read_u32 0 buf) buf
