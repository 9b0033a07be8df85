-- ===== src/PotFrame/Tests.antt =====
-- Runs of the frame codec (src/pot_frame.ts) on a concrete frame.
use open_ttt.Prelude.{◌≡◌, refl, ◌++◌, [], ◌∷◌, Text, replicate}
use open_ttt.PotFrame.{ok, ◌>>=◌, encode_pot_frame, decode_pot_frame}
use open_ttt.PotFrame.Laws.{fields_of, decode-encode}

abbrev test_key : Text
test_key = replicate 32 7

-- Version 1, tier 2, four sources, the time 2^32 and a full confidence.
abbrev test_record : Text
test_record =
    (18 ∷ 4 ∷ 0 ∷ 0 ∷ 0 ∷ 0 ∷ 1 ∷ 0 ∷ 0 ∷ 0 ∷ 0 ∷ 0 ∷ 15 ∷ 66 ∷ 64 ∷ [])
    ++ (replicate 32 9 ++ (replicate 32 5 ++ replicate 64 3))

abbrev test_frame : Text
test_frame = test_key ++ test_record

decode-encode_example :
    (encode_pot_frame test_key test_record >>= decode_pot_frame)
    ≡ ok (fields_of test_key test_record)
decode-encode_example = decode-encode test_key test_record refl refl
