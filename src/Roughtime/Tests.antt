-- ===== src/Roughtime/Tests.antt =====
-- Runs of the Roughtime client (src/roughtime_source.ts) with a hash and signatures for tests.
use open_ttt.Prelude.{
  ◌<◌, ◌≡◌, refl, true, Bool, Option, some, List, [], ◌∷◌, ◌++◌, Text, codes, length, All, arith,
  le_bytes, replicate, of_le, are_bytes-All, none,
}
use open_ttt.Roughtime.Exchange.{
  Event, times_out, receives, sent, closes, rejected, timed_out, start, run, IsConsistent,
  outcome-run,
}
use open_ttt.Roughtime.Wire.{
  get_tag, set_tag, write_offsets, write_tags, collect, read_words, parse_fields, build_message,
  parse_message, write_values,
}
use open_ttt.Roughtime.Words.{IsTag}
use open_ttt.Roughtime.Values.{fields_of, HasDistinctTags}
use open_ttt.Roughtime.RoundTrip.{parse-build_message}
use open_ttt.Roughtime.Merkle.{
  Tree, leaf, node, IsAt, root_of, concat, walk, join, shift_right, merkle_root, merkle_root-IsAt,
}
use open_ttt.Roughtime.Request.{tag_u32, rt_hash}
use open_ttt.Roughtime.Response.{
  open_packet, read_top, read_delegation, read_report, read_le, check_signature,
  rebuild_ed25519_public_key, check_report, ValidatedResponse, ok, validate_roughtime_response,
}
use open_ttt.Roughtime.Valid.{IsAuthentic, validate_sound}

abbrev test_fields : List (Text × Text)
test_fields =
    (tag_u32 (codes "SRV"), 1 ∷ 2 ∷ [])
    ∷ (tag_u32 (codes "VER"), [])
    ∷ (tag_u32 (codes "NONC"), replicate 32 7)
    ∷ []

tags : All (λ p. IsTag p.0) test_fields
tags = (
  (are_bytes-All (tag_u32 (codes "SRV")) refl, refl),
  (
    (are_bytes-All (tag_u32 (codes "VER")) refl, refl),
    ((are_bytes-All (tag_u32 (codes "NONC")) refl, refl), tt),
  ),
)

distinct : HasDistinctTags test_fields
unfolding of_le
distinct = ((omega arith, (omega arith, tt)), ((omega arith, tt), (tt, tt)))

few_values : length (write_values test_fields) < 4294967296
unfolding write_values
few_values = omega arith

parse-build_message_example :
    parse_message (build_message test_fields) ≡ some (fields_of test_fields)
parse-build_message_example = parse-build_message test_fields tags distinct (omega arith) few_values

-- A hash of 32 bytes.
abbrev test_hash : Text → Text
test_hash x = replicate 32 (length x)

abbrev test_tree : Tree
test_tree = node (node (leaf (codes "a")) (leaf (codes "bc"))) (leaf (codes "def"))

abbrev test_path : List Text
test_path = root_of test_hash (leaf (codes "a")) ∷ root_of test_hash (leaf (codes "def")) ∷ []

placed : IsAt test_hash (codes "bc") test_tree 2 1 test_path
placed =
    IsAt.left (node (leaf (codes "a")) (leaf (codes "bc"))) (leaf (codes "def")) 1 1
      (root_of test_hash (leaf (codes "a")) ∷ [])
      (IsAt.right (leaf (codes "a")) (leaf (codes "bc")) 0 0 [] IsAt.here)

merkle_root-IsAt_example :
    merkle_root test_hash (codes "bc") 1 (concat test_path) ≡ (root_of test_hash test_tree, 0)
merkle_root-IsAt_example =
    merkle_root-IsAt test_hash (codes "bc") test_tree 2 1 test_path (λ x. refl) placed (omega arith)

abbrev test_sha512 : Text → Text
test_sha512 x = replicate 64 (length x)

abbrev test_create_key : Text → Option Text
test_create_key raw = some raw

abbrev test_verify : Text → Text → Text → Option Bool
test_verify signed key signature = some true

abbrev test_dele : Text
test_dele = build_message (
    (tag_u32 (codes "PUBK"), replicate 32 4)
    ∷ (tag_u32 (codes "MINT"), le_bytes 8 1000)
    ∷ (tag_u32 (codes "MAXT"), le_bytes 8 3000)
    ∷ [])

abbrev test_cert : Text
test_cert = build_message ((tag_u32 (codes "SIG"), []) ∷ (tag_u32 (codes "DELE"), test_dele) ∷ [])

-- The request is alone in its tree, so that its leaf is the root.
abbrev test_srep : Text
test_srep = build_message (
    (tag_u32 (codes "RADI"), le_bytes 4 5)
    ∷ (tag_u32 (codes "MIDP"), le_bytes 8 2000)
    ∷ (tag_u32 (codes "ROOT"), replicate 32 2)
    ∷ [])

abbrev test_message : Text
test_message = build_message (
    (tag_u32 (codes "SIG"), [])
    ∷ (tag_u32 (codes "NONC"), replicate 32 9)
    ∷ (tag_u32 (codes "TYPE"), le_bytes 4 1)
    ∷ (tag_u32 (codes "PATH"), [])
    ∷ (tag_u32 (codes "SREP"), test_srep)
    ∷ (tag_u32 (codes "CERT"), test_cert)
    ∷ (tag_u32 (codes "INDX"), le_bytes 4 0)
    ∷ [])

abbrev test_packet : Text
test_packet = codes "ROUGHTIM" ++ (le_bytes 4 (length test_message) ++ test_message)

abbrev test_time : ValidatedResponse
test_time = record { midp_seconds = 2000; radi_seconds = 5 }

validated :
    validate_roughtime_response test_sha512 test_create_key test_verify
      (codes "q")
      test_packet
      (replicate 32 6)
      (replicate 32 9)
    ≡ ok test_time
unfolding validate_roughtime_response open_packet read_top read_delegation read_report read_le
    check_signature rebuild_ed25519_public_key check_report parse_message parse_fields collect
    read_words of_le get_tag set_tag build_message write_offsets write_tags write_values le_bytes
    merkle_root walk join shift_right rt_hash
validated = refl

validate_sound_example :
    IsAuthentic test_sha512 test_create_key test_verify
      (codes "q")
      test_packet
      (replicate 32 6)
      (replicate 32 9)
      test_time
validate_sound_example =
    validate_sound test_sha512 test_create_key test_verify (codes "q") test_packet (replicate 32 6)
      (replicate 32 9) test_time validated

-- A closed source, a packet that was sent and no answer to it.
abbrev lost_packet : List Event
lost_packet = sent none ∷ closes ∷ times_out ∷ receives (codes "late") ∷ []

outcome-run_example :
    ((run lost_packet start).outcome ≡ some (rejected timed_out))
    × IsConsistent (run lost_packet start)
outcome-run_example = outcome-run lost_packet
