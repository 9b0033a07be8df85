-- ===== src/Roughtime/Request.antt =====
-- Tags, hashes and the request of Roughtime (src/roughtime_source.ts). SHA-512 is a parameter.
use open_ttt.Prelude.{
  ℕ, zero, suc, ◌+◌, ◌-◌, Option, none, some, List, [], ◌∷◌, ◌++◌, Text, length, take, codes,
  subarray, le_bytes, of_le, not, ltb, ◌==◌, if◌then◌else◌,
}
use open_ttt.Roughtime.Wire.{build_message}

abbrev pub nonce_len : ℕ
nonce_len = 32

abbrev pub min_packet_len : ℕ
min_packet_len = 1024

abbrev pub zeros : ℕ → Text
zeros zero = []
zeros (suc n) = 0 ∷ zeros n

-- A name of at most four characters, padded with zeros.
abbrev pub tag_u32 : Text → Text
tag_u32 ascii = take 4 (ascii ++ zeros 4)

abbrev pub tag_key : Text → ℕ
tag_key tag = of_le (take 4 tag)

unfoldable pub rt_hash : (Text → Text) → Text → Text
rt_hash sha512 bytes = subarray 0 32 (sha512 bytes)

-- The stable sort by tag.
unfoldable pub insert_field : Text × Text → List (Text × Text) → List (Text × Text)
insert_field f [] = f ∷ []
insert_field f (g ∷ gs) =
    let later = insert_field f gs in
    if ltb (tag_key g.0) (tag_key f.0) then g ∷ later else f ∷ g ∷ gs

unfoldable pub sort_fields : List (Text × Text) → List (Text × Text)
unfolding insert_field
sort_fields [] = []
sort_fields (f ∷ fs) = insert_field f (sort_fields fs)

unfoldable pub request_fields : (Text → Text) → Text → Text → List (Text × Text)
unfolding rt_hash
request_fields sha512 nonce server_key =
    (tag_u32 (codes "NONC"), nonce)
    ∷ (tag_u32 (codes "SRV"), rt_hash sha512 (255 ∷ server_key))
    ∷ (tag_u32 (codes "TYPE"), zeros 4)
    ∷ (tag_u32 (codes "VER"), le_bytes 4 1 ++ le_bytes 4 2147483660)
    ∷ []

-- With a filler up to the least length of a packet.
unfoldable pub pad_message : List (Text × Text) → Text
unfolding sort_fields
pad_message pairs =
    let msg = build_message pairs in
    if ltb (12 + length msg) min_packet_len
    then build_message (
        sort_fields
          (pairs ++ (tag_u32 (codes "ZZZZ"), zeros (min_packet_len - (12 + length msg))) ∷ []))
    else msg

-- `none` is the error for a nonce of another length.
unfoldable pub build_roughtime_request : (Text → Text) → Text → Text → Option Text
unfolding request_fields pad_message
build_roughtime_request sha512 nonce server_key =
    if not (length nonce == nonce_len)
    then none
    else let msg = pad_message (sort_fields (request_fields sha512 nonce server_key)) in
      some (codes "ROUGHTIM" ++ (le_bytes 4 (length msg) ++ msg))
