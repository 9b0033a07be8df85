-- ===== src/TimeSynthesis/Binary/Size.antt =====
-- How long the binary form of a proof of time is (src/time_synthesis.ts).
use open_ttt.Prelude.{
  ℕ, ◌+◌, ◌≤◌, ◌≡◌, refl, Option, none, some, List, [], ◌∷◌, ◌++◌, Text, length, take, arith,
  length-append, length-be_bytes, length-take,
}
use open_ttt.TimeSynthesis.{SourceReading, ProofOfTime}
use open_ttt.TimeSynthesis.Binary.{
  Encoding, ◌>>=◌, write_uint, readings_size, binary_size, write_reading, write_readings,
  serialize_to_binary,
}
use open_ttt.TimeSynthesis.Binary.RoundTrip.{HasFloats}

-- What came before a result.
pub came_from {κ μ} :
    {X : Type κ} {Y : Type μ} (m : Option X) (f : X → Option Y) {r : Y}
    → (m >>= f) ≡ some r
    → (x : X) × (m ≡ some x) × (f x ≡ some r)
came_from none f e = cc
came_from (some x) f e = (x, refl, e)

length-write_uint : (w n : ℕ) (b : Text) → write_uint w n ≡ some b → length b ≡ w
unfolding write_uint
length-write_uint w n b e = ground (arith, length-be_bytes w n)

module _ {F : Type 0} (encoding : Encoding F) where
  -- Every UTF-16 unit takes a byte at least.
  abbrev pub HasLongBytes : Type 0
  HasLongBytes = (s : Text) → length s ≤ length (encoding.utf8_bytes s)

  module _ (floats : HasFloats encoding) (long : HasLongBytes) where
    length-write_reading :
        (r : SourceReading F) (b : Text)
        → write_reading encoding r ≡ some b
        → length b ≡ 1 + length r.source + 8 + 4
    unfolding write_reading
    length-write_reading r b e =
        let (name_len, e1, e) = came_from (write_uint 1 (length r.source)) _ e in
        let (ts, e2, e) = came_from (write_uint 8 r.timestamp) _ e in
        let name = take (length r.source) (encoding.utf8_bytes r.source) in
        let unc = encoding.float_bytes r.uncertainty in
        ground (
          arith,
          length-append name_len (name ++ (ts ++ unc)),
          length-append name (ts ++ unc),
          length-append ts unc,
          length-write_uint 1 (length r.source) name_len e1,
          length-write_uint 8 r.timestamp ts e2,
          length-take (length r.source) (encoding.utf8_bytes r.source),
          long r.source,
          floats r.uncertainty,
        )

    length-write_readings :
        (rs : List (SourceReading F)) (b : Text)
        → write_readings encoding rs ≡ some b
        → length b ≡ readings_size encoding rs
    unfolding write_readings readings_size
    length-write_readings [] b e = ground arith
    length-write_readings (r ∷ rs) b e =
        let (b1, e1, e) = came_from (write_reading encoding r) _ e in
        let (b2, e2, e) = came_from (write_readings encoding rs) _ e in
        ground
          (arith, length-append b1 b2, length-write_reading r b1 e1, length-write_readings rs b2 e2)

    -- The fields that are written fill the buffer that was allocated for them, whatever the names are.
    pub length-serialize_to_binary :
        (pot : ProofOfTime F) (buf : Text)
        → serialize_to_binary encoding pot ≡ some buf
        → length buf ≡ binary_size encoding pot
    unfolding serialize_to_binary binary_size
    length-serialize_to_binary pot buf e =
        let (ts, e1, e) = came_from (write_uint 8 pot.timestamp) _ e in
        let (sources, e2, e) = came_from (write_uint 1 pot.sources) _ e in
        let (stratum, e3, e) = came_from (write_uint 1 pot.stratum) _ e in
        let (count, e4, e) = came_from (write_uint 1 (length pot.source_readings)) _ e in
        let (nonce_len, e5, e) =
          came_from (write_uint 1 (length (encoding.utf8_bytes pot.nonce))) _ e in
        let (expires, e6, e) = came_from (write_uint 8 pot.expires_at) _ e in
        let (readings, e7, e) = came_from (write_readings encoding pot.source_readings) _ e in
        let nonce = encoding.utf8_bytes pot.nonce in
        let unc = encoding.float_bytes pot.uncertainty in
        let conf = encoding.float_bytes pot.confidence in
        let l9 = expires ++ readings in
        let l8 = nonce ++ l9 in
        let l7 = nonce_len ++ l8 in
        let l6 = count ++ l7 in
        let l5 = conf ++ l6 in
        let l4 = stratum ++ l5 in
        let l3 = sources ++ l4 in
        ground (
          arith,
          length-append ts (unc ++ l3),
          length-append unc l3,
          length-append sources l4,
          length-append stratum l5,
          length-append conf l6,
          length-append count l7,
          length-append nonce_len l8,
          length-append nonce l9,
          length-append expires readings,
          length-write_uint 8 pot.timestamp ts e1,
          length-write_uint 1 pot.sources sources e2,
          length-write_uint 1 pot.stratum stratum e3,
          length-write_uint 1 (length pot.source_readings) count e4,
          length-write_uint 1 (length nonce) nonce_len e5,
          length-write_uint 8 pot.expires_at expires e6,
          length-write_readings pot.source_readings readings e7,
          floats pot.uncertainty,
          floats pot.confidence,
        )
