-- ===== src/TimeSynthesis/Binary.antt =====
-- The compact binary form of a proof of time (src/time_synthesis.ts). A buffer that is read is what
-- is left of it from the offset on. UTF-8 and single-precision floats are parameters; `none` is the
-- `RangeError` of a value that does not fit its field, or of a read past the end.
pub mod RoundTrip
pub mod Size
mod Tests
use open_ttt.Prelude.{
  ℕ, zero, suc, ◌+◌, ◌^◌, Option, none, some, List, [], ◌∷◌, ◌++◌, Text, length, take, drop,
  be_bytes, of_be, ltb, leb, if◌then◌else◌,
}
use open_ttt.TimeSynthesis.{SourceReading, ProofOfTime}

pub record Encoding (F : Type 0) : Type 0 where
  -- `Buffer.from(s, "utf8")` and `buf.toString("utf8")`.
  pub utf8_bytes : Text → Text
  pub utf8_text : Text → Text
  -- The four bytes that `writeFloatBE` writes, and what `readFloatBE` makes of them.
  pub float_bytes : F → Text
  pub float_of : Text → F

infixl 5 ◌>>=◌
abbrev pub ◌>>=◌ {κ μ} : {X : Type κ} {Y : Type μ} → Option X → (X → Option Y) → Option Y
none >>= next = none
some x >>= next = next x

-- `writeUInt8(n)` for one byte, `writeBigUInt64BE(n)` for eight.
unfoldable pub write_uint : ℕ → ℕ → Option Text
write_uint w n = if ltb n (256 ^ w) then some (be_bytes w n) else none

-- `readUInt8` and `readBigUInt64BE`, and the step of the offset.
unfoldable pub read_uint : ℕ → Text → Option (ℕ × Text)
read_uint w buf = if leb w (length buf) then some (of_be (take w buf), drop w buf) else none

module _ {F : Type 0} (encoding : Encoding F) where
  unfoldable pub read_float : Text → Option (F × Text)
  read_float buf =
      if leb 4 (length buf) then some (encoding.float_of (take 4 buf), drop 4 buf) else none

  -- `toString("utf8", offset, offset + n)`, which stops at the end of the buffer.
  unfoldable pub read_text : ℕ → Text → Text × Text
  read_text n buf = (encoding.utf8_text (take n buf), drop n buf)

  -- The size that is allocated.
  unfoldable pub readings_size : List (SourceReading F) → ℕ
  readings_size [] = 0
  readings_size (r ∷ rs) = 1 + length r.source + 8 + 4 + readings_size rs

  unfoldable pub binary_size : ProofOfTime F → ℕ
  binary_size pot =
      19 + 1 + length (encoding.utf8_bytes pot.nonce) + 8 + readings_size pot.source_readings

  -- The name's length counts UTF-16 units, of which none takes more than its bytes in UTF-8: what
  -- the name has beyond that length is overwritten by the fields that follow.
  unfoldable pub write_reading : SourceReading F → Option Text
  write_reading r = do
    name_len ← write_uint 1 (length r.source)
    ts ← write_uint 8 r.timestamp
    some (
        name_len
        ++ (take (length r.source) (encoding.utf8_bytes r.source)
            ++ (ts ++ encoding.float_bytes r.uncertainty)))

  unfoldable pub write_readings : List (SourceReading F) → Option Text
  write_readings [] = some []
  write_readings (r ∷ rs) = do
    first ← write_reading r
    rest ← write_readings rs
    some (first ++ rest)

  unfoldable pub serialize_to_binary : ProofOfTime F → Option Text
  serialize_to_binary pot = do
    timestamp ← write_uint 8 pot.timestamp
    sources ← write_uint 1 pot.sources
    stratum ← write_uint 1 pot.stratum
    count ← write_uint 1 (length pot.source_readings)
    nonce_len ← write_uint 1 (length (encoding.utf8_bytes pot.nonce))
    expires_at ← write_uint 8 pot.expires_at
    readings ← write_readings pot.source_readings
    some (
        timestamp
        ++ (encoding.float_bytes pot.uncertainty
            ++ (sources
                ++ (stratum
                    ++ (encoding.float_bytes pot.confidence
                        ++ (count
                            ++ (nonce_len
                                ++ (encoding.utf8_bytes pot.nonce
                                    ++ (expires_at ++ readings)))))))))

  unfoldable pub read_reading : Text → Option (SourceReading F × Text)
  read_reading buf = do
    (name_len, buf) ← read_uint 1 buf
    let (source, buf) = read_text name_len buf
    (ts, buf) ← read_uint 8 buf
    (unc, buf) ← read_float buf
    some (record { source = source; timestamp = ts; uncertainty = unc; stratum = none }, buf)

  unfoldable pub read_readings : ℕ → Text → Option (List (SourceReading F))
  read_readings zero buf = some []
  read_readings (suc n) buf = do
    (r, buf) ← read_reading buf
    rs ← read_readings n buf
    some (r ∷ rs)

  unfoldable pub deserialize_from_binary : Text → Option (ProofOfTime F)
  deserialize_from_binary buf = do
    (timestamp, buf) ← read_uint 8 buf
    (uncertainty, buf) ← read_float buf
    (sources, buf) ← read_uint 1 buf
    (stratum, buf) ← read_uint 1 buf
    (confidence, buf) ← read_float buf
    (sig_count, buf) ← read_uint 1 buf
    (nonce_len, buf) ← read_uint 1 buf
    let (nonce, buf) = read_text nonce_len buf
    (expires_at, buf) ← read_uint 8 buf
    source_readings ← read_readings sig_count buf
    some (record {
      timestamp = timestamp;
      uncertainty = uncertainty;
      sources = sources;
      stratum = stratum;
      confidence = confidence;
      source_readings = source_readings;
      nonce = nonce;
      expires_at = expires_at;
    })
