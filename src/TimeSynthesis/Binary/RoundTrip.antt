-- ===== src/TimeSynthesis/Binary/RoundTrip.antt =====
-- Reading back the binary form of a proof of time (src/time_synthesis.ts).
use mathlib.Core.List.{append_assoc, append-nil}
use open_ttt.Prelude.{
  ℕ, Option, ◌^◌, ◌<◌, ◌≡◌, refl, ap, ◌∙◌, none, some, List, [], ◌∷◌, ◌++◌, map, Text, length, take,
  All, be_bytes, arith, length-append, length-be_bytes, of_be-be_bytes, take-append, drop-append,
  take_self,
}
use open_ttt.TimeSynthesis.{SourceReading, ProofOfTime}
use open_ttt.TimeSynthesis.Binary.{
  Encoding, ◌>>=◌, write_uint, read_uint, read_float, read_text, write_reading, write_readings,
  serialize_to_binary, read_reading, read_readings, deserialize_from_binary,
}

write_uint_fits : (w n : ℕ) → n < 256 ^ w → write_uint w n ≡ some (be_bytes w n)
unfolding write_uint
write_uint_fits w n h = ground arith

read_uint_written :
    (w n : ℕ) (rest : Text) → n < 256 ^ w → read_uint w (be_bytes w n ++ rest) ≡ some (n, rest)
unfolding read_uint
read_uint_written w n rest h = rw (take-append (be_bytes w n) rest (length-be_bytes w n)) (
    rw (drop-append (be_bytes w n) rest (length-be_bytes w n)) (
      rw (of_be-be_bytes w n h)
        (ground (arith, length-append (be_bytes w n) rest, length-be_bytes w n))))

-- A step that gives a value hands it on.
goes_on {κ μ} :
    {X : Type κ} {Y : Type μ} {m : Option X} {x : X} {r : Option Y} (f : X → Option Y)
    → m ≡ some x
    → f x ≡ r
    → (m >>= f) ≡ r
goes_on f e h = ap (λ m. m >>= f) e ∙ h

module _ {F : Type 0} (encoding : Encoding F) where
  -- What `writeFloatBE` promises.
  abbrev pub HasFloats : Type 0
  HasFloats = (x : F) → length (encoding.float_bytes x) ≡ 4

  -- A string without lone surrogates.
  abbrev pub IsWellFormed : Text → Type 0
  IsWellFormed s = encoding.utf8_text (encoding.utf8_bytes s) ≡ s

  -- A string of one byte for each UTF-16 unit.
  abbrev pub IsAscii : Text → Type 0
  IsAscii s = (length (encoding.utf8_bytes s) ≡ length s) × IsWellFormed s

  -- A number in single precision.
  abbrev pub rounded : F → F
  rounded x = encoding.float_of (encoding.float_bytes x)

  abbrev pub ReadingFits : SourceReading F → Type 0
  ReadingFits r = (length r.source < 256 ^ 1) × (r.timestamp < 256 ^ 8) × IsAscii r.source

  -- The stratum of a reading is not written.
  abbrev pub restored_reading : SourceReading F → SourceReading F
  restored_reading r = record {
    source = r.source;
    timestamp = r.timestamp;
    uncertainty = rounded r.uncertainty;
    stratum = none;
  }

  abbrev pub restored_readings : List (SourceReading F) → List (SourceReading F)
  restored_readings rs = map restored_reading rs

  abbrev pub restored : ProofOfTime F → ProofOfTime F
  restored pot = record pot {
    uncertainty = rounded pot.uncertainty;
    confidence = rounded pot.confidence;
    source_readings = restored_readings pot.source_readings;
  }

  pub record Fits (pot : ProofOfTime F) : Type 0 where
    pub timestamp_fits : pot.timestamp < 256 ^ 8
    pub expires_fits : pot.expires_at < 256 ^ 8
    pub sources_fit : pot.sources < 256 ^ 1
    pub stratum_fits : pot.stratum < 256 ^ 1
    pub count_fits : length pot.source_readings < 256 ^ 1
    pub nonce_fits : length (encoding.utf8_bytes pot.nonce) < 256 ^ 1
    pub nonce_read : IsWellFormed pot.nonce
    pub readings_fit : All ReadingFits pot.source_readings

  -- The bytes of a reading whose fields fit.
  abbrev reading_bytes : SourceReading F → Text → Text
  reading_bytes r rest =
      be_bytes 1 (length r.source)
      ++ (take (length r.source) (encoding.utf8_bytes r.source)
          ++ (be_bytes 8 r.timestamp ++ (encoding.float_bytes r.uncertainty ++ rest)))

  module _ (floats : HasFloats) where
    read_float_written :
        (x : F) (rest : Text)
        → read_float encoding (encoding.float_bytes x ++ rest) ≡ some (rounded x, rest)
    unfolding read_float
    read_float_written x rest = rw (take-append (encoding.float_bytes x) rest (floats x)) (
        rw (drop-append (encoding.float_bytes x) rest (floats x))
          (ground (arith, length-append (encoding.float_bytes x) rest, floats x)))

    read_text_written :
        (s bytes rest : Text) (n : ℕ)
        → length bytes ≡ n
        → encoding.utf8_text bytes ≡ s
        → read_text encoding n (bytes ++ rest) ≡ (s, rest)
    unfolding read_text
    read_text_written s bytes rest n h e =
        rw (take-append bytes rest h) (rw (drop-append bytes rest h) (rw e refl))

    kept_name :
        (s : Text) → IsAscii s → take (length s) (encoding.utf8_bytes s) ≡ encoding.utf8_bytes s
    kept_name s (e, w) = take_self (length s) (encoding.utf8_bytes s) (omega arith)

    read_reading_written :
        (r : SourceReading F) (rest : Text)
        → ReadingFits r
        → read_reading encoding (reading_bytes r rest) ≡ some (restored_reading r, rest)
    unfolding read_reading
    read_reading_written r rest (short, ts, ascii) =
        let name = encoding.utf8_bytes r.source in
        let after = be_bytes 8 r.timestamp ++ (encoding.float_bytes r.uncertainty ++ rest) in
        rw (kept_name r.source ascii) (
          goes_on _ (read_uint_written 1 (length r.source) (name ++ after) short) (
            rw (read_text_written r.source name after (length r.source) ascii.0 ascii.1) (
              goes_on _
                (read_uint_written 8 r.timestamp (encoding.float_bytes r.uncertainty ++ rest) ts)
                (goes_on _ (read_float_written r.uncertainty rest) refl))))

    write_reading_fits :
        (r : SourceReading F)
        → ReadingFits r
        → (b : Text) × (write_reading encoding r ≡ some b)
          × ((rest : Text) → b ++ rest ≡ reading_bytes r rest)
    unfolding write_reading
    write_reading_fits r (short, ts, ascii) = (
      reading_bytes r [],
      goes_on _ (write_uint_fits 1 (length r.source) short)
          (goes_on _ (write_uint_fits 8 r.timestamp ts) (simp append-nil)),
      λ rest. simp append_assoc,
    )

    readings_read :
        (rs : List (SourceReading F))
        → All ReadingFits rs
        → (b : Text) × (write_readings encoding rs ≡ some b)
          × (read_readings encoding (length rs) b ≡ some (restored_readings rs))
    unfolding write_readings read_readings
    readings_read [] tt = ([], refl, refl)
    readings_read (r ∷ rs) (h, hs) =
        let (b, written, bytes) = write_reading_fits r h in
        let (bs, all_written, read) = readings_read rs hs in
        (
          b ++ bs,
          goes_on _ written (goes_on _ all_written refl),
          rw (bytes bs) (goes_on _ (read_reading_written r bs h) (goes_on _ read refl)),
        )

    -- A proof of time whose numbers and lengths fit their fields, with names in ASCII, is written, and
    -- what is read back is the proof without the strata of its readings and with its floating-point
    -- numbers in single precision.
    pub deserialize-serialize_binary :
        (pot : ProofOfTime F)
        → Fits pot
        → (buf : Text) × (serialize_to_binary encoding pot ≡ some buf)
          × (deserialize_from_binary encoding buf ≡ some (restored pot))
    unfolding serialize_to_binary deserialize_from_binary
    deserialize-serialize_binary pot fits =
        let nonce = encoding.utf8_bytes pot.nonce in
        let (rs, written, read) = readings_read pot.source_readings fits.readings_fit in
        (
          be_bytes 8 pot.timestamp
              ++ (encoding.float_bytes pot.uncertainty
                  ++ (be_bytes 1 pot.sources
                      ++ (be_bytes 1 pot.stratum
                          ++ (encoding.float_bytes pot.confidence
                              ++ (be_bytes 1 (length pot.source_readings)
                                  ++ (be_bytes 1 (length nonce)
                                      ++ (nonce ++ (be_bytes 8 pot.expires_at ++ rs)))))))),
          goes_on _ (write_uint_fits 8 pot.timestamp fits.timestamp_fits) (
              goes_on _ (write_uint_fits 1 pot.sources fits.sources_fit) (
                goes_on _ (write_uint_fits 1 pot.stratum fits.stratum_fits) (
                  goes_on _ (write_uint_fits 1 (length pot.source_readings) fits.count_fits) (
                    goes_on _ (write_uint_fits 1 (length nonce) fits.nonce_fits) (
                      goes_on _ (write_uint_fits 8 pot.expires_at fits.expires_fits)
                        (goes_on _ written refl)))))),
          goes_on _ (read_uint_written 8 pot.timestamp _ fits.timestamp_fits) (
              goes_on _ (read_float_written pot.uncertainty _) (
                goes_on _ (read_uint_written 1 pot.sources _ fits.sources_fit) (
                  goes_on _ (read_uint_written 1 pot.stratum _ fits.stratum_fits) (
                    goes_on _ (read_float_written pot.confidence _) (
                      goes_on _ (read_uint_written 1 (length pot.source_readings) _ fits.count_fits)
                        (goes_on _ (read_uint_written 1 (length nonce) _ fits.nonce_fits) (
                          rw
                            (read_text_written pot.nonce nonce (be_bytes 8 pot.expires_at ++ rs)
                              (length nonce) refl fits.nonce_read)
                            (goes_on _ (read_uint_written 8 pot.expires_at rs fits.expires_fits)
                              (goes_on _ read refl))))))))),
        )
