-- ===== src/TimeSynthesis/Binary/Tests.antt =====
-- The binary form of a small proof of time (src/time_synthesis.ts).
use open_ttt.Prelude.{
  ℕ, ◌≡◌, refl, none, some, [], ◌∷◌, Text, codes, take, arith, be_bytes, of_be, of_le,
}
use open_ttt.TimeSynthesis.{ProofOfTime}
use open_ttt.TimeSynthesis.Binary.{
  Encoding, write_uint, read_uint, read_float, read_text, binary_size, write_reading,
  write_readings, serialize_to_binary, read_reading, read_readings, deserialize_from_binary,
}
use open_ttt.TimeSynthesis.Binary.RoundTrip.{Fits, restored, deserialize-serialize_binary}
use open_ttt.TimeSynthesis.Binary.Size.{length-serialize_to_binary}

abbrev first : Text → ℕ
first [] = 0
first (b ∷ bs) = b

-- Plain text, and whole numbers below 256 for the floating-point ones.
abbrev test_encoding : Encoding ℕ
test_encoding = record {
  utf8_bytes = λ s. s;
  utf8_text = λ b. b;
  float_bytes = λ x. x ∷ 0 ∷ 0 ∷ 0 ∷ [];
  float_of = first;
}

abbrev test_pot : ProofOfTime ℕ
test_pot = record {
  timestamp = 1002;
  uncertainty = 10;
  sources = 1;
  stratum = 2;
  confidence = 75;
  source_readings =
      record { source = codes "nist"; timestamp = 1000; uncertainty = 7; stratum = some 1 } ∷ [];
  nonce = codes "n";
  expires_at = 60500;
}

test_pot-Fits : Fits test_encoding test_pot
test_pot-Fits = record {
  timestamp_fits = omega arith;
  expires_fits = omega arith;
  sources_fit = omega arith;
  stratum_fits = omega arith;
  count_fits = omega arith;
  nonce_fits = omega arith;
  nonce_read = refl;
  readings_fit = ((omega arith, omega arith, (refl, refl)), tt);
}

deserialize-serialize_binary_example :
    (buf : Text) × (serialize_to_binary test_encoding test_pot ≡ some buf)
    × (deserialize_from_binary test_encoding buf ≡ some (restored test_encoding test_pot))
deserialize-serialize_binary_example =
    deserialize-serialize_binary test_encoding (λ x. refl) test_pot test_pot-Fits

abbrev test_buffer : Text
test_buffer =
    0 ∷ 0 ∷ 0 ∷ 0 ∷ 0 ∷ 0 ∷ 3 ∷ 234 ∷ 10 ∷ 0 ∷ 0 ∷ 0 ∷ 1 ∷ 2 ∷ 75 ∷ 0 ∷ 0 ∷ 0 ∷ 1 ∷ 1 ∷ 110 ∷ 0 ∷ 0
    ∷ 0 ∷ 0 ∷ 0 ∷ 0 ∷ 236 ∷ 84 ∷ 4 ∷ 110 ∷ 105 ∷ 115 ∷ 116 ∷ 0 ∷ 0 ∷ 0 ∷ 0 ∷ 0 ∷ 0 ∷ 3 ∷ 232 ∷ 7 ∷ 0
    ∷ 0 ∷ 0 ∷ []

test_written : serialize_to_binary test_encoding test_pot ≡ some test_buffer
unfolding serialize_to_binary write_uint be_bytes write_readings write_reading
test_written = refl

length-serialize_to_binary_example : 46 ≡ binary_size test_encoding test_pot
length-serialize_to_binary_example =
    length-serialize_to_binary test_encoding (λ x. refl) (λ s. omega arith) test_pot test_buffer
      test_written

-- A count of readings that has no readings behind it is a read past the end.
cut_short : deserialize_from_binary test_encoding (take 29 test_buffer) ≡ none
unfolding deserialize_from_binary read_uint read_float read_text read_readings read_reading of_be
    of_le
cut_short = refl
