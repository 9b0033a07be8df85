-- ===== src/TimeSynthesis/Sources.antt =====
-- What the NTP and HTTPS time sources make of a reply (src/time_synthesis.ts, src/http_client.ts).
-- The local clock is read at t1 and t4, in nanoseconds, and does not run backwards in between.
-- How uncertainties are computed in floating point, and how a date is parsed, are parameters.
use open_ttt.Prelude.{
  ℕ, ◌+◌, ◌-◌, ◌*◌, ◌/◌, ◌≤◌, Option, none, some, [], ◌∷◌, Text, ℤ, sub_ℕ, length, subarray, of_be,
  ltb, leb, ◌||◌, ◌==◌, if◌then◌else◌, arith,
}
use open_ttt.TimeSynthesis.{TimeReading}

pub data SourceError : Type 0 where
  short_packet bad_receive_time bad_transmit_time no_date invalid_date : SourceError
  bad_stratum : ℕ → SourceError
  -- The `RangeError` of `BigInt(NaN)` in the callback.
  thrown : SourceError

pub data Reply (F : Type 0) : Type 0 where
  resolved : TimeReading F → Reply F
  rejected : SourceError → Reply F

-- From 1900 to 1970, in seconds.
abbrev pub ntp_offset : ℕ
ntp_offset = 2208988800

abbrev pub read_u32_be : ℕ → Text → ℕ
read_u32_be at msg = of_be (subarray at (at + 4) msg)

-- Seconds since 1900 and a fraction of 2^32, in nanoseconds since 1970.
unfoldable pub ntp_ns : ℕ → ℕ → ℕ
ntp_ns sec frac = (sec - ntp_offset) * 1000000000 + frac * 1000000000 / 4294967296

-- `t4 + ((t2 - t1) + (t3 - t4)) / 2n`, a quotient that is rounded towards zero.
unfoldable pub ntp_corrected : ℕ → ℕ → ℕ → ℕ → ℕ
ntp_corrected t1 t2 t3 t4 =
    if leb (t1 + t4) (t2 + t3)
    then t4 + (t2 + t3 - (t1 + t4)) / 2
    else t4 - (t1 + t4 - (t2 + t3)) / 2

module _ {F : Type 0} where
  -- The message handler of `NTPSource.getTime`; the uncertainty is of the raw root dispersion and
  -- the delay.
  unfoldable pub ntp_reply : (ℕ → ℤ → F) → Text → ℕ → ℕ → Text → Reply F
  unfolding ntp_ns ntp_corrected
  ntp_reply uncertainty_of name t1 t4 msg =
      let stratum = of_be (subarray 1 2 msg) in
      let t2 = ntp_ns (read_u32_be 32 msg) (read_u32_be 36 msg) in
      let t3 = ntp_ns (read_u32_be 40 msg) (read_u32_be 44 msg) in
      if ltb (length msg) 48
      then rejected short_packet
      else if stratum == 0 || ltb 15 stratum
      then rejected (bad_stratum stratum)
      else if leb (read_u32_be 32 msg) ntp_offset
      then rejected bad_receive_time
      else if leb (read_u32_be 40 msg) ntp_offset
      then rejected bad_transmit_time
      else resolved (record {
        timestamp = ntp_corrected t1 t2 t3 t4;
        uncertainty = uncertainty_of (read_u32_be 8 msg) (sub_ℕ (t4 + t2) (t1 + t3));
        stratum = stratum;
        source = name;
      })

  -- A server time in milliseconds, moved by half of the round trip.
  unfoldable pub date_reading : (ℕ → F) → Text → ℕ → ℕ → ℕ → TimeReading F
  date_reading uncertainty_of name t1 t4 server_ms = record {
    timestamp = server_ms * 1000000 + (t4 - t1) / 2;
    uncertainty = uncertainty_of (t4 - t1);
    stratum = 2;
    source = name;
  }

  of_date : SourceError → (ℕ → F) → Text → ℕ → ℕ → Option ℕ → Reply F
  of_date unparsed uncertainty_of name t1 t4 none = rejected unparsed
  of_date unparsed uncertainty_of name t1 t4 (some server_ms) =
      resolved (date_reading uncertainty_of name t1 t4 server_ms)

  -- The response handler of `HTTPSTimeSource.getTime`, from the Date header and its parse.
  unfoldable pub https_reply : (Text → Option ℕ) → (ℕ → F) → Text → ℕ → ℕ → Option Text → Reply F
  unfolding of_date date_reading
  https_reply parse uncertainty_of name t1 t4 none = rejected no_date
  https_reply parse uncertainty_of name t1 t4 (some []) = rejected no_date
  https_reply parse uncertainty_of name t1 t4 (some (c ∷ header)) =
      of_date thrown uncertainty_of name t1 t4 (parse (c ∷ header))

  -- The response handler of `fetchHttpsDate`, which tests the parse.
  unfoldable pub fetch_https_date :
      (Text → Option ℕ) → (ℕ → F) → Text → ℕ → ℕ → Option Text → Reply F
  unfolding of_date date_reading
  fetch_https_date parse uncertainty_of name t1 t4 none = rejected no_date
  fetch_https_date parse uncertainty_of name t1 t4 (some []) = rejected no_date
  fetch_https_date parse uncertainty_of name t1 t4 (some (c ∷ header)) =
      of_date invalid_date uncertainty_of name t1 t4 (parse (c ∷ header))

-- If the local times and the server's are in order and the server took no longer than the exchange,
-- the corrected time is no earlier than the server's answer and later by at most the whole delay.
pub ntp_corrected_range :
    (t1 t2 t3 t4 : ℕ)
    → t1 ≤ t4
    → t2 ≤ t3
    → t3 - t2 ≤ t4 - t1
    → (t3 ≤ ntp_corrected t1 t2 t3 t4) × (ntp_corrected t1 t2 t3 t4 ≤ t3 + (t4 - t1 - (t3 - t2)))
unfolding ntp_corrected
ntp_corrected_range t1 t2 t3 t4 local server delay = ground arith
