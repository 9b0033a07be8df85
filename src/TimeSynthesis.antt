-- ===== src/TimeSynthesis.antt =====
-- Time synthesis and proof of time (src/time_synthesis.ts, with the types of src/types.ts).
-- Timestamps are whole nanoseconds, wall-clock times whole milliseconds. Floating-point values are
-- of an abstract type with the operations that the source applies to them. What a source answers is
-- `none` for a failure; logging is left out.
pub mod Sort
pub mod Median
pub mod Readings
pub mod Verify
pub mod Generate
pub mod Sources
pub mod Choice
pub mod Binary
mod Tests
use Prim.Native.Nat.{min}
use open_ttt.Prelude.{
  ℕ, ◌+◌, ◌-◌, ◌*◌, ◌/◌, Bool, true, false, Option, none, some, List, [], ◌∷◌, map, Text, length,
  get_elem?, ltb, leb, ◌==◌, if◌then◌else◌,
}
use open_ttt.ReplayCache.{NonceMap, register}

-- JavaScript numbers that need not be whole, with what the source does to them.
pub record Floats (F : Type 0) : Type 0 where
  -- (a + b) / 2
  pub mean : F → F → F
  -- a / b, of two counts
  pub ratio : ℕ → ℕ → F
  -- x <= 0
  pub is_not_positive : F → Bool
  -- `BigInt(Math.round(x * 1_000_000))`, a negative result read as 0; `none` is its `RangeError`.
  pub to_ns : F → Option ℕ

pub record TimeReading (F : Type 0) : Type 0 where
  pub timestamp : ℕ
  pub uncertainty : F
  pub stratum : ℕ
  pub source : Text

pub record SynthesizedTime (F : Type 0) : Type 0 where
  pub timestamp : ℕ
  pub confidence : F
  pub uncertainty : F
  pub sources : ℕ
  pub stratum : ℕ

pub record SourceReading (F : Type 0) : Type 0 where
  pub source : Text
  pub timestamp : ℕ
  pub uncertainty : F
  pub stratum : Option ℕ

pub record ProofOfTime (F : Type 0) : Type 0 where
  pub timestamp : ℕ
  pub uncertainty : F
  pub sources : ℕ
  pub stratum : ℕ
  pub confidence : F
  pub source_readings : List (SourceReading F)
  pub nonce : Text
  pub expires_at : ℕ

pub data SynthesisError : Type 0 where
  all_sources_failed pot_all_failed self_verify_failed : SynthesisError
  -- The `RangeError` of a conversion to a bigint.
  range_error : SynthesisError

pub data Result {ℓ} (X : Type ℓ) : Type ℓ where
  err : SynthesisError → Result X
  ok : X → Result X

pub data Verdict : Type 0 where
  accepted rejected thrown : Verdict

-- Timestamp, uncertainty and stratum of several readings together.
pub record Combined (F : Type 0) : Type 0 where
  pub timestamp : ℕ
  pub uncertainty : F
  pub stratum : ℕ

-- The stratum of `pot`, or the lowest one of its readings if that is lower.
abbrev lower_stratum : Option ℕ → ℕ → ℕ
lower_stratum none low = low
lower_stratum (some s) low = if ltb s low then s else low

module _ {F : Type 0} where
  -- `Promise.allSettled` and the loop that keeps the fulfilled readings.
  unfoldable pub fulfilled : List (Option (TimeReading F)) → List (TimeReading F)
  fulfilled [] = []
  fulfilled (none ∷ rs) = fulfilled rs
  fulfilled (some r ∷ rs) = r ∷ fulfilled rs

  -- The stable sort by timestamp.
  unfoldable pub insert_reading : TimeReading F → List (TimeReading F) → List (TimeReading F)
  insert_reading r [] = r ∷ []
  insert_reading r (s ∷ rs) =
      let later = insert_reading r rs in
      if ltb s.timestamp r.timestamp then s ∷ later else r ∷ s ∷ rs

  unfoldable pub sort_readings : List (TimeReading F) → List (TimeReading F)
  unfolding insert_reading
  sort_readings [] = []
  sort_readings (r ∷ rs) = insert_reading r (sort_readings rs)

  abbrev pub of_reading : Option (TimeReading F) → Option (Combined F)
  of_reading none = none
  of_reading (some r) =
      some (record { timestamp = r.timestamp; uncertainty = r.uncertainty; stratum = r.stratum })

  -- The reading in the middle of a sorted list, the later one of two.
  unfoldable pub middle : List (TimeReading F) → Option (Combined F)
  middle rs = of_reading (get_elem? rs (length rs / 2))

  abbrev pub to_source_reading : TimeReading F → SourceReading F
  to_source_reading r = record {
    source = r.source;
    timestamp = r.timestamp;
    uncertainty = r.uncertainty;
    stratum = some r.stratum;
  }

  abbrev pub source_readings_of : List (TimeReading F) → List (SourceReading F)
  source_readings_of rs = map to_source_reading rs

  unfoldable pub lowest_stratum : ℕ → List (SourceReading F) → ℕ
  lowest_stratum low [] = low
  lowest_stratum low (r ∷ rs) = lowest_stratum (lower_stratum r.stratum low) rs

-- In nanoseconds.
unfoldable pub get_tolerance_for_stratum : ℕ → ℕ
get_tolerance_for_stratum stratum =
    if leb stratum 1 then 10000000 else if stratum == 2 then 25000000 else 50000000

abbrev pub abs_diff : ℕ → ℕ → ℕ
abs_diff a b = if ltb b a then a - b else b - a

abbrev pub larger : ℕ → ℕ → ℕ
larger own floor = if ltb floor own then own else floor

module _ {F : Type 0} (floats : Floats F) where
  -- One reading as it is, two averaged, of more the middle one; the readings are sorted.
  unfoldable pub combine : List (TimeReading F) → Option (Combined F)
  combine [] = none
  combine (a ∷ []) = of_reading (some a)
  combine (a ∷ b ∷ []) = some (record {
    timestamp = (a.timestamp + b.timestamp) / 2;
    uncertainty = floats.mean a.uncertainty b.uncertainty;
    stratum = min a.stratum b.stratum;
  })
  combine (a ∷ b ∷ c ∷ rs) = middle (a ∷ b ∷ c ∷ rs)

  unfoldable pub synthesized : ℕ → ℕ → Option (Combined F) → Result (SynthesizedTime F)
  synthesized sources n none = err all_sources_failed
  synthesized sources n (some m) = ok (record {
    timestamp = m.timestamp;
    confidence = floats.ratio n sources;
    uncertainty = m.uncertainty;
    sources = n;
    stratum = m.stratum;
  })

  -- `synthesize`, from what each source answered.
  unfoldable pub synthesize : List (Option (TimeReading F)) → Result (SynthesizedTime F)
  unfolding synthesized
  synthesize results =
      let readings = fulfilled results in
      if length readings == 0
      then err all_sources_failed
      else synthesized (length results) (length readings) (combine (sort_readings readings))

  -- The loop over the readings against the synthesized timestamp.
  unfoldable pub check_readings : ℕ → ℕ → List (SourceReading F) → Verdict
  check_readings floor_ns timestamp [] = accepted
  check_readings floor_ns timestamp (r ∷ rs) =
      let rest = check_readings floor_ns timestamp rs in
      elim (floats.to_ns r.uncertainty) [
        | none ↦ thrown
        | some own_ns ↦
            if ltb (larger own_ns floor_ns) (abs_diff r.timestamp timestamp) then rejected else rest
      ]

  -- `verifyProofOfTime` at the time `now_ms`, with the instance's nonces.
  unfoldable pub verify_proof_of_time : ℕ → ProofOfTime F → NonceMap → NonceMap × Verdict
  verify_proof_of_time now_ms pot nonces =
      if length pot.source_readings == 0
      then (nonces, rejected)
      else if floats.is_not_positive pot.confidence
      then (nonces, rejected)
      else if ltb pot.expires_at now_ms
      then (nonces, rejected)
      else let (nonces', new) = register now_ms pot.nonce nonces in
        if new
        then (
          nonces',
          check_readings
              (get_tolerance_for_stratum (lowest_stratum pot.stratum pot.source_readings))
              pot.timestamp pot.source_readings,
        )
        else (nonces', rejected)

  abbrev settle : ProofOfTime F → NonceMap × Verdict → NonceMap × Result (ProofOfTime F)
  settle pot (nonces, accepted) = (nonces, ok pot)
  settle pot (nonces, rejected) = (nonces, err self_verify_failed)
  settle pot (nonces, thrown) = (nonces, err range_error)

  unfoldable pub make_pot : ℕ → Text → ℕ → List (TimeReading F) → Combined F → ProofOfTime F
  make_pot sources nonce issued_ms readings m = record {
    timestamp = m.timestamp;
    uncertainty = m.uncertainty;
    sources = length readings;
    stratum = m.stratum;
    confidence = floats.ratio (length readings) sources;
    source_readings = source_readings_of readings;
    nonce = nonce;
    expires_at = issued_ms + 60000;
  }

  unfoldable pub finish_pot :
      ℕ
      → Text
      → ℕ
      → ℕ
      → List (TimeReading F)
      → NonceMap
      → Option (Combined F)
      → NonceMap × Result (ProofOfTime F)
  unfolding make_pot
  finish_pot sources nonce issued_ms now_ms readings nonces none = (nonces, err pot_all_failed)
  finish_pot sources nonce issued_ms now_ms readings nonces (some m) =
      let pot = make_pot sources nonce issued_ms readings m in
      settle pot (verify_proof_of_time now_ms pot nonces)

  -- `generateProofOfTime`, from what each source answered, the random nonce, and the clock when the
  -- proof is stamped and when it is verified.
  unfoldable pub generate_proof_of_time :
      List (Option (TimeReading F)) → Text → ℕ → ℕ → NonceMap → NonceMap × Result (ProofOfTime F)
  unfolding finish_pot
  generate_proof_of_time results nonce issued_ms now_ms nonces =
      let readings = sort_readings (fulfilled results) in
      if length (fulfilled results) == 0
      then (nonces, err pot_all_failed)
      else finish_pot (length results) nonce issued_ms now_ms readings nonces (combine readings)
