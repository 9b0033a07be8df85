-- ===== src/TimeSynthesis/Readings.antt =====
-- Which readings of a proof of time agree with its timestamp (src/time_synthesis.ts).
use open_ttt.Prelude.{
  ℕ, ◌+◌, ◌≤◌, ◌≡◌, refl, sym, ◌∙◌, ◌↔◌, ◌⊎◌, inl, inr, Bool, false, ◌||◌, Option, none, some, List,
  [], ◌∷◌, All, arith, ltb, leb, if◌then◌else◌, Bool-cases, Option-cases,
}
use open_ttt.TimeSynthesis.{
  Floats, SourceReading, ProofOfTime, Verdict, accepted, rejected, abs_diff, larger, lower_stratum,
  get_tolerance_for_stratum, lowest_stratum, check_readings,
}

module _ {F : Type 0} (floats : Floats F) where
  -- Two times are at most `n` nanoseconds apart.
  abbrev pub IsNear : ℕ → ℕ → ℕ → Type 0
  IsNear n a b = (a ≤ b + n) × (b ≤ a + n)

  -- The reading is as near to the timestamp as its own uncertainty says, or as the floor does.
  abbrev pub IsWithin : ℕ → ℕ → SourceReading F → Type 0
  IsWithin floor_ns timestamp r =
      (own_ns : ℕ) × (floats.to_ns r.uncertainty ≡ some own_ns)
      × (IsNear own_ns r.timestamp timestamp ⊎ IsNear floor_ns r.timestamp timestamp)

  abbrev pub is_at_most : ℕ → Option ℕ → Bool
  is_at_most k none = false
  is_at_most k (some s) = leb s k

  abbrev pub some_at_most : ℕ → List (SourceReading F) → Bool
  some_at_most k [] = false
  some_at_most k (r ∷ rs) = let rest = some_at_most k rs in is_at_most k r.stratum || rest

  -- The proof, or a reading with a stratum, is of stratum `k` or better.
  abbrev pub reaches : ℕ → ProofOfTime F → Bool
  reaches k pot = leb pot.stratum k || some_at_most k pot.source_readings

  -- 10, 25 or 50 milliseconds.
  abbrev pub floor_of : ProofOfTime F → ℕ
  floor_of pot = if reaches 1 pot then 10000000 else if reaches 2 pot then 25000000 else 50000000

  lower_reaches :
      (k low : ℕ) (stratum : Option ℕ) (others : Bool)
      → (leb (lower_stratum stratum low) k || others)
        ≡ (leb low k || (is_at_most k stratum || others))
  lower_reaches k low none others = refl
  lower_reaches k low (some s) others = ground arith

  lowest_reaches :
      (k low : ℕ) (rs : List (SourceReading F))
      → leb (lowest_stratum low rs) k ≡ (leb low k || some_at_most k rs)
  unfolding lowest_stratum
  lowest_reaches k low [] = ground arith
  lowest_reaches k low (r ∷ rs) =
      lowest_reaches k (lower_stratum r.stratum low) rs
      ∙ lower_reaches k low r.stratum (some_at_most k rs)

  pub floor_of_lem :
      (pot : ProofOfTime F)
      → get_tolerance_for_stratum (lowest_stratum pot.stratum pot.source_readings) ≡ floor_of pot
  unfolding get_tolerance_for_stratum
  floor_of_lem pot = ground (
    arith,
    lowest_reaches 1 pot.stratum pot.source_readings,
    lowest_reaches 2 pot.stratum pot.source_readings,
  )

  IsNear-iff :
      (own floor_ns a b : ℕ)
      → (abs_diff a b ≤ larger own floor_ns) ↔ (IsNear own a b ⊎ IsNear floor_ns a b)
  IsNear-iff own floor_ns a b = ground arith

  abbrev checked : ℕ → ℕ → ℕ → SourceReading F → List (SourceReading F) → Verdict
  checked floor_ns timestamp own r rs =
      if ltb (larger own floor_ns) (abs_diff r.timestamp timestamp)
      then rejected
      else check_readings floats floor_ns timestamp rs

  some_eq : (a b : ℕ) → some a ≡ some b → a ≡ b
  some_eq a b e = ground arith

  far_absurd : Verdict.rejected ≡ accepted → ⊥
  far_absurd e = cc

  module _ (floor_ns timestamp own : ℕ) where
    check_cons :
        (r : SourceReading F) (rs : List (SourceReading F))
        → floats.to_ns r.uncertainty ≡ some own
        → check_readings floats floor_ns timestamp (r ∷ rs) ≡ checked floor_ns timestamp own r rs
    unfolding check_readings
    check_cons r rs good = rw (good, check_readings) refl

    cons_sound :
        (r : SourceReading F) (rs : List (SourceReading F))
        → floats.to_ns r.uncertainty ≡ some own
        → (check_readings floats floor_ns timestamp rs ≡ accepted
            → All (IsWithin floor_ns timestamp) rs)
        → checked floor_ns timestamp own r rs ≡ accepted
        → All (IsWithin floor_ns timestamp) (r ∷ rs)
    cons_sound r rs good ih e =
        elim (Bool-cases (ltb (larger own floor_ns) (abs_diff r.timestamp timestamp))) [
          | inl far ↦ absurd (far_absurd (rw far at e))
          | inr near ↦
              let within : abs_diff r.timestamp timestamp ≤ larger own floor_ns = ground arith in
              (
                (own, good, (IsNear-iff own floor_ns r.timestamp timestamp).0 within),
                ih (rw near at e),
              )
        ]

    cons_complete :
        (x : ℕ) (r : SourceReading F) (rs : List (SourceReading F))
        → own ≡ x
        → IsNear x r.timestamp timestamp ⊎ IsNear floor_ns r.timestamp timestamp
        → check_readings floats floor_ns timestamp rs ≡ accepted
        → checked floor_ns timestamp own r rs ≡ accepted
    cons_complete x r rs same near others =
        let within : abs_diff r.timestamp timestamp ≤ larger x floor_ns =
          (IsNear-iff x floor_ns r.timestamp timestamp).1 near in
        ground arith

  pub check_readings_iff :
      (floor_ns timestamp : ℕ) (rs : List (SourceReading F))
      → (check_readings floats floor_ns timestamp rs ≡ accepted)
        ↔ All (IsWithin floor_ns timestamp) rs
  unfolding check_readings
  check_readings_iff floor_ns timestamp [] = (λ _. tt, λ _. refl)
  check_readings_iff floor_ns timestamp (r ∷ rs) =
      elim (Option-cases (floats.to_ns r.uncertainty)) [
        | inl bad ↦ rw bad (λ e. absurd (cc), λ ((own, e, _), _). absurd (cc))
        | inr (own, good) ↦
            let step = check_cons floor_ns timestamp own r rs good in
            let ih = check_readings_iff floor_ns timestamp rs in
            (
              λ e. cons_sound floor_ns timestamp own r rs good (ih.0) (sym step ∙ e),
              λ ((x, same, near), others).
                  step
                  ∙ cons_complete floor_ns timestamp own x r rs (some_eq own x (sym good ∙ same))
                      near (ih.1 others),
            )
      ]
