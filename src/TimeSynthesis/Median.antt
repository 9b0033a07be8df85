-- ===== src/TimeSynthesis/Median.antt =====
-- The synthesized timestamp withstands a minority of wrong sources (src/time_synthesis.ts).
use open_ttt.Prelude.{
  ℕ, suc, zero, ◌+◌, ◌*◌, ◌/◌, ◌≤◌, ◌<◌, ◌≡◌, refl, sym, ap, ◌∙◌, Bool, ◌&&◌, Option, none, some,
  List, [], ◌∷◌, length, count_if, get_elem?, get_elem?-some, count_if-le-length, ◌⊎◌, arith, ltb,
  leb, inl, inr,
}
use native.Mathlib.Decide.{dec_lt}
use open_ttt.TimeSynthesis.Sort.{
  IsFrom, IsSorted, sort_readings-IsSorted, count_if-sort, length-sort,
}
use open_ttt.TimeSynthesis.{
  Floats, TimeReading, of_reading, middle, err, all_sources_failed, synthesized, Combined,
  SynthesizedTime, ok, combine, sort_readings, fulfilled, synthesize,
}

module _ {F : Type 0} where
  abbrev pub in_range : ℕ → ℕ → TimeReading F → Bool
  in_range lo hi r = leb lo r.timestamp && leb r.timestamp hi

  abbrev below : ℕ → TimeReading F → Bool
  below lo r = ltb r.timestamp lo

  abbrev above : ℕ → TimeReading F → Bool
  above hi r = ltb hi r.timestamp

  IsFrom-get :
      (t i : ℕ) (rs : List (TimeReading F)) (r : TimeReading F)
      → IsFrom t rs
      → get_elem? rs i ≡ some r
      → t ≤ r.timestamp
  IsFrom-get t i [] r h e = absurd (ground arith)
  IsFrom-get t zero (s ∷ rs) r (h, _) e = ground arith
  IsFrom-get t (suc i) (s ∷ rs) r (_, h) e = IsFrom-get t i rs r h e

  low_count :
      (lo i : ℕ) (rs : List (TimeReading F)) (r : TimeReading F)
      → IsSorted rs
      → get_elem? rs i ≡ some r
      → r.timestamp < lo
      → i < count_if (below lo) rs
  low_count lo i [] r h e k = absurd (ground arith)
  low_count lo zero (s ∷ rs) r (h, hs) e k = ground arith
  low_count lo (suc i) (s ∷ rs) r (h, hs) e k =
      ground (arith, IsFrom-get s.timestamp i rs r h e, low_count lo i rs r hs e k)

  all_above :
      (hi t : ℕ) (rs : List (TimeReading F))
      → IsFrom t rs
      → hi < t
      → length rs ≤ count_if (above hi) rs
  all_above hi t [] h k = omega arith
  all_above hi t (s ∷ rs) (h, hs) k = ground (arith, all_above hi t rs hs k)

  high_count :
      (hi i : ℕ) (rs : List (TimeReading F)) (r : TimeReading F)
      → IsSorted rs
      → get_elem? rs i ≡ some r
      → hi < r.timestamp
      → length rs ≤ i + count_if (above hi) rs
  high_count hi i [] r h e k = omega arith
  high_count hi zero (s ∷ rs) r (h, hs) e k = ground (arith, all_above hi s.timestamp rs h)
  high_count hi (suc i) (s ∷ rs) r (h, hs) e k = ground (arith, high_count hi i rs r hs e k)

  in_or_below :
      (lo hi : ℕ) (rs : List (TimeReading F))
      → count_if (in_range lo hi) rs + count_if (below lo) rs ≤ length rs
  in_or_below lo hi [] = omega arith
  in_or_below lo hi (r ∷ rs) = ground (arith, in_or_below lo hi rs)

  in_or_above :
      (lo hi : ℕ) (rs : List (TimeReading F))
      → count_if (in_range lo hi) rs + count_if (above hi) rs ≤ length rs
  in_or_above lo hi [] = omega arith
  in_or_above lo hi (r ∷ rs) = ground (arith, in_or_above lo hi rs)

  middle_in_range :
      (lo hi : ℕ) (rs : List (TimeReading F)) (r : TimeReading F)
      → IsSorted rs
      → length rs < 2 * count_if (in_range lo hi) rs
      → get_elem? rs (length rs / 2) ≡ some r
      → (lo ≤ r.timestamp) × (r.timestamp ≤ hi)
  middle_in_range lo hi rs r h most e = (
    elim (dec_lt r.timestamp lo) [
      | yes low ↦
          absurd (omega (arith, low_count lo (length rs / 2) rs r h e low, in_or_below lo hi rs))
      | no fine ↦ omega arith
    ],
    elim (dec_lt hi r.timestamp) [
      | yes high ↦
          absurd (omega (arith, high_count hi (length rs / 2) rs r h e high, in_or_above lo hi rs))
      | no fine ↦ omega arith
    ],
  )

  middle_of :
      (o : Option (TimeReading F)) (m : Combined F)
      → of_reading o ≡ some m
      → (r : TimeReading F) × (o ≡ some r) × (r.timestamp ≡ m.timestamp)
  middle_of none m e = cc
  middle_of (some r) m e = (r, refl, ground arith)

  middle-eq-some :
      (rs : List (TimeReading F)) (m : Combined F)
      → middle rs ≡ some m
      → (r : TimeReading F) × (get_elem? rs (length rs / 2) ≡ some r) × (r.timestamp ≡ m.timestamp)
  unfolding middle
  middle-eq-some rs m e = middle_of (get_elem? rs (length rs / 2)) m e

  pub middle_total :
      (rs : List (TimeReading F)) → 0 < length rs → (m : Combined F) × (middle rs ≡ some m)
  unfolding middle
  middle_total rs h =
      let (r, found) = get_elem?-some rs (length rs / 2) (omega arith) in
      (
        record { timestamp = r.timestamp; uncertainty = r.uncertainty; stratum = r.stratum },
        rw found refl,
      )

module _ {F : Type 0} (floats : Floats F) where
  pub combine_total :
      (rs : List (TimeReading F)) → 0 < length rs → (m : Combined F) × (combine floats rs ≡ some m)
  unfolding combine
  combine_total [] h = absurd (omega arith)
  combine_total (a ∷ []) h = (_, refl)
  combine_total (a ∷ b ∷ []) h = (_, refl)
  combine_total (a ∷ b ∷ c ∷ rs) h = middle_total (a ∷ b ∷ c ∷ rs) h

  combine-in_range :
      (lo hi : ℕ) (rs : List (TimeReading F)) (m : Combined F)
      → IsSorted rs
      → length rs < 2 * count_if (in_range lo hi) rs
      → combine floats rs ≡ some m
      → (lo ≤ m.timestamp) × (m.timestamp ≤ hi)
  unfolding combine
  combine-in_range lo hi [] m h most e = absurd (ground arith)
  combine-in_range lo hi (a ∷ []) m h most e = ground arith
  combine-in_range lo hi (a ∷ b ∷ []) m h most e = ground arith
  combine-in_range lo hi (a ∷ b ∷ c ∷ rs) m h most e =
      let l = a ∷ b ∷ c ∷ rs in
      let (r, found, same) = middle-eq-some l m e in
      rw (← same) (middle_in_range lo hi l r h most found)

  -- If more than half of the readings lie in a range of times, then so does the synthesized
  -- timestamp, whatever the others say.
  pub combine-sort_in_range :
      (lo hi : ℕ) (rs : List (TimeReading F)) (m : Combined F)
      → length rs < 2 * count_if (in_range lo hi) rs
      → combine floats (sort_readings rs) ≡ some m
      → (lo ≤ m.timestamp) × (m.timestamp ≤ hi)
  combine-sort_in_range lo hi rs m most e =
      combine-in_range lo hi (sort_readings rs) m (sort_readings-IsSorted rs)
        (rw (length-sort rs, count_if-sort (in_range lo hi) rs) most) e

  synthesize_some :
      (results : List (Option (TimeReading F)))
      → 0 < length (fulfilled results)
      → synthesize floats results
        ≡ synthesized floats
            (length results)
            (length (fulfilled results))
            (combine floats (sort_readings (fulfilled results)))
  unfolding synthesize
  synthesize_some results h = ground arith

  synthesize_none :
      (results : List (Option (TimeReading F)))
      → length (fulfilled results) ≡ 0
      → synthesize floats results ≡ err all_sources_failed
  unfolding synthesize
  synthesize_none results h = ground arith

  -- `synthesize` fails when no source answered; otherwise it returns a time that counts the answers
  -- and has their share among the sources as its confidence.
  pub synthesize_total :
      (results : List (Option (TimeReading F)))
      → ((length (fulfilled results) ≡ 0) × (synthesize floats results ≡ err all_sources_failed))
        ⊎ ((t : SynthesizedTime F) × (synthesize floats results ≡ ok t)
            × (t.sources ≡ length (fulfilled results))
            × (t.confidence ≡ floats.ratio (length (fulfilled results)) (length results)))
  unfolding synthesized
  synthesize_total results = elim (dec_lt 0 (length (fulfilled results))) [
    | no empty ↦ inl (omega arith, synthesize_none results (omega arith))
    | yes h ↦
        let (m, e) =
          combine_total (sort_readings (fulfilled results))
            (rw (length-sort (fulfilled results)) h) in
        inr (
          _,
          synthesize_some results h
              ∙ ap (synthesized floats (length results) (length (fulfilled results))) e,
          refl,
          refl,
        )
  ]

  synthesized_from :
      (n k : ℕ) (o : Option (Combined F)) (t : SynthesizedTime F)
      → synthesized floats n k o ≡ ok t
      → (m : Combined F) × (o ≡ some m) × (m.timestamp ≡ t.timestamp)
  unfolding synthesized
  synthesized_from n k none t e = cc
  synthesized_from n k (some m) t e = (m, refl, ground arith)

  -- If more than half of the readings that arrived lie in a range of times, the synthesized time
  -- lies in it too.
  pub synthesize-in_range :
      (lo hi : ℕ) (results : List (Option (TimeReading F))) (t : SynthesizedTime F)
      → length (fulfilled results) < 2 * count_if (in_range lo hi) (fulfilled results)
      → synthesize floats results ≡ ok t
      → (lo ≤ t.timestamp) × (t.timestamp ≤ hi)
  synthesize-in_range lo hi results t most e =
      let rs = fulfilled results in
      let some_answer : 0 < length rs =
        omega (arith, most, count_if-le-length (in_range lo hi) rs) in
      let (m, found, same) =
        synthesized_from (length results) (length rs) (combine floats (sort_readings rs)) t
          (sym (synthesize_some results some_answer) ∙ e) in
      rw (← same) (combine-sort_in_range lo hi rs m most found)
