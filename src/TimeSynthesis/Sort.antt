-- ===== src/TimeSynthesis/Sort.antt =====
-- The sort of the readings by timestamp (src/time_synthesis.ts): sorted, and the same readings.
use mathlib.Core.List.{Perm}
use mathlib.Core.List.Perm
use open_ttt.Prelude.{
  ℕ, suc, ◌≤◌, ◌≡◌, refl, ap, ◌∙◌, Bool, List, [], ◌∷◌, length, All, count_if, arith, ltb,
  Bool-cases, inl, inr,
}
use open_ttt.TimeSynthesis.{TimeReading, insert_reading, sort_readings}

module _ {F : Type 0} where
  abbrev pub IsFrom : ℕ → List (TimeReading F) → Type 0
  IsFrom t rs = All (λ r. t ≤ r.timestamp) rs

  -- Each reading is no later than all behind it.
  abbrev pub IsSorted : List (TimeReading F) → Type 0
  IsSorted [] = Unit
  IsSorted (r ∷ rs) = IsFrom r.timestamp rs × IsSorted rs

  IsFrom-le : (t u : ℕ) (rs : List (TimeReading F)) → t ≤ u → IsFrom u rs → IsFrom t rs
  IsFrom-le t u [] h k = tt
  IsFrom-le t u (r ∷ rs) h (k, ks) = (omega arith, IsFrom-le t u rs h ks)

  IsFrom-insert :
      (t : ℕ) (r : TimeReading F) (rs : List (TimeReading F))
      → t ≤ r.timestamp
      → IsFrom t rs
      → IsFrom t (insert_reading r rs)
  unfolding insert_reading
  IsFrom-insert t r [] h k = (h, tt)
  IsFrom-insert t r (s ∷ rs) h (k, ks) = ground (arith, IsFrom-insert t r rs h ks)

  IsSorted-insert :
      (r : TimeReading F) (rs : List (TimeReading F)) → IsSorted rs → IsSorted (insert_reading r rs)
  unfolding insert_reading
  IsSorted-insert r [] h = (tt, tt)
  IsSorted-insert r (s ∷ rs) (k, ks) = ground (
    arith,
    IsFrom-insert s.timestamp r rs,
    IsSorted-insert r rs ks,
    IsFrom-le r.timestamp s.timestamp rs,
  )

  pub sort_readings-IsSorted : (rs : List (TimeReading F)) → IsSorted (sort_readings rs)
  unfolding sort_readings
  sort_readings-IsSorted [] = tt
  sort_readings-IsSorted (r ∷ rs) = IsSorted-insert r (sort_readings rs) (sort_readings-IsSorted rs)

  insert_reading-perm :
      (r : TimeReading F) (rs : List (TimeReading F)) → Perm (insert_reading r rs) (r ∷ rs)
  unfolding insert_reading
  insert_reading-perm r [] = Perm.refl (r ∷ [])
  insert_reading-perm r (s ∷ rs) = elim (Bool-cases (ltb s.timestamp r.timestamp)) [
    | inl later ↦ rw later (Perm.trans (Perm.cons s (insert_reading-perm r rs)) (Perm.swap r s rs))
    | inr first ↦ rw first (Perm.refl (r ∷ s ∷ rs))
  ]

  pub sort_readings-perm : (rs : List (TimeReading F)) → Perm (sort_readings rs) rs
  unfolding sort_readings
  sort_readings-perm [] = Perm.refl []
  sort_readings-perm (r ∷ rs) =
      Perm.trans (insert_reading-perm r (sort_readings rs)) (Perm.cons r (sort_readings-perm rs))

  count_if-insert :
      (p : TimeReading F → Bool) (r : TimeReading F) (rs : List (TimeReading F))
      → count_if p (insert_reading r rs) ≡ count_if p (r ∷ rs)
  unfolding insert_reading
  count_if-insert p r [] = refl
  count_if-insert p r (s ∷ rs) = ground (arith, count_if-insert p r rs)

  pub count_if-sort :
      (p : TimeReading F → Bool) (rs : List (TimeReading F))
      → count_if p (sort_readings rs) ≡ count_if p rs
  unfolding sort_readings
  count_if-sort p [] = refl
  count_if-sort p (r ∷ rs) =
      ground (arith, count_if-insert p r (sort_readings rs), count_if-sort p rs)

  length-insert_reading :
      (r : TimeReading F) (rs : List (TimeReading F))
      → length (insert_reading r rs) ≡ suc (length rs)
  unfolding insert_reading
  length-insert_reading r [] = refl
  length-insert_reading r (s ∷ rs) = ground (arith, length-insert_reading r rs)

  pub length-sort : (rs : List (TimeReading F)) → length (sort_readings rs) ≡ length rs
  unfolding sort_readings
  length-sort [] = refl
  length-sort (r ∷ rs) = length-insert_reading r (sort_readings rs) ∙ ap suc (length-sort rs)
