-- ===== src/Subgraph/Totals.antt =====
-- The statistics of the subgraph are the counts and sums of the events (subgraph/src/mapping.ts).
use open_ttt.Prelude.{
  ℕ, ◌+◌, ◌≡◌, refl, ap, sym, ◌∙◌, Bool, true, false, not, ◌&&◌, Option, none, some, List, [], ◌∷◌,
  Text, text_eq, text_eq_iff, lookup, lookup-insert, ltb, ◌==◌, if◌then◌else◌, arith, Bool-cases,
  inl, inr,
}
use open_ttt.Subgraph.{
  SwapVerifiedEvent, DailyStats, Store, Graph, or_new, is_turbo, day_id, hour_id, new_daily,
  count_daily, handle_pot_anchored, handle_swap_verified, ChainEvent, anchored, swapped, indexed,
}

-- How many swaps of a list pass a test, and what `amount` of them adds up to.
abbrev pub swaps_where : (SwapVerifiedEvent → Bool) → List ChainEvent → ℕ
swaps_where p [] = 0
swaps_where p (anchored a ∷ es) = swaps_where p es
swaps_where p (swapped e ∷ es) = let n = swaps_where p es in if p e then n + 1 else n

abbrev pub fees_where : (SwapVerifiedEvent → Bool) → List ChainEvent → ℕ
fees_where p [] = 0
fees_where p (anchored a ∷ es) = fees_where p es
fees_where p (swapped e ∷ es) = let n = fees_where p es in if p e then n + e.fee_amount else n

then_so {ℓ} :
    {X : Type ℓ} {b : Bool} {x z : X} (y : X) → b ≡ true → x ≡ z → (if b then x else y) ≡ z
then_so y h e = rw h e

module _ {D : Type 0} (graph : Graph D) where
  abbrev pub in_day : Text → SwapVerifiedEvent → Bool
  in_day id e = text_eq (day_id graph e) id

  abbrev pub in_hour : Text → SwapVerifiedEvent → Bool
  in_hour id e = text_eq (hour_id graph e) id

  -- The statistics of a day, from its events.
  abbrev pub day_totals : Text → List ChainEvent → DailyStats D
  day_totals id es =
      let total = swaps_where (in_day id) es in
      let turbo = swaps_where (λ e. in_day id e && is_turbo e) es in
      record {
        date = id;
        total_swaps = total;
        turbo_count = turbo;
        full_count = swaps_where (λ e. in_day id e && not (is_turbo e)) es;
        turbo_ratio = graph.ratio turbo total;
        total_fees = fees_where (in_day id) es;
      }

  abbrev pub day_stats : Text → List ChainEvent → Option (DailyStats D)
  day_stats id es = if swaps_where (in_day id) es == 0 then none else some (day_totals id es)

  none_in_day :
      (id : Text) (es : List ChainEvent)
      → swaps_where (in_day id) es ≡ 0
      → (swaps_where (λ e. in_day id e && is_turbo e) es ≡ 0)
        × (swaps_where (λ e. in_day id e && not (is_turbo e)) es ≡ 0)
        × (fees_where (in_day id) es ≡ 0)
  none_in_day id [] h = (refl, refl, refl)
  none_in_day id (anchored a ∷ es) h = none_in_day id es h
  none_in_day id (swapped e ∷ es) h = ground (arith, none_in_day id es)

  -- Counting one more swap.
  counted :
      (id : Text) (e : SwapVerifiedEvent) (es : List ChainEvent)
      → in_day id e ≡ true
      → count_daily graph e (or_new (day_stats id es) (new_daily graph id))
        ≡ day_totals id (swapped e ∷ es)
  unfolding count_daily
  counted id e es h = elim (Bool-cases (swaps_where (in_day id) es == 0)) [
    | inl none_yet ↦
        let empty : swaps_where (in_day id) es ≡ 0 = ground arith in
        let (a, b, c) = none_in_day id es empty in
        rw none_yet (
          rw h (
            rw (empty, a, b, c)
              (elim (Bool-cases (is_turbo e)) [
                | inl turbo ↦ rw turbo refl
                | inr full ↦ rw full refl
              ])))
    | inr some_yet ↦
        let more : ltb 0 (swaps_where (in_day id) es + 1) ≡ true = ground arith in
        rw some_yet (
          rw h (
            rw more (elim (Bool-cases (is_turbo e)) [
              | inl turbo ↦ rw turbo refl
              | inr full ↦ rw full refl
            ])))
  ]

  -- With a swap of its own, a day has an entry.
  entry_of_swap :
      (id d : Text) (e : SwapVerifiedEvent) (es : List ChainEvent)
      → d ≡ id
      → in_day id e ≡ true
      → some (count_daily graph e (or_new (day_stats d es) (new_daily graph d)))
        ≡ day_stats id (swapped e ∷ es)
  entry_of_swap id d e es same h =
      let more : (swaps_where (in_day id) es + 1 == 0) ≡ false = ground arith in
      let known : day_stats id (swapped e ∷ es) ≡ some (day_totals id (swapped e ∷ es)) =
        rw h (rw more refl) in
      rw same (ap some (counted id e es h) ∙ sym known)

  day_of_swap :
      (id : Text) (e : SwapVerifiedEvent) (es : List ChainEvent) (s : Store D)
      → lookup id s.daily ≡ day_stats id es
      → lookup (day_id graph e) s.daily ≡ day_stats (day_id graph e) es
      → lookup id (handle_swap_verified graph e s).daily ≡ day_stats id (swapped e ∷ es)
  unfolding handle_swap_verified
  day_of_swap id e es s h k =
      lookup-insert (day_id graph e) id
        (count_daily graph e
          (or_new (lookup (day_id graph e) s.daily) (new_daily graph (day_id graph e))))
        s.daily
      ∙ rw (k, h)
          (elim (Bool-cases (in_day id e)) [
            | inl here ↦ then_so _ here (
                entry_of_swap id (day_id graph e) e es ((text_eq_iff (day_id graph e) id).0 here)
                  here)
            | inr other ↦ rw other refl
          ])

  -- The statistics of every day that are stored are those of the day's swaps among the events so far:
  -- their number, the numbers of those in turbo mode and not, the ratio and the sum of the fees; a day
  -- without a swap has no entry.
  pub daily-indexed :
      (id : Text) (es : List ChainEvent) → lookup id (indexed graph es).daily ≡ day_stats id es
  unfolding indexed lookup handle_pot_anchored
  daily-indexed id [] = refl
  daily-indexed id (anchored a ∷ es) = daily-indexed id es
  daily-indexed id (swapped e ∷ es) =
      day_of_swap id e es (indexed graph es) (daily-indexed id es)
        (daily-indexed (day_id graph e) es)
