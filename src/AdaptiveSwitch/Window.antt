-- ===== src/AdaptiveSwitch/Window.antt =====
-- The switch over a sequence of blocks: a sliding window with hysteresis (src/adaptive_switch.ts).
use open_ttt.Prelude.{
  ℕ, ◌+◌, ◌-◌, ◌≤◌, ◌≡◌, refl, sym, ap, ◌∙◌, ◌↔◌, Bool, List, [], ◌∷◌, ◌++◌, length, last, count_if,
  arith, length-append, length-last, last-last-append, last_self, last_excess, Bool-cases, inl, inr,
  ltb,
}
use mathlib.Core.List.{append_assoc, append-nil}
use open_ttt.AdaptiveSwitch.{turbo, AdaptiveSwitch, is_true, push_history, observe}
use open_ttt.AdaptiveSwitch.Modes.{IsValid, observe-IsValid, matches_needed, mode_iff}

-- The switch after the blocks whose checks gave these results.
abbrev pub run : AdaptiveSwitch → List Bool → AdaptiveSwitch
run s [] = s
run s (b ∷ bs) = run (observe s b) bs

pub run-IsValid : (s : AdaptiveSwitch) (bs : List Bool) → IsValid s → IsValid (run s bs)
run-IsValid s [] v = v
run-IsValid s (b ∷ bs) v = run-IsValid (observe s b) bs (observe-IsValid s b v)

push_history-eq-last :
    (h : List Bool) (b : Bool) → length h ≤ 20 → push_history h b ≡ last 20 (h ++ b ∷ [])
unfolding push_history
push_history-eq-last h b k = elim (Bool-cases (ltb 20 (length (h ++ b ∷ [])))) [
  | inl big ↦
      rw big (sym (last_excess 20 1 (h ++ b ∷ []) (ground (arith, length-append h (b ∷ [])))))
  | inr small ↦ rw small (sym (last_self 20 (h ++ b ∷ []) (ground arith)))
]

observe-history : (s : AdaptiveSwitch) (b : Bool) → (observe s b).history ≡ push_history s.history b
unfolding observe
observe-history s b = ground arith

observe-cooldown :
    (s : AdaptiveSwitch) (b : Bool) → (observe s b).penalty_cooldown ≡ s.penalty_cooldown - 1
unfolding observe
observe-cooldown s b = ground arith

-- The history is the last 20 results of all that was seen.
run-history :
    (s : AdaptiveSwitch) (bs : List Bool)
    → IsValid s
    → (run s bs).history ≡ last 20 (s.history ++ bs)
run-history s [] v =
    sym
      (last_self 20 (s.history ++ []) (rw (append-nil s.history) v.windowed) ∙ append-nil s.history)
run-history s (b ∷ bs) v =
    run-history (observe s b) bs (observe-IsValid s b v)
    ∙ ap (λ h. last 20 (h ++ bs))
        (observe-history s b ∙ push_history-eq-last s.history b v.windowed)
    ∙ last-last-append 20 (s.history ++ b ∷ []) bs
    ∙ ap (last 20) (append_assoc s.history (b ∷ []) bs)

run-cooldown :
    (s : AdaptiveSwitch) (bs : List Bool)
    → (run s bs).penalty_cooldown ≡ s.penalty_cooldown - length bs
run-cooldown s [] = omega arith
run-cooldown s (b ∷ bs) = omega (arith, run-cooldown (observe s b) bs, observe-cooldown s b)

run-append :
    (s : AdaptiveSwitch) (bs : List Bool) (b : Bool) → run s (bs ++ b ∷ []) ≡ observe (run s bs) b
run-append s [] b = refl
run-append s (a ∷ bs) b = run-append (observe s a) bs b

turbo_of_last :
    (before after : AdaptiveSwitch) (b : Bool) (seen : List Bool) (n cooldown : ℕ)
    → IsValid before
    → after ≡ observe before b
    → push_history before.history b ≡ last 20 seen
    → before.penalty_cooldown ≡ cooldown - n
    → (after.current_mode ≡ turbo) ↔ (
        (20 ≤ length seen)
        × (matches_needed before.current_mode ≤ count_if is_true (last 20 seen))
        × (cooldown ≤ n + 1))
turbo_of_last before after b seen n cooldown v e h c =
    let (to, from) = mode_iff before b v in
    (
      λ t.
          let (size, enough, cool) = to (ap (λ s. s.current_mode) (sym e) ∙ t) in
          (omega (arith, length-last 20 seen, ap length h), rw h at enough, omega arith),
      λ (size, enough, cool).
          ap (λ s. s.current_mode) e
          ∙ from (omega (arith, length-last 20 seen, ap length h), rw h enough, omega arith),
    )

-- After any blocks and one more, the mode is TURBO exactly when the last 20 results number 20, at
-- least 19 of them match (17 if the mode was TURBO before the last block), and the cooldown has
-- run out.
pub run-eq-turbo_iff :
    (s : AdaptiveSwitch) (bs : List Bool) (b : Bool)
    → IsValid s
    → let seen = s.history ++ (bs ++ b ∷ []) in
      ((run s (bs ++ b ∷ [])).current_mode ≡ turbo) ↔ (
        (20 ≤ length seen)
        × (matches_needed (run s bs).current_mode ≤ count_if is_true (last 20 seen))
        × (s.penalty_cooldown ≤ length bs + 1))
run-eq-turbo_iff s bs b v =
    let seen = s.history ++ (bs ++ b ∷ []) in
    let last_history : push_history (run s bs).history b ≡ last 20 seen =
      sym (observe-history (run s bs) b)
      ∙ sym (ap (λ t. t.history) (run-append s bs b))
      ∙ run-history s (bs ++ b ∷ []) v in
    turbo_of_last (run s bs) (run s (bs ++ b ∷ [])) b seen (length bs) s.penalty_cooldown
      (run-IsValid s bs v) (run-append s bs b) last_history (run-cooldown s bs)
