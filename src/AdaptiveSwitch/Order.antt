-- ===== src/AdaptiveSwitch/Order.antt =====
-- The comparison of transaction orders (src/adaptive_switch.ts).
use open_ttt.Prelude.{
  ℕ, suc, zero, ◌≡◌, refl, ap, ◌↔◌, true, List, [], ◌∷◌, Text, length, arith, text_eq_iff,
}
use open_ttt.AdaptiveSwitch.{compare_from, compare_transaction_order}

compare_from-shift :
    (rounds i : ℕ) (x y : Text) (xs ys : List Text)
    → compare_from rounds (suc i) (x ∷ xs) (y ∷ ys) ≡ compare_from rounds i xs ys
unfolding compare_from
compare_from-shift zero i x y xs ys = refl
compare_from-shift (suc r) i x y xs ys = rw (compare_from-shift r (suc i) x y xs ys) refl

compare_from_iff :
    (xs ys : List Text)
    → length xs ≡ length ys
    → (compare_from (length xs) 0 xs ys ≡ true) ↔ (xs ≡ ys)
unfolding compare_from
compare_from_iff [] [] h = (λ _. refl, λ _. refl)
compare_from_iff [] (y ∷ ys) h = absurd (omega arith)
compare_from_iff (x ∷ xs) [] h = absurd (omega arith)
compare_from_iff (x ∷ xs) (y ∷ ys) h =
    ground
      (arith, text_eq_iff x y, compare_from-shift (length xs) 0 x y xs ys, compare_from_iff xs ys)

-- The loop answers true exactly when the two orders are the same list.
pub compare_transaction_order_iff :
    (xs ys : List Text) → (compare_transaction_order xs ys ≡ true) ↔ (xs ≡ ys)
unfolding compare_transaction_order
compare_transaction_order_iff xs ys = (
  λ h. ground (arith, compare_from_iff xs ys),
  λ e. ground (arith, compare_from_iff xs ys, ap length e),
)
