-- ===== src/V4Hook/Accounts.antt =====
-- What the hook's statistics say after any calls (src/v4_hook.ts).
use open_ttt.Prelude.{
  ℕ, ◌+◌, ◌*◌, ◌≡◌, Bool, true, false, List, [], ◌∷◌, count_if, ltb, arith, not, Bool-cases, inl,
  inr,
}
use open_ttt.V4Hook.{Stats, Config, Answer, gives, throws, before_swap, after_swap}

-- A call of the hook, with what the contracts answer.
pub data Event : Type 0 where
  before : Answer ℕ → Event
  after : Answer (Unit {0}) → Bool → ℕ → Event

abbrev pub step : Config → Event → Stats → Stats
step config (before balance) s = (before_swap config balance s).0
step config (after burned given now_ms) s = (after_swap config burned given now_ms s).0

abbrev pub run : Config → List Event → Stats → Stats
run config [] s = s
run config (e ∷ es) s = run config es (step config e s)

-- The balance was read and is high enough.
abbrev pub is_paid : Config → Event → Bool
is_paid config (before (gives balance)) = not (ltb balance config.min_balance)
is_paid config _ = false

abbrev pub is_after : Event → Bool
is_after (after burned given now_ms) = true
is_after _ = false

abbrev pub is_failed_burn : Event → Bool
is_failed_burn (after (throws message) given now_ms) = true
is_failed_burn _ = false

-- The statistics after some calls, by the statistics before them.
pub record IsAccountOf (config : Config) (es : List Event) (s t : Stats) : Type 0 where
  pub swaps : t.total_swaps ≡ s.total_swaps + count_if is_after es
  pub fees :
      t.total_fees_collected
      ≡ s.total_fees_collected + config.swap_fee * count_if (is_paid config) es
  pub failures : t.failed_burns ≡ s.failed_burns + count_if is_failed_burn es

step-IsAccountOf :
    (config : Config) (e : Event) (s : Stats) → IsAccountOf config (e ∷ []) s (step config e s)
unfolding before_swap after_swap
step-IsAccountOf config (before (gives balance)) s = ground arith
step-IsAccountOf config (before (throws message)) s = ground arith
step-IsAccountOf config (after (gives u) given now_ms) s = ground arith
step-IsAccountOf config (after (throws message) given now_ms) s = ground arith

count_if-cons :
    (p : Event → Bool) (e : Event) (es : List Event)
    → count_if p (e ∷ es) ≡ count_if p (e ∷ []) + count_if p es
count_if-cons p e es = elim (Bool-cases (p e)) [
  | inl counted ↦ rw counted (omega arith)
  | inr other ↦ rw other (omega arith)
]

fees_step : (fee s t u a b c : ℕ) → t ≡ s + fee * a → u ≡ t + fee * b → c ≡ a + b → u ≡ s + fee * c
fees_step fee s t u a b c first later sum = rw sum (omega (arith, first, later))

-- After any calls of the two hook functions, the swaps number the calls after a swap, whether their
-- burns failed or not, the fees are the fee for each call before a swap whose balance was high
-- enough, and the failed burns number the burns that threw.
pub run-IsAccountOf :
    (config : Config) (es : List Event) (s : Stats) → IsAccountOf config es s (run config es s)
run-IsAccountOf config [] s = ground arith
run-IsAccountOf config (e ∷ es) s =
    let now = step config e s in
    let one = step-IsAccountOf config e s in
    let rest = run-IsAccountOf config es now in
    record {
      swaps = omega (arith, one.swaps, rest.swaps, count_if-cons is_after e es);
      fees =
          fees_step config.swap_fee s.total_fees_collected now.total_fees_collected _ _ _ _ one.fees
            rest.fees (count_if-cons (is_paid config) e es);
      failures = omega (arith, one.failures, rest.failures, count_if-cons is_failed_burn e es);
    }
