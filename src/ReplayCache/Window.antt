-- ===== src/ReplayCache/Window.antt =====
-- How long the nonce cache remembers: five minutes, while fewer than 9999 other nonces arrive.
use mathlib.Core.Bool.{false≢true}
use native.Mathlib.Decide.{dec_lt}
use open_ttt.Prelude.{
  ℕ, suc, ◌+◌, ◌≤◌, ◌<◌, ◌≡◌, refl, sym, ap, ◌∙◌, ◌⊎◌, inl, inr, true, false, none, some, List, [],
  ◌∷◌, ◌++◌, Text, arith, length, keep_if, length-keep_if, lookup, is_some, insert_fresh, drop, All,
  text_eq_iff, Option-cases, length-append,
}
use open_ttt.ReplayCache.{NonceMap, is_recent, cleanup, evict, register, nonce_ttl_ms}
use open_ttt.ReplayCache.Bounds.{evict_lem, evict_small}

-- The nonce stands in the map with its time and at most `n` entries behind it.
abbrev pub Held : Text → ℕ → ℕ → NonceMap → Type 0
Held k t n [] = ⊥
Held k t n ((j, v) ∷ m) = ((j ≡ k) × (v ≡ t) × (length m ≤ n)) ⊎ Held k t n m

Held-found : (k : Text) (t n : ℕ) (m : NonceMap) → Held k t n m → is_some (lookup k m) ≡ true
unfolding lookup
Held-found k t n [] h = absurd h
Held-found k t n ((j, v) ∷ m) h = ground (arith, text_eq_iff j k, Held-found k t n m)

pub Held-le : (k : Text) (t n p : ℕ) (m : NonceMap) → n ≤ p → Held k t n m → Held k t p m
Held-le k t n p [] q h = absurd h
Held-le k t n p ((j, v) ∷ m) q (inl (a, b, c)) = inl (a, b, omega arith)
Held-le k t n p ((j, v) ∷ m) q (inr h) = inr (Held-le k t n p m q h)

Held-append :
    (k : Text) (t n : ℕ) (m : NonceMap) (e : Text × ℕ)
    → Held k t n m
    → Held k t (n + 1) (m ++ e ∷ [])
Held-append k t n [] e h = absurd h
Held-append k t n ((j, v) ∷ m) e (inl (a, b, c)) =
    inl (a, b, omega (arith, length-append m (e ∷ [])))
Held-append k t n ((j, v) ∷ m) e (inr h) = inr (Held-append k t n m e h)

Held-last : (k : Text) (t : ℕ) (m : NonceMap) → Held k t 0 (m ++ (k, t) ∷ [])
Held-last k t [] = inl (refl, refl, omega arith)
Held-last k t (e ∷ m) = inr (Held-last k t m)

Held-keep_if :
    (now : ℕ) (k : Text) (t n : ℕ) (m : NonceMap)
    → now ≤ t + nonce_ttl_ms
    → Held k t n m
    → Held k t n (keep_if (is_recent now) m)
Held-keep_if now k t n [] q h = absurd h
Held-keep_if now k t n ((j, v) ∷ m) q (inl (a, b, c)) =
    ground (arith, length-keep_if (is_recent now) m)
Held-keep_if now k t n ((j, v) ∷ m) q (inr h) = ground (arith, Held-keep_if now k t n m q h)

Held-drop :
    (k : Text) (t n : ℕ) (m : NonceMap) → n + 1 < length m → Held k t n m → Held k t n (drop 1 m)
Held-drop k t n [] q h = absurd h
Held-drop k t n ((j, v) ∷ m) q (inl (a, b, c)) = absurd (omega arith)
Held-drop k t n ((j, v) ∷ m) q (inr h) = h

Held-cleanup :
    (now : ℕ) (k : Text) (t n : ℕ) (m : NonceMap)
    → now ≤ t + nonce_ttl_ms
    → Held k t n m
    → Held k t n (cleanup now m)
unfolding cleanup
Held-cleanup now k t n m q h = ground (arith, Held-keep_if now k t n m q h)

Held-evict :
    (k : Text) (t n : ℕ) (m : NonceMap) → n + 1 < 10000 → Held k t n m → Held k t n (evict m)
Held-evict k t n m q h = elim (dec_lt (length m) 10000) [
  | yes small ↦ rw (evict_small m small) h
  | no big ↦ rw (evict_lem m (omega arith)) (Held-drop k t n m (omega arith) h)
]

lookup-drop : (j : Text) (m : NonceMap) → lookup j m ≡ none → lookup j (drop 1 m) ≡ none
unfolding lookup
lookup-drop j [] h = refl
lookup-drop j ((i, v) ∷ m) h = ground arith

lookup-evict : (j : Text) (m : NonceMap) → lookup j m ≡ none → lookup j (evict m) ≡ none
lookup-evict j m h = elim (dec_lt (length m) 10000) [
  | yes small ↦ rw (evict_small m small) h
  | no big ↦ rw (evict_lem m (omega arith)) (lookup-drop j m h)
]

register_new :
    (now : ℕ) (j : Text) (m : NonceMap)
    → lookup j (cleanup now m) ≡ none
    → register now j m ≡ (evict (cleanup now m) ++ (j, now) ∷ [], true)
unfolding register
register_new now j m h =
    rw h (rw (insert_fresh j now (evict (cleanup now m)) (lookup-evict j (cleanup now m) h)) refl)

register_old :
    (now x : ℕ) (j : Text) (m : NonceMap)
    → lookup j (cleanup now m) ≡ some x
    → register now j m ≡ (cleanup now m, false)
unfolding register
register_old now x j m h = rw h refl

pub Held-register :
    (now : ℕ) (j k : Text) (t n : ℕ) (m : NonceMap)
    → now ≤ t + nonce_ttl_ms
    → n + 1 < 10000
    → Held k t n m
    → Held k t (n + 1) (register now j m).0
Held-register now j k t n m q r h =
    let swept = Held-cleanup now k t n m q h in
    elim (Option-cases (lookup j (cleanup now m))) [
      | inl new ↦ rw (register_new now j m new) (
          Held-append k t n (evict (cleanup now m)) (j, now)
            (Held-evict k t n (cleanup now m) r swept))
      | inr (x, old) ↦ rw (register_old now x j m old) (Held-le k t n (n + 1) _ (omega arith) swept)
    ]

-- A new nonce is held with nothing behind it.
pub Held-register_self :
    (now : ℕ) (k : Text) (m : NonceMap)
    → (register now k m).1 ≡ true
    → Held k now 0 (register now k m).0
Held-register_self now k m h = elim (Option-cases (lookup k (cleanup now m))) [
  | inl new ↦ rw (register_new now k m new) (Held-last k now (evict (cleanup now m)))
  | inr (x, old) ↦ absurd (false≢true (sym (ap (λ r. r.1) (register_old now x k m old)) ∙ h))
]

-- A held nonce is refused.
pub Held-refused :
    (now : ℕ) (k : Text) (t n : ℕ) (m : NonceMap)
    → now ≤ t + nonce_ttl_ms
    → Held k t n m
    → (register now k m).1 ≡ false
unfolding register
Held-refused now k t n m q h =
    rw (Held-found k t n (cleanup now m) (Held-cleanup now k t n m q h)) refl

-- The map after nonces that arrive at given times.
abbrev pub register_all : List (ℕ × Text) → NonceMap → NonceMap
register_all [] m = m
register_all ((now, j) ∷ es) m = register_all es (register now j m).0

pub Held-register_all :
    (es : List (ℕ × Text)) (k : Text) (t n : ℕ) (m : NonceMap)
    → All (λ e. e.0 ≤ t + nonce_ttl_ms) es
    → n + length es < 10000
    → Held k t n m
    → Held k t (n + length es) (register_all es m)
Held-register_all [] k t n m q r h = Held-le k t n (n + 0) m (omega arith) h
Held-register_all ((now, j) ∷ es) k t n m (q, qs) r h =
    Held-le k t (n + 1 + length es) (n + suc (length es)) _ (omega arith) (
      Held-register_all es k t (n + 1) _ qs (omega arith)
        (Held-register now j k t n m q (omega arith) h))

-- Once a nonce was registered as new, it is refused for the next five minutes, as long as fewer
-- than 10000 registrations, of any nonces at any times in these minutes, come in between.
pub register_twice_refused :
    (t u : ℕ) (k : Text) (es : List (ℕ × Text)) (m : NonceMap)
    → (register t k m).1 ≡ true
    → All (λ e. e.0 ≤ t + nonce_ttl_ms) es
    → length es < 10000
    → u ≤ t + nonce_ttl_ms
    → (register u k (register_all es (register t k m).0)).1 ≡ false
register_twice_refused t u k es m new qs r q =
    Held-refused u k t (0 + length es) _ q
      (Held-register_all es k t 0 _ qs (omega arith) (Held-register_self t k m new))
