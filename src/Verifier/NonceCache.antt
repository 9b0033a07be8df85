-- ===== src/Verifier/NonceCache.antt =====
-- The in-memory nonce cache (src/pot_verifier.ts), and what a cache owes to the verifier.
use open_ttt.Prelude.{
  ℕ, ◌+◌, ◌≤◌, ◌≡◌, ◌∙◌, Bool, true, false, not, Option, none, some, Text, length, ltb, arith,
  if◌then◌else◌, Dict, lookup, insert, erase, text_eq, lookup-insert, keep_if, lookup-keep_if,
  lookup-erase_ne, Bool-cases, Option-cases, inl, inr, ◌≢◌, sym, ap, ◌<◌, text_eq_refl,
}
use open_ttt.Verifier.{NonceOps}

-- A cache whose window is `window` refuses a nonce for that long after it was added.
pub record IsRemembering {Cache : Type 0} (ops : NonceOps Cache) (window : ℕ) : Type 1 where
  -- The nonce is refused at every time up to the given one.
  pub Held : ℕ → Text → Cache → Type 0
  pub has_held :
      (t now : ℕ) (n : Text) (c : Cache) → Held t n c → now ≤ t → (ops.has now n c).1 ≡ true
  pub has_keep :
      (t now : ℕ) (n m : Text) (c : Cache) → Held t n c → now ≤ t → Held t n (ops.has now m c).0
  pub add_keep :
      (t now : ℕ) (n m : Text) (c : Cache)
      → Held t n c
      → now ≤ t
      → t ≤ now + window
      → Held t n (ops.add now m c)
  pub add_held : (now : ℕ) (n : Text) (c : Cache) → Held (now + window) n (ops.add now n c)

-- The cache: a nonce with the time at which it expires.
abbrev pub Memory : Type 0
Memory = Dict ℕ

-- `has`: an expired entry is deleted and counts as absent.
has_entry : ℕ → Text → Memory → Option ℕ → Memory × Bool
has_entry now n m none = (m, false)
has_entry now n m (some e) = if ltb e now then (erase n m, false) else (m, true)

unfoldable pub has : ℕ → Text → Memory → Memory × Bool
unfolding has_entry
has now n m = has_entry now n m (lookup n m)

abbrev is_live : ℕ → Text × ℕ → Bool
is_live now (n, e) = not (ltb e now)

unfoldable pub sweep : ℕ → Memory → Memory
sweep now m = keep_if (is_live now) m

unfoldable pub add : ℕ → ℕ → Text → Memory → Memory
unfolding sweep
add ttl_ms now n m = insert n (now + ttl_ms) (if ltb 10000 (length m) then sweep now m else m)

abbrev pub memory_nonce_cache : ℕ → NonceOps Memory
memory_nonce_cache ttl_ms = record { has = has; add = add ttl_ms }

abbrev pub LivesUntil : ℕ → Text → Memory → Type 0
LivesUntil t n m = (e : ℕ) × (lookup n m ≡ some e) × (t ≤ e)

has_live : (t now : ℕ) (n : Text) (m : Memory) → LivesUntil t n m → now ≤ t → (has now n m).1 ≡ true
unfolding has
has_live t now n m (e, found, h) k = rw found (ground arith)

-- An expired entry is not the one that lives on.
expired_ne :
    (k n : Text) (x e now t : ℕ) (m : Memory)
    → lookup k m ≡ some x
    → lookup n m ≡ some e
    → ltb x now ≡ true
    → t ≤ e
    → now ≤ t
    → k ≢ n
expired_ne k n x e now t m there found old late h same =
    let x-eq-e : some x ≡ some e = sym there ∙ ap (λ j. lookup j m) same ∙ found in ground arith

LivesUntil-has :
    (t now : ℕ) (n k : Text) (m : Memory)
    → LivesUntil t n m
    → now ≤ t
    → LivesUntil t n (has now k m).0
unfolding has
LivesUntil-has t now n k m (e, found, late) h = elim (Option-cases (lookup k m)) [
  | inl gone ↦ rw gone (e, found, late)
  | inr (x, there) ↦ elim (Bool-cases (ltb x now)) [
    | inl old ↦ rw there (
        rw old (
          e,
          lookup-erase_ne k n m (expired_ne k n x e now t m there found old late h) ∙ found,
          late,
        ))
    | inr live ↦ rw there (rw live (e, found, late))
  ]
]

LivesUntil-swept :
    (t now : ℕ) (n : Text) (m : Memory)
    → LivesUntil t n m
    → now ≤ t
    → LivesUntil t n (if ltb 10000 (length m) then sweep now m else m)
unfolding sweep
LivesUntil-swept t now n m (e, found, late) h = elim (Bool-cases (ltb 10000 (length m))) [
  | inl big ↦ rw big (e, lookup-keep_if (is_live now) n e m found (ground arith), late)
  | inr small ↦ rw small (e, found, late)
]

LivesUntil-add :
    (ttl_ms t now : ℕ) (n k : Text) (m : Memory)
    → LivesUntil t n m
    → now ≤ t
    → t ≤ now + ttl_ms
    → LivesUntil t n (add ttl_ms now k m)
unfolding add
LivesUntil-add ttl_ms t now n k m live h b =
    let (e, found, late) = LivesUntil-swept t now n m live h in
    elim (Bool-cases (text_eq k n)) [
      | inl same ↦ (now + ttl_ms, rw lookup-insert (rw same), b)
      | inr other ↦ (e, rw lookup-insert (rw other found), late)
    ]

add_live :
    (ttl_ms now : ℕ) (n : Text) (m : Memory) → LivesUntil (now + ttl_ms) n (add ttl_ms now n m)
unfolding add
add_live ttl_ms now n m = (now + ttl_ms, rw lookup-insert (rw text_eq_refl), omega arith)

-- After its time to live a nonce is not found any more.
pub has_expired :
    (ttl_ms t now : ℕ) (n : Text) (m : Memory)
    → t + ttl_ms < now
    → (has now n (add ttl_ms t n m)).1 ≡ false
unfolding has add
has_expired ttl_ms t now n m h = rw lookup-insert (rw text_eq_refl (ground arith))

-- The in-memory cache keeps every nonce for its time to live, whatever else is asked of it or added.
pub memory-IsRemembering : (ttl_ms : ℕ) → IsRemembering (memory_nonce_cache ttl_ms) ttl_ms
memory-IsRemembering ttl_ms = record {
  Held = LivesUntil;
  has_held = has_live;
  has_keep = LivesUntil-has;
  add_keep = LivesUntil-add ttl_ms;
  add_held = add_live ttl_ms;
}
