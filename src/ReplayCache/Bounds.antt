-- ===== src/ReplayCache/Bounds.antt =====
-- The nonce cache stays within its bound and holds each nonce once.
use native.Mathlib.Decide.{dec_lt}
use open_ttt.Prelude.{
  ℕ, ◌≤◌, ◌<◌, ◌≡◌, refl, Bool, none, [], ◌∷◌, Text, arith, length, keep_if, length-keep_if, ltb,
  lookup, erase, HasUniqueKeys, length-insert, HasUniqueKeys-insert, text_eq_refl, drop,
  length-drop, Bool-cases, inl, inr, is_some,
}
use open_ttt.ReplayCache.{NonceMap, max_nonce_cache, is_recent, cleanup, evict, register}

-- At most 10000 entries, no key twice.
pub record IsBounded (m : NonceMap) : Type 0 where
  pub size : length m ≤ max_nonce_cache
  pub unique : HasUniqueKeys m

pub evict_lem : (m : NonceMap) → 10000 ≤ length m → evict m ≡ drop 1 m
unfolding evict erase
evict_lem [] h = absurd (omega arith)
evict_lem ((k, ts) ∷ m) h = ground (arith, text_eq_refl k)

pub evict_small : (m : NonceMap) → length m < 10000 → evict m ≡ m
unfolding evict
evict_small m h = ground arith

length-evict : (m : NonceMap) → length m ≤ 10000 → length (evict m) < 10000
length-evict m h = elim (dec_lt (length m) 10000) [
  | yes small ↦ rw (evict_small m small) small
  | no big ↦ rw (evict_lem m (omega arith)) (omega (arith, length-drop 1 m))
]

HasUniqueKeys-drop : (m : NonceMap) → HasUniqueKeys m → HasUniqueKeys (drop 1 m)
HasUniqueKeys-drop [] h = tt
HasUniqueKeys-drop ((k, ts) ∷ m) (_, h) = h

HasUniqueKeys-evict : (m : NonceMap) → HasUniqueKeys m → HasUniqueKeys (evict m)
HasUniqueKeys-evict m h = elim (dec_lt (length m) 10000) [
  | yes small ↦ rw (evict_small m small) h
  | no big ↦ rw (evict_lem m (omega arith)) (HasUniqueKeys-drop m h)
]

lookup-keep_if-none :
    (p : Text × ℕ → Bool) (k : Text) (m : NonceMap)
    → lookup k m ≡ none
    → lookup k (keep_if p m) ≡ none
unfolding lookup
lookup-keep_if-none p k [] h = refl
lookup-keep_if-none p k ((j, ts) ∷ m) h = ground (arith, lookup-keep_if-none p k m)

HasUniqueKeys-keep_if :
    (p : Text × ℕ → Bool) (m : NonceMap) → HasUniqueKeys m → HasUniqueKeys (keep_if p m)
HasUniqueKeys-keep_if p [] h = tt
HasUniqueKeys-keep_if p ((j, ts) ∷ m) (new, h) = elim (Bool-cases (p (j, ts))) [
  | inl kept ↦ rw kept (lookup-keep_if-none p j m new, HasUniqueKeys-keep_if p m h)
  | inr gone ↦ rw gone (HasUniqueKeys-keep_if p m h)
]

cleanup-IsBounded : (now : ℕ) (m : NonceMap) → IsBounded m → IsBounded (cleanup now m)
unfolding cleanup
cleanup-IsBounded now m b = elim (Bool-cases (ltb 5000 (length m))) [
  | inl big ↦ rw big (record {
    size = omega (arith, length-keep_if (is_recent now) m, b.size);
    unique = HasUniqueKeys-keep_if (is_recent now) m b.unique;
  })
  | inr small ↦ rw small b
]

-- Registering any nonce at any time keeps the cache within 10000 entries with distinct keys.
pub register-IsBounded :
    (now : ℕ) (nonce : Text) (m : NonceMap) → IsBounded m → IsBounded (register now nonce m).0
unfolding register
register-IsBounded now nonce m b =
    let c = cleanup-IsBounded now m b in
    let kept = evict (cleanup now m) in
    elim (Bool-cases (is_some (lookup nonce (cleanup now m)))) [
      | inl old ↦ rw old c
      | inr new ↦ rw new (record {
        size = omega (arith, length-evict (cleanup now m) c.size, length-insert nonce now kept);
        unique = HasUniqueKeys-insert nonce now kept (HasUniqueKeys-evict (cleanup now m) c.unique);
      })
    ]
