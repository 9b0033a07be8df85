-- ===== src/Prelude/Maps.antt =====
-- A JavaScript `Map` with text keys: its entries in insertion order.
use Prim.Native.Nat.{◌+◌, ◌≤◌}
use mathlib.Core.Path.{◌≡◌, refl}
use mathlib.Core.Logic.{◌≢◌, inl, inr}
use mathlib.Core.Bool.{Bool, true, false}
use mathlib.Core.List.{List, [], ◌∷◌, ◌++◌}
use mathlib.Core.Option.{Option, none, some}
use native.Mathlib.Omega.{arith}
use open_ttt.Prelude.Tests.{if◌then◌else◌, Bool-cases}
use open_ttt.Prelude.Lists.{length, keep_if}
use open_ttt.Prelude.Bytes.{Text, text_eq, text_eq_iff, text_eq_refl}

abbrev pub Dict {ℓ} : Type ℓ → Type ℓ
Dict V = List (Text × V)

module _ {ℓ} {V : Type ℓ} where
  -- `map.get(k)`.
  unfoldable pub lookup : Text → Dict V → Option V
  lookup k ((j, x) ∷ rest) = if text_eq j k then some x else lookup k rest
  lookup k [] = none

  -- `map.set(k, v)`: a key that is present keeps its place, a new one goes to the end.
  unfoldable pub insert : Text → V → Dict V → Dict V
  insert k x ((j, y) ∷ rest) = if text_eq j k then (j, x) ∷ rest else (j, y) ∷ insert k x rest
  insert k x [] = (k, x) ∷ []

  -- `map.delete(k)`.
  unfoldable pub erase : Text → Dict V → Dict V
  erase k [] = []
  erase k ((j, w) ∷ m) = if text_eq j k then m else (j, w) ∷ erase k m

  -- `map.keys().next().value`.
  abbrev pub oldest : Dict V → Option Text
  oldest [] = none
  oldest ((j, w) ∷ m) = some j

  -- `map.has(k)`.
  abbrev pub is_some : Option V → Bool
  is_some none = false
  is_some (some v) = true

  -- No key occurs twice, as in every `Map`.
  abbrev pub HasUniqueKeys : Dict V → Type ℓ
  HasUniqueKeys [] = Unit
  HasUniqueKeys ((j, w) ∷ m) = (lookup j m ≡ none) × HasUniqueKeys m

  pub lookup-insert :
      (k j : Text) (v : V) (m : Dict V)
      → lookup j (insert k v m) ≡ (if text_eq k j then some v else lookup j m)
  unfolding lookup insert
  lookup-insert k j v [] = refl
  lookup-insert k j v ((i, w) ∷ m) =
      ground (arith, text_eq_iff k j, text_eq_iff i k, text_eq_iff i j, lookup-insert k j v m)

  pub length-insert : (k : Text) (v : V) (m : Dict V) → length (insert k v m) ≤ length m + 1
  unfolding insert
  length-insert k v [] = omega arith
  length-insert k v ((j, w) ∷ m) = ground (arith, length-insert k v m)

  -- A set on a present key changes no size.
  pub length-insert_old :
      (k : Text) (v w : V) (m : Dict V) → lookup k m ≡ some w → length (insert k v m) ≡ length m
  unfolding lookup insert
  length-insert_old k v w [] h = absurd (ground arith)
  length-insert_old k v w ((j, u) ∷ m) h = ground (arith, length-insert_old k v w m)

  pub insert_fresh :
      (k : Text) (v : V) (m : Dict V) → lookup k m ≡ none → insert k v m ≡ m ++ (k, v) ∷ []
  unfolding lookup insert
  insert_fresh k v [] h = refl
  insert_fresh k v ((j, u) ∷ m) h = ground (arith, insert_fresh k v m)

  pub HasUniqueKeys-insert :
      (k : Text) (v : V) (m : Dict V) → HasUniqueKeys m → HasUniqueKeys (insert k v m)
  unfolding insert lookup
  HasUniqueKeys-insert k v [] h = (refl, tt)
  HasUniqueKeys-insert k v ((j, u) ∷ m) h =
      ground
        (arith, text_eq_iff j k, text_eq_iff k j, lookup-insert k j v m, HasUniqueKeys-insert k v m)

  pub lookup-erase_ne : (k j : Text) (m : Dict V) → k ≢ j → lookup j (erase k m) ≡ lookup j m
  unfolding lookup erase
  lookup-erase_ne k j [] h = refl
  lookup-erase_ne k j ((i, w) ∷ m) h =
      ground (arith, text_eq_iff i k, text_eq_iff i j, lookup-erase_ne k j m h)

  pub length-erase : (k : Text) (m : Dict V) → length (erase k m) ≤ length m
  unfolding erase
  length-erase k [] = omega arith
  length-erase k ((j, w) ∷ m) = ground (arith, length-erase k m)

  kept_head :
      (p : Text × V → Bool) (k j : Text) (v w : V) (m : Dict V)
      → j ≡ k
      → w ≡ v
      → p (k, v) ≡ true
      → lookup k (keep_if p ((j, w) ∷ m)) ≡ some v
  unfolding lookup
  kept_head p k j v w m e f q = rw (e, f) (rw q (rw (text_eq_refl k)))

  kept_tail :
      (p : Text × V → Bool) (k j : Text) (v w : V) (m : Dict V)
      → text_eq j k ≡ false
      → lookup k (keep_if p m) ≡ some v
      → lookup k (keep_if p ((j, w) ∷ m)) ≡ some v
  unfolding lookup
  kept_tail p k j v w m e h = elim (Bool-cases (p (j, w))) [
    | inl q ↦ rw q (rw e h)
    | inr q ↦ rw q h
  ]

  -- A kept entry is still found.
  pub lookup-keep_if :
      (p : Text × V → Bool) (k : Text) (v : V) (m : Dict V)
      → lookup k m ≡ some v
      → p (k, v) ≡ true
      → lookup k (keep_if p m) ≡ some v
  unfolding lookup
  lookup-keep_if p k v [] h q = absurd (ground arith)
  lookup-keep_if p k v ((j, w) ∷ m) h q = elim (Bool-cases (text_eq j k)) [
    | inl e ↦ kept_head p k j v w m ((text_eq_iff j k).0 e) (ground arith) q
    | inr e ↦ kept_tail p k j v w m e (lookup-keep_if p k v m (rw e at h) q)
  ]
