-- ===== src/PoolRegistry/Saved.antt =====
-- Saving and restoring the registry (src/pool_registry.ts).
use mathlib.Core.List.{append_assoc, append-nil}
use open_ttt.Prelude.{
  ℕ, ◌≡◌, refl, sym, ap, ◌∙◌, none, [], ◌∷◌, ◌++◌, map, Text, Dict, lookup, insert, insert_fresh,
  HasUniqueKeys, text_eq, text_eq_iff, false, arith,
}
use mathlib.Core.Path.{ap₂}
use open_ttt.PoolRegistry.{
  Pool, PoolRegistry, save_pool, save_token, load_pools, load_tokens, serialize, deserialize,
}

-- No key of the entries is in the map before them.
abbrev Continues {ℓ} : {V : Type ℓ} → Dict V → Dict V → Type ℓ
Continues m [] = Unit
Continues m ((k, v) ∷ es) = (lookup k m ≡ none) × Continues (m ++ (k, v) ∷ []) es

lookup_behind {ℓ} :
    {V : Type ℓ} (j k : Text) (v : V) (m es : Dict V)
    → lookup j (m ++ (k, v) ∷ es) ≡ none
    → text_eq j k ≡ false
unfolding lookup
lookup_behind j k v [] es h = ground (arith, text_eq_iff j k, text_eq_iff k j)
lookup_behind j k v ((i, w) ∷ m) es h = ground (arith, lookup_behind j k v m es)

lookup-append_none {ℓ} :
    {V : Type ℓ} (k : Text) (v : V) (m es : Dict V)
    → HasUniqueKeys (m ++ (k, v) ∷ es)
    → lookup k m ≡ none
unfolding lookup
lookup-append_none k v [] es h = refl
lookup-append_none k v ((j, w) ∷ m) es (new, h) =
    ground (arith, lookup-append_none k v m es h, text_eq_iff j k, lookup_behind j k v m es new)

Continues-unique {ℓ} : {V : Type ℓ} (es m : Dict V) → HasUniqueKeys (m ++ es) → Continues m es
Continues-unique [] m h = tt
Continues-unique ((k, v) ∷ es) m h = (
  lookup-append_none k v m es h,
  Continues-unique es (m ++ (k, v) ∷ []) (rw (append_assoc m ((k, v) ∷ []) es) h),
)

Continues-nil {ℓ} : {V : Type ℓ} (es : Dict V) → HasUniqueKeys es → Continues [] es
Continues-nil es h = Continues-unique es [] h

-- `BigInt` reads back what `toString` wrote.
module _ (to_string : ℕ → Text) (to_bigint : Text → ℕ)
    (reads_back : (n : ℕ) → to_bigint (to_string n) ≡ n) where
  restored :
      (p : Pool)
      → record {
        chain_id = p.chain_id;
        minted = to_bigint (to_string p.minted);
        burned = to_bigint (to_string p.burned);
      }
        ≡ p
  restored p = ground (arith, reads_back p.minted, reads_back p.burned)

  load_pools-save :
      (es m : Dict Pool)
      → Continues m es
      → load_pools to_string to_bigint (map (save_pool to_string to_bigint) es) m ≡ m ++ es
  unfolding load_pools
  load_pools-save [] m h = sym (append-nil m)
  load_pools-save ((k, p) ∷ es) m (new, h) =
      ap (load_pools to_string to_bigint (map (save_pool to_string to_bigint) es))
        (ap (λ q. insert k q m) (restored p) ∙ insert_fresh k p m new)
      ∙ load_pools-save es (m ++ (k, p) ∷ []) h
      ∙ append_assoc m ((k, p) ∷ []) es

  load_tokens-save :
      (es m : Dict Text)
      → Continues m es
      → load_tokens to_string to_bigint (map (save_token to_string to_bigint) es) m ≡ m ++ es
  unfolding load_tokens
  load_tokens-save [] m h = sym (append-nil m)
  load_tokens-save ((k, a) ∷ es) m (new, h) =
      ap (load_tokens to_string to_bigint (map (save_token to_string to_bigint) es))
        (insert_fresh k a m new)
      ∙ load_tokens-save es (m ++ (k, a) ∷ []) h
      ∙ append_assoc m ((k, a) ∷ []) es

  -- Restoring what was saved gives the same registry: the same pools with the same statistics and
  -- the same token mappings, in the same order.
  pub deserialize-serialize :
      (r : PoolRegistry)
      → HasUniqueKeys r.pools
      → HasUniqueKeys r.token_to_pool
      → deserialize to_string to_bigint (serialize to_string to_bigint r) ≡ r
  unfolding deserialize serialize
  deserialize-serialize r h k =
      ap₂ (λ ps ts. record { pools = ps; token_to_pool = ts })
        (load_pools-save r.pools [] (Continues-nil r.pools h))
        (load_tokens-save r.token_to_pool [] (Continues-nil r.token_to_pool k))
