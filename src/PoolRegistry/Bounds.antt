-- ===== src/PoolRegistry/Bounds.antt =====
-- The registry's limits (src/pool_registry.ts): every operation keeps both maps within them.
use open_ttt.Prelude.{
  ℕ, ◌≤◌, ◌<◌, ◌≡◌, refl, Option, none, some, List, [], ◌∷◌, Text, length, arith, Dict, lookup,
  erase, text_eq_refl, length-insert, length-insert_old, Option-cases, inl, inr,
}
use open_ttt.PoolRegistry.{
  Pool, PoolRegistry, max_pools, max_token_mappings, Result, ok, err, SlotIndex, Ethers, make_room,
  update_pool, add_mint, add_burn, fresh_pool, store_token, register_pool, get_token_id,
  record_mint, record_burn, checked_slot,
}

pub record IsBounded (r : PoolRegistry) : Type 0 where
  pub pools : length r.pools ≤ max_pools
  pub tokens : length r.token_to_pool ≤ max_token_mappings

length-make_room : (m : Dict Text) → length m ≤ 100000 → length (make_room m) < 100000
unfolding make_room erase
length-make_room [] h = omega arith
length-make_room ((k, v) ∷ m) h = ground (arith, text_eq_refl k)

length-update_pool :
    (k : Text) (f : Pool → Pool) (m : Dict Pool) → length (update_pool k f m) ≡ length m
unfolding update_pool
length-update_pool k f m = elim (Option-cases (lookup k m)) [
  | inl gone ↦ rw gone refl
  | inr (p, there) ↦ rw there (length-insert_old k (f p) p m there)
]

-- An operation that changes the registry.
pub data Op : Type 0 where
  register : ℕ → Text → Op
  token : ℕ → Text → ℕ → SlotIndex → Op
  mint : Text → ℕ → Op
  burn : Text → ℕ → Op

module _ (ethers : Ethers) where
  abbrev pub after_register : PoolRegistry → Result PoolRegistry → PoolRegistry
  after_register r (ok r') = r'
  after_register r (err e) = r

  abbrev pub after_token : PoolRegistry → Result (PoolRegistry × Text) → PoolRegistry
  after_token r (ok (r', id)) = r'
  after_token r (err e) = r

  -- The registry after an operation; one that throws leaves it as it was.
  abbrev pub apply : Op → PoolRegistry → PoolRegistry
  apply (register chain_id a) r = after_register r (register_pool ethers chain_id a r)
  apply (token chain_id a t slot) r = after_token r (get_token_id ethers chain_id a t slot r)
  apply (mint a n) r = record_mint ethers a n r
  apply (burn a n) r = record_burn ethers a n r

  abbrev pub apply_all : List Op → PoolRegistry → PoolRegistry
  apply_all [] r = r
  apply_all (o ∷ os) r = apply_all os (apply o r)

  token-IsBounded :
      (chain_id : ℕ) (a : Text) (t : ℕ) (r : PoolRegistry) (o : Option ℕ)
      → IsBounded r
      → IsBounded (after_token r (store_token ethers chain_id a t r o))
  unfolding store_token
  token-IsBounded chain_id a t r none b = b
  token-IsBounded chain_id a t r (some slot) b =
      let address = ethers.to_lower a in
      ground (
        arith,
        length-make_room r.token_to_pool b.tokens,
        length-insert (ethers.token_hash chain_id address t slot) address
            (make_room r.token_to_pool),
      )

  apply-IsBounded : (o : Op) (r : PoolRegistry) → IsBounded r → IsBounded (apply o r)
  unfolding register_pool get_token_id record_mint record_burn
  apply-IsBounded (register chain_id a) r b =
      ground (arith, length-insert (ethers.to_lower a) (fresh_pool chain_id) r.pools, b)
  apply-IsBounded (token chain_id a t slot) r b =
      ground (arith, token-IsBounded chain_id a t r (checked_slot slot) b)
  apply-IsBounded (mint a n) r b =
      ground (arith, length-update_pool (ethers.to_lower a) (add_mint n) r.pools, b)
  apply-IsBounded (burn a n) r b =
      ground (arith, length-update_pool (ethers.to_lower a) (add_burn n) r.pools, b)

  -- Whatever operations come, the registry never holds more than 10000 pools and 100000 tokens.
  pub apply_all-IsBounded :
      (os : List Op) (r : PoolRegistry) → IsBounded r → IsBounded (apply_all os r)
  apply_all-IsBounded [] r b = b
  apply_all-IsBounded (o ∷ os) r b = apply_all-IsBounded os (apply o r) (apply-IsBounded o r b)
