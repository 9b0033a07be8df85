-- ===== src/PoolRegistry/Tests.antt =====
-- Runs of the pool registry (src/pool_registry.ts), with simple functions in place of `ethers`.
use open_ttt.Prelude.{
  ℕ, ◌+◌, ◌≤◌, ◌≡◌, ◌↔◌, refl, true, false, ◌&&◌, some, List, [], ◌∷◌, ◌++◌, Text, codes, length,
  text_eq, arith, pos, lookup, replicate, zero, suc, ap, HasUniqueKeys,
}
use open_ttt.PoolRegistry.{
  Pool, PoolRegistry, PoolStats, Result, ok, Ethers, SlotIndex, whole, empty_registry,
  register_pool, get_token_id, is_valid_address, is_valid_for_pool, get_pool_stats, serialize,
  deserialize,
}
use open_ttt.PoolRegistry.Bounds.{Op, apply_all}
use open_ttt.PoolRegistry.Tokens.{IsUint32, get_token_id_iff}
use open_ttt.PoolRegistry.Stats.{total, minted_for, burned_for, get_pool_stats-apply_all}
use open_ttt.PoolRegistry.Saved.{deserialize-serialize}

abbrev test_ethers : Ethers
test_ethers = record {
  is_address = λ a. true;
  to_lower = λ a. a;
  token_hash = λ chain_id a t slot. chain_id ∷ t ∷ slot ∷ a;
}

abbrev test_registry : PoolRegistry
test_registry = record {
  pools = (codes "a", record { chain_id = 1; minted = 5; burned = 2 }) ∷ [];
  token_to_pool = (codes "t", codes "a") ∷ [];
}

abbrev with_token : PoolRegistry
with_token = record {
  pools = (codes "a", record { chain_id = 1; minted = 5; burned = 2 }) ∷ [];
  token_to_pool = (codes "t", codes "a") ∷ (1 ∷ 77 ∷ 3 ∷ codes "a", codes "a") ∷ [];
}

abbrev test_ops : List Op
test_ops = Op.mint (codes "a") 7 ∷ Op.register 1 (codes "b") ∷ Op.burn (codes "b") 4 ∷ []

abbrev test_slot : SlotIndex
test_slot = whole (pos 3)

get_token_id_iff_example :
    ((out : PoolRegistry × Text) × (get_token_id test_ethers 1
          (codes "a")
          77
          test_slot
          test_registry
        ≡ ok out))
    ↔ ((is_valid_address test_ethers (codes "a") ≡ true)
        × IsUint32 test_slot
        × (77 ≤ 18446744073709551615))
get_token_id_iff_example = get_token_id_iff test_ethers 1 (codes "a") 77 test_slot test_registry

token_given :
    get_token_id test_ethers 1 (codes "a") 77 test_slot test_registry
    ≡ ok (with_token, 1 ∷ 77 ∷ 3 ∷ codes "a")
unfolding get_token_id is_valid_address open_ttt.PoolRegistry.checked_slot open_ttt.Prelude.insert
    open_ttt.PoolRegistry.make_room
token_given = refl

abbrev test_stats : PoolStats
test_stats = record { minted = 5; burned = 2 }

stats_found : get_pool_stats test_ethers (codes "a") test_registry ≡ some test_stats
unfolding get_pool_stats is_valid_address lookup
stats_found = refl

get_pool_stats-apply_all_example :
    get_pool_stats test_ethers (codes "a") (apply_all test_ethers test_ops test_registry)
    ≡ some (record {
      minted = test_stats.minted + total test_ethers (minted_for test_ethers (codes "a")) test_ops;
      burned = test_stats.burned + total test_ethers (burned_for test_ethers (codes "a")) test_ops;
    })
get_pool_stats-apply_all_example =
    get_pool_stats-apply_all test_ethers (codes "a") test_ops test_registry test_stats stats_found

abbrev unary : ℕ → Text
unary n = replicate n 49

length-unary : (n : ℕ) → length (unary n) ≡ n
length-unary zero = refl
length-unary (suc n) = ap suc (length-unary n)

registry_pools_unique : HasUniqueKeys test_registry.pools
unfolding lookup
registry_pools_unique = (refl, tt)

registry_tokens_unique : HasUniqueKeys test_registry.token_to_pool
unfolding lookup
registry_tokens_unique = (refl, tt)

deserialize-serialize_example :
    deserialize unary length (serialize unary length test_registry) ≡ test_registry
deserialize-serialize_example =
    deserialize-serialize unary length length-unary test_registry registry_pools_unique
      registry_tokens_unique
