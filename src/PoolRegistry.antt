-- ===== src/PoolRegistry.antt =====
-- The pool registry (src/pool_registry.ts). What `ethers` does (address check, token hash) and
-- `toLowerCase` are parameters; amounts and timestamps are natural numbers.
pub mod Bounds
pub mod Tokens
pub mod Stats
pub mod Saved
mod Tests
use open_ttt.Prelude.{
  ℕ, ◌+◌, Bool, true, false, not, ◌&&◌, ◌||◌, Option, none, some, List, [], ◌∷◌, map, Text, ℤ, pos,
  negsuc, length, ltb, leb, if◌then◌else◌, text_eq, Dict, lookup, insert, erase, oldest, is_some,
}

pub record Pool : Type 0 where
  pub chain_id : ℕ
  pub minted : ℕ
  pub burned : ℕ

pub record PoolRegistry : Type 0 where
  pub pools : Dict Pool
  pub token_to_pool : Dict Text

abbrev pub max_pools : ℕ
max_pools = 10000

abbrev pub max_token_mappings : ℕ
max_token_mappings = 100000

pub data RegistryError : Type 0 where
  invalid_pool_address registry_full invalid_slot_index timestamp_overflow : RegistryError

pub data Result {ℓ} (X : Type ℓ) : Type ℓ where
  err : RegistryError → Result X
  ok : X → Result X

-- A JavaScript number given as a slot index: a whole number, or any other.
pub data SlotIndex : Type 0 where
  whole : ℤ → SlotIndex
  not_whole : SlotIndex

pub record PoolStats : Type 0 where
  pub minted : ℕ
  pub burned : ℕ

-- The functions that the registry calls.
pub record Ethers : Type 0 where
  pub is_address : Text → Bool
  pub to_lower : Text → Text
  -- `keccak256(abiCoder.encode(…, [chainId, address, timestamp, slotIndex]))`
  pub token_hash : ℕ → Text → ℕ → ℕ → Text

unfoldable pub empty_registry : PoolRegistry
empty_registry = record { pools = []; token_to_pool = [] }

abbrev is_empty : Text → Bool
is_empty [] = true
is_empty (c ∷ cs) = false

abbrev pub fresh_pool : ℕ → Pool
fresh_pool chain_id = record { chain_id = chain_id; minted = 0; burned = 0 }

-- The value of a slot index that passes the check; `none` where it throws.
unfoldable pub checked_slot : SlotIndex → Option ℕ
checked_slot not_whole = none
checked_slot (whole (negsuc n)) = none
checked_slot (whole (pos n)) = if ltb 0xFFFFFFFF n then none else some n

evict_key : Option Text → Dict Text → Dict Text
evict_key none m = m
evict_key (some k) m = erase k m

-- A full map of tokens loses its oldest entry.
unfoldable pub make_room : Dict Text → Dict Text
unfolding evict_key
make_room m = if leb max_token_mappings (length m) then evict_key (oldest m) m else m

abbrev pub stats_of : Option Pool → Option PoolStats
stats_of none = none
stats_of (some p) = some (record { minted = p.minted; burned = p.burned })

abbrev pub add_mint : ℕ → Pool → Pool
add_mint amount p = record p { minted = p.minted + amount }

abbrev pub add_burn : ℕ → Pool → Pool
add_burn amount p = record p { burned = p.burned + amount }

-- An update of the entry that `get` found, in place.
update_found : Text → (Pool → Pool) → Dict Pool → Option Pool → Dict Pool
update_found k f m none = m
update_found k f m (some p) = insert k (f p) m

unfoldable pub update_pool : Text → (Pool → Pool) → Dict Pool → Dict Pool
unfolding update_found
update_pool k f m = update_found k f m (lookup k m)

module _ (ethers : Ethers) where
  -- `poolAddress && ethers.isAddress(poolAddress.toLowerCase())`.
  unfoldable pub is_valid_address : Text → Bool
  is_valid_address a = not (is_empty a) && ethers.is_address (ethers.to_lower a)

  unfoldable pub register_pool : ℕ → Text → PoolRegistry → Result PoolRegistry
  register_pool chain_id pool_address r =
      if not (is_valid_address pool_address)
      then err invalid_pool_address
      else if is_some (lookup (ethers.to_lower pool_address) r.pools)
      then ok r
      else if leb max_pools (length r.pools)
      then err registry_full
      else ok
          (record r { pools = insert (ethers.to_lower pool_address) (fresh_pool chain_id) r.pools })

  unfoldable pub store_token : ℕ → Text → ℕ → PoolRegistry → Option ℕ → Result (PoolRegistry × Text)
  store_token chain_id pool_address timestamp r none = err invalid_slot_index
  store_token chain_id pool_address timestamp r (some slot) =
      let address = ethers.to_lower pool_address in
      let token_id = ethers.token_hash chain_id address timestamp slot in
      if ltb 18446744073709551615 timestamp
      then err timestamp_overflow
      else ok (
        record r { token_to_pool = insert token_id address (make_room r.token_to_pool) },
        token_id,
      )

  unfoldable pub get_token_id :
      ℕ → Text → ℕ → SlotIndex → PoolRegistry → Result (PoolRegistry × Text)
  unfolding store_token
  get_token_id chain_id pool_address timestamp slot_index r =
      if not (is_valid_address pool_address)
      then err invalid_pool_address
      else store_token chain_id pool_address timestamp r (checked_slot slot_index)

  same_pool : Text → Option Text → Bool
  same_pool address none = false
  same_pool address (some registered) = text_eq registered address

  unfoldable pub is_valid_for_pool : Text → Text → PoolRegistry → Bool
  unfolding same_pool
  is_valid_for_pool token_id pool_address r =
      if not (is_valid_address pool_address)
      then false
      else same_pool (ethers.to_lower pool_address) (lookup token_id r.token_to_pool)

  unfoldable pub get_pool_stats : Text → PoolRegistry → Option PoolStats
  get_pool_stats pool_address r =
      if not (is_valid_address pool_address)
      then none
      else stats_of (lookup (ethers.to_lower pool_address) r.pools)

  unfoldable pub record_mint : Text → ℕ → PoolRegistry → PoolRegistry
  record_mint pool_address amount r =
      if not (is_valid_address pool_address)
      then r
      else record r { pools = update_pool (ethers.to_lower pool_address) (add_mint amount) r.pools }

  unfoldable pub record_burn : Text → ℕ → PoolRegistry → PoolRegistry
  record_burn pool_address amount r =
      if not (is_valid_address pool_address)
      then r
      else record r { pools = update_pool (ethers.to_lower pool_address) (add_burn amount) r.pools }

keys {ℓ} : {V : Type ℓ} → Dict V → List Text
keys [] = []
keys ((k, v) ∷ m) = k ∷ keys m

unfoldable pub list_pools : PoolRegistry → List Text
unfolding keys
list_pools r = keys r.pools

-- What `serialize` hands to `JSON.stringify`.
pub record SavedPool : Type 0 where
  pub address : Text
  pub chain_id : ℕ
  pub minted : Text
  pub burned : Text

pub record SavedToken : Type 0 where
  pub token_id : Text
  pub pool_address : Text

pub record SavedRegistry : Type 0 where
  pub pools : List SavedPool
  -- Absent in older files.
  pub token_mappings : Option (List SavedToken)

-- `toString` and `BigInt` on the decimal form of a natural number.
module _ (to_string : ℕ → Text) (to_bigint : Text → ℕ) where
  abbrev pub save_pool : Text × Pool → SavedPool
  save_pool (address, p) = record {
    address = address;
    chain_id = p.chain_id;
    minted = to_string p.minted;
    burned = to_string p.burned;
  }

  abbrev pub save_token : Text × Text → SavedToken
  save_token (token_id, address) = record { token_id = token_id; pool_address = address }

  unfoldable pub serialize : PoolRegistry → SavedRegistry
  serialize r = record {
    pools = map save_pool r.pools;
    token_mappings = some (map save_token r.token_to_pool);
  }

  unfoldable pub load_pools : List SavedPool → Dict Pool → Dict Pool
  load_pools [] m = m
  load_pools (p ∷ ps) m = load_pools ps (
      insert p.address
        (record { chain_id = p.chain_id; minted = to_bigint p.minted; burned = to_bigint p.burned })
        m)

  unfoldable pub load_tokens : List SavedToken → Dict Text → Dict Text
  load_tokens [] m = m
  load_tokens (t ∷ ts) m = load_tokens ts (insert t.token_id t.pool_address m)

  load_mappings : Option (List SavedToken) → Dict Text
  load_mappings none = []
  load_mappings (some ts) = load_tokens ts []

  unfoldable pub deserialize : SavedRegistry → PoolRegistry
  unfolding load_pools load_tokens load_mappings
  deserialize s = record {
    pools = load_pools s.pools [];
    token_to_pool = load_mappings s.token_mappings;
  }
