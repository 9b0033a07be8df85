-- ===== src/AgentPlugin.antt =====
-- The plugin for ElizaOS agents (plugins/elizaos-plugin-openttt/src): verified time and the cache of
-- tokens; the actions that make, verify and show a token are in the modules below. Texts of answers and
-- the callbacks are left out; hashes, the text of a JSON value, text forms of numbers and dates and the
-- match in a message are parameters.
mod Generate
mod Verify
pub mod Actions
mod Tests
use open_ttt.Prelude.{
  ℕ, ◌+◌, ◌-◌, ◌*◌, ◌/◌, ◌%◌, Bool, true, false, not, Option, none, some, List, [], ◌∷◌, ◌++◌, map,
  Text, length, codes, ltb, leb, ◌==◌, if◌then◌else◌, Dict, lookup, insert, erase, oldest,
  get_elem?,
}

-- src/providers/timeProvider.ts

pub record VerifiedTime : Type 0 where
  pub timestamp : ℕ
  pub sources : List Text
  pub consensus : Bool
  pub deviation_ms : ℕ

pub record SourceTime : Type 0 where
  pub label : Text
  pub ts : ℕ

abbrev answered : List (Option SourceTime) → List SourceTime
answered [] = []
answered (none ∷ rs) = answered rs
answered (some r ∷ rs) = r ∷ answered rs

abbrev insert_time : ℕ → List ℕ → List ℕ
insert_time x [] = x ∷ []
insert_time x (y ∷ ys) = let rest = insert_time x ys in if leb x y then x ∷ y ∷ ys else y ∷ rest

abbrev sort_times : List ℕ → List ℕ
sort_times [] = []
sort_times (x ∷ xs) = insert_time x (sort_times xs)

abbrev elem_or_zero : Option ℕ → ℕ
elem_or_zero none = 0
elem_or_zero (some n) = n

-- `timestamps[i]`, for a position in the list.
abbrev time_at : List ℕ → ℕ → ℕ
time_at ts i = elem_or_zero (get_elem? ts i)

-- The median of sorted times; `Math.round` of a half rounds up.
unfoldable pub median : List ℕ → ℕ
median ts =
    let mid = length ts / 2 in
    if length ts % 2 == 0 then (time_at ts (mid - 1) + time_at ts mid + 1) / 2 else time_at ts mid

abbrev distance : ℕ → ℕ → ℕ
distance a b = if ltb a b then b - a else a - b

unfoldable pub max_deviation : ℕ → List ℕ → ℕ
max_deviation m [] = 0
max_deviation m (t ∷ ts) =
    let rest = max_deviation m ts in if ltb rest (distance t m) then distance t m else rest

-- `getVerifiedTime`, from what the sources answered and the local clock.
unfoldable pub get_verified_time : List (Option SourceTime) → ℕ → VerifiedTime
get_verified_time results now_ms =
    let valid = answered results in
    let timestamps = sort_times (map (λ r. r.ts) valid) in
    let middle = median timestamps in
    if ltb (length valid) 2
    then record {
      timestamp = now_ms;
      sources = codes "local" ∷ [];
      consensus = false;
      deviation_ms = 0;
    }
    else record {
      timestamp = middle;
      sources = map (λ r. r.label) valid;
      consensus = ltb (max_deviation middle timestamps) 2000;
      deviation_ms = max_deviation middle timestamps;
    }

-- src/actions/generatePot.ts

pub record CacheEntry : Type 0 where
  pub value : Text
  pub expires_at : ℕ

abbrev pub PotCache : Type 0
PotCache = Dict CacheEntry

abbrev pub max_cache_size : ℕ
max_cache_size = 1000

abbrev erase_key : Option Text → PotCache → PotCache
erase_key none cache = cache
erase_key (some k) cache = erase k cache

-- The oldest entry goes, expired or not, once the cache is full.
unfoldable pub evict_oldest : PotCache → PotCache
evict_oldest cache =
    if leb max_cache_size (length cache) then erase_key (oldest cache) cache else cache

unfoldable pub pot_cache_set : ℕ → Text → Text → ℕ → PotCache → PotCache
pot_cache_set now_ms key value ttl_seconds cache =
    insert key (record { value = value; expires_at = now_ms + ttl_seconds * 1000 })
      (evict_oldest cache)

abbrev fresh_value : ℕ → Text → PotCache → Option CacheEntry → PotCache × Option Text
fresh_value now_ms key cache none = (cache, none)
fresh_value now_ms key cache (some entry) =
    if ltb entry.expires_at now_ms then (erase key cache, none) else (cache, some entry.value)

unfoldable pub pot_cache_get : ℕ → Text → PotCache → PotCache × Option Text
pot_cache_get now_ms key cache = fresh_value now_ms key cache (lookup key cache)

-- The interval that removes expired entries.
unfoldable pub remove_expired : ℕ → PotCache → PotCache
remove_expired now_ms [] = []
remove_expired now_ms ((k, e) ∷ cache) =
    let rest = remove_expired now_ms cache in
    if ltb e.expires_at now_ms then rest else (k, e) ∷ rest
