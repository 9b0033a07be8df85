-- ===== src/ReplayCache.antt =====
-- The bounded nonce cache that `TimeSynthesis.verifyProofOfTime` (src/time_synthesis.ts) and
-- `HttpOnlyClient.verifyPoT` (src/http_client.ts) each keep, with the same code.
pub mod Bounds
pub mod Window
mod Tests
use open_ttt.Prelude.{
  ℕ, ◌+◌, Bool, true, false, not, Option, none, some, Text, length, keep_if, ltb, leb,
  if◌then◌else◌, Dict, lookup, insert, erase, oldest, is_some,
}

-- A nonce with the time at which it was seen.
abbrev pub NonceMap : Type 0
NonceMap = Dict ℕ

abbrev pub max_nonce_cache : ℕ
max_nonce_cache = 10000

abbrev pub nonce_ttl_ms : ℕ
nonce_ttl_ms = 300000

-- `!(now - ts > NONCE_TTL_MS)`.
abbrev pub is_recent : ℕ → Text × ℕ → Bool
is_recent now (k, ts) = not (ltb (ts + nonce_ttl_ms) now)

-- The cleanup pass, which runs once the map is more than half full.
unfoldable pub cleanup : ℕ → NonceMap → NonceMap
cleanup now m = if ltb 5000 (length m) then keep_if (is_recent now) m else m

erase_key : Option Text → NonceMap → NonceMap
erase_key none m = m
erase_key (some k) m = erase k m

-- A full map loses its oldest entry.
unfoldable pub evict : NonceMap → NonceMap
unfolding erase_key
evict m = if leb max_nonce_cache (length m) then erase_key (oldest m) m else m

-- The nonce section of both functions: the new map, and whether the nonce was new.
unfoldable pub register : ℕ → Text → NonceMap → NonceMap × Bool
register now nonce m =
    let swept = cleanup now m in
    if is_some (lookup nonce swept) then (swept, false) else (insert nonce now (evict swept), true)
