-- ===== src/ReplayCache/Tests.antt =====
-- Runs of the bounded nonce cache (src/time_synthesis.ts, src/http_client.ts).
use open_ttt.Prelude.{◌≡◌, refl, true, [], ◌∷◌, codes, lookup}
use open_ttt.ReplayCache.{NonceMap, cleanup, register}

abbrev seen_nonces : NonceMap
seen_nonces = (codes "a", 5) ∷ []

b_new : (register 10 (codes "b") seen_nonces).1 ≡ true
unfolding register lookup cleanup
b_new = refl
