-- ===== src/PoolRegistry/Stats.antt =====
-- Minting and burning statistics (src/pool_registry.ts): the books of each pool.
use open_ttt.Prelude.{
  ℕ, ◌+◌, ◌≡◌, refl, sym, ap, ◌∙◌, Bool, true, false, ◌&&◌, Option, none, some, List, [], ◌∷◌, Text,
  arith, if◌then◌else◌, Dict, lookup, text_eq, text_eq_iff, lookup-insert, Option-cases, Bool-cases,
  inl, inr,
}
use open_ttt.PoolRegistry.{
  Pool, PoolRegistry, PoolStats, SlotIndex, Ethers, add_mint, add_burn, fresh_pool, stats_of,
  update_pool, is_valid_address, register_pool, get_token_id, store_token, checked_slot,
  get_pool_stats, record_mint, record_burn,
}
use open_ttt.PoolRegistry.Bounds.{Op, register, token, mint, burn, apply, apply_all, after_token}

same_found :
    (k j : Text) (m : Dict Pool) (p q : Pool)
    → lookup k m ≡ some q
    → lookup j m ≡ some p
    → text_eq k j ≡ true
    → q ≡ p
same_found k j m p q there h e =
    let both : some q ≡ some p = sym there ∙ ap (λ i. lookup i m) ((text_eq_iff k j).0 e) ∙ h in
    ground arith

other_key :
    (k j : Text) (m : Dict Pool) (p : Pool)
    → lookup k m ≡ none
    → lookup j m ≡ some p
    → text_eq k j ≡ false
other_key k j m p gone h = elim (Bool-cases (text_eq k j)) [
  | inl e ↦
      let both : none ≡ some p = sym gone ∙ ap (λ i. lookup i m) ((text_eq_iff k j).0 e) ∙ h in
      absurd (cc)
  | inr e ↦ e
]

lookup-update_pool :
    (k j : Text) (f : Pool → Pool) (m : Dict Pool) (p : Pool)
    → lookup j m ≡ some p
    → lookup j (update_pool k f m) ≡ (if text_eq k j then some (f p) else some p)
unfolding update_pool
lookup-update_pool k j f m p h = elim (Option-cases (lookup k m)) [
  | inl gone ↦ rw gone (rw (other_key k j m p gone h) h)
  | inr (q, there) ↦ rw there (rw lookup-insert (ground (arith, same_found k j m p q there h)))
]

abbrev with_moves : Pool → ℕ → ℕ → Pool
with_moves p m b = record p { minted = p.minted + m; burned = p.burned + b }

moves_add :
    (p : Pool) (m n b c : ℕ) → with_moves (with_moves p m b) n c ≡ with_moves p (m + n) (b + c)
moves_add p m n b c = ground arith

added :
    (s : PoolStats) (p : Pool) (m b : ℕ)
    → s ≡ record { minted = p.minted; burned = p.burned }
    → record { minted = p.minted + m; burned = p.burned + b }
      ≡ record s { minted = s.minted + m; burned = s.burned + b }
added s p m b e = ground arith

stats_of-eq-some :
    (o : Option Pool) (s : PoolStats)
    → stats_of o ≡ some s
    → (p : Pool) × (o ≡ some p) × (s ≡ record { minted = p.minted; burned = p.burned })
stats_of-eq-some none s e = cc
stats_of-eq-some (some p) s e = (p, refl, ground arith)

nothing : (s : PoolStats) → none ≡ some s → ⊥
nothing s e = cc

module _ (ethers : Ethers) where
  -- The operation is on the pool with this address, in any case.
  abbrev pub concerns : Text → Text → Bool
  concerns a b = is_valid_address ethers b && text_eq (ethers.to_lower b) (ethers.to_lower a)

  -- What was minted and burned for a pool by a list of operations.
  abbrev pub minted_for : Text → Op → ℕ
  minted_for a (mint b n) = if concerns a b then n else 0
  minted_for a _ = 0

  abbrev pub burned_for : Text → Op → ℕ
  burned_for a (burn b n) = if concerns a b then n else 0
  burned_for a _ = 0

  abbrev pub total : (Op → ℕ) → List Op → ℕ
  total f [] = 0
  total f (o ∷ os) = f o + total f os

  module _ (a : Text) (r : PoolRegistry) (p : Pool) (good : is_valid_address ethers a ≡ true)
      (found : lookup (ethers.to_lower a) r.pools ≡ some p) where
    lookup-register :
        (chain_id : ℕ) (b : Text)
        → lookup (ethers.to_lower a) (apply ethers (register chain_id b) r).pools
          ≡ some (with_moves p 0 0)
    unfolding register_pool
    lookup-register chain_id b = ground (
      arith,
      lookup-insert (ethers.to_lower b) (ethers.to_lower a) (fresh_pool chain_id) r.pools,
      text_eq_iff (ethers.to_lower b) (ethers.to_lower a),
    )

    store_token-pools :
        (chain_id : ℕ) (b : Text) (t : ℕ) (o : Option ℕ)
        → (after_token ethers r (store_token ethers chain_id b t r o)).pools ≡ r.pools
    unfolding store_token
    store_token-pools chain_id b t none = refl
    store_token-pools chain_id b t (some n) = ground arith

    lookup-token :
        (chain_id : ℕ) (b : Text) (t : ℕ) (slot : SlotIndex)
        → lookup (ethers.to_lower a) (apply ethers (token chain_id b t slot) r).pools
          ≡ some (with_moves p 0 0)
    unfolding get_token_id
    lookup-token chain_id b t slot =
        ground (arith, store_token-pools chain_id b t (checked_slot slot))

    lookup-mint :
        (b : Text) (n : ℕ)
        → lookup (ethers.to_lower a) (apply ethers (mint b n) r).pools
          ≡ some (with_moves p (minted_for a (mint b n)) 0)
    unfolding record_mint
    lookup-mint b n = ground (
      arith,
      lookup-update_pool (ethers.to_lower b) (ethers.to_lower a) (add_mint n) r.pools p found,
    )

    lookup-burn :
        (b : Text) (n : ℕ)
        → lookup (ethers.to_lower a) (apply ethers (burn b n) r).pools
          ≡ some (with_moves p 0 (burned_for a (burn b n)))
    unfolding record_burn
    lookup-burn b n = ground (
      arith,
      lookup-update_pool (ethers.to_lower b) (ethers.to_lower a) (add_burn n) r.pools p found,
    )

  lookup-apply :
      (a : Text) (o : Op) (r : PoolRegistry) (p : Pool)
      → is_valid_address ethers a ≡ true
      → lookup (ethers.to_lower a) r.pools ≡ some p
      → lookup (ethers.to_lower a) (apply ethers o r).pools
        ≡ some (with_moves p (minted_for a o) (burned_for a o))
  lookup-apply a (register chain_id b) r p good found = lookup-register a r p good found chain_id b
  lookup-apply a (token chain_id b t slot) r p good found =
      lookup-token a r p good found chain_id b t slot
  lookup-apply a (mint b n) r p good found = lookup-mint a r p good found b n
  lookup-apply a (burn b n) r p good found = lookup-burn a r p good found b n

  lookup-apply_all :
      (a : Text) (os : List Op) (r : PoolRegistry) (p : Pool)
      → is_valid_address ethers a ≡ true
      → lookup (ethers.to_lower a) r.pools ≡ some p
      → lookup (ethers.to_lower a) (apply_all ethers os r).pools
        ≡ some (with_moves p (total (minted_for a) os) (total (burned_for a) os))
  lookup-apply_all a [] r p good found = ground arith
  lookup-apply_all a (o ∷ os) r p good found =
      lookup-apply_all a os (apply ethers o r) _ good (lookup-apply a o r p good found)
      ∙ ap some (
          moves_add p (minted_for a o) (total (minted_for a) os) (burned_for a o)
            (total (burned_for a) os))

  registered :
      (a : Text) (r : PoolRegistry) (s : PoolStats)
      → get_pool_stats ethers a r ≡ some s
      → (is_valid_address ethers a ≡ true)
        × (p : Pool) × (lookup (ethers.to_lower a) r.pools ≡ some p)
        × (s ≡ record { minted = p.minted; burned = p.burned })
  unfolding get_pool_stats
  registered a r s h = elim (Bool-cases (is_valid_address ethers a)) [
    | inl good ↦
        let (p, found, same) =
          stats_of-eq-some (lookup (ethers.to_lower a) r.pools) s (rw good at h) in
        (good, p, found, same)
    | inr bad ↦ absurd (nothing s (rw bad at h))
  ]

  stats_found :
      (a : Text) (r : PoolRegistry) (p : Pool)
      → is_valid_address ethers a ≡ true
      → lookup (ethers.to_lower a) r.pools ≡ some p
      → get_pool_stats ethers a r ≡ some (record { minted = p.minted; burned = p.burned })
  unfolding get_pool_stats
  stats_found a r p good found = rw good (rw found refl)

  -- A registered pool stays registered, and its statistics are the earlier ones plus all that was
  -- minted and burned for it since, whatever other operations come in between.
  pub get_pool_stats-apply_all :
      (a : Text) (os : List Op) (r : PoolRegistry) (s : PoolStats)
      → get_pool_stats ethers a r ≡ some s
      → get_pool_stats ethers a (apply_all ethers os r)
        ≡ some (record {
          minted = s.minted + total (minted_for a) os;
          burned = s.burned + total (burned_for a) os;
        })
  get_pool_stats-apply_all a os r s h =
      let (good, p, found, same) = registered a r s h in
      stats_found a (apply_all ethers os r) _ good (lookup-apply_all a os r p good found)
      ∙ ap some (added s p (total (minted_for a) os) (total (burned_for a) os) same)
