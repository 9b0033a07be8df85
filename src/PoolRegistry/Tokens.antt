-- ===== src/PoolRegistry/Tokens.antt =====
-- Token ids (src/pool_registry.ts): when one is given, and which pool it counts for.
use open_ttt.Prelude.{
  ℕ, ◌≤◌, ◌≡◌, refl, ◌↔◌, true, ◌&&◌, Option, none, some, Text, pos, negsuc, arith, insert, text_eq,
  text_eq_refl, lookup-insert, Bool-cases, inl, inr,
}
use open_ttt.PoolRegistry.{
  PoolRegistry, Result, ok, err, invalid_pool_address, SlotIndex, whole, not_whole, Ethers,
  checked_slot, make_room, store_token, is_valid_address, get_token_id, is_valid_for_pool,
}

-- A whole number of 32 bits without a sign.
abbrev pub IsUint32 : SlotIndex → Type 0
IsUint32 slot = (n : ℕ) × (slot ≡ whole (pos n)) × (n ≤ 4294967295)

checked_slot_iff : (slot : SlotIndex) → ((n : ℕ) × (checked_slot slot ≡ some n)) ↔ IsUint32 slot
unfolding checked_slot
checked_slot_iff not_whole = (λ (n, e). absurd (cc), λ (n, e, _). absurd (cc))
checked_slot_iff (whole (negsuc k)) = (λ (n, e). absurd (cc), λ (n, e, _). absurd (cc))
checked_slot_iff (whole (pos k)) =
    (λ (n, e). (k, refl, ground arith), λ (n, e, h). (k, ground arith))

module _ (ethers : Ethers) (chain_id : ℕ) (a : Text) (t : ℕ) where
  store_token-eq-ok :
      (r r' : PoolRegistry) (id : Text) (o : Option ℕ)
      → store_token ethers chain_id a t r o ≡ ok (r', id)
      → (n : ℕ) × (o ≡ some n)
        × (t ≤ 18446744073709551615)
        × (r'.token_to_pool ≡ insert id (ethers.to_lower a) (make_room r.token_to_pool))
        × (r'.pools ≡ r.pools)
  unfolding store_token
  store_token-eq-ok r r' id none e = cc
  store_token-eq-ok r r' id (some n) e = (n, refl, ground arith, ground arith, ground arith)

  get_token_id-eq-ok :
      (slot : SlotIndex) (r r' : PoolRegistry) (id : Text)
      → get_token_id ethers chain_id a t slot r ≡ ok (r', id)
      → (is_valid_address ethers a ≡ true)
        × (store_token ethers chain_id a t r (checked_slot slot) ≡ ok (r', id))
  unfolding get_token_id
  get_token_id-eq-ok slot r r' id e = elim (Bool-cases (is_valid_address ethers a)) [
    | inl good ↦ (good, rw good at e)
    | inr bad ↦ absurd (refused (rw bad at e))
  ]
    where
      refused : ◌≡◌ {A = Result (PoolRegistry × Text)} (err invalid_pool_address) (ok (r', id)) → ⊥
      refused h = cc

  -- A token id is given exactly for a valid pool address, a slot index that is a whole number from
  -- 0 to 2^32 - 1, and a timestamp below 2^64.
  pub get_token_id_iff :
      (slot : SlotIndex) (r : PoolRegistry)
      → ((out : PoolRegistry × Text) × (get_token_id ethers chain_id a t slot r ≡ ok out))
        ↔ ((is_valid_address ethers a ≡ true) × IsUint32 slot × (t ≤ 18446744073709551615))
  unfolding get_token_id store_token
  get_token_id_iff slot r = (
    λ ((r', id), e).
        let (good, stored) = get_token_id-eq-ok slot r r' id e in
        let (n, found, small, _, _) = store_token-eq-ok r r' id (checked_slot slot) stored in
        (good, (checked_slot_iff slot).0 (n, found), small),
    λ (good, slot_fits, small).
        let (n, found) = (checked_slot_iff slot).1 slot_fits in
        (
          (
            record r {
              token_to_pool =
                  insert (ethers.token_hash chain_id (ethers.to_lower a) t n) (ethers.to_lower a)
                    (make_room r.token_to_pool);
            },
            ethers.token_hash chain_id (ethers.to_lower a) t n,
          ),
          rw good (rw found (ground arith)),
        ),
  )

  -- A token id that was given counts for the pool that it was given for, written in any case, and
  -- for no other pool.
  pub is_valid_for_pool-get_token_id :
      (slot : SlotIndex) (r r' : PoolRegistry) (id b : Text)
      → get_token_id ethers chain_id a t slot r ≡ ok (r', id)
      → is_valid_for_pool ethers id b r'
        ≡ (is_valid_address ethers b && text_eq (ethers.to_lower a) (ethers.to_lower b))
  unfolding is_valid_for_pool
  is_valid_for_pool-get_token_id slot r r' id b e =
      let (_, stored) = get_token_id-eq-ok slot r r' id e in
      let (_, _, _, tokens, _) = store_token-eq-ok r r' id (checked_slot slot) stored in
      elim (Bool-cases (is_valid_address ethers b)) [
        | inl good ↦ rw good (rw tokens (rw lookup-insert (rw text_eq_refl refl)))
        | inr bad ↦ rw bad refl
      ]
