-- ===== src/EvmConnector/Calls/Errors.antt =====
-- Which errors come out of the calls of contracts (src/evm_connector.ts).
use open_ttt.Prelude.{
  ℕ, ◌*◌, ◌/◌, ◌≡◌, refl, ◌↔◌, Bool, true, false, Option, none, some, Text, codes, is_some,
  if◌then◌else◌,
}
use open_ttt.Errors.{TttError, ttt_error, network_tx_dropped, contract_mint_failed}
use open_ttt.EvmConnector.{Result, ok, err, Connector}
use open_ttt.EvmConnector.Faults.{
  submit_dropped, mint_dropped, burn_dropped, burn_failed, mint_failed,
}
use open_ttt.EvmConnector.Calls.{
  sdk, object, nothing, other_value, Tried, throws, gives, ◌>>=◌, Promised, settles, pending,
  extract_revert_reason, with_timeout, gas_limit, Chain, received, send_estimated, send_plain,
  is_thrown_again, wrap_all, wrap_others, guarded, submit_ttt_record, burn_ttt, mint_ttt, is_valid,
}

module _ {R : Type 0} (chain : Chain R) where
  -- What a chain has done when a receipt is there: an estimate came in time, the transaction went
  -- out with a fifth more gas than that, and it was not dropped.
  abbrev pub IsSent : R → Type 0
  IsSent r =
      (n : ℕ) × (u : Unit {0}) × (chain.estimate ≡ settles (gives n))
      × (chain.send (some (n * 120 / 100)) ≡ gives u)
      × (chain.wait ≡ gives (some r))

  estimated : (p : Promised) (n : ℕ) → with_timeout p ≡ gives n → p ≡ settles (gives n)
  unfolding with_timeout
  estimated (settles t) n e = cc
  estimated pending n e = cc

  took_place {ℓ κ} :
      {X : Type ℓ} {Y : Type κ} (t : Tried X) (f : X → Tried Y) {y : Y}
      → (t >>= f) ≡ gives y
      → (x : X) × (t ≡ gives x) × (f x ≡ gives y)
  took_place (throws e) f h = cc
  took_place (gives x) f h = (x, refl, h)

  receipt_there :
      (dropped : TttError) (o : Option R) (r : R) → received dropped o ≡ gives r → o ≡ some r
  receipt_there dropped none r e = cc
  receipt_there dropped (some x) r e = cc

  send_estimated-IsSent :
      (dropped : TttError) (r : R) → send_estimated dropped chain ≡ gives r → IsSent r
  unfolding send_estimated gas_limit
  send_estimated-IsSent dropped r e =
      let (n, e1, e) = took_place (with_timeout chain.estimate) _ e in
      let (u, e2, e) = took_place (chain.send (some (n * 120 / 100))) _ e in
      let (o, e3, e) = took_place chain.wait _ e in
      let e4 = receipt_there dropped o r e in
      (n, u, estimated chain.estimate n e1, e2, (rw e4 at e3))

  IsSent-send_estimated :
      (dropped : TttError) (r : R) → IsSent r → send_estimated dropped chain ≡ gives r
  unfolding send_estimated gas_limit with_timeout
  IsSent-send_estimated dropped r (n, u, e1, e2, e3) = rw e1 (rw e2 (rw e3 refl))

module _ {ℓ} {X : Type ℓ} where
  guarded-ok :
      (b : Bool) (e : TttError) (m : Result X) (x : X)
      → (guarded b e m ≡ ok x) ↔ ((b ≡ true) × (m ≡ ok x))
  guarded-ok true e m x = (λ h. (refl, h), λ (_, h). h)
  guarded-ok false e m x = (λ h. cc, λ (h, _). cc)

  wrap_all-ok : (f : Text → TttError) (t : Tried X) (x : X) → (wrap_all f t ≡ ok x) ↔ (t ≡ gives x)
  unfolding wrap_all
  wrap_all-ok f (throws e) x = (λ h. cc, λ h. cc)
  wrap_all-ok f (gives y) x = (λ h. cc, λ h. cc)

  not_ok : (b : Bool) (d e : TttError) (x : X) → (if b then err d else err e) ≡ ok x → ⊥
  not_ok true d e x h = cc
  not_ok false d e x h = cc

  wrap_others-ok :
      (f : Text → TttError) (t : Tried X) (x : X) → (wrap_others f t ≡ ok x) ↔ (t ≡ gives x)
  unfolding wrap_others
  wrap_others-ok f (throws (sdk e)) x =
      (λ h. absurd (not_ok (is_thrown_again e.class) e (f e.message) x h), λ h. cc)
  wrap_others-ok f (throws (object r d m s)) x = (λ h. cc, λ h. cc)
  wrap_others-ok f (throws nothing) x = (λ h. cc, λ h. cc)
  wrap_others-ok f (throws (other_value s)) x = (λ h. cc, λ h. cc)
  wrap_others-ok f (gives y) x = (λ h. cc, λ h. cc)

module _ {S : Type 0} {R : Type 0} (is_address : Text → Bool) (chain : Chain R)
    (c : Connector S) where
  -- A mint gives a receipt exactly if a contract is attached, the recipient's address is valid, the
  -- gas was estimated in time, the transaction was sent with 120 percent of the estimate, rounded
  -- down, and it was not dropped; submitting a record needs the same but the address.
  pub mint_iff :
      (to : Text) (r : R)
      → ((mint_ttt is_address to chain c ≡ ok r)
          ↔ ((is_some c.ttt_contract ≡ true) × (is_valid is_address to ≡ true) × IsSent chain r))
        × ((submit_ttt_record chain c ≡ ok r) ↔ ((is_some c.ttt_contract ≡ true) × IsSent chain r))
  unfolding mint_ttt submit_ttt_record
  mint_iff to r = (
    (
      λ e.
          let (attached, e) = (guarded-ok (is_some c.ttt_contract) _ _ r).0 e in
          let (valid, e) = (guarded-ok (is_valid is_address to) _ _ r).0 e in
          (attached, valid, send_estimated-IsSent chain _ r ((wrap_all-ok mint_failed _ r).0 e)),
      λ (attached, valid, sent).
          rw (attached, valid)
            ((wrap_all-ok mint_failed _ r).1 (IsSent-send_estimated chain _ r sent)),
    ),
    (
      λ e.
          let (attached, e) = (guarded-ok (is_some c.ttt_contract) _ _ r).0 e in
          (attached, send_estimated-IsSent chain _ r ((wrap_others-ok _ _ r).0 e)),
      λ (attached, sent).
          rw attached ((wrap_others-ok _ _ r).1 (IsSent-send_estimated chain _ r sent)),
    ),
  )

  -- A transaction that was sent and dropped is reported by its own error when a record is submitted;
  -- a mint and a burn report it as a failed mint or burn, a contract error with the message of the
  -- other one as its reason.
  pub dropped_lem :
      (to : Text) (n : ℕ) (u v : Unit {0})
      → is_some c.ttt_contract ≡ true
      → is_valid is_address to ≡ true
      → chain.estimate ≡ settles (gives n)
      → chain.send (some (n * 120 / 100)) ≡ gives u
      → chain.send none ≡ gives v
      → chain.wait ≡ gives none
      → (submit_ttt_record chain c ≡ err submit_dropped)
        × (mint_ttt is_address to chain c ≡ err (mint_failed mint_dropped.message))
        × (burn_ttt chain c ≡ err (burn_failed (codes "Check TTT balance.") burn_dropped.message))
        × (submit_dropped.code ≡ network_tx_dropped)
        × ((mint_failed mint_dropped.message).code ≡ contract_mint_failed)
  unfolding mint_ttt submit_ttt_record burn_ttt send_estimated send_plain with_timeout gas_limit
      wrap_all wrap_others extract_revert_reason submit_dropped mint_failed ttt_error
  dropped_lem to n u v attached valid e1 e2 e3 e4 = (
    rw (attached, e1, e2, e4) refl,
    rw (attached, valid, e1, e2, e4) refl,
    rw (attached, e3, e4) refl,
    refl,
    refl,
  )
