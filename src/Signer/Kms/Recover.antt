-- ===== src/Signer/Kms/Recover.antt =====
-- What the signers on a key service sign (src/signer.ts): the signature recovers to their address.
use open_ttt.Prelude.{
  ℕ, ◌<◌, ◌≡◌, refl, ap, ◌⊎◌, inl, inr, true, false, Option, none, some, List, [], ◌∷◌, Text,
  length, drop, get_elem?, text_eq, text_eq_iff, to_hex, Bool-cases,
}
use open_ttt.Signer.{Result, ok, err, ◌>>=◌, came_from}
use open_ttt.Signer.Der.{parse_der_signature}
use open_ttt.Signer.Der.Encode.{key_body, subject_public_key_info, der_signature}
use open_ttt.Signer.Der.Key.{extract-subject_public_key_info}
use open_ttt.Signer.Der.Signature.{parse-der_signature}
use open_ttt.Signer.Kms.{
  Ethers, Service, KmsSigner, known, answered, new_kms_signer, address_of_key, fetched, cached_or,
  get_address, try_recovery, with_parts, sign_digest,
}

answered-ok {ℓ} : {X : Type ℓ} (o : Option X) {x : X} → answered o ≡ ok x → o ≡ some x
answered-ok none e = cc
answered-ok (some x) e = cc

module _ (ethers : Ethers) (digest : Text) where
  -- A signature that recovers to the address, written out.
  abbrev pub IsSignedBy : Text → Text → Type 0
  IsSignedBy addr out =
      (sig : ethers.Sig) × (from : Text) × (ethers.recover_address digest sig ≡ some from)
      × (ethers.to_lower from ≡ ethers.to_lower addr)
      × (out ≡ ethers.serialized sig)

  try_recovery-IsSignedBy :
      (r s addr out : Text) (vs : List ℕ)
      → try_recovery ethers digest r s addr vs ≡ ok out
      → IsSignedBy addr out
  unfolding try_recovery
  try_recovery-IsSignedBy r s addr out [] e = cc
  try_recovery-IsSignedBy r s addr out (v ∷ vs) e =
      let (sig, _, e) = came_from (answered (ethers.signature_from r s v)) _ e in
      let (from, found, e) = came_from (answered (ethers.recover_address digest sig)) _ e in
      let lower = ethers.to_lower in
      elim (Bool-cases (text_eq (lower from) (lower addr))) [
        | inl same ↦
            let e' : ok (ethers.serialized sig) ≡ ok out = rw same at e in
            (
              sig,
              from,
              answered-ok (ethers.recover_address digest sig) found,
              (text_eq_iff (lower from) (lower addr)).0 same,
              cc,
            )
        | inr other ↦ try_recovery-IsSignedBy r s addr out vs (rw other at e)
      ]

  with_parts-IsSignedBy :
      (service : Service) (signer signer' : KmsSigner) (parts : Result (Text × Text)) (out : Text)
      → with_parts ethers service digest signer parts ≡ (signer', ok out)
      → (addr : Text) × (get_address ethers service signer ≡ (signer', ok addr))
        × IsSignedBy addr out
  with_parts-IsSignedBy service signer signer' (err e) out h = cc
  with_parts-IsSignedBy service signer signer' (ok (r, s)) out h =
      let (after, asked) = get_address ethers service signer in
      let (addr, found, h') =
        came_from asked (λ a. try_recovery ethers digest r s a (27 ∷ 28 ∷ [])) (ap (λ p. p.1) h) in
      (addr, cc, try_recovery-IsSignedBy r s addr out (27 ∷ 28 ∷ []) h')

  -- Whatever the service answers, a signature that comes out recovers, for the digest that was to be
  -- signed, to the address that the signer has from then on.
  pub sign_digest-IsSignedBy :
      (service : Service) (signer signer' : KmsSigner) (out : Text)
      → sign_digest ethers service digest signer ≡ (signer', ok out)
      → (addr : Text) × (get_address ethers service signer ≡ (signer', ok addr))
        × IsSignedBy addr out
  unfolding sign_digest
  sign_digest-IsSignedBy service signer signer' out h =
      with_parts-IsSignedBy service signer signer'
        (answered (service.sign (ethers.from_hex (drop 2 digest))) >>= parse_der_signature) out h

abbrev pub word : Text → Text
word bs = b'0' ∷ b'x' ∷ to_hex bs

module _ (ethers : Ethers) (service : Service) (digest algorithm key r s addr : Text) where
  -- What a service with an ECDSA key and ethers do: the key and the signature of the message come in
  -- DER, the address is that of the key, and one of the two recovery parameters gives it back.
  pub record IsKeyService (sig27 sig28 : ethers.Sig) (from27 from28 : Text) : Type 0 where
    pub key_size : length key ≡ 65
    pub key_head : get_elem? key 0 ≡ some 4
    pub key_small : length (key_body algorithm key) < 65536
    pub has_key : service.public_key ≡ some (subject_public_key_info algorithm key)
    pub r_size : length r ≡ 32
    pub s_size : length s ≡ 32
    pub signs : service.sign (ethers.from_hex (drop 2 digest)) ≡ some (der_signature r s)
    pub address_lem : ethers.compute_address (word key) ≡ some addr
    pub sig_27 : ethers.signature_from (word r) (word s) 27 ≡ some sig27
    pub sig_28 : ethers.signature_from (word r) (word s) 28 ≡ some sig28
    pub from_27 : ethers.recover_address digest sig27 ≡ some from27
    pub from_28 : ethers.recover_address digest sig28 ≡ some from28
    pub recovers :
        (ethers.to_lower from27 ≡ ethers.to_lower addr)
        ⊎ (ethers.to_lower from28 ≡ ethers.to_lower addr)

  address_found :
      (sig27 sig28 : ethers.Sig) (from27 from28 : Text)
      → IsKeyService sig27 sig28 from27 from28
      → get_address ethers service new_kms_signer ≡ (record { address = some addr }, ok addr)
  unfolding get_address new_kms_signer address_of_key
  address_found sig27 sig28 from27 from28 h = rw (h.has_key) (
      rw (extract-subject_public_key_info algorithm key h.key_size h.key_head h.key_small)
        (rw (h.address_lem) refl))

  tried :
      (sig27 sig28 : ethers.Sig) (from27 from28 : Text)
      → IsKeyService sig27 sig28 from27 from28
      → (out : Text) × (try_recovery ethers digest (word r) (word s) addr (27 ∷ 28 ∷ []) ≡ ok out)
  unfolding try_recovery
  tried sig27 sig28 from27 from28 h = elim (Bool-cases (text_eq (lower from27) (lower addr))) [
    | inl same ↦ (
      ethers.serialized sig27,
      rw (h.sig_27) (rw (h.from_27) (rw (h.sig_28) (rw (h.from_28) (rw same refl)))),
    )
    | inr other ↦ (
      ethers.serialized sig28,
      rw (h.sig_27)
          (rw (h.from_27) (rw (h.sig_28) (rw (h.from_28) (rw other (rw (second other) refl))))),
    )
  ]
    where
      lower : Text → Text
      lower = ethers.to_lower

      second :
          text_eq (lower from27) (lower addr) ≡ false → text_eq (lower from28) (lower addr) ≡ true
      second other = elim h.recovers [
        | inl e ↦ absurd (cc ((text_eq_iff (lower from27) (lower addr)).1 e))
        | inr e ↦ (text_eq_iff (lower from28) (lower addr)).1 e
      ]

  -- With a key service that does what it promises, a new signer signs: its address is that of the
  -- service's key, and the signature recovers to it.
  pub sign_digest_succeeds :
      (sig27 sig28 : ethers.Sig) (from27 from28 : Text)
      → IsKeyService sig27 sig28 from27 from28
      → (out : Text) × (sign_digest ethers service digest new_kms_signer
          ≡ (record { address = some addr }, ok out))
        × IsSignedBy ethers digest addr out
  unfolding sign_digest
  sign_digest_succeeds sig27 sig28 from27 from28 h =
      let (out, found) = tried sig27 sig28 from27 from28 h in
      let signed : sign_digest ethers service digest new_kms_signer
          ≡ (record { address = some addr }, ok out) =
        rw (h.signs) (
          rw (parse-der_signature r s h.r_size h.s_size)
            (rw (address_found sig27 sig28 from27 from28 h) (rw found refl))) in
      (
        out,
        signed,
        try_recovery-IsSignedBy ethers digest (word r) (word s) addr out (27 ∷ 28 ∷ []) found,
      )

known-eq-some : (o : Option Text) (a : Text) → known o ≡ some a → o ≡ some a
known-eq-some none a e = cc
known-eq-some (some []) a e = cc
known-eq-some (some (c ∷ cs)) a e = e

stored :
    (signer signer' : KmsSigner) (m : Result Text) (c : ℕ) (addr : Text)
    → fetched signer m ≡ (signer', ok (c ∷ addr))
    → signer'.address ≡ some (c ∷ addr)
stored signer signer' (err e) c addr h = cc
stored signer signer' (ok a) c addr h = cc

module _ (ethers : Ethers) where
  has_address :
      (service : Service) (signer signer' : KmsSigner) (o : Option Text) (c : ℕ) (addr : Text)
      → known signer.address ≡ o
      → cached_or ethers service signer o ≡ (signer', ok (c ∷ addr))
      → signer'.address ≡ some (c ∷ addr)
  has_address service signer signer' (some a) c addr e h =
      known-eq-some signer'.address (c ∷ addr) (cc)
  has_address service signer signer' none c addr e h =
      stored signer signer' (answered service.public_key >>= address_of_key ethers) c addr h

  signer_kept :
      (service : Service) (digest : Text) (signer : KmsSigner) (c : ℕ) (addr : Text)
      → signer.address ≡ some (c ∷ addr)
      → (parts : Result (Text × Text)) → (with_parts ethers service digest signer parts).0 ≡ signer
  unfolding get_address
  signer_kept service digest signer c addr e (err x) = refl
  signer_kept service digest signer c addr e (ok (r, s)) = rw e refl

  -- Once the address is known, no service is asked for it again, and it never changes.
  pub get_address_again :
      (first second : Service) (digest : Text) (signer signer' : KmsSigner) (c : ℕ) (addr : Text)
      → get_address ethers first signer ≡ (signer', ok (c ∷ addr))
      → (get_address ethers second signer' ≡ (signer', ok (c ∷ addr)))
        × ((sign_digest ethers second digest signer').0 ≡ signer')
  unfolding get_address sign_digest
  get_address_again first second digest signer signer' c addr h =
      let stored = has_address first signer signer' (known signer.address) c addr refl h in
      (
        rw stored refl,
        signer_kept second digest signer' c addr stored
            (answered (second.sign (ethers.from_hex (drop 2 digest))) >>= parse_der_signature),
      )
