-- ===== src/Roughtime/Response.antt =====
-- The validity check of a Roughtime response (src/roughtime_source.ts), in the order of the source.
-- SHA-512, `crypto.createPublicKey` and `crypto.verify` are parameters.
use open_ttt.Prelude.{
  ℕ, ◌+◌, Bool, false, not, ◌||◌, Option, none, some, ◌++◌, [], ◌∷◌, Text, length, codes, subarray,
  of_le, text_eq, ltb, ◌==◌, if◌then◌else◌,
}
use open_ttt.Roughtime.Wire.{TagMap, get_tag, parse_message}
use open_ttt.Roughtime.Request.{tag_u32, tag_key, rt_hash}
use open_ttt.Roughtime.Merkle.{merkle_root}

pub data Failure : Type 0 where
  too_short bad_message nonce_mismatch missing_type wrong_type missing_fields : Failure
  bad_cert missing_cert_fields bad_dele missing_dele_fields bad_server_key cert_sig_invalid :
      Failure
  bad_delegated_key srep_sig_invalid bad_srep missing_srep_fields outside_window : Failure
  index_bits root_mismatch : Failure
  -- The `RangeError` of a read beyond the end of a buffer, which no `fail` wraps.
  range_error : Failure

pub data Res {ℓ} (X : Type ℓ) : Type ℓ where
  fail : Failure → Res X
  ok : X → Res X

-- `fail` throws, so that nothing behind it runs.
infixl 5 ◌>>=◌
abbrev pub ◌>>=◌ {κ μ} : {X : Type κ} {Y : Type μ} → Res X → (X → Res Y) → Res Y
fail reason >>= next = fail reason
ok x >>= next = next x

infixl 5 ◌>>◌
abbrev pub ◌>>◌ {κ} : {Y : Type κ} → Res (Unit {0}) → Res Y → Res Y
check >> next = check >>= (λ passed. next)

abbrev pub guard : Bool → Failure → Res (Unit {0})
guard passed reason = if passed then ok tt else fail reason

abbrev pub or_fail {κ} : {X : Type κ} → Option X → Failure → Res X
or_fail (some x) reason = ok x
or_fail none reason = fail reason

-- The part of a buffer that a read of `n` bytes at 0 takes.
unfoldable pub read_le : ℕ → Text → Res ℕ
read_le n buf = if ltb (length buf) n then fail range_error else ok (of_le (subarray 0 n buf))

abbrev pub field : Text → TagMap → Option Text
field name m = get_tag (tag_key (tag_u32 name)) m

pub record Top : Type 0 where
  pub sig : Text
  pub path : Text
  pub srep : Text
  pub cert : Text
  pub indx : ℕ

pub record Delegation : Type 0 where
  pub cert_sig : Text
  pub dele : Text
  pub pubk : Text
  pub mint : ℕ
  pub maxt : ℕ

pub record Report : Type 0 where
  pub radi : ℕ
  pub midp : ℕ
  pub root : Text

pub record ValidatedResponse : Type 0 where
  pub midp_seconds : ℕ
  pub radi_seconds : ℕ

-- The message in the packet, with the nonce and the type of the response checked.
unfoldable pub open_packet : Text → Text → Res TagMap
unfolding read_le
open_packet packet nonce = do
  guard (not (ltb (length packet) 12)) too_short
  let msg_len = of_le (subarray 8 12 packet)
  top ← or_fail (parse_message (subarray 12 (12 + msg_len) packet)) bad_message
  nonc ← or_fail (field (codes "NONC") top) nonce_mismatch
  guard (text_eq nonc nonce) nonce_mismatch
  type_buf ← or_fail (field (codes "TYPE") top) missing_type
  type_v ← read_le 4 type_buf
  guard (type_v == 1) wrong_type
  ok top

unfoldable pub read_top : TagMap → Res Top
unfolding read_le
read_top top = do
  sig ← or_fail (field (codes "SIG") top) missing_fields
  path ← or_fail (field (codes "PATH") top) missing_fields
  srep ← or_fail (field (codes "SREP") top) missing_fields
  cert ← or_fail (field (codes "CERT") top) missing_fields
  indx_buf ← or_fail (field (codes "INDX") top) missing_fields
  indx ← read_le 4 indx_buf
  ok (record { sig = sig; path = path; srep = srep; cert = cert; indx = indx })

unfoldable pub read_delegation : Text → Res Delegation
unfolding read_le
read_delegation cert = do
  cert_msg ← or_fail (parse_message cert) bad_cert
  cert_sig ← or_fail (field (codes "SIG") cert_msg) missing_cert_fields
  dele ← or_fail (field (codes "DELE") cert_msg) missing_cert_fields
  dele_msg ← or_fail (parse_message dele) bad_dele
  pubk ← or_fail (field (codes "PUBK") dele_msg) missing_dele_fields
  mint_buf ← or_fail (field (codes "MINT") dele_msg) missing_dele_fields
  maxt_buf ← or_fail (field (codes "MAXT") dele_msg) missing_dele_fields
  mint ← read_le 8 mint_buf
  maxt ← read_le 8 maxt_buf
  ok (record { cert_sig = cert_sig; dele = dele; pubk = pubk; mint = mint; maxt = maxt })

unfoldable pub read_report : Text → Res Report
unfolding read_le
read_report srep = do
  srep_msg ← or_fail (parse_message srep) bad_srep
  radi_buf ← or_fail (field (codes "RADI") srep_msg) missing_srep_fields
  midp_buf ← or_fail (field (codes "MIDP") srep_msg) missing_srep_fields
  root ← or_fail (field (codes "ROOT") srep_msg) missing_srep_fields
  radi ← read_le 4 radi_buf
  midp ← read_le 8 midp_buf
  ok (record { radi = radi; midp = midp; root = root })

abbrev pub dele_context : Text
dele_context = codes "RoughTime v1 delegation signature" ++ 0 ∷ []

abbrev pub srep_context : Text
srep_context = codes "RoughTime v1 response signature" ++ 0 ∷ []

module _ {Key : Type 0} (sha512 : Text → Text) (create_public_key : Text → Option Key)
    (crypto_verify : Text → Key → Text → Option Bool) where
  -- The DER header of a raw key is fixed, so that the parameter takes the raw key.
  unfoldable pub rebuild_ed25519_public_key : Text → Option Key
  rebuild_ed25519_public_key raw = if not (length raw == 32) then none else create_public_key raw

  abbrev holds : Option Bool → Bool
  holds none = false
  holds (some b) = b

  unfoldable pub check_signature : Failure → Failure → Text → Text → Text → Res (Unit {0})
  unfolding rebuild_ed25519_public_key
  check_signature bad_key invalid raw_key signed signature = do
    key ← or_fail (rebuild_ed25519_public_key raw_key) bad_key
    guard (holds (crypto_verify signed key signature)) invalid

  -- The validity window of the delegated key and the Merkle walk.
  unfoldable pub check_report : Text → Top → Delegation → Report → Res ValidatedResponse
  check_report request top d r = do
    guard (not (ltb r.midp d.mint || ltb d.maxt r.midp)) outside_window
    let (cur, idx) = merkle_root (rt_hash sha512) request top.indx top.path
    guard (idx == 0) index_bits
    guard (text_eq cur r.root) root_mismatch
    ok (record { midp_seconds = r.midp; radi_seconds = r.radi })

  unfoldable pub validate_roughtime_response : Text → Text → Text → Text → Res ValidatedResponse
  unfolding check_report check_signature
  validate_roughtime_response request packet server_key nonce = do
    fields ← open_packet packet nonce
    top ← read_top fields
    d ← read_delegation top.cert
    check_signature bad_server_key cert_sig_invalid server_key (dele_context ++ d.dele) d.cert_sig
    check_signature bad_delegated_key srep_sig_invalid d.pubk (srep_context ++ top.srep) top.sig
    r ← read_report top.srep
    check_report request top d r
