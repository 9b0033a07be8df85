-- ===== src/PotFrame.antt =====
-- The PoT frame codec (src/pot_frame.ts). Buffers are lists of bytes; a thrown error is a value.
pub mod Laws
pub mod Validate
mod Tests
use open_ttt.Prelude.{
  ℕ, ◌+◌, ◌/◌, ◌%◌, ◌≡◌, Bool, not, ◌++◌, Text, length, subarray, of_be, ltb, leb, ◌==◌,
  if◌then◌else◌,
}

pub data FrameError : Type 0 where
  binding_key_size : ℕ → FrameError
  pot_record_size : ℕ → FrameError
  frame_size : ℕ → FrameError
  unknown_version : ℕ → FrameError
  invalid_tier : ℕ → FrameError
  reserved_not_zero : ℕ → FrameError
  -- The `RangeError` of a Buffer read past the end.
  out_of_range : FrameError

pub data Result {ℓ} (X : Type ℓ) : Type ℓ where
  err : FrameError → Result X
  ok : X → Result X

infixl 5 ◌>>◌
abbrev pub ◌>>◌ {κ} : {Y : Type κ} → Result (Unit {0}) → Result Y → Result Y
err e >> next = err e
ok _ >> next = next

infixl 5 ◌>>=◌
abbrev pub ◌>>=◌ {κ μ} : {X : Type κ} {Y : Type μ} → Result X → (X → Result Y) → Result Y
err e >>= next = err e
ok x >>= next = next x

-- `if (!test) throw error`.
abbrev pub require : Bool → FrameError → Result (Unit {0})
require b e = if b then ok tt else err e

abbrev pub pot_record_size_bytes : ℕ
pot_record_size_bytes = 143

abbrev pub pot_without_sig_size : ℕ
pot_without_sig_size = 79

abbrev pub binding_key_size_bytes : ℕ
binding_key_size_bytes = 32

abbrev pub pot_frame_size : ℕ
pot_frame_size = 175

pub record PotFrame : Type 0 where
  pub binding_key : Text
  pub pot_record : Text
  pub version : ℕ
  pub tier : ℕ
  pub reserved : ℕ
  pub timestamp : ℕ
  pub confidence : ℕ
  pub nonce : Text
  pub grg_commit : Text
  pub ed25519_sig : Text

-- `buf.readUInt8(off)`, `readUInt32BE`, `readBigUInt64BE`: a big-endian number of `w` bytes.
abbrev pub read_be : ℕ → Text → ℕ → Result ℕ
read_be w buf off =
    if leb (off + w) (length buf) then ok (of_be (subarray off (off + w) buf)) else err out_of_range

unfoldable pub encode_pot_frame : Text → Text → Result Text
encode_pot_frame binding_key pot_record = do
  require (length binding_key == binding_key_size_bytes) (binding_key_size (length binding_key))
  require (length pot_record == pot_record_size_bytes) (pot_record_size (length pot_record))
  ok (binding_key ++ pot_record)

-- The fields of a record that begins at byte 0 of `pot_record`, read in the source's order.
pub parse_record : Text → Text → Result PotFrame
parse_record binding_key pot_record = do
  version_tier ← read_be 1 pot_record 0
  _ ← read_be 1 pot_record 1
  reserved ← read_be 1 pot_record 2
  timestamp ← read_be 8 pot_record 3
  confidence ← read_be 4 pot_record 11
  ok (record {
    binding_key = binding_key;
    pot_record = pot_record;
    version = version_tier / 16 % 16;
    tier = version_tier % 16;
    reserved = reserved;
    timestamp = timestamp;
    confidence = confidence;
    nonce = subarray 15 47 pot_record;
    grg_commit = subarray 47 79 pot_record;
    ed25519_sig = subarray 79 143 pot_record;
  })

unfoldable pub decode_pot_frame : Text → Result PotFrame
unfolding parse_record
decode_pot_frame frame = do
  require (length frame == pot_frame_size) (frame_size (length frame))
  parse_record (subarray 0 32 frame) (subarray 32 pot_frame_size frame)

unfoldable pub pot_record_without_sig : Text → Result Text
pot_record_without_sig pot_record = do
  require (length pot_record == pot_record_size_bytes) (pot_record_size (length pot_record))
  ok (subarray 0 pot_without_sig_size pot_record)

-- The three field checks of `validatePotFrameStructure`.
unfoldable pub check_fields : PotFrame → Result (Unit {0})
check_fields parsed = do
  require (parsed.version == 1) (unknown_version parsed.version)
  require (not (ltb 3 parsed.tier)) (invalid_tier parsed.tier)
  require (parsed.reserved == 0) (reserved_not_zero parsed.reserved)

unfoldable pub validate_pot_frame_structure : Text → Result (Unit {0})
validate_pot_frame_structure frame = do
  require (length frame == pot_frame_size) (frame_size (length frame))
  parsed ← decode_pot_frame frame
  check_fields parsed
