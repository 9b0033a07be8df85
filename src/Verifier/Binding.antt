-- ===== src/Verifier/Binding.antt =====
-- The TLS exporter binding (src/tls_binding.ts). A session is its exporter, a parameter.
use open_ttt.Prelude.{
  ℕ, ◌≡◌, ◌↔◌, Bool, true, false, not, Option, none, some, Text, length, codes, take, text_eq, ◌==◌,
  if◌then◌else◌, to_hex, arith, text_eq_iff,
}

pub record Socket : Type 0 where
  pub encrypted : Bool
  -- `exportKeyingMaterial(length, label, context)`.
  pub export_keying_material : ℕ → Text → Text → Text
  -- `getSession?.()`.
  pub session : Option Text

pub record BindingKeyResult : Type 0 where
  pub binding_key : Text
  pub session_id : Text

abbrev pub exporter_label : Text
exporter_label = codes "EXPORTER-tttps-pot-binding"

abbrev pub binding_key_length : ℕ
binding_key_length = 32

abbrev pub session_name : Option Text → Text
session_name none = codes "unknown"
session_name (some s) = take 16 (to_hex s)

-- `none` is the thrown `TLSBindingError`.
unfoldable pub compute_binding_key : Socket → Text → Option BindingKeyResult
compute_binding_key socket pot_without_sig =
    if not socket.encrypted
    then none
    else some (record {
      binding_key = socket.export_keying_material binding_key_length exporter_label pot_without_sig;
      session_id = session_name socket.session;
    })

unfoldable pub timing_safe_equal : Text → Text → Bool
timing_safe_equal a b = if not (length a == length b) then false else text_eq a b

pub data Checked : Type 0 where
  matches differs not_tls : Checked

abbrev pub to_checked : Bool → Checked
to_checked true = matches
to_checked false = differs

unfoldable pub verify_binding_key : Socket → Text → Text → Checked
unfolding compute_binding_key timing_safe_equal
verify_binding_key socket pot_without_sig received =
    if not (length received == binding_key_length)
    then differs
    else elim (compute_binding_key socket pot_without_sig) [
      | none ↦ not_tls
      | some r ↦ to_checked (timing_safe_equal r.binding_key received)
    ]

-- The key that the session itself exports for these bytes.
abbrev pub exported_key : Socket → Text → Text
exported_key socket s = socket.export_keying_material binding_key_length exporter_label s

-- A received key passes exactly when the socket is a TLS one, the key has 32 bytes and it is the
-- session's own key for the record.
pub verify_binding_key-eq-matches_iff :
    (socket : Socket) (s received : Text)
    → (verify_binding_key socket s received ≡ matches)
      ↔ ((socket.encrypted ≡ true) × (length received ≡ 32) × (exported_key socket s ≡ received))
unfolding verify_binding_key
verify_binding_key-eq-matches_iff socket s received = (
  λ h. (
    ground (arith, text_eq_iff (exported_key socket s) received),
    ground (arith, text_eq_iff (exported_key socket s) received),
    ground (arith, text_eq_iff (exported_key socket s) received),
  ),
  λ h. ground (arith, text_eq_iff (exported_key socket s) received),
)
