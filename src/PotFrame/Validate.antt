-- ===== src/PotFrame/Validate.antt =====
-- The structural check of a frame and the signed part of a record (src/pot_frame.ts).
use native.Mathlib.Decide.{ℕ_discrete}
use open_ttt.Prelude.{
  ◌≤◌, ◌≡◌, ◌≢◌, refl, sym, ap, ◌∙◌, ◌↔◌, ◌++◌, Text, length, take, drop, arith, take-append-drop,
  take_self, length-take, length-drop,
}
use open_ttt.PotFrame.{
  ok, check_fields, PotFrame, pot_record_without_sig, validate_pot_frame_structure,
}
use open_ttt.PotFrame.Laws.{fields_of, decode_lem}

-- The fields that a frame of the right size decodes to.
abbrev pub frame_fields : Text → PotFrame
frame_fields frame = fields_of (take 32 frame) (take 143 (drop 32 frame))

-- What the structural check demands, stated on the frame's own bytes.
pub record IsWellFormed (frame : Text) : Type 0 where
  pub size : length frame ≡ 175
  pub version_one : (frame_fields frame).version ≡ 1
  pub tier_known : (frame_fields frame).tier ≤ 3
  pub reserved_zero : (frame_fields frame).reserved ≡ 0

check_fields_iff :
    (f : PotFrame) → (check_fields f ≡ ok tt) ↔ ((f.version ≡ 1) × (f.tier ≤ 3) × (f.reserved ≡ 0))
unfolding check_fields
check_fields_iff f = ground arith

validate_sized :
    (frame : Text)
    → length frame ≡ 175
    → validate_pot_frame_structure frame ≡ check_fields (frame_fields frame)
unfolding validate_pot_frame_structure
validate_sized frame h = rw (h, decode_lem frame h)

validate_unsized : (frame : Text) → length frame ≢ 175 → validate_pot_frame_structure frame ≢ ok tt
unfolding validate_pot_frame_structure
validate_unsized frame h = ground arith

-- The structural check passes exactly for a frame of 175 bytes with version 1, a tier of at most 3
-- and a zero reserved byte.
pub validate_iff :
    (frame : Text) → (validate_pot_frame_structure frame ≡ ok tt) ↔ IsWellFormed frame
validate_iff frame = elim (ℕ_discrete (length frame) 175) [
  | yes p ↦ (
    λ h.
        let (v, t, r) =
          (check_fields_iff (frame_fields frame)).0 (sym (validate_sized frame p) ∙ h) in
        record { size = p; version_one = v; tier_known = t; reserved_zero = r },
    λ w.
        validate_sized frame p
        ∙ (check_fields_iff (frame_fields frame)).1 (w.version_one, w.tier_known, w.reserved_zero),
  )
  | no p ↦ (λ h. absurd (validate_unsized frame p h), λ w. absurd (p w.size))
]

pub without_sig_lem : (pr : Text) → length pr ≡ 143 → pot_record_without_sig pr ≡ ok (take 79 pr)
unfolding pot_record_without_sig
without_sig_lem pr h = rw h refl

-- The signed part of a record is its first 79 bytes, and with the signature it makes up the record.
pub without_sig-append-sig :
    (bk pr : Text)
    → length pr ≡ 143
    → (s : Text) × (pot_record_without_sig pr ≡ ok s)
      × (length s ≡ 79)
      × (s ++ (fields_of bk pr).ed25519_sig ≡ pr)
without_sig-append-sig bk pr h = (
  take 79 pr,
  without_sig_lem pr h,
  omega (arith, length-take 79 pr),
  ap (λ r. take 79 pr ++ r) (take_self 64 (drop 79 pr) (omega (arith, length-drop 79 pr)))
      ∙ take-append-drop 79 pr,
)
