-- ===== src/PotFrame/Laws.antt =====
-- Encoding and decoding of PoT frames (src/pot_frame.ts): totality, fields and round trips.
use open_ttt.Prelude.{
  ℕ, ◌+◌, ◌*◌, ◌/◌, ◌%◌, ◌≤◌, ◌≡◌, refl, sym, ap, ◌∙◌, ◌↔◌, ◌∷◌, ◌++◌, Text, length, subarray, take,
  drop, of_be, be_bytes, IsByte, All, arith, take-append-drop, length-take, length-drop,
  take-append, drop-append, take_self, length-append, le→leb, ◌≢◌,
}
use mathlib.Core.Path.{ap₂}
use native.Mathlib.Decide.{ℕ_discrete}
use open_ttt.Prelude.{drop-eq-byte-cons, of_be-byte-lt, be_bytes-subarray, subarray-append-drop}
use open_ttt.PotFrame.{
  PotFrame, FrameError, ok, err, encode_pot_frame, decode_pot_frame, parse_record, ◌>>=◌, read_be,
  frame_size,
}

-- The frame that a record of 143 bytes decodes to, field by field.
abbrev pub fields_of : Text → Text → PotFrame
fields_of bk pr = record {
  binding_key = bk;
  pot_record = pr;
  version = of_be (subarray 0 1 pr) / 16 % 16;
  tier = of_be (subarray 0 1 pr) % 16;
  reserved = of_be (subarray 2 3 pr);
  timestamp = of_be (subarray 3 11 pr);
  confidence = of_be (subarray 11 15 pr);
  nonce = subarray 15 47 pr;
  grg_commit = subarray 47 79 pr;
  ed25519_sig = subarray 79 143 pr;
}

read_be_lem :
    (w : ℕ) (buf : Text) (off : ℕ)
    → off + w ≤ length buf
    → read_be w buf off ≡ ok (of_be (subarray off (off + w) buf))
read_be_lem w buf off h = ground (arith, le→leb (off + w) (length buf))

pub parse_record_lem : (bk pr : Text) → length pr ≡ 143 → parse_record bk pr ≡ ok (fields_of bk pr)
unfolding parse_record
parse_record_lem bk pr h = rw h refl

pub decode_lem :
    (frame : Text)
    → length frame ≡ 175
    → decode_pot_frame frame ≡ ok (fields_of (take 32 frame) (take 143 (drop 32 frame)))
unfolding decode_pot_frame
decode_lem frame h = rw h (
    parse_record_lem (take 32 frame) (take 143 (drop 32 frame))
      (omega (arith, length-take 143 (drop 32 frame), length-drop 32 frame)))

-- Decoding what was encoded from parts of the right sizes gives every field of the record.
pub decode-encode :
    (bk pr : Text)
    → length bk ≡ 32
    → length pr ≡ 143
    → (encode_pot_frame bk pr >>= decode_pot_frame) ≡ ok (fields_of bk pr)
unfolding encode_pot_frame
decode-encode bk pr h k =
    rw (h, k)
      (decode_lem (bk ++ pr) (omega (arith, length-append bk pr))
        ∙ ap₂ (λ b r. ok (fields_of b r)) (take-append bk pr h)
            (ap (take 143) (drop-append bk pr h) ∙ take_self 143 pr (omega arith)))

-- Encoding what was decoded gives the frame back.
pub encode-decode :
    (frame : Text)
    → length frame ≡ 175
    → (decode_pot_frame frame >>= λ f. encode_pot_frame f.binding_key f.pot_record) ≡ ok frame
unfolding encode_pot_frame
encode-decode frame h = rw (decode_lem frame h) (
    rw (length-take 32 frame, length-take 143 (drop 32 frame), length-drop 32 frame, h)
      (ap ok (
        ap (λ r. take 32 frame ++ r)
          (take_self 143 (drop 32 frame) (omega (arith, length-drop 32 frame)))
        ∙ take-append-drop 32 frame)))

decode_bad :
    (frame : Text) → length frame ≢ 175 → decode_pot_frame frame ≡ err (frame_size (length frame))
unfolding decode_pot_frame
decode_bad frame p = ground arith

-- A frame decodes exactly when it has 175 bytes; otherwise the error names its size.
pub decode-eq-err_iff :
    (frame : Text) (e : FrameError)
    → (decode_pot_frame frame ≡ err e) ↔ ((length frame ≢ 175) × (e ≡ frame_size (length frame)))
decode-eq-err_iff frame e = elim (ℕ_discrete (length frame) 175) [
  | yes p ↦ (λ q. absurd (cc (decode_lem frame p)), λ q. absurd (q.0 p))
  | no p ↦ (λ q. (p, cc (decode_bad frame p)), λ q. decode_bad frame p ∙ ap err (sym q.1))
]

long_fields :
    (pr : Text)
    → length pr ≡ 143
    → subarray 3 11 pr
        ++ (subarray 11 15 pr ++ (subarray 15 47 pr ++ (subarray 47 79 pr ++ subarray 79 143 pr)))
      ≡ drop 3 pr
long_fields pr h =
    rw
      (
        take_self 64 (drop 79 pr) (omega (arith, length-drop 79 pr)),
        subarray-append-drop 47 79 pr (omega arith),
        subarray-append-drop 15 47 pr (omega arith),
        subarray-append-drop 11 15 pr (omega arith),
      )
      (subarray-append-drop 3 11 pr (omega arith))

-- The bytes of a record are the decoded fields, in the order version and tier, source count,
-- reserved, timestamp, confidence, nonce, commitment, signature.
pub record_layout :
    (bk pr : Text)
    → length pr ≡ 143
    → All IsByte pr
    → let f = fields_of bk pr in
      pr
      ≡ (f.version * 16 + f.tier)
        ∷ of_be (subarray 1 2 pr)
        ∷ f.reserved
        ∷ (be_bytes 8 f.timestamp
            ++ (be_bytes 4 f.confidence ++ (f.nonce ++ (f.grg_commit ++ f.ed25519_sig))))
record_layout bk pr h k =
    rw
      (
        be_bytes-subarray 8 3 11 pr (omega arith) (omega arith) (omega arith) k,
        be_bytes-subarray 4 11 15 pr (omega arith) (omega arith) (omega arith) k,
      )
      (drop-eq-byte-cons 0 pr (omega arith)
        ∙ ap₂ (λ x l. x ∷ l) (omega (arith, of_be-byte-lt 0 pr (omega arith) k))
            (drop-eq-byte-cons 1 pr (omega arith)
              ∙ ap (λ l. of_be (subarray 1 2 pr) ∷ l)
                  (drop-eq-byte-cons 2 pr (omega arith)
                    ∙ ap (λ l. of_be (subarray 2 3 pr) ∷ l) (sym (long_fields pr h)))))
