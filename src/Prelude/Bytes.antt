-- ===== src/Prelude/Bytes.antt =====
-- Byte strings and texts as lists of numbers, and fixed-width numbers in them.
use Prim.Native.Char.{code}
use Prim.Native.Nat.{ℕ, zero, suc, ◌+◌, ◌-◌, ◌*◌, ◌/◌, ◌%◌, ◌^◌, ◌≤◌, ◌<◌}
use Prim.Native.String.{String}
use mathlib.Core.Path.{◌≡◌, refl, ap, sym, ◌∙◌}
use mathlib.Core.Logic.{◌↔◌, ◌≢◌}
use mathlib.Core.Bool.{Bool, true, false, ◌&&◌}
use mathlib.Core.List.{List, [], ◌∷◌, ◌++◌, reverse, reverse-reverse}
use native.Mathlib.Nat.{pow-suc}
use native.Mathlib.Omega.{arith}
use open_ttt.Prelude.Tests.{◌==◌, ltb, if◌then◌else◌}
use open_ttt.Prelude.Lists.{
  length, take, drop, All, All-reverse, All-take, All-drop, length-take, length-drop, drop-drop,
  take-append-drop, length-reverse,
}

-- The code units of a JavaScript string, or the bytes of a Buffer.
abbrev pub Text : Type 0
Text = List ℕ

abbrev pub codes : String → Text
codes (String.◌∷◌ c s) = code c ∷ codes s
codes String.[] = []

abbrev pub text_eq : Text → Text → Bool
text_eq (a ∷ s) (b ∷ t) = a == b && text_eq s t
text_eq [] [] = true
text_eq _ _ = false

pub text_eq→eq : (s t : Text) → text_eq s t ≡ true → s ≡ t
text_eq→eq [] [] h = refl
text_eq→eq [] (b ∷ t) h = absurd (ground arith)
text_eq→eq (a ∷ s) [] h = absurd (ground arith)
text_eq→eq (a ∷ s) (b ∷ t) h = ground (arith, text_eq→eq s t)

pub text_eq_refl : (s : Text) → text_eq s s ≡ true
text_eq_refl [] = refl
text_eq_refl (a ∷ s) = ground (arith, text_eq_refl s)

pub text_eq_iff : (s t : Text) → (text_eq s t ≡ true) ↔ (s ≡ t)
text_eq_iff s t = (text_eq→eq s t, λ e. ap (text_eq s) (sym e) ∙ text_eq_refl s)

pub text_eq-false : (s t : Text) → s ≢ t → text_eq s t ≡ false
text_eq-false s t h = ground (arith, text_eq_iff s t)

-- `buf.subarray(from, to)`, which stops at the end of the buffer.
abbrev pub subarray : ℕ → ℕ → Text → Text
subarray from to buf = take (to - from) (drop from buf)

abbrev pub IsByte : ℕ → Type 0
IsByte b = b < 256

abbrev pub are_bytes : Text → Bool
are_bytes [] = true
are_bytes (b ∷ bs) = ltb b 256 && are_bytes bs

pub are_bytes-All : (bs : Text) → are_bytes bs ≡ true → All IsByte bs
are_bytes-All [] h = tt
are_bytes-All (b ∷ bs) h = ground (arith, are_bytes-All bs)

-- The bytes of a number, the lowest first; the number's excess is cut off.
unfoldable pub le_bytes : ℕ → ℕ → Text
le_bytes zero n = []
le_bytes (suc w) n = (n % 256) ∷ le_bytes w (n / 256)

unfoldable pub of_le : Text → ℕ
of_le [] = 0
of_le (b ∷ bs) = b + 256 * of_le bs

unfoldable pub be_bytes : ℕ → ℕ → Text
unfolding le_bytes
be_bytes w n = reverse (le_bytes w n)

unfoldable pub of_be : Text → ℕ
unfolding of_le
of_be bs = of_le (reverse bs)

pub length-le_bytes : (w n : ℕ) → length (le_bytes w n) ≡ w
unfolding le_bytes
length-le_bytes zero n = refl
length-le_bytes (suc w) n = ap suc (length-le_bytes w (n / 256))

pub length-be_bytes : (w n : ℕ) → length (be_bytes w n) ≡ w
unfolding be_bytes
length-be_bytes w n = length-reverse (le_bytes w n) ∙ length-le_bytes w n

pub of_le-le_bytes : (w n : ℕ) → n < 256 ^ w → of_le (le_bytes w n) ≡ n
unfolding of_le le_bytes
of_le-le_bytes zero n h = omega arith
of_le-le_bytes (suc w) n h =
    omega (arith, of_le-le_bytes w (n / 256) (omega (arith, pow-suc 256 w)))

pub of_be-be_bytes : (w n : ℕ) → n < 256 ^ w → of_be (be_bytes w n) ≡ n
unfolding of_be be_bytes
of_be-be_bytes w n h = ap of_le (reverse-reverse (le_bytes w n)) ∙ of_le-le_bytes w n h

div_step : (b n : ℕ) → b < 256 → (b + 256 * n) / 256 ≡ n
div_step b n h = omega arith

mod_step : (b n : ℕ) → b < 256 → (b + 256 * n) % 256 ≡ b
mod_step b n h = omega arith

pub le_bytes-of_le :
    (bs : Text) {w : ℕ} → All IsByte bs → length bs ≡ w → le_bytes w (of_le bs) ≡ bs
unfolding of_le le_bytes
le_bytes-of_le [] {w = zero} h e = refl
le_bytes-of_le [] {w = suc w} h e = absurd (omega arith)
le_bytes-of_le (b ∷ bs) {w = zero} h e = absurd (omega arith)
le_bytes-of_le (b ∷ bs) {w = suc w} (p, h) e =
    ground (arith, le_bytes-of_le bs {w = w} h, div_step b (of_le bs) p, mod_step b (of_le bs) p)

pub be_bytes-of_be :
    (bs : Text) {w : ℕ} → All IsByte bs → length bs ≡ w → be_bytes w (of_be bs) ≡ bs
unfolding be_bytes of_be
be_bytes-of_be bs h e =
    ap reverse (le_bytes-of_le (reverse bs) (All-reverse IsByte bs h) (length-reverse bs ∙ e))
    ∙ reverse-reverse bs

-- A buffer from `a` on is its part up to `b` and the rest.
pub subarray-append-drop :
    (a b : ℕ) (buf : Text) → a ≤ b → subarray a b buf ++ drop b buf ≡ drop a buf
subarray-append-drop a b buf h =
    ap (λ r. subarray a b buf ++ r)
      (ap (λ n. drop n buf) (omega arith) ∙ sym (drop-drop (b - a) a buf))
    ∙ take-append-drop (b - a) (drop a buf)

pub length-subarray :
    (a b : ℕ) (buf : Text) → a ≤ b → b ≤ length buf → length (subarray a b buf) ≡ b - a
length-subarray a b buf h k = omega (arith, length-take (b - a) (drop a buf), length-drop a buf)

pub All-subarray : (P : ℕ → Type 0) (a b : ℕ) (buf : Text) → All P buf → All P (subarray a b buf)
All-subarray P a b buf h = All-take P (b - a) (drop a buf) (All-drop P a buf h)

pub of_be-single : (b : ℕ) → of_be (b ∷ []) ≡ b
unfolding of_be
of_be-single b = omega arith

single : (s : Text) → length s ≡ 1 → s ≡ of_be s ∷ []
single [] h = absurd (omega arith)
single (b ∷ []) h = rw (of_be-single b)
single (b ∷ c ∷ s) h = absurd (omega arith)

single-IsByte : (s : Text) → length s ≡ 1 → All IsByte s → of_be s < 256
single-IsByte [] h k = absurd (omega arith)
single-IsByte (b ∷ []) h k = omega (arith, of_be-single b)
single-IsByte (b ∷ c ∷ s) h k = absurd (omega arith)

-- Reading one byte and going on behind it.
pub drop-eq-byte-cons :
    (i : ℕ) (buf : Text)
    → i + 1 ≤ length buf
    → drop i buf ≡ of_be (subarray i (i + 1) buf) ∷ drop (i + 1) buf
drop-eq-byte-cons i buf h =
    sym (subarray-append-drop i (i + 1) buf (omega arith))
    ∙ ap (λ l. l ++ drop (i + 1) buf)
        (single (subarray i (i + 1) buf)
          (length-subarray i (i + 1) buf (omega arith) h ∙ omega arith))

pub of_be-byte-lt :
    (i : ℕ) (buf : Text)
    → i + 1 ≤ length buf
    → All IsByte buf
    → of_be (subarray i (i + 1) buf) < 256
of_be-byte-lt i buf h k =
    single-IsByte (subarray i (i + 1) buf)
      (length-subarray i (i + 1) buf (omega arith) h ∙ omega arith)
      (All-subarray IsByte i (i + 1) buf k)

-- A field read as a number is that field.
pub be_bytes-subarray :
    (w a b : ℕ) (buf : Text)
    → a ≤ b
    → b ≤ length buf
    → b - a ≡ w
    → All IsByte buf
    → be_bytes w (of_be (subarray a b buf)) ≡ subarray a b buf
be_bytes-subarray w a b buf h k e all =
    be_bytes-of_be (subarray a b buf) (All-subarray IsByte a b buf all)
      (length-subarray a b buf h k ∙ e)

-- `buf.toString("hex")`: two lower-case digits for each byte.
abbrev hex_digit : ℕ → ℕ
hex_digit d = if ltb d 10 then b'0' + d else b'a' + d - 10

unfoldable pub to_hex : Text → Text
to_hex [] = []
to_hex (b ∷ bs) = hex_digit (b / 16 % 16) ∷ hex_digit (b % 16) ∷ to_hex bs

hex_digit_injective : (d e : ℕ) → d < 16 → e < 16 → hex_digit d ≡ hex_digit e → d ≡ e
hex_digit_injective d e h k p = ground arith

-- Different nonces have different keys in a cache.
pub to_hex_injective : (s t : Text) → All IsByte s → All IsByte t → to_hex s ≡ to_hex t → s ≡ t
unfolding to_hex
to_hex_injective [] [] h k p = refl
to_hex_injective [] (c ∷ t) h k p = cc
to_hex_injective (b ∷ s) [] h k p = cc
to_hex_injective (b ∷ s) (c ∷ t) (hb, h) (kc, k) p = ground (
  arith,
  hex_digit_injective (b / 16 % 16) (c / 16 % 16),
  hex_digit_injective (b % 16) (c % 16),
  to_hex_injective s t h k,
)
