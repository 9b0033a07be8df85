-- ===== src/Signer/Factory/Fields.antt =====
-- Fields of a configuration that are given, and keys with 0x in front (src/signer.ts).
use mathlib.Core.Bool.{false≢true}
use open_ttt.Prelude.{
  ◌≡◌, ◌≢◌, refl, sym, ap, ◌∙◌, ◌↔◌, ◌⊎◌, inl, inr, true, Option, none, some, [], ◌∷◌, Text, arith,
  Bool-cases,
}
use open_ttt.Signer.Kms.{known}
use open_ttt.Signer.Factory.{or_default, has_prefix, with_prefix}

-- A field that is there and not empty, and one that is not.
abbrev pub IsGiven : Option Text → Text → Type 0
IsGiven o t = (o ≡ some t) × (t ≢ [])

abbrev pub IsMissing : Option Text → Type 0
IsMissing o = (o ≡ none) ⊎ (o ≡ some [])

-- A field, or what stands for it if it is missing.
abbrev pub IsGivenOr : Text → Option Text → Text → Type 0
IsGivenOr d o t = IsGiven o t ⊎ (IsMissing o × (t ≡ d))

-- The key with 0x in front: the key itself if it begins so, else with 0x added.
abbrev pub IsPrefixed : Text → Text → Type 0
IsPrefixed k full =
    ((rest : Text) × (k ≡ b'0' ∷ b'x' ∷ rest) × (full ≡ k))
    ⊎ (((rest : Text) → k ≢ b'0' ∷ b'x' ∷ rest) × (full ≡ b'0' ∷ b'x' ∷ k))

pub known_iff : (o : Option Text) (t : Text) → (known o ≡ some t) ↔ IsGiven o t
known_iff none t = (λ e. absurd (cc), λ (e, _). absurd (cc))
known_iff (some []) t = (λ e. absurd (cc), λ (e, some_text). absurd (some_text (cc)))
known_iff (some (c ∷ cs)) t = (λ e. (e, λ empty. cc), λ (e, _). e)

known-none_iff : (o : Option Text) → (known o ≡ none) ↔ IsMissing o
known-none_iff none = (λ e. inl refl, λ h. refl)
known-none_iff (some []) = (λ e. inr refl, λ h. refl)
known-none_iff (some (c ∷ cs)) = (λ e. absurd (cc), λ h. elim h [ inl e ↦ cc | inr e ↦ cc ])

pub or_default_iff :
    (d : Text) (o : Option Text) (t : Text) → (or_default (known o) d ≡ t) ↔ IsGivenOr d o t
or_default_iff d none t =
    (λ e. inr (inl refl, sym e), λ h. elim h [ inl (e, _) ↦ absurd (cc) | inr (_, e) ↦ sym e ])
or_default_iff d (some []) t = (
  λ e. inr (inr refl, sym e),
  λ h. elim h [ inl (e, some_text) ↦ absurd (some_text (cc)) | inr (_, e) ↦ sym e ],
)
or_default_iff d (some (c ∷ cs)) t = (
  λ e. inl (ap some e, λ empty. cc),
  λ h. elim h [
    | inl (e, _) ↦ cc
    | inr (missing, _) ↦ elim missing [ inl e ↦ absurd (cc) | inr e ↦ absurd (cc) ]
  ],
)

has_prefix_iff : (k : Text) → (has_prefix k ≡ true) ↔ ((rest : Text) × (k ≡ b'0' ∷ b'x' ∷ rest))
unfolding has_prefix
has_prefix_iff [] = (λ e. absurd (cc), λ (rest, e). absurd (cc))
has_prefix_iff (a ∷ []) = (λ e. absurd (cc), λ (rest, e). absurd (cc))
has_prefix_iff (a ∷ b ∷ k) = (
  λ e.
      let first : a ≡ b'0' = ground arith in
      let second : b ≡ b'x' = ground arith in (k, rw (first, second) refl),
  λ (rest, e). let first : a ≡ b'0' = cc in let second : b ≡ b'x' = cc in rw (first, second) refl,
)

pub with_prefix_iff : (k full : Text) → (with_prefix k ≡ full) ↔ IsPrefixed k full
unfolding with_prefix
with_prefix_iff k full =
    let (there, back) = has_prefix_iff k in
    elim (Bool-cases (has_prefix k)) [
      | inl begins ↦
          let (rest, same) = there begins in
          rw begins (
            λ e. inl (rest, same, sym e),
            λ h. elim h [ inl (_, _, e) ↦ sym e | inr (other, _) ↦ absurd (other rest same) ],
          )
      | inr lacks ↦
          let other : (rest : Text) → k ≢ b'0' ∷ b'x' ∷ rest =
            λ rest same. absurd (false≢true (sym lacks ∙ back (rest, same))) in
          rw lacks (
            λ e. inr (other, sym e),
            λ h. elim h [ inl (rest, same, _) ↦ absurd (other rest same) | inr (_, e) ↦ sym e ],
          )
    ]
