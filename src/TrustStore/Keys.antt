-- ===== src/TrustStore/Keys.antt =====
-- Adding a source to the trust store, then looking at it (src/trust_store.ts).
use open_ttt.Prelude.{
  ℕ, Bool, true, false, ◌||◌, ltb, sym, ◌∙◌, Bool-cases, inl, inr, ◌≤◌, ◌≡◌, ◌≢◌, ◌↔◌, refl, Option,
  some, [], ◌∷◌, Text, arith, text_eq, if◌then◌else◌, lookup, insert, lookup-insert,
}
use open_ttt.TrustStore.{TrustedSource, TrustStore, is_empty, add_source}

-- A source that can be added: it has a name, an endpoint and a stratum from 1 to 15.
pub record IsAddable (s : TrustedSource) : Type 0 where
  pub named : s.name ≢ []
  pub located : s.endpoint ≢ []
  pub lowest : 1 ≤ s.stratum
  pub highest : s.stratum ≤ 15

-- The source as it is kept, with the time of its addition.
abbrev pub stamped : ℕ → TrustedSource → TrustedSource
stamped now_ms s = record s { added_at = now_ms }

abbrev is_rejected : Text → Text → ℕ → Bool
is_rejected name endpoint stratum =
    is_empty name || is_empty endpoint || ltb stratum 1 || ltb 15 stratum

rejected_iff :
    (name endpoint : Text) (stratum : ℕ)
    → (is_rejected name endpoint stratum ≡ false)
      ↔ ((name ≢ []) × (endpoint ≢ []) × (1 ≤ stratum) × (stratum ≤ 15))
rejected_iff [] endpoint stratum = (λ e. absurd (cc), λ (a, _, _, _). absurd (a refl))
rejected_iff (c ∷ name) [] stratum = (λ e. absurd (cc), λ (_, b, _, _). absurd (b refl))
rejected_iff (c ∷ name) (d ∷ endpoint) stratum =
    (λ e. (λ q. cc, λ q. cc, ground arith, ground arith), λ (_, _, low, high). ground arith)

none_absurd : (t : TrustStore) → Option.none ≡ some t → ⊥
none_absurd t e = cc

true_absurd : true ≡ false → ⊥
true_absurd e = cc

-- A source is added exactly if it has a name, an endpoint and a stratum from 1 to 15. Then the store
-- holds it under its name with the time of the addition, and every other source as before.
pub add_source_iff :
    (s : TrustedSource) (now_ms : ℕ) (t : TrustStore)
    → ((t' : TrustStore) × (add_source s now_ms t ≡ some t')
        × ((name : Text)
            → lookup name t'.sources
              ≡ (if text_eq s.name name then some (stamped now_ms s) else lookup name t.sources)))
      ↔ IsAddable s
unfolding add_source
add_source_iff s now_ms t = elim (Bool-cases (is_rejected s.name s.endpoint s.stratum)) [
  | inl bad ↦ (
    λ (t', e, _). absurd (none_absurd t' (rw bad at e)),
    λ q. absurd (
        true_absurd (
          sym bad
          ∙ (rejected_iff s.name s.endpoint s.stratum).1
              (q.named, q.located, q.lowest, q.highest))),
  )
  | inr good ↦ (
    λ _.
        let (a, b, c, d) = (rejected_iff s.name s.endpoint s.stratum).0 good in
        record { named = a; located = b; lowest = c; highest = d },
    λ _. (
      record t { sources = insert s.name (stamped now_ms s) t.sources },
      rw good refl,
      λ name. lookup-insert s.name name (stamped now_ms s) t.sources,
    ),
  )
]
