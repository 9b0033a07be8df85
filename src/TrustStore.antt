-- ===== src/TrustStore.antt =====
-- The trust store (src/trust_store.ts). Strata and times are natural numbers.
pub mod Keys
mod Tests
use open_ttt.Prelude.{
  ℕ, Bool, true, false, ◌||◌, Option, none, some, List, [], ◌∷◌, Text, length, keep_if, count_if,
  ltb, leb, if◌then◌else◌, text_eq, Dict, lookup, insert, erase, is_some,
}

pub record TrustedSource : Type 0 where
  pub name : Text
  pub endpoint : Text
  pub stratum : ℕ
  pub region : Text
  pub active : Bool
  pub added_at : ℕ

pub record TrustStore : Type 0 where
  pub sources : Dict TrustedSource
  pub min_sources : ℕ
  pub max_stratum_drift : ℕ

pub record Quorum : Type 0 where
  pub valid : Bool
  pub active_sources : ℕ
  pub required : ℕ

abbrev pub is_empty : Text → Bool
is_empty [] = true
is_empty (c ∷ cs) = false

-- The loop of the constructor, which takes every source as it is.
unfoldable pub load_sources : List TrustedSource → Dict TrustedSource → Dict TrustedSource
load_sources [] m = m
load_sources (s ∷ ss) m = load_sources ss (insert s.name s m)

unfoldable pub new_store : List TrustedSource → ℕ → ℕ → TrustStore
unfolding load_sources
new_store sources min_sources drift = record {
  sources = load_sources sources [];
  min_sources = min_sources;
  max_stratum_drift = drift;
}

values : Dict TrustedSource → List TrustedSource
values [] = []
values ((k, s) ∷ m) = s ∷ values m

unfoldable pub get_sources : TrustStore → List TrustedSource
unfolding values
get_sources t = values t.sources

-- `none` is the error for an invalid source.
unfoldable pub add_source : TrustedSource → ℕ → TrustStore → Option TrustStore
add_source s now_ms t =
    if is_empty s.name || is_empty s.endpoint || ltb s.stratum 1 || ltb 15 s.stratum
    then none
    else some (record t { sources = insert s.name (record s { added_at = now_ms }) t.sources })

-- Also whether the source was there.
unfoldable pub remove_source : Text → TrustStore → TrustStore × Bool
remove_source name t =
    (record t { sources = erase name t.sources }, is_some (lookup name t.sources))

abbrev is_active : TrustedSource → Bool
is_active s = s.active

unfoldable pub validate_source_quorum : TrustStore → Quorum
unfolding get_sources
validate_source_quorum t =
    let active_sources = length (keep_if is_active (get_sources t)) in
    record {
      valid = leb t.min_sources active_sources;
      active_sources = active_sources;
      required = t.min_sources;
    }

abbrev is_in_region : Text → TrustedSource → Bool
is_in_region region s = text_eq s.region region

unfoldable pub get_sources_by_region : Text → TrustStore → List TrustedSource
unfolding get_sources
get_sources_by_region region t = keep_if (is_in_region region) (get_sources t)
