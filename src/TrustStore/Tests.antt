-- ===== src/TrustStore/Tests.antt =====
-- A run of the trust store (src/trust_store.ts).
use open_ttt.Prelude.{◌≡◌, ◌↔◌, true, some, [], Text, codes, text_eq, lookup, if◌then◌else◌}
use open_ttt.TrustStore.{TrustedSource, TrustStore, add_source}
use open_ttt.TrustStore.Keys.{IsAddable, stamped, add_source_iff}

abbrev test_source : TrustedSource
test_source = record {
  name = codes "NIST";
  endpoint = codes "time.nist.gov";
  stratum = 1;
  region = codes "US";
  active = true;
  added_at = 0;
}

abbrev test_store : TrustStore
test_store = record { sources = []; min_sources = 2; max_stratum_drift = 1 }

add_source_iff_example :
    ((t' : TrustStore) × (add_source test_source 77 test_store ≡ some t')
      × ((name : Text)
          → lookup name t'.sources ≡ (
              if text_eq test_source.name name
              then some (stamped 77 test_source)
              else lookup name test_store.sources)))
    ↔ IsAddable test_source
add_source_iff_example = add_source_iff test_source 77 test_store
