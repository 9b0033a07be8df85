-- ===== src/Osnma/Tests.antt =====
-- Runs of the OSNMA source (src/osnma_source.ts), with bytes for the hex text.
use open_ttt.Prelude.{◌≡◌, refl, ◌↔◌, none, some, ◌∷◌, Text, replicate}
use open_ttt.Osnma.{
  ok, err, key_not_yet_applicable, PartialKeyMaterial, OsnmaTimeSource, result_of, reading_at,
  new_osnma_time_source, default_osnma_key, verify_osnma_key_material, get_time, IsApplicable,
  get_time_iff,
}

abbrev test_given : PartialKeyMaterial
test_given = record {
  pkid = some 7;
  public_key_hex = some (2 ∷ replicate 32 5);
  merkle_root_hex = some (replicate 32 6);
  hash_function = none;
  applicability_ms = some 1000;
}

abbrev plain : Text → Text
plain t = t

abbrev test_source : OsnmaTimeSource
test_source = new_osnma_time_source test_given

abbrev test_after : OsnmaTimeSource
test_after = record test_source {
  verification_result = some (result_of plain plain 2000 test_source.key_material);
}

get_time_iff_example :
    ((get_time plain plain 2000 test_source ≡ (test_after, ok (reading_at 2000))) ↔ (
      IsApplicable plain plain 2000 test_source.key_material
      × (test_after ≡ record test_source {
        verification_result = some (result_of plain plain 2000 test_source.key_material);
      })
      × (reading_at 2000 ≡ reading_at 2000)))
    × (get_time plain plain 2000 test_source ≡ (test_after, ok (reading_at 2000))
        → get_time plain plain 3000 test_after ≡ (test_after, ok (reading_at 3000)))
get_time_iff_example = get_time_iff plain plain test_given 2000 3000 test_after (reading_at 2000)

answered : get_time plain plain 2000 test_source ≡ (test_after, ok (reading_at 2000))
unfolding get_time new_osnma_time_source default_osnma_key verify_osnma_key_material
answered = refl

too_early : (get_time plain plain 999 test_source).1 ≡ err key_not_yet_applicable
unfolding get_time new_osnma_time_source default_osnma_key verify_osnma_key_material
too_early = refl
