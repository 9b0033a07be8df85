-- ===== src/TimeSynthesis/Choice.antt =====
-- Which sources a `TimeSynthesis` asks (src/time_synthesis.ts), with the list of Roughtime servers
-- and the reading of a Roughtime source (src/roughtime_source.ts).
use open_ttt.Prelude.{
  ℕ, ◌+◌, ◌*◌, ◌||◌, Option, none, some, List, [], ◌∷◌, ◌++◌, map, Text, codes, text_eq,
  if◌then◌else◌,
}
use open_ttt.TimeSynthesis.{TimeReading}
use open_ttt.Roughtime.Response.{ValidatedResponse}

pub record RoughtimeServer : Type 0 where
  pub name : Text
  pub host : Text
  pub port : ℕ
  pub pubkey_b64 : Text

unfoldable pub roughtime_servers : List RoughtimeServer
roughtime_servers =
    record {
      name = codes "roughtime-int08h";
      host = codes "roughtime.int08h.com";
      port = 2002;
      pubkey_b64 = codes "AW5uAoTSTDfG5NfY1bTh08GUnOqlRb+HVhbJ3ODJvsE=";
    }
    ∷ record {
      name = codes "roughtime-cloudflare";
      host = codes "roughtime.cloudflare.com";
      port = 2003;
      pubkey_b64 = codes "0GD7c3yP8xEc4Zl2zeuN2SlLvDVVocjsPSL8/Rl/7zg=";
    }
    ∷ record {
      name = codes "roughtime-se";
      host = codes "roughtime.se";
      port = 2002;
      pubkey_b64 = codes "S3AzfZJ5CjSdkJ21ZJGbxqdYP/SoE8fXKY0+aicsehI=";
    }
    ∷ record {
      name = codes "roughtime-txryan";
      host = codes "time.txryan.com";
      port = 2002;
      pubkey_b64 = codes "iBVjxg/1j7y1+kQUTBYdTabxCppesU/07D4PMDJk2WA=";
    }
    ∷ []

-- An HTTPS source with its name and URL, or a Roughtime server.
pub data Source : Type 0 where
  https : Text → Text → Source
  roughtime : RoughtimeServer → Source

abbrev pub source_name : Source → Text
source_name (https name url) = name
source_name (roughtime server) = server.name

unfoldable pub find_server : Text → List RoughtimeServer → List Source
find_server name [] = []
find_server name (s ∷ ss) = if text_eq s.name name then roughtime s ∷ [] else find_server name ss

-- The sources of one configured name; an unknown name gives none.
unfoldable pub sources_of : Text → List Source
unfolding find_server roughtime_servers
sources_of s =
    if text_eq s (codes "nist")
    then https (codes "nist") (codes "https://time.nist.gov/") ∷ []
    else if text_eq s (codes "google") || text_eq s (codes "galileo")
    then https (codes "google") (codes "https://time.google.com/") ∷ []
    else if text_eq s (codes "cloudflare")
    then https (codes "cloudflare") (codes "https://time.cloudflare.com/") ∷ []
    else if text_eq s (codes "apple")
    then https (codes "apple") (codes "https://time.apple.com/") ∷ []
    else if text_eq s (codes "roughtime")
    then map (λ server. roughtime server) roughtime_servers
    else find_server s roughtime_servers

-- The loop of the constructor.
unfoldable pub choose_sources : List Text → List Source
unfolding sources_of
choose_sources [] = []
choose_sources (s ∷ ss) = sources_of s ++ choose_sources ss

-- `none` is the error for a name that no source has.
unfoldable pub get_from_source : Text → List Source → Option Source
get_from_source name [] = none
get_from_source name (s ∷ ss) =
    if text_eq (source_name s) name then some s else get_from_source name ss

-- The end of `RoughtimeSource.getTime`, where milliseconds of uncertainty are whole.
unfoldable pub roughtime_reading : {F : Type 0} → (ℕ → F) → Text → ValidatedResponse → TimeReading F
roughtime_reading of_ms name r = record {
  timestamp = r.midp_seconds * 1000000000;
  uncertainty = of_ms (r.radi_seconds * 1000 + 500);
  stratum = 2;
  source = name;
}

unfoldable pub default_source_names : List Text
default_source_names =
    codes "nist"
    ∷ codes "google"
    ∷ codes "cloudflare"
    ∷ codes "apple"
    ∷ codes "roughtime-int08h"
    ∷ codes "roughtime-cloudflare"
    ∷ codes "roughtime-se"
    ∷ codes "roughtime-txryan"
    ∷ []

-- `config?.sources || DEFAULT_SOURCE_NAMES`; an empty list counts as given.
unfoldable pub configured_sources : Option (List Text) → List Source
unfolding choose_sources default_source_names
configured_sources none = choose_sources default_source_names
configured_sources (some names) = choose_sources names
