-- ===== src/AgentPlugin/Generate.antt =====
-- The action that makes a token (plugins/elizaos-plugin-openttt/src/actions/generatePot.ts).
use open_ttt.Prelude.{
  ℕ, Bool, true, false, ◌||◌, Option, none, some, List, [], ◌∷◌, ◌++◌, Text, codes,
}
use open_ttt.PotSigner.{SignerCrypto, PotSignature, sign_pot}
use open_ttt.AgentPlugin.{VerifiedTime, PotCache, pot_cache_set}

pub record PotToken : Type 0 where
  pub version : Text
  pub timestamp : ℕ
  pub sources : List Text
  pub consensus : Bool
  pub deviation_ms : ℕ
  pub agent_id : Text
  pub nonce : Text
  pub pot_hash : Text
  pub issued_at : Text
  pub signature : Option PotSignature

-- A JavaScript value that is given to `JSON.stringify`.
mutual
  pub data Json : Type 0 where
    number big_int : ℕ → Json
    text : Text → Json
    boolean : Bool → Json
    array : Items → Json
    object : Fields → Json

  pub data Items : Type 0 where
    no_items : Items
    item : Json → Items → Items

  pub data Fields : Type 0 where
    no_fields : Fields
    field : Text → Json → Fields → Fields

-- Somewhere in the value is a bigint.
unfoldable mutual
  pub has_big_int : Json → Bool
  has_big_int (number n) = false
  has_big_int (big_int n) = true
  has_big_int (text t) = false
  has_big_int (boolean b) = false
  has_big_int (array xs) = items_have_big_int xs
  has_big_int (object fs) = fields_have_big_int fs

  pub items_have_big_int : Items → Bool
  items_have_big_int no_items = false
  items_have_big_int (item v xs) = has_big_int v || items_have_big_int xs

  pub fields_have_big_int : Fields → Bool
  fields_have_big_int no_fields = false
  fields_have_big_int (field k v fs) = has_big_int v || fields_have_big_int fs

abbrev pub texts_json : List Text → Items
texts_json [] = no_items
texts_json (t ∷ ts) = item (text t) (texts_json ts)

-- `issuedAt` is a bigint.
abbrev pub json_of_signature : PotSignature → Json
json_of_signature s = object (
    field (codes "issuerPubKey") (text s.issuer_pub_key) (
      field (codes "signature") (text s.signature)
        (field (codes "issuedAt") (big_int s.issued_at) no_fields)))

-- A field that is undefined is left out.
abbrev pub signature_field : Option PotSignature → Fields
signature_field none = no_fields
signature_field (some s) = field (codes "signature") (json_of_signature s) no_fields

unfoldable pub json_of_token : PotToken → Json
json_of_token p = object (
    field (codes "version") (text p.version) (
      field (codes "timestamp") (number p.timestamp) (
        field (codes "sources") (array (texts_json p.sources)) (
          field (codes "consensus") (boolean p.consensus) (
            field (codes "deviation_ms") (number p.deviation_ms) (
              field (codes "agent_id") (text p.agent_id) (
                field (codes "nonce") (text p.nonce) (
                  field (codes "potHash") (text p.pot_hash) (
                    field (codes "issued_at") (text p.issued_at)
                      (signature_field p.signature))))))))))

pub record PluginEnv : Type 1 where
  pub crypto : SignerCrypto
  pub signer : crypto.PrivateKey
  pub decimal : ℕ → Text
  pub iso : ℕ → Text
  pub sha256_hex : Text → Text
  -- `JSON.stringify` and `JSON.parse`; `none` is a throw.
  pub stringify : Json → Option Text
  pub parse : Text → Option PotToken

-- `sources.join(",")`.
abbrev pub join_comma : List Text → Text
join_comma [] = []
join_comma (t ∷ []) = t
join_comma (t ∷ u ∷ ts) = let rest = join_comma (u ∷ ts) in t ++ (codes "," ++ rest)

abbrev pub pot_key : Text → Text
pot_key pot_hash = codes "openttt:pot:" ++ pot_hash

abbrev pub last_key : Text → Text
last_key agent_id = codes "openttt:last:" ++ agent_id

module _ (env : PluginEnv) where
  abbrev pub pot_hash_raw : Text → VerifiedTime → Text → Text
  pot_hash_raw agent_id vt nonce =
      agent_id
      ++ (codes ":"
          ++ (env.decimal vt.timestamp
              ++ (codes ":" ++ (join_comma vt.sources ++ (codes ":" ++ nonce)))))

  unfoldable pub make_token : Text → VerifiedTime → Text → ℕ → PotToken
  make_token agent_id vt nonce signed_ms =
      let pot_hash = env.sha256_hex (pot_hash_raw agent_id vt nonce) in
      record {
        version = codes "1.0";
        timestamp = vt.timestamp;
        sources = vt.sources;
        consensus = vt.consensus;
        deviation_ms = vt.deviation_ms;
        agent_id = agent_id;
        nonce = nonce;
        pot_hash = pot_hash;
        issued_at = env.iso vt.timestamp;
        signature = some (sign_pot env.crypto env.signer pot_hash signed_ms);
      }

  -- From the JSON of the token on.
  abbrev pub cache_token :
      ℕ → ℕ → Text → PotToken → Option Text → PotCache → PotCache × Option PotToken
  cache_token pot_ms last_ms agent_id pot none cache = (cache, none)
  cache_token pot_ms last_ms agent_id pot (some json) cache = (
    pot_cache_set last_ms (last_key agent_id) pot.pot_hash 300
        (pot_cache_set pot_ms (pot_key pot.pot_hash) json 300 cache),
    some pot,
  )

  -- The handler of `generatePot`, with the clock when the token is signed and at each store; `none` is
  -- the answer with `success: false`.
  unfoldable pub generate_pot :
      Text → VerifiedTime → Text → ℕ → ℕ → ℕ → PotCache → PotCache × Option PotToken
  generate_pot agent_id vt nonce signed_ms pot_ms last_ms cache =
      let pot = make_token agent_id vt nonce signed_ms in
      cache_token pot_ms last_ms agent_id pot (env.stringify (json_of_token pot)) cache
