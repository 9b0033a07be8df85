-- ===== src/Roughtime/Valid.antt =====
-- When a Roughtime response is accepted (src/roughtime_source.ts).
use mathlib.Core.Path.{ap₂}
use open_ttt.Prelude.{
  ◌+◌, ◌≤◌, ◌≡◌, refl, sym, ap, ◌∙◌, Bool, true, false, Option, none, some, ◌++◌, Text, length,
  codes, subarray, of_le, arith, text_eq→eq, Option-cases, inl, inr,
}
use open_ttt.Roughtime.Wire.{TagMap, parse_message}
use open_ttt.Roughtime.Request.{rt_hash}
use open_ttt.Roughtime.Merkle.{merkle_root}
use open_ttt.Roughtime.Response.{
  Failure, bad_server_key, cert_sig_invalid, bad_delegated_key, srep_sig_invalid, Res, ok, fail,
  ◌>>=◌, guard, or_fail, field, Top, Delegation, Report, ValidatedResponse, open_packet, read_top,
  read_delegation, read_report, dele_context, srep_context, rebuild_ed25519_public_key,
  check_signature, check_report, validate_roughtime_response,
}

>>=-eq-ok {κ μ} :
    {X : Type κ} {Y : Type μ} {y : Y} (step : Res X) (next : X → Res Y)
    → (step >>= next) ≡ ok y
    → (x : X) × (step ≡ ok x) × (next x ≡ ok y)
>>=-eq-ok (fail reason) next e = absurd (ground arith)
>>=-eq-ok (ok x) next e = (x, refl, e)

guard-eq-ok : (b : Bool) (e : Failure) (u : Unit {0}) → guard b e ≡ ok u → b ≡ true
guard-eq-ok true e u h = refl
guard-eq-ok false e u h = absurd (ground arith)

or_fail-eq-ok {ℓ} :
    {A : Type ℓ} (o : Option A) (e : Failure) (a : A) → or_fail o e ≡ ok a → o ≡ some a
or_fail-eq-ok none e a h = absurd (ground arith)
or_fail-eq-ok (some b) e a h = ground arith

ok-injective {ℓ} : {A : Type ℓ} (a b : A) → Res.ok a ≡ ok b → a ≡ b
ok-injective a b h = ground arith

module _ (nonce : Text) where
  -- The packet's message holds the nonce that was sent, and the type of a response.
  pub record IsAnswer (packet : Text) (message : TagMap) : Type 0 where
    pub long_enough : 12 ≤ length packet
    pub parsed :
        parse_message (subarray 12 (12 + of_le (subarray 8 12 packet)) packet) ≡ some message
    pub same_nonce : field (codes "NONC") message ≡ some nonce

  open_packet_sound :
      (packet : Text) (m : TagMap) → open_packet packet nonce ≡ ok m → IsAnswer packet m
  unfolding open_packet
  open_packet_sound packet m e =
      elim (Option-cases (parse_message (subarray 12 (12 + of_le (subarray 8 12 packet)) packet))) [
        | inl bad ↦ absurd (ground arith)
        | inr (top, parsed) ↦ elim (Option-cases (field (codes "NONC") top)) [
          | inl missing ↦ absurd (ground arith)
          | inr (nonc, found) ↦
              let same : top ≡ m = ground arith in
              record {
                long_enough = ground arith;
                parsed = parsed ∙ ap some same;
                same_nonce =
                    ap (field (codes "NONC")) (sym same)
                    ∙ found
                    ∙ ap some (text_eq→eq nonc nonce (ground arith));
              }
        ]
      ]

module _ {Key : Type 0} (sha512 : Text → Text) (create_public_key : Text → Option Key)
    (crypto_verify : Text → Key → Text → Option Bool) where
  -- The raw key has 32 bytes, and the signature verifies with the key that they make.
  pub record IsSigned (raw_key signed signature : Text) : Type 0 where
    pub size : length raw_key ≡ 32
    pub key : Key
    pub made : create_public_key raw_key ≡ some key
    pub verifies : crypto_verify signed key signature ≡ some true

  check_signature_sound :
      (e i : Failure) (raw_key signed signature : Text) (u : Unit {0})
      → check_signature sha512 create_public_key crypto_verify e i raw_key signed signature ≡ ok u
      → IsSigned raw_key signed signature
  unfolding check_signature rebuild_ed25519_public_key
  check_signature_sound e i raw_key signed signature u h =
      elim (Option-cases (create_public_key raw_key)) [
        | inl bad ↦ absurd (ground arith)
        | inr (k, good) ↦ record {
          size = ground arith;
          key = k;
          made = good;
          verifies = ground arith;
        }
      ]

  check_report_sound :
      (request : Text) (top : Top) (d : Delegation) (r : Report) (v : ValidatedResponse)
      → check_report sha512 create_public_key crypto_verify request top d r ≡ ok v
      → (d.mint ≤ r.midp)
        × (r.midp ≤ d.maxt)
        × (merkle_root (rt_hash sha512) request top.indx top.path ≡ (r.root, 0))
        × (record { midp_seconds = r.midp; radi_seconds = r.radi } ≡ v)
  unfolding check_report
  check_report_sound request top d r v h = (
    ground arith,
    ground arith,
    ap₂ (λ x y. (x, y)) (text_eq→eq _ r.root (ground arith)) (ground arith),
    ground arith,
  )

  -- What holds of a response that is accepted.
  pub record IsAuthentic (request packet server_key nonce : Text) (v : ValidatedResponse)
      : Type 0 where
    pub message : TagMap
    pub answer : IsAnswer nonce packet message
    pub top : Top
    pub top_read : read_top message ≡ ok top
    pub delegation : Delegation
    pub report : Report
    pub certificate_read : read_delegation top.cert ≡ ok delegation
    pub report_read : read_report top.srep ≡ ok report
    -- The server's long-term key signs the delegation, the delegated key the report.
    pub certified : IsSigned server_key (dele_context ++ delegation.dele) delegation.cert_sig
    pub signed : IsSigned delegation.pubk (srep_context ++ top.srep) top.sig
    pub not_before : delegation.mint ≤ report.midp
    pub not_after : report.midp ≤ delegation.maxt
    pub included : merkle_root (rt_hash sha512) request top.indx top.path ≡ (report.root, 0)
    pub reported : record { midp_seconds = report.midp; radi_seconds = report.radi } ≡ v

  -- A response is accepted only if it holds the nonce that was sent, the long-term key signs the
  -- delegated key with its validity window, the delegated key signs the report, the report's time is
  -- in that window, and the request's hash is under the report's root with no index bit left. The
  -- time and radius that come out are the signed report's.
  pub validate_sound :
      (request packet server_key nonce : Text) (v : ValidatedResponse)
      → validate_roughtime_response sha512 create_public_key crypto_verify request packet server_key
          nonce
        ≡ ok v
      → IsAuthentic request packet server_key nonce v
  unfolding validate_roughtime_response
  validate_sound request packet server_key nonce v h =
      let (fields, opened, h1) = >>=-eq-ok (open_packet packet nonce) _ h in
      let (top, top_read, h2) = >>=-eq-ok (read_top fields) _ h1 in
      let (d, cert_read, h3) = >>=-eq-ok (read_delegation top.cert) _ h2 in
      let (u1, certified, h4) =
        >>=-eq-ok
          (check_signature sha512 create_public_key crypto_verify bad_server_key cert_sig_invalid
            server_key (dele_context ++ d.dele) d.cert_sig)
          _ h3 in
      let (u2, signed, h5) =
        >>=-eq-ok
          (check_signature sha512 create_public_key crypto_verify bad_delegated_key srep_sig_invalid
            d.pubk (srep_context ++ top.srep) top.sig)
          _ h4 in
      let (r, report_read, h6) = >>=-eq-ok (read_report top.srep) _ h5 in
      let (from, to, included, reported) = check_report_sound request top d r v h6 in
      record {
        message = fields;
        top_read = top_read;
        answer = open_packet_sound nonce packet fields opened;
        top = top;
        delegation = d;
        report = r;
        certificate_read = cert_read;
        report_read = report_read;
        certified =
            check_signature_sound bad_server_key cert_sig_invalid server_key
              (dele_context ++ d.dele) d.cert_sig u1 certified;
        signed =
            check_signature_sound bad_delegated_key srep_sig_invalid d.pubk
              (srep_context ++ top.srep) top.sig u2 signed;
        not_before = from;
        not_after = to;
        included = included;
        reported = reported;
      }
