-- ===== src/Sct/Tests.antt =====
-- Runs of src/sct.rs, and its theorems at concrete inputs.
use attestation_verify.Prelude.{
  Bool, true, ◌&&◌, and_true, ltb, ltb→lt, All, length, ℕ, ◌≡◌, ◌↔◌, refl, [], ◌∷◌, ◌++◌, some,
  none, ok, err, Exists,
}
use attestation_verify.Prelude.BigEndian.{be_onto, IsByte, Fits}
use attestation_verify.Prelude.Int.{pos}
use attestation_verify.Prelude.Text.{Bytes}
use attestation_verify.Errors.{certificate, sct_outside_key_validity}
use attestation_verify.Trust.{TrustStore, CtLog}
use attestation_verify.Samples.{short_digest, zeros_32, toy_ecdsa}
use attestation_verify.Sct.{
  ParsedSct, invalid, parse_sct_list, digitally_signed_bytes, verify_one_sct, verify_any_sct,
}
use attestation_verify.Sct.RoundTrip.{encode_sct_list, encode_scts, IsSct}
use attestation_verify.Sct.Canonical.{parse_sct_list_iff}
use attestation_verify.Sct.Signed.{digitally_signed_bytes_inj}
use attestation_verify.Sct.Accepted.{Verifies, IsError, verify_any_sct_iff}

abbrev log : CtLog
log = record {
  base_url = [];
  hash_algorithm = [];
  public_key = record {
    raw_bytes = [];
    key_details = [];
    valid_for = record { start = pos 1; end = some (pos 5) };
  };
  log_id_key_id = [];
}

abbrev store : TrustStore
store = record {
  media_type = [];
  tlogs = [];
  ctlogs = log ∷ [];
  certificate_authorities = [];
  timestamp_authorities = [];
  fingerprint = [];
  source = [];
}

-- The stand-in for a signature is the first byte of what is signed, the version.
abbrev sct : ParsedSct
sct = record {
  version = 0;
  log_id = zeros_32;
  timestamp_ms = 4999;
  extensions = [];
  hash_algorithm = 4;
  signature_algorithm = 3;
  signature = 0 ∷ [];
}

abbrev late : ParsedSct
late = record {
  version = 0;
  log_id = zeros_32;
  timestamp_ms = 5000;
  extensions = [];
  hash_algorithm = 4;
  signature_algorithm = 3;
  signature = 0 ∷ [];
}

runs :
    (parse_sct_list (0 ∷ 0 ∷ []) ≡ ok [])
    × (parse_sct_list (0 ∷ 1 ∷ []) ≡ err invalid)
    × (verify_one_sct short_digest toy_ecdsa sct [] zeros_32 store ≡ ok tt)
    × (verify_one_sct short_digest toy_ecdsa late [] zeros_32 store
        ≡ err (certificate sct_outside_key_validity))
    × (verify_any_sct short_digest toy_ecdsa (late ∷ sct ∷ []) none [] zeros_32 store ≡ ok tt)
    × (verify_any_sct short_digest toy_ecdsa (late ∷ []) none [] zeros_32 store
        ≡ err (certificate sct_outside_key_validity))
unfolding parse_sct_list verify_any_sct toy_ecdsa
runs = (refl, refl, refl, refl, refl, refl)

abbrev are_bytes : Bytes → Bool
are_bytes [] = true
are_bytes (b ∷ s) = ltb b 256 && are_bytes s

are_bytes-IsByte : (s : Bytes) → are_bytes s ≡ true → All IsByte s
are_bytes-IsByte [] h = tt
are_bytes-IsByte (b ∷ s) h =
    let (first, rest) = and_true _ _ h in (ltb→lt b 256 first, are_bytes-IsByte s rest)

encoded-IsByte : All IsByte (encode_sct_list (sct ∷ late ∷ []))
unfolding be_onto
encoded-IsByte = are_bytes-IsByte (encode_sct_list (sct ∷ late ∷ [])) refl

parse_sct_list_iff_example :
    (parse_sct_list (encode_sct_list (sct ∷ late ∷ [])) ≡ ok (sct ∷ late ∷ [])) ↔ (
      (encode_sct_list (sct ∷ late ∷ []) ≡ encode_sct_list (sct ∷ late ∷ []))
      × All IsSct (sct ∷ late ∷ [])
      × Fits 2 (length (encode_scts (sct ∷ late ∷ []))))
parse_sct_list_iff_example =
    parse_sct_list_iff (encode_sct_list (sct ∷ late ∷ [])) (sct ∷ late ∷ []) encoded-IsByte

abbrev signed : Bytes
unfolding be_onto
signed = 0 ∷ 0 ∷ (be_onto 8 4999 [] ++ (0 ∷ 1 ∷ (zeros_32 ++ (0 ∷ 0 ∷ 1 ∷ 9 ∷ 0 ∷ 0 ∷ []))))

signs : digitally_signed_bytes 4999 zeros_32 (9 ∷ []) [] ≡ ok signed
unfolding digitally_signed_bytes signed
signs = refl

abbrev time : ℕ
time = 4999

abbrev tbs : Bytes
tbs = 9 ∷ []

abbrev nothing : Bytes
nothing = []

digitally_signed_bytes_inj_example :
    (time ≡ time) × (zeros_32 ≡ zeros_32) × (tbs ≡ tbs) × (nothing ≡ nothing)
digitally_signed_bytes_inj_example =
    digitally_signed_bytes_inj time time zeros_32 zeros_32 tbs tbs nothing nothing signed refl refl
      refl refl signs signs

verify_any_sct_iff_example :
    ((verify_any_sct short_digest toy_ecdsa (late ∷ sct ∷ []) none [] zeros_32 store ≡ ok tt)
      ↔ Exists (Verifies short_digest toy_ecdsa [] zeros_32 store) (late ∷ sct ∷ []))
    × ((verify_any_sct short_digest toy_ecdsa (late ∷ sct ∷ []) none [] zeros_32 store
          ≡ err (certificate sct_outside_key_validity))
        ↔ IsError short_digest toy_ecdsa [] zeros_32 store
            (late ∷ sct ∷ [])
            (certificate sct_outside_key_validity))
verify_any_sct_iff_example =
    verify_any_sct_iff short_digest toy_ecdsa [] zeros_32 store (late ∷ sct ∷ [])
      (certificate sct_outside_key_validity)
