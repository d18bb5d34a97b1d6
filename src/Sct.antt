-- ===== src/Sct.antt =====
-- src/sct.rs: the list of signed certificate timestamps, the bytes that each signs, and the check of
-- one and of all against the trusted logs. SHA-256 and ECDSA are parameters.
pub mod RoundTrip
pub mod Canonical
pub mod Signed
pub mod Accepted
pub mod Embedded
mod Tests
use attestation_verify.Prelude.{
  ℕ, zero, suc, ◌/◌, Bool, true, false, ◌||◌, not, Option, some, none, List, [], ◌∷◌, ◌++◌, length,
  take, drop, is_empty, find_first, ltb, leb, ◌==◌, if◌then◌else◌, Result, ok, err, ◌>>=◌, ◌>>◌,
  ok_or,
}
use attestation_verify.Prelude.BigEndian.{from_be_bytes, to_be_bytes, be_onto}
use attestation_verify.Prelude.Int.{ℤ, pos, i64_try_from}
use attestation_verify.Prelude.Text.{Bytes, str_eq}
use attestation_verify.Errors.{
  Error, certificate, sct_invalid, sct_missing, unknown_ct_log, sct_outside_key_validity,
}
use attestation_verify.Trust.{TrustStore, CtLog}
use attestation_verify.Dsse.{Ecdsa, from_spki_der, verify_der}
use attestation_verify.Rekor.Window.{within_window}

abbrev pub sct_version_v1 : ℕ
sct_version_v1 = 0

abbrev pub hash_algorithm_sha256 : ℕ
hash_algorithm_sha256 = 4

abbrev pub signature_algorithm_ecdsa : ℕ
signature_algorithm_ecdsa = 3

abbrev pub signature_type_certificate_timestamp : ℕ
signature_type_certificate_timestamp = 0

abbrev pub log_entry_type_precert : ℕ
log_entry_type_precert = 1

pub record ParsedSct : Type 0 where
  pub version : ℕ
  pub log_id : Bytes
  pub timestamp_ms : ℕ
  pub extensions : Bytes
  pub hash_algorithm : ℕ
  pub signature_algorithm : ℕ
  pub signature : Bytes

abbrev pub invalid : Error
invalid = certificate sct_invalid

-- The readers hand on what is left of the cursor.
abbrev pub Read : Type 0 → Type 0
Read A = Result (A × Bytes) Error

unfoldable pub take_bytes : ℕ → Bytes → Read Bytes
take_bytes n cursor =
    if ltb (length cursor) n then err invalid else ok (take n cursor, drop n cursor)

-- `from_be_bytes` of the next `n` bytes: 1, 2 or 8 here.
unfoldable pub take_number : ℕ → Bytes → Read ℕ
unfolding take_bytes
take_number n cursor = take_bytes n cursor >>= λ (b, cursor). ok (from_be_bytes b, cursor)

unfoldable pub parse_single_sct : Bytes → Result ParsedSct Error
unfolding take_bytes take_number
parse_single_sct bytes = do
  (version, cursor) ← take_number 1 bytes
  (log_id, cursor) ← take_bytes 32 cursor
  (timestamp_ms, cursor) ← take_number 8 cursor
  (ext_len, cursor) ← take_number 2 cursor
  (extensions, cursor) ← take_bytes ext_len cursor
  (hash_algorithm, cursor) ← take_number 1 cursor
  (signature_algorithm, cursor) ← take_number 1 cursor
  (sig_len, cursor) ← take_number 2 cursor
  (signature, cursor) ← take_bytes sig_len cursor
  if not (is_empty cursor) then err invalid else ok tt
  ok (record {
    version = version;
    log_id = log_id;
    timestamp_ms = timestamp_ms;
    extensions = extensions;
    hash_algorithm = hash_algorithm;
    signature_algorithm = signature_algorithm;
    signature = signature;
  })

-- The loop over the list, on fuel: a turn takes two bytes at least.
unfoldable pub parse_scts : ℕ → Bytes → Result (List ParsedSct) Error
unfolding take_bytes take_number parse_single_sct
parse_scts fuel [] = ok []
parse_scts zero (b ∷ cursor) = err invalid
parse_scts (suc fuel) (b ∷ cursor) = do
  (sct_len, cursor) ← take_number 2 (b ∷ cursor)
  (sct_bytes, cursor) ← take_bytes sct_len cursor
  sct ← parse_single_sct sct_bytes
  scts ← parse_scts fuel cursor
  ok (sct ∷ scts)

unfoldable pub parse_sct_list : Bytes → Result (List ParsedSct) Error
unfolding take_number parse_scts
parse_sct_list bytes = do
  (list_len, cursor) ← take_number 2 bytes
  if not (list_len == length cursor) then err invalid else ok tt
  parse_scts (length cursor) cursor

-- The u32 length is written in its last three bytes, once it is known to fit them.
unfoldable pub digitally_signed_bytes : ℕ → Bytes → Bytes → Bytes → Result Bytes Error
unfolding be_onto
digitally_signed_bytes timestamp_ms issuer_key_hash precert_tbs ct_extensions = do
  if ltb 0xFFFFFF (length precert_tbs) then err invalid else ok tt
  if ltb 0xFFFF (length ct_extensions) then err invalid else ok tt
  ok (
      sct_version_v1
      ∷ signature_type_certificate_timestamp
      ∷ (to_be_bytes 8 timestamp_ms
          ++ (to_be_bytes 2 log_entry_type_precert
              ++ (issuer_key_hash
                  ++ (to_be_bytes 3 (length precert_tbs)
                      ++ (precert_tbs
                          ++ (to_be_bytes 2 (length ct_extensions) ++ ct_extensions)))))))

-- `first_error.unwrap_or(…)`
abbrev pub unwrap_or : Option Error → Error → Error
unwrap_or none e = e
unwrap_or (some e) e' = e

-- `first_error` is set once.
abbrev pub keep_first : Option Error → Error → Option Error
keep_first none e = some e
keep_first (some first) e = some first

abbrev pub after_one :
    Result (Unit {0}) Error
    → Option Error
    → (Option Error → Result (Unit {0}) Error)
    → Result (Unit {0}) Error
after_one (ok u) first_error rest = ok tt
after_one (err e) first_error rest = rest (keep_first first_error e)

module _ (digest : Bytes → Bytes) (ecdsa : Ecdsa) where
  unfoldable pub verify_one_sct : ParsedSct → Bytes → Bytes → TrustStore → Result (Unit {0}) Error
  unfolding find_first str_eq digitally_signed_bytes from_spki_der verify_der
  verify_one_sct sct precert_tbs issuer_key_hash trust_store = do
    ctlog ←
        ok_or
          (find_first (λ (log : CtLog). str_eq (digest log.public_key.raw_bytes) sct.log_id)
            trust_store.ctlogs)
          (certificate unknown_ct_log)
    timestamp_seconds ← ok_or (i64_try_from (sct.timestamp_ms / 1000)) invalid
    if not (within_window ctlog.public_key.valid_for timestamp_seconds)
        then err (certificate sct_outside_key_validity)
        else ok tt
    if not (sct.version == sct_version_v1)
          || not (sct.hash_algorithm == hash_algorithm_sha256)
          || not (sct.signature_algorithm == signature_algorithm_ecdsa)
        then err invalid
        else ok tt
    message ← digitally_signed_bytes sct.timestamp_ms issuer_key_hash precert_tbs sct.extensions
    log_key ← from_spki_der ecdsa ctlog.public_key.raw_bytes
    if verify_der ecdsa log_key message sct.signature then ok tt else err invalid

  -- The loop of `verify_embedded_scts`: the first one that verifies, or the first error.
  unfoldable pub verify_any_sct :
      List ParsedSct → Option Error → Bytes → Bytes → TrustStore → Result (Unit {0}) Error
  unfolding verify_one_sct
  verify_any_sct [] first_error precert_tbs issuer_key_hash trust_store =
      err (unwrap_or first_error invalid)
  verify_any_sct (sct ∷ scts) first_error precert_tbs issuer_key_hash trust_store =
      after_one (verify_one_sct sct precert_tbs issuer_key_hash trust_store) first_error
        (λ first. verify_any_sct scts first precert_tbs issuer_key_hash trust_store)
