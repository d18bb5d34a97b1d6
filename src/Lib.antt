-- ===== src/Lib.antt =====
-- attestation-verify checks GitHub artifact attestations offline: a Sigstore bundle (a DSSE envelope
-- around an in-toto statement, a leaf certificate, and transparency-log material) against a trusted
-- root and the caller's policy. This library models its Rust code under src/ and the
-- client under tools/conformance/.
--
-- How the program's parts interact. Input comes as JSON bytes. `Bundle::from_json` and
-- `TrustStore::from_json` turn it into hardened data, with the strict reader of src/strict_json.rs, the
-- strict decoders of src/parse_util.rs, the bounds of src/limits.rs and the timestamps of src/time.rs.
-- `Verifier::verify_digest` then composes the checks of one bundle, and `?` between them makes the
-- order of the code the order of the errors: the payload type; the statement, which must name the
-- digest; `verify_tlog_entry`, which ties the bundle's log entry to the envelope and the
-- certificate, and to a log of the trust store, and returns the integrated time; `validate_chain` at
-- that time, which returns the leaf and its issuer's key; the envelope's signature under the leaf's
-- key; an SCT of the leaf; the claims of the leaf and the identity policy. The report takes each
-- part from what these return.
-- Every part fails with a value of the error enums of src/error.rs. The client of tools/conformance/
-- builds such a verifier from its options, with the identity pinned on both sides of the policy and one
-- checkpoint origin, and reports what it returns.
--
-- Which module models which file. A definition has the name of the Rust function, in snake case; the
-- inherent methods `X::from_raw` are `x_from_raw`, and constants are in lower case.
--   Errors                   src/error.rs: the enums, and the conversions that `?` applies (from_parse,
--                            from_limit and so on).
--   Limits                   src/limits.rs: the constants.
--   ParseUtil                src/parse_util.rs: strict_stringified_u64, strict_base64, strict_hex,
--                            strict_pem, check_input_size, check_count.
--   StrictJson               src/strict_json.rs: the visitor and parse_strict. Tree has the values of
--                            serde_json and what its deserializer hands to a visitor.
--   Time, Time.Calendar      src/time.rs: parse_rfc3339 and its helpers; Time.Format has the writer
--                            that it is held against, Time.Calendar.Days the count of days.
--   Bundle, Bundle.Raw,      src/bundle.rs: the data of a bundle, and Bundle::from_json; the sets of
--   Bundle.Set               bundles, BundleSet::from_json_lines and BundleSet::from_github_response.
--   Trust, Trust.Raw         src/trust.rs: the data of a trust store, and TrustStore::from_json.
--   Statement, Subject       src/statement.rs and src/subject.rs: Statement::from_payload,
--                            find_subject, and the digest of an artifact.
--   Dsse                     src/dsse.rs: pae, verify_envelope, and the key of the leaf certificate.
--   Rekor                    src/rekor.rs, a module for each of its sections: Body (the decoded body,
--                            the envelope hash and check_entry_binding), Set (set_signed_bytes,
--                            verify_set, select_log_key), Merkle (RFC 6962 hashes, recompute_root,
--                            verify_inclusion_proof), Checkpoint (parse_checkpoint,
--                            verify_checkpoint), Window (check_time_window), and Entry
--                            (verify_tlog_entry, the composition).
--   Sct, Sct.Embedded        src/sct.rs: parse_sct_list, digitally_signed_bytes, verify_one_sct and
--                            the loop over the SCTs; extract_sct_list_bytes, precert_tbs_der and
--                            verify_embedded_scts.
--   Policy                   src/policy.rs: the checkpoint-origin policy, the GitHub policy, and the
--                            builders of both.
--   PolicyMatch              src/policy_match.rs: glob_match (Glob), the URIs in claims (Uris), and
--                            match_policy with its checks.
--   Fulcio                   src/fulcio.rs: the claims, and extract_claims.
--   X509                     src/x509.rs: find_extension; the profiles of a leaf and an authority
--                            (Profile); validate_chain with the walk of a chain (Chain).
--   Verifier                 src/verifier.rs: the builder, and VerifierBuilder::build. Report has the
--                            report, and Digest has verify_digest and verify_bytes.
--   Conformance              tools/conformance/src/main.rs: the client of the conformance suite: its
--                            options (Arguments), the identity (Identity), the refused shapes and the
--                            checkpoint-origin policy (Shape), and the run.
-- Prelude holds what the components share: results and options as Rust's, lists, byte strings and
-- UTF-8, decimal numbers, and big-endian integers. Samples has stand-ins for the parameters, and
-- Samples.Attestation a bundle that verifies with them. The modules called Tests have runs and the
-- theorems at concrete inputs.
--
-- How code is rendered. A `&str` or `&[u8]` is a list of bytes, each a number. `?` is the bind of a
-- do block over `Result`, so that checks stand in the order of the code and the first that fails
-- gives the error. A `for` loop with `?` is `traverse`, or recursion on the list. u64 values are
-- natural numbers with the bound written where the code checks it (a print above 2 ^ 64 - 1 is not
-- read); i64 seconds are integers without a bound, which the years 0 to 9999 that the parser accepts
-- do not reach. Caller-owned values (policies, stores) are passed; no code here mutates shared state.
--
-- Parameters. The crates are the record Crates: the function of sha2, base64 and hex, and the string
-- printer of serde_json. ECDSA verification and SPKI decoding (p256, p384), x509_cert's reading of a
-- certificate, the DER coding of its extensions and of its to-be-signed part (DerCodec), and what serde
-- derives for the raw shapes (`from_value`) are arguments of the definitions that use them. So is
-- serde_json's deserializer: for any input it is the tree of the calls that it makes of a visitor, in
-- which an error of its own may stand at any place. The places (line and column) that serde_json puts
-- into its messages are not modelled, and a float is the 64 bits that it is stored in. A theorem that
-- relies on documented behaviour of one of these, such as the 32 bytes of a SHA-256 digest, has it as
-- a named hypothesis.
--
-- Loops and fuel. `while last_node > 0` of recompute_root halves the number on every round; `climb`
-- runs on fuel tree_size - 1, its first value, which is an upper bound on the rounds. The loop of
-- glob_match runs on (length text + 1) * (length pattern + 1) rounds: between two backtracks each
-- round takes a byte off the pattern or the text, and a backtrack gives up a byte of the text for
-- good. The loop of parse_sct_list runs on fuel, the length of the list: a turn takes two bytes at
-- least. All other loops are structural recursion on the list that they go through.
--
-- What is not modelled. The Display texts of errors, but for that of ParseError, which the error of a
-- bad commit takes in: nothing decides on them. The embedded trust root is an asset, and an argument
-- here. src/fuzzing.rs, fuzz/, tests/ and examples/verify.rs: harnesses and input or output.
pub mod Prelude
pub mod Errors
pub mod Limits
pub mod Crates
pub mod ParseUtil
mod Samples
pub mod Bundle
pub mod Trust
pub mod Policy
pub mod Time
pub mod Dsse
pub mod Rekor
pub mod Fulcio
pub mod PolicyMatch
pub mod Sct
pub mod Subject
pub mod Statement
pub mod X509
pub mod Verifier
pub mod Conformance
pub mod StrictJson
