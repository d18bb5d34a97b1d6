-- ===== src/Limits.antt =====
-- src/limits.rs: the bounds on untrusted input.
use attestation_verify.Prelude.{ℕ, ◌*◌}

abbrev pub max_input_bytes : ℕ
max_input_bytes = 8 * 1024 * 1024

abbrev pub max_json_nodes : ℕ
max_json_nodes = 262144

abbrev pub max_tlog_entries : ℕ
max_tlog_entries = 32

abbrev pub max_statement_subjects : ℕ
max_statement_subjects = 1024

abbrev pub max_bundles_per_set : ℕ
max_bundles_per_set = 64

abbrev pub max_certificates_per_chain : ℕ
max_certificates_per_chain = 128

abbrev pub max_checkpoint_signatures : ℕ
max_checkpoint_signatures = 32
