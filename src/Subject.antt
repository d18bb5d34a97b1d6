-- ===== src/Subject.antt =====
-- src/subject.rs: the artifact's digest. SHA-256 and hex are parameters.
use attestation_verify.Prelude.{Result, ok, ◌>>=◌, ◌++◌, map_err}
use attestation_verify.Prelude.Text.{Bytes, Text, codes}
use attestation_verify.Errors.{Error, parse, malformed_digest}
use attestation_verify.Crates.{Crates}

pub record Subject : Type 0 where
  pub bytes : Bytes

module _ (crates : Crates) where
  abbrev pub sha256_of : Bytes → Subject
  sha256_of bytes = record { bytes = crates.digest bytes }

  abbrev pub bad_digest : Text → Error
  bad_digest e = parse (malformed_digest (codes "expected 64 hex characters (sha256): " ++ e))

  abbrev pub from_digest_hex : Text → Result Subject Error
  from_digest_hex s =
      map_err (crates.hex_decode 32 s) bad_digest >>= λ out. ok (record { bytes = out })

  abbrev pub to_hex : Subject → Text
  to_hex s = crates.hex_encode s.bytes
