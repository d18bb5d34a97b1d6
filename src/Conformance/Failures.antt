-- ===== src/Conformance/Failures.antt =====
-- tools/conformance/src/main.rs: what `Box<dyn StdError>` holds there, and the conversions of `?`.
use attestation_verify.Prelude.{Bool, Option, Result, ok, err, map_err, ok_or, if◌then◌else◌}
use attestation_verify.Prelude.Text.{Text}
use attestation_verify.Errors.{Error}

-- A message of the client, an error of the library, or one of the file system.
pub data Failure : Type 0 where
  message : Text → Failure
  library : Error → Failure
  io : Text → Failure

abbrev pub ok_or_message {ℓ} : {A : Type ℓ} → Option A → Text → Result A Failure
ok_or_message o text = ok_or o (message text)

abbrev pub refuse_if : Bool → Text → Result (Unit {0}) Failure
refuse_if test text = if test then err (message text) else ok tt

abbrev pub from_library {ℓ} : {A : Type ℓ} → Result A Error → Result A Failure
from_library r = map_err r library

abbrev pub from_io {ℓ} : {A : Type ℓ} → Result A Text → Result A Failure
from_io r = map_err r io
