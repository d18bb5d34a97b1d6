-- ===== src/X509.antt =====
-- src/x509.rs: the search for an extension of a certificate.
pub mod Extensions
pub mod Profile
pub mod Chain
use attestation_verify.Prelude.{Bool, Option, some, none, List, [], ◌∷◌, keep, Result, ok, err}
use attestation_verify.Prelude.Text.{Text, str_eq}
use attestation_verify.Errors.{Error, certificate, duplicate_extension}
use attestation_verify.Crates.{Extension}

abbrev pub has_oid : Text → Extension → Bool
has_oid oid e = str_eq e.extn_id oid

-- `matches.next()`, twice
abbrev pub at_most_one : List Extension → Result (Option Extension) Error
at_most_one [] = ok none
at_most_one (first ∷ []) = ok (some first)
at_most_one (first ∷ second ∷ rest) = err (certificate duplicate_extension)

unfoldable pub find_extension : List Extension → Text → Result (Option Extension) Error
unfolding str_eq keep
find_extension extensions oid = at_most_one (keep (has_oid oid) extensions)
