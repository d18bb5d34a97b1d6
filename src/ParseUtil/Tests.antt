-- ===== src/ParseUtil/Tests.antt =====
-- Runs of src/parse_util.rs, and its theorem at a concrete input.
use attestation_verify.Prelude.{◌≡◌, ◌↔◌, ◌⊎◌, refl, ◌∷◌, [], ok, err}
use attestation_verify.Prelude.Text.{Text, codes}
use attestation_verify.Prelude.Text.Whitespace.{trim, without_whitespace}
use attestation_verify.Prelude.Decimal.Laws.{IsU64, value}
use attestation_verify.Errors.{not_an_integer}
use attestation_verify.ParseUtil.{strict_stringified_u64}
use attestation_verify.ParseUtil.Accepts.{strict_stringified_u64_iff}

abbrev field : Text
field = b'f' ∷ []

runs :
    (strict_stringified_u64 field (codes "2049189324") ≡ ok 2049189324)
    × (strict_stringified_u64 field (codes "+5") ≡ ok 5)
    × (strict_stringified_u64 field (codes "-5") ≡ err (not_an_integer field (codes "-5")))
    × (strict_stringified_u64 field (codes "12abc") ≡ err (not_an_integer field (codes "12abc")))
    × (strict_stringified_u64 field (codes "18446744073709551616")
        ≡ err (not_an_integer field (codes "18446744073709551616")))
    × (trim (codes " \n a b\t ") ≡ codes "a b")
    × (without_whitespace (codes " a\r\nb ") ≡ codes "ab")
unfolding strict_stringified_u64 codes trim without_whitespace
runs = (refl, refl, refl, refl, refl, refl, refl)

abbrev plus_five : Text
plus_five = b'+' ∷ b'5' ∷ []

strict_stringified_u64_iff_example :
    (strict_stringified_u64 field plus_five ≡ ok 5)
    ↔ ((t : Text) × ((plus_five ≡ t) ⊎ (plus_five ≡ b'+' ∷ t)) × IsU64 t × (5 ≡ value t))
strict_stringified_u64_iff_example = strict_stringified_u64_iff field plus_five 5
