-- ===== src/Dsse/Tests.antt =====
-- Runs of src/dsse.rs, and the theorem at a concrete input.
use attestation_verify.Prelude.{◌≡◌, refl, ◌∷◌, []}
use attestation_verify.Prelude.Text.{Text, codes}
use attestation_verify.Prelude.Decimal.{to_string}
use attestation_verify.Dsse.{pae}
use attestation_verify.Dsse.Pae.{pae_inj}

-- The example of the protocol's specification.
run :
    pae (codes "http://example.com/HelloWorld") (codes "hello world")
    ≡ codes "DSSEv1 29 http://example.com/HelloWorld 11 hello world"
unfolding pae codes to_string
run = refl

abbrev kind : Text
kind = b'k' ∷ []

abbrev payload : Text
payload = b'x' ∷ []

pae_inj_example : (kind ≡ kind) × (payload ≡ payload)
pae_inj_example = pae_inj kind kind payload payload refl
