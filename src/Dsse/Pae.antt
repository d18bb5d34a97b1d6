-- ===== src/Dsse/Pae.antt =====
-- The pre-authentication encoding fixes the type and the payload that it was made from.
use attestation_verify.Prelude.{◌≡◌, refl, arith, length, append_inj}
use attestation_verify.Prelude.Text.{Bytes, Text, codes}
use attestation_verify.Prelude.Decimal.{to_string}
use attestation_verify.Prelude.Decimal.Laws.{to_string_inj, to_string-All, digits_end}
use attestation_verify.Dsse.{pae}

-- Two envelopes with one encoding have one payload type and one payload: a signature over the
-- encoding of one cannot be used for another.
pub pae_inj :
    (type type' : Text) (payload payload' : Bytes)
    → pae type payload ≡ pae type' payload'
    → (type ≡ type') × (payload ≡ payload')
unfolding pae
pae_inj type type' payload payload' e =
    let (_, e1) = append_inj (codes "DSSEv1 ") (codes "DSSEv1 ") refl e in
    let (n, e2) =
      digits_end b' ' (to_string (length type)) (to_string (length type')) _ _ (omega arith)
        (to_string-All _) (to_string-All _) e1 in
    let (t, e3) = append_inj type type' (to_string_inj _ _ n) e2 in
    let (_, e4) =
      digits_end b' ' (to_string (length payload)) (to_string (length payload')) payload payload'
        (omega arith) (to_string-All _) (to_string-All _) (cc) in
    (t, e4)
