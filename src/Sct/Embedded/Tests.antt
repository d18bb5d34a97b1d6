-- ===== src/Sct/Embedded/Tests.antt =====
-- A certificate with one SCT, with stand-ins for the crates, and the theorems at it.
use attestation_verify.Prelude.{
  ◌≡◌, refl, sym, ap, ◌&&◌, ◌==◌, ==_iff, and_true, Bool-cases, inl, inr, true, false, some, List,
  [], ◌∷◌, ◌++◌, keep, Result, ok, err, ok_inj, if◌then◌else◌,
}
use attestation_verify.Prelude.Int.{pos}
use attestation_verify.Prelude.Text.{Bytes, Text, codes}
use attestation_verify.Errors.{certificate, sct_missing, duplicate_extension}
use attestation_verify.Crates.{
  Extension, X509Certificate, Tag, context_specific, universal, AnyRef, DerCodec,
}
use attestation_verify.Trust.{TrustStore}
use attestation_verify.Samples.{short_digest, zeros_32, toy_ecdsa}
use attestation_verify.X509.Profile.{sct_list_oid}
use attestation_verify.X509.Chain.{ValidatedLeaf}
use attestation_verify.Sct.Embedded.{is_other, precert_tbs_der, verify_embedded_scts}
use attestation_verify.Sct.Embedded.Precert.{
  IsFaithful, IsPrecert, precert_tbs_der-IsPrecert, precert_tbs_der_inj,
}
use attestation_verify.Sct.Embedded.Sound.{HasSct, verify_embedded_scts-HasSct}

abbrev sct_extension : Extension
sct_extension = record { extn_id = sct_list_oid; critical = false; extn_value = [] }

abbrev other_extension : Extension
other_extension = record { extn_id = b'o' ∷ []; critical = false; extn_value = [] }

-- One SCT: version 0, the log id of zeros, 4999 ms, no extensions, SHA-256 and ECDSA, and one byte
-- of signature.
abbrev sct_bytes : Bytes
sct_bytes = 0 ∷ (zeros_32 ++ (0 ∷ 0 ∷ 0 ∷ 0 ∷ 0 ∷ 0 ∷ 19 ∷ 135 ∷ 0 ∷ 0 ∷ 4 ∷ 3 ∷ 0 ∷ 1 ∷ 0 ∷ []))

-- The stand-in writes two fields, of which the second holds extensions, as what the second holds; and
-- extensions as one byte each, for an SCT list or another.
abbrev two_fields : Tag → Bytes → Tag → Bytes → Result Bytes Text
two_fields (universal n) [] (context_specific true m) w = if n == 2 && m == 3 then ok w else err []
two_fields _ _ _ w = err []

abbrev toy_fields_to_der : List AnyRef → Result Bytes Text
toy_fields_to_der (a ∷ b ∷ []) = two_fields a.tag a.value b.tag b.value
toy_fields_to_der _ = err []

abbrev toy_fields : Bytes → List AnyRef
toy_fields w =
    record { tag = universal 2; value = [] }
    ∷ record { tag = context_specific true 3; value = w }
    ∷ []

-- Only a list without extensions, or with the other one, is written.
abbrev toy_extensions_to_der : List Extension → Result Bytes Text
toy_extensions_to_der [] = ok []
toy_extensions_to_der (e ∷ es) = err []

abbrev toy_extensions_from_der : Bytes → Result (List Extension) Text
toy_extensions_from_der [] = ok []
toy_extensions_from_der (b ∷ bs) = ok (sct_extension ∷ [])

abbrev codec : DerCodec
codec = record {
  octet_string_from_der = λ b. ok (0 ∷ 50 ∷ 0 ∷ 48 ∷ sct_bytes);
  fields_from_der = λ b. ok (toy_fields b);
  fields_to_der = toy_fields_to_der;
  extensions_from_der = toy_extensions_from_der;
  extensions_to_der = toy_extensions_to_der;
  any_ref_new = λ tag value. ok (record { tag = tag; value = value });
}

two_fields_back :
    (t : Tag) (v : Bytes) (u : Tag) (w out : Bytes)
    → two_fields t v u w ≡ ok out
    → toy_fields out ≡ record { tag = t; value = v } ∷ record { tag = u; value = w } ∷ []
two_fields_back (universal n) [] (context_specific true m) w out e =
    elim (Bool-cases (n == 2 && m == 3)) [
      | inl both ↦
          let (two, three) = and_true _ _ both in
          let n_two = (==_iff n 2).0 two in
          let m_three = (==_iff m 3).0 three in let same = ok_inj (rw both at e) in cc
      | inr other ↦ absurd (cc (rw other at e))
    ]
two_fields_back (universal n) [] (context_specific false m) w out e = absurd (cc e)
two_fields_back (universal n) [] (universal m) w out e = absurd (cc e)
two_fields_back (universal n) (x ∷ v) u w out e = absurd (cc e)
two_fields_back (context_specific b n) v u w out e = absurd (cc e)

toy_fields_back :
    (fs : List AnyRef) (out : Bytes) → toy_fields_to_der fs ≡ ok out → toy_fields out ≡ fs
toy_fields_back (a ∷ b ∷ []) out e = two_fields_back a.tag a.value b.tag b.value out e
toy_fields_back [] out e = absurd (cc e)
toy_fields_back (a ∷ []) out e = absurd (cc e)
toy_fields_back (a ∷ b ∷ c ∷ rest) out e = absurd (cc e)

toy_extensions_back :
    (es : List Extension) (out : Bytes)
    → toy_extensions_to_der es ≡ ok out
    → toy_extensions_from_der out ≡ ok es
toy_extensions_back [] out e = ap toy_extensions_from_der (sym (ok_inj e))
toy_extensions_back (x ∷ es) out e = absurd (cc e)

codec-IsFaithful : IsFaithful codec
codec-IsFaithful = record {
  fields_back = λ fs out e. ap ok (toy_fields_back fs out e);
  extensions_back = toy_extensions_back;
  any_ref_made = λ tag value a e. sym (ok_inj e);
}

abbrev leaf : X509Certificate
leaf = record {
  subject = [];
  issuer = [];
  validity_not_before = 0;
  validity_not_after = 0;
  extensions = other_extension ∷ sct_extension ∷ [];
  subject_public_key_info = ok [];
  tbs_certificate = ok (9 ∷ []);
  signature_algorithm = [];
  signature = [];
}

abbrev validated : ValidatedLeaf
validated = record { leaf = leaf; leaf_spki_der = []; issuer_spki_der = []; chain_length = 1 }

-- A leaf without the extension, and one that has it twice.
abbrev with_extensions : List Extension → ValidatedLeaf
with_extensions es = record {
  leaf = record {
    subject = [];
    issuer = [];
    validity_not_before = 0;
    validity_not_after = 0;
    extensions = es;
    subject_public_key_info = ok [];
    tbs_certificate = ok [];
    signature_algorithm = [];
    signature = [];
  };
  leaf_spki_der = [];
  issuer_spki_der = [];
  chain_length = 1;
}

abbrev store : TrustStore
store = record {
  media_type = [];
  tlogs = [];
  ctlogs =
      record {
        base_url = [];
        hash_algorithm = [];
        public_key = record {
          raw_bytes = [];
          key_details = [];
          valid_for = record { start = pos 1; end = some (pos 5) };
        };
        log_id_key_id = [];
      }
      ∷ [];
  certificate_authorities = [];
  timestamp_authorities = [];
  fingerprint = [];
  source = [];
}

accepted : verify_embedded_scts short_digest toy_ecdsa codec validated store ≡ ok tt
unfolding verify_embedded_scts codes toy_ecdsa
accepted = refl

refusals :
    (verify_embedded_scts short_digest toy_ecdsa codec
        (with_extensions (other_extension ∷ []))
        store
      ≡ err (certificate sct_missing))
    × (verify_embedded_scts short_digest toy_ecdsa codec
          (with_extensions (sct_extension ∷ sct_extension ∷ []))
          store
        ≡ err (certificate duplicate_extension))
unfolding verify_embedded_scts codes toy_ecdsa
refusals = (refl, refl)

verify_embedded_scts-HasSct_example : HasSct short_digest toy_ecdsa codec validated store
verify_embedded_scts-HasSct_example =
    verify_embedded_scts-HasSct short_digest toy_ecdsa codec validated store accepted

abbrev one : Bytes
one = 9 ∷ []

abbrev other : Bytes
other = 8 ∷ 7 ∷ []

abbrev made : Bytes
made = []

makes : precert_tbs_der codec one ≡ ok made
unfolding precert_tbs_der codes
makes = refl

makes_other : precert_tbs_der codec other ≡ ok made
unfolding precert_tbs_der codes
makes_other = refl

precert_tbs_der-IsPrecert_example :
    (front : List AnyRef) × (es : List Extension) × IsPrecert codec front es one made
precert_tbs_der-IsPrecert_example = precert_tbs_der-IsPrecert codec codec-IsFaithful one made makes

precert_tbs_der_inj_example :
    (front : List AnyRef) × (es : List Extension) × (es' : List Extension) × IsPrecert codec front
      es one made
    × IsPrecert codec front es' other made
    × (keep is_other es ≡ keep is_other es')
precert_tbs_der_inj_example =
    precert_tbs_der_inj codec codec-IsFaithful one other made makes makes_other
