-- ===== src/Sct/Signed.antt =====
-- The bytes that an SCT signs fix what they are made of.
use attestation_verify.Prelude.{
  ℕ, ◌≤◌, ◌≡◌, refl, sym, ◌∙◌, ◌∷◌, ◌++◌, length, ltb, append_inj, arith, ok, refused_not, ok_inj,
  cons_tail,
}
use attestation_verify.Prelude.BigEndian.{Fits, to_be_bytes, to_be_bytes_inj, length-to_be_bytes}
use attestation_verify.Prelude.Text.{Bytes}
use attestation_verify.Sct.{
  digitally_signed_bytes, sct_version_v1, signature_type_certificate_timestamp,
  log_entry_type_precert,
}

abbrev pub signed_layout : ℕ → Bytes → Bytes → Bytes → Bytes
signed_layout time issuer tbs extensions =
    to_be_bytes 8 time
    ++ (to_be_bytes 2 log_entry_type_precert
        ++ (issuer
            ++ (to_be_bytes 3 (length tbs)
                ++ (tbs ++ (to_be_bytes 2 (length extensions) ++ extensions)))))

layout_of :
    (time : ℕ) (issuer tbs extensions : Bytes) {bytes : Bytes}
    → digitally_signed_bytes time issuer tbs extensions ≡ ok bytes
    → (length tbs ≤ 0xFFFFFF)
      × (length extensions ≤ 0xFFFF)
      × (sct_version_v1
            ∷ signature_type_certificate_timestamp
            ∷ signed_layout time issuer tbs extensions
          ≡ bytes)
unfolding digitally_signed_bytes
layout_of time issuer tbs extensions e = refused_not (ltb 0xFFFFFF (length tbs)) _ _ e (λ small e.
    refused_not (ltb 0xFFFF (length extensions)) _ _ e
      (λ few e. (ground arith, ground arith, ok_inj e)))

-- Where the signed bytes of two SCTs agree, and the issuer's key hashes have 32 bytes, so do the
-- times, which are u64, the hashes, the precertificates and the extensions.
pub digitally_signed_bytes_inj :
    (time time' : ℕ) (issuer issuer' tbs tbs' extensions extensions' bytes : Bytes)
    → Fits 8 time
    → Fits 8 time'
    → length issuer ≡ 32
    → length issuer' ≡ 32
    → digitally_signed_bytes time issuer tbs extensions ≡ ok bytes
    → digitally_signed_bytes time' issuer' tbs' extensions' ≡ ok bytes
    → (time ≡ time') × (issuer ≡ issuer') × (tbs ≡ tbs') × (extensions ≡ extensions')
digitally_signed_bytes_inj time time' issuer issuer' tbs tbs' extensions extensions' bytes f f' l l'
      e e' =
    let (small, few, made) = layout_of time issuer tbs extensions e in
    let (small', few', made') = layout_of time' issuer' tbs' extensions' e' in
    let whole = cons_tail (cons_tail (made ∙ sym made')) in
    let (t, rest) =
      append_inj (to_be_bytes 8 time) (to_be_bytes 8 time')
        (length-to_be_bytes 8 time ∙ sym (length-to_be_bytes 8 time')) whole in
    let (_, rest) =
      append_inj (to_be_bytes 2 log_entry_type_precert) (to_be_bytes 2 log_entry_type_precert) refl
        rest in
    let (i, rest) = append_inj issuer issuer' (l ∙ sym l') rest in
    let (n, rest) =
      append_inj (to_be_bytes 3 (length tbs)) (to_be_bytes 3 (length tbs'))
        (length-to_be_bytes 3 (length tbs) ∙ sym (length-to_be_bytes 3 (length tbs'))) rest in
    let same_length =
      to_be_bytes_inj 3 (length tbs) (length tbs') (omega (arith, small)) (omega (arith, small'))
        n in
    let (p, rest) = append_inj tbs tbs' same_length rest in
    let (_, x) =
      append_inj (to_be_bytes 2 (length extensions)) (to_be_bytes 2 (length extensions'))
        (length-to_be_bytes 2 (length extensions) ∙ sym (length-to_be_bytes 2 (length extensions')))
        rest in
    (to_be_bytes_inj 8 time time' f f' t, i, p, x)
