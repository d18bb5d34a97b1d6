-- ===== src/Rekor/Set/Binds.antt =====
-- The bytes that a SET signs fix every field that they are made from.
use attestation_verify.Prelude.{
  ℕ, ◌≡◌, refl, sym, ap, ◌∙◌, ◌∷◌, ◌++◌, false, append_inj, some_inj, some, arith, Option,
}
use attestation_verify.Prelude.Text.{Bytes, Text, codes, contains, split_once}
use attestation_verify.Prelude.Text.Pieces.{split_once-append}
use attestation_verify.Prelude.Decimal.{to_string}
use attestation_verify.Prelude.Decimal.Laws.{to_string_inj, to_string-All, digits_end}
use attestation_verify.Crates.{Crates}
use attestation_verify.Rekor.Set.{set_signed_bytes}

-- A piece of text ends at the first byte that it does not contain.
piece_end :
    (c : ℕ) (s s' rest rest' : Text)
    → contains s c ≡ false
    → contains s' c ≡ false
    → s ++ (c ∷ rest) ≡ s' ++ (c ∷ rest')
    → (s ≡ s') × (rest ≡ rest')
piece_end c s s' rest rest' h h' e =
    let both : ◌≡◌ {A = Option (Text × Text)} (some (s, rest)) (some (s', rest')) =
      sym (split_once-append s rest c h)
      ∙ ap (λ (t : Text). split_once t c) e
      ∙ split_once-append s' rest' c h' in
    let p = some_inj both in (ap (λ (q : Text × Text). q.0) p, ap (λ (q : Text × Text). q.1) p)

module _ (crates : Crates) where
  open crates use {base64_encode, hex_encode}

  -- Where the encoders of base64 and hex are injective and print no quote, two entries with the same
  -- signed bytes have the same body, integrated time, log id and log index: a SET over one of them
  -- cannot be used for the other.
  pub set_signed_bytes_inj :
      (encode_inj : (b b' : Bytes) → base64_encode b ≡ base64_encode b' → b ≡ b')
      (hex_inj : (b b' : Bytes) → hex_encode b ≡ hex_encode b' → b ≡ b')
      (encode_plain : (b : Bytes) → contains (base64_encode b) b'"' ≡ false)
      (hex_plain : (b : Bytes) → contains (hex_encode b) b'"' ≡ false) (body body' : Bytes)
      (time time' : ℕ) (id id' : Bytes) (index index' : ℕ)
      → set_signed_bytes crates body time id index ≡ set_signed_bytes crates body' time' id' index'
      → (body ≡ body') × (time ≡ time') × (id ≡ id') × (index ≡ index')
  unfolding set_signed_bytes
  set_signed_bytes_inj encode_inj hex_inj encode_plain hex_plain body body' time time' id id' index
        index' e =
      let (_, e1) = append_inj (codes "{\"body\":\"") (codes "{\"body\":\"") refl e in
      let (b, e2) =
        piece_end b'"' (base64_encode body) (base64_encode body') _ _ (encode_plain body)
          (encode_plain body') e1 in
      let (_, e3) =
        append_inj (codes ",\"integratedTime\":") (codes ",\"integratedTime\":") refl e2 in
      let (t, e4) =
        digits_end b',' (to_string time) (to_string time') _ _ (omega arith) (to_string-All time)
          (to_string-All time') e3 in
      let (_, e5) = append_inj (codes "\"logID\":\"") (codes "\"logID\":\"") refl e4 in
      let (i, e6) =
        piece_end b'"' (hex_encode id) (hex_encode id') _ _ (hex_plain id) (hex_plain id') e5 in
      let (_, e7) = append_inj (codes ",\"logIndex\":") (codes ",\"logIndex\":") refl e6 in
      let (n, _) =
        digits_end b'}' (to_string index) (to_string index') _ _ (omega arith) (to_string-All index)
          (to_string-All index') e7 in
      (
        encode_inj body body' b,
        to_string_inj time time' t,
        hex_inj id id' i,
        to_string_inj index index' n,
      )
