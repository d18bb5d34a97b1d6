-- ===== src/Rekor/Set/Tests.antt =====
-- A run of `set_signed_bytes`, and its theorem at a concrete input. The encoders of this file print
-- each byte as one beyond the quote.
use attestation_verify.Prelude.{ℕ, ◌≡◌, refl, ap₂, ◌+◌, ◌∷◌, [], false, ok, arith}
use attestation_verify.Prelude.Text.{Bytes, Text, codes, contains}
use attestation_verify.Prelude.Decimal.{to_string}
use attestation_verify.Crates.{Crates}
use attestation_verify.Samples.{short_digest, toy_hex_decode}
use attestation_verify.Rekor.Set.{set_signed_bytes}
use attestation_verify.Rekor.Set.Binds.{set_signed_bytes_inj}

encode : Bytes → Text
encode [] = []
encode (b ∷ s) = (b + 100) ∷ encode s

abbrev crates : Crates
crates = record {
  digest = short_digest;
  base64_encode = encode;
  base64_decode = λ s. ok s;
  hex_encode = encode;
  hex_decode = toy_hex_decode;
  json_string = λ s. s;
}

run :
    set_signed_bytes crates (1 ∷ []) 12 (2 ∷ []) 3
    ≡ codes "{\"body\":\"e\",\"integratedTime\":12,\"logID\":\"f\",\"logIndex\":3}"
unfolding set_signed_bytes codes encode to_string
run = refl

encode_inj : (b b' : Bytes) → encode b ≡ encode b' → b ≡ b'
unfolding encode
encode_inj [] [] e = refl
encode_inj [] (y ∷ b') e = cc
encode_inj (x ∷ b) [] e = cc
encode_inj (x ∷ b) (y ∷ b') e =
    let heads : x + 100 ≡ y + 100 = cc in
    let tails : encode b ≡ encode b' = cc in ap₂ ◌∷◌ (omega arith) (encode_inj b b' tails)

encode_plain : (b : Bytes) → contains (encode b) b'"' ≡ false
unfolding encode contains
encode_plain [] = refl
encode_plain (x ∷ b) = ground (arith, encode_plain b)

abbrev one : Bytes
one = 1 ∷ []

abbrev two : Bytes
two = 2 ∷ []

abbrev time : ℕ
time = 12

abbrev index : ℕ
index = 3

set_signed_bytes_inj_example : (one ≡ one) × (time ≡ time) × (two ≡ two) × (index ≡ index)
set_signed_bytes_inj_example =
    set_signed_bytes_inj crates encode_inj encode_inj encode_plain encode_plain one one time time
      two two index index refl
