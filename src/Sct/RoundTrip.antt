-- ===== src/Sct/RoundTrip.antt =====
-- The parser against the TLS encoding of RFC 6962.
use attestation_verify.Prelude.{
  ℕ, zero, suc, ◌≤◌, ◌≡◌, refl, ap, List, [], ◌∷◌, ◌++◌, length, length-append, take-append_left,
  drop-append_left, All, ok, arith, ltb, true, false, ◌==◌,
}
use attestation_verify.Prelude.BigEndian.{
  be_onto, Fits, to_be_bytes, from_be_bytes-to_be_bytes, length-to_be_bytes,
}
use attestation_verify.Prelude.Text.{Bytes}
use attestation_verify.Sct.{
  ParsedSct, take_bytes, take_number, parse_single_sct, parse_scts, parse_sct_list,
}

take_bytes-append :
    (n : ℕ) (s rest : Bytes) → length s ≡ n → take_bytes n (s ++ rest) ≡ ok (s, rest)
unfolding take_bytes
take_bytes-append n s rest h =
    let long : ltb (length (s ++ rest)) n ≡ false = ground (arith, length-append s rest) in
    rw long (rw (take-append_left s rest n h) (rw (drop-append_left s rest n h) refl))

take_number-append :
    (w n : ℕ) (rest : Bytes) → Fits w n → take_number w (to_be_bytes w n ++ rest) ≡ ok (n, rest)
unfolding take_number
take_number-append w n rest h =
    rw (take_bytes-append w (to_be_bytes w n) rest (length-to_be_bytes w n))
      (ap (λ (m : ℕ). ok (m, rest)) (from_be_bytes-to_be_bytes w n h))

abbrev pub encode_sct : ParsedSct → Bytes
encode_sct s =
    to_be_bytes 1 s.version
    ++ (s.log_id
        ++ (to_be_bytes 8 s.timestamp_ms
            ++ (to_be_bytes 2 (length s.extensions)
                ++ (s.extensions
                    ++ (to_be_bytes 1 s.hash_algorithm
                        ++ (to_be_bytes 1 s.signature_algorithm
                            ++ (to_be_bytes 2 (length s.signature) ++ (s.signature ++ []))))))))

abbrev pub IsSct : ParsedSct → Type 0
IsSct s =
    Fits 1 s.version
    × (length s.log_id ≡ 32)
    × Fits 8 s.timestamp_ms
    × Fits 2 (length s.extensions)
    × Fits 1 s.hash_algorithm
    × Fits 1 s.signature_algorithm
    × Fits 2 (length s.signature)
    × Fits 2 (length (encode_sct s))

parse_single_sct-encode_sct : (s : ParsedSct) → IsSct s → parse_single_sct (encode_sct s) ≡ ok s
unfolding parse_single_sct
parse_single_sct-encode_sct s (version, log_id, time, ext, hash, alg, sig, whole) =
    rw (take_number-append 1 s.version _ version) (
      rw (take_bytes-append 32 s.log_id _ log_id) (
        rw (take_number-append 8 s.timestamp_ms _ time) (
          rw (take_number-append 2 (length s.extensions) _ ext) (
            rw (take_bytes-append (length s.extensions) s.extensions _ refl) (
              rw (take_number-append 1 s.hash_algorithm _ hash) (
                rw (take_number-append 1 s.signature_algorithm _ alg) (
                  rw (take_number-append 2 (length s.signature) _ sig)
                    (rw (take_bytes-append (length s.signature) s.signature [] refl) refl))))))))

abbrev pub encode_scts : List ParsedSct → Bytes
encode_scts [] = []
encode_scts (s ∷ scts) = to_be_bytes 2 (length (encode_sct s)) ++ (encode_sct s ++ encode_scts scts)

abbrev pub encode_sct_list : List ParsedSct → Bytes
encode_sct_list scts = to_be_bytes 2 (length (encode_scts scts)) ++ encode_scts scts

parse_scts-encode_scts :
    (scts : List ParsedSct) (fuel : ℕ)
    → All IsSct scts
    → length (encode_scts scts) ≤ fuel
    → parse_scts fuel (encode_scts scts) ≡ ok scts
unfolding parse_scts be_onto
parse_scts-encode_scts [] fuel h enough = refl
parse_scts-encode_scts (s ∷ scts) zero h enough = absurd (omega arith)
parse_scts-encode_scts (s ∷ scts) (suc fuel) (first, rest) enough =
    let e = encode_sct s in
    let more = encode_scts scts in
    let (_, _, _, _, _, _, _, whole) = first in
    let shorter : length more ≤ fuel = omega (arith, length-append e more) in
    rw (take_number-append 2 (length e) (e ++ more) whole) (
      rw (take_bytes-append (length e) e more refl) (
        rw (parse_single_sct-encode_sct s first)
          (rw (parse_scts-encode_scts scts fuel rest shorter) refl)))

-- The encoding of a list of SCTs is parsed back: each of its parts fits the width it is written in,
-- the log ids have 32 bytes, and so does the whole fit its two bytes of length.
pub parse_sct_list-encode_sct_list :
    (scts : List ParsedSct)
    → All IsSct scts
    → Fits 2 (length (encode_scts scts))
    → parse_sct_list (encode_sct_list scts) ≡ ok scts
unfolding parse_sct_list
parse_sct_list-encode_sct_list scts h whole =
    let n = length (encode_scts scts) in
    let same : (n == n) ≡ true = ground arith in
    rw (take_number-append 2 n (encode_scts scts) whole)
      (rw same (parse_scts-encode_scts scts n h (omega arith)))
